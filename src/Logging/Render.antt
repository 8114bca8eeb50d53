-- ===== src/Logging/Render.antt =====
-- What format_log of apps/create_logger writes, against a format taken apart: a text, and then for each
-- placeholder what stands between its braces and the text behind it.
use communicate_between_proc.Prelude.{
  ℕ, suc, ◌+◌, ◌-◌, ◌≡◌, refl, ◌≢◌, ap, ap₂, subst, sym, ◌∙◌, Bool, true, false, not, ◌&&◌, none,
  some, List, [], ◌∷◌, ◌++◌, append_assoc, append-nil, length, take, drop, ltb, ◌==◌, arith,
  if◌then◌else◌, length-append, take-append, drop-append, take-length,
}
use communicate_between_proc.Logging.{
  Token, Level, rank, Log, placeholder_begin, placeholder_end, seek, find_next, Reached, format_end,
  next_placeholder, format_first, all_formatted, next_index, format_log, log, end_line,
}

-- A text in which a character does not occur.
unfoldable pub lacks : ℕ → Token → Bool
lacks c [] = true
lacks c (x ∷ xs) = not (x == c) && lacks c xs

seek-append : (t r : Token) (c i : ℕ) → lacks c t ≡ true → seek (t ++ c ∷ r) c i ≡ i + length t
unfolding seek lacks
seek-append [] r c i h = ground arith
seek-append (x ∷ t) r c i h = ground (arith, seek-append t r c (suc i))

seek-lacks : (t : Token) (c i : ℕ) → lacks c t ≡ true → seek t c i ≡ i + length t
unfolding seek lacks
seek-lacks [] c i h = ground arith
seek-lacks (x ∷ t) c i h = ground (arith, seek-lacks t c (suc i))

-- From the end of `a`, the search finds the target behind `t`.
find_next-append :
    (a t r : Token) (c : ℕ)
    → lacks c t ≡ true
    → find_next (length a) (a ++ (t ++ c ∷ r)) c ≡ (true, length a + length t)
unfolding find_next
find_next-append a t r c h =
    rw
      (
        drop-append a (t ++ c ∷ r),
        seek-append t r c (length a) h,
        length-append a (t ++ c ∷ r),
        length-append t (c ∷ r),
      )
      ground arith

find_next-lacks :
    (a t : Token) (c : ℕ)
    → lacks c t ≡ true
    → find_next (length a) (a ++ t) c ≡ (false, length a + length t)
unfolding find_next
find_next-lacks a t c h =
    rw (drop-append a t, seek-lacks t c (length a) h, length-append a t) ground arith

-- What stands between the braces of a placeholder, and the text up to the next one.
abbrev pub Hole : Type 0
Hole = Token × Token

abbrev pub render : Token → List Hole → Token
render text [] = text
render text (hole ∷ holes) =
    text ++ (placeholder_begin ∷ (hole.0 ++ (placeholder_end ∷ render hole.1 holes)))

-- The texts, with an argument in the place of each placeholder as long as there are both.
abbrev pub interleave : Token → List Hole → List Token → Token
interleave text [] args = text
interleave text (hole ∷ holes) [] = text
interleave text (hole ∷ holes) (arg ∷ args) = text ++ (arg ++ interleave hole.1 holes args)

-- The braces are where the placeholders are.
unfoldable pub plain : Token → List Hole → Bool
unfolding lacks
plain text [] = lacks placeholder_begin text
plain text (hole ∷ holes) =
    lacks placeholder_begin text && lacks placeholder_end hole.0 && plain hole.1 holes

abbrev written : Token → Log → Log
written token l = record l { output = l.output ++ token }

-- The parts of a format that end with the braces of its first placeholder.
abbrev up_to_begin : Token → Token
up_to_begin text = text ++ (placeholder_begin ∷ [])

abbrev up_to_end : Token → Token → Token
up_to_end text inside = up_to_begin text ++ (inside ++ (placeholder_end ∷ []))

module _ (text inside rest : Token) where
  abbrev whole : Token
  whole = text ++ (placeholder_begin ∷ (inside ++ (placeholder_end ∷ rest)))

  whole_begin : (up_to_begin text) ++ (inside ++ (placeholder_end ∷ rest)) ≡ whole
  whole_begin = append_assoc text (placeholder_begin ∷ []) (inside ++ (placeholder_end ∷ rest))

  whole_end : (up_to_end text inside) ++ rest ≡ whole
  whole_end =
      append_assoc (up_to_begin text) (inside ++ (placeholder_end ∷ [])) rest
      ∙ ap (λ l. (up_to_begin text) ++ l) (append_assoc inside (placeholder_end ∷ []) rest)
      ∙ whole_begin

  length_end : length (up_to_end text inside) ≡ suc (length text + 1 + length inside)
  length_end = omega (
    arith,
    length-append (up_to_begin text) (inside ++ (placeholder_end ∷ [])),
    length-append inside (placeholder_end ∷ []),
    length-append text (placeholder_begin ∷ []),
  )

  length-whole : length whole ≡ length (up_to_end text inside) + length rest
  length-whole = ap length (sym whole_end) ∙ length-append (up_to_end text inside) rest

  -- The three searches of format_first.
  begin_lem :
      lacks placeholder_begin text ≡ true
      → find_next 0 whole placeholder_begin ≡ (true, length text)
  begin_lem h =
      find_next-append [] text (inside ++ (placeholder_end ∷ rest)) placeholder_begin h
      ∙ ground arith

  end_lem :
      lacks placeholder_end inside ≡ true
      → find_next (suc (length text)) whole placeholder_end
        ≡ (true, length text + 1 + length inside)
  end_lem h =
      let n : length (up_to_begin text) ≡ length text + 1 =
        length-append text (placeholder_begin ∷ []) in
      let m : length (up_to_begin text) ≡ suc (length text) = omega (arith, n) in
      subst (λ l. find_next l whole placeholder_end ≡ (true, length text + 1 + length inside)) m
        (subst
          (λ f.
            find_next (length (up_to_begin text)) f placeholder_end
            ≡ (true, length text + 1 + length inside))
          whole_begin
          (find_next-append (up_to_begin text) inside rest placeholder_end h
            ∙ ap (λ l. (true, l + length inside)) n))

  after_lem :
      (found : Bool) (n : ℕ)
      → find_next
          (length (up_to_end text inside))
          ((up_to_end text inside) ++ rest)
          placeholder_begin
        ≡ (found, length (up_to_end text inside) + n)
      → find_next (suc (length text + 1 + length inside)) whole placeholder_begin
        ≡ (found, length (up_to_end text inside) + n)
  after_lem found n e = rw (sym length_end, sym whole_end) e

  drop_lem : drop (suc (length text + 1 + length inside)) whole ≡ rest
  drop_lem = ap₂ drop (sym length_end) (sym whole_end) ∙ drop-append (up_to_end text inside) rest

  format_first-end :
      (first : Token) (l : Log)
      → lacks placeholder_begin text ≡ true
      → lacks placeholder_end inside ≡ true
      → length rest ≡ 0
      → format_first whole first l ≡ (format_end, written first (written text l))
  unfolding format_first
  format_first-end first l t i r =
      let at_end : (length text + 1 + length inside == length whole - 1) ≡ true =
        ground (arith, length-whole, length_end, r) in
      rw
        (
          format_first,
          begin_lem t,
          end_lem i,
          take-append text (placeholder_begin ∷ (inside ++ (placeholder_end ∷ rest))),
          at_end,
        )
        refl

  format_first-next :
      (first after : Token) (l : Log) (found : Bool)
      → lacks placeholder_begin text ≡ true
      → lacks placeholder_end inside ≡ true
      → length rest ≢ 0
      → take (length after) rest ≡ after
      → find_next
          (length (up_to_end text inside))
          ((up_to_end text inside) ++ rest)
          placeholder_begin
        ≡ (found, length (up_to_end text inside) + length after)
      → format_first whole first l ≡ (
        next_placeholder found (length (up_to_end text inside) + length after),
        written after (written first (written text l)),
      )
  unfolding format_first
  format_first-next first after l found t i r a n =
      let at_end : (length text + 1 + length inside == length whole - 1) ≡ false =
        ground (arith, length-whole, length_end, r) in
      let span : length (up_to_end text inside)
            + length after
            - suc (length text + 1 + length inside)
          ≡ length after =
        omega (arith, length_end) in
      rw
        (
          format_first,
          begin_lem t,
          end_lem i,
          after_lem found (length after) n,
          drop_lem,
          take-append text (placeholder_begin ∷ (inside ++ (placeholder_end ∷ rest))),
          at_end,
          span,
          a,
        )
        refl

append_parts : (o a b c : Token) → o ++ a ++ b ++ c ≡ o ++ (a ++ (b ++ c))
append_parts o a b c = append_assoc (o ++ a) b c ∙ append_assoc o a (b ++ c)

-- The two clauses of format_log, where the first argument comes so far.
format_log-last :
    (format first : Token) (l l' : Log) (reached : Reached)
    → format_first format first l ≡ (reached, l')
    → format_log format first [] l ≡ (all_formatted reached, l')
unfolding format_log
format_log-last format first l l' reached e = ap (λ r. (all_formatted r.0, r.1)) e

format_log-more :
    (format first second : Token) (rest : List Token) (l l' : Log) (reached : Reached)
    → format_first format first l ≡ (reached, l')
    → format_log format first (second ∷ rest) l ≡ elim (next_index reached) as (λ _. Bool × Log) [
      | none ↦ (false, l')
      | some index ↦ format_log (drop index format) second rest l'
    ]
unfolding format_log
format_log-more format first second rest l l' reached e =
    ap
      (λ (r : Reached × Log). elim (next_index r.0) as (λ _. Bool × Log) [
        | none ↦ (false, r.1)
        | some index ↦ format_log (drop index format) second rest r.1
      ])
      e

brace_ne_zero : (text rest : Token) (c : ℕ) → length (text ++ c ∷ rest) ≢ 0
brace_ne_zero text rest c e = omega (arith, length-append text (c ∷ rest))

-- A format that goes on with a further placeholder.
module _ (text inside after : Token) (next : Hole) (holes : List Hole) where
  abbrev tail : Token
  tail = render [] (next ∷ holes)

  abbrev format : Token
  format = render text ((inside, after) ∷ next ∷ holes)

  first_lem :
      (first : Token) (l : Log)
      → plain text ((inside, after) ∷ next ∷ holes) ≡ true
      → format_first format first l ≡ (
        next_placeholder true (length (up_to_end text inside) + length after),
        written after (written first (written text l)),
      )
  unfolding plain
  first_lem first l p =
      let more = next.0 ++ (placeholder_end ∷ render next.1 holes) in
      format_first-next text inside (after ++ tail) first after l true (ground arith) (ground arith)
        (brace_ne_zero after more placeholder_begin) (take-append after tail)
        (find_next-append (up_to_end text inside) after more placeholder_begin (ground arith))

  tail_lem : drop (length (up_to_end text inside) + length after) format ≡ tail
  tail_lem =
      ap₂ drop (sym (length-append (up_to_end text inside) after)) (
        sym
          (append_assoc (up_to_end text inside) after tail ∙ whole_end text inside (after ++ tail)))
      ∙ drop-append (up_to_end text inside ++ after) tail

-- format_log writes the texts and the arguments, and says whether there are as many of these as placeholders.
format_log-render :
    (text : Token) (hole : Hole) (holes : List Hole) (first : Token) (rest : List Token) (l : Log)
    → plain text (hole ∷ holes) ≡ true
    → format_log (render text (hole ∷ holes)) first rest l ≡ (
      length holes == length rest,
      record l { output = l.output ++ interleave text (hole ∷ holes) (first ∷ rest) },
    )
unfolding format_log plain
format_log-render text (inside, []) [] first rest l p = by_rest rest
  where
    e :
        format_first (render text ((inside, []) ∷ [])) first l
        ≡ (format_end, written first (written text l))
    e = format_first-end text inside [] first l (ground arith) (ground arith) refl

    o : l.output ++ text ++ first ≡ l.output ++ (text ++ (first ++ []))
    o =
        append_assoc l.output text first
        ∙ ap (λ t. l.output ++ (text ++ t)) (sym (append-nil first))

    by_rest :
        (rest : List Token)
        → format_log (render text ((inside, []) ∷ [])) first rest l
          ≡ (0 == length rest, record l { output = l.output ++ (text ++ (first ++ [])) })
    by_rest [] =
        format_log-last _ first l _ format_end e ∙ ap (λ t. (true, record l { output = t })) o
    by_rest (second ∷ rest) =
        format_log-more _ first second rest l _ format_end e
        ∙ ap₂ (λ b t. (b, record l { output = t })) (ground arith) o
format_log-render text (inside, x ∷ after) [] first rest l p = by_rest rest
  where
    e : format_first (render text ((inside, x ∷ after) ∷ [])) first l ≡ (
      next_placeholder false (length (up_to_end text inside) + length (x ∷ after)),
      written (x ∷ after) (written first (written text l)),
    )
    e =
        format_first-next text inside (x ∷ after) first (x ∷ after) l false (ground arith)
          (ground arith) (λ z. ground arith) (take-length (x ∷ after))
          (find_next-lacks (up_to_end text inside) (x ∷ after) placeholder_begin (ground arith))

    o : l.output ++ text ++ first ++ (x ∷ after) ≡ l.output ++ (text ++ (first ++ (x ∷ after)))
    o =
        append_assoc (l.output ++ text) first (x ∷ after)
        ∙ append_assoc l.output text (first ++ (x ∷ after))

    by_rest :
        (rest : List Token)
        → format_log (render text ((inside, x ∷ after) ∷ [])) first rest l
          ≡ (0 == length rest, record l { output = l.output ++ (text ++ (first ++ (x ∷ after))) })
    by_rest [] = format_log-last _ first l _ _ e ∙ ap (λ t. (true, record l { output = t })) o
    by_rest (second ∷ rest) =
        format_log-more _ first second rest l _ _ e
        ∙ ap₂ (λ b t. (b, record l { output = t })) (ground arith) o
format_log-render text (inside, after) (next ∷ holes) first [] l p =
    format_log-last (format text inside after next holes) first l _ _
      (first_lem text inside after next holes first l p)
    ∙ ap₂ (λ b t. (b, record l { output = t })) (ground arith)
        (append_parts l.output text first after)
format_log-render text (inside, after) (next ∷ holes) first (second ∷ rest) l p =
    let l' = written after (written first (written text l)) in
    let more = second ++ interleave next.1 holes rest in
    format_log-more (format text inside after next holes) first second rest l _ _
      (first_lem text inside after next holes first l p)
    ∙ ap (λ f. format_log f second rest l') (tail_lem text inside after next holes)
    ∙ format_log-render [] next holes second rest l' (ground arith)
    ∙ ap₂ (λ b t. (b, record l { output = t })) (ground arith)
        (append_assoc (l.output ++ text ++ first) after more
          ∙ append_parts l.output text first (after ++ more))

if_not {ℓ} : {A : Type ℓ} (b : Bool) (x y : A) → (if not b then x else y) ≡ (if b then y else x)
if_not true x y = refl
if_not false x y = refl

-- Where the braces of a format are those of its placeholders, and there is a placeholder and an argument:
-- below the current level a call writes nothing and returns true; else it writes the texts of the
-- format with the arguments in the places of the placeholders, as long as there are both, and it returns
-- true, with the end of the line written, where there are as many of them, and false otherwise.
pub log-render :
    (level : Level) (text : Token) (hole : Hole) (holes : List Hole) (first : Token)
    (rest : List Token) (l : Log)
    → plain text (hole ∷ holes) ≡ true
    → log level (render text (hole ∷ holes)) (first ∷ rest) l ≡ (
        if ltb (rank level) (rank l.curr_level)
        then (true, l)
        else if length holes == length rest
        then (
          true,
          record l {
            output = l.output ++ interleave text (hole ∷ holes) (first ∷ rest) ++ (10 ∷ []);
          },
        )
        else (
          false,
          record l { output = l.output ++ interleave text (hole ∷ holes) (first ∷ rest) },
        ))
unfolding log
log-render level text hole holes first rest l p =
    ap
      (λ (r : Bool × Log).
        if ltb (rank level) (rank l.curr_level)
        then (true, l)
        else if not r.0
        then (false, r.1)
        else end_line r.1)
      (format_log-render text hole holes first rest l p)
    ∙ ap (λ x. if ltb (rank level) (rank l.curr_level) then (true, l) else x)
        (if_not (length holes == length rest) _ _)
