-- ===== src/Kaleidoscope/Parser/RoundTrip.antt =====
-- What was printed parses back.
use communicate_between_proc.Prelude.{
  ℕ, zero, suc, ◌+◌, ◌≤◌, ◌<◌, ◌≡◌, ◌∙◌, refl, sym, ap, true, false, some, List, [], ◌∷◌, ◌++◌,
  arith, length, length-append, append_assoc, pos, negsuc, ℤ, ◌+ℤ◌, ltb_ℤ,
}
use communicate_between_proc.Kaleidoscope.Token.{
  Token, right_parenthesis, comma, is_left_parenthesis, is_right_parenthesis,
}
use communicate_between_proc.Kaleidoscope.Syntax.{
  BinaryOperator, less_than, addition, subtraction, multiplication, Expression, Expressions, nil,
  cons, push_back, is_empty,
}
use communicate_between_proc.Kaleidoscope.Parser.{
  Line, State, TokenSource, ◌>>=◌, token_precedence, get_binary_operator,
  parse_parenthesis_expression, parse_arguments, parse_call, parse_identifier_expression,
  parse_number_expression, parse_primary, parse_binary_operation_rhs, parse_expression,
}
use communicate_between_proc.Kaleidoscope.Parser.Printing.{
  first, list_source, operator_token, print, print_args, print_more, IsComplete, AllComplete,
}

operator_of_token :
    (D : Type 0) (op : BinaryOperator) → get_binary_operator {D = D} (operator_token op) ≡ some op
unfolding get_binary_operator
operator_of_token D less_than = refl
operator_of_token D addition = refl
operator_of_token D subtraction = refl
operator_of_token D multiplication = refl

module _ {D : Type 0} (out : List Line) where
  -- The parser before these tokens, having printed `out`.
  abbrev pub at : List (Token D) → State (List (Token D))
  at ts = record { lexer = ts; output = out }

  -- These tokens do not go on with an operation, or with the arguments of a call.
  abbrev pub Ends : List (Token D) → Type 0
  Ends ts = token_precedence (first ts) ≡ negsuc 0

  abbrev pub NoCall : List (Token D) → Type 0
  NoCall ts = is_left_parenthesis (first ts) ≡ false

  abbrev pub source : TokenSource (List (Token D)) D
  source = list_source D

  -- With enough fuel the parser takes the printed expression off what it reads.
  abbrev pub ReadsPrimary : Expression D → Type 0
  ReadsPrimary e =
      (f k : ℕ) (rest : List (Token D))
      → length (print e) ≤ f
      → length (print e) ≤ k
      → NoCall rest
      → parse_primary source (parse_expression source f) k (at (print e ++ rest))
        ≡ some (e, at rest)

  pub not_empty : (e : Expression D) → IsComplete e → is_empty e ≡ false
  not_empty Expression.none c = elim c [ ]
  not_empty e c = refl

  pub length-print_pos : (e : Expression D) → IsComplete e → 0 < length (print e)
  unfolding print
  length-print_pos Expression.none c = elim c [ ]
  length-print_pos e c = omega arith

  pub rhs_at_end :
      (f k : ℕ) (lhs : Expression D) (rest : List (Token D))
      → Ends rest
      → parse_binary_operation_rhs source (parse_expression source f) (suc k) (pos 0) lhs (at rest)
        ≡ some (lhs, at rest)
  unfolding parse_binary_operation_rhs
  rhs_at_end f k lhs rest h =
      let stop : ltb_ℤ (token_precedence (first rest)) (pos 0) ≡ true =
        ap (λ p. ltb_ℤ p (pos 0)) h in
      rw (stop, ◌>>=◌)

  -- An expression behind which nothing goes on is what its primary is.
  reads_expression :
      (e : Expression D)
      → ReadsPrimary e
      → IsComplete e
      → (f : ℕ) (rest : List (Token D)) → suc (length (print e)) ≤ f
      → NoCall rest
      → Ends rest
      → parse_expression source f (at (print e ++ rest)) ≡ some (e, at rest)
  unfolding parse_expression
  reads_expression e reads c zero rest h n ends = elim h [ ]
  reads_expression e reads c (suc zero) rest h n ends = absurd (omega (arith, length-print_pos e c))
  reads_expression e reads c (suc (suc f)) rest h n ends =
      rw (reads (suc f) (suc f) rest (omega arith) (omega arith) n, ◌>>=◌, not_empty e c)
        (rhs_at_end (suc f) f e rest ends)

  -- A round of the loop, where no stronger operator follows the right operand, and where one does.
  pub rhs_weaker :
      (f k : ℕ) (precedence : ℤ) (op : BinaryOperator) (l r : Expression D) (ts : List (Token D))
      → ReadsPrimary r
      → IsComplete r
      → length (print r) ≤ f
      → length (print r) ≤ k
      → NoCall ts
      → ltb_ℤ (token_precedence {D = D} (operator_token op)) precedence ≡ false
      → ltb_ℤ (token_precedence {D = D} (operator_token op)) (token_precedence (first ts)) ≡ false
      → parse_binary_operation_rhs source
          (parse_expression source f)
          (suc k)
          precedence
          l
          (at (operator_token op ∷ (print r ++ ts)))
        ≡ parse_binary_operation_rhs source
            (parse_expression source f)
            k
            precedence
            (Expression.binary op l r)
            (at ts)
  unfolding parse_binary_operation_rhs
  rhs_weaker f k precedence op l r ts reads c h h' n taken weaker =
      rw (taken, operator_of_token D op, reads f k ts h h' n, ◌>>=◌, not_empty r c, weaker)

  pub rhs_stronger :
      (f k : ℕ) (precedence : ℤ) (op : BinaryOperator) (l r : Expression D) (ts : List (Token D))
      (r' : Expression D) (ts' : List (Token D))
      → ReadsPrimary r
      → IsComplete r
      → IsComplete r'
      → length (print r) ≤ f
      → length (print r) ≤ k
      → NoCall ts
      → ltb_ℤ (token_precedence {D = D} (operator_token op)) precedence ≡ false
      → ltb_ℤ (token_precedence {D = D} (operator_token op)) (token_precedence (first ts)) ≡ true
      → parse_binary_operation_rhs source
          (parse_expression source f)
          k
          (token_precedence {D = D} (operator_token op) +ℤ pos 1)
          r
          (at ts)
        ≡ some (r', at ts')
      → parse_binary_operation_rhs source
          (parse_expression source f)
          (suc k)
          precedence
          l
          (at (operator_token op ∷ (print r ++ ts)))
        ≡ parse_binary_operation_rhs source
            (parse_expression source f)
            k
            precedence
            (Expression.binary op l r')
            (at ts')
  unfolding parse_binary_operation_rhs
  rhs_stronger f k precedence op l r ts r' ts' reads c c' h h' n taken stronger inner = rw (
    taken,
    operator_of_token D op,
    reads f k ts h h' n,
    ◌>>=◌,
    not_empty r c,
    stronger,
    inner,
    not_empty r' c',
  )

  -- One operation between parentheses.
  rhs_operation :
      (f k : ℕ) (op : BinaryOperator) (l r : Expression D) (rest : List (Token D))
      → ReadsPrimary r
      → IsComplete r
      → length (print r) ≤ f
      → length (print r) ≤ suc k
      → parse_binary_operation_rhs source
          (parse_expression source f)
          (suc (suc k))
          (pos 0)
          l
          (at (operator_token op ∷ (print r ++ (right_parenthesis ∷ rest))))
        ≡ some (Expression.binary op l r, at (right_parenthesis ∷ rest))
  unfolding token_precedence
  rhs_operation f k op l r rest reads c h h' =
      rhs_weaker f (suc k) (pos 0) op l r (right_parenthesis ∷ rest) reads c h h' refl (binds op)
        (closes op)
      ∙ rhs_at_end f k (Expression.binary op l r) (right_parenthesis ∷ rest) refl
    where
      binds :
          (op : BinaryOperator)
          → ltb_ℤ (token_precedence {D = D} (operator_token op)) (pos 0) ≡ false
      binds less_than = refl
      binds _ = refl

      closes :
          (op : BinaryOperator)
          → ltb_ℤ (token_precedence {D = D} (operator_token op)) (negsuc 0) ≡ false
      closes less_than = refl
      closes _ = refl

  pub NoCall-operator :
      (op : BinaryOperator) (ts : List (Token D)) → NoCall (operator_token op ∷ ts)
  NoCall-operator less_than ts = refl
  NoCall-operator addition ts = refl
  NoCall-operator subtraction ts = refl
  NoCall-operator multiplication ts = refl

  reads_operation :
      (f : ℕ) (op : BinaryOperator) (l r : Expression D) (rest : List (Token D))
      → ReadsPrimary l
      → ReadsPrimary r
      → IsComplete l
      → IsComplete r
      → length (print l) + length (print r) + 2 ≤ f
      → parse_expression source f
          (at (print l ++ (operator_token op ∷ (print r ++ (right_parenthesis ∷ rest)))))
        ≡ some (Expression.binary op l r, at (right_parenthesis ∷ rest))
  unfolding parse_expression
  reads_operation zero op l r rest reads_l reads_r cl cr h = absurd (omega arith)
  reads_operation (suc zero) op l r rest reads_l reads_r cl cr h = absurd (omega arith)
  reads_operation (suc (suc zero)) op l r rest reads_l reads_r cl cr h =
      absurd (omega (arith, length-print_pos l cl))
  reads_operation (suc (suc (suc f))) op l r rest reads_l reads_r cl cr h =
      rw
        (
          reads_l (suc (suc f)) (suc (suc f))
              (operator_token op ∷ (print r ++ (right_parenthesis ∷ rest))) (omega arith)
              (omega arith) (NoCall-operator op (print r ++ (right_parenthesis ∷ rest))),
          ◌>>=◌,
          not_empty l cl,
        )
        (rhs_operation (suc (suc f)) f op l r rest reads_r cr (omega arith)
          (omega (arith, length-print_pos l cl)))

  -- The arguments collected before, and these behind them.
  abbrev append_args : Expressions D → Expressions D → Expressions D
  append_args acc nil = acc
  append_args acc (cons e es) = append_args (push_back acc e) es

  abbrev AllRead : Expressions D → Type 0
  AllRead nil = Unit
  AllRead (cons e es) = ReadsPrimary e × AllRead es

  reads_arguments :
      (f k : ℕ) (acc : Expressions D) (e : Expression D) (es : Expressions D)
      (rest : List (Token D))
      → ReadsPrimary e
      → AllRead es
      → IsComplete e
      → AllComplete es
      → length (print e ++ print_more es) ≤ f
      → length (print e ++ print_more es) ≤ k
      → parse_arguments source
          (parse_expression source f)
          k
          acc
          (at (print e ++ (print_more es ++ rest)))
        ≡ some (some (append_args acc (cons e es)), at (right_parenthesis ∷ rest))
  unfolding parse_arguments print token_precedence
  reads_arguments f zero acc e es rest reads all c cs h h' =
      absurd (omega (arith, length-append (print e) (print_more es), length-print_pos e c))
  reads_arguments f (suc k) acc e nil rest reads all c cs h h' = rw (
    reads_expression e reads c f (right_parenthesis ∷ rest)
        (omega (arith, length-append (print e) (right_parenthesis ∷ []))) refl refl,
    ◌>>=◌,
    not_empty e c,
  )
  reads_arguments f (suc k) acc e (cons e' es) rest reads all c cs h h' =
      rw
        (
          append_assoc (print e') (print_more es) rest,
          reads_expression e reads c f (comma ∷ (print e' ++ (print_more es ++ rest)))
              (omega (arith, length-append (print e) (comma ∷ (print e' ++ print_more es)))) refl
              refl,
          ◌>>=◌,
          not_empty e c,
        )
        (reads_arguments f k (push_back acc e) e' es rest all.0 all.1 cs.0 cs.1
          (omega (arith, length-append (print e) (comma ∷ (print e' ++ print_more es))))
          (omega (arith, length-append (print e) (comma ∷ (print e' ++ print_more es)))))

  -- Collecting arguments from none on gives the list.
  join : Expressions D → Expressions D → Expressions D
  join nil es = es
  join (cons x xs) es = cons x (join xs es)

  join-push_back :
      (acc : Expressions D) (e : Expression D) (es : Expressions D)
      → join (push_back acc e) es ≡ join acc (cons e es)
  unfolding join
  join-push_back nil e es = refl
  join-push_back (cons x xs) e es = ap (cons x) (join-push_back xs e es)

  join-nil : (acc : Expressions D) → join acc nil ≡ acc
  unfolding join
  join-nil nil = refl
  join-nil (cons x xs) = ap (cons x) (join-nil xs)

  append_args-join : (acc es : Expressions D) → append_args acc es ≡ join acc es
  unfolding join
  append_args-join acc nil = sym (join-nil acc)
  append_args-join acc (cons e es) = append_args-join (push_back acc e) es ∙ join-push_back acc e es

  append_args-nil : (es : Expressions D) → append_args nil es ≡ es
  unfolding join
  append_args-nil es = append_args-join nil es

  starts_argument :
      (e : Expression D) (ts : List (Token D))
      → IsComplete e
      → is_right_parenthesis (first (print e ++ ts)) ≡ false
  unfolding print
  starts_argument Expression.none ts c = elim c [ ]
  starts_argument e ts c = refl

  reads_call :
      (f k : ℕ) (es : Expressions D) (rest : List (Token D))
      → AllRead es
      → AllComplete es
      → length (print_args es) ≤ f
      → length (print_args es) ≤ k
      → parse_call source (parse_expression source f) k (at (print_args es ++ rest))
        ≡ some (some es, at (right_parenthesis ∷ rest))
  unfolding parse_call print
  reads_call f k nil rest all cs h h' = refl
  reads_call f k (cons e es) rest all cs h h' = rw (
    append_assoc (print e) (print_more es) rest,
    ◌>>=◌,
    starts_argument e (print_more es ++ rest) cs.0,
    reads_arguments f k nil e es rest all.0 all.1 cs.0 cs.1 h h',
    append_args-nil (cons e es),
  )

  reads_parenthesis :
      (f k : ℕ) (op : BinaryOperator) (l r : Expression D) (rest : List (Token D))
      → ReadsPrimary l
      → ReadsPrimary r
      → IsComplete l
      → IsComplete r
      → length (print (Expression.binary op l r)) ≤ f
      → parse_primary source
          (parse_expression source f)
          k
          (at (print (Expression.binary op l r) ++ rest))
        ≡ some (Expression.binary op l r, at rest)
  unfolding parse_primary parse_parenthesis_expression print
  reads_parenthesis f k op l r rest reads_l reads_r cl cr h =
      let reassoc : (print l ++ (operator_token op ∷ (print r ++ (right_parenthesis ∷ [])))) ++ rest
          ≡ print l ++ (operator_token op ∷ (print r ++ (right_parenthesis ∷ rest))) =
        append_assoc (print l) (operator_token op ∷ (print r ++ (right_parenthesis ∷ []))) rest
        ∙ ap (λ t. print l ++ (operator_token op ∷ t))
            (append_assoc (print r) (right_parenthesis ∷ []) rest) in
      rw (
        reassoc,
        reads_operation f op l r rest reads_l reads_r cl cr (
            omega (
              arith,
              length-append (print l) (operator_token op ∷ (print r ++ (right_parenthesis ∷ []))),
              length-append (print r) (right_parenthesis ∷ []),
            )),
        ◌>>=◌,
      )

  mutual
    unfolding print parse_primary parse_identifier_expression parse_number_expression

    pub reads_primary : (e : Expression D) → IsComplete e → ReadsPrimary e
    reads_primary Expression.none c = elim c [ ]
    reads_primary (Expression.number d) c = λ f k rest h h' n. refl
    reads_primary (Expression.variable x) c = λ f k rest h h' n. rw (n, ◌>>=◌)
    reads_primary (Expression.binary op l r) c = λ f k rest h h' n.
        reads_parenthesis f k op l r rest (reads_primary l c.0) (reads_primary r c.1) c.0 c.1 h
    reads_primary (Expression.call g args) c = λ f k rest h h' n.
        rw (reads_call f k args rest (reads_all args c) c (omega arith) (omega arith), ◌>>=◌)

    reads_all : (es : Expressions D) → AllComplete es → AllRead es
    reads_all nil c = tt
    reads_all (cons e es) c = (reads_primary e c.0, reads_all es c.1)

  -- A printed expression with nothing missing parses back, from the front of any tokens that do not
  -- go on with an operator or an opening parenthesis, with fuel above its length; nothing is printed.
  pub parse_expression-print :
      (e : Expression D) (f : ℕ) (rest : List (Token D))
      → IsComplete e
      → length (print e) < f
      → NoCall rest
      → Ends rest
      → parse_expression source f (at (print e ++ rest)) ≡ some (e, at rest)
  parse_expression-print e f rest c h n ends =
      reads_expression e (reads_primary e c) c f rest h n ends
