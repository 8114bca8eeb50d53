-- ===== src/TextEditor.antt =====
-- apps/text_editor/src/main.cpp. What the editor asks of the operating system and of the formatted
-- input and output of C is the record `Console`, over a state `W` of the terminal; a write answers
-- whether all of the text was written. A character is its code, and the counter of the rounds is not
-- bounded. A round of the loop spends a unit of fuel, and `none` means that the fuel ran out.
pub mod Keys
pub mod Tests
use communicate_between_proc.Prelude.{
  ℕ, zero, suc, ◌+◌, ◌%◌, ◌≡◌, Bool, true, false, not, ◌&&◌, ◌||◌, Option, none, some, List, [],
  ◌∷◌, ◌++◌, length, get_or, drop, codes, ltb, leb, ◌==◌, if◌then◌else◌,
}

pub record Position : Type 0 where
  pub row : ℕ
  pub col : ℕ

pub record Console (W : Type 0) : Type 0 where
  pub write_text : List ℕ → W → Bool × W
  pub read_key : W → Option ℕ × W
  pub enable_raw_mode : W → Bool × W
  pub disable_raw_mode : W → Bool × W
  pub scan_position : List ℕ → Option Position
  pub print_position : Position → Option (List ℕ)

abbrev pub delete : ℕ
delete = 127

abbrev pub backspace : ℕ
backspace = 8

abbrev pub escape : ℕ
escape = 27

unfoldable pub make_bold : List ℕ → List ℕ
make_bold text = (escape ∷ codes "[1m") ++ text ++ (escape ∷ codes "[0m")

module _ {W : Type 0} (console : Console W) where
  open console use {
    write_text, read_key, enable_raw_mode, disable_raw_mode, scan_position, print_position,
  }

  abbrev pub clear_screen : W → Bool × W
  clear_screen w = write_text (escape ∷ codes "[2J") w

  abbrev pub move_cursor_home : W → Bool × W
  move_cursor_home w = write_text (escape ∷ codes "[H") w

  unfoldable pub refresh_screen : W → Bool × W
  refresh_screen w =
      let (cleared, w') = clear_screen w in
      elim cleared [ true ↦ move_cursor_home w' | false ↦ (false, w') ]

  -- The loop of `get_cursor_position` that fills the buffer; its first argument is the room left.
  unfoldable pub read_reply : ℕ → List ℕ → W → Option (List ℕ) × W
  read_reply zero buf w = (none, w)
  read_reply (suc room) buf w =
      let (key, w') = read_key w in
      elim key [
        | none ↦ (none, w')
        | some k ↦ elim (k == b'R') [
          | true ↦ (some (buf ++ (k ∷ [])), w')
          | false ↦ read_reply room (buf ++ (k ∷ [])) w'
        ]
      ]

  -- The tests on a reply that was read up to its end.
  unfoldable pub parse_reply : List ℕ → Option Position
  parse_reply buf =
      if ltb (length buf) 3
      then none
      else if not (get_or buf 0 0 == escape) || not (get_or buf 1 0 == b'[')
      then none
      else scan_position (drop 2 buf)

  unfoldable pub get_cursor_position : W → Option Position × W
  unfolding read_reply parse_reply
  get_cursor_position w =
      let (requested, w₁) = write_text (escape ∷ codes "[6n") w in
      elim requested [
        | false ↦ (none, w₁)
        | true ↦
            let (reply, w₂) = read_reply 31 [] w₁ in
            elim reply [ none ↦ (none, w₂) | some buf ↦ (parse_reply buf, w₂) ]
      ]

pub record TextEditor : Type 0 where
  pub document : List ℕ
  pub keep_running : Bool
  pub edit_mode : Bool
  pub count : ℕ

unfoldable pub initial : TextEditor
initial = record { document = []; keep_running = true; edit_mode = true; count = 0 }

abbrev pub pop_back : List ℕ → List ℕ
pop_back [] = []
pop_back (x ∷ []) = []
pop_back (x ∷ y ∷ ys) = x ∷ pop_back (y ∷ ys)

unfoldable pub process_key_in_edit_mode : ℕ → TextEditor → TextEditor
process_key_in_edit_mode key e =
    if key == delete || key == backspace
    then record e { document = pop_back e.document }
    else if key == escape
    then record e { edit_mode = false }
    else record e { document = e.document ++ (key ∷ []) }

unfoldable pub process_key_in_view_mode : ℕ → TextEditor → TextEditor
process_key_in_view_mode key e = record e {
  keep_running = if key == b'q' then false else e.keep_running;
  edit_mode = if key == b'e' then true else e.edit_mode;
}

unfoldable pub process_key : ℕ → TextEditor → TextEditor
unfolding process_key_in_edit_mode process_key_in_view_mode
process_key key e =
    if e.edit_mode then process_key_in_edit_mode key e else process_key_in_view_mode key e

module _ {W : Type 0} (console : Console W) where
  open console use {write_text, read_key, enable_raw_mode, disable_raw_mode, print_position}

  unfoldable pub display_menu_in_view_mode : W → Bool × W
  display_menu_in_view_mode w =
      let (homed, w') = move_cursor_home console w in
      elim homed [
        | false ↦ (false, w')
        | true ↦ write_text (10 ∷ 10 ∷ codes "press: q - to quit, e - to continue editing") w'
      ]

  unfoldable pub display_document : TextEditor → W → Bool × W
  unfolding make_bold
  display_document e w =
      if e.count % 2 == 0 then write_text e.document w else write_text (make_bold e.document) w

  -- `print_position` is the call of snprintf: `none` where it fails or the text does not fit.
  unfoldable pub display_cursor_position : W → Bool × W
  unfolding get_cursor_position
  display_cursor_position w =
      let (pos, w') = get_cursor_position console w in
      elim pos [
        | none ↦ (false, w')
        | some p ↦ elim (print_position p) [ none ↦ (false, w') | some text ↦ write_text text w' ]
      ]

  -- The end of a round of the loop in `run`; `some` is an early return of `run`.
  unfoldable pub display : TextEditor → W → Option Bool × TextEditor × W
  unfolding display_document display_cursor_position display_menu_in_view_mode
  display e w =
      let (shown, w₁) = display_document e w in
      let (placed, w₂) = display_cursor_position w₁ in
      let (menu, w₃) = display_menu_in_view_mode w₂ in
      let next : TextEditor = record e { count = e.count + 1 } in
      elim shown [
        | false ↦ (some false, e, w₁)
        | true ↦ elim placed [
          | false ↦ (some false, e, w₂)
          | true ↦ elim e.edit_mode [
            | true ↦ (none, next, w₂)
            | false ↦ elim menu [ false ↦ (some false, e, w₃) | true ↦ (none, next, w₃) ]
          ]
        ]
      ]

  -- A round of the loop. Where no key is read, `run` returns EXIT_FAILURE, which is not 0: true.
  unfoldable pub round : TextEditor → W → Option Bool × TextEditor × W
  unfolding process_key refresh_screen display
  round e w =
      let (key, w₁) = read_key w in
      elim key [
        | none ↦ (some true, e, w₁)
        | some k ↦
            let e' = process_key k e in
            let (refreshed, w₂) = refresh_screen console w₁ in
            elim refreshed [
              | false ↦ (some false, e', w₂)
              | true ↦ elim e'.keep_running [ false ↦ (none, e', w₂) | true ↦ display e' w₂ ]
            ]
      ]

  unfoldable pub rounds : ℕ → TextEditor → W → Option (Bool × TextEditor × W)
  unfolding round
  rounds zero e w = none
  rounds (suc n) e w = elim e.keep_running [
    | false ↦ (let (disabled, w') = disable_raw_mode w in some (disabled, e, w'))
    | true ↦
        let (early, e', w') = round e w in
        elim early [ some result ↦ some (result, e', w') | none ↦ rounds n e' w' ]
  ]

  unfoldable pub run : ℕ → TextEditor → W → Option (Bool × TextEditor × W)
  unfolding rounds
  run fuel e w =
      let (enabled, w') = enable_raw_mode w in
      elim enabled [ false ↦ some (false, e, w') | true ↦ rounds fuel e w' ]
