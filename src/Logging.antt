-- ===== src/Logging.antt =====
-- apps/create_logger/src/main.cpp, the logger of the namespace `log`. Its two static variables, the level
-- and what the logger wrote to the standard output, are the record `Log`. An argument is the text
-- that std::to_string gives of it; a text is its characters' codes.
pub mod Render
pub mod Tests
use communicate_between_proc.Prelude.{
  ℕ, zero, suc, ◌+◌, ◌-◌, Bool, true, false, not, Option, none, some, List, [], ◌∷◌, ◌++◌, length,
  take, drop, ltb, ◌==◌, if◌then◌else◌,
}

abbrev pub Token : Type 0
Token = List ℕ

pub data Level : Type 0 where
  debug info warn error fatal off : Level

-- The number of a level in its enumeration.
abbrev pub rank : Level → ℕ
rank debug = 0
rank info = 1
rank warn = 2
rank error = 3
rank fatal = 4
rank off = 5

pub record Log : Type 0 where
  pub curr_level : Level
  pub output : Token

-- The methods of `logger`.
abbrev pub write : Token → Log → Bool × Log
write token l = (true, record l { output = l.output ++ token })

abbrev pub end_line : Log → Bool × Log
end_line l = (true, record l { output = l.output ++ (10 ∷ []) })

abbrev pub placeholder_begin : ℕ
placeholder_begin = 123

abbrev pub placeholder_end : ℕ
placeholder_end = 125

-- The loop of find_next: the index of the target in the characters from `index` on, or of their end.
unfoldable pub seek : Token → ℕ → ℕ → ℕ
seek [] target index = index
seek (x ∷ xs) target index =
    let further = seek xs target (suc index) in if x == target then index else further

unfoldable pub find_next : ℕ → Token → ℕ → Bool × ℕ
find_next index format target =
    let index' = seek (drop index format) target index in (not (index' == length format), index')

-- How far format_log comes before it looks at the arguments behind the first.
pub data Reached : Type 0 where
  failed : Reached
  -- the placeholder ends the format
  format_end : Reached
  -- whether there is a further placeholder, and the index reached
  next_placeholder : Bool → ℕ → Reached

unfoldable pub format_first : Token → Token → Log → Reached × Log
format_first format first l =
    let (begin_found, index) = find_next 0 format placeholder_begin in
    let (logged_before, l₁) = write (take index format) l in
    let (logged_argument, l₂) = write first l₁ in
    let (end_found, end_index) = find_next (suc index) format placeholder_end in
    let first_index = suc end_index in
    let (next_found, next_index) = find_next first_index format placeholder_begin in
    let (logged_after, l₃) = write (take (next_index - first_index) (drop first_index format)) l₂ in
    if not begin_found
    then (failed, l)
    else if not logged_before
    then (failed, l₁)
    else if not logged_argument
    then (failed, l₂)
    else if not end_found
    then (failed, l₂)
    else if end_index == length format - 1
    then (format_end, l₂)
    else if not logged_after
    then (failed, l₃)
    else (next_placeholder next_found next_index, l₃)

-- The result behind the last argument.
abbrev pub all_formatted : Reached → Bool
all_formatted failed = false
all_formatted format_end = true
all_formatted (next_placeholder next_found index) = not next_found

-- Where to go on with a further argument.
abbrev pub next_index : Reached → Option ℕ
next_index (next_placeholder true index) = some index
next_index _ = none

unfoldable pub format_log : Token → Token → List Token → Log → Bool × Log
format_log format first [] l =
    let (reached, l') = format_first format first l in (all_formatted reached, l')
format_log format first (second ∷ rest) l =
    let (reached, l') = format_first format first l in
    elim (next_index reached) [
      | none ↦ (false, l')
      | some index ↦ format_log (drop index format) second rest l'
    ]

-- impl::log.
unfoldable pub log : Level → Token → List Token → Log → Bool × Log
log level format [] l =
    let (logged, l₁) = write format l in
    if ltb (rank level) (rank l.curr_level)
    then (true, l)
    else if not logged
    then (false, l₁)
    else end_line l₁
log level format (first ∷ rest) l =
    let (formatted, l₁) = format_log format first rest l in
    if ltb (rank level) (rank l.curr_level)
    then (true, l)
    else if not formatted
    then (false, l₁)
    else end_line l₁

unfoldable pub set_level : Level → Log → Log
set_level level l = record l { curr_level = level }

-- The functions of the levels.
unfoldable pub log_debug : Token → List Token → Log → Bool × Log
log_debug format args l = log debug format args l

unfoldable pub log_info : Token → List Token → Log → Bool × Log
log_info format args l = log info format args l

unfoldable pub log_warn : Token → List Token → Log → Bool × Log
log_warn format args l = log warn format args l

unfoldable pub log_error : Token → List Token → Log → Bool × Log
log_error format args l = log error format args l

unfoldable pub log_fatal : Token → List Token → Log → Bool × Log
log_fatal format args l = log fatal format args l
