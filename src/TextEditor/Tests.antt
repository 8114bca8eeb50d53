-- ===== src/TextEditor/Tests.antt =====
-- The results on apps/text_editor at concrete inputs.
use communicate_between_proc.Prelude.{
  ℕ, ◌≡◌, refl, true, Option, none, some, List, [], ◌∷◌, replicate, codes, arith,
}
use communicate_between_proc.TextEditor.{Console, TextEditor, delete, initial, run}
use communicate_between_proc.TextEditor.Keys.{process_keys, delete-type}

-- A terminal that takes every write, over the characters still to be read.
abbrev key_of : List ℕ → Option ℕ × List ℕ
key_of [] = (none, [])
key_of (k ∷ ks) = (some k, ks)

abbrev terminal : Console (List ℕ)
terminal = record {
  write_text = λ text w. (true, w);
  read_key = key_of;
  enable_raw_mode = λ w. (true, w);
  disable_raw_mode = λ w. (true, w);
  scan_position = λ text. some (record { row = 1; col = 1 });
  print_position = λ p. some [];
}

abbrev editing : TextEditor
editing = record { document = codes "ab"; keep_running = true; edit_mode = true; count = 3 }

delete-type_example :
    process_keys (replicate 2 delete) (process_keys (b'x' ∷ b'y' ∷ []) editing) ≡ editing
delete-type_example = delete-type (b'x' ∷ b'y' ∷ []) editing refl (
  λ e. absurd (omega arith),
  λ e. absurd (omega arith),
  λ e. absurd (omega arith),
  (λ e. absurd (omega arith), λ e. absurd (omega arith), λ e. absurd (omega arith), tt),
)

-- An input that cannot be read ends the run with true, as if the editor had succeeded.
read_failure : run terminal 1 initial [] ≡ some (true, initial, [])
unfolding run initial
read_failure = refl
