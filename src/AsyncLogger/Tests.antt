-- ===== src/AsyncLogger/Tests.antt =====
-- The logger of apps/asynchronous_logger at concrete inputs.
use communicate_between_proc.Prelude.{
  ℕ, ◌≡◌, refl, true, none, some, List, [], ◌∷◌, ◌++◌, pos, replicate, drop,
}
use communicate_between_proc.Unix.Kernel.{Kernel, operation_failed}
use communicate_between_proc.Unix.SemaphoreSet
use communicate_between_proc.Unix.SemaphoreSet.{SemaphoreSet}
use communicate_between_proc.Unix.GroupNotifier
use communicate_between_proc.Unix.Sample.{Values, sample}
use communicate_between_proc.AsyncLogger.Buffers.{
  Bytes, OutputMessageBuffer, consume, read_value, receive, reset, format_message, resize, c_string,
  boolean, converted,
}
use communicate_between_proc.Unix.Permissions.{build, get, no_permissions, call}
use communicate_between_proc.AsyncLogger.Creation.{perms, create, wait_till_all_popped}

-- The address of a function, one argument of four bytes, and the texts "ab" and "abcd".
abbrev address : Bytes
address = 1 ∷ 2 ∷ 3 ∷ 4 ∷ 5 ∷ 6 ∷ 7 ∷ 8 ∷ []

abbrev args : List Bytes
args = (9 ∷ 0 ∷ 0 ∷ 0 ∷ []) ∷ []

abbrev text : Bytes
text = 97 ∷ 98 ∷ []

abbrev fresh : OutputMessageBuffer
fresh = record { memory = []; size = 0; read_count = 0 }

-- A buffer that held the longer message.
abbrev used : OutputMessageBuffer
used = record {
  memory = address ++ 9 ∷ 0 ∷ 0 ∷ 0 ∷ 97 ∷ 98 ∷ 99 ∷ 100 ∷ replicate 240 0;
  size = 16;
  read_count = 16;
}

-- No test has a value of floating point.
abbrev no_floating : ℕ → Bytes → Bytes
no_floating width word = []

-- A false is read as true where the bytes behind it are not zero: here they are those of the format.
false_reads_true :
    elim (read_value no_floating boolean (record {
      memory = 0 ∷ 97 ∷ 98 ∷ 99 ∷ 100 ∷ 101 ∷ 102 ∷ 103 ∷ [];
      size = 8;
      read_count = 0;
    }))
      as (λ _. Bytes) [ none ↦ [] | some (value, b) ↦ value ]
    ≡ 1 ∷ []
unfolding read_value converted
false_reads_true = refl

-- The text that printf is handed ends with what the longer one left.
stale_text : c_string (text ++ drop 14 (resize 16 14 used.memory)) ≡ some (97 ∷ 98 ∷ 99 ∷ 100 ∷ [])
unfolding c_string resize
stale_text = refl

fresh_text : c_string (text ++ drop 14 (resize 16 14 fresh.memory)) ≡ some text
unfolding c_string resize
fresh_text = refl

empty_format : consume no_floating 16 [] address fresh ≡ none
unfolding consume read_value converted receive reset format_message
empty_format = refl

abbrev values : Values
values = λ i. 40

abbrev semaphores : SemaphoreSet
semaphores = record { handle = pos 0; count = 1 }

-- A second wait for all the bytes does not return.
all_popped_once :
    let first = wait_till_all_popped sample semaphores 40 values in
    (first.0 ≡ some true) × ((wait_till_all_popped sample semaphores 40 first.1).0 ≡ none)
unfolding wait_till_all_popped GroupNotifier.after GroupNotifier.wait_for_all operation_failed
    SemaphoreSet.decrease_value SemaphoreSet.change_value SemaphoreSet.checked
all_popped_once = (refl, refl)

-- The system, with sets of one semaphore.
abbrev one_semaphore : Kernel Values
one_semaphore = record sample { semctl_stat = λ handle k. (pos 0, 1, k) }

-- 0777, and a set whose semaphore has the capacity.
created_set :
    (perms ≡ 511)
    × ((create one_semaphore 40 (λ i. 0)).0 ≡ some (record { handle = pos 0; count = 1 }))
    × ((create one_semaphore 40 (λ i. 0)).1 0 ≡ 40)
unfolding perms create build get no_permissions call SemaphoreSet.create_private SemaphoreSet.create
    SemaphoreSet.get_info SemaphoreSet.set_values SemaphoreSet.checked operation_failed
created_set = (refl, refl, refl)
