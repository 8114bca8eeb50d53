-- ===== src/Buffering/ProcessInfo.antt =====
-- apps/consumer_producer_problem/include/buffering/process_info.hpp and process_creation.hpp. What
-- `fork` returns is an argument, one outcome for each call; the code stops at the first that it takes
-- for its last.
use communicate_between_proc.Prelude.{
  ℕ, zero, suc, ◌+◌, Bool, true, false, List, [], ◌∷◌, Option, none, some,
}

pub record ProcessInfo : Type 0 where
  pub created_process_count : ℕ
  pub is_child : Bool
  pub is_producer : Bool
  pub group_id : ℕ

-- unix::create_process: no process, the identifier of the child in its parent, or 0 in the child.
pub data Fork : Type 0 where
  failed in_parent in_child : Fork

-- The inner loop, over `left` processes more: whether the caller is a child that returns, its
-- counter `i`, its info, and the outcomes not yet used. Without an outcome nothing more is known.
unfoldable pub create_group :
    ℕ → ℕ → ProcessInfo → List Fork → Option (Bool × ℕ × ProcessInfo × List Fork)
create_group zero i info forks = some (false, i, info, forks)
create_group (suc left) i info [] = none
create_group (suc left) i info (failed ∷ forks) = some (false, i, info, forks)
create_group (suc left) i info (in_parent ∷ forks) =
    create_group left (suc i)
      (record info { created_process_count = info.created_process_count + 1 }) forks
create_group (suc left) i info (in_child ∷ forks) =
    some (true, i, record info { created_process_count = info.created_process_count + 1 }, forks)

-- The outer loop has two rounds, in which `is_producer` is the number of the round.
unfoldable pub create_child_processes : ℕ → ℕ → List Fork → Option ProcessInfo
unfolding create_group
create_child_processes child_producer_count child_consumer_count forks =
    let info : ProcessInfo = record {
      created_process_count = 0;
      is_child = true;
      is_producer = false;
      group_id = 0;
    } in
    elim (create_group child_producer_count 0 info forks) [
      | none ↦ none
      | some (child, i, info₁, forks₁) ↦ elim child [
        | true ↦ some info₁
        | false ↦
            elim (create_group child_consumer_count 0 (record info₁ { is_producer = true })
              forks₁) [
                | none ↦ none
                | some (child, i, info₂, forks₂) ↦ elim child [
                  | true ↦ some info₂
                  | false ↦
                      some (record info₂ { is_child = false; is_producer = true; group_id = i })
                ]
              ]
      ]
    ]
