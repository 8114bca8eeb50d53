-- ===== src/Barber/Roles.antt =====
-- apps/sleeping_barber_problem/include/barber/process_info.hpp and role/parent.hpp, with what `fork` returns
-- as an argument, one outcome for each call.
use communicate_between_proc.Prelude.{
  ℕ, zero, suc, ◌+◌, Bool, true, false, List, [], ◌∷◌, Option, none, some,
}
use communicate_between_proc.Buffering.ProcessInfo.{Fork, failed, in_parent, in_child}

pub record ProcessInfo : Type 0 where
  pub is_child : Bool
  pub is_barber : Bool
  pub created_process_count : ℕ
  pub group_id : ℕ

-- The inner loop, over `left` processes more: whether the caller is a child that returns, its info, and
-- the outcomes not yet used.
unfoldable pub create_group : ℕ → ProcessInfo → List Fork → Option (Bool × ProcessInfo × List Fork)
create_group zero info forks = some (false, info, forks)
create_group (suc left) info [] = none
create_group (suc left) info (failed ∷ forks) = some (false, info, forks)
create_group (suc left) info (in_parent ∷ forks) =
    create_group left (record info { created_process_count = info.created_process_count + 1 }) forks
create_group (suc left) info (in_child ∷ forks) =
    some (true, record info { created_process_count = info.created_process_count + 1 }, forks)

-- The outer loop has two rounds, in which `is_barber` is the number of the round.
unfoldable pub create_child_processes : ℕ → ℕ → List Fork → Option ProcessInfo
create_child_processes barber_count customer_generator_count forks =
    let info : ProcessInfo = record {
      is_child = true;
      is_barber = false;
      created_process_count = 0;
      group_id = 0;
    } in
    elim (create_group customer_generator_count info forks) [
      | none ↦ none
      | some (child, info₁, forks₁) ↦ elim child [
        | true ↦ some info₁
        | false ↦ elim (create_group barber_count (record info₁ { is_barber = true }) forks₁) [
          | none ↦ none
          | some (child, info₂, forks₂) ↦ elim child [
            | true ↦ some info₂
            | false ↦ some (record info₂ { is_child = false; is_barber = false; group_id = 0 })
          ]
        ]
      ]
    ]
