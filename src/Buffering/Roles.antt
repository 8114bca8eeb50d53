-- ===== src/Buffering/Roles.antt =====
-- Which occupation each process gets that create_child_processes of
-- apps/consumer_producer_problem/include/buffering/process_creation.hpp makes.
use communicate_between_proc.Prelude.{
  ℕ, zero, suc, ◌+◌, ◌-◌, ◌<◌, ◌≡◌, ap, Bool, true, false, some, List, ◌∷◌, ◌++◌, replicate, leb,
  arith, ◌∙◌, dec_lt,
}
use communicate_between_proc.Buffering.ProcessInfo.{
  ProcessInfo, Fork, in_parent, in_child, create_group, create_child_processes,
}

abbrev with_created : ProcessInfo → ℕ → ProcessInfo
with_created info n = record info { created_process_count = n }

-- The forks of a round up to its end, in the parent.
create_group-replicate :
    (n i : ℕ) (info : ProcessInfo) (forks : List Fork)
    → create_group n i info (replicate n in_parent ++ forks)
      ≡ some (false, i + n, with_created info (info.created_process_count + n), forks)
unfolding create_group
create_group-replicate zero i info forks = ground arith
create_group-replicate (suc n) i info forks =
    create_group-replicate n (suc i) (with_created info (info.created_process_count + 1)) forks
    ∙ ground arith

-- The forks of a round up to the one in which the caller is the child.
create_group-child :
    (n m i : ℕ) (info : ProcessInfo) (forks : List Fork)
    → m < n
    → create_group n i info (replicate m in_parent ++ in_child ∷ forks)
      ≡ some (true, i + m, with_created info (info.created_process_count + suc m), forks)
unfolding create_group
create_group-child zero m i info forks h = elim h [ ]
create_group-child (suc n) zero i info forks h = ground arith
create_group-child (suc n) (suc m) i info forks h =
    create_group-child n m (suc i) (with_created info (info.created_process_count + 1)) forks
      (omega arith)
    ∙ ground arith

replicate_add :
    (a b : ℕ) (forks : List Fork)
    → replicate (a + b) in_parent ++ forks
      ≡ replicate a in_parent ++ (replicate b in_parent ++ forks)
replicate_add zero b forks = ap (λ n. replicate n in_parent ++ forks) (omega arith)
replicate_add (suc a) b forks =
    let e : suc a + b ≡ suc (a + b) = omega arith in
    ap (λ n. replicate n in_parent ++ forks) e ∙ ap (λ l. in_parent ∷ l) (replicate_add a b forks)

-- Whichever fork is the one that returns in the child, with the ones before it in the parent, the child
-- is a producer where its number is at least `child_producer_count`, and a consumer below; and the
-- process in which every fork is the parent's is a producer and no child, with the number of
-- the second round for its group.
pub roles_of_children :
    (child_producer_count child_consumer_count i : ℕ) (forks : List Fork)
    → i < child_producer_count + child_consumer_count
    → (create_child_processes child_producer_count child_consumer_count
          (replicate i in_parent ++ in_child ∷ forks)
        ≡ some (record {
          created_process_count = suc i;
          is_child = true;
          is_producer = leb child_producer_count i;
          group_id = 0;
        }))
      × (create_child_processes child_producer_count child_consumer_count
            (replicate (child_producer_count + child_consumer_count) in_parent ++ forks)
          ≡ some (record {
            created_process_count = child_producer_count + child_consumer_count;
            is_child = false;
            is_producer = true;
            group_id = child_consumer_count;
          }))
unfolding create_child_processes
roles_of_children p c i forks h = (child, parent)
  where
    info : Bool → ℕ → ProcessInfo
    info b n = record { created_process_count = n; is_child = true; is_producer = b; group_id = 0 }

    child :
        create_child_processes p c (replicate i in_parent ++ in_child ∷ forks)
        ≡ some (info (leb p i) (suc i))
    child = elim (dec_lt i p) [
      | yes l ↦
          rw (create_child_processes, create_group-child p i 0 (info false 0) forks l) ground arith
      | no l ↦
          let split : replicate i in_parent ++ in_child ∷ forks
              ≡ replicate p in_parent ++ (replicate (i - p) in_parent ++ in_child ∷ forks) =
            ap (λ n. replicate n in_parent ++ in_child ∷ forks) (omega arith)
            ∙ replicate_add p (i - p) (in_child ∷ forks) in
          rw
            (
              split,
              create_child_processes,
              create_group-replicate p 0 (info false 0)
                  (replicate (i - p) in_parent ++ in_child ∷ forks),
              create_group-child c (i - p) 0 (info true (0 + p)) forks (omega arith),
            )
            ground arith
    ]

    parent :
        create_child_processes p c (replicate (p + c) in_parent ++ forks)
        ≡ some (record {
          created_process_count = p + c;
          is_child = false;
          is_producer = true;
          group_id = c;
        })
    parent =
        rw
          (
            create_child_processes,
            replicate_add p c forks,
            create_group-replicate p 0 (info false 0) (replicate c in_parent ++ forks),
            create_group-replicate c 0 (info true (0 + p)) forks,
          )
          ground arith
