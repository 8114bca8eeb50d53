-- ===== src/AsyncLogger/Creation.antt =====
-- logger::create of apps/asynchronous_logger/src/main.cpp, the semaphore set of a logger, of which a set
-- whose value cannot be set is not removed; and the wait for the writers.
use communicate_between_proc.Prelude.{ℕ, Bool, true, false, Option, none, some, List, [], ◌∷◌}
use communicate_between_proc.Unix.Kernel.{Kernel, ok, err}
use communicate_between_proc.Unix.Permissions.{
  no_permissions, build, get, owner, group, others, read_it, write_it, execute_it, Who, What,
}
use communicate_between_proc.Unix.GroupNotifier.{GroupNotifier, after, wait_for_all}
use communicate_between_proc.Unix.SemaphoreSet
use communicate_between_proc.Unix.SemaphoreSet.{SemaphoreSet}

abbrev pub sem_count : ℕ
sem_count = 1

abbrev perms_calls : List (Who × What)
perms_calls =
    (owner, read_it)
    ∷ (owner, write_it)
    ∷ (owner, execute_it)
    ∷ (group, read_it)
    ∷ (group, write_it)
    ∷ (group, execute_it)
    ∷ (others, read_it)
    ∷ (others, write_it)
    ∷ (others, execute_it)
    ∷ []

unfoldable pub perms : ℕ
unfolding build get no_permissions
perms = get (build perms_calls no_permissions)

module _ {K : Type 0} (kernel : Kernel K) where
  unfoldable pub create : ℕ → K → Option SemaphoreSet × K
  unfolding perms
  create message_queue_capacity k =
      let (semaphores_created, k1) = SemaphoreSet.create_private kernel sem_count perms k in
      elim semaphores_created [
        | err e ↦ (none, k1)
        | ok semaphores ↦
            let (all_initialized, k2) =
              SemaphoreSet.set_values kernel semaphores (message_queue_capacity ∷ []) k1 in
            elim all_initialized [ err e ↦ (none, k2) | ok _ ↦ (some semaphores, k2) ]
      ]

  abbrev pub read_message_bytes_notifier : SemaphoreSet → ℕ → GroupNotifier
  read_message_bytes_notifier semaphores capacity = record {
    semaphores = semaphores;
    index = 0;
    group_size = capacity;
  }

  -- What it returned, where it does.
  unfoldable pub wait_till_all_popped : SemaphoreSet → ℕ → K → Option Bool × K
  unfolding after
  wait_till_all_popped semaphores capacity k =
      after (wait_for_all kernel (read_message_bytes_notifier semaphores capacity) k) none
        (some false) (some true) k
