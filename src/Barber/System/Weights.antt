-- ===== src/Barber/System/Weights.antt =====
-- What one step of a process of apps/sleeping_barber_problem does to the customers that the counters, the
-- queue and the processes account for.
use communicate_between_proc.Prelude.{
  ℕ, ◌+◌, ◌≤◌, ◌≡◌, ◌≢◌, Bool, true, false, Option, none, some, arith, if◌then◌else◌,
}
use communicate_between_proc.Unix.Kernel.{Kernel, Result}
use communicate_between_proc.Unix.GroupNotifier.{GroupNotifier}
use communicate_between_proc.Unix.GroupNotifier.Laws.{
  Ends, waits, fails, changes, value_at, after_cases, wait_for_one-Ends, wait_for_all-Ends,
  notify_one-Ends, notify_all-Ends, try_waiting_for_one-Ends, to_short_le,
}
use communicate_between_proc.Barber.Roles.{ProcessInfo}
use communicate_between_proc.Barber.System.{end_wait}
use communicate_between_proc.Barber.Shop.{
  SharedData, Config, Pc, signalling_readiness, awaiting_children, awaiting_customer,
  checking_closed, popping, trimming, notifying_chair, draining, draining_pop, trimming_last,
  trying_chair, checking_open, numbering, refusing, pushing, notifying_customer, keeping_open,
  freeing_chairs, waking_barbers, awaiting_termination, comparing, returned, advance, barber_step,
  generator_step, main_step, children_readiness_notifier, empty_chair_notifier,
  customer_waiting_notifier, tried,
}

-- A customer that left the queue and is not counted.
abbrev pub in_chair : Pc → ℕ
in_chair trimming = 1
in_chair trimming_last = 1
in_chair _ = 0

-- A customer that has a number and is neither in the queue nor counted.
abbrev pub arriving : Pc → ℕ
arriving refusing = 1
arriving (pushing customer) = 1
arriving _ = 0

-- A process that ended with a failure.
abbrev pub failure : Pc → ℕ
failure (returned false) = 1
failure _ = 0

-- The customer that a process of the open shop is busy with.
abbrev pub busy : Pc → ℕ
busy (checking_closed true) = 1
busy popping = 1
busy trimming = 1
busy trimming_last = 1
busy refusing = 1
busy (pushing customer) = 1
busy notifying_customer = 1
busy _ = 0

-- The points that are come to in a closed shop only.
abbrev pub closing : Pc → ℕ
closing freeing_chairs = 1
closing waking_barbers = 1
closing draining = 1
closing draining_pop = 1
closing trimming_last = 1
closing _ = 0

-- What a closed shop, of `n` barbers, wakes and drains.
abbrev pub extra : ℕ → Pc → ℕ
extra n waking_barbers = n
extra n draining_pop = 1
extra n _ = 0

pub extra_zero : (n : ℕ) (pc : Pc) → closing pc ≡ 0 → extra n pc ≡ 0
extra_zero n pc h = ground arith

abbrev pub flag : Bool → ℕ
flag true = 1
flag false = 0

module _ {K : Type 0} (kernel : Kernel K) (c : Config) where
  -- The value of the semaphore of the waiting customers.
  abbrev pub waiting : K → ℕ
  waiting k = kernel.value c.semaphores.handle 2 k

  -- What a step leaves of the invariant, but for the queue.
  pub record Local (pc : Pc) (k : K) (s : SharedData) (pc' : Pc) (k' : K) (s' : SharedData)
      : Type 0 where
    pub bounded :
        (if s'.shop_closed
          then 0
          else (waiting k'
              + s'.served_customers
              + s'.refused_customers
              + busy pc'
              + s.next_customer_id))
        ≤ waiting k
          + s.served_customers
          + s.refused_customers
          + busy pc
          + s'.next_customer_id
          + extra c.barber_count pc
    pub closed : flag s.shop_closed ≤ flag s'.shop_closed
    pub quiet : closing pc' ≤ closing pc + flag s'.shop_closed

  -- What holds of where a generator goes on, in each way that its try for a chair may end.
  tried_cases :
      (P : Pc → K → Type 0) (g : GroupNotifier) {k : K} {o : Option (Result (Unit {0}) × K)}
      → Ends kernel g 1 0 k o
      → P trying_chair k
      → ((e : ℕ) (k' : K)
          → ((j : ℕ) → value_at kernel g j k' ≡ value_at kernel g j k)
          → P (checking_open (some e)) k')
      → ((k' : K)
          → ((j : ℕ) → j ≢ g.index → value_at kernel g j k' ≡ value_at kernel g j k)
          → P (checking_open none) k')
      → P (tried o k).0 (tried o k).1
  tried_cases P g waits p q r = p
  tried_cases P g (fails {e = code} {k' = k'} e) p q r = q code k' e
  tried_cases P g (changes {k'} e o) p q r = r k' o

  pub advance-Local :
      (info : ProcessInfo) (pc : Pc) (k : K) (s : SharedData)
      → let (pc', k', s') = advance kernel c info pc k s in Local pc k s pc' k' s'
  unfolding advance barber_step generator_step main_step
  advance-Local info signalling_readiness k s =
      after_cases kernel (λ pc' k'. Local signalling_readiness k s pc' k' s)
        (children_readiness_notifier c) _ _ _
        (notify_one-Ends kernel (children_readiness_notifier c) k) (ground arith)
        (λ k' e. ground (arith, e 2)) (λ k' e o. ground (arith, o 2 (λ p. absurd (omega arith))))
  advance-Local info awaiting_children k s =
      after_cases kernel (λ pc' k'. Local awaiting_children k s pc' k' s)
        (children_readiness_notifier c) _ _ _
        (wait_for_all-Ends kernel (children_readiness_notifier c) k) (ground arith)
        (λ k' e. ground (arith, e 2)) (λ k' e o. ground (arith, o 2 (λ p. absurd (omega arith))))
  advance-Local info awaiting_customer k s =
      after_cases kernel (λ pc' k'. Local awaiting_customer k s pc' k' s)
        (customer_waiting_notifier c) _ _ _
        (wait_for_one-Ends kernel (customer_waiting_notifier c) k) (ground arith)
        (λ k' e. ground (arith, e 2)) (λ k' e o. ground arith)
  advance-Local info (checking_closed true) k s = ground arith
  advance-Local info (checking_closed false) k s = ground arith
  advance-Local info popping k s = ground arith
  advance-Local info trimming k s = ground arith
  advance-Local info notifying_chair k s =
      after_cases kernel (λ pc' k'. Local notifying_chair k s pc' k' s) (empty_chair_notifier c) _ _
        _ (notify_one-Ends kernel (empty_chair_notifier c) k) (ground arith)
        (λ k' e. ground (arith, e 2)) (λ k' e o. ground (arith, o 2 (λ p. absurd (omega arith))))
  advance-Local info draining k s = ground arith
  advance-Local info draining_pop k s = ground arith
  advance-Local info trimming_last k s = ground arith
  advance-Local info trying_chair k s =
      tried_cases (λ pc' k'. Local trying_chair k s pc' k' s) (empty_chair_notifier c)
        (try_waiting_for_one-Ends kernel (empty_chair_notifier c) k) (ground arith)
        (λ e k' same. ground (arith, same 2))
        (λ k' o. ground (arith, o 2 (λ p. absurd (omega arith))))
  advance-Local info (checking_open o) k s = ground arith
  advance-Local info (numbering none) k s = ground arith
  advance-Local info (numbering (some code)) k s = ground arith
  advance-Local info refusing k s = ground arith
  advance-Local info (pushing customer) k s = ground arith
  advance-Local info notifying_customer k s =
      after_cases kernel (λ pc' k'. Local notifying_customer k s pc' k' s)
        (customer_waiting_notifier c) _ _ _ (notify_one-Ends kernel (customer_waiting_notifier c) k)
        (ground arith) (λ k' e. ground (arith, e 2)) (λ k' e o. ground arith)
  advance-Local info keeping_open k s = ground arith
  advance-Local info freeing_chairs k s =
      after_cases kernel (λ pc' k'. Local freeing_chairs k s pc' k' s) (empty_chair_notifier c) _ _
        _ (notify_all-Ends kernel (empty_chair_notifier c) k) (ground arith)
        (λ k' e. ground (arith, e 2)) (λ k' e o. ground (arith, o 2 (λ p. absurd (omega arith))))
  advance-Local info waking_barbers k s =
      after_cases kernel (λ pc' k'. Local waking_barbers k s pc' k' s) (customer_waiting_notifier c)
        _ _ _ (notify_all-Ends kernel (customer_waiting_notifier c) k) (ground arith)
        (λ k' e. ground (arith, e 2)) (λ k' e o. ground (arith, to_short_le c.barber_count))
  advance-Local info awaiting_termination k s = ground arith
  advance-Local info comparing k s = ground arith
  advance-Local info (returned b) k s = ground arith

  pub end_wait-Local :
      (b : Bool) (pc : Pc) (k : K) (s : SharedData) → Local pc k s (end_wait b pc) k s
  unfolding end_wait
  end_wait-Local b pc k s = ground arith
