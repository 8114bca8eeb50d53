-- ===== src/Buffering/System/Weights.antt =====
-- How much of what the invariant counts lies with one process, and what one step of it changes.
use communicate_between_proc.Prelude.{
  ℕ, ◌+◌, ◌≤◌, ◌<◌, ◌≡◌, Bool, true, false, arith, if◌then◌else◌,
}
use communicate_between_proc.Unix.Kernel.{Kernel}
use communicate_between_proc.Unix.GroupNotifier.Laws.{
  wait_for_one-Ends, wait_for_all-Ends, notify_one-Ends, notify_all-Ends, wait_till_none-Ends,
  after_cases, to_short_le, to_short-minus,
}
use communicate_between_proc.Buffering.ProcessInfo.{ProcessInfo}
use communicate_between_proc.Buffering.Process.{
  SharedData, Config, Pc, signalling_readiness, awaiting_children, starting_production,
  awaiting_start, producing, counting_produced, notifying_written, awaiting_read, completing,
  awaiting_message, checking, popping, counting_consumed, notifying_read, awaiting_production,
  awaiting_consumption, closing, stopping, awaiting_termination, returned,
  children_readiness_notifier, message_written_notifier, message_read_notifier, producers_notifier,
  setup_step, producer_step, consumer_step, parent_step, advance,
}
use communicate_between_proc.Buffering.System.{end_wait}

-- A consumer that took a message's notification and has not read the flag.
abbrev pub checked : Pc → ℕ
checked (checking true) = 1
checked _ = 0

-- A consumer that is to pop, or has popped and not counted.
abbrev pub in_pop : Pc → ℕ
in_pop popping = 1
in_pop counting_consumed = 1
in_pop _ = 0

-- A producer whose message is counted and not announced.
abbrev pub unannounced : Pc → ℕ
unannounced (notifying_written i) = 1
unannounced _ = 0

-- What a notification of all, of a group of `n`, is about to add for the consumers.
abbrev pub stop_tokens : ℕ → Pc → ℕ
stop_tokens n stopping = n
stop_tokens n _ = 0

abbrev pub is_stopping : Pc → ℕ
is_stopping stopping = 1
is_stopping _ = 0

-- A producer between its start and the notification of its end.
abbrev pub in_production : Pc → ℕ
in_production (producing i) = 1
in_production (counting_produced i) = 1
in_production (notifying_written i) = 1
in_production (awaiting_read i) = 1
in_production completing = 1
in_production _ = 0

-- The producers, `n` of them, that the parent has waited for.
abbrev pub waited_for : ℕ → Pc → ℕ
waited_for n awaiting_consumption = n
waited_for n closing = n
waited_for n stopping = n
waited_for n awaiting_termination = n
waited_for n _ = 0

-- The starts, `n` of them, that the parent has given.
abbrev pub given : ℕ → Pc → ℕ
given n signalling_readiness = 0
given n awaiting_children = 0
given n starting_production = 0
given n _ = n

abbrev pub starts : ℕ → ProcessInfo → Pc → ℕ
starts n info pc = if info.is_child then 0 else given n pc

-- A child has no part in the setup of the parent.
abbrev pub in_parent_setup : Pc → ℕ
in_parent_setup awaiting_children = 1
in_parent_setup starting_production = 1
in_parent_setup _ = 0

abbrev pub misplaced : ProcessInfo → Pc → ℕ
misplaced info pc = if info.is_child then in_parent_setup pc else 0

pub stop_tokens_zero : (n : ℕ) (pc : Pc) → is_stopping pc ≡ 0 → stop_tokens n pc ≡ 0
stop_tokens_zero n pc h = ground arith

abbrev pub flag : Bool → ℕ
flag true = 1
flag false = 0

module _ {K : Type 0} (kernel : Kernel K) (c : Config) where
  -- The values of the semaphores of the written messages and of the producers.
  abbrev pub written : K → ℕ
  written k = kernel.value c.semaphores.handle 1 k

  abbrev pub producers : K → ℕ
  producers k = kernel.value c.semaphores.handle 3 k

  -- What a step of one process leaves of the invariant.
  pub record Local (info : ProcessInfo) (pc : Pc) (k : K) (s : SharedData) (pc' : Pc) (k' : K)
      (s' : SharedData) : Type 0 where
    pub announced :
        written k'
          + s'.consumed_message_count
          + checked pc'
          + in_pop pc'
          + unannounced pc'
          + s.produced_message_count
        ≤ written k
          + s.consumed_message_count
          + checked pc
          + in_pop pc
          + unannounced pc
          + s'.produced_message_count
          + stop_tokens c.consumer_count pc
    pub popped :
        s'.consumed_message_count + in_pop pc' + s.produced_message_count
        ≤ s.consumed_message_count
          + in_pop pc
          + s'.produced_message_count
          + (if s.done_flag then 0 else checked pc)
    pub flagged : flag s.done_flag ≤ flag s'.done_flag
    pub stopped : is_stopping pc' ≤ is_stopping pc + flag s'.done_flag
    pub production :
        c.producer_count < 32768
        → producers k'
            + in_production pc'
            + waited_for c.producer_count pc'
            + starts c.producer_count info pc
          ≤ producers k
            + in_production pc
            + waited_for c.producer_count pc
            + starts c.producer_count info pc'
    pub placed : misplaced info pc' ≤ misplaced info pc

  pub advance-Local :
      (info : ProcessInfo) (pc : Pc) (k : K) (s : SharedData)
      → misplaced info pc ≡ 0
      → let (pc', k', s') = advance kernel c info pc k s in Local info pc k s pc' k' s'
  unfolding advance setup_step producer_step consumer_step parent_step
  advance-Local info signalling_readiness k s m =
      after_cases kernel (λ pc' k'. Local info signalling_readiness k s pc' k' s)
        (children_readiness_notifier c) _ _ _
        (notify_one-Ends kernel (children_readiness_notifier c) k) (ground arith)
        (λ k' e. ground (arith, e 1, e 3))
        (λ k' e o. ground (arith, o 1 (λ p. absurd (omega arith)), o 3 (λ p. absurd (omega arith))))
  advance-Local info awaiting_children k s m =
      after_cases kernel (λ pc' k'. Local info awaiting_children k s pc' k' s)
        (children_readiness_notifier c) _ _ _
        (wait_for_all-Ends kernel (children_readiness_notifier c) k) (ground arith)
        (λ k' e. ground (arith, e 1, e 3))
        (λ k' e o. ground (arith, o 1 (λ p. absurd (omega arith)), o 3 (λ p. absurd (omega arith))))
  advance-Local info starting_production k s m =
      after_cases kernel (λ pc' k'. Local info starting_production k s pc' k' s)
        (producers_notifier c) _ _ _ (notify_all-Ends kernel (producers_notifier c) k)
        (ground arith) (λ k' e. ground (arith, e 1, e 3))
        (λ k' e o. ground (arith, to_short_le c.producer_count, o 1 (λ p. absurd (omega arith))))
  advance-Local info awaiting_start k s m =
      after_cases kernel (λ pc' k'. Local info awaiting_start k s pc' k' s) (producers_notifier c) _
        _ _ (wait_for_one-Ends kernel (producers_notifier c) k) (ground arith)
        (λ k' e. ground (arith, e 1, e 3))
        (λ k' e o. ground (arith, o 1 (λ p. absurd (omega arith))))
  advance-Local info (producing i) k s m = ground arith
  advance-Local info (counting_produced i) k s m = ground arith
  advance-Local info (notifying_written i) k s m =
      after_cases kernel (λ pc' k'. Local info (notifying_written i) k s pc' k' s)
        (message_written_notifier c) _ _ _ (notify_one-Ends kernel (message_written_notifier c) k)
        (ground arith) (λ k' e. ground (arith, e 1, e 3))
        (λ k' e o. ground (arith, o 3 (λ p. absurd (omega arith))))
  advance-Local info (awaiting_read i) k s m =
      after_cases kernel (λ pc' k'. Local info (awaiting_read i) k s pc' k' s)
        (message_read_notifier c) _ _ _ (wait_for_one-Ends kernel (message_read_notifier c) k)
        (ground arith) (λ k' e. ground (arith, e 1, e 3))
        (λ k' e o. ground (arith, o 1 (λ p. absurd (omega arith)), o 3 (λ p. absurd (omega arith))))
  advance-Local info completing k s m =
      after_cases kernel (λ pc' k'. Local info completing k s pc' k' s) (producers_notifier c) _ _ _
        (notify_one-Ends kernel (producers_notifier c) k) (ground arith)
        (λ k' e. ground (arith, e 1, e 3))
        (λ k' e o. ground (arith, o 1 (λ p. absurd (omega arith))))
  advance-Local info awaiting_message k s m =
      after_cases kernel (λ pc' k'. Local info awaiting_message k s pc' k' s)
        (message_written_notifier c) _ _ _ (wait_for_one-Ends kernel (message_written_notifier c) k)
        (ground arith) (λ k' e. ground (arith, e 1, e 3))
        (λ k' e o. ground (arith, o 3 (λ p. absurd (omega arith))))
  advance-Local info (checking true) k s m = ground arith
  advance-Local info (checking false) k s m = ground arith
  advance-Local info popping k s m = ground arith
  advance-Local info counting_consumed k s m = ground arith
  advance-Local info notifying_read k s m =
      after_cases kernel (λ pc' k'. Local info notifying_read k s pc' k' s)
        (message_read_notifier c) _ _ _ (notify_one-Ends kernel (message_read_notifier c) k)
        (ground arith) (λ k' e. ground (arith, e 1, e 3))
        (λ k' e o. ground (arith, o 1 (λ p. absurd (omega arith)), o 3 (λ p. absurd (omega arith))))
  advance-Local info awaiting_production k s m =
      after_cases kernel (λ pc' k'. Local info awaiting_production k s pc' k' s)
        (producers_notifier c) _ _ _ (wait_for_all-Ends kernel (producers_notifier c) k)
        (ground arith) (λ k' e. ground (arith, e 1, e 3))
        (λ k' e o. ground (arith, to_short-minus c.producer_count, o 1 (λ p. absurd (omega arith))))
  advance-Local info awaiting_consumption k s m =
      after_cases kernel (λ pc' k'. Local info awaiting_consumption k s pc' k' s)
        (message_written_notifier c) _ _ _
        (wait_till_none-Ends kernel (message_written_notifier c) k) (ground arith)
        (λ k' e. ground (arith, e 1, e 3))
        (λ k' e o. ground (arith, o 3 (λ p. absurd (omega arith))))
  advance-Local info closing k s m = ground arith
  advance-Local info stopping k s m =
      after_cases kernel (λ pc' k'. Local info stopping k s pc' k' s) (message_written_notifier c) _
        _ _ (notify_all-Ends kernel (message_written_notifier c) k) (ground arith)
        (λ k' e. ground (arith, e 1, e 3))
        (λ k' e o. ground (arith, to_short_le c.consumer_count, o 3 (λ p. absurd (omega arith))))
  advance-Local info awaiting_termination k s m = ground arith
  advance-Local info (returned b) k s m = ground arith

  pub end_wait-Local :
      (info : ProcessInfo) (b : Bool) (pc : Pc) (k : K) (s : SharedData)
      → Local info pc k s (end_wait b pc) k s
  unfolding end_wait
  end_wait-Local info b pc k s = ground arith
