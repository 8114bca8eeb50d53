-- ===== src/Buffering/System/Schedules.antt =====
-- What the processes of apps/consumer_producer_problem keep to, whatever the schedule.
use communicate_between_proc.Prelude.{
  ℕ, ◌+◌, ◌≤◌, ◌<◌, ◌≡◌, some, List, [], ◌∷◌, get_elem?, arith, if◌then◌else◌, sum_by, sum_by-map,
  le-sum_by, sum_by_mono,
}
use communicate_between_proc.LockFree.RingBuffer.{RingBuffer}
use communicate_between_proc.Unix.Kernel.{Kernel}
use communicate_between_proc.Buffering.ProcessInfo.{ProcessInfo}
use communicate_between_proc.Buffering.Process.{Message, Config, Pc, setup}
use communicate_between_proc.Buffering.System.{Process, System, Event, start, steps}
use communicate_between_proc.Buffering.System.Weights.{in_pop, in_production, waited_for, starts}
use communicate_between_proc.Buffering.System.Invariant.{
  Invariant, start-Invariant, steps-Invariant, steps-infos,
}

-- The processes that were not created as children.
abbrev pub parents : List ProcessInfo → ℕ
parents infos = sum_by (λ info. if info.is_child then 0 else 1) infos

-- The starts that parents give, at most.
abbrev starts_bound : ℕ → ProcessInfo → ℕ
starts_bound n info = if info.is_child then 0 else n

no_parents :
    (n : ℕ) (infos : List ProcessInfo) → parents infos ≡ 0 → sum_by (starts_bound n) infos ≡ 0
no_parents n [] h = omega arith
no_parents n (info ∷ infos) h = ground (arith, no_parents n infos)

starts_le :
    (n : ℕ) (infos : List ProcessInfo) → parents infos ≤ 1 → sum_by (starts_bound n) infos ≤ n
starts_le n [] h = omega arith
starts_le n (info ∷ infos) h = ground (arith, no_parents n infos, starts_le n infos)

waited_for_all : (n : ℕ) (pc : Pc) → 0 < waited_for n pc → waited_for n pc ≡ n
waited_for_all n pc h = ground arith

module _ {K : Type 0} (kernel : Kernel K) (c : Config) where
  -- Where the semaphores of the written messages and of the producers are 0 at the start, then behind
  -- every schedule the consumers that popped a message, or are about to, are at most as many as the
  -- messages that the producers pushed and counted.
  pub pop_finds_message :
      (k : K) (queue : RingBuffer Message) (infos : List ProcessInfo) (es : List Event)
      → kernel.value c.semaphores.handle 1 k ≡ 0
      → kernel.value c.semaphores.handle 3 k ≡ 0
      → let s = steps kernel c es (start k queue infos) in
        s.shared.consumed_message_count + sum_by (λ p. in_pop p.pc) s.processes
        ≤ s.shared.produced_message_count
  pop_finds_message k queue infos es w p =
      Invariant.popped (steps-Invariant kernel c es _ (start-Invariant kernel c k queue infos w p))

  total_starts_le :
      (k : K) (queue : RingBuffer Message) (infos : List ProcessInfo) (es : List Event)
      → parents infos ≤ 1
      → sum_by
          (λ p. starts c.producer_count p.info p.pc)
          (steps kernel c es (start k queue infos)).processes
        ≤ c.producer_count
  unfolding start
  total_starts_le k queue infos es h =
      let n = c.producer_count in
      let s : System K = start k queue infos in
      omega (
        arith,
        sum_by_mono (λ p. starts n p.info p.pc) (λ p. starts_bound n p.info)
            (steps kernel c es s).processes (λ p. ground arith),
        steps-infos kernel c (starts_bound n) es s,
        sum_by-map (λ (p : Process). starts_bound n p.info)
            (λ info. record { info = info; pc = setup info }) infos,
        starts_le n infos h,
      )

  -- Where the semaphores of the written messages and of the producers are 0 at the start, at most one
  -- process is not a child, and the number of producers is a short, which the operations on semaphores take, then behind every schedule, once a process is past its wait for the
  -- producers, their semaphore is 0 and no producer is between its start and its end. The process is
  -- taken to be past the wait where the producers that it waited for are not 0.
  pub production_over :
      (k : K) (queue : RingBuffer Message) (infos : List ProcessInfo) (es : List Event) (i : ℕ)
      (p : Process)
      → kernel.value c.semaphores.handle 1 k ≡ 0
      → kernel.value c.semaphores.handle 3 k ≡ 0
      → parents infos ≤ 1
      → c.producer_count < 32768
      → get_elem? (steps kernel c es (start k queue infos)).processes i ≡ some p
      → 0 < waited_for c.producer_count p.pc
      → let s = steps kernel c es (start k queue infos) in
        (kernel.value c.semaphores.handle 3 s.kernel_state ≡ 0)
        × (sum_by (λ q. in_production q.pc) s.processes ≡ 0)
  production_over k queue infos es i p w r h small e past =
      let s = steps kernel c es (start k queue infos) in
      let v : Invariant kernel c s =
        steps-Invariant kernel c es _ (start-Invariant kernel c k queue infos w r) in
      let waited = le-sum_by (λ q. waited_for c.producer_count q.pc) s.processes i p e in
      let bound = total_starts_le k queue infos es h in
      let all = waited_for_all c.producer_count p.pc past in
      (omega (arith, v.production small), omega (arith, v.production small))
