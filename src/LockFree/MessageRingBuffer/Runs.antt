-- ===== src/LockFree/MessageRingBuffer/Runs.antt =====
-- Whole sequences of calls on the message ring buffer, against a queue of messages.
use communicate_between_proc.Prelude.{
  ℕ, ◌+◌, ◌^◌, ◌<◌, ◌≡◌, ◌∙◌, refl, Bool, true, false, Option, none, some, List, [], ◌∷◌, ◌++◌,
  length, arith, dec_lt, ltb, ap, if◌then◌else◌,
}
use communicate_between_proc.Core.{Expected, ok, unexpected}
use communicate_between_proc.LockFree.BoundedQueue
use communicate_between_proc.LockFree.BoundedQueue.{Op, Reply, put, take, pushed, popped}
use communicate_between_proc.LockFree.MessageRingBuffer.{
  Platform, MessageRingBuffer, try_push, try_pop,
}
use communicate_between_proc.LockFree.MessageRingBuffer.Stored.{frame, total}
use communicate_between_proc.LockFree.MessageRingBuffer.Refine.{
  Holds, message_try_push_refines, message_try_pop_refines,
}

abbrev succeeded : {A : Type 0} → Expected A → Bool
succeeded (ok a) = true
succeeded (unexpected e) = false

abbrev value : {A : Type 0} → Expected A → Option A
value (ok a) = some a
value (unexpected e) = none

-- A queue of messages that take less than `cap` elements with their sizes.
unfoldable pub run_messages : ℕ → List (List ℕ) → List (Op (List ℕ)) → List (Reply (List ℕ))
unfolding BoundedQueue.pop
run_messages cap ms [] = []
run_messages cap ms (put m ∷ ops) =
    let room = ltb (total ms + frame m) cap in
    pushed room ∷ run_messages cap (if room then ms ++ (m ∷ []) else ms) ops
run_messages cap ms (take ∷ ops) =
    let (m, ms') = BoundedQueue.pop ms in popped m ∷ run_messages cap ms' ops

-- Every message that is pushed is shorter than half the address space.
abbrev pub AllShort : List (Op (List ℕ)) → Type 0
AllShort [] = Unit
AllShort (put m ∷ ops) = (length m < 2 ^ 63) × AllShort ops
AllShort (take ∷ ops) = AllShort ops

module _ (p : Platform) where
  unfoldable pub run : MessageRingBuffer → List (Op (List ℕ)) → List (Reply (List ℕ))
  run s [] = []
  run s (put m ∷ ops) = let (e, s') = try_push p m s in pushed (succeeded e) ∷ run s' ops
  run s (take ∷ ops) = let (e, s') = try_pop p s in popped (value e) ∷ run s' ops

  -- A buffer that holds `ms` answers every sequence of calls, whose messages are shorter than half the
  -- address space, as the queue of these messages does.
  pub message_run_refines :
      (ops : List (Op (List ℕ))) {s : MessageRingBuffer} {ms : List (List ℕ)}
      → AllShort ops
      → Holds p s ms
      → run s ops ≡ run_messages s.capacity ms ops
  unfolding run run_messages
  message_run_refines [] short hs = refl
  message_run_refines (put m ∷ ops) {s} {ms} short hs =
      elim (dec_lt (total ms + frame m) s.capacity) [
        | yes room ↦
            let (s', e, hs', same) = (message_try_push_refines p m hs short.0).0 room in
            let fits : ltb (total ms + frame m) s.capacity ≡ true = ground arith in
            rw (e, fits)
              (ap (λ t. pushed true ∷ t)
                (message_run_refines ops short.1 hs'
                  ∙ ap (λ c. run_messages c (ms ++ (m ∷ [])) ops) same))
        | no full ↦
            let e = (message_try_push_refines p m hs short.0).1 (omega arith) in
            let none_left : ltb (total ms + frame m) s.capacity ≡ false = ground arith in
            rw (e, none_left) (ap (λ t. pushed false ∷ t) (message_run_refines ops short.1 hs))
      ]
  message_run_refines (take ∷ ops) {s} {ms = []} short hs =
      rw ((message_try_pop_refines p {ms = []}).0 hs)
        (ap (λ t. popped none ∷ t) (message_run_refines ops short hs))
  message_run_refines (take ∷ ops) {s} {ms = m ∷ ms} short hs =
      let (s', e, hs', same) = (message_try_pop_refines p).1 m hs in
      rw e (
        ap (λ t. popped (some m) ∷ t)
          (message_run_refines ops short hs' ∙ ap (λ c. run_messages c ms ops) same))
