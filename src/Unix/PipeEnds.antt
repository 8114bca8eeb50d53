-- ===== src/Unix/PipeEnds.antt =====
-- The descriptors that a pipe of libs/unix/include/unix/ipc/posix/pipe.hpp holds, from its creation to its
-- destructor.
use communicate_between_proc.Prelude.{
  ℕ, ◌≡◌, ◌≢◌, subst, refl, sym, ap, ◌∙◌, Bool, true, false, Option, none, some, List, [], ◌∷◌, ℤ,
  replicate, Option-cases, inl, inr, arith,
}
use communicate_between_proc.Unix.Kernel.{ok, operation_successful}
use communicate_between_proc.Unix.Pipe.{
  Descriptors, Pipe, End, reading, writing, is_end_open, create, close_end, write, read,
  close_if_open, destructor,
}

-- The uses of a pipe between its creation and its destructor.
pub data Use : Type 0 where
  close_use : End → Use
  write_use : List ℕ → Use
  read_use : ℕ → Use

-- A pipe with these ends open.
abbrev ends : ℤ → ℤ → Bool → Bool → Pipe
ends r w read_open write_open = record {
  read_end = r;
  write_end = w;
  end_open = read_open ∷ write_open ∷ replicate 6 true;
}

module _ {K : Type 0} (descriptors : Descriptors K) where
  -- A use, of which the result is not looked at; `none` is an assertion that fails.
  unfoldable pub perform : Use → Pipe → K → Option (Pipe × K)
  perform (close_use e) p k = elim (close_end descriptors e p k) [
    | none ↦ none
    | some (ret, p', k') ↦ some (p', k')
  ]
  perform (write_use bytes) p k = elim (write descriptors bytes p k) [
    | none ↦ none
    | some (ret, k') ↦ some (p, k')
  ]
  perform (read_use count) p k = elim (read descriptors count p k) [
    | none ↦ none
    | some (ret, k') ↦ some (p, k')
  ]

  unfoldable pub performs : List Use → Pipe → K → Option (Pipe × K)
  unfolding perform
  performs [] p k = some (p, k)
  performs (u ∷ us) p k = elim (perform u p k) [ none ↦ none | some (p', k') ↦ performs us p' k' ]

  module _
      (closes : (fd : ℤ) (k : K)
        → descriptors.is_open fd k ≡ true
        → operation_successful (descriptors.sys_close fd k).0 ≡ true)
      (r w : ℤ) (differ : r ≢ w) (before : K) where
    -- The process has the open ends, and every other descriptor as before.
    record Has (read_open write_open : Bool) (k : K) : Type 0 where
      read_end : descriptors.is_open r k ≡ read_open
      write_end : descriptors.is_open w k ≡ write_open
      others : (fd : ℤ) → fd ≢ r → fd ≢ w → descriptors.is_open fd k ≡ descriptors.is_open fd before

    record Holds (p : Pipe) (k : K) : Type 0 where
      read_open : Bool
      write_open : Bool
      pipe : p ≡ ends r w read_open write_open
      has : Has read_open write_open k

    read_end_closed : (b : Bool) (k : K) → Has true b k → Has false b (descriptors.sys_close r k).1
    read_end_closed b k v = record {
      read_end = descriptors.close_closes r k (closes r k v.read_end);
      write_end = descriptors.close_others r w k (λ (p : w ≡ r). differ (sym p)) ∙ v.write_end;
      others = λ fd n m. descriptors.close_others r fd k n ∙ v.others fd n m;
    }

    write_end_closed : (b : Bool) (k : K) → Has b true k → Has b false (descriptors.sys_close w k).1
    write_end_closed b k v = record {
      read_end = descriptors.close_others w r k differ ∙ v.read_end;
      write_end = descriptors.close_closes w k (closes w k v.write_end);
      others = λ fd n m. descriptors.close_others w fd k m ∙ v.others fd n m;
    }

    close_reading :
        (b : Bool) (k : K) (p' : Pipe) (k' : K)
        → descriptors.is_open r k ≡ true
        → perform (close_use reading) (ends r w true b) k ≡ some (p', k')
        → (p' ≡ ends r w false b) × (k' ≡ (descriptors.sys_close r k).1)
    unfolding perform close_end is_end_open
    close_reading b k p' k' some_open h =
        (ground (arith, h, closes r k some_open), ground (arith, h, closes r k some_open))

    close_writing :
        (b : Bool) (k : K) (p' : Pipe) (k' : K)
        → descriptors.is_open w k ≡ true
        → perform (close_use writing) (ends r w b true) k ≡ some (p', k')
        → (p' ≡ ends r w b false) × (k' ≡ (descriptors.sys_close w k).1)
    unfolding perform close_end is_end_open
    close_writing b k p' k' some_open h =
        (ground (arith, h, closes w k some_open), ground (arith, h, closes w k some_open))

    closed_reading : (b : Bool) (k : K) → perform (close_use reading) (ends r w false b) k ≡ none
    unfolding perform close_end is_end_open
    closed_reading b k = refl

    closed_writing : (b : Bool) (k : K) → perform (close_use writing) (ends r w b false) k ≡ none
    unfolding perform close_end is_end_open
    closed_writing b k = refl

    write_keeps_pipe :
        (bytes : List ℕ) (p p' : Pipe) (k k' : K)
        → perform (write_use bytes) p k ≡ some (p', k')
        → (p' ≡ p) × (k' ≡ (descriptors.sys_write p.write_end bytes k).1)
    unfolding perform write is_end_open
    write_keeps_pipe bytes p p' k k' h = (ground (arith, h), ground (arith, h))

    read_keeps_pipe :
        (count : ℕ) (p p' : Pipe) (k k' : K)
        → perform (read_use count) p k ≡ some (p', k')
        → (p' ≡ p) × (k' ≡ (descriptors.sys_read p.read_end count k).2)
    unfolding perform read is_end_open
    read_keeps_pipe count p p' k k' h = (ground (arith, h), ground (arith, h))

    kept :
        (ro wo : Bool) (k k' : K)
        → Has ro wo k
        → ((fd : ℤ) → descriptors.is_open fd k' ≡ descriptors.is_open fd k)
        → Has ro wo k'
    kept ro wo k k' v same = record {
      read_end = same r ∙ v.read_end;
      write_end = same w ∙ v.write_end;
      others = λ fd n m. same fd ∙ v.others fd n m;
    }

    perform-Holds :
        (u : Use) (ro wo : Bool) (k : K) (p' : Pipe) (k' : K)
        → Has ro wo k
        → perform u (ends r w ro wo) k ≡ some (p', k')
        → Holds p' k'
    perform-Holds (close_use reading) true wo k p' k' v h =
        let (e, e') = close_reading wo k p' k' v.read_end h in
        record {
          read_open = false;
          write_open = wo;
          pipe = e;
          has = subst (Has false wo) (sym e') (read_end_closed wo k v);
        }
    perform-Holds (close_use reading) false wo k p' k' v h =
        absurd (ground (arith, h, closed_reading wo k))
    perform-Holds (close_use writing) ro true k p' k' v h =
        let (e, e') = close_writing ro k p' k' v.write_end h in
        record {
          read_open = ro;
          write_open = false;
          pipe = e;
          has = subst (Has ro false) (sym e') (write_end_closed ro k v);
        }
    perform-Holds (close_use writing) ro false k p' k' v h =
        absurd (ground (arith, h, closed_writing ro k))
    perform-Holds (write_use bytes) ro wo k p' k' v h =
        let (e, e') = write_keeps_pipe bytes (ends r w ro wo) p' k k' h in
        record {
          read_open = ro;
          write_open = wo;
          pipe = e;
          has =
              subst (Has ro wo) (sym e')
                (kept ro wo k _ v (λ fd. descriptors.write_keeps w fd bytes k));
        }
    perform-Holds (read_use n) ro wo k p' k' v h =
        let (e, e') = read_keeps_pipe n (ends r w ro wo) p' k k' h in
        record {
          read_open = ro;
          write_open = wo;
          pipe = e;
          has =
              subst (Has ro wo) (sym e') (kept ro wo k _ v (λ fd. descriptors.read_keeps r fd n k));
        }

    first_use :
        (u : Use) (us : List Use) (p p' : Pipe) (k k' : K)
        → performs (u ∷ us) p k ≡ some (p', k')
        → (p1 : Pipe) × (k1 : K) × (perform u p k ≡ some (p1, k1))
          × (performs us p1 k1 ≡ some (p', k'))
    unfolding performs
    first_use u us p p' k k' h = elim (Option-cases (perform u p k)) [
      | inl e ↦ absurd (ground (arith, h, e))
      | inr ((p1, k1), e) ↦ (p1, k1, e, ground (arith, h, e))
    ]

    performs-Holds :
        (us : List Use) (p p' : Pipe) (k k' : K)
        → Holds p k
        → performs us p k ≡ some (p', k')
        → Holds p' k'
    unfolding performs
    performs-Holds [] p p' k k' v h =
        let same : (p' ≡ p) × (k' ≡ k) = ground (arith, h) in rw (same.0, same.1) v
    performs-Holds (u ∷ us) p p' k k' v h =
        let (p1, k1, first, rest) = first_use u us p p' k k' h in
        let started : perform u (ends r w v.read_open v.write_open) k ≡ some (p1, k1) =
          ap (λ q. perform u q k) (sym v.pipe) ∙ first in
        performs-Holds us p1 p' k1 k'
          (perform-Holds u v.read_open v.write_open k p1 k1 v.has started) rest

    destructor_lem :
        (ro wo : Bool) (k : K)
        → Has ro wo k
        → (k' : K) × (destructor descriptors (ends r w ro wo) k ≡ some k') × Has false false k'
    unfolding destructor close_if_open close_end is_end_open
    destructor_lem false false k v = (k, refl, v)
    destructor_lem true false k v =
        let closed = closes r k v.read_end in
        ((descriptors.sys_close r k).1, ground (arith, closed), read_end_closed false k v)
    destructor_lem false true k v =
        let closed = closes w k v.write_end in
        ((descriptors.sys_close w k).1, ground (arith, closed), write_end_closed false k v)
    destructor_lem true true k v =
        let closed = closes r k v.read_end in
        let k1 = (descriptors.sys_close r k).1 in
        let v1 : Has false true k1 = read_end_closed true k v in
        let closed' = closes w k1 v1.write_end in
        (
          (descriptors.sys_close w k1).1,
          ground (arith, closed, closed'),
          write_end_closed false k1 v1,
        )

  -- Where no close of an open descriptor fails, a pipe is created, and it is used in any way that passes the
  -- assertions, its destructor returns; both descriptors of the pipe are closed then, and every other
  -- descriptor is open where it was before the creation.
  pub pipe_releases :
      ((fd : ℤ) (k : K)
        → descriptors.is_open fd k ≡ true
        → operation_successful (descriptors.sys_close fd k).0 ≡ true)
      → (us : List Use) (k k1 k2 : K) (p p' : Pipe) → create descriptors k ≡ (ok p, k1)
      → performs us p k1 ≡ some (p', k2)
      → (k3 : K) × (destructor descriptors p' k2 ≡ some k3)
        × (descriptors.is_open p.read_end k3 ≡ false)
        × (descriptors.is_open p.write_end k3 ≡ false)
        × ((fd : ℤ)
            → fd ≢ p.read_end
            → fd ≢ p.write_end
            → descriptors.is_open fd k3 ≡ descriptors.is_open fd k)
  unfolding create
  pipe_releases closes us k k1 k2 p p' created used =
      let (ret, r, w, k0) = descriptors.sys_pipe k in
      let success : operation_successful (descriptors.sys_pipe k).0 ≡ true =
        ground (arith, created) in
      let is : p ≡ ends r w true true = ground (arith, created, success) in
      let state : k1 ≡ k0 = ground (arith, created, success) in
      let (differ, read_open, write_open) = descriptors.pipe_opens k success in
      let v : Holds closes r w differ k p k1 = record {
        read_open = true;
        write_open = true;
        pipe = is;
        has = record {
          read_end = ap (descriptors.is_open r) state ∙ read_open;
          write_end = ap (descriptors.is_open w) state ∙ write_open;
          others = λ fd n m. ap (descriptors.is_open fd) state ∙ descriptors.pipe_others fd k n m;
        };
      } in
      let v' = performs-Holds closes r w differ k us p p' k1 k2 v used in
      let (k3, e, h) = destructor_lem closes r w differ k v'.read_open v'.write_open k2 v'.has in
      let read_is : p.read_end ≡ r = ap (λ q. q.read_end) is in
      let write_is : p.write_end ≡ w = ap (λ q. q.write_end) is in
      (
        k3,
        ap (λ q. destructor descriptors q k2) v'.pipe ∙ e,
        ap (λ fd. descriptors.is_open fd k3) read_is ∙ h.read_end,
        ap (λ fd. descriptors.is_open fd k3) write_is ∙ h.write_end,
        λ fd n m. h.others fd (λ q. n (q ∙ sym read_is)) (λ q. m (q ∙ sym write_is)),
      )
