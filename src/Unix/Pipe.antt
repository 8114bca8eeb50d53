-- ===== src/Unix/Pipe.antt =====
-- libs/unix/include/unix/ipc/posix/pipe.hpp, over the system's calls on file descriptors as a parameter. A result
-- `none` is an assertion that fails.
use communicate_between_proc.Prelude.{
  ℕ, ◌≡◌, ◌≢◌, Bool, true, false, Option, none, some, List, ℤ, pos, negsuc, get_elem?, set,
  replicate, length, leb, ◌==◌, if◌then◌else◌,
}
use communicate_between_proc.Unix.Kernel.{Result, ok, err, operation_failed, operation_successful}

-- `is_open` is whether the process has a descriptor. The laws are those of the manual: pipe gives two
-- different descriptors, which the process has then; a close that succeeds ends one; and no call touches
-- another descriptor.
pub record Descriptors (K : Type 0) : Type 0 where
  pub errno : K → ℕ
  pub sys_pipe : K → ℤ × ℤ × ℤ × K
  pub sys_close : ℤ → K → ℤ × K
  pub sys_write : ℤ → List ℕ → K → ℤ × K
  pub sys_read : ℤ → ℕ → K → ℤ × List ℕ × K
  pub is_open : ℤ → K → Bool
  pub pipe_opens :
      (k : K)
      → operation_successful (sys_pipe k).0 ≡ true
      → ((sys_pipe k).1 ≢ (sys_pipe k).2)
        × (is_open (sys_pipe k).1 (sys_pipe k).3 ≡ true)
        × (is_open (sys_pipe k).2 (sys_pipe k).3 ≡ true)
  pub pipe_others :
      (fd : ℤ) (k : K)
      → fd ≢ (sys_pipe k).1
      → fd ≢ (sys_pipe k).2
      → is_open fd (sys_pipe k).3 ≡ is_open fd k
  pub close_closes :
      (fd : ℤ) (k : K)
      → operation_successful (sys_close fd k).0 ≡ true
      → is_open fd (sys_close fd k).1 ≡ false
  pub close_others :
      (fd other : ℤ) (k : K) → other ≢ fd → is_open other (sys_close fd k).1 ≡ is_open other k
  pub write_keeps :
      (fd other : ℤ) (bytes : List ℕ) (k : K)
      → is_open other (sys_write fd bytes k).1 ≡ is_open other k
  pub read_keeps :
      (fd other : ℤ) (count : ℕ) (k : K) → is_open other (sys_read fd count k).2 ≡ is_open other k

-- fds_ has two descriptors, and end_open_ eight bits, from the lowest on.
pub record Pipe : Type 0 where
  pub read_end : ℤ
  pub write_end : ℤ
  pub end_open : List Bool

pub data End : Type 0 where
  reading writing : End

abbrev pub index : End → ℕ
index reading = 0
index writing = 1

abbrev pub fd : End → Pipe → ℤ
fd reading p = p.read_end
fd writing p = p.write_end

unfoldable pub is_end_open : End → Pipe → Bool
is_end_open e p = elim (get_elem? p.end_open (index e)) [ none ↦ false | some bit ↦ bit ]

module _ {K : Type 0} (descriptors : Descriptors K) where
  open descriptors use {errno, sys_pipe, sys_close, sys_write, sys_read}

  unfoldable pub create : K → Result Pipe × K
  create k =
      let (ret, read_end, write_end, k') = sys_pipe k in
      if operation_successful ret
      then (
        ok (record { read_end = read_end; write_end = write_end; end_open = replicate 8 true }),
        k',
      )
      else (err (errno k'), k')

  unfoldable pub close_end : End → Pipe → K → Option (Result (Unit {0}) × Pipe × K)
  unfolding is_end_open
  close_end e p k =
      let (ret, k') = sys_close (fd e p) k in
      if is_end_open e p
      then if operation_successful ret
        then some (ok tt, record p { end_open = set p.end_open (index e) false }, k')
        else if operation_failed ret
        then some (err (errno k'), p, k')
        else none
      else none

  unfoldable pub write : List ℕ → Pipe → K → Option (Result (Unit {0}) × K)
  unfolding is_end_open
  write bytes p k =
      let (ret, k') = sys_write p.write_end bytes k in
      if is_end_open writing p
      then if operation_failed ret then some (err (errno k'), k') else elim ret [
        | pos n ↦ if n == length bytes then some (ok tt, k') else none
        | negsuc n ↦ none
      ]
      else none

  -- With the bytes that was read.
  unfoldable pub read : ℕ → Pipe → K → Option (Result (List ℕ) × K)
  unfolding is_end_open
  read count p k =
      let (ret, bytes, k') = sys_read p.read_end count k in
      if is_end_open reading p
      then if operation_failed ret then some (err (errno k'), k') else elim ret [
        | pos n ↦ if leb n count then some (ok bytes, k') else none
        | negsuc n ↦ none
      ]
      else none

  -- close_read_end or close_write_end in the destructor, whose results are not looked at.
  unfoldable pub close_if_open : End → Pipe → K → Option (Pipe × K)
  unfolding close_end
  close_if_open e p k =
      let closed = close_end e p k in
      if is_end_open e p
      then elim closed [ none ↦ none | some (ret, p', k') ↦ some (p', k') ]
      else some (p, k)

  unfoldable pub destructor : Pipe → K → Option K
  unfolding close_if_open
  destructor p k = elim (close_if_open reading p k) [
    | none ↦ none
    | some (p1, k1) ↦ elim (close_if_open writing p1 k1) [ none ↦ none | some (p2, k2) ↦ some k2 ]
  ]
