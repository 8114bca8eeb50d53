-- ===== src/Barber/System/Accounts.antt =====
-- What apps/sleeping_barber_problem counts at its end, whatever the schedule: the customers served and refused
-- against those that arrived.
use communicate_between_proc.LockFree.RingBuffer.{RingBuffer}
use communicate_between_proc.Unix.Kernel.{Kernel}
use communicate_between_proc.Barber.System.Invariant.{Invariant}
