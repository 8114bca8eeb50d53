-- ===== src/Barber/System.antt =====
-- The processes of apps/sleeping_barber_problem together. An event is a step of one of them, or the
-- end of the parent's wait for its children with what it returned; a schedule is a list of events.
pub mod Weights
pub mod Moves
pub mod Invariant
pub mod Accounts
use communicate_between_proc.Prelude.{
  ℕ, Bool, true, false, Option, none, some, List, [], ◌∷◌, get_elem?, set, map, if◌then◌else◌,
}
use communicate_between_proc.LockFree.RingBuffer.{RingBuffer}
use communicate_between_proc.Unix.Kernel.{Kernel}
use communicate_between_proc.Barber.Roles.{ProcessInfo}
use communicate_between_proc.Barber.Shop.{
  SharedData, Config, Pc, awaiting_termination, comparing, returned, begin, advance,
}

pub record Process : Type 0 where
  pub info : ProcessInfo
  pub pc : Pc

pub record System (K : Type 0) : Type 0 where
  pub kernel_state : K
  pub shared : SharedData
  pub processes : List Process

pub data Event : Type 0 where
  step_of : ℕ → Event
  children_ended : ℕ → Bool → Event

-- `main` behind the creation of the processes and of the shared data.
unfoldable pub start : {K : Type 0} → K → RingBuffer ℕ → List ProcessInfo → System K
start k queue infos = record {
  kernel_state = k;
  shared = record {
    shop_closed = false;
    next_customer_id = 0;
    served_customers = 0;
    refused_customers = 0;
    customer_queue = queue;
  };
  processes = map (λ info. record { info = info; pc = begin info }) infos;
}

-- The end of the parent's wait: nothing happens where a process does not wait.
unfoldable pub end_wait : Bool → Pc → Pc
end_wait true awaiting_termination = comparing
end_wait false awaiting_termination = returned false
end_wait b pc = pc

module _ {K : Type 0} (kernel : Kernel K) (c : Config) where
  unfoldable pub step : Event → System K → System K
  step (step_of i) s = elim (get_elem? s.processes i) [
    | none ↦ s
    | some p ↦
        let (pc, k, shared) = advance kernel c p.info p.pc s.kernel_state s.shared in
        record {
          kernel_state = k;
          shared = shared;
          processes = set s.processes i (record p { pc = pc });
        }
  ]
  step (children_ended i b) s = elim (get_elem? s.processes i) [
    | none ↦ s
    | some p ↦ record s { processes = set s.processes i (record p { pc = end_wait b p.pc }) }
  ]

  unfoldable pub steps : List Event → System K → System K
  steps [] s = s
  steps (e ∷ es) s = steps es (step e s)
