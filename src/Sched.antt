-- ===== src/Sched.antt =====
-- crates/k0-sched/src/lib.rs: the ready queue and the switch between tasks. The machine is the part
-- of the kernel's state that scheduling and IPC act on.
pub mod Spec
pub mod Refine
use k.Base.{ℕ, Bool, true, false, not, ◌==◌, if◌then◌else◌, update, bit_and}
use k.Cap.{CNode}
use k.Task.{
  Context, Tcb, Tcbs, TaskState, ready, running, dead, Endpoint, set_state, set_next, is_null,
}

-- Addresses of TCBs; 0 is none.
pub record Sched : Type 0 where
  pub current : ℕ
  pub head : ℕ
  pub tail : ℕ

pub record Machine : Type 0 where
  pub tcbs : Tcbs
  pub eps : ℕ → Endpoint
  pub sched : Sched
  pub cnode : CNode  -- `ROOT_CNODE`
  pub context : ℕ  -- `__current_context`
  pub ttbr0 : ℕ  -- `TTBR0_EL1`

-- `push`
unfoldable pub push_ready : Tcbs → Sched → ℕ → Tcbs × Sched
push_ready ts s tcb =
    let cleared = set_next (set_state ts tcb ready) tcb 0 in
    (
      if is_null s.tail then cleared else set_next cleared s.tail tcb,
      record s { head = if is_null s.tail then tcb else s.head; tail = tcb },
    )

-- `pop`: 0 if the queue is empty.
unfoldable pub pop_ready : Tcbs → Sched → Tcbs × Sched × ℕ
pop_ready ts s = if is_null s.head then (ts, s, 0) else (
  set_next ts s.head 0,
  let rest = (ts s.head).next in
      record s { head = rest; tail = if is_null rest then 0 else s.tail },
  s.head,
)

-- `current_user_root`, without the ASID and CnP bits.
abbrev pub user_root : ℕ → ℕ
user_root ttbr0 = bit_and ttbr0 0x0000_FFFF_FFFF_FFFE

-- `switch_to`
unfoldable pub switch_to : Machine → ℕ → Machine
switch_to m next =
    let root = (m.tcbs next).ttbr0_pa in
    record m {
      tcbs = set_state m.tcbs next running;
      sched = record (m.sched) { current = next };
      context = next;
      ttbr0 = if root == user_root m.ttbr0 then m.ttbr0 else root;
    }

-- `handoff`, up to the entry into EL0
unfoldable pub handoff : Machine → ℕ → Machine
handoff m tcb = record m {
  tcbs = set_state m.tcbs tcb running;
  sched = record (m.sched) { current = tcb };
  context = tcb;
}

unfoldable pub enqueue : Machine → ℕ → Machine
enqueue m tcb = let (ts, s) = push_ready m.tcbs m.sched tcb in record m { tcbs = ts; sched = s }

-- The round-robin step of YIELD and of the timer.
unfoldable pub rotate : Machine → Machine
rotate m =
    let (ts, s, next) = pop_ready m.tcbs m.sched in
    if is_null next
    then m
    else let (ts', s') = push_ready ts s s.current in
      switch_to (record m { tcbs = ts'; sched = s' }) next

-- `false`: no task is ready, all are blocked.
unfoldable pub block_and_switch : Machine → Machine × Bool
block_and_switch m =
    let (ts, s, next) = pop_ready m.tcbs m.sched in
    if is_null next then (m, false) else (switch_to (record m { tcbs = ts; sched = s }) next, true)

-- `false`: the last task has exited.
unfoldable pub exit_current : Machine → Machine × Bool
exit_current m = block_and_switch (record m { tcbs = set_state m.tcbs m.sched.current dead })
