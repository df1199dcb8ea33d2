-- ===== src/Task.antt =====
-- crates/k0-task/src/lib.rs (the TCB and the endpoint) and `Context` of crates/k0-arch/src/usermode.rs.
-- A pointer to a TCB or an endpoint is its kernel address, and 0 is null; the memory behind the
-- pointers is a function from addresses. The address of a TCB stands for that of its context too.
pub mod Queue
use k.Base.{ℕ, Bool, true, false, ◌==◌, if◌then◌else◌, update, leb, ◌&&◌}

-- `x` is the array of 31 registers, by index.
pub record Context : Type 0 where
  pub x : ℕ → ℕ
  pub sp : ℕ
  pub elr : ℕ
  pub spsr : ℕ
  pub tpidr : ℕ
  pub tpidrro : ℕ

abbrev pub zeroed : Context
zeroed = record { x = λ _. 0; sp = 0; elr = 0; spsr = 0; tpidr = 0; tpidrro = 0 }

pub data TaskState : Type 0 where
  inactive stopped ready running dead blocked_send blocked_recv blocked_reply blocked_call :
      TaskState

pub record Tcb : Type 0 where
  pub ctx : Context
  pub ttbr0_pa : ℕ
  pub state : TaskState
  pub next : ℕ
  pub reply_to : ℕ

-- A frame of zeros, read as a TCB.
abbrev pub zero_tcb : Tcb
zero_tcb = record { ctx = zeroed; ttbr0_pa = 0; state = inactive; next = 0; reply_to = 0 }

pub record Endpoint : Type 0 where
  pub head : ℕ
  pub tail : ℕ

-- The TCBs in memory.
abbrev pub Tcbs : Type 0
Tcbs = ℕ → Tcb

abbrev pub set_state : Tcbs → ℕ → TaskState → Tcbs
set_state ts p s = update ts p (record (ts p) { state = s })

abbrev pub set_next : Tcbs → ℕ → ℕ → Tcbs
set_next ts p q = update ts p (record (ts p) { next = q })

abbrev pub set_reply_to : Tcbs → ℕ → ℕ → Tcbs
set_reply_to ts p q = update ts p (record (ts p) { reply_to = q })

abbrev pub set_ctx : Tcbs → ℕ → Context → Tcbs
set_ctx ts p c = update ts p (record (ts p) { ctx = c })

-- `ctx.x[i] = v`
abbrev pub set_reg : Tcbs → (p i v : ℕ) → Tcbs
set_reg ts p i v = set_ctx ts p (let c = (ts p).ctx in record c { x = update c.x i v })

abbrev pub is_null : ℕ → Bool
is_null p = p == 0

abbrev pub is_blocked_recv : TaskState → Bool
is_blocked_recv blocked_recv = true
is_blocked_recv _ = false

abbrev pub is_blocked_call : TaskState → Bool
is_blocked_call blocked_call = true
is_blocked_call _ = false

-- `Endpoint::push`
unfoldable pub ep_push : Tcbs → Endpoint → ℕ → Tcbs × Endpoint
ep_push ts e tcb =
    let cleared = set_next ts tcb 0 in
    (
      if is_null e.tail then cleared else set_next cleared e.tail tcb,
      record { head = if is_null e.tail then tcb else e.head; tail = tcb },
    )

-- `Endpoint::pop`: the new memory and endpoint, and the TCB that stood first.
unfoldable pub ep_pop : Tcbs → Endpoint → Tcbs × Endpoint × ℕ
ep_pop ts e = if is_null e.head then (ts, e, 0) else (
  set_next ts e.head 0,
  let rest = (ts e.head).next in record { head = rest; tail = if is_null rest then 0 else e.tail },
  e.head,
)
