-- ===== src/Kernel/Dispatch.antt =====
-- kernel/src/main.rs: `k0_syscall`, `k0_fault`, `k0_preempt`. The context that the vectors hand over
-- is the one that `__current_context` points to. The answer `false` means that the kernel has parked.
use k.Base.{ℕ, Bool, true, false, ◌==◌, if◌then◌else◌, none, some}
use k.Abi.{
  sys_no_debug_putc, sys_no_yield, sys_no_exit, sys_no_retype, sys_no_map, sys_no_tcb_configure,
  sys_no_tcb_resume, sys_no_send, sys_no_recv, sys_no_call, sys_no_reply_recv,
}
use k.Sched.{Machine, rotate, exit_current}
use k.Ipc.{abort_reply, set_x0, reg, sys_send, sys_recv, sys_call, sys_reply_recv}
use k.Kernel.{
  Build, Kernel, Answer, with_machine, sys_putc, sys_retype, sys_map, sys_tcb_configure,
  sys_tcb_resume,
}

abbrev pub Outcome : Type 0
Outcome = Kernel × Bool

-- `ctx.x[0] = ...`
abbrev pub answered : (ctx : ℕ) → Answer → Outcome
answered ctx (k, none) = (k, false)
answered ctx (k, some v) = (with_machine k (set_x0 k.machine ctx v), true)

abbrev pub on_machine : Kernel → Machine × Bool → Outcome
on_machine k (m, running) = (with_machine k m, running)

unfoldable pub kill_current : Kernel → Outcome
kill_current k = let m = k.machine in on_machine k (exit_current (abort_reply m m.sched.current))

unfoldable pub yield_current : Kernel → (ctx : ℕ) → Outcome
yield_current k ctx = (with_machine k (rotate (set_x0 k.machine ctx 0)), true)

-- The cases of the match on `ctx.x[8]`.
pub data SysCall : Type 0 where
  debug_putc yield exit retype map tcb_configure tcb_resume send recv call reply_recv other :
      SysCall

unfoldable pub sys_call_of : ℕ → SysCall
sys_call_of n =
    if n == sys_no_debug_putc
    then debug_putc
    else if n == sys_no_yield
    then yield
    else if n == sys_no_exit
    then exit
    else if n == sys_no_retype
    then retype
    else if n == sys_no_map
    then map
    else if n == sys_no_tcb_configure
    then tcb_configure
    else if n == sys_no_tcb_resume
    then tcb_resume
    else if n == sys_no_send
    then send
    else if n == sys_no_recv
    then recv
    else if n == sys_no_call
    then call
    else if n == sys_no_reply_recv
    then reply_recv
    else other

-- The arms of the match; `x` are the registers.
abbrev pub handle : Build → Kernel → (ctx : ℕ) → (x : ℕ → ℕ) → SysCall → Outcome
handle build k ctx x debug_putc = answered ctx (sys_putc k (x 0) (x 1))
handle build k ctx x yield = yield_current k ctx
handle build k ctx x exit = kill_current k
handle build k ctx x retype = answered ctx (sys_retype build k (x 0) (x 1))
handle build k ctx x map = answered ctx (sys_map build k (x 0) (x 1) (x 2) (x 3))
handle build k ctx x tcb_configure =
    answered ctx (sys_tcb_configure build k (x 0) (x 1) (x 2) (x 3))
handle build k ctx x tcb_resume = answered ctx (sys_tcb_resume k (x 0))
handle build k ctx x send = on_machine k (sys_send k.machine ctx)
handle build k ctx x recv = on_machine k (sys_recv k.machine ctx)
handle build k ctx x call = on_machine k (sys_call k.machine ctx)
handle build k ctx x reply_recv = on_machine k (sys_reply_recv k.machine ctx)
handle build k ctx x other = kill_current k

unfoldable pub k0_syscall : Build → Kernel → Outcome
k0_syscall build k =
    let m = k.machine in
    let ctx = m.context in handle build k ctx (reg m ctx) (sys_call_of (reg m ctx 8))

unfoldable pub k0_fault : Kernel → Outcome
k0_fault k = kill_current k

unfoldable pub k0_preempt : Kernel → Kernel
k0_preempt k = with_machine k (rotate k.machine)
