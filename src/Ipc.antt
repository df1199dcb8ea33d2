-- ===== src/Ipc.antt =====
-- crates/k0-ipc/src/lib.rs: synchronous rendezvous. `ctx` is the address of the task whose saved
-- context the call works on. A handler returns the machine and `false` if all tasks are blocked.
pub mod Spec
pub mod Sound
pub mod Steps
pub mod Refine
pub mod Away
pub mod Running
pub mod Invariant
pub mod Safety
pub mod Delivery
use k.Base.{
  ℕ, ◌+◌, Bool, true, false, not, ◌&&◌, ◌||◌, ltb, leb, ◌==◌, if◌then◌else◌, update, Option, none,
  some, Result, ok, err, bit_and,
}
use k.Abi.{kernel_va_offset, error_code, nonblock, bad_slot, bad_cap, would_block, no_reply}
use k.Cap.{Cap, endpoint, cap}
use k.Task.{
  Context, Tcb, Tcbs, TaskState, blocked_send, blocked_recv, blocked_reply, blocked_call, Endpoint,
  set_state, set_reply_to, set_ctx, set_reg, is_null, is_blocked_recv, is_blocked_call, ep_push,
  ep_pop,
}
use k.Sched.{Machine, enqueue, block_and_switch}

-- The endpoint object that a capability names.
abbrev pub ep_of_cap : Option Cap → Result ℕ ℕ
ep_of_cap (some (endpoint base)) = ok (base + kernel_va_offset)
ep_of_cap (some _) = err bad_cap
ep_of_cap none = err bad_slot

unfoldable pub ep_of : Machine → (slot : ℕ) → Result ℕ ℕ
ep_of m slot = ep_of_cap (cap m.cnode slot)

-- The message registers `x2` to `x5`; `x0` says success and `x1` is the badge.
unfoldable pub deliver : Context → Context → Context
deliver src dst = record dst {
  x = update (update (λ i. if leb 2 i && leb i 5 then src.x i else dst.x i) 0 0) 1 0;
}

-- `x[i]` of the context of task `p`
abbrev pub reg : Machine → (p i : ℕ) → ℕ
reg m p i = (m.tcbs p).ctx.x i

abbrev pub set_x0 : Machine → ℕ → ℕ → Machine
set_x0 m p v = record m { tcbs = set_reg m.tcbs p 0 v }

-- The message from `src` into the context of `dst`.
unfoldable pub deliver_to : Machine → (src dst : ℕ) → Machine
deliver_to m src dst = record m {
  tcbs = set_ctx m.tcbs dst (deliver (m.tcbs src).ctx (m.tcbs dst).ctx);
}

-- `(*ep).pop()`
unfoldable pub pop_waiter : Machine → (ep : ℕ) → Machine × ℕ
pop_waiter m ep =
    let (ts, e, first) = ep_pop m.tcbs (m.eps ep) in
    (record m { tcbs = ts; eps = update m.eps ep e }, first)

-- The current task goes to sleep in the state `s` on the queue of `ep`.
unfoldable pub wait_on : Machine → (ep : ℕ) → TaskState → Machine
wait_on m ep s =
    let cur = m.sched.current in
    let (ts, e) = ep_push (set_state m.tcbs cur s) (m.eps ep) cur in
    record m { tcbs = ts; eps = update m.eps ep e }

unfoldable pub abort_reply : Machine → (holder : ℕ) → Machine
abort_reply m holder =
    let caller = (m.tcbs holder).reply_to in
    let cleared = record m { tcbs = set_reply_to m.tcbs holder 0 } in
    if is_null caller then cleared else enqueue (set_x0 cleared caller no_reply) caller

-- `(*ep).head` is a receiver that waits.
abbrev pub receiver_waits : Machine → (ep : ℕ) → Bool
receiver_waits m ep =
    let head = (m.eps ep).head in not (is_null head) && is_blocked_recv (m.tcbs head).state

-- `(*ep).head` is a sender that waits.
abbrev pub sender_waits : Machine → (ep : ℕ) → Bool
sender_waits m ep =
    let head = (m.eps ep).head in not (is_null head) && not (is_blocked_recv (m.tcbs head).state)

abbrev pub wants_nonblock : Machine → ℕ → Bool
wants_nonblock m ctx = not (bit_and (reg m ctx 1) nonblock == 0)

-- SEND to a receiver that waits.
unfoldable pub send_now : Machine → (ctx ep : ℕ) → Machine
send_now m ctx ep =
    let (popped, rcv) = pop_waiter m ep in set_x0 (enqueue (deliver_to popped ctx rcv) rcv) ctx 0

unfoldable pub send_on : Machine → (ctx ep : ℕ) → Machine × Bool
send_on m ctx ep =
    if receiver_waits m ep
    then (send_now m ctx ep, true)
    else if wants_nonblock m ctx
    then (set_x0 m ctx would_block, true)
    else block_and_switch (wait_on m ep blocked_send)

-- The caller `snd` waits for the reply that the current task now owes it.
unfoldable pub hold_caller : Machine → (snd : ℕ) → Machine
hold_caller m snd =
    let cur = m.sched.current in
    let freed = abort_reply m cur in
    record freed { tcbs = set_reply_to (set_state freed.tcbs snd blocked_reply) cur snd }

-- A sender that was popped: a caller waits for its reply, and a plain sender is woken.
unfoldable pub take_from : Machine → (snd : ℕ) → Machine
take_from m snd =
    if is_blocked_call (m.tcbs snd).state then hold_caller m snd else enqueue (set_x0 m snd 0) snd

-- The receive step with a sender that waits.
unfoldable pub recv_now : Machine → (ctx ep : ℕ) → Machine
recv_now m ctx ep = let (popped, snd) = pop_waiter m ep in take_from (deliver_to popped snd ctx) snd

unfoldable pub recv_inner : Machine → (ctx ep : ℕ) → (nonblock : Bool) → Machine × Bool
recv_inner m ctx ep no_wait =
    if sender_waits m ep
    then (recv_now m ctx ep, true)
    else if no_wait
    then (set_x0 m ctx would_block, true)
    else block_and_switch (wait_on m ep blocked_recv)

-- CALL to a receiver that waits: the message is handed over, and the right to reply with it.
unfoldable pub call_now : Machine → (ctx ep : ℕ) → Machine
call_now m ctx ep =
    let cur = m.sched.current in
    let (popped, rcv) = pop_waiter m ep in
    let freed = abort_reply (deliver_to popped ctx rcv) rcv in
    enqueue (record freed { tcbs = set_state (set_reply_to freed.tcbs rcv cur) cur blocked_reply })
      rcv

unfoldable pub call_on : Machine → (ctx ep : ℕ) → Machine × Bool
call_on m ctx ep =
    if receiver_waits m ep
    then block_and_switch (call_now m ctx ep)
    else if wants_nonblock m ctx
    then (set_x0 m ctx would_block, true)
    else block_and_switch (wait_on m ep blocked_call)

-- The reply to the caller that the current task holds, if it holds one.
unfoldable pub reply : Machine → (ctx : ℕ) → Machine
reply m ctx =
    let cur = m.sched.current in
    let caller = (m.tcbs cur).reply_to in
    if is_null caller
    then m
    else enqueue (deliver_to (record m { tcbs = set_reply_to m.tcbs cur 0 }) ctx caller) caller

unfoldable pub reply_recv_on : Machine → (ctx ep : ℕ) → Machine × Bool
reply_recv_on m ctx ep = recv_inner (reply m ctx) ctx ep (wants_nonblock m ctx)

-- The system calls look the endpoint up first; an error goes to `x0` and changes nothing else.
abbrev pub on_endpoint :
    (Machine → (ctx ep : ℕ) → Machine × Bool) → Machine → ℕ → Result ℕ ℕ → Machine × Bool
on_endpoint act m ctx (err e) = (set_x0 m ctx e, true)
on_endpoint act m ctx (ok ep) = act m ctx ep

unfoldable pub sys_send : Machine → (ctx : ℕ) → Machine × Bool
sys_send m ctx = on_endpoint send_on m ctx (ep_of m (reg m ctx 0))

unfoldable pub recv_on : Machine → (ctx ep : ℕ) → Machine × Bool
recv_on m ctx ep = recv_inner m ctx ep (wants_nonblock m ctx)

unfoldable pub sys_recv : Machine → (ctx : ℕ) → Machine × Bool
sys_recv m ctx = on_endpoint recv_on m ctx (ep_of m (reg m ctx 0))

unfoldable pub sys_call : Machine → (ctx : ℕ) → Machine × Bool
sys_call m ctx = on_endpoint call_on m ctx (ep_of m (reg m ctx 0))

unfoldable pub sys_reply_recv : Machine → (ctx : ℕ) → Machine × Bool
sys_reply_recv m ctx = on_endpoint reply_recv_on m ctx (ep_of m (reg m ctx 0))
