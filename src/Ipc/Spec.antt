-- ===== src/Ipc/Spec.antt =====
-- The rendezvous over the lists of `Sched.Spec`: what SEND, RECV, CALL and REPLY_RECV promise.
use k.Base.{ℕ, Bool, true, false, not, if◌then◌else◌, update, List, [], ◌∷◌, ◌++◌}
use k.Abi.{would_block, no_reply}
use k.Task.{
  TaskState, blocked_send, blocked_recv, blocked_reply, blocked_call, set_state, set_reply_to,
  set_ctx, set_reg, is_null, is_blocked_recv, is_blocked_call,
}
use k.Ipc.{deliver}
use k.Sched.Spec.{Spec, at_endpoint, s_enqueue, s_block_and_switch}

abbrev pub s_set_x0 : Spec → ℕ → ℕ → Spec
s_set_x0 a p v = record a { tcbs = set_reg a.tcbs p 0 v }

unfoldable pub s_deliver : Spec → (src dst : ℕ) → Spec
s_deliver a src dst = record a {
  tcbs = set_ctx a.tcbs dst (deliver (a.tcbs src).ctx (a.tcbs dst).ctx);
}

-- `x`, the first that waits at `ep`, leaves; `rest` stays.
unfoldable pub s_leave : Spec → (ep x : ℕ) → List ℕ → Spec
s_leave a ep x rest = record a { waiting = update a.waiting ep rest; home = update a.home x 0 }

-- The current task joins those that wait at `ep`.
unfoldable pub s_wait_on : Spec → (ep : ℕ) → TaskState → Spec
s_wait_on a ep s = record a {
  tcbs = set_state a.tcbs a.current s;
  waiting = update a.waiting ep (a.waiting ep ++ (a.current ∷ []));
  home = update a.home a.current (at_endpoint ep);
}

-- The caller to which `holder` owes a reply, if there is one, wakes with an error.
unfoldable pub s_abort_reply : Spec → (holder : ℕ) → Spec
s_abort_reply a holder =
    let caller = (a.tcbs holder).reply_to in
    let cleared = record a { tcbs = set_reply_to a.tcbs holder 0 } in
    if is_null caller then cleared else s_enqueue (s_set_x0 cleared caller no_reply) caller

-- `caller` waits for the reply that `holder` owes it.
unfoldable pub s_owe : Spec → (holder caller : ℕ) → Spec
s_owe a holder caller = record a {
  tcbs = set_reply_to (set_state a.tcbs caller blocked_reply) holder caller;
  holder = update a.holder caller holder;
}

unfoldable pub s_send_now : Spec → (ctx ep rcv : ℕ) → List ℕ → Spec
s_send_now a ctx ep rcv rest =
    s_set_x0 (s_enqueue (s_deliver (s_leave a ep rcv rest) ctx rcv) rcv) ctx 0

unfoldable pub s_take_from : Spec → (snd : ℕ) → Spec
s_take_from a snd =
    if is_blocked_call (a.tcbs snd).state
    then s_owe (s_abort_reply a a.current) a.current snd
    else s_enqueue (s_set_x0 a snd 0) snd

unfoldable pub s_recv_now : Spec → (ctx ep snd : ℕ) → List ℕ → Spec
s_recv_now a ctx ep snd rest = s_take_from (s_deliver (s_leave a ep snd rest) snd ctx) snd

unfoldable pub s_call_now : Spec → (ctx ep rcv : ℕ) → List ℕ → Spec
s_call_now a ctx ep rcv rest =
    s_enqueue (s_owe (s_abort_reply (s_deliver (s_leave a ep rcv rest) ctx rcv) rcv) rcv a.current)
      rcv

-- Nobody on the other side: return at once, or wait in the state `s`.
abbrev pub s_wait : Spec → (ctx ep : ℕ) → Bool → TaskState → Spec × Bool
s_wait a ctx ep true s = (s_set_x0 a ctx would_block, true)
s_wait a ctx ep false s = s_block_and_switch (s_wait_on a ep s)

-- What an act does with the queue of its endpoint: `now` if the first that waits is on the other
-- side, as `meets` says of its state, and `later` otherwise.
abbrev pub s_meet {ℓ} :
    {A : Type ℓ} → Spec → (TaskState → Bool) → (now : ℕ → List ℕ → A) → (later : A) → List ℕ → A
s_meet a meets now later [] = later
s_meet a meets now later (x ∷ rest) = if meets (a.tcbs x).state then now x rest else later

unfoldable pub s_send : Spec → (ctx ep : ℕ) → Bool → Spec × Bool
s_send a ctx ep no_wait =
    s_meet a is_blocked_recv (λ x rest. (s_send_now a ctx ep x rest, true))
      (s_wait a ctx ep no_wait blocked_send) (a.waiting ep)

unfoldable pub s_recv : Spec → (ctx ep : ℕ) → Bool → Spec × Bool
s_recv a ctx ep no_wait =
    s_meet a (λ s. not (is_blocked_recv s)) (λ x rest. (s_recv_now a ctx ep x rest, true))
      (s_wait a ctx ep no_wait blocked_recv) (a.waiting ep)

unfoldable pub s_call : Spec → (ctx ep : ℕ) → Bool → Spec × Bool
s_call a ctx ep no_wait =
    s_meet a is_blocked_recv (λ x rest. s_block_and_switch (s_call_now a ctx ep x rest))
      (s_wait a ctx ep no_wait blocked_call) (a.waiting ep)

unfoldable pub s_reply : Spec → (ctx : ℕ) → Spec
s_reply a ctx =
    let caller = (a.tcbs a.current).reply_to in
    if is_null caller
    then a
    else s_enqueue (s_deliver (record a { tcbs = set_reply_to a.tcbs a.current 0 }) ctx caller)
        caller

unfoldable pub s_reply_recv : Spec → (ctx ep : ℕ) → Bool → Spec × Bool
s_reply_recv a ctx ep no_wait = s_recv (s_reply a ctx) ctx ep no_wait
