-- ===== src/Ipc/Refine.antt =====
-- crates/k0-ipc/src/lib.rs: the four rendezvous calls implement those of `Spec`.
use k.Base.{
  ℕ, ◌≡◌, ◌≢◌, refl, sym, ap, ◌∙◌, subst, arith, Bool, true, false, not, if◌then◌else◌, Bool-cases,
  inl, inr, List, [], ◌∷◌,
}
use k.Abi.{would_block}
use k.Task.{
  TaskState, blocked_send, blocked_recv, blocked_reply, blocked_call, set_state, set_reply_to,
  is_null, is_blocked_recv, is_blocked_call,
}
use k.Task.Queue.{IsQueue, IsQueue-head_nil}
use k.Sched.{Machine, block_and_switch}
use k.Sched.Spec.{Spec, Rep, links, s_enqueue, s_block_and_switch}
use k.Sched.Refine.{Rep-tasks, enqueue-Rep, Switched, block_and_switch-Rep}
use k.Ipc.{
  deliver_to, pop_waiter, wait_on, abort_reply, set_x0, receiver_waits, sender_waits,
  wants_nonblock, send_now, send_on, hold_caller, take_from, recv_now, recv_inner, recv_on,
  call_now, call_on, reply, reply_recv_on,
}
use k.Ipc.Spec.{
  s_deliver, s_leave, s_abort_reply, s_owe, s_send_now, s_take_from, s_recv_now, s_call_now, s_wait,
  s_meet, s_send, s_recv, s_call, s_reply, s_reply_recv,
}
use k.Ipc.Sound.{Sound, Sound-current_home, Sound-owed_home, Sound-owed_other}
use k.Ipc.Steps.{
  set_x0-Rep, deliver_to-Rep, first_waiter, first_waiter_home, first_waiter_nonzero,
  pop_waiter-first, pop_waiter-Rep, wait_on-Rep, abort_reply-Rep,
}

-- The machine after `holder` has taken on the reply to `caller`.
abbrev owe : Machine → (holder caller : ℕ) → Machine
owe m holder caller = record m {
  tcbs = set_reply_to (set_state m.tcbs caller blocked_reply) holder caller;
}

owe-Rep : {m : Machine} {a : Spec} (h c : ℕ) → Rep m a → Rep (owe m h c) (s_owe a h c)
unfolding s_owe
owe-Rep h c r =
    let s = Rep-tasks _ _ r (λ q. ground arith) (λ q. ground (arith, r.tasks q)) in
    record {
      ready = s.ready;
      waiting = s.waiting;
      tasks = s.tasks;
      in_ready = s.in_ready;
      in_waiting = s.in_waiting;
      current = s.current;
      context = s.context;
      ttbr0 = s.ttbr0;
    }

-- The same, with the writes in the other order.
abbrev owe_of : Machine → (holder caller : ℕ) → Machine
owe_of m holder caller = record m {
  tcbs = set_state (set_reply_to m.tcbs holder caller) caller blocked_reply;
}

owe_of-Rep : {m : Machine} {a : Spec} (h c : ℕ) → Rep m a → Rep (owe_of m h c) (s_owe a h c)
unfolding s_owe
owe_of-Rep h c r =
    let s = Rep-tasks _ _ r (λ q. ground arith) (λ q. ground (arith, r.tasks q)) in
    record {
      ready = s.ready;
      waiting = s.waiting;
      tasks = s.tasks;
      in_ready = s.in_ready;
      in_waiting = s.in_waiting;
      current = s.current;
      context = s.context;
      ttbr0 = s.ttbr0;
    }

module _ {m : Machine} {a : Spec} (r : Rep m a) (ctx ep x : ℕ) (xs : List ℕ)
    (e : a.waiting ep ≡ x ∷ xs) where
  send_now-Rep : Rep (send_now m ctx ep) (s_send_now a ctx ep x xs)
  unfolding send_now s_send_now s_deliver s_leave
  send_now-Rep = rw (pop_waiter-first r ep x xs e) (
      set_x0-Rep
        (enqueue-Rep (deliver_to-Rep (pop_waiter-Rep r ep x xs e) ctx x) x
          (first_waiter_nonzero r ep x xs e) (ground arith))
        ctx 0)

take_from-Rep :
    {m : Machine} {a : Spec} (x : ℕ)
    → Rep m a
    → x ≢ 0
    → a.home x ≡ 0
    → ((a.tcbs a.current).reply_to ≢ 0 → a.home (a.tcbs a.current).reply_to ≡ 0)
    → Rep (take_from m x) (s_take_from a x)
unfolding take_from s_take_from hold_caller
take_from-Rep {m} {a} x r ne free owed =
    let same : is_blocked_call (m.tcbs x).state ≡ is_blocked_call (a.tcbs x).state =
      ap is_blocked_call (r.tasks x).state in
    elim (Bool-cases (is_blocked_call (a.tcbs x).state)) [
      | inl call ↦
          rw (same, call)
            (subst
              (λ c. Rep (owe (abort_reply m c) c x) (s_owe (s_abort_reply a a.current) a.current x))
              (sym r.current) (owe-Rep a.current x (abort_reply-Rep a.current r owed)))
      | inr plain ↦ rw (same, plain) (enqueue-Rep (set_x0-Rep r x 0) x ne free)
    ]

-- The tasks that are owed a reply by a task are on no queue.
abbrev Free : Spec → (holder : ℕ) → Type 0
Free a h = (a.tcbs h).reply_to ≢ 0 → a.home (a.tcbs h).reply_to ≡ 0

module _ {m : Machine} {a : Spec} (r : Rep m a) (ctx ep x : ℕ) (xs : List ℕ)
    (e : a.waiting ep ≡ x ∷ xs) where
  recv_now-Rep : Free a a.current → Rep (recv_now m ctx ep) (s_recv_now a ctx ep x xs)
  unfolding recv_now s_recv_now s_deliver s_leave
  recv_now-Rep free = rw (pop_waiter-first r ep x xs e) (
      take_from-Rep x (deliver_to-Rep (pop_waiter-Rep r ep x xs e) x ctx)
        (first_waiter_nonzero r ep x xs e) (ground arith) (λ ne. ground (arith, free)))

  abbrev left : Spec
  left = s_deliver (s_leave a ep x xs) ctx x

  home_x : Free a x → (s_owe (s_abort_reply left x) x a.current).home x ≡ 0
  unfolding s_owe s_abort_reply s_deliver s_leave s_enqueue
  home_x free = let h = first_waiter_home r ep x xs e in ground (arith, free)

  left-Free : Free a x → Free left x
  unfolding s_deliver s_leave
  left-Free free ne = ground (arith, free)

  pub call_now-Rep : Free a x → Rep (call_now m ctx ep) (s_call_now a ctx ep x xs)
  unfolding call_now s_call_now
  call_now-Rep free =
      let d : Rep (deliver_to (pop_waiter m ep).0 ctx x) left =
        deliver_to-Rep (pop_waiter-Rep r ep x xs e) ctx x in
      let o : Rep (owe_of (abort_reply (deliver_to (pop_waiter m ep).0 ctx x) x) x a.current)
          (s_owe (s_abort_reply left x) x a.current) =
        owe_of-Rep x a.current (abort_reply-Rep x d (left-Free free)) in
      rw (pop_waiter-first r ep x xs e) (
        enqueue-Rep
          (subst
            (λ c.
              Rep (owe_of (abort_reply (deliver_to (pop_waiter m ep).0 ctx x) x) x c)
                (s_owe (s_abort_reply left x) x a.current))
            (sym r.current) o)
          x (first_waiter_nonzero r ep x xs e) (home_x free))

module _ {m : Machine} {a : Spec} (r : Rep m a) (ep : ℕ) where
  nobody_head : a.waiting ep ≡ [] → is_null (m.eps ep).head ≡ true
  nobody_head e = ground (
    arith,
    IsQueue-head_nil (subst (IsQueue (links m) (m.eps ep).head (m.eps ep).tail) e (r.waiting ep)),
  )

  nobody : a.waiting ep ≡ [] → (receiver_waits m ep ≡ false) × (sender_waits m ep ≡ false)
  nobody e = ground (arith, nobody_head e)

  first_side :
      (x : ℕ) (xs : List ℕ)
      → a.waiting ep ≡ x ∷ xs
      → (receiver_waits m ep ≡ is_blocked_recv (a.tcbs x).state)
        × (sender_waits m ep ≡ not (is_blocked_recv (a.tcbs x).state))
  first_side x xs e =
      let h = first_waiter r ep x xs e in
      let n = first_waiter_nonzero r ep x xs e in
      let t : is_blocked_recv (m.tcbs x).state ≡ is_blocked_recv (a.tcbs x).state =
        ap is_blocked_recv (r.tasks x).state in
      ground arith

module _ {m : Machine} {a : Spec} (r : Rep m a) (ctx ep : ℕ) (nonzero : a.current ≢ 0)
    (free : a.home a.current ≡ 0) where
  wait-Rep :
      (no_wait : Bool) (s : TaskState)
      → Switched
          (if no_wait then (set_x0 m ctx would_block, true) else block_and_switch (wait_on m ep s))
          (s_wait a ctx ep no_wait s)
  wait-Rep true s = (set_x0-Rep r ctx would_block, refl)
  wait-Rep false s = block_and_switch-Rep (wait_on-Rep r ep s nonzero free)

  send-Rep :
      (xs : List ℕ)
      → a.waiting ep ≡ xs
      → Switched (send_on m ctx ep) (
          s_meet a is_blocked_recv
            (λ x rest. (s_send_now a ctx ep x rest, true))
            (s_wait a ctx ep (wants_nonblock m ctx) blocked_send)
            xs)
  unfolding send_on
  send-Rep [] e = rw (nobody r ep e).0 (wait-Rep (wants_nonblock m ctx) blocked_send)
  send-Rep (x ∷ xs) e = elim (Bool-cases (is_blocked_recv (a.tcbs x).state)) [
    | inl recv ↦ rw ((first_side r ep x xs e).0, recv) (send_now-Rep r ctx ep x xs e, refl)
    | inr send ↦
        rw ((first_side r ep x xs e).0, send) (wait-Rep (wants_nonblock m ctx) blocked_send)
  ]

  recv-Rep :
      (xs : List ℕ) (no_wait : Bool)
      → Free a a.current
      → a.waiting ep ≡ xs
      → Switched (recv_inner m ctx ep no_wait) (
          s_meet a
            (λ s. not (is_blocked_recv s))
            (λ x rest. (s_recv_now a ctx ep x rest, true))
            (s_wait a ctx ep no_wait blocked_recv)
            xs)
  unfolding recv_inner
  recv-Rep [] no_wait owed e = rw (nobody r ep e).1 (wait-Rep no_wait blocked_recv)
  recv-Rep (x ∷ xs) no_wait owed e = elim (Bool-cases (is_blocked_recv (a.tcbs x).state)) [
    | inl recv ↦ rw ((first_side r ep x xs e).1, recv) (wait-Rep no_wait blocked_recv)
    | inr send ↦ rw ((first_side r ep x xs e).1, send) (recv_now-Rep r ctx ep x xs e owed, refl)
  ]

  call-Rep :
      (xs : List ℕ)
      → ((p : ℕ) → Free a p)
      → a.waiting ep ≡ xs
      → Switched (call_on m ctx ep) (
          s_meet a is_blocked_recv
            (λ x rest. s_block_and_switch (s_call_now a ctx ep x rest))
            (s_wait a ctx ep (wants_nonblock m ctx) blocked_call)
            xs)
  unfolding call_on
  call-Rep [] owed e = rw (nobody r ep e).0 (wait-Rep (wants_nonblock m ctx) blocked_call)
  call-Rep (x ∷ xs) owed e = elim (Bool-cases (is_blocked_recv (a.tcbs x).state)) [
    | inl recv ↦
        rw ((first_side r ep x xs e).0, recv)
          (block_and_switch-Rep (call_now-Rep r ctx ep x xs e (owed x)))
    | inr send ↦
        rw ((first_side r ep x xs e).0, send) (wait-Rep (wants_nonblock m ctx) blocked_call)
  ]

-- The caller that waits for the reply of the current task.
pub reply-Rep :
    {m : Machine} {a : Spec} (ctx : ℕ)
    → Rep m a
    → Free a a.current
    → Rep (reply m ctx) (s_reply a ctx)
unfolding reply s_reply s_deliver
reply-Rep {m} {a} ctx r free =
    let caller = (a.tcbs a.current).reply_to in
    let same : (m.tcbs m.sched.current).reply_to ≡ caller =
      ap (λ p. (m.tcbs p).reply_to) r.current ∙ (r.tasks a.current).reply_to in
    let cleared : Rep (record m { tcbs = set_reply_to m.tcbs m.sched.current 0 })
        (record a { tcbs = set_reply_to a.tcbs a.current 0 }) =
      Rep-tasks _ _ r (λ q. ground arith) (λ q. ground (arith, r.tasks q, r.current)) in
    elim (Bool-cases (is_null caller)) [
      | inl none ↦ rw (same, none) r
      | inr some ↦
          let ne : caller ≢ 0 = ground arith in
          rw (same, some) (enqueue-Rep (deliver_to-Rep cleared ctx caller) caller ne (free ne))
    ]

after_reply :
    {a : Spec} (ctx : ℕ)
    → Sound a
    → ((s_reply a ctx).current ≡ a.current)
      × ((s_reply a ctx).home a.current ≡ 0)
      × Free (s_reply a ctx) a.current
unfolding s_reply s_deliver s_enqueue
after_reply {a} ctx s =
    let caller = (a.tcbs a.current).reply_to in
    elim (Bool-cases (is_null caller)) [
      | inl none ↦ rw none (refl, Sound-current_home s, Sound-owed_home s a.current)
      | inr some ↦
          let ne : caller ≢ 0 = ground arith in
          rw some (
            refl,
            ground (arith, Sound-current_home s, Sound-owed_other s a.current ne),
            λ k. absurd (k (ground arith)),
          )
    ]

module _ {m : Machine} {a : Spec} (s : Sound a) (r : Rep m a) (ctx ep : ℕ) where
  -- SEND on the TCB links of a sound machine does what `s_send` says of the lists. To a receiver that
  -- waits the message is handed over, and it is made ready; with none, the sender returns at once, or
  -- it goes to the end of the endpoint's queue and the oldest ready task runs.
  pub send_on-Rep : Switched (send_on m ctx ep) (s_send a ctx ep (wants_nonblock m ctx))
  unfolding s_send
  send_on-Rep = send-Rep r ctx ep s.current_nonzero (Sound-current_home s) (a.waiting ep) refl

  -- RECV on the TCB links of a sound machine does what `s_recv` says of the lists. The message of the
  -- oldest sender is taken; a plain sender is made ready, and a caller waits for its reply, which
  -- the receiver now owes it. With none, the receiver returns at once or waits its turn.
  pub recv_on-Rep : Switched (recv_on m ctx ep) (s_recv a ctx ep (wants_nonblock m ctx))
  unfolding s_recv recv_on
  recv_on-Rep =
      recv-Rep r ctx ep s.current_nonzero (Sound-current_home s) (a.waiting ep)
        (wants_nonblock m ctx) (Sound-owed_home s a.current) refl

  -- CALL on the TCB links of a sound machine does what `s_call` says of the lists. A receiver that
  -- waits gets the message and owes the reply; a caller to which it owed an earlier one wakes with an
  -- error. The caller waits and the oldest ready task runs.
  pub call_on-Rep : Switched (call_on m ctx ep) (s_call a ctx ep (wants_nonblock m ctx))
  unfolding s_call
  call_on-Rep =
      call-Rep r ctx ep s.current_nonzero (Sound-current_home s) (a.waiting ep) (Sound-owed_home s)
        refl

  -- REPLY_RECV on the TCB links of a sound machine does what `s_reply_recv` says of the lists: the
  -- caller that is owed a reply gets the message and is made ready, and then a RECV follows.
  pub reply_recv_on-Rep :
      Switched (reply_recv_on m ctx ep) (s_reply_recv a ctx ep (wants_nonblock m ctx))
  unfolding reply_recv_on s_reply_recv s_recv
  reply_recv_on-Rep =
      let b = s_reply a ctx in
      let (cur, home, free) = after_reply ctx s in
      recv-Rep (reply-Rep ctx r (Sound-owed_home s a.current)) ctx ep
        (λ z. s.current_nonzero (sym cur ∙ z)) (ap b.home cur ∙ home) (b.waiting ep)
        (wants_nonblock m ctx) (subst (Free b) (sym cur) free) refl
