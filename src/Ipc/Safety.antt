-- ===== src/Ipc/Safety.antt =====
-- crates/k0-ipc/src/lib.rs and crates/k0-sched/src/lib.rs: the machine stays sound from one system
-- call to the next, for as long as a task can run.
use k.Base.{
  ℕ, ◌≡◌, refl, sym, ap, ◌∙◌, arith, Bool, true, false, not, ◌==◌, Bool-cases, inl, inr, List, [],
  ◌∷◌,
}
use k.Task.{TaskState, blocked_send, blocked_recv, blocked_call, is_blocked_recv}
use k.Task.Queue.{has}
use k.Sched.{Machine}
use k.Sched.Spec.{Spec, Rep, at_endpoint, s_block_and_switch}
use k.Sched.Refine.{Switched}
use k.Ipc.{wants_nonblock, send_on, recv_on, call_on, reply_recv_on}
use k.Ipc.Spec.{
  s_send_now, s_recv_now, s_call_now, s_wait, s_meet, s_send, s_recv, s_call, s_reply, s_reply_recv,
}
use k.Ipc.Sound.{Sound, is_waiting, Sound-current_home, Sound-owed_home}
use k.Ipc.Steps.{first_waiter_home, first_waiter_nonzero, wait_on-Rep}
use k.Ipc.Refine.{call_now-Rep, send_on-Rep, recv_on-Rep, call_on-Rep, reply_recv_on-Rep, reply-Rep}
use k.Ipc.Away.{set_x0-Tasks}
use k.Ipc.Running.{set_x0-Kept, wait_on-Idle, wait_on-Tasks, block_and_switch-Sound}
use k.Ipc.Invariant.{
  Kept-Sound, reply-Sound, send_now-Sound, recv_now-Sound, call_now-Tasks, call_now-Idle,
}

-- The links and the ends of the queues hold lists of tasks for which `Sound` holds.
abbrev pub IsSound : Machine → Type 0
IsSound m = (a : Spec) × Rep m a × Sound a

module _ {m : Machine} {a : Spec} (s : Sound a) (r : Rep m a) (ctx ep : ℕ) where
  side_nil :
      a.waiting ep ≡ []
      → (b : Bool) (p : ℕ) → a.home p ≡ at_endpoint ep
      → is_blocked_recv (a.tcbs p).state ≡ b
  side_nil e b p h =
      let l : has p (a.waiting ep) ≡ (a.home p == at_endpoint ep) = r.in_waiting ep p in
      let n : has p (a.waiting ep) ≡ false = ap (has p) e in absurd (ground arith)

  side_cons :
      (x : ℕ) (xs : List ℕ) (b : Bool)
      → a.waiting ep ≡ x ∷ xs
      → is_blocked_recv (a.tcbs x).state ≡ b
      → (p : ℕ) → a.home p ≡ at_endpoint ep
      → is_blocked_recv (a.tcbs p).state ≡ b
  side_cons x xs b e q p h =
      let hx = first_waiter_home r ep x xs e in ground (arith, s.tasks.one_sided p x)

  wait-Sound :
      (no_wait : Bool) (t : TaskState)
      → is_waiting t ≡ true
      → ((p : ℕ) → a.home p ≡ at_endpoint ep → is_blocked_recv (a.tcbs p).state ≡ is_blocked_recv t)
      → (s_wait a ctx ep no_wait t).1 ≡ true
      → Sound (s_wait a ctx ep no_wait t).0
  wait-Sound true t waits side done = Kept-Sound s (set_x0-Kept ctx _) (set_x0-Tasks ctx _ s.tasks)
  wait-Sound false t waits side done =
      block_and_switch-Sound (wait_on-Rep r ep t s.current_nonzero (Sound-current_home s))
        (wait_on-Tasks s ep t waits side) (wait_on-Idle s ep t waits) done

  send_with-Sound :
      (xs : List ℕ) (no_wait : Bool)
      → a.waiting ep ≡ xs
      → let b =
          s_meet a is_blocked_recv
            (λ x rest. (s_send_now a ctx ep x rest, true))
            (s_wait a ctx ep no_wait blocked_send)
            xs in
        b.1 ≡ true → Sound b.0
  send_with-Sound [] no_wait e = wait-Sound no_wait blocked_send refl (side_nil e false)
  send_with-Sound (x ∷ xs) no_wait e = elim (Bool-cases (is_blocked_recv (a.tcbs x).state)) [
    | inl recv ↦ rw recv (λ _.
        send_now-Sound s ctx ep x xs (first_waiter_nonzero r ep x xs e)
          (first_waiter_home r ep x xs e))
    | inr send ↦ rw send (wait-Sound no_wait blocked_send refl (side_cons x xs false e send))
  ]

  recv_with-Sound :
      (xs : List ℕ) (no_wait : Bool)
      → a.waiting ep ≡ xs
      → let b =
          s_meet a
            (λ t. not (is_blocked_recv t))
            (λ x rest. (s_recv_now a ctx ep x rest, true))
            (s_wait a ctx ep no_wait blocked_recv)
            xs in
        b.1 ≡ true → Sound b.0
  recv_with-Sound [] no_wait e = wait-Sound no_wait blocked_recv refl (side_nil e true)
  recv_with-Sound (x ∷ xs) no_wait e = elim (Bool-cases (is_blocked_recv (a.tcbs x).state)) [
    | inl recv ↦ rw recv (wait-Sound no_wait blocked_recv refl (side_cons x xs true e recv))
    | inr send ↦ rw send (λ _.
        recv_now-Sound s ctx ep x xs (first_waiter_nonzero r ep x xs e)
          (first_waiter_home r ep x xs e))
  ]

  call_with-Sound :
      (xs : List ℕ) (no_wait : Bool)
      → a.waiting ep ≡ xs
      → let b =
          s_meet a is_blocked_recv
            (λ x rest. s_block_and_switch (s_call_now a ctx ep x rest))
            (s_wait a ctx ep no_wait blocked_call)
            xs in
        b.1 ≡ true → Sound b.0
  call_with-Sound [] no_wait e = wait-Sound no_wait blocked_call refl (side_nil e false)
  call_with-Sound (x ∷ xs) no_wait e = elim (Bool-cases (is_blocked_recv (a.tcbs x).state)) [
    | inl recv ↦
        let nz = first_waiter_nonzero r ep x xs e in
        let home = first_waiter_home r ep x xs e in
        rw recv (
          block_and_switch-Sound (call_now-Rep r ctx ep x xs e (Sound-owed_home s x))
            (call_now-Tasks s ctx ep x xs nz home) (call_now-Idle s ctx ep x xs nz home))
    | inr send ↦ rw send (wait-Sound no_wait blocked_call refl (side_cons x xs false e send))
  ]

module _ (m : Machine) (ctx ep : ℕ) where
  abbrev Kept : Machine × Bool → Type 0
  Kept (n, running) = running ≡ true → IsSound n

  -- The two views of a call agree, and the lists stay sound.
  follow : (b : Machine × Bool) (c : Spec × Bool) → Switched b c → (c.1 ≡ true → Sound c.0) → Kept b
  follow b c (r, same) keep running = (c.0, r, keep (sym same ∙ running))

  -- SEND on an endpoint, by any context, keeps the machine sound if the answer is that a task can
  -- still run: the queues hold lists of distinct tasks, states agree with queues, exactly the current
  -- task runs, and each right to reply has one owner, alive, and one caller that waits for it.
  pub send_on-IsSound : IsSound m → (send_on m ctx ep).1 ≡ true → IsSound (send_on m ctx ep).0
  unfolding s_send
  send_on-IsSound (a, r, s) =
      follow _ _ (send_on-Rep s r ctx ep)
        (send_with-Sound s r ctx ep (a.waiting ep) (wants_nonblock m ctx) refl)

  -- RECV on an endpoint, by any context, keeps the machine sound if the answer is that a task can
  -- still run: the queues hold lists of distinct tasks, states agree with queues, exactly the current
  -- task runs, and each right to reply has one owner, alive, and one caller that waits for it.
  pub recv_on-IsSound : IsSound m → (recv_on m ctx ep).1 ≡ true → IsSound (recv_on m ctx ep).0
  unfolding s_recv
  recv_on-IsSound (a, r, s) =
      follow _ _ (recv_on-Rep s r ctx ep)
        (recv_with-Sound s r ctx ep (a.waiting ep) (wants_nonblock m ctx) refl)

  -- CALL on an endpoint, by any context, keeps the machine sound if the answer is that a task can
  -- still run: the queues hold lists of distinct tasks, states agree with queues, exactly the current
  -- task runs, and each right to reply has one owner, alive, and one caller that waits for it.
  pub call_on-IsSound : IsSound m → (call_on m ctx ep).1 ≡ true → IsSound (call_on m ctx ep).0
  unfolding s_call
  call_on-IsSound (a, r, s) =
      follow _ _ (call_on-Rep s r ctx ep)
        (call_with-Sound s r ctx ep (a.waiting ep) (wants_nonblock m ctx) refl)

  -- REPLY_RECV on an endpoint, by any context, keeps the machine sound if the answer is that a task can
  -- still run: the queues hold lists of distinct tasks, states agree with queues, exactly the current
  -- task runs, and each right to reply has one owner, alive, and one caller that waits for it.
  pub reply_recv_on-IsSound :
      IsSound m → (reply_recv_on m ctx ep).1 ≡ true → IsSound (reply_recv_on m ctx ep).0
  unfolding s_reply_recv s_recv
  reply_recv_on-IsSound (a, r, s) =
      let b = s_reply a ctx in
      follow _ _ (reply_recv_on-Rep s r ctx ep) (
        recv_with-Sound (reply-Sound ctx s) (reply-Rep ctx r (Sound-owed_home s a.current)) ctx ep
          (b.waiting ep) (wants_nonblock m ctx) refl)
