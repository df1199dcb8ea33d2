-- ===== src/Ipc/Steps.antt =====
-- The pointer writes of the IPC path, step by step, against the lists of `Spec`.
use k.Base.{ℕ, ◌≡◌, ◌≢◌, sym, ◌∙◌, subst, arith, true, false, ◌==◌, Bool-cases, inl, inr, List, ◌∷◌}
use k.Task.{TaskState, set_reply_to, is_null, ep_pop, ep_push}
use k.Task.Queue.{
  has, IsQueue, IsQueue-frame, IsQueue-push, IsQueue-pop, IsQueue-head_cons, IsQueue-cast, tail-has,
  has-append,
}
use k.Sched.{Machine}
use k.Sched.Spec.{Spec, Rep, links, at_endpoint}
use k.Sched.Refine.{Rep-tasks, enqueue-Rep}
use k.Ipc.{deliver_to, pop_waiter, wait_on, abort_reply, set_x0}
use k.Abi.{no_reply}
use k.Ipc.Spec.{s_set_x0, s_deliver, s_leave, s_wait_on, s_abort_reply}

module _ {m : Machine} {a : Spec} (r : Rep m a) where
  pub set_x0-Rep : (p v : ℕ) → Rep (set_x0 m p v) (s_set_x0 a p v)
  set_x0-Rep p v = Rep-tasks _ _ r (λ q. ground arith) (λ q. ground (arith, r.tasks q, r.tasks p))

  pub deliver_to-Rep : (src dst : ℕ) → Rep (deliver_to m src dst) (s_deliver a src dst)
  unfolding deliver_to s_deliver
  deliver_to-Rep src dst =
      Rep-tasks _ _ r (λ q. ground arith) (λ q. ground (arith, r.tasks q, r.tasks dst, r.tasks src))

  module _ (ep x : ℕ) (xs : List ℕ) (e : a.waiting ep ≡ x ∷ xs) where
    waiters : IsQueue (links m) (m.eps ep).head (m.eps ep).tail (x ∷ xs)
    waiters = subst (IsQueue (links m) (m.eps ep).head (m.eps ep).tail) e (r.waiting ep)

    pub first_waiter : (m.eps ep).head ≡ x
    first_waiter = (IsQueue-head_cons waiters).0

    pub first_waiter_nonzero : x ≢ 0
    first_waiter_nonzero = waiters.chain.1

    pub first_waiter_home : a.home x ≡ at_endpoint ep
    first_waiter_home = ground (arith, r.in_waiting ep x)

    pub pop_waiter-first : (pop_waiter m ep).1 ≡ x
    unfolding pop_waiter ep_pop
    pop_waiter-first = ground (arith, IsQueue-head_cons waiters)

    -- The first that waits leaves the queue of the endpoint, and the other queues stay.
    pub pop_waiter-Rep : Rep (pop_waiter m ep).0 (s_leave a ep x xs)
    unfolding pop_waiter ep_pop s_leave
    pop_waiter-Rep = record {
      ready = IsQueue-frame r.ready (λ q h.
          ground (arith, IsQueue-head_cons waiters, r.in_ready q, r.in_ready x, first_waiter_home));
      waiting = λ f. elim (Bool-cases (f == ep)) [
        | inl same ↦ rw same (
            IsQueue-cast
              (IsQueue-pop x xs waiters (λ q ne. ground (arith, IsQueue-head_cons waiters)))
              (ground (arith, IsQueue-head_cons waiters))
              (ground (arith, IsQueue-head_cons waiters)))
        | inr other ↦ rw other (
            IsQueue-frame (r.waiting f) (λ q h. ground (
              arith,
              IsQueue-head_cons waiters,
              r.in_waiting f q,
              r.in_waiting f x,
              first_waiter_home,
            )))
      ];
      tasks = λ q. ground (arith, IsQueue-head_cons waiters, r.tasks q, r.tasks x);
      in_ready = λ q. ground (arith, r.in_ready q, r.in_ready x, first_waiter_home);
      in_waiting = λ f q. ground (
        arith,
        r.in_waiting f q,
        r.in_waiting f x,
        r.in_waiting ep q,
        waiters.distinct,
        first_waiter_home,
      );
      current = r.current;
      context = r.context;
      ttbr0 = r.ttbr0;
    }

module _ {m : Machine} {a : Spec} (r : Rep m a) (ep : ℕ) (s : TaskState) (nonzero : a.current ≢ 0)
    (free : a.home a.current ≡ 0) where
  current_not_has : (f : ℕ) → has a.current (a.waiting f) ≡ false
  current_not_has f = ground (arith, r.in_waiting f a.current)

  current_not_tail : (m.eps ep).tail ≢ a.current
  current_not_tail e =
      let t : (m.eps ep).tail ≢ 0 = λ z. nonzero (sym e ∙ z) in
      let h : has a.current (a.waiting ep) ≡ true =
        subst (λ q. has q (a.waiting ep) ≡ true) e (tail-has (a.waiting ep) (r.waiting ep) t) in
      let n = current_not_has ep in cc

  tail_not_ready : (m.eps ep).tail ≢ 0 → has (m.eps ep).tail a.ready ≡ false
  tail_not_ready ne = ground (
    arith,
    tail-has (a.waiting ep) (r.waiting ep) ne,
    r.in_ready (m.eps ep).tail,
    r.in_waiting ep (m.eps ep).tail,
  )

  tail_not_at : (f : ℕ) → f ≢ ep → (m.eps ep).tail ≢ 0 → has (m.eps ep).tail (a.waiting f) ≡ false
  tail_not_at f other ne = ground (
    arith,
    tail-has (a.waiting ep) (r.waiting ep) ne,
    r.in_waiting f (m.eps ep).tail,
    r.in_waiting ep (m.eps ep).tail,
  )

  -- The current task, on no queue so far, goes to the end of the queue of the endpoint.
  pub wait_on-Rep : Rep (wait_on m ep s) (s_wait_on a ep s)
  unfolding wait_on ep_push s_wait_on
  wait_on-Rep = record {
    ready =
        IsQueue-frame r.ready
          (λ q h. ground (arith, r.current, tail_not_ready, r.in_ready a.current));
    waiting = λ f. elim (Bool-cases (f == ep)) [
      | inl same ↦ rw same (
          IsQueue-cast
            (IsQueue-push (a.waiting ep) a.current (r.waiting ep) (current_not_has ep) nonzero
              (ground (arith, r.current, current_not_tail)) (λ ne. ground (arith, r.current))
              (λ q n t. ground (arith, r.current)))
            (ground (arith, r.current)) r.current)
      | inr other ↦ rw other (
          IsQueue-frame (r.waiting f)
            (λ q h. ground (arith, r.current, tail_not_at f, current_not_has f)))
    ];
    tasks = λ q. ground (arith, r.current, r.tasks q, r.tasks a.current);
    in_ready = λ q. ground (arith, r.in_ready q, r.in_ready a.current);
    in_waiting = λ f q. ground (
      arith,
      r.in_waiting f q,
      r.in_waiting f a.current,
      has-append q (a.waiting ep) a.current,
      r.in_waiting ep q,
    );
    current = r.current;
    context = r.context;
    ttbr0 = r.ttbr0;
  }

-- The caller that `h` owes a reply wakes; it was on no queue.
pub abort_reply-Rep :
    {m : Machine} {a : Spec} (h : ℕ)
    → Rep m a
    → ((a.tcbs h).reply_to ≢ 0 → a.home (a.tcbs h).reply_to ≡ 0)
    → Rep (abort_reply m h) (s_abort_reply a h)
unfolding abort_reply s_abort_reply
abort_reply-Rep {m} {a} h r free =
    let caller = (a.tcbs h).reply_to in
    let same : (m.tcbs h).reply_to ≡ caller = (r.tasks h).reply_to in
    let cleared : Rep (record m { tcbs = set_reply_to m.tcbs h 0 })
        (record a { tcbs = set_reply_to a.tcbs h 0 }) =
      Rep-tasks _ _ r (λ q. ground arith) (λ q. ground (arith, r.tasks q)) in
    elim (Bool-cases (is_null caller)) [
      | inl none ↦ rw (same, none) cleared
      | inr some ↦
          let ne : caller ≢ 0 = ground arith in
          rw (same, some) (enqueue-Rep (set_x0-Rep cleared caller no_reply) caller ne (free ne))
    ]
