-- ===== src/Sched/Refine.antt =====
-- The intrusive ready queue implements the lists of `Spec`.
use k.Base.{ℕ, ◌≡◌, ◌≢◌, refl, sym, ◌∙◌, subst, arith, Bool, true, false, List, [], ◌∷◌}
use k.Task.{Tcbs, is_null}
use k.Task.Queue.{
  has, IsQueue, IsQueue-frame, IsQueue-push, IsQueue-pop, IsQueue-head_nil, IsQueue-head_cons,
  IsQueue-cast, tail-has, has-append,
}
use k.Sched.{
  Machine, push_ready, pop_ready, enqueue, switch_to, rotate, block_and_switch, exit_current,
}
use k.Sched.Spec.{
  Spec, Rep, SameTask, links, at_ready, s_enqueue, s_take, s_switch, s_rotate, s_block_with,
  s_block_and_switch, s_rotate_with, s_exit_current,
}

-- Writes to other fields than the link, made on both sides.
pub Rep-tasks :
    {m : Machine} {a : Spec} (ts us : Tcbs)
    → Rep m a
    → ((p : ℕ) → (ts p).next ≡ links m p)
    → ((p : ℕ) → SameTask (ts p) (us p))
    → Rep (record m { tcbs = ts }) (record a { tcbs = us })
Rep-tasks ts us r same tasks = record {
  ready = IsQueue-frame r.ready (λ p h. same p);
  waiting = λ ep. IsQueue-frame (r.waiting ep) (λ p h. same p);
  tasks = tasks;
  in_ready = r.in_ready;
  in_waiting = r.in_waiting;
  current = r.current;
  context = r.context;
  ttbr0 = r.ttbr0;
}

module _ {m : Machine} {a : Spec} (r : Rep m a) (p : ℕ) (nonzero : p ≢ 0)
    (free : a.home p ≡ 0) where
  not_ready : has p a.ready ≡ false
  not_ready = ground (arith, r.in_ready p)

  not_waiting : (ep : ℕ) → has p (a.waiting ep) ≡ false
  not_waiting ep = ground (arith, r.in_waiting ep p)

  not_tail : p ≢ m.sched.tail
  not_tail e =
      let t : m.sched.tail ≢ 0 = λ z. nonzero (e ∙ z) in
      let h : has p a.ready ≡ true =
        subst (λ q. has q a.ready ≡ true) (sym e) (tail-has a.ready r.ready t) in
      let n = not_ready in cc

  tail_elsewhere : (ep : ℕ) → m.sched.tail ≢ 0 → has m.sched.tail (a.waiting ep) ≡ false
  tail_elsewhere ep ne =
      ground
        (arith, tail-has a.ready r.ready ne, r.in_ready m.sched.tail, r.in_waiting ep m.sched.tail)

  -- A task that is on no queue goes to the end of the ready queue.
  pub enqueue-Rep : Rep (enqueue m p) (s_enqueue a p)
  unfolding enqueue push_ready s_enqueue
  enqueue-Rep = record {
    ready =
        IsQueue-push a.ready p r.ready not_ready nonzero (ground (arith, not_tail))
          (λ ne. ground arith) (λ q n t. ground arith);
    waiting = λ ep.
        IsQueue-frame (r.waiting ep) (λ q h. ground (arith, not_waiting ep, tail_elsewhere ep));
    tasks = λ q. ground (arith, r.tasks q, r.tasks p);
    in_ready = λ q. ground (arith, r.in_ready q, has-append q a.ready p);
    in_waiting = λ ep q. ground (arith, r.in_waiting ep q, r.in_waiting ep p);
    current = r.current;
    context = r.context;
    ttbr0 = r.ttbr0;
  }

-- The machine after the head of the ready queue has been taken off it.
abbrev pub popped : Machine → Machine
popped m = let (ts, s, next) = pop_ready m.tcbs m.sched in record m { tcbs = ts; sched = s }

module _ {m : Machine} {a : Spec} (r : Rep m a) (x : ℕ) (xs : List ℕ) (e : a.ready ≡ x ∷ xs) where
  queue : IsQueue (links m) m.sched.head m.sched.tail (x ∷ xs)
  queue = subst (IsQueue (links m) m.sched.head m.sched.tail) e r.ready

  pub pop_ready-head : (pop_ready m.tcbs m.sched).2 ≡ x
  unfolding pop_ready
  pop_ready-head = ground (arith, IsQueue-head_cons queue)

  pub first_home : a.home x ≡ at_ready
  first_home = ground (arith, r.in_ready x)

  pub first_nonzero : x ≢ 0
  first_nonzero = queue.chain.1

  pub pop_ready-Rep : Rep (popped m) (s_take a x xs)
  unfolding pop_ready s_take
  pop_ready-Rep = record {
    ready =
        IsQueue-cast (IsQueue-pop x xs queue (λ q ne. ground (arith, IsQueue-head_cons queue)))
          (ground (arith, IsQueue-head_cons queue)) (ground (arith, IsQueue-head_cons queue));
    waiting = λ ep. IsQueue-frame (r.waiting ep) (λ q h.
        ground (arith, IsQueue-head_cons queue, r.in_waiting ep x, r.in_waiting ep q, first_home));
    tasks = λ q. ground (arith, IsQueue-head_cons queue, r.tasks q, r.tasks x);
    in_ready =
        λ q. ground (arith, IsQueue-head_cons queue, r.in_ready q, r.in_ready x, queue.distinct);
    in_waiting = λ ep q. ground (arith, r.in_waiting ep q, r.in_waiting ep x, first_home);
    current = ground (arith, r.current, IsQueue-head_cons queue);
    context = r.context;
    ttbr0 = r.ttbr0;
  }

pop_ready_nil :
    {m : Machine} {a : Spec} → Rep m a → a.ready ≡ [] → is_null (pop_ready m.tcbs m.sched).2 ≡ true
unfolding pop_ready
pop_ready_nil {m} r e =
    ground (arith, IsQueue-head_nil (subst (IsQueue (links m) m.sched.head m.sched.tail) e r.ready))

-- The switch to a task that is on no queue.
pub switch_to-Rep : {m : Machine} {a : Spec} (x : ℕ) → Rep m a → Rep (switch_to m x) (s_switch a x)
unfolding switch_to s_switch
switch_to-Rep x r = record {
  ready = IsQueue-frame r.ready (λ p h. ground arith);
  waiting = λ ep. IsQueue-frame (r.waiting ep) (λ p h. ground arith);
  tasks = λ q. ground (arith, r.tasks q, r.tasks x);
  in_ready = r.in_ready;
  in_waiting = r.in_waiting;
  current = refl;
  context = refl;
  ttbr0 = ground (arith, r.tasks x, r.ttbr0);
}

abbrev pub Switched : Machine × Bool → Spec × Bool → Type 0
Switched (m, done) (a, done') = Rep m a × (done ≡ done')

module _ {m : Machine} {a : Spec} (r : Rep m a) where
  block_with-Rep : (xs : List ℕ) → a.ready ≡ xs → Switched (block_and_switch m) (s_block_with a xs)
  unfolding block_and_switch s_block_with
  block_with-Rep [] e =
      let head : is_null (pop_ready m.tcbs m.sched).2 ≡ true = pop_ready_nil r e in
      rw head (r, refl)
  block_with-Rep (x ∷ xs) e =
      let nz : is_null x ≡ false = let ne = first_nonzero r x xs e in ground arith in
      rw (pop_ready-head r x xs e, nz) (switch_to-Rep x (pop_ready-Rep r x xs e), refl)

  -- `block_and_switch` runs the task that has been ready longest and takes it off the queue. If no
  -- task is ready it answers `false` and changes nothing.
  pub block_and_switch-Rep : Switched (block_and_switch m) (s_block_and_switch a)
  unfolding s_block_and_switch
  block_and_switch-Rep = block_with-Rep a.ready refl

-- `exit_current` marks the current task dead and runs the task that has been ready longest; if no
-- task is ready it answers `false`.
pub exit_current-Rep :
    {m : Machine} {a : Spec} → Rep m a → Switched (exit_current m) (s_exit_current a)
unfolding exit_current s_exit_current
exit_current-Rep r =
    block_and_switch-Rep
      (Rep-tasks _ _ r (λ p. ground arith) (λ p. ground (arith, r.tasks p, r.current)))

module _ {m : Machine} {a : Spec} (r : Rep m a) (nonzero : a.current ≢ 0)
    (free : a.home a.current ≡ 0) where
  rotate_with-Rep : (xs : List ℕ) → a.ready ≡ xs → Rep (rotate m) (s_rotate_with a xs)
  unfolding rotate s_rotate_with enqueue s_take
  rotate_with-Rep [] e = let head = pop_ready_nil r e in rw head r
  rotate_with-Rep (x ∷ xs) e =
      let nz : is_null x ≡ false = let ne = first_nonzero r x xs e in ground arith in
      let p = pop_ready-Rep r x xs e in
      let q : Rep (enqueue (popped m) a.current) (s_enqueue (s_take a x xs) a.current) =
        enqueue-Rep p a.current nonzero (ground arith) in
      rw (pop_ready-head r x xs e, nz)
        (switch_to-Rep x (
          subst (λ c. Rep (enqueue (popped m) c) (s_enqueue (s_take a x xs) a.current))
            (sym p.current) q))

  -- `rotate`, with a current task that is on no queue, is round robin: the task that has been ready
  -- longest runs, and the current one goes to the end of the queue. With no other task ready nothing
  -- changes.
  pub rotate-Rep : Rep (rotate m) (s_rotate a)
  unfolding s_rotate
  rotate-Rep = rotate_with-Rep a.ready refl
