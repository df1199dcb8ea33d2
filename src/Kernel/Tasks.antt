-- ===== src/Kernel/Tasks.antt =====
-- kernel/src/main.rs: what the policy of the kernel does to the tasks.
use k.Base.{
  ℕ, ◌≡◌, ◌≢◌, refl, sym, ap, ◌∙◌, subst, arith, Bool, true, false, update, List, [], ◌∷◌, ◌++◌,
  Bool-cases, inl, inr,
}
use k.Cap.{CNode}
use k.Task.{dead, set_state, is_null}
use k.Task.Queue.{IsQueue, IsQueue-head_nil}
use k.Sched.{Machine, enqueue, rotate, exit_current}
use k.Sched.Spec.{
  links, s_block_with, s_block_and_switch, Spec, Rep, s_enqueue, s_switch, s_take, s_rotate,
  s_rotate_with, s_exit_current,
}
use k.Sched.Refine.{Rep-tasks, enqueue-Rep, rotate-Rep, exit_current-Rep, first_home, first_nonzero}
use k.Ipc.{set_x0, abort_reply}
use k.Ipc.Spec.{s_abort_reply}
use k.Ipc.Sound.{Sound, Tasks, is_ready, is_running, Sound-current_home, Sound-owed_home}
use k.Ipc.Steps.{set_x0-Rep, abort_reply-Rep}
use k.Ipc.Away.{set_x0-Tasks}
use k.Ipc.Running.{Idle, set_x0-Kept, abort_reply-Kept, block_and_switch-Sound}
use k.Ipc.Invariant.{Kept-Sound, abort_reply-Tasks, abort_reply-none}
use k.Ipc.Safety.{IsSound}
use k.Kernel.{configured, is_inactive, is_stopped}

pub set_x0-IsSound : {m : Machine} (p v : ℕ) → IsSound m → IsSound (set_x0 m p v)
set_x0-IsSound p v (a, r, s) =
    (_, set_x0-Rep r p v, Kept-Sound s (set_x0-Kept p v) (set_x0-Tasks p v s.tasks))

pub cnode-IsSound : {m : Machine} (cn : CNode) → IsSound m → IsSound (record m { cnode = cn })
cnode-IsSound cn (a, r, s) = (
  a,
  record {
    ready = r.ready;
    waiting = r.waiting;
    tasks = r.tasks;
    in_ready = r.in_ready;
    in_waiting = r.in_waiting;
    current = r.current;
    context = r.context;
    ttbr0 = r.ttbr0;
  },
  s,
)

module _ {m : Machine} {a : Spec} (r : Rep m a) (s : Sound a) where
  rotate_with-Sound : (xs : List ℕ) → a.ready ≡ xs → Sound (s_rotate_with a xs)
  unfolding s_rotate_with s_switch s_enqueue s_take
  rotate_with-Sound [] e = s
  rotate_with-Sound (x ∷ xs) e =
      let home = first_home r x xs e in
      let t = s.tasks in
      let ready : is_ready (a.tcbs x).state ≡ true = ground (arith, t.ready_home x) in
      let runs : is_running (a.tcbs a.current).state ≡ true =
        ground (arith, s.only_current a.current) in
      record {
        tasks = record {
          ready_home = λ p. ground (arith, t.ready_home p);
          waiting_home = λ p. ground (arith, t.waiting_home p);
          one_sided = λ p q h l. ground (arith, t.one_sided p q, h, l);
          owed = λ p ne. ground (arith, t.owed p);
          owner = λ p ne. ground (arith, t.owner p);
          held = λ p z h. ground (arith, t.held p);
          alive = λ p z h. ground (arith, t.alive p);
        };
        current_nonzero = first_nonzero r x xs e;
        context = refl;
        only_current = λ p. ground (arith, s.only_current p, s.only_current x);
      }

-- The timer and YIELD keep the machine sound.
pub rotate-IsSound : (m : Machine) → IsSound m → IsSound (rotate m)
unfolding s_rotate
rotate-IsSound m (a, r, s) = (
  s_rotate a,
  rotate-Rep r s.current_nonzero (Sound-current_home s),
  rotate_with-Sound r s a.ready refl,
)

not_nil : (xs : List ℕ) (x : ℕ) → xs ++ (x ∷ []) ≡ [] → ⊥
not_nil [] x e = absurd (cc)
not_nil (y ∷ ys) x e = absurd (cc)

-- The current task, which owes nothing any more, is dead, and nobody runs.
abbrev ended : Spec → Spec
ended a = record a { tcbs = set_state a.tcbs a.current dead }

module _ {a : Spec} (s : Sound a) (free : (a.tcbs a.current).reply_to ≡ 0) where
  ended-Tasks : Tasks (ended a)
  ended-Tasks =
      let t = s.tasks in
      let runs : is_running (a.tcbs a.current).state ≡ true =
        ground (arith, s.only_current a.current) in
      record {
        ready_home = λ p. ground (arith, t.ready_home p);
        waiting_home = λ p. ground (arith, t.waiting_home p);
        one_sided = λ p q e l. ground (arith, t.one_sided p q, e, l);
        owed = λ p ne. ground (arith, t.owed p);
        owner = λ p ne. ground (arith, t.owner p);
        held = λ p z e. ground (arith, t.held p);
        alive = λ p z e. ground (arith, t.alive p, t.held p);
      }

  ended-Idle : Idle (ended a)
  ended-Idle p = ground (arith, s.only_current p)

abort-Sound : {a : Spec} → Sound a → Sound (s_abort_reply a a.current)
abort-Sound {a} s =
    Kept-Sound s (abort_reply-Kept a.current (s.tasks.owed a.current))
      (abort_reply-Tasks a.current s.tasks)

-- The end of the current task.
pub kill-IsSound :
    (m : Machine)
    → IsSound m
    → let n = exit_current (abort_reply m m.sched.current) in n.1 ≡ true → IsSound n.0
unfolding s_exit_current
kill-IsSound m (a, r, s) running =
    let cur = a.current in
    let b = s_abort_reply a cur in
    let sb : Sound b = abort-Sound s in
    let rb : Rep (abort_reply m m.sched.current) b =
      subst (λ c. Rep (abort_reply m c) b) (sym r.current)
        (abort_reply-Rep cur r (Sound-owed_home s cur)) in
    let same : b.current ≡ cur = (abort_reply-Kept {a = a} cur (s.tasks.owed cur)).current in
    let none : (b.tcbs b.current).reply_to ≡ 0 =
      ap (λ q. (b.tcbs q).reply_to) same ∙ abort_reply-none a cur in
    let (re, agree) = exit_current-Rep rb in
    let n = abort_reply m m.sched.current in
    let gone : Rep (record n { tcbs = set_state n.tcbs n.sched.current dead }) (ended b) =
      Rep-tasks _ _ rb (λ p. ground arith) (λ p. ground (arith, rb.tasks p, rb.current)) in
    (
      _,
      re,
      block_and_switch-Sound gone (ended-Tasks sb none) (ended-Idle sb none) (sym agree ∙ running),
    )

module _ {m : Machine} {a : Spec} (r : Rep m a) (s : Sound a) where
  abbrev freed : Spec
  freed = s_abort_reply a a.current

  freed_current : freed.current ≡ a.current
  freed_current = (abort_reply-Kept {a = a} a.current (s.tasks.owed a.current)).current

  -- Nobody is ready only if nobody was and no caller has been freed.
  freed_nil : freed.ready ≡ [] → (a.ready ≡ []) × ((a.tcbs a.current).reply_to ≡ 0)
  unfolding s_abort_reply s_enqueue
  freed_nil e = elim (Bool-cases (is_null (a.tcbs a.current).reply_to)) [
    | inl nobody ↦ (ground (arith, e), ground arith)
    | inr caller ↦ absurd (not_nil a.ready (a.tcbs a.current).reply_to (ground (arith, e)))
  ]

  -- The spec of the end of the current task: it is dead, and another one runs, unless nobody can.
  ended_with :
      (rb : Rep (abort_reply m a.current) freed) (xs : List ℕ)
      → freed.ready ≡ xs
      → let o = s_block_with (ended freed) xs in
        ((o.0.tcbs a.current).state ≡ dead)
        × (o.1 ≡ true → o.0.current ≢ a.current)
        × (o.1 ≡ false → (a.ready ≡ []) × ((a.tcbs a.current).reply_to ≡ 0))
  unfolding s_block_with s_switch s_take
  ended_with rb [] e = (ground (arith, freed_current), λ h. absurd (cc), λ h. freed_nil e)
  ended_with rb (x ∷ xs) e =
      let home = first_home rb x xs e in
      let mine = Sound-current_home (abort-Sound s) in
      let other : a.current ≢ x = λ same. absurd (
        let at : freed.home freed.current ≡ freed.home x = ap (freed.home) (freed_current ∙ same) in
        omega (arith, at, home, mine)) in
      (ground (arith, freed_current, other), λ h same. other (sym same), λ h. absurd (cc))

-- What is left of the task that ran: it is dead. Another one runs, or the kernel parks, and that only if no task was
-- ready and nobody waited for a reply of the task that ended.
pub record IsEnded (m : Machine) (n : Machine × Bool) : Type 0 where
  pub sound : n.1 ≡ true → IsSound n.0
  pub gone : (n.0.tcbs m.sched.current).state ≡ dead
  pub other_runs : n.1 ≡ true → n.0.sched.current ≢ m.sched.current
  pub parks_last : n.1 ≡ false → (m.sched.head ≡ 0) × ((m.tcbs m.sched.current).reply_to ≡ 0)

pub kill-IsEnded :
    (m : Machine) → IsSound m → IsEnded m (exit_current (abort_reply m m.sched.current))
unfolding s_exit_current s_block_and_switch
kill-IsEnded m (a, r, s) =
    let rb : Rep (abort_reply m a.current) (s_abort_reply a a.current) =
      abort_reply-Rep a.current r (Sound-owed_home s a.current) in
    let rc : Rep (abort_reply m m.sched.current) (s_abort_reply a a.current) =
      subst (λ c. Rep (abort_reply m c) (s_abort_reply a a.current)) (sym r.current) rb in
    let (re, agree) = exit_current-Rep rc in
    let (is_dead, moved, last) = ended_with r s rb (s_abort_reply a a.current).ready refl in
    record {
      sound = kill-IsSound m (a, r, s);
      gone =
          ap (λ c. ((exit_current (abort_reply m m.sched.current)).0.tcbs c).state) (r.current)
          ∙ (re.tasks a.current).state
          ∙ is_dead;
      other_runs = λ h same. moved (sym agree ∙ h) (sym re.current ∙ same ∙ r.current);
      parks_last = λ h.
          let (nil, free) = last (sym agree ∙ h) in
          (
            ground (
              arith,
              IsQueue-head_nil (subst (IsQueue (links m) m.sched.head m.sched.tail) nil r.ready),
            ),
            ap (λ c. (m.tcbs c).reply_to) (r.current) ∙ (r.tasks a.current).reply_to ∙ free,
          );
    }

module _ {m : Machine} (q : ℕ) (nonzero : q ≢ 0) where
  pub resume-IsSound : IsSound m → is_stopped (m.tcbs q).state ≡ true → IsSound (enqueue m q)
  unfolding s_enqueue
  resume-IsSound (a, r, s) is =
      let t = s.tasks in
      let state : is_stopped (a.tcbs q).state ≡ true = ap is_stopped (sym (r.tasks q).state) ∙ is in
      let home : a.home q ≡ 0 = ground (arith, t.ready_home q, t.waiting_home q) in
      (
        s_enqueue a q,
        enqueue-Rep r q nonzero home,
        record {
          tasks = record {
            ready_home = λ p. ground (arith, t.ready_home p);
            waiting_home = λ p. ground (arith, t.waiting_home p);
            one_sided = λ p q e l. ground (arith, t.one_sided p q, e, l);
            owed = λ p ne. ground (arith, t.owed p);
            owner = λ p ne. ground (arith, t.owner p);
            held = λ p z e. ground (arith, t.held p);
            alive = λ p z e. ground (arith, t.alive p);
          };
          current_nonzero = s.current_nonzero;
          context = s.context;
          only_current = λ p. ground (arith, s.only_current p);
        },
      )

  pub configure-IsSound :
      (entry stack root_pa : ℕ)
      → IsSound m
      → is_inactive (m.tcbs q).state ≡ true
      → IsSound (record m { tcbs = update m.tcbs q (configured (m.tcbs q) entry stack root_pa) })
  configure-IsSound entry stack root_pa (a, r, s) is =
      let t = s.tasks in
      let state : is_inactive (a.tcbs q).state ≡ true =
        ap is_inactive (sym (r.tasks q).state) ∙ is in
      (
        record a { tcbs = update a.tcbs q (configured (a.tcbs q) entry stack root_pa) },
        Rep-tasks _ _ r (λ p. ground arith) (λ p. ground (arith, r.tasks p, r.tasks q)),
        record {
          tasks = record {
            ready_home = λ p. ground (arith, t.ready_home p);
            waiting_home = λ p. ground (arith, t.waiting_home p);
            one_sided = λ p q e l. ground (arith, t.one_sided p q, e, l);
            owed = λ p ne. ground (arith, t.owed p);
            owner = λ p ne. ground (arith, t.owner p);
            held = λ p z e. ground (arith, t.held p);
            alive = λ p z e. ground (arith, t.alive p);
          };
          current_nonzero = s.current_nonzero;
          context = s.context;
          only_current = λ p. ground (arith, s.only_current p);
        },
      )
