-- ===== src/Ipc/Running.antt =====
-- Which task runs after each step of a rendezvous, and the switch to the next.
use k.Base.{ℕ, ◌≡◌, ◌≢◌, refl, ◌∙◌, arith, true, false, Bool-cases, inl, inr, List, [], ◌∷◌}
use k.Task.{TaskState, blocked_reply, is_null, is_blocked_recv}
use k.Sched.{Machine}
use k.Sched.Spec.{
  Spec, Rep, at_endpoint, s_enqueue, s_switch, s_take, s_block_with, s_block_and_switch,
}
use k.Sched.Refine.{first_home, first_nonzero}
use k.Ipc.Spec.{s_set_x0, s_deliver, s_leave, s_wait_on, s_abort_reply, s_owe}
use k.Ipc.Sound.{Sound, Tasks, is_ready, is_running, is_waiting}

-- The same task runs.
pub record Kept (a b : Spec) : Type 0 where
  pub current : b.current ≡ a.current
  pub context : b.context ≡ a.context
  pub running : (p : ℕ) → is_running (b.tcbs p).state ≡ is_running (a.tcbs p).state

-- No task runs.
abbrev pub Idle : Spec → Type 0
Idle a = (p : ℕ) → is_running (a.tcbs p).state ≡ false

pub Kept-trans : {a b c : Spec} → Kept a b → Kept b c → Kept a c
Kept-trans k l = record {
  current = l.current ∙ k.current;
  context = l.context ∙ k.context;
  running = λ p. l.running p ∙ k.running p;
}

pub set_x0-Kept : {a : Spec} (q v : ℕ) → Kept a (s_set_x0 a q v)
set_x0-Kept q v = record { current = refl; context = refl; running = λ p. ground arith }

pub leave-Kept :
    {a : Spec} (ep x src dst : ℕ) (xs : List ℕ) → Kept a (s_deliver (s_leave a ep x xs) src dst)
unfolding s_deliver s_leave
leave-Kept ep x src dst xs = record { current = refl; context = refl; running = λ p. ground arith }

pub enqueue-Kept : {a : Spec} (x : ℕ) → is_running (a.tcbs x).state ≡ false → Kept a (s_enqueue a x)
unfolding s_enqueue
enqueue-Kept x not_running = record {
  current = refl;
  context = refl;
  running = λ p. ground (arith, not_running);
}

pub abort_reply-Kept :
    {a : Spec} (h : ℕ)
    → ((a.tcbs h).reply_to ≢ 0 → (a.tcbs (a.tcbs h).reply_to).state ≡ blocked_reply)
    → Kept a (s_abort_reply a h)
unfolding s_abort_reply s_enqueue
abort_reply-Kept {a} h owed = elim (Bool-cases (is_null (a.tcbs h).reply_to)) [
  | inl none ↦ rw none record { current = refl; context = refl; running = λ p. ground arith }
  | inr some ↦
      let o = owed (ground arith) in
      rw some record { current = refl; context = refl; running = λ p. ground (arith, o) }
]

pub owe-Kept : {a : Spec} (h c : ℕ) → is_running (a.tcbs c).state ≡ false → Kept a (s_owe a h c)
unfolding s_owe
owe-Kept h c not_running = record {
  current = refl;
  context = refl;
  running = λ p. ground (arith, not_running);
}

module _ {a : Spec} (s : Sound a) (ep : ℕ) (t : TaskState) (waits : is_waiting t ≡ true) where
  pub wait_on-Idle : Idle (s_wait_on a ep t)
  unfolding s_wait_on
  wait_on-Idle p = ground (arith, waits, s.only_current p)

  -- The current task waits on the side of those that are there already.
  pub wait_on-Tasks :
      ((p : ℕ) → a.home p ≡ at_endpoint ep → is_blocked_recv (a.tcbs p).state ≡ is_blocked_recv t)
      → Tasks (s_wait_on a ep t)
  unfolding s_wait_on
  wait_on-Tasks side =
      let r : is_running (a.tcbs a.current).state ≡ true =
        ground (arith, s.only_current a.current) in
      let k = s.tasks in
      record {
        ready_home = λ p. ground (arith, k.ready_home p, waits);
        waiting_home = λ p. ground (arith, k.waiting_home p, waits);
        one_sided = λ p q e l. ground (arith, k.one_sided p q, e, l, side p, side q);
        owed = λ p ne. ground (arith, k.owed p, waits, r);
        owner = λ p ne. ground (arith, k.owner p);
        held = λ p z e. ground (arith, k.held p, waits);
        alive = λ p z e. ground (arith, k.alive p, waits);
      }

module _ {m : Machine} {a : Spec} (r : Rep m a) (t : Tasks a) (idle : Idle a) where
  block_with-Sound :
      (xs : List ℕ) → a.ready ≡ xs → (s_block_with a xs).1 ≡ true → Sound (s_block_with a xs).0
  unfolding s_block_with s_switch s_take
  block_with-Sound [] e done = ground arith
  block_with-Sound (x ∷ xs) e done =
      let home = first_home r x xs e in
      let ready : is_ready (a.tcbs x).state ≡ true = ground (arith, t.ready_home x) in
      record {
        tasks = record {
          ready_home = λ p. ground (arith, t.ready_home p);
          waiting_home = λ p. ground (arith, t.waiting_home p);
          one_sided = λ p q h l. ground (arith, t.one_sided p q, h, l);
          owed = λ p ne. ground (arith, t.owed p);
          owner = λ p ne. ground (arith, t.owner p);
          held = λ p z h. ground (arith, t.held p);
          alive = λ p z h. ground (arith, t.alive p);
        };
        current_nonzero = first_nonzero r x xs e;
        context = refl;
        only_current = λ p. ground (arith, idle p);
      }

  pub block_and_switch-Sound : (s_block_and_switch a).1 ≡ true → Sound (s_block_and_switch a).0
  unfolding s_block_and_switch
  block_and_switch-Sound = block_with-Sound a.ready refl
