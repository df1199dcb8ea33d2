-- ===== src/Ipc/Away.antt =====
-- The writes of a rendezvous, one by one, keep what `Tasks` says; in between, one task is away.
use k.Base.{ℕ, ◌<◌, ◌≡◌, ◌≢◌, arith, true, ◌==◌, ltb, Bool-cases, inl, inr, List}
use k.Task.{blocked_reply, is_null, is_blocked_recv}
use k.Sched.Spec.{Spec, at_ready, at_endpoint, s_enqueue}
use k.Ipc.Spec.{s_set_x0, s_deliver, s_leave, s_abort_reply, s_owe}
use k.Ipc.Sound.{Tasks, is_ready, is_waiting, is_live}

-- `Tasks` while the task `x` has left its endpoint and is not yet anywhere else.
pub record Away (x : ℕ) (a : Spec) : Type 0 where
  pub ready_home : (p : ℕ) → p ≢ x → (a.home p == at_ready) ≡ is_ready (a.tcbs p).state
  pub waiting_home : (p : ℕ) → p ≢ x → ltb 1 (a.home p) ≡ is_waiting (a.tcbs p).state
  pub one_sided :
      (p q : ℕ)
      → a.home p ≡ a.home q
      → 1 < a.home p
      → is_blocked_recv (a.tcbs p).state ≡ is_blocked_recv (a.tcbs q).state
  pub owed : (p : ℕ) → (a.tcbs p).reply_to ≢ 0 → (a.tcbs (a.tcbs p).reply_to).state ≡ blocked_reply
  pub owner : (p : ℕ) → (a.tcbs p).reply_to ≢ 0 → a.holder (a.tcbs p).reply_to ≡ p
  pub held : (p : ℕ) → p ≢ 0 → (a.tcbs p).state ≡ blocked_reply → (a.tcbs (a.holder p)).reply_to ≡ p
  pub alive :
      (p : ℕ)
      → p ≢ 0
      → (a.tcbs p).state ≡ blocked_reply
      → is_live (a.tcbs (a.holder p)).state ≡ true
  pub off : a.home x ≡ 0
  pub waits : is_waiting (a.tcbs x).state ≡ true

pub set_x0-Tasks : {a : Spec} (q v : ℕ) → Tasks a → Tasks (s_set_x0 a q v)
set_x0-Tasks q v t = record {
  ready_home = λ p. ground (arith, t.ready_home p);
  waiting_home = λ p. ground (arith, t.waiting_home p);
  one_sided = λ p q e l. ground (arith, t.one_sided p q, e, l);
  owed = λ p ne. ground (arith, t.owed p);
  owner = λ p ne. ground (arith, t.owner p);
  held = λ p z e. ground (arith, t.held p);
  alive = λ p z e. ground (arith, t.alive p);
}

-- The message goes to one of two tasks, and `x` is off its endpoint.
pub leave-Away :
    {a : Spec} (ep x src dst : ℕ) (xs : List ℕ)
    → Tasks a
    → a.home x ≡ at_endpoint ep
    → Away x (s_deliver (s_leave a ep x xs) src dst)
unfolding s_deliver s_leave
leave-Away ep x src dst xs t home = record {
  ready_home = λ p n. ground (arith, t.ready_home p);
  waiting_home = λ p n. ground (arith, t.waiting_home p);
  one_sided = λ p q e l. ground (arith, t.one_sided p q, e, l);
  owed = λ p ne. ground (arith, t.owed p);
  owner = λ p ne. ground (arith, t.owner p);
  held = λ p z e. ground (arith, t.held p);
  alive = λ p z e. ground (arith, t.alive p);
  off = ground arith;
  waits = ground (arith, t.waiting_home x);
}

module _ {a : Spec} {x : ℕ} (t : Away x a) where
  pub set_x0-Away : (q v : ℕ) → Away x (s_set_x0 a q v)
  set_x0-Away q v = record {
    ready_home = λ p n. ground (arith, t.ready_home p);
    waiting_home = λ p n. ground (arith, t.waiting_home p);
    one_sided = λ p q e l. ground (arith, t.one_sided p q, e, l);
    owed = λ p ne. ground (arith, t.owed p);
    owner = λ p ne. ground (arith, t.owner p);
    held = λ p z e. ground (arith, t.held p);
    alive = λ p z e. ground (arith, t.alive p);
    off = t.off;
    waits = ground (arith, t.waits);
  }

  pub enqueue-Tasks : Tasks (s_enqueue a x)
  unfolding s_enqueue
  enqueue-Tasks =
      let w = t.waits in
      record {
        ready_home = λ p. ground (arith, t.ready_home p);
        waiting_home = λ p. ground (arith, t.waiting_home p);
        one_sided = λ p q e l. ground (arith, t.one_sided p q, e, l);
        owed = λ p ne. ground (arith, t.owed p);
        owner = λ p ne. ground (arith, t.owner p);
        held = λ p z e. ground (arith, t.held p);
        alive = λ p z e. ground (arith, t.alive p);
      }

  pub abort_reply-Away : (h : ℕ) → Away x (s_abort_reply a h)
  unfolding s_abort_reply s_enqueue
  abort_reply-Away h = elim (Bool-cases (is_null (a.tcbs h).reply_to)) [
    | inl none ↦ rw none record {
      ready_home = λ p n. ground (arith, t.ready_home p);
      waiting_home = λ p n. ground (arith, t.waiting_home p);
      one_sided = λ p q e l. ground (arith, t.one_sided p q, e, l);
      owed = λ p ne. ground (arith, t.owed p);
      owner = λ p ne. ground (arith, t.owner p);
      held = λ p z e. ground (arith, t.held p);
      alive = λ p z e. ground (arith, t.alive p);
      off = t.off;
      waits = ground (arith, t.waits);
    }
    | inr some ↦
        let c = (a.tcbs h).reply_to in
        let ne : c ≢ 0 = ground arith in
        let owed : (a.tcbs c).state ≡ blocked_reply = t.owed h ne in
        rw some record {
          ready_home = λ p n. ground (arith, t.ready_home p, owed);
          waiting_home = λ p n. ground (arith, t.waiting_home p, owed);
          one_sided = λ p q e l. ground (arith, t.one_sided p q, e, l, owed);
          owed = λ p n. ground (arith, t.owed p, t.owner p, t.owner h ne);
          owner = λ p n. ground (arith, t.owner p);
          held = λ p z e. ground (arith, t.held p, t.owner h ne);
          alive = λ p z e. ground (arith, t.alive p, owed);
          off = ground (arith, t.off, t.waits, owed);
          waits = ground (arith, t.waits, owed);
        }
  ]

  -- `x` itself is the caller that is owed a reply from now on.
  pub owe-Tasks :
      (h : ℕ)
      → h ≢ x
      → x ≢ 0
      → (a.tcbs h).reply_to ≡ 0
      → is_live (a.tcbs h).state ≡ true
      → Tasks (s_owe a h x)
  unfolding s_owe
  owe-Tasks h other nonzero none live =
      let w = t.waits in
      let o = t.off in
      record {
        ready_home = λ p. ground (arith, t.ready_home p);
        waiting_home = λ p. ground (arith, t.waiting_home p);
        one_sided = λ p q e l. ground (arith, t.one_sided p q, e, l);
        owed = λ p ne. ground (arith, t.owed p);
        owner = λ p ne. ground (arith, t.owner p, t.owed p);
        held = λ p z e. ground (arith, t.held p, t.alive p);
        alive = λ p z e. ground (arith, t.alive p, live);
      }

  -- `x` is the receiver of a call by `c`.
  pub owe-Away :
      (c : ℕ)
      → c ≢ x
      → c ≢ 0
      → a.home c ≡ 0
      → (a.tcbs x).reply_to ≡ 0
      → (a.tcbs c).state ≢ blocked_reply
      → Away x (s_owe a x c)
  unfolding s_owe
  owe-Away c other nonzero home none state =
      let w = t.waits in
      record {
        ready_home = λ p n. ground (arith, t.ready_home p, home);
        waiting_home = λ p n. ground (arith, t.waiting_home p, home);
        one_sided = λ p q e l. ground (arith, t.one_sided p q, e, l, home);
        owed = λ p ne. ground (arith, t.owed p);
        owner = λ p ne. ground (arith, t.owner p, t.owed p);
        held = λ p z e. ground (arith, t.held p, t.alive p);
        alive = λ p z e. ground (arith, t.alive p, w);
        off = t.off;
        waits = ground (arith, w);
      }
