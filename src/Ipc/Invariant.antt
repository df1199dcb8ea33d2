-- ===== src/Ipc/Invariant.antt =====
-- The rendezvous calls keep what `Sound` says of the tasks.
use k.Base.{ℕ, ◌≡◌, ◌≢◌, refl, sym, ap, ◌∙◌, subst, arith, true, false, Bool-cases, inl, inr, List}
use k.Task.{Context, blocked_reply, set_reply_to, set_ctx, is_null, is_blocked_call}
use k.Sched.Spec.{Spec, at_endpoint, s_enqueue}
use k.Ipc.Spec.{
  s_set_x0, s_deliver, s_leave, s_abort_reply, s_owe, s_send_now, s_take_from, s_recv_now,
  s_call_now, s_reply,
}
use k.Ipc.Sound.{Sound, Tasks, is_running, is_live, Sound-current_home}
use k.Ipc.Away.{
  Away, set_x0-Tasks, leave-Away, set_x0-Away, enqueue-Tasks, abort_reply-Away, owe-Tasks, owe-Away,
}
use k.Ipc.Running.{
  Kept, Kept-trans, set_x0-Kept, leave-Kept, enqueue-Kept, abort_reply-Kept, owe-Kept,
}

-- The same task runs on.
pub Kept-Sound : {a b : Spec} → Sound a → Kept a b → Tasks b → Sound b
Kept-Sound {a} {b} s k t =
    let c = k.current in
    record {
      tasks = t;
      current_nonzero = ground (arith, s.current_nonzero);
      context = k.context ∙ s.context ∙ sym c;
      only_current = λ p. ground (arith, k.running p, s.only_current p);
    }

-- The caller that `h` owes a reply is woken, with any new context.
wake-Tasks :
    {a : Spec} (h : ℕ) (c : Context)
    → Tasks a
    → (a.tcbs h).reply_to ≢ 0
    → Tasks (
        s_enqueue
          (record a { tcbs = set_ctx (set_reply_to a.tcbs h 0) (a.tcbs h).reply_to c })
          (a.tcbs h).reply_to)
unfolding s_enqueue
wake-Tasks {a} h c t ne =
    let owed = t.owed h ne in
    let own = t.owner h ne in
    record {
      ready_home = λ p. ground (arith, t.ready_home p, owed);
      waiting_home = λ p. ground (arith, t.waiting_home p, owed);
      one_sided = λ p q e l. ground (arith, t.one_sided p q, e, l, owed);
      owed = λ p n. ground (arith, t.owed p, t.owner p, own);
      owner = λ p n. ground (arith, t.owner p);
      held = λ p z e. ground (arith, t.held p, own);
      alive = λ p z e. ground (arith, t.alive p, owed);
    }

clear-Tasks :
    {a : Spec} (h : ℕ)
    → Tasks a
    → (a.tcbs h).reply_to ≡ 0
    → Tasks (record a { tcbs = set_reply_to a.tcbs h 0 })
clear-Tasks h t none = record {
  ready_home = λ p. ground (arith, t.ready_home p);
  waiting_home = λ p. ground (arith, t.waiting_home p);
  one_sided = λ p q e l. ground (arith, t.one_sided p q, e, l);
  owed = λ p ne. ground (arith, t.owed p);
  owner = λ p ne. ground (arith, t.owner p);
  held = λ p z e. ground (arith, t.held p);
  alive = λ p z e. ground (arith, t.alive p);
}

pub abort_reply-Tasks : {a : Spec} (h : ℕ) → Tasks a → Tasks (s_abort_reply a h)
unfolding s_abort_reply
abort_reply-Tasks {a} h t = elim (Bool-cases (is_null (a.tcbs h).reply_to)) [
  | inl none ↦ rw none (clear-Tasks h t (ground arith))
  | inr some ↦ rw some (wake-Tasks h _ t (ground arith))
]

pub reply-Sound : {a : Spec} (ctx : ℕ) → Sound a → Sound (s_reply a ctx)
unfolding s_reply s_deliver
reply-Sound {a} ctx s = elim (Bool-cases (is_null (a.tcbs a.current).reply_to)) [
  | inl none ↦ rw none s
  | inr some ↦
      let ne : (a.tcbs a.current).reply_to ≢ 0 = ground arith in
      let owed = s.tasks.owed a.current ne in
      rw some (
        Kept-Sound s
          (Kept-trans record { current = refl; context = refl; running = λ p. ground arith }
            (enqueue-Kept (a.tcbs a.current).reply_to (ground (arith, owed))))
          (wake-Tasks a.current _ s.tasks ne))
]

-- What is left of the task `h` once it owes no reply.
module _ (a : Spec) (h : ℕ) where
  pub abort_reply-none : ((s_abort_reply a h).tcbs h).reply_to ≡ 0
  unfolding s_abort_reply s_enqueue
  abort_reply-none = ground arith

  abort_reply-live :
      is_live (a.tcbs h).state ≡ true → is_live ((s_abort_reply a h).tcbs h).state ≡ true
  unfolding s_abort_reply s_enqueue
  abort_reply-live live = ground arith

  -- A task that is owed nothing by `h` stays where it is.
  pub abort_reply-other :
      (c : ℕ)
      → ((a.tcbs h).reply_to ≢ 0 → (a.tcbs h).reply_to ≢ c)
      → ((s_abort_reply a h).home c ≡ a.home c)
        × (((s_abort_reply a h).tcbs c).state ≡ (a.tcbs c).state)
        × ((s_abort_reply a h).current ≡ a.current)
  unfolding s_abort_reply s_enqueue
  abort_reply-other c other = elim (Bool-cases (is_null (a.tcbs h).reply_to)) [
    | inl none ↦ rw none (refl, ground arith, refl)
    | inr some ↦
        let ne : (a.tcbs h).reply_to ≢ c = other (ground arith) in
        rw some (ground arith, ground arith, refl)
  ]

module _ {a : Spec} (s : Sound a) (ctx ep x : ℕ) (xs : List ℕ) (nonzero : x ≢ 0)
    (home : a.home x ≡ at_endpoint ep) where
  abbrev gone : (src dst : ℕ) → Spec
  gone src dst = s_deliver (s_leave a ep x xs) src dst

  gone-Away : (src dst : ℕ) → Away x (gone src dst)
  gone-Away src dst = leave-Away ep x src dst xs s.tasks home

  not_running : (b : Spec) → Away x b → is_running (b.tcbs x).state ≡ false
  not_running b t = ground (arith, t.waits)

  pub send_now-Sound : Sound (s_send_now a ctx ep x xs)
  unfolding s_send_now
  send_now-Sound =
      Kept-Sound s
        (Kept-trans (leave-Kept ep x ctx x xs) (
          Kept-trans (enqueue-Kept x (not_running (gone ctx x) (gone-Away ctx x)))
            (set_x0-Kept ctx 0)))
        (set_x0-Tasks ctx 0 (enqueue-Tasks (gone-Away ctx x)))

  runs : (b : Spec) → Kept a b → is_running (b.tcbs b.current).state ≡ true
  runs b k = ground (arith, k.running b.current, k.current, s.only_current a.current)

  current_other : (b : Spec) → Kept a b → Away x b → b.current ≢ x
  current_other b k t e =
      let w = not_running b t in
      let c : is_running (b.tcbs x).state ≡ true =
        subst (λ q. is_running (b.tcbs q).state ≡ true) e (runs b k) in
      ground arith

  take_from-Sound : (b : Spec) → Kept a b → Away x b → Sound (s_take_from b x)
  unfolding s_take_from
  take_from-Sound b k t =
      let cur = b.current in
      let r = runs b k in
      let aborted : Away x (s_abort_reply b cur) = abort_reply-Away t cur in
      elim (Bool-cases (is_blocked_call (b.tcbs x).state)) [
        | inl call ↦ rw call (
            Kept-Sound s
              (Kept-trans k (
                Kept-trans (abort_reply-Kept cur (t.owed cur))
                  (owe-Kept cur x (not_running (s_abort_reply b cur) aborted))))
              (owe-Tasks aborted cur (current_other b k t) nonzero (abort_reply-none b cur)
                (abort_reply-live b cur (ground arith))))
        | inr plain ↦
            let set = set_x0-Away t x 0 in
            rw plain (
              Kept-Sound s
                (Kept-trans k (
                  Kept-trans (set_x0-Kept x 0) (enqueue-Kept x (not_running (s_set_x0 b x 0) set))))
                (enqueue-Tasks set))
      ]

  pub recv_now-Sound : Sound (s_recv_now a ctx ep x xs)
  unfolding s_recv_now
  recv_now-Sound = take_from-Sound (gone x ctx) (leave-Kept ep x x ctx xs) (gone-Away x ctx)

  -- After a call that was handed over the caller waits, and nobody runs.
  not_reply :
      (q : ℕ)
      → is_running ((gone ctx x).tcbs q).state ≡ true
      → ((gone ctx x).tcbs q).state ≢ blocked_reply
  not_reply q r e = ground arith

  owed_call : Away x (s_owe (s_abort_reply (gone ctx x) x) x a.current)
  unfolding s_deliver s_leave
  owed_call =
      let b = gone ctx x in
      let cur = a.current in
      let t = gone-Away ctx x in
      let k : Kept a b = leave-Kept ep x ctx x xs in
      let r : is_running (b.tcbs cur).state ≡ true = runs b k in
      let other : cur ≢ x = current_other b k t in
      let callee : (b.tcbs x).reply_to ≢ 0 → (b.tcbs x).reply_to ≢ cur =
        λ ne e. not_reply cur r (sym (ap (λ q. (b.tcbs q).state) e) ∙ t.owed x ne) in
      let (at, state, _) = abort_reply-other b x cur callee in
      let home : b.home cur ≡ 0 = ground (arith, Sound-current_home s) in
      owe-Away (abort_reply-Away t x) cur other s.current_nonzero (at ∙ home) (abort_reply-none b x)
        (λ e. not_reply cur r (sym state ∙ e))

  pub call_now-Tasks : Tasks (s_call_now a ctx ep x xs)
  unfolding s_call_now
  call_now-Tasks = enqueue-Tasks owed_call

  pub call_now-Idle : (p : ℕ) → is_running ((s_call_now a ctx ep x xs).tcbs p).state ≡ false
  unfolding s_call_now s_owe s_enqueue
  call_now-Idle p = ground (
    arith,
    (abort_reply-Kept {a = gone ctx x} x ((gone-Away ctx x).owed x)).running p,
    (leave-Kept {a = a} ep x ctx x xs).running p,
    s.only_current p,
  )
