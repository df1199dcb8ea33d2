-- ===== src/Ipc/Delivery.antt =====
-- crates/k0-ipc/src/lib.rs: the message registers of a SEND and of a reply.
use k.Base.{ℕ, ◌≤◌, ◌<◌, ◌≡◌, ◌≢◌, refl, sym, ap, ◌∙◌, subst, arith, true, false}
use k.Task.{ready, set_reply_to, is_null, is_blocked_recv, ep_pop}
use k.Sched.{Machine, enqueue, push_ready}
use k.Ipc.{set_x0, reg, deliver, deliver_to, pop_waiter, receiver_waits, send_now, send_on, reply}
use k.Ipc.Sound.{is_running}
use k.Ipc.Safety.{IsSound}

-- From `m` to `n` the message of `src` has come to `dst`, which can run; no register of another task
-- has changed, but perhaps the status of `src`.
pub record Delivered (m n : Machine) (src dst : ℕ) : Type 0 where
  pub message : (i : ℕ) → 2 ≤ i → i ≤ 5 → reg n dst i ≡ reg m src i
  pub status : reg n dst 0 ≡ 0
  pub badge : reg n dst 1 ≡ 0
  pub above : (i : ℕ) → 5 < i → reg n dst i ≡ reg m dst i
  pub woken : (n.tcbs dst).state ≡ ready
  pub others : (q i : ℕ) → q ≢ dst → i ≢ 0 → reg n q i ≡ reg m q i
  pub statuses : (q : ℕ) → q ≢ dst → q ≢ src → reg n q 0 ≡ reg m q 0

receiver_other :
    {m : Machine} (ep : ℕ)
    → IsSound m
    → receiver_waits m ep ≡ true
    → m.sched.current ≢ (m.eps ep).head
receiver_other {m} ep (a, r, s) waits e =
    let h = (m.eps ep).head in
    let state : is_blocked_recv (m.tcbs h).state ≡ true = ground arith in
    let same : is_blocked_recv (a.tcbs h).state ≡ true =
      ap is_blocked_recv (sym (r.tasks h).state) ∙ state in
    let runs : is_running (a.tcbs a.current).state ≡ true =
      ground (arith, s.only_current a.current) in
    let here : is_running (a.tcbs h).state ≡ true =
      subst (λ q. is_running (a.tcbs q).state ≡ true) (sym r.current ∙ e) runs in
    ground arith

enqueue-reg : (m : Machine) (p q i : ℕ) → reg (enqueue m p) q i ≡ reg m q i
unfolding enqueue push_ready
enqueue-reg m p q i = ground arith

enqueue-state : (m : Machine) (p : ℕ) → ((enqueue m p).tcbs p).state ≡ ready
unfolding enqueue push_ready
enqueue-state m p = ground arith

pop_waiter-reg : (m : Machine) (ep q i : ℕ) → reg (pop_waiter m ep).0 q i ≡ reg m q i
unfolding pop_waiter ep_pop
pop_waiter-reg m ep q i = ground arith

pop_waiter-head : (m : Machine) (ep : ℕ) → (pop_waiter m ep).1 ≡ (m.eps ep).head
unfolding pop_waiter ep_pop
pop_waiter-head m ep = ground arith

-- The registers after `deliver` into `dst`, which is then made ready, from a machine with the
-- registers of `m`.
module _ (m b : Machine) (src dst : ℕ) (same : (q i : ℕ) → reg b q i ≡ reg m q i) where
  handed-Delivered : Delivered m (enqueue (deliver_to b src dst) dst) src dst
  unfolding deliver_to deliver
  handed-Delivered =
      let n = deliver_to b src dst in
      record {
        message = λ i lo hi. enqueue-reg n dst dst i ∙ ground (arith, same src i);
        status = enqueue-reg n dst dst 0 ∙ ground arith;
        badge = enqueue-reg n dst dst 1 ∙ ground arith;
        above = λ i hi. enqueue-reg n dst dst i ∙ ground (arith, same dst i);
        woken = enqueue-state n dst;
        others = λ q i ne nz. enqueue-reg n dst q i ∙ ground (arith, same q i);
        statuses = λ q ne ns. enqueue-reg n dst q 0 ∙ ground (arith, same q 0);
      }

-- To be handed a message gives nobody a right to reply.
enqueue-reply_to :
    (m : Machine) (p : ℕ)
    → ((enqueue m p).tcbs (enqueue m p).sched.current).reply_to ≡ (m.tcbs m.sched.current).reply_to
unfolding enqueue push_ready
enqueue-reply_to m p = ground arith

handed-spent :
    (b : Machine) (src dst : ℕ)
    → (b.tcbs b.sched.current).reply_to ≡ 0
    → let n = enqueue (deliver_to b src dst) dst in is_null (n.tcbs n.sched.current).reply_to ≡ true
unfolding deliver_to
handed-spent b src dst none =
    ap is_null {y = 0} (enqueue-reply_to (deliver_to b src dst) dst ∙ ground arith)

-- Status 0 for the sender changes nothing else.
set_x0-Delivered :
    (m n : Machine) (src dst : ℕ)
    → src ≢ dst
    → Delivered m n src dst
    → Delivered m (set_x0 n src 0) src dst
set_x0-Delivered m n src dst other d = record {
  message = λ i lo hi. ground (arith, d.message i);
  status = ground (arith, d.status);
  badge = ground (arith, d.badge);
  above = λ i hi. ground (arith, d.above i);
  woken = ground (arith, d.woken);
  others = λ q i ne nz. ground (arith, d.others q i);
  statuses = λ q ne ns. ground (arith, d.statuses q);
}

-- SEND by the current task to a receiver that waits puts `x2` to `x5` into the registers of the
-- receiver that has waited longest, with status and badge 0, and makes it ready; the sender reads
-- status 0, runs on, and no other register changes.
pub send_on-Delivered :
    (m : Machine) (ep : ℕ)
    → IsSound m
    → receiver_waits m ep ≡ true
    → let ctx = m.sched.current in
      Delivered m (send_on m ctx ep).0 ctx (m.eps ep).head
      × (reg (send_on m ctx ep).0 ctx 0 ≡ 0)
      × ((send_on m ctx ep).1 ≡ true)
unfolding send_on send_now
send_on-Delivered m ep sound waits =
    let ctx = m.sched.current in
    let dst = (m.eps ep).head in
    let popped = (pop_waiter m ep).0 in
    rw (waits, pop_waiter-head m ep)
      (
        set_x0-Delivered m (enqueue (deliver_to popped ctx dst) dst) ctx dst
            (receiver_other ep sound waits)
            (handed-Delivered m popped ctx dst (pop_waiter-reg m ep)),
        ground arith,
        refl,
      )

-- A reply of the current task puts its `x2` to `x5` into the registers of the caller that it owes
-- one, with status and badge 0, and makes the caller ready. The right to reply is used up: a second
-- reply does nothing.
pub reply-Delivered :
    (m : Machine)
    → let ctx = m.sched.current in
      (m.tcbs ctx).reply_to ≢ 0
      → Delivered m (reply m ctx) ctx (m.tcbs ctx).reply_to
        × (reply (reply m ctx) ctx ≡ reply m ctx)
unfolding reply
reply-Delivered m owes =
    let ctx = m.sched.current in
    let caller = (m.tcbs ctx).reply_to in
    let some_caller : is_null caller ≡ false = ground arith in
    let freed = record m { tcbs = set_reply_to m.tcbs ctx 0 } in
    rw some_caller (
      handed-Delivered m freed ctx caller (λ q i. ground arith),
      rw (handed-spent freed ctx caller (ground arith)) refl,
    )
