-- ===== src/Sched/Spec.antt =====
-- What the scheduler promises, over lists: the tasks that are ready and, for each endpoint, the
-- tasks that wait there, oldest first. The links between TCBs and the queue ends are gone.
use k.Base.{ℕ, ◌+◌, ◌≡◌, Bool, true, false, ◌==◌, if◌then◌else◌, update, List, [], ◌∷◌, ◌++◌}
use k.Task.{Tcb, Tcbs, TaskState, running, dead, set_state}
use k.Task.Queue.{has, IsQueue}
use k.Sched.{Machine, user_root}

-- The links inside `tcbs` mean nothing here. A task's `home` is 0 if it is on no queue, 1 on the
-- ready queue, and `ep + 2` on the queue of the endpoint `ep`. The `holder` of a caller that waits
-- for its reply is the task that owes it.
pub record Spec : Type 0 where
  pub tcbs : Tcbs
  pub ready : List ℕ
  pub waiting : ℕ → List ℕ
  pub home : ℕ → ℕ
  pub holder : ℕ → ℕ
  pub current : ℕ
  pub context : ℕ
  pub ttbr0 : ℕ

abbrev pub at_ready : ℕ
at_ready = 1

abbrev pub at_endpoint : ℕ → ℕ
at_endpoint ep = ep + 2

-- Equal but for the link.
pub record SameTask (t u : Tcb) : Type 0 where
  pub ctx : t.ctx ≡ u.ctx
  pub ttbr0_pa : t.ttbr0_pa ≡ u.ttbr0_pa
  pub state : t.state ≡ u.state
  pub reply_to : t.reply_to ≡ u.reply_to

abbrev pub links : Machine → ℕ → ℕ
links m p = (m.tcbs p).next

-- The machine `m` holds the lists of `a`.
pub record Rep (m : Machine) (a : Spec) : Type 0 where
  pub ready : IsQueue (links m) m.sched.head m.sched.tail a.ready
  pub waiting : (ep : ℕ) → IsQueue (links m) (m.eps ep).head (m.eps ep).tail (a.waiting ep)
  pub tasks : (p : ℕ) → SameTask (m.tcbs p) (a.tcbs p)
  pub in_ready : (p : ℕ) → has p a.ready ≡ (a.home p == at_ready)
  pub in_waiting : (ep p : ℕ) → has p (a.waiting ep) ≡ (a.home p == at_endpoint ep)
  pub current : m.sched.current ≡ a.current
  pub context : m.context ≡ a.context
  pub ttbr0 : m.ttbr0 ≡ a.ttbr0

unfoldable pub s_enqueue : Spec → ℕ → Spec
s_enqueue a p = record a {
  tcbs = set_state a.tcbs p TaskState.ready;
  ready = a.ready ++ (p ∷ []);
  home = update a.home p at_ready;
}

-- `p` leaves the ready queue, of which `rest` stays.
unfoldable pub s_take : Spec → ℕ → List ℕ → Spec
s_take a p rest = record a { ready = rest; home = update a.home p 0 }

unfoldable pub s_switch : Spec → ℕ → Spec
s_switch a p =
    let root = (a.tcbs p).ttbr0_pa in
    record a {
      tcbs = set_state a.tcbs p running;
      current = p;
      context = p;
      ttbr0 = if root == user_root a.ttbr0 then a.ttbr0 else root;
    }

unfoldable pub s_block_with : Spec → List ℕ → Spec × Bool
s_block_with a [] = (a, false)
s_block_with a (p ∷ rest) = (s_switch (s_take a p rest) p, true)

-- The oldest ready task runs; `false` if there is none.
unfoldable pub s_block_and_switch : Spec → Spec × Bool
s_block_and_switch a = s_block_with a a.ready

unfoldable pub s_rotate_with : Spec → List ℕ → Spec
s_rotate_with a [] = a
s_rotate_with a (p ∷ rest) = s_switch (s_enqueue (s_take a p rest) a.current) p

-- The oldest ready task runs, and the current one becomes the youngest.
unfoldable pub s_rotate : Spec → Spec
s_rotate a = s_rotate_with a a.ready

unfoldable pub s_exit_current : Spec → Spec × Bool
s_exit_current a = s_block_and_switch (record a { tcbs = set_state a.tcbs a.current dead })
