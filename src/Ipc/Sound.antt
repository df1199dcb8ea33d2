-- ===== src/Ipc/Sound.antt =====
-- What holds of the tasks between two system calls.
use k.Base.{ℕ, ◌<◌, ◌≡◌, ◌≢◌, Bool, true, false, ltb, ◌==◌, arith}
use k.Task.{
  TaskState, inactive, stopped, ready, running, dead, blocked_send, blocked_recv, blocked_reply,
  blocked_call, is_blocked_recv,
}
use k.Sched.Spec.{Spec, at_ready}

abbrev pub is_ready : TaskState → Bool
is_ready ready = true
is_ready _ = false

abbrev pub is_running : TaskState → Bool
is_running running = true
is_running _ = false

-- The states of a task on the queue of an endpoint.
abbrev pub is_waiting : TaskState → Bool
is_waiting blocked_send = true
is_waiting blocked_recv = true
is_waiting blocked_call = true
is_waiting _ = false

-- A task that has been started and has not ended.
abbrev pub is_live : TaskState → Bool
is_live inactive = false
is_live stopped = false
is_live dead = false
is_live _ = true

-- What holds of the tasks on and off the queues, whoever runs.
pub record Tasks (a : Spec) : Type 0 where
  -- The state of a task says on which kind of queue it is.
  pub ready_home : (p : ℕ) → (a.home p == at_ready) ≡ is_ready (a.tcbs p).state
  pub waiting_home : (p : ℕ) → ltb 1 (a.home p) ≡ is_waiting (a.tcbs p).state
  -- The tasks at one endpoint are all receivers or all senders.
  pub one_sided :
      (p q : ℕ)
      → a.home p ≡ a.home q
      → 1 < a.home p
      → is_blocked_recv (a.tcbs p).state ≡ is_blocked_recv (a.tcbs q).state
  -- A right to reply belongs to one task and is for one caller, which waits for it.
  pub owed : (p : ℕ) → (a.tcbs p).reply_to ≢ 0 → (a.tcbs (a.tcbs p).reply_to).state ≡ blocked_reply
  pub owner : (p : ℕ) → (a.tcbs p).reply_to ≢ 0 → a.holder (a.tcbs p).reply_to ≡ p
  -- Whoever waits for a reply is owed one by a task that can still give it.
  pub held : (p : ℕ) → p ≢ 0 → (a.tcbs p).state ≡ blocked_reply → (a.tcbs (a.holder p)).reply_to ≡ p
  pub alive :
      (p : ℕ)
      → p ≢ 0
      → (a.tcbs p).state ≡ blocked_reply
      → is_live (a.tcbs (a.holder p)).state ≡ true

pub record Sound (a : Spec) : Type 0 where
  pub tasks : Tasks a
  pub current_nonzero : a.current ≢ 0
  pub context : a.context ≡ a.current
  -- Only the current task runs.
  pub only_current : (p : ℕ) → (p == a.current) ≡ is_running (a.tcbs p).state

module _ {a : Spec} (s : Sound a) where
  pub Sound-current_home : a.home a.current ≡ 0
  Sound-current_home = ground (
    arith,
    s.only_current a.current,
    s.tasks.ready_home a.current,
    s.tasks.waiting_home a.current,
  )

  pub Sound-owed_home : (p : ℕ) → (a.tcbs p).reply_to ≢ 0 → a.home (a.tcbs p).reply_to ≡ 0
  Sound-owed_home p ne =
      let q = (a.tcbs p).reply_to in
      ground (arith, s.tasks.owed p ne, s.tasks.ready_home q, s.tasks.waiting_home q)

  pub Sound-owed_other : (p : ℕ) → (a.tcbs p).reply_to ≢ 0 → (a.tcbs p).reply_to ≢ a.current
  Sound-owed_other p ne =
      let q = (a.tcbs p).reply_to in ground (arith, s.tasks.owed p ne, s.only_current q)
