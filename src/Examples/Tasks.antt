-- ===== src/Examples/Tasks.antt =====
-- Four tasks: 1 runs and owes 4 a reply, 2 waits for a message at the endpoint 9, 3 is ready.
use k.Base.{ℕ, ◌+◌, refl, arith, ◌==◌, if◌then◌else◌, Bool-cases, inl, inr, [], ◌∷◌}
use k.Cap.{empty}
use k.Task.{Context, Tcb, Tcbs, TaskState, ready, running, blocked_recv, blocked_reply, zero_tcb}
use k.Sched.{Machine}
use k.Sched.Spec.{Spec, Rep}
use k.Ipc.Sound.{Sound}

abbrev message : Context
message = record { x = λ i. i + 40; sp = 0x8000; elr = 0x4000; spsr = 0; tpidr = 0; tpidrro = 0 }

abbrev task : TaskState → (reply_to : ℕ) → Tcb
task s r = record { ctx = message; ttbr0_pa = 0x1000; state = s; next = 0; reply_to = r }

abbrev four : Tcbs
four p =
    if p == 1
    then task running 4
    else if p == 2
    then task blocked_recv 0
    else if p == 3
    then task ready 0
    else if p == 4
    then task blocked_reply 0
    else zero_tcb

abbrev pub machine : Machine
machine = record {
  tcbs = four;
  eps = λ ep. if ep == 9 then record { head = 2; tail = 2 } else record { head = 0; tail = 0 };
  sched = record { current = 1; head = 3; tail = 3 };
  cnode = record { slots = λ _. empty; used = 0 };
  context = 1;
  ttbr0 = 0x1000;
}

abbrev pub lists : Spec
lists = record {
  tcbs = four;
  ready = 3 ∷ [];
  waiting = λ ep. if ep == 9 then 2 ∷ [] else [];
  home = λ p. if p == 2 then 11 else if p == 3 then 1 else 0;
  holder = λ p. if p == 4 then 1 else 0;
  current = 1;
  context = 1;
  ttbr0 = 0x1000;
}

pub machine-Rep : Rep machine lists
machine-Rep = record {
  ready = record { chain = ground arith; last = refl; distinct = ground arith };
  waiting = λ ep. elim (Bool-cases (ep == 9)) [
    | inl same ↦ rw same record { chain = ground arith; last = refl; distinct = ground arith }
    | inr other ↦ rw other record { chain = refl; last = refl; distinct = tt }
  ];
  tasks = λ p. record { ctx = refl; ttbr0_pa = refl; state = refl; reply_to = refl };
  in_ready = λ p. ground arith;
  in_waiting = λ ep p. ground arith;
  current = refl;
  context = refl;
  ttbr0 = refl;
}

pub lists-Sound : Sound lists
lists-Sound = record {
  tasks = record {
    ready_home = λ p. ground arith;
    waiting_home = λ p. ground arith;
    one_sided = λ p q e l. ground arith;
    owed = λ p ne. ground arith;
    owner = λ p ne. ground arith;
    held = λ p z e. ground arith;
    alive = λ p z e. ground arith;
  };
  current_nonzero = ground arith;
  context = refl;
  only_current = λ p. ground arith;
}
