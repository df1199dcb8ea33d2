-- ===== src/Kernel/Safety.antt =====
-- kernel/src/main.rs: the machine is sound after every entry into the kernel.
use k.Base.{
  ℕ, ◌≡◌, ◌≢◌, refl, arith, Bool, true, ◌||◌, not, ltb, leb, ◌==◌, ◌%◌, ◌^◌, Bool-cases, inl, inr,
  Option, none, some, Result, ok, err,
}
use k.Abi.{sys_no_retype}
use k.Cap.{Cap, console, tcb, frame, page_table, cap, set_cap}
use k.Sched.{Machine}
use k.Ipc.{
  reg, set_x0, on_endpoint, ep_of, send_on, recv_on, call_on, reply_recv_on, sys_send, sys_recv,
  sys_call, sys_reply_recv,
}
use k.Ipc.Safety.{IsSound, send_on-IsSound, recv_on-IsSound, call_on-IsSound, reply_recv_on-IsSound}
use k.Mm.{Memory, MmuError, granule}
use k.Mm.User.{UserPerm, user_map_frame, user_install_table}
use k.Kernel.{
  Build, Kernel, Answer, putc_at, sys_putc, root_of, tcb_of, is_inactive, is_stopped, configure_at,
  sys_tcb_configure, resume_at, sys_tcb_resume, user_perm, record_map, map_frame_at, map_at,
  sys_map,
}
use k.Kernel.Dispatch.{
  Outcome, answered, on_machine, kill_current, yield_current, SysCall, debug_putc, yield, exit,
  retype, map, tcb_configure, tcb_resume, send, recv, call, reply_recv, other, sys_call_of, handle,
  k0_syscall, k0_fault, k0_preempt,
}
use k.Kernel.Tasks.{
  set_x0-IsSound, cnode-IsSound, rotate-IsSound, IsEnded, kill-IsSound, kill-IsEnded,
  resume-IsSound, configure-IsSound,
}

-- Unless the kernel has parked, the machine is sound.
record Fine (o : Outcome) : Type 0 where
  pub sound : o.1 ≡ true → IsSound o.0.machine

answered-Fine : (ctx : ℕ) (ans : Answer) → IsSound ans.0.machine → Fine (answered ctx ans)
answered-Fine ctx (k, none) s = record { sound = λ _. s }
answered-Fine ctx (k, some v) s = record { sound = λ _. set_x0-IsSound ctx v s }

module _ (k : Kernel) (s : IsSound k.machine) where
  putc-IsSound : (byte : ℕ) (c : Option Cap) → IsSound (putc_at k byte c).0.machine
  putc-IsSound byte (some console) = s
  putc-IsSound byte (some _) = s
  putc-IsSound byte none = s

  -- A TCB is never at the null address, since its capability's base is moved to the upper half.
  tcb_nonzero : (c : Option Cap) (t : ℕ) → tcb_of c ≡ ok t → t ≢ 0
  tcb_nonzero (some (tcb base)) t e z = ground arith
  tcb_nonzero (some _) t e z = ground arith
  tcb_nonzero none t e z = ground arith

  configure_at-IsSound :
      (entry stack : ℕ) (root task : Result ℕ ℕ)
      → ((t : ℕ) → task ≡ ok t → t ≢ 0)
      → IsSound (configure_at k entry stack root task).0.machine
  configure_at-IsSound entry stack (err e) task nz = s
  configure_at-IsSound entry stack (ok root) (err e) nz = s
  configure_at-IsSound entry stack (ok root) (ok t) nz =
      elim (Bool-cases (is_inactive (k.machine.tcbs t).state)) [
        | inl fresh ↦ rw fresh (configure-IsSound t (nz t refl) entry stack root s fresh)
        | inr busy ↦ rw busy s
      ]

  resume_at-IsSound :
      (task : Result ℕ ℕ) → ((t : ℕ) → task ≡ ok t → t ≢ 0) → IsSound (resume_at k task).0.machine
  resume_at-IsSound (err e) nz = s
  resume_at-IsSound (ok t) nz = elim (Bool-cases (is_stopped (k.machine.tcbs t).state)) [
    | inl still ↦ rw still (resume-IsSound t (nz t refl) s still)
    | inr busy ↦ rw busy s
  ]

  record-IsSound {ℓ} :
      {A : Type ℓ} (slot : ℕ) (used : Cap) (o : Memory × Result MmuError A)
      → IsSound (record_map k slot used o).0.machine
  record-IsSound slot used (tables, err e) = s
  record-IsSound slot used (tables, ok a) = cnode-IsSound (set_cap k.machine.cnode slot used) s

  map_frame-IsSound :
      (build : Build) (slot root va base : ℕ) (perm : Option UserPerm)
      → IsSound (map_frame_at build k slot root va base perm).0.machine
  map_frame-IsSound build slot root va base none = s
  map_frame-IsSound build slot root va base (some perm) =
      record-IsSound slot (frame base true)
        (user_map_frame build.platform k.tables root va base perm)

  map-IsSound :
      (build : Build) (slot va perm : ℕ) (root : Result ℕ ℕ) (c : Option Cap)
      → IsSound (map_at build k slot va perm root c).0.machine
  map-IsSound build slot va perm (err e) c = s
  map-IsSound build slot va perm (ok root) (some (frame base mapped)) = elim (Bool-cases mapped) [
    | inl done ↦ rw done s
    | inr fresh ↦ rw fresh (map_frame-IsSound build slot root va base (user_perm perm))
  ]
  map-IsSound build slot va perm (ok root) (some (page_table base installed)) =
      elim (Bool-cases installed) [
        | inl done ↦ rw done s
        | inr fresh ↦ rw fresh (
            record-IsSound slot (page_table base true)
              (user_install_table build.platform k.tables root va base))
      ]
  map-IsSound build slot va perm (ok root) (some _) = s
  map-IsSound build slot va perm (ok root) none = s

  ipc-Fine :
      (act : Machine → (ctx ep : ℕ) → Machine × Bool)
      → ((ep : ℕ)
          → (act k.machine k.machine.context ep).1 ≡ true
          → IsSound (act k.machine k.machine.context ep).0)
      → (ep : Result ℕ ℕ) → Fine (on_machine k (on_endpoint act k.machine k.machine.context ep))
  ipc-Fine act keep (err e) = record { sound = λ _. set_x0-IsSound k.machine.context e s }
  ipc-Fine act keep (ok ep) = record { sound = keep ep }

  kill-Fine : Fine (kill_current k)
  unfolding kill_current
  kill-Fine = record { sound = kill-IsSound k.machine s }

  tcb_configure-IsSound :
      (build : Build) (slot entry stack aspace : ℕ)
      → IsSound (sys_tcb_configure build k slot entry stack aspace).0.machine
  unfolding sys_tcb_configure
  tcb_configure-IsSound build slot entry stack aspace =
      let cn = k.machine.cnode in
      let g = granule build.platform in
      elim (Bool-cases (not (entry % 4 == 0) || (ltb entry g || leb (2 ^ 48) entry))) [
        | inl bad ↦ rw bad s
        | inr good ↦
            elim (Bool-cases (not (stack % 16 == 0) || (ltb stack g || ltb (2 ^ 48) stack))) [
              | inl bad ↦ rw (good, bad) s
              | inr fine ↦
                  rw (good, fine)
                    (configure_at-IsSound entry stack (root_of (cap cn aspace))
                      (tcb_of (cap cn slot)) (tcb_nonzero (cap cn slot)))
            ]
      ]

  abbrev x : ℕ → ℕ
  x = reg k.machine k.machine.context

  handle-Fine :
      (build : Build) (c : SysCall)
      → c ≢ retype
      → let ctx = k.machine.context in Fine (handle build k ctx (reg k.machine ctx) c)
  unfolding sys_putc sys_map sys_tcb_resume sys_send sys_recv sys_call sys_reply_recv yield_current
  handle-Fine build debug_putc ne =
      answered-Fine k.machine.context (sys_putc k (x 0) (x 1))
        (putc-IsSound (x 1) (cap k.machine.cnode (x 0)))
  handle-Fine build yield ne = record {
    sound = λ _.
        rotate-IsSound (set_x0 k.machine k.machine.context 0)
          (set_x0-IsSound k.machine.context 0 s);
  }
  handle-Fine build exit ne = kill-Fine
  handle-Fine build retype ne = absurd (ne refl)
  handle-Fine build map ne =
      answered-Fine k.machine.context (sys_map build k (x 0) (x 1) (x 2) (x 3)) (
        map-IsSound build (x 0) (x 1) (x 2) (root_of (cap k.machine.cnode (x 3)))
          (cap k.machine.cnode (x 0)))
  handle-Fine build tcb_configure ne =
      answered-Fine k.machine.context (sys_tcb_configure build k (x 0) (x 1) (x 2) (x 3))
        (tcb_configure-IsSound build (x 0) (x 1) (x 2) (x 3))
  handle-Fine build tcb_resume ne = answered-Fine k.machine.context (sys_tcb_resume k (x 0)) (
      resume_at-IsSound (tcb_of (cap k.machine.cnode (x 0)))
        (tcb_nonzero (cap k.machine.cnode (x 0))))
  handle-Fine build send ne =
      ipc-Fine send_on (λ e. send_on-IsSound k.machine k.machine.context e s)
        (ep_of k.machine (x 0))
  handle-Fine build recv ne =
      ipc-Fine recv_on (λ e. recv_on-IsSound k.machine k.machine.context e s)
        (ep_of k.machine (x 0))
  handle-Fine build call ne =
      ipc-Fine call_on (λ e. call_on-IsSound k.machine k.machine.context e s)
        (ep_of k.machine (x 0))
  handle-Fine build reply_recv ne =
      ipc-Fine reply_recv_on (λ e. reply_recv_on-IsSound k.machine k.machine.context e s)
        (ep_of k.machine (x 0))
  handle-Fine build other ne = kill-Fine

  sys_call_of-retype : (n : ℕ) → n ≢ sys_no_retype → sys_call_of n ≢ retype
  unfolding sys_call_of
  sys_call_of-retype n ne e = ground arith

  -- Every system call but RETYPE leaves the machine sound, unless it parks the kernel.
  pub k0_syscall-IsSound :
      (build : Build)
      → reg k.machine k.machine.context 8 ≢ sys_no_retype
      → (k0_syscall build k).1 ≡ true
      → IsSound (k0_syscall build k).0.machine
  unfolding k0_syscall
  k0_syscall-IsSound build known =
      (handle-Fine build (sys_call_of (reg k.machine k.machine.context 8))
        (sys_call_of-retype (reg k.machine k.machine.context 8) known)).sound

  -- A fault in user space ends the current task alone: it is dead, and either another task runs, on a sound machine,
  -- or the kernel parks, and that only if no task was ready and nobody waited for a reply of the one that faulted.
  pub k0_fault-IsEnded : IsEnded k.machine ((k0_fault k).0.machine, (k0_fault k).1)
  unfolding k0_fault kill_current
  k0_fault-IsEnded = kill-IsEnded k.machine s

  -- The tick of the timer leaves the machine sound.
  pub k0_preempt-IsSound : IsSound (k0_preempt k).machine
  unfolding k0_preempt
  k0_preempt-IsSound = rotate-IsSound k.machine s
