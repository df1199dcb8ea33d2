-- ===== src/Kernel.antt =====
-- kernel/src/main.rs: the dispatch of system calls and their policy. A handler returns the kernel and
-- the value for `x0`, or `none` where it parks the machine.
pub mod Dispatch
pub mod Tasks
pub mod Safety
use k.Base.{
  ℕ, zero, suc, ◌+◌, ◌-◌, ◌*◌, ◌%◌, ◌^◌, Bool, true, false, not, ◌&&◌, ◌||◌, ltb, leb, ◌==◌,
  if◌then◌else◌, update, Option, none, some, List, [], ◌∷◌, ◌++◌, Result, ok, err,
}
use k.Abi
use k.Abi.{
  kernel_va_offset, bad_slot, bad_cap, bad_type, bad_va, bad_perm, bad_state, not_untyped,
  exhausted, out_of_slots, already_mapped, kernel_resource, perm_ro, perm_rw,
}
use k.Cap.{
  Cap, CNode, ObjKind, RetypeError, addr_space, console, tcb, frame, page_table, cap, set_cap,
  retype,
}
use k.Task.{Tcb, TaskState, inactive, stopped, zeroed, zero_tcb}
use k.Sched.{Machine, enqueue, rotate, exit_current}
use k.Ipc.{abort_reply, set_x0, reg, sys_send, sys_recv, sys_call, sys_reply_recv}
use k.Mm.{
  Platform, granule, Memory, MmuError, misaligned, null_page, overlap, missing_table, bad_table,
}
use k.Mm.User.{UserPerm, ro_user, rw_user, user_map_frame, user_install_table}
use k.Mm.Pool.{Pool, Mapped, all_mapped, refused, panic, map_kernel_window}

-- The platform, and where the linker puts the pool of kernel tables.
pub record Build : Type 0 where
  pub platform : Platform
  pub pool_base : ℕ

-- `tables` are the words of user tables and `output` the bytes on the console, latest first.
pub record Kernel : Type 0 where
  pub machine : Machine
  pub tables : Memory
  pub pool : Pool
  pub output : List ℕ

abbrev pub Answer : Type 0
Answer = Kernel × Option ℕ

-- `put_byte` of what may go to a terminal.
abbrev pub safe_byte : ℕ → ℕ
safe_byte byte = let b = byte % 256 in if (b == 10) || (leb 0x20 b && leb b 0x7E) then b else 63

abbrev pub putc_at : Kernel → (byte : ℕ) → Option Cap → Answer
putc_at k byte (some console) = (record k { output = safe_byte byte ∷ k.output }, some 0)
putc_at k byte (some _) = (k, some bad_cap)
putc_at k byte none = (k, some bad_slot)

unfoldable pub sys_putc : Kernel → (slot byte : ℕ) → Answer
sys_putc k slot byte = putc_at k byte (cap k.machine.cnode slot)

-- The lookups of an address space and of a TCB.
abbrev pub root_of : Option Cap → Result ℕ ℕ
root_of (some (addr_space root_pa)) = ok root_pa
root_of (some _) = err bad_cap
root_of none = err bad_slot

abbrev pub tcb_of : Option Cap → Result ℕ ℕ
tcb_of (some (tcb base)) = ok (base + kernel_va_offset)
tcb_of (some _) = err bad_cap
tcb_of none = err bad_slot

abbrev pub is_inactive : TaskState → Bool
is_inactive inactive = true
is_inactive _ = false

abbrev pub is_stopped : TaskState → Bool
is_stopped stopped = true
is_stopped _ = false

abbrev pub with_machine : Kernel → Machine → Kernel
with_machine k m = record k { machine = m }

-- The TCB of a task that starts at `entry`, in EL0 with interrupts on.
abbrev pub configured : Tcb → (entry stack root_pa : ℕ) → Tcb
configured t entry stack root_pa = record t {
  ctx = record zeroed { elr = entry; sp = stack; spsr = 0 };
  ttbr0_pa = root_pa;
  state = stopped;
}

abbrev pub configure_at : Kernel → (entry stack : ℕ) → (root task : Result ℕ ℕ) → Answer
configure_at k entry stack (err e) task = (k, some e)
configure_at k entry stack (ok root_pa) (err e) = (k, some e)
configure_at k entry stack (ok root_pa) (ok t) =
    let m = k.machine in
    if is_inactive (m.tcbs t).state
    then (
      with_machine k
          (record m { tcbs = update m.tcbs t (configured (m.tcbs t) entry stack root_pa) }),
      some 0,
    )
    else (k, some bad_state)

unfoldable pub sys_tcb_configure : Build → Kernel → (slot entry stack aspace : ℕ) → Answer
sys_tcb_configure build k slot entry stack aspace =
    let g = granule build.platform in
    let cn = k.machine.cnode in
    if not (entry % 4 == 0) || (ltb entry g || leb (2 ^ 48) entry)
    then (k, some bad_va)
    else if not (stack % 16 == 0) || (ltb stack g || ltb (2 ^ 48) stack)
    then (k, some bad_va)
    else configure_at k entry stack (root_of (cap cn aspace)) (tcb_of (cap cn slot))

abbrev pub resume_at : Kernel → Result ℕ ℕ → Answer
resume_at k (err e) = (k, some e)
resume_at k (ok t) =
    if is_stopped (k.machine.tcbs t).state
    then (with_machine k (enqueue k.machine t), some 0)
    else (k, some bad_state)

unfoldable pub sys_tcb_resume : Kernel → (slot : ℕ) → Answer
sys_tcb_resume k slot = resume_at k (tcb_of (cap k.machine.cnode slot))

-- `from <= q < from + len`
abbrev pub within : (from len q : ℕ) → Bool
within from len q = leb from q && ltb q (from + len)

-- `write_bytes` of zeros over the granule at `pa`, as every view of the memory sees it.
unfoldable pub zero_granule : Kernel → (granule pa : ℕ) → Kernel
zero_granule k g pa =
    let m = k.machine in
    let in_alias : ℕ → Bool = within (pa + kernel_va_offset) g in
    record k {
      machine = record m {
        tcbs = λ q. if in_alias q then zero_tcb else m.tcbs q;
        eps = λ q. if in_alias q then record { head = 0; tail = 0 } else m.eps q;
      };
      tables = λ q. if within pa g q then 0 else k.tables q;
    }

-- The kernel, and whether an address sum of the callback has overflowed, which panics.
abbrev pub Prepared : Type 0
Prepared = Kernel × Bool

abbrev pub aliased : Kernel → (granule pa : ℕ) → Pool × Mapped (Unit {0}) → Prepared × Bool
aliased k g pa (pool, refused e) = ((record k { pool = pool }, false), false)
aliased k g pa (pool, panic) = ((record k { pool = pool }, true), false)
aliased k g pa (pool, all_mapped u) = ((zero_granule (record k { pool = pool }) g pa, false), true)

-- The callback that RETYPE gives to `CNode::retype`.
unfoldable pub prepare_object : Build → (pa : ℕ) → Prepared → Prepared × Bool
prepare_object build pa (k, panicked) =
    let g = granule build.platform in
    aliased k g pa (map_kernel_window build.platform build.pool_base k.pool pa (pa + g))

abbrev pub obj_kind : ℕ → Option ObjKind
obj_kind kind =
    if kind == Abi.obj_frame
    then some ObjKind.frame
    else if kind == Abi.obj_page_table
    then some ObjKind.page_table
    else if kind == Abi.obj_tcb
    then some ObjKind.tcb
    else if kind == Abi.obj_endpoint
    then some ObjKind.endpoint
    else none

abbrev pub retype_code : Result RetypeError ℕ → ℕ
retype_code (ok new_slot) = new_slot
retype_code (err RetypeError.bad_slot) = bad_slot
retype_code (err RetypeError.not_untyped) = not_untyped
retype_code (err RetypeError.exhausted) = exhausted
retype_code (err RetypeError.out_of_slots) = out_of_slots
retype_code (err RetypeError.prep_failed) = kernel_resource

abbrev pub retype_at : Build → Kernel → (slot : ℕ) → Option ObjKind → Answer
retype_at build k slot none = (k, some bad_type)
retype_at build k slot (some kind) =
    let (cn, (k', panicked), r) =
      retype k.machine.cnode (k, false) slot kind (granule build.platform) (prepare_object build) in
    (
      with_machine k' (record (k'.machine) { cnode = cn }),
      if panicked then none else some (retype_code r),
    )

unfoldable pub sys_retype : Build → Kernel → (slot kind : ℕ) → Answer
sys_retype build k slot kind = retype_at build k slot (obj_kind kind)

-- `mmu_err`: a broken table parks the machine.
abbrev pub mmu_err : MmuError → Option ℕ
mmu_err misaligned = some bad_va
mmu_err null_page = some bad_va
mmu_err overlap = some Abi.overlap
mmu_err missing_table = some Abi.missing_table
mmu_err bad_table = none
mmu_err _ = some kernel_resource

abbrev pub user_perm : ℕ → Option UserPerm
user_perm perm =
    if perm == perm_ro then some ro_user else if perm == perm_rw then some rw_user else none

-- The answer of a walker; the flag of the capability in `slot` is set if it succeeded.
abbrev pub record_map {ℓ} :
    {A : Type ℓ} → Kernel → (slot : ℕ) → Cap → Memory × Result MmuError A → Answer
record_map k slot used (tables, err e) = (record k { tables = tables }, mmu_err e)
record_map k slot used (tables, ok a) =
    let m = k.machine in
    (record k { tables = tables; machine = record m { cnode = set_cap m.cnode slot used } }, some 0)

abbrev pub map_frame_at : Build → Kernel → (slot root va base : ℕ) → Option UserPerm → Answer
map_frame_at build k slot root va base none = (k, some bad_perm)
map_frame_at build k slot root va base (some perm) =
    record_map k slot (frame base true) (user_map_frame build.platform k.tables root va base perm)

abbrev pub map_at : Build → Kernel → (slot va perm : ℕ) → Result ℕ ℕ → Option Cap → Answer
map_at build k slot va perm (err e) c = (k, some e)
map_at build k slot va perm (ok root) (some (frame base mapped)) =
    if mapped
    then (k, some already_mapped)
    else map_frame_at build k slot root va base (user_perm perm)
map_at build k slot va perm (ok root) (some (page_table base installed)) =
    if installed
    then (k, some already_mapped)
    else record_map k slot (page_table base true)
        (user_install_table build.platform k.tables root va base)
map_at build k slot va perm (ok root) (some _) = (k, some bad_cap)
map_at build k slot va perm (ok root) none = (k, some bad_slot)

unfoldable pub sys_map : Build → Kernel → (slot va perm aspace : ℕ) → Answer
sys_map build k slot va perm aspace =
    let cn = k.machine.cnode in map_at build k slot va perm (root_of (cap cn aspace)) (cap cn slot)
