-- ===== src/Boot/Main.antt =====
-- kernel/src/main.rs: kernel_main, the boot from the jump to the higher half up to the first task. The
-- log is left out, and what hardening does with the keys.
pub mod Safety
use k.Base.{
  ℕ, ◌+◌, ◌-◌, ◌^◌, Bool, true, false, leb, update, List, [], ◌∷◌, ◌++◌, length, Option, none, some,
  Result,
}
use k.Base as K
use k.Cap.{PhysRegion, CNode}
use k.Cap.Bootstrap.{bootstrap, Filled}
use k.Task.{Tcb}
use k.Sched.{Machine, handoff}
use k.Abi.{kernel_va_offset}
use k.Mm.{Platform, Memory}
use k.Mm.Pool.{Pool, Mapped, all_mapped, refused, map_kernel_window}
use k.Mm.Builder.{FrameAlloc, new_frames, alloc_frame}
use k.Fdt.{
  MemRegion, BootInfo, Outcome, ok, err, panic, unfinished, memory, reserved_list, entropy_list,
}
use k.Fdt.Tree.{parse}
use k.Boot.{check_memory_map, pick_window, write_bootinfo, Header, CapDesc}
use k.Boot.Spawn.{LoadSeg, spawn_root}
use k.Irq.{init}
use k.Boot.Keys.{derive_pac_keys}
use k.Boot.Checks.{At, Symbols, check_wx, check_user_wx, device_windows, RootTask, verify_root_task}

-- A part of the boot: it goes on, parks, panics, or is in a loop that has used up its rounds.
pub data Boot (A : Type 0) : Type 0 where
  goes_on : A → Boot A
  parked crashed endless : Boot A

infixl 5 ◌>>=◌
abbrev pub ◌>>=◌ : {A B : Type 0} → Boot A → (A → Boot B) → Boot B
goes_on a >>= rest = rest a
parked >>= rest = parked
crashed >>= rest = crashed
endless >>= rest = endless

-- `park()` on each error.
abbrev pub or_park : {A E : Type 0} → Result E A → Boot A
or_park (K.ok a) = goes_on a
or_park (K.err e) = parked

abbrev pub some_or_park : {A : Type 0} → Option A → Boot A
some_or_park (some a) = goes_on a
some_or_park none = parked

abbrev pub some_or_crash : {A : Type 0} → Option A → Boot A
some_or_crash (some a) = goes_on a
some_or_crash none = crashed

-- `park()` on an error of a mapping; its panic is one.
abbrev pub mapped_or_park : {A : Type 0} → Mapped A → Boot A
mapped_or_park (all_mapped a) = goes_on a
mapped_or_park (refused e) = parked
mapped_or_park Mapped.panic = crashed

abbrev pub true_or_crash : Bool → Boot (Unit {0})
true_or_crash true = goes_on tt
true_or_crash false = crashed

abbrev pub true_or_park : Bool → Boot (Unit {0})
true_or_park true = goes_on tt
true_or_park false = parked

abbrev pub parsed_or_park : {A : Type 0} → Outcome A → Boot A
parsed_or_park (ok a) = goes_on a
parsed_or_park (err e) = parked
parsed_or_park panic = crashed
parsed_or_park unfinished = endless

abbrev pub filled_or_park : Filled → Boot CNode
filled_or_park (some r) = or_park r
filled_or_park none = endless

-- The machine after the jump. Addresses are physical ones but for `symbols`.
pub record Setup : Type 0 where
  pub platform : Platform
  pub symbols : Symbols
  pub kernel_start : ℕ
  pub kernel_end : ℕ
  pub dtb_phys : ℕ
  pub loaded : ℕ → ℕ  -- the bytes of memory, at the addresses of the higher half
  pub words : Memory  -- the words of memory
  pub pool_base : ℕ
  pub pool : Pool
  pub machine : Machine
  pub root_tcb : ℕ  -- `ROOT_TCB`
  pub digest : (ℕ → ℕ) → ℕ → List ℕ
  pub sha256 : List ℕ
  pub root_task : RootTask
  pub hash : List ℕ → List ℕ  -- SHA-256
  pub cntpct : ℕ  -- `CNTPCT_EL0`
  pub rndr : Option ℕ  -- what RNDR answers, where there is one
  pub ctlr : ℕ → ℕ  -- the answers of GICD_CTLR to the reads of `irq::init`
  pub waker : ℕ → ℕ  -- and those of GICR_WAKER
  pub pan2 : Bool
  pub kernel_at : At  -- the answers of AT after the jump
  pub user_at : At  -- and once the table of the first task is installed

-- What the boot has made when it enters the first task.
pub record Started : Type 0 where
  pub info : BootInfo
  pub pac_keys : List ℕ
  pub window : ℕ × ℕ
  pub pool : Pool
  pub frames : FrameAlloc
  pub words : Memory
  pub page : Header × (ℕ → Option CapDesc)  -- the bootinfo page
  pub tcb : Tcb
  pub user_root : ℕ
  pub machine : Machine

abbrev pub phys : MemRegion → PhysRegion
phys r = record { base = r.base; size = r.size }

abbrev pub phys_all : List MemRegion → List PhysRegion
phys_all [] = []
phys_all (r ∷ rs) = phys r ∷ phys_all rs

abbrev pub range : (start end : ℕ) → PhysRegion
range start end = record { base = start; size = end - start }

-- `rndr.unwrap_or(0)`
abbrev pub or_zero : Option ℕ → ℕ
or_zero (some w) = w
or_zero none = 0

-- The kernel image, the device tree, the window, and what the firmware reserves.
abbrev pub kept_back : Setup → BootInfo → (window : ℕ × ℕ) → List PhysRegion
kept_back s info window =
    range s.kernel_start s.kernel_end
    ∷ range info.dtb_start info.dtb_end
    ∷ range (window.0) (window.1)
    ∷ phys_all (reserved_list info)

-- What the first task finds.
abbrev pub handed_over :
    Setup
    → BootInfo
    → (pac_keys : List ℕ) → (window : ℕ × ℕ) → Pool
    → FrameAlloc
    → Memory
    → (tcb : Tcb × ℕ) → CNode
    → Started
handed_over s info pac_keys window pool frames words (tcb, user_root) cnode = record {
  info = info;
  pac_keys = pac_keys;
  window = window;
  pool = pool;
  frames = frames;
  words = words;
  page = write_bootinfo s.platform cnode;
  tcb = tcb;
  user_root = user_root;
  machine =
      handoff
        (record (s.machine) {
          tcbs = update s.machine.tcbs s.root_tcb tcb;
          cnode = cnode;
          ttbr0 = user_root;
        })
        s.root_tcb;
}

-- From the capabilities on, for the first task `tcb` and its table.
abbrev pub enter :
    Setup
    → BootInfo
    → (pac_keys : List ℕ) → (window : ℕ × ℕ) → Pool
    → FrameAlloc
    → Memory
    → (tcb : Tcb × ℕ) → Boot Started
enter s info pac_keys window pool frames words tcb = do
  cnode ← filled_or_park (bootstrap (phys_all (memory info)) (kept_back s info window) (tcb.1))
  checked ← true_or_park (check_user_wx s.platform s.symbols s.user_at s.root_task.segments s.pan2)
  goes_on (handed_over s info pac_keys window pool frames words tcb cnode)

-- From the spawn of the first task on, with the frame `bi_frame` for the bootinfo page.
abbrev pub spawn :
    Setup
    → BootInfo
    → (pac_keys : List ℕ) → (window : ℕ × ℕ) → Pool
    → RootTask
    → (bi_frame : ℕ) → FrameAlloc
    → Memory
    → Boot Started
spawn s info pac_keys window pool task bi_frame frames words = do
  few ← true_or_park (leb (length task.segments) 4)
  let (frames, words, spawned) =
      spawn_root s.platform task.content task.len task.base task.entry task.segments bi_frame frames
        words
  tcb ← or_park spawned
  enter s info pac_keys window pool frames words tcb

-- From the choice of the window on. FrameAlloc, UserSpace and write_bootinfo reach the frames of the window
-- at `frame + KERNEL_VA_OFFSET`. Such a sum overflows only if the window ends behind 2 ^ 48, which is
-- taken for the panic here.
abbrev pub load : Setup → BootInfo → (pac_keys : List ℕ) → RootTask → Boot Started
load s info pac_keys task = do
  let p = s.platform
  (from, to) ← some_or_park (
      pick_window p (range info.dtb_start info.dtb_end) (phys_all (reserved_list info))
        (phys_all (memory info)) s.kernel_end)
  let (pool, window_mapped) = map_kernel_window p s.pool_base s.pool from to
  done ← mapped_or_park window_mapped
  aliased ← true_or_crash (leb to (2 ^ 48))
  frames ← or_park (new_frames p from to)
  let (frames, words, allocated) = alloc_frame p frames s.words
  bi_frame ← or_park allocated
  spawn s info pac_keys (from, to) pool task bi_frame frames words

unfoldable pub kernel_main : Setup → Boot Started
kernel_main s = do
  checked ← true_or_park (check_wx s.platform s.symbols s.kernel_at)
  info ← parsed_or_park (parse s.loaded s.dtb_phys s.kernel_start s.kernel_end kernel_va_offset)
  devices ← true_or_park (check_memory_map (device_windows s.platform) (phys_all (memory info)))
  task ← or_park (verify_root_task s.digest s.sha256 s.root_task)
  pac_keys ←
      some_or_crash (derive_pac_keys s.hash (entropy_list info) (s.cntpct ∷ or_zero s.rndr ∷ []))
  irq ← or_park ((init s.platform s.ctlr s.waker).1)
  load s info pac_keys task
