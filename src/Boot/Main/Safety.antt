-- ===== src/Boot/Main/Safety.antt =====
-- kernel/src/main.rs: how kernel_main ends, and what it has made.
use k.Base.{
  ℕ, ◌+◌, ◌-◌, ◌^◌, ◌≤◌, ◌<◌, ◌≡◌, refl, subst, arith, Bool, true, false, ltb, leb, update, List,
  [], ◌∷◌, length, Option, none, some, Result, Bool-cases, ◌⊎◌, inl, inr,
}
use k.Base as K
use k.Abi.{kernel_va_offset}
use k.Cap.{PhysRegion, CNode, end}
use k.Cap.Apart.{IsApart}
use k.Cap.Bootstrap.{bootstrap, Filled}
use k.Cap.Bootstrap.Adds.{Claimed}
use k.Cap.Bootstrap.Next.{InAny}
use k.Cap.Bootstrap.Total.{bootstrap_total}
use k.Cap.Bootstrap.Cover.{bootstrap-cover}
use k.Task.{Tcb, set_state, running}
use k.Sched.{handoff}
use k.Mm.{Memory, granule}
use k.Mm.Pool.{Pool, Mapped, all_mapped, map_kernel_window}
use k.Mm.Pool as M
use k.Mm.Pool.Reach.{alias_end, map_kernel_window_panic, map_kernel_window_mapped}
use k.Mm.Builder.{FrameAlloc, new_frames, alloc_frame}
use k.Fdt.{BootInfo, Outcome, memory, reserved_list, entropy_list}
use k.Fdt.Tree.{parse}
use k.Fdt.Outcomes.{Returns, returned, refused}
use k.Fdt.Accepted.{IsAccepted, parse-IsAccepted}
use k.Boot.{check_memory_map, pick_window}
use k.Boot.Window.{
  IsWindow, IsInBank, IsClear, pick_window-IsWindow, IsOffDevices, check_memory_map-IsOffDevices,
}
use k.Boot.Spawn.{spawn_root}
use k.Boot.Spawn.Entry.{IsStart, spawn_root-IsStart}
use k.Irq.{init}
use k.Boot.Keys.{key_count, block_text, ten_words, derive_pac_keys, derive_pac_keys-words}
use k.Boot.Checks.{check_wx, check_user_wx, device_windows, RootTask, verify_root_task}
use k.Boot.Main.{
  Boot, goes_on, parked, crashed, mapped_or_park, true_or_crash, ◌>>=◌, or_park, some_or_park,
  true_or_park, some_or_crash, or_zero, parsed_or_park, filled_or_park, Setup, Started, phys_all,
  kept_back, range, handed_over, enter, spawn, load, kernel_main,
}

-- The boot goes on with a value of `P`, or parks; it panics only where `C` holds; no loop is without end.
pub data Ends {A : Type 0} (P : A → Type 0) (C : Type 0) : Boot A → Type 0 where
  entered : (a : A) → P a → Ends P C (goes_on a)
  stopped : Ends P C parked
  panicked : C → Ends P C crashed

module _ {A B : Type 0} {P : B → Type 0} {C : Type 0} where
  >>=-Ends :
      {Q : A → Type 0} {m : Boot A} (rest : A → Boot B)
      → Ends Q C m
      → ((a : A) → Q a → Ends P C (rest a))
      → Ends P C (m >>= rest)
  >>=-Ends rest (entered a q) next = next a q
  >>=-Ends rest stopped next = stopped
  >>=-Ends rest (panicked c) next = panicked c

  or_park-Ends :
      {E : Type 0} (r : Result E A) (rest : A → Boot B)
      → ((a : A) → r ≡ K.ok a → Ends P C (rest a))
      → Ends P C (or_park r >>= rest)
  or_park-Ends (K.ok a) rest next = next a refl
  or_park-Ends (K.err e) rest next = stopped

  mapped_or_park-Ends :
      (m : Mapped A) (rest : A → Boot B)
      → (m ≡ Mapped.panic → C)
      → ((a : A) → m ≡ all_mapped a → Ends P C (rest a))
      → Ends P C (mapped_or_park m >>= rest)
  mapped_or_park-Ends (all_mapped a) rest cause next = next a refl
  mapped_or_park-Ends (M.refused e) rest cause next = stopped
  mapped_or_park-Ends Mapped.panic rest cause next = panicked (cause refl)

  some_or_park-Ends :
      (o : Option A) (rest : A → Boot B)
      → ((a : A) → o ≡ some a → Ends P C (rest a))
      → Ends P C (some_or_park o >>= rest)
  some_or_park-Ends none rest next = stopped
  some_or_park-Ends (some a) rest next = next a refl

some_or_crash-Ends :
    {A B : Type 0} {P : B → Type 0} {C : Type 0} (o : Option A) (rest : A → Boot B) (a : A)
    → o ≡ some a
    → Ends P C (rest a)
    → Ends P C (some_or_crash o >>= rest)
some_or_crash-Ends none rest a e h = absurd (cc)
some_or_crash-Ends {P} {C} (some x) rest a e h = subst (λ t. Ends P C (rest t)) (cc) h

true_or_park-Ends :
    {B : Type 0} {P : B → Type 0} {C : Type 0} (b : Bool) (rest : Unit {0} → Boot B)
    → (b ≡ true → Ends P C (rest tt))
    → Ends P C (true_or_park b >>= rest)
true_or_park-Ends true rest next = next refl
true_or_park-Ends false rest next = stopped

true_or_crash-Ends :
    {B : Type 0} {P : B → Type 0} {C : Type 0} (b : Bool) (rest : Unit {0} → Boot B)
    → b ≡ true
    → Ends P C (rest tt)
    → Ends P C (true_or_crash b >>= rest)
true_or_crash-Ends true rest e h = h
true_or_crash-Ends false rest e h = absurd (cc)

parsed_or_park-Ends :
    {A : Type 0} {Q : A → Type 0} {C : Type 0} {o : Outcome A}
    → Returns Q o
    → Ends (λ a. Q a × (o ≡ Outcome.ok a)) C (parsed_or_park o)
parsed_or_park-Ends (returned a q) = entered a (q, refl)
parsed_or_park-Ends (refused e) = stopped

filled_or_park-Ends :
    {C : Type 0} (f : Filled) (r : Result _ CNode)
    → f ≡ some r
    → Ends (λ cn. f ≡ some (K.ok cn)) C (filled_or_park f)
filled_or_park-Ends none r e = absurd (cc)
filled_or_park-Ends (some (K.ok cn)) r e = entered cn refl
filled_or_park-Ends (some (K.err x)) r e = stopped

-- One of the regions reaches past `limit`.
abbrev pub Reaches : (limit : ℕ) → List PhysRegion → Type 0
Reaches limit [] = ⊥
Reaches limit (r ∷ rs) = (limit < end r) ⊎ Reaches limit rs

IsInBank-Reaches :
    (limit start top : ℕ) (ms : List PhysRegion)
    → IsInBank start top ms
    → limit < top
    → Reaches limit ms
IsInBank-Reaches limit start top [] i past = i
IsInBank-Reaches limit start top (m ∷ ms) (inl (from, to)) past = inl (omega arith)
IsInBank-Reaches limit start top (m ∷ ms) (inr i) past =
    inr (IsInBank-Reaches limit start top ms i past)

-- The device tree, accepted, has a bank of memory that reaches past 2 ^ 48, where the kernel has no alias.
pub record HasHighBank (s : Setup) : Type 0 where
  pub info : BootInfo
  pub parsed :
      parse s.loaded s.dtb_phys s.kernel_start s.kernel_end kernel_va_offset ≡ Outcome.ok info
  pub high : Reaches alias_end (phys_all (memory info))

-- A byte of one of the windows.
abbrev pub InWindows : List (ℕ × ℕ) → ℕ → Type 0
InWindows [] k = ⊥
InWindows ((from, to) ∷ ds) k = ((from ≤ k) × (k < to)) ⊎ InWindows ds k

IsClear-avoids :
    (from to k : ℕ) (ms : List PhysRegion) → IsClear from to ms → InAny ms k → from ≤ k → k < to → ⊥
IsClear-avoids from to k [] clear i lo hi = i
IsClear-avoids from to k (m ∷ ms) (apart, clear) (inl (at, below)) lo hi = elim apart [
  | inl before ↦ absurd (omega arith)
  | inr behind ↦ absurd (omega arith)
]
IsClear-avoids from to k (m ∷ ms) (apart, clear) (inr i) lo hi =
    IsClear-avoids from to k ms clear i lo hi

IsOffDevices-avoids :
    (ds : List (ℕ × ℕ)) (ms : List PhysRegion) (k : ℕ)
    → IsOffDevices ds ms
    → InAny ms k
    → ¬ InWindows ds k
IsOffDevices-avoids [] ms k off i w = w
IsOffDevices-avoids ((from, to) ∷ ds) ms k (clear, off) i (inl (lo, hi)) =
    IsClear-avoids from to k ms (clear (ground arith)) i lo hi
IsOffDevices-avoids ((from, to) ∷ ds) ms k (clear, off) i (inr w) =
    IsOffDevices-avoids ds ms k off i w

-- What the boot leaves to the first task, and where this starts.
pub record IsStarted (s : Setup) (b : Started) : Type 0 where
  pub accepted : IsAccepted s.dtb_phys s.kernel_start s.kernel_end b.info
  pub keyed : length b.pac_keys ≡ key_count
  pub apart : IsApart (granule s.platform) b.machine.cnode
  pub off_kernel :
      (k : ℕ)
      → Claimed (granule s.platform) b.machine.cnode k
      → ¬ ((s.kernel_start ≤ k) × (k < s.kernel_end))
  pub off_dtb :
      (k : ℕ)
      → Claimed (granule s.platform) b.machine.cnode k
      → ¬ ((b.info.dtb_start ≤ k) × (k < b.info.dtb_end))
  pub off_window :
      (k : ℕ)
      → Claimed (granule s.platform) b.machine.cnode k
      → ¬ ((b.window.0 ≤ k) × (k < b.window.1))
  pub off_firmware :
      (k : ℕ)
      → Claimed (granule s.platform) b.machine.cnode k
      → ¬ InAny (phys_all (reserved_list b.info)) k
  pub off_devices :
      (k : ℕ)
      → Claimed (granule s.platform) b.machine.cnode k
      → ¬ InWindows (device_windows s.platform) k
  pub all_else :
      (k : ℕ)
      → InAny (phys_all (memory b.info)) k
      → ¬ InAny (kept_back s b.info b.window) k
      → Claimed (granule s.platform) b.machine.cnode k
  pub window_placed :
      IsWindow
        (range b.info.dtb_start b.info.dtb_end ∷ phys_all (reserved_list b.info))
        (phys_all (memory b.info))
        b.window.0
        b.window.1
  pub window_below : b.window.1 ≤ alias_end
  pub starts :
      IsStart s.root_task.entry s.root_task.base s.root_task.len s.root_task.segments
        (b.tcb, b.user_root)
  pub current : b.machine.sched.current ≡ s.root_tcb
  pub context : b.machine.context ≡ s.root_tcb
  pub table : b.machine.ttbr0 ≡ b.user_root
  pub task : b.machine.tcbs s.root_tcb ≡ record (b.tcb) { state = running }

task_runs :
    (ts : ℕ → Tcb) (at : ℕ) (tcb : Tcb)
    → set_state (update ts at tcb) at running at ≡ record tcb { state = running }
task_runs ts at tcb = ground arith

range-avoids :
    (from to k : ℕ) → ¬ ((from ≤ k) × (k < from + (to - from))) → ¬ ((from ≤ k) × (k < to))
range-avoids from to k out (lo, hi) = out (lo, omega arith)

module _ (s : Setup) (info : BootInfo)
    (accepted : IsAccepted s.dtb_phys s.kernel_start s.kernel_end info) (pac_keys : List ℕ)
    (read : parse s.loaded s.dtb_phys s.kernel_start s.kernel_end kernel_va_offset
      ≡ Outcome.ok info)
    (ten : length pac_keys ≡ key_count)
    (off : IsOffDevices (device_windows s.platform) (phys_all (memory info))) where
  module _ (window : ℕ × ℕ)
      (placed : IsWindow
        (range info.dtb_start info.dtb_end ∷ phys_all (reserved_list info))
        (phys_all (memory info))
        window.0
        window.1)
      (below : window.1 ≤ alias_end) where
    enter-Ends :
        (pool : Pool) (frames : FrameAlloc) (words : Memory) (tcb : Tcb × ℕ)
        → IsStart s.root_task.entry s.root_task.base s.root_task.len s.root_task.segments tcb
        → Ends (IsStarted s) (HasHighBank s) (enter s info pac_keys window pool frames words tcb)
    unfolding handoff
    enter-Ends pool frames words (tcb, user_root) starts =
        let g = granule s.platform in
        let banks = phys_all (memory info) in
        let reserved = kept_back s info window in
        let (r, total) = bootstrap_total banks reserved user_root in
        >>=-Ends _ (filled_or_park-Ends (bootstrap banks reserved user_root) r total) (λ cnode made.
          let (apart, exactly) = bootstrap-cover g banks reserved user_root made in
          let out : (k : ℕ) → Claimed g cnode k → ¬ InAny reserved k = λ k c. ((exactly k).0 c).1 in
          true_or_park-Ends
            (check_user_wx s.platform s.symbols s.user_at s.root_task.segments s.pan2) _
            (λ checked.
              entered (handed_over s info pac_keys window pool frames words (tcb, user_root) cnode)
                (record {
                  accepted = accepted;
                  keyed = ten;
                  apart = apart;
                  off_kernel = λ k c. range-avoids _ _ k (λ i. out k c (inl i));
                  off_dtb = λ k c. range-avoids _ _ k (λ i. out k c (inr (inl i)));
                  off_window = λ k c. range-avoids _ _ k (λ i. out k c (inr (inr (inl i))));
                  off_firmware = λ k c i. out k c (inr (inr (inr i)));
                  off_devices = λ k c. IsOffDevices-avoids _ banks k off ((exactly k).0 c).0;
                  all_else = λ k i free. (exactly k).1 (i, free);
                  window_placed = placed;
                  window_below = below;
                  starts = starts;
                  current = refl;
                  context = refl;
                  table = refl;
                  task = task_runs (s.machine.tcbs) s.root_tcb tcb;
                })))

  spawn-Ends :
      (window : ℕ × ℕ) (pool : Pool) (bi_frame : ℕ) (frames : FrameAlloc) (words : Memory)
      → IsWindow
          (range info.dtb_start info.dtb_end ∷ phys_all (reserved_list info))
          (phys_all (memory info))
          window.0
          window.1
      → window.1 ≤ alias_end
      → Ends
          (IsStarted s)
          (HasHighBank s)
          (spawn s info pac_keys window pool s.root_task bi_frame frames words)
  spawn-Ends window pool bi_frame frames words placed below =
      let task = s.root_task in
      true_or_park-Ends (leb (length task.segments) 4) _ (λ few.
        let (fa, mem, spawned) =
          spawn_root s.platform task.content task.len task.base task.entry task.segments bi_frame
            frames words in
        or_park-Ends spawned _ (λ tcb e. enter-Ends window placed below pool fa mem tcb (
          spawn_root-IsStart s.platform task.content task.len task.base task.entry task.segments
            bi_frame frames words tcb e)))

  load-Ends : Ends (IsStarted s) (HasHighBank s) (load s info pac_keys s.root_task)
  load-Ends =
      let banks = phys_all (memory info) in
      let obstacles = phys_all (reserved_list info) in
      let dtb = range info.dtb_start info.dtb_end in
      some_or_park-Ends (pick_window s.platform dtb obstacles banks s.kernel_end) _ (λ window found.
        let placed : IsWindow (dtb ∷ obstacles) banks window.0 window.1 =
          pick_window-IsWindow s.platform dtb obstacles banks s.kernel_end window.0 window.1
            found in
        let made = map_kernel_window s.platform s.pool_base s.pool window.0 window.1 in
        mapped_or_park-Ends made.1 _
          (λ panics. record {
            info = info;
            parsed = read;
            high =
                IsInBank-Reaches alias_end window.0 window.1 banks placed.in_bank
                  (map_kernel_window_panic s.platform s.pool_base s.pool window.0 window.1 panics);
          })
          (λ u done.
            let below : window.1 ≤ alias_end =
              map_kernel_window_mapped s.platform s.pool_base s.pool window.0 window.1 done in
            true_or_crash-Ends (leb window.1 (2 ^ 48)) _ (ground (arith, below)) (
              or_park-Ends (new_frames s.platform window.0 window.1) _ (λ frames _.
                or_park-Ends (alloc_frame s.platform frames s.words).2 _
                  (λ bi_frame _. spawn-Ends window made.0 bi_frame _ _ placed below)))))

verify_root_task-same :
    (s : Setup) (task : RootTask)
    → verify_root_task s.digest s.sha256 s.root_task ≡ K.ok task
    → s.root_task ≡ task
unfolding verify_root_task
verify_root_task-same s task e = ground (arith, e)

-- On any memory contents, whatever the device tree says, and with a hash of 32 bytes, kernel_main ends, parked or in
-- the first task; it panics only if the device tree, accepted, has a bank of memory that reaches past 2 ^ 48. When it
-- enters the first task, it has ten keys, the boot window lies below 2 ^ 48, no capability reaches the kernel image, the
-- device tree, the window, what the firmware reserves or a device window, every other byte of the memory map is covered,
-- no byte twice, and the task that runs starts at the given entry, in user mode under its own table; the entry is in the
-- image, and no segment that holds it is other than text.
pub kernel_main-IsStarted :
    (s : Setup)
    → ((bytes : List ℕ) → length (s.hash bytes) ≡ 32)
    → Ends (IsStarted s) (HasHighBank s) (kernel_main s)
unfolding kernel_main
kernel_main-IsStarted s h = true_or_park-Ends (check_wx s.platform s.symbols s.kernel_at) _ (λ _.
    >>=-Ends _
      (parsed_or_park-Ends
        (parse-IsAccepted s.loaded s.dtb_phys s.kernel_start s.kernel_end kernel_va_offset))
      (λ info (accepted, read).
        true_or_park-Ends (check_memory_map (device_windows s.platform) (phys_all (memory info))) _
          (λ clear. or_park-Ends (verify_root_task s.digest s.sha256 s.root_task) _ (λ task e.
            let extra = s.cntpct ∷ or_zero s.rndr ∷ [] in
            let keys =
              ten_words (λ counter. s.hash (block_text (entropy_list info) extra counter)) in
            some_or_crash-Ends (derive_pac_keys s.hash (entropy_list info) extra) _ keys
              (derive_pac_keys-words s.hash (entropy_list info) extra h)
              (or_park-Ends (init s.platform s.ctlr s.waker).1 _ (λ _ _.
                subst (λ t. Ends (IsStarted s) (HasHighBank s) (load s info keys t))
                  (verify_root_task-same s task e)
                  (load-Ends s info accepted keys read refl (
                    check_memory_map-IsOffDevices (device_windows s.platform)
                      (phys_all (memory info)) clear))))))))
