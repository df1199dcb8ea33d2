-- ===== src/Boot/Spawn.antt =====
-- crates/k0-task/src/lib.rs: `spawn_root`, which loads the image of the first task, maps its segments,
-- its stack and the bootinfo page, and fills its TCB. The image is given by its words, by offset.
pub mod Entry
use k.Base.{
  ℕ, zero, suc, ◌+◌, ◌-◌, ◌*◌, ◌/◌, ◌%◌, ◌≤◌, ◌<◌, ◌≡◌, refl, arith, Bool, true, false, not, ◌&&◌,
  ◌||◌, ltb, leb, ◌==◌, if◌then◌else◌, List, [], ◌∷◌, Option, none, some, Result, ok, err,
  Bool-cases, inl, inr,
}
use k.Base.Words.{checked_add}
use k.Task.{Tcb, zeroed, zero_tcb}
use k.Mm.{Platform, granule, Memory, MmuError}
use k.Mm.User.{UserPerm, text_user, ro_user, rw_user}
use k.Mm.Builder.{FrameAlloc, alloc_contig, alloc_frame, build_range}
use k.Mm.Builder as B

abbrev pub user_stack_top : ℕ
user_stack_top = 0x10000000

abbrev pub user_stack_size : ℕ
user_stack_size = 64 * 1024

-- `bootinfo::VA`
abbrev pub bootinfo_va : ℕ
bootinfo_va = 0x0F000000

pub data SegKind : Type 0 where
  text ro rw : SegKind

abbrev pub seg_perm : SegKind → UserPerm
seg_perm text = text_user
seg_perm ro = ro_user
seg_perm rw = rw_user

abbrev pub is_text : SegKind → Bool
is_text text = true
is_text _ = false

pub record LoadSeg : Type 0 where
  pub va : ℕ
  pub memsz : ℕ
  pub kind : SegKind

pub data SpawnError : Type 0 where
  bad_layout : SpawnError
  mmu : MmuError → SpawnError

abbrev pub Spawn : Type 0 → Type 0
Spawn A = FrameAlloc × Memory × Result SpawnError A

-- `?`, with `From<MmuError> for SpawnError`.
abbrev pub with_mmu : {A C : Type 0} → B.Build A → (FrameAlloc → Memory → A → Spawn C) → Spawn C
with_mmu (fa, mem, err e) rest = (fa, mem, err (mmu e))
with_mmu (fa, mem, ok a) rest = rest fa mem a

abbrev pub div_ceil : (a b : ℕ) → ℕ
div_ceil a b = (a + (b - 1)) / b

abbrev pub holds_entry : (entry va seg_end : ℕ) → Bool
holds_entry entry va seg_end = leb va entry && ltb entry seg_end

-- The image between `base` and `image_end`, at the frames from `frames` on, under the table `root`.
pub record Plan : Type 0 where
  pub platform : Platform
  pub base : ℕ
  pub image_end : ℕ
  pub entry : ℕ
  pub frames : ℕ
  pub root : ℕ

-- One segment, up to `seg_end` if that is a word; `rest` is what follows it.
abbrev pub load_seg :
    Plan
    → LoadSeg
    → (seg_end : Option ℕ) → FrameAlloc
    → Memory
    → (FrameAlloc → Memory → Spawn (Unit {0}))
    → Spawn (Unit {0})
load_seg l s none fa mem rest = (fa, mem, err bad_layout)
load_seg l s (some seg_end) fa mem rest =
    let g = granule l.platform in
    if ltb s.va l.base || (ltb l.image_end seg_end || (not (s.va % g == 0) || (s.memsz == 0)))
    then (fa, mem, err bad_layout)
    else with_mmu
        (build_range l.platform l.root s.va (l.frames + (s.va - l.base)) (div_ceil s.memsz g * g)
          (seg_perm s.kind) fa mem)
        (λ fa mem _.
          if holds_entry l.entry s.va seg_end && not (is_text s.kind)
          then (fa, mem, err bad_layout)
          else rest fa mem)

unfoldable pub load_segs : Plan → List LoadSeg → FrameAlloc → Memory → Spawn (Unit {0})
load_segs l [] fa mem = (fa, mem, ok tt)
load_segs l (s ∷ ss) fa mem = load_seg l s (checked_add s.va s.memsz) fa mem (load_segs l ss)

-- `copy_nonoverlapping` of the image to its frames.
abbrev pub copied : Memory → (frames len : ℕ) → (image : ℕ → ℕ) → Memory
copied mem frames len image =
    λ a. if leb frames a && ltb a (frames + len) then image (a - frames) else mem a

abbrev pub then_spawn : {A C : Type 0} → Spawn A → (FrameAlloc → Memory → A → Spawn C) → Spawn C
then_spawn (fa, mem, err e) rest = (fa, mem, err e)
then_spawn (fa, mem, ok a) rest = rest fa mem a

-- The TCB of the first task, and the root of its table.
abbrev pub root_task : (entry root : ℕ) → Tcb × ℕ
root_task entry root = (
  record zero_tcb {
    ctx = record zeroed { elr = entry; sp = user_stack_top; spsr = 0 };
    ttbr0_pa = root;
  },
  root,
)

-- The stack and the bootinfo page, once the segments are mapped.
unfoldable pub finish_spawn : Plan → (bootinfo_pa : ℕ) → FrameAlloc → Memory → Spawn (Tcb × ℕ)
finish_spawn l bootinfo_pa fa mem =
    let p = l.platform in
    let g = granule p in
    if not (leb l.base l.entry && ltb l.entry l.image_end)
    then (fa, mem, err bad_layout)
    else with_mmu (alloc_contig p fa mem (user_stack_size / g)) (λ fa mem stack.
      with_mmu
        (build_range p l.root (user_stack_top - user_stack_size) stack user_stack_size rw_user fa
          mem)
        (λ fa mem _.
          with_mmu (build_range p l.root bootinfo_va bootinfo_pa g ro_user fa mem)
            (λ fa mem _. (fa, mem, ok (root_task l.entry l.root)))))

abbrev pub spawn_at :
    Platform
    → (image : ℕ → ℕ) → (len base entry : ℕ) → List LoadSeg
    → (bootinfo_pa : ℕ) → FrameAlloc
    → Memory
    → (image_end : Option ℕ) → Spawn (Tcb × ℕ)
spawn_at p image len base entry segs bootinfo_pa fa mem none = (fa, mem, err bad_layout)
spawn_at p image len base entry segs bootinfo_pa fa mem (some image_end) =
    with_mmu (alloc_contig p fa mem (len / granule p)) (λ fa mem frames.
      with_mmu (alloc_frame p fa (copied mem frames len image)) (λ fa mem root.
        let l : Plan = record {
          platform = p;
          base = base;
          image_end = image_end;
          entry = entry;
          frames = frames;
          root = root;
        } in
        then_spawn (load_segs l segs fa mem) (λ fa mem _. finish_spawn l bootinfo_pa fa mem)))

abbrev pub is_nil : List LoadSeg → Bool
is_nil [] = true
is_nil _ = false

unfoldable pub spawn_root :
    Platform
    → (image : ℕ → ℕ) → (len base entry : ℕ) → List LoadSeg
    → (bootinfo_pa : ℕ) → FrameAlloc
    → Memory
    → Spawn (Tcb × ℕ)
spawn_root p image len base entry segs bootinfo_pa fa mem =
    let g = granule p in
    if not (base % g == 0) || (not (len % g == 0) || ((len == 0) || is_nil segs))
    then (fa, mem, err bad_layout)
    else spawn_at p image len base entry segs bootinfo_pa fa mem (checked_add base len)
