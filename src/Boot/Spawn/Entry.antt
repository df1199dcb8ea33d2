-- ===== src/Boot/Spawn/Entry.antt =====
-- crates/k0-task/src/lib.rs: where the first task starts.
use k.Base.{
  ℕ, ◌+◌, ◌-◌, ◌*◌, ◌/◌, ◌%◌, ◌≤◌, ◌<◌, ◌≡◌, refl, subst, arith, Bool, true, false, not, ◌&&◌, ◌||◌,
  ltb, leb, ◌==◌, if◌then◌else◌, List, [], ◌∷◌, Option, none, some, Result, ok, err,
}
use k.Base.Words.{checked_add}
use k.Task.{Tcb}
use k.Mm.{Platform, granule, Memory}
use k.Mm.User.{rw_user, ro_user}
use k.Mm.Builder.{FrameAlloc, alloc_contig, alloc_frame, build_range}
use k.Mm.Builder as B
use k.Boot.Spawn.{
  user_stack_top, user_stack_size, bootinfo_va, seg_perm, is_text, LoadSeg, SpawnError, bad_layout,
  Spawn, with_mmu, div_ceil, holds_entry, Plan, load_seg, load_segs, copied, then_spawn, root_task,
  finish_spawn, spawn_at, is_nil, spawn_root,
}

-- Only a text segment may hold the entry point.
abbrev pub IsTextEntry : (entry : ℕ) → List LoadSeg → Type 0
IsTextEntry entry [] = Unit
IsTextEntry entry (s ∷ ss) =
    ((not (holds_entry entry s.va (s.va + s.memsz)) || is_text s.kind) ≡ true)
    × IsTextEntry entry ss

-- What the segments after `s` still ask for, on success.
module _ (l : Plan) (s : LoadSeg) (ss : List LoadSeg) (seg_end : ℕ)
    (h_end : seg_end ≡ s.va + s.memsz) {u : Unit {0}}
    (rest : (fa : FrameAlloc) (mem : Memory)
      → (load_segs l ss fa mem).2 ≡ ok u
      → IsTextEntry l.entry ss) where
  kept_segment :
      (fa : FrameAlloc) (mem : Memory) (b : Bool)
      → (holds_entry l.entry s.va seg_end && not (is_text s.kind)) ≡ b
      → (if b then (fa, mem, err bad_layout) else load_segs l ss fa mem).2 ≡ ok u
      → IsTextEntry l.entry (s ∷ ss)
  kept_segment fa mem true e h = absurd (cc)
  kept_segment fa mem false e h = (ground arith, rest fa mem h)

  built_segment :
      (fa : FrameAlloc) (mem : Memory) (b : Bool) (built : B.Build (Unit {0}))
      → (if b
          then (fa, mem, err bad_layout)
          else with_mmu built (λ fa mem _.
            if holds_entry l.entry s.va seg_end && not (is_text s.kind)
            then (fa, mem, err bad_layout)
            else load_segs l ss fa mem)).2
        ≡ ok u
      → IsTextEntry l.entry (s ∷ ss)
  built_segment fa mem true built h = absurd (cc)
  built_segment fa mem false (fa', mem', err e) h = absurd (cc)
  built_segment fa mem false (fa', mem', ok _) h = kept_segment fa' mem' _ refl h

load_segs-IsTextEntry :
    (l : Plan) (ss : List LoadSeg) (fa : FrameAlloc) (mem : Memory) {u : Unit {0}}
    → (load_segs l ss fa mem).2 ≡ ok u
    → IsTextEntry l.entry ss
unfolding load_segs
load_segs-IsTextEntry l [] fa mem h = tt
load_segs-IsTextEntry l (s ∷ ss) fa mem {u} h =
    by_end (checked_add s.va s.memsz) refl h (λ fa mem k. load_segs-IsTextEntry l ss fa mem k)
  where
    by_end :
        (o : Option ℕ)
        → checked_add s.va s.memsz ≡ o
        → (load_seg l s o fa mem (load_segs l ss)).2 ≡ ok u
        → ((fa : FrameAlloc) (mem : Memory)
            → (load_segs l ss fa mem).2 ≡ ok u
            → IsTextEntry l.entry ss)
        → IsTextEntry l.entry (s ∷ ss)
    by_end none e h rest = absurd (cc)
    by_end (some seg_end) e h rest =
        built_segment l s ss seg_end (ground arith) rest fa mem
          (ltb s.va l.base
            || (ltb l.image_end seg_end
                || (not (s.va % granule l.platform == 0) || (s.memsz == 0))))
          (build_range l.platform l.root s.va (l.frames + (s.va - l.base))
            (div_ceil s.memsz (granule l.platform) * granule l.platform) (seg_perm s.kind) fa mem)
          h

-- What holds of the TCB and the table of a first task that is to start at `entry`.
pub IsStart : (entry base len : ℕ) → List LoadSeg → Tcb × ℕ → Type 0
IsStart entry base len segs (t, root) =
    (t.ctx.elr ≡ entry)
    × (t.ctx.spsr ≡ 0)
    × (t.ttbr0_pa ≡ root)
    × (base ≤ entry)
    × (entry < base + len)
    × IsTextEntry entry segs

-- On success, `P` of what it returns.
OnOk : {A : Type 0} → (A → Type 0) → Result SpawnError A → Type 0
OnOk P (ok a) = P a
OnOk P (err e) = Unit

module _ {A C : Type 0} (P : C → Type 0) where
  with_mmu-OnOk :
      (b : B.Build A) (rest : FrameAlloc → Memory → A → Spawn C)
      → ((fa : FrameAlloc) (mem : Memory) (a : A) → OnOk P (rest fa mem a).2)
      → OnOk P (with_mmu b rest).2
  unfolding OnOk
  with_mmu-OnOk (fa, mem, err e) rest h = tt
  with_mmu-OnOk (fa, mem, ok a) rest h = h fa mem a

  then_spawn-OnOk :
      (b : Spawn A) (rest : FrameAlloc → Memory → A → Spawn C)
      → ((a : A) → b.2 ≡ ok a → OnOk P (rest b.0 b.1 a).2)
      → OnOk P (then_spawn b rest).2
  unfolding OnOk
  then_spawn-OnOk (fa, mem, err e) rest h = tt
  then_spawn-OnOk (fa, mem, ok a) rest h = h a refl

module _ {C : Type 0} (P : C → Type 0) where
  ok-OnOk : (a : C) → P a → OnOk P (ok a)
  unfolding OnOk
  ok-OnOk a h = h

  OnOk-of_ok : {x : Result SpawnError C} {a : C} → OnOk P x → x ≡ ok a → P a
  unfolding OnOk
  OnOk-of_ok {x = ok b} {a} h e = subst P (cc) h
  OnOk-of_ok {x = err d} h e = absurd (cc)

  err-OnOk : (e : SpawnError) → OnOk P (err e)
  unfolding OnOk
  err-OnOk e = tt

  guard-OnOk :
      (b : Bool) (fa : FrameAlloc) (mem : Memory) (e : SpawnError) (m : Spawn C)
      → (b ≡ false → OnOk P m.2)
      → OnOk P (if b then (fa, mem, err e) else m).2
  unfolding OnOk
  guard-OnOk true fa mem e m h = tt
  guard-OnOk false fa mem e m h = h refl

module _ (l : Plan) (bootinfo_pa len : ℕ) (segs : List LoadSeg) (h_end : l.image_end ≡ l.base + len)
    (h_text : IsTextEntry l.entry segs) where
  root_task-IsStart :
      not (leb l.base l.entry && ltb l.entry l.image_end) ≡ false
      → IsStart l.entry l.base len segs (root_task l.entry l.root)
  unfolding IsStart
  root_task-IsStart inside = (refl, refl, refl, ground arith, ground arith, h_text)

  finish_spawn-IsStart :
      (fa : FrameAlloc) (mem : Memory)
      → OnOk (IsStart l.entry l.base len segs) (finish_spawn l bootinfo_pa fa mem).2
  unfolding finish_spawn
  finish_spawn-IsStart fa mem =
      guard-OnOk _ (not (leb l.base l.entry && ltb l.entry l.image_end)) _ _ _ _ (λ inside.
        with_mmu-OnOk _ (alloc_contig p fa mem (user_stack_size / g)) _ (λ fa mem stack.
          with_mmu-OnOk _
            (build_range p l.root (user_stack_top - user_stack_size) stack user_stack_size rw_user
              fa mem)
            _
            (λ fa mem _.
              with_mmu-OnOk _ (build_range p l.root bootinfo_va bootinfo_pa g ro_user fa mem) _
                (λ fa mem _. ok-OnOk _ _ (root_task-IsStart inside)))))
    where
      p : Platform
      p = l.platform

      g : ℕ
      g = granule p

module _ (p : Platform) (image : ℕ → ℕ) (len base entry : ℕ) (segs : List LoadSeg) (bootinfo_pa : ℕ)
    (fa : FrameAlloc) (mem : Memory) where
  spawn_at-IsStart :
      (image_end : Option ℕ)
      → checked_add base len ≡ image_end
      → OnOk
          (IsStart entry base len segs)
          (spawn_at p image len base entry segs bootinfo_pa fa mem image_end).2
  spawn_at-IsStart none e = err-OnOk _ _
  spawn_at-IsStart (some image_end) e =
      with_mmu-OnOk _ (alloc_contig p fa mem (len / granule p)) _ (λ fa mem frames.
        with_mmu-OnOk _ (alloc_frame p fa (copied mem frames len image)) _ (λ fa mem root.
          let l : Plan = record {
            platform = p;
            base = base;
            image_end = image_end;
            entry = entry;
            frames = frames;
            root = root;
          } in
          then_spawn-OnOk _ (load_segs l segs fa mem) _ (λ _ loaded.
            finish_spawn-IsStart l bootinfo_pa len segs (ground arith)
              (load_segs-IsTextEntry l segs fa mem loaded) _ _)))

  spawn_root-OnOk :
      OnOk
        (IsStart entry base len segs)
        (spawn_root p image len base entry segs bootinfo_pa fa mem).2
  unfolding spawn_root
  spawn_root-OnOk =
      guard-OnOk _
        (not (base % granule p == 0) || (not (len % granule p == 0) || ((len == 0) || is_nil segs)))
        _ _ _ _ (λ _. spawn_at-IsStart (checked_add base len) refl)

  -- When `spawn_root` returns a TCB and a table, the TCB starts at the given entry in user mode under that table, the
  -- entry is inside the image, and every segment that holds the entry is a text segment.
  pub spawn_root-IsStart :
      (r : Tcb × ℕ)
      → (spawn_root p image len base entry segs bootinfo_pa fa mem).2 ≡ ok r
      → IsStart entry base len segs r
  spawn_root-IsStart r h = OnOk-of_ok _ spawn_root-OnOk h
