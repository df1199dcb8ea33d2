-- ===== src/Examples/Memory.antt =====
-- A bank of four pages with one reserved page, and an object carved from it.
use k.Base.{ℕ, ◌≡◌, refl, update, not, ◌==◌, ◌↔◌, Bool, some, List, [], ◌∷◌, Result, ok, err}
use k.Cap.{
  CNode, Cap, PhysRegion, ObjKind, empty, root_tcb, addr_space, console, CapError, retype, push,
  carve_place, new_cap, untyped, not_untyped,
}
use k.Cap.Bootstrap.{bootstrap}
use k.Cap.Bootstrap.Adds.{Claimed}
use k.Cap.Bootstrap.Next.{InAny}
use k.Cap.Bootstrap.Total.{bootstrap_total}
use k.Cap.Bootstrap.Cover.{bootstrap-cover}
use k.Cap.Apart.{IsApart}
use k.Cap.Retype.{Retyped, retype_ok, retype_error_unchanged}
use k.Cap.Overlap.{retype-IsApart}

abbrev bank : List PhysRegion
bank = record { base = 0x40000; size = 0x4000 } ∷ []

abbrev taken : List PhysRegion
taken = record { base = 0x41000; size = 0x1000 } ∷ []

abbrev booted : CNode
booted = record {
  slots =
      update
        (update
          (update (update (update (update (λ _. empty) 0 empty) 1 root_tcb) 2 (addr_space 0x9000)) 3
            console)
          4 (untyped 0x40000 0x1000 0))
        5 (untyped 0x42000 0x2000 0);
  used = 6;
}

boots : bootstrap bank taken 0x9000 ≡ some (ok booted)
unfolding bootstrap push
boots = refl

bootstrap-cover_example :
    IsApart 0x1000 booted × ((k : ℕ) → Claimed 0x1000 booted k ↔ (InAny bank k × ¬ InAny taken k))
bootstrap-cover_example = bootstrap-cover 0x1000 bank taken 0x9000 boots

bootstrap_total_example : (res : Result CapError CNode) × (bootstrap bank taken 0x9000 ≡ some res)
bootstrap_total_example = bootstrap_total bank taken 0x9000

-- Preparing the memory of an object at a place that may be used.
abbrev ready : ℕ → Unit {0} → Unit {0} × Bool
ready pa s = (s, not (pa == 0))

abbrev carved : CNode
carved = record {
  slots = update (update booted.slots 5 (untyped 0x42000 0x2000 0x1000)) 6 (Cap.tcb 0x42000);
  used = 7;
}

carves : retype booted tt 5 ObjKind.tcb 0x1000 ready ≡ (carved, tt, ok 6)
unfolding retype carve_place new_cap
carves = refl

retype_ok_example : Retyped 0x1000 booted 5 ObjKind.tcb carved 6
retype_ok_example = retype_ok booted tt 5 ObjKind.tcb ready 52 12 refl carves

retype-IsApart_example : IsApart 0x1000 (retype booted tt 5 ObjKind.tcb 0x1000 ready).0
retype-IsApart_example =
    retype-IsApart booted tt 5 ObjKind.tcb ready 52 12 refl bootstrap-cover_example.0

refuses : retype booted tt 3 ObjKind.tcb 0x1000 ready ≡ (booted, tt, err not_untyped)
unfolding retype
refuses = refl

retype_error_unchanged_example : booted ≡ booted
retype_error_unchanged_example = retype_error_unchanged booted tt 3 ObjKind.tcb 0x1000 ready refuses
