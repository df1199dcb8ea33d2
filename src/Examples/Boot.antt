-- ===== src/Examples/Boot.antt =====
-- A boot with one bank of 16 MiB, the device tree behind the kernel, and one device.
use k.Base.{ℕ, ◌*◌, ◌≡◌, refl, true, some, List, [], ◌∷◌, ok}
use k.Cap.{PhysRegion}
use k.Mm.{Memory, virt, granule}
use k.Mm.Builder.{FrameAlloc, alloc_contig}
use k.Mm.Builder.Frames.{Fresh, alloc_contig-Fresh}
use k.Boot.{pick_window, seek, pass_over, check_memory_map}
use k.Boot.Window.{IsWindow, pick_window-IsWindow, IsOffDevices, check_memory_map-IsOffDevices}

abbrev banks : List PhysRegion
banks = record { base = 0x40000000; size = 0x1000000 } ∷ []

abbrev tree : PhysRegion
tree = record { base = 0x40100000; size = 0x5000 }

picks : pick_window virt tree [] banks 0x400FF800 ≡ some (0x40105000, 0x40305000)
unfolding pick_window seek pass_over
picks = refl

pick_window-IsWindow_example : IsWindow (tree ∷ []) banks 0x40105000 0x40305000
pick_window-IsWindow_example =
    pick_window-IsWindow virt tree [] banks 0x400FF800 0x40105000 0x40305000 picks

abbrev uart : List (ℕ × ℕ)
uart = (0x09000000, 0x09001000) ∷ []

passes : check_memory_map uart banks ≡ true
unfolding check_memory_map
passes = refl

check_memory_map-IsOffDevices_example : IsOffDevices uart banks
check_memory_map-IsOffDevices_example = check_memory_map-IsOffDevices uart banks passes

abbrev frames : FrameAlloc
frames = record { start = 0x40105000; next = 0x40106000; end = 0x40305000 }

abbrev dirty : Memory
dirty a = 7

takes : (alloc_contig virt frames dirty 2).2 ≡ ok 0x40106000
unfolding alloc_contig
takes = refl

alloc_contig-Fresh_example :
    Fresh frames dirty
      (2 * granule virt)
      0x40106000
      (alloc_contig virt frames dirty 2).0
      (alloc_contig virt frames dirty 2).1
alloc_contig-Fresh_example = alloc_contig-Fresh virt frames dirty 2 0x40106000 takes
