-- ===== src/Examples/Spawn.antt =====
-- A first task of one text segment.
use k.Base.{ℕ, ◌≡◌, refl, List, [], ◌∷◌, ok}
use k.Mm.{Memory, virt, index}
use k.Mm.Builder.{
  FrameAlloc, alloc_contig, alloc_frame, child_table, build_page, build_map, build_pages,
  build_range,
}
use k.Boot.Spawn.{text, LoadSeg, root_task, load_segs, finish_spawn, spawn_root}
use k.Boot.Spawn.Entry.{IsStart, spawn_root-IsStart}

abbrev frames : FrameAlloc
frames = record { start = 0x40105000; next = 0x40106000; end = 0x40305000 }

abbrev segs : List LoadSeg
segs = record { va = 0x400000; memsz = 0x800; kind = text } ∷ []

abbrev image : ℕ → ℕ
image a = 5

abbrev dirty : Memory
dirty a = 7

spawns :
    (spawn_root virt image 0x1000 0x400000 0x400010 segs 0x40105000 frames dirty).2
    ≡ ok (root_task 0x400010 0x40107000)
unfolding spawn_root load_segs finish_spawn alloc_contig alloc_frame child_table build_page
    build_map build_pages build_range index
spawns = refl

spawn_root-IsStart_example : IsStart 0x400010 0x400000 0x1000 segs (root_task 0x400010 0x40107000)
spawn_root-IsStart_example =
    spawn_root-IsStart virt image 0x1000 0x400000 0x400010 segs 0x40105000 frames dirty
      (root_task 0x400010 0x40107000) spawns
