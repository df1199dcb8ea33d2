-- ===== src/Examples/Tables.antt =====
-- A user table at 0x1000 with one mapped page, and a pool of kernel tables that is full.
use k.Base.{arith, ◌≡◌, refl, true, update, some, err}
use k.Mm.{Memory, virt, index, missing_table, overlap, out_of_tables}
use k.Mm.User.{rw_user, ro_user, leaf_table, user_map_frame, user_install_table}
use k.Mm.Walk.{IsInstalled, lookup, translate}
use k.Mm.Mapping.{user_map_frame-keeps, user_map_frame-unchanged}
use k.Mm.Tables.{user_install_table-keeps, user_install_table-missing}
use k.Mm.Pool.{Pool, map_page, alloc, next_table, descend}
use k.Mm.Pool.Rollback.{SamePool, map_page-unchanged}

-- 0x6000 is mapped at 0x9000, and 0x4000 is free in the same leaf table.
abbrev words : Memory
words =
    update (update (update (update (λ _. 0) 0x1000 0x2003) 0x2000 0x3003) 0x3000 0x5003) 0x5030
      0x9003

mapped : translate virt words 0x1000 0x6000 ≡ some 0x9003
unfolding translate lookup index
mapped = refl

user_map_frame-keeps_example :
    translate virt (user_map_frame virt words 0x1000 0x4000 0x8000 rw_user).0 0x1000 0x6000
    ≡ some 0x9003
user_map_frame-keeps_example =
    user_map_frame-keeps virt words 0x1000 0x4000 0x8000 rw_user 0x1000 0x6000 0x9003 mapped

taken : (user_map_frame virt words 0x1000 0x6000 0x8000 ro_user).1 ≡ err overlap
unfolding user_map_frame leaf_table index
taken = refl

user_map_frame-unchanged_example :
    (user_map_frame virt words 0x1000 0x6000 0x8000 ro_user).0 ≡ words
user_map_frame-unchanged_example =
    user_map_frame-unchanged virt words 0x1000 0x6000 0x8000 ro_user overlap taken

user_install_table-keeps_example :
    translate virt (user_install_table virt words 0x1000 0x40000000 0xA000).0 0x1000 0x6000
    ≡ some 0x9003
user_install_table-keeps_example =
    user_install_table-keeps virt words 0x1000 0x6000 0x9003 mapped 0x1000 0x40000000 0xA000

misses : (user_map_frame virt words 0x1000 0x40000000 0x8000 ro_user).1 ≡ err missing_table
unfolding user_map_frame leaf_table index
misses = refl

user_install_table-missing_example :
    IsInstalled virt words 0x40000000 0xA000 3 0x1000
      (user_install_table virt words 0x1000 0x40000000 0xA000)
user_install_table-missing_example =
    user_install_table-missing virt words 0x1000 0x40000000 0x8000 ro_user 0xA000 refl (omega arith)
      misses

-- Two tables are left, and the address needs three.
abbrev full : Pool
full = record { tables = λ _ _. 0; used = 30; enabled = true; root1 = 1 }

overflows : (map_page virt 0x80000 full 1 0x4000 0x4000 3).1 ≡ err out_of_tables
unfolding map_page descend next_table alloc index
overflows = refl

map_page-unchanged_example :
    SamePool full (map_page virt 0x80000 full 1 0x4000 0x4000 3).0
    × ((map_page virt 0x80000 full 1 0x4000 0x4000 3).0.used ≡ 30)
map_page-unchanged_example =
    map_page-unchanged virt 0x80000 0x4000 0x4000 3 full 1 out_of_tables overflows
