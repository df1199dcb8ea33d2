-- ===== src/Abi.antt =====
-- crates/k0-abi/src/lib.rs: constants that kernel and user space share. An `i64` error code is
-- held as the word that `as u64` makes of it.
use k.Base.{ℕ, ◌-◌}
use k.Base.Words.{word_size}

abbrev pub kernel_va_offset : ℕ
kernel_va_offset = 0xFFFF_0000_0000_0000

-- The code `-n`, as the word that the caller reads from `x0`.
abbrev pub error_code : ℕ → ℕ
error_code n = word_size - n

-- IPC flag: return `would_block` rather than wait.
abbrev pub nonblock : ℕ
nonblock = 1

-- The error codes of the module `err`.
abbrev pub bad_slot : ℕ
bad_slot = error_code 1

abbrev pub not_untyped : ℕ
not_untyped = error_code 2

abbrev pub exhausted : ℕ
exhausted = error_code 3

abbrev pub out_of_slots : ℕ
out_of_slots = error_code 4

abbrev pub bad_type : ℕ
bad_type = error_code 5

abbrev pub bad_va : ℕ
bad_va = error_code 6

abbrev pub bad_perm : ℕ
bad_perm = error_code 7

abbrev pub already_mapped : ℕ
already_mapped = error_code 8

abbrev pub missing_table : ℕ
missing_table = error_code 9

abbrev pub overlap : ℕ
overlap = error_code 10

abbrev pub kernel_resource : ℕ
kernel_resource = error_code 11

abbrev pub bad_cap : ℕ
bad_cap = error_code 12

abbrev pub bad_state : ℕ
bad_state = error_code 13

abbrev pub would_block : ℕ
would_block = error_code 14

abbrev pub no_reply : ℕ
no_reply = error_code 15

-- Numbers of the system calls, in `x8`.
abbrev pub sys_no_debug_putc : ℕ
sys_no_debug_putc = 0

abbrev pub sys_no_yield : ℕ
sys_no_yield = 1

abbrev pub sys_no_exit : ℕ
sys_no_exit = 2

abbrev pub sys_no_retype : ℕ
sys_no_retype = 3

abbrev pub sys_no_map : ℕ
sys_no_map = 4

abbrev pub sys_no_tcb_configure : ℕ
sys_no_tcb_configure = 5

abbrev pub sys_no_tcb_resume : ℕ
sys_no_tcb_resume = 6

abbrev pub sys_no_send : ℕ
sys_no_send = 7

abbrev pub sys_no_recv : ℕ
sys_no_recv = 8

abbrev pub sys_no_call : ℕ
sys_no_call = 9

abbrev pub sys_no_reply_recv : ℕ
sys_no_reply_recv = 10

-- Object types of RETYPE.
abbrev pub obj_frame : ℕ
obj_frame = 1

abbrev pub obj_page_table : ℕ
obj_page_table = 2

abbrev pub obj_tcb : ℕ
obj_tcb = 3

abbrev pub obj_endpoint : ℕ
obj_endpoint = 4

-- Frame permissions of MAP.
abbrev pub perm_ro : ℕ
perm_ro = 0

abbrev pub perm_rw : ℕ
perm_rw = 1
