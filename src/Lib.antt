-- ===== src/Lib.antt =====
-- The verification library of k0, a capability microkernel for AArch64 in Rust.
--
-- The kernel's state. A root CNode of 32 slots holds capabilities: rights to memory (untyped, frame,
-- page table, TCB, endpoint), to an address space and to the console. RETYPE carves an object out of
-- an untyped one. Tasks are TCBs in such objects. They are on the ready queue, on the queue of an
-- endpoint, or on none; the queues are intrusive, linked through `next` in the TCB. System calls run
-- to their end on one core with interrupts masked, so each call is a function from a machine to a
-- machine, and a run of the kernel is a sequence of calls.
--
-- Which file is about which code:
--   Abi     crates/k0-abi/src/lib.rs: call numbers, object types, permissions, error codes
--   Cap     crates/k0-cap/src/lib.rs: CNode, CNode::retype, bootstrap with populate and
--           push_untypeds. Cap.Apart says which bytes a slot claims; Cap.Retype, Cap.Overlap and
--           the modules below Cap.Bootstrap hold the proofs.
--   Task    crates/k0-task/src/lib.rs: Tcb, TaskState, Endpoint::push and Endpoint::pop, and the
--           Context of crates/k0-arch/src/usermode.rs. Task.Queue: a chain of links as a list.
--   Sched   crates/k0-sched/src/lib.rs: push, pop, switch_to, enqueue, rotate, block_and_switch,
--           exit_current, handoff. Sched.Spec is the same over lists, Sched.Refine the refinement.
--   Ipc     crates/k0-ipc/src/lib.rs: sys_send, sys_recv, sys_call, sys_reply_recv, abort_reply.
--           Ipc.Spec is the rendezvous over lists. Ipc.Steps and Ipc.Refine relate the two;
--           Ipc.Sound, Ipc.Away, Ipc.Running, Ipc.Invariant and Ipc.Safety are about what holds of
--           the tasks from one call to the next.
--   Mm      crates/k0-mm/src/paging.rs: granule, descriptors, index; Mm.Pool the static pool of kernel
--           tables with map_page, map_range and map_kernel_window, Mm.Paging enable_paging. Mm.User is
--           crates/k0-mm/src/user.rs: user_map_frame and user_install_table. Mm.Walk is the table walk
--           of the MMU; Mm.Mapping, Mm.Tables, Mm.Pool.Rollback and Mm.Pool.Reach hold the proofs.
--   Kernel  kernel/src/main.rs: the handlers sys_putc, sys_retype, sys_map, sys_tcb_configure and
--           sys_tcb_resume. Kernel.Dispatch is k0_syscall, k0_fault, k0_preempt and kill_current;
--           Kernel.Tasks and Kernel.Safety hold the proofs.
--   Irq     crates/k0-arch/src/irq.rs: init with its polling loops, timer_tick, dispatch_irq, dispatch_fiq and the
--           four entry points of the vectors. Irq.Ready and Irq.Safety hold the proofs.
--   Boot    kernel/src/main.rs: check_memory_map, pick_window and write_bootinfo. Boot.Main is kernel_main, which
--           runs parse, the checks, spawn_root, bootstrap and handoff in order, and Boot.Init kernel_init with
--           enable_mmu. Boot.Checks is check_wx,
--           check_user_wx and device_windows, and verify_root_task of crates/k0-boot/src/roottask.rs; Boot.Spawn
--           is spawn_root of crates/k0-task/src/lib.rs, and Boot.Keys derive_pac_keys of
--           crates/k0-boot/src/entropy.rs. Mm.Builder is FrameAlloc
--           and UserSpace of crates/k0-mm/src/user.rs, with Mm.Builder.Frames about the allocator.
--   Fdt     crates/k0-boot/src/fdt.rs: Fdt.Reg is cells, reg properties, memreserve and seeds, Fdt.Tree the walk
--           over the structure block, parse_blob, dtb_span and parse. Fdt.Builder and Fdt.Board are
--           fdt/builder.rs, which writes blobs. Fdt.Outcomes, Fdt.Filled, Fdt.Total and Fdt.Accepted are about
--           arbitrary bytes; Fdt.At, Fdt.Names, Fdt.Calls, Fdt.Written, Fdt.Blob and Fdt.RegTrip about
--           blobs that have been written; Fdt.Shows, Fdt.Seeds, Fdt.Nodes, Fdt.Children, Fdt.Texts and Fdt.RoundTrip
--           about the nodes of a Board.
--   Base    numbers, lists, results, machine words and the arithmetic of bit masks.
--
-- How the code is represented. A machine word is a natural number. The release profile has
-- overflow checks on and panics abort, so a plain sum is the sum of naturals where it cannot
-- overflow, and checked_add and the wrap of a negative error code are written out. A pointer to a
-- TCB or an endpoint is its kernel address, 0 is null, and the memory behind pointers is a
-- function from addresses, one for TCBs and one for endpoints: objects have memory of their own,
-- which is the subject of Cap. A function that writes through pointers or statics takes the
-- machine and returns it. A call that may leave no task to run returns a Boolean beside the
-- machine, as in the code. The saved context stands first in its TCB, so the address of a task
-- stands for that of its context too.
--
-- Bounds. The loop of push_untypeds passes one reserved region in each round but the last, so it
-- is given one round more than there are reserved regions. The loop of pick_window has the 64
-- rounds of the source. The loops of parse_blob have as many rounds as the blob has bytes, and
-- one: each round moves the offset forward and reads inside the blob, so that is enough. The loop
-- of derive_pac_keys has 256 rounds, one for each value of its counter, a byte, whose overflow is
-- an outcome. The loops of irq::init have the rounds of the source. The other loops are recursion
-- on the lists, levels or pages they run through; map_range runs len / granule times, as len is a
-- multiple of the granule. The granule is any power of two that fits in a word (4096 and 16384
-- are the platforms').
--
-- Panics. Where a sum or an index of the code can fail at run time, its panic is an outcome of
-- the model: in parse_blob, in the derivation of keys, and in the sums with KERNEL_VA_OFFSET of
-- map_kernel_window and enable_paging, which overflow from 2 ^ 48 on. The other sums with that
-- offset are of frames that are mapped at their alias already, and for those of the boot window
-- kernel_main has one test in their place. The differences of addresses that the linker gives are
-- plain, as it orders them.
--
-- What parks the kernel is the answer `false` of k0_syscall; a panic of RETYPE counts as one. Log
-- messages on the console are left out, and the bytes that a task prints are kept in a list. The
-- words of user tables, the TCBs and the endpoints are views of one memory at different
-- addresses; RETYPE zeroes its granule in all of them. The address of the pool of kernel tables
-- is a parameter, as the linker places it. The answers of the AT instruction, the digest of the
-- root task image, SHA-256 and what device registers read are arguments of kernel_main; the bytes
-- that parse reads and the words that hold page tables are two of its arguments.
--
-- Not modelled: the drivers of console and timer, the CPU interface of the interrupt controller,
-- hardening, the jump to the higher half, the assembly of vectors and of the context switch, TLB
-- and cache maintenance, the test program in user space, and third-party crates.
mod Base
pub mod Abi
pub mod Cap
pub mod Task
pub mod Sched
pub mod Ipc
pub mod Mm
pub mod Kernel
pub mod Fdt
pub mod Irq
pub mod Boot
mod Examples
