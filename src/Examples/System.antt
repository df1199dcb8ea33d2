-- ===== src/Examples/System.antt =====
-- The task 1 of `Examples.Tasks` enters the kernel.
use k.Base.{◌≡◌, refl, arith, true, []}
use k.Sched.{exit_current, block_and_switch, enqueue, push_ready, pop_ready}
use k.Ipc.{abort_reply}
use k.Ipc.Safety.{IsSound}
use k.Mm.{virt}
use k.Kernel.{Build, Kernel}
use k.Kernel.Dispatch.{k0_syscall, sys_call_of, kill_current, k0_fault}
use k.Kernel.Tasks.{IsEnded}
use k.Kernel.Safety.{k0_syscall-IsSound, k0_fault-IsEnded}
use k.Examples.Tasks.{machine, lists, machine-Rep, lists-Sound}

abbrev build : Build
build = record { platform = virt; pool_base = 0x80000 }

abbrev pub kernel : Kernel
kernel = record {
  machine = machine;
  tables = λ _. 0;
  pool = record { tables = λ _ _. 0; used = 2; enabled = true; root1 = 1 };
  output = [];
}

-- Call number 48 is unknown, so the caller ends and the task 3 runs.
ends : (k0_syscall build kernel).1 ≡ true
unfolding k0_syscall sys_call_of kill_current exit_current block_and_switch pop_ready abort_reply
    enqueue push_ready
ends = refl

k0_syscall-IsSound_example : IsSound (k0_syscall build kernel).0.machine
k0_syscall-IsSound_example =
    k0_syscall-IsSound kernel (lists, machine-Rep, lists-Sound) build (ground arith) ends

k0_fault-IsEnded_example : IsEnded machine ((k0_fault kernel).0.machine, (k0_fault kernel).1)
k0_fault-IsEnded_example = k0_fault-IsEnded kernel (lists, machine-Rep, lists-Sound)
