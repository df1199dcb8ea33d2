-- ===== src/Examples/Calls.antt =====
-- The calls of the task 1 on the tasks of `Examples.Tasks`.
use k.Base.{◌≡◌, refl, arith, true}
use k.Task.{ep_push, ep_pop}
use k.Sched.{rotate, block_and_switch, exit_current, enqueue, push_ready, pop_ready}
use k.Sched.Spec.{Rep, s_rotate, s_block_and_switch, s_exit_current}
use k.Sched.Refine.{Switched, rotate-Rep, block_and_switch-Rep, exit_current-Rep}
use k.Ipc.{
  send_on, recv_on, call_on, reply_recv_on, wants_nonblock, pop_waiter, wait_on, recv_inner,
  deliver_to, abort_reply, reply, call_now,
}
use k.Ipc.Spec.{s_send, s_recv, s_call, s_reply_recv}
use k.Ipc.Refine.{send_on-Rep, recv_on-Rep, call_on-Rep, reply_recv_on-Rep}
use k.Ipc.{reg, receiver_waits}
use k.Ipc.Delivery.{Delivered, send_on-Delivered, reply-Delivered}
use k.Ipc.Safety.{IsSound, send_on-IsSound, recv_on-IsSound, call_on-IsSound, reply_recv_on-IsSound}
use k.Examples.Tasks.{machine, lists, machine-Rep, lists-Sound}

rotate-Rep_example : Rep (rotate machine) (s_rotate lists)
rotate-Rep_example = rotate-Rep machine-Rep (ground arith) refl

block_and_switch-Rep_example : Switched (block_and_switch machine) (s_block_and_switch lists)
block_and_switch-Rep_example = block_and_switch-Rep machine-Rep

exit_current-Rep_example : Switched (exit_current machine) (s_exit_current lists)
exit_current-Rep_example = exit_current-Rep machine-Rep

send_on-Rep_example : Switched (send_on machine 1 9) (s_send lists 1 9 (wants_nonblock machine 1))
send_on-Rep_example = send_on-Rep lists-Sound machine-Rep 1 9

sends : (send_on machine 1 9).1 ≡ true
unfolding send_on
sends = refl

send_on-IsSound_example : IsSound (send_on machine 1 9).0
send_on-IsSound_example = send_on-IsSound machine 1 9 (lists, machine-Rep, lists-Sound) sends

recv_on-Rep_example : Switched (recv_on machine 1 9) (s_recv lists 1 9 (wants_nonblock machine 1))
recv_on-Rep_example = recv_on-Rep lists-Sound machine-Rep 1 9

call_on-Rep_example : Switched (call_on machine 1 9) (s_call lists 1 9 (wants_nonblock machine 1))
call_on-Rep_example = call_on-Rep lists-Sound machine-Rep 1 9

reply_recv_on-Rep_example :
    Switched (reply_recv_on machine 1 9) (s_reply_recv lists 1 9 (wants_nonblock machine 1))
reply_recv_on-Rep_example = reply_recv_on-Rep lists-Sound machine-Rep 1 9

receives : (recv_on machine 1 9).1 ≡ true
unfolding recv_on recv_inner block_and_switch wait_on pop_ready ep_push
receives = refl

recv_on-IsSound_example : IsSound (recv_on machine 1 9).0
recv_on-IsSound_example = recv_on-IsSound machine 1 9 (lists, machine-Rep, lists-Sound) receives

calls : (call_on machine 1 9).1 ≡ true
unfolding call_on block_and_switch call_now pop_ready pop_waiter enqueue push_ready abort_reply
    deliver_to ep_pop
calls = refl

call_on-IsSound_example : IsSound (call_on machine 1 9).0
call_on-IsSound_example = call_on-IsSound machine 1 9 (lists, machine-Rep, lists-Sound) calls

replies : (reply_recv_on machine 1 9).1 ≡ true
unfolding reply_recv_on reply recv_inner block_and_switch wait_on pop_ready ep_push enqueue
    push_ready deliver_to
replies = refl

reply_recv_on-IsSound_example : IsSound (reply_recv_on machine 1 9).0
reply_recv_on-IsSound_example =
    reply_recv_on-IsSound machine 1 9 (lists, machine-Rep, lists-Sound) replies

receiver_there : receiver_waits machine 9 ≡ true
receiver_there = refl

send_on-Delivered_example :
    Delivered machine (send_on machine 1 9).0 1 2
    × (reg (send_on machine 1 9).0 1 0 ≡ 0)
    × ((send_on machine 1 9).1 ≡ true)
send_on-Delivered_example =
    send_on-Delivered machine 9 (lists, machine-Rep, lists-Sound) receiver_there

reply-Delivered_example :
    Delivered machine (reply machine 1) 1 4 × (reply (reply machine 1) 1 ≡ reply machine 1)
reply-Delivered_example = reply-Delivered machine (ground arith)
