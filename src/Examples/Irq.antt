-- ===== src/Examples/Irq.antt =====
-- A tick of the timer, a controller that is ready, and keys.
use k.Base.{◌+◌, ◌≡◌, ◌↔◌, ◌⊎◌, refl, ok, some, [], ◌∷◌}
use k.Ipc.Safety.{IsSound}
use k.Mm.{virt}
use k.Kernel.Dispatch.{k0_preempt}
use k.Irq.{Irqs, poll_limit, init, dispatch_irq, irq_lower}
use k.Irq.Ready.{Clears, init-Clears}
use k.Irq.Safety.{IsTick, IsSpurious, irq_lower-IsSound}
use k.Boot.Keys.{derive_pac_keys, ten_words, derive_pac_keys-words}
use k.Examples.Tasks.{lists, machine-Rep, lists-Sound}
use k.Examples.System.{kernel}
use k.Examples.Main.{repeat_zero, zeros_length}

abbrev before : Irqs
before = record { ticks = 4; eois = [] }

abbrev after : Irqs
after = record { ticks = 5; eois = 30 ∷ [] }

ticks : irq_lower virt 30 before kernel ≡ some (after, k0_preempt kernel)
unfolding irq_lower dispatch_irq
ticks = refl

irq_lower-IsSound_example :
    IsSound (k0_preempt kernel).machine
    × (IsTick 30 before kernel after (k0_preempt kernel)
        ⊎ IsSpurious 30 before kernel after (k0_preempt kernel))
irq_lower-IsSound_example =
    irq_lower-IsSound 30 before kernel after (k0_preempt kernel) virt
      (lists, machine-Rep, lists-Sound) ticks

init-Clears_example :
    ((init virt (λ n. 0) (λ n. 2)).1 ≡ ok tt)
    ↔ (Clears (λ n. 0) 31 0 (poll_limit + 1) × Clears (λ n. 2) 2 1 (poll_limit + 2))
init-Clears_example = init-Clears (λ n. 0) (λ n. 2)

derive_pac_keys-words_example :
    derive_pac_keys (λ _. repeat_zero 32) (7 ∷ []) (1 ∷ 0 ∷ [])
    ≡ some (ten_words (λ counter. repeat_zero 32))
derive_pac_keys-words_example =
    derive_pac_keys-words (λ _. repeat_zero 32) (7 ∷ []) (1 ∷ 0 ∷ []) (λ _. zeros_length)
