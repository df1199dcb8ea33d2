-- ===== src/Irq.antt =====
-- crates/k0-arch/src/irq.rs: the set-up of the interrupt controller, and the dispatch of interrupts. What the device
-- registers answer is an argument.
pub mod Ready
pub mod Safety
use k.Base.{
  ℕ, zero, suc, ◌+◌, ◌-◌, ◌^◌, Bool, true, false, ◌&&◌, bit_and, bit_or, ltb, leb, ◌==◌,
  if◌then◌else◌, List, [], ◌∷◌, ◌++◌, Option, none, some, Result, ok, err,
}
use k.Base.Words.{word_size}
use k.Abi.{kernel_va_offset}
use k.Mm.{Platform, virt, apple}
use k.Kernel.{Kernel}
use k.Kernel.Dispatch.{k0_preempt}

pub data IrqError : Type 0 where
  gic_rwp_timeout gic_wake_timeout : IrqError

abbrev pub timer_intid : ℕ
timer_intid = 30

abbrev pub gicd_base : ℕ
gicd_base = 0x08000000

abbrev pub gicd_size : ℕ
gicd_size = 0x10000

abbrev pub gicr_base : ℕ
gicr_base = 0x080A0000

abbrev pub gicr_size : ℕ
gicr_size = 0x20000

abbrev pub gicd_ctlr : ℕ
gicd_ctlr = gicd_base + kernel_va_offset

abbrev pub gicr_waker : ℕ
gicr_waker = gicr_base + kernel_va_offset + 0x14

abbrev pub sgi_base : ℕ
sgi_base = gicr_base + kernel_va_offset + 0x10000

abbrev pub gicr_igroupr0 : ℕ
gicr_igroupr0 = sgi_base + 0x80

abbrev pub gicr_isenabler0 : ℕ
gicr_isenabler0 = sgi_base + 0x100

abbrev pub poll_limit : ℕ
poll_limit = 1000000

abbrev pub is_clear : (bit value : ℕ) → Bool
is_clear bit value = bit_and value (2 ^ bit) == 0

-- A polling loop with `left` reads left, from read number `n` on; `false` is the timeout.
unfoldable pub poll : (reads : ℕ → ℕ) → (bit left n : ℕ) → Bool
poll reads bit zero n = false
poll reads bit (suc left) n = elim (is_clear bit (reads n)) [
  | true ↦ true
  | false ↦ poll reads bit left (n + 1)
]

-- The writes to registers, in order, and the result.
abbrev pub Setting : Type 0
Setting = List (ℕ × ℕ) × Result IrqError (Unit {0})

-- `gicv3::init`: read number n of GICD_CTLR gives `ctlr n`, and read number n of GICR_WAKER `waker n`.
unfoldable pub gic_init : (ctlr waker : ℕ → ℕ) → Setting
gic_init ctlr waker =
    let routed = (gicd_ctlr, bit_or (2 ^ 4) (2 ^ 1)) ∷ [] in
    let woken = routed ++ ((gicr_waker, bit_and (waker 0) (2 ^ 32 - 1 - 2 ^ 1)) ∷ []) in
    if poll ctlr 31 (poll_limit + 1) 0
    then if poll waker 2 (poll_limit + 1) 1
      then (woken ++ ((gicr_igroupr0, 0xFFFFFFFF) ∷ (gicr_isenabler0, 2 ^ timer_intid) ∷ []), ok tt)
      else (woken, err gic_wake_timeout)
    else (routed, err gic_rwp_timeout)

-- `init`
unfoldable pub init : Platform → (ctlr waker : ℕ → ℕ) → Setting
init virt ctlr waker = gic_init ctlr waker
init apple ctlr waker = ([], ok tt)

-- `TICKS`, and the completions that the controller has been told, the last first.
pub record Irqs : Type 0 where
  pub ticks : ℕ
  pub eois : List ℕ

-- `none` stops the processor.
abbrev pub timer_tick : Irqs → Option Irqs
timer_tick q = if ltb (q.ticks + 1) word_size then some (record q { ticks = q.ticks + 1 }) else none

abbrev pub tick_done : (iar : ℕ) → Option Irqs → Option (Irqs × Bool)
tick_done iar none = none
tick_done iar (some q) = some (record q { eois = iar ∷ q.eois }, true)

-- `iar` is what the controller acknowledges; the answer is that the timer has ticked.
unfoldable pub dispatch_irq : Platform → (iar : ℕ) → Irqs → Option (Irqs × Bool)
dispatch_irq apple iar q = none
dispatch_irq virt iar q =
    let id = bit_and iar 0xFFFFFF in
    if id == timer_intid
    then tick_done iar (timer_tick q)
    else if leb 1020 id && leb id 1023
    then some (q, false)
    else none

abbrev pub ticked : Option Irqs → Option (Irqs × Bool)
ticked none = none
ticked (some q) = some (q, true)

-- `pending` is `timer_pending`.
unfoldable pub dispatch_fiq : Platform → (pending : Bool) → Irqs → Option (Irqs × Bool)
dispatch_fiq virt pending q = none
dispatch_fiq apple true q = ticked (timer_tick q)
dispatch_fiq apple false q = none

abbrev pub preempting : Kernel → Option (Irqs × Bool) → Option (Irqs × Kernel)
preempting k none = none
preempting k (some (q, tick)) = some (q, if tick then k0_preempt k else k)

unfoldable pub irq_lower : Platform → (iar : ℕ) → Irqs → Kernel → Option (Irqs × Kernel)
irq_lower p iar q k = preempting k (dispatch_irq p iar q)

unfoldable pub fiq_lower : Platform → (pending : Bool) → Irqs → Kernel → Option (Irqs × Kernel)
fiq_lower p pending q k = preempting k (dispatch_fiq p pending q)

abbrev pub not_preempting : Kernel → Option (Irqs × Bool) → Option (Irqs × Kernel)
not_preempting k none = none
not_preempting k (some (q, tick)) = some (q, k)

unfoldable pub irq_current : Platform → (iar : ℕ) → Irqs → Kernel → Option (Irqs × Kernel)
irq_current p iar q k = not_preempting k (dispatch_irq p iar q)

unfoldable pub fiq_current : Platform → (pending : Bool) → Irqs → Kernel → Option (Irqs × Kernel)
fiq_current p pending q k = not_preempting k (dispatch_fiq p pending q)
