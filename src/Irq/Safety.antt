-- ===== src/Irq/Safety.antt =====
-- crates/k0-arch/src/irq.rs: what an interrupt from a task does to the kernel.
use k.Base.{
  ℕ, ◌+◌, ◌≤◌, ◌≡◌, subst, sym, arith, ◌&&◌, bit_and, ltb, leb, ◌==◌, ◌∷◌, some, Bool-cases, ◌⊎◌,
  inl, inr,
}
use k.Base.Words.{word_size}
use k.Ipc.Safety.{IsSound}
use k.Mm.{Platform, virt, apple}
use k.Kernel.{Kernel}
use k.Kernel.Dispatch.{k0_preempt}
use k.Kernel.Safety.{k0_preempt-IsSound}
use k.Irq.{Irqs, timer_intid, dispatch_irq, irq_lower}

-- The timer has ticked, been completed once, and made way for the next task.
pub record IsTick (iar : ℕ) (q : Irqs) (k : Kernel) (q' : Irqs) (k' : Kernel) : Type 0 where
  pub from_timer : bit_and iar 0xFFFFFF ≡ timer_intid
  pub counted : q'.ticks ≡ q.ticks + 1
  pub completed : q'.eois ≡ iar ∷ q.eois
  pub preempted : k' ≡ k0_preempt k

-- Nothing was to do.
pub record IsSpurious (iar : ℕ) (q : Irqs) (k : Kernel) (q' : Irqs) (k' : Kernel) : Type 0 where
  pub reserved : (1020 ≤ bit_and iar 0xFFFFFF) × (bit_and iar 0xFFFFFF ≤ 1023)
  pub same : q' ≡ q
  pub kept : k' ≡ k

module _ (iar : ℕ) (q : Irqs) (k : Kernel) (q' : Irqs) (k' : Kernel) where
  irq_lower_cases :
      (p : Platform)
      → irq_lower p iar q k ≡ some (q', k')
      → IsTick iar q k q' k' ⊎ IsSpurious iar q k q' k'
  unfolding irq_lower dispatch_irq
  irq_lower_cases apple h = absurd (ground (arith, h))
  irq_lower_cases virt h = elim (Bool-cases (bit_and iar 0xFFFFFF == timer_intid)) [
    | inl timer ↦ elim (Bool-cases (ltb (q.ticks + 1) word_size)) [
      | inl counts ↦ inl (record {
        from_timer = ground arith;
        counted = ground (arith, h);
        completed = ground (arith, h);
        preempted = ground (arith, h);
      })
      | inr full ↦ absurd (ground (arith, h))
    ]
    | inr not_timer ↦
        elim (Bool-cases (leb 1020 (bit_and iar 0xFFFFFF) && leb (bit_and iar 0xFFFFFF) 1023)) [
          | inl spurious ↦ inr (record {
            reserved = (ground arith, ground arith);
            same = ground (arith, h);
            kept = ground (arith, h);
          })
          | inr other ↦ absurd (ground (arith, h))
        ]
  ]

  -- When irq_lower returns to user space, the machine is sound if it was. Either the interrupt was the timer's, which is
  -- counted and completed once and preempts the task, or it was a spurious one, and nothing has changed.
  pub irq_lower-IsSound :
      (p : Platform)
      → IsSound k.machine
      → irq_lower p iar q k ≡ some (q', k')
      → IsSound k'.machine × (IsTick iar q k q' k' ⊎ IsSpurious iar q k q' k')
  irq_lower-IsSound p s h =
      let cases = irq_lower_cases p h in
      (
        elim cases [
          | inl tick ↦ subst (λ n. IsSound n.machine) (sym tick.preempted) (k0_preempt-IsSound k s)
          | inr none_due ↦ subst (λ n. IsSound n.machine) (sym none_due.kept) s
        ],
        cases,
      )
