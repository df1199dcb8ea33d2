-- ===== src/Irq/Ready.antt =====
-- crates/k0-arch/src/irq.rs: when the interrupt controller gets ready.
use k.Base.{ℕ, zero, suc, ◌+◌, ◌≤◌, ◌<◌, ◌≡◌, ◌↔◌, arith, true, Bool-cases, inl, inr, ok}
use k.Mm.{virt}
use k.Irq.{poll_limit, is_clear, poll, gic_init, init}

-- One of the reads from number `from` on, before number `to`, finds the bit clear.
abbrev pub Clears : (reads : ℕ → ℕ) → (bit from to : ℕ) → Type 0
Clears reads bit from to = (k : ℕ) × (from ≤ k) × (k < to) × (is_clear bit (reads k) ≡ true)

poll-Clears :
    (reads : ℕ → ℕ) (bit left n : ℕ) → poll reads bit left n ≡ true → Clears reads bit n (n + left)
unfolding poll
poll-Clears reads bit zero n h = absurd (cc)
poll-Clears reads bit (suc left) n h = elim (Bool-cases (is_clear bit (reads n))) [
  | inl clear ↦ (n, omega arith, omega arith, clear)
  | inr held ↦
      let (k, from, to, clear) = poll-Clears reads bit left (n + 1) (ground (arith, h)) in
      (k, omega arith, omega arith, clear)
]

Clears-poll :
    (reads : ℕ → ℕ) (bit left n : ℕ) → Clears reads bit n (n + left) → poll reads bit left n ≡ true
unfolding poll
Clears-poll reads bit zero n (k, from, to, clear) = absurd (omega arith)
Clears-poll reads bit (suc left) n (k, from, to, clear) =
    elim (Bool-cases (is_clear bit (reads n))) [
      | inl at_once ↦ ground arith
      | inr held ↦
          let later = Clears-poll reads bit left (n + 1) (k, ground arith, omega arith, clear) in
          ground (arith, later)
    ]

-- On QEMU virt the set-up of the interrupt controller succeeds exactly when one of the first 1,000,001 reads of GICD_CTLR and one
-- of the 1,000,001 reads of GICR_WAKER after the first find their bits clear.
pub init-Clears :
    (ctlr waker : ℕ → ℕ)
    → ((init virt ctlr waker).1 ≡ ok tt)
      ↔ (Clears ctlr 31 0 (poll_limit + 1) × Clears waker 2 1 (poll_limit + 2))
unfolding init gic_init
init-Clears ctlr waker = (
  λ h. elim (Bool-cases (poll ctlr 31 (poll_limit + 1) 0)) [
    | inr late ↦ absurd (ground (arith, h))
    | inl routed ↦ elim (Bool-cases (poll waker 2 (poll_limit + 1) 1)) [
      | inr late ↦ absurd (ground (arith, h))
      | inl woken ↦ (
        poll-Clears ctlr 31 (poll_limit + 1) 0 routed,
        poll-Clears waker 2 (poll_limit + 1) 1 woken,
      )
    ]
  ],
  λ (routed, woken).
      let a = Clears-poll ctlr 31 (poll_limit + 1) 0 routed in
      let b = Clears-poll waker 2 (poll_limit + 1) 1 woken in ground (arith, a, b),
)
