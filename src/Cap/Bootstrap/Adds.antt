-- ===== src/Cap/Bootstrap/Adds.antt =====
-- What a CNode claims after capabilities have been pushed.
use k.Base.{
  ℕ, suc, ◌<◌, ◌≡◌, ◌≢◌, sym, subst, ap, ◌∙◌, ◌↔◌, ◌⊎◌, inl, inr, arith, Bool-cases, ◌==◌, ok,
}
use k.Cap.{CNode, Cap, push, cnode_slots}
use k.Cap.Apart.{IsApart, Claims, IsSized}

-- Some filled slot claims byte `k`.
abbrev pub Claimed : (granule : ℕ) → CNode → (k : ℕ) → Type 0
Claimed g cn k = (i : ℕ) × (i < cn.used) × Claims g (cn.slots i) k

-- `cn'` is a sound CNode that claims what `cn` claims, and the bytes of `P` besides.
pub record Adds (g : ℕ) (cn : CNode) (P : ℕ → Type 0) (cn' : CNode) : Type 0 where
  pub sound : IsApart g cn'
  pub kept : (k : ℕ) → Claimed g cn k → Claimed g cn' k
  pub added : (k : ℕ) → P k → Claimed g cn' k
  pub only : (k : ℕ) → Claimed g cn' k → Claimed g cn k ⊎ P k

module _ {g : ℕ} {cn : CNode} where
  pub Adds-none : {P : ℕ → Type 0} → IsApart g cn → ((k : ℕ) → ¬ P k) → Adds g cn P cn
  Adds-none a out = record {
    sound = a;
    kept = λ k c. c;
    added = λ k p. absurd (out k p);
    only = λ k c. inl c;
  }

  pub Adds-iff :
      {P Q : ℕ → Type 0} {cn' : CNode} → Adds g cn P cn' → ((k : ℕ) → P k ↔ Q k) → Adds g cn Q cn'
  Adds-iff a same = record {
    sound = a.sound;
    kept = a.kept;
    added = λ k q. a.added k ((same k).1 q);
    only = λ k c. elim (a.only k c) [ inl c ↦ inl c | inr p ↦ inr ((same k).0 p) ];
  }

  pub Adds-trans :
      {P Q R : ℕ → Type 0} {mid cn' : CNode}
      → Adds g cn P mid
      → Adds g mid Q cn'
      → ((k : ℕ) → R k ↔ (P k ⊎ Q k))
      → Adds g cn R cn'
  Adds-trans a b split = record {
    sound = b.sound;
    kept = λ k c. b.kept k (a.kept k c);
    added = λ k r. elim ((split k).0 r) [ inl p ↦ b.kept k (a.added k p) | inr q ↦ b.added k q ];
    only = λ k c. elim (b.only k c) [
      | inl m ↦ elim (a.only k m) [ inl c ↦ inl c | inr p ↦ inr ((split k).1 (inl p)) ]
      | inr q ↦ inr ((split k).1 (inr q))
    ];
  }

module _ (g : ℕ) (cn : CNode) (c : Cap) {cn' : CNode} (pushed : push cn c ≡ ok cn') where
  push_room : cn.used ≢ cnode_slots
  unfolding push
  push_room = ground arith

  push_used : cn'.used ≡ suc cn.used
  unfolding push
  push_used = ground arith

  push_made : cn'.slots cn.used ≡ c
  unfolding push
  push_made = ground arith

  push_others : (i : ℕ) → i ≢ cn.used → cn'.slots i ≡ cn.slots i
  unfolding push
  push_others i ne = ground arith

  -- A claim afterwards is the new capability's, or was there before.
  push_origin :
      (i k : ℕ)
      → i < cn'.used
      → Claims g (cn'.slots i) k
      → ((i ≡ cn.used) × Claims g c k) ⊎ ((i < cn.used) × Claims g (cn.slots i) k)
  push_origin i k lt h = elim (Bool-cases (i == cn.used)) [
    | inl new ↦
        let e : i ≡ cn.used = ground arith in
        inl (e, subst (λ d. Claims g d k) (ap cn'.slots e ∙ push_made) h)
    | inr old ↦
        let ne : i ≢ cn.used = ground arith in
        inr (omega (arith, push_used, ne), subst (λ d. Claims g d k) (push_others i ne) h)
  ]

  push-IsSized : IsApart g cn → IsSized c → (i : ℕ) → i < cn'.used → IsSized (cn'.slots i)
  push-IsSized a sized i lt = elim (Bool-cases (i == cn.used)) [
    | inl new ↦
        let e : i ≡ cn.used = ground arith in subst IsSized (sym (ap cn'.slots e ∙ push_made)) sized
    | inr old ↦
        let ne : i ≢ cn.used = ground arith in
        subst IsSized (sym (push_others i ne)) (a.sized i (omega (arith, push_used, ne)))
  ]

  push_separate :
      IsApart g cn
      → ((k : ℕ) → Claims g c k → ¬ Claimed g cn k)
      → (i j k : ℕ) → i < cn'.used
      → j < cn'.used
      → Claims g (cn'.slots i) k
      → Claims g (cn'.slots j) k
      → i ≡ j
  push_separate a free i j k li lj ci cj = elim (push_origin i k li ci) [
    | inl (ei, hi) ↦ elim (push_origin j k lj cj) [
      | inl (ej, hj) ↦ ei ∙ sym ej
      | inr hj ↦ absurd (free k hi (j, hj.0, hj.1))
    ]
    | inr hi ↦ elim (push_origin j k lj cj) [
      | inl (ej, hj) ↦ absurd (free k hj (i, hi.0, hi.1))
      | inr hj ↦ a.separate i j k hi.0 hj.0 hi.1 hj.1
    ]
  ]

  -- Pushing a capability whose bytes nobody claims.
  pub push-Adds :
      IsApart g cn
      → IsSized c
      → ((k : ℕ) → Claims g c k → ¬ Claimed g cn k)
      → Adds g cn (Claims g c) cn'
  push-Adds a sized free = record {
    sound = record {
      capacity = let ne = push_room in omega (arith, a.capacity, ne, push_used);
      sized = push-IsSized a sized;
      separate = push_separate a free;
    };
    kept = λ k (i, lt, cl). (
      i,
      omega (arith, push_used, lt),
      subst (λ d. Claims g d k) (sym (push_others i (omega arith))) cl,
    );
    added =
        λ k cl. (cn.used, omega (arith, push_used), subst (λ d. Claims g d k) (sym push_made) cl);
    only = λ k (i, lt, cl). elim (push_origin i k lt cl) [
      | inl (e, h) ↦ inr h
      | inr h ↦ inl (i, h.0, h.1)
    ];
  }
