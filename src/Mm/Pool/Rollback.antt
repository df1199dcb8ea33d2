-- ===== src/Mm/Pool/Rollback.antt =====
-- A mapping of a kernel page that fails leaves the pool of tables as it was.
use k.Base.{
  ℕ, zero, suc, ◌-◌, ◌≡◌, refl, ◌∙◌, arith, Bool, false, ◌&&◌, ◌||◌, ◌==◌, if◌then◌else◌, [], ◌∷◌,
  ◌++◌, ok, err, Bool-cases, inl, inr,
}
use k.Mm.{Platform, MmuError, index}
use k.Mm.Pool.{
  Pool, set_entry, alloc, pool_len, Links, Step, link, next_table, and_then, descend, set_leaf,
  unlink, settle, map_page,
}

-- Entry `idx` of table `t` is one of the links.
abbrev hit : (t idx : ℕ) → Links → Bool
hit t idx [] = false
hit t idx ((t', idx') ∷ links) = ((t == t') && (idx == idx')) || hit t idx links

hit-append :
    (t idx : ℕ) (links : Links) (t' idx' : ℕ)
    → hit t idx (links ++ ((t', idx') ∷ [])) ≡ (hit t idx links || ((t == t') && (idx == idx')))
hit-append t idx [] t' idx' = ground arith
hit-append t idx ((u, j) ∷ links) t' idx' = ground (arith, hit-append t idx links t' idx')

-- Equal but for the number of tables in use.
pub record SamePool (old new : Pool) : Type 0 where
  pub tables : (t idx : ℕ) → new.tables t idx ≡ old.tables t idx
  pub enabled : new.enabled ≡ old.enabled
  pub root1 : new.root1 ≡ old.root1

-- Without its links `new` is the pool `old`.
record Undoes (old new : Pool) (links : Links) : Type 0 where
  pub tables : (t idx : ℕ) → (if hit t idx links then 0 else new.tables t idx) ≡ old.tables t idx
  pub enabled : new.enabled ≡ old.enabled
  pub root1 : new.root1 ≡ old.root1

unlink-entry :
    (pool : Pool) (links : Links) (t idx : ℕ)
    → (unlink pool links).tables t idx ≡ (if hit t idx links then 0 else pool.tables t idx)
unfolding unlink
unlink-entry pool [] t idx = refl
unlink-entry pool ((u, j) ∷ links) t idx =
    ground (arith, unlink-entry (set_entry pool u j 0) links t idx)

unlink-flags :
    (pool : Pool) (links : Links)
    → ((unlink pool links).enabled ≡ pool.enabled) × ((unlink pool links).root1 ≡ pool.root1)
unfolding unlink
unlink-flags pool [] = (refl, refl)
unlink-flags pool ((u, j) ∷ links) = unlink-flags (set_entry pool u j 0) links

undone :
    {old : Pool} (pool : Pool) (links : Links) {n : ℕ}
    → Undoes old pool links
    → SamePool old (record (unlink pool links) { used = n })
undone pool links u =
    let f = unlink-flags pool links in
    record {
      tables = λ t idx. unlink-entry pool links t idx ∙ u.tables t idx;
      enabled = f.0 ∙ u.enabled;
      root1 = f.1 ∙ u.root1;
    }

abbrev Kept : Pool → Step → Type 0
Kept old (pool, links, r) = Undoes old pool links

link-Kept :
    (p : Platform) (base : ℕ) (old pool : Pool) (links : Links) (t idx : ℕ)
    → Undoes old pool links
    → pool.tables t idx ≡ 0
    → Kept old (link p base pool links t idx (alloc pool))
unfolding alloc
link-Kept p base old pool links t idx u free = elim (Bool-cases (pool.used == pool_len)) [
  | inl full ↦ rw full u
  | inr room ↦ rw room record {
    tables = λ s j. ground (arith, u.tables s j, u.tables t idx, hit-append s j links t idx);
    enabled = u.enabled;
    root1 = u.root1;
  }
]

next-Kept :
    (p : Platform) (base : ℕ) (old pool : Pool) (links : Links) (t idx : ℕ)
    → Undoes old pool links
    → Kept old (next_table p base pool links t idx)
unfolding next_table
next-Kept p base old pool links t idx u = elim (Bool-cases (pool.tables t idx == 0)) [
  | inl free ↦ rw free (link-Kept p base old pool links t idx u (ground arith))
  | inr used ↦ rw used u
]

module _ (p : Platform) (base va : ℕ) (old : Pool) where
  descend-Kept :
      (left : ℕ) (pool : Pool) (links : Links) (t : ℕ)
      → Undoes old pool links
      → Kept old (descend p base va left pool links t)
  unfolding descend
  descend-Kept zero pool links t u = u
  descend-Kept (suc left) pool links t u =
      and_then-Kept left (next_table p base pool links t (index p va (2 - left)))
        (next-Kept p base old pool links t (index p va (2 - left)) u)
        (λ pool' links' t' k. descend-Kept left pool' links' t' k)
    where
      and_then-Kept :
          (n : ℕ) (s : Step)
          → Kept old s
          → ((pool : Pool) (links : Links) (t : ℕ)
              → Undoes old pool links
              → Kept old (descend p base va n pool links t))
          → Kept old (and_then s (descend p base va n))
      and_then-Kept n (pool', links', err e) k rest = k
      and_then-Kept n (pool', links', ok t') k rest = rest pool' links' t' k

module _ (p : Platform) (base va pa attributes : ℕ) (old : Pool) where
  settle-Kept :
      (s : Step) (e : MmuError)
      → Kept old s
      → (settle old.used (set_leaf p va pa attributes s)).1 ≡ err e
      → let new = (settle old.used (set_leaf p va pa attributes s)).0 in
        SamePool old new × (new.used ≡ old.used)
  settle-Kept (pool, links, err e') e k h = (undone pool links k, refl)
  settle-Kept (pool, links, ok t) e k h = elim (Bool-cases (pool.tables t (index p va 3) == 0)) [
    | inl free ↦ absurd (ground arith)
    | inr used ↦ rw used (undone pool links k, refl)
  ]

  -- `map_page`: when a mapping fails, every table entry, the number of tables in use and the flags of
  -- the pool are as they were, whatever tables the walk had linked.
  pub map_page-unchanged :
      (root : ℕ) (e : MmuError)
      → (map_page p base old root va pa attributes).1 ≡ err e
      → let new = (map_page p base old root va pa attributes).0 in
        SamePool old new × (new.used ≡ old.used)
  unfolding map_page
  map_page-unchanged root e h =
      settle-Kept (descend p base va 3 old [] root) e
        (descend-Kept p base va old 3 old [] root
          record { tables = λ t i. refl; enabled = refl; root1 = refl })
        h
