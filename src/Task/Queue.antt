-- ===== src/Task/Queue.antt =====
-- A chain of `next` links as the list of the tasks on it: what the two intrusive queues stand for.
use k.Base.{
  ℕ, ◌≡◌, ◌≢◌, refl, sym, ◌∙◌, subst, arith, Bool, true, false, ◌||◌, ◌==◌, if◌then◌else◌, List, [],
  ◌∷◌, ◌++◌,
}

abbrev pub has : ℕ → List ℕ → Bool
has a [] = false
has a (x ∷ xs) = (a == x) || has a xs

abbrev pub Distinct : List ℕ → Type 0
Distinct [] = Unit
Distinct (x ∷ xs) = (has x xs ≡ false) × Distinct xs

-- The tail pointer of a queue, 0 for an empty one.
abbrev pub last_of : List ℕ → ℕ
last_of [] = 0
last_of (x ∷ []) = x
last_of (x ∷ y ∷ ys) = last_of (y ∷ ys)

-- From `p` the links lead through the non-null addresses `xs`, and end in null.
abbrev pub IsChain : (next : ℕ → ℕ) → ℕ → List ℕ → Type 0
IsChain next p [] = p ≡ 0
IsChain next p (x ∷ xs) = (p ≡ x) × (x ≢ 0) × IsChain next (next x) xs

pub record IsQueue (next : ℕ → ℕ) (head tail : ℕ) (xs : List ℕ) : Type 0 where
  pub chain : IsChain next head xs
  pub last : tail ≡ last_of xs
  pub distinct : Distinct xs

pub has-append : (a : ℕ) (xs : List ℕ) (b : ℕ) → has a (xs ++ (b ∷ [])) ≡ (has a xs || (a == b))
has-append a [] b = ground arith
has-append a (x ∷ xs) b = ground (arith, has-append a xs b)

Distinct-append : (xs : List ℕ) (b : ℕ) → Distinct xs → has b xs ≡ false → Distinct (xs ++ (b ∷ []))
Distinct-append [] b d out = (refl, tt)
Distinct-append (x ∷ xs) b d out = ground (arith, has-append x xs b, Distinct-append xs b)

last_of-append : (xs : List ℕ) (b : ℕ) → last_of (xs ++ (b ∷ [])) ≡ b
last_of-append [] b = refl
last_of-append (x ∷ []) b = refl
last_of-append (x ∷ y ∷ ys) b = last_of-append (y ∷ ys) b

has-last_of : (x : ℕ) (xs : List ℕ) → has (last_of (x ∷ xs)) (x ∷ xs) ≡ true
has-last_of x [] = ground arith
has-last_of x (y ∷ ys) = ground (arith, has-last_of y ys)

IsChain-frame :
    (next next' : ℕ → ℕ) (p : ℕ) (xs : List ℕ)
    → IsChain next p xs
    → ((a : ℕ) → has a xs ≡ true → next' a ≡ next a)
    → IsChain next' p xs
IsChain-frame next next' p [] c same = c
IsChain-frame next next' p (x ∷ xs) c same = (
  c.0,
  c.1,
  subst (λ q. IsChain next' q xs) (sym (same x (ground arith)))
      (IsChain-frame next next' (next x) xs c.2 (λ a h. same a (ground arith))),
)

-- A queue survives writes to the links of other tasks.
pub IsQueue-frame :
    {next next' : ℕ → ℕ} {head tail : ℕ} {xs : List ℕ}
    → IsQueue next head tail xs
    → ((a : ℕ) → has a xs ≡ true → next' a ≡ next a)
    → IsQueue next' head tail xs
IsQueue-frame {next} {next'} {head} {xs} q same = record {
  chain = IsChain-frame next next' head xs q.chain same;
  last = q.last;
  distinct = q.distinct;
}

-- The write behind the last task of a chain.
IsChain-append :
    (next next' : ℕ → ℕ) (p x : ℕ) (xs : List ℕ) (b : ℕ)
    → IsChain next p (x ∷ xs)
    → Distinct (x ∷ xs)
    → b ≢ 0
    → next' b ≡ 0
    → next' (last_of (x ∷ xs)) ≡ b
    → ((a : ℕ) → has a (x ∷ xs) ≡ true → a ≢ last_of (x ∷ xs) → next' a ≡ next a)
    → IsChain next' p (x ∷ (xs ++ (b ∷ [])))
IsChain-append next next' p x [] b c d nz end tail same = (c.0, c.1, (tail, nz, end))
IsChain-append next next' p x (y ∷ ys) b c d nz end tail same = (
  c.0,
  c.1,
  subst (λ q. IsChain next' q (y ∷ (ys ++ (b ∷ [])))) (sym kept)
      (IsChain-append next next' (next x) y ys b c.2 d.1 nz end tail
        (λ a h ne. same a (ground arith) ne)),
)
  where
    inner : x ≢ last_of (y ∷ ys)
    inner e =
        let found : has x (y ∷ ys) ≡ true =
          subst (λ q. has q (y ∷ ys) ≡ true) (sym e) (has-last_of y ys) in
        ground arith

    kept : next' x ≡ next x
    kept = same x (ground arith) inner

last_of-nonzero :
    (next : ℕ → ℕ) (p x : ℕ) (xs : List ℕ) → IsChain next p (x ∷ xs) → last_of (x ∷ xs) ≢ 0
last_of-nonzero next p x [] c = c.1
last_of-nonzero next p x (y ∷ ys) c = last_of-nonzero next (next x) y ys c.2

-- `push`: the task goes to the end. The link behind the old tail is written if there is one.
pub IsQueue-push :
    {next next' : ℕ → ℕ} {head tail : ℕ} (xs : List ℕ) (b : ℕ)
    → IsQueue next head tail xs
    → has b xs ≡ false
    → b ≢ 0
    → next' b ≡ 0
    → (tail ≢ 0 → next' tail ≡ b)
    → ((a : ℕ) → a ≢ b → a ≢ tail → next' a ≡ next a)
    → IsQueue next' (if tail == 0 then b else head) b (xs ++ (b ∷ []))
IsQueue-push [] b q out nz end link same = record {
  chain = let e = q.last in rw e (refl, nz, end);
  last = refl;
  distinct = (refl, tt);
}
IsQueue-push {next} {next'} {head} {tail} (x ∷ xs) b q out nz end link same = record {
  chain =
      subst (λ p. IsChain next' p (x ∷ (xs ++ (b ∷ [])))) (sym kept)
        (IsChain-append next next' head x xs b q.chain q.distinct nz end
          (subst (λ t. next' t ≡ b) q.last (link nonzero))
          (λ a h ne. same a (ground arith) (let e = q.last in ground arith)));
  last = sym (last_of-append (x ∷ xs) b);
  distinct = Distinct-append (x ∷ xs) b q.distinct out;
}
  where
    nonzero : tail ≢ 0
    nonzero e = last_of-nonzero next head x xs q.chain (sym q.last ∙ e)

    kept : (if tail == 0 then b else head) ≡ head
    kept = let ne = nonzero in ground arith

-- `pop`: the first task leaves.
pub IsQueue-pop :
    {next next' : ℕ → ℕ} {head tail : ℕ} (x : ℕ) (xs : List ℕ)
    → IsQueue next head tail (x ∷ xs)
    → ((a : ℕ) → a ≢ x → next' a ≡ next a)
    → IsQueue next' (next x) (if next x == 0 then 0 else tail) xs
IsQueue-pop x [] q same = let e = q.chain.2 in record { chain = e; last = rw e; distinct = tt }
IsQueue-pop {next} {next'} {head} {tail} x (y ∷ ys) q same = record {
  chain = IsChain-frame next next' (next x) (y ∷ ys) q.chain.2 (λ a h. same a (ground arith));
  last = let c = q.chain.2 in let e = q.last in ground arith;
  distinct = q.distinct.1;
}

pub IsQueue-head_nil :
    {next : ℕ → ℕ} {head tail : ℕ} → IsQueue next head tail [] → (head == 0) ≡ true
IsQueue-head_nil q = let e = q.chain in ground arith

pub IsQueue-head_cons :
    {next : ℕ → ℕ} {head tail : ℕ} {x : ℕ} {xs : List ℕ}
    → IsQueue next head tail (x ∷ xs)
    → (head ≡ x) × ((head == 0) ≡ false)
IsQueue-head_cons q = let c = q.chain in ground arith

pub tail-has :
    {next : ℕ → ℕ} {head tail : ℕ} (xs : List ℕ)
    → IsQueue next head tail xs
    → tail ≢ 0
    → has tail xs ≡ true
tail-has [] q ne = absurd (ne q.last)
tail-has (x ∷ xs) q ne = subst (λ t. has t (x ∷ xs) ≡ true) (sym q.last) (has-last_of x xs)

pub zero-not_has : (next : ℕ → ℕ) (p : ℕ) (xs : List ℕ) → IsChain next p xs → has 0 xs ≡ false
zero-not_has next p [] c = refl
zero-not_has next p (x ∷ xs) c = ground (arith, zero-not_has next (next x) xs)

pub IsQueue-cast :
    {next : ℕ → ℕ} {head tail head' tail' : ℕ} {xs : List ℕ}
    → IsQueue next head tail xs
    → head' ≡ head
    → tail' ≡ tail
    → IsQueue next head' tail' xs
IsQueue-cast {next} {xs} q e f = record {
  chain = subst (λ h. IsChain next h xs) (sym e) q.chain;
  last = f ∙ q.last;
  distinct = q.distinct;
}
