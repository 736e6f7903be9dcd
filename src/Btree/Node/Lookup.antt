-- ===== src/Btree/Node/Lookup.antt =====
-- The search of a key in a leaf of src/benchmarks/btree/btree1.c, on arrays: what it gives on sorted
-- keys, after an insertion, and in the two parts of a split.
use elastic_translations_mic.Prelude.{
  ℕ, suc, ◌+◌, ◌-◌, ◌≤◌, ◌<◌, ◌≡◌, ◌≢◌, ◌⊎◌, refl, subst, false, not, ◌∙◌, sym, inl, inr, arith,
  ltb, ◌==◌, if◌then◌else◌, Bool-cases, eq_of_==,
}
use elastic_translations_mic.Btree.Node.Defs.{Node, null, scan, find_in_leaf, insertion_point}
use elastic_translations_mic.Btree.Node.Scan.{scan-le, scan-passed, scan-stopped, inserted}

-- The first `n` keys rise.
abbrev pub IsSorted : (ℕ → ℕ) → ℕ → Type 0
IsSorted keys n = (i j : ℕ) → i < j → j < n → keys i < keys j

abbrev pub IsAbsent : (ℕ → ℕ) → ℕ → ℕ → Type 0
IsAbsent keys n k = (i : ℕ) → i < n → keys i ≢ k

-- Under the key `k` stands `v`, or nothing and `v` is NULL.
abbrev pub Finds : (ℕ → ℕ) → (ℕ → ℕ) → ℕ → ℕ → ℕ → Type 0
Finds keys pointers n k v =
    ((i : ℕ) × ((i < n) × ((keys i ≡ k) × (pointers i ≡ v)))) ⊎ (IsAbsent keys n k × (v ≡ null))

-- What the key stands at, after the pair (key, pointer) has come in.
abbrev pub put : ℕ → ℕ → ℕ → ℕ → ℕ
put key pointer k v = if k == key then pointer else v

find_in : (ℕ → ℕ) → (ℕ → ℕ) → ℕ → ℕ → ℕ
find_in keys pointers n k =
    let i = scan (λ j. not (keys j == k)) 0 n in if i == n then null else pointers i

find_in_lem :
    (leaf : Node) (k : ℕ) → find_in_leaf leaf k ≡ find_in leaf.keys leaf.pointers leaf.num_keys k
unfolding find_in find_in_leaf
find_in_lem leaf k = refl

-- The search finds what is there.
pub find-Finds :
    (leaf : Node) (k : ℕ) → Finds leaf.keys leaf.pointers leaf.num_keys k (find_in_leaf leaf k)
unfolding find_in_leaf
find-Finds leaf k =
    let i = scan (λ j. not (leaf.keys j == k)) 0 leaf.num_keys in
    let b = scan-le (λ j. not (leaf.keys j == k)) 0 leaf.num_keys in
    elim (Bool-cases (i == leaf.num_keys)) [
      | inl e ↦ rw e (
          inr (
            λ j lt. ground (arith, e, scan-passed (λ j. not (leaf.keys j == k)) 0 leaf.num_keys j),
            refl,
          ))
      | inr e ↦ rw e (
          inl (
            i,
            (
              ground (arith, e, b),
              (
                ground (arith, e, b, scan-stopped (λ j. not (leaf.keys j == k)) 0 leaf.num_keys),
                refl,
              ),
            ),
          ))
    ]

-- On sorted keys what is there is unique.
pub Finds-unique :
    (keys pointers : ℕ → ℕ) (n k v w : ℕ)
    → IsSorted keys n
    → Finds keys pointers n k v
    → Finds keys pointers n k w
    → v ≡ w
Finds-unique keys pointers n k v w s (inl (i, (a, (b, c)))) (inl (j, (d, (e, f)))) =
    elim (Bool-cases (i == j)) [
      | inl q ↦ sym c ∙ subst (λ x. pointers x ≡ w) (sym (eq_of_== i j q)) f
      | inr q ↦ ground (arith, s i j, s j i)
    ]
Finds-unique keys pointers n k v w s (inl (i, (a, (b, c)))) (inr (g, e)) = ground (arith, g i)
Finds-unique keys pointers n k v w s (inr (g, e)) (inl (i, (a, (b, c)))) = ground (arith, g i)
Finds-unique keys pointers n k v w s (inr (g, e)) (inr (h, f)) = e ∙ sym f

pub find_unique :
    (leaf : Node) (k v : ℕ)
    → IsSorted leaf.keys leaf.num_keys
    → Finds leaf.keys leaf.pointers leaf.num_keys k v
    → find_in_leaf leaf k ≡ v
find_unique leaf k v s f =
    Finds-unique leaf.keys leaf.pointers leaf.num_keys k (find_in_leaf leaf k) v s
      (find-Finds leaf k) f

-- Only the elements in bounds count.
pub Finds-ext :
    (a b a' b' : ℕ → ℕ) (n k v : ℕ)
    → ((j : ℕ) → j < n → (a' j ≡ a j) × (b' j ≡ b j))
    → Finds a b n k v
    → Finds a' b' n k v
Finds-ext a b a' b' n k v e (inl (i, (h, (p, q)))) = inl (i, (h, ((e i h).0 ∙ p, (e i h).1 ∙ q)))
Finds-ext a b a' b' n k v e (inr (g, q)) = inr (λ i h. ground (arith, g i h, (e i h).0), q)

pub IsSorted-ext :
    (a a' : ℕ → ℕ) (n : ℕ) → ((j : ℕ) → j < n → a' j ≡ a j) → IsSorted a n → IsSorted a' n
IsSorted-ext a a' n e s i j h k = omega (arith, s i j h k, e i, e j)

-- `p` is the place of `key` among the first `n` keys.
pub record IsPlace (keys : ℕ → ℕ) (n p key : ℕ) : Type 0 where
  pub in_bounds : p ≤ n
  pub below : (j : ℕ) → j < p → keys j < key
  pub above : (j : ℕ) → p ≤ j → j < n → key < keys j

pub insertion_point-IsPlace :
    (leaf : Node) (key bound : ℕ)
    → IsSorted leaf.keys bound
    → IsAbsent leaf.keys bound key
    → IsPlace leaf.keys bound (insertion_point leaf key bound) key
unfolding insertion_point
insertion_point-IsPlace leaf key bound s g =
    let t = λ (j : ℕ). ltb (leaf.keys j) key in
    let p = scan t 0 bound in
    let b = scan-le t 0 bound in
    record {
      in_bounds = omega (arith, b);
      below = λ j h. ground (arith, scan-passed t 0 bound j (omega arith) h);
      above = λ j h l. ground (arith, scan-stopped t 0 bound, g p, s p j);
    }

inserted_before : (a : ℕ → ℕ) (p v j : ℕ) → j < p → inserted a p v j ≡ a j
unfolding inserted
inserted_before a p v j h = ground arith

inserted_here : (a : ℕ → ℕ) (p v : ℕ) → inserted a p v p ≡ v
unfolding inserted
inserted_here a p v = ground arith

inserted_after : (a : ℕ → ℕ) (p v j : ℕ) → p ≤ j → inserted a p v (suc j) ≡ a j
unfolding inserted
inserted_after a p v j h = ground arith

module _ {keys : ℕ → ℕ} {n p key : ℕ} (place : IsPlace keys n p key) where
  pub inserted-IsSorted : IsSorted keys n → IsSorted (inserted keys p key) (suc n)
  unfolding inserted
  inserted-IsSorted s i j h l = ground (
    arith,
    s i j,
    s (i - 1) (j - 1),
    s i (j - 1),
    place.below i,
    place.above (j - 1),
    place.in_bounds,
  )

  -- After the insertion of a pair the key finds the pointer, and other keys what they found.
  pub inserted-Finds :
      (pointers : ℕ → ℕ) (pointer k v : ℕ)
      → Finds keys pointers n k v
      → Finds (inserted keys p key) (inserted pointers p pointer) (suc n) k (put key pointer k v)
  inserted-Finds pointers pointer k v f = elim (Bool-cases (k == key)) [
    | inl e ↦ rw e (
        inl (
          p,
          (
            omega (arith, place.in_bounds),
            (inserted_here keys p key ∙ sym (eq_of_== k key e), inserted_here pointers p pointer),
          ),
        ))
    | inr e ↦ rw e (other e f)
  ]
    where
      other :
          (k == key) ≡ false
          → Finds keys pointers n k v
          → Finds (inserted keys p key) (inserted pointers p pointer) (suc n) k v
      other e (inl (i, (h, (a, b)))) = elim (Bool-cases (ltb i p)) [
        | inl q ↦ inl (
          i,
          (
            omega (arith, h),
            (
              inserted_before keys p key i (ground (arith, q)) ∙ a,
              inserted_before pointers p pointer i (ground (arith, q)) ∙ b,
            ),
          ),
        )
        | inr q ↦ inl (
          suc i,
          (
            omega (arith, h),
            (
              inserted_after keys p key i (ground (arith, q)) ∙ a,
              inserted_after pointers p pointer i (ground (arith, q)) ∙ b,
            ),
          ),
        )
      ]
      other e (inr (g, q)) = inr (
        λ i h. ground (
          arith,
          e,
          g i,
          g (i - 1),
          inserted_before keys p key i,
          inserted_here keys p key,
          inserted_after keys p key (i - 1),
          place.in_bounds,
        ),
        q,
      )

-- The two parts of a sorted array, cut at `m`, are sorted.
pub right-IsSorted :
    (keys : ℕ → ℕ) (n m : ℕ) → IsSorted keys n → IsSorted (λ j. keys (m + j)) (n - m)
right-IsSorted keys n m s i j h l = s (m + i) (m + j) (omega arith) (omega arith)

-- A key below the right part's first key is found on the left, another one on the right.
pub left-Finds :
    (keys pointers : ℕ → ℕ) (n m k v : ℕ)
    → m < n
    → IsSorted keys n
    → k < keys m
    → Finds keys pointers n k v
    → Finds keys pointers m k v
left-Finds keys pointers n m k v l s h (inl (i, (b, (p, q)))) =
    inl (i, (ground (arith, s m i), (p, q)))
left-Finds keys pointers n m k v l s h (inr (g, q)) = inr (λ i b. g i (omega arith), q)

pub right-Finds :
    (keys pointers : ℕ → ℕ) (n m k v : ℕ)
    → m < n
    → IsSorted keys n
    → keys m ≤ k
    → Finds keys pointers n k v
    → Finds (λ j. keys (m + j)) (λ j. pointers (m + j)) (n - m) k v
right-Finds keys pointers n m k v l s h (inl (i, (b, (p, q)))) = inl (
  i - m,
  (ground (arith, s i m), (subst (λ j. keys j ≡ k) back p, subst (λ j. pointers j ≡ v) back q)),
)
  where
    back : i ≡ m + (i - m)
    back = ground (arith, s i m)
right-Finds keys pointers n m k v l s h (inr (g, q)) = inr (λ i b. g (m + i) (omega arith), q)
