-- ===== src/Btree/Node/Remove.antt =====
-- remove_entry_from_node of src/benchmarks/btree/btree1.c on a leaf.
use elastic_translations_mic.Prelude.{
  ℕ, zero, suc, ◌+◌, ◌-◌, ◌≤◌, ◌<◌, ◌≡◌, ◌≢◌, refl, sym, ◌∙◌, subst, inl, inr, true, false, not,
  ◌&&◌, Bool-cases, arith, ltb, leb, ◌==◌, if◌then◌else◌, none, some, update, ==-eq_false,
}
use elastic_translations_mic.Btree.Node.Defs.{Node, null, scan, clear, find_in_leaf}
use elastic_translations_mic.Btree.Node.Deletion.{
  find_index, shift_down, dec, remove_entry_from_node,
}
use elastic_translations_mic.Btree.Node.Scan.{scan-le, scan-passed, scan-stopped, clear_lem}
use elastic_translations_mic.Btree.Node.Lookup.{
  IsSorted, Finds, find-Finds, find_unique, Finds-ext, IsSorted-ext,
}

-- The sequence without its element at `p`.
unfoldable pub removed : (ℕ → ℕ) → ℕ → ℕ → ℕ
removed a p j = if ltb j p then a j else a (suc j)

pub shift_down_lem :
    (a : ℕ → ℕ) (i n j : ℕ)
    → shift_down a i n j ≡ (if leb i j && ltb j (i + n) then a (suc j) else a j)
unfolding shift_down
shift_down_lem a i zero j = ground arith
shift_down_lem a i (suc n) j = ground (arith, shift_down_lem (update a i (a (suc i))) (suc i) n j)

shift_down-removed :
    (a : ℕ → ℕ) (p n j : ℕ) → suc j < n → shift_down a p (n - suc p) j ≡ removed a p j
unfolding removed
shift_down-removed a p n j h = ground (arith, shift_down_lem a p (n - suc p) j)

-- The search finds the first place of a value.
pub find_index_lem :
    (a : ℕ → ℕ) (size v i : ℕ)
    → i < size
    → a i ≡ v
    → ((j : ℕ) → j < i → a j ≢ v)
    → find_index a size v ≡ some i
unfolding find_index
find_index_lem a size v i h e first =
    let t = λ (j : ℕ). not (a j == v) in
    let r = scan t 0 size in
    subst (λ k. (if k == size then none else some k) ≡ some i) (sym found)
      (rw (==-eq_false i size (omega arith)) refl)
  where
    found : scan (λ j. not (a j == v)) 0 size ≡ i
    found = ground (
      arith,
      scan-le (λ j. not (a j == v)) 0 size,
      scan-passed (λ j. not (a j == v)) 0 size i,
      scan-stopped (λ j. not (a j == v)) 0 size,
      first (scan (λ j. not (a j == v)) 0 size),
    )

removed-IsSorted : (keys : ℕ → ℕ) (n p : ℕ) → IsSorted keys n → IsSorted (removed keys p) (n - 1)
unfolding removed
removed-IsSorted keys n p s i j h l = ground (arith, s i j, s i (suc j), s (suc i) (suc j))

-- Without the pair at `p`, its key finds nothing and the others what they found.
removed-Finds :
    (keys pointers : ℕ → ℕ) (n p k v : ℕ)
    → IsSorted keys n
    → p < n
    → Finds keys pointers n k v
    → Finds (removed keys p) (removed pointers p) (n - 1) k (if k == keys p then null else v)
unfolding removed
removed-Finds keys pointers n p k v s h (inl (i, (l, (a, b)))) = elim (Bool-cases (k == keys p)) [
  | inl e ↦ rw e (inr (λ j m. ground (arith, e, s j p, s p (suc j)), refl))
  | inr e ↦ rw e (elim (Bool-cases (ltb i p)) [
    | inl q ↦ inl (i, (ground (arith, q), (rw q a, rw q b)))
    | inr q ↦ inl (
      i - 1,
      (ground (arith, e, a, q, same e a), (before e a q keys ∙ a, before e a q pointers ∙ b)),
    )
  ])
]
  where
    same : (k == keys p) ≡ false → keys i ≡ k → i ≢ p
    same e a q = ground (arith, e, subst (λ j. keys j ≡ k) q a)

    before :
        (k == keys p) ≡ false
        → keys i ≡ k
        → ltb i p ≡ false
        → (f : ℕ → ℕ) → (if ltb (i - 1) p then f (i - 1) else f (suc (i - 1))) ≡ f i
    before e a q f = ground (arith, same e a)
removed-Finds keys pointers n p k v s h (inr (g, q)) = elim (Bool-cases (k == keys p)) [
  | inl e ↦ ground (arith, e, g p)
  | inr e ↦ rw e (inr (λ i l. ground (arith, g i, g (suc i)), q))
]

pub dec_lem : (n p : ℕ) → p < n → dec n ≡ n - 1
unfolding dec
dec_lem n p h = ground arith

-- The leaf without the pair at place `p`, as the loops leave it.
abbrev pub without : ℕ → Node → ℕ → Node
without order n p = record n {
  keys = shift_down n.keys p (n.num_keys - suc p);
  pointers =
      clear (shift_down n.pointers p (n.num_keys - suc p)) (dec n.num_keys)
        (order - 1 - dec n.num_keys);
  num_keys = dec n.num_keys;
}

module _ (order : ℕ) (n : Node) (key pointer : ℕ) (is_leaf : n.is_leaf ≡ true)
    (fits : n.num_keys ≤ order - 1) (is_sorted : IsSorted n.keys n.num_keys)
    (distinct : (i j : ℕ) → i < j → j < n.num_keys → n.pointers i ≢ n.pointers j) where
  -- The removal of the pair at place `p`.
  at_place :
      (p : ℕ)
      → p < n.num_keys
      → n.keys p ≡ key
      → n.pointers p ≡ pointer
      → remove_entry_from_node order n key pointer ≡ some (without order n p)
  unfolding remove_entry_from_node
  at_place p h a b =
      rw
        (
          find_index_lem n.keys (order - 1) key p (omega arith) a
              (λ j l. ground (arith, a, is_sorted j p)),
          find_index_lem n.pointers order pointer p (omega arith) b
              (λ j l. ground (arith, b, distinct j p)),
          is_leaf,
        )
        refl

  pub without-removed :
      (p j : ℕ)
      → p < n.num_keys
      → j < n.num_keys - 1
      → ((without order n p).keys j ≡ removed n.keys p j)
        × ((without order n p).pointers j ≡ removed n.pointers p j)
  without-removed p j h l = (
    shift_down-removed n.keys p n.num_keys j (omega (arith, l)),
    ground (
      arith,
      clear_lem (shift_down n.pointers p (n.num_keys - suc p)) (dec n.num_keys)
          (order - 1 - dec n.num_keys) j,
      dec_lem n.num_keys p h,
    )
        ∙ shift_down-removed n.pointers p n.num_keys j (omega (arith, l)),
  )

  pub at_place-find :
      (p : ℕ)
      → p < n.num_keys
      → n.keys p ≡ key
      → n.pointers p ≡ pointer
      → (remove_entry_from_node order n key pointer ≡ some (without order n p))
        × (suc (without order n p).num_keys ≡ n.num_keys)
        × IsSorted (without order n p).keys (without order n p).num_keys
        × ((k : ℕ)
            → find_in_leaf (without order n p) k ≡ (if k == key then null else find_in_leaf n k))
        × ((without order n p).pointers (order - 1) ≡ n.pointers (order - 1))
  at_place-find p h a b = (
    at_place p h a b,
    less,
    sorted,
    λ k. find_unique (without order n p) k _ sorted (found k),
    last,
  )
    where
      less : suc (without order n p).num_keys ≡ n.num_keys
      less = omega (arith, dec_lem n.num_keys p h)

      sorted : IsSorted (without order n p).keys (without order n p).num_keys
      sorted =
          subst (λ c. IsSorted (without order n p).keys c) (sym (dec_lem n.num_keys p h))
            (IsSorted-ext (removed n.keys p) (without order n p).keys (n.num_keys - 1)
              (λ j l. (without-removed p j h l).0) (removed-IsSorted n.keys n.num_keys p is_sorted))

      found :
          (k : ℕ)
          → Finds
              (without order n p).keys
              (without order n p).pointers
              (without order n p).num_keys
              k
              (if k == key then null else find_in_leaf n k)
      found k =
          subst
            (λ x.
              Finds (without order n p).keys (without order n p).pointers
                (without order n p).num_keys k (if k == x then null else find_in_leaf n k))
            a
            (subst
              (λ c.
                Finds (without order n p).keys (without order n p).pointers c k
                  (if k == n.keys p then null else find_in_leaf n k))
              (sym (dec_lem n.num_keys p h))
              (Finds-ext (removed n.keys p) (removed n.pointers p) (without order n p).keys
                (without order n p).pointers (n.num_keys - 1) k _ (λ j l. without-removed p j h l)
                (removed-Finds n.keys n.pointers n.num_keys p k _ is_sorted h (find-Finds n k))))

      last : (without order n p).pointers (order - 1) ≡ n.pointers (order - 1)
      last = ground (
        arith,
        clear_lem (shift_down n.pointers p (n.num_keys - suc p)) (dec n.num_keys)
            (order - 1 - dec n.num_keys) (order - 1),
        dec_lem n.num_keys p h,
        shift_down_lem n.pointers p (n.num_keys - suc p) (order - 1),
      )

  -- In a leaf with sorted keys and distinct record pointers, the removal of a key with the record
  -- that the search finds under it succeeds: it leaves one key fewer, sorted; the key finds nothing
  -- any more, every other key what it found before; and the link to the next leaf stays.
  pub remove_entry_from_node-find :
      find_in_leaf n key ≡ pointer
      → pointer ≢ null
      → (m : Node) × (remove_entry_from_node order n key pointer ≡ some m)
        × (suc m.num_keys ≡ n.num_keys)
        × IsSorted m.keys m.num_keys
        × ((k : ℕ) → find_in_leaf m k ≡ (if k == key then null else find_in_leaf n k))
        × (m.pointers (order - 1) ≡ n.pointers (order - 1))
  remove_entry_from_node-find e g = elim (find-Finds n key) [
    | inl (p, (h, (a, b))) ↦
        let (run, less, sorted, found, last) = at_place-find p h a (b ∙ e) in
        (without order n p, run, less, sorted, found, last)
    | inr (h, q) ↦ ground (arith, g (sym e ∙ q))
  ]
