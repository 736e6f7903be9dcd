-- ===== src/Btree/Node/Split.antt =====
-- The leaves that insert_into_leaf_after_splitting of src/benchmarks/btree/btree1.c leaves.
use elastic_translations_mic.Prelude.{
  ℕ, ◌+◌, ◌-◌, ◌≤◌, ◌<◌, ◌≡◌, refl, sym, ◌∙◌, ap, inl, inr, Bool-cases, arith, ltb, ◌==◌,
  if◌then◌else◌, subst, update,
}
use elastic_translations_mic.Btree.Node.Defs.{
  Node, cut, copy, clear, temporary, split_leaf, insertion_point, find_in_leaf,
}
use elastic_translations_mic.Btree.Node.Scan.{
  temporary_lem, copy_lem, clear_lem, cut-bounds, inserted,
}
use elastic_translations_mic.Btree.Node.Lookup.{
  IsSorted, IsAbsent, Finds, put, find-Finds, find_unique, Finds-ext, IsSorted-ext, IsPlace,
  insertion_point-IsPlace, inserted-IsSorted, inserted-Finds, right-IsSorted, left-Finds,
  right-Finds,
}

-- A copied range, read inside it.
pub copy-within : (a b : ℕ → ℕ) (i n j : ℕ) → j < n → copy a b i 0 n j ≡ a (i + j)
copy-within a b i n j h = ground (arith, copy_lem a b i 0 n j)

pub copy-start : (a b : ℕ → ℕ) (n j : ℕ) → j < n → copy a b 0 0 n j ≡ a j
copy-start a b n j h = ground (arith, copy_lem a b 0 0 n j)

copy-beyond : (a b : ℕ → ℕ) (i n j : ℕ) → n ≤ j → copy a b i 0 n j ≡ b j
copy-beyond a b i n j h = ground (arith, copy_lem a b i 0 n j)

-- The pointers of a leaf, after the link to the next leaf is stored and the free places are cleared.
linked-within :
    (b : ℕ → ℕ) (last v n j : ℕ) → n ≤ last → j < n → clear (update b last v) n (last - n) j ≡ b j
linked-within b last v n j h l = ground (arith, clear_lem (update b last v) n (last - n) j)

linked-last : (b : ℕ → ℕ) (last v n : ℕ) → n ≤ last → clear (update b last v) n (last - n) last ≡ v
linked-last b last v n h = ground (arith, clear_lem (update b last v) n (last - n) last)

module _ (order : ℕ) (temp_keys temp_pointers : ℕ → ℕ) (leaf new_leaf : Node)
    (right key pointer : ℕ) (order_large : 2 ≤ order) (is_full : leaf.num_keys ≡ order - 1)
    (is_new : new_leaf.num_keys ≡ 0) (is_sorted : IsSorted leaf.keys leaf.num_keys)
    (is_absent : IsAbsent leaf.keys leaf.num_keys key) where
  -- The two leaves.
  abbrev parts : Node × Node
  parts = split_leaf order temp_keys temp_pointers leaf new_leaf right key pointer

  spot : ℕ
  spot = insertion_point leaf key (order - 1)

  split : ℕ
  split = cut (order - 1)

  spot-IsPlace : IsPlace leaf.keys leaf.num_keys spot key
  unfolding spot
  spot-IsPlace =
      subst (λ b. IsPlace leaf.keys leaf.num_keys (insertion_point leaf key b) key) is_full
        (insertion_point-IsPlace leaf key leaf.num_keys is_sorted is_absent)

  split-bounds : (1 ≤ split) × (split ≤ order - 1)
  unfolding split
  split-bounds = omega (arith, cut-bounds (order - 1))

  all-IsSorted : IsSorted (inserted leaf.keys spot key) order
  all-IsSorted =
      subst (λ n. IsSorted (inserted leaf.keys spot key) n) (omega arith)
        (inserted-IsSorted spot-IsPlace is_sorted)

  temporary_keys :
      (j : ℕ)
      → j < order
      → temporary temp_keys leaf.keys leaf.num_keys spot key j ≡ inserted leaf.keys spot key j
  temporary_keys j h =
      temporary_lem temp_keys leaf.keys leaf.num_keys spot key j spot-IsPlace.in_bounds
        (omega arith)

  temporary_pointers :
      (j : ℕ)
      → j < order
      → temporary temp_pointers leaf.pointers leaf.num_keys spot pointer j
        ≡ inserted leaf.pointers spot pointer j
  temporary_pointers j h =
      temporary_lem temp_pointers leaf.pointers leaf.num_keys spot pointer j spot-IsPlace.in_bounds
        (omega arith)

  left_pairs :
      (j : ℕ)
      → j < split
      → (parts.0.keys j ≡ inserted leaf.keys spot key j)
        × (parts.0.pointers j ≡ inserted leaf.pointers spot pointer j)
  unfolding split_leaf spot split
  left_pairs j h =
      let b = split-bounds in
      (
        copy-start _ leaf.keys split j h ∙ temporary_keys j (omega arith),
        linked-within _ (order - 1) right split j b.1 h
            ∙ (copy-start _ leaf.pointers split j h ∙ temporary_pointers j (omega arith)),
      )

  right_pairs :
      (j : ℕ)
      → j < order - split
      → (parts.1.keys j ≡ inserted leaf.keys spot key (split + j))
        × (parts.1.pointers j ≡ inserted leaf.pointers spot pointer (split + j))
  unfolding split_leaf spot split
  right_pairs j h =
      let b = split-bounds in
      (
        copy-within _ new_leaf.keys split (order - split) j h
            ∙ temporary_keys (split + j) (omega arith),
        linked-within _ (order - 1) _ (new_leaf.num_keys + (order - split)) j (omega arith)
              (omega arith)
            ∙ (copy-within _ new_leaf.pointers split (order - split) j h
                ∙ temporary_pointers (split + j) (omega arith)),
      )

  links :
      (parts.0.pointers (order - 1) ≡ right)
      × (parts.1.pointers (order - 1) ≡ leaf.pointers (order - 1))
  unfolding split_leaf spot split
  links =
      let b = split-bounds in
      (
        linked-last _ (order - 1) right split b.1,
        linked-last _ (order - 1) _ (new_leaf.num_keys + (order - split)) (omega arith)
            ∙ copy-beyond _ leaf.pointers 0 split (order - 1) b.1,
      )

  counts : (parts.0.num_keys ≡ split) × (parts.1.num_keys ≡ order - split)
  unfolding split_leaf split
  counts = (refl, omega arith)

  left-IsSorted : IsSorted parts.0.keys parts.0.num_keys
  left-IsSorted i j h l = omega (
    arith,
    counts,
    split-bounds,
    (left_pairs i (omega (arith, counts))).0,
    (left_pairs j (omega (arith, counts))).0,
    all-IsSorted i j h (omega (arith, counts, split-bounds)),
  )

  right_half-IsSorted : IsSorted parts.1.keys parts.1.num_keys
  right_half-IsSorted =
      subst (λ n. IsSorted parts.1.keys n) (sym counts.1)
        (IsSorted-ext (λ j. inserted leaf.keys spot key (split + j)) parts.1.keys (order - split)
          (λ j h. (right_pairs j h).0)
          (right-IsSorted (inserted leaf.keys spot key) order split all-IsSorted))

  -- The first key on the right is the one that goes to the parent.
  new_key : parts.1.keys 0 ≡ inserted leaf.keys spot key split
  new_key =
      (right_pairs 0 (omega (arith, split-bounds))).0
      ∙ ap (inserted leaf.keys spot key) (omega arith)

  below_new : (i : ℕ) → i < parts.0.num_keys → parts.0.keys i < parts.1.keys 0
  below_new i h = omega (
    arith,
    counts,
    split-bounds,
    new_key,
    (left_pairs i (omega (arith, counts))).0,
    all-IsSorted i split (omega (arith, counts)) (omega (arith, split-bounds)),
  )

  all_found :
      (k : ℕ)
      → Finds
          (inserted leaf.keys spot key)
          (inserted leaf.pointers spot pointer)
          order
          k
          (put key pointer k (find_in_leaf leaf k))
  all_found k =
      subst
        (λ n.
          Finds (inserted leaf.keys spot key) (inserted leaf.pointers spot pointer) n k
            (put key pointer k (find_in_leaf leaf k)))
        (omega arith) (inserted-Finds spot-IsPlace leaf.pointers pointer k _ (find-Finds leaf k))

  found :
      (k : ℕ)
      → (if ltb k (parts.1.keys 0) then find_in_leaf parts.0 k else find_in_leaf parts.1 k)
        ≡ (if k == key then pointer else find_in_leaf leaf k)
  found k =
      let v = put key pointer k (find_in_leaf leaf k) in
      elim (Bool-cases (ltb k (parts.1.keys 0))) [
        | inl e ↦ rw e (
            find_unique parts.0 k v left-IsSorted (
              subst (λ n. Finds parts.0.keys parts.0.pointers n k v) (sym counts.0)
                (Finds-ext (inserted leaf.keys spot key) (inserted leaf.pointers spot pointer)
                  parts.0.keys parts.0.pointers split k v left_pairs
                  (left-Finds _ _ order split k v (omega (arith, split-bounds)) all-IsSorted
                    (ground (arith, e, new_key)) (all_found k)))))
        | inr e ↦ rw e (
            find_unique parts.1 k v right_half-IsSorted (
              subst (λ n. Finds parts.1.keys parts.1.pointers n k v) (sym counts.1)
                (Finds-ext (λ j. inserted leaf.keys spot key (split + j))
                  (λ j. inserted leaf.pointers spot pointer (split + j)) parts.1.keys
                  parts.1.pointers (order - split) k v right_pairs
                  (right-Finds _ _ order split k v (omega (arith, split-bounds)) all-IsSorted
                    (ground (arith, e, new_key)) (all_found k)))))
      ]

  -- Splitting a full leaf with sorted keys that lack the new key leaves two leaves: the old one with
  -- cut (order - 1) keys and the new one with the rest of the `order` keys, both with sorted keys.
  -- The keys on the left are below the first key on the right, which is the one the parent gets. A
  -- search that takes the side by that key finds the new pointer under the new key, and under every
  -- other key what the old leaf held. The new leaf comes between the old one and its successor, and
  -- has the same parent.
  pub split_leaf-find :
      (parts.0.num_keys ≡ cut (order - 1))
      × (parts.1.num_keys ≡ order - cut (order - 1))
      × IsSorted parts.0.keys parts.0.num_keys
      × IsSorted parts.1.keys parts.1.num_keys
      × ((i : ℕ) → i < parts.0.num_keys → parts.0.keys i < parts.1.keys 0)
      × ((k : ℕ)
          → (if ltb k (parts.1.keys 0) then find_in_leaf parts.0 k else find_in_leaf parts.1 k)
            ≡ (if k == key then pointer else find_in_leaf leaf k))
      × (parts.0.pointers (order - 1) ≡ right)
      × (parts.1.pointers (order - 1) ≡ leaf.pointers (order - 1))
      × (parts.1.parent ≡ leaf.parent)
  unfolding split split_leaf
  split_leaf-find = (
    counts.0, counts.1, left-IsSorted, right_half-IsSorted, below_new, found, links.0, links.1,
    refl,
  )

  -- The new key comes among keys of the same range.
  spread_range :
      (low high : ℕ)
      → ((i : ℕ) → i < leaf.num_keys → (low ≤ leaf.keys i) × (leaf.keys i < high))
      → low ≤ key
      → key < high
      → (j : ℕ) → j < order
      → (low ≤ inserted leaf.keys spot key j) × (inserted leaf.keys spot key j < high)
  unfolding inserted
  spread_range low high w a b j h = ground (arith, w j, w (j - 1), spot-IsPlace.in_bounds)

  pub split_leaf-range :
      (low high : ℕ)
      → ((i : ℕ) → i < leaf.num_keys → (low ≤ leaf.keys i) × (leaf.keys i < high))
      → low ≤ key
      → key < high
      → ((i : ℕ) → i < parts.0.num_keys → (low ≤ parts.0.keys i) × (parts.0.keys i < high))
        × ((i : ℕ) → i < parts.1.num_keys → (low ≤ parts.1.keys i) × (parts.1.keys i < high))
  split_leaf-range low high w a b = (
    λ i h.
        rw ((left_pairs i (omega (arith, h, counts))).0)
          (spread_range low high w a b i (omega (arith, h, counts, split-bounds))),
    λ i h.
        rw ((right_pairs i (omega (arith, h, counts))).0)
          (spread_range low high w a b (split + i) (omega (arith, h, counts, split-bounds))),
  )
