-- ===== src/Btree/Node/Merge.antt =====
-- coalesce_nodes and redistribute_nodes of src/benchmarks/btree/btree1.c on leaves.
use elastic_translations_mic.Prelude.{
  ℕ, ◌+◌, ◌-◌, ◌≤◌, ◌<◌, ◌≡◌, refl, sym, subst, inl, inr, Bool-cases, eq_of_==, arith, ltb, ◌==◌,
}
use elastic_translations_mic.Btree.Node.Defs.{Node, copy, find_in_leaf}
use elastic_translations_mic.Btree.Node.Deletion.{merge_leaves}
use elastic_translations_mic.Btree.Node.Scan.{copy_lem}
use elastic_translations_mic.Btree.Node.Lookup.{
  IsSorted, Finds, find_unique, Finds-ext, IsSorted-ext, left-Finds, right-Finds, right-IsSorted,
}
use elastic_translations_mic.Btree.Node.Joined.{
  joined, IsBetween, find_between, joined-IsSorted, joined-Finds,
}

IsSorted-le : (a : ℕ → ℕ) (n i j : ℕ) → IsSorted a n → i ≤ j → j < n → a i ≤ a j
IsSorted-le a n i j s h l = elim (Bool-cases (i == j)) [
  | inl e ↦ subst (λ k. a i ≤ a k) (eq_of_== i j e) (omega arith)
  | inr e ↦ ground (arith, s i j)
]

copied-joined : (a b : ℕ → ℕ) (m n j : ℕ) → j < m + n → copy b a 0 m n j ≡ joined a m b j
unfolding joined
copied-joined a b m n j h = ground (arith, copy_lem b a 0 m n j)

module _ (order : ℕ) (left right : Node) (bound : ℕ) (between : IsBetween left right bound)
    (left_rises : IsSorted left.keys left.num_keys)
    (right_rises : IsSorted right.keys right.num_keys)
    (fits : left.num_keys + right.num_keys < order) where
  -- The leaf that coalesce_nodes makes of two neighbors that fit in one has the keys of both, sorted;
  -- a search finds what it found in the two by the key between them; and the link to the next leaf
  -- is that of the right one.
  pub merge_leaves-find :
      ((merge_leaves order right left).num_keys ≡ left.num_keys + right.num_keys)
      × IsSorted (merge_leaves order right left).keys (left.num_keys + right.num_keys)
      × ((k : ℕ) → find_in_leaf (merge_leaves order right left) k ≡ find_between left right bound k)
      × ((merge_leaves order right left).pointers (order - 1) ≡ right.pointers (order - 1))
  unfolding merge_leaves
  merge_leaves-find = (
    refl,
    sorted,
    λ k. find_unique (merge_leaves order right left) k _ sorted (
        Finds-ext (joined left.keys left.num_keys right.keys)
          (joined left.pointers left.num_keys right.pointers) (merge_leaves order right left).keys
          (merge_leaves order right left).pointers (left.num_keys + right.num_keys) k _ pairs
          (joined-Finds between left_rises right_rises k)),
    ground arith,
  )
    where
      pairs :
          (j : ℕ)
          → j < left.num_keys + right.num_keys
          → ((merge_leaves order right left).keys j ≡ joined left.keys left.num_keys right.keys j)
            × ((merge_leaves order right left).pointers j
                ≡ joined left.pointers left.num_keys right.pointers j)
      pairs j h = (
        copied-joined left.keys right.keys left.num_keys right.num_keys j h,
        ground (arith, copied-joined left.pointers right.pointers left.num_keys right.num_keys j h),
      )

      sorted : IsSorted (merge_leaves order right left).keys (left.num_keys + right.num_keys)
      sorted =
          IsSorted-ext _ _ _ (λ j h. (pairs j h).0) (joined-IsSorted between left_rises right_rises)

-- What the move of an entry between two neighboring leaves keeps: the leaves `left'` and `right'`
-- with the key `bound'` have sorted keys, lie on the two sides of it, and a search by it finds what
-- it found in `left` and `right` by `bound`.
pub record IsRebalanced (left right : Node) (bound : ℕ) (left' right' : Node) (bound' : ℕ)
    : Type 0 where
  pub left_rises : IsSorted left'.keys left'.num_keys
  pub right_rises : IsSorted right'.keys right'.num_keys
  pub between : IsBetween left' right' bound'
  pub finds : (k : ℕ) → find_between left' right' bound' k ≡ find_between left right bound k

-- Two leaves that share the joined sequence of two others, cut at another place.
module _ (left right : Node) (bound : ℕ) (between : IsBetween left right bound)
    (left_rises : IsSorted left.keys left.num_keys)
    (right_rises : IsSorted right.keys right.num_keys) (left' right' : Node) (bound' m : ℕ) where
  abbrev all_keys : ℕ → ℕ
  all_keys = joined left.keys left.num_keys right.keys

  abbrev all_pointers : ℕ → ℕ
  all_pointers = joined left.pointers left.num_keys right.pointers

  pub recut :
      m < left.num_keys + right.num_keys
      → left'.num_keys ≡ m
      → right'.num_keys ≡ left.num_keys + right.num_keys - m
      → ((j : ℕ) → j < m → (left'.keys j ≡ all_keys j) × (left'.pointers j ≡ all_pointers j))
      → ((j : ℕ)
          → j < left.num_keys + right.num_keys - m
          → (right'.keys j ≡ all_keys (m + j)) × (right'.pointers j ≡ all_pointers (m + j)))
      → bound' ≡ all_keys m
      → IsRebalanced left right bound left' right' bound'
  recut h e f p q b = record {
    left_rises = left_ok;
    right_rises = right_ok;
    between = record {
      left_below = λ i l. omega (arith, b, e, rises i m, (p i (omega arith)).0);
      right_above = λ i l. omega (
        arith,
        b,
        f,
        IsSorted-le all_keys total m (m + i) rises (omega arith) (omega arith),
        (q i (omega arith)).0,
      );
    };
    finds = λ k. elim (Bool-cases (ltb k bound')) [
      | inl t ↦ rw t (
          find_unique left' k _ left_ok (
            subst (λ n. Finds left'.keys left'.pointers n k (find_between left right bound k))
              (sym e)
              (Finds-ext all_keys all_pointers left'.keys left'.pointers m k _ p (
                left-Finds all_keys all_pointers total m k _ h rises (ground (arith, t, b))
                  (joined-Finds between left_rises right_rises k)))))
      | inr t ↦ rw t (
          find_unique right' k _ right_ok (
            subst (λ n. Finds right'.keys right'.pointers n k (find_between left right bound k))
              (sym f)
              (Finds-ext (λ j. all_keys (m + j)) (λ j. all_pointers (m + j)) right'.keys
                right'.pointers (total - m) k _ q
                (right-Finds all_keys all_pointers total m k _ h rises (ground (arith, t, b))
                  (joined-Finds between left_rises right_rises k)))))
    ];
  }
    where
      total : ℕ
      total = left.num_keys + right.num_keys

      rises : IsSorted all_keys (left.num_keys + right.num_keys)
      rises = joined-IsSorted between left_rises right_rises

      left_ok : IsSorted left'.keys left'.num_keys
      left_ok i j l l' =
          omega (arith, e, h, rises i j l, (p i (omega arith)).0, (p j (omega arith)).0)

      right_ok : IsSorted right'.keys right'.num_keys
      right_ok =
          subst (λ n. IsSorted right'.keys n) (sym f)
            (IsSorted-ext (λ j. all_keys (m + j)) right'.keys _ (λ j l. (q j l).0)
              (right-IsSorted all_keys (left.num_keys + right.num_keys) m rises))
