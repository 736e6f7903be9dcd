-- ===== src/Btree/Node/Joined.antt =====
-- The arrays of two neighboring leaves of src/benchmarks/btree/btree1.c, read as one sequence.
use elastic_translations_mic.Prelude.{
  ℕ, ◌+◌, ◌-◌, ◌≤◌, ◌<◌, ◌≡◌, sym, ◌∙◌, inl, inr, true, false, Bool-cases, arith, ltb,
  if◌then◌else◌,
}
use elastic_translations_mic.Btree.Node.Defs.{Node, find_in_leaf}
use elastic_translations_mic.Btree.Node.Lookup.{IsSorted, IsAbsent, Finds, find-Finds}

unfoldable pub joined : (ℕ → ℕ) → ℕ → (ℕ → ℕ) → ℕ → ℕ
joined a m b j = if ltb j m then a j else b (j - m)

-- The first leaf's keys are below `bound`, the second one's are not.
pub record IsBetween (left right : Node) (bound : ℕ) : Type 0 where
  pub left_below : (i : ℕ) → i < left.num_keys → left.keys i < bound
  pub right_above : (i : ℕ) → i < right.num_keys → bound ≤ right.keys i

-- The search in two neighboring leaves, by the key between them.
abbrev pub find_between : Node → Node → ℕ → ℕ → ℕ
find_between left right bound k = if ltb k bound then find_in_leaf left k else find_in_leaf right k

joined_before : (a b : ℕ → ℕ) (m j : ℕ) → j < m → joined a m b j ≡ a j
unfolding joined
joined_before a b m j h = ground arith

joined_after : (a b : ℕ → ℕ) (m j : ℕ) → joined a m b (m + j) ≡ b j
unfolding joined
joined_after a b m j = ground arith

module _ {left right : Node} {bound : ℕ} (between : IsBetween left right bound)
    (left_rises : IsSorted left.keys left.num_keys)
    (right_rises : IsSorted right.keys right.num_keys) where
  pub joined-IsSorted :
      IsSorted (joined left.keys left.num_keys right.keys) (left.num_keys + right.num_keys)
  unfolding joined
  joined-IsSorted i j h l =
      let m = left.num_keys in
      ground (
        arith,
        left_rises i j,
        right_rises (i - m) (j - m),
        between.left_below i,
        between.right_above (j - m),
      )

  on_left : (i k : ℕ) → i < left.num_keys → left.keys i ≡ k → ltb k bound ≡ true
  on_left i k h a = ground (arith, between.left_below i)

  on_right : (i k : ℕ) → i < right.num_keys → right.keys i ≡ k → ltb k bound ≡ false
  on_right i k h a = ground (arith, between.right_above i)

  joined-Finds_of :
      (k v w : ℕ)
      → Finds left.keys left.pointers left.num_keys k v
      → Finds right.keys right.pointers right.num_keys k w
      → Finds
          (joined left.keys left.num_keys right.keys)
          (joined left.pointers left.num_keys right.pointers)
          (left.num_keys + right.num_keys)
          k
          (if ltb k bound then v else w)
  joined-Finds_of k v w (inl (i, (h, (a, b)))) g = rw (on_left i k h a) (
      inl (
        i,
        (
          omega (arith, h),
          (
            joined_before left.keys right.keys left.num_keys i h ∙ a,
            joined_before left.pointers right.pointers left.num_keys i h ∙ b,
          ),
        ),
      ))
  joined-Finds_of k v w (inr (g, q)) (inl (i, (h, (a, b)))) = rw (on_right i k h a) (
      inl (
        left.num_keys + i,
        (
          omega (arith, h),
          (
            joined_after left.keys right.keys left.num_keys i ∙ a,
            joined_after left.pointers right.pointers left.num_keys i ∙ b,
          ),
        ),
      ))
  joined-Finds_of k v w (inr (g, q)) (inr (h, r)) = inr (nowhere, neither)
    where
      nowhere :
          IsAbsent (joined left.keys left.num_keys right.keys) (left.num_keys + right.num_keys) k
      nowhere i l' e = elim (Bool-cases (ltb i left.num_keys)) [
        | inl l ↦
            g i (ground (arith, l))
              (sym (joined_before left.keys right.keys left.num_keys i (ground (arith, l))) ∙ e)
        | inr l ↦ ground (
          arith,
          l,
          e,
          h (i - left.num_keys),
          joined_after left.keys right.keys left.num_keys (i - left.num_keys),
        )
      ]

      neither : (if ltb k bound then v else w) ≡ 0
      neither = ground arith

  -- The sequence holds what the two leaves hold.
  pub joined-Finds :
      (k : ℕ)
      → Finds
          (joined left.keys left.num_keys right.keys)
          (joined left.pointers left.num_keys right.pointers)
          (left.num_keys + right.num_keys)
          k
          (find_between left right bound k)
  joined-Finds k = joined-Finds_of k _ _ (find-Finds left k) (find-Finds right k)
