-- ===== src/Btree/Tree/TwoLeaves.antt =====
-- A root with one key over two leaves, as insert_into_new_root of src/benchmarks/btree/btree1.c makes it.
use elastic_translations_mic.Prelude.{
  ℕ, zero, suc, ◌≤◌, ◌<◌, ◌≡◌, ◌≢◌, refl, ◌∙◌, true, false, arith, ltb, leb, if◌then◌else◌, some,
  Bool, inl, inr, Bool-cases,
}
use elastic_translations_mic.Btree.Node.Defs.{null, scan, child_index}
use elastic_translations_mic.Btree.Tree.Defs.{Heap, find_leaf_loop}
use elastic_translations_mic.Btree.Tree.Find.{IsTree, IsRanged, loop-down, lower, upper}
use elastic_translations_mic.Btree.Tree.Frame.{at_leaf}

one_step : (t : ℕ → Bool) → scan t 0 1 ≡ (if t 0 then 1 else 0)
unfolding scan
one_step t = refl

-- A root with one key, over two leaves.
module _ (h : Heap) (top left right : ℕ) (top_there : top ≢ null) (left_there : left ≢ null)
    (right_there : right ≢ null) (is_inner : (h.nodes top).is_leaf ≡ false)
    (one_key : (h.nodes top).num_keys ≡ 1) (first : (h.nodes top).pointers 0 ≡ left)
    (second : (h.nodes top).pointers 1 ≡ right) (left_leaf : (h.nodes left).is_leaf ≡ true)
    (right_leaf : (h.nodes right).is_leaf ≡ true) where
  pub two_leaves-IsTree :
      (low high : ℕ)
      → low ≤ (h.nodes top).keys 0
      → (h.nodes top).keys 0 < high
      → IsRanged (h.nodes left) low ((h.nodes top).keys 0)
      → IsRanged (h.nodes right) ((h.nodes top).keys 0) high
      → IsTree h 1 top low high
  unfolding IsTree
  two_leaves-IsTree low high a b wl wr = (
    top_there,
    (
      is_inner,
      (
        record {
          rises = λ i j l k. omega (arith, l, k, one_key);
          above_low = λ i l. let z : i ≡ 0 = omega (arith, l, one_key) in rw z a;
          below_high = λ i l. let z : i ≡ 0 = omega (arith, l, one_key) in rw z b;
        },
        child,
      ),
    ),
  )
    where
      child :
          (i : ℕ)
          → i ≤ (h.nodes top).num_keys
          → IsTree h 0
              ((h.nodes top).pointers i)
              (lower (h.nodes top) low i)
              (upper (h.nodes top) high i)
      child zero l =
          let up : upper (h.nodes top) high 0 ≡ (h.nodes top).keys 0 = ground (arith, one_key) in
          rw (first, up) (left_there, (left_leaf, wl))
      child (suc zero) l =
          let up : upper (h.nodes top) high 1 ≡ high = ground (arith, one_key) in
          rw (second, up) (right_there, (right_leaf, wr))
      child (suc (suc i)) l = ground (arith, l, one_key)

  child_at : (k : ℕ) → child_index (h.nodes top) k ≡ (if ltb k ((h.nodes top).keys 0) then 0 else 1)
  unfolding child_index
  child_at k = rw one_key (one_step (λ j. leb ((h.nodes top).keys j) k) ∙ ground arith)

  pub two_leaves_search :
      (k fuel : ℕ)
      → find_leaf_loop h k top (suc (suc fuel))
        ≡ some (if ltb k ((h.nodes top).keys 0) then left else right)
  two_leaves_search k fuel =
      loop-down h k top (suc fuel) top_there is_inner
      ∙ elim (Bool-cases (ltb k ((h.nodes top).keys 0))) [
        | inl e ↦ rw (child_at k, e, first) (at_leaf h k left fuel left_there left_leaf)
        | inr e ↦ rw (child_at k, e, second) (at_leaf h k right fuel right_there right_leaf)
      ]
