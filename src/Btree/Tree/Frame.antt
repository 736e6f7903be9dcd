-- ===== src/Btree/Tree/Frame.antt =====
-- Search trees of src/benchmarks/btree/btree1.c of which one leaf is changed in place.
use elastic_translations_mic.Prelude.{
  ℕ, zero, suc, ◌≤◌, ◌<◌, ◌≡◌, ◌≢◌, ◌⊎◌, inl, inr, refl, sym, ◌∙◌, ap, subst, true, false, arith,
  ltb, leb, ◌==◌, eq_of_==, Bool-cases, some, ==-eq_false, ==-self, update, update_ne, update_self,
}
use elastic_translations_mic.Btree.Node.Defs.{Node, null, child_index}
use elastic_translations_mic.Btree.Tree.Defs.{Heap, find_leaf_loop}
use elastic_translations_mic.Btree.Tree.Find.{
  IsTree, IsRanged, lower, upper, lower-ge, upper-le, child_index-between, child_index_unique,
  loop-down,
}

pub at_leaf :
    (h : Heap) (key c fuel : ℕ)
    → c ≢ null
    → (h.nodes c).is_leaf ≡ true
    → find_leaf_loop h key c (suc fuel) ≡ some c
unfolding find_leaf_loop
at_leaf h key c fuel p e = rw (==-eq_false c 0 p, e) refl

pub no_fuel : (h : Heap) (key c leaf : ℕ) → find_leaf_loop h key c 0 ≡ some leaf → 1 ≤ 0
unfolding find_leaf_loop
no_fuel h key c leaf f = ground (arith, f)

pub some_eq : (a b : ℕ) → some a ≡ some b → a ≡ b
some_eq a b e = ground (arith, e)

-- A key of the leaf that the search comes to lies in the range of the tree.
leaf-range :
    (h : Heap) (depth c low high key fuel leaf i : ℕ)
    → IsTree h depth c low high
    → low ≤ key
    → key < high
    → find_leaf_loop h key c fuel ≡ some leaf
    → i < (h.nodes leaf).num_keys
    → (low ≤ (h.nodes leaf).keys i) × ((h.nodes leaf).keys i < high)
unfolding IsTree
leaf-range h depth c low high key zero leaf i t a b f l = ground (arith, no_fuel h key c leaf f)
leaf-range h zero c low high key (suc fuel) leaf i (p, (e, w)) a b f l =
    let q : c ≡ leaf = some_eq c leaf (sym (at_leaf h key c fuel p e) ∙ f) in
    subst (λ x. (low ≤ (h.nodes x).keys i) × ((h.nodes x).keys i < high)) q
      (let l' : i < (h.nodes c).num_keys = rw q l in (w.above_low i l', w.below_high i l'))
leaf-range h (suc depth) c low high key (suc fuel) leaf i (p, (e, (w, g))) a b f l =
    let j = child_index (h.nodes c) key in
    let (k, (below, above)) = child_index-between (h.nodes c) low high key w a b in
    let (x, y) =
      leaf-range h depth ((h.nodes c).pointers j) (lower (h.nodes c) low j)
        (upper (h.nodes c) high j) key fuel leaf i (g j k) below above
        (sym (loop-down h key c fuel p e) ∙ f) l in
    (
      omega (arith, x, lower-ge (h.nodes c) low high j w k),
      omega (arith, y, upper-le (h.nodes c) low high j w),
    )

-- The nodes of the two heaps are the same but for a leaf.
pub record ChangesLeaf (h h' : Heap) (leaf : ℕ) : Type 0 where
  pub same : (a : ℕ) → a ≢ leaf → h'.nodes a ≡ h.nodes a
  pub was_leaf : (h.nodes leaf).is_leaf ≡ true
  pub stays_leaf : (h'.nodes leaf).is_leaf ≡ true

pub update-ChangesLeaf :
    (h h' : Heap) (leaf : ℕ) (n : Node)
    → h'.nodes ≡ update h.nodes leaf n
    → (h.nodes leaf).is_leaf ≡ true
    → n.is_leaf ≡ true
    → ChangesLeaf h h' leaf
update-ChangesLeaf h h' leaf n e was stays = record {
  same = λ a ne. ap (λ f. f a) e ∙ update_ne h.nodes leaf n a (==-eq_false a leaf ne);
  was_leaf = was;
  stays_leaf =
      ap (λ f. (f leaf).is_leaf) e ∙ ap (λ m. m.is_leaf) (update_self h.nodes leaf n) ∙ stays;
}

module _ {h h' : Heap} {leaf : ℕ} (ch : ChangesLeaf h h' leaf) where
  inner_apart : (c : ℕ) → (h.nodes c).is_leaf ≡ false → c ≢ leaf
  inner_apart c e q = ground (arith, ch.was_leaf, sym e ∙ ap (λ x. (h.nodes x).is_leaf) q)

  same_flag : (c : ℕ) → (h'.nodes c).is_leaf ≡ (h.nodes c).is_leaf
  same_flag c = elim (Bool-cases (c == leaf)) [
    | inl q ↦ rw (eq_of_== c leaf q, ch.was_leaf) ch.stays_leaf
    | inr q ↦ ap (λ n. n.is_leaf) (ch.same c (ground (arith, q)))
  ]

  -- The search comes to the same leaf in both.
  pub find_leaf_loop_same :
      (key c fuel : ℕ) → find_leaf_loop h' key c fuel ≡ find_leaf_loop h key c fuel
  unfolding find_leaf_loop
  find_leaf_loop_same key c zero = refl
  find_leaf_loop_same key c (suc fuel) = elim (Bool-cases (h.nodes c).is_leaf) [
    | inl e ↦ rw (same_flag c, e) refl
    | inr e ↦
        rw
          (
            ch.same c (inner_apart c e),
            find_leaf_loop_same key ((h.nodes c).pointers (child_index (h.nodes c) key)) fuel,
          )
          refl
  ]

  -- A tree whose range lacks a key of the leaf does not have the leaf.
  IsTree-aside :
      (depth c low high i : ℕ)
      → i < (h.nodes leaf).num_keys
      → ((h.nodes leaf).keys i < low) ⊎ (high ≤ (h.nodes leaf).keys i)
      → IsTree h depth c low high
      → IsTree h' depth c low high
  unfolding IsTree
  IsTree-aside zero c low high i l out (p, (e, w)) =
      let apart : c ≢ leaf = λ q. omega (arith, not_there c low high q w out) in
      (p, rw (ch.same c apart) (e, w))
    where
      not_there :
          (c low high : ℕ)
          → c ≡ leaf
          → IsRanged (h.nodes c) low high
          → ((h.nodes leaf).keys i < low) ⊎ (high ≤ (h.nodes leaf).keys i)
          → 1 ≤ 0
      not_there c low high q w out =
          let w' : IsRanged (h.nodes leaf) low high =
            subst (λ x. IsRanged (h.nodes x) low high) q w in
          ground (arith, out, w'.above_low i l, w'.below_high i l)
  IsTree-aside (suc depth) c low high i l out (p, (e, (w, g))) = rw (ch.same c (inner_apart c e)) (
    p,
    (
      e,
      (
        w,
        λ j k.
            IsTree-aside depth _ _ _ i l
              (ground (
                arith,
                out,
                lower-ge (h.nodes c) low high j w k,
                upper-le (h.nodes c) low high j w,
              ))
              (g j k),
      ),
    ),
  )

  -- Where a key of the leaf is on the way to the leaf, the range of another child lacks it.
  other_child :
      (n : Node) (low high x i j : ℕ)
      → IsRanged n low high
      → i ≤ n.num_keys
      → j ≤ n.num_keys
      → (lower n low i ≤ x) × (x < upper n high i)
      → (j == i) ≡ false
      → (x < lower n low j) ⊎ (upper n high j ≤ x)
  other_child n low high x i j w k l (a, b) ne = elim (Bool-cases (ltb x (lower n low j))) [
    | inl e ↦ inl (ground (arith, e))
    | inr e ↦ elim (Bool-cases (leb (upper n high j) x)) [
      | inl f ↦ inr (ground (arith, f))
      | inr f ↦
          let q : j ≡ i =
            child_index_unique n low high x j i w l k (ground (arith, e)) (ground (arith, f)) a b in
          ground (arith, ne, q, ==-self i)
    ]
  ]

  -- A change of the leaf that the search comes to, which has a key, keeps the tree, where the new
  -- keys stay in every range that has the old ones and the key of the search.
  pub IsTree-changed :
      (depth c low high key fuel : ℕ)
      → 0 < (h.nodes leaf).num_keys
      → ((low' high' : ℕ)
          → low' ≤ key
          → key < high'
          → IsRanged (h.nodes leaf) low' high'
          → IsRanged (h'.nodes leaf) low' high')
      → IsTree h depth c low high
      → low ≤ key
      → key < high
      → find_leaf_loop h key c fuel ≡ some leaf
      → IsTree h' depth c low high
  unfolding IsTree
  IsTree-changed depth c low high key zero l stays t a b f = ground (arith, no_fuel h key c leaf f)
  IsTree-changed zero c low high key (suc fuel) l stays (p, (e, w)) a b f =
      let q : c ≡ leaf = some_eq c leaf (sym (at_leaf h key c fuel p e) ∙ f) in
      (
        p,
        (
          same_flag c ∙ e,
          subst (λ x. IsRanged (h'.nodes x) low high) (sym q)
              (stays low high a b (subst (λ x. IsRanged (h.nodes x) low high) q w)),
        ),
      )
  IsTree-changed (suc depth) c low high key (suc fuel) l stays (p, (e, (w, g))) a b f =
      let i = child_index (h.nodes c) key in
      let (k, (below, above)) = child_index-between (h.nodes c) low high key w a b in
      let f' = sym (loop-down h key c fuel p e) ∙ f in
      let x =
        leaf-range h depth ((h.nodes c).pointers i) (lower (h.nodes c) low i)
          (upper (h.nodes c) high i) key fuel leaf 0 (g i k) below above f' l in
      rw (ch.same c (inner_apart c e)) (
        p,
        (
          e,
          (
            w,
            λ j m. elim (Bool-cases (j == i)) [
              | inl q ↦ rw (eq_of_== j i q) (
                  IsTree-changed depth ((h.nodes c).pointers i) (lower (h.nodes c) low i)
                    (upper (h.nodes c) high i) key fuel l stays (g i k) below above f')
              | inr q ↦
                  IsTree-aside depth _ _ _ 0 l
                    (other_child (h.nodes c) low high ((h.nodes leaf).keys 0) i j w k m x q) (g j m)
            ],
          ),
        ),
      )
