-- ===== src/Btree/Tree/Grow.antt =====
-- `insert` of src/benchmarks/btree/btree1.c into a full leaf that is the root: the tree gets a level.
use elastic_translations_mic.Prelude.{
  ℕ, suc, ◌≡◌, ◌≢◌, refl, sym, ◌∙◌, ap, subst, true, Option, some, ==-eq_false, ==-self,
}
use elastic_translations_mic.Btree.Node.Defs.{Node, null, split_leaf}
use elastic_translations_mic.Btree.Tree.Defs.{Heap}
use elastic_translations_mic.Btree.Tree.Insertion.{
  set_node, insert_into_parent, insert_into_leaf_after_splitting, insert_into_new_root,
}
use elastic_translations_mic.Btree.Tree.NewRoot.{
  fresh_leaf, make_leaf_ready, new_root, insert_into_new_root_lem,
}

module _ (order : ℕ) (allocate fresh : ℕ → ℕ) (root key pointer : ℕ) where
  -- The halves of a leaf, the second at the first free node.
  abbrev pub halves_of : Heap → Node × Node
  halves_of h =
      split_leaf order fresh fresh (h.nodes root) (fresh_leaf order allocate fresh) h.free_nodes key
        pointer

  pub kept_flags :
      (h : Heap)
      → ((halves_of h).0.is_leaf ≡ (h.nodes root).is_leaf)
        × ((halves_of h).1.is_leaf ≡ true)
        × ((halves_of h).0.parent ≡ (h.nodes root).parent)
  unfolding split_leaf
  kept_flags h = (refl, refl, refl)

  at_orphan :
      (h : Heap) (fuel left k right : ℕ)
      → (h.nodes left).parent ≡ null
      → insert_into_parent order allocate fresh (suc fuel) h root left k right
        ≡ some (insert_into_new_root order allocate fresh h left k right)
  unfolding insert_into_parent
  at_orphan h fuel left k right e = rw e refl

  moved :
      (h : Heap) (a : ℕ) (n : Node) (top : ℕ)
      → h.nodes a ≡ n
      → h.free_nodes ≡ top
      → (h' : Heap) → h'.nodes a ≡ record (h.nodes a) { parent = h.free_nodes }
      → h'.nodes a ≡ record n { parent = top }
  moved h a n top e f h' q =
      q
      ∙ ap (λ (m : Node). record m { parent = h.free_nodes }) e
      ∙ ap (λ (x : ℕ). record n { parent = x }) f

  -- What the split of the root leaves, with the new root at `top`.
  abbrev pub Grows : Heap → ℕ → Option (Heap × ℕ) → Type 0
  Grows h top r =
      (h' : Heap) × (r ≡ some (h', top))
      × (h'.nodes top ≡ new_root order allocate fresh root ((halves_of h).1.keys 0) h.free_nodes)
      × (h'.nodes root ≡ record (halves_of h).0 { parent = top })
      × (h'.nodes h.free_nodes ≡ record (halves_of h).1 { parent = top })
      × (h'.words ≡ h.words)
      × (h'.free_nodes ≡ (h.nodes top).next)
      × (h'.free_recs ≡ h.free_recs)

  pub split-Grows :
      (h : Heap) (fuel top : ℕ)
      → (h.nodes root).parent ≡ null
      → h.free_nodes ≢ null
      → (h.nodes h.free_nodes).next ≡ top
      → top ≢ null
      → root ≢ h.free_nodes
      → root ≢ top
      → h.free_nodes ≢ top
      → Grows h top
          (insert_into_leaf_after_splitting order allocate fresh (suc fuel) h root root key pointer)
  unfolding insert_into_leaf_after_splitting set_node
  split-Grows h fuel top orphan p next_free q apart_a apart_b apart_c =
      let a = h.free_nodes in
      let s = halves_of h in
      let (h1, run, at, others, w, f, r) = make_leaf_ready order allocate fresh h p in
      let h2 = set_node (set_node h1 root s.0) a s.1 in
      let left_at : h2.nodes root ≡ s.0 = rw (==-eq_false root a apart_a, ==-self root) refl in
      let right_at : h2.nodes a ≡ s.1 = rw (==-self a) refl in
      let top_at : h2.nodes top ≡ h.nodes top =
        rw (==-eq_false top a (λ e. apart_c (sym e)), ==-eq_false top root (λ e. apart_b (sym e)))
          (others top (λ e. apart_c (sym e))) in
      let top_is : h2.free_nodes ≡ top = f ∙ next_free in
      let (h3, run', at_top, at_left, at_right, w', f', r') =
        insert_into_new_root_lem order allocate fresh h2 root (s.1.keys 0) a
          (λ e. q (sym top_is ∙ e)) apart_a (λ e. apart_b (e ∙ top_is))
          (λ e. apart_c (e ∙ top_is)) in
      (
        h3,
        rw (run, others root apart_a, at)
            (at_orphan h2 fuel root (s.1.keys 0) a
                (ap (λ n. n.parent) left_at ∙ (kept_flags h).2 ∙ orphan)
              ∙ ap some (run' ∙ ap (λ x. (h3, x)) top_is)),
        subst (λ x. h3.nodes x ≡ new_root order allocate fresh root (s.1.keys 0) a) top_is at_top,
        moved h2 root s.0 top left_at top_is h3 at_left,
        moved h2 a s.1 top right_at top_is h3 at_right,
        w' ∙ w,
        f' ∙ ap (λ x. (h2.nodes x).next) top_is ∙ ap (λ n. n.next) top_at,
        r' ∙ r,
      )
