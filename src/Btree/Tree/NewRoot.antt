-- ===== src/Btree/Tree/NewRoot.antt =====
-- make_leaf and insert_into_new_root of src/benchmarks/btree/btree1.c, with nodes on the free list.
use elastic_translations_mic.Prelude.{
  ℕ, ◌≡◌, ◌≢◌, refl, ap, true, false, arith, ◌==◌, update, ==-eq_false, ==-self,
}
use elastic_translations_mic.Btree.Node.Defs.{Node, null}
use elastic_translations_mic.Btree.Tree.Defs.{Heap}
use elastic_translations_mic.Btree.Tree.Insertion.{
  make_node, make_leaf, set_node, set_parent, insert_into_new_root,
}
use elastic_translations_mic.Btree.Tree.Update.{alloc_node_ready}

module _ (order : ℕ) (allocate fresh : ℕ → ℕ) where
  -- The node that make_leaf fills.
  abbrev pub fresh_leaf : Node
  fresh_leaf = record {
    keys = fresh;
    pointers = fresh;
    parent = null;
    is_leaf = true;
    num_keys = 0;
    next = null;
  }

  pub make_leaf_ready :
      (h : Heap)
      → h.free_nodes ≢ null
      → (h' : Heap) × (make_leaf order allocate fresh h ≡ (h', h.free_nodes))
        × (h'.nodes h.free_nodes ≡ fresh_leaf)
        × ((a : ℕ) → a ≢ h.free_nodes → h'.nodes a ≡ h.nodes a)
        × (h'.words ≡ h.words)
        × (h'.free_nodes ≡ (h.nodes h.free_nodes).next)
        × (h'.free_recs ≡ h.free_recs)
  unfolding make_leaf make_node set_node
  make_leaf_ready h p =
      let t = make_leaf order allocate fresh h in
      (
        t.0,
        ap (λ x. (t.0, x)) second,
        rw (alloc_node_ready allocate h p, ==-self h.free_nodes) refl,
        λ a ne. rw (alloc_node_ready allocate h p, ==-eq_false a h.free_nodes ne) refl,
        rw (alloc_node_ready allocate h p) refl,
        rw (alloc_node_ready allocate h p) refl,
        rw (alloc_node_ready allocate h p) refl,
      )
    where
      second : (make_leaf order allocate fresh h).1 ≡ h.free_nodes
      second = rw (alloc_node_ready allocate h p) refl

  -- The root that insert_into_new_root makes.
  abbrev pub new_root : ℕ → ℕ → ℕ → Node
  new_root left key right = record {
    keys = update fresh 0 key;
    pointers = update (update fresh 0 left) 1 right;
    parent = null;
    is_leaf = false;
    num_keys = 1;
    next = null;
  }

  pub insert_into_new_root_lem :
      (h : Heap) (left key right : ℕ)
      → h.free_nodes ≢ null
      → left ≢ right
      → left ≢ h.free_nodes
      → right ≢ h.free_nodes
      → (h' : Heap) × (insert_into_new_root order allocate fresh h left key right
          ≡ (h', h.free_nodes))
        × (h'.nodes h.free_nodes ≡ new_root left key right)
        × (h'.nodes left ≡ record (h.nodes left) { parent = h.free_nodes })
        × (h'.nodes right ≡ record (h.nodes right) { parent = h.free_nodes })
        × (h'.words ≡ h.words)
        × (h'.free_nodes ≡ (h.nodes h.free_nodes).next)
        × (h'.free_recs ≡ h.free_recs)
  unfolding insert_into_new_root make_node set_node set_parent
  insert_into_new_root_lem h left key right p apart left_old right_old =
      let t = insert_into_new_root order allocate fresh h left key right in
      let a = h.free_nodes in
      (
        t.0,
        ap (λ x. (t.0, x)) second,
        rw
            (
              alloc_node_ready allocate h p,
              ==-self a,
              swapped a left left_old,
              swapped a right right_old,
            )
            refl,
        rw
            (
              alloc_node_ready allocate h p,
              ==-self left,
              ==-eq_false left right apart,
              ==-eq_false left a left_old,
            )
            refl,
        rw
            (
              alloc_node_ready allocate h p,
              ==-self right,
              swapped right left apart,
              ==-eq_false right a right_old,
            )
            refl,
        rw (alloc_node_ready allocate h p) refl,
        rw (alloc_node_ready allocate h p) refl,
        rw (alloc_node_ready allocate h p) refl,
      )
    where
      swapped : (x y : ℕ) → y ≢ x → (x == y) ≡ false
      swapped x y ne = ground (arith, ne)

      second : (insert_into_new_root order allocate fresh h left key right).1 ≡ h.free_nodes
      second = rw (alloc_node_ready allocate h p) refl
