-- ===== src/Btree/Tree/Update.antt =====
-- `insert` of src/benchmarks/btree/btree1.c where no node changes its place: a key that is there, and
-- the first key of all.
use elastic_translations_mic.Prelude.{
  ℕ, ◌-◌, ◌≤◌, ◌<◌, ◌≡◌, ◌≢◌, refl, sym, ◌∙◌, ap, subst, true, arith, some, ==-eq_false, update,
  update_self, ==-self,
}
use elastic_translations_mic.Btree.Node.Defs.{Node, null}
use elastic_translations_mic.Btree.Tree.Defs.{Heap, find}
use elastic_translations_mic.Btree.Tree.Find.{IsTree, IsRanged, Holds, find-Holds}
use elastic_translations_mic.Btree.Tree.Insertion.{
  insert, make_record, alloc_record, alloc_node, make_node, make_leaf, start_new_tree, set_node,
}

module _ (order : ℕ) (allocate fresh : ℕ → ℕ) (h : Heap)
    (depth root low high key value fuel r : ℕ) where
  update_lem :
      (leaf : ℕ)
      → r ≢ null
      → find h root key fuel ≡ some (r, leaf)
      → insert order allocate fresh h root key value fuel
        ≡ some (record h { words = update h.words r value }, root)
  unfolding insert
  update_lem leaf p e = rw (e, ==-eq_false r 0 p) refl

  -- Inserting a key that a search tree holds with a record, with more fuel than levels, keeps the
  -- tree and its root and overwrites the value in that record only.
  pub insert-update :
      IsTree h depth root low high
      → low ≤ key
      → key < high
      → depth < fuel
      → Holds h depth root key r
      → r ≢ null
      → insert order allocate fresh h root key value fuel
        ≡ some (record h { words = update h.words r value }, root)
  insert-update t a b l m p =
      let (r', leaf, e, same, c) = find-Holds h depth root low high key fuel t a b l in
      update_lem leaf p (subst (λ x. find h root key fuel ≡ some (x, leaf)) (sym (same r m)) e)

pub alloc_node_ready :
    (allocate : ℕ → ℕ) (h : Heap)
    → h.free_nodes ≢ null
    → alloc_node allocate h ≡ (record h { free_nodes = (h.nodes h.free_nodes).next }, h.free_nodes)
unfolding alloc_node
alloc_node_ready allocate h p = rw (==-eq_false h.free_nodes 0 p) refl

pub make_record_ready :
    (allocate : ℕ → ℕ) (h : Heap) (value : ℕ)
    → h.free_recs ≢ null
    → make_record allocate h value ≡ (
      record h { words = update h.words h.free_recs value; free_recs = h.words h.free_recs },
      h.free_recs,
    )
unfolding make_record alloc_record
make_record_ready allocate h value p = rw (==-eq_false h.free_recs 0 p) refl

module _ (order : ℕ) (allocate fresh : ℕ → ℕ) (h : Heap) (key pointer : ℕ) where
  -- The leaf that start_new_tree makes.
  abbrev first_leaf : Node
  first_leaf = record {
    keys = update fresh 0 key;
    pointers = update (update fresh 0 pointer) (order - 1) null;
    parent = null;
    is_leaf = true;
    num_keys = 1;
    next = null;
  }

  start_new_tree_lem :
      h.free_nodes ≢ null
      → (h' : Heap) × (start_new_tree order allocate fresh h key pointer ≡ (h', h.free_nodes))
        × (h'.nodes h.free_nodes ≡ first_leaf)
        × (h'.words ≡ h.words)
        × (h'.free_nodes ≡ (h.nodes h.free_nodes).next)
        × (h'.free_recs ≡ h.free_recs)
  unfolding start_new_tree make_leaf make_node set_node
  start_new_tree_lem p =
      let t = start_new_tree order allocate fresh h key pointer in
      (
        t.0,
        ap (λ x. (t.0, x)) at_node,
        rw (alloc_node_ready allocate h p, ==-self h.free_nodes) refl,
        rw (alloc_node_ready allocate h p) refl,
        rw (alloc_node_ready allocate h p) refl,
        rw (alloc_node_ready allocate h p) refl,
      )
    where
      at_node : (start_new_tree order allocate fresh h key pointer).1 ≡ h.free_nodes
      at_node = rw (alloc_node_ready allocate h p) refl

  first_leaf-IsRanged : (low high : ℕ) → low ≤ key → key < high → IsRanged first_leaf low high
  first_leaf-IsRanged low high a b = record {
    rises = λ i j l k. omega (arith, l, k);
    above_low = λ i l. ground arith;
    below_high = λ i l. ground arith;
  }

insert_first :
    (order : ℕ) (allocate fresh : ℕ → ℕ) (h : Heap) (key value fuel : ℕ)
    → h.free_recs ≢ null
    → insert order allocate fresh h null key value fuel
      ≡ some (
          start_new_tree order allocate fresh
            (record h { words = update h.words h.free_recs value; free_recs = h.words h.free_recs })
            key
            h.free_recs)
unfolding insert find
insert_first order allocate fresh h key value fuel p =
    rw (make_record_ready allocate h value p) refl

module _ (order : ℕ) (allocate fresh : ℕ → ℕ) (h : Heap) (low high key value fuel : ℕ)
    (order_large : 2 ≤ order) (has_node : h.free_nodes ≢ null) (has_record : h.free_recs ≢ null)
    (in_range : low ≤ key) (below : key < high) where
  -- With a free node and a free record at hand, inserting a key into the empty tree gives a search
  -- tree of one leaf, which holds the key with a record that has the value, and takes both off the
  -- free lists.
  pub insert-empty :
      (h' : Heap) × (insert order allocate fresh h null key value fuel ≡ some (h', h.free_nodes))
      × IsTree h' 0 h.free_nodes low high
      × Holds h' 0 h.free_nodes key h.free_recs
      × (h'.words h.free_recs ≡ value)
      × (h'.free_nodes ≡ (h.nodes h.free_nodes).next)
      × (h'.free_recs ≡ h.words h.free_recs)
  unfolding IsTree Holds
  insert-empty =
      let (h', e, n, w, f, r) =
        start_new_tree_lem order allocate fresh
          (record h { words = update h.words h.free_recs value; free_recs = h.words h.free_recs })
          key h.free_recs has_node in
      (
        h',
        insert_first order allocate fresh h key value fuel has_record ∙ ap some e,
        (
          has_node,
          (
            ap (λ x. x.is_leaf) n,
            subst (λ x. IsRanged x low high) (sym n)
                (first_leaf-IsRanged order allocate fresh h key h.free_recs low high in_range
                  below),
          ),
        ),
        subst
            (λ x. (i : ℕ) × ((i < x.num_keys) × ((x.keys i ≡ key) × (x.pointers i ≡ h.free_recs))))
            (sym n) (0, (omega arith, (refl, ground arith))),
        ap (λ x. x h.free_recs) w ∙ update_self h.words h.free_recs value,
        f,
        r,
      )
