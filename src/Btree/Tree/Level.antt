-- ===== src/Btree/Tree/Level.antt =====
-- The search tree that `insert` of src/benchmarks/btree/btree1.c leaves where a full leaf was the root.
use elastic_translations_mic.Prelude.{
  ℕ, zero, suc, ◌-◌, ◌≤◌, ◌<◌, ◌≡◌, ◌≢◌, refl, sym, ◌∙◌, ap, subst, true, false, arith, ltb, ◌==◌,
  if◌then◌else◌, some, update, ==-eq_false, inl, inr, Bool-cases,
}
use elastic_translations_mic.Btree.Node.Defs.{Node, null, find_in_leaf}
use elastic_translations_mic.Btree.Node.Scan.{cut-bounds}
use elastic_translations_mic.Btree.Node.Lookup.{IsSorted, IsAbsent}
use elastic_translations_mic.Btree.Node.Split.{split_leaf-find, split_leaf-range}
use elastic_translations_mic.Btree.Tree.Defs.{Heap, find, find_leaf}
use elastic_translations_mic.Btree.Tree.Find.{IsTree, IsRanged, Holds, find_lem, at_leaf-cases}
use elastic_translations_mic.Btree.Tree.Frame.{at_leaf}
use elastic_translations_mic.Btree.Tree.Insertion.{insert, insert_into_leaf_after_splitting}
use elastic_translations_mic.Btree.Tree.NewRoot.{fresh_leaf}
use elastic_translations_mic.Btree.Tree.Grow.{halves_of, Grows, split-Grows, kept_flags}
use elastic_translations_mic.Btree.Tree.Update.{make_record_ready}
use elastic_translations_mic.Btree.Tree.TwoLeaves.{two_leaves-IsTree, two_leaves_search}

-- The parent of a leaf counts neither for its range nor for a search in it.
parent-IsRanged :
    (n : Node) (parent low high : ℕ)
    → IsRanged n low high
    → IsRanged (record n { parent = parent }) low high
parent-IsRanged n parent low high w = record {
  rises = w.rises;
  above_low = w.above_low;
  below_high = w.below_high;
}

find_in_leaf-parent :
    (n : Node) (parent k : ℕ) → find_in_leaf (record n { parent = parent }) k ≡ find_in_leaf n k
unfolding find_in_leaf
find_in_leaf-parent n parent k = refl

module _ (order : ℕ) (allocate fresh : ℕ → ℕ) (h : Heap) (root low high key value fuel top : ℕ)
    (order_large : 2 ≤ order) (is_tree : IsTree h 0 root low high) (in_range : low ≤ key)
    (below : key < high) (absent : (v : ℕ) → ¬ Holds h 0 root key v)
    (is_full : (h.nodes root).num_keys ≡ order - 1) (orphan : (h.nodes root).parent ≡ null)
    (has_record : h.free_recs ≢ null) (has_node : h.free_nodes ≢ null)
    (next_free : (h.nodes h.free_nodes).next ≡ top) (has_next : top ≢ null)
    (root_taken : (root ≢ h.free_nodes) × (root ≢ top)) (apart : h.free_nodes ≢ top) where
  abbrev with_record : Heap
  with_record = record h {
    words = update h.words h.free_recs value;
    free_recs = h.words h.free_recs;
  }

  abbrev halves : Node × Node
  halves = halves_of order allocate fresh root key h.free_recs with_record

  lacks : IsAbsent (h.nodes root).keys (h.nodes root).num_keys key
  unfolding Holds
  lacks i b e = absent ((h.nodes root).pointers i) (i, (b, (e, refl)))

  not_found : find h root key (suc fuel) ≡ some (null, root)
  unfolding IsTree
  not_found =
      find_lem h root key (suc fuel) root is_tree.0 (at_leaf h key root fuel is_tree.0 is_tree.1.0)
      ∙ ap (λ (r : ℕ). some (r, root))
          (elim (at_leaf-cases h root key) [
            | inl m ↦ ground (arith, absent (find_in_leaf (h.nodes root) key) m)
            | inr (g, q) ↦ q
          ])

  insert_steps :
      insert order allocate fresh h root key value (suc fuel)
      ≡ insert_into_leaf_after_splitting order allocate fresh
          (suc fuel)
          with_record
          root
          root
          key
          h.free_recs
  unfolding insert find_leaf IsTree
  insert_steps =
      let full : ltb (h.nodes root).num_keys (order - 1) ≡ false = ground (arith, is_full) in
      rw
        (
          not_found,
          make_record_ready allocate h value has_record,
          ==-eq_false root 0 is_tree.0,
          at_leaf with_record key root fuel is_tree.0 is_tree.1.0,
          full,
        )
        refl

  -- The split of the root, and the halves of the leaf.
  facts :
      Grows order allocate fresh root key h.free_recs with_record top
        (insert order allocate fresh h root key value (suc fuel))
      × (halves.0.is_leaf ≡ true)
      × (halves.1.is_leaf ≡ true)
      × (low ≤ halves.1.keys 0)
      × (halves.1.keys 0 < high)
      × IsRanged halves.0 low (halves.1.keys 0)
      × IsRanged halves.1 (halves.1.keys 0) high
      × ((k : ℕ)
          → (if ltb k (halves.1.keys 0) then find_in_leaf halves.0 k else find_in_leaf halves.1 k)
            ≡ (if k == key then h.free_recs else find_in_leaf (h.nodes root) k))
  unfolding IsTree
  facts =
      let w = is_tree.1.1 in
      let (n, m, sorted, sorted', smaller, finds, link, link', parent) =
        split_leaf-find order fresh fresh (h.nodes root) (fresh_leaf order allocate fresh)
          h.free_nodes key h.free_recs order_large is_full refl w.rises lacks in
      let (range, range') =
        split_leaf-range order fresh fresh (h.nodes root) (fresh_leaf order allocate fresh)
          h.free_nodes key h.free_recs order_large is_full refl w.rises lacks low high
          (λ i l. (w.above_low i l, w.below_high i l)) in_range below in
      let flags = kept_flags order allocate fresh root key h.free_recs with_record in
      let some_keys : 0 < halves.1.num_keys =
        omega (arith, m, cut-bounds (order - 1), order_large) in
      let first = range' 0 some_keys in
      (
        subst (λ r. Grows order allocate fresh root key h.free_recs with_record top r)
            (sym insert_steps)
            (split-Grows order allocate fresh root key h.free_recs with_record fuel top orphan
              has_node next_free has_next root_taken.0 root_taken.1 apart),
        flags.0 ∙ is_tree.1.0,
        flags.1,
        first.0,
        first.1,
        record {
          rises = sorted;
          above_low = λ i l. (range i l).0;
          below_high = λ i l. smaller i l;
        },
        record {
          rises = sorted';
          above_low = λ i l. from_first i l sorted';
          below_high = λ i l. (range' i l).1;
        },
        finds,
      )
    where
      from_first :
          (i : ℕ)
          → i < halves.1.num_keys
          → IsSorted halves.1.keys halves.1.num_keys
          → halves.1.keys 0 ≤ halves.1.keys i
      from_first zero l s = omega arith
      from_first (suc i) l s = omega (arith, s 0 (suc i) (omega arith) l)

  -- Inserting a key that a search tree of one leaf does not hold, where the leaf is full and has no
  -- parent, of order at least 2, with a free record and with two free nodes that are not the leaf,
  -- gives a search tree with one more level, whose root is the second of the nodes: with fuel for
  -- its two levels every search finds the new record under the key and what the leaf held under the
  -- others; the record has the value, and all three are taken off the free lists.
  pub insert-grows :
      (h' : Heap) × (insert order allocate fresh h root key value (suc fuel) ≡ some (h', top))
      × IsTree h' 1 top low high
      × ((k f : ℕ)
          → (leaf : ℕ) × (find h' top k (suc (suc f))
              ≡ some (if k == key then h.free_recs else find_in_leaf (h.nodes root) k, leaf)))
      × (h'.words ≡ update h.words h.free_recs value)
      × (h'.free_recs ≡ h.words h.free_recs)
      × (h'.free_nodes ≡ (h.nodes top).next)
  unfolding IsTree
  insert-grows =
      let (
        (h', run, at_top, at_left, at_right, w, f, r),
        leaf_a,
        leaf_b,
        low_k,
        high_k,
        wl,
        wr,
        finds,
      ) =
        facts in
      let a = h.free_nodes in
      let key_at : (h'.nodes top).keys 0 ≡ halves.1.keys 0 = ap (λ n. n.keys 0) at_top in
      let is_inner = ap (λ n. n.is_leaf) at_top in
      let first = ap (λ n. n.pointers 0) at_top in
      let second = ap (λ n. n.pointers 1) at_top in
      let one_key = ap (λ n. n.num_keys) at_top in
      let is_left = ap (λ n. n.is_leaf) at_left ∙ leaf_a in
      let is_right = ap (λ n. n.is_leaf) at_right ∙ leaf_b in
      (
        h',
        run,
        two_leaves-IsTree h' top root a has_next is_tree.0 has_node is_inner one_key first second
            is_left is_right low high (rw key_at low_k) (rw key_at high_k)
            (rw (key_at, at_left) (parent-IsRanged halves.0 top low (halves.1.keys 0) wl))
            (rw (key_at, at_right) (parent-IsRanged halves.1 top (halves.1.keys 0) high wr)),
        λ k g.
            let leaf = if ltb k ((h'.nodes top).keys 0) then root else a in
            (
              leaf,
              find_lem h' top k (suc (suc g)) leaf has_next (
                    two_leaves_search h' top root a has_next is_tree.0 has_node is_inner one_key
                      first second is_left is_right k g)
                  ∙ ap (λ (x : ℕ). some (x, leaf))
                      (side h' k ((h'.nodes top).keys 0) key_at at_left at_right ∙ finds k),
            ),
        w,
        r,
        f,
      )
    where
      side :
          (h' : Heap) (k x : ℕ)
          → x ≡ halves.1.keys 0
          → h'.nodes root ≡ record halves.0 { parent = top }
          → h'.nodes h.free_nodes ≡ record halves.1 { parent = top }
          → find_in_leaf (h'.nodes (if ltb k x then root else h.free_nodes)) k
            ≡ (if ltb k (halves.1.keys 0) then find_in_leaf halves.0 k else find_in_leaf halves.1 k)
      side h' k x e l r = elim (Bool-cases (ltb k (halves.1.keys 0))) [
        | inl q ↦ rw (e, q, l) (find_in_leaf-parent halves.0 top k)
        | inr q ↦ rw (e, q, r) (find_in_leaf-parent halves.1 top k)
      ]
