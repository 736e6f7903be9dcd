-- ===== src/Btree/Tree/Enough.antt =====
-- `delete` of src/benchmarks/btree/btree1.c from a leaf below the root that stays full enough.
use elastic_translations_mic.Prelude.{
  ℕ, suc, ◌-◌, ◌≤◌, ◌<◌, ◌≡◌, ◌≢◌, refl, sym, ◌∙◌, ap, subst, true, arith, leb, some, ==-eq_false,
  update, inl, inr, update_self,
}
use elastic_translations_mic.Btree.Node.Defs.{Node, null, cut, find_in_leaf}
use elastic_translations_mic.Btree.Node.Lookup.{IsSorted, find-Finds}
use elastic_translations_mic.Btree.Node.Deletion.{remove_entry_from_node}
use elastic_translations_mic.Btree.Node.Remove.{removed, without, without-removed, at_place-find}
use elastic_translations_mic.Btree.Tree.Defs.{Heap, find, find_leaf_loop}
use elastic_translations_mic.Btree.Tree.Find.{
  IsTree, IsRanged, find_lem, IsTree-root, find_leaf_loop_lem,
}
use elastic_translations_mic.Btree.Tree.Frame.{update-ChangesLeaf, IsTree-changed}
use elastic_translations_mic.Btree.Tree.Searches.{
  find_leaf_loop-leaf, find_leaf_loop_in_heap, found_under, find_changed,
}
use elastic_translations_mic.Btree.Tree.Insertion.{set_node, free_record}
use elastic_translations_mic.Btree.Tree.Deletion.{delete, delete_entry, min_keys}

without-IsRanged :
    (order : ℕ) (n : Node) (is_leaf : n.is_leaf ≡ true) (fits : n.num_keys ≤ order - 1)
    (is_sorted : IsSorted n.keys n.num_keys)
    (distinct : (i j : ℕ) → i < j → j < n.num_keys → n.pointers i ≢ n.pointers j) (p low high : ℕ)
    → p < n.num_keys
    → suc (without order n p).num_keys ≡ n.num_keys
    → IsSorted (without order n p).keys (without order n p).num_keys
    → IsRanged n low high
    → IsRanged (without order n p) low high
unfolding removed
without-IsRanged order n is_leaf fits is_sorted distinct p low high h less sorted w = record {
  rises = sorted;
  above_low = λ j l. ground (
    arith,
    (without-removed order n 0 0 is_leaf fits is_sorted distinct p j h (omega (arith, less, l))).0,
    w.above_low j,
    w.above_low (suc j),
    less,
    l,
  );
  below_high = λ j l. ground (
    arith,
    (without-removed order n 0 0 is_leaf fits is_sorted distinct p j h (omega (arith, less, l))).0,
    w.below_high j,
    w.below_high (suc j),
    less,
    l,
  );
}

min_keys_leaf : (order : ℕ) (m : Node) → m.is_leaf ≡ true → min_keys order m ≡ cut (order - 1)
unfolding min_keys
min_keys_leaf order m l = rw l refl

module _ (order : ℕ) (h : Heap) (depth root low high key fuel r leaf : ℕ)
    (is_tree : IsTree h depth root low high) (in_range : low ≤ key) (below : key < high)
    (deep : depth < suc fuel) (found : find h root key (suc fuel) ≡ some (r, leaf))
    (is_record : r ≢ null) (inner : leaf ≢ root) (fits : (h.nodes leaf).num_keys ≤ order - 1)
    (enough : cut (order - 1) < (h.nodes leaf).num_keys)
    (distinct : (i j : ℕ)
      → i < j
      → j < (h.nodes leaf).num_keys
      → (h.nodes leaf).pointers i ≢ (h.nodes leaf).pointers j) where
  root_there : root ≢ null
  root_there = IsTree-root h depth root low high is_tree

  -- The leaf, and the place of the pair in it.
  search_lem :
      (find_leaf_loop h key root (suc fuel) ≡ some leaf)
      × IsSorted (h.nodes leaf).keys (h.nodes leaf).num_keys
      × (find_in_leaf (h.nodes leaf) key ≡ r)
  search_lem =
      let (l, f, s, down, up) =
        find_leaf_loop_lem h depth root low high key (suc fuel) is_tree in_range below deep in
      let e = sym (find_lem h root key (suc fuel) l root_there f) ∙ found in
      let q : l ≡ leaf = ground (arith, e) in
      let q' : find_in_leaf (h.nodes l) key ≡ r = ground (arith, e) in
      subst
        (λ x.
          (find_leaf_loop h key root (suc fuel) ≡ some x)
          × IsSorted (h.nodes x).keys (h.nodes x).num_keys
          × (find_in_leaf (h.nodes x) key ≡ r))
        q (f, s, q')

  -- The heap with the leaf changed, and then with the record freed.
  abbrev with_leaf : Node → Heap
  with_leaf m = record h { nodes = update h.nodes leaf m }

  abbrev with_free : Node → Heap
  with_free m = record (with_leaf m) { words = update h.words r h.free_recs; free_recs = r }

  entry_lem :
      (m : Node)
      → remove_entry_from_node order (h.nodes leaf) key r ≡ some m
      → m.is_leaf ≡ true
      → suc m.num_keys ≡ (h.nodes leaf).num_keys
      → delete_entry order (suc fuel) h root leaf key r ≡ some (with_leaf m, root)
  unfolding delete_entry set_node
  entry_lem m e l less =
      let keeps : leb (min_keys order m) m.num_keys ≡ true =
        ground (arith, enough, less, min_keys_leaf order m l) in
      rw (e, ==-eq_false leaf root inner, keeps) refl

  delete_steps :
      (m : Node)
      → delete_entry order (suc fuel) h root leaf key r ≡ some (with_leaf m, root)
      → delete order h root key (suc fuel) ≡ some (with_free m, root)
  unfolding delete free_record
  delete_steps m e =
      let leaf_there = find_leaf_loop_in_heap h key root (suc fuel) leaf search_lem.0 in
      rw (found, ==-eq_false r 0 is_record, ==-eq_false leaf 0 leaf_there, e) refl

  -- Below the root of a search tree, deleting a key from a leaf that has more keys than the least
  -- number for a leaf, which fit in it, and distinct records, where the search finds a record under
  -- the key and has more fuel than levels, keeps the root and the search tree: every search finds
  -- nothing under the key and what it found before under the others; the leaf has one key fewer, and
  -- the record is put in front of the free ones.
  pub delete-enough :
      (h' : Heap) × (delete order h root key (suc fuel) ≡ some (h', root))
      × IsTree h' depth root low high
      × ((k fuel' : ℕ) → find h' root k fuel' ≡ found_under key null k (find h root k fuel'))
      × (suc (h'.nodes leaf).num_keys ≡ (h.nodes leaf).num_keys)
      × (h'.free_recs ≡ r)
      × (h'.words ≡ update h.words r h.free_recs)
  delete-enough =
      let (loop, sorted, at_key) = search_lem in
      let is_leaf = find_leaf_loop-leaf h key root (suc fuel) leaf loop in
      elim (find-Finds (h.nodes leaf) key) [
        | inr (g, q) ↦ ground (arith, is_record (sym at_key ∙ q))
        | inl (p, (small, (a, b))) ↦
            let m = without order (h.nodes leaf) p in
            let (run, less, rises, finds, last) =
              at_place-find order (h.nodes leaf) key r is_leaf fits sorted distinct p small a
                (b ∙ at_key) in
            let ch = update-ChangesLeaf h (with_free m) leaf m refl is_leaf is_leaf in
            let node = update_self h.nodes leaf m in
            (
              with_free m,
              delete_steps m (entry_lem m run is_leaf less),
              IsTree-changed ch depth root low high key (suc fuel) (omega (arith, enough))
                  (λ low' high' a b w.
                    subst (λ n. IsRanged n low' high') (sym node)
                      (without-IsRanged order (h.nodes leaf) is_leaf fits sorted distinct p low'
                        high' small less rises w))
                  is_tree in_range below loop,
              find_changed ch root key (suc fuel) null root_there loop
                  (λ k. ap (λ n. find_in_leaf n k) node ∙ finds k),
              ap (λ n. suc n.num_keys) node ∙ less,
              refl,
              refl,
            )
      ]
