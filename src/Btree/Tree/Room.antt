-- ===== src/Btree/Tree/Room.antt =====
-- `insert` of src/benchmarks/btree/btree1.c into a leaf that has room.
use elastic_translations_mic.Prelude.{
  ℕ, suc, ◌-◌, ◌≤◌, ◌<◌, ◌≡◌, ◌≢◌, refl, sym, ◌∙◌, ap, subst, true, arith, ltb, if◌then◌else◌, none,
  some, ==-eq_false, update, inl, inr, update_self, Option,
}
use elastic_translations_mic.Btree.Node.Defs.{
  Node, null, insert_into_leaf, insertion_point, find_in_leaf,
}
use elastic_translations_mic.Btree.Node.Scan.{inserted, insert_at_lem}
use elastic_translations_mic.Btree.Node.Lookup.{IsSorted, IsAbsent, insertion_point-IsPlace}
use elastic_translations_mic.Btree.Node.Insert.{insert_into_leaf-find}
use elastic_translations_mic.Btree.Tree.Defs.{Heap, find, find_leaf, find_leaf_loop}
use elastic_translations_mic.Btree.Tree.Find.{
  IsTree, IsRanged, Holds, find-Holds, find_lem, IsTree-root, find_leaf_loop_lem,
}
use elastic_translations_mic.Btree.Tree.Frame.{
  some_eq, ChangesLeaf, update-ChangesLeaf, IsTree-changed, find_leaf_loop_same,
}
use elastic_translations_mic.Btree.Tree.Searches.{find_leaf_loop-leaf, found_under, find_changed}
use elastic_translations_mic.Btree.Tree.Insertion.{insert, set_node}
use elastic_translations_mic.Btree.Tree.Update.{make_record_ready}

-- The new key comes among keys of the same range.
insert_into_leaf-IsRanged :
    (leaf : Node) (key pointer low high : ℕ)
    → IsAbsent leaf.keys leaf.num_keys key
    → low ≤ key
    → key < high
    → IsRanged leaf low high
    → IsRanged (insert_into_leaf leaf key pointer) low high
unfolding insert_into_leaf inserted
insert_into_leaf-IsRanged leaf key pointer low high absent a b w =
    let n = leaf.num_keys in
    let p = insertion_point leaf key n in
    let place = insertion_point-IsPlace leaf key n w.rises absent in
    let at =
      λ (j : ℕ) (h : j < suc n). insert_at_lem leaf.keys n p key j place.in_bounds (omega arith) in
    record {
      rises = (insert_into_leaf-find leaf key pointer w.rises absent).1.0;
      above_low =
          λ j h. ground (arith, at j h, w.above_low j, w.above_low (j - 1), place.in_bounds);
      below_high =
          λ j h. ground (arith, at j h, w.below_high j, w.below_high (j - 1), place.in_bounds);
    }

abbrev record_of : Option (ℕ × ℕ) → ℕ
record_of none = 0
record_of (some (r, leaf)) = r

module _ (order : ℕ) (allocate fresh : ℕ → ℕ) (h : Heap)
    (depth root low high key value fuel leaf : ℕ) (is_tree : IsTree h depth root low high)
    (in_range : low ≤ key) (below : key < high) (deep : depth < fuel)
    (absent : (v : ℕ) → ¬ Holds h depth root key v) (found : find_leaf h root key fuel ≡ some leaf)
    (some_keys : 0 < (h.nodes leaf).num_keys) (room : (h.nodes leaf).num_keys < order - 1)
    (has_record : h.free_recs ≢ null) where
  -- The heap with the record taken, and with the leaf changed.
  abbrev with_record : Heap
  with_record = record h {
    words = update h.words h.free_recs value;
    free_recs = h.words h.free_recs;
  }

  abbrev with_leaf : Heap
  with_leaf = record with_record {
    nodes = update h.nodes leaf (insert_into_leaf (h.nodes leaf) key h.free_recs);
  }

  root_there : root ≢ null
  root_there = IsTree-root h depth root low high is_tree

  loop_found : find_leaf_loop h key root fuel ≡ some leaf
  unfolding find_leaf
  loop_found =
      subst (λ b. (if b then some null else find_leaf_loop h key root fuel) ≡ some leaf)
        (==-eq_false root 0 root_there) found

  leaf_lem :
      IsSorted (h.nodes leaf).keys (h.nodes leaf).num_keys
      × IsAbsent (h.nodes leaf).keys (h.nodes leaf).num_keys key
  unfolding Holds
  leaf_lem =
      let (l, f, s, down, up) =
        find_leaf_loop_lem h depth root low high key fuel is_tree in_range below deep in
      let q = some_eq l leaf (sym f ∙ loop_found) in
      subst
        (λ x.
          IsSorted (h.nodes x).keys (h.nodes x).num_keys
          × IsAbsent (h.nodes x).keys (h.nodes x).num_keys key)
        q
        (
          s,
          λ i b e.
              absent ((h.nodes l).pointers i) (up ((h.nodes l).pointers i) (i, (b, (e, refl)))),
        )

  changes : ChangesLeaf h with_leaf leaf
  unfolding insert_into_leaf
  changes =
      let was = find_leaf_loop-leaf h key root fuel leaf loop_found in
      update-ChangesLeaf h with_leaf leaf (insert_into_leaf (h.nodes leaf) key h.free_recs) refl was
        was

  record_only : ChangesLeaf h with_record leaf
  record_only =
      let was = find_leaf_loop-leaf h key root fuel leaf loop_found in
      record { same = λ a ne. refl; was_leaf = was; stays_leaf = was }

  not_found : find h root key fuel ≡ some (null, leaf)
  not_found =
      let (r, l, e, same, c) =
        find-Holds h depth root low high key fuel is_tree in_range below deep in
      let found' = find_lem h root key fuel leaf root_there loop_found in
      let nothing : r ≡ null = elim c [ inl m ↦ ground (arith, absent r m) | inr (g, q) ↦ q ] in
      let q = ap (λ o. record_of o) (sym e ∙ found') in
      found' ∙ ap (λ r. some (r, leaf)) (sym q ∙ nothing)

  insert_steps : insert order allocate fresh h root key value fuel ≡ some (with_leaf, root)
  unfolding insert find_leaf set_node
  insert_steps =
      let room' : ltb (h.nodes leaf).num_keys (order - 1) ≡ true = ground (arith, room) in
      rw
        (
          not_found,
          make_record_ready allocate h value has_record,
          ==-eq_false root 0 root_there,
          find_leaf_loop_same record_only key root fuel,
          loop_found,
          room',
        )
        refl

  -- In a search tree, with more fuel than levels and a free record at hand, inserting a key that the
  -- tree does not hold, where the leaf that the search comes to has keys and room, keeps the root
  -- and the search tree: every search finds the new record under the key and what it found before
  -- under the others; the record has the value, no other record changes, and it is taken off the
  -- free list.
  pub insert-room :
      (h' : Heap) × (insert order allocate fresh h root key value fuel ≡ some (h', root))
      × IsTree h' depth root low high
      × ((k fuel' : ℕ) → find h' root k fuel' ≡ found_under key h.free_recs k (find h root k fuel'))
      × ((h'.nodes leaf).num_keys ≡ suc (h.nodes leaf).num_keys)
      × (h'.words ≡ update h.words h.free_recs value)
      × (h'.free_recs ≡ h.words h.free_recs)
  insert-room =
      let (sorted, lacks) = leaf_lem in
      let new = insert_into_leaf-find (h.nodes leaf) key h.free_recs sorted lacks in
      let node = update_self h.nodes leaf (insert_into_leaf (h.nodes leaf) key h.free_recs) in
      (
        with_leaf,
        insert_steps,
        IsTree-changed changes depth root low high key fuel some_keys
            (λ low' high' a b w.
              subst (λ n. IsRanged n low' high') (sym node)
                (insert_into_leaf-IsRanged (h.nodes leaf) key h.free_recs low' high' lacks a b w))
            is_tree in_range below loop_found,
        find_changed changes root key fuel h.free_recs root_there loop_found
            (λ k. ap (λ n. find_in_leaf n k) node ∙ new.1.1.0 k),
        ap (λ n. n.num_keys) node ∙ new.0,
        refl,
        refl,
      )
