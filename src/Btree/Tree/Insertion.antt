-- ===== src/Btree/Tree/Insertion.antt =====
-- Insertion into the tree of src/benchmarks/btree/btree1.c, with the allocators of nodes and records.
-- `allocate` gives the address of each slab, by the number of the call, and `fresh` what every newly
-- allocated array has in it; both come from the C library.
use elastic_translations_mic.Prelude.{
  ℕ, zero, suc, ◌+◌, ◌-◌, ◌*◌, ◌/◌, ◌^◌, true, false, not, ◌==◌, ltb, if◌then◌else◌, update, Option,
  none, some, ◌>>=◌,
}
use elastic_translations_mic.Btree.Node.Defs.{
  Node, null, get_left_index, insert_into_leaf, insert_into_node, split_leaf, split_node,
}
use elastic_translations_mic.Btree.Tree.Defs.{Heap, find, find_leaf}

-- sizeof(struct node), sizeof(struct record), and NODE_SLAB_GROW and RECORD_SLAB_GROW.
abbrev pub node_size : ℕ
node_size = 48

abbrev pub record_size : ℕ
record_size = 16

abbrev pub slab_grow : ℕ
slab_grow = 2 ^ 18

unfoldable pub set_node : Heap → ℕ → Node → Heap
set_node h a n = record h { nodes = update h.nodes a n }

-- The loops that put the places of a slab on the free list.
unfoldable pub grow_nodes : Heap → ℕ → ℕ → ℕ → Heap
grow_nodes h base i zero = h
grow_nodes h base i (suc n) =
    let a = base + node_size * i in
    let h' = set_node h a (record (h.nodes a) { next = h.free_nodes }) in
    grow_nodes (record h' { free_nodes = a }) base (suc i) n

unfoldable pub grow_records : Heap → ℕ → ℕ → ℕ → Heap
grow_records h base i zero = h
grow_records h base i (suc n) =
    let a = base + record_size * i in
    grow_records (record h { words = update h.words a h.free_recs; free_recs = a }) base (suc i) n

unfoldable pub free_node : Heap → ℕ → Heap
free_node h n = record (set_node h n (record (h.nodes n) { next = h.free_nodes })) {
  free_nodes = n;
}

unfoldable pub free_record : Heap → ℕ → Heap
free_record h r = record h { words = update h.words r h.free_recs; free_recs = r }

-- `root->parent = ...` and the like.
unfoldable pub set_parent : Heap → ℕ → ℕ → Heap
set_parent h c parent = set_node h c (record (h.nodes c) { parent = parent })

-- `for (; n > 0; i++, n--) pointers[i]->parent = parent;`.
unfoldable pub set_parents : Heap → (ℕ → ℕ) → ℕ → ℕ → ℕ → Heap
set_parents h pointers parent i zero = h
set_parents h pointers parent i (suc n) =
    set_parents (set_parent h (pointers i) parent) pointers parent (suc i) n

module _ (allocate : ℕ → ℕ) where
  unfoldable pub alloc_node : Heap → Heap × ℕ
  alloc_node h =
      let grown =
        if h.free_nodes == null
        then grow_nodes (record h { calls = suc h.calls }) (allocate h.calls) 0
            (slab_grow / node_size)
        else h in
      (record grown { free_nodes = (grown.nodes grown.free_nodes).next }, grown.free_nodes)

  unfoldable pub alloc_record : Heap → Heap × ℕ
  alloc_record h =
      let grown =
        if h.free_recs == null
        then grow_records (record h { calls = suc h.calls }) (allocate h.calls) 0
            (slab_grow / record_size)
        else h in
      (record grown { free_recs = grown.words grown.free_recs }, grown.free_recs)

  unfoldable pub make_record : Heap → ℕ → Heap × ℕ
  make_record h value =
      let p = alloc_record h in (record p.0 { words = update p.0.words p.1 value }, p.1)

module _ (order : ℕ) (allocate fresh : ℕ → ℕ) where
  unfoldable pub make_node : Heap → Heap × ℕ
  make_node h =
      let p = alloc_node allocate h in
      (
        set_node p.0 p.1 (record {
          keys = fresh;
          pointers = fresh;
          parent = null;
          is_leaf = false;
          num_keys = 0;
          next = null;
        }),
        p.1,
      )

  unfoldable pub make_leaf : Heap → Heap × ℕ
  make_leaf h =
      let p = make_node h in (set_node p.0 p.1 (record (p.0.nodes p.1) { is_leaf = true }), p.1)

  unfoldable pub start_new_tree : Heap → ℕ → ℕ → Heap × ℕ
  start_new_tree h key pointer =
      let p = make_leaf h in
      let root = p.0.nodes p.1 in
      (
        set_node p.0 p.1 (record root {
          keys = update root.keys 0 key;
          pointers = update (update root.pointers 0 pointer) (order - 1) null;
          parent = null;
          num_keys = suc root.num_keys;
        }),
        p.1,
      )

  unfoldable pub insert_into_new_root : Heap → ℕ → ℕ → ℕ → Heap × ℕ
  insert_into_new_root h left key right =
      let p = make_node h in
      let root = p.0.nodes p.1 in
      let h' = set_node p.0 p.1 (record root {
        keys = update root.keys 0 key;
        pointers = update (update root.pointers 0 left) 1 right;
        num_keys = suc root.num_keys;
        parent = null;
      }) in
      (set_parent (set_parent h' left p.1) right p.1, p.1)

  -- The part of insert_into_node_after_splitting before it turns to the parent: the heap, the key
  -- for the parent and the new node.
  unfoldable pub split_inner : Heap → ℕ → ℕ → ℕ → ℕ → Heap × (ℕ × ℕ)
  split_inner h old_node left_index key right =
      let p = make_node h in
      let s =
        split_node order fresh fresh (p.0.nodes old_node) (p.0.nodes p.1) left_index key right in
      let h' = set_node (set_node p.0 old_node s.0) p.1 s.1.1 in
      (set_parents h' s.1.1.pointers p.1 0 (suc s.1.1.num_keys), (s.1.0, p.1))

  -- insert_into_parent, with insert_into_node_after_splitting; fuel for the levels. The heap and
  -- the root are returned.
  unfoldable pub insert_into_parent : ℕ → Heap → ℕ → ℕ → ℕ → ℕ → Option (Heap × ℕ)
  insert_into_parent zero h root left key right = none
  insert_into_parent (suc fuel) h root left key right =
      let parent = (h.nodes left).parent in
      let n = h.nodes parent in
      let left_index = get_left_index n left in
      let s = split_inner h parent left_index key right in
      let rest = insert_into_parent fuel s.0 root parent s.1.0 s.1.1 in
      if parent == null
      then some (insert_into_new_root h left key right)
      else if ltb n.num_keys (order - 1)
      then some (set_node h parent (insert_into_node n left_index key right), root)
      else rest

  unfoldable pub insert_into_leaf_after_splitting : ℕ → Heap → ℕ → ℕ → ℕ → ℕ → Option (Heap × ℕ)
  insert_into_leaf_after_splitting fuel h root leaf key pointer =
      let p = make_leaf h in
      let s = split_leaf order fresh fresh (p.0.nodes leaf) (p.0.nodes p.1) p.1 key pointer in
      insert_into_parent fuel (set_node (set_node p.0 leaf s.0) p.1 s.1) root leaf (s.1.keys 0) p.1

  -- `insert`: the heap and the root.
  unfoldable pub insert : Heap → ℕ → ℕ → ℕ → ℕ → Option (Heap × ℕ)
  insert h root key value fuel = do
    found ← find h root key fuel
    if not (found.0 == null)
        then some (record h { words = update h.words found.0 value }, root)
        else (let p = make_record allocate h value in
            if root == null then some (start_new_tree p.0 key p.1) else (do
              leaf ← find_leaf p.0 root key fuel
              if ltb (p.0.nodes leaf).num_keys (order - 1)
                  then some (set_node p.0 leaf (insert_into_leaf (p.0.nodes leaf) key p.1), root)
                  else insert_into_leaf_after_splitting fuel p.0 root leaf key p.1))
