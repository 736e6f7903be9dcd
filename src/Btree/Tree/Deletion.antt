-- ===== src/Btree/Tree/Deletion.antt =====
-- Deletion from the tree of src/benchmarks/btree/btree1.c. Where the code frees the arrays of a node,
-- nothing reads them any more.
use elastic_translations_mic.Prelude.{
  ℕ, zero, suc, ◌+◌, ◌-◌, ◌^◌, not, ◌||◌, ◌==◌, ltb, leb, if◌then◌else◌, update, Option, none, some,
  ◌>>=◌,
}
use elastic_translations_mic.Btree.Node.Defs.{Node, null, cut, scan}
use elastic_translations_mic.Btree.Node.Deletion.{
  dec, remove_entry_from_node, merge_leaves, merge_nodes, take_last, take_first,
}
use elastic_translations_mic.Btree.Tree.Defs.{Heap, find}
use elastic_translations_mic.Btree.Tree.Insertion.{
  set_node, set_parent, set_parents, free_node, free_record,
}

-- The index -1 in 64 bits.
abbrev pub minus_one : ℕ
minus_one = 2 ^ 64 - 1

-- Without a pointer to the node in its parent the program exits.
unfoldable pub get_neighbor_index : Heap → ℕ → Option ℕ
get_neighbor_index h n =
    let parent = (h.nodes n).parent in
    let p = h.nodes parent in
    let i = scan (λ j. not (p.pointers j == n)) 0 (suc p.num_keys) in
    if (parent == null) || (i == suc p.num_keys) then none else some (dec i)

unfoldable pub adjust_root : Heap → ℕ → Heap × ℕ
adjust_root h root =
    let r = h.nodes root in
    if ltb 0 r.num_keys
    then (h, root)
    else if r.is_leaf
    then (free_node h root, null)
    else (free_node (set_parent h (r.pointers 0) null) root, r.pointers 0)

-- redistribute_nodes.
unfoldable pub redistribute_nodes : Heap → ℕ → ℕ → ℕ → ℕ → ℕ → Heap
redistribute_nodes h n neighbor neighbor_index k_prime_index k_prime =
    let a = h.nodes n in
    let b = h.nodes neighbor in
    let to_left = neighbor_index == minus_one in
    let t = if to_left then take_first a b k_prime else take_last a b k_prime in
    let h' = set_node (set_node h n t.0) neighbor t.1.0 in
    let p = h'.nodes a.parent in
    let h'' = set_node h' a.parent (record p { keys = update p.keys k_prime_index t.1.1 }) in
    let moved = if to_left then t.0.pointers (suc a.num_keys) else t.0.pointers 0 in
    if a.is_leaf then h'' else set_parent h'' moved n

module _ (order : ℕ) where
  -- coalesce_nodes up to its call of delete_entry, after the swap.
  unfoldable pub merge_into : Heap → ℕ → ℕ → ℕ → Heap
  merge_into h n neighbor k_prime =
      let a = h.nodes n in
      let b = h.nodes neighbor in
      let merged = merge_nodes a b k_prime in
      if a.is_leaf
      then set_node h neighbor (merge_leaves order a b)
      else set_parents (set_node (set_node h neighbor merged) n (record a { num_keys = 0 }))
          merged.pointers neighbor 0 (suc merged.num_keys)

  unfoldable pub min_keys : Node → ℕ
  min_keys n = if n.is_leaf then cut (order - 1) else cut order - 1

  unfoldable pub capacity : Node → ℕ
  capacity n = if n.is_leaf then order else order - 1

  -- delete_entry, with coalesce_nodes; fuel for the levels. The heap and the root are returned.
  unfoldable pub delete_entry : ℕ → Heap → ℕ → ℕ → ℕ → ℕ → Option (Heap × ℕ)
  delete_entry zero h root n key pointer = none
  delete_entry (suc fuel) h root n key pointer = do
    m ← remove_entry_from_node order (h.nodes n) key pointer
    let h' = set_node h n m
    if n == root
        then some (adjust_root h' root)
        else (if leb (min_keys m) m.num_keys then some (h', root) else (do
          i ← get_neighbor_index h' n
          let parent = h'.nodes m.parent
          let k_prime_index = if i == minus_one then 0 else i
          let k_prime = parent.keys k_prime_index
          let neighbor = if i == minus_one then parent.pointers 1 else parent.pointers i
          if ltb ((h'.nodes neighbor).num_keys + m.num_keys) (capacity m)
              then (let from = if i == minus_one then neighbor else n in
                  let into = if i == minus_one then n else neighbor in
                  let merged = merge_into h' from into k_prime in
                  delete_entry fuel merged root (merged.nodes from).parent k_prime from >>= λ p.
                  some (free_node p.0 from, p.1))
              else some (redistribute_nodes h' n neighbor i k_prime_index k_prime, root)))

  -- `delete`: the heap and the root.
  unfoldable pub delete : Heap → ℕ → ℕ → ℕ → Option (Heap × ℕ)
  delete h root key fuel = do
    found ← find h root key fuel
    if (found.0 == null) || (found.1 == null)
        then some (h, root)
        else (delete_entry fuel h root found.1 key found.0 >>= λ p.
            some (free_record p.0 found.0, p.1))
