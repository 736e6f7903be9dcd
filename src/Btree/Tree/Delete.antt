-- ===== src/Btree/Tree/Delete.antt =====
-- `delete` of src/benchmarks/btree/btree1.c: a key that is not there, and a key of a
-- root that is a leaf.
use elastic_translations_mic.Prelude.{
  ℕ, suc, ◌-◌, ◌≤◌, ◌<◌, ◌≡◌, ◌≢◌, inl, inr, refl, sym, subst, true, arith, ltb, ◌==◌,
  if◌then◌else◌, some, ==-eq_false, ==-self, update_self,
}
use elastic_translations_mic.Btree.Node.Defs.{Node, null, find_in_leaf}
use elastic_translations_mic.Btree.Tree.Defs.{Heap, find, find_leaf_loop}
use elastic_translations_mic.Btree.Tree.Find.{IsTree, Holds, find-Holds, find_lem}
use elastic_translations_mic.Btree.Tree.Deletion.{delete, delete_entry, adjust_root}
use elastic_translations_mic.Btree.Tree.Insertion.{set_node, free_record}
use elastic_translations_mic.Btree.Node.Deletion.{remove_entry_from_node}
use elastic_translations_mic.Btree.Node.Remove.{remove_entry_from_node-find}
use elastic_translations_mic.Btree.Node.Lookup.{IsSorted}

delete-null :
    (order : ℕ) (h : Heap) (root key fuel leaf : ℕ)
    → find h root key fuel ≡ some (null, leaf)
    → delete order h root key fuel ≡ some (h, root)
unfolding delete
delete-null order h root key fuel leaf e = rw e refl

-- Deleting a key that a search tree does not hold, with more fuel than levels, changes nothing.
pub delete-absent :
    (order : ℕ) (h : Heap) (depth root low high key fuel : ℕ)
    → IsTree h depth root low high
    → low ≤ key
    → key < high
    → depth < fuel
    → ((v : ℕ) → ¬ Holds h depth root key v)
    → delete order h root key fuel ≡ some (h, root)
delete-absent order h depth root low high key fuel t a b l none_held =
    let (r, leaf, e, same, c) = find-Holds h depth root low high key fuel t a b l in
    delete-null order h root key fuel leaf (
      subst (λ x. find h root key fuel ≡ some (x, leaf))
        (elim c [ inl m ↦ ground (arith, none_held r m) | inr (g, q) ↦ q ]) e)

module _ (order : ℕ) (h : Heap) (root low high key fuel r : ℕ) (is_tree : IsTree h 0 root low high)
    (fits : (h.nodes root).num_keys ≤ order - 1)
    (distinct : (i j : ℕ)
      → i < j
      → j < (h.nodes root).num_keys
      → (h.nodes root).pointers i ≢ (h.nodes root).pointers j)
    (two_keys : 2 ≤ (h.nodes root).num_keys) (found : find_in_leaf (h.nodes root) key ≡ r)
    (is_record : r ≢ null) where
  find_at_root : find h root key (suc fuel) ≡ some (r, root)
  unfolding IsTree find_leaf_loop
  find_at_root =
      subst (λ x. find h root key (suc fuel) ≡ some (x, root)) found
        (find_lem h root key (suc fuel) root is_tree.0
          (rw (==-eq_false root 0 is_tree.0, is_tree.1.0) refl))

  entry_lem :
      (m : Node)
      → remove_entry_from_node order (h.nodes root) key r ≡ some m
      → 1 ≤ m.num_keys
      → delete_entry order (suc fuel) h root root key r ≡ some (set_node h root m, root)
  unfolding delete_entry adjust_root set_node
  entry_lem m e l = rw (e, ==-self root, positive m.num_keys l) refl
    where
      positive : (n : ℕ) → 1 ≤ n → ltb 0 n ≡ true
      positive n k = ground arith

  delete_steps :
      (h' : Heap)
      → find h root key (suc fuel) ≡ some (r, root)
      → delete_entry order (suc fuel) h root root key r ≡ some (h', root)
      → delete order h root key (suc fuel) ≡ some (free_record h' r, root)
  unfolding delete IsTree
  delete_steps h' e d = rw (e, ==-eq_false r 0 is_record, ==-eq_false root 0 is_tree.0, d) refl

  -- In a tree of one leaf with at least two keys, which fit in it, and with distinct records,
  -- deleting a key that the search finds keeps the root: its leaf has one key fewer, still sorted; a
  -- search of the leaf finds nothing under the key and under the others what it found before; and
  -- the record is the first free one.
  pub delete-leaf :
      (h' : Heap) × (delete order h root key (suc fuel) ≡ some (h', root))
      × (suc (h'.nodes root).num_keys ≡ (h.nodes root).num_keys)
      × IsSorted (h'.nodes root).keys (h'.nodes root).num_keys
      × ((k : ℕ)
          → find_in_leaf (h'.nodes root) k
            ≡ (if k == key then null else find_in_leaf (h.nodes root) k))
      × (h'.free_recs ≡ r)
      × (h'.words r ≡ h.free_recs)
  unfolding IsTree free_record set_node
  delete-leaf =
      let (m, e, n, s, f, last) =
        remove_entry_from_node-find order (h.nodes root) key r is_tree.1.0 fits is_tree.1.1.rises
          distinct found is_record in
      let node = update_self h.nodes root m in
      (
        free_record (set_node h root m) r,
        delete_steps (set_node h root m) find_at_root (entry_lem m e (omega (arith, n, two_keys))),
        subst (λ x. suc x.num_keys ≡ (h.nodes root).num_keys) (sym node) n,
        subst (λ x. IsSorted x.keys x.num_keys) (sym node) s,
        subst
            (λ x.
              (k : ℕ)
              → find_in_leaf x k ≡ (if k == key then null else find_in_leaf (h.nodes root) k))
            (sym node) f,
        refl,
        update_self h.words r h.free_recs,
      )
