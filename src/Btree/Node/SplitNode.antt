-- ===== src/Btree/Node/SplitNode.antt =====
-- The inner nodes that insert_into_node_after_splitting of src/benchmarks/btree/btree1.c leaves.
use elastic_translations_mic.Prelude.{ℕ, suc, ◌+◌, ◌-◌, ◌≤◌, ◌<◌, ◌≡◌, refl, ◌∙◌, arith}
use elastic_translations_mic.Btree.Node.Defs.{Node, cut, temporary, split_node}
use elastic_translations_mic.Btree.Node.Scan.{temporary_lem, cut-bounds, inserted}
use elastic_translations_mic.Btree.Node.Split.{copy-within, copy-start}

module _ (order : ℕ) (temp_keys temp_pointers : ℕ → ℕ) (old_node new_node : Node)
    (left_index key right : ℕ) (order_large : 2 ≤ order) (is_full : old_node.num_keys ≡ order - 1)
    (is_new : new_node.num_keys ≡ 0) (in_bounds : left_index ≤ old_node.num_keys) where
  abbrev halves : Node × (ℕ × Node)
  halves = split_node order temp_keys temp_pointers old_node new_node left_index key right

  all_keys :
      (j : ℕ)
      → j < order
      → temporary temp_keys old_node.keys old_node.num_keys left_index key j
        ≡ inserted old_node.keys left_index key j
  all_keys j h =
      temporary_lem temp_keys old_node.keys old_node.num_keys left_index key j in_bounds
        (omega arith)

  all_pointers :
      (j : ℕ)
      → j ≤ order
      → temporary temp_pointers old_node.pointers (suc old_node.num_keys) (suc left_index) right j
        ≡ inserted old_node.pointers (suc left_index) right j
  all_pointers j h =
      temporary_lem temp_pointers old_node.pointers (suc old_node.num_keys) (suc left_index) right j
        (omega arith) (omega arith)

  half-bounds : (1 ≤ cut order) × (cut order ≤ order)
  half-bounds = omega (arith, cut-bounds order)

  -- Splitting a full inner node divides the keys, with the new one put in at `left_index`, into
  -- those of the old node, one that goes to the parent, and those of the new node; and the
  -- pointers, with the new one put in a place further, into those of the old node and of the new
  -- one, each with one pointer more than keys. The new node has the same parent.
  pub split_node-inserted :
      (halves.0.num_keys ≡ cut order - 1)
      × (halves.1.1.num_keys ≡ order - cut order)
      × ((j : ℕ) → j < cut order - 1 → halves.0.keys j ≡ inserted old_node.keys left_index key j)
      × (halves.1.0 ≡ inserted old_node.keys left_index key (cut order - 1))
      × ((j : ℕ)
          → j < order - cut order
          → halves.1.1.keys j ≡ inserted old_node.keys left_index key (cut order + j))
      × ((j : ℕ)
          → j < cut order
          → halves.0.pointers j ≡ inserted old_node.pointers (suc left_index) right j)
      × ((j : ℕ)
          → j ≤ order - cut order
          → halves.1.1.pointers j
            ≡ inserted old_node.pointers (suc left_index) right (cut order + j))
      × (halves.1.1.parent ≡ old_node.parent)
  unfolding split_node
  split_node-inserted =
      let b = half-bounds in
      (
        refl,
        omega arith,
        λ j h. copy-start _ old_node.keys (cut order - 1) j h ∙ all_keys j (omega arith),
        all_keys (cut order - 1) (omega arith),
        λ j h.
            copy-within _ new_node.keys (cut order) (order - cut order) j h
            ∙ all_keys (cut order + j) (omega arith),
        λ j h. copy-start _ old_node.pointers (cut order) j h ∙ all_pointers j (omega arith),
        λ j h.
            copy-within _ new_node.pointers (cut order) (suc (order - cut order)) j (omega arith)
            ∙ all_pointers (cut order + j) (omega arith),
        refl,
      )
