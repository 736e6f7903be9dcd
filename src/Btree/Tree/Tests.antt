-- ===== src/Btree/Tree/Tests.antt =====
-- Runs of the tree of src/benchmarks/btree/btree1.c, of order 4.
use elastic_translations_mic.Prelude.{
  update, ℕ, zero, suc, ◌+◌, ◌*◌, ◌≡◌, ◌≤◌, ◌⊎◌, refl, arith, List, [], ◌∷◌, true, false, ◌==◌,
  if◌then◌else◌, Option, some, ◌>>=◌,
}
use elastic_translations_mic.Btree.Tests.{program}
use elastic_translations_mic.Btree.Node.Defs.{null}
use elastic_translations_mic.Btree.Tree.Defs.{Heap, find_leaf_loop, find_leaf, find, height}
use elastic_translations_mic.Btree.Tree.Find.{IsTree, IsRanged, Holds, lower, upper, find-Holds}
use elastic_translations_mic.Btree.Tree.Deletion.{
  get_neighbor_index, adjust_root, redistribute_nodes, merge_into, min_keys, capacity, delete_entry,
  delete,
}
use elastic_translations_mic.Btree.Tree.Delete.{delete-absent, delete-leaf}
use elastic_translations_mic.Btree.Node.Defs.{find_in_leaf}
use elastic_translations_mic.Btree.Node.Lookup.{IsSorted}
use elastic_translations_mic.Btree.Tree.Update.{insert-update, insert-empty}
use elastic_translations_mic.Btree.Tree.Insertion.{
  set_node, grow_nodes, grow_records, free_node, free_record, set_parent, set_parents, alloc_node,
  alloc_record, make_record, make_node, make_leaf, start_new_tree, insert_into_new_root,
  split_inner, insert_into_parent, insert_into_leaf_after_splitting, insert,
}

unfoldable pub tree_program : Unit {0}
unfolding program find_leaf_loop find_leaf find height set_node grow_nodes grow_records free_node
    free_record set_parent set_parents alloc_node alloc_record make_record make_node make_leaf
    start_new_tree insert_into_new_root split_inner insert_into_parent
    insert_into_leaf_after_splitting insert get_neighbor_index adjust_root redistribute_nodes
    merge_into min_keys capacity delete_entry delete
tree_program = tt

abbrev pub zeros : ℕ → ℕ
zeros i = 0

-- Free nodes 1, 2, ... and free records 101, 102, ...
abbrev start_heap : Heap
start_heap = record {
  nodes = λ a. record {
    keys = zeros;
    pointers = zeros;
    parent = 0;
    is_leaf = false;
    num_keys = 0;
    next = suc a;
  };
  words = λ r. suc r;
  free_nodes = 1;
  free_recs = 101;
  calls = 0;
}

abbrev insert_all : List ℕ → Option (Heap × ℕ) → Option (Heap × ℕ)
insert_all [] s = s
insert_all (k ∷ ks) s = insert_all ks (s >>= λ p. insert 4 zeros zeros p.0 p.1 k (k + 1000) 5)

abbrev built : Option (Heap × ℕ)
built = insert_all (10 ∷ 20 ∷ 30 ∷ 40 ∷ 15 ∷ []) (some (start_heap, null))

-- After the split of the first leaf the tree has two levels, and the values are found.
built_values :
    (built >>= λ p.
    find p.0 p.1 40 5 >>= λ f. height p.0 p.1 5 >>= λ n. some (p.0.words f.0 + 10000 * n))
    ≡ some 11040
unfolding tree_program
built_values = refl

-- A tree of two leaves, at the addresses 2 and 3, with the keys 10, 15 and the
-- first `n` of 20, 30, ..., below the root at 1.
abbrev pub two_level_of : ℕ → Heap
two_level_of n = record {
  nodes = λ a.
      if a == 1
      then record {
        keys = λ i. 20;
        pointers = λ i. i + 2;
        parent = 0;
        is_leaf = false;
        num_keys = 1;
        next = 0;
      }
      else if a == 2
      then record {
        keys = λ i. 5 * i + 10;
        pointers = λ i. if i == 3 then 3 else 101 + i;
        parent = 1;
        is_leaf = true;
        num_keys = 2;
        next = 0;
      }
      else record {
        keys = λ i. 10 * i + 20;
        pointers = λ i. if i == 3 then 0 else 201 + i;
        parent = 1;
        is_leaf = true;
        num_keys = n;
        next = 0;
      };
  words = λ r. r + 1000;
  free_nodes = 4;
  free_recs = 300;
  calls = 1;
}

pub two_level_of-IsTree : (n : ℕ) → n ≤ 8 → IsTree (two_level_of n) 1 1 0 100
unfolding tree_program IsTree
two_level_of-IsTree n few = (omega arith, (refl, (root_ranged, child)))
  where
    root_ranged : IsRanged ((two_level_of n).nodes 1) 0 100
    root_ranged = record {
      rises = λ i j h l. omega (arith, h, l);
      above_low = λ i h. omega arith;
      below_high = λ i h. omega arith;
    }

    child :
        (i : ℕ)
        → i ≤ 1
        → IsTree
            (two_level_of n)
            0
            (i + 2)
            (lower ((two_level_of n).nodes 1) 0 i)
            (upper ((two_level_of n).nodes 1) 100 i)
    child zero h = (
      omega arith,
      (
        refl,
        record {
          rises = λ i j h l. omega (arith, h, l);
          above_low = λ i h. omega arith;
          below_high = λ i h. omega (arith, h);
        },
      ),
    )
    child (suc zero) h = (
      omega arith,
      (
        refl,
        record {
          rises = λ i j h l. omega (arith, h, l);
          above_low = λ i h. omega arith;
          below_high = λ i h. omega (arith, h, few);
        },
      ),
    )
    child (suc (suc i)) h = ground arith

abbrev pub two_level : Heap
two_level = two_level_of 2

pub two_level-IsTree : IsTree two_level 1 1 0 100
two_level-IsTree = two_level_of-IsTree 2 (omega arith)

find-Holds_example :
    (r leaf : ℕ) × (find two_level 1 30 2 ≡ some (r, leaf))
    × ((v : ℕ) → Holds two_level 1 1 30 v → v ≡ r)
    × (Holds two_level 1 1 30 r ⊎ (((v : ℕ) → ¬ Holds two_level 1 1 30 v) × (r ≡ null)))
find-Holds_example =
    find-Holds two_level 1 1 0 100 30 2 two_level-IsTree (omega arith) (omega arith) (omega arith)

found_30 : find two_level 1 30 2 ≡ some (202, 3)
unfolding tree_program
found_30 = refl

two_level-Holds : Holds two_level 1 1 30 202
unfolding tree_program Holds
two_level-Holds = (1, (omega arith, (1, (omega arith, (refl, refl)))))

insert-update_example :
    insert 4 zeros zeros two_level 1 30 7 2
    ≡ some (record two_level { words = update two_level.words 202 7 }, 1)
insert-update_example =
    insert-update 4 zeros zeros two_level 1 1 0 100 30 7 2 202 two_level-IsTree (omega arith)
      (omega arith) (omega arith) two_level-Holds (omega arith)

insert-empty_example :
    (h' : Heap) × (insert 4 zeros zeros start_heap null 10 7 1 ≡ some (h', 1))
    × IsTree h' 0 1 0 100
    × Holds h' 0 1 10 101
    × (h'.words 101 ≡ 7)
    × (h'.free_nodes ≡ 2)
    × (h'.free_recs ≡ 102)
insert-empty_example =
    insert-empty 4 zeros zeros start_heap 0 100 10 7 1 (omega arith) (omega arith) (omega arith)
      (omega arith) (omega arith)

-- Deleting 30 and 40 makes the right leaf too small, and the two leaves become one.
merged_values :
    (built >>= λ p. delete 4 p.0 p.1 30 5 >>= λ q. delete 4 q.0 q.1 40 5 >>= λ d.
    find d.0 d.1 20 5 >>= λ f. height d.0 d.1 5 >>= λ n. some (d.0.words f.0 + 10000 * n))
    ≡ some 1020
unfolding tree_program
merged_values = refl

pub two_level-lacks : (v : ℕ) → ¬ Holds two_level 1 1 25 v
unfolding tree_program Holds
two_level-lacks v (zero, (h, (j, (l, (e, q))))) = omega (arith, e)
two_level-lacks v (suc zero, (h, (j, (l, (e, q))))) = omega (arith, e)
two_level-lacks v (suc (suc i), (h, m)) = ground arith

delete-absent_example : delete 4 two_level 1 25 2 ≡ some (two_level, 1)
delete-absent_example =
    delete-absent 4 two_level 1 1 0 100 25 2 two_level-IsTree (omega arith) (omega arith)
      (omega arith) two_level-lacks

-- A tree of one leaf, at the address 1, with the keys 10, 20, 30.
abbrev pub one_leaf : Heap
one_leaf = record {
  nodes = λ a. record {
    keys = λ i. 10 * i + 10;
    pointers = λ i. 101 + i;
    parent = 0;
    is_leaf = true;
    num_keys = 3;
    next = suc a;
  };
  words = λ r. r + 1000;
  free_nodes = 4;
  free_recs = 300;
  calls = 1;
}

pub one_leaf-IsTree : IsTree one_leaf 0 1 0 100
unfolding IsTree
one_leaf-IsTree = (
  omega arith,
  (
    refl,
    record {
      rises = λ i j h l. omega (arith, h, l);
      above_low = λ i h. omega arith;
      below_high = λ i h. omega (arith, h);
    },
  ),
)

one_leaf-finds : find_in_leaf (one_leaf.nodes 1) 20 ≡ 102
unfolding tree_program
one_leaf-finds = refl

delete-leaf_example :
    (h' : Heap) × (delete 4 one_leaf 1 20 1 ≡ some (h', 1))
    × (suc (h'.nodes 1).num_keys ≡ 3)
    × IsSorted (h'.nodes 1).keys (h'.nodes 1).num_keys
    × ((k : ℕ)
        → find_in_leaf (h'.nodes 1) k
          ≡ (if k == 20 then null else find_in_leaf (one_leaf.nodes 1) k))
    × (h'.free_recs ≡ 102)
    × (h'.words 102 ≡ 300)
delete-leaf_example =
    delete-leaf 4 one_leaf 1 0 100 20 0 102 one_leaf-IsTree (omega arith)
      (λ i j h l. omega (arith, h)) (omega arith) one_leaf-finds (omega arith)
