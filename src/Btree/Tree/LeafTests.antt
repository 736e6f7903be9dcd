-- ===== src/Btree/Tree/LeafTests.antt =====
-- Changes of one leaf of a tree of src/benchmarks/btree/btree1.c, at concrete trees of order 4.
use elastic_translations_mic.Prelude.{
  [], ◌∷◌, ℕ, suc, ◌≡◌, refl, arith, some, update, ◌==◌, if◌then◌else◌,
}
use elastic_translations_mic.Btree.Node.Defs.{null, cut, find_in_leaf}
use elastic_translations_mic.Btree.Tree.Defs.{Heap, find, find_leaf}
use elastic_translations_mic.Btree.Tree.Find.{IsTree, Holds}
use elastic_translations_mic.Btree.Tree.Searches.{found_under}
use elastic_translations_mic.Btree.Tree.Insertion.{insert}
use elastic_translations_mic.Btree.Tree.Deletion.{delete}
use elastic_translations_mic.Btree.Tree.Room.{insert-room}
use elastic_translations_mic.Btree.Tree.Enough.{delete-enough}
use elastic_translations_mic.Btree.Tree.Level.{insert-grows}
use elastic_translations_mic.Btree.Tree.Range.{collect, range_loop, find_range}
use elastic_translations_mic.Btree.Tree.InRange.{
  find_range-in_range, any_from, pairs_of, in_range, all_pairs,
}
use elastic_translations_mic.Btree.Tree.Tests.{
  tree_program, zeros, two_level_of, two_level_of-IsTree, two_level, two_level-IsTree,
  two_level-lacks, one_leaf, one_leaf-IsTree,
}

leaf_of_25 : find_leaf two_level 1 25 2 ≡ some 3
unfolding tree_program
leaf_of_25 = refl

insert-room_example :
    (h' : Heap) × (insert 4 zeros zeros two_level 1 25 7 2 ≡ some (h', 1))
    × IsTree h' 1 1 0 100
    × ((k fuel' : ℕ) → find h' 1 k fuel' ≡ found_under 25 300 k (find two_level 1 k fuel'))
    × ((h'.nodes 3).num_keys ≡ 3)
    × (h'.words ≡ update two_level.words 300 7)
    × (h'.free_recs ≡ 1300)
insert-room_example =
    insert-room 4 zeros zeros two_level 1 1 0 100 25 7 2 3 two_level-IsTree (omega arith)
      (omega arith) (omega arith) two_level-lacks leaf_of_25 (omega arith) (omega arith)
      (omega arith)

-- With the keys 20, 30, 40 in the second leaf.
found_at_30 : find (two_level_of 3) 1 30 2 ≡ some (202, 3)
unfolding tree_program
found_at_30 = refl

least_keys : cut 3 ≡ 2
unfolding tree_program
least_keys = refl

delete-enough_example :
    (h' : Heap) × (delete 4 (two_level_of 3) 1 30 2 ≡ some (h', 1))
    × IsTree h' 1 1 0 100
    × ((k fuel' : ℕ) → find h' 1 k fuel' ≡ found_under 30 null k (find (two_level_of 3) 1 k fuel'))
    × (suc (h'.nodes 3).num_keys ≡ 3)
    × (h'.free_recs ≡ 202)
    × (h'.words ≡ update two_level.words 202 300)
delete-enough_example =
    delete-enough 4 (two_level_of 3) 1 1 0 100 30 1 202 3 (two_level_of-IsTree 3 (omega arith))
      (omega arith) (omega arith) (omega arith) found_at_30 (omega arith) (omega arith)
      (omega arith) (omega (arith, least_keys)) (λ i j h l. ground (arith, h, l))

one_leaf-lacks : (v : ℕ) → ¬ Holds one_leaf 0 1 25 v
unfolding Holds
one_leaf-lacks v (j, (l, (e, q))) = omega (arith, e)

insert-grows_example :
    (h' : Heap) × (insert 4 zeros zeros one_leaf 1 25 7 1 ≡ some (h', 5))
    × IsTree h' 1 5 0 100
    × ((k f : ℕ)
        → (leaf : ℕ) × (find h' 5 k (suc (suc f))
            ≡ some (if k == 25 then 300 else find_in_leaf (one_leaf.nodes 1) k, leaf)))
    × (h'.words ≡ update one_leaf.words 300 7)
    × (h'.free_recs ≡ 1300)
    × (h'.free_nodes ≡ 6)
insert-grows_example =
    insert-grows 4 zeros zeros one_leaf 1 0 100 25 7 0 5 (omega arith) one_leaf-IsTree (omega arith)
      (omega arith) one_leaf-lacks refl refl (omega arith) (omega arith) refl (omega arith)
      (omega arith, omega arith) (omega arith)

-- From 12 to 25.
two_leaves_found : find_range 4 two_level 1 12 25 2 3 ≡ some ((15, 102) ∷ (20, 201) ∷ [])
unfolding tree_program find_range range_loop collect
two_leaves_found = refl

-- From 16 to 25: the first leaf has no key of at least 16, and the key 20 of the next is not found.
next_leaf_missed : find_range 4 two_level 1 16 25 2 3 ≡ some []
unfolding tree_program find_range range_loop collect
next_leaf_missed = refl

leaf_of_12 : find_leaf two_level 1 12 2 ≡ some 2
unfolding tree_program
leaf_of_12 = refl

find_range-in_range_example :
    find_range 4 two_level 1 12 25 2 3
    ≡ some (
        if any_from 12 (pairs_of (two_level.nodes 2))
        then in_range 12 25 (all_pairs two_level (2 ∷ 3 ∷ []))
        else [])
find_range-in_range_example =
    find_range-in_range 4 two_level 1 12 25 2 2 2 (3 ∷ []) leaf_of_12 (omega arith)
      (λ i j h l. omega (arith, h))
      (refl, omega arith, λ i j h l. omega (arith, h), λ i l. omega arith, refl) (omega arith)
