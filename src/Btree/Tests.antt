-- ===== src/Btree/Tests.antt =====
-- Runs of the B+ tree benchmark's parts at concrete inputs.
use elastic_translations_mic.Prelude.{
  suc, ℕ, ◌+◌, ◌-◌, ◌*◌, ◌%◌, ◌^◌, ◌≤◌, ◌<◌, ◌≡◌, ◌>>=◌, some, refl, arith, true, ltb, ◌==◌,
  if◌then◌else◌,
}
use elastic_translations_mic.Btree.Node.Defs.{
  null, Node, insert_into_leaf, insert_into_node, find_in_leaf, split_leaf, split_node, cut,
  insertion_point, scan, shift_up, insert_at, spread, temporary, copy, clear, child_index,
  get_left_index,
}
use elastic_translations_mic.Btree.Node.Lookup.{IsSorted, IsAbsent}
use elastic_translations_mic.Btree.Node.Deletion.{
  remove_entry_from_node, find_index, shift_down, dec, merge_leaves, merge_nodes, take_last,
  take_first,
}
use elastic_translations_mic.Btree.Node.Remove.{remove_entry_from_node-find}
use elastic_translations_mic.Btree.Node.Joined.{IsBetween, find_between}
use elastic_translations_mic.Btree.Node.Merge.{merge_leaves-find, IsRebalanced}
use elastic_translations_mic.Btree.Node.Redistribute.{take_first-IsRebalanced}
use elastic_translations_mic.Btree.Node.Scan.{inserted}
use elastic_translations_mic.Btree.Node.Insert.{insert_into_leaf-find}
use elastic_translations_mic.Btree.Node.Split.{split_leaf-find}
use elastic_translations_mic.Btree.Node.SplitNode.{split_node-inserted}
use elastic_translations_mic.Btree.Random.{
  redis_srand48, redis_srand48-IsRandom, next, next-congruence, redis_lrand48, state, IsRandom, low,
  high, carry,
}

-- The benchmark's seed, as the 32 bits of 0xcafebabe.
next-congruence_example :
    IsRandom (next (redis_srand48 0xcafebabe))
    × (state (next (redis_srand48 0xcafebabe))
        ≡ (0x5deece66d * state (redis_srand48 0xcafebabe) + 0xb) % 2 ^ 48)
next-congruence_example = next-congruence (redis_srand48-IsRandom 0xcafebabe)

unfoldable pub program : Unit {0}
unfolding redis_srand48 next redis_lrand48 low high carry insert_into_leaf insert_into_node
    find_in_leaf split_leaf split_node cut insertion_point scan shift_up insert_at spread temporary
    copy clear child_index get_left_index remove_entry_from_node find_index shift_down dec
    merge_leaves merge_nodes take_last take_first
program = tt

-- Keys 10, 20, 30, ... over the pointers 101, 102, 103, ...
abbrev node_of : ℕ → Node
node_of n = record {
  keys = λ i. 10 * i + 10;
  pointers = λ i. 101 + i;
  parent = 7;
  is_leaf = true;
  num_keys = n;
  next = 0;
}

abbrev zeros : ℕ → ℕ
zeros i = 0

node_of-IsSorted : (n : ℕ) → IsSorted (node_of n).keys n
node_of-IsSorted n i j h k = omega (arith, h)

node_of-IsAbsent : (n : ℕ) → IsAbsent (node_of n).keys n 15
node_of-IsAbsent n i h = omega arith

insert_into_leaf-find_example :
    ((insert_into_leaf (node_of 2) 15 99).num_keys ≡ 3)
    × (IsSorted (insert_into_leaf (node_of 2) 15 99).keys 3
        × (((k : ℕ)
              → find_in_leaf (insert_into_leaf (node_of 2) 15 99) k
                ≡ (if k == 15 then 99 else find_in_leaf (node_of 2) k))
            × ((j : ℕ)
                → 2 < j
                → ((insert_into_leaf (node_of 2) 15 99).keys j ≡ 10 * j + 10)
                  × ((insert_into_leaf (node_of 2) 15 99).pointers j ≡ 101 + j))))
insert_into_leaf-find_example =
    insert_into_leaf-find (node_of 2) 15 99 (node_of-IsSorted 2) (node_of-IsAbsent 2)

-- 15 comes in between 10 and 20.
found_after :
    (find_in_leaf (insert_into_leaf (node_of 2) 15 99) 20 ≡ 102)
    × ((insert_into_leaf (node_of 2) 15 99).keys 1 ≡ 15)
unfolding program
found_after = (refl, refl)

-- A full leaf of order 4 and a full inner node of order 4.
abbrev leaves : Node × Node
leaves = split_leaf 4 zeros zeros (node_of 3) (node_of 0) 55 15 99

split_leaf-find_example :
    (leaves.0.num_keys ≡ cut 3)
    × (leaves.1.num_keys ≡ 4 - cut 3)
    × IsSorted leaves.0.keys leaves.0.num_keys
    × IsSorted leaves.1.keys leaves.1.num_keys
    × ((i : ℕ) → i < leaves.0.num_keys → leaves.0.keys i < leaves.1.keys 0)
    × ((k : ℕ)
        → (if ltb k (leaves.1.keys 0) then find_in_leaf leaves.0 k else find_in_leaf leaves.1 k)
          ≡ (if k == 15 then 99 else find_in_leaf (node_of 3) k))
    × (leaves.0.pointers 3 ≡ 55)
    × (leaves.1.pointers 3 ≡ (node_of 3).pointers 3)
    × (leaves.1.parent ≡ 7)
split_leaf-find_example =
    split_leaf-find 4 zeros zeros (node_of 3) (node_of 0) 55 15 99 (omega arith) refl refl
      (node_of-IsSorted 3) (node_of-IsAbsent 3)

split_values : (leaves.0.keys 1 ≡ 15) × (leaves.1.keys 0 ≡ 20) × (leaves.1.pointers 1 ≡ 103)
unfolding program
split_values = (refl, refl, refl)

abbrev halves : Node × (ℕ × Node)
halves = split_node 4 zeros zeros (node_of 3) (node_of 0) 2 35 99

split_node-inserted_example :
    (halves.0.num_keys ≡ cut 4 - 1)
    × (halves.1.1.num_keys ≡ 4 - cut 4)
    × ((j : ℕ) → j < cut 4 - 1 → halves.0.keys j ≡ inserted (node_of 3).keys 2 35 j)
    × (halves.1.0 ≡ inserted (node_of 3).keys 2 35 (cut 4 - 1))
    × ((j : ℕ) → j < 4 - cut 4 → halves.1.1.keys j ≡ inserted (node_of 3).keys 2 35 (cut 4 + j))
    × ((j : ℕ) → j < cut 4 → halves.0.pointers j ≡ inserted (node_of 3).pointers 3 99 j)
    × ((j : ℕ)
        → j ≤ 4 - cut 4
        → halves.1.1.pointers j ≡ inserted (node_of 3).pointers 3 99 (cut 4 + j))
    × (halves.1.1.parent ≡ 7)
split_node-inserted_example =
    split_node-inserted 4 zeros zeros (node_of 3) (node_of 0) 2 35 99 (omega arith) refl refl
      (omega arith)

finds_20 : find_in_leaf (node_of 3) 20 ≡ 102
unfolding program
finds_20 = refl

remove_entry_from_node-find_example :
    (m : Node) × (remove_entry_from_node 4 (node_of 3) 20 102 ≡ some m)
    × (suc m.num_keys ≡ 3)
    × IsSorted m.keys m.num_keys
    × ((k : ℕ) → find_in_leaf m k ≡ (if k == 20 then null else find_in_leaf (node_of 3) k))
    × (m.pointers 3 ≡ 104)
remove_entry_from_node-find_example =
    remove_entry_from_node-find 4 (node_of 3) 20 102 refl (omega arith) (node_of-IsSorted 3)
      (λ i j h l. omega (arith, h)) finds_20 (omega arith)

-- The first key is gone, and the last one has moved to its place.
removed_values :
    (remove_entry_from_node 4 (node_of 2) 10 101 >>= λ m. some (m.keys 0 + m.num_keys)) ≡ some 21
unfolding program
removed_values = refl

-- Keys 30, 40, ... over the pointers 201, 202, ...
abbrev node_after : ℕ → Node
node_after n = record {
  keys = λ i. 10 * i + 30;
  pointers = λ i. 201 + i;
  parent = 7;
  is_leaf = true;
  num_keys = n;
  next = 0;
}

node_after-IsSorted : (n : ℕ) → IsSorted (node_after n).keys n
node_after-IsSorted n i j h k = omega (arith, h)

two-IsBetween : IsBetween (node_of 2) (node_after 2) 30
two-IsBetween = record { left_below = λ i h. omega (arith, h); right_above = λ i h. omega arith }

merge_leaves-find_example :
    ((merge_leaves 8 (node_after 2) (node_of 2)).num_keys ≡ 4)
    × IsSorted (merge_leaves 8 (node_after 2) (node_of 2)).keys 4
    × ((k : ℕ)
        → find_in_leaf (merge_leaves 8 (node_after 2) (node_of 2)) k
          ≡ find_between (node_of 2) (node_after 2) 30 k)
    × ((merge_leaves 8 (node_after 2) (node_of 2)).pointers 7 ≡ 208)
merge_leaves-find_example =
    merge_leaves-find 8 (node_of 2) (node_after 2) 30 two-IsBetween (node_of-IsSorted 2)
      (node_after-IsSorted 2) (omega arith)

abbrev last_moved : Node × (Node × ℕ)
last_moved = take_last (node_after 2) (node_of 2) 30

abbrev first_moved : Node × (Node × ℕ)
first_moved = take_first (node_of 2) (node_after 2) 30

take_first-IsRebalanced_example :
    (first_moved.0.num_keys ≡ 3)
    × (suc first_moved.1.0.num_keys ≡ 2)
    × IsRebalanced (node_of 2) (node_after 2) 30 first_moved.0 first_moved.1.0 first_moved.1.1
take_first-IsRebalanced_example =
    take_first-IsRebalanced (node_of 2) (node_after 2) 30 30 two-IsBetween (node_of-IsSorted 2)
      (node_after-IsSorted 2) refl (omega arith)

-- The keys that go to the parent, and the one that moved.
moved_values :
    (last_moved.1.1 ≡ 20)
    × (last_moved.0.keys 0 ≡ 20)
    × (first_moved.1.1 ≡ 40)
    × (first_moved.0.keys 2 ≡ 30)
unfolding program
moved_values = (refl, refl, refl, refl)
