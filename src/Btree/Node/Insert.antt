-- ===== src/Btree/Node/Insert.antt =====
-- insert_into_leaf and insert_into_node of src/benchmarks/btree/btree1.c.
use elastic_translations_mic.Prelude.{ℕ, suc, ◌≤◌, ◌<◌, ◌≡◌, refl, arith, ◌==◌, if◌then◌else◌}
use elastic_translations_mic.Btree.Node.Defs.{
  Node, insert_into_leaf, insert_into_node, insertion_point, insert_at, find_in_leaf,
}
use elastic_translations_mic.Btree.Node.Scan.{insert_at_lem, insert_at-beyond, inserted}
use elastic_translations_mic.Btree.Node.Lookup.{
  IsSorted, IsAbsent, put, find-Finds, find_unique, Finds-ext, IsSorted-ext,
  insertion_point-IsPlace, inserted-IsSorted, inserted-Finds,
}

-- In a leaf with sorted keys that lack the new key, `insert_into_leaf` keeps the keys sorted, adds
-- one, makes the new key find the new pointer and every other key what it found before, and writes
-- nothing above the place of the new last pair.
pub insert_into_leaf-find :
    (leaf : Node) (key pointer : ℕ)
    → IsSorted leaf.keys leaf.num_keys
    → IsAbsent leaf.keys leaf.num_keys key
    → ((insert_into_leaf leaf key pointer).num_keys ≡ suc leaf.num_keys)
      × (IsSorted (insert_into_leaf leaf key pointer).keys (suc leaf.num_keys)
          × (((k : ℕ)
                → find_in_leaf (insert_into_leaf leaf key pointer) k
                  ≡ (if k == key then pointer else find_in_leaf leaf k))
              × ((j : ℕ)
                  → leaf.num_keys < j
                  → ((insert_into_leaf leaf key pointer).keys j ≡ leaf.keys j)
                    × ((insert_into_leaf leaf key pointer).pointers j ≡ leaf.pointers j))))
unfolding insert_into_leaf
insert_into_leaf-find leaf key pointer s g =
    let n = leaf.num_keys in
    let w = insertion_point-IsPlace leaf key n s g in
    let p = insertion_point leaf key n in
    let keys_eq =
      λ (j : ℕ) (h : j < suc n). insert_at_lem leaf.keys n p key j w.in_bounds (omega arith) in
    let pointers_eq = λ (j : ℕ) (h : j < suc n).
      insert_at_lem leaf.pointers n p pointer j w.in_bounds (omega arith) in
    let sorted =
      IsSorted-ext (inserted leaf.keys p key) (insert_at leaf.keys n p key) (suc n) keys_eq
        (inserted-IsSorted w s) in
    (
      refl,
      (
        sorted,
        (
          λ k.
              find_unique (insert_into_leaf leaf key pointer) k
                (put key pointer k (find_in_leaf leaf k)) sorted
                (Finds-ext (inserted leaf.keys p key) (inserted leaf.pointers p pointer)
                  (insert_at leaf.keys n p key) (insert_at leaf.pointers n p pointer) (suc n) k _
                  (λ j h. (keys_eq j h, pointers_eq j h))
                  (inserted-Finds w leaf.pointers pointer k _ (find-Finds leaf k))),
          λ j h. (
            insert_at-beyond leaf.keys n p key j w.in_bounds h,
            insert_at-beyond leaf.pointers n p pointer j w.in_bounds h,
          ),
        ),
      ),
    )

-- `insert_into_node` puts the key at `left_index` and the pointer one place further, and moves the
-- later ones up by one place, in a node with that many keys.
pub insert_into_node-inserted :
    (n : Node) (left_index key right j : ℕ)
    → left_index ≤ n.num_keys
    → ((insert_into_node n left_index key right).num_keys ≡ suc n.num_keys)
      × ((j ≤ n.num_keys
            → (insert_into_node n left_index key right).keys j ≡ inserted n.keys left_index key j)
          × (j ≤ suc n.num_keys
              → (insert_into_node n left_index key right).pointers j
                ≡ inserted n.pointers (suc left_index) right j))
unfolding insert_into_node
insert_into_node-inserted n left_index key right j h = (
  refl,
  (
    λ l. insert_at_lem n.keys n.num_keys left_index key j h l,
    λ l. insert_at_lem n.pointers (suc n.num_keys) (suc left_index) right j (omega (arith, h)) l,
  ),
)
