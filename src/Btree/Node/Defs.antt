-- ===== src/Btree/Node/Defs.antt =====
-- The nodes of src/benchmarks/btree/btree1.c and the operations on one node. An array is a function
-- from indices; nodes and records are addresses, and NULL is 0.
use elastic_translations_mic.Prelude.{
  ℕ, zero, suc, ◌+◌, ◌-◌, ◌/◌, ◌%◌, Bool, not, ltb, leb, ◌==◌, if◌then◌else◌, update,
}

-- `node`, with the arrays that it owns.
pub record Node : Type 0 where
  pub keys : ℕ → ℕ
  pub pointers : ℕ → ℕ
  pub parent : ℕ
  pub is_leaf : Bool
  pub num_keys : ℕ
  pub next : ℕ

abbrev pub null : ℕ
null = 0

-- `while (i < bound && test(i)) i++`, with bound - i as the fuel.
unfoldable pub scan : (ℕ → Bool) → ℕ → ℕ → ℕ
scan test i zero = i
scan test i (suc n) = if test i then scan test (suc i) n else i

unfoldable pub cut : ℕ → ℕ
cut length = if length % 2 == 0 then length / 2 else length / 2 + 1

-- The search in a leaf, in `find`.
unfoldable pub find_in_leaf : Node → ℕ → ℕ
find_in_leaf leaf key =
    let i = scan (λ j. not (leaf.keys j == key)) 0 leaf.num_keys in
    if i == leaf.num_keys then null else leaf.pointers i

-- The child that `find_leaf` goes down to.
unfoldable pub child_index : Node → ℕ → ℕ
child_index n key = scan (λ j. leb (n.keys j) key) 0 n.num_keys

-- The places that `while (i < bound && keys[i] < key) i++` passes.
unfoldable pub insertion_point : Node → ℕ → ℕ → ℕ
insertion_point leaf key bound = scan (λ j. ltb (leaf.keys j) key) 0 bound

unfoldable pub get_left_index : Node → ℕ → ℕ
get_left_index parent left = scan (λ j. not (parent.pointers j == left)) 0 (suc parent.num_keys)

-- `for (i = first + n; i > first; i--) a[i] = a[i - 1]`.
unfoldable pub shift_up : (ℕ → ℕ) → ℕ → ℕ → ℕ → ℕ
shift_up a first zero = a
shift_up a first (suc n) = shift_up (update a (suc (first + n)) (a (first + n))) first n

-- Opens a gap at `p` among the first `count` elements and fills it.
unfoldable pub insert_at : (ℕ → ℕ) → ℕ → ℕ → ℕ → ℕ → ℕ
insert_at a count p v = update (shift_up a p (count - p)) p v

unfoldable pub insert_into_leaf : Node → ℕ → ℕ → Node
insert_into_leaf leaf key pointer =
    let p = insertion_point leaf key leaf.num_keys in
    record leaf {
      keys = insert_at leaf.keys leaf.num_keys p key;
      pointers = insert_at leaf.pointers leaf.num_keys p pointer;
      num_keys = suc leaf.num_keys;
    }

-- `for (; n > 0; i++, j++, n--) { if (j == gap) j++; b[j] = a[i]; }`.
unfoldable pub spread : (ℕ → ℕ) → ℕ → (ℕ → ℕ) → ℕ → ℕ → ℕ → ℕ → ℕ
spread a gap b i j zero = b
spread a gap b i j (suc n) =
    let k = if j == gap then suc j else j in spread a gap (update b k (a i)) (suc i) (suc k) n

-- `for (; n > 0; i++, j++, n--) b[j] = a[i];`.
unfoldable pub copy : (ℕ → ℕ) → (ℕ → ℕ) → ℕ → ℕ → ℕ → ℕ → ℕ
copy a b i j zero = b
copy a b i j (suc n) = copy a (update b j (a i)) (suc i) (suc j) n

-- `for (; n > 0; i++, n--) b[i] = NULL;`.
unfoldable pub clear : (ℕ → ℕ) → ℕ → ℕ → ℕ → ℕ
clear b i zero = b
clear b i (suc n) = clear (update b i null) (suc i) n

-- The temporary array of a split: `count` elements of `a` and `v` at place `p`; `temp` is what the
-- allocator left in it.
unfoldable pub temporary : (ℕ → ℕ) → (ℕ → ℕ) → ℕ → ℕ → ℕ → ℕ → ℕ
temporary temp a count p v = update (spread a p temp 0 0 count) p v

unfoldable pub insert_into_node : Node → ℕ → ℕ → ℕ → Node
insert_into_node n left_index key right = record n {
  keys = insert_at n.keys n.num_keys left_index key;
  pointers = insert_at n.pointers (suc n.num_keys) (suc left_index) right;
  num_keys = suc n.num_keys;
}

module _ (order : ℕ) where
  -- The two leaves of insert_into_leaf_after_splitting before the parent is told, the old one and
  -- the new one. `new_leaf` is the node from make_leaf, `right` its address, `temp_keys` and
  -- `temp_pointers` are the temporary arrays as allocated.
  unfoldable pub split_leaf : (ℕ → ℕ) → (ℕ → ℕ) → Node → Node → ℕ → ℕ → ℕ → Node × Node
  split_leaf temp_keys temp_pointers leaf new_leaf right key pointer =
      let p = insertion_point leaf key (order - 1) in
      let keys' = temporary temp_keys leaf.keys leaf.num_keys p key in
      let pointers' = temporary temp_pointers leaf.pointers leaf.num_keys p pointer in
      let split = cut (order - 1) in
      let left_pointers = copy pointers' leaf.pointers 0 0 split in
      let new_pointers = copy pointers' new_leaf.pointers split 0 (order - split) in
      let new_num = new_leaf.num_keys + (order - split) in
      (
        record leaf {
          keys = copy keys' leaf.keys 0 0 split;
          pointers = clear (update left_pointers (order - 1) right) split (order - 1 - split);
          num_keys = split;
        },
        record new_leaf {
          keys = copy keys' new_leaf.keys split 0 (order - split);
          pointers =
              clear (update new_pointers (order - 1) (left_pointers (order - 1))) new_num
                (order - 1 - new_num);
          num_keys = new_num;
          parent = leaf.parent;
        },
      )

  -- The nodes of insert_into_node_after_splitting, the old one and the new one, and the key
  -- between them, before the moved children and the parent are told.
  unfoldable pub split_node : (ℕ → ℕ) → (ℕ → ℕ) → Node → Node → ℕ → ℕ → ℕ → Node × (ℕ × Node)
  split_node temp_keys temp_pointers old_node new_node left_index key right =
      let pointers' =
        temporary temp_pointers old_node.pointers (suc old_node.num_keys) (suc left_index) right in
      let keys' = temporary temp_keys old_node.keys old_node.num_keys left_index key in
      let split = cut order in
      (
        record old_node {
          keys = copy keys' old_node.keys 0 0 (split - 1);
          pointers = copy pointers' old_node.pointers 0 0 split;
          num_keys = split - 1;
        },
        (
          keys' (split - 1),
          record new_node {
            keys = copy keys' new_node.keys split 0 (order - split);
            pointers = copy pointers' new_node.pointers split 0 (suc (order - split));
            num_keys = new_node.num_keys + (order - split);
            parent = old_node.parent;
          },
        ),
      )
