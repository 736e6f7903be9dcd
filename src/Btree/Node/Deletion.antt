-- ===== src/Btree/Node/Deletion.antt =====
-- What deletion in src/benchmarks/btree/btree1.c does to one node or to two neighbors: the removal of
-- an entry, the merging of two nodes, and the move of an entry from one to the other.
use elastic_translations_mic.Prelude.{
  ℕ, zero, suc, ◌+◌, ◌-◌, ◌^◌, not, ◌==◌, if◌then◌else◌, update, Option, none, some, ◌>>=◌,
}
use elastic_translations_mic.Btree.Node.Defs.{Node, null, scan, shift_up, copy, clear}

-- `i = 0; while (a[i] != v) i++;`. The loop runs out of an array of `size` places where it does not
-- meet `v`.
unfoldable pub find_index : (ℕ → ℕ) → ℕ → ℕ → Option ℕ
find_index a size v =
    let i = scan (λ j. not (a j == v)) 0 size in if i == size then none else some i

-- `for (++i; n > 0; i++, n--) a[i - 1] = a[i];`.
unfoldable pub shift_down : (ℕ → ℕ) → ℕ → ℕ → ℕ → ℕ
shift_down a i zero = a
shift_down a i (suc n) = shift_down (update a i (a (suc i))) (suc i) n

-- One less, in 64 bits.
unfoldable pub dec : ℕ → ℕ
dec n = if n == 0 then 2 ^ 64 - 1 else n - 1

module _ (order : ℕ) where
  unfoldable pub remove_entry_from_node : Node → ℕ → ℕ → Option Node
  remove_entry_from_node n key pointer = do
    i ← find_index n.keys (order - 1) key
    let num_pointers = if n.is_leaf then n.num_keys else suc n.num_keys
    j ← find_index n.pointers order pointer
    let pointers' = shift_down n.pointers j (num_pointers - suc j)
    let num = dec n.num_keys
    some (record n {
      keys = shift_down n.keys i (n.num_keys - suc i);
      num_keys = num;
      pointers =
          if n.is_leaf
          then clear pointers' num (order - 1 - num)
          else clear pointers' (suc num) (order - suc num);
    })

  -- The branches of coalesce_nodes: the entries of `n` behind those of its left neighbor. An inner
  -- node `n` is left without keys.
  unfoldable pub merge_leaves : Node → Node → Node
  merge_leaves n neighbor = record neighbor {
    keys = copy n.keys neighbor.keys 0 neighbor.num_keys n.num_keys;
    pointers =
        update (copy n.pointers neighbor.pointers 0 neighbor.num_keys n.num_keys) (order - 1)
          (n.pointers (order - 1));
    num_keys = neighbor.num_keys + n.num_keys;
  }

unfoldable pub merge_nodes : Node → Node → ℕ → Node
merge_nodes n neighbor k_prime =
    let start = suc neighbor.num_keys in
    record neighbor {
      keys = copy n.keys (update neighbor.keys neighbor.num_keys k_prime) 0 start n.num_keys;
      pointers =
          update (copy n.pointers neighbor.pointers 0 start n.num_keys) (start + n.num_keys)
            (n.pointers n.num_keys);
      num_keys = start + n.num_keys;
    }

-- redistribute_nodes, with a neighbor to the left: `n`, the neighbor and the key for the parent.
unfoldable pub take_last : Node → Node → ℕ → Node × (Node × ℕ)
take_last n neighbor k_prime =
    let opened =
      if n.is_leaf
      then n.pointers
      else update n.pointers (suc n.num_keys) (n.pointers n.num_keys) in
    let keys' = shift_up n.keys 0 n.num_keys in
    let pointers' = shift_up opened 0 n.num_keys in
    let last = neighbor.num_keys in
    if n.is_leaf
    then (
      record n {
        keys = update keys' 0 (neighbor.keys (dec last));
        pointers = update pointers' 0 (neighbor.pointers (dec last));
        num_keys = suc n.num_keys;
      },
      (
        record neighbor {
          pointers = update neighbor.pointers (dec last) null;
          num_keys = dec last;
        },
        neighbor.keys (dec last),
      ),
    )
    else (
      record n {
        keys = update keys' 0 k_prime;
        pointers = update pointers' 0 (neighbor.pointers last);
        num_keys = suc n.num_keys;
      },
      (
        record neighbor { pointers = update neighbor.pointers last null; num_keys = dec last },
        neighbor.keys (dec last),
      ),
    )

-- redistribute_nodes, with a neighbor to the right.
unfoldable pub take_first : Node → Node → ℕ → Node × (Node × ℕ)
take_first n neighbor k_prime =
    let count = dec neighbor.num_keys in
    let keys' = shift_down neighbor.keys 0 count in
    let pointers' = shift_down neighbor.pointers 0 count in
    if n.is_leaf
    then (
      record n {
        keys = update n.keys n.num_keys (neighbor.keys 0);
        pointers = update n.pointers n.num_keys (neighbor.pointers 0);
        num_keys = suc n.num_keys;
      },
      (
        record neighbor { keys = keys'; pointers = pointers'; num_keys = dec neighbor.num_keys },
        neighbor.keys 1,
      ),
    )
    else (
      record n {
        keys = update n.keys n.num_keys k_prime;
        pointers = update n.pointers (suc n.num_keys) (neighbor.pointers 0);
        num_keys = suc n.num_keys;
      },
      (
        record neighbor {
          keys = keys';
          pointers = update pointers' count (pointers' (suc count));
          num_keys = dec neighbor.num_keys;
        },
        neighbor.keys 0,
      ),
    )
