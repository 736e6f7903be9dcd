-- ===== src/Btree/Tree/Range.antt =====
-- `find_range` of src/benchmarks/btree/btree1.c. The arrays that it fills are a list of pairs.
use elastic_translations_mic.Prelude.{
  ℕ, zero, suc, ◌-◌, ltb, leb, ◌==◌, if◌then◌else◌, Option, none, some, ◌>>=◌, List, [], ◌∷◌, ◌++◌,
}
use elastic_translations_mic.Btree.Node.Defs.{Node, null, scan}
use elastic_translations_mic.Btree.Tree.Defs.{Heap, find_leaf}

-- `for (; i < n->num_keys && n->keys[i] <= key_end; i++)`, with num_keys - i as the fuel.
unfoldable pub collect : Node → ℕ → ℕ → ℕ → List (ℕ × ℕ)
collect n key_end i zero = []
collect n key_end i (suc m) =
    let rest = collect n key_end (suc i) m in
    if leb (n.keys i) key_end then (n.keys i, n.pointers i) ∷ rest else []

-- `while (n != NULL)`, with fuel for the leaves.
unfoldable pub range_loop : ℕ → ℕ → Heap → ℕ → ℕ → ℕ → Option (List (ℕ × ℕ))
range_loop order zero h key_end leaf i = none
range_loop order (suc fuel) h key_end leaf i =
    let n = h.nodes leaf in
    let later = range_loop order fuel h key_end (n.pointers (order - 1)) 0 in
    if leaf == null
    then some []
    else (later >>= λ found. some (collect n key_end i (n.num_keys - i) ++ found))

-- `fuel` bounds the levels and `rounds` the leaves.
unfoldable pub find_range : ℕ → Heap → ℕ → ℕ → ℕ → ℕ → ℕ → Option (List (ℕ × ℕ))
find_range order h root key_start key_end fuel rounds = do
  leaf ← find_leaf h root key_start fuel
  let n = h.nodes leaf
  let i = scan (λ j. ltb (n.keys j) key_start) 0 n.num_keys
  let found = range_loop order rounds h key_end leaf i
  if leaf == null then some [] else if i == n.num_keys then some [] else found
