-- ===== src/Btree/Tree/Defs.antt =====
-- The heap of nodes and records of src/benchmarks/btree/btree1.c, and the search. A step that
-- dereferences NULL, or runs out of fuel, gives `none`.
use elastic_translations_mic.Prelude.{ℕ, zero, suc, ◌==◌, if◌then◌else◌, Option, none, some, ◌>>=◌}
use elastic_translations_mic.Btree.Node.Defs.{Node, null, child_index, find_in_leaf}

-- `nodes` by address; `words` is the word of a record, which holds its value or, while the record is
-- free, the next free one; free_nodes and free_recs head the lists of the two allocators. `calls`
-- counts the calls of `allocate`.
pub record Heap : Type 0 where
  pub nodes : ℕ → Node
  pub words : ℕ → ℕ
  pub free_nodes : ℕ
  pub free_recs : ℕ
  pub calls : ℕ

-- The loop of find_leaf, with fuel for the levels.
unfoldable pub find_leaf_loop : Heap → ℕ → ℕ → ℕ → Option ℕ
find_leaf_loop h key c zero = none
find_leaf_loop h key c (suc fuel) =
    let rest = find_leaf_loop h key ((h.nodes c).pointers (child_index (h.nodes c) key)) fuel in
    if c == null then none else if (h.nodes c).is_leaf then some c else rest

unfoldable pub find_leaf : Heap → ℕ → ℕ → ℕ → Option ℕ
find_leaf h root key fuel = if root == null then some null else find_leaf_loop h key root fuel

-- `find`: the record and the leaf (`*leaf_out`).
unfoldable pub find : Heap → ℕ → ℕ → ℕ → Option (ℕ × ℕ)
find h root key fuel =
    if root == null
    then some (null, null)
    else do leaf ← find_leaf h root key fuel; some (find_in_leaf (h.nodes leaf) key, leaf)

-- `height`, with fuel for the levels.
unfoldable pub height : Heap → ℕ → ℕ → Option ℕ
height h c zero = none
height h c (suc fuel) =
    let rest = height h ((h.nodes c).pointers 0) fuel in
    if c == null then none else if (h.nodes c).is_leaf then some 0 else (rest >>= λ n. some (suc n))
