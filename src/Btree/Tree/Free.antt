-- ===== src/Btree/Tree/Free.antt =====
-- The free list of nodes of src/benchmarks/btree/btree1.c.
use elastic_translations_mic.Prelude.{
  ℕ, zero, suc, ◌+◌, ◌*◌, ◌≤◌, ◌≡◌, ◌≢◌, refl, sym, subst, false, List, [], ◌∷◌, mem, arith,
  ==-eq_false, ==-self, update, update_self, update_ne,
}
use elastic_translations_mic.Btree.Node.Defs.{Node, null}
use elastic_translations_mic.Btree.Tree.Defs.{Heap}
use elastic_translations_mic.Btree.Tree.Insertion.{
  alloc_node, free_node, set_node, grow_nodes, node_size,
}

-- The `next` links lead from `c` through the listed nodes to NULL.
unfoldable pub IsFree : (ℕ → Node) → ℕ → List ℕ → Type 0
IsFree nodes c [] = c ≡ null
IsFree nodes c (x ∷ xs) = (c ≡ x) × ((x ≢ null) × IsFree nodes (nodes x).next xs)

-- A store at a node that is not on the list leaves the list.
IsFree-update :
    (nodes : ℕ → Node) (a : ℕ) (n : Node) (c : ℕ) (xs : List ℕ)
    → mem a xs ≡ false
    → IsFree nodes c xs
    → IsFree (update nodes a n) c xs
unfolding IsFree
IsFree-update nodes a n c [] e f = f
IsFree-update nodes a n c (x ∷ xs) e (p, (q, f)) = (
  p,
  (
    q,
    subst (λ y. IsFree (update nodes a n) y.next xs) (sym same)
        (IsFree-update nodes a n (nodes x).next xs (ground (arith, e)) f),
  ),
)
  where
    same : update nodes a n x ≡ nodes x
    same = ground (arith, e)

-- The addresses of a slab's places i, ..., i + n - 1, the last first, and before `xs`.
abbrev slab : ℕ → ℕ → ℕ → List ℕ → List ℕ
slab base i zero xs = xs
slab base i (suc n) xs = slab base (suc i) n ((base + node_size * i) ∷ xs)

-- No place of the slab from the i-th on is listed.
abbrev IsOutside : ℕ → ℕ → List ℕ → Type 0
IsOutside base i xs = (j : ℕ) → i ≤ j → mem (base + node_size * j) xs ≡ false

-- The loop of alloc_node puts the places of a slab, which are not NULL and not on the list, in front
-- of the list of free nodes, the last one first.
pub grow_nodes-IsFree :
    (base n : ℕ) (h : Heap) (i : ℕ) (xs : List ℕ)
    → base ≢ null
    → IsOutside base i xs
    → IsFree h.nodes h.free_nodes xs
    → IsFree (grow_nodes h base i n).nodes (grow_nodes h base i n).free_nodes (slab base i n xs)
unfolding grow_nodes set_node IsFree
grow_nodes-IsFree base zero h i xs b o f = f
grow_nodes-IsFree base (suc n) h i xs b o f =
    let a = base + node_size * i in
    let x = record (h.nodes a) { next = h.free_nodes } in
    grow_nodes-IsFree base n (record (set_node h a x) { free_nodes = a }) (suc i) (a ∷ xs) b
      (λ j l. ground (arith, o j))
      (
        refl,
        (
          omega (arith, b),
          subst (λ y. IsFree (update h.nodes a x) y.next xs) (sym (update_self h.nodes a x))
              (IsFree-update h.nodes a x h.free_nodes xs (o i (omega arith)) f),
        ),
      )

-- A freed node that is not on the list of free nodes is the next one that `alloc_node` gives; the
-- list is then what it was, and the other nodes are untouched.
pub alloc_node-free_node :
    (allocate : ℕ → ℕ) (h : Heap) (n : ℕ) (xs : List ℕ)
    → n ≢ null
    → mem n xs ≡ false
    → IsFree h.nodes h.free_nodes xs
    → (h' : Heap) × (alloc_node allocate (free_node h n) ≡ (h', n))
      × IsFree h'.nodes h'.free_nodes xs
      × ((a : ℕ) → a ≢ n → h'.nodes a ≡ h.nodes a)
unfolding alloc_node free_node set_node
alloc_node-free_node allocate h n xs p e f =
    let x = record (h.nodes n) { next = h.free_nodes } in
    (
      record (free_node h n) { free_nodes = h.free_nodes },
      rw (==-eq_false n 0 p, ==-self n) refl,
      IsFree-update h.nodes n x h.free_nodes xs e f,
      λ a q. update_ne h.nodes n x a (==-eq_false a n q),
    )
