-- ===== src/Btree/Tree/Find.antt =====
-- The search of src/benchmarks/btree/btree1.c finds what the tree holds.
use elastic_translations_mic.Prelude.{
  ℕ, zero, suc, ◌≤◌, ◌<◌, ◌≡◌, ◌≢◌, ◌⊎◌, inl, inr, refl, ◌∙◌, subst, Bool, true, false, arith, ltb,
  leb, if◌then◌else◌, some, ==-eq_false,
}
use elastic_translations_mic.Btree.Node.Defs.{Node, null, scan, child_index, find_in_leaf}
use elastic_translations_mic.Btree.Node.Scan.{scan-le, scan-passed, scan-stopped}
use elastic_translations_mic.Btree.Node.Lookup.{IsSorted, find-Finds, Finds-unique}
use elastic_translations_mic.Btree.Tree.Defs.{Heap, find_leaf_loop, find_leaf, find}

-- The bounds of the keys below the pointer at `i`.
abbrev pub lower : Node → ℕ → ℕ → ℕ
lower n low zero = low
lower n low (suc i) = n.keys i

abbrev pub upper : Node → ℕ → ℕ → ℕ
upper n high i = if ltb i n.num_keys then n.keys i else high

-- The keys are sorted and lie in [low, high).
pub record IsRanged (n : Node) (low high : ℕ) : Type 0 where
  pub rises : IsSorted n.keys n.num_keys
  pub above_low : (i : ℕ) → i < n.num_keys → low ≤ n.keys i
  pub below_high : (i : ℕ) → i < n.num_keys → n.keys i < high

-- At `c` stands a search tree with all leaves `depth` levels below, over the keys [low, high).
unfoldable pub IsTree : Heap → ℕ → ℕ → ℕ → ℕ → Type 0
IsTree h zero c low high =
    (c ≢ null) × (((h.nodes c).is_leaf ≡ true) × IsRanged (h.nodes c) low high)
IsTree h (suc depth) c low high =
    (c ≢ null)
    × (((h.nodes c).is_leaf ≡ false)
        × (IsRanged (h.nodes c) low high
            × ((i : ℕ)
                → i ≤ (h.nodes c).num_keys
                → IsTree h depth ((h.nodes c).pointers i) (lower (h.nodes c) low i)
                    (upper (h.nodes c) high i))))

-- Some leaf of the tree has the key with the record `r`.
unfoldable pub Holds : Heap → ℕ → ℕ → ℕ → ℕ → Type 0
Holds h zero c key r =
    (i : ℕ) × ((i < (h.nodes c).num_keys)
      × (((h.nodes c).keys i ≡ key) × ((h.nodes c).pointers i ≡ r)))
Holds h (suc depth) c key r =
    (i : ℕ) × ((i ≤ (h.nodes c).num_keys) × Holds h depth ((h.nodes c).pointers i) key r)

-- The search goes down where the key lies.
pub child_index-between :
    (n : Node) (low high key : ℕ)
    → IsRanged n low high
    → low ≤ key
    → key < high
    → (child_index n key ≤ n.num_keys)
      × ((lower n low (child_index n key) ≤ key) × (key < upper n high (child_index n key)))
unfolding child_index
child_index-between n low high key w a b =
    (omega (arith, scan-le t 0 n.num_keys), (from_below i refl, from_above))
  where
    t : ℕ → Bool
    t j = leb (n.keys j) key

    i : ℕ
    i = scan t 0 n.num_keys

    from_below : (j : ℕ) → j ≡ scan t 0 n.num_keys → lower n low j ≤ key
    from_below zero e = a
    from_below (suc j) e = ground (arith, scan-passed t 0 n.num_keys j, e)

    from_above : key < upper n high (scan t 0 n.num_keys)
    from_above = ground (arith, scan-stopped t 0 n.num_keys, b)

pub lower-ge :
    (n : Node) (low high i : ℕ) → IsRanged n low high → i ≤ n.num_keys → low ≤ lower n low i
lower-ge n low high zero w h = omega arith
lower-ge n low high (suc i) w h = w.above_low i h

pub upper-le : (n : Node) (low high i : ℕ) → IsRanged n low high → upper n high i ≤ high
upper-le n low high i w = ground (arith, w.below_high i)

-- A key in a tree lies in its range.
Holds-range :
    (h : Heap) (depth c low high key r : ℕ)
    → IsTree h depth c low high
    → Holds h depth c key r
    → (low ≤ key) × (key < high)
unfolding IsTree Holds
Holds-range h zero c low high key r (p, (l, w)) (i, (b, (e, f))) =
    omega (arith, e, w.above_low i b, w.below_high i b)
Holds-range h (suc depth) c low high key r (p, (l, (w, g))) (i, (b, m)) = omega (
  arith,
  Holds-range h depth _ (lower (h.nodes c) low i) (upper (h.nodes c) high i) key r (g i b) m,
  lower-ge (h.nodes c) low high i w b,
  upper-le (h.nodes c) low high i w,
)

-- Only one child's range has the key.
pub child_index_unique :
    (n : Node) (low high key i j : ℕ)
    → IsRanged n low high
    → i ≤ n.num_keys
    → j ≤ n.num_keys
    → lower n low i ≤ key
    → key < upper n high i
    → lower n low j ≤ key
    → key < upper n high j
    → i ≡ j
child_index_unique n low high key zero zero w a b c d e f = refl
child_index_unique n low high key zero (suc j) w a b c d e f = ground (arith, w.rises 0 j, d, e)
child_index_unique n low high key (suc i) zero w a b c d e f = ground (arith, w.rises 0 i, c, f)
child_index_unique n low high key (suc i) (suc j) w a b c d e f =
    ground (arith, w.rises (suc i) j, w.rises (suc j) i, c, d, e, f)

-- Two tests that fail leave the last branch.
if-neither :
    {A : Type 0} (s t : Bool) (x y z : A)
    → s ≡ false
    → t ≡ false
    → (if s then x else if t then y else z) ≡ z
if-neither s t x y z e f = rw (e, f) refl

pub loop-down :
    (h : Heap) (key c fuel : ℕ)
    → c ≢ null
    → (h.nodes c).is_leaf ≡ false
    → find_leaf_loop h key c (suc fuel)
      ≡ find_leaf_loop h key ((h.nodes c).pointers (child_index (h.nodes c) key)) fuel
unfolding find_leaf_loop
loop-down h key c fuel p e = if-neither _ _ _ _ _ (==-eq_false c 0 p) e

-- The leaf that the loop comes to holds the key where the tree does.
pub find_leaf_loop_lem :
    (h : Heap) (depth c low high key fuel : ℕ)
    → IsTree h depth c low high
    → low ≤ key
    → key < high
    → depth < fuel
    → (leaf : ℕ) × (find_leaf_loop h key c fuel ≡ some leaf)
      × IsSorted (h.nodes leaf).keys (h.nodes leaf).num_keys
      × ((r : ℕ) → Holds h depth c key r → Holds h 0 leaf key r)
      × ((r : ℕ) → Holds h 0 leaf key r → Holds h depth c key r)
unfolding find_leaf_loop IsTree Holds
find_leaf_loop_lem h depth c low high key zero t a b l = ground arith
find_leaf_loop_lem h zero c low high key (suc fuel) (p, (e, w)) a b l =
    (c, rw (==-eq_false c 0 p, e) refl, w.rises, λ r m. m, λ r m. m)
find_leaf_loop_lem h (suc depth) c low high key (suc fuel) (p, (e, (w, g))) a b l =
    let i = child_index (h.nodes c) key in
    let v = child_index-between (h.nodes c) low high key w a b in
    let (leaf, f, s, down, up) =
      find_leaf_loop_lem h depth ((h.nodes c).pointers i) (lower (h.nodes c) low i)
        (upper (h.nodes c) high i) key fuel (g i v.0) v.1.0 v.1.1 (omega arith) in
    (
      leaf,
      loop-down h key c fuel p e ∙ f,
      s,
      λ r m. down r (only_child r m i v),
      λ r m. (i, (v.0, up r m)),
    )
  where
    only_child :
        (r : ℕ)
        → Holds h (suc depth) c key r
        → (i : ℕ)
        → (i ≤ (h.nodes c).num_keys)
          × ((lower (h.nodes c) low i ≤ key) × (key < upper (h.nodes c) high i))
        → Holds h depth ((h.nodes c).pointers i) key r
    only_child r (j, (k, m)) i v =
        let range =
          Holds-range h depth _ (lower (h.nodes c) low j) (upper (h.nodes c) high j) key r (g j k)
            m in
        subst (λ x. Holds h depth ((h.nodes c).pointers x) key r)
          (child_index_unique (h.nodes c) low high key j i w k v.0 range.0 range.1 v.1.0 v.1.1) m

pub IsTree-root : (h : Heap) (depth c low high : ℕ) → IsTree h depth c low high → c ≢ null
unfolding IsTree
IsTree-root h zero c low high t = t.0
IsTree-root h (suc depth) c low high t = t.0

pub find_lem :
    (h : Heap) (root key fuel leaf : ℕ)
    → root ≢ null
    → find_leaf_loop h key root fuel ≡ some leaf
    → find h root key fuel ≡ some (find_in_leaf (h.nodes leaf) key, leaf)
unfolding find find_leaf
find_lem h root key fuel leaf p f = rw (==-eq_false root 0 p, f) refl

at_leaf_unique :
    (h : Heap) (leaf key v : ℕ)
    → IsSorted (h.nodes leaf).keys (h.nodes leaf).num_keys
    → Holds h 0 leaf key v
    → v ≡ find_in_leaf (h.nodes leaf) key
unfolding Holds
at_leaf_unique h leaf key v s m =
    Finds-unique _ _ _ key v _ s (inl m) (find-Finds (h.nodes leaf) key)

pub at_leaf-cases :
    (h : Heap) (leaf key : ℕ)
    → Holds h 0 leaf key (find_in_leaf (h.nodes leaf) key)
      ⊎ (((v : ℕ) → ¬ Holds h 0 leaf key v) × (find_in_leaf (h.nodes leaf) key ≡ null))
unfolding Holds
at_leaf-cases h leaf key = elim (find-Finds (h.nodes leaf) key) [
  | inl m ↦ inl m
  | inr (g, q) ↦ inr (λ v m. g m.0 m.1.0 m.1.1.0, q)
]

-- In a search tree, for a key in its range and with more fuel than levels, `find` gives a result:
-- a leaf, and the record that the tree holds under the key, which is the only one, or NULL when the
-- tree has no such key.
pub find-Holds :
    (h : Heap) (depth root low high key fuel : ℕ)
    → IsTree h depth root low high
    → low ≤ key
    → key < high
    → depth < fuel
    → (r leaf : ℕ) × (find h root key fuel ≡ some (r, leaf))
      × ((v : ℕ) → Holds h depth root key v → v ≡ r)
      × (Holds h depth root key r ⊎ (((v : ℕ) → ¬ Holds h depth root key v) × (r ≡ null)))
find-Holds h depth root low high key fuel t a b l =
    let (leaf, f, s, down, up) = find_leaf_loop_lem h depth root low high key fuel t a b l in
    (
      find_in_leaf (h.nodes leaf) key,
      leaf,
      find_lem h root key fuel leaf (IsTree-root h depth root low high t) f,
      λ v m. at_leaf_unique h leaf key v s (down v m),
      elim (at_leaf-cases h leaf key) [
        | inl m ↦ inl (up _ m)
        | inr (g, q) ↦ inr (λ v m. g v (down v m), q)
      ],
    )
