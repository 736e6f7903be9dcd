-- ===== src/Btree/Tree/Searches.antt =====
-- What `find` of src/benchmarks/btree/btree1.c gives in a heap of which one leaf is changed in place.
use elastic_translations_mic.Prelude.{
  ℕ, zero, suc, ◌≡◌, ◌≢◌, inl, inr, refl, sym, ◌∙◌, ap, subst, Bool, true, false, arith, ◌==◌,
  eq_of_==, Bool-cases, Option-cases, if◌then◌else◌, Option, none, some, ◌>>=◌, ==-eq_false,
}
use elastic_translations_mic.Btree.Node.Defs.{null, child_index, find_in_leaf}
use elastic_translations_mic.Btree.Tree.Defs.{Heap, find_leaf_loop, find_leaf, find}
use elastic_translations_mic.Btree.Tree.Find.{find_lem}
use elastic_translations_mic.Btree.Tree.Frame.{no_fuel, some_eq, ChangesLeaf, find_leaf_loop_same}

same_end :
    (b l : Bool) (c x y : ℕ) (o o' : Option ℕ)
    → (o ≡ some x → o' ≡ some y → x ≡ y)
    → (if b then none else if l then some c else o) ≡ some x
    → (if b then none else if l then some c else o') ≡ some y
    → x ≡ y
same_end true l c x y o o' ih e q = ground (arith, e)
same_end false true c x y o o' ih e q = some_eq x y (sym e ∙ q)
same_end false false c x y o o' ih e q = ih e q

-- With any fuel, the search that ends comes to the same leaf.
pub find_leaf_loop_unique :
    (h : Heap) (key c f g a b : ℕ)
    → find_leaf_loop h key c f ≡ some a
    → find_leaf_loop h key c g ≡ some b
    → a ≡ b
unfolding find_leaf_loop
find_leaf_loop_unique h key c zero g a b e q = ground (arith, no_fuel h key c a e)
find_leaf_loop_unique h key c (suc f) zero a b e q = ground (arith, no_fuel h key c b q)
find_leaf_loop_unique h key c (suc f) (suc g) a b e q =
    let down = (h.nodes c).pointers (child_index (h.nodes c) key) in
    same_end (c == null) (h.nodes c).is_leaf c a b (find_leaf_loop h key down f)
      (find_leaf_loop h key down g) (λ x y. find_leaf_loop_unique h key down f g a b x y) e q

ends_at_leaf :
    (h : Heap) (b l : Bool) (c x : ℕ) (o : Option ℕ)
    → (h.nodes c).is_leaf ≡ l
    → (o ≡ some x → (h.nodes x).is_leaf ≡ true)
    → (if b then none else if l then some c else o) ≡ some x
    → (h.nodes x).is_leaf ≡ true
ends_at_leaf h true l c x o p ih e = ground (arith, e)
ends_at_leaf h false true c x o p ih e = subst (λ y. (h.nodes y).is_leaf ≡ true) (some_eq c x e) p
ends_at_leaf h false false c x o p ih e = ih e

-- The search ends at a leaf.
pub find_leaf_loop-leaf :
    (h : Heap) (key c f leaf : ℕ)
    → find_leaf_loop h key c f ≡ some leaf
    → (h.nodes leaf).is_leaf ≡ true
unfolding find_leaf_loop
find_leaf_loop-leaf h key c zero leaf e = ground (arith, no_fuel h key c leaf e)
find_leaf_loop-leaf h key c (suc f) leaf e =
    let down = (h.nodes c).pointers (child_index (h.nodes c) key) in
    ends_at_leaf h (c == null) (h.nodes c).is_leaf c leaf (find_leaf_loop h key down f) refl
      (λ x. find_leaf_loop-leaf h key down f leaf x) e

ends_in_heap :
    (l : Bool) (c x : ℕ) (o : Option ℕ)
    → (o ≡ some x → x ≢ null)
    → (if c == null then none else if l then some c else o) ≡ some x
    → x ≢ null
ends_in_heap l c x o ih e = elim (Bool-cases (c == null)) [
  | inl n ↦ ground (arith, e, n)
  | inr n ↦ here l (subst (λ b. (if b then none else if l then some c else o) ≡ some x) n e) n
]
  where
    here : (l : Bool) → (if l then some c else o) ≡ some x → (c == null) ≡ false → x ≢ null
    here true e n q = ground (arith, some_eq c x e, q, n)
    here false e n q = ih e q

pub find_leaf_loop_in_heap :
    (h : Heap) (key c f leaf : ℕ) → find_leaf_loop h key c f ≡ some leaf → leaf ≢ null
unfolding find_leaf_loop
find_leaf_loop_in_heap h key c zero leaf e = ground (arith, no_fuel h key c leaf e)
find_leaf_loop_in_heap h key c (suc f) leaf e =
    let down = (h.nodes c).pointers (child_index (h.nodes c) key) in
    ends_in_heap (h.nodes c).is_leaf c leaf (find_leaf_loop h key down f)
      (λ x. find_leaf_loop_in_heap h key down f leaf x) e

find_lost :
    (h : Heap) (root key fuel : ℕ)
    → root ≢ null
    → find_leaf_loop h key root fuel ≡ none
    → find h root key fuel ≡ none
unfolding find find_leaf
find_lost h root key fuel p f = rw (==-eq_false root 0 p, f) refl

-- What a search gives once the record `v` stands under `key`.
abbrev pub found_under : ℕ → ℕ → ℕ → Option (ℕ × ℕ) → Option (ℕ × ℕ)
found_under key v k o = if k == key then (do (r, leaf) ← o; some (v, leaf)) else o

found_none : (key v k : ℕ) → none ≡ found_under key v k none
found_none key v k = elim (Bool-cases (k == key)) [ inl e ↦ rw e refl | inr e ↦ rw e refl ]

found_some :
    (key v k r r' leaf : ℕ)
    → r' ≡ (if k == key then v else r)
    → some (r', leaf) ≡ found_under key v k (some (r, leaf))
found_some key v k r r' leaf q = elim (Bool-cases (k == key)) [
  | inl e ↦ rw (q, e) refl
  | inr e ↦ rw (q, e) refl
]

module _ {h h' : Heap} {leaf : ℕ} (ch : ChangesLeaf h h' leaf) where
  -- Where the record `v` comes under the key in the leaf that the search for it comes to, and the
  -- other keys of the leaf find what they found, it does so in the heap.
  pub find_changed :
      (root key fuel v : ℕ)
      → root ≢ null
      → find_leaf_loop h key root fuel ≡ some leaf
      → ((k : ℕ)
          → find_in_leaf (h'.nodes leaf) k
            ≡ (if k == key then v else find_in_leaf (h.nodes leaf) k))
      → (k fuel' : ℕ) → find h' root k fuel' ≡ found_under key v k (find h root k fuel')
  find_changed root key fuel v p f at k fuel' =
      elim (Option-cases (find_leaf_loop h k root fuel')) [
        | inl e ↦
            find_lost h' root k fuel' p (find_leaf_loop_same ch k root fuel' ∙ e)
            ∙ found_none key v k
            ∙ ap (found_under key v k) (sym (find_lost h root k fuel' p e))
        | inr (l, e) ↦
            find_lem h' root k fuel' l p (find_leaf_loop_same ch k root fuel' ∙ e)
            ∙ found_some key v k (find_in_leaf (h.nodes l) k) (find_in_leaf (h'.nodes l) k) l
                (here l e)
            ∙ ap (found_under key v k) (sym (find_lem h root k fuel' l p e))
      ]
    where
      other : (l : ℕ) → find_leaf_loop h k root fuel' ≡ some l → l ≢ leaf → (k == key) ≡ false
      other l e ne = elim (Bool-cases (k == key)) [
        | inr q ↦ q
        | inl q ↦ ground (
          arith,
          ne (
              find_leaf_loop_unique h key root fuel' fuel l leaf
                (subst (λ x. find_leaf_loop h x root fuel' ≡ some l) (eq_of_== k key q) e) f),
        )
      ]

      here :
          (l : ℕ)
          → find_leaf_loop h k root fuel' ≡ some l
          → find_in_leaf (h'.nodes l) k ≡ (if k == key then v else find_in_leaf (h.nodes l) k)
      here l e = elim (Bool-cases (l == leaf)) [
        | inl q ↦ rw (eq_of_== l leaf q) (at k)
        | inr q ↦ rw (ch.same l (ground (arith, q)), other l e (ground (arith, q))) refl
      ]
