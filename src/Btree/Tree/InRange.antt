-- ===== src/Btree/Tree/InRange.antt =====
-- What `find_range` of src/benchmarks/btree/btree1.c returns for a chain of leaves.
use elastic_translations_mic.Prelude.{
  ℕ, zero, suc, ◌+◌, ◌-◌, ◌≤◌, ◌<◌, ◌≡◌, ◌≢◌, refl, sym, ◌∙◌, ltb, leb, ◌==◌, ◌||◌, ◌&&◌, Bool,
  true, false, Bool-cases, inl, inr, if◌then◌else◌, some, List, [], ◌∷◌, ◌++◌, length, arith,
  ==-eq_false,
}
use elastic_translations_mic.Btree.Node.Defs.{Node, null, scan}
use elastic_translations_mic.Btree.Node.Scan.{scan-le, scan-passed, scan-stopped}
use elastic_translations_mic.Btree.Node.Lookup.{IsSorted}
use elastic_translations_mic.Btree.Tree.Defs.{Heap, find_leaf}
use elastic_translations_mic.Btree.Tree.Range.{collect, range_loop, find_range}

-- The pairs of a leaf at the places i, ..., i + m - 1.
abbrev pub pairs_at : Node → ℕ → ℕ → List (ℕ × ℕ)
pairs_at n i zero = []
pairs_at n i (suc m) = (n.keys i, n.pointers i) ∷ pairs_at n (suc i) m

abbrev pub pairs_of : Node → List (ℕ × ℕ)
pairs_of n = pairs_at n 0 n.num_keys

abbrev pub all_pairs : Heap → List ℕ → List (ℕ × ℕ)
all_pairs h [] = []
all_pairs h (l ∷ ls) = pairs_of (h.nodes l) ++ all_pairs h ls

-- The pairs with keys between the bounds, both included.
abbrev pub in_range : ℕ → ℕ → List (ℕ × ℕ) → List (ℕ × ℕ)
in_range low high [] = []
in_range low high ((k, v) ∷ ps) =
    if leb low k && leb k high then (k, v) ∷ in_range low high ps else in_range low high ps

-- Some pair has a key of at least `low`.
abbrev pub any_from : ℕ → List (ℕ × ℕ) → Bool
any_from low [] = false
any_from low ((k, v) ∷ ps) = leb low k || any_from low ps

-- The leaves from `leaf` on, by their links, with sorted keys of at least `low`.
abbrev pub IsChain : Heap → ℕ → ℕ → ℕ → List ℕ → Type 0
IsChain h order low leaf [] = leaf ≡ null
IsChain h order low leaf (l ∷ ls) =
    (leaf ≡ l)
    × (l ≢ null)
    × IsSorted (h.nodes l).keys (h.nodes l).num_keys
    × ((i : ℕ) → i < (h.nodes l).num_keys → low ≤ (h.nodes l).keys i)
    × IsChain h order low ((h.nodes l).pointers (order - 1)) ls

in_range-append :
    (low high : ℕ) (ps qs : List (ℕ × ℕ))
    → in_range low high (ps ++ qs) ≡ in_range low high ps ++ in_range low high qs
in_range-append low high [] qs = refl
in_range-append low high ((k, v) ∷ ps) qs = elim (Bool-cases (leb low k && leb k high)) [
  | inl e ↦ rw (e, in_range-append low high ps qs) refl
  | inr e ↦ rw (e, in_range-append low high ps qs) refl
]

-- Above the upper bound nothing is left.
none_above :
    (n : Node) (low high i m : ℕ)
    → ((j : ℕ) → i ≤ j → j < i + m → high < n.keys j)
    → in_range low high (pairs_at n i m) ≡ []
none_above n low high i zero w = refl
none_above n low high i (suc m) w =
    let e : (leb low (n.keys i) && leb (n.keys i) high) ≡ false =
      ground (arith, w i (omega arith) (omega arith)) in
    rw e (none_above n low high (suc i) m (λ j a b. w j (omega (arith, a)) (omega (arith, b))))

collect-in_range :
    (n : Node) (low high i m : ℕ)
    → IsSorted n.keys (i + m)
    → ((j : ℕ) → i ≤ j → j < i + m → low ≤ n.keys j)
    → collect n high i m ≡ in_range low high (pairs_at n i m)
unfolding collect
collect-in_range n low high i zero s w = refl
collect-in_range n low high i (suc m) s w = elim (Bool-cases (leb (n.keys i) high)) [
  | inl e ↦
      let f : leb low (n.keys i) ≡ true = ground (arith, w i (omega arith) (omega arith)) in
      rw
        (
          e,
          f,
          collect-in_range n low high (suc i) m (λ a b h l. s a b h (omega (arith, l)))
              (λ j a b. w j (omega (arith, a)) (omega (arith, b))),
        )
        refl
  | inr e ↦
      let f : (leb low (n.keys i) && leb (n.keys i) high) ≡ false = ground (arith, e) in
      rw (f, e)
        (sym (
          none_above n low high (suc i) m
            (λ j a b. ground (arith, e, s i j (omega (arith, a)) (omega (arith, b))))))
]

-- Below the lower bound nothing counts.
skip_below :
    (n : Node) (low high i p m k c : ℕ)
    → k ≡ i + p
    → c ≡ p + m
    → ((j : ℕ) → i ≤ j → j < i + p → n.keys j < low)
    → in_range low high (pairs_at n i c) ≡ in_range low high (pairs_at n k m)
skip_below n low high i zero m k c e q w =
    let e' : k ≡ i = omega (arith, e) in let q' : c ≡ m = omega (arith, q) in rw (e', q') refl
skip_below n low high i (suc p) m k c e q w =
    let q' : c ≡ suc (p + m) = omega (arith, q) in
    let out : (leb low (n.keys i) && leb (n.keys i) high) ≡ false =
      ground (arith, w i (omega arith) (omega arith)) in
    rw (q', out)
      (skip_below n low high (suc i) p m k (p + m) (omega (arith, e)) refl
        (λ j a b. w j (omega (arith, a)) (omega (arith, b))))

any_from-scan :
    (n : Node) (low i m : ℕ)
    → any_from low (pairs_at n i m) ≡ ltb (scan (λ j. ltb (n.keys j) low) i m) (i + m)
unfolding scan
any_from-scan n low i zero = ground arith
any_from-scan n low i (suc m) =
    ground (arith, any_from-scan n low (suc i) m, scan-le (λ j. ltb (n.keys j) low) (suc i) m)

range_loop-in_range :
    (order : ℕ) (h : Heap) (low high leaf : ℕ) (ls : List ℕ) (fuel : ℕ)
    → length ls < fuel
    → IsChain h order low leaf ls
    → range_loop order fuel h high leaf 0 ≡ some (in_range low high (all_pairs h ls))
unfolding range_loop
range_loop-in_range order h low high leaf ls zero l ch = ground (arith, l)
range_loop-in_range order h low high leaf [] (suc fuel) l ch = rw ch refl
range_loop-in_range order h low high leaf (x ∷ ls) (suc fuel) l (e, there, sorted, above, ch) =
    let ih =
      range_loop-in_range order h low high ((h.nodes x).pointers (order - 1)) ls fuel
        (omega (arith, l)) ch in
    let n = h.nodes x in
    let whole : n.num_keys - 0 ≡ n.num_keys = omega arith in
    rw
      (
        e,
        ==-eq_false x 0 there,
        ih,
        whole,
        collect-in_range n low high 0 n.num_keys (λ a b h k. sorted a b h (omega (arith, k)))
            (λ j a b. above j (omega (arith, b))),
        in_range-append low high (pairs_of n) (all_pairs h ls),
      )
      refl

-- Where the search for `key_start` comes to a leaf with sorted keys, and the leaves that follow it
-- by the links have sorted keys of at least `key_start`, with fuel for the levels and the leaves,
-- `find_range` returns the pairs of all these leaves with keys from `key_start` to `key_end`, if
-- the first leaf has a key of at least `key_start`, and nothing otherwise.
pub find_range-in_range :
    (order : ℕ) (h : Heap) (root key_start key_end fuel rounds leaf : ℕ) (ls : List ℕ)
    → find_leaf h root key_start fuel ≡ some leaf
    → leaf ≢ null
    → IsSorted (h.nodes leaf).keys (h.nodes leaf).num_keys
    → IsChain h order key_start ((h.nodes leaf).pointers (order - 1)) ls
    → length ls < rounds
    → find_range order h root key_start key_end fuel (suc rounds)
      ≡ some (
          if any_from key_start (pairs_of (h.nodes leaf))
          then in_range key_start key_end (all_pairs h (leaf ∷ ls))
          else [])
unfolding find_range range_loop
find_range-in_range order h root key_start key_end fuel rounds leaf ls e there sorted ch l =
    let n = h.nodes leaf in
    let t = λ (j : ℕ). ltb (n.keys j) key_start in
    let i = scan t 0 n.num_keys in
    let bound = scan-le t 0 n.num_keys in
    elim (Bool-cases (ltb i n.num_keys)) [
      | inr out ↦
          let end : (i == n.num_keys) ≡ true = ground (arith, out, bound) in
          let nothing : any_from key_start (pairs_of n) ≡ false =
            ground (arith, any_from-scan n key_start 0 n.num_keys, out) in
          rw (e, ==-eq_false leaf 0 there, end, nothing) refl
      | inl inside ↦
          let more : (i == n.num_keys) ≡ false = ground (arith, inside) in
          let some_key : any_from key_start (pairs_of n) ≡ true =
            ground (arith, any_from-scan n key_start 0 n.num_keys, inside) in
          let rest =
            range_loop-in_range order h key_start key_end (n.pointers (order - 1)) ls rounds l ch in
          let here : collect n key_end i (n.num_keys - i)
              ≡ in_range key_start key_end (pairs_of n) =
            collect-in_range n key_start key_end i (n.num_keys - i)
              (λ a b h k. sorted a b h (omega (arith, k, bound)))
              (λ j a b. ground (arith, scan-stopped t 0 n.num_keys, inside, a, b, sorted i j))
            ∙ sym (
                skip_below n key_start key_end 0 i (n.num_keys - i) i n.num_keys (omega arith)
                  (omega (arith, bound))
                  (λ j a b. ground (arith, scan-passed t 0 n.num_keys j, b))) in
          rw
            (
              e,
              ==-eq_false leaf 0 there,
              more,
              some_key,
              rest,
              here,
              in_range-append key_start key_end (pairs_of n) (all_pairs h ls),
            )
            refl
    ]
