-- ===== src/Pcc/CacheSet/Links.antt =====
-- The doubly linked list of a set, as a list of lines between two nodes: what cutting a line out
-- and linking a line in do to it.
use elastic_translations_mic.Prelude.{
  inl, inr, Bool-cases, remove, eq_of_==, ==-self, ℕ, ◌≡◌, true, false, ◌||◌, List, [], ◌∷◌, arith,
  ◌==◌, update, mem, IsDistinct,
}

-- From `p` the links lead through `xs` to `q`, and back.
abbrev pub Chain : (next prev : ℕ → ℕ) → ℕ → List ℕ → ℕ → Type 0
Chain next prev p [] q = (next p ≡ q) × (prev q ≡ p)
Chain next prev p (x ∷ xs) q = (next p ≡ x) × (prev x ≡ p) × Chain next prev x xs q

-- A chain reads `next` at its nodes but the last, and `prev` at its nodes but the first.
pub Chain-frame :
    (next prev next' prev' : ℕ → ℕ) (p q : ℕ) (xs : List ℕ)
    → ((a : ℕ) → ((a == p) || mem a xs) ≡ true → next' a ≡ next a)
    → ((a : ℕ) → ((a == q) || mem a xs) ≡ true → prev' a ≡ prev a)
    → Chain next prev p xs q
    → Chain next' prev' p xs q
Chain-frame next prev next' prev' p q [] hn hp c = ground (arith, hn p, hp q)
Chain-frame next prev next' prev' p q (x ∷ xs) hn hp c = (
  ground (arith, hn p),
  ground (arith, hp x),
  Chain-frame next prev next' prev' x q xs (λ a m. hn a (ground arith)) (λ a m. hp a (ground arith))
      c.2,
)

-- The two stores of `deleteNode` and the second halves of the insertions: `a` and `b` are joined.
module _ (next prev : ℕ → ℕ) where
  -- A write of `next` outside the chain's readers, and one of `prev`.
  pub Chain-update :
      (a b u v p q : ℕ) (xs : List ℕ)
      → ((a == p) || mem a xs) ≡ false
      → ((b == q) || mem b xs) ≡ false
      → Chain next prev p xs q
      → Chain (update next a u) (update prev b v) p xs q
  Chain-update a b u v p q xs ha hb c =
      Chain-frame next prev (update next a u) (update prev b v) p q xs (λ y m. ground arith)
        (λ y m. ground arith) c

  -- The neighbours of a line of the chain are in it, or are its ends.
  pub prev-mem :
      (c p q : ℕ) (xs : List ℕ)
      → Chain next prev p xs q
      → mem c xs ≡ true
      → ((prev c == p) || mem (prev c) xs) ≡ true
  prev-mem c p q [] ch m = ground arith
  prev-mem c p q (x ∷ xs) ch m = ground (arith, prev-mem c x q xs)

  pub next-mem :
      (c p q : ℕ) (xs : List ℕ)
      → Chain next prev p xs q
      → mem c xs ≡ true
      → ((next c == q) || mem (next c) xs) ≡ true
  next-mem c p q [] ch m = ground arith
  next-mem c p q (x ∷ []) ch m = ground arith
  next-mem c p q (x ∷ y ∷ xs) ch m = ground (arith, next-mem c x q (y ∷ xs))

  -- The node behind the chain's last line.
  pub last-mem :
      (p q : ℕ) (xs : List ℕ) → Chain next prev p xs q → ((prev q == p) || mem (prev q) xs) ≡ true
  last-mem p q [] ch = ground arith
  last-mem p q (x ∷ xs) ch = ground (arith, last-mem x q xs)

  cut_first :
      (p q x : ℕ) (xs : List ℕ)
      → mem p (x ∷ xs) ≡ false
      → mem q (x ∷ xs) ≡ false
      → (p == q) ≡ false
      → IsDistinct (x ∷ xs)
      → Chain next prev p (x ∷ xs) q
      → Chain (update next p (next x)) (update prev (next x) p) p xs q
  cut_first p q x [] hp hq ne d ch = ground arith
  cut_first p q x (y ∷ xs) hp hq ne d ch = (
    ground arith,
    ground arith,
    Chain-update p (next x) (next x) p y q xs (ground arith) (ground arith) ch.2.2,
  )

  -- `deleteNode`: the chain without the line.
  pub cut-Chain :
      (c p q : ℕ) (xs : List ℕ)
      → mem c xs ≡ true
      → mem p xs ≡ false
      → mem q xs ≡ false
      → (p == q) ≡ false
      → IsDistinct xs
      → Chain next prev p xs q
      → Chain (update next (prev c) (next c)) (update prev (next c) (prev c)) p (remove c xs) q
  cut-Chain c p q [] m hp hq ne d ch = ground arith
  cut-Chain c p q (x ∷ xs) m hp hq ne d ch = elim (Bool-cases (c == x)) [
    | inl e ↦ rw (eq_of_== c x e, ==-self x, ch.1) (cut_first p q x xs hp hq ne d ch)
    | inr e ↦ rw e (
      ground (arith, prev-mem c x q xs),
      ground (arith, next-mem c x q xs),
      cut-Chain c x q xs (ground arith) (ground arith) (ground arith) (ground arith) d.1 ch.2,
    )
  ]

  -- A line never is its own neighbour.
  pub prev-ne_self :
      (c p q : ℕ) (xs : List ℕ)
      → mem c xs ≡ true
      → mem p xs ≡ false
      → IsDistinct xs
      → Chain next prev p xs q
      → (c == prev c) ≡ false
  prev-ne_self c p q [] m hp d ch = ground arith
  prev-ne_self c p q (x ∷ xs) m hp d ch = ground (arith, prev-ne_self c x q xs)

  -- The insertions: `n` is linked in before the first line.
  pub link_first :
      (n p q : ℕ) (xs : List ℕ)
      → mem n (p ∷ q ∷ xs) ≡ false
      → mem p xs ≡ false
      → mem q xs ≡ false
      → (p == q) ≡ false
      → IsDistinct xs
      → Chain next prev p xs q
      → Chain
          (update (update next n (next p)) p n)
          (update (update prev n p) (next p) n)
          p
          (n ∷ xs)
          q
  link_first n p q [] hn hp hq ne d ch = ground arith
  link_first n p q (x ∷ xs) hn hp hq ne d ch =
      let l1 = Chain-update n n (next p) p x q xs (ground arith) (ground arith) ch.2 in
      let l2 =
        Chain-frame (update next n (next p)) (update prev n p) (update (update next n (next p)) p n)
          (update (update prev n p) (next p) n) x q xs (λ y m. ground arith) (λ y m. ground arith)
          l1 in
      (ground arith, ground arith, (ground arith, ground arith, l2))
