-- ===== src/Pcc/CacheSet/Insertion.antt =====
-- What the insertions of `CacheSet` at the front and in the order of the frequencies do to the
-- list of lines.
use elastic_translations_mic.Prelude.{
  ℕ, zero, suc, ◌<◌, ◌≡◌, refl, ◌||◌, true, false, some, List, [], ◌∷◌, arith, ltb, ◌==◌,
  if◌then◌else◌, update, mem, IsDistinct, length, inl, inr, Bool-cases,
}
use elastic_translations_mic.Pcc.CacheSet.Defs.{
  CacheSet, Ptr, insert_front, insert_before, lfu_loop,
}
use elastic_translations_mic.Pcc.CacheSet.Links.{Chain, Chain-frame, prev-mem, last-mem, link_first}

-- Before the first line that is not used more often than `c`.
unfoldable pub lfu_insert : (ℕ → ℕ) → ℕ → List ℕ → List ℕ
lfu_insert freq c [] = c ∷ []
lfu_insert freq c (x ∷ xs) = if ltb (freq c) (freq x) then x ∷ lfu_insert freq c xs else c ∷ x ∷ xs

module _ (s : CacheSet) (c : Ptr) where
  -- `prev` leads back from the first line.
  prev_first : (p q : Ptr) (xs : List Ptr) → Chain s.next s.prev p xs q → s.prev (s.next p) ≡ p
  prev_first p q [] ch = ground arith
  prev_first p q (x ∷ xs) ch = ground arith

  pub insert_front-Chain :
      (p q : Ptr) (xs : List Ptr)
      → mem c (p ∷ q ∷ xs) ≡ false
      → mem p xs ≡ false
      → mem q xs ≡ false
      → (p == q) ≡ false
      → IsDistinct xs
      → Chain s.next s.prev p xs q
      → Chain (insert_front s c p).next (insert_front s c p).prev p (c ∷ xs) q
  unfolding insert_front
  insert_front-Chain p q xs hn hp hq ne d ch =
      Chain-frame (update (update s.next c (s.next p)) p c)
        (update (update s.prev c p) (s.next p) c) (insert_front s c p).next
        (insert_front s c p).prev p q (c ∷ xs) (λ y m. ground arith) (λ y m. ground arith)
        (link_first s.next s.prev c p q xs hn hp hq ne d ch)

  pub insert_before_first :
      (p q : Ptr) (xs : List Ptr)
      → mem c (p ∷ q ∷ xs) ≡ false
      → mem p xs ≡ false
      → mem q xs ≡ false
      → (p == q) ≡ false
      → IsDistinct xs
      → Chain s.next s.prev p xs q
      → Chain (insert_before s c (s.next p)).next (insert_before s c (s.next p)).prev p (c ∷ xs) q
  unfolding insert_before
  insert_before_first p q xs hn hp hq ne d ch =
      Chain-frame (update (update s.next c (s.next p)) p c)
        (update (update s.prev c p) (s.next p) c) (insert_before s c (s.next p)).next
        (insert_before s c (s.next p)).prev p q (c ∷ xs)
        (λ y m. ground (arith, prev_first p q xs ch)) (λ y m. ground (arith, prev_first p q xs ch))
        (link_first s.next s.prev c p q xs hn hp hq ne d ch)

  -- The loop of `insertLFU` stops at `w`, and linking `c` in before `w` gives the LFU order.
  abbrev pub Walked : ℕ → Ptr → Ptr → List Ptr → Ptr → Type 0
  Walked fuel p q xs w =
      (lfu_loop fuel s c (s.next p) ≡ some w)
      × (((w == q) || mem w xs) ≡ true)
      × Chain (insert_before s c w).next (insert_before s c w).prev p (lfu_insert s.freq c xs) q

  module _ (fuel : ℕ) (p q x : Ptr) (xs : List Ptr) (hn : mem c (p ∷ q ∷ x ∷ xs) ≡ false)
      (hp : mem p (x ∷ xs) ≡ false) (hq : mem q (x ∷ xs) ≡ false) (ne : (p == q) ≡ false)
      (d : IsDistinct (x ∷ xs)) (ch : Chain s.next s.prev p (x ∷ xs) q) where
    at_prev :
        (w : Ptr) → ((w == q) || mem w xs) ≡ true → ((s.prev w == x) || mem (s.prev w) xs) ≡ true
    at_prev w at =
        ground (arith, prev-mem s.next s.prev w x q xs ch.2, last-mem s.next s.prev x q xs ch.2)

    Walked-more :
        (w : Ptr)
        → ltb (s.freq c) (s.freq x) ≡ true
        → Walked fuel x q xs w
        → Walked (suc fuel) p q (x ∷ xs) w
    unfolding lfu_loop lfu_insert insert_before
    Walked-more w more (found, at, rest) = rw more (
      rw (ch.0, more) found,
      ground arith,
      (ground (arith, at_prev w at), ground (arith, at_prev w at), rest),
    )

    Walked-stop : ltb (s.freq c) (s.freq x) ≡ false → Walked (suc fuel) p q (x ∷ xs) (s.next p)
    unfolding lfu_loop lfu_insert
    Walked-stop stop =
        rw stop
          (rw (ch.0, stop) refl, ground arith, insert_before_first p q (x ∷ xs) hn hp hq ne d ch)

  -- The loop of `insertLFU` from the first line behind `p`: it stops within `length xs` rounds at a
  -- place before which the line is linked in.
  pub lfu_loop-Chain :
      (fuel : ℕ) (p q : Ptr) (xs : List Ptr)
      → s.freq q ≡ 0
      → length xs < fuel
      → mem c (p ∷ q ∷ xs) ≡ false
      → mem p xs ≡ false
      → mem q xs ≡ false
      → (p == q) ≡ false
      → IsDistinct xs
      → Chain s.next s.prev p xs q
      → (w : Ptr) × Walked fuel p q xs w
  unfolding lfu_loop lfu_insert
  lfu_loop-Chain zero p q xs fq h hn hp hq ne d ch = absurd (omega arith)
  lfu_loop-Chain (suc fuel) p q [] fq h hn hp hq ne d ch =
      (s.next p, (ground arith, ground arith, insert_before_first p q [] hn hp hq ne d ch))
  lfu_loop-Chain (suc fuel) p q (x ∷ xs) fq h hn hp hq ne d ch =
      elim (Bool-cases (ltb (s.freq c) (s.freq x))) [
        | inl more ↦
            let (w, walked) =
              lfu_loop-Chain fuel x q xs fq (omega arith) (ground arith) (ground arith)
                (ground arith) (ground arith) d.1 ch.2 in
            (w, Walked-more fuel p q x xs hn hp hq ne d ch w more walked)
        | inr stop ↦ (s.next p, Walked-stop fuel p q x xs hn hp hq ne d ch stop)
      ]
