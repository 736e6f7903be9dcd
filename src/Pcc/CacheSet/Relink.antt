-- ===== src/Pcc/CacheSet/Relink.antt =====
-- Linking a line in by the set's policy, LRU (0) or LFU (2), and the decay of the frequencies.
use elastic_translations_mic.Prelude.{
  ℕ, zero, suc, ◌+◌, ◌/◌, ◌≤◌, ◌<◌, ◌≡◌, refl, ◌∙◌, ◌⊎◌, inl, inr, false, Option, some, List, [],
  ◌∷◌, arith, ◌==◌, if◌then◌else◌, update, mem, IsDistinct, length,
}
use elastic_translations_mic.Pcc.CacheSet.Defs.{
  CacheSet, Ptr, head, tail, insert_front, insert_before, insert_lfu, reinsert, place, decay_loop,
  decay_freqs,
}
use elastic_translations_mic.Pcc.CacheSet.Links.{Chain}
use elastic_translations_mic.Pcc.CacheSet.Insertion.{lfu_insert, insert_front-Chain, lfu_loop-Chain}

-- Where a line goes in the list.
unfoldable pub order : ℕ → (ℕ → ℕ) → Ptr → List Ptr → List Ptr
unfolding lfu_insert
order policy freq c xs = if policy == 0 then c ∷ xs else lfu_insert freq c xs

abbrev pub IsUsed : ℕ → Type 0
IsUsed policy = (policy ≡ 0) ⊎ (policy ≡ 2)

-- A run that changed links only, and linked `c` in by the policy.
abbrev pub Relinked : CacheSet → Ptr → List Ptr → Option CacheSet → Type 0
Relinked s c xs r =
    (next' : Ptr → Ptr) × (prev' : Ptr → Ptr) × (r ≡ some (record s { next = next'; prev = prev' }))
    × Chain next' prev' head (order s.policy s.freq c xs) tail

pub order-lru : (n : ℕ) (f : ℕ → ℕ) (c : Ptr) (xs : List Ptr) → n ≡ 0 → order n f c xs ≡ c ∷ xs
unfolding order
order-lru n f c xs e = rw e refl

pub order-lfu :
    (n : ℕ) (f : ℕ → ℕ) (c : Ptr) (xs : List Ptr) → n ≡ 2 → order n f c xs ≡ lfu_insert f c xs
unfolding order
order-lfu n f c xs e = rw e refl

module _ (s : CacheSet) (c : Ptr) where
  reinsert-lru : s.policy ≡ 0 → reinsert s c ≡ some (insert_front s c head)
  unfolding reinsert
  reinsert-lru e = simp e

  reinsert-lfu : s.policy ≡ 2 → reinsert s c ≡ insert_lfu s c
  unfolding reinsert
  reinsert-lfu e = simp e

  place-lru : s.policy ≡ 0 → place s c ≡ some (insert_front s c head)
  unfolding place
  place-lru e = simp e

  place-lfu : s.policy ≡ 2 → place s c ≡ insert_lfu s c
  unfolding place
  place-lfu e = simp e

module _ (s : CacheSet) (c : Ptr) (xs : List Ptr) (hn : mem c (head ∷ tail ∷ xs) ≡ false)
    (hp : mem head xs ≡ false) (hq : mem tail xs ≡ false) (d : IsDistinct xs)
    (short : length xs ≤ s.associativity) (fq : s.freq tail ≡ 0)
    (ch : Chain s.next s.prev head xs tail) where
  insert_front-Relinked :
      (r : Option CacheSet) → s.policy ≡ 0 → r ≡ some (insert_front s c head) → Relinked s c xs r
  unfolding insert_front
  insert_front-Relinked r e run = (
    (insert_front s c head).next,
    (insert_front s c head).prev,
    run,
    rw (order-lru s.policy s.freq c xs e) (insert_front-Chain s c head tail xs hn hp hq refl d ch),
  )

  insert_lfu-Relinked :
      (r : Option CacheSet) → s.policy ≡ 2 → r ≡ insert_lfu s c → Relinked s c xs r
  unfolding insert_lfu insert_before
  insert_lfu-Relinked r e run =
      let (w, (found, at, ch')) =
        lfu_loop-Chain s c (s.associativity + 1) head tail xs fq (omega arith) hn hp hq refl d ch in
      (
        (insert_before s c w).next,
        (insert_before s c w).prev,
        run ∙ rw found refl,
        rw (order-lfu s.policy s.freq c xs e) ch',
      )

  pub reinsert-Relinked : IsUsed s.policy → Relinked s c xs (reinsert s c)
  reinsert-Relinked (inl e) = insert_front-Relinked (reinsert s c) e (reinsert-lru s c e)
  reinsert-Relinked (inr e) = insert_lfu-Relinked (reinsert s c) e (reinsert-lfu s c e)

  pub place-Relinked : IsUsed s.policy → Relinked s c xs (place s c)
  place-Relinked (inl e) = insert_front-Relinked (place s c) e (place-lru s c e)
  place-Relinked (inr e) = insert_lfu-Relinked (place s c) e (place-lfu s c e)

-- Every frequency of the lines of `xs` is halved.
unfoldable pub halved : (ℕ → ℕ) → List Ptr → ℕ → ℕ
halved f xs a = if mem a xs then f a / 2 else f a

decay_loop-end : (fuel : ℕ) (s : CacheSet) (c : Ptr) → c ≡ tail → decay_loop (suc fuel) s c ≡ some s
unfolding decay_loop
decay_loop-end fuel s c e = ground arith

decay_loop-step :
    (fuel : ℕ) (s : CacheSet) (c x : Ptr)
    → c ≡ x
    → (x == tail) ≡ false
    → decay_loop (suc fuel) s c
      ≡ decay_loop fuel (record s { freq = update s.freq x (s.freq x / 2) }) (s.next x)
unfolding decay_loop
decay_loop-step fuel s c x e h = ground arith

decay_loop-halved :
    (fuel : ℕ) (s : CacheSet) (p : Ptr) (xs : List Ptr)
    → length xs < fuel
    → mem tail xs ≡ false
    → IsDistinct xs
    → Chain s.next s.prev p xs tail
    → (f : ℕ → ℕ) × (decay_loop fuel s (s.next p) ≡ some (record s { freq = f }))
      × ((a : ℕ) → f a ≡ halved s.freq xs a)
unfolding decay_loop halved
decay_loop-halved zero s p xs h ht d ch = absurd (omega arith)
decay_loop-halved (suc fuel) s p [] h ht d ch =
    (s.freq, decay_loop-end fuel s (s.next p) ch.0, λ a. refl)
decay_loop-halved (suc fuel) s p (x ∷ xs) h ht d ch =
    let s' = record s { freq = update s.freq x (s.freq x / 2) } in
    let (f, run, at) = decay_loop-halved fuel s' x xs (omega arith) (ground arith) d.1 ch.2 in
    (f, decay_loop-step fuel s (s.next p) x ch.0 (ground arith) ∙ run, λ a. ground (arith, at a))

pub decay_freqs-halved :
    (s : CacheSet) (xs : List Ptr)
    → length xs ≤ s.associativity
    → mem tail xs ≡ false
    → IsDistinct xs
    → Chain s.next s.prev head xs tail
    → (f : ℕ → ℕ) × (decay_freqs s ≡ some (record s { freq = f }))
      × ((a : ℕ) → f a ≡ halved s.freq xs a)
unfolding decay_freqs
decay_freqs-halved s xs h ht d ch =
    decay_loop-halved (s.associativity + 1) s head xs (omega arith) ht d ch
