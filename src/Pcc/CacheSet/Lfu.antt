-- ===== src/Pcc/CacheSet/Lfu.antt =====
-- The LFU policy: the list is sorted by falling frequency, so the victim is a least used line, and
-- no counter reaches MAX_FREQ.
use elastic_translations_mic.Prelude.{
  ℕ, ◌+◌, ◌-◌, ◌/◌, ◌≤◌, ◌<◌, ◌≡◌, refl, inl, inr, true, false, List, [], ◌∷◌, arith, ltb, ◌==◌,
  if◌then◌else◌, update, mem, remove, ==-self, Bool-cases,
}
use elastic_translations_mic.Pcc.CacheSet.Defs.{CacheSet, Ptr, max_freq}
use elastic_translations_mic.Pcc.CacheSet.Links.{Chain}
use elastic_translations_mic.Pcc.CacheSet.Valid.{IsValid}
use elastic_translations_mic.Pcc.CacheSet.Insertion.{lfu_insert}
use elastic_translations_mic.Pcc.CacheSet.Relink.{halved}

-- Frequencies fall from at most `b`, front to back.
abbrev pub Falls : (ℕ → ℕ) → ℕ → List ℕ → Type 0
Falls f b [] = Unit {0}
Falls f b (x ∷ xs) = (f x ≤ b) × Falls f (f x) xs

pub Falls-weaken : (f : ℕ → ℕ) (a b : ℕ) (xs : List ℕ) → a ≤ b → Falls f a xs → Falls f b xs
Falls-weaken f a b [] h w = tt
Falls-weaken f a b (x ∷ xs) h w = (omega arith, w.1)

pub Falls-remove : (f : ℕ → ℕ) (b c : ℕ) (xs : List ℕ) → Falls f b xs → Falls f b (remove c xs)
Falls-remove f b c [] w = tt
Falls-remove f b c (x ∷ xs) w = elim (Bool-cases (c == x)) [
  | inl e ↦ rw e (Falls-weaken f (f x) b xs w.0 w.1)
  | inr e ↦ rw e (w.0, Falls-remove f (f x) c xs w.1)
]

pub Falls-frame :
    (f g : ℕ → ℕ) (b : ℕ) (xs : List ℕ)
    → ((a : ℕ) → mem a xs ≡ true → g a ≡ f a)
    → Falls f b xs
    → Falls g b xs
Falls-frame f g b [] h w = tt
Falls-frame f g b (x ∷ xs) h w =
    let e : g x ≡ f x = h x (rw (==-self x) refl) in
    (rw e w.0, rw e (Falls-frame f g (f x) xs (λ a m. h a (ground arith)) w.1))

-- The line goes in where its old frequency says; it stays sorted when the frequency then grows by
-- at most one.
pub Falls-lfu_insert :
    (f g : ℕ → ℕ) (b c : ℕ) (xs : List ℕ)
    → ((a : ℕ) → mem a xs ≡ true → g a ≡ f a)
    → f c ≤ g c
    → g c ≤ f c + 1
    → g c ≤ b
    → Falls f b xs
    → Falls g b (lfu_insert f c xs)
unfolding lfu_insert
Falls-lfu_insert f g b c [] h lo hi top w = (top, tt)
Falls-lfu_insert f g b c (x ∷ xs) h lo hi top w =
    let e : g x ≡ f x = h x (rw (==-self x) refl) in
    let rest = λ (a : ℕ) (m : mem a xs ≡ true). h a (ground arith) in
    elim (Bool-cases (ltb (f c) (f x))) [
      | inl more ↦
          rw more (rw e w.0, rw e (Falls-lfu_insert f g (f x) c xs rest lo hi (ground arith) w.1))
      | inr stop ↦ rw stop (top, (ground arith, rw e (Falls-frame f g (f x) xs rest w.1)))
    ]

Falls-halved :
    (f g : ℕ → ℕ) (b : ℕ) (xs : List ℕ)
    → ((a : ℕ) → mem a xs ≡ true → g a ≡ f a / 2)
    → Falls f b xs
    → Falls g (b / 2) xs
Falls-halved f g b [] h w = tt
Falls-halved f g b (x ∷ xs) h w =
    let e : g x ≡ f x / 2 = h x (rw (==-self x) refl) in
    (omega (arith, e, w.0), rw e (Falls-halved f g (f x) xs (λ a m. h a (ground arith)) w.1))

pub Falls-mem : (f : ℕ → ℕ) (b a : ℕ) (xs : List ℕ) → Falls f b xs → mem a xs ≡ true → f a ≤ b
Falls-mem f b a [] w m = ground arith
Falls-mem f b a (x ∷ xs) w m = ground (arith, Falls-mem f (f x) a xs w.1)

-- The node before the end is used least.
pub last-least :
    (next prev f : ℕ → ℕ) (b p q : ℕ) (xs : List ℕ)
    → Chain next prev p xs q
    → Falls f b xs
    → (a : ℕ) → mem a xs ≡ true
    → f (prev q) ≤ f a
last-least next prev f b p q [] ch w a m = ground arith
last-least next prev f b p q (x ∷ []) ch w a m = ground arith
last-least next prev f b p q (x ∷ y ∷ xs) ch w a m = ground (
  arith,
  last-least next prev f (f x) x q (y ∷ xs) ch.2 w.1 a,
  last-least next prev f (f x) x q (y ∷ xs) ch.2 w.1 y,
  ==-self y,
)

-- The invariant of the promotion cache's set: valid, LFU, sorted by frequency, all below MAX_FREQ.
pub record IsLfu (s : CacheSet) (xs : List Ptr) : Type 0 where
  pub valid : IsValid s xs
  pub lfu : s.policy ≡ 2
  pub positive : 0 < s.associativity
  pub falls : Falls s.freq (max_freq - 1) xs

-- The frequencies after a hit, given the new count `n` of the line.
module _ (f g : ℕ → ℕ) (c n : ℕ) (xs : List ℕ) (top : n ≤ max_freq) (up : n ≡ f c + 1)
    (w : Falls f (max_freq - 1) xs) (out : mem c xs ≡ false) where
  update_old : (a : ℕ) → mem a xs ≡ true → update f c n a ≡ f a
  update_old a m = ground arith

  Falls-update : (b : ℕ) → n ≤ b → max_freq - 1 ≤ b → Falls (update f c n) b (lfu_insert f c xs)
  Falls-update b hb hm =
      Falls-lfu_insert f (update f c n) b c xs update_old (ground (arith, ==-self c))
        (ground (arith, ==-self c)) (ground (arith, ==-self c))
        (Falls-weaken f (max_freq - 1) b xs hm w)

  pub Falls-used :
      ((a : ℕ)
        → g a
          ≡ (if n == max_freq then halved (update f c n) (lfu_insert f c xs) else update f c n) a)
      → Falls g (max_freq - 1) (lfu_insert f c xs)
  unfolding halved
  Falls-used h = elim (Bool-cases (n == max_freq)) [
    | inl full ↦ Falls-weaken g (max_freq / 2) (max_freq - 1) (lfu_insert f c xs) (omega arith) (
        Falls-halved (update f c n) g max_freq (lfu_insert f c xs) (λ a m. ground (arith, h a))
          (Falls-update max_freq top (omega arith)))
    | inr more ↦
        Falls-frame (update f c n) g (max_freq - 1) (lfu_insert f c xs) (λ a m. ground (arith, h a))
          (Falls-update (max_freq - 1) (ground arith) (omega arith))
  ]
