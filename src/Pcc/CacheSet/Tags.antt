-- ===== src/Pcc/CacheSet/Tags.antt =====
-- Lists of tags, most recent first: what a set of src/pcc/tlb.h is compared with under LRU.
use elastic_translations_mic.Prelude.{
  ℕ, ◌≡◌, refl, ap, inl, inr, true, false, Bool, List, [], ◌∷◌, map, arith, ◌==◌, ltb,
  if◌then◌else◌, update, mem, remove, length, IsDistinct, ==-self, Bool-cases, eq_of_==,
}
use elastic_translations_mic.Pcc.CacheSet.Defs.{Ptr}
use elastic_translations_mic.Pcc.CacheSet.Links.{Chain}
use elastic_translations_mic.Pcc.CacheSet.Held.{last_of_links}

-- The reference: a list of at most `n` tags. An access puts its tag in front; a new one drives the
-- last one out of a full list.
unfoldable pub drop_last : List ℕ → List ℕ
drop_last [] = []
drop_last (x ∷ []) = []
drop_last (x ∷ (y ∷ xs)) = x ∷ drop_last (y ∷ xs)

unfoldable pub touched : ℕ → List ℕ → ℕ → List ℕ
touched n tags a =
    a ∷ (if mem a tags then remove a tags else if ltb (length tags) n then tags else drop_last tags)

unfoldable pub touched_all : ℕ → List ℕ → List ℕ → List ℕ
touched_all n tags [] = tags
touched_all n tags (a ∷ as') = touched_all n (touched n tags a) as'

unfoldable pub hits : ℕ → List ℕ → List ℕ → List Bool
hits n tags [] = []
hits n tags (a ∷ as') = mem a tags ∷ hits n (touched n tags a) as'

-- map addr over a list from which a line is removed.
pub map-remove :
    (addr : Ptr → ℕ) (c : Ptr) (xs : List Ptr)
    → ((x : Ptr) → mem x xs ≡ true → addr x ≡ addr c → x ≡ c)
    → map addr (remove c xs) ≡ remove (addr c) (map addr xs)
map-remove addr c [] inj = refl
map-remove addr c (x ∷ xs) inj = elim (Bool-cases (c == x)) [
  | inl e ↦ rw (e, eq_of_== c x e, ==-self (addr x)) refl
  | inr e ↦
      let ne : (addr c == addr x) ≡ false = ground (arith, e, inj x, ==-self x, ==-self c) in
      rw (e, ne) (ap (λ l. addr x ∷ l) (map-remove addr c xs (λ y m. inj y (ground (arith, m)))))
]

pub map-drop_last :
    (addr : Ptr → ℕ) (xs : List Ptr) → map addr (drop_last xs) ≡ drop_last (map addr xs)
unfolding drop_last
map-drop_last addr [] = refl
map-drop_last addr (x ∷ []) = refl
map-drop_last addr (x ∷ (y ∷ xs)) = ap (λ l. addr x ∷ l) (map-drop_last addr (y ∷ xs))

pub map-update :
    (addr : Ptr → ℕ) (c : Ptr) (a : ℕ) (xs : List Ptr)
    → mem c xs ≡ false
    → map (update addr c a) xs ≡ map addr xs
map-update addr c a [] h = refl
map-update addr c a (x ∷ xs) h = ground (arith, map-update addr c a xs, ==-self x)

pub length-map : (addr : Ptr → ℕ) (xs : List Ptr) → length (map addr xs) ≡ length xs
length-map addr [] = refl
length-map addr (x ∷ xs) = omega (arith, length-map addr xs)

-- The line before the back sentinel is the last of the list.
pub remove_last :
    (next prev : ℕ → ℕ) (p q : ℕ) (xs : List ℕ)
    → Chain next prev p xs q
    → IsDistinct xs
    → remove (prev q) xs ≡ drop_last xs
unfolding drop_last
remove_last next prev p q [] ch d = refl
remove_last next prev p q (x ∷ []) ch d = ground (arith, ch, ==-self x)
remove_last next prev p q (x ∷ (y ∷ xs)) ch d =
    let m : mem (prev q) (y ∷ xs) ≡ true =
      last_of_links next prev x q (y ∷ xs) (omega arith) ch.2 in
    let ne : (prev q == x) ≡ false = ground (arith, m, d) in
    rw ne (ap (λ l. x ∷ l) (remove_last next prev x q (y ∷ xs) ch.2 d.1))
