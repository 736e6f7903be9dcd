-- ===== src/Pcc/CacheSet/Held.antt =====
-- Which addresses a set of src/pcc/tlb.h holds, read from its map.
use elastic_translations_mic.Prelude.{
  ℕ, ◌<◌, ◌≡◌, refl, ◌⊎◌, inl, inr, ◌||◌, true, false, Bool, Option, none, some, List, [], ◌∷◌,
  arith, ◌==◌, if◌then◌else◌, mem, length,
}
use elastic_translations_mic.Pcc.CacheSet.Defs.{CacheSet, Ptr, null}
use elastic_translations_mic.Pcc.CacheSet.Links.{Chain, last-mem}

-- What the map stores under a held address: a line.
unfoldable pub stored : Option Ptr → Bool
stored none = false
stored (some c) = if c == null then false else true

-- The address is held: the map sends it to a line.
abbrev pub holds : CacheSet → ℕ → Bool
holds s address = stored (s.addr_map address)

pub stored_line : (c : Ptr) → (c == null) ≡ false → stored (some c) ≡ true
unfolding stored
stored_line c ne = rw ne refl

pub stored-full :
    (o : Option Ptr) (b d : Bool) (c : Ptr)
    → (c == null) ≡ false
    → stored (if b then some c else (if d then none else o))
      ≡ (if b then true else if d then false else stored o)
unfolding stored
stored-full o true d c ne = rw ne refl
stored-full o false true c ne = refl
stored-full o false false c ne = refl

pub stored-free :
    (o : Option Ptr) (b : Bool) (c : Ptr)
    → (c == null) ≡ false
    → stored (if b then some c else o) ≡ (b || stored o)
unfolding stored
stored-free o true c ne = rw ne refl
stored-free o false c ne = refl

-- A miss stores NULL, which holds nothing.
pub stored-miss :
    (o k o' : Option Ptr) (b : Bool)
    → (k ≡ none) ⊎ (k ≡ some null)
    → (b ≡ true → o ≡ k)
    → (b ≡ true → o' ≡ some null)
    → (b ≡ false → o' ≡ o)
    → stored o' ≡ stored o
unfolding stored
stored-miss o k o' true (inl e) h h' old = rw (h' refl, h refl, e) refl
stored-miss o k o' true (inr e) h h' old = rw (h' refl, h refl, e) refl
stored-miss o k o' false e h h' old = rw (old refl) refl

pub held_line :
    (o : Option Ptr) → stored o ≡ true → (c : Ptr) × (o ≡ some c) × ((c == null) ≡ false)
unfolding stored
held_line none h = ground arith
held_line (some c) h = (c, refl, ground arith)

pub stored_erase :
    (o : Option Ptr) (b : Bool) → stored (if b then none else o) ≡ (if b then false else stored o)
unfolding stored
stored_erase o true = refl
stored_erase o false = refl

-- The list of a full set is not empty, and its last line is in it.
pub last_of_links :
    (next prev : ℕ → ℕ) (p q : ℕ) (xs : List ℕ)
    → 0 < length xs
    → Chain next prev p xs q
    → mem (prev q) xs ≡ true
last_of_links next prev p q [] h ch = elim h [ ]
last_of_links next prev p q (x ∷ xs) h ch = ground (arith, last-mem next prev x q xs ch.2)

pub no_lines : (free : List Ptr) → free ≡ [] → length free ≡ 0
no_lines free e = rw e refl
