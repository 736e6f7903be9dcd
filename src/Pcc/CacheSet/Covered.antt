-- ===== src/Pcc/CacheSet/Covered.antt =====
-- `get_set` and `get_freq` of src/pcc/tlb.h on a set where each line is found under its own tag.
use elastic_translations_mic.Prelude.{
  ◌⊎◌, ℕ, ◌<◌, ◌≡◌, refl, sym, ap, subst, true, false, Option, some, List, [], ◌∷◌, map, arith,
  ◌==◌, mem, IsDistinct, ==-self, eq_of_==, Bool-cases, inl, inr,
}
use elastic_translations_mic.Pcc.CacheSet.Defs.{CacheSet, Ptr, head, get_set, get_freq}
use elastic_translations_mic.Pcc.CacheSet.Evict.{get_set-map}
use elastic_translations_mic.Pcc.CacheSet.Held.{stored, holds, held_line}
use elastic_translations_mic.Pcc.CacheSet.Ready.{IsReady, IsCovered}

pub mem-map :
    (addr : Ptr → ℕ) (a : ℕ) (xs : List Ptr)
    → mem a (map addr xs) ≡ true
    → (c : Ptr) × (mem c xs ≡ true) × (addr c ≡ a)
mem-map addr a [] m = ground arith
mem-map addr a (x ∷ xs) m = elim (Bool-cases (a == addr x)) [
  | inl e ↦ (x, ground (arith, ==-self x), sym (eq_of_== a (addr x) e))
  | inr e ↦ let (c, k, q) = mem-map addr a xs (ground arith) in (c, ground (arith, k), q)
]

pub mem-map_self :
    (addr : Ptr → ℕ) (c : Ptr) (xs : List Ptr) → mem c xs ≡ true → mem (addr c) (map addr xs) ≡ true
mem-map_self addr c [] m = ground arith
mem-map_self addr c (x ∷ xs) m = elim (Bool-cases (c == x)) [
  | inl e ↦ rw (eq_of_== c x e, ==-self (addr x)) refl
  | inr e ↦ ground (arith, mem-map_self addr c xs)
]

map-IsDistinct :
    (m : ℕ → Option Ptr) (addr : Ptr → ℕ) (xs : List Ptr)
    → ((c : Ptr) → mem c xs ≡ true → m (addr c) ≡ some c)
    → IsDistinct xs
    → IsDistinct (map addr xs)
map-IsDistinct m addr [] cov d = tt
map-IsDistinct m addr (x ∷ xs) cov (out, d) = (
  fresh (Bool-cases (mem (addr x) (map addr xs))),
  map-IsDistinct m addr xs (λ c k. cov c (ground (arith, k))) d,
)
  where
    same : (c : Ptr) → mem c xs ≡ true → addr c ≡ addr x → c ≡ x
    same c k q = ground (arith, cov c, cov x, ==-self x, ap m q)

    fresh :
        ((mem (addr x) (map addr xs) ≡ true) ⊎ (mem (addr x) (map addr xs) ≡ false))
        → mem (addr x) (map addr xs) ≡ false
    fresh (inr e) = e
    fresh (inl e) = let (c, k, q) = mem-map addr (addr x) xs e in ground (arith, out, k, same c k q)

-- The tags that `get_set` lists are distinct, are all the held ones, and lie below the bound.
pub record IsListing (s : CacheSet) (bound : ℕ) (as' : List ℕ) : Type 0 where
  pub listed : get_set s ≡ some as'
  pub distinct : IsDistinct as'
  pub held : (a : ℕ) → mem a as' ≡ true → (holds s a ≡ true) × (a < bound)
  pub complete : (a : ℕ) → holds s a ≡ true → mem a as' ≡ true

module _ {s : CacheSet} (r : IsReady s) where
  held_tag :
      (bound : ℕ)
      → IsCovered bound s r
      → (c : Ptr) → mem c r.lines ≡ true
      → (holds s (s.addr c) ≡ true) × (s.addr c < bound)
  unfolding stored
  held_tag bound cov c m = (rw ((cov c m).0) (ground (arith, r.valid.entries c)), (cov c m).1)

  pub get_set-IsListing : (bound : ℕ) → IsCovered bound s r → (as' : List ℕ) × IsListing s bound as'
  get_set-IsListing bound cov = (
    map s.addr r.lines,
    record {
      listed = get_set-map r.valid;
      distinct = map-IsDistinct s.addr_map s.addr r.lines (λ c m. (cov c m).0) r.valid.distinct;
      held =
          λ a m. let (c, k, q) = mem-map s.addr a r.lines m in rw (sym q) (held_tag bound cov c k);
      complete = λ a h.
          let (c, e, ne) = held_line (s.addr_map a) h in
          let (m, at) = r.valid.mapped a c e ne in
          subst (λ x. mem x (map s.addr r.lines) ≡ true) at (mem-map_self s.addr c r.lines m);
    },
  )

  pub get_freq-held : (a : ℕ) → holds s a ≡ true → (n : ℕ) × (get_freq s a ≡ some n)
  unfolding get_freq
  get_freq-held a h =
      let (c, e, ne) = held_line (s.addr_map a) h in
      let m = (r.valid.mapped a c e ne).0 in (s.freq c, rw (e, not_head c m, ne) refl)
    where
      not_head : (c : Ptr) → mem c r.lines ≡ true → (c == head) ≡ false
      not_head c m = ground (arith, r.valid.entries c)
