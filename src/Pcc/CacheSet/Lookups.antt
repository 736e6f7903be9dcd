-- ===== src/Pcc/CacheSet/Lookups.antt =====
-- Sequences of look-ups in a set of src/pcc/tlb.h under LRU, beside the reference list.
use elastic_translations_mic.Prelude.{
  ℕ, ◌<◌, ◌≡◌, refl, ◌∙◌, ap, ◌⊎◌, inl, inr, false, Bool, Option, none, some, List, [], ◌∷◌, arith,
  ◌==◌, ltb, if◌then◌else◌, mem, length, subst, Bool-cases, eq_of_==, ◌>>=◌,
}
use elastic_translations_mic.Pcc.CacheSet.Defs.{CacheSet, Ptr, null, new_set, get_set}
use elastic_translations_mic.Pcc.CacheSet.Evict.{get_set-map}
use elastic_translations_mic.Pcc.CacheSet.Run.{new_set-IsValid}
use elastic_translations_mic.Pcc.CacheSet.Held.{stored, holds}
use elastic_translations_mic.Pcc.CacheSet.Tags.{drop_last, touched, touched_all, hits}
use elastic_translations_mic.Pcc.CacheSet.Lru.{
  IsLru, Leaves, look_up, hit-IsLru, miss-IsLru, insert_split, held-mem, mem-held,
}

not_stored : (o : Option Ptr) → stored o ≡ false → (o ≡ none) ⊎ (o ≡ some null)
unfolding stored
not_stored none h = inl refl
not_stored (some c) h = elim (Bool-cases (c == null)) [
  | inl e ↦ inr (ap (λ (k : ℕ). some k) (eq_of_== c null e))
  | inr e ↦ ground (arith, h, e)
]

-- A look-up never faults, answers whether the tag is listed, and changes the list as the reference
-- does.
look_up-IsLru :
    {s : CacheSet} {tags : List ℕ} (l : IsLru s tags) (a offset : ℕ) (is_load : Bool)
    → Leaves s.associativity
        (touched s.associativity tags a)
        (mem a tags)
        (look_up s a offset is_load)
unfolding look_up touched
look_up-IsLru {s} {tags} l a offset is_load = elim (Bool-cases (holds s a)) [
  | inl h ↦ rw ((held-mem l a h).3) (hit-IsLru l a offset is_load h)
  | inr h ↦
      let (s1, run, n, out, l1) = miss-IsLru l a offset is_load (not_stored (s.addr_map a) h) in
      let (s2, e, run', n', l2) = insert_split l1 a offset is_load s1.free_entries refl out in
      let miss : mem a tags ≡ false = ground (arith, mem-held l a, h) in
      (
        s2,
        rw (run, run', miss) refl,
        n' ∙ n,
        rw miss (
            subst (λ k. IsLru s2 (a ∷ (if ltb (length tags) k then tags else drop_last tags))) n
              l2),
      )
]

-- The look-ups of a list of requests, and their answers.
unfoldable pub look_up_all : CacheSet → List (ℕ × ℕ × Bool) → Option (CacheSet × List Bool)
look_up_all s [] = some (s, [])
look_up_all s ((a, offset, is_load) ∷ qs) = do
  (s', hit) ← look_up s a offset is_load
  (t, rest) ← look_up_all s' qs
  some (t, hit ∷ rest)

abbrev pub tags_of : List (ℕ × ℕ × Bool) → List ℕ
tags_of [] = []
tags_of ((a, offset, is_load) ∷ qs) = a ∷ tags_of qs

look_up_all-IsLru :
    (qs : List (ℕ × ℕ × Bool)) (s : CacheSet) (tags : List ℕ)
    → IsLru s tags
    → (t : CacheSet) × (look_up_all s qs ≡ some (t, hits s.associativity tags (tags_of qs)))
      × IsLru t (touched_all s.associativity tags (tags_of qs))
unfolding look_up_all hits touched_all
look_up_all-IsLru [] s tags l = (s, refl, l)
look_up_all-IsLru ((a, offset, is_load) ∷ qs) s tags l =
    let (s', run, n, l') = look_up-IsLru l a offset is_load in
    let (t, run', m) = look_up_all-IsLru qs s' (touched s.associativity tags a) l' in
    (
      t,
      rw (run, run', n) refl,
      subst (λ k. IsLru t (touched_all k (touched s.associativity tags a) (tags_of qs))) n m,
    )

-- From a new LRU set with at least one entry, every sequence of look-ups (an access, and an
-- insertion after a miss) runs without a fault, answers as the reference list does, and leaves the
-- tags of the reference list in its order, which `get_set` gives.
pub look_up_all-new_set :
    (n : ℕ) (qs : List (ℕ × ℕ × Bool))
    → 0 < n
    → (t : CacheSet) × (look_up_all (new_set n 0) qs ≡ some (t, hits n [] (tags_of qs)))
      × (get_set t ≡ some (touched_all n [] (tags_of qs)))
unfolding new_set
look_up_all-new_set n qs h =
    let (t, run, l) = look_up_all-IsLru qs (new_set n 0) [] (record {
      lines = [];
      valid = new_set-IsValid n 0;
      lru = refl;
      positive = h;
      covered = λ c m. ground arith;
      listed = refl;
    }) in
    (t, run, get_set-map l.valid ∙ ap some l.listed)
