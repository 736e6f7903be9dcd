-- ===== src/Pcc/Cache/Ready.antt =====
-- A whole cache of src/pcc/tlb.h over any number of sets: access, insertion and eviction by the line of
-- an address.
use elastic_translations_mic.Prelude.{
  ℕ, zero, suc, ◌^◌, ◌≤◌, ◌<◌, ◌≡◌, refl, ◌∙◌, sym, ap, ◌⊎◌, inl, inr, ◌&&◌, true, false, Bool,
  Option, none, some, List, [], ◌∷◌, arith, ◌==◌, if◌then◌else◌, length, get_elem?, set, ==-self,
  subst, Bool-cases, eq_of_==,
}
use elastic_translations_mic.Pcc.CacheSet.Defs.{CacheSet}
use elastic_translations_mic.Pcc.CacheSet.Ready as SetReady
use elastic_translations_mic.Pcc.CacheSet.Held.{holds}
use elastic_translations_mic.Pcc.Cache.Defs.{
  FunctionalCache, Output, setid_of, tag_of, offset_of, log_pofs, access, insert, evict, output,
}
use elastic_translations_mic.Pcc.Cache.Fields.{Fits, setid-lt}

module _ {ℓ} {A : Type ℓ} where
  -- An index in range.
  get_elem?-lt : (xs : List A) (i : ℕ) → i < length xs → (x : A) × (get_elem? xs i ≡ some x)
  get_elem?-lt [] i h = elim h [ ]
  get_elem?-lt (x ∷ xs) zero h = (x, refl)
  get_elem?-lt (x ∷ xs) (suc i) h = get_elem?-lt xs i (omega arith)

  length-set : (xs : List A) (i : ℕ) (v : A) → length (set xs i v) ≡ length xs
  length-set [] i v = refl
  length-set (x ∷ xs) zero v = refl
  length-set (x ∷ xs) (suc i) v = omega (arith, length-set xs i v)

  get_elem?-set :
      (xs : List A) (i j : ℕ) (v : A)
      → i < length xs
      → get_elem? (set xs i v) j ≡ (if i == j then some v else get_elem? xs j)
  get_elem?-set [] i j v h = elim h [ ]
  get_elem?-set (x ∷ xs) zero zero v h = ground arith
  get_elem?-set (x ∷ xs) zero (suc j) v h = ground arith
  get_elem?-set (x ∷ xs) (suc i) zero v h = ground arith
  get_elem?-set (x ∷ xs) (suc i) (suc j) v h = ground (arith, get_elem?-set xs i j v)

-- What the vector has at an index holds the tag.
abbrev pub holds_at : Option CacheSet → ℕ → Bool
holds_at none t = false
holds_at (some c) t = holds c t

holds_at-if :
    (b : Bool) (c : CacheSet) (o : Option CacheSet) (t : ℕ)
    → holds_at (if b then some c else o) t ≡ (if b then holds c t else holds_at o t)
holds_at-if true c o t = refl
holds_at-if false c o t = refl

module _ (log2 : ℕ → ℕ) where
  -- The fields leave room for a tag, there are as many sets as `setid` can name, and all are ready.
  pub record IsReady (f : FunctionalCache) : Type 0 where
    pub fits : (is_2m : Bool) → Fits log2 f is_2m
    pub room : 2 ^ f.log_set_count ≤ length f.sets
    pub sets_ready : (i : ℕ) (c : CacheSet) → get_elem? f.sets i ≡ some c → SetReady.IsReady c

  -- A line with the tag of the address stands in the set of the address.
  unfoldable pub held : FunctionalCache → Bool → ℕ → Bool
  held f is_2m a = holds_at (get_elem? f.sets (setid_of log2 f is_2m a)) (tag_of log2 f is_2m a)

  -- Two addresses, with their page sizes, that share set and tag.
  unfoldable pub same_line : FunctionalCache → Bool → ℕ → Bool → ℕ → Bool
  same_line f is_2m a is_2m' b =
      (setid_of log2 f is_2m a == setid_of log2 f is_2m' b)
      && (tag_of log2 f is_2m' b == tag_of log2 f is_2m a)

  pub same_line_self :
      (f : FunctionalCache) (is_2m : Bool) (a : ℕ) → same_line f is_2m a is_2m a ≡ true
  unfolding same_line
  same_line_self f is_2m a =
      rw (==-self (setid_of log2 f is_2m a), ==-self (tag_of log2 f is_2m a)) refl

  held_lem :
      (f : FunctionalCache) (is_2m : Bool) (a : ℕ) (c : CacheSet)
      → get_elem? f.sets (setid_of log2 f is_2m a) ≡ some c
      → held f is_2m a ≡ holds c (tag_of log2 f is_2m a)
  unfolding held
  held_lem f is_2m a c e = rw e refl

  -- The cache with another set at the index `i`.
  abbrev pub replaced : FunctionalCache → ℕ → CacheSet → FunctionalCache
  replaced f i c' = record f { sets = set f.sets i c' }

  replaced-IsReady :
      (f : FunctionalCache) (i : ℕ) (c' : CacheSet)
      → IsReady f
      → i < length f.sets
      → SetReady.IsReady c'
      → IsReady (replaced f i c')
  unfolding log_pofs
  replaced-IsReady f i c' r l r' = record {
    fits = λ is_2m. r.fits is_2m;
    room = omega (arith, r.room, length-set f.sets i c');
    sets_ready = λ j c e. at j c (Bool-cases (i == j)) (sym (get_elem?-set f.sets i j c' l) ∙ e);
  }
    where
      at :
          (j : ℕ) (c : CacheSet)
          → ((i == j) ≡ true) ⊎ ((i == j) ≡ false)
          → (if i == j then some c' else get_elem? f.sets j) ≡ some c
          → SetReady.IsReady c
      at j c (inl h) e = subst (λ x. SetReady.IsReady x) (cc (rw h at e)) r'
      at j c (inr h) e = r.sets_ready j c (rw h at e)

  held-replaced :
      (f : FunctionalCache) (i : ℕ) (c' : CacheSet) (is_2m : Bool) (b : ℕ)
      → i < length f.sets
      → held (replaced f i c') is_2m b ≡ (
          if i == setid_of log2 f is_2m b then holds c' (tag_of log2 f is_2m b) else held f is_2m b)
  unfolding held setid_of tag_of log_pofs
  held-replaced f i c' is_2m b l =
      ap (λ o. holds_at o (tag_of log2 f is_2m b))
        (get_elem?-set f.sets i (setid_of log2 f is_2m b) c' l)
      ∙ holds_at-if (i == setid_of log2 f is_2m b) c' (get_elem? f.sets (setid_of log2 f is_2m b)) _

  module _ {f : FunctionalCache} (r : IsReady f) (is_2m : Bool) (a : ℕ) where
    set_there :
        (c : CacheSet) × (get_elem? f.sets (setid_of log2 f is_2m a) ≡ some c)
        × (setid_of log2 f is_2m a < length f.sets)
    set_there =
        let l : setid_of log2 f is_2m a < length f.sets =
          omega (arith, setid-lt log2 f is_2m (r.fits is_2m) a, r.room) in
        let (c, e) = get_elem?-lt f.sets _ l in (c, e, l)

    at_set :
        (c : CacheSet)
        → get_elem? f.sets (setid_of log2 f is_2m a) ≡ some c
        → (is_2m' : Bool) (b : ℕ) → (setid_of log2 f is_2m a == setid_of log2 f is_2m' b) ≡ true
        → held f is_2m' b ≡ holds c (tag_of log2 f is_2m' b)
    at_set c e is_2m' b h =
        held_lem f is_2m' b c (subst (λ i. get_elem? f.sets i ≡ some c) (eq_of_== _ _ h) e)

    -- `access` never faults, answers whether the line is held, and changes for no address, with
    -- either page size, whether its line is held.
    pub access-IsReady :
        (is_load : Bool)
        → (f' : FunctionalCache) × (access log2 f a is_load is_2m ≡ some (f', held f is_2m a))
          × IsReady f'
          × ((is_2m' : Bool) (b : ℕ) → held f' is_2m' b ≡ held f is_2m' b)
    unfolding access
    access-IsReady is_load =
        let (c, e, l) = set_there in
        let (c', run, (r', cov), same) =
          SetReady.access-IsReady (r.sets_ready _ c e) (tag_of log2 f is_2m a)
            (offset_of log2 f is_2m a) is_load in
        (
          replaced f (setid_of log2 f is_2m a) c',
          rw (e, run, held_lem f is_2m a c e) refl,
          replaced-IsReady f _ c' r l r',
          λ is_2m' b. held-replaced f _ c' is_2m' b l ∙ unchanged c c' e same is_2m' b,
        )
      where
        unchanged :
            (c c' : CacheSet)
            → get_elem? f.sets (setid_of log2 f is_2m a) ≡ some c
            → ((t : ℕ) → holds c' t ≡ holds c t)
            → (is_2m' : Bool) (b : ℕ)
            → (if setid_of log2 f is_2m a == setid_of log2 f is_2m' b
                then holds c' (tag_of log2 f is_2m' b)
                else held f is_2m' b)
              ≡ held f is_2m' b
        unchanged c c' e same is_2m' b =
            elim (Bool-cases (setid_of log2 f is_2m a == setid_of log2 f is_2m' b)) [
              | inl h ↦ rw (h, at_set c e is_2m' b h) (same _)
              | inr h ↦ rw h refl
            ]

    -- `insert` never faults, and the line of the address is held afterwards.
    pub insert-IsReady :
        (is_load : Bool)
        → (f' : FunctionalCache) × (o : Output) × (insert log2 f a is_load is_2m ≡ some (f', o))
          × IsReady f'
          × (held f' is_2m a ≡ true)
    unfolding insert
    insert-IsReady is_load =
        let (c, e, l) = set_there in
        let (c', x, run, r', cov, swaps, reported) =
          SetReady.insert-IsReady (r.sets_ready _ c e) (tag_of log2 f is_2m a)
            (offset_of log2 f is_2m a) is_load in
        (
          replaced f (setid_of log2 f is_2m a) c',
          output f (setid_of log2 f is_2m a) x,
          rw (e, run) refl,
          replaced-IsReady f _ c' r l r',
          held-replaced f _ c' is_2m a l
              ∙ rw (==-self (setid_of log2 f is_2m a))
                  (swaps (tag_of log2 f is_2m a) ∙ rw (==-self (tag_of log2 f is_2m a)) refl),
        )

    -- `evict` of an address whose line is held never faults, and lets go of that line only.
    pub evict-IsReady :
        held f is_2m a ≡ true
        → (f' : FunctionalCache) × (dirty : Bool) × (evict log2 f a is_2m ≡ some (f', dirty))
          × IsReady f'
          × ((is_2m' : Bool) (b : ℕ)
              → held f' is_2m' b
                ≡ (if same_line f is_2m a is_2m' b then false else held f is_2m' b))
    unfolding evict same_line
    evict-IsReady h =
        let (c, e, l) = set_there in
        let (c', d, run, (r', cov), gone, freqs) =
          SetReady.evict-IsReady (r.sets_ready _ c e) (tag_of log2 f is_2m a)
            (sym (held_lem f is_2m a c e) ∙ h) in
        (
          replaced f (setid_of log2 f is_2m a) c',
          d,
          rw (e, run) refl,
          replaced-IsReady f _ c' r l r',
          λ is_2m' b. held-replaced f _ c' is_2m' b l ∙ let_go c c' e gone is_2m' b,
        )
      where
        let_go :
            (c c' : CacheSet)
            → get_elem? f.sets (setid_of log2 f is_2m a) ≡ some c
            → ((t : ℕ) → holds c' t ≡ (if t == tag_of log2 f is_2m a then false else holds c t))
            → (is_2m' : Bool) (b : ℕ)
            → (if setid_of log2 f is_2m a == setid_of log2 f is_2m' b
                then holds c' (tag_of log2 f is_2m' b)
                else held f is_2m' b)
              ≡ (if (setid_of log2 f is_2m a == setid_of log2 f is_2m' b)
                    && (tag_of log2 f is_2m' b == tag_of log2 f is_2m a)
                  then false
                  else held f is_2m' b)
        let_go c c' e gone is_2m' b =
            elim (Bool-cases (setid_of log2 f is_2m a == setid_of log2 f is_2m' b)) [
              | inl h ↦ rw (h, at_set c e is_2m' b h) (gone _)
              | inr h ↦ rw h refl
            ]
