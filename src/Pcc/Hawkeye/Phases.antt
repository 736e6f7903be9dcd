-- ===== src/Pcc/Hawkeye/Phases.antt =====
-- `hawkeye_track_access` of src/pcc/hawkeye.h: the phases, and the bits of the coverage.
use elastic_translations_mic.Prelude.{
  ℕ, suc, ◌+◌, ◌-◌, ◌*◌, ◌/◌, ◌%◌, ◌<◌, ◌≡◌, refl, ◌∙◌, ap, Bool, true, false, Bool-cases, inl, inr,
  Option, some, List, [], ◌∷◌, map, ◌==◌, if◌then◌else◌, arith, eq_of_==, ==-self, subst,
}
use elastic_translations_mic.Pcc.Doubles.{Doubles}
use elastic_translations_mic.Pcc.Cache.Defs.{page_size, huge_page_size}
use elastic_translations_mic.Pcc.Reuse.State.{word, factor, access_interval}
use elastic_translations_mic.Pcc.Hawkeye.Defs.{
  Hawkeye, Bitset, no_bits, put_bits, find_bits, bits_or_none, num_base_pages, cover,
  clear_coverage, summarize, hawkeye_track_access, hawkeye_start,
}

==-sym : (a b : ℕ) → (a == b) ≡ (b == a)
==-sym a b = ground arith

if_shadow {ℓ} :
    {A : Type ℓ} (b : Bool) (x y z : A)
    → (if b then x else z) ≡ (if b then x else if b then y else z)
if_shadow true x y z = refl
if_shadow false x y z = refl

shadow :
    (base b : ℕ) (bits old : Bitset) (o : Option Bitset)
    → (if base == b then some bits else o)
      ≡ (if b == base then some bits else if base == b then some old else o)
shadow base b bits old o = rw (==-sym base b) (if_shadow (b == base) (some bits) (some old) o)

if_swap {ℓ} :
    {A : Type ℓ} (p q : Bool) (x y z : A)
    → (q ≡ true → p ≡ false)
    → (if p then x else if q then y else z) ≡ (if q then y else if p then x else z)
if_swap true true x y z h = ground (arith, h)
if_swap true false x y z h = refl
if_swap false true x y z h = refl
if_swap false false x y z h = refl

swap :
    (x base b : ℕ)
    → (x == base) ≡ false
    → (bits old : Bitset) (o : Option Bitset)
    → (if x == b then some old else if b == base then some bits else o)
      ≡ (if b == base then some bits else if x == b then some old else o)
swap x base b ne bits old o =
    if_swap (x == b) (b == base) (some old) (some bits) o (λ e. ground (arith, e, ne, ==-self b))

find_bits-put_bits :
    (pairs : List (ℕ × Bitset)) (base b : ℕ) (bits : Bitset)
    → find_bits (put_bits pairs base bits) b ≡ (if b == base then some bits else find_bits pairs b)
unfolding find_bits put_bits
find_bits-put_bits [] base b bits = rw (==-sym base b) refl
find_bits-put_bits ((x, old) ∷ rest) base b bits = elim (Bool-cases (x == base)) [
  | inl e ↦ rw (e, eq_of_== x base e) (shadow base b bits old (find_bits rest b))
  | inr e ↦
      rw (e, find_bits-put_bits rest base b bits) (swap x base b e bits old (find_bits rest b))
]

-- The offset of a page is below 512, so the bitset has it.
offset :
    (u : ℕ)
    → u / page_size - u / huge_page_size * (huge_page_size / page_size)
      ≡ u / page_size % num_base_pages
offset u = omega arith

same_page :
    (u v : ℕ)
    → v / huge_page_size ≡ u / huge_page_size
    → (v / page_size % num_base_pages == u / page_size % num_base_pages)
      ≡ (v / page_size == u / page_size)
same_page u v e = ground (arith, e)

other_page :
    (u v : ℕ)
    → (v / huge_page_size == u / huge_page_size) ≡ false
    → (v / page_size == u / page_size) ≡ false
other_page u v e = ground (arith, e)

no_bit :
    (pairs : List (ℕ × Bitset)) (base i : ℕ)
    → bits_or_none (find_bits (map (λ p. (p.0, no_bits)) pairs) base) i ≡ false
unfolding find_bits bits_or_none
no_bit [] base i = refl
no_bit ((x, bits) ∷ rest) base i = elim (Bool-cases (x == base)) [
  | inl e ↦ rw e refl
  | inr e ↦ rw e (no_bit rest base i)
]

module _ (d : Doubles) where
  -- The bit of the page of an address.
  unfoldable pub bit : Hawkeye d → ℕ → Bool
  bit h v =
      bits_or_none (find_bits h.coverage (v / huge_page_size)) (v / page_size % num_base_pages)

  -- An access that is covered sets the bit of its page, and no other bit.
  cover-bit :
      (order : List (ℕ × Bitset) → List (ℕ × Bitset)) (h : Hawkeye d) (u v : ℕ)
      → bit (cover d order h u) v ≡ (if v / page_size == u / page_size then true else bit h v)
  unfolding bit cover bits_or_none
  cover-bit order h u v = elim (Bool-cases (v / huge_page_size == u / huge_page_size)) [
    | inl e ↦
        let e' : v / huge_page_size ≡ u / huge_page_size =
          eq_of_== (v / huge_page_size) (u / huge_page_size) e in
        ap (λ o. bits_or_none o (v / page_size % num_base_pages))
          (find_bits-put_bits h.coverage (u / huge_page_size) (v / huge_page_size) _)
        ∙ rw (e, offset u, same_page u v e', e') refl
    | inr e ↦
        ap (λ o. bits_or_none o (v / page_size % num_base_pages))
          (find_bits-put_bits h.coverage (u / huge_page_size) (v / huge_page_size) _)
        ∙ rw (e, other_page u v e) refl
  ]

  -- The number of accesses stays below the length of the phase.
  abbrev pub IsPhased : Hawkeye d → Type 0
  IsPhased h =
      h.curr_num_accesses < (if h.tracking then access_interval else factor * access_interval)

  start-IsPhased : IsPhased (hawkeye_start d)
  unfolding hawkeye_start
  start-IsPhased = omega arith

  module _ (order : List (ℕ × Bitset) → List (ℕ × Bitset)) (h : Hawkeye d) (vaddr : ℕ) where
    -- The state once the access is counted.
    abbrev pub counted : Hawkeye d
    counted = record h {
      curr_num_accesses = word (h.curr_num_accesses + 1);
      total_num_accesses = word (h.total_num_accesses + 1);
    }

    -- While nothing is tracked, an access is only counted; the last of the pause turns tracking on.
    pub hawkeye_track_access_pause :
        h.tracking ≡ false
        → IsPhased h
        → (h' : Hawkeye d) × (hawkeye_track_access d order h vaddr ≡ some h')
          × IsPhased h'
          × (h'.tracking ≡ (suc h.curr_num_accesses == factor * access_interval))
          × (h'.coverage ≡ h.coverage)
          × (h'.hawkeye_promotions ≡ h.hawkeye_promotions)
          × (h'.curr_num_accesses ≡ (
              if suc h.curr_num_accesses == factor * access_interval
              then 0
              else suc h.curr_num_accesses))
    unfolding hawkeye_track_access
    hawkeye_track_access_pause off w =
        let below : h.curr_num_accesses < factor * access_interval =
          subst
            (λ b. h.curr_num_accesses < (if b then access_interval else factor * access_interval))
            off w in
        elim (Bool-cases (word (h.curr_num_accesses + 1) % (factor * access_interval) == 0)) [
          | inl e ↦ (
            record counted { tracking = true; curr_num_accesses = 0 },
            rw (off, e) refl,
            omega arith,
            ground (arith, e, below),
            refl,
            refl,
            ground (arith, e, below),
          )
          | inr e ↦ (
            counted,
            rw (off, e) refl,
            rw off (ground (arith, e, below)),
            ground (arith, off, e, below),
            refl,
            refl,
            ground (arith, e, below),
          )
        ]

    -- While accesses are tracked and the interval is not over, an access returns, and sets the bit of
    -- its page and no other bit.
    pub hawkeye_track_access_covers :
        h.tracking ≡ true
        → IsPhased h
        → (suc h.curr_num_accesses == access_interval) ≡ false
        → (h' : Hawkeye d) × (hawkeye_track_access d order h vaddr ≡ some h')
          × IsPhased h'
          × (h'.tracking ≡ true)
          × ((v : ℕ) → bit h' v ≡ (if v / page_size == vaddr / page_size then true else bit h v))
          × (h'.curr_num_accesses ≡ suc h.curr_num_accesses)
    unfolding hawkeye_track_access cover bit
    hawkeye_track_access_covers on w more =
        let below : h.curr_num_accesses < access_interval =
          subst
            (λ b. h.curr_num_accesses < (if b then access_interval else factor * access_interval))
            on w in
        let e : (word (h.curr_num_accesses + 1) % access_interval == 0) ≡ false =
          ground (arith, below, more) in
        (
          cover d order counted vaddr,
          rw (on, e) refl,
          rw on (ground (arith, below, more)),
          on,
          λ v. cover-bit order counted vaddr v,
          omega (arith, below),
        )

    -- The last access of the interval, if the summary returns `h2`: the bits are cleared and tracking
    -- stops.
    pub hawkeye_track_access_ends :
        (h2 : Hawkeye d)
        → h.tracking ≡ true
        → suc h.curr_num_accesses ≡ access_interval
        → summarize d order (cover d order counted vaddr) ≡ some h2
        → (h' : Hawkeye d) × (hawkeye_track_access d order h vaddr ≡ some h')
          × IsPhased h'
          × (h'.tracking ≡ false)
          × (h'.hawkeye_promotions ≡ h2.hawkeye_promotions)
          × ((v : ℕ) → bit h' v ≡ false)
    unfolding hawkeye_track_access clear_coverage bit
    hawkeye_track_access_ends h2 on last run =
        let e : (word (h.curr_num_accesses + 1) % access_interval == 0) ≡ true =
          ground (arith, last) in
        (
          record (clear_coverage d h2) { tracking = false; curr_num_accesses = 0 },
          rw (run, on, e) refl,
          omega arith,
          refl,
          refl,
          λ v. no_bit h2.coverage (v / huge_page_size) (v / page_size % num_base_pages),
        )
