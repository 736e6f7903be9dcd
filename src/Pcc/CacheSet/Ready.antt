-- ===== src/Pcc/CacheSet/Ready.antt =====
-- A set under either policy that the program uses, LRU for the TLBs and LFU for the promotion cache:
-- what a client of the set needs to know, without the list of lines.
use elastic_translations_mic.Prelude.{
  ℕ, ◌<◌, ◌≡◌, refl, ◌∙◌, sym, ap, ◌⊎◌, inl, inr, true, false, Bool, Option, none, some, List, [],
  ◌∷◌, arith, ◌==◌, ◌||◌, if◌then◌else◌, update, mem, remove, ==-self, Bool-cases, eq_of_==,
  mem-remove_self, not-mem-remove,
}
use elastic_translations_mic.Pcc.CacheSet.Defs.{
  get_freq, CacheSet, Ptr, Evicted, null, head, tail, new_set, access, insert, evict,
}
use elastic_translations_mic.Pcc.CacheSet.Relink.{IsUsed}
use elastic_translations_mic.Pcc.CacheSet.Valid.{IsValid}
use elastic_translations_mic.Pcc.CacheSet.Access.{access-hit, access-miss, mem-moved}
use elastic_translations_mic.Pcc.CacheSet.Insert.{last, insert-free, insert-full}
use elastic_translations_mic.Pcc.CacheSet.Evict.{evict-freed}
use elastic_translations_mic.Pcc.CacheSet.Run.{new_set-IsValid}
use elastic_translations_mic.Pcc.CacheSet.Held.{
  stored, holds, stored_line, stored-full, stored-free, stored-miss, held_line, stored_erase,
  last_of_links, no_lines,
}
use elastic_translations_mic.Pcc.CacheSet.Keys.{
  miss_covered, erased_covered, inserted_covered, not_held,
}

-- The set is valid over some list of lines, has an LRU or LFU policy and at least one entry.
pub record IsReady (s : CacheSet) : Type 0 where
  pub lines : List Ptr
  pub valid : IsValid s lines
  pub used : IsUsed s.policy
  pub positive : 0 < s.associativity

-- Each line is found under its own tag, which so has no second line, and the tags are below `bound`.
abbrev pub IsCovered : ℕ → (s : CacheSet) → IsReady s → Type 0
IsCovered bound s r =
    (c : Ptr) → mem c r.lines ≡ true → (s.addr_map (s.addr c) ≡ some c) × (s.addr c < bound)

pub new_set-IsReady : (n policy : ℕ) → 0 < n → IsUsed policy → IsReady (new_set n policy)
unfolding new_set
new_set-IsReady n policy h u = record {
  lines = [];
  valid = new_set-IsValid n policy;
  used = u;
  positive = h;
}

pub new_set-IsCovered :
    (bound n policy : ℕ) (h : 0 < n) (u : IsUsed policy)
    → IsCovered bound (new_set n policy) (new_set-IsReady n policy h u)
unfolding new_set-IsReady
new_set-IsCovered bound n policy h u c m = ground arith

-- What an operation leaves: a set that is ready, covered if the old one was.
abbrev pub Leaves : (s : CacheSet) → IsReady s → CacheSet → Type 0
Leaves s r s' = (r' : IsReady s') × ((bound : ℕ) → IsCovered bound s r → IsCovered bound s' r')

-- The address that an insertion threw out.
abbrev pub thrown_out : Option Evicted → ℕ → Bool
thrown_out none a = false
thrown_out (some v) a = a == v.addr

-- What an insertion of `address` that reports `e` does to the addresses that a set holds.
abbrev pub Swaps : CacheSet → ℕ → Option Evicted → CacheSet → Type 0
Swaps s address e s' =
    (a : ℕ)
    → holds s' a ≡ (if a == address then true else if thrown_out e a then false else holds s a)

-- What is reported was held, if the set was covered.
abbrev pub IsReported : (s : CacheSet) → IsReady s → Option Evicted → Type 0
IsReported s r none = Unit {0}
IsReported s r (some v) =
    (bound : ℕ) → IsCovered bound s r → (holds s v.addr ≡ true) × (v.addr < bound)

either : (b x : Bool) → (b || x) ≡ (if b then true else x)
either true x = refl
either false x = refl

module _ {s : CacheSet} (r : IsReady s) where
  hit-IsReady :
      (address offset : ℕ) (is_load : Bool) (c : Ptr)
      → s.addr_map address ≡ some c
      → (c == null) ≡ false
      → (s' : CacheSet) × (access s address offset is_load ≡ some (s', true))
        × Leaves s r s'
        × ((a : ℕ) → holds s' a ≡ holds s a)
  hit-IsReady address offset is_load c e ne =
      let m = (r.valid.mapped address c e ne).0 in
      let (next', prev', freq', run, v', at) =
        access-hit r.valid address offset is_load c r.used e ne in
      (
        _,
        run,
        (
          record { lines = _; valid = v'; used = r.used; positive = r.positive },
          λ bound cov a h. cov a (sym (mem-moved r.valid c m a) ∙ h),
        ),
        λ a. refl,
      )

  -- A key stored with NULL, where a covered set has none that a line's tag could be.
  miss-IsReady :
      (address offset : ℕ) (is_load : Bool)
      → (s.addr_map address ≡ none) ⊎ (s.addr_map address ≡ some null)
      → (s' : CacheSet) × (access s address offset is_load ≡ some (s', false))
        × Leaves s r s'
        × ((a : ℕ) → holds s' a ≡ holds s a)
  miss-IsReady address offset is_load e =
      let (m, run, at, old, v') = access-miss r.valid address offset is_load e in
      (
        _,
        run,
        (
          record { lines = r.lines; valid = v'; used = r.used; positive = r.positive },
          λ bound cov a h. (
            miss_covered s.addr_map m address (s.addr a) a e (cov a h).0
                (r.valid.entries a (ground arith)) (old (s.addr a)),
            (cov a h).1,
          ),
        ),
        λ a.
            stored-miss (s.addr_map a) (s.addr_map address) (m a) (a == address) e
              (λ h. rw (eq_of_== a address h) refl) (λ h. rw (eq_of_== a address h) at) (old a),
      )

  access_split :
      (address offset : ℕ) (is_load : Bool) (o : Option Ptr)
      → s.addr_map address ≡ o
      → (s' : CacheSet) × (access s address offset is_load ≡ some (s', stored o))
        × Leaves s r s'
        × ((a : ℕ) → holds s' a ≡ holds s a)
  unfolding stored
  access_split address offset is_load none e = miss-IsReady address offset is_load (inl e)
  access_split address offset is_load (some c) e = elim (Bool-cases (c == null)) [
    | inl z ↦
        rw z (
          miss-IsReady address offset is_load
            (inr (e ∙ ap (λ (k : ℕ). some k) (eq_of_== c null z))))
    | inr ne ↦ rw ne (hit-IsReady address offset is_load c e ne)
  ]

  -- `access` never faults and answers whether the tag is held.
  pub access-IsReady :
      (address offset : ℕ) (is_load : Bool)
      → (s' : CacheSet) × (access s address offset is_load ≡ some (s', holds s address))
        × Leaves s r s'
        × ((a : ℕ) → holds s' a ≡ holds s a)
  access-IsReady address offset is_load =
      access_split address offset is_load (s.addr_map address) refl

  -- `evict` of a held tag never faults, and lets go of that tag.
  pub evict-IsReady :
      (address : ℕ)
      → holds s address ≡ true
      → (s' : CacheSet) × (dirty : Bool) × (evict s address ≡ some (s', dirty))
        × Leaves s r s'
        × ((a : ℕ) → holds s' a ≡ (if a == address then false else holds s a))
        × ((a : ℕ) → (a == address) ≡ false → get_freq s' a ≡ get_freq s a)
  unfolding get_freq
  evict-IsReady address h =
      let (c, e, ne) = held_line (s.addr_map address) h in
      let (m, at) = r.valid.mapped address c e ne in
      let (run, v', gone) = evict-freed r.valid address c e ne in
      (
        _,
        s.dirty c,
        run,
        (
          record { lines = remove c r.lines; valid = v'; used = r.used; positive = r.positive },
          λ bound cov a k.
              let (q, small) = cov a (ground (arith, not-mem-remove a c r.lines)) in
              (
                erased_covered s.addr_map s.addr c a (cov c m).0 q
                    (ground (arith, mem-remove_self c r.lines r.valid.distinct)),
                small,
              ),
        ),
        λ a. rw at (stored_erase (s.addr_map a) (a == address)),
        λ a other. rw (at, other) refl,
      )

  insert_split :
      (address offset : ℕ) (is_load : Bool) (free : List Ptr)
      → s.free_entries ≡ free
      → (s' : CacheSet) × (e : Option Evicted) × (insert s address offset is_load ≡ some (s', e))
        × (r' : IsReady s') × ((bound : ℕ)
            → holds s address ≡ false
            → address < bound
            → IsCovered bound s r
            → IsCovered bound s' r')
        × Swaps s address e s'
        × IsReported s r e
  insert_split address offset is_load [] e =
      let m =
        last_of_links s.next s.prev head tail r.lines
          (omega (arith, r.valid.count, r.positive, no_lines s.free_entries e)) r.valid.chain in
      let (next', prev', map', run, v', law) =
        insert-full s address offset is_load r.valid r.used e m in
      (
        _,
        _,
        run,
        record { lines = _; valid = v'; used = r.used; positive = r.positive },
        λ bound out fits cov a k.
            inserted_covered bound (update s.addr_map (s.addr (last s)) none) map' s.addr address
              s.policy _ (last s) (remove (last s) r.lines) a law
              (stored_erase (s.addr_map address) (address == s.addr (last s))
                ∙ not_held (address == s.addr (last s)) (holds s address) out)
              k
              (λ ne h.
                let h' : mem a r.lines ≡ true = ground (arith, not-mem-remove a (last s) r.lines) in
                (
                  erased_covered s.addr_map s.addr (last s) a (cov (last s) m).0 (cov a h').0 ne,
                  (cov a h').1,
                  r.valid.entries a (ground arith),
                ))
              fits,
        λ a.
            ap stored (law a)
            ∙ stored-full (s.addr_map a) (a == address) (a == s.addr (last s)) (last s)
                (ground (arith, r.valid.entries (last s))),
        λ bound cov. (
          rw (cov (last s) m).0 (stored_line (last s) (ground (arith, r.valid.entries (last s)))),
          (cov (last s) m).1,
        ),
      )
  insert_split address offset is_load (c ∷ free) e =
      let (next', prev', map', run, v', law) =
        insert-free s address offset is_load r.valid r.used c free e in
      (
        _,
        _,
        run,
        record { lines = _; valid = v'; used = r.used; positive = r.positive },
        λ bound out fits cov a k.
            inserted_covered bound s.addr_map map' s.addr address s.policy _ c r.lines a law out k
              (λ ne h. ((cov a h).0, (cov a h).1, r.valid.entries a (ground arith))) fits,
        λ a.
            ap stored (law a)
            ∙ stored-free (s.addr_map a) (a == address) c
                (ground (arith, r.valid.entries c (rw e (ground (arith, ==-self c)))))
            ∙ either (a == address) (holds s a),
        tt,
      )

  -- `insert` never faults, and holds the tag afterwards, in place of what it reports.
  pub insert-IsReady :
      (address offset : ℕ) (is_load : Bool)
      → (s' : CacheSet) × (e : Option Evicted) × (insert s address offset is_load ≡ some (s', e))
        × (r' : IsReady s') × ((bound : ℕ)
            → holds s address ≡ false
            → address < bound
            → IsCovered bound s r
            → IsCovered bound s' r')
        × Swaps s address e s'
        × IsReported s r e
  insert-IsReady address offset is_load = insert_split address offset is_load s.free_entries refl
