-- ===== src/Pcc/CacheSet/Lru.antt =====
-- A set under LRU, as the TLBs use it, beside a list of tags with the most recent first.
use elastic_translations_mic.Prelude.{
  ℕ, suc, ◌+◌, ◌<◌, ◌≡◌, refl, ◌∙◌, sym, ap, ◌⊎◌, inl, true, false, Bool, Option, none, some, List,
  [], ◌∷◌, map, arith, ◌==◌, ltb, if◌then◌else◌, update, mem, remove, length, ==-self, subst,
  mem-remove_self, not-mem-remove, ◌>>=◌,
}
use elastic_translations_mic.Pcc.CacheSet.Defs.{
  Evicted, CacheSet, Ptr, null, head, tail, access, insert,
}
use elastic_translations_mic.Pcc.CacheSet.Relink.{order, order-lru}
use elastic_translations_mic.Pcc.CacheSet.Valid.{IsValid}
use elastic_translations_mic.Pcc.CacheSet.Access.{mem-moved, access-hit, access-miss}
use elastic_translations_mic.Pcc.CacheSet.Insert.{last, insert-free, insert-full}
use elastic_translations_mic.Pcc.CacheSet.Held.{
  stored, holds, held_line, last_of_links, no_lines, stored_erase,
}
use elastic_translations_mic.Pcc.CacheSet.Keys.{
  miss_covered, erased_covered, inserted_covered, not_held,
}
use elastic_translations_mic.Pcc.CacheSet.Covered.{mem-map, mem-map_self}
use elastic_translations_mic.Pcc.CacheSet.Tags.{
  drop_last, map-remove, map-drop_last, map-update, length-map, remove_last,
}

-- What a TLB asks of its sets: an access, and an insertion after a miss.
unfoldable pub look_up : CacheSet → ℕ → ℕ → Bool → Option (CacheSet × Bool)
look_up s a offset is_load = do
  (s1, hit) ← access s a offset is_load
  if hit then some (s1, true) else (do (s2, e) ← insert s1 a offset is_load; some (s2, false))

-- The set is a valid one under LRU whose tags, from the front, are `tags`.
pub record IsLru (s : CacheSet) (tags : List ℕ) : Type 0 where
  pub lines : List Ptr
  pub valid : IsValid s lines
  pub lru : s.policy ≡ 0
  pub positive : 0 < s.associativity
  pub covered : (c : Ptr) → mem c lines ≡ true → s.addr_map (s.addr c) ≡ some c
  pub listed : map s.addr lines ≡ tags

-- A run that leaves a set of the same size with the tags given, and answers `hit`.
abbrev pub Leaves : ℕ → List ℕ → Bool → Option (CacheSet × Bool) → Type 0
Leaves n tags hit r =
    (s' : CacheSet) × (r ≡ some (s', hit)) × (s'.associativity ≡ n) × IsLru s' tags

module _ {s : CacheSet} {tags : List ℕ} (l : IsLru s tags) where
  injective :
      (c : Ptr)
      → mem c l.lines ≡ true
      → (x : Ptr) → mem x l.lines ≡ true
      → s.addr x ≡ s.addr c
      → x ≡ c
  injective c m x k e = ground (arith, l.covered c m, l.covered x k, ap s.addr_map e)

  -- The map holds an address just if it is the tag of a line.
  pub held-mem :
      (a : ℕ)
      → holds s a ≡ true
      → (c : Ptr) × (s.addr_map a ≡ some c) × ((c == null) ≡ false) × (mem a tags ≡ true)
  held-mem a h =
      let (c, e, ne) = held_line (s.addr_map a) h in
      let (m, at) = l.valid.mapped a c e ne in
      (
        c,
        e,
        ne,
        subst (λ ts. mem a ts ≡ true) l.listed
            (subst (λ x. mem x (map s.addr l.lines) ≡ true) at (mem-map_self s.addr c l.lines m)),
      )

  pub mem-held : (a : ℕ) → mem a tags ≡ true → holds s a ≡ true
  unfolding stored
  mem-held a h =
      let (c, m, at) = mem-map s.addr a l.lines (subst (λ ts. mem a ts ≡ true) (sym l.listed) h) in
      let big : 2 < c = l.valid.entries c (ground (arith, m)) in
      rw (sym at, l.covered c m) (ground arith)

  pub hit-IsLru :
      (a offset : ℕ) (is_load : Bool)
      → holds s a ≡ true
      → Leaves s.associativity (a ∷ remove a tags) true (look_up s a offset is_load)
  unfolding look_up
  hit-IsLru a offset is_load h =
      let (c, e, ne, m) = held-mem a h in
      let (k, at) = l.valid.mapped a c e ne in
      let (next', prev', f, run, v', law) =
        access-hit l.valid a offset is_load c (inl l.lru) e ne in
      (
        _,
        rw run refl,
        refl,
        record {
          lines = order s.policy s.freq c (remove c l.lines);
          valid = v';
          lru = l.lru;
          positive = l.positive;
          covered = λ x q. l.covered x (sym (mem-moved l.valid c k x) ∙ q);
          listed =
              ap (map s.addr) (order-lru s.policy s.freq c (remove c l.lines) l.lru)
              ∙ ap (λ ts. s.addr c ∷ ts) (map-remove s.addr c l.lines (injective c k))
              ∙ rw (at, l.listed) refl;
        },
      )

  pub miss-IsLru :
      (a offset : ℕ) (is_load : Bool)
      → (s.addr_map a ≡ none) ⊎ (s.addr_map a ≡ some null)
      → (s1 : CacheSet) × (access s a offset is_load ≡ some (s1, false))
        × (s1.associativity ≡ s.associativity)
        × (holds s1 a ≡ false)
        × IsLru s1 tags
  unfolding stored
  miss-IsLru a offset is_load e =
      let (m, run, at, old, v') = access-miss l.valid a offset is_load e in
      (
        record s { addr_map = m },
        run,
        refl,
        rw at refl,
        record {
          lines = l.lines;
          valid = v';
          lru = l.lru;
          positive = l.positive;
          covered = λ c k.
              miss_covered s.addr_map m a (s.addr c) c e (l.covered c k)
                (l.valid.entries c (ground (arith, k))) (old (s.addr c));
          listed = l.listed;
        },
      )

  -- A line `c` is filled and put in front of the lines `rest`.
  filled_covered :
      (law map' : ℕ → Option Ptr) (a : ℕ) (c : Ptr) (rest : List Ptr)
      → ((x : ℕ) → map' x ≡ (if x == a then some c else law x))
      → stored (law a) ≡ false
      → ((x : Ptr) → (x == c) ≡ false → mem x rest ≡ true → (law (s.addr x) ≡ some x) × (2 < x))
      → (x : Ptr) → mem x (order s.policy (update s.freq c 0) c rest) ≡ true
      → map' (update s.addr c a x) ≡ some x
  filled_covered law map' a c rest at out old x k =
      (inserted_covered (suc (a + s.addr x)) law map' s.addr a s.policy (update s.freq c 0) c rest x
        at out k (λ ne h. let (q, big) = old x ne h in (q, omega arith, big)) (omega arith)).0

  filled_listed :
      (a : ℕ) (c : Ptr) (rest : List Ptr) (ts : List ℕ)
      → mem c rest ≡ false
      → map s.addr rest ≡ ts
      → map (update s.addr c a) (order s.policy (update s.freq c 0) c rest) ≡ a ∷ ts
  filled_listed a c rest ts out e =
      ap (map (update s.addr c a)) (order-lru s.policy (update s.freq c 0) c rest l.lru)
      ∙ rw (==-self c, map-update s.addr c a rest out, e) refl

  lines-tags : length l.lines ≡ length tags
  lines-tags = sym (length-map s.addr l.lines) ∙ ap length l.listed

  pub insert_split :
      (a offset : ℕ) (is_load : Bool) (free : List Ptr)
      → s.free_entries ≡ free
      → holds s a ≡ false
      → (s' : CacheSet) × (e : Option Evicted) × (insert s a offset is_load ≡ some (s', e))
        × (s'.associativity ≡ s.associativity)
        × IsLru s' (a ∷ (if ltb (length tags) s.associativity then tags else drop_last tags))
  insert_split a offset is_load [] e out =
      let m =
        last_of_links s.next s.prev head tail l.lines
          (omega (arith, l.valid.count, l.positive, no_lines s.free_entries e)) l.valid.chain in
      let (next', prev', map', run, v', law) =
        insert-full s a offset is_load l.valid (inl l.lru) e m in
      let full : ltb (length tags) s.associativity ≡ false =
        ground (arith, lines-tags, l.valid.count, no_lines s.free_entries e) in
      (
        _,
        _,
        run,
        refl,
        record {
          lines = order s.policy (update s.freq (last s) 0) (last s) (remove (last s) l.lines);
          valid = v';
          lru = l.lru;
          positive = l.positive;
          covered =
              filled_covered (update s.addr_map (s.addr (last s)) none) map' a (last s)
                (remove (last s) l.lines) law
                (stored_erase (s.addr_map a) (a == s.addr (last s))
                  ∙ not_held (a == s.addr (last s)) (holds s a) out)
                (λ x ne h.
                  let h' : mem x l.lines ≡ true =
                    ground (arith, not-mem-remove x (last s) l.lines) in
                  (
                    erased_covered s.addr_map s.addr (last s) x (l.covered (last s) m)
                        (l.covered x h') ne,
                    l.valid.entries x (ground arith),
                  ));
          listed = rw full (
              filled_listed a (last s) (remove (last s) l.lines) (drop_last tags)
                (mem-remove_self (last s) l.lines l.valid.distinct)
                (ap (map s.addr)
                    (remove_last s.next s.prev head tail l.lines l.valid.chain l.valid.distinct)
                  ∙ map-drop_last s.addr l.lines
                  ∙ ap drop_last l.listed));
        },
      )
  insert_split a offset is_load (c ∷ free) e out =
      let (next', prev', map', run, v', law) =
        insert-free s a offset is_load l.valid (inl l.lru) c free e in
      let free_c : mem c s.free_entries ≡ true = rw e (ground (arith, ==-self c)) in
      let out_c : mem c l.lines ≡ false = ground (arith, l.valid.apart c) in
      let room : ltb (length tags) s.associativity ≡ true =
        ground (arith, lines-tags, l.valid.count, ap length e) in
      (
        _,
        _,
        run,
        refl,
        record {
          lines = order s.policy (update s.freq c 0) c l.lines;
          valid = v';
          lru = l.lru;
          positive = l.positive;
          covered =
              filled_covered s.addr_map map' a c l.lines law out
                (λ x ne h. (l.covered x h, l.valid.entries x (ground arith)));
          listed = rw room (filled_listed a c l.lines tags out_c l.listed);
        },
      )
