-- ===== src/Pcc/CacheSet/Insert.antt =====
-- `insert` and `evict` on a valid set.
use elastic_translations_mic.Prelude.{
  ℕ, ◌≡◌, refl, inl, inr, true, false, Bool, Option, none, some, List, [], ◌∷◌, arith, ◌==◌, update,
  mem, remove, not, Option-cases, if◌then◌else◌,
}
use elastic_translations_mic.Pcc.CacheSet.Defs.{
  CacheSet, Ptr, null, head, tail, Evicted, map_get, map_erase, take_victim, take_line, fill_line,
  insert,
}
use elastic_translations_mic.Pcc.CacheSet.Valid.{IsValid, delete_node-cut, addr_map-IsValid}
use elastic_translations_mic.Pcc.CacheSet.Relink.{order, IsUsed}
use elastic_translations_mic.Pcc.CacheSet.Room.{
  HasRoom, without, without-HasRoom, pop_free-HasRoom, place-IsValid,
}

-- The set after `map_get`.
abbrev pub looked_up : CacheSet → ℕ → CacheSet
looked_up s address = (map_get s address).1

-- The last line of the list, as `insert` finds it.
abbrev pub last : CacheSet → Ptr
last s = s.prev tail

abbrev pub report : CacheSet → Ptr → Evicted
report s c = record { addr = s.addr c; offset = s.offset c; dirty = s.dirty c }

-- The set after `insert` filled the line `c`, with the links and the map as given.
abbrev pub after_insert :
    CacheSet → Ptr → ℕ → ℕ → Bool → (Ptr → Ptr) → (Ptr → Ptr) → (ℕ → Option Ptr) → CacheSet
after_insert s c address offset is_load next' prev' map' = record s {
  next = next';
  prev = prev';
  addr_map = map';
  addr = update s.addr c address;
  offset = update s.offset c offset;
  dirty = update s.dirty c (not is_load);
  freq = update s.freq c 0;
}

-- A run of `insert` that put the line `c` among the lines `xs`, and left the map as `law` says.
abbrev pub Inserts :
    CacheSet
    → List Ptr
    → Ptr
    → ℕ
    → ℕ
    → Bool
    → (ℕ → Option Ptr)
    → Option Evicted
    → Option (CacheSet × Option Evicted)
    → Type 0
Inserts s xs c address offset is_load law evicted r =
    (next' : Ptr → Ptr) × (prev' : Ptr → Ptr) × (map' : ℕ → Option Ptr) × (r
      ≡ some (after_insert s c address offset is_load next' prev' map', evicted))
    × IsValid (after_insert s c address offset is_load next' prev' map')
        (order s.policy (update s.freq c 0) c xs)
    × ((a : ℕ) → map' a ≡ (if a == address then some c else law a))

-- `map_get` changes at most what the map says of its key.
looked_up_lem :
    (s : CacheSet) (address : ℕ)
    → (m : ℕ → Option Ptr) × (looked_up s address ≡ record s { addr_map = m })
      × ((a : ℕ) → (a == address) ≡ false → m a ≡ s.addr_map a)
      × ((a : ℕ) (c : Ptr) → m a ≡ some c → (c == null) ≡ false → s.addr_map a ≡ some c)
unfolding map_get
looked_up_lem s address = elim (Option-cases (s.addr_map address)) [
  | inl e ↦ (
    update s.addr_map address (some null),
    rw (looked_up, map_get, e) refl,
    λ a h. ground arith,
    λ a c. ground arith,
  )
  | inr (c, e) ↦ (s.addr_map, rw (looked_up, map_get, e) refl, λ a h. refl, λ a x e' ne. e')
]

module _ {s : CacheSet} {xs : List Ptr} (v : IsValid s xs) where
  take_victim-without :
      mem (last s) xs ≡ true → take_victim s ≡ some (without s (last s), last s, report s (last s))
  unfolding take_victim map_erase
  take_victim-without m =
      rw
        (
          ne_head,
          delete_node-cut
              (addr_map-IsValid v (update s.addr_map (s.addr (last s)) none) (λ a c. ground arith))
              (last s) m,
        )
        refl
    where
      ne_head : (last s == head) ≡ false
      ne_head = ground (arith, v.entries (last s))

take_line_free :
    (t : CacheSet) (fs : List Ptr) (c : Ptr) (free : List Ptr)
    → fs ≡ c ∷ free
    → take_line t fs ≡ some (record t { free_entries = free }, c, none)
unfolding take_line
take_line_free t fs c free e = rw e refl

take_line_full :
    (t : CacheSet) (fs : List Ptr) (w : CacheSet) (c : Ptr) (e : Evicted)
    → fs ≡ []
    → take_victim t ≡ some (w, c, e)
    → take_line t fs ≡ some (w, c, some e)
unfolding take_line
take_line_full t fs w c e empty run = rw (empty, take_line, run) refl

module _ (s : CacheSet) (address offset : ℕ) (is_load : Bool) where
  insert_rest :
      (t : CacheSet) (ys : List Ptr) (c : Ptr) (e : Option Evicted)
      → HasRoom t ys c
      → IsUsed t.policy
      → take_line (looked_up s address) (looked_up s address).free_entries ≡ some (t, c, e)
      → Inserts t ys c address offset is_load t.addr_map e (insert s address offset is_load)
  unfolding insert fill_line
  insert_rest t ys c e room used run =
      let (next', prev', run', v') = place-IsValid room address offset is_load used in
      (next', prev', update t.addr_map address (some c), rw (run, run') refl, v', λ a. refl)

  module _ {xs : List Ptr} (v : IsValid s xs) (u : IsUsed s.policy) where
    -- With a free line: `insert` takes the back one, evicts nothing, and puts the line in its place.
    pub insert-free :
        (c : Ptr) (free : List Ptr)
        → s.free_entries ≡ c ∷ free
        → Inserts
            (record s { free_entries = free })
            xs
            c
            address
            offset
            is_load
            s.addr_map
            none
            (insert s address offset is_load)
    insert-free c free e =
        let (m, look, at, old) = looked_up_lem s address in
        let room = pop_free-HasRoom (addr_map-IsValid v m old) c free e in
        let (next', prev', map', run, v', law) =
          insert_rest (record s { free_entries = free; addr_map = m }) xs c none room u
            (rw look (take_line_free (record s { addr_map = m }) s.free_entries c free e)) in
        (next', prev', map', run, v', λ a. ground (arith, law a, at a))

    -- With no free line: the line at the back of the list is taken out of the map, its tag, offset
    -- and dirty bit are reported, and the line is used again.
    pub insert-full :
        s.free_entries ≡ []
        → mem (last s) xs ≡ true
        → Inserts
            (without s (last s))
            (remove (last s) xs)
            (last s)
            address
            offset
            is_load
            (update s.addr_map (s.addr (last s)) none)
            (some (report s (last s)))
            (insert s address offset is_load)
    insert-full e m =
        let (map0, look, at, old) = looked_up_lem s address in
        let v0 = addr_map-IsValid v map0 old in
        let (next', prev', map', run, v', law) =
          insert_rest (without (record s { addr_map = map0 }) (last s)) (remove (last s) xs)
            (last s) (some (report s (last s))) (without-HasRoom v0 (last s) m) u
            (rw look (
              take_line_full (record s { addr_map = map0 }) s.free_entries _ _ _ e
                (take_victim-without v0 m))) in
        (next', prev', map', run, v', λ a. ground (arith, law a, at a))
