-- ===== src/Pcc/CacheSet/Promotion.antt =====
-- A set under LFU, as the promotion cache uses it: `access` and `insert` never fault and keep the
-- order; the victim is a least used line.
use elastic_translations_mic.Prelude.{
  ℕ, ◌+◌, ◌-◌, ◌%◌, ◌^◌, ◌≤◌, ◌≡◌, refl, ◌∙◌, ap, ◌⊎◌, inl, inr, ◌||◌, true, false, Bool, Option,
  none, some, List, [], ◌∷◌, arith, ◌==◌, if◌then◌else◌, update, mem, remove, ==-self, subst,
  Bool-cases, mem-remove_self, eq_of_==,
}
use elastic_translations_mic.Pcc.CacheSet.Defs.{
  CacheSet, Ptr, null, head, tail, max_freq, access, insert, evict,
}
use elastic_translations_mic.Pcc.CacheSet.Insertion.{lfu_insert}
use elastic_translations_mic.Pcc.CacheSet.Relink.{order, order-lfu}
use elastic_translations_mic.Pcc.CacheSet.Access.{used, used_lem, access-hit, access-miss}
use elastic_translations_mic.Pcc.CacheSet.Evict.{evict-freed}
use elastic_translations_mic.Pcc.CacheSet.Insert.{last, report, insert-free, insert-full}
use elastic_translations_mic.Pcc.CacheSet.Room.{pop_free-HasRoom}
use elastic_translations_mic.Pcc.CacheSet.Lfu.{
  Falls, Falls-frame, Falls-remove, Falls-lfu_insert, Falls-used, Falls-mem, last-least, IsLfu,
}
use elastic_translations_mic.Pcc.CacheSet.Held.{
  stored, holds, stored-full, stored-free, stored-miss, held_line, stored_erase, last_of_links,
  no_lines,
}

used-Falls :
    (f g : ℕ → ℕ) (c : ℕ) (xs ys : List ℕ)
    → Falls f (max_freq - 1) xs
    → f c ≤ max_freq - 1
    → mem c xs ≡ false
    → ys ≡ lfu_insert f c xs
    → ((a : ℕ) → g a ≡ used f c ys a)
    → Falls g (max_freq - 1) ys
used-Falls f g c xs ys w small out e at =
    let n : ℕ = (f c + 1) % 2 ^ 16 in
    let h = subst (λ zs. (a : ℕ) → g a ≡ used f c zs a) e at in
    rw e (
      Falls-used f g c n xs (omega arith) (omega arith) w out
        (λ a. h a ∙ ap (λ (k : ℕ → ℕ). k a) (used_lem f c (lfu_insert f c xs) n refl)))

placed-Falls :
    (f : ℕ → ℕ) (c : ℕ) (xs ys : List ℕ)
    → Falls f (max_freq - 1) xs
    → mem c xs ≡ false
    → ys ≡ lfu_insert (update f c 0) c xs
    → Falls (update f c 0) (max_freq - 1) ys
placed-Falls f c xs ys w out e = rw e (
    Falls-lfu_insert (update f c 0) (update f c 0) (max_freq - 1) c xs (λ a m. refl) (omega arith)
      (omega arith) (ground (arith, ==-self c))
      (Falls-frame f (update f c 0) (max_freq - 1) xs (λ a m. ground arith) w))

module _ {s : CacheSet} {xs : List Ptr} (l : IsLfu s xs) where
  hit-IsLfu :
      (address offset : ℕ) (is_load : Bool) (c : Ptr)
      → s.addr_map address ≡ some c
      → (c == null) ≡ false
      → (s' : CacheSet) × (ys : List Ptr) × (access s address offset is_load ≡ some (s', true))
        × IsLfu s' ys
        × ((a : ℕ) → holds s' a ≡ holds s a)
  hit-IsLfu address offset is_load c e ne =
      let m = (l.valid.mapped address c e ne).0 in
      let (next', prev', freq', run, v', at) =
        access-hit l.valid address offset is_load c (inr l.lfu) e ne in
      (
        _,
        _,
        run,
        record {
          valid = v';
          lfu = l.lfu;
          positive = l.positive;
          falls =
              used-Falls s.freq freq' c (remove c xs) (order s.policy s.freq c (remove c xs))
                (Falls-remove s.freq (max_freq - 1) c xs l.falls)
                (Falls-mem s.freq (max_freq - 1) c xs l.falls m)
                (mem-remove_self c xs l.valid.distinct)
                (order-lfu s.policy s.freq c (remove c xs) l.lfu) at;
        },
        λ a. refl,
      )

  miss-IsLfu :
      (address offset : ℕ) (is_load : Bool)
      → (s.addr_map address ≡ none) ⊎ (s.addr_map address ≡ some null)
      → (s' : CacheSet) × (ys : List Ptr) × (access s address offset is_load ≡ some (s', false))
        × IsLfu s' ys
        × ((a : ℕ) → holds s' a ≡ holds s a)
  miss-IsLfu address offset is_load e =
      let (m, run, at, old, v') = access-miss l.valid address offset is_load e in
      (
        _,
        xs,
        run,
        record { valid = v'; lfu = l.lfu; positive = l.positive; falls = l.falls },
        λ a.
            stored-miss (s.addr_map a) (s.addr_map address) (m a) (a == address) e
              (λ h. rw (eq_of_== a address h) refl) (λ h. rw (eq_of_== a address h) at) (old a),
      )

  access_split :
      (address offset : ℕ) (is_load : Bool) (o : Option Ptr)
      → s.addr_map address ≡ o
      → (s' : CacheSet) × (ys : List Ptr) × (access s address offset is_load ≡ some (s', stored o))
        × IsLfu s' ys
        × ((a : ℕ) → holds s' a ≡ holds s a)
  unfolding stored
  access_split address offset is_load none e = miss-IsLfu address offset is_load (inl e)
  access_split address offset is_load (some c) e = elim (Bool-cases (c == null)) [
    | inl z ↦
        rw z
          (miss-IsLfu address offset is_load (inr (e ∙ ap (λ (k : ℕ). some k) (eq_of_== c null z))))
    | inr ne ↦ rw ne (hit-IsLfu address offset is_load c e ne)
  ]

  -- `access` never faults: it answers whether the address is held, and keeps the LFU invariant.
  pub access-IsLfu :
      (address offset : ℕ) (is_load : Bool)
      → (s' : CacheSet) × (ys : List Ptr) × (access s address offset is_load
          ≡ some (s', holds s address))
        × IsLfu s' ys
        × ((a : ℕ) → holds s' a ≡ holds s a)
  access-IsLfu address offset is_load =
      access_split address offset is_load (s.addr_map address) refl

  last_of_full : s.free_entries ≡ [] → mem (last s) xs ≡ true
  last_of_full e =
      last_of_links s.next s.prev head tail xs
        (omega (arith, l.valid.count, l.positive, no_lines s.free_entries e)) l.valid.chain

  -- A full set: the line that `insert` throws out is held and is used no more than any other; its
  -- tag, offset and dirty bit are reported; its address is no longer held, the new one is, and
  -- nothing else changes.
  pub insert_full-least :
      (address offset : ℕ) (is_load : Bool)
      → s.free_entries ≡ []
      → (c : Ptr) × (s' : CacheSet) × (ys : List Ptr) × (mem c xs ≡ true)
        × ((a : Ptr) → mem a xs ≡ true → s.freq c ≤ s.freq a)
        × (insert s address offset is_load ≡ some (s', some (report s c)))
        × IsLfu s' ys
        × ((a : ℕ)
            → holds s' a
              ≡ (if a == address then true else if a == s.addr c then false else holds s a))
  insert_full-least address offset is_load e =
      let m = last_of_full e in
      let (next', prev', map', run, v', law) =
        insert-full s address offset is_load l.valid (inr l.lfu) e m in
      (
        last s,
        _,
        _,
        m,
        last-least s.next s.prev s.freq (max_freq - 1) head tail xs l.valid.chain l.falls,
        run,
        record {
          valid = v';
          lfu = l.lfu;
          positive = l.positive;
          falls =
              placed-Falls s.freq (last s) (remove (last s) xs) _
                (Falls-remove s.freq (max_freq - 1) (last s) xs l.falls)
                (mem-remove_self (last s) xs l.valid.distinct)
                (order-lfu s.policy (update s.freq (last s) 0) (last s) (remove (last s) xs) l.lfu);
        },
        λ a.
            ap stored (law a)
            ∙ stored-full (s.addr_map a) (a == address) (a == s.addr (last s)) (last s)
                (ground (arith, l.valid.entries (last s))),
      )

  -- A set with free lines: `insert` takes one, throws nothing out, and the new address is held
  -- beside the old ones.
  pub insert-free-IsLfu :
      (address offset : ℕ) (is_load : Bool) (c : Ptr) (free : List Ptr)
      → s.free_entries ≡ c ∷ free
      → (s' : CacheSet) × (ys : List Ptr) × (insert s address offset is_load ≡ some (s', none))
        × IsLfu s' ys
        × (s'.free_entries ≡ free)
        × ((a : ℕ) → holds s' a ≡ ((a == address) || holds s a))
  insert-free-IsLfu address offset is_load c free e =
      let room = pop_free-HasRoom l.valid c free e in
      let (next', prev', map', run, v', law) =
        insert-free s address offset is_load l.valid (inr l.lfu) c free e in
      (
        _,
        _,
        run,
        record {
          valid = v';
          lfu = l.lfu;
          positive = l.positive;
          falls =
              placed-Falls s.freq c xs _ l.falls room.out
                (order-lfu s.policy (update s.freq c 0) c xs l.lfu);
        },
        refl,
        λ a.
            ap stored (law a)
            ∙ stored-free (s.addr_map a) (a == address) c (ground (arith, room.entry)),
      )

  -- `evict` of a held address: no fault, the LFU invariant stays, and exactly that address is no
  -- longer held.
  pub evict-IsLfu :
      (address : ℕ)
      → holds s address ≡ true
      → (s' : CacheSet) × (ys : List Ptr) × (dirty : Bool) × (evict s address ≡ some (s', dirty))
        × IsLfu s' ys
        × ((a : ℕ) → holds s' a ≡ (if a == address then false else holds s a))
  evict-IsLfu address h =
      let (c, e, ne) = held_line (s.addr_map address) h in
      let (m, at) = l.valid.mapped address c e ne in
      let (run, v', gone) = evict-freed l.valid address c e ne in
      (
        _,
        _,
        s.dirty c,
        run,
        record {
          valid = v';
          lfu = l.lfu;
          positive = l.positive;
          falls = Falls-remove s.freq (max_freq - 1) c xs l.falls;
        },
        λ a. rw at (stored_erase (s.addr_map a) (a == address)),
      )
