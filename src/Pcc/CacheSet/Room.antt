-- ===== src/Pcc/CacheSet/Room.antt =====
-- A set in the middle of `insert` or `evict`: one line, `c`, is neither linked nor free.
use elastic_translations_mic.Prelude.{
  ℕ, suc, ◌+◌, ◌<◌, ◌≡◌, ◌||◌, true, false, Bool, none, some, List, ◌∷◌, arith, ◌==◌, update, subst,
  mem, remove, IsDistinct, length, mem-remove_self, mem-remove_ne, not-mem-remove,
  remove-IsDistinct, length-remove,
}
use elastic_translations_mic.Pcc.CacheSet.Defs.{CacheSet, Ptr, null, head, tail, fill_line, place}
use elastic_translations_mic.Pcc.CacheSet.Links.{Chain}
use elastic_translations_mic.Pcc.CacheSet.Valid.{IsValid, cut, Chain-cut}
use elastic_translations_mic.Pcc.CacheSet.Relink.{order, IsUsed, place-Relinked}
use elastic_translations_mic.Pcc.CacheSet.Order.{mem-order, length-order, order-IsDistinct}

pub record HasRoom (s : CacheSet) (xs : List Ptr) (c : Ptr) : Type 0 where
  pub chain : Chain s.next s.prev head xs tail
  pub distinct : IsDistinct xs
  pub out : mem c xs ≡ false
  pub not_free : mem c s.free_entries ≡ false
  pub entry : 2 < c
  pub free_distinct : IsDistinct s.free_entries
  pub apart : (a : Ptr) → mem a xs ≡ true → mem a s.free_entries ≡ false
  pub entries : (a : Ptr) → (mem a xs || mem a s.free_entries) ≡ true → 2 < a
  pub count : suc (length xs + length s.free_entries) ≡ s.associativity
  pub mapped :
      (a : ℕ) (x : Ptr)
      → s.addr_map a ≡ some x
      → (x == null) ≡ false
      → (mem x xs ≡ true) × (s.addr x ≡ a)
  pub tail_freq : s.freq tail ≡ 0

-- The victim's way: the line is taken out of the map and out of the list.
abbrev pub without : CacheSet → Ptr → CacheSet
without s c = record (cut s c) { addr_map = update s.addr_map (s.addr c) none }

module _ {s : CacheSet} {xs : List Ptr} (v : IsValid s xs) where
  pub without-HasRoom : (c : Ptr) → mem c xs ≡ true → HasRoom (without s c) (remove c xs) c
  without-HasRoom c m = record {
    chain = Chain-cut v c m;
    distinct = remove-IsDistinct c xs v.distinct;
    out = mem-remove_self c xs v.distinct;
    not_free = v.apart c m;
    entry = v.entries c (ground arith);
    free_distinct = v.free_distinct;
    apart = λ a h. v.apart a (ground (arith, not-mem-remove a c xs));
    entries = λ a h. v.entries a (ground (arith, not-mem-remove a c xs));
    count = omega (arith, length-remove c xs m, v.count);
    mapped = λ a x e ne. ground (arith, v.mapped a x, mem-remove_ne x c xs);
    tail_freq = v.tail_freq;
  }

  apart_free :
      (c : Ptr) (free : List Ptr)
      → s.free_entries ≡ c ∷ free
      → (a : Ptr) → mem a xs ≡ true
      → mem a (c ∷ free) ≡ false
  apart_free c free e a m = subst (λ fs. mem a fs ≡ false) e (v.apart a m)

  length_free :
      (c : Ptr) (free : List Ptr)
      → s.free_entries ≡ c ∷ free
      → length xs + suc (length free) ≡ s.associativity
  length_free c free e = rw e at v.count

  -- A line from the free ones.
  pub pop_free-HasRoom :
      (c : Ptr) (free : List Ptr)
      → s.free_entries ≡ c ∷ free
      → HasRoom (record s { free_entries = free }) xs c
  pop_free-HasRoom c free e = record {
    chain = v.chain;
    distinct = v.distinct;
    out = ground (arith, apart_free c free e c);
    not_free = (rw e at v.free_distinct).0;
    entry = v.entries c (rw e (ground arith));
    free_distinct = (rw e at v.free_distinct).1;
    apart = λ a h. ground (arith, apart_free c free e a);
    entries = λ a h. v.entries a (rw e (ground arith));
    count = omega (arith, length_free c free e);
    mapped = v.mapped;
    tail_freq = v.tail_freq;
  }

module _ {s : CacheSet} {xs : List Ptr} {c : Ptr} (r : HasRoom s xs c) where
  -- The line goes to the free ones.
  pub push_free-IsValid : IsValid (record s { free_entries = c ∷ s.free_entries }) xs
  push_free-IsValid = record {
    chain = r.chain;
    distinct = r.distinct;
    free_distinct = (r.not_free, r.free_distinct);
    apart = λ a h. ground (arith, r.apart a h, r.out);
    entries = λ a h. ground (arith, r.entries a, r.entry);
    count = omega (arith, r.count);
    mapped = r.mapped;
    tail_freq = r.tail_freq;
  }

  module _ (address offset : ℕ) (is_load : Bool) where
    -- The set after the line is filled and linked.
    abbrev filled : (Ptr → Ptr) → (Ptr → Ptr) → CacheSet
    filled next' prev' = record (fill_line s c address offset is_load) {
      next = next';
      prev = prev';
    }

    abbrev pub placed : List Ptr
    placed = order s.policy (update s.freq c 0) c xs

    mem-placed : (a : Ptr) → mem a placed ≡ ((a == c) || mem a xs)
    mem-placed a = mem-order (update s.freq c 0) c s.policy a xs

    filled-IsValid :
        (next' prev' : Ptr → Ptr)
        → Chain next' prev' head placed tail
        → IsValid (filled next' prev') placed
    unfolding fill_line
    filled-IsValid next' prev' ch = record {
      chain = ch;
      distinct = order-IsDistinct (update s.freq c 0) c s.policy xs r.out r.distinct;
      free_distinct = r.free_distinct;
      apart = λ a h. ground (arith, mem-placed a, r.apart a, r.not_free);
      entries = λ a h. ground (arith, mem-placed a, r.entries a, r.entry);
      count = omega (arith, length-order (update s.freq c 0) c s.policy xs, r.count);
      mapped = λ a x e ne. ground (arith, mem-placed x, r.mapped a x, r.out);
      tail_freq = ground (arith, r.tail_freq, r.entry);
    }

    pub place-IsValid :
        IsUsed s.policy
        → (next' : Ptr → Ptr) × (prev' : Ptr → Ptr) × (place
              (fill_line s c address offset is_load)
              c
            ≡ some (filled next' prev'))
          × IsValid (filled next' prev') placed
    unfolding fill_line
    place-IsValid u =
        let (next', prev', run, ch) =
          place-Relinked (fill_line s c address offset is_load) c xs
            (ground (arith, r.out, r.entry)) (ground (arith, r.entries 1))
            (ground (arith, r.entries 2)) r.distinct (omega (arith, r.count))
            (ground (arith, r.tail_freq, r.entry)) r.chain u in
        (next', prev', run, filled-IsValid next' prev' ch)
