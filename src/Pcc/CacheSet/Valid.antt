-- ===== src/Pcc/CacheSet/Valid.antt =====
-- The invariant of a set, and what cutting a line out does under it.
use elastic_translations_mic.Prelude.{
  ℕ, ◌+◌, ◌≤◌, ◌<◌, ◌≡◌, refl, ◌||◌, true, false, Option, some, List, arith, ◌==◌, update, mem,
  remove, IsDistinct, length,
}
use elastic_translations_mic.Pcc.CacheSet.Defs.{CacheSet, Ptr, null, head, tail, delete_node}
use elastic_translations_mic.Pcc.CacheSet.Links.{Chain, cut-Chain, prev-mem, next-mem, prev-ne_self}

-- The lines of `xs` are linked between the sentinels, front to back; with the free ones they are
-- all the entries; the map sends an address only to a line that holds it.
pub record IsValid (s : CacheSet) (xs : List Ptr) : Type 0 where
  pub chain : Chain s.next s.prev head xs tail
  pub distinct : IsDistinct xs
  pub free_distinct : IsDistinct s.free_entries
  pub apart : (c : Ptr) → mem c xs ≡ true → mem c s.free_entries ≡ false
  pub entries : (c : Ptr) → (mem c xs || mem c s.free_entries) ≡ true → 2 < c
  pub count : length xs + length s.free_entries ≡ s.associativity
  pub mapped :
      (a : ℕ) (c : Ptr)
      → s.addr_map a ≡ some c
      → (c == null) ≡ false
      → (mem c xs ≡ true) × (s.addr c ≡ a)
  pub tail_freq : s.freq tail ≡ 0

-- The set without the line `c` in its list.
abbrev pub cut : CacheSet → Ptr → CacheSet
cut s c = record s {
  next = update s.next (s.prev c) (s.next c);
  prev = update s.prev (s.next c) (s.prev c);
}

pub delete_node-eq :
    (s : CacheSet) (c : Ptr)
    → (s.next c == null) ≡ false
    → (s.prev c == null) ≡ false
    → (c == s.prev c) ≡ false
    → delete_node s c ≡ some (cut s c)
unfolding delete_node
delete_node-eq s c n p h = rw (n, p, h) refl

module _ {s : CacheSet} {xs : List Ptr} (v : IsValid s xs) where
  pub not-mem-small : (a : Ptr) → a ≤ 2 → mem a xs ≡ false
  not-mem-small a h = ground (arith, v.entries a)

  module _ (c : Ptr) (m : mem c xs ≡ true) where
    -- Both neighbours exist, and are other nodes.
    pub neighbours :
        ((s.next c == null) ≡ false) × ((s.prev c == null) ≡ false) × ((c == s.prev c) ≡ false)
    neighbours = (
      ground (arith, next-mem s.next s.prev c head tail xs v.chain m, not-mem-small 0),
      ground (arith, prev-mem s.next s.prev c head tail xs v.chain m, not-mem-small 0),
      prev-ne_self s.next s.prev c head tail xs m (not-mem-small 1 (omega arith)) v.distinct
          v.chain,
    )

    pub delete_node-cut : delete_node s c ≡ some (cut s c)
    delete_node-cut = delete_node-eq s c neighbours.0 neighbours.1 neighbours.2

    pub Chain-cut : Chain (cut s c).next (cut s c).prev head (remove c xs) tail
    Chain-cut =
        cut-Chain s.next s.prev c head tail xs m (not-mem-small 1 (omega arith))
          (not-mem-small 2 (omega arith)) refl v.distinct v.chain

  -- A map that sends to lines at most what the old one did.
  pub addr_map-IsValid :
      (m : ℕ → Option Ptr)
      → ((a : ℕ) (c : Ptr) → m a ≡ some c → (c == null) ≡ false → s.addr_map a ≡ some c)
      → IsValid (record s { addr_map = m }) xs
  addr_map-IsValid m h = record {
    chain = v.chain;
    distinct = v.distinct;
    free_distinct = v.free_distinct;
    apart = v.apart;
    entries = v.entries;
    count = v.count;
    mapped = λ a c e ne. v.mapped a c (h a c e ne) ne;
    tail_freq = v.tail_freq;
  }
