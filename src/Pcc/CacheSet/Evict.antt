-- ===== src/Pcc/CacheSet/Evict.antt =====
-- `evict`, `flush` and `get_set` on a valid set.
use elastic_translations_mic.Prelude.{
  ℕ, zero, suc, ◌+◌, ◌<◌, ◌≡◌, refl, ◌∙◌, true, false, none, some, List, [], ◌∷◌, map, arith, ◌==◌,
  update, subst, mem, remove, length, ==-self,
}
use elastic_translations_mic.Pcc.CacheSet.Defs.{
  CacheSet, Ptr, null, head, tail, map_erase, evict, flush_loop, flush, get_set_loop, get_set,
  print_loop, print,
}
use elastic_translations_mic.Pcc.CacheSet.Links.{Chain}
use elastic_translations_mic.Pcc.CacheSet.Valid.{
  IsValid, not-mem-small, delete_node-cut, delete_node-eq, neighbours, addr_map-IsValid,
}
use elastic_translations_mic.Pcc.CacheSet.Room.{without, without-HasRoom, push_free-IsValid}
use elastic_translations_mic.Pcc.CacheSet.Access.{map_get-hit}

-- The set with the line `c` back among the free ones, out of the list and of the map.
abbrev pub freed : CacheSet → Ptr → CacheSet
freed s c = record (without s c) { free_entries = c ∷ s.free_entries }

module _ {s : CacheSet} {xs : List Ptr} (v : IsValid s xs) where
  pub freed-IsValid : (c : Ptr) → mem c xs ≡ true → IsValid (freed s c) (remove c xs)
  freed-IsValid c m = push_free-IsValid (without-HasRoom v c m)

  erased-IsValid : (a : ℕ) → IsValid (record s { addr_map = update s.addr_map a none }) xs
  erased-IsValid a = addr_map-IsValid v (update s.addr_map a none) (λ b c. ground arith)

  -- `evict` of an address that is held: no fault, the line is freed, its dirty bit is reported, and
  -- the address is gone from the map.
  pub evict-freed :
      (address : ℕ) (c : Ptr)
      → s.addr_map address ≡ some c
      → (c == null) ≡ false
      → (evict s address ≡ some (freed s c, s.dirty c))
        × IsValid (freed s c) (remove c xs)
        × ((freed s c).addr_map address ≡ none)
  unfolding evict map_erase
  evict-freed address c e ne =
      let (m, at) = v.mapped address c e ne in
      (
        rw
            (
              map_get-hit s address c e,
              ne_head c m,
              ne,
              delete_node-cut (erased-IsValid (s.addr c)) c m,
            )
            refl,
        freed-IsValid c m,
        rw (at, ==-self address) refl,
      )
    where
      ne_head : (c : Ptr) → mem c xs ≡ true → (c == head) ≡ false
      ne_head c m = ground (arith, v.entries c)

-- One round of `flush` on the line `x`.
flush_round :
    (fuel : ℕ) (s : CacheSet) (c x : Ptr)
    → c ≡ x
    → (x == tail) ≡ false
    → s.prev (s.next x) ≡ x
    → ((s.next x == null) ≡ false) × ((s.prev x == null) ≡ false) × ((x == s.prev x) ≡ false)
    → flush_loop (suc fuel) s c ≡ flush_loop fuel (freed s x) (s.next x)
unfolding flush_loop map_erase
flush_round fuel s c x e t back (n, p, h) =
    rw
      (
        e,
        t,
        back,
        delete_node-eq
            (record s {
              addr_map = update s.addr_map (s.addr x) none;
              free_entries = x ∷ s.free_entries;
            })
            x n p h,
      )
      refl

-- The line behind the first one, or the end, points back to it.
second-prev :
    (next prev : ℕ → ℕ) (p x q : Ptr) (xs : List Ptr)
    → Chain next prev p (x ∷ xs) q
    → prev (next x) ≡ x
second-prev next prev p x q [] ch = ground arith
second-prev next prev p x q (y ∷ xs) ch = ground arith

module _ {s : CacheSet} {x : Ptr} {xs : List Ptr} (v : IsValid s (x ∷ xs)) where
  first-mem : mem x (x ∷ xs) ≡ true
  first-mem = rw (==-self x) refl

  first-freed : IsValid (freed s x) xs
  first-freed =
      subst (λ ys. IsValid (freed s x) ys) (rw (==-self x) refl) (freed-IsValid v x first-mem)

  freed-next : (freed s x).next head ≡ s.next x
  freed-next = rw (v.chain.1) refl

  flush_loop-step :
      (fuel : ℕ)
      → flush_loop (suc fuel) s (s.next head) ≡ flush_loop fuel (freed s x) ((freed s x).next head)
  flush_loop-step fuel = rw freed-next (
      flush_round fuel s (s.next head) x v.chain.0
        (ground (arith, v.entries x (ground (arith, first-mem))))
        (second-prev s.next s.prev head x tail xs v.chain) (neighbours v x first-mem))

flush_loop-IsValid :
    (fuel : ℕ) (s : CacheSet) (xs : List Ptr)
    → length xs < fuel
    → IsValid s xs
    → (s' : CacheSet) × (flush_loop fuel s (s.next head) ≡ some s')
      × IsValid s' []
      × (s'.associativity ≡ s.associativity)
unfolding flush_loop
flush_loop-IsValid zero s xs h v = absurd (omega arith)
flush_loop-IsValid (suc fuel) s [] h v = (s, ground (arith, v.chain), v, refl)
flush_loop-IsValid (suc fuel) s (x ∷ xs) h v =
    let (s', run, v', a) = flush_loop-IsValid fuel (freed s x) xs (omega arith) (first-freed v) in
    (s', flush_loop-step v fuel ∙ run, v', a)

-- `flush` empties a valid set: no fault, all entries are free, and the map holds no line.
pub flush-IsValid :
    {s : CacheSet} {xs : List Ptr}
    → IsValid s xs
    → (s' : CacheSet) × (flush s ≡ some s')
      × IsValid s' []
      × (length s'.free_entries ≡ s.associativity)
      × ((a : ℕ) (c : Ptr) → s'.addr_map a ≡ some c → c ≡ null)
unfolding flush
flush-IsValid {s} {xs} v =
    let (s', run, v', a) =
      flush_loop-IsValid (s.associativity + 1) s xs (omega (arith, v.count)) v in
    (s', run, v', omega (arith, v'.count, a), λ b c e. ground (arith, v'.mapped b c))

get_set_loop-map :
    (fuel : ℕ) (s : CacheSet) (p : Ptr) (xs : List Ptr)
    → length xs < fuel
    → mem tail xs ≡ false
    → Chain s.next s.prev p xs tail
    → get_set_loop fuel s (s.next p) ≡ some (map s.addr xs)
unfolding get_set_loop
get_set_loop-map zero s p xs h t ch = absurd (omega arith)
get_set_loop-map (suc fuel) s p [] h t ch = rw ch.0 refl
get_set_loop-map (suc fuel) s p (x ∷ xs) h t ch = ground (arith, get_set_loop-map fuel s x xs)

-- `get_set` gives the tags of the lines, front to back.
pub get_set-map : {s : CacheSet} {xs : List Ptr} → IsValid s xs → get_set s ≡ some (map s.addr xs)
unfolding get_set
get_set-map {s} {xs} v =
    get_set_loop-map (s.associativity + 1) s head xs (omega (arith, v.count))
      (not-mem-small v 2 (omega arith)) v.chain

print_loop-get_set_loop :
    (fuel : ℕ) (s : CacheSet) (c : Ptr) → print_loop fuel s c ≡ get_set_loop fuel s c
unfolding print_loop get_set_loop
print_loop-get_set_loop zero s c = refl
print_loop-get_set_loop (suc fuel) s c = rw (print_loop-get_set_loop fuel s (s.next c)) refl

-- `print` prints what `get_set` gives.
pub print-get_set : (s : CacheSet) → print s ≡ get_set s
unfolding print get_set
print-get_set s = print_loop-get_set_loop (s.associativity + 1) s (s.next head)
