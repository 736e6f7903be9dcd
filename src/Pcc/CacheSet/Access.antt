-- ===== src/Pcc/CacheSet/Access.antt =====
-- `access` on a valid set.
use elastic_translations_mic.Prelude.{
  ℕ, ◌+◌, ◌%◌, ◌^◌, ◌≤◌, ◌≡◌, refl, ◌∙◌, Bool, true, false, Option, none, some, List, ◌∷◌, ◌⊎◌,
  arith, ◌==◌, if◌then◌else◌, update, mem, remove, IsDistinct, length, ==-self, inl, inr,
  Bool-cases, mem-remove_self, mem-remove_ne, not-mem-remove, remove-IsDistinct, length-remove,
}
use elastic_translations_mic.Pcc.CacheSet.Defs.{
  CacheSet, Ptr, null, head, tail, max_freq, reinsert, touch, access, map_get, decay_freqs,
}
use elastic_translations_mic.Pcc.CacheSet.Links.{Chain}
use elastic_translations_mic.Pcc.CacheSet.Valid.{
  IsValid, cut, addr_map-IsValid, not-mem-small, delete_node-cut, Chain-cut,
}
use elastic_translations_mic.Pcc.CacheSet.Relink.{
  order, IsUsed, Relinked, halved, decay_freqs-halved, reinsert-Relinked,
}
use elastic_translations_mic.Pcc.CacheSet.Order.{mem-order, length-order, order-IsDistinct}

-- The frequencies after a hit on `c`: one more use, and all lines of `xs` halved when that makes
-- MAX_FREQ.
unfoldable pub used : (ℕ → ℕ) → Ptr → List Ptr → ℕ → ℕ
unfolding halved
used f c xs =
    let v = (f c + 1) % 2 ^ 16 in if v == max_freq then halved (update f c v) xs else update f c v

-- The set after a hit: the links and the frequencies, and the stores to the line.
abbrev pub after_hit : CacheSet → Ptr → ℕ → Bool → (Ptr → Ptr) → (Ptr → Ptr) → (ℕ → ℕ) → CacheSet
after_hit s c offset is_load next' prev' freq' = record s {
  next = next';
  prev = prev';
  dirty = if is_load then s.dirty else update s.dirty c true;
  offset = update s.offset c offset;
  freq = freq';
}

touch_full :
    (s : CacheSet) (c : Ptr) (offset v : ℕ) (is_load : Bool)
    → v ≡ (s.freq c + 1) % 2 ^ 16
    → (v == max_freq) ≡ true
    → touch s c offset is_load
      ≡ decay_freqs (after_hit s c offset is_load s.next s.prev (update s.freq c v))
unfolding touch
touch_full s c offset v is_load e h = rw (← e, ==-self c, h) refl

touch_more :
    (s : CacheSet) (c : Ptr) (offset v : ℕ) (is_load : Bool)
    → v ≡ (s.freq c + 1) % 2 ^ 16
    → (v == max_freq) ≡ false
    → touch s c offset is_load
      ≡ some (after_hit s c offset is_load s.next s.prev (update s.freq c v))
unfolding touch
touch_more s c offset v is_load e h = rw (← e, ==-self c, h) refl

pub used_lem :
    (f : ℕ → ℕ) (c : Ptr) (xs : List Ptr) (v : ℕ)
    → v ≡ (f c + 1) % 2 ^ 16
    → used f c xs ≡ (if v == max_freq then halved (update f c v) xs else update f c v)
unfolding used
used_lem f c xs v e = rw (← e) refl

module _ (s : CacheSet) (c : Ptr) (offset : ℕ) (is_load : Bool) (xs : List Ptr)
    (h : length xs ≤ s.associativity) (ht : mem tail xs ≡ false) (d : IsDistinct xs)
    (ch : Chain s.next s.prev head xs tail) where
  touch_split :
      (v : ℕ)
      → v ≡ (s.freq c + 1) % 2 ^ 16
      → (f : ℕ → ℕ) × (touch s c offset is_load
          ≡ some (after_hit s c offset is_load s.next s.prev f))
        × ((a : ℕ)
            → f a ≡ (if v == max_freq then halved (update s.freq c v) xs else update s.freq c v) a)
  touch_split v e = elim (Bool-cases (v == max_freq)) [
    | inl full ↦
        let (f, run, at) =
          decay_freqs-halved (after_hit s c offset is_load s.next s.prev (update s.freq c v)) xs h
            ht d ch in
        (f, touch_full s c offset v is_load e full ∙ run, λ a. rw full (at a))
    | inr more ↦ (update s.freq c v, touch_more s c offset v is_load e more, λ a. rw more refl)
  ]

  touch-used :
      (f : ℕ → ℕ) × (touch s c offset is_load ≡ some (after_hit s c offset is_load s.next s.prev f))
      × ((a : ℕ) → f a ≡ used s.freq c xs a)
  touch-used =
      let (f, run, at) = touch_split ((s.freq c + 1) % 2 ^ 16) refl in
      (f, run, λ a. rw (used_lem s.freq c xs ((s.freq c + 1) % 2 ^ 16) refl) (at a))

-- The lines outside the list keep the frequency.
used_ne :
    (f : ℕ → ℕ) (c : Ptr) (xs : List Ptr) (a : ℕ)
    → (a == c) ≡ false
    → mem a xs ≡ false
    → used f c xs a ≡ f a
unfolding used halved
used_ne f c xs a h m = ground arith

pub map_get-hit :
    (s : CacheSet) (address : ℕ) (c : Ptr)
    → s.addr_map address ≡ some c
    → map_get s address ≡ (c, s)
unfolding map_get
map_get-hit s address c e = rw (e, map_get) refl

module _ {s : CacheSet} {xs : List Ptr} (v : IsValid s xs) (c : Ptr) (m : mem c xs ≡ true) where
  abbrev pub moved : List Ptr
  moved = order s.policy s.freq c (remove c xs)

  pub mem-moved : (a : Ptr) → mem a moved ≡ mem a xs
  mem-moved a = ground (arith, mem-order s.freq c s.policy a (remove c xs), mem-remove_ne a c xs)

  not-mem-moved : (a : Ptr) → a ≤ 2 → mem a moved ≡ false
  not-mem-moved a h = rw (mem-moved a) (not-mem-small v a h)

  moved-IsDistinct : IsDistinct moved
  moved-IsDistinct =
      order-IsDistinct s.freq c s.policy (remove c xs) (mem-remove_self c xs v.distinct)
        (remove-IsDistinct c xs v.distinct)

  length-moved : length moved ≡ length xs
  length-moved = omega (arith, length-order s.freq c s.policy (remove c xs), length-remove c xs m)

  not-mem-rest : mem c (head ∷ tail ∷ remove c xs) ≡ false
  not-mem-rest = ground (arith, mem-remove_self c xs v.distinct, v.entries c)

  -- The line is cut out and linked in again.
  move-Relinked : IsUsed s.policy → Relinked (cut s c) c (remove c xs) (reinsert (cut s c) c)
  move-Relinked =
      reinsert-Relinked (cut s c) c (remove c xs) not-mem-rest
        (not-mem-remove 1 c xs (not-mem-small v 1 (omega arith)))
        (not-mem-remove 2 c xs (not-mem-small v 2 (omega arith)))
        (remove-IsDistinct c xs v.distinct) (omega (arith, length-remove c xs m, v.count))
        v.tail_freq (Chain-cut v c m)

  used-tail : used s.freq c moved tail ≡ 0
  used-tail =
      used_ne s.freq c moved tail (ground (arith, v.entries c)) (not-mem-moved 2 (omega arith))
      ∙ v.tail_freq

  after_hit-IsValid :
      (offset : ℕ) (is_load : Bool) (next' prev' : Ptr → Ptr) (freq' : ℕ → ℕ)
      → Chain next' prev' head moved tail
      → freq' tail ≡ 0
      → IsValid (after_hit s c offset is_load next' prev' freq') moved
  after_hit-IsValid offset is_load next' prev' freq' ch fq = record {
    chain = ch;
    distinct = moved-IsDistinct;
    free_distinct = v.free_distinct;
    apart = λ a h. v.apart a (rw (mem-moved a) at h);
    entries = λ a h. v.entries a (rw (mem-moved a) at h);
    count = omega (arith, length-moved, v.count);
    mapped = λ a x e ne. rw (mem-moved x) (v.mapped a x e ne);
    tail_freq = fq;
  }

-- A run of `access` that hit the line `c`.
abbrev pub Hits : CacheSet → List Ptr → Ptr → ℕ → Bool → Option (CacheSet × Bool) → Type 0
Hits s xs c offset is_load r =
    let ys = order s.policy s.freq c (remove c xs) in
    (next' : Ptr → Ptr) × (prev' : Ptr → Ptr) × (freq' : ℕ → ℕ) × (r
      ≡ some (after_hit s c offset is_load next' prev' freq', true))
    × IsValid (after_hit s c offset is_load next' prev' freq') ys
    × ((a : ℕ) → freq' a ≡ used s.freq c ys a)

module _ {s : CacheSet} {xs : List Ptr} (v : IsValid s xs) (c : Ptr) (m : mem c xs ≡ true)
    (address offset : ℕ) (is_load : Bool) where
  -- The rest of a hit, from the links that `reinsert` leaves.
  hit_touch :
      (next' prev' : Ptr → Ptr)
      → reinsert (cut s c) c ≡ some (record s { next = next'; prev = prev' })
      → Chain next' prev' head (moved v c m) tail
      → s.addr_map address ≡ some c
      → (c == null) ≡ false
      → Hits s xs c offset is_load (access s address offset is_load)
  unfolding access
  hit_touch next' prev' run ch e ne =
      let (f, run', at) =
        touch-used (record s { next = next'; prev = prev' }) c offset is_load (moved v c m)
          (omega (arith, length-moved v c m, v.count)) (not-mem-moved v c m 2 (omega arith))
          (moved-IsDistinct v c m) ch in
      (
        next',
        prev',
        f,
        rw (map_get-hit s address c e, ne, delete_node-cut v c m, run, run') refl,
        after_hit-IsValid v c m offset is_load next' prev' f ch (at tail ∙ used-tail v c m),
        at,
      )

module _ {s : CacheSet} {xs : List Ptr} (v : IsValid s xs) where
  -- A hit on a set whose policy is LRU or LFU: no fault; the line moves to its place in the order,
  -- takes the offset and, on a store, the dirty bit; its frequency goes up by one, and all are
  -- halved when it reaches MAX_FREQ; the map, the tags and the free lines stay; the set stays valid.
  pub access-hit :
      (address offset : ℕ) (is_load : Bool) (c : Ptr)
      → IsUsed s.policy
      → s.addr_map address ≡ some c
      → (c == null) ≡ false
      → Hits s xs c offset is_load (access s address offset is_load)
  access-hit address offset is_load c u e ne =
      let m = (v.mapped address c e ne).0 in
      let (next', prev', run, ch) = move-Relinked v c m u in
      hit_touch v c m address offset is_load next' prev' run ch e ne

  -- A miss: a key that is missing or stored with NULL. It stores NULL under a missing key.
  pub access-miss :
      (address offset : ℕ) (is_load : Bool)
      → (s.addr_map address ≡ none) ⊎ (s.addr_map address ≡ some null)
      → (m : ℕ → Option Ptr) × (access s address offset is_load
          ≡ some (record s { addr_map = m }, false))
        × (m address ≡ some null)
        × ((a : ℕ) → (a == address) ≡ false → m a ≡ s.addr_map a)
        × IsValid (record s { addr_map = m }) xs
  unfolding access map_get
  access-miss address offset is_load (inl e) = (
    update s.addr_map address (some null),
    rw (access, map_get, e) refl,
    ground (arith, ==-self address),
    λ a h. ground arith,
    addr_map-IsValid v (update s.addr_map address (some null)) (λ a c. ground arith),
  )
  access-miss address offset is_load (inr e) =
      (s.addr_map, rw (access, map_get, e) refl, e, λ a h. refl, v)
