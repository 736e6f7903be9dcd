-- ===== src/Pcc/CacheSet/Defs.antt =====
-- src/pcc/tlb.h, `CacheSet`: one set of the simulated TLBs and of the promotion cache. The lines
-- form a doubly linked list between two sentinels, most recently (or most frequently) used first.
-- The heap has one function for each field of `CacheLine`; the addresses of the entries are
-- `first_entry`, `first_entry` + 1, ... `none` is a failed assertion or a null dereference.
use elastic_translations_mic.Prelude.{
  ℕ, zero, suc, ◌+◌, ◌-◌, ◌/◌, ◌%◌, ◌^◌, Bool, true, false, not, ◌||◌, Option, none, some, List, [],
  ◌∷◌, ltb, leb, ◌==◌, if◌then◌else◌, ◌>>=◌, update, length,
}

abbrev pub Ptr : Type 0
Ptr = ℕ

abbrev pub null : Ptr
null = 0

abbrev pub head : Ptr
head = 1

abbrev pub tail : Ptr
tail = 2

abbrev pub first_entry : Ptr
first_entry = 3

abbrev pub max_freq : ℕ
max_freq = 255

-- The members of `CacheSet`, with the fields of its lines. `free_entries` has the vector's back
-- first. `addr_map` gives `none` for a missing key and `some null` for a key stored with NULL.
pub record CacheSet : Type 0 where
  pub next : Ptr → Ptr
  pub prev : Ptr → Ptr
  pub addr : Ptr → ℕ
  pub offset : Ptr → ℕ
  pub dirty : Ptr → Bool
  pub freq : Ptr → ℕ
  pub free_entries : List Ptr
  pub addr_map : ℕ → Option Ptr
  pub associativity : ℕ
  pub policy : ℕ

-- What `insert` reports of the line that it threw out.
pub record Evicted : Type 0 where
  pub addr : ℕ
  pub offset : ℕ
  pub dirty : Bool

-- freeEntries.push_back(&entries[i]) for i = 0, ..., n - 1.
unfoldable pub all_entries : ℕ → List Ptr
all_entries zero = []
all_entries (suc n) = (first_entry + n) ∷ all_entries n

-- The constructor.
unfoldable pub new_set : ℕ → ℕ → CacheSet
new_set size eviction_policy = record {
  next = update (update (λ _. null) head tail) tail null;
  prev = update (update (λ _. null) head null) tail head;
  addr = λ _. 0;
  offset = λ _. 0;
  dirty = λ _. false;
  freq = λ _. 0;
  free_entries = all_entries size;
  addr_map = λ _. none;
  associativity = size;
  policy = eviction_policy;
}

-- addr_map[address], which stores NULL under a missing key.
unfoldable pub map_get : CacheSet → ℕ → Ptr × CacheSet
map_get s address = elim (s.addr_map address) [
  | some c ↦ (c, s)
  | none ↦ (null, record s { addr_map = update s.addr_map address (some null) })
]

-- addr_map.erase(a).
unfoldable pub map_erase : CacheSet → ℕ → CacheSet
map_erase s a = record s { addr_map = update s.addr_map a none }

unfoldable pub delete_node : CacheSet → Ptr → Option CacheSet
delete_node s c =
    if (s.next c == null) || (s.prev c == null)
    then none
    else let next' = update s.next (s.prev c) (s.next c) in
      some (record s { next = next'; prev = update s.prev (next' c) (s.prev c) })

unfoldable pub insert_front : CacheSet → Ptr → Ptr → CacheSet
insert_front s c curr_head =
    let next' = update (update s.next c (s.next curr_head)) curr_head c in
    record s { next = next'; prev = update (update s.prev c curr_head) (next' c) c }

-- The four assignments that end `insertHalf` and `insertLFU`.
unfoldable pub insert_before : CacheSet → Ptr → Ptr → CacheSet
insert_before s c curr =
    let prev' = update (update s.prev c (s.prev curr)) curr c in
    record s { next = update (update s.next c curr) (prev' c) c; prev = prev' }

-- while (idx < end && curr != tail) with `n` = end - idx.
unfoldable pub half_loop : ℕ → CacheSet → Ptr → Ptr
half_loop zero s curr = curr
half_loop (suc n) s curr =
    let rest = half_loop n s (s.next curr) in if curr == tail then curr else rest

unfoldable pub insert_half : CacheSet → Ptr → CacheSet
insert_half s c =
    let num_entries = s.associativity - length s.free_entries in
    let end = if num_entries == s.associativity then s.associativity / 2 else num_entries / 2 in
    insert_before s c (half_loop end s (s.next head))

-- while (c->freq < curr->freq). The fuel bounds the rounds; `none` when it runs out.
unfoldable pub lfu_loop : ℕ → CacheSet → Ptr → Ptr → Option Ptr
lfu_loop zero s c curr = none
lfu_loop (suc fuel) s c curr =
    let rest = lfu_loop fuel s c (s.next curr) in
    if ltb (s.freq c) (s.freq curr) then rest else some curr

unfoldable pub insert_lfu : CacheSet → Ptr → Option CacheSet
insert_lfu s c = do
  curr ← lfu_loop (s.associativity + 1) s c (s.next head)
  some (insert_before s c curr)

-- while (c != tail) c->freq /= 2.
unfoldable pub decay_loop : ℕ → CacheSet → Ptr → Option CacheSet
decay_loop zero s c = none
decay_loop (suc fuel) s c =
    let rest = decay_loop fuel (record s { freq = update s.freq c (s.freq c / 2) }) (s.next c) in
    if c == tail then some s else rest

unfoldable pub decay_freqs : CacheSet → Option CacheSet
decay_freqs s = decay_loop (s.associativity + 1) s (s.next head)

-- The switch on the policy in `access`.
unfoldable pub reinsert : CacheSet → Ptr → Option CacheSet
reinsert s c =
    if s.policy == 0
    then some (insert_front s c head)
    else if s.policy == 1
    then (if leb (s.associativity / 2) (s.freq c) then some (insert_front s c head) else some s)
    else if s.policy == 2
    then insert_lfu s c
    else some s

-- The stores to a line that was hit, with the 16-bit counter, and the decay.
unfoldable pub touch : CacheSet → Ptr → ℕ → Bool → Option CacheSet
touch s c offset is_load =
    let s' = record s {
      dirty = if is_load then s.dirty else update s.dirty c true;
      offset = update s.offset c offset;
      freq = update s.freq c ((s.freq c + 1) % 2 ^ 16);
    } in
    if s'.freq c == max_freq then decay_freqs s' else some s'

unfoldable pub access : CacheSet → ℕ → ℕ → Bool → Option (CacheSet × Bool)
access s address offset is_load =
    let (c, s) = map_get s address in
    if c == null
    then some (s, false)
    else do s ← delete_node s c; s ← reinsert s c; s ← touch s c offset is_load; some (s, true)

-- The victim's half of `insert`: the line at the back of the list is taken out of the map and of
-- the list.
unfoldable pub take_victim : CacheSet → Option (CacheSet × Ptr × Evicted)
take_victim s =
    let c = s.prev tail in
    if c == head then none else do
      s' ← delete_node (map_erase s (s.addr c)) c
      some (s', c, record { addr = s.addr c; offset = s.offset c; dirty = s.dirty c })

-- The line that `insert` fills, and what it reports.
unfoldable pub take_line : CacheSet → List Ptr → Option (CacheSet × Ptr × Option Evicted)
take_line s [] = do (s, c, e) ← take_victim s; some (s, c, some e)
take_line s (c ∷ free) = some (record s { free_entries = free }, c, none)

-- The switch on the policy in `insert`.
unfoldable pub place : CacheSet → Ptr → Option CacheSet
place s c =
    if s.policy == 0
    then some (insert_front s c head)
    else if s.policy == 1
    then some (insert_half s c)
    else if s.policy == 2
    then insert_lfu s c
    else some s

-- The line's fields before it is linked.
unfoldable pub fill_line : CacheSet → Ptr → ℕ → ℕ → Bool → CacheSet
fill_line s c address offset is_load = record s {
  addr_map = update s.addr_map address (some c);
  addr = update s.addr c address;
  offset = update s.offset c offset;
  dirty = update s.dirty c (not is_load);
  freq = update s.freq c 0;
}

unfoldable pub insert : CacheSet → ℕ → ℕ → Bool → Option (CacheSet × Option Evicted)
insert s address offset is_load = do
  let s1 = (map_get s address).1
  (s2, c, evicted) ← take_line s1 s1.free_entries
  s3 ← place (fill_line s2 c address offset is_load) c
  some (s3, evicted)

-- The set afterwards, and the dirty bit that is reported.
unfoldable pub evict : CacheSet → ℕ → Option (CacheSet × Bool)
evict s address =
    let (c, s) = map_get s address in
    if (c == head) || (c == null) then none else do
      s' ← delete_node (map_erase s (s.addr c)) c
      some (record s' { free_entries = c ∷ s'.free_entries }, s.dirty c)

unfoldable pub get_freq : CacheSet → ℕ → Option ℕ
get_freq s address = do
  c ← s.addr_map address
  if (c == head) || (c == null) then none else some (s.freq c)

unfoldable pub flush_loop : ℕ → CacheSet → Ptr → Option CacheSet
flush_loop zero s c = none
flush_loop (suc fuel) s c =
    let s1 = map_erase s (s.addr c) in
    let s2 = record s1 { free_entries = c ∷ s1.free_entries } in
    let c' = s2.next c in
    let rest = (do s3 ← delete_node s2 (s2.prev c'); flush_loop fuel s3 c') in
    if c == tail then some s else rest

unfoldable pub flush : CacheSet → Option CacheSet
flush s = flush_loop (s.associativity + 1) s (s.next head)

-- The addresses that `get_set` appends, front to back.
unfoldable pub get_set_loop : ℕ → CacheSet → Ptr → Option (List ℕ)
get_set_loop zero s c = none
get_set_loop (suc fuel) s c =
    let rest = (do as' ← get_set_loop fuel s (s.next c); some (s.addr c ∷ as')) in
    if c == tail then some [] else rest

unfoldable pub get_set : CacheSet → Option (List ℕ)
get_set s = get_set_loop (s.associativity + 1) s (s.next head)

-- The addresses that `print` prints.
unfoldable pub print_loop : ℕ → CacheSet → Ptr → Option (List ℕ)
print_loop zero s c = none
print_loop (suc fuel) s c =
    let rest = (do printed ← print_loop fuel s (s.next c); some (s.addr c ∷ printed)) in
    if c == tail then some [] else rest

unfoldable pub print : CacheSet → Option (List ℕ)
print s = print_loop (s.associativity + 1) s (s.next head)
