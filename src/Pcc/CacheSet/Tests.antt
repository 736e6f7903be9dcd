-- ===== src/Pcc/CacheSet/Tests.antt =====
-- Runs of a set, and the theorems at concrete inputs.
use elastic_translations_mic.Prelude.{
  ℕ, ◌≡◌, refl, inr, true, false, Option, none, some, List, [], ◌∷◌, arith, ◌>>=◌, mem, Bool, ◌≤◌,
  ◌==◌, if◌then◌else◌, update, remove, length,
}
use elastic_translations_mic.Pcc.CacheSet.Defs.{
  CacheSet, Ptr, null, head, tail, new_set, all_entries, map_get, map_erase, delete_node,
  insert_front, insert_before, half_loop, insert_half, lfu_loop, insert_lfu, decay_loop,
  decay_freqs, reinsert, touch, access, take_victim, take_line, place, fill_line, insert, evict,
  get_freq, flush_loop, flush, get_set_loop, get_set,
}
use elastic_translations_mic.Pcc.CacheSet.Valid.{IsValid}
use elastic_translations_mic.Pcc.CacheSet.Run.{
  Request, reads, inserts, drops, step, run, Ends, run-new_set,
}
use elastic_translations_mic.Pcc.CacheSet.Room.{without}
use elastic_translations_mic.Pcc.CacheSet.Access.{Hits, access-hit}
use elastic_translations_mic.Pcc.CacheSet.Insert.{Inserts, last, report, insert-full}
use elastic_translations_mic.Pcc.CacheSet.Evict.{flush-IsValid}
use elastic_translations_mic.Pcc.CacheSet.Lfu.{IsLfu}
use elastic_translations_mic.Pcc.CacheSet.Held.{holds}
use elastic_translations_mic.Pcc.CacheSet.Promotion.{access-IsLfu, insert_full-least}
use elastic_translations_mic.Pcc.CacheSet.Tags.{touched_all, hits}
use elastic_translations_mic.Pcc.CacheSet.Lru.{look_up}
use elastic_translations_mic.Pcc.CacheSet.Lookups.{look_up_all, look_up_all-new_set, tags_of}
use elastic_translations_mic.Pcc.CacheSet.Inclusion.{implied, look_up_all-implied}

unfoldable pub program : Unit {0}
unfolding new_set all_entries map_get map_erase delete_node insert_front insert_before half_loop
    insert_half lfu_loop insert_lfu decay_loop decay_freqs reinsert touch access take_victim
    take_line place fill_line insert evict get_freq flush_loop flush get_set_loop get_set step run
program = tt

abbrev requests : List Request
requests =
    inserts 10 0 true
    ∷ inserts 20 0 true
    ∷ reads 10 5 false
    ∷ reads 10 6 true
    ∷ reads 20 0 true
    ∷ inserts 30 0 true
    ∷ []

-- 20 is used less often than 10, so it makes room for 30.
lfu_victim : (run (new_set 2 2) requests >>= get_set) ≡ some (10 ∷ 30 ∷ [])
unfolding program
lfu_victim = refl

-- Under LRU the victim is 10.
lru_victim : (run (new_set 2 0) requests >>= get_set) ≡ some (30 ∷ 20 ∷ [])
unfolding program
lru_victim = refl

flushed : (run (new_set 2 0) requests >>= flush >>= get_set) ≡ some []
unfolding program
flushed = refl

dropped : (run (new_set 2 2) requests >>= (λ s. run s (drops 10 ∷ [])) >>= get_set) ≡ some (30 ∷ [])
unfolding program
dropped = refl

run-new_set_example : Ends (run (new_set 2 2) requests)
run-new_set_example = run-new_set 2 requests (omega arith)

-- A full set of one line, which holds the address 7.
abbrev one : CacheSet
one = record {
  next = update (update (λ _. null) head 3) 3 tail;
  prev = update (update (λ _. null) tail 3) 3 head;
  addr = λ _. 7;
  offset = λ _. 0;
  dirty = λ _. false;
  freq = update (λ _. 0) 3 4;
  free_entries = [];
  addr_map = update (λ _. none) 7 (some 3);
  associativity = 1;
  policy = 2;
}

one-IsValid : IsValid one (3 ∷ [])
one-IsValid = record {
  chain = (refl, refl, (refl, refl));
  distinct = (refl, tt);
  free_distinct = tt;
  apart = λ c m. refl;
  entries = λ c m. ground arith;
  count = refl;
  mapped = λ a c e ne. ground arith;
  tail_freq = refl;
}

one-IsLfu : IsLfu one (3 ∷ [])
one-IsLfu = record {
  valid = one-IsValid;
  lfu = refl;
  positive = omega arith;
  falls = (omega arith, tt);
}

access-hit_example : Hits one (3 ∷ []) 3 12 false (access one 7 12 false)
access-hit_example = access-hit one-IsValid 7 12 false 3 (inr refl) refl refl

access-IsLfu_example :
    (s' : CacheSet) × (ys : List Ptr) × (access one 7 12 false ≡ some (s', holds one 7))
    × IsLfu s' ys
    × ((a : ℕ) → holds s' a ≡ holds one a)
access-IsLfu_example = access-IsLfu one-IsLfu 7 12 false

insert_full-least_example :
    (c : Ptr) × (s' : CacheSet) × (ys : List Ptr) × (mem c (3 ∷ []) ≡ true)
    × ((a : Ptr) → mem a (3 ∷ []) ≡ true → one.freq c ≤ one.freq a)
    × (insert one 9 1 true ≡ some (s', some (report one c)))
    × IsLfu s' ys
    × ((a : ℕ)
        → holds s' a ≡ (if a == 9 then true else if a == one.addr c then false else holds one a))
insert_full-least_example = insert_full-least one-IsLfu 9 1 true refl

insert-full_example :
    Inserts
      (without one (last one))
      (remove (last one) (3 ∷ []))
      (last one)
      9
      1
      true
      (update one.addr_map (one.addr (last one)) none)
      (some (report one (last one)))
      (insert one 9 1 true)
insert-full_example = insert-full one 9 1 true one-IsValid (inr refl) refl refl

flush-IsValid_example :
    (s' : CacheSet) × (flush one ≡ some s')
    × IsValid s' []
    × (length s'.free_entries ≡ 1)
    × ((a : ℕ) (c : Ptr) → s'.addr_map a ≡ some c → c ≡ null)
flush-IsValid_example = flush-IsValid one-IsValid

abbrev look_ups : List (ℕ × ℕ × Bool)
look_ups = (10, 0, true) ∷ (20, 0, true) ∷ (10, 1, false) ∷ (30, 0, true) ∷ (20, 0, true) ∷ []

abbrev tags_and_answers : ℕ → Option (List ℕ × List Bool)
tags_and_answers n = do
  (t, hs) ← look_up_all (new_set n 0) look_ups
  tags ← get_set t
  some (tags, hs)

-- With two entries 30 drives out 20; with three, 20 is still there.
two_entries : tags_and_answers 2 ≡ some (20 ∷ 30 ∷ [], false ∷ false ∷ true ∷ false ∷ false ∷ [])
unfolding program look_up look_up_all
two_entries = refl

three_entries :
    tags_and_answers 3 ≡ some (20 ∷ 30 ∷ 10 ∷ [], false ∷ false ∷ true ∷ false ∷ true ∷ [])
unfolding program look_up look_up_all
three_entries = refl

look_up_all-new_set_example :
    (t : CacheSet) × (look_up_all (new_set 2 0) look_ups ≡ some (t, hits 2 [] (tags_of look_ups)))
    × (get_set t ≡ some (touched_all 2 [] (tags_of look_ups)))
look_up_all-new_set_example = look_up_all-new_set 2 look_ups (omega arith)

look_up_all-implied_example :
    (t u : CacheSet) × (hs ks : List Bool) × (look_up_all (new_set 2 0) look_ups ≡ some (t, hs))
    × (look_up_all (new_set 3 0) look_ups ≡ some (u, ks))
    × (implied hs ks ≡ true)
look_up_all-implied_example = look_up_all-implied 2 3 look_ups (omega arith) (omega arith)
