-- ===== src/Btree/Node/Redistribute.antt =====
-- redistribute_nodes of src/benchmarks/btree/btree1.c on leaves.
use elastic_translations_mic.Prelude.{
  ℕ, suc, ◌+◌, ◌-◌, ◌≤◌, ◌<◌, ◌≡◌, refl, sym, ◌∙◌, subst, true, arith, update,
}
use elastic_translations_mic.Btree.Node.Defs.{Node, null, shift_up}
use elastic_translations_mic.Btree.Node.Deletion.{take_last, take_first, shift_down, dec}
use elastic_translations_mic.Btree.Node.Scan.{shift_up_lem}
use elastic_translations_mic.Btree.Node.Remove.{shift_down_lem, dec_lem}
use elastic_translations_mic.Btree.Node.Lookup.{IsSorted}
use elastic_translations_mic.Btree.Node.Joined.{joined, IsBetween}
use elastic_translations_mic.Btree.Node.Merge.{IsRebalanced, recut}

-- An array with its elements moved up and `v` put in front, after another array's last element.
in_front :
    (a b : ℕ → ℕ) (m n v j : ℕ)
    → 1 ≤ m
    → v ≡ a (m - 1)
    → j < suc n
    → update (shift_up b 0 n) 0 v j ≡ joined a m b (m - 1 + j)
unfolding joined
in_front a b m n v j h e l = ground (arith, shift_up_lem b 0 n j)

before_last : (a b : ℕ → ℕ) (m v j : ℕ) → j < m - 1 → update a (m - 1) v j ≡ joined a m b j
unfolding joined
before_last a b m v j l = ground arith

keys_before : (a b : ℕ → ℕ) (m j : ℕ) → j < m → a j ≡ joined a m b j
unfolding joined
keys_before a b m j l = ground arith

at_back : (a b : ℕ → ℕ) (m j : ℕ) → j < suc m → update a m (b 0) j ≡ joined a m b j
unfolding joined
at_back a b m j l = ground arith

without_first : (a b : ℕ → ℕ) (m n j : ℕ) → j < n → shift_down b 0 n j ≡ joined a m b (suc m + j)
unfolding joined
without_first a b m n j l = ground (arith, shift_down_lem b 0 n j)

joined_second : (a b : ℕ → ℕ) (m : ℕ) → b 1 ≡ joined a m b (suc m)
unfolding joined
joined_second a b m = ground arith

module _ (left right : Node) (bound k_prime : ℕ) (between : IsBetween left right bound)
    (left_rises : IsSorted left.keys left.num_keys)
    (right_rises : IsSorted right.keys right.num_keys) where
  abbrev moved_last : Node × (Node × ℕ)
  moved_last = (
    record right {
      keys = update (shift_up right.keys 0 right.num_keys) 0 (left.keys (dec left.num_keys));
      pointers =
          update (shift_up right.pointers 0 right.num_keys) 0 (left.pointers (dec left.num_keys));
      num_keys = suc right.num_keys;
    },
    (
      record left {
        pointers = update left.pointers (dec left.num_keys) null;
        num_keys = dec left.num_keys;
      },
      left.keys (dec left.num_keys),
    ),
  )

  abbrev moved_first : Node × (Node × ℕ)
  moved_first = (
    record left {
      keys = update left.keys left.num_keys (right.keys 0);
      pointers = update left.pointers left.num_keys (right.pointers 0);
      num_keys = suc left.num_keys;
    },
    (
      record right {
        keys = shift_down right.keys 0 (dec right.num_keys);
        pointers = shift_down right.pointers 0 (dec right.num_keys);
        num_keys = dec right.num_keys;
      },
      right.keys 1,
    ),
  )

  moved_last_lem :
      1 ≤ left.num_keys → IsRebalanced left right bound moved_last.1.0 moved_last.0 moved_last.1.1
  moved_last_lem h =
      recut left right bound between left_rises right_rises moved_last.1.0 moved_last.0
        moved_last.1.1 (left.num_keys - 1) (omega (arith, h)) d (omega (arith, h))
        (λ j l. (
          keys_before left.keys right.keys left.num_keys j (omega arith),
          subst
              (λ i.
                update left.pointers i null j ≡ joined left.pointers left.num_keys right.pointers j)
              (sym d) (before_last left.pointers right.pointers left.num_keys null j l),
        ))
        (λ j l. (
          in_front left.keys right.keys left.num_keys right.num_keys _ j h (ap_at left.keys)
              (omega arith),
          in_front left.pointers right.pointers left.num_keys right.num_keys _ j h
              (ap_at left.pointers) (omega arith),
        ))
        (ap_at left.keys
          ∙ keys_before left.keys right.keys left.num_keys (left.num_keys - 1) (omega arith))
    where
      d : dec left.num_keys ≡ left.num_keys - 1
      d = dec_lem left.num_keys 0 (omega arith)

      ap_at : (a : ℕ → ℕ) → a (dec left.num_keys) ≡ a (left.num_keys - 1)
      ap_at a = rw d refl

  moved_first_lem :
      2 ≤ right.num_keys
      → IsRebalanced left right bound moved_first.0 moved_first.1.0 moved_first.1.1
  moved_first_lem h =
      recut left right bound between left_rises right_rises moved_first.0 moved_first.1.0
        moved_first.1.1 (suc left.num_keys) (omega (arith, h)) refl (omega (arith, d))
        (λ j l. (
          at_back left.keys right.keys left.num_keys j l,
          at_back left.pointers right.pointers left.num_keys j l,
        ))
        (λ j l. (
          without_first left.keys right.keys left.num_keys (dec right.num_keys) j
              (omega (arith, d)),
          without_first left.pointers right.pointers left.num_keys (dec right.num_keys) j
              (omega (arith, d)),
        ))
        (joined_second left.keys right.keys left.num_keys)
    where
      d : dec right.num_keys ≡ right.num_keys - 1
      d = dec_lem right.num_keys 0 (omega arith)

  take_last_leaf : right.is_leaf ≡ true → take_last right left k_prime ≡ moved_last
  unfolding take_last
  take_last_leaf e = rw e refl

  take_first_leaf : left.is_leaf ≡ true → take_first left right k_prime ≡ moved_first
  unfolding take_first
  take_first_leaf e = rw e refl

  -- Moving the last pair of a leaf that has one into its right neighbor: one key fewer on the left
  -- and one more on the right, and with the new key for the parent the two leaves are in order and a
  -- search finds what it found before.
  pub take_last-IsRebalanced :
      right.is_leaf ≡ true
      → 1 ≤ left.num_keys
      → (suc (take_last right left k_prime).1.0.num_keys ≡ left.num_keys)
        × ((take_last right left k_prime).0.num_keys ≡ suc right.num_keys)
        × IsRebalanced left right bound
            (take_last right left k_prime).1.0
            (take_last right left k_prime).0
            (take_last right left k_prime).1.1
  take_last-IsRebalanced e h =
      subst
        (λ t.
          (suc t.1.0.num_keys ≡ left.num_keys)
          × (t.0.num_keys ≡ suc right.num_keys)
          × IsRebalanced left right bound t.1.0 t.0 t.1.1)
        (sym (take_last_leaf e)) (omega (arith, dec_lem left.num_keys 0), refl, moved_last_lem h)

  -- Moving the first pair of a leaf that has two into its left neighbor: one key more on the left
  -- and one fewer on the right, and with the new key for the parent the two leaves are in order and
  -- a search finds what it found before.
  pub take_first-IsRebalanced :
      left.is_leaf ≡ true
      → 2 ≤ right.num_keys
      → ((take_first left right k_prime).0.num_keys ≡ suc left.num_keys)
        × (suc (take_first left right k_prime).1.0.num_keys ≡ right.num_keys)
        × IsRebalanced left right bound
            (take_first left right k_prime).0
            (take_first left right k_prime).1.0
            (take_first left right k_prime).1.1
  take_first-IsRebalanced e h =
      subst
        (λ t.
          (t.0.num_keys ≡ suc left.num_keys)
          × (suc t.1.0.num_keys ≡ right.num_keys)
          × IsRebalanced left right bound t.0 t.1.0 t.1.1)
        (sym (take_first_leaf e)) (refl, omega (arith, dec_lem right.num_keys 0), moved_first_lem h)
