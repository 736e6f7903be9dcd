-- ===== src/Pcc/CacheSet/Order.antt =====
-- The list laws of the two orders: what `order` holds, and how long it is.
use elastic_translations_mic.Prelude.{
  ℕ, suc, ◌≡◌, refl, ◌||◌, false, List, [], ◌∷◌, arith, ◌==◌, mem, IsDistinct, length,
}
use elastic_translations_mic.Pcc.CacheSet.Insertion.{lfu_insert}
use elastic_translations_mic.Pcc.CacheSet.Relink.{order}

module _ (f : ℕ → ℕ) (c : ℕ) where
  mem-lfu_insert : (a : ℕ) (xs : List ℕ) → mem a (lfu_insert f c xs) ≡ ((a == c) || mem a xs)
  unfolding lfu_insert
  mem-lfu_insert a [] = refl
  mem-lfu_insert a (x ∷ xs) = ground (arith, mem-lfu_insert a xs)

  length-lfu_insert : (xs : List ℕ) → length (lfu_insert f c xs) ≡ suc (length xs)
  unfolding lfu_insert
  length-lfu_insert [] = refl
  length-lfu_insert (x ∷ xs) = ground (arith, length-lfu_insert xs)

  lfu_insert-IsDistinct :
      (xs : List ℕ) → mem c xs ≡ false → IsDistinct xs → IsDistinct (lfu_insert f c xs)
  unfolding lfu_insert
  lfu_insert-IsDistinct [] h d = ground arith
  lfu_insert-IsDistinct (x ∷ xs) h d = ground (arith, lfu_insert-IsDistinct xs, mem-lfu_insert x xs)

  module _ (policy : ℕ) where
    pub mem-order : (a : ℕ) (xs : List ℕ) → mem a (order policy f c xs) ≡ ((a == c) || mem a xs)
    unfolding order
    mem-order a xs = ground (arith, mem-lfu_insert a xs)

    pub length-order : (xs : List ℕ) → length (order policy f c xs) ≡ suc (length xs)
    unfolding order
    length-order xs = ground (arith, length-lfu_insert xs)

    pub order-IsDistinct :
        (xs : List ℕ) → mem c xs ≡ false → IsDistinct xs → IsDistinct (order policy f c xs)
    unfolding order
    order-IsDistinct xs h d = ground (arith, lfu_insert-IsDistinct xs)
