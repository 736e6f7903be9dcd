-- ===== src/Pcc/CacheSet/Inclusion.antt =====
-- LRU sets of src/pcc/tlb.h of two sizes over the same look-ups.
use elastic_translations_mic.Prelude.{
  ℕ, zero, suc, ◌≤◌, ◌<◌, ◌≡◌, refl, sym, ap, inl, inr, ◌||◌, ◌&&◌, not, true, false, Bool, some,
  List, [], ◌∷◌, arith, ◌==◌, ltb, if◌then◌else◌, mem, remove, length, subst, Bool-cases,
}
use elastic_translations_mic.Pcc.CacheSet.Defs.{CacheSet, new_set}
use elastic_translations_mic.Pcc.CacheSet.Tags.{drop_last, touched, hits}
use elastic_translations_mic.Pcc.CacheSet.Lookups.{look_up_all, look_up_all-new_set, tags_of}

-- The first `n` of a list.
abbrev take : ℕ → List ℕ → List ℕ
take zero xs = []
take (suc n) [] = []
take (suc n) (x ∷ xs) = x ∷ take n xs

take_all : (n : ℕ) (xs : List ℕ) → length xs ≤ n → take n xs ≡ xs
take_all zero [] l = refl
take_all zero (x ∷ xs) l = ground (arith, l)
take_all (suc n) [] l = refl
take_all (suc n) (x ∷ xs) l = ap (λ ys. x ∷ ys) (take_all n xs (omega (arith, l)))

length-take : (n : ℕ) (xs : List ℕ) → n ≤ length xs → length (take n xs) ≡ n
length-take zero xs l = refl
length-take (suc n) [] l = ground (arith, l)
length-take (suc n) (x ∷ xs) l = omega (arith, length-take n xs (omega (arith, l)))

mem-take : (a n : ℕ) (xs : List ℕ) → mem a (take n xs) ≡ true → mem a xs ≡ true
mem-take a zero xs m = ground (arith, m)
mem-take a (suc n) [] m = ground (arith, m)
mem-take a (suc n) (x ∷ xs) m = ground (arith, mem-take a n xs)

take-remove :
    (a n : ℕ) (xs : List ℕ)
    → mem a (take (suc n) xs) ≡ true
    → take n (remove a xs) ≡ remove a (take (suc n) xs)
take-remove a n [] m = ground (arith, m)
take-remove a zero (x ∷ xs) m = let e : (a == x) ≡ true = ground (arith, m) in rw e refl
take-remove a (suc n) (x ∷ xs) m = elim (Bool-cases (a == x)) [
  | inl e ↦ rw e refl
  | inr e ↦ rw e (ap (λ ys. x ∷ ys) (take-remove a n xs (ground (arith, m, e))))
]

take-remove_out :
    (a n : ℕ) (xs : List ℕ)
    → mem a (take n xs) ≡ false
    → n < length xs
    → mem a xs ≡ true
    → take n (remove a xs) ≡ take n xs
take-remove_out a zero xs m l k = refl
take-remove_out a (suc n) [] m l k = refl
take-remove_out a (suc n) (x ∷ xs) m l k =
    let e : (a == x) ≡ false = ground (arith, m) in
    rw e (
      ap (λ ys. x ∷ ys)
        (take-remove_out a n xs (ground (arith, m)) (omega (arith, l)) (ground (arith, k, e))))

drop_last-take : (n : ℕ) (xs : List ℕ) → n < length xs → drop_last (take (suc n) xs) ≡ take n xs
unfolding drop_last
drop_last-take n [] l = ground (arith, l)
drop_last-take zero (x ∷ xs) l = refl
drop_last-take (suc n) (x ∷ []) l = ground (arith, l)
drop_last-take (suc n) (x ∷ (y ∷ xs)) l =
    ap (λ ys. x ∷ ys) (drop_last-take n (y ∷ xs) (omega (arith, l)))

take-drop_last : (n : ℕ) (xs : List ℕ) → n < length xs → take n (drop_last xs) ≡ take n xs
unfolding drop_last
take-drop_last zero xs l = refl
take-drop_last (suc n) [] l = refl
take-drop_last (suc n) (x ∷ []) l = ground (arith, l)
take-drop_last (suc n) (x ∷ (y ∷ xs)) l =
    ap (λ ys. x ∷ ys) (take-drop_last n (y ∷ xs) (omega (arith, l)))

-- The reference list of a small set is the front of that of a larger one.
touched-take :
    (n m : ℕ) (xs : List ℕ) (a : ℕ)
    → 0 < n
    → n ≤ m
    → touched n (take n xs) a ≡ take n (touched m xs a)
unfolding touched
touched-take zero m xs a h l = ground (arith, h)
touched-take (suc k) m xs a h l =
    ap (λ ys. a ∷ ys)
      (elim (Bool-cases (mem a (take (suc k) xs))) [
        | inl e ↦ rw (e, mem-take a (suc k) xs e) (sym (take-remove a k xs e))
        | inr e ↦ rw e (elim (Bool-cases (ltb k (length xs))) [
          | inl long ↦
              rw
                (
                  length-take (suc k) xs (ground (arith, long)),
                  drop_last-take k xs (ground (arith, long)),
                  self k,
                )
                (rest (mem a xs) (ltb (length xs) m)
                  (λ q. take-remove_out a k xs (out k xs e) (ground (arith, long)) q)
                  (take-drop_last k xs (ground (arith, long))))
          | inr short ↦
              let whole = take_all (suc k) xs (ground (arith, short)) in
              let room : ltb (length xs) m ≡ true = ground (arith, short, l) in
              let room' : ltb (length xs) (suc k) ≡ true = ground (arith, short) in
              let out' : mem a xs ≡ false = subst (λ ys. mem a ys ≡ false) whole e in
              rw (whole, room, room', out') (sym (take_all k xs (ground (arith, short))))
        ])
      ])
  where
    self : (k : ℕ) → ltb (suc k) (suc k) ≡ false
    self k = ground arith

    out : (k : ℕ) (xs : List ℕ) → mem a (take (suc k) xs) ≡ false → mem a (take k xs) ≡ false
    out zero xs e = refl
    out (suc k) [] e = refl
    out (suc k) (x ∷ xs) e = ground (arith, out k xs)

    rest :
        (p q : Bool)
        → (p ≡ true → take k (remove a xs) ≡ take k xs)
        → take k (drop_last xs) ≡ take k xs
        → take k xs ≡ take k (if p then remove a xs else if q then xs else drop_last xs)
    rest true q f g = sym (f refl)
    rest false true f g = refl
    rest false false f g = sym g

-- Every true answer of the first list is one of the second, at the same place.
unfoldable pub implied : List Bool → List Bool → Bool
implied [] [] = true
implied (h ∷ hs) (k ∷ ks) = (not h || k) && implied hs ks
implied [] (k ∷ ks) = false
implied (h ∷ hs) [] = false

hits-implied :
    (n m : ℕ) (xs qs : List ℕ)
    → 0 < n
    → n ≤ m
    → implied (hits n (take n xs) qs) (hits m xs qs) ≡ true
unfolding hits implied
hits-implied n m xs [] h l = refl
hits-implied n m xs (a ∷ qs) h l =
    rw (touched-take n m xs a h l, hits-implied n m (touched m xs a) qs h l)
      (ground (arith, mem-take a n xs))

take_none : (n : ℕ) → take n [] ≡ []
take_none zero = refl
take_none (suc n) = refl

-- The same look-ups from two new LRU sets, the first with at least one entry and the second with at
-- least as many, run without a fault, and each that hits the first set hits the second.
pub look_up_all-implied :
    (n m : ℕ) (qs : List (ℕ × ℕ × Bool))
    → 0 < n
    → n ≤ m
    → (t u : CacheSet) × (hs ks : List Bool) × (look_up_all (new_set n 0) qs ≡ some (t, hs))
      × (look_up_all (new_set m 0) qs ≡ some (u, ks))
      × (implied hs ks ≡ true)
look_up_all-implied n m qs h l =
    let (t, run, e) = look_up_all-new_set n qs h in
    let (u, run', e') = look_up_all-new_set m qs (omega (arith, h, l)) in
    (
      t,
      u,
      hits n [] (tags_of qs),
      hits m [] (tags_of qs),
      run,
      run',
      subst (λ ts. implied (hits n ts (tags_of qs)) (hits m [] (tags_of qs)) ≡ true) (take_none n)
          (hits-implied n m [] (tags_of qs) h l),
    )
