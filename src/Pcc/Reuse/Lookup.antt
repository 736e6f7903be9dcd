-- ===== src/Pcc/Reuse/Lookup.antt =====
-- The TLB hierarchy of src/pcc/huge_page_reuse.h: an access to its three TLBs.
use elastic_translations_mic.Prelude.{
  ℕ, ◌/◌, ◌≡◌, refl, true, false, ◌||◌, Bool, Bool-cases, inl, inr, Option, some, arith,
  if◌then◌else◌,
}
use elastic_translations_mic.Pcc.Doubles.{Doubles}
use elastic_translations_mic.Pcc.Cache.Defs.{FunctionalCache, huge_page_size}
use elastic_translations_mic.Pcc.Cache.Ready.{held, access-IsReady}
use elastic_translations_mic.Pcc.Reuse.State.{Slot, Tracker, is_promoted}
use elastic_translations_mic.Pcc.Reuse.Defs.{fill_l1_4k, fill_l1_2m, walk, look_up_l2, look_up_tlbs}
use elastic_translations_mic.Pcc.Reuse.Steps.{IsTlbs, with_tlbs, fill-IsReady}

hit_left : (x y : Bool) → x ≡ true → (x || y) ≡ true
hit_left x y e = ground arith

hit_right : (x y : Bool) → y ≡ true → (x || y) ≡ true
hit_right x y e = ground arith

module _ (d : Doubles) (log2 : ℕ → ℕ) where
  -- A hit in the first level.
  abbrev pub l1_hit : FunctionalCache → FunctionalCache → ℕ → Bool
  l1_hit c c' vaddr = held log2 c false vaddr || held log2 c' false vaddr

  -- A run that changes TLBs only, and leaves an address that the first level hits.
  abbrev pub Fills : Tracker d → ℕ → Option (Tracker d) → Type 0
  Fills t vaddr r =
      (c1 : FunctionalCache) × (s1 : Slot) × (c2 : FunctionalCache) × (s2 : Slot)
      × (c3 : FunctionalCache) × (s3 : Slot) × (r ≡ some (with_tlbs d log2 t c1 s1 c2 s2 c3 s3))
      × IsTlbs d log2 (with_tlbs d log2 t c1 s1 c2 s2 c3 s3)
      × (l1_hit c1 c2 vaddr ≡ true)

  -- The same with a Boolean.
  abbrev pub LooksUp : Tracker d → ℕ → Option (Tracker d × Bool) → Type 0
  LooksUp t vaddr r =
      (c1 : FunctionalCache) × (s1 : Slot) × (c2 : FunctionalCache) × (s2 : Slot)
      × (c3 : FunctionalCache) × (s3 : Slot) × (missed : Bool) × (r
          ≡ some (with_tlbs d log2 t c1 s1 c2 s2 c3 s3, missed))
      × IsTlbs d log2 (with_tlbs d log2 t c1 s1 c2 s2 c3 s3)
      × (l1_hit c1 c2 vaddr ≡ true)

  fill_l1_4k-Fills :
      (t : Tracker d) (vaddr : ℕ) → IsTlbs d log2 t → Fills t vaddr (fill_l1_4k d log2 t vaddr)
  unfolding fill_l1_4k
  fill_l1_4k-Fills t vaddr w =
      let (c, s, run, r, h) = fill-IsReady d log2 t.l1_tlb_4k t.l1_4k vaddr false w.l1_4k_ready in
      (
        c,
        s,
        t.l1_tlb_2m,
        t.l1_2m,
        t.l2_tlb,
        t.l2,
        rw run refl,
        record { l1_4k_ready = r; l1_2m_ready = w.l1_2m_ready; l2_ready = w.l2_ready },
        hit_left _ _ h,
      )

  fill_l1_2m-Fills :
      (t : Tracker d) (vaddr : ℕ) → IsTlbs d log2 t → Fills t vaddr (fill_l1_2m d log2 t vaddr)
  unfolding fill_l1_2m
  fill_l1_2m-Fills t vaddr w =
      let (c, s, run, r, h) = fill-IsReady d log2 t.l1_tlb_2m t.l1_2m vaddr false w.l1_2m_ready in
      (
        t.l1_tlb_4k,
        t.l1_4k,
        c,
        s,
        t.l2_tlb,
        t.l2,
        rw run refl,
        record { l1_4k_ready = w.l1_4k_ready; l1_2m_ready = r; l2_ready = w.l2_ready },
        hit_right _ _ h,
      )

  fill_either-Fills :
      (t : Tracker d) (vaddr : ℕ) (b : Bool)
      → IsTlbs d log2 t
      → Fills t vaddr (if b then fill_l1_2m d log2 t vaddr else fill_l1_4k d log2 t vaddr)
  fill_either-Fills t vaddr true w = fill_l1_2m-Fills t vaddr w
  fill_either-Fills t vaddr false w = fill_l1_4k-Fills t vaddr w

  walk-Fills : (t : Tracker d) (vaddr : ℕ) → IsTlbs d log2 t → Fills t vaddr (walk d log2 t vaddr)
  unfolding walk
  walk-Fills t vaddr w =
      let is_2m = is_promoted d t (vaddr / huge_page_size) in
      let (c, s, run, r, h) = fill-IsReady d log2 t.l2_tlb t.l2 vaddr is_2m w.l2_ready in
      let (c1, s1, c2, s2, c3, s3, run', w', h') =
        fill_either-Fills (record t { l2_tlb = c; l2 = s }) vaddr is_2m
          (record { l1_4k_ready = w.l1_4k_ready; l1_2m_ready = w.l1_2m_ready; l2_ready = r }) in
      let (k1, u1, k2, u2, k3, u3, run'', w'', h'') =
        fill_l1_4k-Fills (with_tlbs d log2 t c1 s1 c2 s2 c3 s3) vaddr w' in
      (k1, u1, k2, u2, k3, u3, rw (run, run') run'', w'', h'')

  look_up_l2-LooksUp :
      (t : Tracker d) (vaddr : ℕ) → IsTlbs d log2 t → LooksUp t vaddr (look_up_l2 d log2 t vaddr)
  unfolding look_up_l2
  look_up_l2-LooksUp t vaddr w =
      let (c, run, r, same) = access-IsReady log2 w.l2_ready false vaddr true in
      let w1 : IsTlbs d log2 (record t { l2_tlb = c }) = record {
        l1_4k_ready = w.l1_4k_ready;
        l1_2m_ready = w.l1_2m_ready;
        l2_ready = r;
      } in
      let (c', run', r', same') = access-IsReady log2 r true vaddr true in
      let w2 : IsTlbs d log2 (record t { l2_tlb = c' }) = record {
        l1_4k_ready = w.l1_4k_ready;
        l1_2m_ready = w.l1_2m_ready;
        l2_ready = r';
      } in
      elim (Bool-cases (held log2 t.l2_tlb false vaddr)) [
        | inl h ↦
            let (c1, s1, c2, s2, c3, s3, fills, w3, hit) =
              fill_l1_4k-Fills (record t { l2_tlb = c }) vaddr w1 in
            (c1, s1, c2, s2, c3, s3, false, rw (run, h, fills) refl, w3, hit)
        | inr h ↦ elim (Bool-cases (held log2 c true vaddr)) [
          | inl k ↦
              let (c1, s1, c2, s2, c3, s3, fills, w3, hit) =
                fill_l1_2m-Fills (record t { l2_tlb = c' }) vaddr w2 in
              (c1, s1, c2, s2, c3, s3, false, rw (run, h, run', k, fills) refl, w3, hit)
          | inr k ↦
              let (c1, s1, c2, s2, c3, s3, fills, w3, hit) =
                walk-Fills (record t { l2_tlb = c' }) vaddr w2 in
              (c1, s1, c2, s2, c3, s3, true, rw (run, h, run', k, fills) refl, w3, hit)
        ]
      ]

  -- The TLB hierarchy never faults, and the first level hits the address afterwards.
  pub look_up_tlbs-LooksUp :
      (t : Tracker d) (vaddr : ℕ) → IsTlbs d log2 t → LooksUp t vaddr (look_up_tlbs d log2 t vaddr)
  unfolding look_up_tlbs
  look_up_tlbs-LooksUp t vaddr w =
      let (c, run, r, same) = access-IsReady log2 w.l1_4k_ready false vaddr true in
      let (c', run', r', same') = access-IsReady log2 w.l1_2m_ready false vaddr true in
      let t' : Tracker d = record t { l1_tlb_4k = c; l1_tlb_2m = c' } in
      let w' : IsTlbs d log2 t' = record {
        l1_4k_ready = r;
        l1_2m_ready = r';
        l2_ready = w.l2_ready;
      } in
      elim (Bool-cases (l1_hit t.l1_tlb_4k t.l1_tlb_2m vaddr)) [
        | inl h ↦ (
          c,
          t.l1_4k,
          c',
          t.l1_2m,
          t.l2_tlb,
          t.l2,
          false,
          rw (run, run', h) refl,
          record { l1_4k_ready = r; l1_2m_ready = r'; l2_ready = w.l2_ready },
          rw (same false vaddr, same' false vaddr) h,
        )
        | inr h ↦
            let (c1, s1, c2, s2, c3, s3, missed, rest, w3, hit) = look_up_l2-LooksUp t' vaddr w' in
            (c1, s1, c2, s2, c3, s3, missed, rw (run, run', h) rest, w3, hit)
      ]
