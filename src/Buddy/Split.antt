-- ===== src/Buddy/Split.antt =====
-- buddy_split of kernel/mem.c rearranges the free blocks.
use native.Mathlib.Nat.{pow-suc, one-le-pow}
use aurora_os.Prelude.{
  ℕ, suc, ◌+◌, ◌^◌, ◌≤◌, ◌≡◌, ◌≢◌, refl, sym, ap, ◌∙◌, true, false, List, ◌∷◌, ◌==◌, Bool-cases,
  inl, inr, ◌⊎◌, arith, ==_refl, ==→eq, leb, ltb, some,
}
use aurora_os.Buddy.{
  Buddy, set_at, unlink, max_order, pfn_to_phys, halve, list_del, split_first, buddy_split,
}
use aurora_os.Buddy.Cover.{
  free_cover, free_cover-set_at, cover, inside, listed, cover-unlink, cover-free_cover, halves,
}
use aurora_os.Buddy.Valid.{
  IsValid, Ready, Rearranged, listed_add, listed_added, listed_del, listed_deleted,
}

module _ (s : Buddy) (order p : ℕ) (valid : IsValid s) where
  abbrev right : ℕ
  right = p + 2 ^ order

  abbrev deleted : ℕ → List ℕ
  deleted = set_at s.free_area (suc order) (unlink p (s.free_area (suc order)))

  abbrev with_left : ℕ → List ℕ
  with_left = set_at deleted order (p ∷ deleted order)

  abbrev after : Buddy
  after = halve order p right (list_del (suc order) p s)

  still_listed :
      (i r : ℕ) → r ≢ p → listed r (s.free_area i) ≡ true → listed r (after.free_area i) ≡ true
  still_listed i r n h =
      listed_add with_left order right i r
        (listed_add deleted order p i r (listed_del s.free_area (suc order) p i r n h))

  right-listed : listed right (after.free_area order) ≡ true
  right-listed = rw (==_refl order) (rw (==_refl right) refl)

  left_listed : listed p (after.free_area order) ≡ true
  left_listed = listed_add with_left order right order p (rw (==_refl order) (rw (==_refl p) refl))

  halve-linked :
      (r : ℕ)
      → order ≤ max_order
      → (after.page_array r).is_free ≡ true
      → (listed r (after.free_area (after.page_array r).order) ≡ true)
        × ((after.page_array r).order ≤ max_order)
  halve-linked r small h = elim (Bool-cases (r == right)) [
    | inl e ↦ let same : r ≡ right = ==→eq r right e in rw e (rw same right-listed, small)
    | inr not_right ↦ elim (Bool-cases (r == p)) [
      | inl e ↦ let same : r ≡ p = ==→eq r p e in rw (not_right, e) (rw same left_listed, small)
      | inr not_left ↦
          let other : r ≢ p = ground arith in
          let old = valid.linked r (rw (not_right, not_left) at h) in
          rw (not_right, not_left) (still_listed (s.page_array r).order r other old.0, old.1)
    ]
  ]

  halve-placed :
      (i r : ℕ)
      → right + 2 ^ order ≤ s.total_phys_pages
      → listed r (after.free_area i) ≡ true
      → (r + 2 ^ i ≤ s.total_phys_pages) × Ready r (after.page_array r)
  halve-placed i r fits h = (end, address)
    where
      old_place : (listed r (s.free_area i) ≡ true) ⊎ (((r ≡ p) ⊎ (r ≡ right)) × (i ≡ order))
      old_place = elim (listed_added with_left order right i r h) [
        | inl (at_right, same) ↦ inr (inr at_right, same)
        | inr rest ↦ elim (listed_added deleted order p i r rest) [
          | inl (at_left, same) ↦ inr (inl at_left, same)
          | inr older ↦ inl (listed_deleted s.free_area (suc order) p i r older)
        ]
      ]

      end : r + 2 ^ i ≤ s.total_phys_pages
      end = elim old_place [
        | inl older ↦ (valid.placed i r older).0
        | inr (inl at_left, same) ↦ rw (at_left, same) (omega arith)
        | inr (inr at_right, same) ↦ rw (at_right, same) fits
      ]

      address : Ready r (after.page_array r)
      address = elim (Bool-cases (r == right)) [
        | inl e ↦ let same : r ≡ right = ==→eq r right e in rw e (ap pfn_to_phys (sym same), refl)
        | inr not_right ↦ elim (Bool-cases (r == p)) [
          | inl e ↦
              let same : r ≡ p = ==→eq r p e in rw (not_right, e) (ap pfn_to_phys (sym same), refl)
          | inr not_left ↦
              rw (not_right, not_left)
                (elim old_place [
                  | inl older ↦ (valid.placed i r older).1
                  | inr (inl at_left, same) ↦ ground arith
                  | inr (inr at_right, same) ↦ ground arith
                ])
        ]
      ]

  halve-cover :
      (q : ℕ)
      → suc order ≤ max_order
      → listed p (s.free_area (suc order)) ≡ true
      → free_cover (suc max_order) after.free_area q ≡ free_cover (suc max_order) s.free_area q
  unfolding cover
  halve-cover q small here = omega (
    arith,
    free_cover-set_at (suc max_order) (suc order) s.free_area (unlink p (s.free_area (suc order))) q
        (omega arith),
    cover-unlink (suc order) p (s.free_area (suc order)) q here,
    free_cover-set_at (suc max_order) order deleted (p ∷ deleted order) q (omega arith),
    free_cover-set_at (suc max_order) order with_left (right ∷ with_left order) q (omega arith),
    halves order p q,
  )

  halve-kept :
      (q : ℕ)
      → suc order ≤ max_order
      → listed p (s.free_area (suc order)) ≡ true
      → free_cover (suc max_order) s.free_area q ≡ 0
      → after.page_array q ≡ s.page_array q
  halve-kept q small here bare = rw (not_right, not_left) refl
    where
      outside : inside (suc order) p q ≡ 0
      outside = omega (
        arith,
        cover-unlink (suc order) p (s.free_area (suc order)) q here,
        cover-free_cover (suc max_order) (suc order) s.free_area q (omega arith),
      )

      positive : 1 ≤ 2 ^ order
      positive = one-le-pow order 2 (omega arith)

      not_left : (q == p) ≡ false
      not_left = ground (arith, outside, positive, pow-suc 2 order)

      not_right : (q == right) ≡ false
      not_right = ground (arith, outside, positive, pow-suc 2 order)

  halve-Rearranged :
      suc order ≤ max_order → listed p (s.free_area (suc order)) ≡ true → Rearranged s after
  halve-Rearranged small here = record {
    valid = record {
      linked = λ r h. halve-linked r (omega arith) h;
      placed = λ i r h. halve-placed i r fits h;
    };
    covers = λ q. halve-cover q small here;
    total = refl;
    kept = λ q h. halve-kept q small here h;
  }
    where
      fits : right + 2 ^ order ≤ s.total_phys_pages
      fits = omega (arith, (valid.placed (suc order) p here).0, pow-suc 2 order)

pub listed_first : (p : ℕ) (xs rest : List ℕ) → xs ≡ p ∷ rest → listed p xs ≡ true
listed_first p xs rest e = rw e (rw (==_refl p) refl)

-- With a block to split, buddy_split gives its halves.
pub buddy_split-halve :
    (s : Buddy) (order p : ℕ) (rest : List ℕ)
    → IsValid s
    → suc order ≤ max_order
    → s.free_area (suc order) ≡ p ∷ rest
    → (buddy_split s (suc order)
        ≡ (halve order p (p + 2 ^ order) (list_del (suc order) p s), some p))
      × Rearranged s (halve order p (p + 2 ^ order) (list_del (suc order) p s))
unfolding buddy_split
buddy_split-halve s order p rest valid small first = (
  rw not_large (ap (split_first s order) first ∙ rw fits refl),
  halve-Rearranged s order p valid small here,
)
  where
    here : listed p (s.free_area (suc order)) ≡ true
    here = listed_first p (s.free_area (suc order)) rest first

    not_large : ltb max_order (suc order) ≡ false
    not_large = ground arith

    positive : 1 ≤ 2 ^ order
    positive = one-le-pow order 2 (omega arith)

    end : p + 2 ^ suc order ≤ s.total_phys_pages
    end = (valid.placed (suc order) p here).0

    fits : leb s.total_phys_pages (p + 2 ^ order) ≡ false
    fits = ground (arith, positive, end, pow-suc 2 order)
