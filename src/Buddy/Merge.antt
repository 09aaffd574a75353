-- ===== src/Buddy/Merge.antt =====
-- buddy_merge of kernel/mem.c rearranges the free blocks.
use mathlib.Core.Path.{subst}
use native.Mathlib.Nat.{pow-suc, one-le-pow}
use aurora_os.Prelude.{
  ℕ, suc, ◌+◌, ◌^◌, ◌≤◌, ◌≡◌, ◌≢◌, refl, sym, ap, ◌∙◌, true, false, List, ◌∷◌, ◌==◌, Bool-cases,
  inl, inr, ◌⊎◌, arith, ==_refl, ==→eq,
}
use aurora_os.Buddy.{Buddy, set_at, unlink, max_order, pfn_to_phys, list_del, join}
use aurora_os.Buddy.Cover.{
  free_cover, free_cover-set_at, cover, inside, listed, cover-unlink, cover-listed,
  cover-free_cover, halves,
}
use aurora_os.Buddy.Valid.{
  IsValid, Ready, Rearranged, listed_add, listed_added, listed_del, listed_deleted, set_at_here,
}

-- The two blocks of `order` that are joined, in the order in which they leave the list, and in the order
-- of their addresses.
pub record Pair (s : Buddy) (order p buddy base other : ℕ) : Type 0 where
  pub low : suc order ≤ max_order
  pub p_listed : listed p (s.free_area order) ≡ true
  pub buddy_listed : listed buddy (s.free_area order) ≡ true
  pub apart : buddy ≢ p
  pub sides : ((base ≡ p) × (other ≡ buddy)) ⊎ ((base ≡ buddy) × (other ≡ p))
  pub next_to : other ≡ base + 2 ^ order

module _ (s : Buddy) (order p buddy base other : ℕ) (valid : IsValid s)
    (pair : Pair s order p buddy base other) where
  abbrev pub joined : Buddy
  joined = join order base other (list_del order buddy (list_del order p s))

  abbrev without_p : ℕ → List ℕ
  without_p = set_at s.free_area order (unlink p (s.free_area order))

  abbrev without_both : ℕ → List ℕ
  without_both = set_at without_p order (unlink buddy (without_p order))

  base_listed : listed base (s.free_area order) ≡ true
  base_listed = elim pair.sides [
    | inl (e, _) ↦ rw e pair.p_listed
    | inr (e, _) ↦ rw e pair.buddy_listed
  ]

  other_listed : listed other (s.free_area order) ≡ true
  other_listed = elim pair.sides [
    | inl (_, e) ↦ rw e pair.buddy_listed
    | inr (_, e) ↦ rw e pair.p_listed
  ]

  positive : 1 ≤ 2 ^ order
  positive = one-le-pow order 2 (omega arith)

  distinct : (other == base) ≡ false
  distinct = ground (arith, positive, pair.next_to)

  still_listed :
      (i r : ℕ)
      → r ≢ base
      → r ≢ other
      → listed r (s.free_area i) ≡ true
      → listed r (joined.free_area i) ≡ true
  still_listed i r not_base not_other h =
      listed_add without_both (suc order) base i r (
        listed_del without_p order buddy i r not_buddy (listed_del s.free_area order p i r not_p h))
    where
      not_p : r ≢ p
      not_p e = elim pair.sides [
        | inl (f, _) ↦ not_base (e ∙ sym f)
        | inr (_, f) ↦ not_other (e ∙ sym f)
      ]

      not_buddy : r ≢ buddy
      not_buddy e = elim pair.sides [
        | inl (_, f) ↦ not_other (e ∙ sym f)
        | inr (f, _) ↦ not_base (e ∙ sym f)
      ]

  base_added : listed base (joined.free_area (suc order)) ≡ true
  base_added =
      let here = set_at_here without_both (suc order) (base ∷ without_both (suc order)) in
      subst (λ xs. listed base xs ≡ true) (sym here) (rw (==_refl base) refl)

  join-linked :
      (r : ℕ)
      → (joined.page_array r).is_free ≡ true
      → (listed r (joined.free_area (joined.page_array r).order) ≡ true)
        × ((joined.page_array r).order ≤ max_order)
  join-linked r h = elim (Bool-cases (r == other)) [
    | inl e ↦ let no : false ≡ true = rw e at h in absurd (cc)
    | inr not_other ↦ elim (Bool-cases (r == base)) [
      | inl e ↦
          let same : r ≡ base = ==→eq r base e in rw (not_other, e) (rw same base_added, pair.low)
      | inr not_base ↦
          let apart_other : r ≢ other = ground arith in
          let apart_base : r ≢ base = ground arith in
          let old = valid.linked r (rw (not_other, not_base) at h) in
          rw (not_other, not_base)
            (still_listed (s.page_array r).order r apart_base apart_other old.0, old.1)
    ]
  ]

  join-Ready :
      (r : ℕ) → ((r == base) ≡ true) ⊎ Ready r (s.page_array r) → Ready r (joined.page_array r)
  join-Ready r h = elim (Bool-cases (r == other)) [
    | inl e ↦
        let same : r ≡ other = ==→eq r other e in
        rw (e, distinct) (rw same (valid.placed order other other_listed).1.0, refl)
    | inr not_other ↦ elim (Bool-cases (r == base)) [
      | inl e ↦
          let same : r ≡ base = ==→eq r base e in
          rw (not_other, e) (ap pfn_to_phys (sym same), refl)
      | inr not_base ↦ rw (not_other, not_base) (elim h [ inl e ↦ absurd (cc) | inr ready ↦ ready ])
    ]
  ]

  join-placed :
      (i r : ℕ)
      → listed r (joined.free_area i) ≡ true
      → (r + 2 ^ i ≤ s.total_phys_pages) × Ready r (joined.page_array r)
  join-placed i r h = elim (listed_added without_both (suc order) base i r h) [
    | inl (e, f) ↦
        let end = (valid.placed order other other_listed).0 in
        (
          rw (e, f) (omega (arith, end, pair.next_to, pow-suc 2 order)),
          join-Ready r (inl (rw e (==_refl base))),
        )
    | inr rest ↦
        let older = valid.placed i r (
          listed_deleted s.free_area order p i r (listed_deleted without_p order buddy i r rest)) in
        (older.0, join-Ready r (inr older.1))
  ]

  two_halves : (q : ℕ) → inside order p q + inside order buddy q ≡ inside (suc order) base q
  two_halves q = elim pair.sides [
    | inl (e, f) ↦ rw (sym e, sym f) (rw pair.next_to (halves order base q))
    | inr (e, f) ↦
        let turned = halves order base q in rw (sym e, sym f) (rw pair.next_to (omega arith))
  ]

  join-cover :
      (q : ℕ)
      → free_cover (suc max_order) joined.free_area q ≡ free_cover (suc max_order) s.free_area q
  unfolding cover
  join-cover q =
      let left = listed_del s.free_area order p order buddy pair.apart pair.buddy_listed in
      omega (
        arith,
        free_cover-set_at (suc max_order) order s.free_area (unlink p (s.free_area order)) q
            (omega (arith, pair.low)),
        cover-unlink order p (s.free_area order) q pair.p_listed,
        free_cover-set_at (suc max_order) order without_p (unlink buddy (without_p order)) q
            (omega (arith, pair.low)),
        cover-unlink order buddy (without_p order) q left,
        free_cover-set_at (suc max_order) (suc order) without_both (base ∷ without_both (suc order))
            q (omega (arith, pair.low)),
        two_halves q,
        ap (λ xs. cover order xs q) (set_at_here s.free_area order (unlink p (s.free_area order))),
      )

  join-kept :
      (q : ℕ) → free_cover (suc max_order) s.free_area q ≡ 0 → joined.page_array q ≡ s.page_array q
  join-kept q bare = rw (off other other_listed, off base base_listed) refl
    where
      off : (r : ℕ) → listed r (s.free_area order) ≡ true → (q == r) ≡ false
      off r here = elim (Bool-cases (q == r)) [
        | inl e ↦
            let same : q ≡ r = ==→eq q r e in
            let none_there : free_cover (suc max_order) s.free_area r ≡ 0 = rw (sym same) bare in
            absurd (
              omega (
                arith,
                pair.low,
                cover-listed order r (s.free_area order) here,
                cover-free_cover (suc max_order) order s.free_area r (omega (arith, pair.low)),
              ))
        | inr e ↦ e
      ]

  pub join-Rearranged : Rearranged s joined
  join-Rearranged = record {
    valid = record { linked = join-linked; placed = join-placed };
    covers = join-cover;
    total = refl;
    kept = join-kept;
  }
