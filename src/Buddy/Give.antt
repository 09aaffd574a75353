-- ===== src/Buddy/Give.antt =====
-- free_pages of kernel/mem.c: a block that its owner gives back is free again.
use mathlib.Core.Path.{subst}
use native.Mathlib.Nat.{one-le-pow}
use aurora_os.Prelude.{
  ℕ, suc, ◌+◌, ◌^◌, ◌≤◌, ◌≡◌, ◌≢◌, refl, sym, ◌∙◌, true, false, ◌∷◌, ◌==◌, ltb, leb, Bool-cases,
  inl, inr, arith, ==_refl, ==→eq,
}
use aurora_os.Buddy.{
  Buddy, max_order, pfn_to_phys, phys_to_pfn, phys_mem_base, give_back, free_pages, refuses,
  buddy_merge,
}
use aurora_os.Buddy.Cover.{free_cover, free_cover-set_at, cover, inside, listed, inside_self}
use aurora_os.Buddy.Valid.{Held, IsValid, Ready, listed_add, listed_added, set_at_other}
use aurora_os.Buddy.Coalesce.{buddy_merge-Rearranged}

-- The block at `p` is free again, and no page of another block that is in use is written.
pub record Given (s : Buddy) (order p : ℕ) (s' : Buddy) : Type 0 where
  pub valid : IsValid s'
  pub covers :
      (q : ℕ)
      → free_cover (suc max_order) s'.free_area q
        ≡ free_cover (suc max_order) s.free_area q + inside order p q
  pub total : s'.total_phys_pages ≡ s.total_phys_pages
  pub kept :
      (q : ℕ)
      → free_cover (suc max_order) s.free_area q + inside order p q ≡ 0
      → s'.page_array q ≡ s.page_array q

module _ (s : Buddy) (order p : ℕ) (valid : IsValid s) (held : Held s p order) where
  abbrev given : Buddy
  given = give_back order p s

  given-linked :
      (r : ℕ)
      → (given.page_array r).is_free ≡ true
      → (listed r (given.free_area (given.page_array r).order) ≡ true)
        × ((given.page_array r).order ≤ max_order)
  given-linked r h = elim (Bool-cases (r == p)) [
    | inl e ↦
        let same : r ≡ p = ==→eq r p e in
        rw e (rw same (rw (==_refl order) (rw (==_refl p) refl)), held.low)
    | inr e ↦
        let old = valid.linked r (rw e at h) in
        rw e (listed_add s.free_area order p (s.page_array r).order r old.0, old.1)
  ]

  given-Ready : (r : ℕ) → (r ≢ p → Ready r (s.page_array r)) → Ready r (given.page_array r)
  given-Ready r h = elim (Bool-cases (r == p)) [
    | inl e ↦ let same : r ≡ p = ==→eq r p e in rw e (rw same held.ready)
    | inr e ↦ let other : r ≢ p = ground arith in rw e (h other)
  ]

  given-placed :
      (i r : ℕ)
      → listed r (given.free_area i) ≡ true
      → (r + 2 ^ i ≤ s.total_phys_pages) × Ready r (given.page_array r)
  given-placed i r h = elim (listed_added s.free_area order p i r h) [
    | inl (e, f) ↦ (rw (e, f) held.within, given-Ready r (λ n. absurd (n e)))
    | inr older ↦ let old = valid.placed i r older in (old.0, given-Ready r (λ n. old.1))
  ]

  given-Given : Given s order p given
  unfolding cover
  given-Given = record {
    valid = record { linked = given-linked; placed = given-placed };
    covers = λ q. omega (
      arith,
      held.low,
      free_cover-set_at (suc max_order) order s.free_area (p ∷ s.free_area order) q
          (omega (arith, held.low)),
    );
    total = refl;
    kept = λ q bare. set_at_other s.page_array p _ q (apart q bare);
  }
    where
      apart : (q : ℕ) → free_cover (suc max_order) s.free_area q + inside order p q ≡ 0 → q ≢ p
      apart q bare same =
          let alone : inside order q q ≡ 1 = inside_self order q in
          let none_here : inside order q q ≡ 0 =
            subst (λ r. inside order r q ≡ 0) (sym same) (omega (arith, bare)) in
          omega (arith, alone)

accepted :
    (s : Buddy) (order p : ℕ)
    → Held s p order
    → free_pages s (pfn_to_phys p) order ≡ (buddy_merge max_order (give_back order p s) p).0
unfolding free_pages
accepted s order p held = rw (not_null, small, from_base, frame, in_range, no_refusal) refl
  where
    not_null : (pfn_to_phys p == 0) ≡ false
    not_null = ground arith

    small : ltb max_order order ≡ false
    small = ground (arith, held.low)

    from_base : ltb (pfn_to_phys p) phys_mem_base ≡ false
    from_base = ground arith

    frame : phys_to_pfn (pfn_to_phys p) ≡ p
    frame = omega arith

    positive : 1 ≤ 2 ^ order
    positive = one-le-pow order 2 (omega arith)

    in_range : leb s.total_phys_pages p ≡ false
    in_range = ground (arith, positive, held.within)

    fitting : (a b : ℕ) → a ≡ b → ltb a b ≡ false
    fitting a b e = ground arith

    no_refusal : refuses (s.page_array p) order ≡ false
    no_refusal =
        rw (held.ready.1, held.not_free, fitting (s.page_array p).order order held.same_order) refl

-- free_pages takes back a block from its owner.
pub free_pages-Given :
    (s : Buddy) (order p : ℕ)
    → IsValid s
    → Held s p order
    → Given s order p (free_pages s (pfn_to_phys p) order)
free_pages-Given s order p valid held =
    let gave = given-Given s order p valid held in
    let merged =
      buddy_merge-Rearranged max_order (give_back order p s) p gave.valid (rw (==_refl p) refl) in
    subst (Given s order p) (sym (accepted s order p held)) (record {
      valid = merged.valid;
      covers = λ q. merged.covers q ∙ gave.covers q;
      total = merged.total;
      kept = λ q bare. merged.kept q (gave.covers q ∙ bare) ∙ gave.kept q bare;
    })
