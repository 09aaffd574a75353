-- ===== src/Buddy/Boot/Reserve.antt =====
-- The loop of buddy_mark_reserved in kernel/mem.c, on pages of which none is free.
use mathlib.Core.Path.{subst}
use aurora_os.Prelude.{
  ℕ, zero, suc, ◌+◌, ◌≡◌, refl, ◌∙◌, true, false, ◌&&◌, ◌||◌, List, [], ltb, leb, ◌==◌, Bool-cases,
  inl, inr, arith, ==→eq,
}
use aurora_os.Buddy.{Buddy, set_at, set_page}
use aurora_os.Buddy.Cover.{free_cover, listed}
use aurora_os.Buddy.Valid.{IsValid}
use aurora_os.Buddy.Boot.{reserve_range}

-- No page is free or listed.
pub record IsBlank (s : Buddy) : Type 0 where
  pub nothing_free : (q : ℕ) → (s.page_array q).is_free ≡ false
  pub nothing_listed : (order : ℕ) → s.free_area order ≡ []

pub reserve_range-IsBlank :
    (more pfn : ℕ) (s : Buddy) → IsBlank s → IsBlank (reserve_range more pfn s)
unfolding reserve_range
reserve_range-IsBlank zero pfn s blank = blank
reserve_range-IsBlank (suc more) pfn s blank =
    let page = s.page_array pfn in
    reserve_range-IsBlank more (suc pfn) (set_page pfn (record page { reserved = true }) s)
      (record { nothing_free = still; nothing_listed = blank.nothing_listed })
  where
    still :
        (q : ℕ)
        → (set_at s.page_array pfn (record (s.page_array pfn) { reserved = true }) q).is_free
          ≡ false
    still q = elim (Bool-cases (q == pfn)) [
      | inl e ↦ rw e (blank.nothing_free pfn)
      | inr e ↦ rw e (blank.nothing_free q)
    ]

pub reserve_range-total :
    (more pfn : ℕ) (s : Buddy) → (reserve_range more pfn s).total_phys_pages ≡ s.total_phys_pages
unfolding reserve_range
reserve_range-total zero pfn s = refl
reserve_range-total (suc more) pfn s = reserve_range-total more (suc pfn) _

pub reserve_range-reserved :
    (more pfn : ℕ) (s : Buddy) (q : ℕ)
    → ((reserve_range more pfn s).page_array q).reserved
      ≡ ((leb pfn q && ltb q (pfn + more)) || (s.page_array q).reserved)
unfolding reserve_range
reserve_range-reserved zero pfn s q = ground arith
reserve_range-reserved (suc more) pfn s q =
    let page = s.page_array pfn in
    let next = set_page pfn (record page { reserved = true }) s in
    reserve_range-reserved more (suc pfn) next q ∙ elim (Bool-cases (q == pfn)) [
      | inl e ↦ let same : q ≡ pfn = ==→eq q pfn e in rw e (rw same (ground arith))
      | inr e ↦ rw e (ground arith)
    ]

pub blank_IsValid : (s : Buddy) → IsBlank s → IsValid s
blank_IsValid s blank = record {
  linked = λ p h. let no_page = blank.nothing_free p in absurd (cc);
  placed = λ order p h.
      let here : listed p [] ≡ true =
        subst (λ xs. listed p xs ≡ true) (blank.nothing_listed order) h in
      absurd (cc);
}

pub blank_cover :
    (n : ℕ) (area : ℕ → List ℕ) (q : ℕ) → ((order : ℕ) → area order ≡ []) → free_cover n area q ≡ 0
unfolding free_cover
blank_cover zero area q h = refl
blank_cover (suc n) area q h = rw (h n) (omega (arith, blank_cover n area q h))
