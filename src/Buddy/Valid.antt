-- ===== src/Buddy/Valid.antt =====
-- What holds of the page allocator of kernel/mem.c between calls, and what rearranging its blocks keeps.
use aurora_os.Prelude.{
  ℕ, suc, ◌+◌, ◌^◌, ◌≤◌, ◌≡◌, ◌≢◌, refl, sym, ◌∙◌, true, false, List, ◌∷◌, ◌==◌, Bool-cases, inl,
  inr, ◌⊎◌, arith, ==_refl,
}
use aurora_os.Buddy.{Buddy, Page, set_at, unlink, max_order, pfn_to_phys}
use aurora_os.Buddy.Cover.{free_cover, listed, listed-unlink, listed_unlinked}

-- The page has its own address, and may be used.
abbrev pub Ready : ℕ → Page → Type 0
Ready p page = (page.phys_addr ≡ pfn_to_phys p) × (page.reserved ≡ false)

-- A page that is marked free stands in the list of its order; a listed block lies in the memory.
pub record IsValid (s : Buddy) : Type 0 where
  pub linked :
      (p : ℕ)
      → (s.page_array p).is_free ≡ true
      → (listed p (s.free_area (s.page_array p).order) ≡ true)
        × ((s.page_array p).order ≤ max_order)
  pub placed :
      (order p : ℕ)
      → listed p (s.free_area order) ≡ true
      → (p + 2 ^ order ≤ s.total_phys_pages) × Ready p (s.page_array p)

-- The page of a block that an owner has.
pub record Held (s : Buddy) (p order : ℕ) : Type 0 where
  pub low : order ≤ max_order
  pub not_free : (s.page_array p).is_free ≡ false
  pub same_order : (s.page_array p).order ≡ order
  pub ready : Ready p (s.page_array p)
  pub within : p + 2 ^ order ≤ s.total_phys_pages

-- The free frames are the same, in other blocks perhaps, and no other page is written.
pub record Rearranged (s s' : Buddy) : Type 0 where
  pub valid : IsValid s'
  pub covers :
      (q : ℕ) → free_cover (suc max_order) s'.free_area q ≡ free_cover (suc max_order) s.free_area q
  pub total : s'.total_phys_pages ≡ s.total_phys_pages
  pub kept :
      (q : ℕ) → free_cover (suc max_order) s.free_area q ≡ 0 → s'.page_array q ≡ s.page_array q

pub Rearranged-refl : (s : Buddy) → IsValid s → Rearranged s s
Rearranged-refl s valid = record {
  valid = valid;
  covers = λ q. refl;
  total = refl;
  kept = λ q h. refl;
}

pub Rearranged-trans : (s t u : Buddy) → Rearranged s t → Rearranged t u → Rearranged s u
Rearranged-trans s t u f g = record {
  valid = g.valid;
  covers = λ q. g.covers q ∙ f.covers q;
  total = g.total ∙ f.total;
  kept = λ q h. g.kept q (f.covers q ∙ h) ∙ f.kept q h;
}

pub listed_add :
    (area : ℕ → List ℕ) (order p i r : ℕ)
    → listed r (area i) ≡ true
    → listed r (set_at area order (p ∷ area order) i) ≡ true
listed_add area order p i r h = elim (Bool-cases (i == order)) [
  | inl e ↦ let same : i ≡ order = ground arith in rw (e, sym same) (ground arith)
  | inr e ↦ rw e h
]

pub listed_added :
    (area : ℕ → List ℕ) (order p i r : ℕ)
    → listed r (set_at area order (p ∷ area order) i) ≡ true
    → ((r ≡ p) × (i ≡ order)) ⊎ (listed r (area i) ≡ true)
listed_added area order p i r h = elim (Bool-cases (i == order)) [
  | inl e ↦ elim (Bool-cases (p == r)) [
    | inl same ↦ inl (ground arith, ground arith)
    | inr other ↦ let here : i ≡ order = ground arith in inr (rw here (ground arith))
  ]
  | inr e ↦ inr (ground arith)
]

pub listed_del :
    (area : ℕ → List ℕ) (order p i r : ℕ)
    → r ≢ p
    → listed r (area i) ≡ true
    → listed r (set_at area order (unlink p (area order)) i) ≡ true
listed_del area order p i r n h = elim (Bool-cases (i == order)) [
  | inl e ↦ let same : i ≡ order = ground arith in rw (e, sym same) (listed-unlink r p (area i) n h)
  | inr e ↦ rw e h
]

pub listed_deleted :
    (area : ℕ → List ℕ) (order p i r : ℕ)
    → listed r (set_at area order (unlink p (area order)) i) ≡ true
    → listed r (area i) ≡ true
listed_deleted area order p i r h = elim (Bool-cases (i == order)) [
  | inl e ↦
      let same : i ≡ order = ground arith in
      rw same (listed_unlinked r p (area order) (ground arith))
  | inr e ↦ ground arith
]

pub set_at_here {ℓ} : {A : Type ℓ} (f : ℕ → A) (i : ℕ) (v : A) → set_at f i v i ≡ v
set_at_here f i v = rw (==_refl i) refl

pub set_at_other {ℓ} :
    {A : Type ℓ} (f : ℕ → A) (i : ℕ) (v : A) (j : ℕ) → j ≢ i → set_at f i v j ≡ f j
set_at_other f i v j n = let other : (j == i) ≡ false = ground arith in rw other refl
