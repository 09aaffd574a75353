-- ===== src/Buddy/Alloc.antt =====
-- alloc_pages of kernel/mem.c: a block that was free is taken, and no other.
use mathlib.Core.Path.{subst}
use native.Mathlib.Nat.{one-le-pow}
use aurora_os.Prelude.{
  ℕ, zero, suc, ◌+◌, ◌-◌, ◌^◌, ◌≤◌, ◌≡◌, ◌≢◌, refl, sym, ap, ◌∙◌, Bool, true, false, List, [], ◌∷◌,
  ◌==◌, Bool-cases, inl, inr, arith, ==_refl, ==→eq, leb, ltb, Option, none, some,
}
use aurora_os.Buddy.{
  Buddy, set_at, unlink, max_order, pfn_to_phys, halve, list_del, split_down, find_order,
  alloc_pages, take_first, kernel_phys_max, buddy_max_pages, add_used, mark,
}
use aurora_os.Buddy.Cover.{
  free_cover, free_cover-set_at, inside, listed, cover-unlink, cover-listed, cover-free_cover,
}
use aurora_os.Buddy.Valid.{
  Held, IsValid, Ready, Rearranged, Rearranged-refl, Rearranged-trans, listed_del, listed_deleted,
  set_at_here, set_at_other,
}
use aurora_os.Buddy.Search.{find_order-Available, find_order-none}
use aurora_os.Buddy.Split.{listed_first, buddy_split-halve}

-- What split_down leaves: the same free frames, and a block of the order asked for.
pub record Down (s : Buddy) (order : ℕ) (result : Buddy × Bool) : Type 0 where
  pub succeeds : result.1 ≡ true
  pub rearranged : Rearranged s result.0
  pub first : ℕ
  pub others : List ℕ
  pub available : result.0.free_area order ≡ first ∷ others

pub split_down-Down :
    (more order : ℕ) (s : Buddy) (p : ℕ) (rest : List ℕ)
    → IsValid s
    → more + order ≤ max_order
    → s.free_area (more + order) ≡ p ∷ rest
    → Down s order (split_down more order s)
unfolding split_down
split_down-Down zero order s p rest valid small e =
    let same : order ≡ 0 + order = omega arith in
    record {
      succeeds = refl;
      rearranged = Rearranged-refl s valid;
      first = p;
      others = rest;
      available = ap s.free_area same ∙ e;
    }
split_down-Down (suc more) order s p rest valid small e =
    let half = more + order in
    let same : suc half ≡ suc more + order = omega arith in
    let (split, step) =
      buddy_split-halve s half p rest valid (omega arith) (ap s.free_area same ∙ e) in
    let right = p + 2 ^ half in
    let next = halve half p right (list_del (suc half) p s) in
    let list =
      set_at (list_del (suc half) p s).free_area half
        (p ∷ (list_del (suc half) p s).free_area half) in
    let down =
      split_down-Down more order next right (list half) step.valid (omega arith)
        (set_at_here list half _) in
    subst
      (λ r. Down s order (elim r.1 [ none ↦ (r.0, false) | some _ ↦ split_down more order r.0 ]))
      (sym split)
      (record {
        succeeds = down.succeeds;
        rearranged = Rearranged-trans s next (split_down more order next).0 step down.rearranged;
        first = down.first;
        others = down.others;
        available = down.available;
      })

-- The block at `p` has left the free blocks, and belongs to the caller.
pub record Taken (s : Buddy) (order p : ℕ) (s' : Buddy) : Type 0 where
  pub valid : IsValid s'
  pub covers :
      (q : ℕ)
      → free_cover (suc max_order) s'.free_area q + inside order p q
        ≡ free_cover (suc max_order) s.free_area q
  pub total : s'.total_phys_pages ≡ s.total_phys_pages
  pub kept :
      (q : ℕ) → free_cover (suc max_order) s.free_area q ≡ 0 → s'.page_array q ≡ s.page_array q
  pub held : Held s' p order

module _ (s : Buddy) (order p : ℕ) (valid : IsValid s)
    (here : listed p (s.free_area order) ≡ true) where
  abbrev claimed : Buddy
  claimed = add_used order (mark false order 1 p (list_del order p s))

  place : (p + 2 ^ order ≤ s.total_phys_pages) × Ready p (s.page_array p)
  place = valid.placed order p here

  claimed-linked :
      (r : ℕ)
      → (claimed.page_array r).is_free ≡ true
      → (listed r (claimed.free_area (claimed.page_array r).order) ≡ true)
        × ((claimed.page_array r).order ≤ max_order)
  claimed-linked r h = elim (Bool-cases (r == p)) [
    | inl e ↦ let no : false ≡ true = rw e at h in absurd (cc)
    | inr e ↦
        let other : r ≢ p = ground arith in
        let old = valid.linked r (rw e at h) in
        rw e (listed_del s.free_area order p (s.page_array r).order r other old.0, old.1)
  ]

  claimed-Ready : (r : ℕ) → Ready r (s.page_array r) → Ready r (claimed.page_array r)
  claimed-Ready r h = elim (Bool-cases (r == p)) [
    | inl e ↦ let same : r ≡ p = ==→eq r p e in rw e (rw same place.1)
    | inr e ↦ rw e h
  ]

  claimed-placed :
      (i r : ℕ)
      → listed r (claimed.free_area i) ≡ true
      → (r + 2 ^ i ≤ s.total_phys_pages) × Ready r (claimed.page_array r)
  claimed-placed i r h =
      let old = valid.placed i r (listed_deleted s.free_area order p i r h) in
      (old.0, claimed-Ready r old.1)

  claimed-Taken : order ≤ max_order → Taken s order p claimed
  claimed-Taken small = record {
    valid = record { linked = claimed-linked; placed = claimed-placed };
    covers = λ q. omega (
      arith,
      free_cover-set_at (suc max_order) order s.free_area (unlink p (s.free_area order)) q
          (omega arith),
      cover-unlink order p (s.free_area order) q here,
    );
    total = refl;
    kept = λ q bare. set_at_other s.page_array p _ q (covered q bare);
    held = record {
      low = small;
      not_free = rw (==_refl p) refl;
      same_order = rw (==_refl p) refl;
      ready = claimed-Ready p place.1;
      within = place.0;
    };
  }
    where
      covered : (q : ℕ) → free_cover (suc max_order) s.free_area q ≡ 0 → q ≢ p
      covered q bare same =
          let bare_p : free_cover (suc max_order) s.free_area p ≡ 0 = rw (sym same) bare in
          omega (
            arith,
            cover-listed order p (s.free_area order) here,
            cover-free_cover (suc max_order) order s.free_area p (omega arith),
          )

Taken-after : (s t u : Buddy) (order p : ℕ) → Rearranged s t → Taken t order p u → Taken s order p u
Taken-after s t u order p f g = record {
  valid = g.valid;
  covers = λ q. g.covers q ∙ f.covers q;
  total = g.total ∙ f.total;
  kept = λ q h. g.kept q (f.covers q ∙ h) ∙ f.kept q h;
  held = g.held;
}

-- How alloc_pages ends: it takes a block whose address it returns, or has none to take.
pub data Allocated (s : Buddy) (order : ℕ) : Type 0 where
  taken :
      (p : ℕ) (s' : Buddy)
      → order ≤ max_order
      → Taken s order p s'
      → alloc_pages s order ≡ (s', some (pfn_to_phys p))
      → Allocated s order
  none_left :
      ((i : ℕ) → order ≤ i → i ≤ max_order → s.free_area i ≡ [])
      → alloc_pages s order ≡ (s, none)
      → Allocated s order

take_first-Taken :
    (s : Buddy) (order p : ℕ) (rest : List ℕ)
    → IsValid s
    → s.total_phys_pages ≤ buddy_max_pages
    → order ≤ max_order
    → s.free_area order ≡ p ∷ rest
    → (s' : Buddy) × (take_first order (s.free_area order) s ≡ (s', some (pfn_to_phys p)))
      × Taken s order p s'
take_first-Taken s order p rest valid small low first = (
  claimed s order p valid here,
  ap (λ xs. take_first order xs s) first ∙ answer,
  claimed-Taken s order p valid here low,
)
  where
    here : listed p (s.free_area order) ≡ true
    here = listed_first p (s.free_area order) rest first

    address : (s.page_array p).phys_addr ≡ pfn_to_phys p
    address = (valid.placed order p here).1.0

    positive : 1 ≤ 2 ^ order
    positive = one-le-pow order 2 (omega arith)

    end : p + 2 ^ order ≤ s.total_phys_pages
    end = (valid.placed order p here).0

    mapped : leb kernel_phys_max (pfn_to_phys p) ≡ false
    mapped = ground (arith, positive, end)

    answer : take_first order (p ∷ rest) s ≡ (claimed s order p valid here, some (pfn_to_phys p))
    answer = rw (address, mapped) refl

-- Whatever the state, alloc_pages ends in one of the two ways.
pub alloc_pages-Allocated :
    (s : Buddy) (order : ℕ) → IsValid s → s.total_phys_pages ≤ buddy_max_pages → Allocated s order
unfolding alloc_pages
alloc_pages-Allocated s order valid small = elim (Bool-cases (ltb max_order order)) [
  | inl large ↦ none_left (λ i low high. absurd (ground arith)) (rw large refl)
  | inr fits ↦ found fits (find_order (suc max_order - order) s.free_area order) refl
]
  where
    found :
        ltb max_order order ≡ false
        → (answer : Option ℕ) → find_order (suc max_order - order) s.free_area order ≡ answer
        → Allocated s order
    found fits none e =
        none_left
          (λ i low high.
            find_order-none (suc max_order - order) s.free_area order i e low (ground arith))
          (rw (fits, e) refl)
    found fits (some current) e =
        let low : order ≤ max_order = ground arith in
        let block = find_order-Available (suc max_order - order) s.free_area order current e in
        let split : current - order + order ≡ current = omega (arith, block.low) in
        let down =
          split_down-Down (current - order) order s block.first block.rest valid
            (omega (arith, block.high)) (ap s.free_area split ∙ block.list) in
        let next = (split_down (current - order) order s).0 in
        let (last, answer, step) =
          take_first-Taken next order down.first down.others down.rearranged.valid
            (rw down.rearranged.total small) low down.available in
        taken down.first last low (Taken-after s next last order down.first down.rearranged step)
          (rw (fits, e, down.succeeds) answer)
