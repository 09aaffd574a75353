-- ===== src/Buddy/Boot/Frames.antt =====
-- The loop of buddy_mark_available, and phys_mem_init as a whole, in kernel/mem.c, frame by frame.
use mathlib.Core.Path.{subst}
use aurora_os.Prelude.{
  ℕ, zero, suc, ◌+◌, ◌-◌, ◌*◌, ◌^◌, ◌≤◌, ◌<◌, ◌≡◌, refl, sym, ap, ◌∙◌, true, false, not, ◌&&◌, ◌||◌,
  ◌∷◌, ltb, leb, ◌==◌, if◌then◌else◌, min, Bool-cases, inl, inr, arith, ==_refl, ==→eq,
}
use aurora_os.Buddy.{Buddy, max_order, buddy_max_pages, pfn_to_phys}
use aurora_os.Buddy.Cover.{free_cover, free_cover-set_at, cover, inside, listed}
use aurora_os.Buddy.Valid.{IsValid, Ready, listed_add, listed_added}
use aurora_os.Buddy.Boot.Reserve.{
  IsBlank, reserve_range-IsBlank, reserve_range-total, reserve_range-reserved, blank_IsValid,
  blank_cover,
}
use aurora_os.Buddy.Boot.{
  reserve_range, free_frame, available_range, frames, cleared, with_reserved, kernel_reserved_pages,
  heap_start_pfn, heap_end_pfn, usable, phys_mem_init,
}

-- The frames of the range that are not reserved.
abbrev unreserved : ℕ → ℕ → Buddy → ℕ → ℕ
unreserved more pfn s q =
    if leb pfn q && ltb q (pfn + more) && not (s.page_array q).reserved then 1 else 0

free_frame-linked :
    (pfn : ℕ) (s : Buddy)
    → IsValid s
    → (r : ℕ) → ((free_frame pfn s).page_array r).is_free ≡ true
    → (listed r ((free_frame pfn s).free_area ((free_frame pfn s).page_array r).order) ≡ true)
      × (((free_frame pfn s).page_array r).order ≤ max_order)
free_frame-linked pfn s valid r h = elim (Bool-cases (r == pfn)) [
  | inl e ↦
      let same : r ≡ pfn = ==→eq r pfn e in rw e (rw same (rw (==_refl pfn) refl), omega arith)
  | inr e ↦
      let old = valid.linked r (rw e at h) in
      rw e (listed_add s.free_area 0 pfn (s.page_array r).order r old.0, old.1)
]

free_frame-placed :
    (pfn : ℕ) (s : Buddy)
    → IsValid s
    → pfn < s.total_phys_pages
    → (i r : ℕ) → listed r ((free_frame pfn s).free_area i) ≡ true
    → (r + 2 ^ i ≤ s.total_phys_pages) × Ready r ((free_frame pfn s).page_array r)
free_frame-placed pfn s valid small i r h = elim (Bool-cases (r == pfn)) [
  | inl e ↦ let same : r ≡ pfn = ==→eq r pfn e in (end same, rw e (ap pfn_to_phys (sym same), refl))
  | inr e ↦ elim (listed_added s.free_area 0 pfn i r h) [
    | inl (same, _) ↦ absurd (ground arith)
    | inr older ↦ let old = valid.placed i r older in (old.0, rw e old.1)
  ]
]
  where
    end : r ≡ pfn → r + 2 ^ i ≤ s.total_phys_pages
    end same = elim (listed_added s.free_area 0 pfn i r h) [
      | inl (_, first) ↦ rw (same, first) (omega arith)
      | inr older ↦ (valid.placed i r older).0
    ]

free_frame-IsValid :
    (pfn : ℕ) (s : Buddy) → IsValid s → pfn < s.total_phys_pages → IsValid (free_frame pfn s)
free_frame-IsValid pfn s valid small = record {
  linked = free_frame-linked pfn s valid;
  placed = free_frame-placed pfn s valid small;
}

free_frame-cover :
    (pfn : ℕ) (s : Buddy) (q : ℕ)
    → free_cover (suc max_order) (free_frame pfn s).free_area q
      ≡ free_cover (suc max_order) s.free_area q + inside 0 pfn q
unfolding cover
free_frame-cover pfn s q =
    omega
      (arith, free_cover-set_at (suc max_order) 0 s.free_area (pfn ∷ s.free_area 0) q (omega arith))

reserved_frame :
    (more pfn : ℕ) (s : Buddy) (q : ℕ)
    → (s.page_array pfn).reserved ≡ true
    → unreserved more (suc pfn) s q ≡ unreserved (suc more) pfn s q
reserved_frame more pfn s q h = elim (Bool-cases (q == pfn)) [
  | inl e ↦ let same : q ≡ pfn = ==→eq q pfn e in rw (same, h) (ground arith)
  | inr e ↦ ground arith
]

freed_frame :
    (more pfn : ℕ) (s : Buddy) (q : ℕ)
    → (s.page_array pfn).reserved ≡ false
    → unreserved more (suc pfn) (free_frame pfn s) q + inside 0 pfn q
      ≡ unreserved (suc more) pfn s q
freed_frame more pfn s q h = elim (Bool-cases (q == pfn)) [
  | inl e ↦ let same : q ≡ pfn = ==→eq q pfn e in rw (same, h) (ground arith)
  | inr e ↦ rw e (ground arith)
]

-- What the loop of buddy_mark_available leaves.
record Freed (more pfn : ℕ) (s s' : Buddy) : Type 0 where
  pub valid : IsValid s'
  pub total : s'.total_phys_pages ≡ s.total_phys_pages
  pub covers :
      (q : ℕ)
      → free_cover (suc max_order) s'.free_area q
        ≡ free_cover (suc max_order) s.free_area q + unreserved more pfn s q

available_range-Freed :
    (more pfn : ℕ) (s : Buddy)
    → IsValid s
    → more ≤ s.total_phys_pages - pfn
    → Freed more pfn s (available_range more pfn s)
unfolding available_range
available_range-Freed zero pfn s valid fits = record {
  valid = valid;
  total = refl;
  covers = λ q. ground arith;
}
available_range-Freed (suc more) pfn s valid fits = elim (Bool-cases (s.page_array pfn).reserved) [
  | inl e ↦
      let rest = available_range-Freed more (suc pfn) s valid (omega arith) in
      subst
        (λ b.
          Freed (suc more) pfn s
            (available_range more (suc pfn) (if b then s else free_frame pfn s)))
        (sym e)
        (record {
          valid = rest.valid;
          total = rest.total;
          covers = λ q. omega (arith, rest.covers q, reserved_frame more pfn s q e);
        })
  | inr e ↦
      let rest =
        available_range-Freed more (suc pfn) (free_frame pfn s)
          (free_frame-IsValid pfn s valid (omega arith)) (omega arith) in
      subst
        (λ b.
          Freed (suc more) pfn s
            (available_range more (suc pfn) (if b then s else free_frame pfn s)))
        (sym e)
        (record {
          valid = rest.valid;
          total = rest.total;
          covers = λ q.
              omega (arith, rest.covers q, free_frame-cover pfn s q, freed_frame more pfn s q e);
        })
]

-- After phys_mem_init, the usable frames are in one free block each, and all others in none.
pub record Booted (total_ram : ℕ) (s : Buddy) : Type 0 where
  pub valid : IsValid s
  pub total : s.total_phys_pages ≡ frames total_ram
  pub covers :
      (q : ℕ) → free_cover (suc max_order) s.free_area q ≡ (if usable total_ram q then 1 else 0)

reserved_frames :
    (total_ram q : ℕ)
    → ((with_reserved total_ram).page_array q).reserved ≡ (
        (leb heap_start_pfn q
          && ltb q
              (heap_start_pfn + (min (heap_end_pfn total_ram) buddy_max_pages - heap_start_pfn)))
        || ((leb 0 q && ltb q (0 + kernel_reserved_pages)) || false))
reserved_frames total_ram q =
    let kernel = reserve_range kernel_reserved_pages 0 (cleared total_ram) in
    let heap = min (heap_end_pfn total_ram) buddy_max_pages - heap_start_pfn in
    reserve_range-reserved heap heap_start_pfn kernel q
    ∙ ap (λ b. (leb heap_start_pfn q && ltb q (heap_start_pfn + heap)) || b)
        (reserve_range-reserved kernel_reserved_pages 0 (cleared total_ram) q)

pub phys_mem_init-Booted :
    (total_ram : ℕ) → total_ram ≤ 256 * 1024 * 1024 → Booted total_ram (phys_mem_init total_ram)
unfolding phys_mem_init
phys_mem_init-Booted total_ram small = record {
  valid = freed.valid;
  total = freed.total ∙ total_kept;
  covers = λ q. freed.covers q ∙ counted q;
}
  where
    kernel : Buddy
    kernel = reserve_range kernel_reserved_pages 0 (cleared total_ram)

    more : ℕ
    more = min (frames total_ram) buddy_max_pages - kernel_reserved_pages

    blank_kernel : IsBlank kernel
    blank_kernel =
        reserve_range-IsBlank kernel_reserved_pages 0 (cleared total_ram)
          (record { nothing_free = λ q. refl; nothing_listed = λ order. refl })

    blank : IsBlank (with_reserved total_ram)
    blank =
        reserve_range-IsBlank (min (heap_end_pfn total_ram) buddy_max_pages - heap_start_pfn)
          heap_start_pfn kernel blank_kernel

    total_kept : (with_reserved total_ram).total_phys_pages ≡ frames total_ram
    total_kept =
        reserve_range-total (min (heap_end_pfn total_ram) buddy_max_pages - heap_start_pfn)
          heap_start_pfn kernel
        ∙ reserve_range-total kernel_reserved_pages 0 (cleared total_ram)

    freed : Freed more kernel_reserved_pages (with_reserved total_ram) (phys_mem_init total_ram)
    freed =
        available_range-Freed more kernel_reserved_pages (with_reserved total_ram)
          (blank_IsValid (with_reserved total_ram) blank) (omega (arith, total_kept))

    counted :
        (q : ℕ)
        → free_cover (suc max_order) (with_reserved total_ram).free_area q
            + unreserved more kernel_reserved_pages (with_reserved total_ram) q
          ≡ (if usable total_ram q then 1 else 0)
    counted q =
        let none_yet =
          blank_cover (suc max_order) (with_reserved total_ram).free_area q blank.nothing_listed in
        rw (none_yet, reserved_frames total_ram q) (ground arith)
