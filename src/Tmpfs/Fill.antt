-- ===== src/Tmpfs/Fill.antt =====
-- The pages that tmpfs_write of kernel/tmpfs.c adds are zeros, as missing pages are.
use aurora_os.Prelude.{
  ℕ, zero, suc, ◌+◌, ◌-◌, ◌/◌, ◌%◌, ◌≤◌, ◌<◌, ◌≡◌, refl, sym, ap, ◌∙◌, Bool, true, false, Option,
  none, some, List, [], ◌∷◌, ◌++◌, length, set, replicate, ltb, ◌==◌, if◌then◌else◌, arith,
  Bool-cases, inl, inr, ◌⊎◌, if-holds, if-cases, get_or-replicate, length-set, length-append,
  length-replicate,
}
use aurora_os.Buddy.{page_size}
use aurora_os.Tmpfs.{PageBytes, page_of, zero_page, is_present, fill_range, grow}
use aurora_os.Tmpfs.Bytes.{page_byte, byte_at}
use aurora_os.Tmpfs.Stores.{set-byte, set-present}

page_of-append :
    (pages : List (Option PageBytes)) (n idx : ℕ)
    → page_of (pages ++ replicate n none) idx ≡ page_of pages idx
page_of-append [] n idx = get_or-replicate n idx none
page_of-append (page ∷ pages) n zero = refl
page_of-append (page ∷ pages) n (suc idx) = page_of-append pages n idx

-- A longer array, with the same pages.
pub record Grown (pages pages' : List (Option PageBytes)) (needed : ℕ) : Type 0 where
  pub long : needed ≤ length pages'
  pub same : (idx : ℕ) → page_of pages' idx ≡ page_of pages idx

-- The array can be made as long as it has to be, or kmalloc has no memory.
pub data GrowCase (mem_ok : Bool) (needed : ℕ) (pages : List (Option PageBytes)) : Type 0 where
  no_memory : mem_ok ≡ false → grow mem_ok needed pages ≡ none → GrowCase mem_ok needed pages
  grown :
      (pages' : List (Option PageBytes))
      → grow mem_ok needed pages ≡ some pages'
      → Grown pages pages' needed
      → GrowCase mem_ok needed pages

pub grow_case :
    (mem_ok : Bool) (needed : ℕ) (pages : List (Option PageBytes)) → GrowCase mem_ok needed pages
grow_case mem_ok needed pages = elim (Bool-cases (ltb (length pages) needed)) [
  | inl short ↦ elim (Bool-cases mem_ok) [
    | inl got ↦
        let added = needed - length pages in
        grown (pages ++ replicate added none) (rw (short, got) refl) (record {
          long =
              rw (length-append pages (replicate added none))
                (rw (length-replicate {A = Option PageBytes} added none) (omega arith));
          same = page_of-append pages added;
        })
    | inr full ↦ no_memory full (rw (short, full) refl)
  ]
  | inr enough ↦
      grown pages (rw enough refl) (record { long = ground (arith, enough); same = λ idx. refl })
]

missing-byte :
    (pages : List (Option PageBytes)) (i : ℕ)
    → is_present (page_of pages (i / page_size)) ≡ false
    → byte_at pages i ≡ 0
missing-byte pages i missing = by_page (page_of pages (i / page_size)) missing
  where
    by_page : (o : Option PageBytes) → is_present o ≡ false → page_byte o (i % page_size) ≡ 0
    by_page none m = refl
    by_page (some page) m = absurd (cc m)

zero_page-byte :
    (pages : List (Option PageBytes)) (pi i : ℕ)
    → pi < length pages
    → is_present (page_of pages pi) ≡ false
    → byte_at (set pages pi (some zero_page)) i ≡ byte_at pages i
zero_page-byte pages pi i within missing =
    set-byte pages pi i zero_page within ∙ by_test (Bool-cases (pi == i / page_size))
  where
    by_test :
        (((pi == i / page_size) ≡ true) ⊎ ((pi == i / page_size) ≡ false))
        → (if pi == i / page_size then 0 else byte_at pages i) ≡ byte_at pages i
    by_test (inl e) =
        let here : pi ≡ i / page_size = ground (arith, e) in
        rw e
          (sym (missing-byte pages i (ap (λ k. is_present (page_of pages k)) (sym here) ∙ missing)))
    by_test (inr e) = rw e refl

-- No byte changes, whether all pages can be had or not.
pub fill_range-byte :
    (has_page : ℕ → Bool) (more pi : ℕ) (pages : List (Option PageBytes)) (i : ℕ)
    → pi + more ≤ length pages
    → byte_at (fill_range has_page more pi pages).0 i ≡ byte_at pages i
unfolding fill_range
fill_range-byte has_page zero pi pages i fits = refl
fill_range-byte has_page (suc more) pi pages i fits =
    elim (Bool-cases (is_present (page_of pages pi))) [
      | inl there ↦ rw there (fill_range-byte has_page more (pi + 1) pages i (omega arith))
      | inr missing ↦ elim (Bool-cases (has_page pi)) [
        | inl got ↦
            let filled = set pages pi (some zero_page) in
            rw (missing, got)
              (fill_range-byte has_page more (pi + 1) filled i
                  (rw (length-set pages pi (some zero_page)) (omega arith))
                ∙ zero_page-byte pages pi i (omega arith) missing)
        | inr none_left ↦ rw (missing, none_left) refl
      ]
    ]

-- When all pages could be had, those of the range are there, and so are those that were.
pub fill_range-present :
    (has_page : ℕ → Bool) (more pi : ℕ) (pages : List (Option PageBytes)) (idx : ℕ)
    → pi + more ≤ length pages
    → (fill_range has_page more pi pages).1 ≡ true
    → (is_present (page_of pages idx) ≡ true) ⊎ ((pi ≤ idx) × (idx < pi + more))
    → is_present (page_of (fill_range has_page more pi pages).0 idx) ≡ true
unfolding fill_range
fill_range-present has_page zero pi pages idx fits all (inl there) = there
fill_range-present has_page zero pi pages idx fits all (inr (low, high)) = absurd (omega arith)
fill_range-present has_page (suc more) pi pages idx fits all here =
    let fits_filled : pi + 1 + more ≤ length filled =
      rw (length-set pages pi (some zero_page)) (omega arith) in
    let fits_behind : pi + 1 + more ≤ length pages = omega arith in
    if-cases Holds (is_present (page_of pages pi))
      (λ there (all : (fill_range has_page more (pi + 1) pages).1 ≡ true).
        fill_range-present has_page more (pi + 1) pages idx fits_behind all
          (moved pages there (λ t. t)))
      (λ missing.
        if-cases Holds (has_page pi)
          (λ got all.
            fill_range-present has_page more (pi + 1) filled idx fits_filled all
              (moved filled (is_there pi (inl refl)) (λ t. is_there idx (inr t))))
          (λ none_left e. absurd (cc e)))
      all
  where
    Holds : List (Option PageBytes) × Bool → Type 0
    Holds r = r.1 ≡ true → is_present (page_of r.0 idx) ≡ true

    filled : List (Option PageBytes)
    filled = set pages pi (some zero_page)

    is_there :
        (j : ℕ)
        → ((pi ≡ j) ⊎ (is_present (page_of pages j) ≡ true))
        → is_present (page_of filled j) ≡ true
    is_there j (inl e) =
        let same : (pi == j) ≡ true = ground (arith, e) in
        set-present pages pi j zero_page (omega arith) ∙ rw same refl
    is_there j (inr t) =
        set-present pages pi j zero_page (omega arith) ∙ if-holds (λ b. b ≡ true) (pi == j) refl t

    moved :
        (now : List (Option PageBytes))
        → is_present (page_of now pi) ≡ true
        → (is_present (page_of pages idx) ≡ true → is_present (page_of now idx) ≡ true)
        → (is_present (page_of now idx) ≡ true) ⊎ ((pi + 1 ≤ idx) × (idx < pi + 1 + more))
    moved now at_pi kept = elim here [
      | inl there ↦ inl (kept there)
      | inr (low, high) ↦ elim (Bool-cases (pi == idx)) [
        | inl e ↦
            let same : pi ≡ idx = ground (arith, e) in
            inl (ap (λ k. is_present (page_of now k)) (sym same) ∙ at_pi)
        | inr e ↦ inr (ground (arith, e, low), omega (arith, high))
      ]
    ]

pub fill_range_all :
    (has_page : ℕ → Bool) (more pi : ℕ) (pages : List (Option PageBytes))
    → ((idx : ℕ) → has_page idx ≡ true)
    → (fill_range has_page more pi pages).1 ≡ true
unfolding fill_range
fill_range_all has_page zero pi pages plenty = refl
fill_range_all has_page (suc more) pi pages plenty =
    if-cases (λ (r : List (Option PageBytes) × Bool). r.1 ≡ true) (is_present (page_of pages pi))
      (λ there. fill_range_all has_page more (pi + 1) pages plenty)
      (λ missing.
        rw (plenty pi)
          (fill_range_all has_page more (pi + 1) (set pages pi (some zero_page)) plenty))
