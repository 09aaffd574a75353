-- ===== src/Tmpfs/Stores.antt =====
-- The change of one chunk of a page in tmpfs_write of kernel/tmpfs.c, byte by byte.
use aurora_os.Prelude.{
  ℕ, zero, suc, ◌+◌, ◌-◌, ◌/◌, ◌%◌, ◌^◌, ◌≤◌, ◌<◌, ◌≡◌, refl, sym, ap, ◌∙◌, Bool, true, false, ◌&&◌,
  Option, none, some, List, [], ◌∷◌, length, get_or, set, ltb, leb, ◌==◌, if◌then◌else◌, arith,
  Bool-cases, Option-cases, inl, inr, get_or-set, if-holds,
}
use aurora_os.Buddy.{page_size}
use aurora_os.Tmpfs.{PageBytes, page_of, page_index, is_present, patch, store_chunk}
use aurora_os.Tmpfs.Bytes.{page_byte, byte_at, page_index_lem}

abbrev pub in_range : ℕ → ℕ → ℕ → Bool
in_range start n i = leb start i && ltb i (start + n)

present-length :
    (pages : List (Option PageBytes)) (idx : ℕ)
    → is_present (page_of pages idx) ≡ true
    → idx < length pages
present-length [] idx there = absurd (cc there)
present-length (page ∷ pages) zero there = omega arith
present-length (page ∷ pages) (suc idx) there = omega (arith, present-length pages idx there)

-- Where a byte of the same page is in the range of a chunk.
patch-same :
    (page : PageBytes) (cur_off chunk : ℕ) (buf : List ℕ) (total i : ℕ)
    → cur_off / page_size ≡ i / page_size
    → patch page (cur_off % page_size) chunk buf total (i % page_size) ≡ (
        if in_range cur_off chunk i
        then get_or buf (total + (i - cur_off)) 0
        else page (i % page_size))
patch-same page cur_off chunk buf total i same =
    let behind : total + (i % page_size - cur_off % page_size) ≡ total + (i - cur_off) =
      omega arith in
    let test : in_range (cur_off % page_size) chunk (i % page_size) ≡ in_range cur_off chunk i =
      ground arith in
    rw (test, behind) refl

pub set-byte :
    (pages : List (Option PageBytes)) (idx i : ℕ) (page : PageBytes)
    → idx < length pages
    → byte_at (set pages idx (some page)) i
      ≡ (if idx == i / page_size then page (i % page_size) else byte_at pages i)
set-byte pages idx i page within =
    ap (λ p. page_byte p (i % page_size))
      (get_or-set pages idx (i / page_size) (some page) none within)
    ∙ by_test (idx == i / page_size)
  where
    by_test :
        (test : Bool)
        → page_byte (if test then some page else page_of pages (i / page_size)) (i % page_size)
          ≡ (if test then page (i % page_size) else byte_at pages i)
    by_test true = refl
    by_test false = refl

pub store-byte :
    (pages : List (Option PageBytes)) (cur_off chunk : ℕ) (buf : List ℕ) (total i : ℕ)
    → is_present (page_of pages (cur_off / page_size)) ≡ true
    → cur_off < 2 ^ 44
    → cur_off % page_size + chunk ≤ page_size
    → byte_at (store_chunk pages (page_index cur_off) (cur_off % page_size) chunk buf total) i
      ≡ (if in_range cur_off chunk i then get_or buf (total + (i - cur_off)) 0 else byte_at pages i)
store-byte pages cur_off chunk buf total i there small within =
    ap (λ k. byte_at (store_chunk pages k (cur_off % page_size) chunk buf total) i)
      (page_index_lem cur_off small)
    ∙ elim (Option-cases (page_of pages idx)) [
      | inl missing ↦ absurd (cc (there, missing))
      | inr (page, found) ↦
          ap (λ o. byte_at (stored o) i) found
          ∙ set-byte pages idx i (patch page (cur_off % page_size) chunk buf total)
              (present-length pages idx there)
          ∙ by_page page found
    ]
  where
    idx : ℕ
    idx = cur_off / page_size

    stored : Option PageBytes → List (Option PageBytes)
    stored o = elim o [
      | none ↦ pages
      | some page ↦ set pages idx (some (patch page (cur_off % page_size) chunk buf total))
    ]

    new : Bool → ℕ → ℕ
    new test old = if test then get_or buf (total + (i - cur_off)) 0 else old

    by_page :
        (page : PageBytes)
        → page_of pages idx ≡ some page
        → (if idx == i / page_size
            then patch page (cur_off % page_size) chunk buf total (i % page_size)
            else byte_at pages i)
          ≡ new (in_range cur_off chunk i) (byte_at pages i)
    by_page page found = elim (Bool-cases (idx == i / page_size)) [
      | inl e ↦
          let same : idx ≡ i / page_size = ground (arith, e) in
          let old : page (i % page_size) ≡ byte_at pages i =
            ap (λ o. page_byte o (i % page_size)) (sym found ∙ ap (page_of pages) same) in
          rw e (
            patch-same page cur_off chunk buf total i same
            ∙ ap (new (in_range cur_off chunk i)) old)
      | inr e ↦
          let away : in_range cur_off chunk i ≡ false = ground (arith, within, e) in
          rw (e, away) refl
    ]

-- A page that is there stays there.
pub set-present :
    (pages : List (Option PageBytes)) (idx j : ℕ) (page : PageBytes)
    → idx < length pages
    → is_present (page_of (set pages idx (some page)) j)
      ≡ (if idx == j then true else is_present (page_of pages j))
set-present pages idx j page within =
    ap is_present (get_or-set pages idx j (some page) none within) ∙ by_test (idx == j)
  where
    by_test :
        (test : Bool)
        → is_present (if test then some page else page_of pages j)
          ≡ (if test then true else is_present (page_of pages j))
    by_test true = refl
    by_test false = refl

pub store-present :
    (pages : List (Option PageBytes)) (idx place chunk : ℕ) (buf : List ℕ) (total j : ℕ)
    → is_present (page_of pages j) ≡ true
    → is_present (page_of (store_chunk pages idx place chunk buf total) j) ≡ true
store-present pages idx place chunk buf total j there = by_page (page_of pages idx) refl
  where
    by_page :
        (o : Option PageBytes)
        → page_of pages idx ≡ o
        → is_present (
            page_of
              (elim o [
                | none ↦ pages
                | some page ↦ set pages idx (some (patch page place chunk buf total))
              ])
              j)
          ≡ true
    by_page none e = there
    by_page (some page) e =
        set-present pages idx j (patch page place chunk buf total)
          (present-length pages idx (ap is_present e))
        ∙ if-holds (λ b. b ≡ true) (idx == j) refl there
