-- ===== src/Tmpfs/Overwrite.antt =====
-- tmpfs_write of kernel/tmpfs.c as a whole.
use aurora_os.Prelude.{
  ℕ, ◌+◌, ◌-◌, ◌/◌, ◌%◌, ◌^◌, ◌≤◌, ◌<◌, ◌≡◌, refl, ap, ◌∙◌, Bool, true, Option, none, some, List,
  [], length, get_or, ltb, ◌==◌, if◌then◌else◌, min, max, arith, inl, inr, ◌⊎◌, if-else, if-cases,
}
use aurora_os.Buddy.{page_size}
use aurora_os.Tmpfs.{
  PageBytes, Content, bytes, page_index, pages_for, fill_range, write_loop, WriteResult,
  write_grown, tmpfs_read, tmpfs_write,
}
use aurora_os.Tmpfs.Bytes.{page_byte, byte_at, page_index_lem, tmpfs_read-bytes, bytes-buffer}
use aurora_os.Tmpfs.Stores.{in_range}
use aurora_os.Tmpfs.Rounds.{write_loop-byte}
use aurora_os.Tmpfs.Fill.{
  Grown, no_memory, grown, grow_case, fill_range-byte, fill_range-present, fill_range_all,
}

-- A write that changes nothing that can be read.
pub record Kept (n : Content) (offset : ℕ) (r : WriteResult) : Type 0 where
  pub failed : r.returned ≡ none
  pub size : r.file.size ≡ n.size
  pub at_same : r.offset ≡ offset
  pub byte : (i : ℕ) → byte_at r.file.pages i ≡ byte_at n.pages i

-- A write of a whole buffer: its bytes are at the offset, and the others are as they were.
pub record Overwritten (n : Content) (buf : List ℕ) (offset : ℕ) (r : WriteResult) : Type 0 where
  pub whole : r.returned ≡ some (length buf)
  pub size : r.file.size ≡ max n.size (offset + length buf)
  pub behind : r.offset ≡ offset + length buf
  pub byte :
      (i : ℕ)
      → byte_at r.file.pages i
        ≡ (if in_range offset (length buf) i then get_or buf (i - offset) 0 else byte_at n.pages i)

Grown-byte :
    (pages pages' : List (Option PageBytes)) (needed i : ℕ)
    → Grown pages pages' needed
    → byte_at pages' i ≡ byte_at pages i
Grown-byte pages pages' needed i g = ap (λ o. page_byte o (i % page_size)) (g.same (i / page_size))

-- The end of the pages that a write needs.
pages_for_lem :
    (size : ℕ) → size + page_size ≤ 2 ^ 44 → pages_for size ≡ (size + (page_size - 1)) / page_size
pages_for_lem size small = omega arith

write_grown-cases :
    (has_page : ℕ → Bool) (n : Content) (buf : List ℕ) (offset : ℕ)
    (pages : List (Option PageBytes))
    → 0 < length buf
    → offset + length buf + page_size ≤ 2 ^ 44
    → Grown n.pages pages (pages_for (offset + length buf))
    → Kept n offset (write_grown has_page n buf offset pages)
      ⊎ Overwritten n buf offset (write_grown has_page n buf offset pages)
unfolding fill_range write_loop
write_grown-cases has_page n buf offset pages some_bytes small g =
    if-cases (λ r. Kept n offset r ⊎ Overwritten n buf offset r) filled.1
      (λ all. inr (record { whole = refl; size = refl; behind = refl; byte = written all }))
      (λ stopped. inl (record { failed = refl; size = refl; at_same = refl; byte = same }))
  where
    start_page : ℕ
    start_page = page_index offset

    end_page : ℕ
    end_page = min (pages_for (offset + length buf)) (length pages)

    filled : List (Option PageBytes) × Bool
    filled = fill_range has_page (end_page - start_page) start_page pages

    small' : offset < 2 ^ 44
    small' = omega (arith, small)

    in_array : start_page + (end_page - start_page) ≤ length pages
    in_array =
        omega
          (arith, g.long, page_index_lem offset small', pages_for_lem (offset + length buf) small)

    same : (i : ℕ) → byte_at filled.0 i ≡ byte_at n.pages i
    same i =
        fill_range-byte has_page (end_page - start_page) start_page pages i in_array
        ∙ Grown-byte n.pages pages (pages_for (offset + length buf)) i g

    has_place :
        (k : ℕ)
        → k < length buf - 0
        → (start_page ≤ (offset + k) / page_size)
          × ((offset + k) / page_size < start_page + (end_page - start_page))
    has_place k less = (
      omega (arith, page_index_lem offset small'),
      omega (
        arith,
        less,
        g.long,
        page_index_lem offset small',
        pages_for_lem (offset + length buf) small,
      ),
    )

    new : ℕ → ℕ → ℕ → ℕ → ℕ
    new m place old i = if in_range offset m i then get_or buf place 0 else old

    written :
        filled.1 ≡ true
        → (i : ℕ)
        → byte_at (write_loop (length buf) filled.0 buf 0 offset) i ≡ (
            if in_range offset (length buf) i then get_or buf (i - offset) 0 else byte_at n.pages i)
    written all i =
        write_loop-byte (length buf) filled.0 buf 0 offset i (omega arith) (omega arith) (λ k less.
          fill_range-present has_page (end_page - start_page) start_page pages
            ((offset + k) / page_size) in_array all (inr (has_place k less)))
        ∙ ap (λ m. new m (0 + (i - offset)) (byte_at filled.0 i) i) {x = length buf - 0}
            {y = length buf} (omega arith)
        ∙ ap (λ place. new (length buf) place (byte_at filled.0 i) i) {x = 0 + (i - offset)}
            {y = i - offset} (omega arith)
        ∙ ap (λ old. new (length buf) (i - offset) old i) (same i)

-- A write of some bytes, up to an end near 16 TiB, is whole, and then the file has them at the offset
-- and its other bytes as before, or it fails, and then the size and the bytes of the file stay as they
-- were, although it may have got more pages.
pub tmpfs_write-cases :
    (mem_ok : Bool) (has_page : ℕ → Bool) (n : Content) (buf : List ℕ) (offset : ℕ)
    → 0 < length buf
    → offset + length buf + page_size ≤ 2 ^ 44
    → Kept n offset (tmpfs_write mem_ok has_page n buf offset)
      ⊎ Overwritten n buf offset (tmpfs_write mem_ok has_page n buf offset)
unfolding tmpfs_write
tmpfs_write-cases mem_ok has_page n buf offset some_bytes small =
    if-else Cases (length buf == 0) _ (ground arith) (
      if-else Cases (ltb (2 ^ 64 - 1 - length buf) offset) _ (ground arith)
        (elim (grow_case mem_ok needed n.pages) [
          | no_memory full e ↦
              rw e (inl (record { failed = refl; size = refl; at_same = refl; byte = λ i. refl }))
          | grown pages e g ↦
              rw e (write_grown-cases has_page n buf offset pages some_bytes small g)
        ]))
  where
    needed : ℕ
    needed = pages_for (offset + length buf)

    Cases : WriteResult → Type 0
    Cases r = Kept n offset r ⊎ Overwritten n buf offset r

-- With memory, a write is whole.
tmpfs_write-returned :
    (has_page : ℕ → Bool) (n : Content) (buf : List ℕ) (offset : ℕ)
    → 0 < length buf
    → offset + length buf + page_size ≤ 2 ^ 44
    → ((idx : ℕ) → has_page idx ≡ true)
    → (tmpfs_write true has_page n buf offset).returned ≡ some (length buf)
unfolding tmpfs_write
tmpfs_write-returned has_page n buf offset some_bytes small plenty =
    if-else Returned (length buf == 0) _ (ground arith) (
      if-else Returned (ltb (2 ^ 64 - 1 - length buf) offset) _ (ground arith)
        (elim (grow_case true (pages_for (offset + length buf)) n.pages) [
          | no_memory full e ↦ absurd (cc full)
          | grown pages e g ↦
              let start_page = page_index offset in
              let count = min (pages_for (offset + length buf)) (length pages) - start_page in
              let filled = fill_range has_page count start_page pages in
              rw e (
                if-cases Returned filled.1 (λ all. refl)
                  (λ stopped.
                    absurd (cc (stopped, fill_range_all has_page count start_page pages plenty))))
        ]))
  where
    Returned : WriteResult → Type 0
    Returned r = r.returned ≡ some (length buf)

tmpfs_write-Overwritten :
    (has_page : ℕ → Bool) (n : Content) (buf : List ℕ) (offset : ℕ)
    → 0 < length buf
    → offset + length buf + page_size ≤ 2 ^ 44
    → ((idx : ℕ) → has_page idx ≡ true)
    → Overwritten n buf offset (tmpfs_write true has_page n buf offset)
tmpfs_write-Overwritten has_page n buf offset some_bytes small plenty =
    elim (tmpfs_write-cases true has_page n buf offset some_bytes small) [
      | inl k ↦
          absurd (cc (k.failed, tmpfs_write-returned has_page n buf offset some_bytes small plenty))
      | inr o ↦ o
    ]

-- A write of some bytes up to an end near 16 TiB, for which there is memory, is whole, and a read of as
-- many bytes at its offset gives them back and leaves the offset behind them.
pub tmpfs_read-tmpfs_write :
    (has_page : ℕ → Bool) (n : Content) (buf : List ℕ) (offset : ℕ)
    → n.size ≤ 2 ^ 44
    → 0 < length buf
    → offset + length buf + page_size ≤ 2 ^ 44
    → ((idx : ℕ) → has_page idx ≡ true)
    → ((tmpfs_write true has_page n buf offset).returned ≡ some (length buf))
      × (tmpfs_read (tmpfs_write true has_page n buf offset).file (length buf) offset
          ≡ (buf, offset + length buf))
tmpfs_read-tmpfs_write has_page n buf offset sized some_bytes small plenty =
    let r = tmpfs_write true has_page n buf offset in
    let o = tmpfs_write-Overwritten has_page n buf offset some_bytes small plenty in
    let left : min (length buf) (r.file.size - offset) ≡ length buf = omega (arith, o.size) in
    let there : (k : ℕ) → k < length buf → byte_at r.file.pages (offset + k) ≡ get_or buf k 0 =
      λ k less.
        let inside : in_range offset (length buf) (offset + k) ≡ true = ground (arith, less) in
        o.byte (offset + k)
        ∙ ap
            (λ test.
              if test then get_or buf (offset + k - offset) 0 else byte_at n.pages (offset + k))
            inside
        ∙ ap (λ i. get_or buf i 0) {x = offset + k - offset} {y = k} (omega arith) in
    (
      o.whole,
      tmpfs_read-bytes r.file (length buf) offset (omega (arith, o.size)) (omega arith)
          ∙ ap (λ m. (bytes (byte_at r.file.pages) offset m, offset + m)) left
          ∙ ap (λ xs. (xs, offset + length buf))
              (bytes-buffer (byte_at r.file.pages) offset buf there),
    )

-- A file after writes, none of which goes far beyond 16 TiB.
pub data History : Content → Type 0 where
  created : History (record { size = 0; pages = [] })
  wrote :
      (mem_ok : Bool) (has_page : ℕ → Bool) (n : Content) (buf : List ℕ) (offset : ℕ)
      → History n
      → 0 < length buf
      → offset + length buf + page_size ≤ 2 ^ 44
      → History (tmpfs_write mem_ok has_page n buf offset).file
