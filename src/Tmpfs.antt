-- ===== src/Tmpfs.antt =====
-- kernel/tmpfs.c, files: the bytes of a file lie in pages, of which some may be missing. A page is a
-- function from the place of a byte. Offsets are not negative; inodes and buffers are there.
pub mod Bytes
pub mod Directory
pub mod Stores
pub mod Rounds
pub mod Fill
pub mod Overwrite
pub mod Tests
use aurora_os.Prelude.{
  ℕ, zero, suc, ◌+◌, ◌-◌, ◌/◌, ◌%◌, ◌^◌, Bool, true, false, ◌&&◌, Option, none, some, List, [], ◌∷◌,
  ◌++◌, length, get_or, set, replicate, ltb, leb, ◌==◌, if◌then◌else◌, min, max,
}
use aurora_os.Buddy.{page_size}

abbrev pub PageBytes : Type 0
PageBytes = ℕ → ℕ

-- The size of `struct tmpfs_inode`, and its array of pages.
pub record Content : Type 0 where
  pub size : ℕ
  pub pages : List (Option PageBytes)

-- The page at an index, or none: the index is out of range, or the slot is NULL.
abbrev pub page_of : List (Option PageBytes) → ℕ → Option PageBytes
page_of pages idx = get_or pages idx none

-- memcpy from a page, and memset.
abbrev pub bytes : PageBytes → ℕ → ℕ → List ℕ
bytes page start zero = []
bytes page start (suc n) = page start ∷ bytes page (start + 1) n

abbrev pub read_chunk : Option PageBytes → ℕ → ℕ → List ℕ
read_chunk none page_off chunk = replicate chunk 0
read_chunk (some page) page_off chunk = bytes page page_off chunk

-- What is left of a transfer, up to the end of the page.
abbrev pub chunk_of : ℕ → ℕ → ℕ
chunk_of cur_off left =
    let page_off = cur_off % page_size in
    if ltb page_size (page_off + left) then page_size - page_off else left

abbrev pub page_index : ℕ → ℕ
page_index cur_off = cur_off / page_size % 2 ^ 32

-- `while (total < toread)`; what is left gets smaller in each round.
unfoldable pub read_loop : ℕ → List (Option PageBytes) → ℕ → ℕ → List ℕ
read_loop zero pages cur_off left = []
read_loop (suc fuel) pages cur_off left =
    let chunk = chunk_of cur_off left in
    let rest = read_loop fuel pages (cur_off + chunk) (left - chunk) in
    if left == 0
    then []
    else read_chunk (page_of pages (page_index cur_off)) (cur_off % page_size) chunk ++ rest

-- The bytes, and the offset behind them.
unfoldable pub tmpfs_read : Content → ℕ → ℕ → List ℕ × ℕ
unfolding read_loop
tmpfs_read n count offset =
    let toread = if ltb n.size ((offset + count) % 2 ^ 64) then n.size - offset else count in
    if leb n.size offset
    then ([], offset)
    else (read_loop toread n.pages offset toread, offset + toread)

-- `needed_pages`, and with it the array when it has grown.
abbrev pub pages_for : ℕ → ℕ
pages_for size = (size + (page_size - 1)) % 2 ^ 64 / page_size % 2 ^ 32

abbrev pub grow : Bool → ℕ → List (Option PageBytes) → Option (List (Option PageBytes))
grow mem_ok needed pages =
    if ltb (length pages) needed
    then if mem_ok then some (pages ++ replicate (needed - length pages) none) else none
    else some pages

-- alloc_page gives a page of zeros.
abbrev pub zero_page : PageBytes
zero_page i = 0

abbrev pub is_present : Option PageBytes → Bool
is_present none = false
is_present (some page) = true

-- Whether alloc_page has a page for an index is an argument. The loop stops at the first failure.
unfoldable pub fill_range :
    (ℕ → Bool) → ℕ → ℕ → List (Option PageBytes) → List (Option PageBytes) × Bool
fill_range has_page zero pi pages = (pages, true)
fill_range has_page (suc more) pi pages =
    if is_present (page_of pages pi)
    then fill_range has_page more (pi + 1) pages
    else if has_page pi
    then fill_range has_page more (pi + 1) (set pages pi (some zero_page))
    else (pages, false)

-- memcpy to a page, of the bytes from a place in the buffer on.
abbrev pub patch : PageBytes → ℕ → ℕ → List ℕ → ℕ → PageBytes
patch page page_off chunk buf total i =
    if leb page_off i && ltb i (page_off + chunk)
    then get_or buf (total + (i - page_off)) 0
    else page i

abbrev pub store_chunk : List (Option PageBytes) → ℕ → ℕ → ℕ → List ℕ → ℕ → List (Option PageBytes)
store_chunk pages idx page_off chunk buf total = elim (page_of pages idx) [
  | none ↦ pages
  | some page ↦ set pages idx (some (patch page page_off chunk buf total))
]

unfoldable pub write_loop : ℕ → List (Option PageBytes) → List ℕ → ℕ → ℕ → List (Option PageBytes)
write_loop zero pages buf total cur_off = pages
write_loop (suc fuel) pages buf total cur_off =
    let chunk = chunk_of cur_off (length buf - total) in
    let stored = store_chunk pages (page_index cur_off) (cur_off % page_size) chunk buf total in
    let rest = write_loop fuel stored buf (total + chunk) (cur_off + chunk) in
    if leb (length buf) total then pages else rest

-- What a write returns, none for -1; the file and the offset after it.
pub record WriteResult : Type 0 where
  pub returned : Option ℕ
  pub file : Content
  pub offset : ℕ

abbrev pub refuse : Content → ℕ → WriteResult
refuse n offset = record { returned = none; file = n; offset = offset }

abbrev pub write_pages : Content → List ℕ → ℕ → List (Option PageBytes) → WriteResult
unfolding write_loop
write_pages n buf offset pages = record {
  returned = some (length buf);
  file = record {
    size = max n.size (offset + length buf);
    pages = write_loop (length buf) pages buf 0 offset;
  };
  offset = offset + length buf;
}

abbrev pub write_grown : (ℕ → Bool) → Content → List ℕ → ℕ → List (Option PageBytes) → WriteResult
unfolding fill_range write_loop
write_grown has_page n buf offset pages =
    let start_page = page_index offset in
    let end_page = min (pages_for (offset + length buf)) (length pages) in
    let filled = fill_range has_page (end_page - start_page) start_page pages in
    let partial : Content = record { size = n.size; pages = filled.0 } in
    if filled.1 then write_pages n buf offset filled.0 else refuse partial offset

unfoldable pub tmpfs_write : Bool → (ℕ → Bool) → Content → List ℕ → ℕ → WriteResult
unfolding fill_range write_loop
tmpfs_write mem_ok has_page n buf offset =
    if length buf == 0
    then record { returned = some 0; file = n; offset = offset }
    else if ltb (2 ^ 64 - 1 - length buf) offset
    then refuse n offset
    else elim (grow mem_ok (pages_for (offset + length buf)) n.pages) [
      | none ↦ refuse n offset
      | some pages ↦ write_grown has_page n buf offset pages
    ]
