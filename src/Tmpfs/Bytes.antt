-- ===== src/Tmpfs/Bytes.antt =====
-- The bytes of a file of kernel/tmpfs.c, and the loop of tmpfs_read over its pages.
use aurora_os.Prelude.{
  ℕ, zero, suc, ◌+◌, ◌-◌, ◌/◌, ◌%◌, ◌^◌, ◌≤◌, ◌<◌, ◌≡◌, refl, sym, ap, ap₂, ◌∙◌, false, Option,
  none, some, List, [], ◌∷◌, ◌++◌, length, get_or, replicate, ltb, leb, ◌==◌, if◌then◌else◌, min,
  arith, Bool-cases, inl, inr,
}
use aurora_os.Buddy.{page_size}
use aurora_os.Tmpfs.{
  PageBytes, Content, page_of, bytes, read_chunk, chunk_of, page_index, read_loop, tmpfs_read,
}

abbrev pub page_byte : Option PageBytes → ℕ → ℕ
page_byte none i = 0
page_byte (some page) i = page i

-- The byte at an offset; where there is no page, it is 0.
abbrev pub byte_at : List (Option PageBytes) → ℕ → ℕ
byte_at pages i = page_byte (page_of pages (i / page_size)) (i % page_size)

abbrev pub contents : Content → List ℕ
contents n = bytes (byte_at n.pages) 0 n.size

pub bytes_moved : (f : PageBytes) (a b m n : ℕ) → a ≡ b → m ≡ n → bytes f a m ≡ bytes f b n
bytes_moved f a b m n e e' = ap₂ (λ x y. bytes f x y) e e'

pub bytes-append :
    (f : PageBytes) (start m n : ℕ)
    → bytes f start (m + n) ≡ bytes f start m ++ bytes f (start + m) n
bytes-append f start zero n = bytes_moved f start (start + 0) (0 + n) n (omega arith) (omega arith)
bytes-append f start (suc m) n =
    ap (λ k. bytes f start k) {x = suc m + n} {y = suc (m + n)} (omega arith)
    ∙ ap (λ rest. f start ∷ rest)
        (bytes-append f (start + 1) m n
          ∙ ap (λ k. bytes f (start + 1) m ++ bytes f k n) {x = start + 1 + m} {y = start + suc m}
              (omega arith))

pub bytes_equal :
    (f g : PageBytes) (a b n : ℕ)
    → ((k : ℕ) → k < n → f (a + k) ≡ g (b + k))
    → bytes f a n ≡ bytes g b n
bytes_equal f g a b zero same = refl
bytes_equal f g a b (suc n) same =
    let first : f a ≡ g b =
      ap f {y = a + 0} (omega arith) ∙ same 0 (omega arith) ∙ ap g {x = b + 0} (omega arith) in
    let rest : bytes f (a + 1) n ≡ bytes g (b + 1) n = bytes_equal f g (a + 1) (b + 1) n λ k less.
      ap f {y = a + suc k} (omega arith)
      ∙ same (suc k) (omega (arith, less))
      ∙ ap g {x = b + suc k} (omega arith) in
    ap₂ (λ x xs. x ∷ xs) first rest

pub replicate-bytes :
    (f : PageBytes) (a n : ℕ) → ((k : ℕ) → k < n → f (a + k) ≡ 0) → replicate n 0 ≡ bytes f a n
replicate-bytes f a zero zeros = refl
replicate-bytes f a (suc n) zeros =
    let first : 0 ≡ f a = sym (zeros 0 (omega arith)) ∙ ap f {x = a + 0} (omega arith) in
    let rest : replicate n 0 ≡ bytes f (a + 1) n =
      replicate-bytes f (a + 1) n
        λ k less. ap f {y = a + suc k} (omega arith) ∙ zeros (suc k) (omega (arith, less)) in
    ap₂ (λ x xs. x ∷ xs) first rest

-- A chunk ends before its page does.
pub chunk_of_fits : (cur_off left : ℕ) → cur_off % page_size + chunk_of cur_off left ≤ page_size
chunk_of_fits cur_off left = ground arith

pub chunk_of_positive :
    (cur_off left : ℕ) → 0 < left → (0 < chunk_of cur_off left) × (chunk_of cur_off left ≤ left)
chunk_of_positive cur_off left some_left = (ground arith, ground arith)

-- Where a byte of the page of an offset is.
pub same_page :
    (cur_off k : ℕ)
    → cur_off % page_size + k < page_size
    → (cur_off + k) / page_size ≡ cur_off / page_size
same_page cur_off k within = omega arith

pub same_place :
    (cur_off k : ℕ)
    → cur_off % page_size + k < page_size
    → (cur_off + k) % page_size ≡ cur_off % page_size + k
same_place cur_off k within = omega arith

pub page_index_lem : (cur_off : ℕ) → cur_off < 2 ^ 44 → page_index cur_off ≡ cur_off / page_size
page_index_lem cur_off small = omega arith

pub byte_at_chunk :
    (pages : List (Option PageBytes)) (cur_off k : ℕ)
    → cur_off % page_size + k < page_size
    → byte_at pages (cur_off + k)
      ≡ page_byte (page_of pages (cur_off / page_size)) (cur_off % page_size + k)
byte_at_chunk pages cur_off k within =
    ap₂ (λ idx place. page_byte (page_of pages idx) place) (same_page cur_off k within)
      (same_place cur_off k within)

read_chunk-bytes :
    (pages : List (Option PageBytes)) (cur_off chunk : ℕ)
    → cur_off < 2 ^ 44
    → cur_off % page_size + chunk ≤ page_size
    → read_chunk (page_of pages (page_index cur_off)) (cur_off % page_size) chunk
      ≡ bytes (byte_at pages) cur_off chunk
read_chunk-bytes pages cur_off chunk small within =
    ap (λ idx. read_chunk (page_of pages idx) (cur_off % page_size) chunk)
      (page_index_lem cur_off small)
    ∙ by_page (page_of pages (cur_off / page_size))
        (λ k less. byte_at_chunk pages cur_off k (omega (arith, less, within)))
  where
    by_page :
        (page : Option PageBytes)
        → ((k : ℕ)
            → k < chunk
            → byte_at pages (cur_off + k) ≡ page_byte page (cur_off % page_size + k))
        → read_chunk page (cur_off % page_size) chunk ≡ bytes (byte_at pages) cur_off chunk
    by_page none there = replicate-bytes (byte_at pages) cur_off chunk there
    by_page (some page) there =
        bytes_equal page (byte_at pages) (cur_off % page_size) cur_off chunk
          (λ k less. sym (there k less))

-- The loop ends in as many rounds as bytes are left, and gives them in order.
pub read_loop-bytes :
    (fuel : ℕ) (pages : List (Option PageBytes)) (cur_off left : ℕ)
    → left ≤ fuel
    → cur_off + left ≤ 2 ^ 44
    → read_loop fuel pages cur_off left ≡ bytes (byte_at pages) cur_off left
unfolding read_loop
read_loop-bytes zero pages cur_off zero enough small = refl
read_loop-bytes (suc fuel) pages cur_off zero enough small = refl
read_loop-bytes zero pages cur_off (suc left) enough small = absurd (omega arith)
read_loop-bytes (suc fuel) pages cur_off (suc left) enough small =
    let chunk = chunk_of cur_off (suc left) in
    let (some_bytes, no_more) = chunk_of_positive cur_off (suc left) (omega arith) in
    let now : (suc left == 0) ≡ false = ground arith in
    rw now (
      ap₂ (λ x y. x ++ y)
        (read_chunk-bytes pages cur_off chunk (omega arith) (chunk_of_fits cur_off (suc left)))
        (read_loop-bytes fuel pages (cur_off + chunk) (suc left - chunk)
          (omega (arith, some_bytes, no_more)) (omega (arith, no_more)))
      ∙ sym (bytes-append (byte_at pages) cur_off chunk (suc left - chunk))
      ∙ ap (λ n. bytes (byte_at pages) cur_off n) {y = suc left} (omega (arith, no_more)))

-- As many bytes as there are up to the end of the file, and no more than are asked for.
pub tmpfs_read-bytes :
    (n : Content) (count offset : ℕ)
    → n.size ≤ 2 ^ 44
    → offset + count < 2 ^ 64
    → tmpfs_read n count offset ≡ (
      bytes (byte_at n.pages) offset (min count (n.size - offset)),
      offset + min count (n.size - offset),
    )
unfolding tmpfs_read
tmpfs_read-bytes n count offset small sane = elim (Bool-cases (leb n.size offset)) [
  | inl past ↦
      let none_left : 0 ≡ min count (n.size - offset) = ground arith in
      rw past (
        ap (λ o. ([], o)) {x = offset} {y = offset + 0} (omega arith)
        ∙ ap (λ k. (bytes (byte_at n.pages) offset k, offset + k)) none_left)
  | inr within ↦
      let left = min count (n.size - offset) in
      let toread : (if ltb n.size ((offset + count) % 2 ^ 64) then n.size - offset else count)
          ≡ left =
        ground arith in
      rw (within, toread)
        (ap (λ xs. (xs, offset + left))
          (read_loop-bytes left n.pages offset left (omega arith) (ground arith)))
]

-- The bytes of a buffer.
pub bytes-buffer :
    (f : PageBytes) (a : ℕ) (buf : List ℕ)
    → ((k : ℕ) → k < length buf → f (a + k) ≡ get_or buf k 0)
    → bytes f a (length buf) ≡ buf
bytes-buffer f a [] same = refl
bytes-buffer f a (x ∷ buf) same =
    let first : f a ≡ x = ap f {x = a} {y = a + 0} (omega arith) ∙ same 0 (omega arith) in
    let rest : bytes f (a + 1) (length buf) ≡ buf = bytes-buffer f (a + 1) buf λ k less.
      ap f {x = a + 1 + k} {y = a + suc k} (omega arith) ∙ same (suc k) (omega (arith, less)) in
    ap₂ (λ y ys. y ∷ ys) first rest
