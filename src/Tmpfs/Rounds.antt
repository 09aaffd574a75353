-- ===== src/Tmpfs/Rounds.antt =====
-- The loop of tmpfs_write of kernel/tmpfs.c, chunk by chunk.
use aurora_os.Prelude.{
  then_equal, ℕ, zero, suc, ◌+◌, ◌-◌, ◌/◌, ◌%◌, ◌^◌, ◌≤◌, ◌<◌, ◌≡◌, refl, ap, ◌∙◌, true, false,
  Option, List, length, get_or, leb, if◌then◌else◌, arith, Bool-cases, inl, inr, if-holds,
}
use aurora_os.Buddy.{page_size}
use aurora_os.Tmpfs.{PageBytes, page_of, chunk_of, page_index, is_present, store_chunk, write_loop}
use aurora_os.Tmpfs.Bytes.{byte_at, chunk_of_fits, chunk_of_positive}
use aurora_os.Tmpfs.Stores.{in_range, store-byte, store-present}

-- Two ranges that follow each other.
ranges_join :
    (f g : ℕ → ℕ) (start m n i : ℕ)
    → (if in_range (start + m) n i then f i else if in_range start m i then f i else g i)
      ≡ (if in_range start (m + n) i then f i else g i)
ranges_join f g start m n i = elim (Bool-cases (in_range start m i)) [
  | inl first ↦
      let all : in_range start (m + n) i ≡ true = ground arith in
      rw (first, all) (if-holds (λ x. x ≡ f i) (in_range (start + m) n i) refl refl)
  | inr other ↦
      let same : in_range (start + m) n i ≡ in_range start (m + n) i = ground arith in
      rw (other, same) refl
]

-- One round, with what the rounds after it do.
write_round :
    (pages after : List (Option PageBytes)) (buf : List ℕ) (total cur_off i : ℕ)
    → 0 < length buf - total
    → cur_off + (length buf - total) ≤ 2 ^ 44
    → is_present (page_of pages (cur_off / page_size)) ≡ true
    → byte_at after i ≡ (
        if in_range
          (cur_off + chunk_of cur_off (length buf - total))
          (length buf - (total + chunk_of cur_off (length buf - total)))
          i
        then get_or buf
            (total
              + chunk_of cur_off (length buf - total)
              + (i - (cur_off + chunk_of cur_off (length buf - total))))
            0
        else byte_at
            (store_chunk pages
              (page_index cur_off)
              (cur_off % page_size)
              (chunk_of cur_off (length buf - total))
              buf
              total)
            i)
    → byte_at after i ≡ (
        if in_range cur_off (length buf - total) i
        then get_or buf (total + (i - cur_off)) 0
        else byte_at pages i)
write_round pages after buf total cur_off i some_left small there later =
    later
    ∙ then_equal (in_range (cur_off + chunk) rest i) _ (λ inside.
      ap (λ k. get_or buf k 0) {x = total + chunk + (i - (cur_off + chunk))}
        {y = total + (i - cur_off)} (ground (arith, inside)))
    ∙ ap (λ old. if in_range (cur_off + chunk) rest i then f i else old)
        (store-byte pages cur_off chunk buf total i there (omega arith)
          (chunk_of_fits cur_off left))
    ∙ ranges_join f (byte_at pages) cur_off chunk rest i
    ∙ ap (λ n. if in_range cur_off n i then f i else byte_at pages i) {x = chunk + rest} {y = left}
        (omega (arith, no_more))
  where
    left : ℕ
    left = length buf - total

    chunk : ℕ
    chunk = chunk_of cur_off left

    rest : ℕ
    rest = length buf - (total + chunk)

    no_more : chunk ≤ left
    no_more = (chunk_of_positive cur_off left some_left).1

    f : ℕ → ℕ
    f i = get_or buf (total + (i - cur_off)) 0

-- In as many rounds as bytes are left, each of them is written to its place, and no other byte changes.
pub write_loop-byte :
    (fuel : ℕ) (pages : List (Option PageBytes)) (buf : List ℕ) (total cur_off i : ℕ)
    → length buf - total ≤ fuel
    → cur_off + (length buf - total) ≤ 2 ^ 44
    → ((k : ℕ)
        → k < length buf - total
        → is_present (page_of pages ((cur_off + k) / page_size)) ≡ true)
    → byte_at (write_loop fuel pages buf total cur_off) i ≡ (
        if in_range cur_off (length buf - total) i
        then get_or buf (total + (i - cur_off)) 0
        else byte_at pages i)
unfolding write_loop
write_loop-byte zero pages buf total cur_off i enough small there =
    let none_left : in_range cur_off (length buf - total) i ≡ false = ground arith in
    rw none_left refl
write_loop-byte (suc fuel) pages buf total cur_off i enough small there =
    elim (Bool-cases (leb (length buf) total)) [
      | inl over ↦
          let none_left : in_range cur_off (length buf - total) i ≡ false = ground arith in
          rw (over, none_left) refl
      | inr more ↦
          let some_left : 0 < length buf - total = ground (arith, more) in
          let chunk = chunk_of cur_off (length buf - total) in
          let sizes = chunk_of_positive cur_off (length buf - total) some_left in
          let stored =
            store_chunk pages (page_index cur_off) (cur_off % page_size) chunk buf total in
          let at_first : is_present (page_of pages (cur_off / page_size)) ≡ true =
            ap (λ k. is_present (page_of pages (k / page_size))) {x = cur_off} {y = cur_off + 0}
              (omega arith)
            ∙ there 0 some_left in
          let later =
            write_loop-byte fuel stored buf (total + chunk) (cur_off + chunk) i
              (omega (arith, sizes.0, sizes.1)) (omega (arith, sizes.1))
              λ k less.
                store-present pages (page_index cur_off) (cur_off % page_size) chunk buf total
                  ((cur_off + chunk + k) / page_size)
                  (ap (λ x. is_present (page_of pages (x / page_size))) {x = cur_off + chunk + k}
                      {y = cur_off + (chunk + k)} (omega arith)
                    ∙ there (chunk + k) (omega (arith, less))) in
          rw more (
            write_round pages (write_loop fuel stored buf (total + chunk) (cur_off + chunk)) buf
              total cur_off i some_left small at_first later)
    ]
