-- ===== src/Pipe/Contents.antt =====
-- What the two copies of kernel/pipe.c do to the bytes that the ring holds.
use aurora_os.Prelude.{
  ℕ, ◌+◌, ◌-◌, ◌%◌, ◌^◌, ◌<◌, ◌≤◌, ◌≡◌, refl, sym, ap, ap₂, ◌∙◌, List, ◌++◌, arith, length, ltb,
  Bool-cases, inl, inr, min, le→ltb, ltb→lt, ltb→le,
}
use aurora_os.Circular.{span, span-add}
use aurora_os.Circular.Copy.{
  slice, length-slice, put_round, copy_bytes-eq-put_round, copy_bytes_two_runs, length-put_round,
  span-put_round, span-eq-slice, span_two_runs,
}
use aurora_os.Pipe.{PipeRing, copy_in, copy_out, at_most}

-- The indices are in the buffer, and the tail is `count` places after the head.
pub record IsValid (ring : PipeRing) : Type 0 where
  pub size : length ring.buf ≡ 4096
  pub head_low : ring.head < 4096
  pub count_low : ring.count ≤ 4096
  pub tail_place : ring.tail ≡ (ring.head + ring.count) % 4096

-- The bytes in the pipe, the oldest first.
abbrev pub contents : PipeRing → List ℕ
contents ring = span 0 4096 ring.buf ring.head ring.count

pub at_most-eq-min : (limit n : ℕ) → at_most limit n ≡ min limit n
unfolding at_most
at_most-eq-min limit n = ground arith

pub at_most_short : (limit n : ℕ) → limit ≤ n → at_most limit n ≡ limit
at_most_short limit n p = omega (arith, at_most-eq-min limit n)

pub at_most_long : (limit n : ℕ) → n < limit → at_most limit n ≡ n
at_most_long limit n p = omega (arith, at_most-eq-min limit n)

copy_in-buf :
    (src : List ℕ) (at n : ℕ) (ring : PipeRing)
    → ring.tail < 4096
    → n ≤ 4096
    → (copy_in src at n ring).buf ≡ put_round 4096 ring.buf ring.tail (slice src at n)
unfolding copy_in
copy_in-buf src at n ring tail few = elim (Bool-cases (ltb (4096 - ring.tail) n)) [
  | inl long ↦
      let past = ltb→lt _ _ long in
      rw (at_most_long n (4096 - ring.tail) past, long)
        (copy_bytes_two_runs 4096 ring.buf ring.tail src at n tail (omega arith) few)
  | inr short ↦
      let fits = ltb→le _ _ short in
      rw (at_most_short n (4096 - ring.tail) fits, le→ltb n n (omega arith))
        (copy_bytes-eq-put_round 4096 ring.buf ring.tail src at n (omega arith))
]

copy_out-bytes :
    (n : ℕ) (ring : PipeRing)
    → ring.head < 4096
    → n ≤ 4096
    → (copy_out n ring).0 ≡ span 0 4096 ring.buf ring.head n
unfolding copy_out
copy_out-bytes n ring head few = elim (Bool-cases (ltb (4096 - ring.head) n)) [
  | inl long ↦
      let past = ltb→lt _ _ long in
      rw (at_most_long n (4096 - ring.head) past, long)
        (span_two_runs 4096 ring.buf ring.head n head (omega arith) few)
  | inr short ↦
      let fits = ltb→le _ _ short in
      rw (at_most_short n (4096 - ring.head) fits, le→ltb n n (omega arith))
        (sym (span-eq-slice 4096 ring.buf ring.head n (omega arith)))
]

module _ (ring : PipeRing) (v : IsValid ring) where
  tail_low : ring.tail < 4096
  tail_low = rw v.tail_place (omega arith)

  pub copy_in-IsValid :
      (src : List ℕ) (at n : ℕ) → n ≤ 4096 - ring.count → IsValid (copy_in src at n ring)
  copy_in-IsValid src at n room =
      let written = copy_in-buf src at n ring tail_low (omega arith) in
      let kept = length-put_round 4096 ring.buf ring.tail (slice src at n) in
      let tail : (ring.tail + n) % 4096 ≡ (ring.head + (ring.count + n) % 2 ^ 32) % 4096 =
        omega (arith, v.tail_place) in
      unfold copy_in in
      record {
        size = ap length written ∙ kept ∙ v.size;
        head_low = v.head_low;
        count_low = omega arith;
        tail_place = tail;
      }

  -- What is copied in comes after what the ring holds.
  pub copy_in-contents :
      (src : List ℕ) (at n : ℕ)
      → n ≤ 4096 - ring.count
      → contents (copy_in src at n ring) ≡ contents ring ++ slice src at n
  copy_in-contents src at n room =
      let written = copy_in-buf src at n ring tail_low (omega arith) in
      let count : (ring.count + n) % 2 ^ 32 ≡ ring.count + length (slice src at n) =
        omega (arith, length-slice src at n) in
      let room' : ring.count + length (slice src at n) ≤ 4096 =
        omega (arith, length-slice src at n) in
      let extended =
        span-put_round 4096 ring.buf ring.head ring.count ring.tail (slice src at n) (omega arith)
          v.head_low room' v.tail_place in
      unfold copy_in in ap₂ (λ b k. span 0 4096 b ring.head k) written count ∙ extended

  pub copy_out-IsValid : (n : ℕ) → n ≤ ring.count → IsValid (copy_out n ring).1
  copy_out-IsValid n few =
      let tail : ring.tail ≡ ((ring.head + n) % 4096 + (ring.count + 2 ^ 32 - n) % 2 ^ 32) % 4096 =
        omega (arith, v.tail_place) in
      unfold copy_out in
      record { size = v.size; head_low = omega arith; count_low = omega arith; tail_place = tail }

  -- What is copied out is the front of what the ring holds.
  pub copy_out-contents :
      (n : ℕ) → n ≤ ring.count → contents ring ≡ (copy_out n ring).0 ++ contents (copy_out n ring).1
  copy_out-contents n few =
      let bytes = copy_out-bytes n ring v.head_low (omega arith) in
      let whole : ring.count ≡ n + (ring.count - n) = omega arith in
      let left : ring.count - n ≡ (ring.count + 2 ^ 32 - n) % 2 ^ 32 = omega arith in
      let parts = span-add 0 4096 ring.buf ring.head n (ring.count - n) v.head_low in
      ap (span 0 4096 ring.buf ring.head) whole
      ∙ parts
      ∙ ap₂ (λ b k. b ++ span 0 4096 ring.buf ((ring.head + n) % 4096) k) (sym bytes) left
      ∙ unfold copy_out in refl
