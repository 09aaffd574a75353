-- ===== src/Kstring/Memcpy.antt =====
-- kernel/string.c, memcpy: the byte loop, and the fast path that moves eight bytes at a time.
-- `dst` and `src` are the two memory areas, which do not overlap, with the index of the first
-- byte in each. A write out of an area changes nothing, and a read out of an area gives 0.
use native.Mathlib.Nat.{add-zero}
use aurora_os.Prelude.{
  ℕ, zero, suc, ◌+◌, ◌-◌, ◌*◌, ◌/◌, ◌%◌, ◌^◌, ◌<◌, ◌≤◌, ◌≡◌, refl, ap, ◌∙◌, Bool, ◌&&◌, List, [],
  ◌∷◌, arith, get_or, set, ltb, ◌==◌, if◌then◌else◌, Bool-cases, inl, inr,
}

-- `for (i = 0; i < remaining; ++i) d[i] = s[i];`
unfoldable pub copy_bytes : List ℕ → ℕ → List ℕ → ℕ → ℕ → List ℕ
copy_bytes dst d src s zero = dst
copy_bytes dst d src s (suc n) = copy_bytes (set dst d (get_or src s 0)) (d + 1) src (s + 1) n

-- `*s64`, little endian, byte by byte.
unfoldable pub load_bytes : ℕ → List ℕ → ℕ → ℕ
load_bytes zero m i = 0
load_bytes (suc k) m i = get_or m i 0 + 2 ^ 8 * load_bytes k m (i + 1)

load64 : List ℕ → ℕ → ℕ
unfolding load_bytes
load64 m i = load_bytes 8 m i

-- `*d64 = v`, byte by byte.
store_bytes : ℕ → List ℕ → ℕ → ℕ → List ℕ
store_bytes zero m i v = m
store_bytes (suc k) m i v = store_bytes k (set m i (v % 2 ^ 8)) (i + 1) (v / 2 ^ 8)

store64 : List ℕ → ℕ → ℕ → List ℕ
unfolding store_bytes
store64 m i v = store_bytes 8 m i v

-- What the loop over words leaves: the area, the next index in each, and the bytes to go.
record Words : Type 0 where
  dst : List ℕ
  d : ℕ
  s : ℕ
  remaining : ℕ

-- `while (remaining >= 8) { *d64++ = *s64++; remaining -= 8; }`
copy_words : ℕ → List ℕ → ℕ → List ℕ → ℕ → ℕ → Words
copy_words zero dst d src s n = record { dst = dst; d = d; s = s; remaining = n }
copy_words (suc fuel) dst d src s n =
    let rest = copy_words fuel (store64 dst d (load64 src s)) (d + 8) src (s + 8) (n - 8) in
    if ltb n 8 then record { dst = dst; d = d; s = s; remaining = n } else rest

aligned : ℕ → Bool
aligned addr = addr % 8 == 0

finish : List ℕ → Words → List ℕ
finish src w = copy_bytes w.dst w.d src w.s w.remaining

-- `memcpy(dst, src, n)`, for areas whose first bytes have the addresses `dst_addr`, `src_addr`.
unfoldable pub memcpy : (dst_addr src_addr : ℕ) → List ℕ → ℕ → List ℕ → ℕ → ℕ → List ℕ
unfolding aligned copy_words finish copy_bytes load64 store64
memcpy dst_addr src_addr dst d src s n =
    if aligned (dst_addr + d) && aligned (src_addr + s)
    then finish src (copy_words n dst d src s n)
    else copy_bytes dst d src s n

abbrev pub Bytes : List ℕ → Type 0
Bytes m = (i : ℕ) → get_or m i 0 < 2 ^ 8

-- The same, element by element.
abbrev pub AllBytes : List ℕ → Type 0
AllBytes [] = Unit
AllBytes (x ∷ m) = (x < 2 ^ 8) × AllBytes m

pub AllBytes-Bytes : (m : List ℕ) → AllBytes m → Bytes m
AllBytes-Bytes [] h i = omega arith
AllBytes-Bytes (x ∷ m) h zero = h.0
AllBytes-Bytes (x ∷ m) h (suc i) = AllBytes-Bytes m h.1 i

module _ (src : List ℕ) (bytes : Bytes src) where
  -- Bytes that are loaded as a number and stored again are moved.
  store-load_bytes :
      (k : ℕ) (dst : List ℕ) (d s m : ℕ)
      → copy_bytes (store_bytes k dst d (load_bytes k src s)) (d + k) src (s + k) m
        ≡ copy_bytes dst d src s (k + m)
  unfolding copy_bytes store_bytes load_bytes
  store-load_bytes zero dst d s m =
      rw (add-zero d, add-zero s) (ap (copy_bytes dst d src s) {x = m} {y = 0 + m} (omega arith))
  store-load_bytes (suc k) dst d s m =
      let v = get_or src s 0 + 2 ^ 8 * load_bytes k src (s + 1) in
      let low : v % 2 ^ 8 ≡ get_or src s 0 = omega (arith, bytes s) in
      let high : v / 2 ^ 8 ≡ load_bytes k src (s + 1) = omega (arith, bytes s) in
      let count : suc k + m ≡ suc (k + m) = omega arith in
      let next : (i : ℕ) → i + suc k ≡ i + 1 + k = λ i. omega arith in
      rw (low, high, count, next d, next s)
        (store-load_bytes k (set dst d (get_or src s 0)) (d + 1) (s + 1) m)

  store64-load64 :
      (dst : List ℕ) (d s m : ℕ)
      → copy_bytes (store64 dst d (load64 src s)) (d + 8) src (s + 8) m
        ≡ copy_bytes dst d src s (8 + m)
  unfolding store64 load64
  store64-load64 dst d s m = store-load_bytes 8 dst d s m

  finish-copy_words :
      (fuel : ℕ) (dst : List ℕ) (d s n : ℕ)
      → n ≤ fuel
      → finish src (copy_words fuel dst d src s n) ≡ copy_bytes dst d src s n
  unfolding copy_words finish
  finish-copy_words zero dst d s n h = refl
  finish-copy_words (suc fuel) dst d s n h = elim (Bool-cases (ltb n 8)) [
    | inl few ↦ rw few
    | inr more ↦ rw more (
        finish-copy_words fuel (store64 dst d (load64 src s)) (d + 8) (s + 8) (n - 8) (ground arith)
        ∙ store64-load64 dst d s (n - 8)
        ∙ ap (copy_bytes dst d src s) (ground arith))
  ]

-- The fast path copies the same bytes as the plain loop, whatever the alignment.
pub memcpy-eq-copy_bytes :
    (dst_addr src_addr : ℕ) (dst : List ℕ) (d : ℕ) (src : List ℕ) (s n : ℕ)
    → Bytes src
    → memcpy dst_addr src_addr dst d src s n ≡ copy_bytes dst d src s n
unfolding memcpy
memcpy-eq-copy_bytes dst_addr src_addr dst d src s n bytes =
    elim (Bool-cases (aligned (dst_addr + d) && aligned (src_addr + s))) [
      | inl fast ↦ rw fast (finish-copy_words src bytes n dst d s n (omega arith))
      | inr slow ↦ rw slow
    ]
