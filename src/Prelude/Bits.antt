-- ===== src/Prelude/Bits.antt =====
-- Binary digits of native numbers, and `&`, `|`, `^` read digit by digit.
use Prim.Native.Nat.{ℕ, zero, suc, ◌+◌, ◌*◌, ◌/◌, ◌%◌, ◌^◌, ◌≤◌, ◌<◌, min, max}
use Prim.Native.Nat.{bit_and, bit_or, bit_xor, digits, bitwise, differ}
use Prim.Native.Nat.{bit_and-bitwise, bit_or-bitwise, bit_xor-bitwise}
use mathlib.Core.Path.{◌≡◌, refl, sym, ap, ◌∙◌}
use mathlib.Core.Logic.{◌⊎◌, inl, inr, ◌↔◌}
use mathlib.Core.Bool.{true, not}
use native.Mathlib.Nat.{pow-suc, one-le-pow}
use aurora_os.Prelude.Tests.{◌==◌, Bool-cases}
use native.Mathlib.Omega.{arith}

-- The digit of weight `2 ^ i`.
abbrev pub bit : ℕ → ℕ → ℕ
bit a zero = a % 2
bit a (suc i) = bit (a / 2) i

-- `digits` recurs on fuel: any amount that covers the left number gives one result.
module _ (z : ℕ → ℕ) (f : ℕ → ℕ → ℕ) where
  spare_fuel : (k m a b : ℕ) → a ≤ k → a ≤ m → digits z f k a b ≡ digits z f m a b
  spare_fuel zero zero zero b p q = refl
  spare_fuel zero (suc m) zero b p q = refl
  spare_fuel (suc k) zero zero b p q = refl
  spare_fuel (suc k) (suc m) zero b p q = refl
  spare_fuel zero m (suc a) b p q = absurd (omega arith)
  spare_fuel (suc k) zero (suc a) b p q = absurd (omega arith)
  spare_fuel (suc k) (suc m) (suc a) b p q =
      let half = spare_fuel k m (suc a / 2) (b / 2) (omega arith) (omega arith) in
      ap (λ t. t * 2 + f (suc a % 2) (b % 2)) half

  digits_unfold :
      (a b : ℕ)
      → bitwise z f (suc a) b ≡ bitwise z f (suc a / 2) (b / 2) * 2 + f (suc a % 2) (b % 2)
  digits_unfold a b =
      let half = spare_fuel a (suc a / 2) (suc a / 2) (b / 2) (omega arith) (omega arith) in
      ap (λ t. t * 2 + f (suc a % 2) (b % 2)) half

pub bit_and_halves : (a b : ℕ) → bit_and a b ≡ min (a % 2) (b % 2) + 2 * bit_and (a / 2) (b / 2)
bit_and_halves zero b = omega (arith, bit_and-bitwise 0 b, bit_and-bitwise 0 (b / 2))
bit_and_halves (suc a) b =
    simp bit_and-bitwise (let low = digits_unfold (λ y. 0) min a b in omega arith)

pub bit_or_halves : (a b : ℕ) → bit_or a b ≡ max (a % 2) (b % 2) + 2 * bit_or (a / 2) (b / 2)
bit_or_halves zero b = omega (arith, bit_or-bitwise 0 b, bit_or-bitwise 0 (b / 2))
bit_or_halves (suc a) b =
    simp bit_or-bitwise (let low = digits_unfold (λ y. y) max a b in omega arith)

pub differ_bits : (x y : ℕ) → x < 2 → y < 2 → differ x y < 2
differ_bits zero y p q = q
differ_bits (suc zero) zero p q = omega arith
differ_bits (suc zero) (suc y) p q = omega arith
differ_bits (suc (suc x)) y p q = absurd (omega arith)

pub bit_xor_halves : (a b : ℕ) → bit_xor a b ≡ differ (a % 2) (b % 2) + 2 * bit_xor (a / 2) (b / 2)
bit_xor_halves zero b = omega (arith, bit_xor-bitwise 0 b, bit_xor-bitwise 0 (b / 2))
bit_xor_halves (suc a) b =
    simp bit_xor-bitwise (let low = digits_unfold (λ y. y) differ a b in omega arith)

pub bit-lt : (a i : ℕ) → bit a i < 2
bit-lt a zero = omega arith
bit-lt a (suc i) = bit-lt (a / 2) i

pub bit-zero : (i : ℕ) → bit 0 i ≡ 0
bit-zero zero = refl
bit-zero (suc i) = bit-zero i

pub bit-bit_and : (a b i : ℕ) → bit (bit_and a b) i ≡ min (bit a i) (bit b i)
bit-bit_and a b zero = omega (arith, bit_and_halves a b)
bit-bit_and a b (suc i) =
    let half : bit_and a b / 2 ≡ bit_and (a / 2) (b / 2) = omega (arith, bit_and_halves a b) in
    ap (λ t. bit t i) half ∙ bit-bit_and (a / 2) (b / 2) i

pub bit-bit_or : (a b i : ℕ) → bit (bit_or a b) i ≡ max (bit a i) (bit b i)
bit-bit_or a b zero = omega (arith, bit_or_halves a b)
bit-bit_or a b (suc i) =
    let half : bit_or a b / 2 ≡ bit_or (a / 2) (b / 2) = omega (arith, bit_or_halves a b) in
    ap (λ t. bit t i) half ∙ bit-bit_or (a / 2) (b / 2) i

-- The operations stay within a width.
pub bit_and-lt : (k a b : ℕ) → a < 2 ^ k → bit_and a b < 2 ^ k
bit_and-lt zero zero b p = omega (arith, bit_and-bitwise 0 b)
bit_and-lt zero (suc a) b p = absurd (omega arith)
bit_and-lt (suc k) a b p =
    let half = bit_and-lt k (a / 2) (b / 2) (omega (arith, pow-suc 2 k)) in
    omega (arith, pow-suc 2 k, bit_and_halves a b)

pub bit_or-lt : (k a b : ℕ) → a < 2 ^ k → b < 2 ^ k → bit_or a b < 2 ^ k
bit_or-lt zero zero b p q = omega (arith, bit_or-bitwise 0 b)
bit_or-lt zero (suc a) b p q = absurd (omega arith)
bit_or-lt (suc k) a b p q =
    let half =
      bit_or-lt k (a / 2) (b / 2) (omega (arith, pow-suc 2 k)) (omega (arith, pow-suc 2 k)) in
    omega (arith, pow-suc 2 k, bit_or_halves a b)

pub bit_xor-lt : (k a b : ℕ) → a < 2 ^ k → b < 2 ^ k → bit_xor a b < 2 ^ k
bit_xor-lt zero zero b p q = omega (arith, bit_xor-bitwise 0 b)
bit_xor-lt zero (suc a) b p q = absurd (omega arith)
bit_xor-lt (suc k) a b p q =
    let half =
      bit_xor-lt k (a / 2) (b / 2) (omega (arith, pow-suc 2 k)) (omega (arith, pow-suc 2 k)) in
    let last = differ_bits (a % 2) (b % 2) (omega arith) (omega arith) in
    omega (arith, pow-suc 2 k, bit_xor_halves a b)

-- `a & (1 << i)` is the digit of weight `2 ^ i`, in its place.
pub bit_and-zero : (a : ℕ) → bit_and a 0 ≡ 0
bit_and-zero a = below a a (omega arith)
  where
    below : (bound x : ℕ) → x ≤ bound → bit_and x 0 ≡ 0
    below bound zero small = bit_and-bitwise 0 0
    below zero (suc x) small = absurd (omega arith)
    below (suc bound) (suc x) small =
        let half = below bound (suc x / 2) (omega arith) in omega (arith, bit_and_halves (suc x) 0)

pub bit_and-pow : (a i : ℕ) → bit_and a (2 ^ i) ≡ bit a i * 2 ^ i
bit_and-pow a zero = omega (arith, bit_and_halves a 1, bit_and-zero (a / 2))
bit_and-pow a (suc i) =
    let half = bit_and-pow (a / 2) i in
    rw (pow-suc 2 i) (ground (arith, bit_and_halves a (2 ^ i * 2), half))

pub bit_and-lt_right : (k a b : ℕ) → b < 2 ^ k → bit_and a b < 2 ^ k
bit_and-lt_right zero a zero p = omega (arith, bit_and-zero a)
bit_and-lt_right zero a (suc b) p = absurd (omega arith)
bit_and-lt_right (suc k) a b p =
    let half = bit_and-lt_right k (a / 2) (b / 2) (omega (arith, pow-suc 2 k)) in
    omega (arith, pow-suc 2 k, bit_and_halves a b)

pub bit-cases : (a i : ℕ) → (bit a i ≡ 0) ⊎ (bit a i ≡ 1)
bit-cases a i = elim (Bool-cases (bit a i == 0)) [
  | inl z ↦ inl (ground arith)
  | inr o ↦ inr (ground (arith, bit-lt a i))
]

-- The C test `a & (1 << i)`.
pub mask_test : (a i : ℕ) → (not (bit_and a (2 ^ i) == 0) ≡ true) ↔ (bit a i ≡ 1)
mask_test a i = elim (bit-cases a i) [
  | inl z ↦ rw (bit_and-pow a i, z) (ground arith)
  | inr o ↦ rw (bit_and-pow a i, o) (ground (arith, one-le-pow i 2))
]

-- `a ^ (1 << i)` turns one digit over.
differ_zero : (x : ℕ) → x < 2 → differ x 0 ≡ x
differ_zero zero p = refl
differ_zero (suc zero) p = refl
differ_zero (suc (suc x)) p = absurd (omega arith)

bit_xor-zero : (bound a : ℕ) → a ≤ bound → bit_xor a 0 ≡ a
bit_xor-zero bound zero small = bit_xor-bitwise 0 0
bit_xor-zero zero (suc a) small = absurd (omega arith)
bit_xor-zero (suc bound) (suc a) small =
    let half = bit_xor-zero bound (suc a / 2) (omega arith) in
    omega (arith, bit_xor_halves (suc a) 0, differ_zero (suc a % 2) (omega arith))

pub bit_xor-pow : (a i : ℕ) → (bit_xor a (2 ^ i) ≡ a + 2 ^ i) ⊎ (a ≡ bit_xor a (2 ^ i) + 2 ^ i)
bit_xor-pow a zero = last (a % 2) refl
  where
    high : bit_xor (a / 2) 0 ≡ a / 2
    high = bit_xor-zero (a / 2) (a / 2) (omega arith)

    last : (x : ℕ) → a % 2 ≡ x → (bit_xor a 1 ≡ a + 1) ⊎ (a ≡ bit_xor a 1 + 1)
    last zero e = inl (bit_xor_halves a 1 ∙ rw (e, high) (omega arith))
    last (suc zero) e =
        inr (sym (ap (λ t. t + 1) (bit_xor_halves a 1) ∙ rw (e, high) (omega arith)))
    last (suc (suc x)) e = absurd (omega arith)
bit_xor-pow a (suc i) = elim (bit_xor-pow (a / 2) i) [
  | inl e ↦ inl (omega (arith, shifted, pow-suc 2 i))
  | inr e ↦ inr (omega (arith, shifted, pow-suc 2 i))
]
  where
    shifted : bit_xor a (2 ^ suc i) ≡ a % 2 + 2 * bit_xor (a / 2) (2 ^ i)
    shifted =
        let low : 2 ^ i * 2 % 2 ≡ 0 = omega arith in
        let half : 2 ^ i * 2 / 2 ≡ 2 ^ i = omega arith in
        rw (pow-suc 2 i) (
          bit_xor_halves a (2 ^ i * 2)
          ∙ rw (low, half) (omega (arith, differ_zero (a % 2) (omega arith))))
