-- ===== src/Buddy/Cover.antt =====
-- How many blocks a page frame lies in: the free lists of kernel/mem.c, frame by frame.
use native.Mathlib.Nat.{pow-suc, one-le-pow}
use aurora_os.Prelude.{
  ℕ, zero, suc, ◌+◌, ◌^◌, ◌≤◌, ◌<◌, ◌≡◌, ◌≢◌, refl, sym, Bool, true, false, ◌&&◌, ◌||◌, List, [],
  ◌∷◌, ltb, leb, ◌==◌, if◌then◌else◌, Bool-cases, inl, inr, arith,
}
use aurora_os.Buddy.{unlink, set_at}

-- 1 for the frames of the block of 2 ^ order pages at `p`.
abbrev pub inside : ℕ → ℕ → ℕ → ℕ
inside order p q = if leb p q && ltb q (p + 2 ^ order) then 1 else 0

unfoldable pub cover : ℕ → List ℕ → ℕ → ℕ
cover order [] q = 0
cover order (p ∷ ps) q = inside order p q + cover order ps q

-- Over all orders below `n`.
unfoldable pub free_cover : ℕ → (ℕ → List ℕ) → ℕ → ℕ
unfolding cover
free_cover zero area q = 0
free_cover (suc order) area q = free_cover order area q + cover order (area order) q

abbrev pub listed : ℕ → List ℕ → Bool
listed p [] = false
listed p (x ∷ xs) = (x == p) || listed p xs

pub halves :
    (order p q : ℕ) → inside order p q + inside order (p + 2 ^ order) q ≡ inside (suc order) p q
halves order p q = rw (pow-suc 2 order) (ground arith)

pub inside_self : (order p : ℕ) → inside order p p ≡ 1
inside_self order p = let positive = one-le-pow order 2 (omega arith) in ground arith

pub cover-unlink :
    (order p : ℕ) (xs : List ℕ) (q : ℕ)
    → listed p xs ≡ true
    → cover order (unlink p xs) q + inside order p q ≡ cover order xs q
unfolding cover unlink
cover-unlink order p [] q h = absurd (cc)
cover-unlink order p (x ∷ xs) q h = elim (Bool-cases (x == p)) [
  | inl e ↦ rw e (ground arith)
  | inr e ↦ rw e (ground (arith, cover-unlink order p xs q))
]

pub listed-unlink :
    (r p : ℕ) (xs : List ℕ) → r ≢ p → listed r xs ≡ true → listed r (unlink p xs) ≡ true
unfolding unlink
listed-unlink r p [] n h = h
listed-unlink r p (x ∷ xs) n h = ground (arith, listed-unlink r p xs n)

pub listed_unlinked : (r p : ℕ) (xs : List ℕ) → listed r (unlink p xs) ≡ true → listed r xs ≡ true
unfolding unlink
listed_unlinked r p [] h = h
listed_unlinked r p (x ∷ xs) h = ground (arith, listed_unlinked r p xs)

pub cover-listed : (order p : ℕ) (xs : List ℕ) → listed p xs ≡ true → 1 ≤ cover order xs p
unfolding cover
cover-listed order p [] h = absurd (cc)
cover-listed order p (x ∷ xs) h =
    let positive = one-le-pow order 2 (omega arith) in ground (arith, cover-listed order p xs)

pub free_cover-above :
    (n order : ℕ) (area : ℕ → List ℕ) (xs : List ℕ) (q : ℕ)
    → n ≤ order
    → free_cover n (set_at area order xs) q ≡ free_cover n area q
unfolding free_cover
free_cover-above zero order area xs q h = refl
free_cover-above (suc n) order area xs q h =
    let other : (n == order) ≡ false = ground arith in
    rw other (omega (arith, free_cover-above n order area xs q (omega arith)))

-- A list that is replaced changes the sum by the difference.
pub free_cover-set_at :
    (n order : ℕ) (area : ℕ → List ℕ) (xs : List ℕ) (q : ℕ)
    → order < n
    → free_cover n (set_at area order xs) q + cover order (area order) q
      ≡ free_cover n area q + cover order xs q
unfolding free_cover
free_cover-set_at zero order area xs q h = absurd (omega arith)
free_cover-set_at (suc n) order area xs q h = elim (Bool-cases (n == order)) [
  | inl e ↦
      let same : n ≡ order = ground arith in
      rw (e, sym same) (omega (arith, free_cover-above n n area xs q (omega arith)))
  | inr e ↦
      let below : order < n = ground arith in
      rw e (omega (arith, free_cover-set_at n order area xs q below))
]

pub cover-free_cover :
    (n order : ℕ) (area : ℕ → List ℕ) (q : ℕ)
    → order < n
    → cover order (area order) q ≤ free_cover n area q
unfolding free_cover
cover-free_cover zero order area q h = absurd (omega arith)
cover-free_cover (suc n) order area q h = elim (Bool-cases (n == order)) [
  | inl e ↦ let same : n ≡ order = ground arith in rw (sym same) (omega arith)
  | inr e ↦
      let below : order < n = ground arith in omega (arith, cover-free_cover n order area q below)
]
