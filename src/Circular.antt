-- ===== src/Circular.antt =====
-- Circular arrays: what `n` slots from a head index hold, going round at the capacity. The
-- HID event queue and the pipe ring are arrays of this kind.
pub mod Copy
use mathlib.Core.Bool.{true}
use native.Mathlib.Nat.{mod-add-mod, mod-eq_of_lt, mod-eq-sub-mod, add-zero}
use aurora_os.Prelude.{
  ℕ, zero, suc, ◌+◌, ◌-◌, ◌%◌, ◌<◌, ◌≤◌, ◌≡◌, ◌≢◌, refl, sym, ap, ap₂, ◌∙◌, List, [], ◌∷◌, ◌++◌,
  arith, length, get_or, set, get_or-set, ne→==, ==_refl, ltb, Bool-cases, ltb→lt, ltb→le, inl, inr,
}

-- A position past the end comes back once round.
round_wrap : (cap at : ℕ) → cap ≤ at → at < cap + cap → at % cap ≡ at - cap
round_wrap cap at past near =
    mod-eq-sub-mod {n = at} {m = cap} past ∙ mod-eq_of_lt {n = at - cap} {m = cap} (omega arith)

-- Going on by fewer than `cap` places does not lead back to the place.
pub round_ne : (cap place k : ℕ) → place < cap → suc k < cap → (place + suc k) % cap ≢ place
round_ne cap place k inside few = elim (Bool-cases (ltb (place + suc k) cap)) [
  | inl before ↦
      let stays = mod-eq_of_lt {n = place + suc k} {m = cap} (ltb→lt _ _ before) in omega arith
  | inr after ↦
      let past : cap ≤ place + suc k = ltb→le _ _ after in
      let comes_back = round_wrap cap (place + suc k) past (omega arith) in omega arith
]

pub round_step : (cap h n : ℕ) → ((h + 1) % cap + n) % cap ≡ (h + suc n) % cap
round_step cap h n = rw mod-add-mod (ap (λ k. k % cap) (omega arith))

round_zero : (cap h : ℕ) → h < cap → (h + 0) % cap ≡ h
round_zero cap h p = ap (λ k. k % cap) (add-zero h) ∙ mod-eq_of_lt p

module _ {ℓ} {A : Type ℓ} (d : A) (cap : ℕ) where
  -- The `n` elements from index `h` on.
  abbrev pub span : List A → ℕ → ℕ → List A
  span buf h zero = []
  span buf h (suc n) = get_or buf h d ∷ span buf ((h + 1) % cap) n

  pub length-span : (buf : List A) (h n : ℕ) → length (span buf h n) ≡ n
  length-span buf h zero = refl
  length-span buf h (suc n) = ap suc (length-span buf ((h + 1) % cap) n)

  -- The first element of a span, and the rest.
  pub span_of_pos :
      (buf : List A) (h n : ℕ)
      → 0 < n
      → span buf h n ≡ get_or buf h d ∷ span buf ((h + 1) % cap) (n - 1)
  span_of_pos buf h zero p = absurd (omega arith)
  span_of_pos buf h (suc n) p = ap (λ k. span buf h (suc k)) (omega arith)

  pub span-add :
      (buf : List A) (h m n : ℕ)
      → h < cap
      → span buf h (m + n) ≡ span buf h m ++ span buf ((h + m) % cap) n
  span-add buf h zero n p = ap₂ (λ k j. span buf k j) (sym (round_zero cap h p)) (omega arith)
  span-add buf h (suc m) n p =
      let shift : suc m + n ≡ suc (m + n) = omega arith in
      let h' = (h + 1) % cap in
      let rest = span-add buf h' m n (omega arith) in
      let join = ap (λ k. span buf h' m ++ span buf k n) (round_step cap h m) in
      rw shift (ap (λ l. get_or buf h d ∷ l) (rest ∙ join))

  -- A write outside of a span leaves it alone.
  span-set_outside :
      (buf : List A) (place count at : ℕ) (v : A)
      → place < cap
      → at < length buf
      → ((k : ℕ) → k < count → (place + k) % cap ≢ at)
      → span (set buf at v) place count ≡ span buf place count
  span-set_outside buf place zero at v inside fits apart = refl
  span-set_outside buf place (suc count) at v inside fits apart =
      let first : at ≢ place = λ e. apart 0 (omega arith) (round_zero cap place inside ∙ sym e) in
      let kept = get_or-set buf at place v d fits in
      let later : (k : ℕ) → k < count → ((place + 1) % cap + k) % cap ≢ at =
        λ k few e. apart (suc k) (omega arith) (sym (round_step cap place k) ∙ e) in
      let rest = span-set_outside buf ((place + 1) % cap) count at v (omega arith) fits later in
      ap₂ ◌∷◌ (rw (kept, ne→== at place first)) rest

  round_apart :
      (place count : ℕ)
      → place < cap
      → count < cap
      → (k : ℕ) → k < count
      → (place + k) % cap ≢ (place + count) % cap
  round_apart place count inside few k lt e =
      let here = (place + k) % cap in
      let gap = count - k - 1 in
      let total : place + k + suc gap ≡ place + count = omega arith in
      let onward : (here + suc gap) % cap ≡ (place + count) % cap =
        rw mod-add-mod (ap (λ n. n % cap) total) in
      round_ne cap here gap (omega arith) (omega arith) (onward ∙ sym e)

  -- Writing the slot just past a span extends it by that element.
  pub span-set :
      (buf : List A) (v : A) (count place at : ℕ)
      → cap ≤ length buf
      → place < cap
      → count < cap
      → at ≡ (place + count) % cap
      → span (set buf at v) place (suc count) ≡ span buf place count ++ v ∷ []
  span-set buf v count place at room inside few e =
      let split : suc count ≡ count + 1 = omega arith in
      let fits : at < length buf = rw e (omega arith) in
      let before =
        span-set_outside buf place count at v inside fits
          (λ k lt q. round_apart place count inside few k lt (q ∙ e)) in
      let last = get_or-set buf at at v d fits in
      ap (span (set buf at v) place) split
      ∙ span-add (set buf at v) place count 1 inside
      ∙ ap₂ ◌++◌ before (ap (λ y. y ∷ []) (rw (← e, last, ==_refl at)))
