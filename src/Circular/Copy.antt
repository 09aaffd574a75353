-- ===== src/Circular/Copy.antt =====
-- `memcpy` into and out of a circular array in two runs: up to the end of the array, then on
-- from its start. Both are a walk round the array.
use native.Mathlib.Nat.{mod-eq_of_lt, mod-add-mod, mod_self, add-zero}
use aurora_os.Prelude.{
  ℕ, zero, suc, ◌+◌, ◌-◌, ◌%◌, ◌<◌, ◌≤◌, ◌≡◌, refl, sym, ap, ap₂, ◌∙◌, List, [], ◌∷◌, ◌++◌, arith,
  append-nil, append_assoc, length, get_or, set, length-set,
}
use aurora_os.Kstring.Memcpy.{copy_bytes}
use aurora_os.Circular.{span, span-add, span-set, round_step, round_zero}

-- The `n` bytes from index `s` on.
abbrev pub slice : List ℕ → ℕ → ℕ → List ℕ
slice m s zero = []
slice m s (suc n) = get_or m s 0 ∷ slice m (s + 1) n

pub length-slice : (m : List ℕ) (s n : ℕ) → length (slice m s n) ≡ n
length-slice m s zero = refl
length-slice m s (suc n) = ap suc (length-slice m (s + 1) n)

pub slice-add : (m : List ℕ) (s k n : ℕ) → slice m s (k + n) ≡ slice m s k ++ slice m (s + k) n
slice-add m s zero n =
    let start : s ≡ s + 0 = omega arith in
    let count : 0 + n ≡ n = omega arith in ap₂ (slice m) start count
slice-add m s (suc k) n =
    let shift : suc k + n ≡ suc (k + n) = omega arith in
    let next : s + suc k ≡ s + 1 + k = omega arith in
    rw (shift, next) (ap (λ l. get_or m s 0 ∷ l) (slice-add m (s + 1) k n))

round_end : (cap h : ℕ) → h < cap → (h + (cap - h)) % cap ≡ 0
round_end cap h p =
    let whole : h + (cap - h) ≡ cap = omega arith in ap (λ k. k % cap) whole ∙ mod_self cap

module _ (cap : ℕ) where
  -- Bytes written one after another, round the array.
  pub put_round : List ℕ → ℕ → List ℕ → List ℕ
  put_round buf t [] = buf
  put_round buf t (x ∷ xs) = put_round (set buf t x) ((t + 1) % cap) xs

  put_round-append :
      (buf : List ℕ) (t : ℕ) (xs ys : List ℕ)
      → t < cap
      → put_round buf t (xs ++ ys) ≡ put_round (put_round buf t xs) ((t + length xs) % cap) ys
  unfolding put_round
  put_round-append buf t [] ys h = rw (round_zero cap t h)
  put_round-append buf t (x ∷ xs) ys h =
      put_round-append (set buf t x) ((t + 1) % cap) xs ys (omega arith)
      ∙ ap (λ k. put_round (put_round (set buf t x) ((t + 1) % cap) xs) k ys)
          (round_step cap t (length xs))

  pub copy_bytes-eq-put_round :
      (buf : List ℕ) (t : ℕ) (src : List ℕ) (s n : ℕ)
      → t + n ≤ cap
      → copy_bytes buf t src s n ≡ put_round buf t (slice src s n)
  unfolding put_round copy_bytes
  copy_bytes-eq-put_round buf t src s zero h = refl
  copy_bytes-eq-put_round buf t src s (suc zero) h = refl
  copy_bytes-eq-put_round buf t src s (suc (suc n)) h =
      let next : (t + 1) % cap ≡ t + 1 = mod-eq_of_lt (omega arith) in
      rw (next, put_round)
        (copy_bytes-eq-put_round (set buf t (get_or src s 0)) (t + 1) src (s + 1) (suc n)
          (omega arith))

  -- Two runs of `memcpy` write the bytes round the array.
  pub copy_bytes_two_runs :
      (buf : List ℕ) (t : ℕ) (src : List ℕ) (s n : ℕ)
      → t < cap
      → cap < t + n
      → n ≤ cap
      → copy_bytes (copy_bytes buf t src s (cap - t)) 0 src (s + (cap - t)) (n - (cap - t))
        ≡ put_round buf t (slice src s n)
  copy_bytes_two_runs buf t src s n ht hn hc =
      let k = cap - t in
      let first = copy_bytes-eq-put_round buf t src s k (omega arith) in
      let second =
        copy_bytes-eq-put_round (copy_bytes buf t src s k) 0 src (s + k) (n - k) (omega arith) in
      let whole : n ≡ k + (n - k) = omega arith in
      let start : (t + length (slice src s k)) % cap ≡ 0 = rw length-slice (round_end cap t ht) in
      second
      ∙ ap (λ b. put_round b 0 (slice src (s + k) (n - k))) first
      ∙ sym (
          ap (λ j. put_round buf t (slice src s j)) whole
          ∙ ap (put_round buf t) (slice-add src s k (n - k))
          ∙ put_round-append buf t (slice src s k) (slice src (s + k) (n - k)) ht
          ∙ ap (λ j. put_round (put_round buf t (slice src s k)) j (slice src (s + k) (n - k)))
              start)

  pub length-put_round :
      (buf : List ℕ) (t : ℕ) (xs : List ℕ) → length (put_round buf t xs) ≡ length buf
  unfolding put_round
  length-put_round buf t [] = refl
  length-put_round buf t (x ∷ xs) =
      length-put_round (set buf t x) ((t + 1) % cap) xs ∙ length-set buf t x

  -- What is written just past a span extends it.
  pub span-put_round :
      (buf : List ℕ) (h n t : ℕ) (xs : List ℕ)
      → cap ≤ length buf
      → h < cap
      → n + length xs ≤ cap
      → t ≡ (h + n) % cap
      → span 0 cap (put_round buf t xs) h (n + length xs) ≡ span 0 cap buf h n ++ xs
  unfolding put_round
  span-put_round buf h n t [] hb hh hn e = ap (span 0 cap buf h) (add-zero n) ∙ sym (append-nil _)
  span-put_round buf h n t (x ∷ xs) hb hh hn e =
      let buf' = set buf t x in
      let count : n + suc (length xs) ≡ suc n + length xs = omega arith in
      let fits : cap ≤ length buf' = omega (arith, length-set buf t x) in
      let next : (t + 1) % cap ≡ (h + suc n) % cap =
        rw (e, mod-add-mod) (ap (λ k. k % cap) (omega arith)) in
      ap (span 0 cap (put_round buf' ((t + 1) % cap) xs) h) count
      ∙ span-put_round buf' h (suc n) ((t + 1) % cap) xs fits hh (omega arith) next
      ∙ ap (λ l. l ++ xs) (span-set 0 cap buf x n h t hb hh (omega arith) e)
      ∙ append_assoc (span 0 cap buf h n) (x ∷ []) xs

  -- A span that does not pass the end of the array is one run of `memcpy`.
  pub span-eq-slice : (buf : List ℕ) (h n : ℕ) → h + n ≤ cap → span 0 cap buf h n ≡ slice buf h n
  span-eq-slice buf h zero p = refl
  span-eq-slice buf h (suc zero) p = refl
  span-eq-slice buf h (suc (suc n)) p =
      let next : (h + 1) % cap ≡ h + 1 = mod-eq_of_lt (omega arith) in
      ap (λ l. get_or buf h 0 ∷ l) (rw next (span-eq-slice buf (h + 1) (suc n) (omega arith)))

  -- A span that passes the end is two.
  pub span_two_runs :
      (buf : List ℕ) (h n : ℕ)
      → h < cap
      → cap < h + n
      → n ≤ cap
      → slice buf h (cap - h) ++ slice buf 0 (n - (cap - h)) ≡ span 0 cap buf h n
  span_two_runs buf h n hh hn hc =
      let k = cap - h in
      let whole : k + (n - k) ≡ n = omega arith in
      let start : 0 ≡ (h + k) % cap = sym (round_end cap h hh) in
      ap₂ ◌++◌ (sym (span-eq-slice buf h k (omega arith)))
        (sym (span-eq-slice buf 0 (n - k) (omega arith)) ∙ ap (λ j. span 0 cap buf j (n - k)) start)
      ∙ sym (span-add 0 cap buf h k (n - k) hh)
      ∙ ap (span 0 cap buf h) whole
