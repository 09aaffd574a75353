-- ===== src/Cmdline/Words.antt =====
-- cmdline_has_flag of kernel/cmdline.c against a reading of the line as words.
use aurora_os.Prelude.{
  ℕ, zero, suc, ◌<◌, ◌≤◌, ◌≡◌, ◌≢◌, refl, sym, ap, ap₂, ◌∙◌, Bool, true, false, ◌&&◌, ◌||◌, some,
  List, [], ◌∷◌, arith, length, length-take, length-drop, take, drop, ◌==◌, if◌then◌else◌,
  Bool-cases, inl, inr, ==→eq,
}
use aurora_os.Cmdline.{strncmp_equal, skip_spaces, word_length, next_word, cmdline_has_flag}

abbrev push_front : ℕ → List (List ℕ) → List (List ℕ)
push_front c [] = (c ∷ []) ∷ []
push_front c (piece ∷ pieces) = (c ∷ piece) ∷ pieces

-- The pieces between the spaces, the empty ones included.
unfoldable pub split : List ℕ → List (List ℕ)
split [] = [] ∷ []
split (c ∷ rest) = let later = split rest in if c == 32 then [] ∷ later else push_front c later

abbrev pub same : List ℕ → List ℕ → Bool
same [] [] = true
same [] (y ∷ b) = false
same (x ∷ a) [] = false
same (x ∷ a) (y ∷ b) = x == y && same a b

-- `word` is not empty, and is `flag`.
abbrev pub is_word : List ℕ → List ℕ → Bool
is_word flag [] = false
is_word flag (c ∷ rest) = same (c ∷ rest) flag

abbrev pub mentions : List ℕ → List (List ℕ) → Bool
mentions flag [] = false
mentions flag (piece ∷ pieces) = is_word flag piece || mentions flag pieces

-- The pieces after the first.
abbrev others : List ℕ → List (List ℕ)
others [] = []
others (c ∷ rest) = split rest

split-word : (p : List ℕ) → split p ≡ take (word_length p) p ∷ others (drop (word_length p) p)
unfolding split word_length
split-word [] = refl
split-word (c ∷ rest) = elim (Bool-cases (c == 32)) [
  | inl blank ↦ rw (blank, split, word_length) refl
  | inr solid ↦ rw (solid, split, word_length) (ap (push_front c) (split-word rest))
]

skip_spaces_blank :
    (c : ℕ) (rest : List ℕ) → (c == 32) ≡ true → skip_spaces (c ∷ rest) ≡ skip_spaces rest
unfolding skip_spaces
skip_spaces_blank c rest blank = rw (blank, skip_spaces)

skip_spaces_solid : (c : ℕ) (rest : List ℕ) → (c == 32) ≡ false → skip_spaces (c ∷ rest) ≡ c ∷ rest
unfolding skip_spaces
skip_spaces_solid c rest solid = rw (solid, skip_spaces)

mentions-skip_spaces :
    (flag p : List ℕ) → mentions flag (split (skip_spaces p)) ≡ mentions flag (split p)
unfolding split skip_spaces
mentions-skip_spaces flag [] = refl
mentions-skip_spaces flag (c ∷ rest) = elim (Bool-cases (c == 32)) [
  | inl blank ↦
      ap (λ p. mentions flag (split p)) (skip_spaces_blank c rest blank)
      ∙ mentions-skip_spaces flag rest
      ∙ rw (blank, split)
  | inr solid ↦ ap (λ p. mentions flag (split p)) (skip_spaces_solid c rest solid)
]

shift_suc : (a b : ℕ) (rest : Bool) → (suc a == suc b && rest) ≡ (a == b && rest)
shift_suc a b rest = ground arith

-- The test of the code on the word that `p` starts with.
word_test :
    (flag p : List ℕ)
    → (word_length p == length flag && strncmp_equal p flag (length flag))
      ≡ same (take (word_length p) p) flag
unfolding word_length strncmp_equal
word_test [] [] = refl
word_test (y ∷ flag) [] = ground arith
word_test [] (c ∷ rest) = elim (Bool-cases (c == 32)) [
  | inl blank ↦ rw (blank, word_length) refl
  | inr solid ↦ rw (solid, word_length) (ground arith)
]
word_test (y ∷ flag) (c ∷ rest) = elim (Bool-cases (c == 32)) [
  | inl blank ↦ rw (blank, word_length) (ground arith)
  | inr solid ↦ elim (Bool-cases (c == y)) [
    | inl equal ↦
        rw (solid, equal, word_length, strncmp_equal)
          (shift_suc (word_length rest) (length flag) _ ∙ word_test flag rest)
    | inr differs ↦ rw (solid, differs, word_length, strncmp_equal) (ground arith)
  ]
]

is_word-same : (flag p : List ℕ) → length p ≢ 0 → is_word flag p ≡ same p flag
is_word-same flag [] h = absurd (h refl)
is_word-same flag (c ∷ rest) h = refl

-- What is left of the line after a word.
abbrev after_word : List ℕ → List ℕ
after_word p = next_word (drop (word_length p) p)

after_word-others :
    (flag p : List ℕ)
    → mentions flag (others (drop (word_length p) p)) ≡ mentions flag (split (after_word p))
unfolding split word_length next_word
after_word-others flag [] = refl
after_word-others flag (c ∷ rest) = elim (Bool-cases (c == 32)) [
  | inl blank ↦ rw (blank, word_length) (rw (blank, next_word) refl)
  | inr solid ↦ rw (solid, word_length) (after_word-others flag rest)
]

length-next_word : (p : List ℕ) → length (next_word p) ≤ length p
unfolding next_word
length-next_word [] = omega arith
length-next_word (c ∷ rest) = ground arith

length-after_word : (c : ℕ) (rest : List ℕ) → length (after_word (c ∷ rest)) ≤ length rest
unfolding word_length next_word
length-after_word c rest = elim (Bool-cases (c == 32)) [
  | inl blank ↦ rw (blank, word_length) (rw (blank, next_word) (omega arith))
  | inr solid ↦
      rw (solid, word_length)
        (omega (
          arith,
          length-next_word (drop (word_length rest) rest),
          length-drop (word_length rest) rest,
        ))
]

length-skip_spaces : (p : List ℕ) → length (skip_spaces p) ≤ length p
unfolding skip_spaces
length-skip_spaces [] = omega arith
length-skip_spaces (c ∷ rest) = ground (arith, length-skip_spaces rest)

-- Behind the spaces there is a word, or the end.
skip_spaces-word : (p : List ℕ) → word_length (skip_spaces p) ≡ 0 → length (skip_spaces p) ≡ 0
unfolding skip_spaces word_length
skip_spaces-word [] h = refl
skip_spaces-word (c ∷ rest) h = elim (Bool-cases (c == 32)) [
  | inl blank ↦
      let skipped = skip_spaces_blank c rest blank in
      ap length skipped ∙ skip_spaces-word rest (ap word_length (sym skipped) ∙ h)
  | inr solid ↦
      let kept = ap word_length (skip_spaces_solid c rest solid) in
      let counted : word_length (c ∷ rest) ≡ suc (word_length rest) = rw (solid, word_length) in
      absurd (omega arith)
]

mentions_empty : (flag p : List ℕ) → length p ≡ 0 → mentions flag (split p) ≡ false
unfolding split
mentions_empty flag [] h = refl
mentions_empty flag (c ∷ rest) h = absurd (omega arith)

shorter : (p : List ℕ) → length p ≢ 0 → length (after_word p) < length p
shorter [] h = absurd (h refl)
shorter (c ∷ rest) h = omega (arith, length-after_word c rest)

-- A line that starts with a word has the flag in that word or behind it.
scan_word :
    (flag p : List ℕ)
    → length p ≢ 0
    → word_length p ≢ 0
    → mentions flag (split p) ≡ (
        word_length p == length flag && strncmp_equal p flag (length flag)
        || mentions flag (split (after_word p)))
scan_word flag p some_left some_word =
    let word = take (word_length p) p in
    let solid : length word ≢ 0 = omega (arith, length-take (word_length p) p) in
    ap (mentions flag) (split-word p)
    ∙ ap₂ ◌||◌ (is_word-same flag word solid ∙ sym (word_test flag p)) (after_word-others flag p)

-- In as many rounds as the line has characters the scan ends, and says whether the flag is one of the
-- words of the line, which are the pieces between spaces that are not empty.
pub cmdline_has_flag-mentions :
    (fuel : ℕ) (flag line : List ℕ)
    → length line ≤ fuel
    → cmdline_has_flag fuel flag line ≡ some (mentions flag (split line))
unfolding split cmdline_has_flag
cmdline_has_flag-mentions fuel flag [] h = refl
cmdline_has_flag-mentions zero flag (c ∷ rest) h = absurd (omega arith)
cmdline_has_flag-mentions (suc fuel) flag (c ∷ rest) h =
    let p = skip_spaces (c ∷ rest) in
    let same_words = mentions-skip_spaces flag (c ∷ rest) in
    elim (Bool-cases (length p == 0)) [
      | inl ended ↦
          rw (ended, cmdline_has_flag)
            (ap some (sym (mentions_empty flag p (==→eq _ _ ended)) ∙ same_words))
      | inr more ↦
          let left : length p ≢ 0 = ground arith in
          let word : word_length p ≢ 0 = λ e. left (skip_spaces-word (c ∷ rest) e) in
          let scanned = scan_word flag p left word in
          let test = word_length p == length flag && strncmp_equal p flag (length flag) in
          elim (Bool-cases test) [
            | inl hit ↦
                let yes_there : mentions flag (split (c ∷ rest)) ≡ true =
                  sym same_words
                  ∙ scanned
                  ∙ ap (λ b. b || mentions flag (split (after_word p))) hit in
                rw (more, hit, cmdline_has_flag) (ap some (sym yes_there))
            | inr miss ↦
                let behind : mentions flag (split (c ∷ rest))
                    ≡ mentions flag (split (after_word p)) =
                  sym same_words
                  ∙ scanned
                  ∙ ap (λ b. b || mentions flag (split (after_word p))) miss in
                let near : length (after_word p) ≤ fuel =
                  omega (arith, shorter p left, length-skip_spaces (c ∷ rest)) in
                rw (more, miss, cmdline_has_flag)
                  (cmdline_has_flag-mentions fuel flag (after_word p) near ∙ ap some (sym behind))
          ]
    ]
