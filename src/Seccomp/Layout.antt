-- ===== src/Seccomp/Layout.antt =====
-- What BPF_LD | BPF_W | BPF_ABS finds in `struct seccomp_data` (kernel/seccomp.h) at the offsets
-- SECCOMP_DATA_NR_OFFSET, SECCOMP_DATA_ARCH_OFFSET and SECCOMP_DATA_ARG0_OFFSET + 8 * i.
use aurora_os.Prelude.{
  ℕ, zero, suc, ◌+◌, ◌*◌, ◌/◌, ◌%◌, ◌^◌, ◌<◌, ◌≡◌, refl, sym, ◌∙◌, ap, List, [], ◌∷◌, ◌++◌, arith,
  length, get_or, length-append,
}
use aurora_os.Kstring.Memcpy.{load_bytes}
use aurora_os.Seccomp.{SeccompData, to_bytes, words_to_bytes, data_bytes}

get_or-append : (xs ys : List ℕ) (i : ℕ) → get_or (xs ++ ys) (length xs + i) 0 ≡ get_or ys i 0
get_or-append [] ys i = ap (λ j. get_or ys j 0) {x = 0 + i} (omega arith)
get_or-append (x ∷ xs) ys i =
    let shift : suc (length xs) + i ≡ suc (length xs + i) = omega arith in
    rw shift (get_or-append xs ys i)

load_bytes-append :
    (k : ℕ) (xs ys : List ℕ) (i : ℕ) → load_bytes k (xs ++ ys) (length xs + i) ≡ load_bytes k ys i
unfolding load_bytes
load_bytes-append zero xs ys i = refl
load_bytes-append (suc k) xs ys i =
    let shift : length xs + i + 1 ≡ length xs + (i + 1) = omega arith in
    rw (shift, get_or-append xs ys i, load_bytes-append k xs ys (i + 1))

length-to_bytes : (k v : ℕ) → length (to_bytes k v) ≡ k
unfolding to_bytes
length-to_bytes zero v = refl
length-to_bytes (suc k) v = ap suc (length-to_bytes k (v / 2 ^ 8))

-- The lowest four bytes of a number that was stored in four bytes or in eight.
load-to_bytes_four : (v : ℕ) (rest : List ℕ) → load_bytes 4 (to_bytes 4 v ++ rest) 0 ≡ v % 2 ^ 32
unfolding load_bytes to_bytes
load-to_bytes_four v rest = omega arith

load-to_bytes_eight : (v : ℕ) (rest : List ℕ) → load_bytes 4 (to_bytes 8 v ++ rest) 0 ≡ v % 2 ^ 32
unfolding load_bytes to_bytes
load-to_bytes_eight v rest = omega arith

-- What stands behind a field.
load-behind :
    (k v : ℕ) (rest : List ℕ) (i j : ℕ)
    → j ≡ k + i
    → load_bytes 4 (to_bytes k v ++ rest) j ≡ load_bytes 4 rest i
load-behind k v rest i j e =
    ap (load_bytes 4 (to_bytes k v ++ rest)) (e ∙ ap (λ n. n + i) (sym (length-to_bytes k v)))
    ∙ load_bytes-append 4 (to_bytes k v) rest i

words_to_bytes-cons :
    (w : ℕ) (ws : List ℕ) → words_to_bytes (w ∷ ws) ≡ to_bytes 8 w ++ words_to_bytes ws
unfolding words_to_bytes
words_to_bytes-cons w ws = refl

load-words_to_bytes :
    (ws : List ℕ) (i : ℕ)
    → i < length ws
    → load_bytes 4 (words_to_bytes ws) (8 * i) ≡ get_or ws i 0 % 2 ^ 32
load-words_to_bytes [] i h = absurd (omega arith)
load-words_to_bytes (w ∷ ws) zero h = rw words_to_bytes-cons (load-to_bytes_eight w _)
load-words_to_bytes (w ∷ ws) (suc i) h = rw words_to_bytes-cons (
    load-behind 8 w (words_to_bytes ws) (8 * i) (8 * suc i) (omega arith)
    ∙ load-words_to_bytes ws i (omega arith))

length-words_to_bytes : (ws : List ℕ) → length (words_to_bytes ws) ≡ 8 * length ws
length-words_to_bytes [] = unfold words_to_bytes in refl
length-words_to_bytes (w ∷ ws) =
    rw (words_to_bytes-cons, length-append, length-to_bytes, length-words_to_bytes ws) (omega arith)

data_bytes-eq-append :
    (d : SeccompData)
    → data_bytes d
      ≡ to_bytes 4 d.nr
        ++ (to_bytes 4 d.arch ++ (to_bytes 8 d.instruction_pointer ++ words_to_bytes d.args))
data_bytes-eq-append d = unfold data_bytes in refl

-- The structure has 64 bytes. A 32-bit load at 0 reads the number of the call, at 4 the
-- architecture, and at 16 + 8 * i the low half of argument i, for each of the six arguments.
pub data_bytes_layout :
    (d : SeccompData)
    → length d.args ≡ 6
    → (length (data_bytes d) ≡ 64)
      × (load_bytes 4 (data_bytes d) 0 ≡ d.nr % 2 ^ 32)
      × (load_bytes 4 (data_bytes d) 4 ≡ d.arch % 2 ^ 32)
      × ((i : ℕ) → i < 6 → load_bytes 4 (data_bytes d) (16 + 8 * i) ≡ get_or d.args i 0 % 2 ^ 32)
data_bytes_layout d h = rw data_bytes-eq-append (size, load-to_bytes_four d.nr _, arch_at, args_at)
  where
    args : List ℕ
    args = words_to_bytes d.args

    tail : List ℕ
    tail = to_bytes 8 d.instruction_pointer ++ args

    size : length (to_bytes 4 d.nr ++ (to_bytes 4 d.arch ++ tail)) ≡ 64
    size = rw (
      length-append {0},
      length-append {0},
      length-append {0},
      length-to_bytes,
      length-to_bytes,
      length-to_bytes,
      length-words_to_bytes,
      h,
    )

    arch_at : load_bytes 4 (to_bytes 4 d.nr ++ (to_bytes 4 d.arch ++ tail)) 4 ≡ d.arch % 2 ^ 32
    arch_at = load-behind 4 d.nr _ 0 4 (omega arith) ∙ load-to_bytes_four d.arch tail

    args_at :
        (i : ℕ)
        → i < 6
        → load_bytes 4 (to_bytes 4 d.nr ++ (to_bytes 4 d.arch ++ tail)) (16 + 8 * i)
          ≡ get_or d.args i 0 % 2 ^ 32
    args_at i lt =
        load-behind 4 d.nr _ (12 + 8 * i) (16 + 8 * i) (omega arith)
        ∙ load-behind 4 d.arch _ (8 + 8 * i) (12 + 8 * i) (omega arith)
        ∙ load-behind 8 d.instruction_pointer args (8 * i) (8 + 8 * i) (omega arith)
        ∙ load-words_to_bytes d.args i (omega arith)
