-- ===== src/Kstring/Tests.antt =====
-- Runs of kernel/string.c, and the theorems at them.
use aurora_os.Prelude.{ℕ, ◌≡◌, refl, List, [], ◌∷◌, arith}
use aurora_os.Kstring.Memcpy.{memcpy, copy_bytes, AllBytes-Bytes, memcpy-eq-copy_bytes}

abbrev ten : List ℕ
ten = 1 ∷ 2 ∷ 3 ∷ 4 ∷ 5 ∷ 6 ∷ 7 ∷ 8 ∷ 9 ∷ 10 ∷ []

abbrev blank : List ℕ
blank = 0 ∷ 0 ∷ 0 ∷ 0 ∷ 0 ∷ 0 ∷ 0 ∷ 0 ∷ 0 ∷ 0 ∷ 77 ∷ []

-- One word and a byte from an aligned address: the last two places stay.
memcpy-ten : memcpy 0x1000 0x2000 blank 0 ten 0 9 ≡ 1 ∷ 2 ∷ 3 ∷ 4 ∷ 5 ∷ 6 ∷ 7 ∷ 8 ∷ 9 ∷ 0 ∷ 77 ∷ []
unfolding memcpy
memcpy-ten = refl

memcpy-eq-copy_bytes_example : memcpy 0x1000 0x2000 blank 0 ten 0 9 ≡ copy_bytes blank 0 ten 0 9
memcpy-eq-copy_bytes_example =
    memcpy-eq-copy_bytes 0x1000 0x2000 blank 0 ten 0 9 (AllBytes-Bytes ten (omega arith))
