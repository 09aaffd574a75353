-- ===== src/Seccomp/Bpf/Registers/Words.antt =====
-- What seccomp_run_bpf (kernel/seccomp.c) computes and loads are 32-bit words.
use native.Mathlib.Nat.{div-le_self}
use aurora_os.Prelude.{
  ℕ, zero, suc, ◌+◌, ◌^◌, ◌<◌, ◌≤◌, ◌≡◌, List, [], ◌∷◌, arith, length, get_or, set, bit_and-lt,
  bit_or-lt, bit_xor-lt,
}
use aurora_os.Kstring.Memcpy.{load_bytes, Bytes}
use aurora_os.Seccomp.Bpf.{SockFilter, Machine, AluOp, Op, decode, alu, u32_mod, decode-All}

pub record IsMachine (m : Machine) : Type 0 where
  pub a_word : m.a < u32_mod
  pub x_word : m.x < u32_mod
  pub pc_word : m.pc < u32_mod
  pub scratch_size : length m.scratch ≡ 16
  pub scratch_words : (i : ℕ) → get_or m.scratch i 0 < u32_mod

pub record IsInsn (insn : SockFilter) : Type 0 where
  pub jt_byte : insn.jt < 2 ^ 8
  pub jf_byte : insn.jf < 2 ^ 8
  pub k_word : insn.k < u32_mod

pub alu-lt : (op : AluOp) (a v : ℕ) → a < u32_mod → v < u32_mod → alu op a v < u32_mod
unfolding alu
alu-lt AluOp.or a v p q = bit_or-lt 32 a v p q
alu-lt AluOp.and a v p q = bit_and-lt 32 a v p
alu-lt AluOp.xor a v p q = bit_xor-lt 32 a v p q
alu-lt AluOp.rsh a v p q = ground (arith, div-le_self a (2 ^ v))
alu-lt op a v p q = ground arith

pub load_bytes-lt : (k : ℕ) (m : List ℕ) (i : ℕ) → Bytes m → k ≤ 4 → load_bytes k m i < u32_mod
unfolding load_bytes
load_bytes-lt zero m i b h = omega arith
load_bytes-lt (suc zero) m i b h = omega (arith, b i)
load_bytes-lt (suc (suc zero)) m i b h = omega (arith, b i, b (i + 1))
load_bytes-lt (suc (suc (suc zero))) m i b h = omega (arith, b i, b (i + 1), b (i + 1 + 1))
load_bytes-lt (suc (suc (suc (suc zero)))) m i b h =
    omega (arith, b i, b (i + 1), b (i + 1 + 1), b (i + 1 + 1 + 1))
load_bytes-lt (suc (suc (suc (suc (suc k))))) m i b h = absurd (omega arith)

-- The loads of the instruction set read at most four bytes.
abbrev pub ReadsWord : Op → Type 0
ReadsWord (Op.ld_abs width) = width ≤ 4
ReadsWord _ = Unit

pub decode-ReadsWord : (code : ℕ) → ReadsWord (decode code)
decode-ReadsWord code = decode-All ReadsWord (omega arith) (omega arith) (omega arith) tt code

pub set-words :
    (l : List ℕ) (i v : ℕ)
    → v < u32_mod
    → ((j : ℕ) → get_or l j 0 < u32_mod)
    → (j : ℕ) → get_or (set l i v) j 0 < u32_mod
set-words [] i v h w j = w j
set-words (x ∷ l) zero v h w zero = h
set-words (x ∷ l) zero v h w (suc j) = w (suc j)
set-words (x ∷ l) (suc i) v h w zero = w 0
set-words (x ∷ l) (suc i) v h w (suc j) = set-words l i v h (λ k. w (suc k)) j
