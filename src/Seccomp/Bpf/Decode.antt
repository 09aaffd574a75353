-- ===== src/Seccomp/Bpf/Decode.antt =====
-- kernel/seccomp.h, the opcodes, and the case labels of the switch in seccomp_run_bpf.
use aurora_os.Prelude.{ℕ, List, [], ◌∷◌, ◌==◌, if◌then◌else◌, if-holds}

-- The BPF_ALU operations that take an operand.
pub data AluOp : Type 0 where
  add sub mul div or and lsh rsh modulo xor : AluOp

pub data Cond : Type 0 where
  jeq jgt jge jset : Cond

-- BPF_K and BPF_X.
pub data Source : Type 0 where
  imm reg : Source

-- The cases of the switch; `ld_abs` has the number of bytes that it reads.
pub data Op : Type 0 where
  ld_abs : ℕ → Op
  ld_len ld_imm ld_ind ldx_imm ldx_mem ldx_len ldx_msh : Op
  alu : AluOp → Source → Op
  alu_neg ja : Op
  jump : Cond → Source → Op
  ret_k ret_a tax txa st stx unknown : Op

-- BPF_LD, BPF_LDX.
abbrev pub loads : List (ℕ × Op)
loads =
    (0x20, ld_abs 4)
    ∷ (0x80, ld_len)
    ∷ (0x00, ld_imm)
    ∷ (0x28, ld_abs 2)
    ∷ (0x30, ld_abs 1)
    ∷ (0x40, ld_ind)
    ∷ (0x01, ldx_imm)
    ∷ (0x61, ldx_mem)
    ∷ (0x81, ldx_len)
    ∷ (0xb1, ldx_msh)
    ∷ []

-- BPF_ALU with BPF_K, BPF_NEG, BPF_ALU with BPF_X.
abbrev pub arithmetic : List (ℕ × Op)
arithmetic =
    (0x04, alu add imm)
    ∷ (0x14, alu sub imm)
    ∷ (0x24, alu mul imm)
    ∷ (0x34, alu div imm)
    ∷ (0x44, alu or imm)
    ∷ (0x54, alu and imm)
    ∷ (0x64, alu lsh imm)
    ∷ (0x74, alu rsh imm)
    ∷ (0x94, alu modulo imm)
    ∷ (0xa4, alu xor imm)
    ∷ (0x84, alu_neg)
    ∷ (0x0c, alu add reg)
    ∷ (0x1c, alu sub reg)
    ∷ (0x2c, alu mul reg)
    ∷ (0x3c, alu div reg)
    ∷ (0x4c, alu or reg)
    ∷ (0x5c, alu and reg)
    ∷ (0x6c, alu lsh reg)
    ∷ (0x7c, alu rsh reg)
    ∷ (0x9c, alu modulo reg)
    ∷ (0xac, alu xor reg)
    ∷ []

-- BPF_JMP, BPF_RET, BPF_MISC, BPF_ST, BPF_STX.
abbrev pub control : List (ℕ × Op)
control =
    (0x05, ja)
    ∷ (0x15, jump jeq imm)
    ∷ (0x25, jump jgt imm)
    ∷ (0x35, jump jge imm)
    ∷ (0x45, jump jset imm)
    ∷ (0x1d, jump jeq reg)
    ∷ (0x2d, jump jgt reg)
    ∷ (0x3d, jump jge reg)
    ∷ (0x4d, jump jset reg)
    ∷ (0x06, ret_k)
    ∷ (0x16, ret_a)
    ∷ (0x07, tax)
    ∷ (0x87, txa)
    ∷ (0x02, st)
    ∷ (0x03, stx)
    ∷ []

-- The first entry of a table, and otherwise what is behind it.
find_op : ℕ → List (ℕ × Op) → Op → Op
find_op code [] other = other
find_op code ((c, op) ∷ rest) other = if code == c then op else find_op code rest other

abbrev pub AllOps : (Op → Type 0) → List (ℕ × Op) → Type 0
AllOps P [] = Unit
AllOps P ((c, op) ∷ rest) = P op × AllOps P rest

unfoldable pub decode : ℕ → Op
unfolding find_op
decode code = find_op code loads (find_op code arithmetic (find_op code control unknown))

-- What holds of every entry of a table and of what is behind it holds of what is found.
find_op-All :
    (P : Op → Type 0) (code : ℕ) (table : List (ℕ × Op)) (other : Op)
    → AllOps P table
    → P other
    → P (find_op code table other)
unfolding find_op
find_op-All P code [] other h o = o
find_op-All P code ((c, op) ∷ rest) other h o =
    if-holds P (code == c) h.0 (find_op-All P code rest other h.1 o)

pub decode-All :
    (P : Op → Type 0)
    → AllOps P loads
    → AllOps P arithmetic
    → AllOps P control
    → P unknown
    → (code : ℕ) → P (decode code)
unfolding decode
decode-All P l a c u code =
    find_op-All P code loads _ l
      (find_op-All P code arithmetic _ a (find_op-All P code control unknown c u))
