-- ===== src/Seccomp/Bpf/Registers/Instructions.antt =====
-- No instruction of seccomp_run_bpf (kernel/seccomp.c) spoils the registers.
use mathlib.Core.Path.{subst}
use aurora_os.Prelude.{
  get_or-replicate, length-replicate, ltb, Bool, true, false, if◌then◌else◌, ℕ, ◌+◌, ◌-◌, ◌*◌, ◌%◌,
  ◌<◌, ◌≤◌, ◌≡◌, ◌∙◌, List, arith, set, length-set, bit_and-lt_right, bit_and,
}
use aurora_os.Kstring.Memcpy.{Bytes}
use aurora_os.Seccomp.Bpf.{
  start, advance, Verdict, kill, fault, SockFilter, Machine, Source, Op, Outcome, next, done, exec,
  u32_mod, operand, load, with_scratch, jump_by,
}
use aurora_os.Seccomp.Bpf.Registers.Words.{
  IsMachine, IsInsn, alu-lt, load_bytes-lt, ReadsWord, set-words,
}

-- If there is a next round, its machine is well formed.
pub record Keeps (o : Outcome) : Type 0 where
  pub at : (m : Machine) → o ≡ next m → IsMachine m

next-injective : (m m' : Machine) → next m ≡ next m' → m ≡ m'
next-injective m m' e = cc

Keeps-done : (v : Verdict) → Keeps (done v)
Keeps-done v = record { at = λ m e. cc }

Keeps-next : (m : Machine) → IsMachine m → Keeps (next m)
Keeps-next m h = record { at = λ m' e. subst IsMachine (next-injective m m' e) h }

Keeps-if : (b : Bool) (o p : Outcome) → Keeps o → Keeps p → Keeps (if b then o else p)
Keeps-if true o p h k = h
Keeps-if false o p h k = k

Keeps-advance : (m : Machine) → IsMachine m → Keeps (advance m)
Keeps-advance m h =
    Keeps-next (record m { pc = (m.pc + 1) % u32_mod })
      (record {
        a_word = h.a_word;
        x_word = h.x_word;
        pc_word = omega arith;
        scratch_size = h.scratch_size;
        scratch_words = h.scratch_words;
      })

Keeps-load :
    (width : ℕ) (bytes : List ℕ) (offset : ℕ) (put : ℕ → Machine)
    → Bytes bytes
    → width ≤ 4
    → ((v : ℕ) → v < u32_mod → IsMachine (put v))
    → Keeps (load width bytes offset put)
unfolding load
Keeps-load width bytes offset put b w h = Keeps-if _ _ _ (Keeps-done kill) (
    Keeps-if _ _ _ (Keeps-advance _ (h _ (load_bytes-lt width bytes offset b w)))
      (Keeps-done fault))

Keeps-jump_by : (len offset : ℕ) (m : Machine) → IsMachine m → Keeps (jump_by len offset m)
unfolding jump_by
Keeps-jump_by len offset m h = Keeps-if _ _ _ (Keeps-done kill) (
    Keeps-next _ (record {
      a_word = h.a_word;
      x_word = h.x_word;
      pc_word = omega arith;
      scratch_size = h.scratch_size;
      scratch_words = h.scratch_words;
    }))

Keeps-with_scratch :
    (k : ℕ) (body : ℕ → Outcome) → ((idx : ℕ) → Keeps (body idx)) → Keeps (with_scratch k body)
unfolding with_scratch
Keeps-with_scratch k body h = Keeps-if _ _ _ (Keeps-done kill) (h _)

module _ {m : Machine} (v : IsMachine m) where
  put_a : (a : ℕ) → a < u32_mod → IsMachine (record m { a = a })
  put_a a h = record {
    a_word = h;
    x_word = v.x_word;
    pc_word = v.pc_word;
    scratch_size = v.scratch_size;
    scratch_words = v.scratch_words;
  }

  put_x : (x : ℕ) → x < u32_mod → IsMachine (record m { x = x })
  put_x x h = record {
    a_word = v.a_word;
    x_word = h;
    pc_word = v.pc_word;
    scratch_size = v.scratch_size;
    scratch_words = v.scratch_words;
  }

  put_scratch : (i w : ℕ) → w < u32_mod → IsMachine (record m { scratch = set m.scratch i w })
  put_scratch i w h = record {
    a_word = v.a_word;
    x_word = v.x_word;
    pc_word = v.pc_word;
    scratch_size = length-set m.scratch i w ∙ v.scratch_size;
    scratch_words = set-words m.scratch i w h v.scratch_words;
  }

operand-lt :
    (src : Source) (insn : SockFilter) (m : Machine)
    → IsInsn insn
    → IsMachine m
    → operand src insn m < u32_mod
operand-lt Source.imm insn m i v = i.k_word
operand-lt Source.reg insn m i v = v.x_word

pub exec-Keeps :
    (op : Op) (insn : SockFilter) (len : ℕ) (bytes : List ℕ) (m : Machine)
    → IsInsn insn
    → Bytes bytes
    → ReadsWord op
    → IsMachine m
    → Keeps (exec op insn len bytes m)
unfolding exec
exec-Keeps (Op.ld_abs width) insn len bytes m i b r v =
    Keeps-load width bytes insn.k _ b r (put_a v)
exec-Keeps Op.ld_len insn len bytes m i b r v = Keeps-advance _ (put_a v _ (omega arith))
exec-Keeps Op.ld_imm insn len bytes m i b r v = Keeps-advance _ (put_a v _ i.k_word)
exec-Keeps Op.ld_ind insn len bytes m i b r v =
    Keeps-if (ltb (u32_mod - 1 - insn.k) m.x) _ _ (Keeps-done kill)
      (Keeps-load 4 bytes ((m.x + insn.k) % u32_mod) _ b (omega arith) (put_a v))
exec-Keeps Op.ldx_imm insn len bytes m i b r v = Keeps-advance _ (put_x v _ i.k_word)
exec-Keeps Op.ldx_mem insn len bytes m i b r v =
    Keeps-with_scratch insn.k _ (λ idx. Keeps-advance _ (put_x v _ (v.scratch_words idx)))
exec-Keeps Op.ldx_len insn len bytes m i b r v = Keeps-advance _ (put_x v _ (omega arith))
exec-Keeps Op.ldx_msh insn len bytes m i b r v =
    Keeps-load 1 bytes insn.k (λ w. record m { x = 4 * bit_and w 0x0f }) b (omega arith)
      (λ w h. put_x v (4 * bit_and w 0x0f) (omega (arith, bit_and-lt_right 4 w 0x0f (omega arith))))
exec-Keeps (Op.alu op src) insn len bytes m i b r v =
    Keeps-advance _ (put_a v _ (alu-lt op m.a _ v.a_word (operand-lt src insn m i v)))
exec-Keeps Op.alu_neg insn len bytes m i b r v = Keeps-advance _ (put_a v _ (omega arith))
exec-Keeps Op.ja insn len bytes m i b r v = Keeps-jump_by len insn.k m v
exec-Keeps (Op.jump cond src) insn len bytes m i b r v = Keeps-jump_by len _ m v
exec-Keeps Op.ret_k insn len bytes m i b r v = Keeps-done _
exec-Keeps Op.ret_a insn len bytes m i b r v = Keeps-done _
exec-Keeps Op.tax insn len bytes m i b r v = Keeps-advance _ (put_x v _ v.a_word)
exec-Keeps Op.txa insn len bytes m i b r v = Keeps-advance _ (put_a v _ v.x_word)
exec-Keeps Op.st insn len bytes m i b r v =
    Keeps-with_scratch insn.k _ (λ idx. Keeps-advance _ (put_scratch v idx _ v.a_word))
exec-Keeps Op.stx insn len bytes m i b r v =
    Keeps-with_scratch insn.k _ (λ idx. Keeps-advance _ (put_scratch v idx _ v.x_word))
exec-Keeps Op.unknown insn len bytes m i b r v = Keeps-done kill

pub start-IsMachine : IsMachine start
start-IsMachine = record {
  a_word = omega arith;
  x_word = omega arith;
  pc_word = omega arith;
  scratch_size = length-replicate {A = ℕ} 16 0;
  scratch_words = λ i. rw get_or-replicate (omega arith);
}
