-- ===== src/Signal.antt =====
-- kernel/signal.c and kernel/signal.h: sending signals, and their delivery to a handler in user space.
-- The user's memory is what the frames at each address are; vma_find, user_addr_range_ok and
-- user_pages_mapped together are one Boolean function of the address. What one call does is one step,
-- as is each round of the loop of check_signals.
pub mod Handler
pub mod Return
pub mod Send
pub mod Tests
use aurora_os.Prelude.{
  ℕ, zero, suc, ◌+◌, ◌-◌, ◌%◌, ◌^◌, Bool, true, false, not, ◌&&◌, ◌||◌, Option, none, some, bit_and,
  bit_or, ltb, leb, ◌==◌, if◌then◌else◌,
}
use aurora_os.Sched.{TaskState, blocked, ready}

abbrev pub nsig : ℕ
nsig = 32

abbrev pub sigkill : ℕ
sigkill = 9

abbrev pub sigchld : ℕ
sigchld = 17

abbrev pub sigstop : ℕ
sigstop = 19

abbrev pub sig_dfl : ℕ
sig_dfl = 0

abbrev pub sig_ign : ℕ
sig_ign = 1

pub record SigAction : Type 0 where
  pub sa_handler : ℕ
  pub sa_flags : ℕ
  pub sa_mask : ℕ

pub record SignalState : Type 0 where
  pub actions : ℕ → SigAction
  pub pending : ℕ
  pub blocked_mask : ℕ
  pub saved_rsp : ℕ
  pub saved_rip : ℕ

pub record TrapFrame : Type 0 where
  pub r15 : ℕ
  pub r14 : ℕ
  pub r13 : ℕ
  pub r12 : ℕ
  pub r11 : ℕ
  pub r10 : ℕ
  pub r9 : ℕ
  pub r8 : ℕ
  pub rsi : ℕ
  pub rdi : ℕ
  pub rdx : ℕ
  pub rcx : ℕ
  pub rax : ℕ
  pub rip : ℕ
  pub rsp : ℕ

pub record SigFrame : Type 0 where
  pub signo : ℕ
  pub r15 : ℕ
  pub r14 : ℕ
  pub r13 : ℕ
  pub r12 : ℕ
  pub r11 : ℕ
  pub r10 : ℕ
  pub r9 : ℕ
  pub r8 : ℕ
  pub rsi : ℕ
  pub rdi : ℕ
  pub rdx : ℕ
  pub rcx : ℕ
  pub rax : ℕ
  pub rip : ℕ
  pub rflags : ℕ
  pub rsp : ℕ
  pub blocked_mask : ℕ

abbrev pub UserMemory : Type 0
UserMemory = ℕ → Option SigFrame

-- `sizeof(struct sigframe)`: 19 words of eight bytes.
abbrev pub sizeof_sigframe : ℕ
sizeof_sigframe = 152

abbrev pub sig_trampoline_size : ℕ
sig_trampoline_size = 16

-- The bit of a signal: is it set, with it set, and with it cleared. `~(1U << s)` has 32 bits.
abbrev pub has_signal : ℕ → ℕ → Bool
has_signal mask s = not (bit_and mask (2 ^ s) == 0)

abbrev pub add_signal : ℕ → ℕ → ℕ
add_signal mask s = bit_or mask (2 ^ s)

abbrev pub drop_signal : ℕ → ℕ → ℕ
drop_signal mask s = bit_and mask (2 ^ 32 - 1 - 2 ^ s)

-- do_signal_default: the exit status, if the process ends.
abbrev pub do_signal_default : ℕ → Option ℕ
do_signal_default sig = if sig == sigchld then none else some (128 + sig)

-- How check_signals ends: no signal is delivered, or one whose default action is taken, or one whose
-- handler is called.
pub data Delivery : Type 0 where
  nothing : SignalState → Delivery
  default_action : Option ℕ → SignalState → Delivery
  handled : SignalState → TrapFrame → UserMemory → Delivery

-- One round: the loop goes on, or check_signals returns.
pub data Round : Type 0 where
  go_on : SignalState → Round
  stop : Delivery → Round

abbrev pub sigframe_of : ℕ → SignalState → TrapFrame → SigFrame
sigframe_of s sig tf = record {
  signo = s;
  r15 = tf.r15;
  r14 = tf.r14;
  r13 = tf.r13;
  r12 = tf.r12;
  r11 = tf.r11;
  r10 = tf.r10;
  r9 = tf.r9;
  r8 = tf.r8;
  rsi = tf.rsi;
  rdi = tf.rdi;
  rdx = tf.rdx;
  rcx = tf.rcx;
  rax = tf.rax;
  rip = tf.rip;
  rflags = tf.r11;
  rsp = tf.rsp;
  blocked_mask = sig.blocked_mask;
}

abbrev pub write_frame : UserMemory → ℕ → SigFrame → UserMemory
write_frame memory addr frame a = if a == addr then some frame else memory a

-- The stack gets the frame, and the handler is called with the signal as its argument.
abbrev pub enter_handler : ℕ → SignalState → TrapFrame → UserMemory → Delivery
enter_handler s sig tf memory =
    let new_rsp = tf.rsp - (sizeof_sigframe + 8 + sig_trampoline_size) in
    let frame = sigframe_of s sig tf in
    let action = sig.actions s in
    let mask = bit_or sig.blocked_mask (bit_or (2 ^ s) action.sa_mask) in
    handled (record sig { saved_rsp = tf.rsp; saved_rip = tf.rip; blocked_mask = mask })
      (record tf { rip = action.sa_handler; rsp = new_rsp; rdi = s })
      (write_frame memory (new_rsp + 8 + sig_trampoline_size) frame)

-- The stack pointer is tested before the frame is subtracted from it, so that nothing wraps.
unfoldable pub push_sigframe : (ℕ → Bool) → ℕ → SignalState → TrapFrame → UserMemory → Delivery
push_sigframe user_ok s sig tf memory =
    let frame_size = sizeof_sigframe + 8 + sig_trampoline_size in
    if ltb tf.rsp (frame_size + 0x1000)
    then default_action (do_signal_default s) sig
    else if not (user_ok (tf.rsp - frame_size))
    then default_action (do_signal_default s) sig
    else enter_handler s sig tf memory

-- A signal that is pending and not blocked, taken out of the mask.
unfoldable pub take_signal : (ℕ → Bool) → ℕ → SignalState → TrapFrame → UserMemory → Round
take_signal user_ok s sig tf memory =
    let taken = record sig { pending = drop_signal sig.pending s } in
    let handler = (sig.actions s).sa_handler in
    if handler == sig_dfl
    then stop (default_action (do_signal_default s) taken)
    else if handler == sig_ign
    then go_on taken
    else if not (sig.saved_rip == 0)
    then go_on (record taken { pending = add_signal taken.pending s })
    else stop (push_sigframe user_ok s taken tf memory)

unfoldable pub signal_round : (ℕ → Bool) → ℕ → SignalState → TrapFrame → UserMemory → Round
signal_round user_ok s sig tf memory =
    if not (has_signal sig.pending s)
    then go_on sig
    else if has_signal sig.blocked_mask s
    then go_on sig
    else take_signal user_ok s sig tf memory

-- `for (int s = 1; s < NSIG; ++s)`, with the rounds that are left.
unfoldable pub signal_loop : (ℕ → Bool) → ℕ → ℕ → SignalState → TrapFrame → UserMemory → Delivery
signal_loop user_ok zero s sig tf memory = nothing sig
signal_loop user_ok (suc more) s sig tf memory = elim (signal_round user_ok s sig tf memory) [
  | go_on next ↦ signal_loop user_ok more (suc s) next tf memory
  | stop delivery ↦ delivery
]

-- check_signals, for a task that has a signal state and a trap frame.
unfoldable pub check_signals : (ℕ → Bool) → SignalState → TrapFrame → UserMemory → Delivery
unfolding signal_loop
check_signals user_ok sig tf memory =
    if sig.pending == 0 then nothing sig else signal_loop user_ok (nsig - 1) 1 sig tf memory

-- The registers out of a frame; the flags lose IOPL, NT, TF and AC, and have IF.
abbrev pub restore : SigFrame → TrapFrame
restore frame = record {
  r15 = frame.r15;
  r14 = frame.r14;
  r13 = frame.r13;
  r12 = frame.r12;
  r11 = bit_or (bit_and frame.rflags 0x3f0cf7) 0x200;
  r10 = frame.r10;
  r9 = frame.r9;
  r8 = frame.r8;
  rsi = frame.rsi;
  rdi = frame.rdi;
  rdx = frame.rdx;
  rcx = frame.rcx;
  rax = frame.rax;
  rip = frame.rip;
  rsp = frame.rsp;
}

-- Where no frame can be read, the mask is taken from the local variable `frame`, whose contents then are
-- an argument of the model.
abbrev pub restore_from :
    Option SigFrame → SigFrame → SignalState → TrapFrame → SignalState × TrapFrame
restore_from copied local sig tf =
    let fallback = record tf { rip = sig.saved_rip; rsp = sig.saved_rsp } in
    let finish = λ (mask : ℕ). record sig { saved_rip = 0; saved_rsp = 0; blocked_mask = mask } in
    elim copied [
      | none ↦ (finish local.blocked_mask, fallback)
      | some frame ↦
          if ltb 0 frame.signo && ltb frame.signo nsig
          then (finish frame.blocked_mask, restore frame)
          else (finish frame.blocked_mask, fallback)
    ]

-- do_sys_sigreturn, for a task that has a signal state and a trap frame.
unfoldable pub do_sys_sigreturn :
    UserMemory → SigFrame → SignalState → TrapFrame → SignalState × TrapFrame
do_sys_sigreturn memory local sig tf =
    if sig.saved_rip == 0
    then (sig, tf)
    else restore_from (memory ((sig.saved_rsp + 2 ^ 64 - sizeof_sigframe) % 2 ^ 64)) local sig tf
