-- ===== src/Signal/Tests.antt =====
-- Runs of kernel/signal.c, and the theorems at them.
use aurora_os.Prelude.{
  ℕ, ◌+◌, ◌-◌, ◌^◌, ◌≤◌, ◌<◌, ◌≡◌, ◌≢◌, refl, Bool, true, false, none, some, ◌==◌, if◌then◌else◌,
}
use aurora_os.Signal.{
  SigAction, SignalState, TrapFrame, UserMemory, nsig, has_signal, nothing, handled, default_action,
  sigframe_of, write_frame, check_signals, signal_loop, signal_round, take_signal, push_sigframe,
  sig_dfl, sig_ign,
}
use aurora_os.Sched.{blocked}
use aurora_os.Signal.Send.{Target, do_sys_kill, do_sys_kill-check_signals}
use aurora_os.Signal.Return.{check_signals_caught}

abbrev action : ℕ → SigAction
action s = record { sa_handler = if s == 10 then 0x400000 else 0; sa_flags = 0; sa_mask = 0 }

-- SIGUSR1 is pending and caught.
abbrev pending : SignalState
pending = record {
  actions = action;
  pending = 2 ^ 10;
  blocked_mask = 0;
  saved_rsp = 0;
  saved_rip = 0;
}

abbrev registers : TrapFrame
registers = record {
  r15 = 15;
  r14 = 14;
  r13 = 13;
  r12 = 12;
  r11 = 0x202;
  r10 = 10;
  r9 = 9;
  r8 = 8;
  rsi = 1;
  rdi = 2;
  rdx = 3;
  rcx = 4;
  rax = 5;
  rip = 0x401000;
  rsp = 0x800000;
}

abbrev anywhere : ℕ → Bool
anywhere a = true

abbrev empty : UserMemory
empty a = none

abbrev in_handler : SignalState
in_handler = record {
  actions = action;
  pending = 0;
  blocked_mask = 2 ^ 10;
  saved_rsp = 0x800000;
  saved_rip = 0x401000;
}

abbrev entered : TrapFrame
entered = record registers { rip = 0x400000; rsp = 0x800000 - 176; rdi = 10 }

abbrev stack : UserMemory
stack =
    write_frame empty (0x800000 - 176 + 8 + 16)
      (sigframe_of 10 (record pending { pending = 0 }) registers)

delivered : check_signals anywhere pending registers empty ≡ handled in_handler entered stack
unfolding check_signals signal_loop signal_round take_signal push_sigframe
delivered = refl

check_signals_caught_example :
    (s : ℕ) × (1 ≤ s)
    × (s < nsig)
    × (entered.rdi ≡ s)
    × (entered.rip ≡ (pending.actions s).sa_handler)
    × ((pending.actions s).sa_handler ≢ sig_dfl)
    × ((pending.actions s).sa_handler ≢ sig_ign)
    × (has_signal pending.blocked_mask s ≡ false)
    × (pending.saved_rip ≡ 0)
check_signals_caught_example =
    check_signals_caught anywhere pending registers empty in_handler entered stack delivered

-- SIGKILL is not delivered while it is in the mask, which the mask of an action can put it into.
abbrev killed : SignalState
killed = record pending { pending = 2 ^ 9; blocked_mask = 2 ^ 9 }

kill_blocked : check_signals anywhere killed registers empty ≡ nothing killed
unfolding check_signals signal_loop signal_round
kill_blocked = refl

abbrev victim : Target
victim = record { pid = 7; state = blocked; sig = some in_handler }

do_sys_kill-check_signals_example :
    (after : SignalState) × ((do_sys_kill true 9 victim).1.sig ≡ some after)
    × (check_signals anywhere after registers empty
        ≡ default_action (some 137) (record after { pending = 0 }))
do_sys_kill-check_signals_example =
    do_sys_kill-check_signals true victim in_handler anywhere registers empty refl refl refl refl
      refl
