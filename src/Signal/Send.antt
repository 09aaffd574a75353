-- ===== src/Signal/Send.antt =====
-- The other calls of kernel/signal.c: sending a signal, setting a handler, and exec.
use mathlib.Core.Path.{subst}
use aurora_os.Prelude.{
  ℕ, ◌^◌, ◌≡◌, refl, ap, ◌∙◌, sym, Bool, true, false, not, ◌&&◌, ◌||◌, Option, none, some, ltb, leb,
  ◌==◌, if◌then◌else◌,
}
use aurora_os.Sched.{TaskState, blocked, ready}
use aurora_os.Signal.{
  SigAction, SignalState, TrapFrame, UserMemory, go_on, stop, default_action, nsig, sigkill,
  sigstop, sigchld, sig_dfl, sig_ign, has_signal, add_signal, check_signals, signal_loop,
  signal_round, take_signal,
}

-- The fields of a task that signals touch.
pub record Target : Type 0 where
  pub pid : ℕ
  pub state : TaskState
  pub sig : Option SignalState

abbrev pub signal_alloc : SignalState
signal_alloc = record {
  actions = λ s. record { sa_handler = 0; sa_flags = 0; sa_mask = 0 };
  pending = 0;
  blocked_mask = 0;
  saved_rsp = 0;
  saved_rip = 0;
}

-- A blocked task is woken by a signal that it neither blocks nor ignores.
abbrev pub wakes : ℕ → SignalState → Bool
wakes s sig =
    not (has_signal sig.blocked_mask s)
    && (s == sigkill || not ((sig.actions s).sa_handler == sig_ign))

abbrev pub woken : ℕ → SignalState → TaskState → TaskState
woken s sig blocked = if wakes s sig then ready else blocked
woken s sig state = state

abbrev pub post : ℕ → SignalState → Target → Target
post s sig target = record target {
  state = woken s sig target.state;
  sig = some (record sig { pending = add_signal sig.pending s });
}

-- Init gets SIGCHLD only, and that only with a handler.
abbrev pub protects_init : ℕ → Target → Option Bool
protects_init s target =
    if not (target.pid == 1)
    then none
    else if not (s == sigchld)
    then some false
    else elim target.sig [
      | none ↦ some true
      | some sig ↦ if (sig.actions s).sa_handler == sig_dfl then some true else none
    ]

-- The answer, and the task that was found.
unfoldable pub do_sys_kill : Bool → ℕ → Target → Bool × Target
do_sys_kill mem_ok s target =
    if ltb s 1 || leb nsig s then (false, target) else elim (protects_init s target) [
      | some answer ↦ (answer, target)
      | none ↦ elim target.sig [
        | none ↦ if mem_ok then (true, post s signal_alloc target) else (false, target)
        | some sig ↦ (true, post s sig target)
      ]
    ]

-- Of a task that has a signal state; the copies from and to user space are taken to succeed.
unfoldable pub do_sys_sigaction :
    ℕ → Option SigAction → SignalState → Option (SigAction × SignalState)
do_sys_sigaction s act sig =
    if ltb s 1 || leb nsig s then none else if s == sigkill then none else elim act [
      | none ↦ some (sig.actions s, sig)
      | some new ↦
          some (sig.actions s, record sig { actions = λ i. if i == s then new else sig.actions i })
    ]

abbrev pub reset_action : ℕ → SigAction → SigAction
reset_action i action =
    if i == sigkill || i == sigstop
    then action
    else if action.sa_handler == sig_dfl || action.sa_handler == sig_ign
    then action
    else record action { sa_handler = sig_dfl; sa_flags = 0 }

unfoldable pub signal_reset_on_exec : SignalState → SignalState
signal_reset_on_exec sig = record sig {
  actions = λ i.
      let action = sig.actions i in if ltb 0 i && ltb i nsig then reset_action i action else action;
  pending = 0;
  blocked_mask = 0;
}

kill_round :
    (sig : SignalState) (user_ok : ℕ → Bool) (tf : TrapFrame) (memory : UserMemory)
    → sig.pending ≡ 2 ^ 9
    → has_signal sig.blocked_mask sigkill ≡ false
    → (sig.actions sigkill).sa_handler ≡ sig_dfl
    → signal_round user_ok sigkill sig tf memory
      ≡ stop (default_action (some 137) (record sig { pending = 0 }))
unfolding signal_round take_signal
kill_round sig user_ok tf memory only unmasked uncaught = rw (only, unmasked, uncaught) refl

earlier_rounds :
    (sig : SignalState) (user_ok : ℕ → Bool) (tf : TrapFrame) (memory : UserMemory)
    → sig.pending ≡ 2 ^ 9
    → check_signals user_ok sig tf memory ≡ signal_loop user_ok 23 sigkill sig tf memory
unfolding check_signals signal_round
earlier_rounds sig user_ok tf memory only =
    subst
      (λ n.
        check_signals user_ok (record sig { pending = n }) tf memory
        ≡ signal_loop user_ok 23 sigkill (record sig { pending = n }) tf memory)
      (sym only) refl

-- A task other than init without pending signals that is sent SIGKILL, which it has neither in its mask
-- nor with a handler, ends with the status 137 at its next check_signals, wherever its stack is.
pub do_sys_kill-check_signals :
    (mem_ok : Bool) (target : Target) (sig : SignalState) (user_ok : ℕ → Bool) (tf : TrapFrame)
    (memory : UserMemory)
    → (target.pid == 1) ≡ false
    → target.sig ≡ some sig
    → sig.pending ≡ 0
    → has_signal sig.blocked_mask sigkill ≡ false
    → (sig.actions sigkill).sa_handler ≡ sig_dfl
    → (after : SignalState) × ((do_sys_kill mem_ok sigkill target).1.sig ≡ some after)
      × (check_signals user_ok after tf memory
          ≡ default_action (some 137) (record after { pending = 0 }))
unfolding do_sys_kill signal_loop
do_sys_kill-check_signals mem_ok target sig user_ok tf memory not_init has_sig idle unmasked
      uncaught =
    (
      record sig { pending = add_signal sig.pending sigkill },
      rw (not_init, has_sig) refl,
      earlier_rounds after user_ok tf memory only
          ∙ ap (λ r. elim r [ go_on next ↦ signal_loop user_ok 22 10 next tf memory | stop d ↦ d ])
              (kill_round after user_ok tf memory only unmasked uncaught),
    )
  where
    after : SignalState
    after = record sig { pending = add_signal sig.pending sigkill }

    only : add_signal sig.pending sigkill ≡ 2 ^ 9
    only = rw idle refl
