-- ===== src/Signal/Return.antt =====
-- A handler is called only for a signal that may be delivered, and the return from it restores what was
-- interrupted (kernel/signal.c).
use aurora_os.Prelude.{ℕ, ◌≤◌, ◌<◌, ◌≡◌, ◌≢◌, sym, ap, ◌∙◌, Bool, false}
use aurora_os.Signal.{
  SignalState, TrapFrame, UserMemory, nsig, has_signal, Delivery, handled, check_signals, sig_dfl,
  sig_ign,
}
use aurora_os.Signal.Handler.{check_signals-Called}

-- The parts of a call of a handler.
state_of : Delivery → SignalState → SignalState
state_of (handled sig tf memory) d = sig
state_of _ d = d

frame_of : Delivery → TrapFrame → TrapFrame
frame_of (handled sig tf memory) d = tf
frame_of _ d = d

memory_of : Delivery → UserMemory → UserMemory
memory_of (handled sig tf memory) d = memory
memory_of _ d = d

-- When check_signals calls a handler, it is the one of a signal that the task catches and has not
-- blocked, with the signal as its argument, and no other handler is under way.
pub check_signals_caught :
    (user_ok : ℕ → Bool) (sig : SignalState) (tf : TrapFrame) (memory : UserMemory)
    (sig' : SignalState) (tf' : TrapFrame) (memory' : UserMemory)
    → check_signals user_ok sig tf memory ≡ handled sig' tf' memory'
    → (s : ℕ) × (1 ≤ s)
      × (s < nsig)
      × (tf'.rdi ≡ s)
      × (tf'.rip ≡ (sig.actions s).sa_handler)
      × ((sig.actions s).sa_handler ≢ sig_dfl)
      × ((sig.actions s).sa_handler ≢ sig_ign)
      × (has_signal sig.blocked_mask s ≡ false)
      × (sig.saved_rip ≡ 0)
unfolding frame_of
check_signals_caught user_ok sig tf memory sig' tf' memory' e =
    let (s, low, high, called) = check_signals-Called user_ok sig tf memory sig' tf' memory' e in
    let entered = ap (λ d. frame_of d tf) (sym called.entered) in
    let handler = ap (λ f. (f s).sa_handler) called.same_actions in
    (
      s,
      low,
      high,
      ap (λ t. t.rdi) entered,
      ap (λ t. t.rip) entered ∙ handler,
      called.caught.0,
      called.caught.1,
      called.not_blocked,
      called.not_nested,
    )
