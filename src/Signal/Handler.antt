-- ===== src/Signal/Handler.antt =====
-- What check_signals and do_sys_sigreturn of kernel/signal.c do together.
use mathlib.Core.Path.{subst}
use aurora_os.Prelude.{
  ℕ, zero, suc, ◌+◌, ◌-◌, ◌≤◌, ◌<◌, ◌≡◌, ◌≢◌, refl, sym, ap, ◌∙◌, Bool, false, Option, ltb, ◌==◌,
  Bool-cases, inl, inr, arith,
}
use aurora_os.Signal.{
  SignalState, TrapFrame, UserMemory, nsig, sizeof_sigframe, has_signal, add_signal, drop_signal,
  Delivery, nothing, default_action, handled, Round, go_on, stop, enter_handler, push_sigframe,
  take_signal, signal_round, signal_loop, check_signals, sig_dfl, sig_ign,
}

default_handled :
    (status : Option ℕ) (sig sig' : SignalState) (tf' : TrapFrame) (memory' : UserMemory)
    → default_action status sig ≢ handled sig' tf' memory'
default_handled status sig sig' tf' memory' e = cc

nothing_handled :
    (sig sig' : SignalState) (tf' : TrapFrame) (memory' : UserMemory)
    → nothing sig ≢ handled sig' tf' memory'
nothing_handled sig sig' tf' memory' e = cc

stop_default :
    (status : Option ℕ) (sig sig' : SignalState) (tf' : TrapFrame) (memory' : UserMemory)
    → stop (default_action status sig) ≢ stop (handled sig' tf' memory')
stop_default status sig sig' tf' memory' e = cc

go_on_stop : (sig : SignalState) (delivery : Delivery) → go_on sig ≢ stop delivery
go_on_stop sig delivery e = cc

stop_eq : (a b : Delivery) → stop a ≡ stop b → a ≡ b
stop_eq a b e = cc

-- A call of the handler of the signal `s`, out of the state `sig`.
pub record Called (s : ℕ) (sig : SignalState) (tf : TrapFrame) (memory : UserMemory)
    (delivery : Delivery) : Type 0 where
  pub before : SignalState
  pub enough : 0x1000 ≤ tf.rsp - (sizeof_sigframe + 24)
  pub entered : enter_handler s before tf memory ≡ delivery
  pub same_mask : before.blocked_mask ≡ sig.blocked_mask
  pub same_actions : before.actions ≡ sig.actions
  pub not_blocked : has_signal sig.blocked_mask s ≡ false
  pub not_nested : sig.saved_rip ≡ 0
  pub caught : ((sig.actions s).sa_handler ≢ sig_dfl) × ((sig.actions s).sa_handler ≢ sig_ign)

-- The same, of what push_sigframe and take_signal make.
push_sigframe-handled :
    (user_ok : ℕ → Bool) (s : ℕ) (sig : SignalState) (tf : TrapFrame) (memory : UserMemory)
    (sig' : SignalState) (tf' : TrapFrame) (memory' : UserMemory)
    → push_sigframe user_ok s sig tf memory ≡ handled sig' tf' memory'
    → (0x1000 ≤ tf.rsp - (sizeof_sigframe + 24))
      × (enter_handler s sig tf memory ≡ handled sig' tf' memory')
unfolding push_sigframe
push_sigframe-handled user_ok s sig tf memory sig' tf' memory' e =
    elim (Bool-cases (ltb tf.rsp (sizeof_sigframe + 24 + 0x1000))) [
      | inl small ↦ absurd (default_handled _ sig sig' tf' memory' (rw small at e))
      | inr large ↦ elim (Bool-cases (user_ok (tf.rsp - (sizeof_sigframe + 24)))) [
        | inl mapped ↦ (ground arith, rw (large, mapped) at e)
        | inr outside ↦ absurd (default_handled _ sig sig' tf' memory' (rw (large, outside) at e))
      ]
    ]

take_signal-Called :
    (user_ok : ℕ → Bool) (s : ℕ) (sig : SignalState) (tf : TrapFrame) (memory : UserMemory)
    (sig' : SignalState) (tf' : TrapFrame) (memory' : UserMemory)
    → has_signal sig.blocked_mask s ≡ false
    → take_signal user_ok s sig tf memory ≡ stop (handled sig' tf' memory')
    → Called s sig tf memory (handled sig' tf' memory')
unfolding take_signal
take_signal-Called user_ok s sig tf memory sig' tf' memory' open_mask e =
    elim (Bool-cases ((sig.actions s).sa_handler == sig_dfl)) [
      | inl default ↦ absurd (stop_default _ _ sig' tf' memory' (rw default at e))
      | inr not_default ↦ elim (Bool-cases ((sig.actions s).sa_handler == sig_ign)) [
        | inl ignored ↦ absurd (go_on_stop _ _ (rw (not_default, ignored) at e))
        | inr not_ignored ↦ elim (Bool-cases (sig.saved_rip == 0)) [
          | inr nested ↦ absurd (go_on_stop _ _ (rw (not_default, not_ignored, nested) at e))
          | inl single ↦
              let taken = record sig { pending = drop_signal sig.pending s } in
              let pushed =
                push_sigframe-handled user_ok s taken tf memory sig' tf' memory'
                  (stop_eq _ _ (rw (not_default, not_ignored, single) at e)) in
              record {
                before = taken;
                enough = pushed.0;
                entered = pushed.1;
                same_mask = refl;
                same_actions = refl;
                not_blocked = open_mask;
                not_nested = ground arith;
                caught = (ground arith, ground arith);
              }
        ]
      ]
    ]

signal_round-Called :
    (user_ok : ℕ → Bool) (s : ℕ) (sig : SignalState) (tf : TrapFrame) (memory : UserMemory)
    (sig' : SignalState) (tf' : TrapFrame) (memory' : UserMemory)
    → signal_round user_ok s sig tf memory ≡ stop (handled sig' tf' memory')
    → Called s sig tf memory (handled sig' tf' memory')
unfolding signal_round
signal_round-Called user_ok s sig tf memory sig' tf' memory' e =
    elim (Bool-cases (has_signal sig.pending s)) [
      | inr absent ↦ absurd (go_on_stop _ _ (rw absent at e))
      | inl pending ↦ elim (Bool-cases (has_signal sig.blocked_mask s)) [
        | inl held ↦ absurd (go_on_stop _ _ (rw (pending, held) at e))
        | inr unheld ↦
            take_signal-Called user_ok s sig tf memory sig' tf' memory' unheld
              (rw (pending, unheld) at e)
      ]
    ]

-- The fields that a round of the loop leaves as they are.
record SameHandlers (sig next : SignalState) : Type 0 where
  pub masks : next.blocked_mask ≡ sig.blocked_mask
  pub handlers : next.actions ≡ sig.actions
  pub progress : next.saved_rip ≡ sig.saved_rip

same_handlers :
    (sig mid next : SignalState)
    → SameHandlers sig mid
    → go_on mid ≡ go_on next
    → SameHandlers sig next
same_handlers sig mid next same e = subst (SameHandlers sig) (go_on_eq e) same
  where
    go_on_eq : {a b : SignalState} → go_on a ≡ go_on b → a ≡ b
    go_on_eq e = cc

take_signal-SameHandlers :
    (user_ok : ℕ → Bool) (s : ℕ) (sig : SignalState) (tf : TrapFrame) (memory : UserMemory)
    (next : SignalState)
    → take_signal user_ok s sig tf memory ≡ go_on next
    → SameHandlers sig next
unfolding take_signal
take_signal-SameHandlers user_ok s sig tf memory next e =
    elim (Bool-cases ((sig.actions s).sa_handler == sig_dfl)) [
      | inl default ↦ absurd (go_on_stop next _ (sym (rw default at e)))
      | inr not_default ↦ elim (Bool-cases ((sig.actions s).sa_handler == sig_ign)) [
        | inl ignored ↦ same_handlers sig taken next same (rw (not_default, ignored) at e)
        | inr not_ignored ↦ elim (Bool-cases (sig.saved_rip == 0)) [
          | inr nested ↦
              same_handlers sig queued next same_queued (rw (not_default, not_ignored, nested) at e)
          | inl single ↦
              absurd (go_on_stop next _ (sym (rw (not_default, not_ignored, single) at e)))
        ]
      ]
    ]
  where
    taken : SignalState
    taken = record sig { pending = drop_signal sig.pending s }

    queued : SignalState
    queued = record sig { pending = add_signal (drop_signal sig.pending s) s }

    same : SameHandlers sig taken
    same = record { masks = refl; handlers = refl; progress = refl }

    same_queued : SameHandlers sig queued
    same_queued = record { masks = refl; handlers = refl; progress = refl }

signal_round-SameHandlers :
    (user_ok : ℕ → Bool) (s : ℕ) (sig : SignalState) (tf : TrapFrame) (memory : UserMemory)
    (next : SignalState)
    → signal_round user_ok s sig tf memory ≡ go_on next
    → SameHandlers sig next
unfolding signal_round
signal_round-SameHandlers user_ok s sig tf memory next e =
    elim (Bool-cases (has_signal sig.pending s)) [
      | inr absent ↦ same_handlers sig sig next unchanged (rw absent at e)
      | inl pending ↦ elim (Bool-cases (has_signal sig.blocked_mask s)) [
        | inl held ↦ same_handlers sig sig next unchanged (rw (pending, held) at e)
        | inr unheld ↦
            take_signal-SameHandlers user_ok s sig tf memory next (rw (pending, unheld) at e)
      ]
    ]
  where
    unchanged : SameHandlers sig sig
    unchanged = record { masks = refl; handlers = refl; progress = refl }

Called-later :
    (s : ℕ) (sig next : SignalState) (tf : TrapFrame) (memory : UserMemory) (delivery : Delivery)
    → SameHandlers sig next
    → Called s next tf memory delivery
    → Called s sig tf memory delivery
Called-later s sig next tf memory delivery same c = record {
  before = c.before;
  enough = c.enough;
  entered = c.entered;
  same_mask = c.same_mask ∙ same.masks;
  same_actions = c.same_actions ∙ same.handlers;
  not_blocked = ap (λ mask. has_signal mask s) (sym same.masks) ∙ c.not_blocked;
  not_nested = sym same.progress ∙ c.not_nested;
  caught =
      subst (λ f. ((f s).sa_handler ≢ sig_dfl) × ((f s).sa_handler ≢ sig_ign)) same.handlers
        c.caught;
}

signal_loop-Called :
    (user_ok : ℕ → Bool) (more s : ℕ) (sig : SignalState) (tf : TrapFrame) (memory : UserMemory)
    (sig' : SignalState) (tf' : TrapFrame) (memory' : UserMemory)
    → signal_loop user_ok more s sig tf memory ≡ handled sig' tf' memory'
    → (r : ℕ) × (s ≤ r) × (r < s + more) × Called r sig tf memory (handled sig' tf' memory')
unfolding signal_loop
signal_loop-Called user_ok zero s sig tf memory sig' tf' memory' e = absurd (cc)
signal_loop-Called user_ok (suc more) s sig tf memory sig' tf' memory' e =
    by_round (signal_round user_ok s sig tf memory) refl e
      (λ next. signal_loop-Called user_ok more (suc s) next tf memory sig' tf' memory')
  where
    by_round :
        (round : Round)
        → signal_round user_ok s sig tf memory ≡ round
        → elim round [
          | go_on next ↦ signal_loop user_ok more (suc s) next tf memory
          | stop delivery ↦ delivery
        ]
          ≡ handled sig' tf' memory'
        → ((next : SignalState)
            → signal_loop user_ok more (suc s) next tf memory ≡ handled sig' tf' memory'
            → (r : ℕ) × (suc s ≤ r)
              × (r < suc s + more)
              × Called r next tf memory (handled sig' tf' memory'))
        → (r : ℕ) × (s ≤ r) × (r < s + suc more) × Called r sig tf memory (handled sig' tf' memory')
    by_round (go_on next) step e rec =
        let (r, low, high, called) = rec next e in
        let same = signal_round-SameHandlers user_ok s sig tf memory next step in
        (
          r,
          omega (arith, low),
          omega (arith, high),
          Called-later r sig next tf memory _ same called,
        )
    by_round (stop delivery) step e rec = (
      s,
      omega arith,
      omega arith,
      signal_round-Called user_ok s sig tf memory sig' tf' memory' (step ∙ ap stop e),
    )

pub check_signals-Called :
    (user_ok : ℕ → Bool) (sig : SignalState) (tf : TrapFrame) (memory : UserMemory)
    (sig' : SignalState) (tf' : TrapFrame) (memory' : UserMemory)
    → check_signals user_ok sig tf memory ≡ handled sig' tf' memory'
    → (r : ℕ) × (1 ≤ r) × (r < nsig) × Called r sig tf memory (handled sig' tf' memory')
unfolding check_signals
check_signals-Called user_ok sig tf memory sig' tf' memory' e =
    elim (Bool-cases (sig.pending == 0)) [
      | inl none_pending ↦ absurd (nothing_handled sig sig' tf' memory' (rw none_pending at e))
      | inr some_pending ↦
          let (r, low, high, called) =
            signal_loop-Called user_ok 31 1 sig tf memory sig' tf' memory' (rw some_pending at e) in
          (r, low, omega (arith, high), called)
    ]
