-- ===== src/File/Descriptors.antt =====
-- The table around the slot that fd_alloc of kernel/file.c fills.
use mathlib.Core.Path.{subst}
use aurora_os.Prelude.{
  ℕ, zero, suc, ◌<◌, ◌≡◌, ◌≢◌, refl, ap, none, some, List, [], ◌∷◌, arith, length, get_or, set,
  Option-cases, inl, inr, answers_agree, no_answer,
}
use aurora_os.Capability.{Slot, free, raw, cap, Task, fill_first}
use aurora_os.File.{fd_alloc}

-- `after` is `before` with `slot` at `fd`, the first free place.
pub data Placed (slot : Slot) : ℕ → List Slot → List Slot → Type 0 where
  here : {rest : List Slot} → Placed slot 0 (free ∷ rest) (slot ∷ rest)
  later :
      {fd : ℕ} {first : Slot} {before after : List Slot}
      → Placed slot fd before after
      → Placed slot (suc fd) (first ∷ before) (first ∷ after)

fill_first-Placed :
    (slot : Slot) (table : List Slot) (fd : ℕ) (table' : List Slot)
    → fill_first slot table ≡ some (fd, table')
    → Placed slot fd table table'
unfolding fill_first
fill_first-Placed slot [] fd table' e = no_answer refl e
fill_first-Placed slot (free ∷ rest) fd table' e =
    subst (λ p. Placed slot (p.0) (free ∷ rest) (p.1)) (answers_agree refl e) here
fill_first-Placed slot (raw f ∷ rest) fd table' e = elim (Option-cases (fill_first slot rest)) [
  | inl full ↦
      let none_here : fill_first slot (raw f ∷ rest) ≡ none = rw (full, fill_first) in
      no_answer none_here e
  | inr ((n, after), found) ↦
      let answer : fill_first slot (raw f ∷ rest) ≡ some (suc n, raw f ∷ after) =
        rw (found, fill_first) in
      subst (λ p. Placed slot (p.0) (raw f ∷ rest) (p.1)) (answers_agree answer e)
        (later (fill_first-Placed slot rest n after found))
]
fill_first-Placed slot (cap x ∷ rest) fd table' e = elim (Option-cases (fill_first slot rest)) [
  | inl full ↦
      let none_here : fill_first slot (cap x ∷ rest) ≡ none = rw (full, fill_first) in
      no_answer none_here e
  | inr ((n, after), found) ↦
      let answer : fill_first slot (cap x ∷ rest) ≡ some (suc n, cap x ∷ after) =
        rw (found, fill_first) in
      subst (λ p. Placed slot (p.0) (cap x ∷ rest) (p.1)) (answers_agree answer e)
        (later (fill_first-Placed slot rest n after found))
]

pub Placed-here :
    {slot : Slot} {fd : ℕ} {before after : List Slot}
    → Placed slot fd before after
    → (get_or after fd free ≡ slot) × (fd < length before)
Placed-here here = (refl, omega arith)
Placed-here (later h) = let (there, inside) = Placed-here h in (there, omega arith)

pub Placed-other :
    {slot : Slot} {fd : ℕ} {before after : List Slot}
    → Placed slot fd before after
    → (j : ℕ) → j ≢ fd
    → get_or after j free ≡ get_or before j free
Placed-other here zero other = absurd (other refl)
Placed-other here (suc j) other = refl
Placed-other (later h) zero other = refl
Placed-other (later h) (suc j) other = Placed-other h j (λ e. other (ap suc e))

pub Placed-before :
    {slot : Slot} {fd : ℕ} {before after : List Slot}
    → Placed slot fd before after
    → get_or before fd free ≡ free
Placed-before here = refl
Placed-before (later h) = Placed-before h

pub length-Placed :
    {slot : Slot} {fd : ℕ} {before after : List Slot}
    → Placed slot fd before after
    → length after ≡ length before
length-Placed here = refl
length-Placed (later h) = ap suc (length-Placed h)

pub Placed-undo :
    {slot : Slot} {fd : ℕ} {before after : List Slot}
    → Placed slot fd before after
    → set after fd free ≡ before
Placed-undo here = refl
Placed-undo (later {first = first} h) = ap (λ rest. first ∷ rest) (Placed-undo h)

pub alloc-Placed :
    (t : Task) (filp fd : ℕ) (t' : Task)
    → fd_alloc t filp ≡ some (fd, t')
    → Placed (raw filp) fd t.fd_table t'.fd_table
unfolding fd_alloc
alloc-Placed t filp fd t' e = elim (Option-cases (fill_first (raw filp) t.fd_table)) [
  | inl full ↦ let none_here : fd_alloc t filp ≡ none = rw (full, fd_alloc) in no_answer none_here e
  | inr ((n, table), found) ↦
      let answer : fd_alloc t filp ≡ some (n, record t { fd_table = table }) =
        rw (found, fd_alloc) in
      subst (λ p. Placed (raw filp) (p.0) t.fd_table (p.1.fd_table)) (answers_agree answer e)
        (fill_first-Placed (raw filp) t.fd_table n table found)
]
