-- ===== src/Capability/Alloc.antt =====
-- cap_fd_alloc of kernel/capability.c: the slot that it fills, and its test for escalation.
use mathlib.Core.Path.{subst}
use native.Mathlib.Nat.{pow-suc}
use aurora_os.Prelude.{
  ℕ, zero, suc, ◌+◌, ◌-◌, ◌/◌, ◌^◌, ◌<◌, ◌≤◌, ◌≡◌, ◌≢◌, refl, sym, ap, ◌∙◌, Bool, true, false, not,
  ◌&&◌, none, some, List, [], ◌∷◌, arith, min, max, bit_and, bit, bit-lt, bit-zero, bit-bit_and,
  bit-bit_or, bit_or-lt, ◌==◌, ==→eq, ltb, ltb→lt, ltb→le, Bool-cases, Option-cases, inl, inr,
  answers_agree, no_answer, set, get_or, ne→==, leb,
}
use aurora_os.Capability.{
  Slot, free, raw, cap, Task, CapEntry, held_caps, complement, fill_first, cap_fd_alloc, cap_get,
  entry_of,
}

-- The rights in a table are 32-bit words.
abbrev pub AllWords : List Slot → Type 0
AllWords [] = Unit
AllWords (cap entry ∷ rest) = (entry.caps < 2 ^ 32) × AllWords rest
AllWords (_ ∷ rest) = AllWords rest

held_caps-lt : (table : List Slot) → AllWords table → held_caps table < 2 ^ 32
unfolding held_caps
held_caps-lt [] h = omega arith
held_caps-lt (free ∷ rest) h = held_caps-lt rest h
held_caps-lt (raw f ∷ rest) h = held_caps-lt rest h
held_caps-lt (cap entry ∷ rest) h =
    bit_or-lt 32 entry.caps (held_caps rest) h.0 (held_caps-lt rest h.1)

-- The complement in `k` bits has the other bits.
bit-complement : (k h i : ℕ) → h < 2 ^ k → i < k → bit (2 ^ k - 1 - h) i + bit h i ≡ 1
bit-complement zero h i small below = absurd (omega arith)
bit-complement (suc k) h zero small below = omega (arith, pow-suc 2 k)
bit-complement (suc k) h (suc i) small below =
    let half : (2 ^ suc k - 1 - h) / 2 ≡ 2 ^ k - 1 - h / 2 = omega (arith, pow-suc 2 k) in
    ap (λ x. bit x i + bit (h / 2) i) half
    ∙ bit-complement k (h / 2) i (omega (arith, pow-suc 2 k)) (omega arith)

bit-above : (k a i : ℕ) → a < 2 ^ k → k ≤ i → bit a i ≡ 0
bit-above zero a i small above = ap (λ x. bit x i) (omega arith) ∙ bit-zero i
bit-above (suc k) a zero small above = absurd (omega arith)
bit-above (suc k) a (suc i) small above =
    bit-above k (a / 2) i (omega (arith, pow-suc 2 k)) (omega arith)

-- The test `(caps & ~held) != 0` refuses a right that is not held.
pub subset_test :
    (caps held i : ℕ)
    → caps < 2 ^ 32
    → held < 2 ^ 32
    → (bit_and caps (complement held) == 0) ≡ true
    → bit caps i ≤ bit held i
subset_test caps held i word small e = elim (Bool-cases (ltb i 32)) [
  | inl below ↦
      let none_left : min (bit caps i) (bit (complement held) i) ≡ 0 =
        sym (bit-bit_and caps (complement held) i) ∙ ap (λ x. bit x i) (==→eq _ _ e) ∙ bit-zero i in
      let other = bit-complement 32 held i small (ltb→lt _ _ below) in omega (arith, bit-lt caps i)
  | inr above ↦ omega (arith, bit-above 32 caps i word (ltb→le _ _ above))
]

slot-word :
    (table : List Slot) (at : ℕ) (entry : CapEntry)
    → AllWords table
    → entry_of (get_or table at free) ≡ some entry
    → entry.caps < 2 ^ 32
slot-word [] at entry words e = no_answer refl e
slot-word (free ∷ rest) zero entry words e = no_answer refl e
slot-word (raw f ∷ rest) zero entry words e = no_answer refl e
slot-word (cap x ∷ rest) zero entry words e =
    let same = ap (λ y. y.caps) (answers_agree refl e) in omega (arith, words.0)
slot-word (free ∷ rest) (suc at) entry words e = slot-word rest at entry words e
slot-word (raw f ∷ rest) (suc at) entry words e = slot-word rest at entry words e
slot-word (cap x ∷ rest) (suc at) entry words e = slot-word rest at entry (words.1) e

pub cap_get-word :
    (t : Task) (fd : ℕ) (entry : CapEntry)
    → AllWords t.fd_table
    → cap_get t fd ≡ some entry
    → entry.caps < 2 ^ 32
unfolding cap_get
cap_get-word t fd entry words e = elim (Bool-cases (leb 16 fd)) [
  | inl outside ↦
      let none_here : cap_get t fd ≡ none = rw (outside, cap_get) in no_answer none_here e
  | inr inside ↦
      let here : cap_get t fd ≡ entry_of (get_or t.fd_table fd free) = rw (inside, cap_get) in
      slot-word t.fd_table fd entry words (sym here ∙ e)
]

-- The second table is the first with `entry` in its first free slot.
pub data Filled (entry : CapEntry) : List Slot → List Slot → Type 0 where
  here : {rest : List Slot} → Filled entry (free ∷ rest) (cap entry ∷ rest)
  later :
      {slot : Slot} {before after : List Slot}
      → Filled entry before after
      → Filled entry (slot ∷ before) (slot ∷ after)

fill_first-Filled :
    (entry : CapEntry) (table : List Slot) (fd : ℕ) (table' : List Slot)
    → fill_first (cap entry) table ≡ some (fd, table')
    → Filled entry table table'
unfolding fill_first
fill_first-Filled entry [] fd table' e = no_answer refl e
fill_first-Filled entry (free ∷ rest) fd table' e =
    subst (λ p. Filled entry (free ∷ rest) (p.1)) (answers_agree refl e) here
fill_first-Filled entry (raw f ∷ rest) fd table' e =
    elim (Option-cases (fill_first (cap entry) rest)) [
      | inl full ↦
          let none_here : fill_first (cap entry) (raw f ∷ rest) ≡ none = rw (full, fill_first) in
          no_answer none_here e
      | inr ((n, after), found) ↦
          let answer : fill_first (cap entry) (raw f ∷ rest) ≡ some (suc n, raw f ∷ after) =
            rw (found, fill_first) in
          subst (λ p. Filled entry (raw f ∷ rest) (p.1)) (answers_agree answer e)
            (later (fill_first-Filled entry rest n after found))
    ]
fill_first-Filled entry (cap x ∷ rest) fd table' e =
    elim (Option-cases (fill_first (cap entry) rest)) [
      | inl full ↦
          let none_here : fill_first (cap entry) (cap x ∷ rest) ≡ none = rw (full, fill_first) in
          no_answer none_here e
      | inr ((n, after), found) ↦
          let answer : fill_first (cap entry) (cap x ∷ rest) ≡ some (suc n, cap x ∷ after) =
            rw (found, fill_first) in
          subst (λ p. Filled entry (cap x ∷ rest) (p.1)) (answers_agree answer e)
            (later (fill_first-Filled entry rest n after found))
    ]

pub Filled-bits :
    {entry : CapEntry} {before after : List Slot} (i : ℕ)
    → Filled entry before after
    → bit (held_caps after) i ≡ max (bit entry.caps i) (bit (held_caps before) i)
unfolding held_caps
Filled-bits {entry = entry} i (here {rest = rest}) = bit-bit_or entry.caps (held_caps rest) i
Filled-bits i (later {slot = free} h) = Filled-bits i h
Filled-bits i (later {slot = raw f} h) = Filled-bits i h
Filled-bits i (later {slot = cap x} {before = before} {after = after} h) = omega (
  arith,
  bit-bit_or x.caps (held_caps before) i,
  bit-bit_or x.caps (held_caps after) i,
  Filled-bits i h,
)

pub Filled-AllWords :
    {entry : CapEntry} {before after : List Slot}
    → Filled entry before after
    → entry.caps < 2 ^ 32
    → AllWords before
    → AllWords after
Filled-AllWords here small h = (small, h)
Filled-AllWords (later {slot = free} f) small h = Filled-AllWords f small h
Filled-AllWords (later {slot = raw _} f) small h = Filled-AllWords f small h
Filled-AllWords (later {slot = cap x} f) small h = (h.0, Filled-AllWords f small h.1)

allowed_bits :
    (is_init fits : Bool) → is_init ≡ false → (not is_init && not fits) ≡ false → fits ≡ true
allowed_bits true fits e g = cc
allowed_bits false true e g = refl
allowed_bits false false e g = cc

-- What a successful allocation has done.
pub record Allocated (t : Task) (filp caps fd : ℕ) (t' : Task) : Type 0 where
  pub allowed : t.pid ≢ 1 → (bit_and caps (complement (held_caps t.fd_table)) == 0) ≡ true
  pub filled : Filled (record { file = filp; caps = caps }) t.fd_table t'.fd_table
  pub same_pid : t'.pid ≡ t.pid

pub cap_fd_alloc-Allocated :
    (mem_ok : Bool) (t : Task) (filp caps fd : ℕ) (t' : Task)
    → cap_fd_alloc mem_ok t filp caps ≡ some (fd, t')
    → Allocated t filp caps fd t'
unfolding cap_fd_alloc
cap_fd_alloc-Allocated mem_ok t filp caps fd t' e =
    let answer = cap_fd_alloc mem_ok t filp caps in
    let escalates =
      not (t.pid == 1) && not (bit_and caps (complement (held_caps t.fd_table)) == 0) in
    elim (Bool-cases escalates) [
      | inl refused ↦
          let none_here : answer ≡ none = rw (refused, cap_fd_alloc) in no_answer none_here e
      | inr granted ↦ elim (Bool-cases mem_ok) [
        | inr short ↦
            let none_here : answer ≡ none = rw (granted, short, cap_fd_alloc) in
            no_answer none_here e
        | inl there ↦
            elim (Option-cases
              (fill_first (cap (record { file = filp; caps = caps })) t.fd_table)) [
                | inl full ↦
                    let none_here : answer ≡ none = rw (granted, there, full, cap_fd_alloc) in
                    no_answer none_here e
                | inr ((n, table), found) ↦
                    let here : answer ≡ some (n, record t { fd_table = table }) =
                      rw (granted, there, found, cap_fd_alloc) in
                    let same = answers_agree here e in
                    record {
                      allowed = λ other. allowed_bits (t.pid == 1) _ (ne→== t.pid 1 other) granted;
                      filled =
                          subst
                            (λ p.
                              Filled (record { file = filp; caps = caps }) t.fd_table
                                (p.1.fd_table))
                            same
                            (fill_first-Filled (record { file = filp; caps = caps }) t.fd_table n
                              table found);
                      same_pid = sym (ap (λ p. p.1.pid) same);
                    }
              ]
      ]
    ]

module _ (t : Task) (plain : t.pid ≢ 1) (words : AllWords t.fd_table) where
  -- An allocation adds no right to those in the table.
  pub alloc-bits :
      (mem_ok : Bool) (filp caps fd i : ℕ) (t' : Task)
      → caps < 2 ^ 32
      → cap_fd_alloc mem_ok t filp caps ≡ some (fd, t')
      → bit (held_caps t'.fd_table) i ≡ bit (held_caps t.fd_table) i
  alloc-bits mem_ok filp caps fd i t' word e =
      let done = cap_fd_alloc-Allocated mem_ok t filp caps fd t' e in
      let union = Filled-bits i done.filled in
      let subset =
        subset_test caps (held_caps t.fd_table) i word (held_caps-lt t.fd_table words)
          (done.allowed plain) in
      omega arith

pub held_caps-set_free :
    (table : List Slot) (fd i : ℕ) → bit (held_caps (set table fd free)) i ≤ bit (held_caps table) i
unfolding held_caps
held_caps-set_free [] fd i = omega arith
held_caps-set_free (free ∷ rest) zero i = omega arith
held_caps-set_free (raw f ∷ rest) zero i = omega arith
held_caps-set_free (cap x ∷ rest) zero i = omega (arith, bit-bit_or x.caps (held_caps rest) i)
held_caps-set_free (free ∷ rest) (suc fd) i = held_caps-set_free rest fd i
held_caps-set_free (raw f ∷ rest) (suc fd) i = held_caps-set_free rest fd i
held_caps-set_free (cap x ∷ rest) (suc fd) i = omega (
  arith,
  bit-bit_or x.caps (held_caps rest) i,
  bit-bit_or x.caps (held_caps (set rest fd free)) i,
  held_caps-set_free rest fd i,
)

pub AllWords-set_free : (table : List Slot) (fd : ℕ) → AllWords table → AllWords (set table fd free)
AllWords-set_free [] fd h = h
AllWords-set_free (free ∷ rest) zero h = h
AllWords-set_free (raw f ∷ rest) zero h = h
AllWords-set_free (cap x ∷ rest) zero h = h.1
AllWords-set_free (free ∷ rest) (suc fd) h = AllWords-set_free rest fd h
AllWords-set_free (raw f ∷ rest) (suc fd) h = AllWords-set_free rest fd h
AllWords-set_free (cap x ∷ rest) (suc fd) h = (h.0, AllWords-set_free rest fd h.1)
