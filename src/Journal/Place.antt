-- ===== src/Journal/Place.antt =====
-- The journal of kernel/journal.c stays where it is while its pointers move.
use aurora_os.Prelude.{
  ℕ, zero, suc, ◌+◌, ◌-◌, ◌≡◌, refl, ◌∙◌, Bool, true, false, ltb, if◌then◌else◌, Bool-cases, inl,
  inr,
}
use aurora_os.Journal.Disk.{Device}
use aurora_os.Journal.{Handle, Journal, skip_length, journal_read_block, evict, wrap_head}
use aurora_os.Journal.Order.{area_of}

-- What does not read the pointers.
abbrev Fixed {ℓ} : {A : Type ℓ} → (Handle → A) → Type ℓ
Fixed f = (h : Handle) (head tail : ℕ) → f (record h { head = head; tail = tail }) ≡ f h

evict-Fixed {ℓ} :
    {A : Type ℓ}
    → (f : Handle → A) (fuel : ℕ) (h : Handle) (dev : Device) → Fixed f
    → f (evict fuel h dev) ≡ f h
unfolding evict
evict-Fixed f zero h dev fixed = refl
evict-Fixed f (suc fuel) h dev fixed =
    elim (Bool-cases (ltb h.head (h.tail + (h.journal_blocks - 1)))) [
      | inl e ↦ rw e refl
      | inr e ↦
          let tail = h.tail + skip_length (journal_read_block h h.tail dev) in
          rw e (evict-Fixed f fuel (record h { tail = tail }) dev fixed ∙ fixed h h.head tail)
    ]

wrap_head-Fixed {ℓ} : {A : Type ℓ} → (f : Handle → A) (h : Handle) → Fixed f → f (wrap_head h) ≡ f h
wrap_head-Fixed f h fixed = elim (Bool-cases (ltb h.head h.journal_blocks)) [
  | inl e ↦ rw e refl
  | inr e ↦ elim (Bool-cases (ltb h.tail h.journal_blocks)) [
    | inl l ↦ rw (e, l) (fixed h (h.head - h.journal_blocks) h.tail)
    | inr l ↦ rw (e, l) (fixed h (h.head - h.journal_blocks) (h.tail - h.journal_blocks))
  ]
]

-- The handle after advance_head has moved its pointers.
abbrev pub moved_handle : Bool → ℕ → Journal → Handle
moved_handle mem_ok n j =
    let moved : Handle = record j.handle { head = j.handle.head + n } in
    wrap_head (if mem_ok then evict (suc moved.head) moved j.dev else moved)

moved_handle-Fixed {ℓ} :
    {A : Type ℓ}
    → (f : Handle → A) (mem_ok : Bool) (n : ℕ) (j : Journal) → Fixed f
    → f (moved_handle mem_ok n j) ≡ f j.handle
moved_handle-Fixed f true n j fixed =
    let moved : Handle = record j.handle { head = j.handle.head + n } in
    wrap_head-Fixed f (evict (suc moved.head) moved j.dev) fixed
    ∙ evict-Fixed f (suc moved.head) moved j.dev fixed
    ∙ fixed j.handle moved.head j.handle.tail
moved_handle-Fixed f false n j fixed =
    let moved : Handle = record j.handle { head = j.handle.head + n } in
    wrap_head-Fixed f moved fixed ∙ fixed j.handle moved.head j.handle.tail

-- What stays of a handle when its pointers move.
pub record SamePlace (h h' : Handle) : Type 0 where
  pub area : area_of h' ≡ area_of h
  pub blocks : h'.journal_blocks ≡ h.journal_blocks
  pub size : h'.block_size ≡ h.block_size

pub moved_handle-SamePlace :
    (mem_ok : Bool) (n : ℕ) (j : Journal) → SamePlace j.handle (moved_handle mem_ok n j)
moved_handle-SamePlace mem_ok n j = record {
  area = moved_handle-Fixed area_of mem_ok n j (λ h head tail. refl);
  blocks = moved_handle-Fixed (λ h. h.journal_blocks) mem_ok n j (λ h head tail. refl);
  size = moved_handle-Fixed (λ h. h.block_size) mem_ok n j (λ h head tail. refl);
}
