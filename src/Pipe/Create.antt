-- ===== src/Pipe/Create.antt =====
-- sys_pipe of kernel/pipe.c: two descriptors of one task, for the two ends of a new pipe. The files of the
-- ends are numbers; kmalloc has memory for all five objects, or not.
use aurora_os.Prelude.{
  ℕ, zero, suc, ◌<◌, ◌≡◌, ◌≢◌, refl, ap, ◌∙◌, Bool, false, not, Option, none, some, List, [], ◌∷◌,
  length, get_or, set, get_or-set, leb, ◌==◌, if◌then◌else◌, arith, Option-cases, inl, inr, ◌⊎◌,
  if-holds,
}
use aurora_os.Capability.{Slot, free, raw, Task}
use aurora_os.File.{fd_alloc, fd_get, fd_close, file_of, closing}
use aurora_os.File.Descriptors.{
  Placed, Placed-here, Placed-other, Placed-before, Placed-undo, length-Placed, alloc-Placed,
}

-- The task after fd_close, whose answer is not looked at.
abbrev pub after_close : Task → ℕ → Task
after_close t fd = elim (fd_close t fd) [ none ↦ t | some (call, after) ↦ after ]

-- The two descriptors, or none for -1, and the task after the call.
abbrev pub Created : Type 0
Created = Option (ℕ × ℕ) × Task

-- copy_to_user
abbrev pub hand_out : Bool → ℕ → ℕ → Task → Created
hand_out copied rfd wfd t =
    if copied then (some (rfd, wfd), t) else (none, after_close (after_close t rfd) wfd)

-- The second fd_alloc, after the first has answered.
abbrev pub second_end : Bool → ℕ → ℕ → Task → Created
second_end copied wfilp rfd t = elim (fd_alloc t wfilp) [
  | none ↦ (none, after_close t rfd)
  | some (wfd, after) ↦ hand_out copied rfd wfd after
]

-- When the first has failed, the second is called all the same.
abbrev pub only_second : ℕ → Task → Created
only_second wfilp t = elim (fd_alloc t wfilp) [
  | none ↦ (none, t)
  | some (wfd, after) ↦ (none, after_close after wfd)
]

unfoldable pub sys_pipe : Bool → Bool → Bool → ℕ → ℕ → Task → Created
sys_pipe fds_ok mem_ok copied rfilp wfilp t =
    if not fds_ok then (none, t) else if not mem_ok then (none, t) else elim (fd_alloc t rfilp) [
      | none ↦ only_second wfilp t
      | some (rfd, after) ↦ second_end copied wfilp rfd after
    ]

-- Both ends are there, at different descriptors, and the others lead to what they led to.
pub record BothEnds (t : Task) (rfilp wfilp : ℕ) (r : Created) : Type 0 where
  pub rfd : ℕ
  pub wfd : ℕ
  pub answer : r.0 ≡ some (rfd, wfd)
  pub apart : rfd ≢ wfd
  pub read_end : fd_get r.1 rfd ≡ some rfilp
  pub write_end : fd_get r.1 wfd ≡ some wfilp
  pub others :
      (fd : ℕ) → fd ≢ rfd → fd ≢ wfd → get_or r.1.fd_table fd free ≡ get_or t.fd_table fd free

-- Or nothing has changed.
pub record NoPipe (t : Task) (r : Created) : Type 0 where
  pub refused : r.0 ≡ none
  pub same : r.1.fd_table ≡ t.fd_table

after_close-table :
    (f fd : ℕ) (t : Task)
    → fd < 16
    → get_or t.fd_table fd free ≡ raw f
    → (after_close t fd).fd_table ≡ set t.fd_table fd free
unfolding fd_close
after_close-table f fd t inside there =
    let low : leb 16 fd ≡ false = ground arith in
    let answer : fd_close t fd
        ≡ some (closing (raw f), record t { fd_table = set t.fd_table fd free }) =
      rw (fd_close, low, there) refl in
    ap (λ o. (elim o as (λ x. Task) [ none ↦ t | some (call, after) ↦ after ]).fd_table) answer

set_comm :
    (table : List Slot) (i j : ℕ) (a b : Slot)
    → i ≢ j
    → set (set table i a) j b ≡ set (set table j b) i a
set_comm [] i j a b apart = refl
set_comm (x ∷ table) zero zero a b apart = absurd (apart refl)
set_comm (x ∷ table) zero (suc j) a b apart = refl
set_comm (x ∷ table) (suc i) zero a b apart = refl
set_comm (x ∷ table) (suc i) (suc j) a b apart =
    ap (λ rest. x ∷ rest) (set_comm table i j a b (λ e. apart (ap suc e)))

abbrev Ends : Task → ℕ → ℕ → Created → Type 0
Ends t rfilp wfilp r = BothEnds t rfilp wfilp r ⊎ NoPipe t r

-- With both descriptors there.
hand_out-Ends :
    (copied : Bool) (rfilp wfilp rfd wfd : ℕ) (t middle last : Task)
    → rfd < 16
    → wfd < 16
    → rfd < length last.fd_table
    → Placed (raw rfilp) rfd t.fd_table middle.fd_table
    → Placed (raw wfilp) wfd middle.fd_table last.fd_table
    → Ends t rfilp wfilp (hand_out copied rfd wfd last)
unfolding fd_get
hand_out-Ends copied rfilp wfilp rfd wfd t middle last r_low w_low in_table p q =
    if-holds (Ends t rfilp wfilp) copied
      (inl (record {
        rfd = rfd;
        wfd = wfd;
        answer = refl;
        apart = apart;
        read_end = rw (high_r, fd_get) (ap file_of at_r);
        write_end = rw (high_w, fd_get) (ap file_of at_w);
        others = λ fd not_r not_w. Placed-other q fd not_w ∙ Placed-other p fd not_r;
      }))
      (inr (record {
        refused = refl;
        same =
            after_close-table wfilp wfd (after_close last rfd) w_low still_w
            ∙ ap (λ table. set table wfd free) first_closed
            ∙ set_comm last.fd_table rfd wfd free free apart
            ∙ ap (λ table. set table rfd free) (Placed-undo q)
            ∙ Placed-undo p;
      }))
  where
    high_r : leb 16 rfd ≡ false
    high_r = ground arith

    high_w : leb 16 wfd ≡ false
    high_w = ground arith

    apart : rfd ≢ wfd
    apart e = absurd (cc ((Placed-here p).0, Placed-before q, e))

    at_r : get_or last.fd_table rfd free ≡ raw rfilp
    at_r = Placed-other q rfd apart ∙ (Placed-here p).0

    at_w : get_or last.fd_table wfd free ≡ raw wfilp
    at_w = (Placed-here q).0

    first_closed : (after_close last rfd).fd_table ≡ set last.fd_table rfd free
    first_closed = after_close-table rfilp rfd last r_low at_r

    still_w : get_or (after_close last rfd).fd_table wfd free ≡ raw wfilp
    still_w =
        let other : (rfd == wfd) ≡ false = ground (arith, apart) in
        ap (λ table. get_or table wfd free) first_closed
        ∙ get_or-set last.fd_table rfd wfd free free in_table
        ∙ rw other at_w

-- In a table of sixteen slots sys_pipe either gives two different descriptors, the first of which leads
-- to the read end and the second to the write end, and every other descriptor leads to what it led to;
-- or it answers -1, and the table is as it was before, wherever it failed.
pub sys_pipe-cases :
    (fds_ok mem_ok copied : Bool) (rfilp wfilp : ℕ) (t : Task)
    → length t.fd_table ≡ 16
    → BothEnds t rfilp wfilp (sys_pipe fds_ok mem_ok copied rfilp wfilp t)
      ⊎ NoPipe t (sys_pipe fds_ok mem_ok copied rfilp wfilp t)
unfolding sys_pipe
sys_pipe-cases fds_ok mem_ok copied rfilp wfilp t size =
    if-holds (Ends t rfilp wfilp) (not fds_ok) nothing
      (if-holds (Ends t rfilp wfilp) (not mem_ok) nothing (by_first (fd_alloc t rfilp) refl))
  where
    nothing : Ends t rfilp wfilp (none, t)
    nothing = inr (record { refused = refl; same = refl })

    by_first :
        (o : Option (ℕ × Task))
        → fd_alloc t rfilp ≡ o
        → Ends t rfilp wfilp (elim o [
          | none ↦ only_second wfilp t
          | some (rfd, after) ↦ second_end copied wfilp rfd after
        ])
    by_first none e = elim (Option-cases (fd_alloc t wfilp)) [
      | inl full ↦ rw (only_second, full) nothing
      | inr ((wfd, after), found) ↦
          let q = alloc-Placed t wfilp wfd after found in
          let (there, inside) = Placed-here q in
          rw (only_second, found)
            (inr (record {
              refused = refl;
              same =
                  after_close-table wfilp wfd after (omega (arith, inside, size)) there
                  ∙ Placed-undo q;
            }))
    ]
    by_first (some (rfd, middle)) e =
        let p = alloc-Placed t rfilp rfd middle e in
        let (there, inside) = Placed-here p in
        let low : rfd < 16 = omega (arith, inside, size) in
        elim (Option-cases (fd_alloc middle wfilp)) [
          | inl full ↦
              rw (second_end, full)
                (inr (record {
                  refused = refl;
                  same = after_close-table rfilp rfd middle low there ∙ Placed-undo p;
                }))
          | inr ((wfd, last), found) ↦
              let q = alloc-Placed middle wfilp wfd last found in
              let w_inside = (Placed-here q).1 in
              let sizes = length-Placed p in
              let sizes' = length-Placed q in
              rw (second_end, found)
                (hand_out-Ends copied rfilp wfilp rfd wfd t middle last low
                  (omega (arith, w_inside, sizes, size))
                  (omega (arith, sizes, sizes', size, inside)) p q)
        ]
