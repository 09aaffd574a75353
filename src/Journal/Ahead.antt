-- ===== src/Journal/Ahead.antt =====
-- journal_commit of kernel/journal.c as a whole: the journal is written ahead of the file system.
use mathlib.Core.Path.{subst}
use aurora_os.Prelude.{
  ℕ, ◌+◌, ◌%◌, ◌^◌, ◌≤◌, ◌<◌, ◌≡◌, refl, Bool, true, false, not, ◌||◌, List, [], ◌∷◌, length, arith,
  Bool-cases, inl, inr, ==_refl,
}
use aurora_os.Journal.Disk.{Block, commit_record, Device, Outcome, and_then, commit_checksum}
use aurora_os.Journal.{
  Handle, Journal, Answer, ok, sector_of, journal_write_block, write_jsb, write_data, checkpoint,
  write_descriptor, write_commit, write_log, write_phases, advance_head, finish_commit,
  commit_blocks, journal_commit, free_transaction,
}
use aurora_os.Journal.Order.{
  area_of, has_commit, guarded, refused, done, write_case, journal_write-guarded,
  write_data-guarded, checkpoint-guarded, write_jsb-guarded,
}
use aurora_os.Journal.Place.{moved_handle, moved_handle-SamePlace}

-- If the commit record is written, then the log has it.
record Committed (h : Handle) (seq : ℕ) (o : Outcome) : Type 0 where
  pub in_order : guarded (area_of h) seq o.0.log ≡ true
  pub recorded : (not o.1 || has_commit seq o.0.log) ≡ true

write_commit-Committed :
    (h : Handle) (seq : ℕ) (dev : Device)
    → h.head + length h.txn + 2 ≤ h.journal_blocks
    → guarded (area_of h) seq dev.log ≡ true
    → Committed h seq (write_commit h seq dev)
unfolding journal_write_block has_commit
write_commit-Committed h seq dev fits good = record { in_order = kept; recorded = there }
  where
    offset : ℕ
    offset = h.head + 1 + length h.txn

    block : Block
    block = commit_record seq (commit_checksum seq)

    kept : guarded (area_of h) seq (write_commit h seq dev).0.log ≡ true
    kept = journal_write-guarded h seq offset block dev (omega arith) good

    there : (not (write_commit h seq dev).1 || has_commit seq (write_commit h seq dev).0.log) ≡ true
    there = elim (write_case (sector_of h offset) h.sectors_per_block block dev) [
      | refused e ↦ rw e refl
      | done positive e ↦ rw e (rw (==_refl seq) refl)
    ]

and_then-Committed :
    (h : Handle) (seq : ℕ) (o : Outcome) (next : Device → Outcome)
    → guarded (area_of h) seq o.0.log ≡ true
    → (guarded (area_of h) seq o.0.log ≡ true → Committed h seq (next o.0))
    → Committed h seq (and_then o next)
and_then-Committed h seq (dev, true) next good step = step good
and_then-Committed h seq (dev, false) next good step = record { in_order = good; recorded = refl }

write_log-Committed :
    (h : Handle) (seq : ℕ) (dev : Device)
    → h.head + length h.txn + 2 ≤ h.journal_blocks
    → guarded (area_of h) seq dev.log ≡ true
    → Committed h seq (write_log h seq dev)
unfolding write_log
write_log-Committed h seq dev fits good =
    let described = write_descriptor h seq dev in
    and_then-Committed h seq described
      (λ d. and_then (write_data h (h.head + 1) h.txn d) (write_commit h seq))
      (journal_write-guarded h seq h.head _ dev (omega arith) good)
      (λ good1.
        and_then-Committed h seq (write_data h (h.head + 1) h.txn described.0) (write_commit h seq)
          (write_data-guarded h seq (h.head + 1) h.txn described.0 (omega arith) good1)
          (write_commit-Committed h seq (write_data h (h.head + 1) h.txn described.0).0 fits))

write_phases-guarded :
    (h : Handle) (seq : ℕ) (o : Outcome)
    → Committed h seq o
    → guarded (area_of h) seq (and_then o (checkpoint h h.txn)).0.log ≡ true
write_phases-guarded h seq (dev, true) c =
    checkpoint-guarded h seq h.txn dev (c.recorded) c.in_order
write_phases-guarded h seq (dev, false) c = c.in_order

advance_head-guarded :
    (mem_ok : Bool) (n : ℕ) (j : Journal) (seq : ℕ)
    → 0 < j.handle.journal_blocks
    → guarded (area_of j.handle) seq j.dev.log ≡ true
    → guarded (area_of j.handle) seq (advance_head mem_ok n j).dev.log ≡ true
unfolding advance_head
advance_head-guarded mem_ok n j seq some_blocks good =
    let place = moved_handle-SamePlace mem_ok n j in
    subst (λ a. guarded a seq (write_jsb mem_ok (moved_handle mem_ok n j) j.dev).0.log ≡ true)
      place.area
      (write_jsb-guarded mem_ok (moved_handle mem_ok n j) seq j.dev (rw place.blocks some_blocks)
        (rw place.area good))

finish_commit-guarded :
    (mem_ok : Bool) (n : ℕ) (j : Journal) (seq : ℕ)
    → 0 < j.handle.journal_blocks
    → guarded (area_of j.handle) seq j.dev.log ≡ true
    → guarded (area_of j.handle) seq (finish_commit mem_ok n j).dev.log ≡ true
unfolding advance_head
finish_commit-guarded mem_ok n j seq some_blocks good =
    let place = moved_handle-SamePlace mem_ok n j in
    let clean : Handle = record (moved_handle mem_ok n j) { dirty = false } in
    let dev = (write_jsb mem_ok (moved_handle mem_ok n j) j.dev).0 in
    subst (λ a. guarded a seq (write_jsb mem_ok clean dev).0.log ≡ true) place.area
      (write_jsb-guarded mem_ok clean seq dev (rw place.blocks some_blocks)
        (rw place.area (advance_head-guarded mem_ok n j seq some_blocks good)))

-- The handle of a transaction that is being committed, and the device once the superblock is dirty.
abbrev pub committing : Journal → Handle
committing j =
    let numbered : Handle = record j.handle { sequence = (j.handle.sequence + 1) % 2 ^ 64 } in
    record numbered { dirty = true }

abbrev pub marked_dev : Bool → Journal → Device
marked_dev mem_ok j = (write_jsb mem_ok (committing j) j.dev).0

commit_blocks-guarded :
    (mem_ok : Bool) (j : Journal)
    → guarded (area_of j.handle) j.handle.sequence j.dev.log ≡ true
    → j.handle.head + length j.handle.txn + 2 ≤ j.handle.journal_blocks
    → guarded (area_of j.handle) j.handle.sequence (commit_blocks mem_ok j).1.dev.log ≡ true
commit_blocks-guarded false j good fits = good
commit_blocks-guarded true j good fits = elim (Bool-cases phases.1) [
  | inl finished ↦ rw finished (
      finish_commit-guarded true (length j.handle.txn + 2)
        (record { handle = committing j; initialized = j.initialized; dev = phases.0 })
        j.handle.sequence (omega arith) in_order)
  | inr stopped ↦ rw stopped in_order
]
  where
    h : Handle
    h = committing j

    phases : Outcome
    phases = write_phases h j.handle.sequence (marked_dev true j)

    in_order : guarded (area_of j.handle) j.handle.sequence phases.0.log ≡ true
    in_order =
        write_phases-guarded h j.handle.sequence (write_log h j.handle.sequence (marked_dev true j))
          (write_log-Committed h j.handle.sequence (marked_dev true j) fits
            (write_jsb-guarded true h j.handle.sequence j.dev (omega arith) good))

-- However a commit ends, each of its writes to a place outside of the journal comes after the write of
-- its commit record, if the transaction fits behind the head of the journal.
pub journal_commit-guarded :
    (mem_ok : Bool) (j : Journal)
    → j.dev.log ≡ []
    → j.handle.head + length j.handle.txn + 2 ≤ j.handle.journal_blocks
    → guarded (area_of j.handle) j.handle.sequence (journal_commit mem_ok j).1.dev.log ≡ true
unfolding journal_commit guarded
journal_commit-guarded mem_ok j fresh fits =
    elim (Bool-cases (not j.initialized || not j.handle.in_transaction)) [
      | inl closed ↦ rw closed good
      | inr opened ↦ rw opened (by_blocks j.handle.txn (commit_blocks-guarded mem_ok j good fits))
    ]
  where
    good : guarded (area_of j.handle) j.handle.sequence j.dev.log ≡ true
    good = rw fresh refl

    by_blocks :
        (txn : List (ℕ × Block))
        → guarded (area_of j.handle) j.handle.sequence (commit_blocks mem_ok j).1.dev.log ≡ true
        → guarded
            (area_of j.handle)
            j.handle.sequence
            (elim txn as (λ x. Answer × Journal) [
              | [] ↦ (ok, free_transaction j)
              | _ ∷ _ ↦ commit_blocks mem_ok j
            ]).1.dev.log
          ≡ true
    by_blocks [] h = good
    by_blocks (b ∷ rest) h = h
