-- ===== src/Journal/Start.antt =====
-- journal_init of kernel/journal.c on a device that has a journal.
use mathlib.Core.Path.{subst}
use aurora_os.Prelude.{
  ℕ, ◌/◌, ◌≤◌, ◌≡◌, ◌≢◌, refl, sym, ap, ◌∙◌, Bool, true, false, not, ◌||◌, some, ltb, ◌==◌, arith,
  ==_refl, if-holds, if-else,
}
use aurora_os.Journal.Disk.{
  Superblock, superblock, Device, written, superblock_checksum, superblock_fields,
}
use aurora_os.Journal.{
  Handle, Journal, Answer, ok, failed, no_space, read_only, sector_of, superblock_of,
  journal_read_block, write_jsb,
}
use aurora_os.Journal.Recover.{
  Request, fresh_handle, load_handle, journal_recover, open_journal, journal_init,
}
use aurora_os.Journal.Log.{Works, Lies, Wrote, written-Wrote, write_jsb_done, journal_read_done}

-- A start that does not succeed, and has written nothing.
pub record Refused (dev : Device) (r : Answer × Journal) : Type 0 where
  pub unsuccessful : r.0 ≢ ok
  pub unchanged : r.1.dev ≡ dev

recover-early :
    (mem_ok : Bool) (j : Journal) → j.initialized ≡ false → journal_recover mem_ok j ≡ (failed, j)
unfolding journal_recover
recover-early mem_ok j e = let stopped : not j.initialized ≡ true = rw e refl in rw stopped refl

open-Refused :
    (mem_ok : Bool) (sb : Superblock) (j : Journal)
    → j.initialized ≡ false
    → (sb.checksum == superblock_checksum sb) ≡ true
    → (sb.flags == 0) ≡ false
    → Refused j.dev (open_journal mem_ok sb j)
open-Refused mem_ok sb j early sound dirty =
    if-else (Refused j.dev) (not (sb.checksum == superblock_checksum sb)) _ (rw sound refl) (
      if-else (Refused j.dev) (not (not (sb.flags == 0))) _ (rw dirty refl)
        (by_answer (journal_recover mem_ok loaded) (sym (recover-early mem_ok loaded early))))
  where
    loaded : Journal
    loaded = record { handle = load_handle j.handle sb; initialized = j.initialized; dev = j.dev }

    by_answer :
        (r : Answer × Journal)
        → (failed, loaded) ≡ r
        → Refused j.dev (elim r.0 as (λ x. Answer × Journal) [
          | ok ↦ (ok, record r.1 { initialized = true })
          | _ ↦ (failed, r.1)
        ])
    by_answer r e =
        subst
          (λ r. Refused j.dev (elim r.0 as (λ x. Answer × Journal) [
            | ok ↦ (ok, record r.1 { initialized = true })
            | _ ↦ (failed, r.1)
          ]))
          e (record { unsuccessful = λ o. absurd (cc o); unchanged = refl })

-- The first call of journal_init on a journal that is marked dirty and has a sound superblock never
-- succeeds, and replays nothing: recovery asks for a flag that is set after it only.
pub journal_init-Refused :
    (mem_ok : Bool) (t : Request) (j : Journal) (sb : Superblock)
    → j.initialized ≡ false
    → journal_read_block (fresh_handle t) 0 j.dev ≡ some (superblock sb)
    → (sb.checksum == superblock_checksum sb) ≡ true
    → (sb.flags == 0) ≡ false
    → Refused j.dev (journal_init mem_ok t j)
unfolding journal_init
journal_init-Refused mem_ok t j sb early found sound dirty =
    let fresh : Journal = record {
      handle = fresh_handle t;
      initialized = j.initialized;
      dev = j.dev;
    } in
    if-holds (Refused j.dev) (ltb t.journal_blocks 8 || ltb t.block_size 512)
      (refuse failed j (λ e. absurd (cc e)))
      (if-holds (Refused j.dev) (ltb (j.dev.total_sectors / t.sectors_per_block) 128)
        (refuse no_space j (λ e. absurd (cc e)))
        (if-holds (Refused j.dev) (not t.is_writable) (refuse read_only j (λ e. absurd (cc e))) (
          if-holds (Refused j.dev) (not mem_ok) (refuse failed fresh (λ e. absurd (cc e)))
            (rw found (open-Refused mem_ok sb fresh early sound dirty)))))
  where
    refuse : (answer : Answer) (after : Journal) → answer ≢ ok → Refused after.dev (answer, after)
    refuse answer after other = record { unsuccessful = other; unchanged = refl }

pub superblock_of_sound :
    (h : Handle) → ((superblock_of h).checksum == superblock_checksum (superblock_of h)) ≡ true
unfolding superblock_checksum superblock_fields
superblock_of_sound h = ==_refl (superblock_checksum (superblock_of h))

-- A journal without an open transaction, whose pointers are these.
abbrev pub resting : Request → ℕ → ℕ → ℕ → Handle
resting t head tail seq =
    let fresh = fresh_handle t in record fresh { head = head; tail = tail; sequence = seq }

-- A start on the device on which the superblock of a clean journal was written finds this journal: its
-- head, its tail and its sequence number.
pub journal_init-write_jsb :
    (t : Request) (head tail seq : ℕ) (j : Journal)
    → Works j.dev
    → Lies (resting t head tail seq) j.dev
    → 8 ≤ t.journal_blocks
    → 512 ≤ t.block_size
    → 128 ≤ j.dev.total_sectors / t.sectors_per_block
    → t.is_writable ≡ true
    → journal_init true t (record j { dev = (write_jsb true (resting t head tail seq) j.dev).0 })
      ≡ (
        ok,
        record {
          handle = resting t head tail seq;
          initialized = true;
          dev = (write_jsb true (resting t head tail seq) j.dev).0;
        },
      )
unfolding journal_init
journal_init-write_jsb t head tail seq j works lies some_blocks large many writable =
    if-else Found (ltb t.journal_blocks 8 || ltb t.block_size 512) _ (ground arith) (
      if-else Found (ltb (there.total_sectors / t.sectors_per_block) 128) _
        (rw wrote.total (ground arith))
        (if-else Found (not t.is_writable) _ (rw writable refl) (
          rw found (
            if-else Found
              (not ((superblock_of h).checksum == superblock_checksum (superblock_of h))) _
              (rw (superblock_of_sound h) refl) refl))))
  where
    h : Handle
    h = resting t head tail seq

    there : Device
    there = (write_jsb true h j.dev).0

    Found : Answer × Journal → Type 0
    Found r = r ≡ (ok, record { handle = h; initialized = true; dev = there })

    is_there : there ≡ written (sector_of h 0) (superblock (superblock_of h)) j.dev
    is_there = ap (λ o. o.0) (write_jsb_done h j.dev works lies (omega arith))

    wrote : Wrote h 0 1 j.dev there
    wrote =
        subst (λ d. Wrote h 0 1 j.dev d) (sym is_there)
          (written-Wrote h 0 (superblock (superblock_of h)) j.dev works)

    found : journal_read_block (fresh_handle t) 0 there ≡ some (superblock (superblock_of h))
    found =
        journal_read_done (fresh_handle t) 0 there wrote.works
          (record { some_sectors = lies.some_sectors; within = rw wrote.total lies.within })
          (omega arith)
        ∙ ap (λ d. some (d.disk (sector_of h 0))) is_there
        ∙ rw (==_refl (sector_of h 0)) refl
