-- ===== src/Journal/Room.antt =====
-- The open transaction of kernel/journal.c always fits in one descriptor block.
use native.Mathlib.Nat.{mul-div-le}
use aurora_os.Prelude.{
  ℕ, ◌+◌, ◌-◌, ◌*◌, ◌/◌, ◌%◌, ◌^◌, ◌≤◌, ◌≡◌, refl, Bool, true, false, not, ◌||◌, Option, none, some,
  List, [], ◌∷◌, ◌++◌, length, ltb, leb, ◌==◌, if◌then◌else◌, min, arith, Bool-cases, inl, inr,
  if-holds, length-append,
}
use aurora_os.Journal.Disk.{
  Superblock, Block, superblock, descriptor, commit_record, raw, Outcome, superblock_checksum,
}
use aurora_os.Journal.{
  Handle, Journal, Answer, ok, failed, no_space, read_only, io_error, journal_read_block, write_jsb,
  free_transaction, free_handle, desc_capacity, journal_begin, journal_write, journal_rollback,
  write_phases, finish_commit, advance_head, commit_blocks, journal_commit,
}
use aurora_os.Journal.Recover.{
  Request, fresh_handle, load_handle, journal_recover, open_journal, create_journal, open_or_create,
  journal_init,
}
use aurora_os.Journal.Inspect.{journal_sync}
use aurora_os.Journal.Place.{moved_handle-SamePlace}
use aurora_os.Journal.Ahead.{committing, marked_dev}

-- What a journal can come to: it is opened, and then operations follow.
pub data History : Journal → Type 0 where
  opened :
      (mem_ok : Bool) (t : Request) (j : Journal)
      → (journal_init mem_ok t j).0 ≡ ok
      → History (journal_init mem_ok t j).1
  begun : (mem_ok : Bool) (n : ℕ) (j : Journal) → History j → History (journal_begin mem_ok n j).1
  wrote :
      (mem_ok : Bool) (n : ℕ) (content : Block) (j : Journal)
      → History j
      → History (journal_write mem_ok n content j).1
  rolled_back : (j : Journal) → History j → History (journal_rollback j).1
  committed : (mem_ok : Bool) (j : Journal) → History j → History (journal_commit mem_ok j).1
  recovered : (mem_ok : Bool) (j : Journal) → History j → History (journal_recover mem_ok j).1
  synced : (mem_ok : Bool) (j : Journal) → History j → History (journal_sync mem_ok j).1

-- The header of 36 bytes and the entries of 20 bytes each are no longer than a block.
pub record Room (h : Handle) : Type 0 where
  pub counted : length h.txn ≤ h.txn_capacity
  pub fits : 36 + 20 * h.txn_capacity ≤ h.block_size

abbrev InRoom : Answer × Journal → Type 0
InRoom r = Room r.1.handle

-- Without a transaction, the header has to fit.
empty-Room : (h : Handle) → h.txn ≡ [] → h.txn_capacity ≡ 0 → 36 ≤ h.block_size → Room h
empty-Room h e c big = record { counted = rw e (omega arith); fits = rw c (omega arith) }

Room-size : (h : Handle) → Room h → 36 ≤ h.block_size
Room-size h room = omega (arith, room.fits)

begin-Room :
    (mem_ok : Bool) (n : ℕ) (j : Journal) → Room j.handle → Room (journal_begin mem_ok n j).1.handle
unfolding journal_begin
begin-Room mem_ok n j room = if-holds InRoom (not j.initialized) room (
    if-holds InRoom j.handle.in_transaction room
      (if-holds InRoom (not mem_ok) room (record { counted = omega arith; fits = below })))
  where
    size : ℕ
    size = j.handle.block_size

    wanted : ℕ
    wanted = if n == 0 then 1 else n

    below : 36 + 20 * min wanted (desc_capacity size) ≤ size
    below = omega (arith, mul-div-le (size - 36) 20, Room-size j.handle room)

write-Room :
    (mem_ok : Bool) (n : ℕ) (content : Block) (j : Journal)
    → Room j.handle
    → Room (journal_write mem_ok n content j).1.handle
unfolding journal_write
write-Room mem_ok n content j room =
    if-holds InRoom (not j.initialized || not j.handle.in_transaction) room
      (elim (Bool-cases (leb j.handle.txn_capacity (length j.handle.txn))) [
        | inl full ↦ rw full room
        | inr free ↦
            let longer : length (j.handle.txn ++ (n % 2 ^ 32, content) ∷ [])
                ≤ j.handle.txn_capacity =
              rw (length-append j.handle.txn ((n % 2 ^ 32, content) ∷ [])) (ground (arith, free)) in
            rw free
              (if-holds InRoom (not mem_ok) room (record { counted = longer; fits = room.fits }))
      ])

rollback-Room : (j : Journal) → Room j.handle → Room (journal_rollback j).1.handle
unfolding journal_rollback
rollback-Room j room =
    if-holds InRoom (not j.initialized || not j.handle.in_transaction) room
      (empty-Room (free_handle j.handle) refl refl (Room-size j.handle room))

commit_blocks-Room :
    (mem_ok : Bool) (j : Journal) → Room j.handle → Room (commit_blocks mem_ok j).1.handle
unfolding advance_head
commit_blocks-Room mem_ok j room =
    if-holds InRoom (not mem_ok) (empty-Room (free_handle numbered) refl refl big)
      (if-holds InRoom phases.1 finished (empty-Room (free_handle (committing j)) refl refl big))
  where
    numbered : Handle
    numbered = record j.handle { sequence = (j.handle.sequence + 1) % 2 ^ 64 }

    phases : Outcome
    phases = write_phases (committing j) j.handle.sequence (marked_dev mem_ok j)

    big : 36 ≤ j.handle.block_size
    big = Room-size j.handle room

    at_end : Journal
    at_end = record { handle = committing j; initialized = j.initialized; dev = phases.0 }

    finished : Room (finish_commit mem_ok (length j.handle.txn + 2) at_end).handle
    finished =
        let place = moved_handle-SamePlace mem_ok (length j.handle.txn + 2) at_end in
        empty-Room (finish_commit mem_ok (length j.handle.txn + 2) at_end).handle refl refl
          (rw place.size big)

commit-Room :
    (mem_ok : Bool) (j : Journal) → Room j.handle → Room (journal_commit mem_ok j).1.handle
unfolding journal_commit
commit-Room mem_ok j room =
    if-holds InRoom (not j.initialized || not j.handle.in_transaction) room
      (by_blocks j.handle.txn (commit_blocks-Room mem_ok j room))
  where
    by_blocks :
        (txn : List (ℕ × Block))
        → Room (commit_blocks mem_ok j).1.handle
        → InRoom (elim txn as (λ x. Answer × Journal) [
          | [] ↦ (ok, free_transaction j)
          | _ ∷ _ ↦ commit_blocks mem_ok j
        ])
    by_blocks [] r = empty-Room (free_handle j.handle) refl refl (Room-size j.handle room)
    by_blocks (b ∷ rest) r = r

recover-Room :
    (mem_ok : Bool) (j : Journal) → Room j.handle → Room (journal_recover mem_ok j).1.handle
unfolding journal_recover
recover-Room mem_ok j room =
    if-holds InRoom (not j.initialized) room
      (if-holds InRoom (not mem_ok) room (record { counted = room.counted; fits = room.fits }))

sync-Room : (mem_ok : Bool) (j : Journal) → Room j.handle → Room (journal_sync mem_ok j).1.handle
unfolding journal_sync
sync-Room mem_ok j room = if-holds InRoom (not j.initialized) room room

open-Room :
    (mem_ok : Bool) (sb : Superblock) (j : Journal)
    → j.handle.txn ≡ []
    → j.handle.txn_capacity ≡ 0
    → 36 ≤ j.handle.block_size
    → InRoom (open_journal mem_ok sb j)
open-Room mem_ok sb j e c big =
    let loaded = load_handle j.handle sb in
    let forced : Handle = record loaded { dirty = false } in
    let loaded_in : Journal = record {
      handle = loaded;
      initialized = j.initialized;
      dev = j.dev;
    } in
    let room = empty-Room loaded e c big in
    if-holds InRoom (not (sb.checksum == superblock_checksum sb)) (empty-Room forced e c big) (
      if-holds InRoom (not loaded.dirty) room (
        by_answer (journal_recover mem_ok loaded_in).0 (journal_recover mem_ok loaded_in).1
          (recover-Room mem_ok loaded_in room)))
  where
    by_answer :
        (answer : Answer) (after : Journal)
        → Room after.handle
        → InRoom (elim answer as (λ x. Answer × Journal) [
          | ok ↦ (ok, record after { initialized = true })
          | _ ↦ (failed, after)
        ])
    by_answer ok after r = r
    by_answer failed after r = r
    by_answer no_space after r = r
    by_answer read_only after r = r
    by_answer io_error after r = r

create-Room :
    (mem_ok : Bool) (j : Journal)
    → j.handle.txn ≡ []
    → j.handle.txn_capacity ≡ 0
    → 36 ≤ j.handle.block_size
    → InRoom (create_journal mem_ok j)
create-Room mem_ok j e c big =
    let first : Handle = record j.handle { head = 1; tail = 1; sequence = 1; dirty = false } in
    let room = empty-Room first e c big in
    if-holds InRoom (write_jsb mem_ok first j.dev).1 room room

open_or_create-Room :
    (mem_ok : Bool) (j : Journal) (content : Option Block)
    → j.handle.txn ≡ []
    → j.handle.txn_capacity ≡ 0
    → 36 ≤ j.handle.block_size
    → InRoom (open_or_create mem_ok j content)
open_or_create-Room mem_ok j none e c big = create-Room mem_ok j e c big
open_or_create-Room mem_ok j (some (superblock sb)) e c big = open-Room mem_ok sb j e c big
open_or_create-Room mem_ok j (some (descriptor d)) e c big = create-Room mem_ok j e c big
open_or_create-Room mem_ok j (some (commit_record seq sum)) e c big = create-Room mem_ok j e c big
open_or_create-Room mem_ok j (some (raw bytes)) e c big = create-Room mem_ok j e c big

-- Only a success is asked for room.
abbrev Roomy : Answer × Journal → Type 0
Roomy r = r.0 ≡ ok → Room r.1.handle

init-Roomy : (mem_ok : Bool) (t : Request) (j : Journal) → Roomy (journal_init mem_ok t j)
unfolding journal_init
init-Roomy mem_ok t j = elim (Bool-cases (ltb t.journal_blocks 8 || ltb t.block_size 512)) [
  | inl small ↦ rw small (λ o. absurd (cc o))
  | inr large ↦
      let big : 36 ≤ t.block_size = ground arith in
      let fresh : Journal = record {
        handle = fresh_handle t;
        initialized = j.initialized;
        dev = j.dev;
      } in
      rw large (
        if-holds Roomy (ltb (j.dev.total_sectors / t.sectors_per_block) 128) (λ o. absurd (cc o))
          (if-holds Roomy (not t.is_writable) (λ o. absurd (cc o))
            (if-holds Roomy (not mem_ok) (λ o. absurd (cc o))
              (λ o.
                open_or_create-Room mem_ok fresh (journal_read_block fresh.handle 0 j.dev) refl refl
                  big))))
]

History-Room : (j : Journal) → History j → Room j.handle
History-Room _ (opened mem_ok t j e) = init-Roomy mem_ok t j e
History-Room _ (begun mem_ok n j h) = begin-Room mem_ok n j (History-Room j h)
History-Room _ (wrote mem_ok n content j h) = write-Room mem_ok n content j (History-Room j h)
History-Room _ (rolled_back j h) = rollback-Room j (History-Room j h)
History-Room _ (committed mem_ok j h) = commit-Room mem_ok j (History-Room j h)
History-Room _ (recovered mem_ok j h) = recover-Room mem_ok j (History-Room j h)
History-Room _ (synced mem_ok j h) = sync-Room mem_ok j (History-Room j h)

-- Whatever is called on a journal that was opened, the descriptor of the transaction that is open fits
-- in a block: the header of 36 bytes, and 20 bytes for each of its blocks.
pub descriptor_fits :
    (j : Journal) → History j → 36 + 20 * length j.handle.txn ≤ j.handle.block_size
descriptor_fits j h = let room = History-Room j h in omega (arith, room.counted, room.fits)
