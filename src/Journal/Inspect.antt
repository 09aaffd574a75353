-- ===== src/Journal/Inspect.antt =====
-- journal_sync, journal_get_stats, journal_is_clean and journal_validate_transaction of
-- kernel/journal.c.
use aurora_os.Prelude.{
  ℕ, ◌+◌, ◌-◌, ◌%◌, ◌^◌, Bool, false, not, ◌||◌, Option, none, some, List, [], ◌∷◌, ◌++◌, replicate,
  take, ltb, leb, ◌==◌, if◌then◌else◌,
}
use aurora_os.Seccomp.{to_bytes}
use aurora_os.Journal.Disk.{
  Entry, Descriptor, Device, calc_checksum, descriptor_fields, block_checksum,
}
use aurora_os.Journal.{Handle, Journal, Answer, ok, failed, journal_read_block, write_jsb}

unfoldable pub journal_sync : Bool → Journal → Answer × Journal
unfolding write_jsb
journal_sync mem_ok j =
    let (dev, done) = write_jsb mem_ok j.handle j.dev in
    if not j.initialized then (failed, j) else (if done then ok else failed, record j { dev = dev })

pub record Stats : Type 0 where
  pub total_blocks : ℕ
  pub used_blocks : ℕ
  pub num_transactions : ℕ
  pub dirty : Bool

abbrev pub no_stats : Stats
no_stats = record { total_blocks = 0; used_blocks = 0; num_transactions = 0; dirty = false }

-- With the wrap of `g_journal.sequence - 1` written out.
abbrev pub stats_of : Handle → Stats
stats_of h = record {
  total_blocks = h.journal_blocks;
  used_blocks = if leb h.tail h.head then h.head - h.tail else 0;
  num_transactions = (h.sequence + (2 ^ 64 - 1)) % 2 ^ 64;
  dirty = h.dirty;
}

unfoldable pub journal_get_stats : Journal → Stats
journal_get_stats j = if j.initialized then stats_of j.handle else no_stats

abbrev pub journal_is_clean : Journal → Bool
journal_is_clean j = not j.initialized || not j.handle.dirty

pub data Validation : Type 0 where
  valid checksum_error invalid : Validation

-- The first 32 bytes of the header: the field that holds the checksum is among them.
unfoldable pub validated_checksum : Descriptor → ℕ
unfolding calc_checksum descriptor_fields to_bytes
validated_checksum d =
    calc_checksum (descriptor_fields d ++ to_bytes 4 d.checksum ++ replicate 12 0)

-- Every entry is compared with the block at offset 0, if that can be read.
unfoldable pub validate_data : Handle → Device → List Entry → Validation
validate_data h dev [] = valid
validate_data h dev (e ∷ rest) =
    let more = validate_data h dev rest in
    elim (journal_read_block h 0 dev) [
      | none ↦ more
      | some content ↦
          if block_checksum h.block_size content == e.checksum then more else checksum_error
    ]

-- The entries are absent where the caller gives no array of them.
abbrev pub validate_entries : Bool → Journal → ℕ → Option (List Entry) → Validation
validate_entries mem_ok j num_blocks none = valid
validate_entries mem_ok j num_blocks (some entries) =
    if mem_ok then validate_data j.handle j.dev (take num_blocks entries) else valid

-- A sequence number out of order is only logged.
abbrev pub validate_header : Bool → Journal → Descriptor → Option (List Entry) → ℕ → Validation
validate_header mem_ok j d entries num_blocks =
    if not j.initialized
    then invalid
    else if not (validated_checksum d == d.checksum)
    then checksum_error
    else if num_blocks == 0 || ltb 1024 num_blocks
    then invalid
    else validate_entries mem_ok j num_blocks entries

unfoldable pub journal_validate_transaction :
    Bool → Journal → Option Descriptor → Option (List Entry) → ℕ → Validation
unfolding validate_data validated_checksum
journal_validate_transaction mem_ok j none entries num_blocks = invalid
journal_validate_transaction mem_ok j (some d) entries num_blocks =
    validate_header mem_ok j d entries num_blocks
