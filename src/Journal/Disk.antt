-- ===== src/Journal/Disk.antt =====
-- The blocks on the disk of kernel/journal.h, their checksums, and reads and writes of a block through
-- kernel/block_dev.c.
use aurora_os.Prelude.{
  ℕ, ◌-◌, ◌*◌, ◌/◌, ◌%◌, ◌^◌, Bool, true, false, ◌||◌, Option, none, some, List, [], ◌∷◌, ◌++◌,
  replicate, take, ltb, ◌==◌, if◌then◌else◌, bit_or, bit_xor,
}
use aurora_os.Seccomp.{to_bytes}

pub record Superblock : Type 0 where
  pub block_size : ℕ
  pub start_block : ℕ
  pub num_blocks : ℕ
  pub head : ℕ
  pub tail : ℕ
  pub sequence : ℕ
  pub flags : ℕ
  pub checksum : ℕ

-- `struct journal_data_block`
pub record Entry : Type 0 where
  pub fs_block : ℕ
  pub checksum : ℕ

-- `struct journal_block_header`, with the entries behind it.
pub record Descriptor : Type 0 where
  pub sequence : ℕ
  pub num_blocks : ℕ
  pub checksum : ℕ
  pub entries : List Entry

-- The content of a block, told apart by its magic number.
pub data Block : Type 0 where
  superblock : Superblock → Block
  descriptor : Descriptor → Block
  commit_record : ℕ → ℕ → Block
  raw : List ℕ → Block

abbrev pub zero_entry : Entry
zero_entry = record { fs_block = 0; checksum = 0 }

-- `sum = (sum << 1) | (sum >> 31); sum ^= p[i];`
abbrev pub mix : ℕ → ℕ → ℕ
mix sum byte = bit_xor (bit_or (sum * 2 % 2 ^ 32) (sum / 2 ^ 31)) byte

unfoldable pub checksum_from : ℕ → List ℕ → ℕ
checksum_from sum [] = sum
checksum_from sum (byte ∷ bytes) = checksum_from (mix sum byte) bytes

unfoldable pub calc_checksum : List ℕ → ℕ
unfolding checksum_from
calc_checksum bytes = checksum_from 0 bytes

-- The packed structures as they lie in memory, without the reserved words at their end.
unfoldable pub superblock_fields : Superblock → List ℕ
unfolding to_bytes
superblock_fields sb =
    to_bytes 4 0x4a524e4c
    ++ to_bytes 4 sb.block_size
    ++ to_bytes 4 0
    ++ to_bytes 8 sb.start_block
    ++ to_bytes 8 sb.num_blocks
    ++ to_bytes 8 sb.head
    ++ to_bytes 8 sb.tail
    ++ to_bytes 8 sb.sequence
    ++ to_bytes 4 sb.flags

-- The first 16 bytes of a descriptor or of a commit record.
unfoldable pub descriptor_fields : Descriptor → List ℕ
unfolding to_bytes
descriptor_fields d = to_bytes 4 0x5452414e ++ to_bytes 8 d.sequence ++ to_bytes 4 d.num_blocks

unfoldable pub commit_fields : ℕ → List ℕ
unfolding to_bytes
commit_fields seq = to_bytes 4 0x434f4d54 ++ to_bytes 8 seq

unfoldable pub entry_bytes : List Entry → List ℕ
unfolding to_bytes
entry_bytes [] = []
entry_bytes (e ∷ rest) =
    to_bytes 8 e.fs_block ++ to_bytes 4 e.checksum ++ replicate 8 0 ++ entry_bytes rest

-- The bytes of a block before its padding with zeros.
unfoldable pub block_bytes : Block → List ℕ
unfolding superblock_fields descriptor_fields commit_fields entry_bytes
block_bytes (superblock sb) = superblock_fields sb ++ to_bytes 4 sb.checksum ++ replicate 32 0
block_bytes (descriptor d) =
    descriptor_fields d ++ to_bytes 4 d.checksum ++ replicate 16 0 ++ entry_bytes d.entries
block_bytes (commit_record seq checksum) =
    commit_fields seq ++ to_bytes 4 checksum ++ replicate 16 0
block_bytes (raw bytes) = bytes

-- `calc_checksum(data, block_size)`
unfoldable pub block_checksum : ℕ → Block → ℕ
unfolding calc_checksum block_bytes
block_checksum block_size b =
    calc_checksum (take block_size (block_bytes b ++ replicate block_size 0))

unfoldable pub superblock_checksum : Superblock → ℕ
unfolding calc_checksum superblock_fields
superblock_checksum sb = calc_checksum (superblock_fields sb)

-- All but the last four bytes of a structure, whose checksum field is still 0.
unfoldable pub header_checksum : Descriptor → ℕ
unfolding calc_checksum descriptor_fields
header_checksum d = calc_checksum (descriptor_fields d ++ replicate 16 0)

unfoldable pub commit_checksum : ℕ → ℕ
unfolding calc_checksum commit_fields
commit_checksum seq = calc_checksum (commit_fields seq ++ replicate 16 0)

abbrev pub Write : Type 0
Write = ℕ × Block

pub record Device : Type 0 where
  pub total_sectors : ℕ
  pub can_write : ℕ → Bool
  pub can_read : ℕ → Bool
  pub disk : ℕ → Block
  pub log : List Write

abbrev pub out_of_range : Device → ℕ → ℕ → Bool
out_of_range dev sector count =
    count == 0 || ltb dev.total_sectors sector || ltb (dev.total_sectors - sector) count

abbrev pub written : ℕ → Block → Device → Device
written sector block dev = record dev {
  disk = λ s. if s == sector then block else dev.disk s;
  log = (sector, block) ∷ dev.log;
}

-- What a call leaves, and whether it has succeeded.
abbrev pub Outcome : Type 0
Outcome = Device × Bool

-- The next step of a sequence that ends at the first failure.
abbrev pub and_then : Outcome → (Device → Outcome) → Outcome
and_then (dev, ok) next = if ok then next dev else (dev, false)

unfoldable pub block_dev_write : ℕ → ℕ → Block → Device → Outcome
block_dev_write sector count block dev =
    if out_of_range dev sector count
    then (dev, false)
    else if dev.can_write sector
    then (written sector block dev, true)
    else (dev, false)

unfoldable pub block_dev_read : ℕ → ℕ → Device → Option Block
block_dev_read sector count dev =
    if out_of_range dev sector count
    then none
    else if dev.can_read sector
    then some (dev.disk sector)
    else none
