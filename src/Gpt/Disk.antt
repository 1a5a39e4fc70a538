-- ===== src/Gpt/Disk.antt =====
-- gptfixer/gpt.c: the packed structures, as a little-endian machine lays them out, and the ways that a
-- check ends.
use qubes_linux_utils.Prelude.{
  ℕ, zero, suc, ◌/◌, ◌%◌, Bool, true, false, List, [], ◌∷◌, ◌++◌, Bytes, ◌==◌, ◌&&◌, take, drop,
}
use qubes_linux_utils.Unpack.Header.{little_endian, field_at}

abbrev pub exit_io : ℕ
exit_io = 2

abbrev pub exit_unsupported : ℕ
exit_unsupported = 3

abbrev pub exit_not_partitioned : ℕ
exit_not_partitioned = 4

abbrev pub exit_invalid_gpt : ℕ
exit_invalid_gpt = 5

abbrev pub exit_constraint : ℕ
exit_constraint = 6

abbrev pub exit_truncated : ℕ
exit_truncated = 8

-- A return, an exit with a status, or an assertion that does not hold.
pub data Run (A : Type 0) : Type 0 where
  done : A → Run A
  exits : ℕ → Run A
  asserts : Run A

infixl 5 ◌>>=◌ ◌>>◌
abbrev pub ◌>>=◌ : {A B : Type 0} → Run A → (A → Run B) → Run B
◌>>=◌ (done a) f = f a
◌>>=◌ (exits status) f = exits status
◌>>=◌ asserts f = asserts

abbrev pub ◌>>◌ : {B : Type 0} → Run (Unit {0}) → Run B → Run B
◌>>◌ (done a) k = k
◌>>◌ (exits status) k = exits status
◌>>◌ asserts k = asserts

abbrev pub assert : Bool → Run (Unit {0})
assert true = done tt
assert false = asserts

-- `if (!ok) errx(status, ...)`
abbrev pub demand : Bool → ℕ → Run (Unit {0})
demand true status = done tt
demand false status = exits status

pub record GptHeader : Type 0 where
  pub signature : Bytes
  pub revision : ℕ
  pub header_size : ℕ
  pub header_crc32 : ℕ
  pub reserved : ℕ
  pub my_lba : ℕ
  pub alternate_lba : ℕ
  pub first_usable_lba : ℕ
  pub last_usable_lba : ℕ
  pub disk_guid : Bytes
  pub partition_entry_lba : ℕ
  pub number_of_partition_entries : ℕ
  pub size_of_partition_entry : ℕ
  pub partition_entry_array_crc32 : ℕ

pub record GptPartitionEntry : Type 0 where
  pub partition_type_guid : Bytes
  pub unique_partition_guid : Bytes
  pub starting_lba : ℕ
  pub ending_lba : ℕ
  pub attributes : ℕ
  pub partition_name : Bytes

-- `struct GPT`; `entries` are all that the header counts.
pub record Gpt : Type 0 where
  pub header : GptHeader
  pub used_entries : ℕ
  pub entries : List GptPartitionEntry
  pub sector_size : ℕ

-- `sizeof(struct GPTHeader)` and `sizeof(struct GPTPartitionEntry)`
abbrev pub sizeof_header : ℕ
sizeof_header = 92

abbrev pub sizeof_entry : ℕ
sizeof_entry = 128

-- A number in this many bytes, the lowest first.
unfoldable pub stored : ℕ → ℕ → Bytes
stored zero n = []
stored (suc k) n = n % 256 ∷ stored k (n / 256)

unfoldable pub header_bytes : GptHeader → Bytes
unfolding stored
header_bytes h =
    h.signature
    ++ stored 4 h.revision
    ++ stored 4 h.header_size
    ++ stored 4 h.header_crc32
    ++ stored 4 h.reserved
    ++ stored 8 h.my_lba
    ++ stored 8 h.alternate_lba
    ++ stored 8 h.first_usable_lba
    ++ stored 8 h.last_usable_lba
    ++ h.disk_guid
    ++ stored 8 h.partition_entry_lba
    ++ stored 4 h.number_of_partition_entries
    ++ stored 4 h.size_of_partition_entry
    ++ stored 4 h.partition_entry_array_crc32

unfoldable pub entry_bytes : GptPartitionEntry → Bytes
unfolding stored
entry_bytes e =
    e.partition_type_guid
    ++ e.unique_partition_guid
    ++ stored 8 e.starting_lba
    ++ stored 8 e.ending_lba
    ++ stored 8 e.attributes
    ++ e.partition_name

unfoldable pub entries_bytes : List GptPartitionEntry → Bytes
unfolding entry_bytes
entries_bytes [] = []
entries_bytes (e ∷ es) = entry_bytes e ++ entries_bytes es

unfoldable pub decode_header : Bytes → GptHeader
unfolding little_endian
decode_header bytes = record {
  signature = take 8 bytes;
  revision = field_at 8 4 bytes;
  header_size = field_at 12 4 bytes;
  header_crc32 = field_at 16 4 bytes;
  reserved = field_at 20 4 bytes;
  my_lba = field_at 24 8 bytes;
  alternate_lba = field_at 32 8 bytes;
  first_usable_lba = field_at 40 8 bytes;
  last_usable_lba = field_at 48 8 bytes;
  disk_guid = take 16 (drop 56 bytes);
  partition_entry_lba = field_at 72 8 bytes;
  number_of_partition_entries = field_at 80 4 bytes;
  size_of_partition_entry = field_at 84 4 bytes;
  partition_entry_array_crc32 = field_at 88 4 bytes;
}

unfoldable pub decode_entry : Bytes → GptPartitionEntry
unfolding little_endian
decode_entry bytes = record {
  partition_type_guid = take 16 bytes;
  unique_partition_guid = take 16 (drop 16 bytes);
  starting_lba = field_at 32 8 bytes;
  ending_lba = field_at 40 8 bytes;
  attributes = field_at 48 8 bytes;
  partition_name = take 72 (drop 56 bytes);
}

-- The array of so many entries.
unfoldable pub decode_entries : ℕ → Bytes → List GptPartitionEntry
unfolding decode_entry
decode_entries zero bytes = []
decode_entries (suc n) bytes = decode_entry bytes ∷ decode_entries n (drop sizeof_entry bytes)

unfoldable pub all_zero : Bytes → Bool
all_zero [] = true
all_zero (b ∷ bs) = b == 0 && all_zero bs

unfoldable pub unused_entry : GptPartitionEntry → Bool
unfolding all_zero
unused_entry entry = all_zero entry.partition_type_guid
