-- ===== src/Unpack/Header.antt =====
-- `struct file_header` (qrexec-lib/libqubes-rpc-filecopy.h), read as a little-endian machine lays it
-- out, and the checks of qrexec-lib/unpack.c on single fields.
use qubes_linux_utils.Prelude.{ℕ, ◌+◌, ◌*◌, bit_and, Bool, [], ◌∷◌, Bytes, take, drop, ◌==◌}

pub record FileHeader : Type 0 where
  pub namelen : ℕ
  pub mode : ℕ
  pub filelen : ℕ
  pub atime : ℕ
  pub atime_nsec : ℕ
  pub mtime : ℕ
  pub mtime_nsec : ℕ

-- `sizeof untrusted_hdr`
abbrev pub header_size : ℕ
header_size = 32

-- The number that these bytes store, the lowest first.
unfoldable pub little_endian : Bytes → ℕ
little_endian [] = 0
little_endian (b ∷ bs) = b + 256 * little_endian bs

abbrev pub field_at : ℕ → ℕ → Bytes → ℕ
field_at offset size bytes = little_endian (take size (drop offset bytes))

unfoldable pub decode_header : Bytes → FileHeader
unfolding little_endian
decode_header bytes = record {
  namelen = field_at 0 4 bytes;
  mode = field_at 4 4 bytes;
  filelen = field_at 8 8 bytes;
  atime = field_at 16 4 bytes;
  atime_nsec = field_at 20 4 bytes;
  mtime = field_at 24 4 bytes;
  mtime_nsec = field_at 28 4 bytes;
}

-- `mode & S_IFMT`
abbrev pub file_type : ℕ → ℕ
file_type mode = bit_and mode 0o170000

abbrev pub is_reg : ℕ → Bool
is_reg mode = file_type mode == 0o100000

abbrev pub is_lnk : ℕ → Bool
is_lnk mode = file_type mode == 0o120000

abbrev pub is_dir : ℕ → Bool
is_dir mode = file_type mode == 0o040000
