-- ===== src/Crc32.antt =====
-- qrexec-lib/crc32.c: the checksum of a transfer, one table lookup for each byte. `unsigned long` has
-- 64 bits; no step sets a bit that its operands do not have.
pub mod Table
pub mod Laws
pub mod Bitwise
use qubes_linux_utils.Prelude.{
  ℕ, zero, suc, ◌/◌, ◌^◌, bit_and, bit_xor, List, [], ◌∷◌, Bytes, get_or,
}
use qubes_linux_utils.Crc32.Table.{crc_table}

-- `crcTable[i]`; the mask keeps the index inside.
pub table_entry : ℕ → ℕ
unfolding crc_table
table_entry i = get_or crc_table i 0

-- The body of the loop.
pub crc_step : ℕ → ℕ → ℕ
unfolding table_entry
crc_step crc byte = bit_xor (crc / 2 ^ 8) (table_entry (bit_and (bit_xor crc byte) 0xff))

-- The loop over the buffer.
pub crc_loop : ℕ → Bytes → ℕ
unfolding crc_step
crc_loop crc [] = crc
crc_loop crc (byte ∷ buf) = crc_loop (crc_step crc byte) buf

unfoldable pub compute_buf : ℕ → Bytes → ℕ
unfolding crc_loop
compute_buf in_crc buf = bit_xor (crc_loop (bit_xor in_crc 0xffff_ffff) buf) 0xffff_ffff
