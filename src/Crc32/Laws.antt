-- ===== src/Crc32/Laws.antt =====
-- What the callers of `Crc32_ComputeBuf` (qrexec-lib/crc32.c) rely on.
use qubes_linux_utils.Prelude.{
  ℕ, zero, suc, ◌/◌, ◌^◌, ◌<◌, ◌≡◌, refl, ap, bit_and, bit_xor, Bool, true, ◌&&◌, List, [], ◌∷◌,
  ◌++◌, Bytes, get_or, ltb, arith,
}
use qubes_linux_utils.Prelude.Bits.{bit_xor-cancel, bit_xor-lt_pow}
use qubes_linux_utils.Crc32.Table.{crc_table}
use qubes_linux_utils.Crc32.{table_entry, crc_step, crc_loop, compute_buf}

crc_loop-append : (crc : ℕ) (a b : Bytes) → crc_loop crc (a ++ b) ≡ crc_loop (crc_loop crc a) b
unfolding crc_loop
crc_loop-append crc [] b = refl
crc_loop-append crc (x ∷ a) b = crc_loop-append (crc_step crc x) a b

-- A checksum may be taken piece by piece: that of a stream is the one that its last piece gives when
-- it starts from the checksum of the pieces before.
pub compute_buf-append :
    (crc : ℕ) (a b : Bytes) → compute_buf crc (a ++ b) ≡ compute_buf (compute_buf crc a) b
unfolding compute_buf
compute_buf-append crc a b =
    rw (bit_xor-cancel (crc_loop (bit_xor crc 0xffff_ffff) a) 0xffff_ffff)
      (ap (λ (t : ℕ). bit_xor t 0xffff_ffff) (crc_loop-append (bit_xor crc 0xffff_ffff) a b))

-- Nothing read leaves a checksum as it is.
pub compute_buf-nil : (crc : ℕ) → compute_buf crc [] ≡ crc
unfolding compute_buf crc_loop
compute_buf-nil crc = bit_xor-cancel crc 0xffff_ffff

all_below_u32 : List ℕ → Bool
all_below_u32 [] = true
all_below_u32 (x ∷ xs) = ltb x (2 ^ 32) && all_below_u32 xs

get_or-lt : (xs : List ℕ) (i : ℕ) → all_below_u32 xs ≡ true → get_or xs i 0 < 2 ^ 32
unfolding all_below_u32
get_or-lt [] i h = omega arith
get_or-lt (x ∷ xs) zero h = ground arith
get_or-lt (x ∷ xs) (suc i) h = get_or-lt xs i (ground arith)

table-below_u32 : all_below_u32 crc_table ≡ true
unfolding all_below_u32 crc_table
table-below_u32 = refl

table_entry-lt : (i : ℕ) → table_entry i < 2 ^ 32
unfolding table_entry
table_entry-lt i = get_or-lt crc_table i table-below_u32

crc_loop-lt : (crc : ℕ) (buf : Bytes) → crc < 2 ^ 32 → crc_loop crc buf < 2 ^ 32
unfolding crc_loop crc_step
crc_loop-lt crc [] h = h
crc_loop-lt crc (x ∷ buf) h = crc_loop-lt (crc_step crc x) buf (
    bit_xor-lt_pow 32 (crc / 2 ^ 8) (table_entry (bit_and (bit_xor crc x) 0xff)) (omega arith)
      (table_entry-lt (bit_and (bit_xor crc x) 0xff)))

-- A checksum that fits 32 bits stays so: it fits the `crc32` field of the result header.
pub compute_buf-lt : (crc : ℕ) (buf : Bytes) → crc < 2 ^ 32 → compute_buf crc buf < 2 ^ 32
unfolding compute_buf
compute_buf-lt crc buf h =
    bit_xor-lt_pow 32 _ _ (crc_loop-lt _ buf (bit_xor-lt_pow 32 crc 0xffff_ffff h (omega arith)))
      (omega arith)
