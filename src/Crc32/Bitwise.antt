-- ===== src/Crc32/Bitwise.antt =====
-- The CRC-32 of ISO 3309 by its definition, a division bit by bit with the reversed polynomial
-- 0xEDB88320, for comparison with the table of qrexec-lib/crc32.c.
use qubes_linux_utils.Prelude.{
  ℕ, zero, suc, ◌*◌, ◌/◌, ◌%◌, ◌^◌, ◌<◌, ◌≡◌, refl, ap, ◌∙◌, sym, bit_xor, Bool, true, ◌&&◌, [],
  ◌∷◌, Bytes, All, ◌==◌, ==_iff, if◌then◌else◌, arith,
}
use qubes_linux_utils.Prelude.Bits.{
  bit_xor_step, bit_xor_comm, bit_xor_assoc, bit_xor-zero, bit_xor_fields, bit_and_mask,
  bit_xor-high,
}
use qubes_linux_utils.Crc32.Table.{crc_table}
use qubes_linux_utils.Crc32.{table_entry, crc_step, crc_loop, compute_buf}
use native.Mathlib.Nat.{pow-suc}

abbrev pub polynomial : ℕ
polynomial = 0xedb8_8320

-- One bit of the division.
pub bit_step : ℕ → ℕ
bit_step x = bit_xor (x / 2) (if x % 2 == 1 then polynomial else 0)

pub bit_steps : ℕ → ℕ → ℕ
unfolding bit_step
bit_steps zero x = x
bit_steps (suc k) x = bit_steps k (bit_step x)

-- A byte is eight bits, and a message its bytes.
pub message : ℕ → Bytes → ℕ
unfolding bit_steps
message crc [] = crc
message crc (byte ∷ buf) = message (bit_steps 8 (bit_xor crc byte)) buf

-- A division step is linear.
xor_swap : (a b c d : ℕ) → bit_xor (bit_xor a b) (bit_xor c d) ≡ bit_xor (bit_xor a c) (bit_xor b d)
xor_swap a b c d =
    bit_xor_assoc a b (bit_xor c d)
    ∙ ap (bit_xor a) (
        sym (bit_xor_assoc b c d)
        ∙ ap (λ (t : ℕ). bit_xor t d) (bit_xor_comm b c)
        ∙ bit_xor_assoc c b d)
    ∙ sym (bit_xor_assoc a c (bit_xor b d))

abbrev feedback : ℕ → ℕ
feedback x = if x % 2 == 1 then polynomial else 0

feedback-xor : (a b : ℕ) → feedback (bit_xor a b) ≡ bit_xor (feedback a) (feedback b)
feedback-xor a b = ground (arith, bit_xor_step a b, bit_xor-zero polynomial)

bit_step-xor : (a b : ℕ) → bit_step (bit_xor a b) ≡ bit_xor (bit_step a) (bit_step b)
unfolding bit_step
bit_step-xor a b =
    let half : bit_xor a b / 2 ≡ bit_xor (a / 2) (b / 2) = omega (arith, bit_xor_step a b) in
    rw (half, feedback-xor a b) (xor_swap (a / 2) (b / 2) (feedback a) (feedback b))

bit_steps-xor : (k a b : ℕ) → bit_steps k (bit_xor a b) ≡ bit_xor (bit_steps k a) (bit_steps k b)
unfolding bit_steps
bit_steps-xor zero a b = refl
bit_steps-xor (suc k) a b =
    ap (bit_steps k) (bit_step-xor a b) ∙ bit_steps-xor k (bit_step a) (bit_step b)

-- Zero bits at the low end are shifted out.
bit_steps-shift : (k q : ℕ) → bit_steps k (q * 2 ^ k) ≡ q
unfolding bit_steps
bit_steps-shift zero q = omega arith
bit_steps-shift (suc k) q =
    let twice : q * 2 ^ suc k ≡ 2 * (q * 2 ^ k) =
      omega (arith, ap (λ (t : ℕ). q * t) (pow-suc 2 k)) in
    let even : bit_step (q * 2 ^ suc k) ≡ q * 2 ^ k =
      unfold bit_step in ground (arith, bit_xor-zero (q * 2 ^ suc k / 2)) in
    ap (bit_steps k) even ∙ bit_steps-shift k q

-- The table holds the eight steps of each byte.
holds_below : (ℕ → Bool) → ℕ → Bool
holds_below test zero = true
holds_below test (suc limit) = holds_below test limit && test limit

holds_below_sound :
    (test : ℕ → Bool) (byte limit : ℕ)
    → byte < limit
    → holds_below test limit ≡ true
    → test byte ≡ true
unfolding holds_below
holds_below_sound test byte zero inside held = absurd (omega arith)
holds_below_sound test byte (suc limit) inside held =
    ground (arith, holds_below_sound test byte limit)

same_steps : ℕ → Bool
same_steps byte = table_entry byte == bit_steps 8 byte

table_checked : holds_below same_steps 256 ≡ true
unfolding holds_below same_steps table_entry bit_steps crc_table
table_checked = refl

table_entry-bit_steps : (x : ℕ) → x < 256 → table_entry x ≡ bit_steps 8 x
unfolding same_steps
table_entry-bit_steps x h = (==_iff _ _).0 (holds_below_sound same_steps x 256 h table_checked)

-- The lookup is eight steps at once.
lookup-bit_steps : (x : ℕ) → bit_xor (x / 2 ^ 8) (table_entry (x % 2 ^ 8)) ≡ bit_steps 8 x
lookup-bit_steps x =
    let fields : x ≡ bit_xor (x / 2 ^ 8 * 2 ^ 8) (x % 2 ^ 8) =
      omega (arith, bit_xor_fields 8 (x / 2 ^ 8) (x % 2 ^ 8) (omega arith)) in
    rw (table_entry-bit_steps (x % 2 ^ 8) (omega arith)) (
      sym (
        ap (bit_steps 8) fields
        ∙ bit_steps-xor 8 (x / 2 ^ 8 * 2 ^ 8) (x % 2 ^ 8)
        ∙ ap (λ (t : ℕ). bit_xor t (bit_steps 8 (x % 2 ^ 8))) (bit_steps-shift 8 (x / 2 ^ 8))))

crc_step-bit_steps :
    (crc byte : ℕ) → byte < 256 → crc_step crc byte ≡ bit_steps 8 (bit_xor crc byte)
unfolding crc_step
crc_step-bit_steps crc byte h =
    let high : crc / 2 ^ 8 ≡ bit_xor crc byte / 2 ^ 8 = sym (bit_xor-high 8 crc byte h) in
    rw (bit_and_mask 8 (bit_xor crc byte) 0xff refl, high) (lookup-bit_steps (bit_xor crc byte))

crc_loop-message :
    (crc : ℕ) (buf : Bytes) → All (λ c. c < 256) buf → crc_loop crc buf ≡ message crc buf
unfolding crc_loop message
crc_loop-message crc [] h = refl
crc_loop-message crc (byte ∷ buf) h =
    rw (crc_step-bit_steps crc byte h.0) (crc_loop-message (bit_steps 8 (bit_xor crc byte)) buf h.1)

-- `Crc32_ComputeBuf` with its table computes the CRC-32 of the standard, bit by bit, on every byte
-- string: the register starts as the complement of the checksum so far, and its complement is the
-- result.
pub compute_buf-message :
    (crc : ℕ) (buf : Bytes)
    → All (λ c. c < 256) buf
    → compute_buf crc buf ≡ bit_xor (message (bit_xor crc 0xffff_ffff) buf) 0xffff_ffff
unfolding compute_buf
compute_buf-message crc buf h =
    ap (λ (t : ℕ). bit_xor t 0xffff_ffff) (crc_loop-message (bit_xor crc 0xffff_ffff) buf h)
