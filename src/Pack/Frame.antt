-- ===== src/Pack/Frame.antt =====
-- The stream that qrexec-lib/pack.c sends and qrexec-lib/unpack.c reads, without their code: frames of
-- a header, a name and a body, as long as the header says.
use qubes_linux_utils.Prelude.{
  ℕ, ◌^◌, ◌<◌, ◌≡◌, refl, ap, sym, ◌∙◌, ◌||◌, [], ◌++◌, append-nil, append_assoc, Bytes, length,
  if◌then◌else◌, arith,
}
use qubes_linux_utils.Unpack.Header.{
  FileHeader, header_size, little_endian, decode_header, is_reg, is_lnk,
}
use qubes_linux_utils.Pack.Send.{to_little_endian, encode_header}

-- Each field is a number that its type can hold.
pub record Fits (hdr : FileHeader) : Type 0 where
  pub namelen : hdr.namelen < 2 ^ 32
  pub mode : hdr.mode < 2 ^ 32
  pub filelen : hdr.filelen < 2 ^ 64
  pub atime : hdr.atime < 2 ^ 32
  pub atime_nsec : hdr.atime_nsec < 2 ^ 32
  pub mtime : hdr.mtime < 2 ^ 32
  pub mtime_nsec : hdr.mtime_nsec < 2 ^ 32

pub four_bytes : (n : ℕ) → n < 2 ^ 32 → little_endian (to_little_endian 4 n) ≡ n
unfolding little_endian to_little_endian
four_bytes n h = omega arith

pub eight_bytes : (n : ℕ) → n < 2 ^ 64 → little_endian (to_little_endian 8 n) ≡ n
unfolding little_endian to_little_endian
eight_bytes n h = omega arith

-- The receiver reads the sender's header back, field by field, if each field is a number that its
-- type can hold.
pub decode_header-encode_header :
    (hdr : FileHeader) → Fits hdr → decode_header (encode_header hdr) ≡ hdr
unfolding decode_header encode_header to_little_endian
decode_header-encode_header hdr h = λ i. record {
  namelen = four_bytes hdr.namelen h.namelen i;
  mode = four_bytes hdr.mode h.mode i;
  filelen = eight_bytes hdr.filelen h.filelen i;
  atime = four_bytes hdr.atime h.atime i;
  atime_nsec = four_bytes hdr.atime_nsec h.atime_nsec i;
  mtime = four_bytes hdr.mtime h.mtime i;
  mtime_nsec = four_bytes hdr.mtime_nsec h.mtime_nsec i;
}

pub length-encode_header : (hdr : FileHeader) → length (encode_header hdr) ≡ header_size
unfolding encode_header to_little_endian
length-encode_header hdr = refl

-- What follows the name: the data of a regular file, or the target of a link.
abbrev pub body_size : FileHeader → ℕ
body_size hdr = if is_reg hdr.mode || is_lnk hdr.mode then hdr.filelen else 0

-- One entry, which is not the end marker.
pub record Frame (bytes : Bytes) : Type 0 where
  pub header : FileHeader
  pub head : Bytes
  pub name : Bytes
  pub body : Bytes
  pub parts : bytes ≡ head ++ (name ++ body)
  pub head_size : length head ≡ header_size
  pub decoded : decode_header head ≡ header
  pub named : 0 < header.namelen
  pub name_size : length name ≡ header.namelen
  pub body_is : length body ≡ body_size header

-- Any number of entries, one behind the other.
pub data Stream : Bytes → Type 0 where
  nothing : Stream []
  frame :
      {bytes entry rest : Bytes} → Frame entry → Stream rest → bytes ≡ entry ++ rest → Stream bytes

pub Stream-append : (a b : Bytes) → Stream a → Stream b → Stream (a ++ b)
Stream-append a b nothing t = t
Stream-append a b (frame {entry = entry} {rest = rest} f s e) t =
    frame f (Stream-append rest b s t) (ap (λ w. w ++ b) e ∙ append_assoc entry rest b)

pub Frame-Stream : {bytes : Bytes} → Frame bytes → Stream bytes
Frame-Stream {bytes} f = frame f nothing (sym (append-nil bytes))
