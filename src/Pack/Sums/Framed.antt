-- ===== src/Pack/Sums/Framed.antt =====
-- What qrexec-lib/pack.c writes for one path, as frames.
use qubes_linux_utils.Prelude.{
  ℕ, ◌+◌, ◌^◌, ◌<◌, ◌≡◌, refl, ap, ◌∙◌, true, Option, none, some, List, [], ◌∷◌, ◌++◌, append-nil,
  append_assoc, Bytes, length, length-append, length-take, take, ◌==◌, ==_iff, arith,
}
use qubes_linux_utils.IoAll.{Read}
use qubes_linux_utils.Unpack.Header.{is_reg, is_dir, is_lnk}
use qubes_linux_utils.Pack.Process.{return}
use qubes_linux_utils.Pack.Result.{wait_for_result}
use qubes_linux_utils.Pack.Send.{
  Stat, encode_header, write_whole, write_headers, header_for, with_nul, send_file, send_link,
  send_content, single_file_processor,
}
use qubes_linux_utils.Pack.Frame.{
  Fits, decode_header-encode_header, length-encode_header, body_size, Frame, Stream, nothing,
  Frame-Stream,
}
use qubes_linux_utils.Pack.Sums.{
  Empty, Joins, Joins-Empty, Sums, Sums-then, Sums-return, Sums-weaken, Sums-if,
  wait_for_result-Sums,
}
use qubes_linux_utils.Pack.Sums.Sent.{
  Exactly, Long, write_whole-Sums, write_headers-Sums, copy_data-Sums,
}

-- The path and its type and size are of lengths that the header's fields can hold.
pub record Sized (path : Bytes) (st : Stat) : Type 0 where
  pub path_size : length path + 1 < 2 ^ 32
  pub mode : st.st_mode < 2 ^ 32
  pub size : st.st_size < 2 ^ 64

header_for-Fits :
    (path : Bytes) (st : Stat) (filelen : ℕ)
    → Sized path st
    → filelen < 2 ^ 64
    → Fits (header_for path st filelen)
unfolding header_for
header_for-Fits path st filelen h k = record {
  namelen = omega arith;
  mode = h.mode;
  filelen = k;
  atime = omega arith;
  atime_nsec = omega arith;
  mtime = omega arith;
  mtime_nsec = omega arith;
}

-- The bytes that `write_headers` writes for a path.
abbrev front : Bytes → Stat → ℕ → Bytes
front path st filelen =
    let hdr = header_for path st filelen in encode_header hdr ++ take hdr.namelen (with_nul path)

front-Frame :
    (path body : Bytes) (st : Stat) (filelen : ℕ)
    → Sized path st
    → filelen < 2 ^ 64
    → length body ≡ body_size (header_for path st filelen)
    → Frame (front path st filelen ++ body)
unfolding header_for
front-Frame path body st filelen h k l =
    let hdr = header_for path st filelen in
    record {
      header = hdr;
      head = encode_header hdr;
      name = take hdr.namelen (with_nul path);
      body = body;
      parts = append_assoc (encode_header hdr) (take hdr.namelen (with_nul path)) body;
      head_size = length-encode_header hdr;
      decoded = decode_header-encode_header hdr (header_for-Fits path st filelen h k);
      named = omega (arith, h.path_size);
      name_size = omega (
        arith,
        h.path_size,
        length-take hdr.namelen (with_nul path),
        length-append path (0 ∷ []),
      );
      body_is = l;
    }

-- A header for a path, and a body of this length behind it.
abbrev Fronts : Bytes → Stat → ℕ → ℕ → Type 0
Fronts path st filelen n = Joins (Exactly (front path st filelen)) (Long n) Frame

front-joins :
    (path : Bytes) (st : Stat) (filelen n : ℕ)
    → Sized path st
    → filelen < 2 ^ 64
    → n ≡ body_size (header_for path st filelen)
    → Fronts path st filelen n
front-joins path st filelen n h k l a b p q = rw p (front-Frame path b st filelen h k (q ∙ l))

send_file-Sums :
    (path : Bytes) (st : Stat) (file : Option (List Read))
    → Sized path st
    → is_reg st.st_mode ≡ true
    → Sums Frame (send_file path st file)
unfolding send_file header_for
send_file-Sums path st none h reg = λ s. tt
send_file-Sums path st (some file) h reg =
    Sums-then (Exactly (front path st st.st_size)) (Long st.st_size) Frame
      (write_headers (header_for path st st.st_size) (with_nul path)) _
      (front-joins path st st.st_size st.st_size h h.size (rw reg refl)) (write_headers-Sums _ _)
      (copy_data-Sums path st.st_size file)

send_link-Sums :
    (path : Bytes) (st : Stat) (target : Option Bytes)
    → Sized path st
    → is_lnk st.st_mode ≡ true
    → Sums Frame (send_link path st target)
unfolding send_link header_for
send_link-Sums path st none h lnk = λ s. tt
send_link-Sums path st (some target) h lnk =
    Sums-if Frame (length target == st.st_size) _ _
      (λ e.
        Sums-then (Exactly (front path st st.st_size)) (Long st.st_size) Frame
          (write_headers (header_for path st st.st_size) (with_nul path)) (write_whole target)
          (front-joins path st st.st_size st.st_size h h.size (ground (arith, lnk)))
          (write_headers-Sums _ _)
          (Sums-weaken (Exactly target) (Long st.st_size) (write_whole target)
            (λ a p. ap length p ∙ (==_iff _ _).0 e) (write_whole-Sums target)))
      (λ e s. tt)

send_directory-Sums :
    (path : Bytes) (st : Stat)
    → Sized path st
    → Sums Frame (write_headers (header_for path st 0) (with_nul path))
unfolding header_for
send_directory-Sums path st h =
    Sums-weaken (Exactly (front path st 0)) Frame _
      (λ a p.
        rw (p, ← append-nil (front path st 0))
          (front-Frame path [] st 0 h (omega arith) (ground arith)))
      (write_headers-Sums _ _)

pub return-Stream : Sums Stream (return tt)
return-Stream =
    Sums-weaken {A = Unit {0}} Empty Stream (return tt) (λ a e. rw e nothing) (Sums-return tt)

send_content-Sums :
    (path : Bytes) (st : Stat) (file : Option (List Read)) (target : Option Bytes)
    → Sized path st
    → Sums Stream (send_content path st file target)
unfolding send_content
send_content-Sums path st file target h =
    Sums-if Stream (is_reg st.st_mode) _ _
      (λ reg.
        Sums-weaken Frame Stream _ (λ a f. Frame-Stream f) (send_file-Sums path st file h reg))
      (λ e.
        Sums-if Stream (is_dir st.st_mode) _ _
          (λ dir.
            Sums-weaken Frame Stream _ (λ a f. Frame-Stream f) (send_directory-Sums path st h))
          (λ f.
            Sums-if Stream (is_lnk st.st_mode) _ (return tt)
              (λ lnk.
                Sums-weaken Frame Stream _ (λ a f. Frame-Stream f)
                  (send_link-Sums path st target h lnk))
              (λ g. return-Stream)))

pub single_file_processor-Sums :
    (path : Bytes) (st : Stat) (file : Option (List Read)) (target : Option Bytes)
    → Sized path st
    → Sums Stream (single_file_processor path st file target)
unfolding single_file_processor
single_file_processor-Sums path st file target h =
    Sums-then Stream Empty Stream (send_content path st file target) wait_for_result
      (Joins-Empty Stream) (send_content-Sums path st file target h) wait_for_result-Sums
