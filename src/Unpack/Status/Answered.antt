-- ===== src/Unpack/Status/Answered.antt =====
-- The answer of qrexec-lib/unpack.c, as the sender in qrexec-lib/pack.c reads it.
use qubes_linux_utils.Prelude.{
  ℕ, suc, ◌^◌, ◌≤◌, ◌<◌, ◌≡◌, refl, ap, sym, subst, append-nil, ◌%◌, ◌∙◌, Bool, true, some, take,
  drop, not, ◌&&◌, ◌||◌, List, [], ◌∷◌, ◌++◌, All, Bytes, length, ◌==◌, arith,
}
use qubes_linux_utils.Prelude.Int.{ℤ, pos, negsuc}
use qubes_linux_utils.IoAll.{Read, read_done, read_all}
use qubes_linux_utils.IoAll.Laws.{Delivers, read_all_iff}
use qubes_linux_utils.Unpack.Header.{field_at, little_endian}
use qubes_linux_utils.Unpack.Process.{c_string}
use qubes_linux_utils.Pack.Send.{to_little_endian}
use qubes_linux_utils.Pack.Process.{State, done, received, receive, after_read, brings_bytes}
use qubes_linux_utils.Pack.Result.{
  sanitize_remote_filename, last_namelen, last_filename, check_result, after_result,
  wait_for_result,
}
use qubes_linux_utils.Pure.Display.Text.{take-append, drop-append}
use qubes_linux_utils.Unpack.Status.{
  uint32_of, result_header, result_header_ext, send_status_and_crc,
}

-- The fields of the first header, read back.
result_header-code : (code : ℤ) (crc : ℕ) → field_at 0 4 (result_header code crc) ≡ uint32_of code
unfolding result_header to_little_endian little_endian uint32_of
result_header-code (pos n) crc = omega arith
result_header-code (negsuc n) crc = omega arith

result_header-crc :
    (code : ℤ) (crc : ℕ) → crc < 2 ^ 64 → field_at 8 8 (result_header code crc) ≡ crc
unfolding result_header to_little_endian little_endian
result_header-crc code crc h = omega arith

result_header_ext-size :
    (name : Bytes) → length name < 2 ^ 32 → field_at 0 4 (result_header_ext name) ≡ length name
unfolding result_header_ext to_little_endian little_endian
result_header_ext-size name h = omega arith

c_string-whole : (name : Bytes) → All (λ c. 0 < c) name → c_string name ≡ name
unfolding c_string
c_string-whole [] h = refl
c_string-whole (c ∷ cs) h = rw (c_string-whole cs h.1) (ground (arith, h.0))

-- A read of what these calls bring.
read_delivered :
    (n : ℕ) (bytes : Bytes) (events rest : List Read)
    → length bytes ≡ suc n
    → Delivers events bytes
    → read_all (suc n) (events ++ rest) ≡ read_done bytes rest
read_delivered n bytes events rest h d =
    (read_all_iff n (events ++ rest) bytes rest).1
      (record { used = events; splits = refl; delivered = d; size = h })

-- What the reads change.
pub record Moved (s u : State) (rest : List Read) : Type 0 where
  pub crc : u.crc32_sum ≡ s.crc32_sum
  pub quota : u.ignore_quota_error ≡ s.ignore_quota_error
  pub reads : u.reads ≡ rest

receive_delivered :
    (n : ℕ) (bytes : Bytes) (events rest : List Read) (s : State)
    → length bytes ≡ suc n
    → Delivers events bytes
    → s.reads ≡ events ++ rest
    → (u : State) × (receive (suc n) s ≡ done (received bytes) u) × Moved s u rest
unfolding receive after_read
receive_delivered n bytes events rest s h d e =
    let r : read_all (suc n) s.reads ≡ read_done bytes rest =
      ap (read_all (suc n)) e ∙ read_delivered n bytes events rest h d in
    (
      record s { blocking = s.blocking || not (suc n == 0) && brings_bytes s.reads; reads = rest },
      rw r refl,
      record { crc = refl; quota = refl; reads = refl },
    )

length-result_header : (code : ℤ) (crc : ℕ) → length (result_header code crc) ≡ 16
unfolding result_header to_little_endian
length-result_header code crc = refl

length-result_header_ext : (name : Bytes) → length (result_header_ext name) ≡ 4
unfolding result_header_ext to_little_endian
length-result_header_ext name = refl

last_namelen-ext :
    (name : Bytes)
    → length name ≤ 16384
    → last_namelen (received (result_header_ext name)) ≡ length name
unfolding last_namelen
last_namelen-ext name h =
    let size = result_header_ext-size name (omega arith) in omega (arith, size)

-- The three reads of the sender, one behind the other.
after_three :
    (hdr ext name : Bytes) (s t u v : State)
    → receive 16 s ≡ done (received hdr) t
    → receive 4 t ≡ done (received ext) u
    → receive (last_namelen (received ext)) u ≡ done (received name) v
    → wait_for_result s
      ≡ check_result
          (field_at 0 4 hdr)
          (field_at 8 8 hdr)
          (last_filename (last_namelen (received ext)) (received name)).0
          (last_filename (last_namelen (received ext)) (received name)).1
          v
unfolding wait_for_result after_result
after_three hdr ext name s t u v e f g = rw (e, f, g) refl

pieces-Answered :
    (code : ℤ) (crc c : ℕ) (cs : Bytes) (first second third rest : List Read) (s : State)
    → crc < 2 ^ 64
    → length (c ∷ cs) ≤ 16384
    → All (λ b. 0 < b) (c ∷ cs)
    → Delivers first (result_header code crc)
    → Delivers second (result_header_ext (c ∷ cs))
    → Delivers third (c ∷ cs)
    → s.reads ≡ first ++ (second ++ (third ++ rest))
    → (v : State) × Moved s v rest
      × (wait_for_result s
          ≡ check_result (uint32_of code) crc true (sanitize_remote_filename (c ∷ cs)) v)
unfolding last_filename
pieces-Answered code crc c cs first second third rest s h k l d₁ d₂ d₃ e =
    let hdr = result_header code crc in
    let ext = result_header_ext (c ∷ cs) in
    let (t, r₁, m₁) =
      receive_delivered 15 hdr first (second ++ (third ++ rest)) s (length-result_header code crc)
        d₁ e in
    let (u, r₂, m₂) =
      receive_delivered 3 ext second (third ++ rest) t (length-result_header_ext (c ∷ cs)) d₂
        m₁.reads in
    let (v, r₃, m₃) = receive_delivered (length cs) (c ∷ cs) third rest u refl d₃ m₂.reads in
    let size = last_namelen-ext (c ∷ cs) k in
    let named : not (length (c ∷ cs) == 0) ≡ true = ground arith in
    let r₃' : receive (last_namelen (received ext)) u ≡ done (received (c ∷ cs)) v =
      ap (λ (n : ℕ). receive n u) size ∙ r₃ in
    (
      v,
      record {
        crc = m₃.crc ∙ m₂.crc ∙ m₁.crc;
        quota = m₃.quota ∙ m₂.quota ∙ m₁.quota;
        reads = m₃.reads;
      },
      after_three hdr ext (c ∷ cs) s t u v r₁ r₂ r₃'
          ∙ rw
              (
                result_header-code code crc,
                result_header-crc code crc h,
                size,
                c_string-whole (c ∷ cs) l,
              )
              (ap
                (λ (b : Bool).
                  check_result (uint32_of code) crc b (sanitize_remote_filename (c ∷ cs)) v)
                named),
    )

append_split :
    (xs ys us vs : Bytes) → length xs ≡ length us → xs ++ ys ≡ us ++ vs → (xs ≡ us) × (ys ≡ vs)
append_split xs ys us vs h e = (
  sym (take-append xs ys)
      ∙ ap (λ (n : ℕ). take n (xs ++ ys)) h
      ∙ ap (take (length us)) e
      ∙ take-append us vs,
  sym (drop-append xs ys)
      ∙ ap (λ (n : ℕ). drop n (xs ++ ys)) h
      ∙ ap (drop (length us)) e
      ∙ drop-append us vs,
)

take_whole : (name : Bytes) → length name ≤ 16384 → take (length name % 2 ^ 32) name ≡ name
take_whole name h =
    let e : length name % 2 ^ 32 ≡ length name = omega arith in
    ap (λ (n : ℕ). take n name) e
    ∙ ap (take (length name)) (sym (append-nil name))
    ∙ take-append name []

-- The sender takes the receiver's answer as it was meant, when the calls of `read` bring what
-- the receiver writes for an exit code, its checksum of 64 bits and a name that is not empty, has no NUL
-- and is not longer than MAX_PATH_LENGTH, cut behind each of its two headers at least: the sender
-- decides with that code in 32 bits, that checksum, and the sanitized name, makes no further call of
-- `read`, and keeps its own checksum.
pub send_status_and_crc-Answered :
    (code : ℤ) (crc c : ℕ) (cs hdr ext name : Bytes) (first second third rest : List Read)
    (s : State)
    → crc < 2 ^ 64
    → length (c ∷ cs) ≤ 16384
    → All (λ b. 0 < b) (c ∷ cs)
    → send_status_and_crc code crc (some (c ∷ cs)) ≡ hdr ++ (ext ++ name)
    → length hdr ≡ 16
    → length ext ≡ 4
    → Delivers first hdr
    → Delivers second ext
    → Delivers third name
    → s.reads ≡ first ++ (second ++ (third ++ rest))
    → (v : State) × Moved s v rest
      × (wait_for_result s
          ≡ check_result (uint32_of code) crc true (sanitize_remote_filename (c ∷ cs)) v)
unfolding send_status_and_crc
send_status_and_crc-Answered code crc c cs hdr ext name first second third rest s h k l w n₁ n₂ d₁
      d₂ d₃ e =
    let whole = take_whole (c ∷ cs) k in
    let (e₁, w') =
      append_split (result_header code crc) (result_header_ext (c ∷ cs) ++ (c ∷ cs)) hdr
        (ext ++ name) (length-result_header code crc ∙ sym n₁)
        (ap (λ n. result_header code crc ++ (result_header_ext (c ∷ cs) ++ n)) (sym whole) ∙ w) in
    let (e₂, e₃) =
      append_split (result_header_ext (c ∷ cs)) (c ∷ cs) ext name
        (length-result_header_ext (c ∷ cs) ∙ sym n₂) w' in
    pieces-Answered code crc c cs first second third rest s h k l
      (subst (Delivers first) (sym e₁) d₁) (subst (Delivers second) (sym e₂) d₂)
      (subst (Delivers third) (sym e₃) d₃) e
