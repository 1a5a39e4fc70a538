-- ===== src/IoAll/Laws.antt =====
-- The loops of qrexec-lib/ioall.c, against the pieces that the kernel cuts a transfer into.
use qubes_linux_utils.Prelude.{
  ℕ, zero, suc, ◌-◌, ◌≤◌, ◌<◌, ◌≡◌, refl, ap, ◌∙◌, List, [], ◌∷◌, ◌++◌, append_assoc, Bytes, length,
  length-append, take, drop, take-append-drop, ◌==◌, ltb, ◌↔◌, ==_iff, Bool-cases, inl, inr, arith,
}
use qubes_linux_utils.IoAll.{
  Read, got, read_failed, Write, wrote, write_failed, eintr, read_done, read_loop, read_all,
  write_done, write_loop, write_all,
}

-- The calls deliver exactly these bytes: in pieces, none empty, with interruptions in between.
pub data Delivers : List Read → Bytes → Type 0 where
  last : {piece : Bytes} → 0 < length piece → Delivers (got piece ∷ []) piece
  interrupted :
      {events : List Read} {bytes : Bytes}
      → Delivers events bytes
      → Delivers (read_failed eintr ∷ events) bytes
  piece_of :
      {piece : Bytes} {events : List Read} {bytes : Bytes}
      → 0 < length piece
      → Delivers events bytes
      → Delivers (got piece ∷ events) (piece ++ bytes)

Delivers-pos : {events : List Read} {bytes : Bytes} → Delivers events bytes → 0 < length bytes
Delivers-pos (last h) = h
Delivers-pos (interrupted d) = Delivers-pos d
Delivers-pos (piece_of {piece} {bytes} h d) = omega (arith, length-append piece bytes)

-- A piece that is not the last, and the last.
read_loop-piece :
    (buf piece : Bytes) (n : ℕ) (events : List Read)
    → 0 < length piece
    → length piece < n
    → read_loop buf n (got piece ∷ events) ≡ read_loop (buf ++ piece) (n - length piece) events
unfolding read_loop
read_loop-piece buf [] n events h k = absurd (omega arith)
read_loop-piece buf (b ∷ bs) n events h k = ground arith

read_loop-last :
    (buf piece : Bytes) (events : List Read)
    → 0 < length piece
    → read_loop buf (length piece) (got piece ∷ events) ≡ read_done (buf ++ piece) events
unfolding read_loop
read_loop-last buf [] events h = absurd (omega arith)
read_loop-last buf (b ∷ bs) events h = ground arith

read_loop-Delivers :
    {events : List Read} {bytes : Bytes} (buf : Bytes) (more : List Read)
    → Delivers events bytes
    → read_loop buf (length bytes) (events ++ more) ≡ read_done (buf ++ bytes) more
unfolding read_loop
read_loop-Delivers buf more (last {piece} h) = read_loop-last buf piece more h
read_loop-Delivers buf more (interrupted d) = read_loop-Delivers buf more d
read_loop-Delivers buf more (piece_of {piece} {events} {bytes} h d) =
    let left : length (piece ++ bytes) - length piece ≡ length bytes =
      omega (arith, length-append piece bytes) in
    let shorter : length piece < length (piece ++ bytes) =
      omega (arith, length-append piece bytes, Delivers-pos d) in
    read_loop-piece buf piece (length (piece ++ bytes)) (events ++ more) h shorter
    ∙ rw (left, ← append_assoc buf piece bytes) (read_loop-Delivers (buf ++ piece) more d)

-- The events that a successful read has used, and what they brought.
pub record HasRead (n : ℕ) (events : List Read) (bytes : Bytes) (rest : List Read) : Type 0 where
  pub used : List Read
  pub splits : events ≡ used ++ rest
  pub delivered : Delivers used bytes
  pub size : length bytes ≡ n

abbrev LoopRead : Bytes → ℕ → List Read → Bytes → List Read → Type 0
LoopRead buf n events out rest =
    (bytes : Bytes) × HasRead n events bytes rest × (out ≡ buf ++ bytes)

loop-interrupted :
    {n : ℕ} {events : List Read} {out : Bytes} {rest : List Read} (buf : Bytes) (errno : ℕ)
    → errno ≡ eintr
    → LoopRead buf n events out rest
    → LoopRead buf n (read_failed errno ∷ events) out rest
loop-interrupted buf errno e (bytes, r, f) = (
  bytes,
  record {
    used = read_failed eintr ∷ r.used;
    splits = rw (e, r.splits) refl;
    delivered = interrupted r.delivered;
    size = r.size;
  },
  f,
)

loop-piece :
    {n : ℕ} {events : List Read} {out : Bytes} {rest : List Read} (buf piece : Bytes)
    → 0 < length piece
    → length piece ≤ n
    → LoopRead (buf ++ piece) (n - length piece) events out rest
    → LoopRead buf n (got piece ∷ events) out rest
loop-piece buf piece h k (bytes, r, f) = (
  piece ++ bytes,
  record {
    used = got piece ∷ r.used;
    splits = rw r.splits refl;
    delivered = piece_of h r.delivered;
    size = omega (arith, length-append piece bytes, r.size);
  },
  f ∙ append_assoc buf piece bytes,
)

read_loop-HasRead :
    (buf : Bytes) (n : ℕ) (events : List Read) (out : Bytes) (rest : List Read)
    → read_loop buf n events ≡ read_done out rest
    → LoopRead buf n events out rest
unfolding read_loop
read_loop-HasRead buf n [] out rest h = cc
read_loop-HasRead buf n (read_failed errno ∷ events) out rest h =
    elim (Bool-cases (errno == eintr)) [
      | inl e ↦
          loop-interrupted buf errno ((==_iff errno eintr).0 e)
            (read_loop-HasRead buf n events out rest (ground arith))
      | inr e ↦ absurd (ground arith)
    ]
read_loop-HasRead buf n (got [] ∷ events) out rest h = cc
read_loop-HasRead buf n (got (b ∷ bs) ∷ events) out rest h =
    elim (Bool-cases (ltb n (length (b ∷ bs)))) [
      | inl e ↦ absurd (ground arith)
      | inr e ↦ elim (Bool-cases (n == length (b ∷ bs))) [
        | inl f ↦ (
          b ∷ bs,
          record {
            used = got (b ∷ bs) ∷ [];
            splits = ground arith;
            delivered = last (omega arith);
            size = ground arith;
          },
          ground arith,
        )
        | inr f ↦
            loop-piece buf (b ∷ bs) (omega arith) (ground arith) (
              read_loop-HasRead (buf ++ b ∷ bs) (n - length (b ∷ bs)) events out rest
                (ground arith))
      ]
    ]

-- For a number of bytes that is not 0, `read_all` returns 1 exactly when the calls of `read` bring
-- that number of bytes, in whatever pieces and with whatever interruptions: it then has these
-- bytes, and made no call beyond.
pub read_all_iff :
    (n : ℕ) (events : List Read) (bytes : Bytes) (rest : List Read)
    → (read_all (suc n) events ≡ read_done bytes rest) ↔ HasRead (suc n) events bytes rest
unfolding read_all
read_all_iff n events bytes rest = (
  (λ h. let (got_bytes, r, e) = read_loop-HasRead [] (suc n) events bytes rest h in rw e r),
  (λ r. rw (r.splits, ← r.size) (read_loop-Delivers [] rest r.delivered)),
)

take-all : (k : ℕ) (xs : Bytes) → length xs ≤ k → take k xs ≡ xs
take-all zero [] h = refl
take-all zero (x ∷ xs) h = absurd (omega arith)
take-all (suc k) [] h = refl
take-all (suc k) (x ∷ xs) h = ap (◌∷◌ x) (take-all k xs (omega arith))

write_loop-written :
    (written left : Bytes) (events : List Write) (out : Bytes) (rest : List Write)
    → write_loop written left events ≡ write_done out rest
    → out ≡ written ++ left
unfolding write_loop
write_loop-written written left [] out rest h = cc
write_loop-written written left (write_failed errno ∷ events) out rest h =
    elim (Bool-cases (errno == eintr)) [
      | inl e ↦ write_loop-written written left events out rest (ground arith)
      | inr e ↦ absurd (ground arith)
    ]
write_loop-written written left (wrote zero ∷ events) out rest h = cc
write_loop-written written left (wrote (suc k) ∷ events) out rest h =
    elim (Bool-cases (ltb (length left) (suc k))) [
      | inl e ↦ absurd (ground arith)
      | inr e ↦ elim (Bool-cases (length left == suc k)) [
        | inl f ↦ ground (arith, take-all (suc k) left)
        | inr f ↦
            write_loop-written (written ++ take (suc k) left) (drop (suc k) left) events out rest
              (ground arith)
            ∙ append_assoc written (take (suc k) left) (drop (suc k) left)
            ∙ ap (λ (t : Bytes). written ++ t) (take-append-drop (suc k) left)
      ]
    ]

-- When `write_all` returns 1 the calls of `write` have written the whole buffer, in order.
pub write_all-written :
    (bytes : Bytes) (events : List Write) (out : Bytes) (rest : List Write)
    → write_all bytes events ≡ write_done out rest
    → out ≡ bytes
unfolding write_all
write_all-written [] events out rest h = ground arith
write_all-written (b ∷ bs) events out rest h = write_loop-written [] (b ∷ bs) events out rest h
