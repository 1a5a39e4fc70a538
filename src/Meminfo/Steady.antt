-- ===== src/Meminfo/Steady.antt =====
-- The loop of `update` in qmemman/meminfo-writer.c, by the reads that it makes.
use qubes_linux_utils.Prelude.{
  ◌≡◌, refl, ◌∙◌, true, inl, inr, List, [], ◌∷◌, ◌++◌, Bytes, Bool-cases, arith,
}
use qubes_linux_utils.IoAll.{Read, got, read_failed}
use qubes_linux_utils.Unpack.Process.{c_string}
use qubes_linux_utils.NotScript.Device.{same_bytes}
use qubes_linux_utils.Meminfo.{stable, stable_loop, read_stable}

-- What the last of these reads brought, as a string.
abbrev pub last_string : Bytes → List Read → Bytes
last_string before [] = before
last_string before (got bytes ∷ events) = last_string (c_string bytes) events
last_string before (read_failed errno ∷ events) = last_string before events

same_bytes_sound : (a b : Bytes) → same_bytes a b ≡ true → a ≡ b
unfolding same_bytes
same_bytes_sound [] [] h = refl
same_bytes_sound [] (d ∷ ds) h = cc
same_bytes_sound (c ∷ cs) [] h = cc
same_bytes_sound (c ∷ cs) (d ∷ ds) h =
    let e : c ≡ d = ground arith in
    let f : cs ≡ ds = same_bytes_sound cs ds (ground arith) in rw (e, f) refl

-- The last read but one brought what is known of the memory, the last one and the one two before it
-- the same size of the domain.
pub record Between (before info total : Bytes) (events rest : List Read) : Type 0 where
  pub earlier : List Read
  pub info_bytes : Bytes
  pub total_bytes : Bytes
  pub order : events ≡ earlier ++ (got info_bytes ∷ (got total_bytes ∷ rest))
  pub info_is : info ≡ c_string info_bytes
  pub total_is : total ≡ c_string total_bytes
  pub unchanged : last_string before earlier ≡ total

Between-more :
    (before info total a b : Bytes) (events rest : List Read)
    → Between (c_string b) info total events rest
    → Between before info total (got a ∷ (got b ∷ events)) rest
Between-more before info total a b events rest t = record {
  earlier = got a ∷ (got b ∷ t.earlier);
  info_bytes = t.info_bytes;
  total_bytes = t.total_bytes;
  order = rw t.order refl;
  info_is = t.info_is;
  total_is = t.total_is;
  unchanged = t.unchanged;
}

stable_loop-Between :
    (before info total : Bytes) (events rest : List Read)
    → stable_loop before events ≡ stable info total rest
    → Between before info total events rest
unfolding stable_loop
stable_loop-Between before info total [] rest h = cc
stable_loop-Between before info total (read_failed errno ∷ events) rest h = cc
stable_loop-Between before info total (got a ∷ []) rest h = cc
stable_loop-Between before info total (got a ∷ (read_failed errno ∷ events)) rest h = cc
stable_loop-Between before info total (got a ∷ (got b ∷ events)) rest h =
    elim (Bool-cases (same_bytes before (c_string b))) [
      | inl e ↦ record {
        earlier = [];
        info_bytes = a;
        total_bytes = b;
        order = ground arith;
        info_is = ground arith;
        total_is = ground arith;
        unchanged = same_bytes_sound before (c_string b) e ∙ ground arith;
      }
      | inr e ↦
          Between-more before info total a b events rest
            (stable_loop-Between (c_string b) info total events rest (ground arith))
    ]

-- Where `update` goes on, its last read but one brought the memory's numbers, and the reads of the
-- domain's size just before and just after it brought the same string, which is the one that is used.
pub read_stable-Between :
    (first info total : Bytes) (events rest : List Read)
    → read_stable (got first ∷ events) ≡ stable info total rest
    → Between (c_string first) info total events rest
unfolding read_stable
read_stable-Between first info total events rest h =
    stable_loop-Between (c_string first) info total events rest h
