-- ===== src/CopyFile/Progress.antt =====
-- How many of the calls of `read` the loop of qrexec-lib/copy-file.c uses.
use qubes_linux_utils.Prelude.{
  ℕ, zero, suc, ◌-◌, ◌≤◌, Bool, true, false, List, [], ◌∷◌, ◌++◌, Bytes, length, ltb, if◌then◌else◌,
  arith,
}
use qubes_linux_utils.IoAll.{
  Read, got, read_failed, Write, WriteAll, write_done, write_error, write_waiting, write_overrun,
  write_all,
}
use qubes_linux_utils.CopyFile.{
  CopyFile, copied, copy_waiting, copy_overrun, count_for, accumulate, after_write, copy_loop,
  copy_file,
}

-- What `copy_file` leaves.
abbrev pub Consumes : ℕ → CopyFile → Type 0
Consumes n (copied status out crc reads writes) = length reads ≤ n
Consumes n copy_waiting = Unit
Consumes n copy_overrun = Unit

after_write-Consumes :
    (n : ℕ) (out : Bytes) (crc : ℕ) (reads : List Read) (w : WriteAll)
    (again : Bytes → List Write → CopyFile)
    → length reads ≤ n
    → ((out : Bytes) (writes : List Write) → Consumes n (again out writes))
    → Consumes n (after_write out crc reads w again)
unfolding after_write
after_write-Consumes n out crc reads (write_done bytes writes) again h k = k (out ++ bytes) writes
after_write-Consumes n out crc reads (write_error errno bytes writes) again h k = h
after_write-Consumes n out crc reads write_waiting again h k = tt
after_write-Consumes n out crc reads write_overrun again h k = tt

Consumes-more : (m n : ℕ) (c : CopyFile) → m ≤ n → Consumes m c → Consumes n c
Consumes-more m n (copied status out crc reads writes) h k = omega arith
Consumes-more m n copy_waiting h k = tt
Consumes-more m n copy_overrun h k = tt

Consumes-if :
    (n : ℕ) (b : Bool) (x y : CopyFile)
    → Consumes n x
    → Consumes n y
    → Consumes n (if b then x else y)
Consumes-if n true x y h k = h
Consumes-if n false x y h k = k

copy_loop-Consumes :
    (wanted : Bool) (out : Bytes) (crc left : ℕ) (reads : List Read) (writes : List Write)
    → Consumes (length reads) (copy_loop wanted out crc left reads writes)
unfolding copy_loop
copy_loop-Consumes wanted out crc zero reads writes = omega arith
copy_loop-Consumes wanted out crc (suc left) [] writes = tt
copy_loop-Consumes wanted out crc (suc left) (read_failed errno ∷ reads) writes = omega arith
copy_loop-Consumes wanted out crc (suc left) (got [] ∷ reads) writes = omega arith
copy_loop-Consumes wanted out crc (suc left) (got (b ∷ bs) ∷ reads) writes =
    let n = length reads in
    Consumes-if (suc n) (ltb (count_for (suc left)) (length (b ∷ bs))) copy_overrun _ tt (
      after_write-Consumes (suc n) out (accumulate wanted crc (b ∷ bs)) reads
        (write_all (b ∷ bs) writes) _ (omega arith)
        (λ out' writes'. Consumes-more n (suc n) _ (omega arith) (
          copy_loop-Consumes wanted out' (accumulate wanted crc (b ∷ bs))
            (suc left - length (b ∷ bs)) reads writes')))

pub copy_file-Consumes :
    (size : ℕ) (wanted : Bool) (crc : ℕ) (reads : List Read) (writes : List Write)
    → Consumes (length reads) (copy_file size wanted crc reads writes)
unfolding copy_file
copy_file-Consumes size wanted crc reads writes = copy_loop-Consumes wanted [] crc size reads writes
