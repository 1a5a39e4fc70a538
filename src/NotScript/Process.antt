-- ===== src/NotScript/Process.antt =====
-- The calls of not-script/not-script.c on XenStore and on the kernel, and the ways a run can end. What
-- a call gives is a parameter, a function of all calls made before it.
use qubes_linux_utils.Prelude.{ℕ, Bool, true, false, List, Bytes}

-- The keys below the device's path.
pub data Key : Type 0 where
  physical_device physical_device_path diskseq opened params mode : Key

pub data Call : Type 0 where
  xs_read xs_rm xs_watch : Key → Call
  xs_write : Key → Bytes → Call
  transaction_start transaction_end xs_read_watch : Call
  open_lock : Call
  lock_file : ℕ → Call
  open_control : Call
  get_free add_loop : ℕ → Call
  open_loop : ℕ → Bool → Call
  configure_loop : ℕ → ℕ → Bool → Bool → Call
  clear_loop : ℕ → Call
  open_path : Bytes → Bool → Call
  open_dm_name : ℕ → ℕ → Call
  read_bytes : ℕ → ℕ → Call
  file_status get_diskseq close_file : ℕ → Call
  replace_file : ℕ → ℕ → Call

-- The fields of `struct stat` that are used; a device number is its two parts.
pub record Status : Type 0 where
  pub st_mode : ℕ
  pub major : ℕ
  pub minor : ℕ

-- What a call gives, or its `errno`.
pub data Result (A : Type 0) : Type 0 where
  ok : A → Result A
  failed : ℕ → Result A

abbrev pub Reply : Call → Type 0
Reply (xs_read key) = Result Bytes
Reply (read_bytes fd size) = Result Bytes
Reply (file_status fd) = Result Status
Reply c = Result ℕ

-- A return; `err` or `errx`, with exit code 1; `abort`; and a loop that has not ended, with the calls
-- made, the latest first.
pub data Outcome (A : Type 0) : Type 0 where
  done : A → List Call → Outcome A
  dies aborts out_of_fuel : List Call → Outcome A

abbrev pub M : Type 0 → Type 0
M A = List Call → Outcome A

infixl 5 ◌>>=◌ ◌>>◌
abbrev pub after : {A B : Type 0} → Outcome A → (A → M B) → Outcome B
after (done a s) f = f a s
after (dies s) f = dies s
after (aborts s) f = aborts s
after (out_of_fuel s) f = out_of_fuel s

abbrev pub ◌>>=◌ : {A B : Type 0} → M A → (A → M B) → M B
◌>>=◌ m f s = after (m s) f

abbrev pub ◌>>◌ : {B : Type 0} → M (Unit {0}) → M B → M B
◌>>◌ m k s = after (m s) (λ _. k)

abbrev pub return : {A : Type 0} → A → M A
return a s = done a s

-- `if (!test) errx(1, ...)`
abbrev pub require : Bool → M (Unit {0})
require true s = done tt s
require false s = dies s

-- The result of a call that must succeed.
abbrev pub or_die : {A : Type 0} → Result A → M A
or_die (ok a) s = done a s
or_die (failed errno) s = dies s
