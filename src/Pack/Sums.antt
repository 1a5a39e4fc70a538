-- ===== src/Pack/Sums.antt =====
-- What steps of qrexec-lib/pack.c write to standard output, beside the checksum that they keep.
pub mod Sent
pub mod Framed
pub mod Whole
use qubes_linux_utils.Prelude.{
  ℕ, ◌≡◌, refl, sym, ◌∙◌, Bool, true, false, [], ◌++◌, append-nil, append_assoc, Bytes,
  if◌then◌else◌,
}
use qubes_linux_utils.IoAll.Parts.{Behind, Behind-refl, Behind-trans}
use qubes_linux_utils.Crc32.{compute_buf}
use qubes_linux_utils.Crc32.Laws.{compute_buf-append, compute_buf-nil}
use qubes_linux_utils.Pack.Process.{State, Outcome, done, M, ◌>>=◌, ◌>>◌, return}
use qubes_linux_utils.Pack.Result.{wait_for_result}
use qubes_linux_utils.Pack.Result.Laws.{Returned, Reported, Exited, wait_for_result-Judged}
use qubes_linux_utils.Pack.Rules.{Ends, Ends-after, Ends-weaken, Any, Anywhere}

-- From one state to another, bytes of this kind were written, and the checksum has taken up just
-- these; some calls of `read` may have been made.
pub record Summed (P : Bytes → Type 0) (s s' : State) : Type 0 where
  pub bytes : Bytes
  pub kind : P bytes
  pub written : s'.sent ≡ s.sent ++ bytes
  pub summed : s'.crc32_sum ≡ compute_buf s.crc32_sum bytes
  pub quota : s'.ignore_quota_error ≡ s.ignore_quota_error
  pub later : Behind s.reads s'.reads

-- Nothing was written.
abbrev pub Empty : Bytes → Type 0
Empty bytes = bytes ≡ []

pub Summed-same :
    (s s' : State)
    → s'.crc32_sum ≡ s.crc32_sum
    → s'.sent ≡ s.sent
    → s'.ignore_quota_error ≡ s.ignore_quota_error
    → Behind s.reads s'.reads
    → Summed Empty s s'
Summed-same s s' e f g h = record {
  bytes = [];
  kind = refl;
  written = f ∙ sym (append-nil s.sent);
  summed = e ∙ sym (compute_buf-nil s.crc32_sum);
  quota = g;
  later = h;
}

-- Bytes of one kind and then of another are of a third.
abbrev pub Joins : (P Q R : Bytes → Type 0) → Type 0
Joins P Q R = (a b : Bytes) → P a → Q b → R (a ++ b)

pub Joins-Empty : (P : Bytes → Type 0) → Joins P Empty P
Joins-Empty P a b p e = rw (e, append-nil a) p

Summed-trans :
    {P Q R : Bytes → Type 0} (s t u : State)
    → Joins P Q R
    → Summed P s t
    → Summed Q t u
    → Summed R s u
Summed-trans s t u join p q = record {
  bytes = p.bytes ++ q.bytes;
  kind = join p.bytes q.bytes p.kind q.kind;
  written = rw (q.written, p.written) (append_assoc s.sent p.bytes q.bytes);
  summed = rw (q.summed, p.summed) (sym (compute_buf-append s.crc32_sum p.bytes q.bytes));
  quota = q.quota ∙ p.quota;
  later = Behind-trans s.reads t.reads u.reads p.later q.later;
}

-- A step that writes bytes of this kind wherever it returns.
abbrev pub Sums : {A : Type 0} → (Bytes → Type 0) → M A → Type 0
Sums {A} P m = (s : State) → Ends (λ (a : A) s'. Summed P s s') Any Anywhere (m s)

pub Sums-then :
    {B : Type 0} (P Q R : Bytes → Type 0) (m : M (Unit {0})) (k : M B)
    → Joins P Q R
    → Sums P m
    → Sums Q k
    → Sums R (m >> k)
Sums-then P Q R m k join p q s =
    Ends-after (λ a t. Summed P s t) (λ b u. Summed R s u) Any Anywhere (m s) (λ _. k) (p s)
      (λ a t h.
        Ends-weaken (λ b u. Summed Q t u) (λ b u. Summed R s u) Any Anywhere (k t) (q t)
          (λ b u. Summed-trans s t u join h))

pub Sums-return : {A : Type 0} (a : A) → Sums Empty (return a)
Sums-return a s = Summed-same s s refl refl refl (Behind-refl s.reads)

pub Sums-weaken :
    {A : Type 0} (P Q : Bytes → Type 0) (m : M A) → ((a : Bytes) → P a → Q a) → Sums P m → Sums Q m
Sums-weaken P Q m k p s =
    Ends-weaken (λ a u. Summed P s u) (λ a u. Summed Q s u) Any Anywhere (m s) (p s)
      (λ a u h. record {
        bytes = h.bytes;
        kind = k h.bytes h.kind;
        written = h.written;
        summed = h.summed;
        quota = h.quota;
        later = h.later;
      })

-- The test is known in each branch.
pub Sums-if :
    {A : Type 0} (P : Bytes → Type 0) (b : Bool) (m k : M A)
    → (b ≡ true → Sums P m)
    → (b ≡ false → Sums P k)
    → Sums P (if b then m else k)
Sums-if P true m k p q = p refl
Sums-if P false m k p q = q refl

pub wait_for_result-Sums : Sums Empty wait_for_result
wait_for_result-Sums s =
    Ends-weaken (Returned s) (λ a u. Summed Empty s u) (Reported s) (Exited s) (wait_for_result s)
      (wait_for_result-Judged s)
      (λ a u (w, ok, crc, sent, quota, later). Summed-same s u crc sent quota later)
