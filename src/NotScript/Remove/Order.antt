-- ===== src/NotScript/Remove/Order.antt =====
-- The order of the calls that `remove_device` of not-script/not-script.c makes.
use qubes_linux_utils.Prelude.{
  ℕ, ◌≡◌, refl, ap, sym, ◌∙◌, subst, Bool, true, false, not, ◌&&◌, some, List, [], ◌∷◌, Bytes, ◌==◌,
  ==_iff, Bool-cases, inl, inr, if◌then◌else◌, arith,
}
use qubes_linux_utils.NotScript.Hex.{parse_diskseq, parse_physical_device}
use qubes_linux_utils.NotScript.Process.{
  Key, physical_device, physical_device_path, diskseq, params, Call, xs_read, xs_rm, open_control,
  open_loop, clear_loop, file_status, get_diskseq, close_file, Status, Result, ok, failed, Reply,
  ◌>>=◌, ◌>>◌, return, require, or_die,
}
use qubes_linux_utils.NotScript.Device.{ebusy, ask, same_bytes}
use qubes_linux_utils.NotScript.Remove.{
  loop_major, or_busy, take_value, detach_loop, remove_loop, remove_device,
}
use qubes_linux_utils.NotScript.Rules.{
  Ends, Ends-after, Ends-or_die, Ends-or_bad, Ends-require, Ends-if,
}

module _ (system : List Call → (c : Call) → Reply c) where
  -- Among these calls there is this one, with this reply.
  pub data Gave (c : Call) (r : Reply c) : List Call → Type 0 where
    here : {s : List Call} → system s c ≡ r → Gave c r (c ∷ s)
    later : {d : Call} {s : List Call} → Gave c r s → Gave c r (d ∷ s)

  -- A value was read, and behind that its key was removed.
  pub data Taken (key : Key) (value : Bytes) : List Call → Type 0 where
    now :
        {count : ℕ} {s : List Call}
        → system s (xs_rm key) ≡ ok count
        → Gave (xs_read key) (ok value) s
        → Taken key value (xs_rm key ∷ s)
    before : {d : Call} {s : List Call} → Taken key value s → Taken key value (d ∷ s)

  -- What must be known before a loop device is detached: both keys were read and removed, the
  -- device's path is not the one that was asked for, and the open device is the one that they name.
  pub record Known (device : ℕ) (s : List Call) : Type 0 where
    pub minor : ℕ
    pub seq : ℕ
    pub physdev : Bytes
    pub physdev_taken : Taken physical_device physdev s
    pub numbers : parse_physical_device physdev ≡ some (loop_major, minor)
    pub diskseq_str : Bytes
    pub diskseq_taken : Taken diskseq diskseq_str s
    pub sequence : parse_diskseq diskseq_str ≡ some seq
    pub path : Bytes
    pub given : Bytes
    pub path_read : Gave (xs_read physical_device_path) (ok path) s
    pub given_read : Gave (xs_read params) (ok given) s
    pub created_here : same_bytes path given ≡ false
    pub device_opened : Gave (open_loop minor false) (ok device) s
    pub st : Status
    pub status_read : Gave (file_status device) (ok st) s
    pub same_major : st.major ≡ loop_major
    pub same_minor : st.minor ≡ minor
    pub seq_read : Gave (get_diskseq device) (ok seq) s

  -- The key has a value, and it was read.
  abbrev pub WasRead : Key → List Call → Type 0
  WasRead key s = (value : Bytes) × Gave (xs_read key) (ok value) s

  -- When a call may be made, by the calls before it; no other key may be removed.
  abbrev pub Allowed : Call → List Call → Type 0
  Allowed (xs_rm physical_device) s = WasRead physical_device s
  Allowed (xs_rm diskseq) s =
      WasRead diskseq s × (physdev : Bytes) × Taken physical_device physdev s
  Allowed (xs_rm key) s = ⊥
  Allowed (clear_loop device) s = Known device s
  Allowed c s = Unit

  abbrev pub Orderly : List Call → Type 0
  Orderly [] = Unit
  Orderly (c ∷ s) = Allowed c s × Orderly s

  -- What is known when the device is looked for.
  record Found (minor seq : ℕ) (s : List Call) : Type 0 where
    physdev : Bytes
    physdev_taken : Taken physical_device physdev s
    numbers : parse_physical_device physdev ≡ some (loop_major, minor)
    diskseq_str : Bytes
    diskseq_taken : Taken diskseq diskseq_str s
    sequence : parse_diskseq diskseq_str ≡ some seq

  abbrev pub Done : Unit {0} → List Call → Type 0
  Done a s = Unit {0}

  require-Ends : (b : Bool) (s : List Call) → Orderly s → Ends Orderly Done (require b s)
  require-Ends true s h = (h, tt)
  require-Ends false s h = h

  or_busy-Ends : (r : Result ℕ) (s : List Call) → Orderly s → Ends Orderly Done (or_busy r s)
  unfolding or_busy
  or_busy-Ends (ok n) s h = (h, tt)
  or_busy-Ends (failed errno) s h = require-Ends (errno == ebusy) s h

  -- The facts that `detach_loop` adds.
  known :
      (minor seq device : ℕ) (s : List Call)
      → Found minor seq s
      → (path given : Bytes) → Gave (xs_read physical_device_path) (ok path) s
      → Gave (xs_read params) (ok given) s
      → same_bytes path given ≡ false
      → (st : Status) → system (open_control ∷ s) (open_loop minor false) ≡ ok device
      → system (open_loop minor false ∷ (open_control ∷ s)) (file_status device) ≡ ok st
      → (st.major ≡ loop_major) × (st.minor ≡ minor)
      → system
          (file_status device ∷ (open_loop minor false ∷ (open_control ∷ s)))
          (get_diskseq device)
        ≡ ok seq
      → Known device
          (get_diskseq device ∷ (file_status device ∷ (open_loop minor false ∷ (open_control ∷ s))))
  known minor seq device s f path given p g differ st o status same q = record {
    minor = minor;
    seq = seq;
    physdev = f.physdev;
    physdev_taken = before (before (before (before f.physdev_taken)));
    numbers = f.numbers;
    diskseq_str = f.diskseq_str;
    diskseq_taken = before (before (before (before f.diskseq_taken)));
    sequence = f.sequence;
    path = path;
    given = given;
    path_read = later (later (later (later p)));
    given_read = later (later (later (later g)));
    created_here = differ;
    device_opened = later (later (here o));
    st = st;
    status_read = later (here status);
    same_major = same.0;
    same_minor = same.1;
    seq_read = here q;
  }

  Found-later :
      {minor seq : ℕ} {c : Call} {s : List Call} → Found minor seq s → Found minor seq (c ∷ s)
  Found-later f = record {
    physdev = f.physdev;
    physdev_taken = before f.physdev_taken;
    numbers = f.numbers;
    diskseq_str = f.diskseq_str;
    diskseq_taken = before f.diskseq_taken;
    sequence = f.sequence;
  }

  -- Behind the checks.
  clear_then :
      (control device : ℕ) (s : List Call)
      → Orderly (clear_loop device ∷ s)
      → Ends Orderly Done (
          (do
            cleared ← ask system (clear_loop device)
            or_busy cleared
            _ ← ask system (close_file device) >>= or_die
            _ ← ask system (close_file control) >>= or_die
            return {A = Unit {0}} tt)
            s)
  unfolding ask
  clear_then control device s h =
      let s₁ : List Call = clear_loop device ∷ s in
      Ends-after {A = Unit {0}} Orderly Done Done (or_busy (system s (clear_loop device)) s₁) _
        (or_busy-Ends (system s (clear_loop device)) s₁ h)
        (λ a u hu du.
          Ends-or_die Orderly Done (system u (close_file device)) (close_file device ∷ u) _ (tt, hu)
            (λ n e.
              Ends-or_die Orderly Done (system (close_file device ∷ u) (close_file control))
                (close_file control ∷ (close_file device ∷ u)) _ (tt, (tt, hu))
                (λ m f. ((tt, (tt, hu)), tt))))

  detach_loop-Orderly :
      (minor seq : ℕ) (s : List Call)
      → Orderly s
      → Found minor seq s
      → (path given : Bytes) → Gave (xs_read physical_device_path) (ok path) s
      → Gave (xs_read params) (ok given) s
      → same_bytes path given ≡ false
      → Ends Orderly Done (detach_loop system loop_major minor seq s)
  unfolding detach_loop ask
  detach_loop-Orderly minor seq s h found path given p g differ =
      let s₁ : List Call = open_control ∷ s in
      let s₂ : List Call = open_loop minor false ∷ s₁ in
      let h₁ : Orderly s₁ = (tt, h) in
      let h₂ : Orderly s₂ = (tt, h₁) in
      Ends-or_die Orderly Done (system s open_control) s₁ _ h₁ (λ control e.
        Ends-or_die Orderly Done (system s₁ (open_loop minor false)) s₂ _ h₂ (λ device o.
          let s₃ : List Call = file_status device ∷ s₂ in
          let s₄ : List Call = get_diskseq device ∷ s₃ in
          let h₃ : Orderly s₃ = (tt, h₂) in
          let h₄ : Orderly s₄ = (tt, h₃) in
          Ends-or_die Orderly Done (system s₂ (file_status device)) s₃ _ h₃ (λ st status.
            Ends-require Orderly Done (st.major == loop_major && st.minor == minor) s₃ _ h₃ (λ same.
              Ends-or_die Orderly Done (system s₃ (get_diskseq device)) s₄ _ h₄ (λ actual q.
                Ends-require Orderly Done (seq == actual) s₄ _ h₄ (λ eq.
                  let k =
                    known minor seq device s found path given p g differ st o status
                      (ground (arith, same), ground (arith, same))
                      (q ∙ ap ok (sym ((==_iff seq actual).0 eq))) in
                  clear_then control device s₄ (k, h₄)))))))

  remove_loop-Orderly :
      (minor seq : ℕ) (s : List Call)
      → Orderly s
      → Found minor seq s
      → Ends Orderly Done (remove_loop system loop_major minor seq s)
  unfolding remove_loop ask
  remove_loop-Orderly minor seq s h f =
      let s₁ : List Call = xs_read physical_device_path ∷ s in
      let s₂ : List Call = xs_read params ∷ s₁ in
      let h₂ : Orderly s₂ = (tt, (tt, h)) in
      Ends-or_die Orderly Done (system s (xs_read physical_device_path)) s₁ _ (tt, h)
        (λ path p. Ends-or_die Orderly Done (system s₁ (xs_read params)) s₂ _ h₂ (λ given g.
          Ends-if Orderly Done (same_bytes path given) (return tt) _ s₂ (λ e. (h₂, tt))
            (λ e.
              detach_loop-Orderly minor seq s₂ h₂ (Found-later (Found-later f)) path given
                (later (here p)) (here g) e)))

  -- A key has been read and removed, and nothing else was done.
  abbrev Takes : Key → List Call → Bytes → List Call → Type 0
  Takes key s value t = (t ≡ xs_rm key ∷ (xs_read key ∷ s)) × Taken key value t

  take_value-Orderly :
      (key : Key) (s : List Call)
      → Orderly s
      → ((value : Bytes)
          → system s (xs_read key) ≡ ok value
          → Allowed (xs_rm key) (xs_read key ∷ s))
      → Ends Orderly (Takes key s) (take_value system key s)
  unfolding take_value ask
  take_value-Orderly key s h k =
      let s₁ : List Call = xs_read key ∷ s in
      Ends-or_die Orderly (Takes key s) (system s (xs_read key)) s₁ _ (tt, h)
        (λ value e.
          Ends-or_die Orderly (Takes key s) (system s₁ (xs_rm key)) (xs_rm key ∷ s₁) _
            (k value e, (tt, h)) (λ n f. ((k value e, (tt, h)), (refl, now f (here e)))))

  -- Behind the two values.
  chosen-Orderly :
      (major minor seq : ℕ) (s : List Call)
      → Orderly s
      → (major ≡ loop_major → Found minor seq s)
      → Ends Orderly Done
          ((if not (major == loop_major) then return tt else remove_loop system major minor seq) s)
  chosen-Orderly major minor seq s h f = elim (Bool-cases (major == loop_major)) [
    | inl e ↦
        let same = (==_iff major loop_major).0 e in
        rw same (remove_loop-Orderly minor seq s h (f same))
    | inr e ↦ rw e (h, tt)
  ]

  -- In a run of `remove_device`, however it ends: physical-device and diskseq alone are removed, each
  -- after a read that gave its value, and diskseq only after physical-device was removed; and a loop device is detached only after both were removed, where the two
  -- values are well formed, the device has the major and minor number of the first and the sequence
  -- number of the second, and its path is not the one that was asked for.
  pub remove_device-Orderly : Ends Orderly Done (remove_device system [])
  unfolding remove_device
  remove_device-Orderly =
      Ends-after Orderly Done (Takes physical_device []) (take_value system physical_device []) _
        (take_value-Orderly physical_device [] tt (λ value e. (value, here e)))
        (λ physdev t ht (e, taken).
          Ends-or_bad Orderly Done (parse_physical_device physdev) t _ ht (λ (major, minor) numbers.
            Ends-after Orderly Done (Takes diskseq t) (take_value system diskseq t) _
              (take_value-Orderly diskseq t ht
                (λ value f. ((value, here f), physdev, before taken)))
              (λ diskseq_str u hu (k, second).
                Ends-or_bad Orderly Done (parse_diskseq diskseq_str) u _ hu (λ seq sequence.
                  chosen-Orderly major minor seq u hu (λ same. record {
                    physdev = physdev;
                    physdev_taken =
                        subst (λ v. Taken physical_device physdev v) (sym k)
                          (before (before taken));
                    numbers = numbers ∙ ap (λ (m : ℕ). some (m, minor)) same;
                    diskseq_str = diskseq_str;
                    diskseq_taken = second;
                    sequence = sequence;
                  })))))
