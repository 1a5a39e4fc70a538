-- ===== src/NotScript/Add/Published.antt =====
-- What "add" of not-script/not-script.c leaves in XenStore for the device that it has opened.
use qubes_linux_utils.Prelude.{
  ℕ, zero, suc, ◌^◌, ◌<◌, ◌≡◌, refl, Bool, true, false, not, ◌&&◌, some, List, [], ◌∷◌, Bytes,
  length, ltb, ◌==◌,
}
use qubes_linux_utils.NotScript.Hex.{
  parse_diskseq, parse_physical_device, print_hex, print_physical_device,
}
use qubes_linux_utils.NotScript.Hex.RoundTrip.{parse_diskseq-print_hex, parse_physical_device-print}
use qubes_linux_utils.NotScript.Process.{
  physical_device, physical_device_path, diskseq, opened, Call, xs_read, xs_write,
  transaction_start, transaction_end, xs_read_watch, Status, Result, ok, failed, Reply, M, return,
  Outcome, done, dies, aborts, out_of_fuel,
}
use qubes_linux_utils.NotScript.Device.{eagain, ask, same_bytes}
use qubes_linux_utils.NotScript.Add.{
  device_path, after_transaction, after_opened, write_values, publish, wait_opened, when,
  watch_opened, announce,
}
use qubes_linux_utils.NotScript.Rules.{
  Ends, Ends-after, Ends-or_die, Ends-require, Ends-if, Ends-weaken,
}

-- Any calls.
abbrev pub Anything : List Call → Type 0
Anything s = Unit {0}

-- One history goes on from another.
pub data Extends : List Call → List Call → Type 0 where
  same : {s : List Call} → Extends s s
  more : {s t : List Call} {c : Call} → Extends s t → Extends s (c ∷ t)

anywhere : {A : Type 0} (o : Outcome A) → Ends Anything (λ a s. Unit {0}) o
anywhere (done a s) = (tt, tt)
anywhere (dies s) = tt
anywhere (aborts s) = tt
anywhere (out_of_fuel s) = tt

module _ (system : List Call → (c : Call) → Reply c) where
  -- The three writes of a transaction, in order.
  abbrev pub written : Bytes → Bytes → Bytes → List Call → List Call
  written phys_dev path seq s =
      xs_write diskseq seq
      ∷ (xs_write physical_device_path path
          ∷ (xs_write physical_device phys_dev ∷ (transaction_start ∷ s)))

  -- A transaction with these values, that XenStore has accepted.
  pub record Committed (phys_dev path seq : Bytes) (s : List Call) : Type 0 where
    pub before : List Call
    pub count : ℕ
    pub calls : s ≡ transaction_end ∷ written phys_dev path seq before
    pub accepted : system (written phys_dev path seq before) transaction_end ≡ ok count

  write_values-Ends :
      (phys_dev path seq : Bytes) (s : List Call)
      → Ends Anything
          (λ (a : Unit {0}) t. t ≡ written phys_dev path seq s)
          (write_values system phys_dev path seq (transaction_start ∷ s))
  unfolding write_values ask
  write_values-Ends phys_dev path seq s =
      let Q = λ (a : Unit {0}) (t : List Call). t ≡ written phys_dev path seq s in
      Ends-or_die Anything Q (system _ (xs_write physical_device phys_dev)) _ _ tt (λ n e.
        Ends-or_die Anything Q (system _ (xs_write physical_device_path path)) _ _ tt (λ m f.
          Ends-or_die Anything Q (system _ (xs_write diskseq seq)) _ _ tt (λ k g. (tt, refl))))

  after_transaction-Ends :
      (phys_dev path seq : Bytes) (s : List Call) (r : Result ℕ) (again : M (Unit {0}))
      → system (written phys_dev path seq s) transaction_end ≡ r
      → ((t : List Call) → Ends Anything (λ a u. Committed phys_dev path seq u) (again t))
      → Ends Anything
          (λ a u. Committed phys_dev path seq u)
          (after_transaction r again (transaction_end ∷ written phys_dev path seq s))
  unfolding after_transaction
  after_transaction-Ends phys_dev path seq s (ok n) again e ih =
      (tt, record { before = s; count = n; calls = refl; accepted = e })
  after_transaction-Ends phys_dev path seq s (failed errno) again e ih =
      Ends-if Anything (λ a u. Committed phys_dev path seq u) (errno == eagain) again dies _
        (λ f. ih _) (λ f. tt)

  publish-Committed :
      (fuel : ℕ) (phys_dev path seq : Bytes) (s : List Call)
      → Ends Anything
          (λ a u. Committed phys_dev path seq u)
          (publish system fuel phys_dev path seq s)
  unfolding publish ask
  publish-Committed zero phys_dev path seq s = tt
  publish-Committed (suc fuel) phys_dev path seq s =
      let Q = λ (a : Unit {0}) (u : List Call). Committed phys_dev path seq u in
      Ends-or_die Anything Q (system s transaction_start) (transaction_start ∷ s) _ tt (λ n e.
        Ends-after Anything Q (λ (a : Unit {0}) t. t ≡ written phys_dev path seq s)
          (write_values system phys_dev path seq (transaction_start ∷ s)) _
          (write_values-Ends phys_dev path seq s)
          (λ a t i same_calls. rw same_calls (
            after_transaction-Ends phys_dev path seq s _ (publish system fuel phys_dev path seq)
              refl (publish-Committed fuel phys_dev path seq))))

  -- The last call has read the value "1" of the key "opened".
  pub record SaidOpened (s : List Call) : Type 0 where
    pub before : List Call
    pub value : Bytes
    pub calls : s ≡ xs_read opened ∷ (xs_read_watch ∷ before)
    pub got : system (xs_read_watch ∷ before) (xs_read opened) ≡ ok value
    pub one : same_bytes value (b'1' ∷ []) ≡ true

  -- The wait has ended, behind the calls of `s`.
  abbrev Waited : List Call → Unit {0} → List Call → Type 0
  Waited s a t = Extends s t × SaidOpened t

  Extends-trans : (s t u : List Call) → Extends s t → Extends t u → Extends s u
  Extends-trans s t u h same = h
  Extends-trans s t (c ∷ u) h (more k) = more (Extends-trans s t u h k)

  wait_opened-Waited :
      (fuel : ℕ) (s : List Call) → Ends Anything (Waited s) (wait_opened system fuel s)
  unfolding wait_opened after_opened ask
  wait_opened-Waited zero s = tt
  wait_opened-Waited (suc fuel) s =
      let s₁ : List Call = xs_read_watch ∷ s in
      let s₂ : List Call = xs_read opened ∷ s₁ in
      Ends-or_die Anything (Waited s) (system s xs_read_watch) s₁ _ tt (λ n e.
        Ends-or_die Anything (Waited s) (system s₁ (xs_read opened)) s₂ _ tt (λ value f.
          Ends-if Anything (Waited s) (same_bytes value (b'1' ∷ [])) (return tt) _ s₂
            (λ g. (
              tt,
              (
                more (more same),
                record { before = s; value = value; calls = refl; got = f; one = g },
              ),
            ))
            (λ g.
              Ends-if Anything (Waited s) (same_bytes value (b'0' ∷ [])) (wait_opened system fuel)
                dies s₂
                (λ k.
                  Ends-weaken Anything (Waited s) (Waited s₂) _ (wait_opened-Waited fuel s₂)
                    (λ a t w. (Extends-trans s s₂ t (more (more same)) w.0, w.1)))
                (λ k. tt))))

  -- The three values stand in XenStore, by one transaction; and with `autoclear` the device was seen
  -- to be opened since.
  pub record Announced (phys_dev path seq : Bytes) (autoclear : Bool) (s : List Call) : Type 0 where
    pub committed_at : List Call
    pub committed : Committed phys_dev path seq committed_at
    pub since : Extends committed_at s
    pub seen : autoclear ≡ true → SaidOpened s

  when_wait-Announced :
      (fuel : ℕ) (phys_dev path seq : Bytes) (autoclear : Bool) (s : List Call)
      → Committed phys_dev path seq s
      → Ends Anything
          (λ a t. Announced phys_dev path seq autoclear t)
          (when system autoclear (wait_opened system fuel) s)
  unfolding when
  when_wait-Announced fuel phys_dev path seq false s c =
      (tt, record { committed_at = s; committed = c; since = same; seen = λ e. cc })
  when_wait-Announced fuel phys_dev path seq true s c =
      Ends-weaken Anything (λ a t. Announced phys_dev path seq true t) (Waited s) _
        (wait_opened-Waited fuel s)
        (λ a t w. record { committed_at = s; committed = c; since = w.0; seen = λ e. w.1 })

  -- Where "add" returns, for a device number of 32-bit parts and a 64-bit sequence number: one accepted
  -- transaction has written, in this order, physical-device, physical-device-path and diskseq, the
  -- first and the last with values that the removal reads back as that number and that sequence
  -- number; and with `autoclear` the last call has read "1" from the key "opened" since.
  pub announce-Announced :
      (fuel : ℕ) (autoclear : Bool) (path : Bytes) (st : Status) (seq : ℕ) (s : List Call)
      → st.major < 2 ^ 32
      → st.minor < 2 ^ 32
      → seq < 2 ^ 64
      → Ends Anything
          (λ a t.
            (phys_dev : Bytes) × (hex_diskseq : Bytes) × (parse_physical_device phys_dev
              ≡ some (st.major, st.minor))
            × (parse_diskseq hex_diskseq ≡ some seq)
            × Announced phys_dev (device_path path st) hex_diskseq autoclear t)
          (announce system fuel autoclear path st seq s)
  unfolding announce
  announce-Announced fuel autoclear path st seq s h k l =
      let phys_dev = print_physical_device st.major st.minor in
      let hex_diskseq = print_hex seq in
      let Q = λ (a : Unit {0}) (t : List Call).
        (p : Bytes) × (q : Bytes) × (parse_physical_device p ≡ some (st.major, st.minor))
        × (parse_diskseq q ≡ some seq)
        × Announced p (device_path path st) q autoclear t in
      Ends-require Anything Q (not (ltb (length phys_dev) 3) && ltb (length phys_dev) 18) s _ tt
        (λ e.
          Ends-require Anything Q (not (ltb (length hex_diskseq) 1) && ltb (length hex_diskseq) 17)
            s _ tt
            (λ f.
              Ends-after Anything Q (λ (a : Unit {0}) t. Unit {0})
                (when system autoclear (watch_opened system) s) _ (anywhere _)
                (λ a t i j.
                  Ends-after Anything Q
                    (λ (a : Unit {0}) u. Committed phys_dev (device_path path st) hex_diskseq u)
                    (publish system fuel phys_dev (device_path path st) hex_diskseq t) _
                    (publish-Committed fuel phys_dev (device_path path st) hex_diskseq t)
                    (λ b u i' c.
                      Ends-weaken Anything Q
                        (λ a v. Announced phys_dev (device_path path st) hex_diskseq autoclear v) _
                        (when_wait-Announced fuel phys_dev (device_path path st) hex_diskseq
                          autoclear u c)
                        (λ a v w. (
                          phys_dev,
                          hex_diskseq,
                          parse_physical_device-print st.major st.minor h k,
                          parse_diskseq-print_hex seq l,
                          w,
                        ))))))
