-- ===== src/NotScript/Device/Bounds.antt =====
-- The rounds of `setup_loop` of not-script/not-script.c.
use qubes_linux_utils.Prelude.{
  ℕ, zero, suc, ◌+◌, ◌≤◌, ◌≡◌, refl, Bool, true, false, not, ◌||◌, if◌then◌else◌, List, [], ◌∷◌,
  arith,
}
use qubes_linux_utils.NotScript.Process.{
  Call, get_free, add_loop, open_lock, lock_file, open_loop, configure_loop, close_file, Result, ok,
  failed, Reply, Outcome, done, dies, aborts, out_of_fuel, M, ◌>>=◌, after, or_die,
}
use qubes_linux_utils.NotScript.Device.{
  may_reopen, may_reconfigure, or_abort, ask, after_configure, after_open, loop_round, loop_rounds,
  setup_loop,
}
use qubes_linux_utils.NotScript.Rules.{Ends, Ends-or_die, Ends-if, Ends-weaken}

-- How often a loop device was asked for.
unfoldable pub tries : List Call → ℕ
tries [] = 0
tries (get_free ctrl ∷ s) = suc (tries s)
tries (add_loop ctrl ∷ s) = suc (tries s)
tries (c ∷ s) = tries s

abbrev pub Below : ℕ → List Call → Type 0
Below bound s = tries s ≤ bound

module _ (system : List Call → (c : Call) → Reply c) (lock fd : ℕ) (writable autoclear : Bool) where
  -- The last calls have set up the device that is returned, and let go of the lock.
  abbrev pub Configured : ℕ → List Call → Type 0
  Configured device s =
      (t : List Call) × (s ≡ close_file lock ∷ (configure_loop device fd writable autoclear ∷ t))
      × (system t (configure_loop device fd writable autoclear) ≡ ok 0)

  module _ (bound count : ℕ) (next : M ℕ)
      (more : (t : List Call) → tries t ≡ count → Ends (Below bound) Configured (next t)) where
    or_abort-Ends :
        (r : Result ℕ) (s : List Call)
        → tries s ≡ count
        → count ≤ bound
        → Ends (Below bound) Configured (after (or_abort r s) (λ a. next))
    or_abort-Ends (ok n) s h k = more s h
    or_abort-Ends (failed errno) s h k = omega arith

    after_configure-Ends :
        (device : ℕ) (last : Bool) (t : List Call) (r : Result ℕ)
        → system t (configure_loop device fd writable autoclear) ≡ r
        → tries t ≡ count
        → count ≤ bound
        → Ends (Below bound) Configured (
            after_configure system lock device last r next
              (configure_loop device fd writable autoclear ∷ t))
    unfolding after_configure tries ask
    after_configure-Ends device last t (ok zero) e h k = (omega arith, (t, refl, e))
    after_configure-Ends device last t (ok (suc n)) e h k = omega arith
    after_configure-Ends device last t (failed errno) e h k =
        Ends-if (Below bound) Configured (not (may_reconfigure errno) || last) dies _ _
          (λ f. omega arith) (λ f. or_abort-Ends _ _ h k)

    after_open-Ends :
        (last : Bool) (t : List Call) (r : Result ℕ)
        → tries t ≡ count
        → count ≤ bound
        → Ends (Below bound) Configured (after_open system lock fd writable autoclear last r next t)
    unfolding after_open ask
    after_open-Ends last t (ok device) h k = after_configure-Ends device last t _ refl h k
    after_open-Ends last t (failed errno) h k =
        Ends-if (Below bound) Configured (not (may_reopen errno) || last) dies next t
          (λ f. omega arith) (λ f. more t h)

    -- The number of a loop device was asked for, and the rest of the round.
    numbered-Ends :
        (last : Bool) (r : Result ℕ) (t : List Call)
        → tries t ≡ count
        → count ≤ bound
        → Ends (Below bound) Configured (
            after (or_die r t) (λ number. (do
              device ← ask system (open_loop number writable)
              after_open system lock fd writable autoclear last device next)))
    unfolding ask tries
    numbered-Ends last r t h k =
        Ends-or_die (Below bound) Configured r t _ (omega arith)
          (λ number e. after_open-Ends last (open_loop number writable ∷ t) _ h k)

    loop_round-Ends :
        (ctrl : ℕ) (first last : Bool) (s : List Call)
        → tries s + 1 ≡ count
        → count ≤ bound
        → Ends
            (Below bound)
            Configured
            (loop_round system ctrl lock fd writable autoclear first last next s)
    unfolding loop_round ask tries
    loop_round-Ends ctrl true last s h k =
        numbered-Ends last (system s (get_free ctrl)) (get_free ctrl ∷ s) (omega arith) k
    loop_round-Ends ctrl false last s h k =
        numbered-Ends last (system s (add_loop ctrl)) (add_loop ctrl ∷ s) (omega arith) k

  loop_rounds-Ends :
      (left ctrl bound : ℕ) (first : Bool) (s : List Call)
      → tries s + suc left ≤ bound
      → Ends
          (Below bound)
          Configured
          (loop_rounds system left ctrl lock fd writable autoclear first s)
  unfolding loop_rounds
  loop_rounds-Ends zero ctrl bound first s h =
      loop_round-Ends bound (tries s + 1) dies (λ t e. omega arith) ctrl first true s refl
        (omega arith)
  loop_rounds-Ends (suc left) ctrl bound first s h =
      loop_round-Ends bound (tries s + 1)
        (loop_rounds system left ctrl lock fd writable autoclear false)
        (λ t e. loop_rounds-Ends left ctrl bound false t (omega arith)) ctrl first false s refl
        (omega arith)

-- Not stopped by the bound on the rounds of a model.
abbrev pub Settled : {A : Type 0} → Outcome A → Type 0
Settled (done a s) = Unit {0}
Settled (dies s) = Unit {0}
Settled (aborts s) = Unit {0}
Settled (out_of_fuel s) = ⊥

module _ (system : List Call → (c : Call) → Reply c) where
  Settled-or_die :
      {A B : Type 0} (r : Result A) (s : List Call) (f : A → M B)
      → ((a : A) → Settled (f a s))
      → Settled (after (or_die r s) f)
  Settled-or_die (ok a) s f k = k a
  Settled-or_die (failed errno) s f k = tt

  Settled-if :
      (b : Bool) (m k : M ℕ) (s : List Call)
      → Settled (m s)
      → Settled (k s)
      → Settled ((if b then m else k) s)
  Settled-if true m k s p q = p
  Settled-if false m k s p q = q

  module _ (lock fd : ℕ) (writable autoclear last : Bool) (next : M ℕ)
      (more : (t : List Call) → Settled (next t)) where
    Settled-or_abort : (r : Result ℕ) (s : List Call) → Settled (after (or_abort r s) (λ a. next))
    Settled-or_abort (ok n) s = more s
    Settled-or_abort (failed errno) s = tt

    after_configure-Settled :
        (device : ℕ) (r : Result ℕ) (t : List Call)
        → Settled (after_configure system lock device last r next t)
    unfolding after_configure ask
    after_configure-Settled device (ok zero) t = tt
    after_configure-Settled device (ok (suc n)) t = tt
    after_configure-Settled device (failed errno) t =
        Settled-if (not (may_reconfigure errno) || last) dies _ t tt (Settled-or_abort _ _)

    after_open-Settled :
        (r : Result ℕ) (t : List Call)
        → Settled (after_open system lock fd writable autoclear last r next t)
    unfolding after_open ask
    after_open-Settled (ok device) t =
        let call = configure_loop device fd writable autoclear in
        after_configure-Settled device (system t call) (call ∷ t)
    after_open-Settled (failed errno) t =
        Settled-if (not (may_reopen errno) || last) dies next t tt (more t)

    loop_round-Settled :
        (ctrl : ℕ) (first : Bool) (s : List Call)
        → Settled (loop_round system ctrl lock fd writable autoclear first last next s)
    unfolding loop_round ask
    loop_round-Settled ctrl true s =
        let t : List Call = get_free ctrl ∷ s in
        Settled-or_die (system s (get_free ctrl)) t _
          (λ n. after_open-Settled (system t (open_loop n writable)) (open_loop n writable ∷ t))
    loop_round-Settled ctrl false s =
        let t : List Call = add_loop ctrl ∷ s in
        Settled-or_die (system s (add_loop ctrl)) t _
          (λ n. after_open-Settled (system t (open_loop n writable)) (open_loop n writable ∷ t))

  loop_rounds-Settled :
      (left ctrl lock fd : ℕ) (writable autoclear first : Bool) (s : List Call)
      → Settled (loop_rounds system left ctrl lock fd writable autoclear first s)
  unfolding loop_rounds
  loop_rounds-Settled zero ctrl lock fd writable autoclear first s =
      loop_round-Settled lock fd writable autoclear true dies (λ t. tt) ctrl first s
  loop_rounds-Settled (suc left) ctrl lock fd writable autoclear first s =
      loop_round-Settled lock fd writable autoclear false
        (loop_rounds system left ctrl lock fd writable autoclear false)
        (loop_rounds-Settled left ctrl lock fd writable autoclear false) ctrl first s

  setup_loop-Settled :
      (ctrl fd : ℕ) (writable autoclear : Bool) (s : List Call)
      → Settled (setup_loop system ctrl fd writable autoclear s)
  unfolding setup_loop ask
  setup_loop-Settled ctrl fd writable autoclear s = Settled-or_die (system s open_lock) _ _ (λ lock.
      Settled-or_die (system (open_lock ∷ s) (lock_file lock)) _ _
        (λ n. loop_rounds-Settled 5 ctrl lock fd writable autoclear true _))

module _ (system : List Call → (c : Call) → Reply c) where
  -- `setup_loop` ends, whatever the kernel answers, with a device or with the end of the program, having
  -- asked for a loop device six times at most. Where it returns a device, it had opened the lock, and
  -- its last two calls were the configuration of this device for the file, with the access and the
  -- flag that were given, which gave 0, and the close of this lock.
  pub setup_loop-Configured :
      (ctrl fd : ℕ) (writable autoclear : Bool) (s : List Call)
      → Settled (setup_loop system ctrl fd writable autoclear s)
        × Ends
            (Below (tries s + 6))
            (λ device t.
              (lock : ℕ) × (system s open_lock ≡ ok lock)
              × Configured system lock fd writable autoclear device t)
            (setup_loop system ctrl fd writable autoclear s)
  unfolding setup_loop ask tries
  setup_loop-Configured ctrl fd writable autoclear s =
      let Q = λ (device : ℕ) (t : List Call).
        (lock : ℕ) × (system s open_lock ≡ ok lock)
        × Configured system lock fd writable autoclear device t in
      let s₁ : List Call = open_lock ∷ s in
      (
        setup_loop-Settled system ctrl fd writable autoclear s,
        Ends-or_die (Below (tries s + 6)) Q (system s open_lock) s₁ _ (omega arith) (λ lock e.
            let s₂ : List Call = lock_file lock ∷ s₁ in
            Ends-or_die (Below (tries s + 6)) Q (system s₁ (lock_file lock)) s₂ _ (omega arith)
              (λ n f.
                Ends-weaken (Below (tries s + 6)) Q (Configured system lock fd writable autoclear) _
                  (loop_rounds-Ends system lock fd writable autoclear 5 ctrl (tries s + 6) true s₂
                    (omega arith))
                  (λ device t c. (lock, e, c)))),
      )
