-- ===== src/Meminfo/Reports.antt =====
-- What qmemman/meminfo-writer.c reports, over any number of rounds.
use qubes_linux_utils.Prelude.{
  ℕ, ◌≤◌, ◌≡◌, refl, sym, inl, inr, Bool-cases, Option, none, some, List, [], ◌∷◌, arith,
}
use qubes_linux_utils.Meminfo.{
  Numbers, State, Store, distance, total_for, used_mem, used_swap, mem_changed, report_mem,
  report_swap, swap_changed, kept, or_old, parse_numbers, send_to_qmemman, update, updates, initial,
}

-- What is remembered is what stands in XenStore, 0 for nothing; and no swap is remembered.
pub record Agrees (s : State) (store : Store) : Type 0 where
  pub mem : kept store.meminfo 0 ≡ s.prev_used_mem
  pub swap : s.prev_used_swap ≡ 0

kept-or_old : (a b : Option ℕ) (p : ℕ) → kept b 0 ≡ p → kept (or_old a b) 0 ≡ kept a p
kept-or_old none b p h = h
kept-or_old (some u) b p h = refl

update-Agrees :
    (threshold : ℕ) (reading : ℕ × Numbers) (s : State) (store : Store)
    → Agrees s store
    → Agrees (update threshold reading (s, store)).0 (update threshold reading (s, store)).1
unfolding update parse_numbers send_to_qmemman
update-Agrees threshold (dom_total, n) s store h = record {
  mem =
      kept-or_old (parse_numbers threshold dom_total n s).0.mem store.meminfo s.prev_used_mem h.mem;
  swap = h.swap;
}

updates-Agrees :
    (threshold : ℕ) (readings : List (ℕ × Numbers)) (s : State) (store : Store)
    → Agrees s store
    → Agrees (updates threshold readings (s, store)).0 (updates threshold readings (s, store)).1
unfolding updates
updates-Agrees threshold [] s store h = h
updates-Agrees threshold (r ∷ rs) s store h =
    updates-Agrees threshold rs _ _ (update-Agrees threshold r s store h)

-- A value is there, as near as the threshold.
abbrev pub Near : ℕ → ℕ → Option ℕ → Type 0
Near threshold used store = (value : ℕ) × (store ≡ some value) × (distance used value ≤ threshold)

-- One decision: what then stands in XenStore is as near as the threshold,
-- also where nothing was written yet.
report_mem-Near :
    (threshold prev total used : ℕ) (old : Option ℕ)
    → kept old 0 ≡ prev
    → Near threshold used (or_old (report_mem threshold prev total (some used)) old)
unfolding report_mem mem_changed
report_mem-Near threshold prev total used none h = (used, rw (sym h) (ground arith), ground arith)
report_mem-Near threshold prev total used (some value) h =
    elim (Bool-cases (mem_changed threshold value total used)) [
      | inl e ↦ (used, rw (sym h) (ground arith), ground arith)
      | inr e ↦ (value, rw (sym h) (ground arith), ground arith)
    ]

-- Without a remembered value, every swap is reported.
report_swap-always : (threshold used : ℕ) → report_swap threshold 0 (some used) ≡ some used
unfolding report_swap swap_changed
report_swap-always threshold used = ground arith

last_update :
    (threshold dom_total : ℕ) (n : Numbers) (s : State) (store : Store) (used swap : ℕ)
    → Agrees s store
    → used_mem dom_total n ≡ some used
    → used_swap n ≡ some swap
    → Near threshold used (update threshold (dom_total, n) (s, store)).1.meminfo
      × ((update threshold (dom_total, n) (s, store)).1.swapinfo ≡ some swap)
unfolding update parse_numbers send_to_qmemman
last_update threshold dom_total n s store used swap h e f =
    let near =
      report_mem-Near threshold s.prev_used_mem (total_for dom_total n) used store.meminfo h.mem in
    (rw e near, rw (f, h.swap, report_swap-always threshold swap) refl)

-- After any number of rounds from the start and one more, in which the used memory and swap are not
-- negative: XenStore has a value for memory, which differs from the used memory by the threshold at most,
-- and the value for swap is the used swap itself, however little it has changed.
pub updates-Near :
    (threshold : ℕ) (readings : List (ℕ × Numbers)) (dom_total : ℕ) (n : Numbers) (used swap : ℕ)
    → used_mem dom_total n ≡ some used
    → used_swap n ≡ some swap
    → Near threshold used
        (update threshold (dom_total, n) (updates threshold readings initial)).1.meminfo
      × ((update threshold (dom_total, n) (updates threshold readings initial)).1.swapinfo
          ≡ some swap)
updates-Near threshold readings dom_total n used swap e f =
    last_update threshold dom_total n _ _ used swap
      (updates-Agrees threshold readings initial.0 initial.1 (record { mem = refl; swap = refl })) e
      f
