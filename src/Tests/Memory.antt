-- ===== src/Tests/Memory.antt =====
-- Runs of qmemman/meminfo-writer.c.
use qubes_linux_utils.Prelude.{◌≡◌, refl, some, List, [], ◌∷◌}
use qubes_linux_utils.IoAll.{Read, got}
use qubes_linux_utils.Unpack.Process.{c_string}
use qubes_linux_utils.Meminfo.{
  stable, read_stable, Numbers, used_mem, used_swap, update, updates, initial,
}
use qubes_linux_utils.Meminfo.Steady.{Between, read_stable-Between}
use qubes_linux_utils.Meminfo.Reports.{Near, updates-Near}

-- The size changes from "5" to "6" while the memory is read for the first time.
abbrev changing : List Read
changing =
    got (b'5' ∷ []) ∷ got (b'a' ∷ []) ∷ got (b'6' ∷ []) ∷ got (b'b' ∷ []) ∷ got (b'6' ∷ []) ∷ []

changing_read : read_stable changing ≡ stable (b'b' ∷ []) (b'6' ∷ []) []
unfolding read_stable
changing_read = refl

read_stable-Between_example :
    Between
      (c_string (b'5' ∷ []))
      (b'b' ∷ [])
      (b'6' ∷ [])
      (got (b'a' ∷ []) ∷ got (b'6' ∷ []) ∷ got (b'b' ∷ []) ∷ got (b'6' ∷ []) ∷ [])
      []
read_stable-Between_example =
    read_stable-Between (b'5' ∷ []) (b'b' ∷ []) (b'6' ∷ [])
      (got (b'a' ∷ []) ∷ got (b'6' ∷ []) ∷ got (b'b' ∷ []) ∷ got (b'6' ∷ []) ∷ []) [] changing_read

abbrev busy : Numbers
busy = record {
  mem_total = 1000;
  mem_free = 300;
  buffers = 50;
  cached = 150;
  swap_total = 100;
  swap_free = 90;
}

abbrev idle : Numbers
idle = record {
  mem_total = 1000;
  mem_free = 310;
  buffers = 50;
  cached = 150;
  swap_total = 100;
  swap_free = 95;
}

busy_used : used_mem 0 busy ≡ some 510
unfolding used_mem
busy_used = refl

idle_used : used_mem 0 idle ≡ some 495
unfolding used_mem
idle_used = refl

idle_swap : used_swap idle ≡ some 5
unfolding used_swap
idle_swap = refl

-- A change by less than the threshold of 20: the value for memory stays, that for swap does not.
small_change :
    (updates 20 ((0, busy) ∷ (0, idle) ∷ []) initial).1
    ≡ record { meminfo = some 510; swapinfo = some 5 }
unfolding updates
small_change = refl

updates-Near_example :
    Near 20 495 (update 20 (0, idle) (updates 20 ((0, busy) ∷ []) initial)).1.meminfo
    × ((update 20 (0, idle) (updates 20 ((0, busy) ∷ []) initial)).1.swapinfo ≡ some 5)
updates-Near_example = updates-Near 20 ((0, busy) ∷ []) 0 idle 495 5 idle_used idle_swap
