-- ===== src/Tests/BlockDevice.antt =====
-- Runs of not-script/not-script.c.
use qubes_linux_utils.Prelude.{
  ℕ, ◌≡◌, refl, ◌+◌, true, false, none, some, List, [], ◌∷◌, Bytes, arith,
}
use qubes_linux_utils.NotScript.Hex.{
  parse_diskseq, parse_physical_device, print_hex, print_physical_device,
}
use qubes_linux_utils.NotScript.Hex.RoundTrip.{parse_diskseq-print_hex, parse_physical_device-print}
use qubes_linux_utils.NotScript.Process.{
  Key, physical_device, physical_device_path, diskseq, opened, params, mode, Call, xs_read, xs_rm,
  xs_watch, xs_write, transaction_start, transaction_end, xs_read_watch, open_lock, lock_file,
  open_control, get_free, add_loop, open_loop, configure_loop, clear_loop, open_path, open_dm_name,
  read_bytes, file_status, get_diskseq, close_file, replace_file, Status, ok, Reply, Outcome, done,
  dies, aborts, out_of_fuel,
}
use qubes_linux_utils.NotScript.Device.{setup_loop}
use qubes_linux_utils.NotScript.Device.Bounds.{
  Settled, tries, Below, Configured, setup_loop-Configured,
}
use qubes_linux_utils.NotScript.Remove.{remove_device}
use qubes_linux_utils.NotScript.Remove.Order.{Orderly, Done, remove_device-Orderly}
use qubes_linux_utils.NotScript.Add.{device_path, announce}
use qubes_linux_utils.NotScript.Add.Published.{Anything, Announced, announce-Announced}
use qubes_linux_utils.NotScript.Rules.{Ends}

abbrev value_of : Key → Bytes
value_of physical_device = b'7' ∷ b':' ∷ b'1' ∷ b'0' ∷ []
value_of physical_device_path = b'/' ∷ b'd' ∷ []
value_of diskseq = b'1' ∷ b'a' ∷ []
value_of opened = b'1' ∷ []
value_of params = b'/' ∷ b'f' ∷ []
value_of mode = b'w' ∷ []

abbrev loop_16 : Status
loop_16 = record { st_mode = 0o060660; major = 7; minor = 16 }

-- Every call succeeds, and the device is number 7:16 with the sequence number 26.
abbrev willing : List Call → (c : Call) → Reply c
willing s (xs_read key) = ok (value_of key)
willing s (xs_rm key) = ok 0
willing s (xs_watch key) = ok 0
willing s (xs_write key value) = ok 0
willing s transaction_start = ok 1
willing s transaction_end = ok 0
willing s xs_read_watch = ok 0
willing s open_lock = ok 3
willing s (lock_file fd) = ok 0
willing s open_control = ok 4
willing s (get_free ctrl) = ok 16
willing s (add_loop ctrl) = ok 17
willing s (open_loop number writable) = ok 5
willing s (configure_loop device fd writable autoclear) = ok 0
willing s (clear_loop device) = ok 0
willing s (open_path path writable) = ok 6
willing s (open_dm_name major minor) = ok 7
willing s (read_bytes fd size) = ok []
willing s (file_status fd) = ok loop_16
willing s (get_diskseq fd) = ok 26
willing s (close_file fd) = ok 0
willing s (replace_file a b) = ok b

abbrev calls_of : {A : Type 0} → Outcome A → List Call
calls_of (done a s) = s
calls_of (dies s) = s
calls_of (aborts s) = s
calls_of (out_of_fuel s) = s

printed : print_physical_device 7 16 ≡ b'7' ∷ b':' ∷ b'1' ∷ b'0' ∷ []
unfolding print_physical_device
printed = refl

leading_zero : parse_physical_device (b'0' ∷ b'7' ∷ b':' ∷ b'1' ∷ []) ≡ none
unfolding parse_physical_device
leading_zero = refl

parse_physical_device-print_example :
    parse_physical_device (print_physical_device 7 16) ≡ some (7, 16)
parse_physical_device-print_example = parse_physical_device-print 7 16 (omega arith) (omega arith)

parse_diskseq-print_hex_example : parse_diskseq (print_hex 26) ≡ some 26
parse_diskseq-print_hex_example = parse_diskseq-print_hex 26 (omega arith)

removed :
    remove_device willing []
    ≡ done tt (
        close_file 4
        ∷ (close_file 5
            ∷ (clear_loop 5
                ∷ (get_diskseq 5
                    ∷ (file_status 5
                        ∷ (open_loop 16 false
                            ∷ (open_control
                                ∷ (xs_read params
                                    ∷ (xs_read physical_device_path
                                        ∷ (xs_rm diskseq
                                            ∷ (xs_read diskseq
                                                ∷ (xs_rm physical_device
                                                    ∷ (xs_read physical_device ∷ [])))))))))))))
unfolding remove_device parse_physical_device parse_diskseq
removed = refl

remove_device-Orderly_example : Ends (Orderly willing) (Done willing) (remove_device willing [])
remove_device-Orderly_example = remove_device-Orderly willing

setup_loop-Configured_example :
    Settled (setup_loop willing 4 6 true false [])
    × Ends
        (Below (tries [] + 6))
        (λ device t.
          (lock : ℕ) × (willing [] open_lock ≡ ok lock)
          × Configured willing lock 6 true false device t)
        (setup_loop willing 4 6 true false [])
setup_loop-Configured_example = setup_loop-Configured willing 4 6 true false []

announce-Announced_example :
    Ends Anything
      (λ a t.
        (phys_dev : Bytes) × (hex_diskseq : Bytes) × (parse_physical_device phys_dev
          ≡ some (loop_16.major, loop_16.minor))
        × (parse_diskseq hex_diskseq ≡ some 26)
        × Announced willing phys_dev (device_path (b'/' ∷ b'f' ∷ []) loop_16) hex_diskseq true t)
      (announce willing 2 true (b'/' ∷ b'f' ∷ []) loop_16 26 [])
announce-Announced_example =
    announce-Announced willing 2 true (b'/' ∷ b'f' ∷ []) loop_16 26 [] (omega arith) (omega arith)
      (omega arith)
