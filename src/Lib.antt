-- ===== src/Lib.antt =====
-- Verification of the C code of qubes-linux-utils, the tools and libraries that the qubes of a Qubes
-- OS system share. The modelled parts, and what they do for each other:
--
-- * Pure (qrexec-lib/unicode.c, qube-name.c, unicode-allowlist-table.c, pure.h) validates what comes
--   from an untrusted qube. Pure.Utf8 is the decoder of one character, Pure.Allowlist the table of the
--   code points that are safe to show, Pure.Display the check and the sanitizer of a whole string,
--   Pure.Path is `validate_path`, Pure.Validate the validators of file names and symbolic links on top
--   of it, and Pure.QubeName the validator of qube names. A C string is the list of its bytes without
--   the NUL; `none` is a read beyond the NUL.
-- * Crc32 (qrexec-lib/crc32.c) is the checksum of a transfer, `Crc32_ComputeBuf`.
-- * IoAll (qrexec-lib/ioall.c) has `read_all`, `write_all` and, in IoAll.CopyAll, `copy_fd_all`, and
--   CopyFile (qrexec-lib/copy-file.c) `copy_file`. IoAll.Parts is about runs that fail as well. What
--   successive calls of `read` and `write` return is a list of events, in order.
-- * Unpack (qrexec-lib/unpack.c, libqubes-rpc-filecopy.h) is the receiver of a file transfer. It reads
--   headers and data through IoAll and CopyFile, sums them with Crc32, and lets Pure judge each name.
--   Unpack.Process has the static variables as a record, the system calls as data, and the exits;
--   Unpack.Walk is `opendir_safe`, Unpack.Entry the handlers of a file, a directory and a link, and
--   Unpack.Transfer the loop `do_unpack_ext`. Unpack.Rounds describes the loop without a
--   bound on its rounds, and Unpack.Status is what `send_status_and_crc` writes to the sender behind
--   it. The kernel is a parameter, any function of the calls made so far.
-- * Pack (qrexec-lib/pack.c) is the sender, on the other end of the same stream. Pack.Process has its
--   static variables and exits, Pack.Result the receiver's answer, `wait_for_result`, and Pack.Send the
--   headers, the walk over files and the end of a transfer. What the system calls on a path give is a
--   tree. Pack.Frame says, without the code, what a stream of entries is, and Pack.Sums follows what the
--   steps write beside the checksum that they keep.
-- * Gpt (gptfixer/gpt.c) converts a partition table to another sector size. Gpt.Disk has the packed
--   structures, Gpt.Sector the arithmetic with its wrap-around, Gpt.Header, Gpt.Mbr and Gpt.Reader the
--   checks, Gpt.Adjust `gpt_adjust_sectors`, Gpt.Writer the writes of `create_new_gpt`, and Gpt.Main the
--   decisions of `main`. zlib's `crc32` and the disk's `pread` are parameters.
-- * NotScript (not-script/not-script.c) attaches a block device or a file to a qube, through XenStore.
--   NotScript.Hex reads and prints the numbers in XenStore's values, NotScript.Process has the calls of
--   XenStore and of the kernel as data and their answers as a parameter, NotScript.Device is
--   `setup_loop` and `process_blk_dev`, NotScript.Add and NotScript.Remove are the two actions.
-- * Meminfo (qmemman/meminfo-writer.c) is the consistent reading of /proc/meminfo and the domain's size,
--   the decision of `parse` what to report, and its effect on XenStore.
-- * Prelude has the names, tests, integers, bit laws and list lemmas that the parts share, and Tests
--   runs on concrete inputs.
--
-- Bounds and fuel: every loop is structural recursion on its input, but for `unpack_loop`, `publish` and
-- `wait_opened`, which take the number of their rounds as fuel and say so where that ends
-- (`out_of_fuel`). A round of `unpack_loop` uses at least one call of `read`, so that more fuel
-- than calls is enough; the other two go on as long as XenStore asks for it. `setup_loop` is bounded by
-- its own retry limit.
-- Numbers that the source keeps in 32 or 64 bits wrap around where it does not rule that out.
--
-- Not modelled: the polling of `wait_for_space`, the loop over the lines of /proc/meminfo,
-- the command lines, the kernel module, the generator of the allowlist and the test
-- programs; allocations that fail, log messages, and the closing of descriptors but for not-script's.
pub mod Prelude
pub mod Pure
pub mod Crc32
pub mod IoAll
pub mod CopyFile
pub mod Unpack
pub mod Pack
pub mod NotScript
pub mod Meminfo
pub mod Gpt
pub mod Tests
