-- ===== src/Unpack/Walk.antt =====
-- `opendir_safe` of qrexec-lib/unpack.c: from the working directory to the one that holds the last
-- segment of a path, one O_NOFOLLOW `openat` for each segment before it.
use qubes_linux_utils.Prelude.{Bool, true, false, ◌&&◌, List, [], ◌∷◌, Bytes, ◌==◌, if◌then◌else◌}
use qubes_linux_utils.Pure.Path.Components.{split}
use qubes_linux_utils.Unpack.Process.{
  Dir, cwd, opened, Call, open_directory, Answer, M, ◌>>=◌, return, aborts, must,
}

-- `next - this_segment <= 2` and `memcmp` with ".." of that length: "", "." and "..".
unfoldable pub is_forbidden : Bytes → Bool
is_forbidden [] = true
is_forbidden (c ∷ []) = c == b'.'
is_forbidden (c ∷ d ∷ []) = c == b'.' && d == b'.'
is_forbidden (c ∷ d ∷ e ∷ cs) = false

module _ (kernel : List Call → Call → Answer) where
  -- The loop over the segments; the last is returned with the directory. `split` cuts at the slashes
  -- that `strchr` finds, and gives at least one segment.
  unfoldable pub open_segments : Dir → List Bytes → M (Dir × Bytes)
  open_segments dir [] = aborts
  open_segments dir (segment ∷ []) = return (dir, segment)
  open_segments dir (segment ∷ next ∷ rest) = if is_forbidden segment then aborts else (do
    fd ← must kernel (open_directory dir segment) segment
    open_segments (opened fd) (next ∷ rest))

  unfoldable pub opendir_safe : Bytes → M (Dir × Bytes)
  unfolding open_segments is_forbidden
  opendir_safe path = open_segments cwd (split path)
