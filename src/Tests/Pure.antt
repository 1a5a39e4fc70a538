-- ===== src/Tests/Pure.antt =====
-- Runs of the validators of qrexec-lib/unicode.c and qrexec-lib/qube-name.c.
use qubes_linux_utils.Prelude.{◌<◌, ◌≡◌, refl, ◌↔◌, true, false, some, [], ◌∷◌, Bytes, All, arith}
use qubes_linux_utils.Prelude.Int.{ℤ, pos, neg}
use qubes_linux_utils.Pure.Utf8.{code_point_safe_for_display, validate_utf8_char_safe_for_display}
use qubes_linux_utils.Pure.Utf8.Table.{IsDisplayable, safe_for_display-IsDisplayable}
use qubes_linux_utils.Pure.Utf8.Laws.{StartsSafe, safe_for_display_iff, Steps, Steps-exists}
use qubes_linux_utils.Pure.Path.{has_flag, allow_non_canonical_paths, validate_path}
use qubes_linux_utils.Pure.Path.Components.{split, Counts}
use qubes_linux_utils.Pure.Path.Safety.{validate_path-total}
use qubes_linux_utils.Pure.Path.Sound.{validate_path-Counts}
use qubes_linux_utils.Pure.Path.Trailing.{IsSegment, validate_path-IsSegment}
use qubes_linux_utils.Pure.Validate.{
  validate_file_name, validate_file_name_v2, validate_symbolic_link_v2,
}
use qubes_linux_utils.Pure.Validate.Laws.{
  IsSafeName, IsContained, validate_file_name_v2-IsSafeName, validate_symbolic_link_v2-IsContained,
}
use qubes_linux_utils.Pure.QubeName.{is_valid_qube_name, ok, reserved}
use qubes_linux_utils.Pure.QubeName.Laws.{IsQubeName, is_valid_qube_name_iff}

-- "a/b", "../c", "../../c", "é", "work-vm", "sys-dm"
abbrev file_a_b : Bytes
file_a_b = b'a' ∷ b'/' ∷ b'b' ∷ []

abbrev file_a_b_c : Bytes
file_a_b_c = b'a' ∷ b'/' ∷ b'b' ∷ b'/' ∷ b'c' ∷ []

abbrev up_c : Bytes
up_c = b'.' ∷ b'.' ∷ b'/' ∷ b'c' ∷ []

abbrev e_acute : Bytes
e_acute = 0xC3 ∷ 0xA9 ∷ []

abbrev work_vm : Bytes
work_vm = b'w' ∷ b'o' ∷ b'r' ∷ b'k' ∷ b'-' ∷ b'v' ∷ b'm' ∷ []

abbrev sys_dm : Bytes
sys_dm = b's' ∷ b'y' ∷ b's' ∷ b'-' ∷ b'd' ∷ b'm' ∷ []

file_name_taken : validate_file_name file_a_b ≡ some true
unfolding validate_file_name validate_path has_flag
file_name_taken = refl

-- One directory deep, ".." would leave the directory that the name begins with.
link_refused : validate_symbolic_link_v2 file_a_b up_c 0 ≡ some (neg 67)
unfolding validate_symbolic_link_v2 validate_path has_flag
link_refused = refl

link_taken : validate_symbolic_link_v2 file_a_b_c up_c 0 ≡ some (pos 0)
unfolding validate_symbolic_link_v2 validate_path has_flag
link_taken = refl

qube_name_taken : is_valid_qube_name work_vm ≡ ok
unfolding is_valid_qube_name
qube_name_taken = refl

stubdomain_refused : is_valid_qube_name sys_dm ≡ reserved
unfolding is_valid_qube_name
stubdomain_refused = refl

path_a_b : validate_path file_a_b 0 0 ≡ some (pos 2)
unfolding validate_path has_flag
path_a_b = refl

path_up_c : validate_path up_c 1 0 ≡ some (pos 1)
unfolding validate_path has_flag
path_up_c = refl

no_flags : has_flag 0 allow_non_canonical_paths ≡ false
unfolding has_flag
no_flags = refl

e_acute_safe : code_point_safe_for_display 0xE9 ≡ true
unfolding code_point_safe_for_display
e_acute_safe = refl

file_a_b-NoNul : All (λ c. 0 < c) file_a_b
file_a_b-NoNul = ground arith

file_a_b_c-NoNul : All (λ c. 0 < c) file_a_b_c
file_a_b_c-NoNul = ground arith

up_c-NoNul : All (λ c. 0 < c) up_c
up_c-NoNul = ground arith

validate_file_name_v2-IsSafeName_example : IsSafeName 0 file_a_b
unfolding validate_file_name_v2 validate_path has_flag
validate_file_name_v2-IsSafeName_example =
    validate_file_name_v2-IsSafeName file_a_b 0 file_a_b-NoNul refl

validate_symbolic_link_v2-IsContained_example : IsContained file_a_b_c up_c
unfolding has_flag
validate_symbolic_link_v2-IsContained_example =
    validate_symbolic_link_v2-IsContained file_a_b_c up_c 0 file_a_b_c-NoNul up_c-NoNul refl
      link_taken

validate_path-total_example : (r : ℤ) × (validate_path up_c 0 0 ≡ some r)
validate_path-total_example = validate_path-total up_c 0 0 up_c-NoNul

validate_path-Counts_example : Counts (has_flag 0 allow_non_canonical_paths) 1 (split up_c) 1
validate_path-Counts_example = validate_path-Counts up_c 1 0 1 up_c-NoNul path_up_c

validate_path-IsSegment_example : All IsSegment (split file_a_b)
unfolding has_flag
validate_path-IsSegment_example =
    validate_path-IsSegment file_a_b 0 2 file_a_b-NoNul refl refl path_a_b

safe_for_display-IsDisplayable_example : IsDisplayable 0xE9
safe_for_display-IsDisplayable_example = safe_for_display-IsDisplayable 0xE9 e_acute_safe

safe_for_display_iff_example :
    (validate_utf8_char_safe_for_display e_acute ≡ some 2) ↔ StartsSafe e_acute 2
safe_for_display_iff_example = safe_for_display_iff e_acute 1

Steps-exists_example : (r : ℤ) × Steps e_acute r
Steps-exists_example = Steps-exists e_acute

is_valid_qube_name_iff_example : (is_valid_qube_name work_vm ≡ ok) ↔ IsQubeName work_vm
is_valid_qube_name_iff_example = is_valid_qube_name_iff work_vm
