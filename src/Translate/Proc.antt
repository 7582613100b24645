-- ===== src/Translate/Proc.antt =====
-- core/proot/src/main/cpp/path/proc.c: the links of /proc that the tracer answers itself.
pub mod Safe
use re_terminal.Prelude.{
  ℕ, zero, suc, ◌+◌, ◌-◌, ◌*◌, ◌/◌, ◌%◌, ◌^◌, Bool, true, false, not, ◌&&◌, ◌||◌, Option, none,
  some, List, [], ◌∷◌, ◌++◌, ltb, leb, ◌==◌, same, length, drop, if◌then◌else◌,
}
use re_terminal.Prelude.Int.{ℤ, pos, negsuc, to_int, eqb_ℤ, minus_enametoolong}
use re_terminal.Path.{
  Bytes, slash, path_max, Comparison, paths_are_equal, path1_is_prefix, path2_is_prefix,
  paths_are_not_comparable,
}
use re_terminal.Path.Compare.{compare_paths}
use re_terminal.Translate.{Known, Run, done, failed, asserts}

-- The conversion %d of printf: twenty digits are enough for 64 bits.
unfoldable pub digits : ℕ → ℕ → Bytes
digits zero n = []
digits (suc fuel) n =
    let front = digits fuel (n / 10) in
    let last = b'0' + n % 10 in if ltb n 10 then last ∷ [] else front ++ last ∷ []

unfoldable pub decimal : ℤ → Bytes
unfolding digits
decimal (pos n) = digits 20 n
decimal (negsuc n) = b'-' ∷ digits 20 (suc n)

unfoldable pub is_digit : ℕ → Bool
is_digit c = leb b'0' c && leb c b'9'

unfoldable pub is_space : ℕ → Bool
is_space c = c == 32 || leb 9 c && leb c 13

unfoldable pub skip_spaces : Bytes → Bytes
unfolding is_space
skip_spaces [] = []
skip_spaces (c ∷ cs) = let further = skip_spaces cs in if is_space c then further else c ∷ cs

read_digits : ℕ → Bytes → ℕ
unfolding is_digit
read_digits value [] = value
read_digits value (c ∷ cs) =
    let further = read_digits (value * 10 + (c - b'0')) cs in if is_digit c then further else value

unfoldable pub starts_with_digit : Bytes → Bool
unfolding is_digit
starts_with_digit [] = false
starts_with_digit (c ∷ cs) = is_digit c

-- Behind the spaces: whether a minus sign stands there, and what follows the sign.
unfoldable pub signed : Bytes → Bool × Bytes
signed [] = (false, [])
signed (c ∷ cs) =
    if c == b'-' then (true, cs) else if c == b'+' then (false, cs) else (false, c ∷ cs)

long_max : ℕ
long_max = 2 ^ 63 - 1

-- strtol in base 10 has read a number, and it fits in a long.
unfoldable pub strtol_succeeds : Bytes → Bool
unfolding skip_spaces signed starts_with_digit read_digits long_max
strtol_succeeds text =
    let (negative, rest) = signed (skip_spaces text) in
    starts_with_digit rest && leb (read_digits 0 rest) (if negative then long_max + 1 else long_max)

-- atoi: the int that the long of strtol becomes, which stops at the bounds of a long.
unfoldable pub atoi : Bytes → ℤ
unfolding skip_spaces signed read_digits long_max
atoi text =
    let (negative, rest) = signed (skip_spaces text) in
    let value = read_digits 0 rest in
    if negative
    then to_int (2 ^ 64 - (if ltb (long_max + 1) value then long_max + 1 else value))
    else to_int (if ltb long_max value then long_max else value)

-- "/proc" and "/fd"
abbrev pub proc : Bytes
proc = b'/' ∷ b'p' ∷ b'r' ∷ b'o' ∷ b'c' ∷ []

abbrev pub slash_fd : Bytes
slash_fd = b'/' ∷ b'f' ∷ b'd' ∷ []

abbrev pub proc_pid : ℤ → Bytes
proc_pid pid = proc ++ (slash ∷ decimal pid)

-- enum Action, with the link as it was read; `refused` is -EPERM.
pub data Action : Type 0 where
  default refused : Action
  canonicalize_it dont_canonicalize : Bytes → Action

-- SUBSTITUTE
substituted : Bytes → Action
substituted string = if leb path_max (length string) then refused else canonicalize_it string

links_of : Option Known → Bytes → Action
unfolding substituted
links_of none component = default
links_of (some tracee) component =
    if same component (b'e' ∷ b'x' ∷ b'e' ∷ [])
    then substituted tracee.exe
    else if same component (b'c' ∷ b'w' ∷ b'd' ∷ [])
    then substituted tracee.cwd
    else if same component (b'r' ∷ b'o' ∷ b'o' ∷ b't' ∷ [])
    then substituted tracee.root
    else default

-- A link of "/proc/<PID>/fd".
unfoldable pub descriptor : Bytes → Bytes → Action
descriptor base component =
    let result = base ++ (slash ∷ component) in
    if not (strtol_succeeds component)
    then refused
    else if leb path_max (length result)
    then refused
    else dont_canonicalize result

-- By the comparison of "/proc/<PID>/fd" with the base.
unfoldable pub descriptors : Bytes → Bytes → Comparison → Action
unfolding descriptor
descriptors base component paths_are_equal = descriptor base component
descriptors base component _ = default

unfoldable pub below_pid : ℤ → Bytes → Bytes → Action
unfolding descriptors
below_pid pid base component =
    let proc_path = proc_pid pid ++ slash_fd in
    if leb 64 (length proc_path)
    then refused
    else descriptors base component (compare_paths proc_path base)

-- By the comparison of "/proc/<PID>" with the base.
unfoldable pub of_pid : (ℤ → Option Known) → ℤ → Bytes → Bytes → Comparison → Action
unfolding links_of below_pid
of_pid known pid base component paths_are_equal = links_of (known pid) component
of_pid known pid base component path1_is_prefix = below_pid pid base component
of_pid known pid base component _ = default

unfoldable pub in_proc : (ℤ → Option Known) → ℤ → Bytes → Bytes → Action
unfolding of_pid
in_proc known pid base component =
    if eqb_ℤ pid (pos 0)
    then default
    else if leb 64 (length (proc_pid pid))
    then refused
    else of_pid known pid base component (compare_paths (proc_pid pid) base)

itself : ℤ → Bytes → Action
itself pid component =
    if not (same component (b's' ∷ b'e' ∷ b'l' ∷ b'f' ∷ []))
    then default
    else canonicalize_it (proc_pid pid)

-- `self` is the pid of the tracee, and `known` is get_tracee.
unfoldable pub readlink_proc : (ℤ → Option Known) → ℤ → Bytes → Bytes → Comparison → Action
unfolding itself in_proc
readlink_proc known self base component paths_are_equal = itself self component
readlink_proc known self base component path1_is_prefix =
    in_proc known (atoi (drop 6 base)) base component
readlink_proc known self base component _ = default

-- strrchr(path, '/'): what stands before the last separator, and what behind it.
unfoldable pub split_last : Bytes → Option (Bytes × Bytes)
split_last [] = none
split_last (c ∷ cs) = elim (split_last cs) [
  | some (front, back) ↦ some (c ∷ front, back)
  | none ↦ if c == slash then some ([], cs) else none
]

emulated : Action → Option Bytes
emulated (canonicalize_it []) = none
emulated (canonicalize_it (c ∷ cs)) = some (c ∷ cs)
emulated _ = none

-- What it reads, or `none` where it answers 0.
unfoldable pub readlink_split : (ℤ → Option Known) → ℤ → Option (Bytes × Bytes) → Run (Option Bytes)
unfolding emulated readlink_proc
readlink_split known self none = asserts
readlink_split known self (some ([], component)) = asserts
readlink_split known self (some (c ∷ base, [])) = done none
readlink_split known self (some (c ∷ base, d ∷ component)) =
    done (emulated (readlink_proc known self (c ∷ base) (d ∷ component) path1_is_prefix))

unfoldable pub is_prefix : Comparison → Bool
is_prefix path1_is_prefix = true
is_prefix _ = false

unfoldable pub readlink_proc2 : (ℤ → Option Known) → ℤ → Bytes → Run (Option Bytes)
unfolding readlink_split split_last is_prefix
readlink_proc2 known self referer =
    if leb path_max (length referer)
    then failed minus_enametoolong
    else if not (is_prefix (compare_paths proc referer))
    then asserts
    else readlink_split known self (split_last referer)
