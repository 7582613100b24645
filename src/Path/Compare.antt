-- ===== src/Path/Compare.antt =====
-- compare_paths2 and compare_paths of path/path.c. Reading one byte past the end of a string
-- gives its NUL, 0.
pub mod Relation
pub mod Order
pub mod Equal
use re_terminal.Prelude.{
  ℕ, zero, suc, ◌-◌, Bool, true, false, not, ◌&&◌, ◌||◌, List, [], ◌∷◌, ltb, ◌==◌, same, length,
  get_or, take, if◌then◌else◌,
}
use re_terminal.Path.{
  Bytes, slash, Comparison, paths_are_equal, path1_is_prefix, path2_is_prefix,
  paths_are_not_comparable,
}

-- `path[i]`, the terminator included.
abbrev pub byte_at : Bytes → ℕ → ℕ
byte_at path i = get_or path i 0

-- A length without the byte of a trailing separator.
pub trimmed : Bytes → ℕ → ℕ
trimmed path len = if byte_at path (len - 1) == slash then len - 1 else len

-- `strncmp(path1, path2, n) == 0`: the first n bytes agree, or both strings end before that.
pub strncmp_eq : ℕ → Bytes → Bytes → Bool
strncmp_eq n path1 path2 = same (take n path1) (take n path2)

pub compare_lengths : ℕ → ℕ → Comparison
compare_lengths length1 length2 =
    if length1 == length2
    then paths_are_equal
    else if ltb length1 length2
    then path1_is_prefix
    else path2_is_prefix

-- The lengths are trimmed here.
pub compare_trimmed : Bytes → ℕ → Bytes → ℕ → Comparison
unfolding strncmp_eq compare_lengths
compare_trimmed path1 length1 path2 length2 =
    let length_min = if ltb length1 length2 then length1 else length2 in
    let sentinel =
      if ltb length1 length2 then byte_at path2 length_min else byte_at path1 length_min in
    if not (sentinel == slash) && not (sentinel == 0)
    then paths_are_not_comparable
    else if not (strncmp_eq length_min path1 path2)
    then paths_are_not_comparable
    else compare_lengths length1 length2

unfoldable pub compare_paths2 : Bytes → ℕ → Bytes → ℕ → Comparison
unfolding trimmed compare_trimmed
compare_paths2 path1 length1 path2 length2 =
    if length1 == 0 || length2 == 0
    then paths_are_not_comparable
    else compare_trimmed path1 (trimmed path1 length1) path2 (trimmed path2 length2)

unfoldable pub compare_paths : Bytes → Bytes → Comparison
unfolding compare_paths2
compare_paths path1 path2 = compare_paths2 path1 (length path1) path2 (length path2)
