-- ===== src/Path/Prefix.antt =====
-- substitute_path_prefix of path/path.c. The buffer is the bytes of the string that it holds.
pub mod Rebase
use re_terminal.Prelude.{
  ℕ, ◌+◌, ◌-◌, Bool, Option, none, some, List, [], ◌∷◌, ◌++◌, ltb, leb, ◌==◌, length, take, drop,
  if◌then◌else◌,
}
use re_terminal.Path.{Bytes, slash, path_max}

-- The path as it is left, and the new length. `none` is the error -ENAMETOOLONG.
abbrev pub Substituted : Type 0
Substituted = Bytes × Option ℕ

to_root : Bytes → ℕ → Substituted
to_root path old_prefix_length =
    let new_length = length path - old_prefix_length in
    if new_length == 0
    then (slash ∷ [], some 1)
    else (take new_length (drop old_prefix_length path), some new_length)

from_root : Bytes → Bytes → ℕ → Substituted
from_root path new_prefix new_prefix_length =
    let new_length = new_prefix_length + length path in
    if leb path_max new_length
    then (path, none)
    else if ltb 1 (length path)
    then (take new_prefix_length new_prefix ++ path, some new_length)
    else (take new_prefix_length new_prefix, some new_prefix_length)

generic : Bytes → ℕ → Bytes → ℕ → Substituted
generic path old_prefix_length new_prefix new_prefix_length =
    let new_length = (length path - old_prefix_length) + new_prefix_length in
    if leb path_max new_length
    then (path, none)
    else (take new_prefix_length new_prefix ++ drop old_prefix_length path, some new_length)

unfoldable pub substitute_path_prefix : Bytes → ℕ → Bytes → ℕ → Substituted
unfolding to_root from_root generic
substitute_path_prefix path old_prefix_length new_prefix new_prefix_length =
    if new_prefix_length == 1
    then to_root path old_prefix_length
    else if old_prefix_length == 1
    then from_root path new_prefix new_prefix_length
    else generic path old_prefix_length new_prefix new_prefix_length
