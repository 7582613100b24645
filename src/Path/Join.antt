-- ===== src/Path/Join.antt =====
-- join_paths and chop_finality of core/proot/src/main/cpp/path/path.c, with pop_component of
-- path/canon.c. An assertion that fails is `none`.
pub mod Bounds
pub mod Pop
use re_terminal.Prelude.{
  ℕ, zero, suc, ◌+◌, ◌-◌, Bool, true, false, not, ◌&&◌, Option, none, some, List, [], ◌∷◌, ◌++◌,
  ltb, leb, ◌==◌, length, take, drop, if◌then◌else◌,
}
use re_terminal.Prelude.Int.{ℤ, pos, minus_enametoolong}
use re_terminal.Path.{Bytes, slash, dot, path_max}
use re_terminal.Path.Compare.{byte_at}

-- strcat, where the new length leaves room.
unfoldable pub appended : ℕ → Bytes → Option Bytes
appended new_length result = if leb path_max (new_length + 1) then none else some result

-- One turn of the loop of join_paths: `none` is -ENAMETOOLONG.
unfoldable pub joined : Bytes → Bytes → Option Bytes
unfolding appended
joined result path =
    let length_before = length result in
    let ends = byte_at result (length_before - 1) == slash in
    let starts = byte_at path 0 == slash in
    if ltb 0 length_before && not ends && not starts
    then appended (length_before + length path + 1) (result ++ slash ∷ path)
    else if ltb 0 length_before && ends && starts
    then appended (length_before + length path - 1) (result ++ drop 1 path)
    else appended (length_before + length path) (result ++ path)

unfoldable pub join_from : List (Option Bytes) → Bytes → Bytes × ℤ
unfolding joined
join_from [] result = (result, pos 0)
join_from (none ∷ paths) result = join_from paths result
join_from (some path ∷ paths) result = elim (joined result path) [
  | none ↦ (result, minus_enametoolong)
  | some result' ↦ join_from paths result'
]

-- The bytes of result[] and the status.
unfoldable pub join_paths : List (Option Bytes) → Bytes × ℤ
unfolding join_from
join_paths paths = join_from paths []

-- The byte before the start of an empty path is taken to be neither '.' nor '/'.
unfoldable pub chop_finality : Bytes → Option Bytes
chop_finality path =
    let n = length path in
    if ltb 0 n && byte_at path (n - 1) == dot
    then if ltb n 2 then none else if n == 2 then some (take 1 path) else some (take (n - 2) path)
    else if ltb 0 n && byte_at path (n - 1) == slash
    then if ltb 1 n then some (take (n - 1) path) else some path
    else some path

-- while (offset > 1 && test(path[offset])) offset--;
unfoldable pub back_while : (ℕ → Bool) → Bytes → ℕ → ℕ
back_while test path zero = zero
back_while test path (suc zero) = suc zero
back_while test path (suc (suc n)) =
    let further = back_while test path (suc n) in
    if test (byte_at path (suc (suc n))) then further else suc (suc n)

abbrev pub is_slash : ℕ → Bool
is_slash c = c == slash

abbrev pub is_not_slash : ℕ → Bool
is_not_slash c = not (c == slash)

unfoldable pub pop_component : Bytes → Option Bytes
unfolding back_while
pop_component [] = none
pop_component (c ∷ []) = if c == slash then some (c ∷ []) else none
pop_component (c ∷ d ∷ rest) =
    let path = c ∷ d ∷ rest in
    let last_byte = back_while is_slash path (length path - 1) in
    let offset = back_while is_not_slash path last_byte in
    if c == slash then some (take offset path) else none
