-- ===== src/Path/Component.antt =====
-- next_component of core/proot/src/main/cpp/path/canon.c: the cursor is the bytes that follow it.
pub mod Splits
pub mod Shorter
use re_terminal.Prelude.{
  ℕ, Bool, false, Option, none, some, List, [], ◌∷◌, ltb, not, ◌==◌, length, if◌then◌else◌,
}
use re_terminal.Path.{Bytes, slash, name_max}

pub data Finality : Type 0 where
  not_final final_normal final_slash final_dot : Finality

unfoldable pub skip_slashes : Bytes → Bytes
skip_slashes [] = []
skip_slashes (c ∷ cs) = let further = skip_slashes cs in if c == slash then further else c ∷ cs

-- The bytes up to the next separator, and those from it on.
unfoldable pub span : Bytes → Bytes × Bytes
span [] = ([], [])
span (c ∷ cs) =
    let further = span cs in if c == slash then ([], c ∷ cs) else (c ∷ further.0, further.1)

abbrev pub starts_with_slash : Bytes → Bool
starts_with_slash [] = false
starts_with_slash (c ∷ cs) = c == slash

unfoldable pub finality_of : Bool → Bytes → Finality
finality_of want_dir [] = if want_dir then final_slash else final_normal
finality_of want_dir (c ∷ cs) = not_final

-- The component, the new cursor, and its finality: `none` is -ENAMETOOLONG.
unfoldable pub next_component : Bytes → Option (Bytes × Bytes × Finality)
unfolding skip_slashes span finality_of
next_component cursor =
    let (component, rest) = span (skip_slashes cursor) in
    let cursor' = skip_slashes rest in
    if not (ltb (length component) name_max)
    then none
    else some (component, cursor', finality_of (starts_with_slash rest) cursor')
