-- ===== src/Path.antt =====
-- core/proot/src/main/cpp/path/path.h and path.c: paths as bytes, without their final NUL.
pub mod Compare
pub mod Prefix
pub mod Join
pub mod Component
use re_terminal.Prelude.{ℕ, ◌*◌, List}

-- The bytes of a C string up to its NUL.
abbrev pub Bytes : Type 0
Bytes = List ℕ

abbrev pub slash : ℕ
slash = b'/'

abbrev pub dot : ℕ
dot = b'.'

abbrev pub path_max : ℕ
path_max = 4096

abbrev pub name_max : ℕ
name_max = 255

pub data Comparison : Type 0 where
  paths_are_equal path1_is_prefix path2_is_prefix paths_are_not_comparable : Comparison
