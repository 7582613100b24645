-- ===== src/Binding.antt =====
-- core/proot/src/main/cpp/path/binding.c and binding.h: the bindings of a tracee, kept in lists
-- that are ordered so that a search meets the deepest directory first.
-- A binding is known by its address, `id`; the lists that it is linked in hold it by value, since
-- no field of it changes once it is linked. An empty root stands for the NULL of get_root.
pub mod Insort
pub mod Lookup
use re_terminal.Prelude.{
  ℕ, Bool, true, false, Option, none, some, List, [], ◌∷◌, ◌==◌, length, if◌then◌else◌,
}
use re_terminal.Path.{Bytes, slash, Comparison, paths_are_equal, path1_is_prefix}
use re_terminal.Path.Compare.{compare_paths, compare_paths2}

-- Path of path/path.h: the string with its cached length.
pub record CachedPath : Type 0 where
  pub path : Bytes
  pub len : ℕ

pub record Binding : Type 0 where
  pub id : ℕ
  pub host : CachedPath
  pub guest : CachedPath
  pub need_substitution : Bool

pub data Side : Type 0 where
  guest_side host_side pending_side : Side

-- tracee->fs->bindings; `allocated` says that the guest list is not NULL.
pub record Bindings : Type 0 where
  pub allocated : Bool
  pub pending : List Binding
  pub guest : List Binding
  pub host : List Binding

-- HEAD(tracee, side)
unfoldable pub head_of : Bindings → Side → List Binding
head_of b guest_side = b.guest
head_of b host_side = b.host
head_of b pending_side = b.pending

unfoldable pub with_head : Bindings → Side → List Binding → Bindings
with_head b guest_side l = record b { guest = l }
with_head b host_side l = record b { host = l }
with_head b pending_side l = record b { pending = l }

-- The path by which a list is searched and ordered.
unfoldable pub side_path : Side → Binding → CachedPath
side_path host_side b = b.host
side_path guest_side b = b.guest
side_path pending_side b = b.guest

pub last : List Binding → Option Binding
last [] = none
last (b ∷ []) = some b
last (b ∷ c ∷ rest) = last (c ∷ rest)

unfoldable pub is_equal : Comparison → Bool
is_equal paths_are_equal = true
is_equal _ = false

-- PATHS_ARE_EQUAL or PATH1_IS_PREFIX
unfoldable pub is_equal_or_under : Comparison → Bool
is_equal_or_under paths_are_equal = true
is_equal_or_under path1_is_prefix = true
is_equal_or_under _ = false

pending_root : Option Binding → Bytes
unfolding is_equal
pending_root none = []
pending_root (some b) =
    if is_equal (compare_paths b.guest.path (slash ∷ [])) then b.host.path else []

host_path : Option Binding → Bytes
host_path none = []
host_path (some b) = b.host.path

unfoldable pub get_root : Bindings → Bytes
unfolding last pending_root host_path
get_root b = if b.allocated then host_path (last b.guest) else pending_root (last b.pending)

unfoldable pub belongs_to_guestfs : Bindings → Bytes → Bool
unfolding get_root is_equal_or_under
belongs_to_guestfs b path = is_equal_or_under (compare_paths (get_root b) path)
