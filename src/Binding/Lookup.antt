-- ===== src/Binding/Lookup.antt =====
-- get_binding, get_path_binding and substitute_binding of path/binding.c.
pub mod Deepest
pub mod Translation
use re_terminal.Prelude.{
  ℕ, Bool, true, false, not, ◌&&◌, Option, none, some, List, [], ◌∷◌, length, if◌then◌else◌,
}
use re_terminal.Path.{Bytes, slash}
use re_terminal.Path.Compare.{compare_paths, compare_paths2}
use re_terminal.Path.Prefix.{substitute_path_prefix}
use re_terminal.Binding.{
  CachedPath, Binding, Bindings, Side, guest_side, host_side, pending_side, head_of, side_path,
  is_equal, is_equal_or_under, get_root, belongs_to_guestfs,
}

-- The path is in the guest rootfs already, so that a binding of a parent of the rootfs is not
-- meant.
skips_guestfs : Bindings → Side → Bytes → Bool
skips_guestfs b host_side path =
    not (is_equal (compare_paths (get_root b) (slash ∷ []))) && belongs_to_guestfs b path
skips_guestfs b _ path = false

-- The test on one binding.
pub covers : Bindings → Side → Bytes → Binding → Bool
unfolding skips_guestfs
covers b side path binding =
    let ref = side_path side binding in
    is_equal_or_under (compare_paths2 ref.path ref.len path (length path))
    && not (skips_guestfs b side path)

pub search_list : Bindings → Side → Bytes → List Binding → Option Binding
search_list b side path [] = none
search_list b side path (binding ∷ rest) =
    if covers b side path binding then some binding else search_list b side path rest

unfoldable pub get_binding : Bindings → Side → Bytes → Option Binding
unfolding covers search_list head_of side_path is_equal is_equal_or_under belongs_to_guestfs
get_binding b guest_side path = search_list b guest_side path (head_of b guest_side)
get_binding b host_side path = search_list b host_side path (head_of b host_side)
get_binding b pending_side path = none

unfoldable pub get_path_binding : Bindings → Side → Bytes → Option Bytes
unfolding get_binding
get_path_binding b side path = elim (get_binding b side path) [
  | none ↦ none
  | some binding ↦ some (side_path side binding).path
]

-- The return value of substitute_binding.
pub data Substitution : Type 0 where
  no_entry symmetric asymmetric no_access : Substitution

substitute_on : Side → Bytes → Binding → Substitution × Bytes
substitute_on guest_side path binding = (
  asymmetric,
  (substitute_path_prefix path binding.guest.len binding.host.path binding.host.len).0,
)
substitute_on host_side path binding = (
  asymmetric,
  (substitute_path_prefix path binding.host.len binding.guest.path binding.guest.len).0,
)
substitute_on pending_side path binding = (no_access, path)

unfoldable pub apply_binding : Side → Bytes → Binding → Substitution × Bytes
unfolding substitute_on
apply_binding side path binding =
    if not binding.need_substitution then (symmetric, path) else substitute_on side path binding

-- The path is changed in place, so it comes back beside the return value.
unfoldable pub substitute_binding : Bindings → Side → Bytes → Substitution × Bytes
unfolding apply_binding get_binding substitute_path_prefix
substitute_binding b side path = elim (get_binding b side path) [
  | none ↦ (no_entry, path)
  | some binding ↦ apply_binding side path binding
]
