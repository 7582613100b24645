-- ===== src/Binding/Lookup/Translation.antt =====
-- substitute_binding of core/proot/src/main/cpp/path/binding.c, on the two directories of a binding.
use re_terminal.Prelude.{ℕ, ◌+◌, ◌≤◌, ◌<◌, ◌≡◌, ◌≢◌, ◌⊎◌, true, false, none, some, arith, length}
use re_terminal.Path.{Bytes, path_max}
use re_terminal.Binding.{Binding, Bindings, Side, guest_side, host_side}
use re_terminal.Binding.Lookup.{
  get_binding, asymmetric, symmetric, no_entry, apply_binding, substitute_binding,
}
use re_terminal.Path.Prefix.{substitute_path_prefix}
use re_terminal.Path.Prefix.Rebase.{
  Dir, root, sub, dir_path, Tail, rebased, rebase_lem, rebase_too_long,
}

-- The binding joins two directories, with their lengths.
pub record Joins (x : Binding) (guest host : Dir) : Type 0 where
  pub guest_path : x.guest.path ≡ dir_path guest
  pub guest_len : x.guest.len ≡ length (dir_path guest)
  pub host_path : x.host.path ≡ dir_path host
  pub host_len : x.host.len ≡ length (dir_path host)
  pub substituted : x.need_substitution ≡ true

apply_guest :
    (x : Binding) (guest host : Dir) (path : Bytes)
    → Joins x guest host
    → apply_binding guest_side path x ≡ (
      asymmetric,
      (substitute_path_prefix path
          (length (dir_path guest))
          (dir_path host)
          (length (dir_path host))).0,
    )
unfolding apply_binding
apply_guest x guest host path j = ground arith

apply_host :
    (x : Binding) (guest host : Dir) (path : Bytes)
    → Joins x guest host
    → apply_binding host_side path x ≡ (
      asymmetric,
      (substitute_path_prefix path
          (length (dir_path host))
          (dir_path guest)
          (length (dir_path guest))).0,
    )
unfolding apply_binding
apply_host x guest host path j = ground arith

-- Where get_binding finds a binding of two directories, not both the root, for a path behind its
-- guest directory, and the result fits in PATH_MAX with a byte to spare, substitute_binding on the
-- guest side moves the path behind the host directory.
pub substitute_guest-rebased :
    (b : Bindings) (x : Binding) (guest host : Dir) (tail : Tail)
    → Joins x guest host
    → (guest ≢ root) ⊎ (host ≢ root)
    → length (rebased host tail) + 1 < path_max
    → get_binding b guest_side (rebased guest tail) ≡ some x
    → substitute_binding b guest_side (rebased guest tail) ≡ (asymmetric, rebased host tail)
unfolding substitute_binding
substitute_guest-rebased b x guest host tail j n fits e =
    rw (e, substitute_binding)
      (rw (apply_guest x guest host (rebased guest tail) j, rebase_lem guest host tail n fits))

-- Where get_binding finds a binding of two directories, not both the root, for a path behind its
-- host directory, and the result fits in PATH_MAX with a byte to spare, substitute_binding on the
-- host side moves the path behind the guest directory.
pub substitute_host-rebased :
    (b : Bindings) (x : Binding) (guest host : Dir) (tail : Tail)
    → Joins x guest host
    → (host ≢ root) ⊎ (guest ≢ root)
    → length (rebased guest tail) + 1 < path_max
    → get_binding b host_side (rebased host tail) ≡ some x
    → substitute_binding b host_side (rebased host tail) ≡ (asymmetric, rebased guest tail)
unfolding substitute_binding
substitute_host-rebased b x guest host tail j n fits e =
    rw (e, substitute_binding)
      (rw (apply_host x guest host (rebased host tail) j, rebase_lem host guest tail n fits))

-- Where get_binding finds a binding of two directories, neither the root, for a path behind its
-- guest directory, and the path behind the host directory would not fit in PATH_MAX,
-- substitute_binding leaves the guest path as it was, and its answer is that of a path that has
-- been substituted.
pub substitute_binding_too_long :
    (b : Bindings) (x : Binding) (c d : ℕ) (guest host : Bytes) (tail : Tail)
    → Joins x (sub c guest) (sub d host)
    → get_binding b guest_side (rebased (sub c guest) tail) ≡ some x
    → path_max ≤ length (rebased (sub d host) tail)
    → substitute_binding b guest_side (rebased (sub c guest) tail)
      ≡ (asymmetric, rebased (sub c guest) tail)
unfolding substitute_binding
substitute_binding_too_long b x c d guest host tail j e long =
    rw (e, substitute_binding)
      (rw (
        apply_guest x (sub c guest) (sub d host) (rebased (sub c guest) tail) j,
        rebase_too_long c guest d host tail long,
      ))

-- Without a binding the path is left.
pub substitute_binding_unbound :
    (b : Bindings) (side : Side) (path : Bytes)
    → get_binding b side path ≡ none
    → substitute_binding b side path ≡ (no_entry, path)
unfolding substitute_binding
substitute_binding_unbound b side path e = rw (e, substitute_binding)

-- A symmetric binding leaves it too.
pub substitute_binding_symmetric :
    (b : Bindings) (side : Side) (path : Bytes) (x : Binding)
    → get_binding b side path ≡ some x
    → x.need_substitution ≡ false
    → substitute_binding b side path ≡ (symmetric, path)
unfolding substitute_binding apply_binding
substitute_binding_symmetric b side path x e s = rw (e, substitute_binding) (ground arith)
