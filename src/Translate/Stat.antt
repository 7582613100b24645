-- ===== src/Translate/Stat.antt =====
-- substitute_binding_stat of core/proot/src/main/cpp/path/canon.c: the host path of a guest path, and
-- whether a link stands there.
use re_terminal.Prelude.{ℕ, Bool, true, false, not, ◌&&◌, [], ◌∷◌, ◌==◌, same, if◌then◌else◌}
use re_terminal.Prelude.Int.{ℤ, is_negative, minus_enoent, minus_eacces, minus_enotdir}
use re_terminal.Path.{Bytes}
use re_terminal.Path.Component.{Finality, not_final}
use re_terminal.Binding.{guest_side}
use re_terminal.Binding.Lookup.{substitute_binding, Substitution, no_entry, no_access}
use re_terminal.Translate.{
  Surroundings, FileKind, missing, denied, directory, symlink, other_kind, Run, done, failed,
  asserts, out_of_fuel,
}

unfoldable pub is_final : Finality → Bool
is_final not_final = false
is_final _ = true

-- "/linkerconfig"
linkerconfig : Bytes
linkerconfig =
    b'/' ∷ b'l' ∷ b'i' ∷ b'n' ∷ b'k' ∷ b'e' ∷ b'r' ∷ b'c' ∷ b'o' ∷ b'n' ∷ b'f' ∷ b'i' ∷ b'g' ∷ []

-- The kind of the file, where lstat is made and not made up for.
unfoldable pub kind_of : Surroundings → Bytes → FileKind
unfolding linkerconfig
kind_of env host_path = if env.skips_access host_path then missing else elim (env.lstat host_path) [
  | denied ↦ if same host_path linkerconfig then directory else missing
  | kind ↦ kind
]

-- What is left of a host path: the error, or whether a link stands there.
unfoldable pub stat_of : Finality → FileKind → Run Bool
unfolding is_final
stat_of finality directory = done false
stat_of finality symlink = done true
stat_of finality other_kind = if not (is_final finality) then failed minus_enotdir else done false
stat_of finality _ = if not (is_final finality) then failed minus_enoent else done false

unfoldable pub with_path : Bytes → Run Bool → Run (Bool × Bytes)
with_path host_path (done link) = done (link, host_path)
with_path host_path (failed status) = failed status
with_path host_path asserts = asserts
with_path host_path out_of_fuel = out_of_fuel

-- The tail of substitute_binding_stat behind the extensions.
unfoldable pub behind_event : Surroundings → Finality → ℤ × Bytes → Run (Bool × Bytes)
unfolding kind_of stat_of with_path
behind_event env finality (status, host_path) =
    if is_negative status
    then failed status
    else with_path host_path (stat_of finality (kind_of env host_path))

unfoldable pub behind_binding :
    Surroundings → Finality → ℕ → Substitution × Bytes → Run (Bool × Bytes)
unfolding behind_event is_final
behind_binding env finality recursion_level (no_entry, host_path) = failed minus_enoent
behind_binding env finality recursion_level (no_access, host_path) = failed minus_eacces
behind_binding env finality recursion_level (_, host_path) =
    behind_event env finality (env.host_event host_path (is_final finality && recursion_level == 0))

-- Whether a link stands at the host path, and the host path.
unfoldable pub substitute_binding_stat : Surroundings → Finality → ℕ → Bytes → Run (Bool × Bytes)
unfolding behind_binding substitute_binding
substitute_binding_stat env finality recursion_level guest_path =
    behind_binding env finality recursion_level
      (substitute_binding env.bindings guest_side guest_path)
