-- ===== src/Translate/Whole.antt =====
-- translate_path of core/proot/src/main/cpp/path/path.c, with getcwd2 and readlink_proc_pid_fd: the
-- host path of a path that a tracee gives.
pub mod Contained
use re_terminal.Prelude.{
  ℕ, zero, suc, ◌+◌, Bool, true, false, not, Option, none, some, List, [], ◌∷◌, ◌++◌, ltb, leb,
  ◌==◌, length, if◌then◌else◌,
}
use re_terminal.Prelude.Int.{
  ℤ, pos, is_negative, eqb_ℤ, minus_enoent, minus_eacces, minus_enametoolong, minus_ebadf,
  minus_enotdir,
}
use re_terminal.Path.{Bytes, slash, path_max}
use re_terminal.Path.Compare.{byte_at}
use re_terminal.Path.Join.{join_paths}
use re_terminal.Binding.{guest_side}
use re_terminal.Binding.Lookup.{
  substitute_binding, Substitution, no_entry, symmetric, asymmetric, no_access,
}
use re_terminal.Translate.{Surroundings, Run, done, failed, asserts, out_of_fuel}
use re_terminal.Translate.Proc.{proc_pid, slash_fd, decimal}
use re_terminal.Translate.Detranslate.{detranslate_path}
use re_terminal.Translate.Canon.{canonicalize}

-- The end of readlink_proc_pid_fd, on what readlink(2) gives.
descriptor_path : ℤ × Bytes → Run Bytes
descriptor_path (status, path) =
    if is_negative status
    then failed minus_ebadf
    else if leb path_max (length path)
    then failed minus_enametoolong
    else done path

unfoldable pub readlink_proc_pid_fd : Surroundings → ℤ → Run Bytes
unfolding descriptor_path
readlink_proc_pid_fd env fd =
    let link = proc_pid env.pid ++ (slash_fd ++ (slash ∷ decimal fd)) in
    if leb 32 (length link) then failed minus_ebadf else descriptor_path (env.read_link link)

unfoldable pub getcwd2 : Surroundings → Run Bytes
getcwd2 env = if leb path_max (length env.cwd) then failed minus_enametoolong else done env.cwd

guest_form : Run (ℕ × Bytes) → Run Bytes
guest_form (done (size, path)) = done path
guest_form (failed status) = failed status
guest_form asserts = asserts
guest_form out_of_fuel = out_of_fuel

-- The directory of a descriptor, without the leading root.
descriptor_base : Surroundings → Run Bytes → Run Bytes
unfolding guest_form detranslate_path
descriptor_base env (done path) =
    if not (byte_at path 0 == slash)
    then failed minus_enotdir
    else guest_form (detranslate_path env none path)
descriptor_base env (failed status) = failed status
descriptor_base env asserts = asserts
descriptor_base env out_of_fuel = out_of_fuel

-- `none` is AT_FDCWD.
based_on : Surroundings → Option ℤ → Run Bytes
unfolding descriptor_base getcwd2 readlink_proc_pid_fd
based_on env none = getcwd2 env
based_on env (some fd) = descriptor_base env (readlink_proc_pid_fd env fd)

unfoldable pub base_of : Surroundings → Option ℤ → Bytes → Run Bytes
unfolding based_on
base_of env dir_fd user_path =
    if byte_at user_path 0 == slash then done (slash ∷ []) else based_on env dir_fd

-- The last event, from the label skip on.
skip_label : ℤ × Bytes → Run Bytes
skip_label (status, path) = if is_negative status then failed status else done path

unfoldable pub onto_host : Surroundings → Substitution × Bytes → Run Bytes
unfolding skip_label
onto_host env (no_entry, path) = failed minus_enoent
onto_host env (no_access, path) = failed minus_eacces
onto_host env (_, path) = skip_label (env.translated_event path)

unfoldable pub from_canonical : Surroundings → Run Bytes → Run Bytes
unfolding onto_host substitute_binding
from_canonical env (done path) = onto_host env (substitute_binding env.bindings guest_side path)
from_canonical env (failed status) = failed status
from_canonical env asserts = asserts
from_canonical env out_of_fuel = out_of_fuel

-- The recursion of canonicalize ends within this fuel.
abbrev pub enough : Surroundings → ℕ
enough env = env.max_symlinks + 2

unfoldable pub on_joined : Surroundings → Bool → Bytes × ℤ → Run Bytes
unfolding from_canonical canonicalize
on_joined env deref_final (guest_path, status) =
    if is_negative status
    then failed status
    else from_canonical env (canonicalize (enough env) env guest_path deref_final (slash ∷ []) 0)

on_event : Surroundings → Bool → Bytes → ℤ × Bytes → Run Bytes
unfolding on_joined skip_label join_paths
on_event env deref_final user_path (status, path) =
    if is_negative status
    then failed status
    else if not (eqb_ℤ status (pos 0))
    then skip_label (env.translated_event path)
    else if not (byte_at path 0 == slash)
    then asserts
    else on_joined env deref_final (join_paths (some path ∷ some user_path ∷ []))

on_base : Surroundings → Bool → Bytes → Run Bytes → Run Bytes
unfolding on_event
on_base env deref_final user_path (done path) =
    on_event env deref_final user_path (env.guest_event path user_path)
on_base env deref_final user_path (failed status) = failed status
on_base env deref_final user_path asserts = asserts
on_base env deref_final user_path out_of_fuel = out_of_fuel

unfoldable pub translate_path : Surroundings → Option ℤ → Bytes → Bool → Run Bytes
unfolding on_base base_of
translate_path env dir_fd user_path deref_final =
    on_base env deref_final user_path (base_of env dir_fd user_path)
