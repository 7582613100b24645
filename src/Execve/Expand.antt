-- ===== src/Execve/Expand.antt =====
-- expand_shebang of core/proot/src/main/cpp/execve/shebang.c and translate_and_check_exec of
-- execve/enter.c: the program and the arguments that an execve(2) of a script comes to. Memory does
-- not run out here.
pub mod Interpreters
use re_terminal.Prelude.{
  ℕ, zero, suc, ◌+◌, Bool, true, false, not, Option, none, some, List, [], ◌∷◌, ◌++◌, ◌==◌, length,
  if◌then◌else◌,
}
use re_terminal.Prelude.Int.{
  ℤ, is_negative, minus_enoexec, minus_enoent, minus_eacces, minus_eperm, minus_eloop,
}
use re_terminal.Path.{Bytes}
use re_terminal.Path.Compare.{byte_at}
use re_terminal.Translate.{
  Surroundings, FileKind, missing, denied, directory, symlink, other_kind, Run, done, failed,
  asserts, out_of_fuel,
}
use re_terminal.Translate.Whole.{translate_path}
use re_terminal.Execve.Script.{File, Shebang, extract_shebang}

-- The tracee and the kernel: BINPRM_BUF_SIZE, access(2) with F_OK and with X_OK, open(2) with
-- read(2), and the reading and the writing of the argv[] of the tracee, without the final NULL.
pub record Host : Type 0 where
  pub env : Surroundings
  pub limit : ℕ
  pub exists : Bytes → Bool
  pub is_executable : Bytes → Bool
  pub open_file : Bytes → File
  pub fetch_argv : Run (List Bytes)
  pub push_argv : List Bytes → ℤ

has_stat : FileKind → Bool
has_stat missing = false
has_stat denied = false
has_stat _ = true

check_exec : Host → Run Bytes → Run Bytes
unfolding has_stat
check_exec host (done path) =
    if not (host.exists path)
    then failed minus_enoent
    else if not (host.is_executable path)
    then failed minus_eacces
    else if not (has_stat (host.env.lstat path))
    then failed minus_eperm
    else done path
check_exec host (failed status) = failed status
check_exec host asserts = asserts
check_exec host out_of_fuel = out_of_fuel

unfoldable pub translate_and_check_exec : Host → Bytes → Run Bytes
unfolding check_exec translate_path
translate_and_check_exec host user_path =
    if byte_at user_path 0 == 0
    then failed minus_enoexec
    else check_exec host (translate_path host.env none user_path true)

-- The new entries of resize_array_of_xpointers at index 0.
unfoldable pub resized : ℕ → List Bytes → List Bytes
resized zero argv = argv
resized (suc n) argv = [] ∷ resized n argv

-- write_xpointees at index 0.
unfoldable pub write_over : List Bytes → List Bytes → List Bytes
write_over [] argv = argv
write_over (x ∷ xs) [] = []
write_over (x ∷ xs) (entry ∷ argv) = x ∷ write_over xs argv

-- argv->length == 1, as a number.
abbrev pub one_if_empty : List Bytes → ℕ
one_if_empty [] = 1
one_if_empty (x ∷ xs) = 0

unfoldable pub with_interpreter : Bytes → Bytes → Bytes → List Bytes → List Bytes
unfolding resized write_over
with_interpreter user_path [] old_user_path argv =
    write_over (user_path ∷ old_user_path ∷ []) (resized (1 + one_if_empty argv) argv)
with_interpreter user_path (c ∷ argument) old_user_path argv =
    write_over (user_path ∷ (c ∷ argument) ∷ old_user_path ∷ [])
      (resized (2 + one_if_empty argv) argv)

-- The variables of the loop: argv is fetched when it is first needed.
pub record Program : Type 0 where
  pub host_path : Bytes
  pub user_path : Bytes
  pub argv : Option (List Bytes)
  pub has_shebang : Bool

unfoldable pub argv_of : Host → Option (List Bytes) → Run (List Bytes)
argv_of host none = host.fetch_argv
argv_of host (some argv) = done argv

module _ (again : Program → Run Program) (host : Host) where
  unfoldable pub on_argv : Bytes → Bytes → Bytes → Bytes → Run (List Bytes) → Run Program
  unfolding with_interpreter
  on_argv host_path user_path argument old_user_path (done argv) = again (record {
    host_path = host_path;
    user_path = user_path;
    argv = some (with_interpreter user_path argument old_user_path argv);
    has_shebang = true;
  })
  on_argv host_path user_path argument old_user_path (failed status) = failed status
  on_argv host_path user_path argument old_user_path asserts = asserts
  on_argv host_path user_path argument old_user_path out_of_fuel = out_of_fuel

  unfoldable pub on_interpreter : Program → Bytes → Bytes → Run Bytes → Run Program
  unfolding on_argv argv_of
  on_interpreter p user_path argument (done host_path) =
      on_argv host_path user_path argument p.user_path (argv_of host p.argv)
  on_interpreter p user_path argument (failed status) = failed status
  on_interpreter p user_path argument asserts = asserts
  on_interpreter p user_path argument out_of_fuel = out_of_fuel

  unfoldable pub on_shebang : Program → Bytes → Run Shebang → Run Program
  unfolding on_interpreter translate_and_check_exec
  on_shebang p host_path (done none) = done (record p { host_path = host_path })
  on_shebang p host_path (done (some (user_path, argument))) =
      on_interpreter p user_path argument (translate_and_check_exec host user_path)
  on_shebang p host_path (failed status) = failed status
  on_shebang p host_path asserts = asserts
  on_shebang p host_path out_of_fuel = out_of_fuel

  unfoldable pub on_program : Program → Run Bytes → Run Program
  unfolding on_shebang extract_shebang
  on_program p (done host_path) =
      on_shebang p host_path (extract_shebang host.limit (host.open_file host_path))
  on_program p (failed status) = failed status
  on_program p asserts = asserts
  on_program p out_of_fuel = out_of_fuel

-- The rounds that are left.
unfoldable pub expand : Host → ℕ → Program → Run Program
unfolding on_program translate_and_check_exec
expand host zero p = failed minus_eloop
expand host (suc rounds) p =
    on_program (expand host rounds) host p (translate_and_check_exec host p.user_path)

unfoldable pub push : Host → Program → Option (List Bytes) → Run Program
push host p none = done p
push host p (some argv) =
    let status = host.push_argv argv in if is_negative status then failed status else done p

unfoldable pub pushed : Host → Run Program → Run Program
unfolding push
pushed host (done p) = push host p p.argv
pushed host (failed status) = failed status
pushed host asserts = asserts
pushed host out_of_fuel = out_of_fuel

unfoldable pub expand_shebang : Host → Bytes → Run Program
unfolding expand pushed
expand_shebang host user_path = pushed host (
    expand host host.env.max_symlinks
      (record { host_path = []; user_path = user_path; argv = none; has_shebang = false }))
