-- ===== src/Execve/Expand/Interpreters.antt =====
-- The interpreters of a script, for core/proot/src/main/cpp/execve/shebang.c, by execve(2).
use re_terminal.Translate.Results.{Results, Results-if, Results-map}
use re_terminal.Prelude.{
  ℕ, zero, suc, ◌≡◌, refl, subst, Option, none, some, List, [], ◌∷◌, ◌++◌, drop, true, false,
}
use re_terminal.Prelude.Int.{is_negative}
use re_terminal.Path.{Bytes}
use re_terminal.Translate.{Run, done, failed, asserts, out_of_fuel}
use re_terminal.Execve.Script.{Shebang, extract_shebang}
use re_terminal.Execve.Expand.{
  Host, translate_and_check_exec, resized, write_over, with_interpreter, Program, argv_of, on_argv,
  on_interpreter, on_shebang, on_program, expand, push, pushed, expand_shebang,
}

-- An argument that is there is one word of the command line.
abbrev pub optional : Bytes → List Bytes
optional [] = []
optional (c ∷ argument) = (c ∷ argument) ∷ []

-- What a run of a program with its arguments comes to, by the rule of execve(2): a script is run as
-- `interpreter [optional-arg] filename arg...`. The last are the path of the program by the guest and
-- by the host, and its arguments.
pub data Interprets (host : Host) : Bytes → List Bytes → Bytes → Bytes → List Bytes → Type 0 where
  binary :
      (user_path : Bytes) (argv : List Bytes) (path : Bytes)
      → translate_and_check_exec host user_path ≡ done path
      → extract_shebang host.limit (host.open_file path) ≡ done none
      → Interprets host user_path argv user_path path argv
  script :
      (user_path : Bytes) (argv : List Bytes) (path interpreter argument : Bytes)
      (last last_path : Bytes) (last_argv : List Bytes)
      → translate_and_check_exec host user_path ≡ done path
      → extract_shebang host.limit (host.open_file path) ≡ done (some (interpreter, argument))
      → Interprets host interpreter
          (interpreter ∷ optional argument ++ user_path ∷ drop 1 argv)
          last
          last_path
          last_argv
      → Interprets host user_path argv last last_path last_argv

with_interpreter_lem :
    (interpreter argument user_path : Bytes) (argv : List Bytes)
    → with_interpreter interpreter argument user_path argv
      ≡ interpreter ∷ optional argument ++ user_path ∷ drop 1 argv
unfolding with_interpreter resized write_over
with_interpreter_lem interpreter [] user_path [] = refl
with_interpreter_lem interpreter [] user_path (x ∷ argv) = refl
with_interpreter_lem interpreter (c ∷ argument) user_path [] = refl
with_interpreter_lem interpreter (c ∷ argument) user_path (x ∷ argv) = refl

-- The end of the loop from a state whose arguments are argv.
abbrev Reaches : Host → Bytes → List Bytes → Program → Type 0
Reaches host user_path argv q =
    (last : List Bytes) × (argv_of host q.argv ≡ done last)
    × Interprets host user_path argv q.user_path q.host_path last

module _ (host : Host) (again : Program → Run Program)
    (ih : (p : Program) (argv : List Bytes)
      → argv_of host p.argv ≡ done argv
      → Results (Reaches host p.user_path argv) (again p)) where
  on_argv-Reaches :
      (p : Program) (argv : List Bytes) (path interpreter argument : Bytes)
      → translate_and_check_exec host p.user_path ≡ done path
      → extract_shebang host.limit (host.open_file path) ≡ done (some (interpreter, argument))
      → (host_path : Bytes)
      → Results
          (Reaches host p.user_path argv)
          (on_argv again host host_path interpreter argument p.user_path (done argv))
  unfolding on_argv argv_of
  on_argv-Reaches p argv path interpreter argument e f host_path =
      let new = with_interpreter interpreter argument p.user_path argv in
      let q : Program = record {
        host_path = host_path;
        user_path = interpreter;
        argv = some new;
        has_shebang = true;
      } in
      Results-map (Reaches host interpreter new) (Reaches host p.user_path argv) (again q)
        (λ s (r : Reaches host interpreter new s). (
          r.0,
          r.1,
          script p.user_path argv path interpreter argument s.user_path s.host_path r.0 e f (
              subst (λ xs. Interprets host interpreter xs s.user_path s.host_path r.0)
                (with_interpreter_lem interpreter argument p.user_path argv) r.2),
        ))
        (ih q new refl)

  on_interpreter-Reaches :
      (p : Program) (argv : List Bytes) (path interpreter argument : Bytes)
      → argv_of host p.argv ≡ done argv
      → translate_and_check_exec host p.user_path ≡ done path
      → extract_shebang host.limit (host.open_file path) ≡ done (some (interpreter, argument))
      → (r : Run Bytes)
      → Results (Reaches host p.user_path argv) (on_interpreter again host p interpreter argument r)
  unfolding on_interpreter
  on_interpreter-Reaches p argv path interpreter argument a e f (done host_path) =
      rw a (on_argv-Reaches p argv path interpreter argument e f host_path)
  on_interpreter-Reaches p argv path interpreter argument a e f (failed status) = tt
  on_interpreter-Reaches p argv path interpreter argument a e f asserts = tt
  on_interpreter-Reaches p argv path interpreter argument a e f out_of_fuel = tt

  on_shebang-Reaches :
      (p : Program) (argv : List Bytes) (path : Bytes)
      → argv_of host p.argv ≡ done argv
      → translate_and_check_exec host p.user_path ≡ done path
      → (s : Run Shebang) → extract_shebang host.limit (host.open_file path) ≡ s
      → Results (Reaches host p.user_path argv) (on_shebang again host p path s)
  unfolding on_shebang
  on_shebang-Reaches p argv path a e (done none) f = (argv, a, binary p.user_path argv path e f)
  on_shebang-Reaches p argv path a e (done (some (interpreter, argument))) f =
      on_interpreter-Reaches p argv path interpreter argument a e f
        (translate_and_check_exec host interpreter)
  on_shebang-Reaches p argv path a e (failed status) f = tt
  on_shebang-Reaches p argv path a e asserts f = tt
  on_shebang-Reaches p argv path a e out_of_fuel f = tt

  on_program-Reaches :
      (p : Program) (argv : List Bytes)
      → argv_of host p.argv ≡ done argv
      → (r : Run Bytes) → translate_and_check_exec host p.user_path ≡ r
      → Results (Reaches host p.user_path argv) (on_program again host p r)
  unfolding on_program
  on_program-Reaches p argv a (done path) e =
      on_shebang-Reaches p argv path a e (extract_shebang host.limit (host.open_file path)) refl
  on_program-Reaches p argv a (failed status) e = tt
  on_program-Reaches p argv a asserts e = tt
  on_program-Reaches p argv a out_of_fuel e = tt

expand-Reaches :
    (host : Host) (rounds : ℕ) (p : Program) (argv : List Bytes)
    → argv_of host p.argv ≡ done argv
    → Results (Reaches host p.user_path argv) (expand host rounds p)
unfolding expand
expand-Reaches host zero p argv a = tt
expand-Reaches host (suc rounds) p argv a =
    on_program-Reaches host (expand host rounds) (expand-Reaches host rounds) p argv a
      (translate_and_check_exec host p.user_path) refl

push-Reaches :
    (host : Host) (user_path : Bytes) (argv : List Bytes) (p : Program) (o : Option (List Bytes))
    → Reaches host user_path argv p
    → Results (Reaches host user_path argv) (push host p o)
unfolding push
push-Reaches host user_path argv p none r = r
push-Reaches host user_path argv p (some new) r =
    Results-if (Reaches host user_path argv) (is_negative (host.push_argv new)) _ (done p) (λ e. tt)
      (λ e. r)

pushed-Reaches :
    (host : Host) (user_path : Bytes) (argv : List Bytes) (r : Run Program)
    → Results (Reaches host user_path argv) r
    → Results (Reaches host user_path argv) (pushed host r)
unfolding pushed
pushed-Reaches host user_path argv (done p) r = push-Reaches host user_path argv p p.argv r
pushed-Reaches host user_path argv (failed status) r = tt
pushed-Reaches host user_path argv asserts r = tt
pushed-Reaches host user_path argv out_of_fuel r = tt

-- Where the arguments of the tracee can be read and expand_shebang succeeds, the program and the
-- arguments that it leaves are those that the rule of execve(2) leads to: a script is run as its
-- interpreter with the optional argument, the path of the script and the arguments from the second
-- on, again and again until the program is executable and no script. The host path that it leaves
-- is that of this last program.
pub expand_shebang-Interprets :
    (host : Host) (user_path : Bytes) (argv : List Bytes) (p : Program)
    → host.fetch_argv ≡ done argv
    → expand_shebang host user_path ≡ done p
    → (last : List Bytes) × (argv_of host p.argv ≡ done last)
      × Interprets host user_path argv p.user_path p.host_path last
unfolding expand_shebang argv_of
expand_shebang-Interprets host user_path argv p a e =
    subst (Results (Reaches host user_path argv)) e (
      pushed-Reaches host user_path argv _ (
        expand-Reaches host host.env.max_symlinks
          (record { host_path = []; user_path = user_path; argv = none; has_shebang = false }) argv
          a))
