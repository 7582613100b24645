-- ===== src/Translate/Link/Safe.antt =====
-- The links of core/proot/src/main/cpp/path/canon.c that are not followed lead to safe paths.
use re_terminal.Translate.Results.{Results, Results-if}
use re_terminal.Prelude.{ℕ, some, length, ◌==◌, if◌then◌else◌}
use re_terminal.Prelude.Int.{ℤ, is_negative, minus_enametoolong}
use re_terminal.Path.{Bytes, path_max}
use re_terminal.Path.Component.{Finality, not_final, final_normal, final_slash, final_dot}
use re_terminal.Translate.{Surroundings, Run, done, failed, asserts, out_of_fuel}
use re_terminal.Translate.SafePath.{IsName, IsSafe}
use re_terminal.Translate.Proc.{
  Action, default, refused, canonicalize_it, dont_canonicalize, readlink_proc,
}
use re_terminal.Translate.Proc.Safe.{ActionIsSafe, readlink_proc-IsSafe}
use re_terminal.Translate.Link.{
  Destination, target, final_path, Link, read, leads, link_of, target_of, read_target, resolve,
  dereference, proc_base,
}
use re_terminal.Translate.Detranslate.{detranslate_path}

abbrev LinkIsSafe : Link → Type 0
LinkIsSafe read = Unit {0}
LinkIsSafe (leads (target path)) = Unit {0}
LinkIsSafe (leads (final_path path)) = IsSafe path

abbrev pub LeadsSafely : Destination → Type 0
LeadsSafely (target path) = Unit {0}
LeadsSafely (final_path path) = IsSafe path

link_of-IsSafe :
    (finality : Finality) (action : Action)
    → ActionIsSafe action
    → Results LinkIsSafe (link_of finality action)
unfolding link_of
link_of-IsSafe finality default a = tt
link_of-IsSafe finality refused a = tt
link_of-IsSafe finality (canonicalize_it path) a = tt
link_of-IsSafe not_final (dont_canonicalize path) a = tt
link_of-IsSafe final_normal (dont_canonicalize path) a = a
link_of-IsSafe final_slash (dont_canonicalize path) a = tt
link_of-IsSafe final_dot (dont_canonicalize path) a = tt

target_of-IsSafe : (r : Run (ℕ × Bytes)) → Results LeadsSafely (target_of r)
unfolding target_of
target_of-IsSafe (done (size, path)) = tt
target_of-IsSafe (failed status) = tt
target_of-IsSafe asserts = tt
target_of-IsSafe out_of_fuel = tt

read_target-IsSafe :
    (env : Surroundings) (host_path : Bytes) (r : ℤ × Bytes)
    → Results LeadsSafely (read_target env host_path r)
unfolding read_target
read_target-IsSafe env host_path (status, path) =
    let r = target_of (detranslate_path env (some host_path) path) in
    Results-if LeadsSafely (is_negative status) (failed status)
      (if length path == path_max then failed minus_enametoolong else r) (λ e. tt)
      (λ e.
        Results-if LeadsSafely (length path == path_max) (failed minus_enametoolong) r (λ k. tt)
          (λ k. target_of-IsSafe (detranslate_path env (some host_path) path)))

resolve-IsSafe :
    (env : Surroundings) (host_path : Bytes) (r : Run Link)
    → Results LinkIsSafe r
    → Results LeadsSafely (resolve env host_path r)
unfolding resolve
resolve-IsSafe env host_path (done read) s =
    read_target-IsSafe env host_path (env.read_link host_path)
resolve-IsSafe env host_path (done (leads (target path))) s = tt
resolve-IsSafe env host_path (done (leads (final_path path))) s = s
resolve-IsSafe env host_path (failed status) s = tt
resolve-IsSafe env host_path asserts s = tt
resolve-IsSafe env host_path out_of_fuel s = tt

pub dereference-IsSafe :
    (env : Surroundings) (finality : Finality) (guest component host : Bytes)
    → IsName component
    → Results LeadsSafely (dereference env finality guest component host)
unfolding dereference
dereference-IsSafe env finality guest component host h =
    let (comparison, base) = proc_base env guest in
    let action = readlink_proc env.known env.pid base component comparison in
    resolve-IsSafe env host (link_of finality action) (
      link_of-IsSafe finality action
        (readlink_proc-IsSafe env.known env.pid base component comparison h))
