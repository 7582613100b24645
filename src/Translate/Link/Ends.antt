-- ===== src/Translate/Link/Ends.antt =====
-- substitute_binding_stat and the links of core/proot/src/main/cpp/path/canon.c run out of no fuel.
use re_terminal.Prelude.{ℕ, Bool, ◌&&◌, ◌==◌}
use re_terminal.Prelude.Int.{ℤ}
use re_terminal.Path.{Bytes}
use re_terminal.Path.Component.{Finality, not_final, final_normal, final_slash, final_dot}
use re_terminal.Binding.{guest_side}
use re_terminal.Binding.Lookup.{
  substitute_binding, Substitution, no_entry, symmetric, asymmetric, no_access,
}
use re_terminal.Translate.{
  Surroundings, FileKind, missing, denied, directory, symlink, other_kind, Run, done, failed,
  asserts, out_of_fuel,
}
use re_terminal.Translate.Proc.{
  Action, default, refused, canonicalize_it, dont_canonicalize, readlink_proc,
}
use re_terminal.Translate.Detranslate.Ends.{Ends, Ends-if, detranslate_path-Ends}
use re_terminal.Translate.Stat.{
  is_final, stat_of, with_path, behind_event, behind_binding, substitute_binding_stat,
}
use re_terminal.Translate.Link.{
  Link, read, leads, link_of, target_of, read_target, resolve, dereference, proc_base,
}

stat_of-Ends : (finality : Finality) (kind : FileKind) → Ends (stat_of finality kind)
unfolding stat_of
stat_of-Ends finality directory = tt
stat_of-Ends finality symlink = tt
stat_of-Ends finality other_kind = search (Ends-if) depth 3
stat_of-Ends finality missing = search (Ends-if) depth 3
stat_of-Ends finality denied = search (Ends-if) depth 3

with_path-Ends : (host_path : Bytes) (r : Run Bool) → Ends r → Ends (with_path host_path r)
unfolding with_path
with_path-Ends host_path (done link) e = tt
with_path-Ends host_path (failed status) e = tt
with_path-Ends host_path asserts e = tt
with_path-Ends host_path out_of_fuel e = e

event-Ends :
    (env : Surroundings) (finality : Finality) (r : ℤ × Bytes) → Ends (behind_event env finality r)
unfolding behind_event
event-Ends env finality r = search (Ends-if, with_path-Ends, stat_of-Ends) depth 5

binding-Ends :
    (env : Surroundings) (finality : Finality) (level : ℕ) (r : Substitution × Bytes)
    → Ends (behind_binding env finality level r)
unfolding behind_binding
binding-Ends env finality level (no_entry, path) = tt
binding-Ends env finality level (no_access, path) = tt
binding-Ends env finality level (symmetric, path) =
    event-Ends env finality (env.host_event path (is_final finality && level == 0))
binding-Ends env finality level (asymmetric, path) =
    event-Ends env finality (env.host_event path (is_final finality && level == 0))

pub stat-Ends :
    (env : Surroundings) (finality : Finality) (level : ℕ) (path : Bytes)
    → Ends (substitute_binding_stat env finality level path)
unfolding substitute_binding_stat
stat-Ends env finality level path =
    binding-Ends env finality level (substitute_binding env.bindings guest_side path)

link_of-Ends : (finality : Finality) (action : Action) → Ends (link_of finality action)
unfolding link_of
link_of-Ends finality default = tt
link_of-Ends finality refused = tt
link_of-Ends finality (canonicalize_it path) = tt
link_of-Ends not_final (dont_canonicalize path) = tt
link_of-Ends final_normal (dont_canonicalize path) = tt
link_of-Ends final_slash (dont_canonicalize path) = tt
link_of-Ends final_dot (dont_canonicalize path) = tt

target_of-Ends : (r : Run (ℕ × Bytes)) → Ends r → Ends (target_of r)
unfolding target_of
target_of-Ends (done (size, path)) e = tt
target_of-Ends (failed status) e = tt
target_of-Ends asserts e = tt
target_of-Ends out_of_fuel e = e

read_target-Ends :
    (env : Surroundings) (host_path : Bytes) (r : ℤ × Bytes) → Ends (read_target env host_path r)
unfolding read_target
read_target-Ends env host_path r = search (Ends-if, target_of-Ends, detranslate_path-Ends) depth 6

resolve-Ends :
    (env : Surroundings) (host_path : Bytes) (r : Run Link)
    → Ends r
    → Ends (resolve env host_path r)
unfolding resolve
resolve-Ends env host_path (done read) e = read_target-Ends env host_path (env.read_link host_path)
resolve-Ends env host_path (done (leads d)) e = tt
resolve-Ends env host_path (failed status) e = tt
resolve-Ends env host_path asserts e = tt
resolve-Ends env host_path out_of_fuel e = e

pub dereference-Ends :
    (env : Surroundings) (finality : Finality) (guest component host : Bytes)
    → Ends (dereference env finality guest component host)
unfolding dereference
dereference-Ends env finality guest component host =
    let (comparison, base) = proc_base env guest in
    let action = readlink_proc env.known env.pid base component comparison in
    resolve-Ends env host (link_of finality action) (link_of-Ends finality action)
