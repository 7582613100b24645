-- ===== src/Translate/Link.antt =====
-- The links in canonicalize of core/proot/src/main/cpp/path/canon.c: where a link leads, and the
-- names of descriptors.
pub mod Ends
pub mod Safe
use re_terminal.Prelude.{
  ℕ, Bool, true, false, ◌||◌, Option, none, some, [], ◌∷◌, ◌++◌, ◌==◌, same, length, if◌then◌else◌,
}
use re_terminal.Prelude.Int.{ℤ, is_negative, minus_enametoolong, minus_eperm}
use re_terminal.Path.{Bytes, slash, path_max, Comparison}
use re_terminal.Path.Compare.{compare_paths}
use re_terminal.Path.Component.{Finality, final_normal}
use re_terminal.Binding.{guest_side, is_equal_or_under}
use re_terminal.Binding.Lookup.{substitute_binding}
use re_terminal.Translate.{Surroundings, Run, done, failed, asserts, out_of_fuel}
use re_terminal.Translate.Proc.{
  Action, default, refused, canonicalize_it, dont_canonicalize, proc, slash_fd, is_digit,
  skip_spaces, starts_with_digit, signed, readlink_proc,
}
use re_terminal.Translate.Detranslate.{detranslate_path}

-- The guest path, or the host path of its binding where that is another one, which is compared
-- with "/proc".
unfoldable pub proc_base : Surroundings → Bytes → Comparison × Bytes
unfolding is_equal_or_under substitute_binding
proc_base env guest_path =
    let comparison = compare_paths proc guest_path in
    let alias_base = (substitute_binding env.bindings guest_side guest_path).1 in
    if is_equal_or_under comparison || same alias_base guest_path
    then (comparison, guest_path)
    else (compare_paths proc alias_base, alias_base)

-- Where a link leads: its target is to be canonicalized, or the path is final.
pub data Destination : Type 0 where
  target final_path : Bytes → Destination

-- What readlink_proc says of a link: it is to be read, or where it leads.
pub data Link : Type 0 where
  read : Link
  leads : Destination → Link

unfoldable pub link_of : Finality → Action → Run Link
link_of finality default = done read
link_of finality refused = failed minus_eperm
link_of finality (canonicalize_it path) = done (leads (target path))
link_of final_normal (dont_canonicalize path) = done (leads (final_path path))
link_of _ (dont_canonicalize path) = done read

unfoldable pub target_of : Run (ℕ × Bytes) → Run Destination
target_of (done (size, path)) = done (target path)
target_of (failed status) = failed status
target_of asserts = asserts
target_of out_of_fuel = out_of_fuel

-- readlink(2), which tells a negative status or the length, and detranslate_path.
unfoldable pub read_target : Surroundings → Bytes → ℤ × Bytes → Run Destination
unfolding target_of detranslate_path
read_target env host_path (status, path) =
    if is_negative status
    then failed status
    else if length path == path_max
    then failed minus_enametoolong
    else target_of (detranslate_path env (some host_path) path)

unfoldable pub resolve : Surroundings → Bytes → Run Link → Run Destination
unfolding read_target
resolve env host_path (done read) = read_target env host_path (env.read_link host_path)
resolve env host_path (done (leads destination)) = done destination
resolve env host_path (failed status) = failed status
resolve env host_path asserts = asserts
resolve env host_path out_of_fuel = out_of_fuel

unfoldable pub dereference : Surroundings → Finality → Bytes → Bytes → Bytes → Run Destination
unfolding resolve link_of proc_base readlink_proc
dereference env finality guest_path component host_path =
    let (comparison, base) = proc_base env guest_path in
    resolve env host_path
      (link_of finality (readlink_proc env.known env.pid base component comparison))

strip_prefix : Bytes → Bytes → Option Bytes
strip_prefix [] path = some path
strip_prefix (p ∷ ps) [] = none
strip_prefix (p ∷ ps) (c ∷ cs) =
    let further = strip_prefix ps cs in if p == c then further else none

skip_digits : Bytes → Bytes
skip_digits [] = []
skip_digits (c ∷ cs) = let further = skip_digits cs in if is_digit c then further else c ∷ cs

-- %d of scanf: what follows the number.
scan_number : Bytes → Option Bytes
unfolding skip_digits
scan_number text =
    let rest = (signed (skip_spaces text)).1 in
    if starts_with_digit rest then some (skip_digits rest) else none

-- sscanf(path, "/proc/%*d/fd/%d") == 1
unfoldable pub named_descriptor : Bytes → Bool
unfolding strip_prefix scan_number
named_descriptor path = elim (strip_prefix (proc ++ (slash ∷ [])) path) [
  | none ↦ false
  | some text ↦ elim (scan_number text) [
    | none ↦ false
    | some behind ↦ elim (strip_prefix (slash_fd ++ (slash ∷ [])) behind) [
      | none ↦ false
      | some number ↦ elim (scan_number number) [ none ↦ false | some _ ↦ true ]
    ]
  ]
]
