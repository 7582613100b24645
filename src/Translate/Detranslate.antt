-- ===== src/Translate/Detranslate.antt =====
-- detranslate_path of core/proot/src/main/cpp/path/path.c: the guest form of a host path.
pub mod Ends
use re_terminal.Prelude.{
  ℕ, zero, suc, ◌+◌, Bool, true, false, not, Option, none, some, List, [], ◌∷◌, leb, ◌==◌, length,
  drop, if◌then◌else◌,
}
use re_terminal.Prelude.Int.{ℤ, minus_enametoolong, minus_eperm}
use re_terminal.Path.{
  Bytes, slash, path_max, Comparison, paths_are_equal, path1_is_prefix, path2_is_prefix,
  paths_are_not_comparable,
}
use re_terminal.Path.Compare.{byte_at, compare_paths}
use re_terminal.Binding.{Bindings, host_side, is_equal, get_root, belongs_to_guestfs}
use re_terminal.Binding.Lookup.{
  get_path_binding, substitute_binding, Substitution, no_entry, symmetric, asymmetric, no_access,
}
use re_terminal.Translate.{Surroundings, Run, done, failed, asserts, out_of_fuel}
use re_terminal.Translate.Proc.{proc, is_prefix, readlink_proc2}

-- What the referrer, a symbolic link, says of its target: the answer is known, or whether bindings
-- are followed.
pub data Referral : Type 0 where
  answered : Bytes → Referral
  follows : Bool → Referral

from_proc : Run (Option Bytes) → Run Referral
from_proc (done none) = done (follows true)
from_proc (done (some link)) = done (answered link)
from_proc (failed status) = failed status
from_proc asserts = asserts
from_proc out_of_fuel = out_of_fuel

-- The bindings of the target and of the referrer.
same_binding : Option Bytes → Option Bytes → Run Referral
unfolding is_equal
same_binding referree none = asserts
same_binding none (some referrer) = done (follows false)
same_binding (some referree) (some referrer) =
    done (follows (is_equal (compare_paths referree referrer)))

unfoldable pub referral : Surroundings → Bytes → Bytes → Run Referral
unfolding from_proc same_binding is_prefix readlink_proc2 belongs_to_guestfs get_path_binding
referral env t_referrer path =
    let b = env.bindings in
    if is_prefix (compare_paths proc t_referrer)
    then from_proc (readlink_proc2 env.known env.pid t_referrer)
    else if not (belongs_to_guestfs b t_referrer)
    then same_binding (get_path_binding b host_side path) (get_path_binding b host_side t_referrer)
    else done (follows false)

-- By the comparison of the root with the path. The number is the length with the terminator, or 0.
stripped : Bytes → Bool → Bytes → Comparison → Run (ℕ × Bytes)
stripped root sanity_check path path1_is_prefix =
    let prefix_length = if length root == 1 then 0 else length root in
    done (length (drop prefix_length path) + 1, drop prefix_length path)
stripped root sanity_check path paths_are_equal = done (2, slash ∷ [])
stripped root sanity_check path _ = if sanity_check then failed minus_eperm else done (0, path)

-- Removes the root from the path.
unfoldable pub strip_root : Bytes → Bool → Bytes → Run (ℕ × Bytes)
unfolding stripped
strip_root root sanity_check path = stripped root sanity_check path (compare_paths root path)

followed : Surroundings → Bool → Bytes → Substitution × Bytes → Run (ℕ × Bytes)
unfolding strip_root get_root
followed env sanity_check path (symmetric, path') = done (0, path')
followed env sanity_check path (asymmetric, path') = done (length path' + 1, path')
followed env sanity_check path (_, path') = strip_root (get_root env.bindings) sanity_check path

by_referral : Surroundings → Bool → Bytes → Run Referral → Run (ℕ × Bytes)
unfolding followed substitute_binding
by_referral env sanity_check path (done (answered link)) = done (length link + 1, link)
by_referral env sanity_check path (done (follows true)) =
    followed env sanity_check path (substitute_binding env.bindings host_side path)
by_referral env sanity_check path (done (follows false)) =
    strip_root (get_root env.bindings) sanity_check path
by_referral env sanity_check path (failed status) = failed status
by_referral env sanity_check path asserts = asserts
by_referral env sanity_check path out_of_fuel = out_of_fuel

by_referrer : Surroundings → Bytes → Option Bytes → Run (ℕ × Bytes)
unfolding by_referral referral
by_referrer env path none = by_referral env true path (done (follows true))
by_referrer env path (some referrer) = by_referral env false path (referral env referrer path)

-- `none` is a path that no link refers to.
unfoldable pub detranslate_path : Surroundings → Option Bytes → Bytes → Run (ℕ × Bytes)
unfolding by_referrer
detranslate_path env t_referrer path =
    if leb path_max (length path)
    then failed minus_enametoolong
    else if not (byte_at path 0 == slash)
    then done (0, path)
    else by_referrer env path t_referrer
