-- ===== src/Translate/Detranslate/Ends.antt =====
-- Functions of the translation that do not run out of fuel.
use re_terminal.Prelude.{Bool, true, false, Option, none, some, [], ◌∷◌, if◌then◌else◌}
use re_terminal.Prelude.Int.{ℤ}
use re_terminal.Path.{
  Bytes, Comparison, paths_are_equal, path1_is_prefix, path2_is_prefix, paths_are_not_comparable,
}
use re_terminal.Path.Compare.{compare_paths}
use re_terminal.Binding.{host_side, get_root}
use re_terminal.Binding.Lookup.{
  substitute_binding, Substitution, no_entry, symmetric, asymmetric, no_access,
}
use re_terminal.Translate.{Surroundings, Known, Run, done, failed, asserts, out_of_fuel}
use re_terminal.Translate.Proc.{readlink_split, readlink_proc2}
use re_terminal.Translate.Detranslate.{
  Referral, answered, follows, from_proc, same_binding, referral, stripped, strip_root, followed,
  by_referral, by_referrer, detranslate_path,
}

abbrev pub Ends {ℓ} : {A : Type ℓ} → Run A → Type 0
Ends (done a) = Unit {0}
Ends (failed status) = Unit {0}
Ends asserts = Unit {0}
Ends out_of_fuel = ⊥

pub Ends-if {ℓ} :
    {A : Type ℓ} (b : Bool) (x y : Run A) → Ends x → Ends y → Ends (if b then x else y)
Ends-if true x y p q = p
Ends-if false x y p q = q

split-Ends :
    (known : ℤ → Option Known) (self : ℤ) (o : Option (Bytes × Bytes))
    → Ends (readlink_split known self o)
unfolding readlink_split
split-Ends known self none = tt
split-Ends known self (some ([], component)) = tt
split-Ends known self (some (c ∷ base, [])) = tt
split-Ends known self (some (c ∷ base, d ∷ component)) = tt

proc2-Ends :
    (known : ℤ → Option Known) (self : ℤ) (referer : Bytes)
    → Ends (readlink_proc2 known self referer)
unfolding readlink_proc2
proc2-Ends known self referer = search (Ends-if, split-Ends) depth 5

from_proc-Ends : (r : Run (Option Bytes)) → Ends r → Ends (from_proc r)
unfolding from_proc
from_proc-Ends (done none) e = tt
from_proc-Ends (done (some link)) e = tt
from_proc-Ends (failed status) e = tt
from_proc-Ends asserts e = tt
from_proc-Ends out_of_fuel e = e

same_binding-Ends : (p q : Option Bytes) → Ends (same_binding p q)
unfolding same_binding
same_binding-Ends none none = tt
same_binding-Ends (some a) none = tt
same_binding-Ends none (some b) = tt
same_binding-Ends (some a) (some b) = tt

referral-Ends : (env : Surroundings) (referrer path : Bytes) → Ends (referral env referrer path)
unfolding referral
referral-Ends env referrer path =
    search (Ends-if, from_proc-Ends, proc2-Ends, same_binding-Ends) depth 6

stripped-Ends :
    (root : Bytes) (sanity_check : Bool) (path : Bytes) (c : Comparison)
    → Ends (stripped root sanity_check path c)
unfolding stripped
stripped-Ends root true path paths_are_equal = tt
stripped-Ends root true path path1_is_prefix = tt
stripped-Ends root true path path2_is_prefix = tt
stripped-Ends root true path paths_are_not_comparable = tt
stripped-Ends root false path paths_are_equal = tt
stripped-Ends root false path path1_is_prefix = tt
stripped-Ends root false path path2_is_prefix = tt
stripped-Ends root false path paths_are_not_comparable = tt

strip_root-Ends :
    (root : Bytes) (sanity_check : Bool) (path : Bytes) → Ends (strip_root root sanity_check path)
unfolding strip_root
strip_root-Ends root sanity_check path =
    stripped-Ends root sanity_check path (compare_paths root path)

followed-Ends :
    (env : Surroundings) (sanity_check : Bool) (path : Bytes) (r : Substitution × Bytes)
    → Ends (followed env sanity_check path r)
unfolding followed
followed-Ends env sanity_check path (no_entry, path') =
    strip_root-Ends (get_root env.bindings) sanity_check path
followed-Ends env sanity_check path (symmetric, path') = tt
followed-Ends env sanity_check path (asymmetric, path') = tt
followed-Ends env sanity_check path (no_access, path') =
    strip_root-Ends (get_root env.bindings) sanity_check path

by_referral-Ends :
    (env : Surroundings) (sanity_check : Bool) (path : Bytes) (r : Run Referral)
    → Ends r
    → Ends (by_referral env sanity_check path r)
unfolding by_referral
by_referral-Ends env sanity_check path (done (answered link)) e = tt
by_referral-Ends env sanity_check path (done (follows true)) e =
    followed-Ends env sanity_check path (substitute_binding env.bindings host_side path)
by_referral-Ends env sanity_check path (done (follows false)) e =
    strip_root-Ends (get_root env.bindings) sanity_check path
by_referral-Ends env sanity_check path (failed status) e = tt
by_referral-Ends env sanity_check path asserts e = tt
by_referral-Ends env sanity_check path out_of_fuel e = e

by_referrer-Ends :
    (env : Surroundings) (path : Bytes) (o : Option Bytes) → Ends (by_referrer env path o)
unfolding by_referrer
by_referrer-Ends env path none = by_referral-Ends env true path (done (follows true)) tt
by_referrer-Ends env path (some referrer) =
    by_referral-Ends env false path (referral env referrer path) (referral-Ends env referrer path)

pub detranslate_path-Ends :
    (env : Surroundings) (o : Option Bytes) (path : Bytes) → Ends (detranslate_path env o path)
unfolding detranslate_path
detranslate_path-Ends env o path = search (Ends-if, by_referrer-Ends) depth 5
