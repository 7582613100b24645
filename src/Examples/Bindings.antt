-- ===== src/Examples/Bindings.antt =====
-- Bindings of path/binding.c: "/" is bound to "/r", and "/d" to "/".
use re_terminal.Prelude.{
  get_elem?, ℕ, zero, suc, length-append, ◌≡◌, ◌≢◌, ◌⊎◌, inl, inr, refl, true, some, none, [], ◌∷◌,
  arith, length, same, ◌≤◌,
}
use re_terminal.Path.{Bytes, slash, path_max}
use re_terminal.Path.Compare.{compare_paths, compare_paths2}
use re_terminal.Path.Compare.Relation.{clean, relation, NoNul}
use re_terminal.Path.Compare.Order.{Contains}
use re_terminal.Path.Prefix.Rebase.{root, sub, more, rebased}
use re_terminal.Binding.{CachedPath, Binding, Bindings, guest_side, host_side, side_path}
use re_terminal.Binding.Lookup.{get_binding, substitute_binding, asymmetric}
use re_terminal.Binding.Lookup.Deepest.{get_binding-deepest}
use re_terminal.Binding.Lookup.Translation.{
  Joins, substitute_guest-rebased, substitute_host-rebased, substitute_binding_too_long,
}
use re_terminal.Binding.Insort.{insort_binding2}
use re_terminal.Binding.Insort.Ordered.{IsCached, IsOrdered, key}
use re_terminal.Binding.Insort.Invariant.{IsValid, insort_binding2-IsValid}
use re_terminal.Examples.{r_path, d_path, x_path}

abbrev pub root_path : Bytes
root_path = slash ∷ []

abbrev cached : Bytes → CachedPath
cached path = record { path = path; len = length path }

abbrev pub rootfs : Binding
rootfs = record { id = 1; host = cached r_path; guest = cached root_path; need_substitution = true }

abbrev data_dir : Binding
data_dir = record {
  id = 2;
  host = cached root_path;
  guest = cached d_path;
  need_substitution = true;
}

abbrev pub one : Bindings
one = record { allocated = true; pending = []; guest = rootfs ∷ []; host = rootfs ∷ [] }

r_NoNul : NoNul r_path
r_NoNul = (omega arith, (omega arith, tt))

d_NoNul : NoNul d_path
d_NoNul = (omega arith, (omega arith, tt))

root_NoNul : NoNul root_path
root_NoNul = (omega arith, tt)

r_full : r_path ≢ []
r_full e = cc

d_full : d_path ≢ []
d_full e = cc

root_full : root_path ≢ []
root_full e = cc

root-IsCached : IsCached (cached root_path)
root-IsCached = record { length_cached = refl; no_nul = root_NoNul; not_empty = root_full }

d-IsCached : IsCached (cached d_path)
d-IsCached = record { length_cached = refl; no_nul = d_NoNul; not_empty = d_full }

r-IsCached : IsCached (cached r_path)
r-IsCached = record { length_cached = refl; no_nul = r_NoNul; not_empty = r_full }

one-IsValid : IsValid one
unfolding side_path
one-IsValid = record {
  guest = record { cached = (root-IsCached, tt); sorted = (tt, tt); distinct = (tt, tt) };
  host = record { cached = (r-IsCached, tt); sorted = (tt, tt); distinct = (tt, tt) };
}

insort_binding2-IsValid_example : IsValid (insort_binding2 data_dir one)
insort_binding2-IsValid_example = insort_binding2-IsValid data_dir one one-IsValid (record {
  cached_guest = d-IsCached;
  cached_host = root-IsCached;
  fresh_guest = (omega arith, tt);
  fresh_host = (omega arith, tt);
})

abbrev two : Bindings
two = record {
  allocated = true;
  pending = [];
  guest = data_dir ∷ rootfs ∷ [];
  host = rootfs ∷ data_dir ∷ [];
}

x_NoNul : NoNul x_path
x_NoNul = (omega arith, (omega arith, (omega arith, (omega arith, tt))))

x_full : x_path ≢ []
x_full e = cc

two-IsOrdered : IsOrdered guest_side two.guest
unfolding side_path clean relation
two-IsOrdered = record {
  cached = (d-IsCached, (root-IsCached, tt));
  sorted = (((λ e. cc), tt), (tt, tt));
  distinct = ((omega arith, tt), (tt, tt));
}

found_data : get_binding two guest_side x_path ≡ some data_dir
unfolding get_binding compare_paths compare_paths2 same
found_data = refl

in_root : Contains (key guest_side rootfs) (clean x_path)
unfolding side_path clean relation
in_root = inr refl

get_binding-deepest_example :
    (x : Binding) × (get_binding two guest_side x_path ≡ some x)
    × ((j : ℕ) × (get_elem? two.guest j ≡ some x))
    × Contains (key guest_side x) (clean x_path)
    × Contains (key guest_side rootfs) (key guest_side x)
get_binding-deepest_example =
    get_binding-deepest two x_path rootfs 1 x_NoNul x_full two-IsOrdered refl in_root

abbrev only_data : Bindings
only_data = record { allocated = true; pending = []; guest = data_dir ∷ []; host = data_dir ∷ [] }

only-IsOrdered : IsOrdered guest_side only_data.guest
unfolding side_path
only-IsOrdered = record { cached = (d-IsCached, tt); sorted = (tt, tt); distinct = (tt, tt) }

found_none : get_binding only_data guest_side r_path ≡ none
unfolding get_binding compare_paths compare_paths2 same
found_none = refl

data-Joins : Joins data_dir (sub b'd' []) root
data-Joins = record {
  guest_path = refl;
  guest_len = refl;
  host_path = refl;
  host_len = refl;
  substituted = refl;
}

sub_or_root : (sub b'd' [] ≢ root) ⊎ (root ≢ root)
sub_or_root = inl (λ e. cc)

substitute_guest-rebased_example :
    substitute_binding two guest_side x_path ≡ (asymmetric, b'/' ∷ b'x' ∷ [])
substitute_guest-rebased_example =
    substitute_guest-rebased two data_dir (sub b'd' []) root (more b'x' []) data-Joins sub_or_root
      (omega arith) found_data

found_host : get_binding only_data host_side (b'/' ∷ b'x' ∷ []) ≡ some data_dir
unfolding get_binding compare_paths compare_paths2 same
found_host = refl

root_or_sub : (root ≢ root) ⊎ (sub b'd' [] ≢ root)
root_or_sub = inr (λ e. cc)

substitute_host-rebased_example :
    substitute_binding only_data host_side (b'/' ∷ b'x' ∷ []) ≡ (asymmetric, x_path)
substitute_host-rebased_example =
    substitute_host-rebased only_data data_dir (sub b'd' []) root (more b'x' []) data-Joins
      root_or_sub (omega arith) found_host

abbrev many : ℕ → Bytes
many zero = []
many (suc n) = b'a' ∷ many n

length-many : (n : ℕ) → length (many n) ≡ n
length-many zero = refl
length-many (suc n) = omega (arith, length-many n)

-- "/d" bound to a directory whose path is as long as PATH_MAX.
abbrev deep : Binding
deep = record {
  id = 3;
  host = cached (slash ∷ b'h' ∷ many 4094);
  guest = cached d_path;
  need_substitution = true;
}

abbrev with_deep : Bindings
with_deep = record { allocated = true; pending = []; guest = deep ∷ []; host = deep ∷ [] }

deep-Joins : Joins deep (sub b'd' []) (sub b'h' (many 4094))
deep-Joins = record {
  guest_path = refl;
  guest_len = refl;
  host_path = refl;
  host_len = refl;
  substituted = refl;
}

deep_too_long : path_max ≤ length (rebased (sub b'h' (many 4094)) (more b'x' []))
deep_too_long = omega (arith, length-many 4094, length-append (many 4094) (slash ∷ b'x' ∷ []))

found_deep : get_binding with_deep guest_side x_path ≡ some deep
unfolding get_binding compare_paths compare_paths2 same
found_deep = refl

substitute_binding_too_long_example :
    substitute_binding with_deep guest_side x_path ≡ (asymmetric, x_path)
substitute_binding_too_long_example =
    substitute_binding_too_long with_deep deep b'd' b'h' [] (many 4094) (more b'x' []) deep-Joins
      found_deep deep_too_long
