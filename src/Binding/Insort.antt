-- ===== src/Binding/Insort.antt =====
-- insort_binding, insort_binding2 and insort_binding3 of path/binding.c, and the removal of a
-- binding from every list. A list's end, its HEAD, is `none`.
pub mod Ordered
pub mod Placement
pub mod Invariant
use re_terminal.Prelude.{
  ℕ, Bool, true, false, not, Option, none, some, List, [], ◌∷◌, ◌==◌, length, if◌then◌else◌,
}
use re_terminal.Path.{
  Bytes, Comparison, paths_are_equal, path1_is_prefix, path2_is_prefix, paths_are_not_comparable,
}
use re_terminal.Path.Compare.{compare_paths, compare_paths2}
use re_terminal.Binding.{
  CachedPath, Binding, Bindings, Side, guest_side, host_side, pending_side, head_of, with_head,
  side_path, is_equal,
}

-- CIRCLEQ_REMOVE of the binding at an address; nothing happens where it is not linked.
pub remove : ℕ → List Binding → List Binding
remove id [] = []
remove id (b ∷ rest) = if b.id == id then rest else b ∷ remove id rest

pub insert_after : ℕ → Binding → List Binding → List Binding
insert_after previous binding [] = []
insert_after previous binding (b ∷ rest) =
    if b.id == previous then b ∷ binding ∷ rest else b ∷ insert_after previous binding rest

pub insert_before : ℕ → Binding → List Binding → List Binding
insert_before next binding [] = []
insert_before next binding (b ∷ rest) =
    if b.id == next then binding ∷ b ∷ rest else b ∷ insert_before next binding rest

pub remove_binding_from_all_lists : ℕ → Bindings → Bindings
unfolding remove
remove_binding_from_all_lists id b = record b {
  pending = remove id b.pending;
  guest = remove id b.guest;
  host = remove id b.host;
}

-- Where the loop of insort_binding ends: in the place of a binding, or with `previous` and `next`.
pub data Place : Type 0 where
  replaces : ℕ → Place
  between : Option ℕ → Option ℕ → Place

pub first_id : List Binding → Option ℕ
first_id [] = none
first_id (b ∷ rest) = some b.id

pub compare_bindings : Side → Binding → Binding → Comparison
compare_bindings side binding iterator =
    let binding_path = side_path side binding in
    let iterator_path = side_path side iterator in
    compare_paths2 binding_path.path binding_path.len iterator_path.path iterator_path.len

-- `next` is set in the PATH2_IS_PREFIX case only where it is still HEAD.
pub or_else : Option ℕ → ℕ → Option ℕ
or_else none id = some id
or_else (some next) id = some next

pub find_place : Side → Binding → Option ℕ → Option ℕ → List Binding → Place
unfolding or_else
find_place side binding previous next [] = between previous next
find_place side binding previous next (iterator ∷ rest) =
    let onwards = find_place side binding previous next rest in
    let after = find_place side binding (some iterator.id) next rest in
    let before = find_place side binding previous (or_else next iterator.id) rest in
    elim (compare_bindings side binding iterator) [
      | paths_are_equal ↦ elim side [ host_side ↦ after | _ ↦ replaces iterator.id ]
      | path1_is_prefix ↦ after
      | path2_is_prefix ↦ before
      | paths_are_not_comparable ↦ onwards
    ]

pub put_at : Side → Binding → Bindings → Place → Bindings
unfolding insert_after insert_before remove_binding_from_all_lists
put_at side binding b (replaces id) =
    remove_binding_from_all_lists id (with_head b side (insert_after id binding (head_of b side)))
put_at side binding b (between (some previous) next) =
    with_head b side (insert_after previous binding (head_of b side))
put_at side binding b (between none (some next)) =
    with_head b side (insert_before next binding (head_of b side))
put_at side binding b (between none none) = with_head b side (binding ∷ head_of b side)

unfoldable pub insort_binding : Side → Binding → Bindings → Bindings
unfolding put_at find_place first_id compare_bindings head_of with_head side_path
insort_binding side binding b =
    put_at side binding b
      (find_place side binding none (first_id (head_of b side)) (head_of b side))

unfoldable pub insort_binding2 : Binding → Bindings → Bindings
unfolding insort_binding is_equal
insort_binding2 binding b =
    let linked = record binding {
      need_substitution = not (is_equal (compare_paths binding.host.path binding.guest.path));
    } in
    insort_binding host_side linked (insort_binding guest_side linked b)

-- talloc_zero gives the new binding an address of its own.
unfoldable pub insort_binding3 : ℕ → Bytes → Bytes → Bindings → Bindings
unfolding insort_binding2
insort_binding3 id host_path guest_path b =
    insort_binding2
      (record {
        id = id;
        host = record { path = host_path; len = length host_path };
        guest = record { path = guest_path; len = length guest_path };
        need_substitution = false;
      })
      b
