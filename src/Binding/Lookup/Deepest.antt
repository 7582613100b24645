-- ===== src/Binding/Lookup/Deepest.antt =====
-- The search of get_binding in core/proot/src/main/cpp/path/binding.c, on the ordered guest list.
use re_terminal.Prelude.{
  ℕ, get_elem?, All-get_elem?, ◌≡◌, ◌≢◌, refl, ap, sym, subst, suc, Option, inl, inr, true, false,
  none, some, List, [], ◌∷◌, arith, length, All, Bool-cases,
}
use re_terminal.Path.{
  Bytes, Comparison, paths_are_equal, path1_is_prefix, path2_is_prefix, paths_are_not_comparable,
}
use re_terminal.Path.Compare.{compare_paths, compare_paths2}
use re_terminal.Path.Compare.Relation.{clean, relation, NoNul, compare_paths-relation}
use re_terminal.Path.Compare.Order.{Contains, Contains-branch, relation-eq, relation_refl}
use re_terminal.Binding.{Binding, Bindings, Side, guest_side, side_path, is_equal_or_under}
use re_terminal.Binding.Insort.Ordered.{IsCached, key, NotOver, IsOrdered}
use re_terminal.Binding.Lookup.{skips_guestfs, covers, search_list, get_binding}

is_equal_or_under-Contains : (s t : Bytes) → is_equal_or_under (relation s t) ≡ true → Contains s t
unfolding is_equal_or_under
is_equal_or_under-Contains s t h = by_value (relation s t) refl h
  where
    by_value : (c : Comparison) → relation s t ≡ c → is_equal_or_under c ≡ true → Contains s t
    by_value paths_are_equal e k = inl (relation-eq s t e)
    by_value path1_is_prefix e k = inr e
    by_value path2_is_prefix e k = cc
    by_value paths_are_not_comparable e k = cc

Contains-is_equal_or_under : (s t : Bytes) → Contains s t → is_equal_or_under (relation s t) ≡ true
unfolding is_equal_or_under
Contains-is_equal_or_under s t (inl e) =
    subst (λ k. is_equal_or_under (relation s k) ≡ true) e (rw (relation_refl s))
Contains-is_equal_or_under s t (inr e) = rw e

module _ (b : Bindings) (side : Side) (path : Bytes) (no_nul : NoNul path)
    (not_empty : path ≢ []) where
  cached-relation :
      (x : Binding)
      → IsCached (side_path side x)
      → compare_paths2 (side_path side x).path (side_path side x).len path (length path)
        ≡ relation (key side x) (clean path)
  unfolding compare_paths
  cached-relation x c =
      subst
        (λ n.
          compare_paths2 (side_path side x).path n path (length path)
          ≡ relation (key side x) (clean path))
        (sym c.length_cached)
        (compare_paths-relation (side_path side x).path path c.no_nul no_nul c.not_empty not_empty)

  covers-Contains :
      (x : Binding)
      → IsCached (side_path side x)
      → covers b side path x ≡ true
      → Contains (key side x) (clean path)
  unfolding covers
  covers-Contains x c h =
      is_equal_or_under-Contains (key side x) (clean path) (ground (arith, cached-relation x c))

  -- What the search has found lies deepest of all that it would accept.
  search_list-deepest :
      (l : List Binding) (x : Binding)
      → IsOrdered side l
      → search_list b side path l ≡ some x
      → Contains (key side x) (clean path)
        × All (λ y. covers b side path y ≡ true → Contains (key side y) (key side x)) l
  unfolding search_list
  search_list-deepest [] x o h = cc
  search_list-deepest (z ∷ zs) x o h = elim (Bool-cases (covers b side path z)) [
    | inl e ↦
        let same : z ≡ x = ground arith in
        let on_path = covers-Contains z o.cached.0 e in
        subst
          (λ w.
            Contains (key side w) (clean path)
            × All (λ y. covers b side path y ≡ true → Contains (key side y) (key side w)) (z ∷ zs))
          same (on_path, ((λ _. inl refl), later z zs on_path o.cached.1 o.sorted.0))
    | inr e ↦
        let (on_path, rest) =
          search_list-deepest zs x
            (record { cached = o.cached.1; sorted = o.sorted.1; distinct = o.distinct.1 })
            (ground arith) in
        (on_path, ((λ k. cc), rest))
  ]
    where
      later :
          (z : Binding) (ys : List Binding)
          → Contains (key side z) (clean path)
          → All (λ y. IsCached (side_path side y)) ys
          → All (NotOver side z) ys
          → All (λ y. covers b side path y ≡ true → Contains (key side y) (key side z)) ys
      later z [] on_path c n = tt
      later z (y ∷ ys) on_path c n = (
        (λ k.
            Contains-branch (key side z) (key side y) (clean path) on_path (covers-Contains y c.0 k)
              n.0),
        later z ys on_path c.1 n.1,
      )

  search_list-none :
      (l : List Binding)
      → IsOrdered side l
      → search_list b side path l ≡ none
      → All (λ y. covers b side path y ≡ false) l
  unfolding search_list
  search_list-none [] o h = tt
  search_list-none (z ∷ zs) o h = elim (Bool-cases (covers b side path z)) [
    | inl e ↦ ground arith
    | inr e ↦ (
      e,
      search_list-none zs
          (record { cached = o.cached.1; sorted = o.sorted.1; distinct = o.distinct.1 })
          (ground arith),
    )
  ]

  -- On the guest side every binding that contains the path is accepted.
  covers_guest :
      (y : Binding)
      → side ≡ guest_side
      → IsCached (side_path side y)
      → Contains (key side y) (clean path)
      → covers b side path y ≡ true
  unfolding covers skips_guestfs
  covers_guest y e c k =
      ground (arith, cached-relation y c, Contains-is_equal_or_under (key side y) (clean path) k)

module _ (b : Bindings) (path : Bytes) where
  accepted :
      (x : Binding) (l : List Binding)
      → NoNul path
      → path ≢ []
      → All (λ y. IsCached (side_path guest_side y)) l
      → All
          (λ y. covers b guest_side path y ≡ true → Contains (key guest_side y) (key guest_side x))
          l
      → All
          (λ y.
            Contains (key guest_side y) (clean path)
            → Contains (key guest_side y) (key guest_side x))
          l
  accepted x [] n e c h = tt
  accepted x (y ∷ ys) n e c h =
      ((λ k. h.0 (covers_guest b guest_side path n e y refl c.0 k)), accepted x ys n e c.1 h.1)

  rejected :
      (l : List Binding)
      → NoNul path
      → path ≢ []
      → All (λ y. IsCached (side_path guest_side y)) l
      → All (λ y. covers b guest_side path y ≡ false) l
      → All (λ y. ¬ Contains (key guest_side y) (clean path)) l
  rejected [] n e c h = tt
  rejected (y ∷ ys) n e c h =
      ((λ k. cc (covers_guest b guest_side path n e y refl c.0 k, h.0)), rejected ys n e c.1 h.1)

  -- On an ordered guest list and for a C string that is not empty, where get_binding finds nothing
  -- on the guest side, no guest binding contains the path.
  pub get_binding-none :
      NoNul path
      → path ≢ []
      → IsOrdered guest_side b.guest
      → get_binding b guest_side path ≡ none
      → All (λ y. ¬ Contains (key guest_side y) (clean path)) b.guest
  unfolding get_binding
  get_binding-none n e o h =
      rejected b.guest n e o.cached (search_list-none b guest_side path n e b.guest o h)

  -- What is found is in the list.
  search_list-member :
      (l : List Binding) (x : Binding)
      → search_list b guest_side path l ≡ some x
      → (j : ℕ) × (get_elem? l j ≡ some x)
  unfolding search_list
  search_list-member [] x h = cc
  search_list-member (z ∷ zs) x h = elim (Bool-cases (covers b guest_side path z)) [
    | inl e ↦ let same : z ≡ x = ground arith in (0, ap some same)
    | inr e ↦ let (j, at) = search_list-member zs x (ground arith) in (suc j, at)
  ]

  -- By what the search gives.
  found-deepest :
      (y : Binding) (i : ℕ) (o : Option Binding)
      → NoNul path
      → path ≢ []
      → IsOrdered guest_side b.guest
      → get_elem? b.guest i ≡ some y
      → Contains (key guest_side y) (clean path)
      → get_binding b guest_side path ≡ o
      → (x : Binding) × (o ≡ some x)
        × ((j : ℕ) × (get_elem? b.guest j ≡ some x))
        × Contains (key guest_side x) (clean path)
        × Contains (key guest_side y) (key guest_side x)
  unfolding get_binding
  found-deepest y i none n e o at c h = absurd (
      All-get_elem? (λ z. ¬ Contains (key guest_side z) (clean path)) b.guest i y at
        (get_binding-none n e o h) c)
  found-deepest y i (some x) n e o at c h =
      let (on_path, deepest) = search_list-deepest b guest_side path n e b.guest x o h in
      (
        x,
        refl,
        search_list-member b.guest x h,
        on_path,
        All-get_elem?
            (λ z.
              Contains (key guest_side z) (clean path)
              → Contains (key guest_side z) (key guest_side x))
            b.guest i y at (accepted x b.guest n e o.cached deepest) c,
      )

  -- On an ordered guest list and for a C string that is not empty, if the directory of some guest
  -- binding contains the path, get_binding finds a binding of the list whose directory contains
  -- the path, and the directory of each binding that contains the path contains the one found.
  pub get_binding-deepest :
      (y : Binding) (i : ℕ)
      → NoNul path
      → path ≢ []
      → IsOrdered guest_side b.guest
      → get_elem? b.guest i ≡ some y
      → Contains (key guest_side y) (clean path)
      → (x : Binding) × (get_binding b guest_side path ≡ some x)
        × ((j : ℕ) × (get_elem? b.guest j ≡ some x))
        × Contains (key guest_side x) (clean path)
        × Contains (key guest_side y) (key guest_side x)
  get_binding-deepest y i n e o at c =
      found-deepest y i (get_binding b guest_side path) n e o at c refl
