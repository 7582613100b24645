-- ===== src/Binding/Insort/Placement.antt =====
-- The place that the loop of insort_binding in core/proot/src/main/cpp/path/binding.c computes.
pub mod Keeps
pub mod Replaces
use re_terminal.Prelude.{
  ℕ, ◌≡◌, ◌≢◌, refl, sym, ◌∙◌, ◌⊎◌, inl, inr, Bool, true, false, ◌||◌, Option, none, some, List, [],
  ◌∷◌, arith, ◌==◌, ==_iff, if◌then◌else◌, Bool-cases, Option-cases, All, Pairs,
}
use re_terminal.Path.{
  Comparison, paths_are_equal, path1_is_prefix, path2_is_prefix, paths_are_not_comparable,
}
use re_terminal.Binding.{Binding, Side, guest_side, host_side, pending_side}
use re_terminal.Binding.Insort.{
  insert_after, insert_before, Place, replaces, between, first_id, compare_bindings, or_else,
  find_place,
}
use re_terminal.Binding.Insort.Ordered.{OtherId}

-- The loop moves `previous` on to the iterator.
pub goes_behind : Side → Comparison → Bool
goes_behind host_side paths_are_equal = true
goes_behind _ path1_is_prefix = true
goes_behind _ _ = false

module _ (side : Side) (b : Binding) where
  pub behind : Binding → Bool
  behind x = goes_behind side (compare_bindings side b x)

  pub any_behind : List Binding → Bool
  any_behind [] = false
  any_behind (x ∷ xs) = behind x || any_behind xs

  last_behind : Option ℕ → List Binding → Option ℕ
  last_behind previous [] = previous
  last_behind previous (x ∷ xs) = last_behind (if behind x then some x.id else previous) xs

  -- The list with the binding in its place.
  pub placed : List Binding → List Binding
  placed [] = b ∷ []
  placed (x ∷ xs) =
      let rest = placed xs in
      if any_behind xs then x ∷ rest else if behind x then x ∷ b ∷ xs else b ∷ x ∷ xs

  -- No iterator is replaced: the side is the host's, or no path is equal.
  abbrev pub NotReplaced : Binding → Type 0
  NotReplaced x = (side ≡ host_side) ⊎ (compare_bindings side b x ≢ paths_are_equal)

  find_place-last_behind :
      (previous : Option ℕ) (next : ℕ) (l : List Binding)
      → All NotReplaced l
      → find_place side b previous (some next) l ≡ between (last_behind previous l) (some next)
  unfolding find_place or_else last_behind behind goes_behind
  find_place-last_behind previous next [] h = refl
  find_place-last_behind previous next (x ∷ xs) h =
      step side (compare_bindings side b x) h.0 (find_place-last_behind previous next xs h.1)
        (find_place-last_behind (some x.id) next xs h.1)
    where
      step :
          (s : Side) (c : Comparison)
          → (s ≡ host_side) ⊎ (c ≢ paths_are_equal)
          → find_place side b previous (some next) xs
            ≡ between (last_behind previous xs) (some next)
          → find_place side b (some x.id) (some next) xs
            ≡ between (last_behind (some x.id) xs) (some next)
          → (elim c [
            | paths_are_equal ↦ elim s [
              | host_side ↦ find_place side b (some x.id) (some next) xs
              | _ ↦ replaces x.id
            ]
            | path1_is_prefix ↦ find_place side b (some x.id) (some next) xs
            | path2_is_prefix ↦ find_place side b previous (some next) xs
            | paths_are_not_comparable ↦ find_place side b previous (some next) xs
          ])
            ≡ between (last_behind (if goes_behind s c then some x.id else previous) xs) (some next)
      step s c n p q = ground arith

  -- Without a binding that it contains, `previous` stays; otherwise it does not matter.
  last_behind_none :
      (previous : Option ℕ) (l : List Binding)
      → any_behind l ≡ false
      → last_behind previous l ≡ previous
  unfolding last_behind any_behind
  last_behind_none previous [] h = refl
  last_behind_none previous (x ∷ xs) h = ground (arith, last_behind_none previous xs)

  last_behind_any :
      (p q : Option ℕ) (l : List Binding) → any_behind l ≡ true → last_behind p l ≡ last_behind q l
  unfolding last_behind any_behind
  last_behind_any p q [] h = cc
  last_behind_any p q (x ∷ xs) h = elim (Bool-cases (behind x)) [
    | inl e ↦ rw e
    | inr e ↦ rw e (last_behind_any p q xs (ground arith))
  ]

  -- The address found is that of an element.
  last_behind_other :
      (previous : Option ℕ) (l : List Binding) (x : Binding)
      → All (OtherId x) l
      → any_behind l ≡ true
      → last_behind previous l ≢ some x.id
  unfolding last_behind any_behind
  last_behind_other previous [] x o h k = cc
  last_behind_other previous (y ∷ ys) x o h k = elim (Bool-cases (any_behind ys)) [
    | inl e ↦ last_behind_other (if behind y then some y.id else previous) ys x o.1 e k
    | inr e ↦ o.0 (ground (arith, last_behind_none (some y.id) ys e))
  ]

  insert_after-placed :
      (l : List Binding) (id : ℕ)
      → Pairs OtherId l
      → last_behind none l ≡ some id
      → insert_after id b l ≡ placed l
  unfolding insert_after placed last_behind
  insert_after-placed [] id d h = cc
  insert_after-placed (x ∷ xs) id d h = elim (Bool-cases (any_behind xs)) [
    | inl e ↦ ground (
      arith,
      last_behind_other (if behind x then some x.id else none) xs x d.0 e,
      last_behind_any (if behind x then some x.id else none) none xs e,
      insert_after-placed xs id d.1,
    )
    | inr e ↦ ground (arith, last_behind_none (if behind x then some x.id else none) xs e)
  ]

  last_behind_ne_none :
      (previous : Option ℕ) (l : List Binding) → any_behind l ≡ true → last_behind previous l ≢ none
  unfolding last_behind any_behind
  last_behind_ne_none previous [] h k = cc
  last_behind_ne_none previous (x ∷ xs) h k = elim (Bool-cases (any_behind xs)) [
    | inl e ↦ last_behind_ne_none (if behind x then some x.id else previous) xs e k
    | inr e ↦ ground (arith, last_behind_none (if behind x then some x.id else previous) xs e)
  ]

  placed_front : (l : List Binding) → last_behind none l ≡ none → placed l ≡ b ∷ l
  unfolding placed last_behind
  placed_front [] h = refl
  placed_front (x ∷ xs) h = elim (Bool-cases (any_behind xs)) [
    | inl e ↦ absurd (last_behind_ne_none (if behind x then some x.id else none) xs e h)
    | inr e ↦ ground (arith, last_behind_none (if behind x then some x.id else none) xs e)
  ]

  -- The list that the insertion makes of the outcome of its loop.
  unfoldable pub inserted : List Binding → Place → List Binding
  inserted l (replaces id) = insert_after id b l
  inserted l (between (some previous) next) = insert_after previous b l
  inserted l (between none (some next)) = insert_before next b l
  inserted l (between none none) = b ∷ l

  pub inserted-placed :
      (l : List Binding)
      → Pairs OtherId l
      → All NotReplaced l
      → inserted l (find_place side b none (first_id l) l) ≡ placed l
  unfolding inserted find_place first_id placed insert_before
  inserted-placed [] d h = refl
  inserted-placed (x ∷ xs) d h = elim (Option-cases (last_behind none (x ∷ xs))) [
    | inl e ↦ ground (arith, find_place-last_behind none x.id (x ∷ xs) h, placed_front (x ∷ xs) e)
    | inr (id, e) ↦
        ground
          (arith, find_place-last_behind none x.id (x ∷ xs) h, insert_after-placed (x ∷ xs) id d e)
  ]

  pub find_place-between :
      (l : List Binding)
      → All NotReplaced l
      → (p : Option ℕ) × (n : Option ℕ) × (find_place side b none (first_id l) l ≡ between p n)
  unfolding first_id find_place
  find_place-between [] h = (none, none, refl)
  find_place-between (x ∷ xs) h =
      (last_behind none (x ∷ xs), some x.id, find_place-last_behind none x.id (x ∷ xs) h)
