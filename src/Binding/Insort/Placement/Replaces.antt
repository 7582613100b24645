-- ===== src/Binding/Insort/Placement/Replaces.antt =====
-- insort_binding of core/proot/src/main/cpp/path/binding.c, where it meets a binding of the same path.
use re_terminal.Prelude.{
  ℕ, ◌≡◌, ◌≢◌, refl, sym, subst, ◌∙◌, ◌⊎◌, inl, inr, Option, some, List, [], ◌∷◌, arith, ◌==◌,
  ==_iff, Bool-cases, All, Pairs, All-map,
}
use re_terminal.Path.{
  Comparison, paths_are_equal, path1_is_prefix, path2_is_prefix, paths_are_not_comparable,
}
use re_terminal.Path.Compare.Relation.{relation}
use re_terminal.Path.Compare.Order.{relation-eq}
use re_terminal.Binding.{Binding, Side, guest_side, host_side, pending_side, side_path}
use re_terminal.Binding.Insort.{
  remove, insert_after, replaces, compare_bindings, or_else, find_place,
}
use re_terminal.Binding.Insort.Ordered.{
  IsCached, key, NotOver, OtherId, IsOrdered, compare_bindings-relation,
}
use re_terminal.Binding.Insort.Placement.{NotReplaced}

module _ (side : Side) (b : Binding) where
  -- Every element at the address has the path of the new binding.
  abbrev pub SamePathAt : ℕ → List Binding → Type 0
  SamePathAt id = All (λ x. x.id ≡ id → compare_bindings side b x ≡ paths_are_equal)

  -- The outcome of the loop: nothing is replaced, or the binding at one address is.
  pub record Replaces (l : List Binding) : Type 0 where
    pub id : ℕ
    pub found : (previous next : Option ℕ) → find_place side b previous next l ≡ replaces id
    pub same_path : SamePathAt id l
    pub linked : (x : Binding) → All (OtherId x) l → id ≢ x.id

  decide :
      (x : Binding)
      → NotReplaced side b x ⊎ ((compare_bindings side b x ≡ paths_are_equal) × (side ≢ host_side))
  decide x = by_side side (compare_bindings side b x)
    where
      by_side :
          (s : Side) (c : Comparison)
          → ((s ≡ host_side) ⊎ (c ≢ paths_are_equal)) ⊎ ((c ≡ paths_are_equal) × (s ≢ host_side))
      by_side host_side c = inl (inl refl)
      by_side guest_side paths_are_equal = inr (refl, λ e. cc)
      by_side pending_side paths_are_equal = inr (refl, λ e. cc)
      by_side s path1_is_prefix = inl (inr (λ e. cc))
      by_side s path2_is_prefix = inl (inr (λ e. cc))
      by_side s paths_are_not_comparable = inl (inr (λ e. cc))

  find_place-equal :
      (x : Binding) (xs : List Binding) (previous next : Option ℕ)
      → compare_bindings side b x ≡ paths_are_equal
      → side ≢ host_side
      → find_place side b previous next (x ∷ xs) ≡ replaces x.id
  unfolding find_place
  find_place-equal x xs previous next e s = ground arith

  find_place-skip :
      (x : Binding) (xs : List Binding) (previous next : Option ℕ) (id : ℕ)
      → NotReplaced side b x
      → ((p n : Option ℕ) → find_place side b p n xs ≡ replaces id)
      → find_place side b previous next (x ∷ xs) ≡ replaces id
  unfolding find_place
  find_place-skip x xs previous next id s f =
      ground (arith, f previous next, f (some x.id) next, f previous (or_else next x.id))

  pub Replaces-or_not :
      (l : List Binding) → Pairs OtherId l → All (NotReplaced side b) l ⊎ Replaces l
  Replaces-or_not [] d = inl tt
  Replaces-or_not (x ∷ xs) d = elim (decide x) [
    | inr (e, s) ↦ inr (record {
      id = x.id;
      found = λ previous next. find_place-equal x xs previous next e s;
      same_path = (λ _. e, All-map (OtherId x) _ xs (λ y o k. absurd (o k)) d.0);
      linked = λ y o k. o.0 k;
    })
    | inl n ↦ elim (Replaces-or_not xs d.1) [
      | inl all ↦ inl (n, all)
      | inr r ↦ inr (record {
        id = r.id;
        found = λ previous next. find_place-skip x xs previous next r.id n r.found;
        same_path = (λ k. absurd (r.linked x d.0 (sym k)), r.same_path);
        linked = λ y o. r.linked y o.1;
      })
    ]
  ]

  -- The list after the insertion behind the iterator and the removal of the iterator.
  abbrev pub replaced : ℕ → List Binding → List Binding
  replaced id l = remove id (insert_after id b l)

  module _ {κ} (P : Binding → Type κ) where
    All-replaced :
        (id : ℕ) (l : List Binding)
        → All (λ x. x.id ≡ id → P x → P b) l
        → All P l
        → All P (replaced id l)
    unfolding remove insert_after
    All-replaced id [] f h = tt
    All-replaced id (x ∷ xs) f h = elim (Bool-cases (x.id == id)) [
      | inl e ↦ rw e (rw e (f.0 ((==_iff x.id id).0 e) h.0, h.1))
      | inr e ↦ rw e (rw e (h.0, All-replaced id xs f.1 h.1))
    ]

  -- Bindings of one path stand in the same order to all others.
  sorted-replaced :
      (id : ℕ) (l : List Binding)
      → All (λ x. x.id ≡ id → key side b ≡ key side x) l
      → Pairs (NotOver side) l
      → Pairs (NotOver side) (replaced id l)
  unfolding remove insert_after
  sorted-replaced id [] f h = tt
  sorted-replaced id (x ∷ xs) f h = elim (Bool-cases (x.id == id)) [
    | inl e ↦ rw e (
        rw e (
          All-map (NotOver side x) (NotOver side b) xs
              (λ y n k. n (
                subst (λ t. relation t (key side y) ≡ path1_is_prefix) (f.0 ((==_iff x.id id).0 e))
                  k))
              h.0,
          h.1,
        ))
    | inr e ↦ rw e (
        rw e (
          All-replaced (NotOver side x) id xs
              (All-map (λ y. y.id ≡ id → key side b ≡ key side y) _ xs
                (λ y g k n t. n (subst (λ u. relation (key side x) u ≡ path1_is_prefix) (g k) t))
                f.1)
              h.0,
          sorted-replaced id xs f.1 h.1,
        ))
  ]

  distinct-replaced :
      (id : ℕ) (l : List Binding)
      → All (OtherId b) l
      → Pairs OtherId l
      → Pairs OtherId (replaced id l)
  unfolding remove insert_after
  distinct-replaced id [] f h = tt
  distinct-replaced id (x ∷ xs) f h = elim (Bool-cases (x.id == id)) [
    | inl e ↦ rw e (rw e (f.1, h.1))
    | inr e ↦ rw e (
        rw e (
          All-replaced (OtherId x) id xs (All-map (OtherId b) _ xs (λ y o k n t. f.0 (sym t)) f.1)
              h.0,
          distinct-replaced id xs f.1 h.1,
        ))
  ]

  pub replaced-IsOrdered :
      (id : ℕ) (l : List Binding)
      → IsCached (side_path side b)
      → SamePathAt id l
      → All (OtherId b) l
      → IsOrdered side l
      → IsOrdered side (replaced id l)
  replaced-IsOrdered id l c s f h = record {
    cached =
        All-replaced (λ x. IsCached (side_path side x)) id l
          (All-map (OtherId b) _ l (λ x o k n. c) f) h.cached;
    sorted = sorted-replaced id l (same_key id l c s h.cached) h.sorted;
    distinct = distinct-replaced id l f h.distinct;
  }
    where
      same_key :
          (id : ℕ) (l : List Binding)
          → IsCached (side_path side b)
          → SamePathAt id l
          → All (λ x. IsCached (side_path side x)) l
          → All (λ x. x.id ≡ id → key side b ≡ key side x) l
      same_key id [] c s h = tt
      same_key id (x ∷ xs) c s h = (
        λ e.
            relation-eq (key side b) (key side x)
              (sym (compare_bindings-relation side b x c h.0) ∙ s.0 e),
        same_key id xs c s.1 h.1,
      )
