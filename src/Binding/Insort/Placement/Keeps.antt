-- ===== src/Binding/Insort/Placement/Keeps.antt =====
-- The order of one list through insort_binding of core/proot/src/main/cpp/path/binding.c.
use re_terminal.Prelude.{
  ◌≡◌, refl, sym, subst, ◌∙◌, ◌⊎◌, inl, inr, true, false, List, [], ◌∷◌, arith, Bool-cases, All,
  Pairs,
}
use re_terminal.Path.{
  Comparison, paths_are_equal, path1_is_prefix, path2_is_prefix, paths_are_not_comparable,
}
use re_terminal.Path.Compare.Relation.{relation}
use re_terminal.Path.Compare.Order.{relation-eq, relation_refl, relation_trans, relation_asymm}
use re_terminal.Binding.{Binding, Side, guest_side, host_side, pending_side, side_path}
use re_terminal.Binding.Insort.Ordered.{
  IsCached, key, NotOver, OtherId, IsOrdered, compare_bindings-relation,
}
use re_terminal.Binding.Insort.Placement.{goes_behind, behind, any_behind, placed}

module _ (side : Side) (b : Binding) (cached_b : IsCached (side_path side b)) where
  module _ {κ} (P : Binding → Type κ) where
    All-placed : (l : List Binding) → P b → All P l → All P (placed side b l)
    unfolding placed
    All-placed [] p h = (p, tt)
    All-placed (x ∷ xs) p h = elim (Bool-cases (any_behind side b xs)) [
      | inl e ↦ rw e (h.0, All-placed xs p h.1)
      | inr e ↦ rw e (elim (Bool-cases (behind side b x)) [
        | inl f ↦ rw f (h.0, (p, h.1))
        | inr f ↦ rw f (p, h)
      ])
    ]

  behind-over :
      (x : Binding)
      → IsCached (side_path side x)
      → behind side b x ≡ true
      → (relation (key side b) (key side x) ≡ path1_is_prefix) ⊎ (key side b ≡ key side x)
  unfolding behind goes_behind
  behind-over x cx h =
      over side (relation (key side b) (key side x)) refl
        (subst (λ c. goes_behind side c ≡ true) (compare_bindings-relation side b x cached_b cx) h)
    where
      over :
          (s : Side) (c : Comparison)
          → relation (key side b) (key side x) ≡ c
          → goes_behind s c ≡ true
          → (relation (key side b) (key side x) ≡ path1_is_prefix) ⊎ (key side b ≡ key side x)
      over s paths_are_equal e t = inr (relation-eq (key side b) (key side x) e)
      over s path1_is_prefix e t = inl e
      over guest_side path2_is_prefix e t = cc
      over host_side path2_is_prefix e t = cc
      over pending_side path2_is_prefix e t = cc
      over guest_side paths_are_not_comparable e t = cc
      over host_side paths_are_not_comparable e t = cc
      over pending_side paths_are_not_comparable e t = cc

  not_behind-NotOver :
      (x : Binding) → IsCached (side_path side x) → behind side b x ≡ false → NotOver side b x
  unfolding behind goes_behind
  not_behind-NotOver x cx h e = refuted side (
      subst (λ c. goes_behind side c ≡ false) (compare_bindings-relation side b x cached_b cx ∙ e)
        h)
    where
      refuted : (s : Side) → goes_behind s path1_is_prefix ≡ false → ⊥
      refuted guest_side k = cc
      refuted host_side k = cc
      refuted pending_side k = cc

  -- A binding that contains none of the list may stand before it.
  any_behind-NotOver :
      (l : List Binding)
      → All (λ x. IsCached (side_path side x)) l
      → any_behind side b l ≡ false
      → All (NotOver side b) l
  unfolding any_behind
  any_behind-NotOver [] c h = tt
  any_behind-NotOver (x ∷ xs) c h =
      (not_behind-NotOver x c.0 (ground arith), any_behind-NotOver xs c.1 (ground arith))

  -- Whatever may stand before all of the list may stand before a binding that contains one of it.
  NotOver-any_behind :
      (x : Binding) (l : List Binding)
      → All (λ y. IsCached (side_path side y)) l
      → All (NotOver side x) l
      → any_behind side b l ≡ true
      → NotOver side x b
  unfolding any_behind
  NotOver-any_behind x [] c o h = cc
  NotOver-any_behind x (y ∷ ys) c o h = elim (Bool-cases (behind side b y)) [
    | inr e ↦ NotOver-any_behind x ys c.1 o.1 (ground arith)
    | inl e ↦ elim (behind-over y c.0 e) [
      | inl under ↦ λ k. o.0 (relation_trans (key side x) (key side b) (key side y) k under)
      | inr same ↦ λ k. o.0 (subst (λ t. relation (key side x) t ≡ path1_is_prefix) same k)
    ]
  ]

  behind-NotOver :
      (x : Binding) → IsCached (side_path side x) → behind side b x ≡ true → NotOver side x b
  behind-NotOver x cx h k = elim (behind-over x cx h) [
    | inl under ↦ relation_asymm (key side b) (key side x) under k
    | inr same ↦
        cc (
          relation_refl (key side x),
          subst (λ t. relation (key side x) t ≡ path1_is_prefix) same k,
        )
  ]

  placed-sorted :
      (l : List Binding)
      → All (λ x. IsCached (side_path side x)) l
      → Pairs (NotOver side) l
      → Pairs (NotOver side) (placed side b l)
  unfolding placed
  placed-sorted [] c s = (tt, tt)
  placed-sorted (x ∷ xs) c s = elim (Bool-cases (any_behind side b xs)) [
    | inl e ↦ rw e (
      All-placed (NotOver side x) xs (NotOver-any_behind x xs c.1 s.0 e) s.0,
      placed-sorted xs c.1 s.1,
    )
    | inr e ↦ rw e (elim (Bool-cases (behind side b x)) [
      | inl f ↦ rw f ((behind-NotOver x c.0 f, s.0), (any_behind-NotOver xs c.1 e, s.1))
      | inr f ↦ rw f ((not_behind-NotOver x c.0 f, any_behind-NotOver xs c.1 e), s)
    ])
  ]

  placed-distinct :
      (l : List Binding) → All (OtherId b) l → Pairs OtherId l → Pairs OtherId (placed side b l)
  unfolding placed
  placed-distinct [] f d = (tt, tt)
  placed-distinct (x ∷ xs) f d = elim (Bool-cases (any_behind side b xs)) [
    | inl e ↦ rw e (All-placed (OtherId x) xs (λ k. f.0 (sym k)) d.0, placed-distinct xs f.1 d.1)
    | inr e ↦ rw e (elim (Bool-cases (behind side b x)) [
      | inl g ↦ rw g (((λ k. f.0 (sym k)), d.0), (f.1, d.1))
      | inr g ↦ rw g (f, d)
    ])
  ]

  pub placed-IsOrdered :
      (l : List Binding) → All (OtherId b) l → IsOrdered side l → IsOrdered side (placed side b l)
  placed-IsOrdered l f h = record {
    cached = All-placed (λ x. IsCached (side_path side x)) l cached_b h.cached;
    sorted = placed-sorted l h.cached h.sorted;
    distinct = placed-distinct l f h.distinct;
  }
