-- ===== src/Binding/Insort/Ordered.antt =====
-- The order of the lists of bindings, and the steps of an insertion that keep it.
use re_terminal.Prelude.{
  ℕ, ◌≡◌, ◌≢◌, sym, subst, inl, inr, List, [], ◌∷◌, ◌==◌, length, Bool-cases, All, Pairs,
}
use re_terminal.Path.{Bytes, path1_is_prefix}
use re_terminal.Path.Compare.{compare_paths, compare_paths2}
use re_terminal.Path.Compare.Relation.{clean, relation, NoNul, compare_paths-relation}
use re_terminal.Binding.{CachedPath, Binding, Side, side_path}
use re_terminal.Binding.Insort.{remove, insert_after, compare_bindings}

-- A cached path: a C string that is not empty, with its length.
pub record IsCached (p : CachedPath) : Type 0 where
  pub length_cached : p.len ≡ length p.path
  pub no_nul : NoNul p.path
  pub not_empty : p.path ≢ []

-- The directory that a binding stands for on one side.
abbrev pub key : Side → Binding → Bytes
key side b = clean (side_path side b).path

-- The directory of `x` does not contain that of `y`.
abbrev pub NotOver : Side → Binding → Binding → Type 0
NotOver side x y = relation (key side x) (key side y) ≢ path1_is_prefix

abbrev pub OtherId : Binding → Binding → Type 0
OtherId x y = y.id ≢ x.id

-- Deepest directories first: no binding stands before one that it contains.
pub record IsOrdered (side : Side) (l : List Binding) : Type 0 where
  pub cached : All (λ b. IsCached (side_path side b)) l
  pub sorted : Pairs (NotOver side) l
  pub distinct : Pairs OtherId l

pub compare_bindings-relation :
    (side : Side) (x y : Binding)
    → IsCached (side_path side x)
    → IsCached (side_path side y)
    → compare_bindings side x y ≡ relation (key side x) (key side y)
unfolding compare_bindings compare_paths
compare_bindings-relation side x y cx cy =
    subst
      (λ n.
        compare_paths2 (side_path side x).path n (side_path side y).path (side_path side y).len
        ≡ relation (key side x) (key side y))
      (sym cx.length_cached)
      (subst
        (λ n.
          compare_paths2 (side_path side x).path (length (side_path side x).path)
            (side_path side y).path n
          ≡ relation (key side x) (key side y))
        (sym cy.length_cached)
        (compare_paths-relation (side_path side x).path (side_path side y).path cx.no_nul cy.no_nul
          cx.not_empty cy.not_empty))

module _ {κ} (P : Binding → Type κ) where
  pub All-remove : (id : ℕ) (l : List Binding) → All P l → All P (remove id l)
  unfolding remove
  All-remove id [] h = tt
  All-remove id (x ∷ xs) h = elim (Bool-cases (x.id == id)) [
    | inl e ↦ rw e h.1
    | inr e ↦ rw e (h.0, All-remove id xs h.1)
  ]

  pub All-insert_after :
      (id : ℕ) (b : Binding) (l : List Binding) → P b → All P l → All P (insert_after id b l)
  unfolding insert_after
  All-insert_after id b [] p h = tt
  All-insert_after id b (x ∷ xs) p h = elim (Bool-cases (x.id == id)) [
    | inl e ↦ rw e (h.0, (p, h.1))
    | inr e ↦ rw e (h.0, All-insert_after id b xs p h.1)
  ]

pub Pairs-remove {κ} :
    (R : Binding → Binding → Type κ) (id : ℕ) (l : List Binding) → Pairs R l → Pairs R (remove id l)
unfolding remove
Pairs-remove R id [] h = tt
Pairs-remove R id (x ∷ xs) h = elim (Bool-cases (x.id == id)) [
  | inl e ↦ rw e h.1
  | inr e ↦ rw e (All-remove (R x) id xs h.0, Pairs-remove R id xs h.1)
]

pub remove-IsOrdered :
    (side : Side) (id : ℕ) (l : List Binding) → IsOrdered side l → IsOrdered side (remove id l)
remove-IsOrdered side id l h = record {
  cached = All-remove (λ b. IsCached (side_path side b)) id l h.cached;
  sorted = Pairs-remove (NotOver side) id l h.sorted;
  distinct = Pairs-remove OtherId id l h.distinct;
}
