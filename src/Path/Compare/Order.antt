-- ===== src/Path/Compare/Order.antt =====
-- The order of the directory tree, for compare_paths of core/proot/src/main/cpp/path/path.c.
use re_terminal.Prelude.{◌≡◌, ◌≢◌, ◌↔◌, refl, [], ◌∷◌, ◌++◌, arith, subst, ◌⊎◌, inl, sym, inr}
use re_terminal.Path.{
  Bytes, slash, Comparison, paths_are_equal, path1_is_prefix, path2_is_prefix,
  paths_are_not_comparable,
}
use re_terminal.Path.Compare.{compare_paths}
use re_terminal.Path.Compare.Relation.{clean, relation, NoNul, compare_paths-relation}

-- `t` lies strictly under the directory `s`.
abbrev pub IsUnder : Bytes → Bytes → Type 0
IsUnder s t = (rest : Bytes) × (t ≡ s ++ slash ∷ rest)

pub relation-eq : (s t : Bytes) → relation s t ≡ paths_are_equal → s ≡ t
unfolding relation
relation-eq [] [] h = refl
relation-eq [] (b ∷ t) h = ground arith
relation-eq (a ∷ s) [] h = ground arith
relation-eq (a ∷ s) (b ∷ t) h = ground (arith, relation-eq s t)

pub relation_refl : (s : Bytes) → relation s s ≡ paths_are_equal
unfolding relation
relation_refl [] = refl
relation_refl (a ∷ s) = ground (arith, relation_refl s)

pub relation-IsUnder : (s t : Bytes) → relation s t ≡ path1_is_prefix → IsUnder s t
unfolding relation
relation-IsUnder [] [] h = cc
relation-IsUnder [] (b ∷ t) h = (t, ground arith)
relation-IsUnder (a ∷ s) [] h = absurd (ground arith)
relation-IsUnder (a ∷ s) (b ∷ t) h =
    let (rest, e) = relation-IsUnder s t (ground arith) in (rest, ground arith)

pub IsUnder-relation : (s rest : Bytes) → relation s (s ++ slash ∷ rest) ≡ path1_is_prefix
unfolding relation
IsUnder-relation [] rest = ground arith
IsUnder-relation (a ∷ s) rest = ground (arith, IsUnder-relation s rest)

-- The two directions are mirror images.
pub relation_swap :
    (s t : Bytes) → (relation s t ≡ path1_is_prefix) ↔ (relation t s ≡ path2_is_prefix)
unfolding relation
relation_swap [] [] = ground arith
relation_swap [] (b ∷ t) = ground arith
relation_swap (a ∷ s) [] = ground arith
relation_swap (a ∷ s) (b ∷ t) = ground (arith, relation_swap s t)

pub relation_trans :
    (s t u : Bytes)
    → relation s t ≡ path1_is_prefix
    → relation t u ≡ path1_is_prefix
    → relation s u ≡ path1_is_prefix
unfolding relation
relation_trans s [] [] h k = cc
relation_trans [] [] (c ∷ u) h k = cc
relation_trans (a ∷ s) [] (c ∷ u) h k = ground arith
relation_trans s (b ∷ t) [] h k = ground arith
relation_trans [] (b ∷ t) (c ∷ u) h k = ground arith
relation_trans (a ∷ s) (b ∷ t) (c ∷ u) h k = ground (arith, relation_trans s t u)

pub relation_asymm : (s t : Bytes) → relation s t ≡ path1_is_prefix → relation t s ≢ path1_is_prefix
unfolding relation
relation_asymm [] [] h k = cc
relation_asymm [] (b ∷ t) h k = ground arith
relation_asymm (a ∷ s) [] h k = ground arith
relation_asymm (a ∷ s) (b ∷ t) h k = ground (arith, relation_asymm s t)

-- Two directories that contain one path lie on one branch.
pub relation_branch :
    (s t u : Bytes)
    → relation s u ≡ path1_is_prefix
    → relation t u ≡ path1_is_prefix
    → relation s t ≢ paths_are_not_comparable
unfolding relation
relation_branch s t [] h k e = under_nil s h
  where
    under_nil : (s : Bytes) → relation s [] ≡ path1_is_prefix → ⊥
    under_nil [] h = cc
    under_nil (a ∷ s) h = ground arith
relation_branch [] [] (c ∷ u) h k e = cc
relation_branch [] (b ∷ t) (c ∷ u) h k e = ground arith
relation_branch (a ∷ s) [] (c ∷ u) h k e = ground arith
relation_branch (a ∷ s) (b ∷ t) (c ∷ u) h k e = ground (arith, relation_branch s t u)

-- `s` is the path `t`, or a directory that contains it.
abbrev pub Contains : Bytes → Bytes → Type 0
Contains s t = (s ≡ t) ⊎ (relation s t ≡ path1_is_prefix)

relation_cases :
    (s t : Bytes)
    → (s ≡ t)
      ⊎ (relation s t ≡ path1_is_prefix)
      ⊎ (relation t s ≡ path1_is_prefix)
      ⊎ (relation s t ≡ paths_are_not_comparable)
relation_cases s t = by_value (relation s t) refl
  where
    by_value :
        (c : Comparison)
        → relation s t ≡ c
        → (s ≡ t)
          ⊎ (relation s t ≡ path1_is_prefix)
          ⊎ (relation t s ≡ path1_is_prefix)
          ⊎ (relation s t ≡ paths_are_not_comparable)
    by_value paths_are_equal e = inl (relation-eq s t e)
    by_value path1_is_prefix e = inr (inl e)
    by_value path2_is_prefix e = inr (inr (inl ((relation_swap t s).1 e)))
    by_value paths_are_not_comparable e = inr (inr (inr e))

-- Of two directories on one branch, one that does not strictly contain the other is contained.
pub Contains-branch :
    (s t u : Bytes) → Contains s u → Contains t u → relation s t ≢ path1_is_prefix → Contains t s
Contains-branch s t u (inl e) ct n = subst (λ k. Contains t k) (sym e) ct
Contains-branch s t u (inr under) (inl e) n =
    absurd (n (subst (λ k. relation s k ≡ path1_is_prefix) (sym e) under))
Contains-branch s t u (inr under) (inr under') n = elim (relation_cases s t) [
  | inl e ↦ inl (sym e)
  | inr (inl e) ↦ absurd (n e)
  | inr (inr (inl e)) ↦ inr e
  | inr (inr (inr e)) ↦ absurd (relation_branch s t u under under' e)
]

-- For two C strings that are not empty, read without one trailing separator, compare_paths answers
-- that they are equal, that the first is a prefix, or that the second is one, exactly if they are
-- the same, the second lies strictly under the first, or the first under the second.
pub compare_paths-IsUnder_iff :
    (p q : Bytes)
    → NoNul p
    → NoNul q
    → p ≢ []
    → q ≢ []
    → ((compare_paths p q ≡ paths_are_equal) ↔ (clean p ≡ clean q))
      × ((compare_paths p q ≡ path1_is_prefix) ↔ IsUnder (clean p) (clean q))
      × ((compare_paths p q ≡ path2_is_prefix) ↔ IsUnder (clean q) (clean p))
compare_paths-IsUnder_iff p q cp cq np nq = rw (compare_paths-relation p q cp cq np nq) (
  (
    relation-eq (clean p) (clean q),
    λ e. subst (λ t. relation (clean p) t ≡ paths_are_equal) e (relation_refl (clean p)),
  ),
  (relation-IsUnder (clean p) (clean q), under (clean p) (clean q)),
  (
    λ e. relation-IsUnder (clean q) (clean p) ((relation_swap (clean q) (clean p)).1 e),
    λ h. (relation_swap (clean q) (clean p)).0 (under (clean q) (clean p) h),
  ),
)
  where
    under : (s t : Bytes) → IsUnder s t → relation s t ≡ path1_is_prefix
    under s t (rest, e) =
        subst (λ k. relation s k ≡ path1_is_prefix) (sym e) (IsUnder-relation s rest)
