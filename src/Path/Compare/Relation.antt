-- ===== src/Path/Compare/Relation.antt =====
-- compare_paths of core/proot/src/main/cpp/path/path.c and a relation of two paths, byte by byte.
use re_terminal.Prelude.{
  ℕ, zero, suc, ◌≤◌, ◌≡◌, ◌≢◌, refl, ◌⊎◌, inl, inr, [], ◌∷◌, arith, ltb, ◌==◌, same, length, take,
  if◌then◌else◌, Bool-cases,
}
use re_terminal.Path.{
  Bytes, slash, Comparison, paths_are_equal, path1_is_prefix, path2_is_prefix,
  paths_are_not_comparable,
}
use re_terminal.Path.Compare.{byte_at, trimmed, compare_trimmed, compare_paths2, compare_paths}

-- A path without one trailing separator: the reading that the comparison is about.
unfoldable pub clean : Bytes → Bytes
clean [] = []
clean (c ∷ []) = if c == slash then [] else c ∷ []
clean (c ∷ d ∷ rest) = c ∷ clean (d ∷ rest)

-- The comparison, byte by byte.
unfoldable pub relation : Bytes → Bytes → Comparison
relation [] [] = paths_are_equal
relation [] (b ∷ q) = if b == slash then path1_is_prefix else paths_are_not_comparable
relation (a ∷ p) [] = if a == slash then path2_is_prefix else paths_are_not_comparable
relation (a ∷ p) (b ∷ q) =
    let rest = relation p q in if a == b then rest else paths_are_not_comparable

-- The bytes of a C string are not NUL.
abbrev pub NoNul : Bytes → Type 0
NoNul [] = Unit {0}
NoNul (c ∷ rest) = (c ≢ 0) × NoNul rest

-- The byte where a trimmed path stops.
abbrev Stops : Bytes → ℕ → Type 0
Stops p n = (byte_at p n ≡ slash) ⊎ (byte_at p n ≡ 0)

compare_trimmed-relation :
    (p : Bytes) (n : ℕ) (q : Bytes) (m : ℕ)
    → NoNul p
    → NoNul q
    → n ≤ length p
    → m ≤ length q
    → Stops p n
    → Stops q m
    → compare_trimmed p n q m ≡ relation (take n p) (take m q)
unfolding compare_trimmed relation same
compare_trimmed-relation p zero q zero cp cq hn hm sp sq = ground arith
compare_trimmed-relation p zero [] (suc m) cp cq hn hm sp sq = absurd (omega arith)
compare_trimmed-relation p zero (b ∷ q) (suc m) cp cq hn hm sp sq = ground arith
compare_trimmed-relation [] (suc n) q m cp cq hn hm sp sq = absurd (omega arith)
compare_trimmed-relation (a ∷ p) (suc n) q zero cp cq hn hm sp sq = ground arith
compare_trimmed-relation (a ∷ p) (suc n) [] (suc m) cp cq hn hm sp sq = absurd (omega arith)
compare_trimmed-relation (a ∷ p) (suc n) (b ∷ q) (suc m) cp cq hn hm sp sq =
    elim (Bool-cases (ltb n m)) [
      | inl e ↦ ground (arith, compare_trimmed-relation p n q m cp.1 cq.1)
      | inr e ↦ ground (arith, compare_trimmed-relation p n q m cp.1 cq.1)
    ]

trimmed-clean : (p : Bytes) → take (trimmed p (length p)) p ≡ clean p
unfolding trimmed clean
trimmed-clean [] = refl
trimmed-clean (c ∷ []) = ground arith
trimmed-clean (c ∷ d ∷ rest) = ground (arith, trimmed-clean (d ∷ rest))

trimmed-le : (p : Bytes) → trimmed p (length p) ≤ length p
unfolding trimmed
trimmed-le p = ground arith

trimmed-Stops : (p : Bytes) → Stops p (trimmed p (length p))
unfolding trimmed
trimmed-Stops [] = inr refl
trimmed-Stops (c ∷ []) = ground arith
trimmed-Stops (c ∷ d ∷ rest) = ground (arith, trimmed-Stops (d ∷ rest))

-- On C strings that are not empty, compare_paths is the byte by byte relation of the two strings
-- without one trailing separator.
pub compare_paths-relation :
    (p q : Bytes)
    → NoNul p
    → NoNul q
    → p ≢ []
    → q ≢ []
    → compare_paths p q ≡ relation (clean p) (clean q)
unfolding compare_paths compare_paths2
compare_paths-relation [] q cp cq np nq = absurd (np refl)
compare_paths-relation (a ∷ p) [] cp cq np nq = absurd (nq refl)
compare_paths-relation (a ∷ p) (b ∷ q) cp cq np nq = ground (
  arith,
  trimmed-clean (a ∷ p),
  trimmed-clean (b ∷ q),
  compare_trimmed-relation (a ∷ p) (trimmed (a ∷ p) (length (a ∷ p))) (b ∷ q)
      (trimmed (b ∷ q) (length (b ∷ q))) cp cq (trimmed-le (a ∷ p)) (trimmed-le (b ∷ q))
      (trimmed-Stops (a ∷ p)) (trimmed-Stops (b ∷ q)),
)
