-- ===== src/Path/Compare/Equal.antt =====
-- Paths that compare_paths of core/proot/src/main/cpp/path/path.c finds equal.
use re_terminal.Prelude.{
  ℕ, zero, suc, ◌+◌, ◌-◌, ◌<◌, ◌≡◌, refl, ap, sym, ◌∙◌, subst, true, false, [], ◌∷◌, ◌++◌, arith,
  length, take, take-length, ltb, same, same_iff, ◌==◌, ==_iff, ◌⊎◌, inl, inr, Bool-cases,
  if◌then◌else◌,
}
use re_terminal.Path.{Bytes, slash, paths_are_equal}
use re_terminal.Path.Compare.{
  byte_at, trimmed, strncmp_eq, compare_lengths, compare_trimmed, compare_paths2, compare_paths,
}

lengths-equal : (m n : ℕ) → compare_lengths m n ≡ paths_are_equal → m ≡ n
unfolding compare_lengths
lengths-equal m n e = ground (arith, e)

trimmed-parts :
    (p q : Bytes) (m n : ℕ)
    → compare_trimmed p m q n ≡ paths_are_equal
    → (same (take (if ltb m n then m else n) p) (take (if ltb m n then m else n) q) ≡ true)
      × (compare_lengths m n ≡ paths_are_equal)
unfolding compare_trimmed strncmp_eq
trimmed-parts p q m n e = ground (arith, e)

trimmed-equal :
    (p q : Bytes) (m n : ℕ)
    → compare_trimmed p m q n ≡ paths_are_equal
    → (m ≡ n) × (take m p ≡ take m q)
trimmed-equal p q m n e =
    let (s, c) = trimmed-parts p q m n e in
    let m_n = lengths-equal m n c in
    let shorter : (if ltb m n then m else n) ≡ m = ground (arith, m_n) in
    (
      m_n,
      (same_iff (take m p) (take m q)).0 (subst (λ k. same (take k p) (take k q) ≡ true) shorter s),
    )

paths-equal :
    (p q : Bytes)
    → compare_paths p q ≡ paths_are_equal
    → compare_trimmed p (trimmed p (length p)) q (trimmed q (length q)) ≡ paths_are_equal
unfolding compare_paths compare_paths2
paths-equal p q e = ground (arith, e)

final_slash_split :
    (q : Bytes) (i : ℕ) → i + 1 ≡ length q → byte_at q i ≡ slash → q ≡ take i q ++ slash ∷ []
final_slash_split [] i l e = absurd (omega (arith, l))
final_slash_split (c ∷ []) zero l e = ap (λ b. b ∷ []) e
final_slash_split (c ∷ d ∷ rest) zero l e = absurd (omega (arith, l))
final_slash_split (c ∷ cs) (suc i) l e = ap (◌∷◌ c) (final_slash_split cs i (omega (arith, l)) e)

trimmed_cases :
    (q : Bytes)
    → (trimmed q (length q) ≡ length q)
      ⊎ ((trimmed q (length q) ≡ length q - 1) × (byte_at q (length q - 1) ≡ slash))
unfolding trimmed
trimmed_cases q = elim (Bool-cases (byte_at q (length q - 1) == slash)) [
  | inl e ↦ inr (rw e refl, (==_iff (byte_at q (length q - 1)) slash).0 e)
  | inr e ↦ inl (rw e refl)
]

-- A path without a final separator that another is equal to: the other is the same, or has one.
pub equal_cases :
    (p q : Bytes)
    → trimmed p (length p) ≡ length p
    → 0 < length p
    → compare_paths p q ≡ paths_are_equal
    → (q ≡ p) ⊎ (q ≡ p ++ slash ∷ [])
equal_cases p q t l e =
    let (lengths, bytes) =
      trimmed-equal p q (trimmed p (length p)) (trimmed q (length q)) (paths-equal p q e) in
    let p_len : length p ≡ trimmed q (length q) = sym t ∙ lengths in
    let p_take : p ≡ take (length p) q =
      sym (take-length p) ∙ subst (λ k. take k p ≡ take k q) t bytes in
    elim (trimmed_cases q) [
      | inl k ↦ inl (sym (p_take ∙ ap (λ i. take i q) (p_len ∙ k) ∙ take-length q))
      | inr (k, last) ↦ inr (
          final_slash_split q (length q - 1) (omega (arith, p_len, k, l)) last
          ∙ ap (λ r. r ++ slash ∷ []) (ap (λ i. take i q) (sym (p_len ∙ k)) ∙ sym p_take))
    ]

pub trimmed_name :
    (p : Bytes) → (byte_at p (length p - 1) == slash) ≡ false → trimmed p (length p) ≡ length p
unfolding trimmed
trimmed_name p e = rw e refl
