-- ===== src/Translate/SafePath/Pop.antt =====
-- pop_component of core/proot/src/main/cpp/path/canon.c on a path of names.
use re_terminal.Prelude.{
  ℕ, zero, suc, ◌-◌, ◌<◌, ◌≤◌, ◌≡◌, ◌≢◌, refl, ap, sym, ◌∙◌, subst, Bool, false, none, some, List,
  [], ◌∷◌, ◌++◌, arith, length, take, take-append, All, ◌==◌, ==_iff, ◌⊎◌, inl, inr, Gives,
  Gives-if, Gives-none, Gives-some, Bool-cases,
}
use re_terminal.Path.{Bytes, slash}
use re_terminal.Path.Compare.{byte_at}
use re_terminal.Path.Join.{back_while, is_slash, is_not_slash, pop_component}
use re_terminal.Translate.SafePath.{IsName, render, IsSafe, root-IsSafe, byte_at-behind}

back-le : (test : ℕ → Bool) (path : Bytes) (i : ℕ) → 1 ≤ i → 1 ≤ back_while test path i
unfolding back_while
back-le test path zero h = h
back-le test path (suc zero) h = omega arith
back-le test path (suc (suc n)) h = elim (Bool-cases (test (byte_at path (suc (suc n))))) [
  | inl e ↦ rw e (back-le test path (suc n) (omega arith))
  | inr e ↦ rw e (omega arith)
]

-- The loop stops at offset 1, or where its test fails.
back_stops :
    (test : ℕ → Bool) (path : Bytes) (i : ℕ)
    → (back_while test path i ≤ 1) ⊎ (test (byte_at path (back_while test path i)) ≡ false)
unfolding back_while
back_stops test path zero = inl (omega arith)
back_stops test path (suc zero) = inl (omega arith)
back_stops test path (suc (suc n)) = elim (Bool-cases (test (byte_at path (suc (suc n))))) [
  | inl e ↦ rw e (back_stops test path (suc n))
  | inr e ↦ rw e (inr e)
]

take-before : (xs ys : Bytes) (r : ℕ) → r ≤ length xs → take r (xs ++ ys) ≡ take r xs
take-before [] ys zero h = refl
take-before [] ys (suc r) h = absurd (omega (arith, h))
take-before (x ∷ xs) ys zero h = refl
take-before (x ∷ xs) ys (suc r) h = ap (◌∷◌ x) (take-before xs ys r (omega (arith, h)))

byte_at-before : (xs ys : Bytes) (r : ℕ) → r < length xs → byte_at (xs ++ ys) r ≡ byte_at xs r
byte_at-before [] ys r h = absurd (omega (arith, h))
byte_at-before (x ∷ xs) ys zero h = refl
byte_at-before (x ∷ xs) ys (suc r) h = byte_at-before xs ys r (omega (arith, h))

take-all : (xs : Bytes) (ys : Bytes) (r : ℕ) → r ≡ length xs → take r (xs ++ ys) ≡ xs
take-all xs ys r e = ap (λ i. take i (xs ++ ys)) e ∙ take-append xs ys

no_slash_at : (name : Bytes) (k : ℕ) → All (λ b. b ≢ slash) name → byte_at name k ≢ slash
no_slash_at [] k h = λ e. omega (arith, e)
no_slash_at (c ∷ cs) zero h = h.0
no_slash_at (c ∷ cs) (suc k) h = no_slash_at cs k h.1

order : (a b : ℕ) → (a < b) ⊎ ((a ≡ b) ⊎ (b < a))
order a b = ground arith

-- Cut in front of a separator, a path of names is one.
take-IsSafe :
    (last : Bytes) (before : List Bytes) (r : ℕ)
    → IsName last
    → All IsName before
    → 0 < r
    → byte_at (render (last ∷ before)) r ≡ slash
    → IsSafe (take r (render (last ∷ before)))
unfolding render
take-IsSafe last [] zero l b p e = absurd (omega (arith, p))
take-IsSafe last [] (suc r) l b p e = absurd (no_slash_at last r l.no_slash e)
take-IsSafe last (name ∷ names) r l b p e =
    let xs = render names ++ slash ∷ name in
    let ys = slash ∷ last in
    elim (order r (length xs)) [
      | inl h ↦
          subst IsSafe (sym (take-before xs ys r (omega (arith, h))))
            (take-IsSafe name names r b.0 b.1 p (sym (byte_at-before xs ys r h) ∙ e))
      | inr (inl h) ↦ subst IsSafe (sym (take-all xs ys r h)) (record {
        last = name;
        before = names;
        last_name = b.0;
        before_names = b.1;
        rendered = refl;
      })
      | inr (inr h) ↦ absurd (
          no_slash_at last (r - length xs - 1) l.no_slash
            (sym (byte_at-behind xs ys r (suc (r - length xs - 1)) (omega (arith, h))) ∙ e))
    ]

take_from_IsSafe :
    (path : Bytes) (r : ℕ) → IsSafe path → 0 < r → byte_at path r ≡ slash → IsSafe (take r path)
take_from_IsSafe path r s p e =
    subst (λ q. IsSafe (take r q)) (sym s.rendered)
      (take-IsSafe s.last s.before r s.last_name s.before_names p
        (ap (λ q. byte_at q r) (sym s.rendered) ∙ e))

-- What the two loops of pop_component leave.
cut-IsSafe :
    (c d : ℕ) (rest : Bytes) (r : ℕ)
    → c ≡ slash
    → IsSafe (c ∷ d ∷ rest)
    → 1 ≤ r
    → (r ≤ 1) ⊎ (is_not_slash (byte_at (c ∷ d ∷ rest) r) ≡ false)
    → IsSafe (take r (c ∷ d ∷ rest))
cut-IsSafe c d rest r c_slash s p (inl l) =
    let e : 1 ≡ r = omega arith in
    subst (λ i. IsSafe (take i (c ∷ d ∷ rest))) e
      (subst (λ b. IsSafe (b ∷ [])) (sym c_slash) root-IsSafe)
cut-IsSafe c d rest r c_slash s p (inr t) =
    take_from_IsSafe (c ∷ d ∷ rest) r s p (ground (arith, t))

-- Where pop_component of a safe path fails no assertion, it gives a safe path.
pub pop-IsSafe : (path : Bytes) → IsSafe path → Gives IsSafe (pop_component path)
unfolding pop_component
pop-IsSafe [] s = Gives-none IsSafe
pop-IsSafe (c ∷ []) s =
    Gives-if IsSafe (c == slash) (some (c ∷ [])) none (λ e. Gives-some IsSafe (c ∷ []) s)
      (λ e. Gives-none IsSafe)
pop-IsSafe (c ∷ d ∷ rest) s =
    let path = c ∷ d ∷ rest in
    let end = back_while is_slash path (length path - 1) in
    let offset = back_while is_not_slash path end in
    Gives-if IsSafe (c == slash) (some (take offset path)) none
      (λ e. Gives-some IsSafe (take offset path) (
        cut-IsSafe c d rest offset ((==_iff c slash).0 e) s
          (back-le is_not_slash path end (back-le is_slash path (length path - 1) (omega arith)))
          (back_stops is_not_slash path end)))
      (λ e. Gives-none IsSafe)
