-- ===== src/Memory/Nul.antt =====
-- The NUL of a string in the memory of a tracee, for read_string of core/proot/src/main/cpp/tracee/mem.c.
use re_terminal.Prelude.{
  ℕ, suc, ◌≤◌, ◌≡◌, ◌≢◌, refl, sym, ap, ◌∙◌, Option, none, some, [], ◌∷◌, ◌++◌, ◌==◌, ==_iff,
  length, if_each, All, arith,
}
use re_terminal.Path.{Bytes}
use re_terminal.Memory.{one_more, nul_index}
use re_terminal.Memory.Layout.{Reads, some_injective}

abbrev pub IsNonZero : ℕ → Type 0
IsNonZero c = c ≢ 0

-- A C string without its NUL, the bytes of a buffer, and what stands behind the NUL.
pub record Ends (bytes : Bytes) (i : ℕ) : Type 0 where
  pub before : Bytes
  pub behind : Bytes
  pub split : bytes ≡ before ++ 0 ∷ behind
  pub size : length before ≡ i
  pub nonzero : All IsNonZero before

-- What nul_index answers for the bytes.
abbrev pub NulAt : Bytes → Option ℕ → Type 0
NulAt bytes none = All IsNonZero bytes
NulAt bytes (some i) = Ends bytes i

one_more-NulAt :
    (c : ℕ) (rest : Bytes) (o : Option ℕ) → c ≢ 0 → NulAt rest o → NulAt (c ∷ rest) (one_more o)
unfolding one_more
one_more-NulAt c rest none h a = (h, a)
one_more-NulAt c rest (some i) h a = record {
  before = c ∷ a.before;
  behind = a.behind;
  split = ap (◌∷◌ c) a.split;
  size = ap suc a.size;
  nonzero = (h, a.nonzero);
}

pub nul_index-NulAt : (bytes : Bytes) → NulAt bytes (nul_index bytes)
unfolding nul_index
nul_index-NulAt [] = tt
nul_index-NulAt (c ∷ rest) =
    if_each (NulAt (c ∷ rest)) (c == 0) (some 0) (one_more (nul_index rest))
      (λ e. record {
        before = [];
        behind = rest;
        split = ap (λ d. d ∷ rest) ((==_iff c 0).0 e);
        size = refl;
        nonzero = tt;
      })
      (λ e. one_more-NulAt c rest (nul_index rest) (ground arith) (nul_index-NulAt rest))

module _ {M : Type 0} (byte : M → ℕ → Option ℕ) (m : M) where
  -- There is one string at an address.
  pub text_unique :
      (a : ℕ) (xs ys : Bytes)
      → All IsNonZero xs
      → All IsNonZero ys
      → Reads byte m a (xs ++ 0 ∷ [])
      → Reads byte m a (ys ++ 0 ∷ [])
      → xs ≡ ys
  text_unique a [] [] p q r s = refl
  text_unique a [] (y ∷ ys) p q (r, u) (s, v) = absurd (q.0 (some_injective byte y 0 (sym s ∙ r)))
  text_unique a (x ∷ xs) [] p q (r, u) (s, v) = absurd (p.0 (some_injective byte x 0 (sym r ∙ s)))
  text_unique a (x ∷ xs) (y ∷ ys) (p, ps) (q, qs) (r, rs) (s, ss) =
      let h : x ≡ y = some_injective byte x y (sym r ∙ s) in
      let t : xs ≡ ys = text_unique (suc a) xs ys ps qs rs ss in rw (h, t) refl

  -- Bytes without a NUL are shorter than a string.
  pub unterminated_short :
      (a : ℕ) (xs ys : Bytes)
      → All IsNonZero ys
      → Reads byte m a (xs ++ 0 ∷ [])
      → Reads byte m a ys
      → length ys ≤ length xs
  unterminated_short a xs [] q r s = omega arith
  unterminated_short a [] (y ∷ ys) q (r, u) (s, v) =
      absurd (q.0 (some_injective byte y 0 (sym s ∙ r)))
  unterminated_short a (x ∷ xs) (y ∷ ys) (q, qs) (r, rs) (s, ss) =
      omega (arith, unterminated_short (suc a) xs ys qs rs ss)
