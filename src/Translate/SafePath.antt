-- ===== src/Translate/SafePath.antt =====
-- Guest paths with no "." or ".." among their components, through join_paths and pop_component of
-- core/proot/src/main/cpp/path.
pub mod Pop
use re_terminal.Prelude.{
  ℕ, zero, suc, ◌+◌, ◌-◌, ◌<◌, ◌≤◌, ◌≡◌, ◌≢◌, refl, ap, sym, ◌∙◌, subst, Bool, true, false, not,
  ◌&&◌, Option, none, some, List, [], ◌∷◌, ◌++◌, arith, length, length-append, take, All, ltb,
  lt→ltb, leb, ◌==◌, ◌⊎◌, inl, inr, Gives, Gives-if, Gives-none, Gives-some, append_assoc,
  if◌then◌else◌, Option-cases, Bool-cases, drop,
}
use re_terminal.Prelude.Int.{ℤ, pos, is_negative, minus_enametoolong}
use re_terminal.Path.{Bytes, slash, dot, path_max}
use re_terminal.Path.Compare.{byte_at}
use re_terminal.Path.Join.{appended, joined, join_from, join_paths}

-- A component that is no "." and no "..". It may be empty, behind a final or a second separator.
pub record IsName (name : Bytes) : Type 0 where
  pub no_slash : All (λ b. b ≢ slash) name
  pub not_dot : name ≢ dot ∷ []
  pub not_dots : name ≢ dot ∷ dot ∷ []

-- A path by its components, the last one first.
unfoldable pub render : List Bytes → Bytes
render [] = []
render (name ∷ names) = render names ++ slash ∷ name

-- An absolute path of such components.
pub record IsSafe (path : Bytes) : Type 0 where
  pub last : Bytes
  pub before : List Bytes
  pub last_name : IsName last
  pub before_names : All IsName before
  pub rendered : path ≡ render (last ∷ before)

pub empty-IsName : IsName []
empty-IsName = record { no_slash = tt; not_dot = λ e. cc; not_dots = λ e. cc }

pub root-IsSafe : IsSafe (slash ∷ [])
unfolding render
root-IsSafe = record {
  last = [];
  before = [];
  last_name = empty-IsName;
  before_names = tt;
  rendered = refl;
}

pub byte_at-behind :
    (xs ys : Bytes) (i k : ℕ) → i ≡ length xs + k → byte_at (xs ++ ys) i ≡ byte_at ys k
byte_at-behind [] ys i k e = let e' : i ≡ k = omega arith in ap (byte_at ys) e'
byte_at-behind (x ∷ xs) ys zero k e = absurd (omega (arith, e))
byte_at-behind (x ∷ xs) ys (suc i) k e = byte_at-behind xs ys i k (omega (arith, e))

name_byte_ne :
    (name : Bytes) (k : ℕ) → All (λ b. b ≢ slash) name → (byte_at name k == slash) ≡ false
name_byte_ne [] k h = refl
name_byte_ne (c ∷ cs) zero h = ground (arith, h.0)
name_byte_ne (c ∷ cs) (suc k) h = name_byte_ne cs k h.1

last_at :
    (xs name : Bytes)
    → byte_at (xs ++ slash ∷ name) (length (xs ++ slash ∷ name) - 1)
      ≡ byte_at (slash ∷ name) (length name)
last_at xs name =
    byte_at-behind xs (slash ∷ name) (length (xs ++ slash ∷ name) - 1) (length name)
      (omega (arith, length-append xs (slash ∷ name)))

long_enough : (xs name : Bytes) → ltb 0 (length (xs ++ slash ∷ name)) ≡ true
long_enough xs name =
    lt→ltb 0 (length (xs ++ slash ∷ name)) (omega (arith, length-append xs (slash ∷ name)))

appended-IsSafe : (n : ℕ) (r : Bytes) → IsSafe r → Gives IsSafe (appended n r)
unfolding appended
appended-IsSafe n r h =
    Gives-if IsSafe (leb path_max (n + 1)) none (some r) (λ e. Gives-none IsSafe)
      (λ e. Gives-some IsSafe r h)

-- The two ways of a join: behind a final separator, and behind a name.
joined-IsSafe :
    (last name : Bytes) (before : List Bytes)
    → IsName last
    → All IsName before
    → IsName name
    → Gives IsSafe (joined (render (last ∷ before)) name)
unfolding joined render
joined-IsSafe [] name before l b h =
    rw (long_enough (render before) [], last_at (render before) [], name_byte_ne name 0 h.no_slash)
      (appended-IsSafe _ ((render before ++ slash ∷ []) ++ name) (record {
        last = name;
        before = before;
        last_name = h;
        before_names = b;
        rendered = append_assoc (render before) (slash ∷ []) name;
      }))
joined-IsSafe (c ∷ cs) name before l b h =
    rw
      (
        long_enough (render before) (c ∷ cs),
        last_at (render before) (c ∷ cs),
        name_byte_ne (c ∷ cs) (length cs) l.no_slash,
        name_byte_ne name 0 h.no_slash,
      )
      (appended-IsSafe _ ((render before ++ slash ∷ c ∷ cs) ++ slash ∷ name) (record {
        last = name;
        before = (c ∷ cs) ∷ before;
        last_name = h;
        before_names = (l, b);
        rendered = refl;
      }))

first_join : (path : Bytes) → (joined [] path ≡ none) ⊎ (joined [] path ≡ some path)
unfolding joined appended
first_join path = elim (Bool-cases (leb path_max (0 + length path + 1))) [
  | inl e ↦ inl (rw e)
  | inr e ↦ inr (rw e)
]

-- Either join fails, or the second one gives the result.
join_cases :
    (path name : Bytes)
    → (is_negative (join_paths (some path ∷ some name ∷ [])).1 ≡ true)
      ⊎ ((q : Bytes) × (joined path name ≡ some q)
          × (join_paths (some path ∷ some name ∷ []) ≡ (q, pos 0)))
unfolding join_paths join_from
join_cases path name = elim (first_join path) [
  | inl e ↦ inl (rw (e, join_from) refl)
  | inr e ↦ elim (Option-cases (joined path name)) [
    | inl k ↦ inl (rw (e, k, join_from) refl)
    | inr (q, k) ↦ inr (q, k, rw (e, k, join_from) refl)
  ]
]

-- What join_paths makes of a safe path and a name is safe, if it succeeds.
pub join-IsSafe :
    (path name : Bytes)
    → IsSafe path
    → IsName name
    → is_negative (join_paths (some path ∷ some name ∷ [])).1 ≡ false
    → IsSafe (join_paths (some path ∷ some name ∷ [])).0
join-IsSafe path name s h e = elim (join_cases path name) [
  | inl f ↦ absurd_bool (sym f ∙ e)
  | inr (q, j, r) ↦
      let safe = joined-IsSafe s.last name s.before s.last_name s.before_names h in
      let given = safe.holds q (ap (λ p. joined p name) (sym s.rendered) ∙ j) in
      subst (λ (x : Bytes × ℤ). IsSafe x.0) (sym r) given
]
  where
    absurd_bool : true ≡ false → IsSafe (join_paths (some path ∷ some name ∷ [])).0
    absurd_bool p = cc

-- It starts with a separator.
starts-render : (last : Bytes) (before : List Bytes) → byte_at (render (last ∷ before)) 0 ≡ slash
unfolding render
starts-render last [] = refl
starts-render last (name ∷ names) =
    head_append (render names ++ slash ∷ name) (slash ∷ last) (starts-render name names)
  where
    head_append : (xs ys : Bytes) → byte_at xs 0 ≡ slash → byte_at (xs ++ ys) 0 ≡ slash
    head_append [] ys e = absurd (omega (arith, e))
    head_append (x ∷ xs) ys e = e

pub starts-IsSafe : (path : Bytes) → IsSafe path → byte_at path 0 ≡ slash
starts-IsSafe path s = ap (λ p. byte_at p 0) s.rendered ∙ starts-render s.last s.before
