-- ===== src/Path/Component/Splits.antt =====
-- What next_component of core/proot/src/main/cpp/path/canon.c reads from its cursor.
use re_terminal.Prelude.{
  ℕ, suc, subst, sym, lt→ltb, ◌<◌, ◌≡◌, ◌≢◌, refl, ap, ◌∙◌, true, false, some, [], ◌∷◌, ◌++◌, arith,
  length, All, ◌==◌, ltb, if◌then◌else◌, Bool-cases, inl, inr, Gives, Gives-some, Gives-none,
  ltb→lt, ==_iff,
}
use re_terminal.Path.{Bytes, slash, name_max}
use re_terminal.Path.Component.{
  Finality, not_final, final_normal, final_slash, skip_slashes, span, starts_with_slash,
  finality_of, next_component,
}

-- The separators that skip_slashes drops.
pub slashes : Bytes → Bytes
slashes [] = []
slashes (c ∷ cs) = let further = slashes cs in if c == slash then c ∷ further else []

slashes-skip : (path : Bytes) → slashes path ++ skip_slashes path ≡ path
unfolding slashes skip_slashes
slashes-skip [] = refl
slashes-skip (c ∷ cs) = elim (Bool-cases (c == slash)) [
  | inl e ↦ rw e (ap (◌∷◌ c) (slashes-skip cs))
  | inr e ↦ rw e (refl)
]

slashes-All : (path : Bytes) → All (λ c. c ≡ slash) (slashes path)
unfolding slashes
slashes-All [] = tt
slashes-All (c ∷ cs) = elim (Bool-cases (c == slash)) [
  | inl e ↦ rw e (((==_iff c slash).0 e, slashes-All cs))
  | inr e ↦ rw e (tt)
]

not_slash : (c : ℕ) → (c == slash) ≡ false → c ≢ slash
not_slash c e p = ground (arith, e, p)

skip-starts : (path : Bytes) → starts_with_slash (skip_slashes path) ≡ false
unfolding skip_slashes
skip-starts [] = refl
skip-starts (c ∷ cs) = elim (Bool-cases (c == slash)) [
  | inl e ↦ rw e (skip-starts cs)
  | inr e ↦ rw e (e)
]

span-append : (path : Bytes) → (span path).0 ++ (span path).1 ≡ path
unfolding span
span-append [] = refl
span-append (c ∷ cs) = elim (Bool-cases (c == slash)) [
  | inl e ↦ rw e (refl)
  | inr e ↦ rw e (ap (◌∷◌ c) (span-append cs))
]

span-All : (path : Bytes) → All (λ c. c ≢ slash) (span path).0
unfolding span
span-All [] = tt
span-All (c ∷ cs) = elim (Bool-cases (c == slash)) [
  | inl e ↦ rw e (tt)
  | inr e ↦ rw e ((not_slash c e, span-All cs))
]

-- Behind a component there is a separator, or the end.
tail_stops : (path : Bytes) → slashes (span path).1 ≡ [] → skip_slashes (span path).1 ≡ []
unfolding span slashes skip_slashes
tail_stops [] = λ h. refl
tail_stops (c ∷ cs) = elim (Bool-cases (c == slash)) [
  | inl e ↦ rw e (rw e (λ h. cc))
  | inr e ↦ rw e (tail_stops cs)
]

empty_at_end :
    (path : Bytes)
    → starts_with_slash path ≡ false
    → (span path).0 ≡ []
    → slashes (span path).1 ≡ []
unfolding span slashes
empty_at_end [] s = λ h. refl
empty_at_end (c ∷ cs) s = rw s (λ h. cc)

-- The finality, by the separators behind the component and the rest.
abbrev pub Told : Bytes → Bytes → Finality → Type 0
Told after (c ∷ rest) finality = finality ≡ not_final
Told [] [] finality = finality ≡ final_normal
Told (c ∷ after) [] finality = finality ≡ final_slash

told_lem : (after rest : Bytes) → Told after rest (finality_of (ltb 0 (length after)) rest)
unfolding finality_of
told_lem after (c ∷ rest) = refl
told_lem [] [] = refl
told_lem (c ∷ after) [] = rw (lt→ltb 0 (suc (length after)) (omega arith)) refl

-- What a cursor was, by the component read from it and the cursor left: separators, the component,
-- separators and the rest. The component has no separator and is shorter than NAME_MAX, it reaches
-- the next separator or the end, it is empty at the end only, and the rest starts with no separator.
pub record IsSplit (cursor component rest : Bytes) (finality : Finality) : Type 0 where
  pub before : Bytes
  pub after : Bytes
  pub whole : before ++ (component ++ (after ++ rest)) ≡ cursor
  pub before_slashes : All (λ c. c ≡ slash) before
  pub after_slashes : All (λ c. c ≡ slash) after
  pub no_slash : All (λ c. c ≢ slash) component
  pub short : length component < name_max
  pub rest_starts : starts_with_slash rest ≡ false
  pub reaches : after ≡ [] → rest ≡ []
  pub at_end : component ≡ [] → after ≡ []
  pub told : Told after rest finality

starts_slashes : (path : Bytes) → starts_with_slash path ≡ ltb 0 (length (slashes path))
unfolding slashes
starts_slashes [] = refl
starts_slashes (c ∷ cs) = elim (Bool-cases (c == slash)) [
  | inl e ↦ rw e (ground arith)
  | inr e ↦ rw e (ground arith)
]

split_whole :
    (cursor : Bytes)
    → let tail = (span (skip_slashes cursor)).1 in
      slashes cursor ++ ((span (skip_slashes cursor)).0 ++ (slashes tail ++ skip_slashes tail))
      ≡ cursor
split_whole cursor =
    let path = skip_slashes cursor in
    ap (slashes cursor ++◌) (ap ((span path).0 ++◌) (slashes-skip (span path).1) ∙ span-append path)
    ∙ slashes-skip cursor

abbrev Splits : Bytes → Bytes × Bytes × Finality → Type 0
Splits cursor (component, rest, finality) = IsSplit cursor component rest finality

split_lem :
    (cursor : Bytes)
    → let (component, tail) = span (skip_slashes cursor) in
      ltb (length component) name_max ≡ true
      → IsSplit cursor component
          (skip_slashes tail)
          (finality_of (starts_with_slash tail) (skip_slashes tail))
split_lem cursor short =
    let path = skip_slashes cursor in
    let tail = (span path).1 in
    record {
      before = slashes cursor;
      after = slashes tail;
      whole = split_whole cursor;
      before_slashes = slashes-All cursor;
      after_slashes = slashes-All tail;
      no_slash = span-All path;
      short = ltb→lt (length (span path).0) name_max short;
      rest_starts = skip-starts tail;
      reaches = tail_stops path;
      at_end = empty_at_end path (skip-starts cursor);
      told =
          subst (λ b. Told (slashes tail) (skip_slashes tail) (finality_of b (skip_slashes tail)))
            (sym (starts_slashes tail)) (told_lem (slashes tail) (skip_slashes tail));
    }

next_component-Gives : (cursor : Bytes) → Gives (Splits cursor) (next_component cursor)
unfolding next_component
next_component-Gives cursor =
    let (component, tail) = span (skip_slashes cursor) in
    elim (Bool-cases (ltb (length component) name_max)) [
      | inl e ↦ rw e (
          Gives-some (Splits cursor)
            (component, skip_slashes tail, finality_of (starts_with_slash tail) (skip_slashes tail))
            (split_lem cursor e))
      | inr e ↦ rw e (Gives-none (Splits cursor))
    ]

-- A component that next_component reads splits its cursor: separators, the component, separators
-- and the rest. The component has no separator and is shorter than NAME_MAX; it reaches up to a
-- separator or to the end, and is empty only at the end. The rest does not start with a separator.
-- The finality tells whether there is a rest, and, if there is none, whether a separator stands
-- behind the component.
pub next_component-IsSplit :
    (cursor component rest : Bytes) (finality : Finality)
    → next_component cursor ≡ some (component, rest, finality)
    → IsSplit cursor component rest finality
next_component-IsSplit cursor component rest finality e =
    (next_component-Gives cursor).holds (component, rest, finality) e
