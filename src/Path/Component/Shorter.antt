-- ===== src/Path/Component/Shorter.antt =====
-- next_component of core/proot/src/main/cpp/path/canon.c: the bytes that are left.
use re_terminal.Prelude.{
  ◌<◌, ◌≤◌, ◌≡◌, ◌≢◌, refl, ap, sym, ◌∙◌, Bool, true, false, some, [], ◌∷◌, arith, length, ◌==◌,
  Bool-cases, inl, inr,
}
use re_terminal.Path.{Bytes, slash}
use re_terminal.Path.Component.{
  Finality, not_final, next_component, skip_slashes, span, starts_with_slash, finality_of,
}

skip-le : (path : Bytes) → length (skip_slashes path) ≤ length path
unfolding skip_slashes
skip-le [] = omega arith
skip-le (c ∷ cs) = elim (Bool-cases (c == slash)) [
  | inl e ↦ rw e (omega (arith, skip-le cs))
  | inr e ↦ rw e (omega arith)
]

span-le : (path : Bytes) → length (span path).1 ≤ length path
unfolding span
span-le [] = omega arith
span-le (c ∷ cs) = elim (Bool-cases (c == slash)) [
  | inl e ↦ rw e (omega arith)
  | inr e ↦ rw e (omega (arith, span-le cs))
]

not_final-ne : (want_dir : Bool) → finality_of want_dir [] ≢ not_final
unfolding finality_of
not_final-ne true = λ e. cc
not_final-ne false = λ e. cc

tail-lt :
    (path : Bytes) (want_dir : Bool)
    → starts_with_slash path ≡ false
    → finality_of want_dir (skip_slashes (span path).1) ≡ not_final
    → length (skip_slashes (span path).1) < length path
unfolding span skip_slashes
tail-lt [] want_dir s f = absurd (not_final-ne want_dir f)
tail-lt (c ∷ cs) want_dir s f = rw s (omega (arith, skip-le (span cs).1, span-le cs))

skip-starts : (path : Bytes) → starts_with_slash (skip_slashes path) ≡ false
unfolding skip_slashes
skip-starts [] = refl
skip-starts (c ∷ cs) = elim (Bool-cases (c == slash)) [
  | inl e ↦ rw e (skip-starts cs)
  | inr e ↦ rw e (e)
]

next-rest :
    (cursor component rest : Bytes) (finality : Finality)
    → next_component cursor ≡ some (component, rest, finality)
    → (rest ≡ skip_slashes (span (skip_slashes cursor)).1)
      × (finality ≡ finality_of (starts_with_slash (span (skip_slashes cursor)).1) rest)
unfolding next_component
next-rest cursor component rest finality e = ground (arith, e)

-- One byte fewer, at the least, is left behind a component that is not the last one.
pub cursor-lt :
    (cursor component rest : Bytes)
    → next_component cursor ≡ some (component, rest, not_final)
    → length rest < length cursor
cursor-lt cursor component rest e =
    let (r, f) = next-rest cursor component rest not_final e in
    let path = skip_slashes cursor in
    let shorter =
      tail-lt path (starts_with_slash (span path).1) (skip-starts cursor)
        (ap (λ t. finality_of (starts_with_slash (span path).1) t) (sym r) ∙ sym f) in
    rw r (omega (arith, shorter, skip-le cursor))
