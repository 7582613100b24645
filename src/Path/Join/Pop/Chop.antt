-- ===== src/Path/Join/Pop/Chop.antt =====
-- chop_finality of core/proot/src/main/cpp/path/path.c on a path with a final "/" or "/.".
use re_terminal.Prelude.{
  ℕ, suc, ◌+◌, ◌-◌, ◌≡◌, refl, ap, false, some, [], ◌∷◌, ◌++◌, arith, length, length-append,
  take-append, ltb, lt→ltb, ◌==◌,
}
use re_terminal.Path.{Bytes, slash, dot}
use re_terminal.Path.Join.{chop_finality}
use re_terminal.Path.Join.Pop.{up, byte_at-append}

chop_dot :
    (c : ℕ) (rest : Bytes)
    → chop_finality (slash ∷ c ∷ (rest ++ slash ∷ dot ∷ [])) ≡ some (slash ∷ c ∷ rest)
unfolding chop_finality
chop_dot c rest =
    rw
      (
        last,
        byte_at-append rest (slash ∷ dot ∷ []) 1,
        lt→ltb 0 (suc (suc (length (rest ++ slash ∷ dot ∷ [])))) (omega arith),
        long,
        longer,
        cut,
      )
      (ap (λ r. some (slash ∷ c ∷ r)) (take-append rest (slash ∷ dot ∷ [])))
  where
    total : length (rest ++ slash ∷ dot ∷ []) ≡ length rest + 2
    total = length-append rest (slash ∷ dot ∷ [])

    last : suc (suc (length (rest ++ slash ∷ dot ∷ []))) - 1 ≡ suc (suc (up 1 (length rest)))
    last = omega (arith, total)

    long : ltb (suc (suc (length (rest ++ slash ∷ dot ∷ [])))) 2 ≡ false
    long = ground (arith, total)

    longer : (suc (suc (length (rest ++ slash ∷ dot ∷ []))) == 2) ≡ false
    longer = ground (arith, total)

    cut : suc (suc (length (rest ++ slash ∷ dot ∷ []))) - 2 ≡ suc (suc (length rest))
    cut = omega (arith, total)

chop_slash :
    (c : ℕ) (rest : Bytes)
    → chop_finality (slash ∷ c ∷ (rest ++ slash ∷ [])) ≡ some (slash ∷ c ∷ rest)
unfolding chop_finality
chop_slash c rest =
    rw
      (
        last,
        byte_at-append rest (slash ∷ []) 0,
        lt→ltb 0 (suc (suc (length (rest ++ slash ∷ [])))) (omega arith),
        lt→ltb 1 (suc (suc (length (rest ++ slash ∷ [])))) (omega arith),
      )
      (ap (λ r. some (slash ∷ c ∷ r)) (take-append rest (slash ∷ [])))
  where
    total : length (rest ++ slash ∷ []) ≡ length rest + 1
    total = length-append rest (slash ∷ [])

    last : suc (suc (length (rest ++ slash ∷ []))) - 1 ≡ suc (suc (length rest))
    last = omega (arith, total)

-- Of a path that starts with a separator and has at least one byte more, followed by a separator
-- and a dot or by a separator, chop_finality leaves the path; of the root, followed by a dot or
-- not, it leaves the root.
pub chop_finality_lem :
    (c : ℕ) (rest : Bytes)
    → (chop_finality (slash ∷ c ∷ (rest ++ slash ∷ dot ∷ [])) ≡ some (slash ∷ c ∷ rest))
      × (chop_finality (slash ∷ c ∷ (rest ++ slash ∷ [])) ≡ some (slash ∷ c ∷ rest))
      × (chop_finality (slash ∷ dot ∷ []) ≡ some (slash ∷ []))
      × (chop_finality (slash ∷ []) ≡ some (slash ∷ []))
unfolding chop_finality
chop_finality_lem c rest = (chop_dot c rest, chop_slash c rest, refl, refl)
