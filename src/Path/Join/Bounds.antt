-- ===== src/Path/Join/Bounds.antt =====
-- What join_paths of core/proot/src/main/cpp/path/path.c leaves in result[].
use re_terminal.Prelude.{
  ℕ, ◌+◌, ◌-◌, ◌<◌, ◌≤◌, ◌≡◌, Bool, true, false, Option, none, some, List, [], ◌∷◌, ◌++◌, arith,
  length, length-append, Gives, Gives-if, Gives-some, Gives-none, ltb, leb, Option-cases, drop,
  ◌==◌, ◌&&◌, not, inl, inr,
}
use re_terminal.Path.{Bytes, slash, path_max}
use re_terminal.Path.Compare.{byte_at}
use re_terminal.Path.Join.{appended, joined, join_from, join_paths}

-- It and its terminator leave one byte of PATH_MAX free.
abbrev pub Fits : Bytes → Type 0
Fits result = length result + 1 < path_max

appended-Fits : (n : ℕ) (r : Bytes) → length r ≤ n → Gives Fits (appended n r)
unfolding appended
appended-Fits n r h =
    Gives-if Fits (leb path_max (n + 1)) none (some r) (λ e. Gives-none Fits)
      (λ e. Gives-some Fits r (ground arith))

length_between :
    (result path : Bytes) → length (result ++ slash ∷ path) ≤ length result + length path + 1
length_between result path = rw length-append (omega arith)

length_without :
    (result path : Bytes)
    → (byte_at path 0 == slash) ≡ true
    → length (result ++ drop 1 path) ≤ length result + length path - 1
length_without result [] e = ground (arith, e)
length_without result (c ∷ cs) e = rw length-append (omega arith)

and_right : (a b : Bool) → (a && b) ≡ true → b ≡ true
and_right true b e = e
and_right false b e = cc

joined-Fits : (result path : Bytes) → Gives Fits (joined result path)
unfolding joined
joined-Fits result path =
    let n = length result in
    let ends = byte_at result (n - 1) == slash in
    let starts = byte_at path 0 == slash in
    Gives-if Fits (ltb 0 n && not ends && not starts) _ _
      (λ e.
        appended-Fits (n + length path + 1) (result ++ slash ∷ path) (length_between result path))
      (λ e.
        Gives-if Fits (ltb 0 n && ends && starts) _ _
          (λ k.
            appended-Fits (n + length path - 1) (result ++ drop 1 path)
              (length_without result path (and_right (ltb 0 n && ends) starts k)))
          (λ k. appended-Fits (n + length path) (result ++ path) (rw length-append (omega arith))))

join_from-Fits :
    (paths : List (Option Bytes)) (result : Bytes) → Fits result → Fits (join_from paths result).0
unfolding join_from
join_from-Fits [] result h = h
join_from-Fits (none ∷ paths) result h = join_from-Fits paths result h
join_from-Fits (some path ∷ paths) result h = elim (Option-cases (joined result path)) [
  | inl e ↦ rw (e, join_from) h
  | inr (r, e) ↦ rw (e, join_from) (join_from-Fits paths r ((joined-Fits result path).holds r e))
]

-- Whatever the paths, and on an error as well, what join_paths leaves in its buffer and its
-- terminator leave one byte of PATH_MAX free.
pub join_paths-bounds : (paths : List (Option Bytes)) → length (join_paths paths).0 + 1 < path_max
unfolding join_paths
join_paths-bounds paths = join_from-Fits paths [] (omega arith)
