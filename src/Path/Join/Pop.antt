-- ===== src/Path/Join/Pop.antt =====
-- pop_component of core/proot/src/main/cpp/path/canon.c behind join_paths of path/path.c.
pub mod Chop
use re_terminal.Prelude.{
  ℕ, zero, suc, ◌+◌, ◌-◌, ◌<◌, ◌≤◌, ◌≡◌, ◌≢◌, refl, ap, ◌∙◌, Bool, true, false, some, [], ◌∷◌, ◌++◌,
  arith, length, length-append, take, take-append, All, lt→ltb, ◌==◌,
}
use re_terminal.Prelude.Int.{pos}
use re_terminal.Path.{Bytes, slash, path_max}
use re_terminal.Path.Compare.{byte_at}
use re_terminal.Path.Join.{
  appended, joined, join_from, join_paths, back_while, is_slash, is_not_slash, pop_component,
}

-- k + m, as a tower of successors over m.
abbrev up : ℕ → ℕ → ℕ
up zero m = m
up (suc k) m = suc (up k m)

up-zero : (k : ℕ) → up k 0 ≡ k
up-zero zero = refl
up-zero (suc k) = ap suc (up-zero k)

up-suc : (k m : ℕ) → up k (suc m) ≡ suc (up k m)
up-suc zero m = refl
up-suc (suc k) m = ap suc (up-suc k m)

byte_at-append :
    (path name : Bytes) (k : ℕ) → byte_at (path ++ name) (up k (length path)) ≡ byte_at name k
byte_at-append [] name k = ap (byte_at name) (up-zero k)
byte_at-append (c ∷ path) name k =
    ap (byte_at (c ∷ (path ++ name))) (up-suc k (length path)) ∙ byte_at-append path name k

name_byte :
    (name : Bytes) (k : ℕ)
    → All (λ c. c ≢ slash) name
    → k < length name
    → is_not_slash (byte_at name k) ≡ true
name_byte [] k h l = ground (arith, l)
name_byte (c ∷ cs) zero h l = ground (arith, h.0)
name_byte (c ∷ cs) (suc k) h l = name_byte cs k h.1 (omega (arith, l))

stops :
    (test : ℕ → Bool) (path : Bytes) (n : ℕ)
    → test (byte_at path (suc (suc n))) ≡ false
    → back_while test path (suc (suc n)) ≡ suc (suc n)
unfolding back_while
stops test path n e = rw e

goes_on :
    (test : ℕ → Bool) (path : Bytes) (n : ℕ)
    → test (byte_at path (suc (suc n))) ≡ true
    → back_while test path (suc (suc n)) ≡ back_while test path (suc n)
unfolding back_while
goes_on test path n e = rw e

falls :
    (c d : ℕ) (rest name : Bytes) (k : ℕ)
    → All (λ b. b ≢ slash) name
    → k ≤ length name
    → back_while is_not_slash (c ∷ d ∷ (rest ++ slash ∷ name)) (suc (suc (up k (length rest))))
      ≡ suc (suc (length rest))
falls c d rest name zero h l =
    stops is_not_slash (c ∷ d ∷ (rest ++ slash ∷ name)) (length rest)
      (ap is_not_slash (byte_at-append rest (slash ∷ name) 0))
falls c d rest name (suc k) h l =
    goes_on is_not_slash (c ∷ d ∷ (rest ++ slash ∷ name)) (up (suc k) (length rest)) (
      ap is_not_slash (byte_at-append rest (slash ∷ name) (suc k))
      ∙ name_byte name k h (omega (arith, l)))
    ∙ falls c d rest name k h (omega (arith, l))

up_add : (k m : ℕ) → up k m ≡ k + m
up_add zero m = omega arith
up_add (suc k) m = omega (arith, up_add k m)

last_index :
    (rest : Bytes) (n : ℕ) (ns : Bytes)
    → suc (suc (length (rest ++ slash ∷ n ∷ ns))) - 1
      ≡ suc (suc (up (length (n ∷ ns)) (length rest)))
last_index rest n ns =
    omega (arith, up_add (length (n ∷ ns)) (length rest), length-append rest (slash ∷ n ∷ ns))

take_up : (rest tail : Bytes) → take (length rest) (rest ++ tail) ≡ rest
take_up rest tail = take-append rest tail

is_slash_not : (c : ℕ) → is_not_slash c ≡ true → is_slash c ≡ false
is_slash_not c e = ground (arith, e)

-- The last component of a path that has another before it.
pop_lem :
    (d : ℕ) (rest : Bytes) (n : ℕ) (ns : Bytes)
    → All (λ b. b ≢ slash) (n ∷ ns)
    → pop_component (slash ∷ d ∷ (rest ++ slash ∷ n ∷ ns)) ≡ some (slash ∷ d ∷ rest)
unfolding pop_component
pop_lem d rest n ns h =
    let p = slash ∷ d ∷ (rest ++ slash ∷ n ∷ ns) in
    let end = up (length (n ∷ ns)) (length rest) in
    let at_end : back_while is_slash p (suc (suc end)) ≡ suc (suc end) = stops is_slash p end (
      ap is_slash (byte_at-append rest (slash ∷ n ∷ ns) (length (n ∷ ns)))
      ∙ is_slash_not (byte_at (n ∷ ns) (length ns))
          (name_byte (n ∷ ns) (length ns) h (omega arith))) in
    let cut = falls slash d rest (n ∷ ns) (length (n ∷ ns)) h (omega arith) in
    ap (λ i. some (take (back_while is_not_slash p (back_while is_slash p i)) p))
      (last_index rest n ns)
    ∙ ap (λ i. some (take (back_while is_not_slash p i) p)) at_end
    ∙ ap (λ i. some (take i p)) cut
    ∙ ap (λ r. some (slash ∷ d ∷ r)) (take-append rest (slash ∷ n ∷ ns))

falls_root :
    (c : ℕ) (name : Bytes) (k : ℕ)
    → All (λ b. b ≢ slash) name
    → k < length name
    → back_while is_not_slash (c ∷ name) (suc k) ≡ 1
unfolding back_while
falls_root c name zero h l = refl
falls_root c name (suc k) h l =
    goes_on is_not_slash (c ∷ name) k (name_byte name (suc k) h l)
    ∙ falls_root c name k h (omega (arith, l))

stays :
    (c : ℕ) (name : Bytes) (k : ℕ)
    → All (λ b. b ≢ slash) name
    → k < length name
    → back_while is_slash (c ∷ name) (suc k) ≡ suc k
unfolding back_while
stays c name zero h l = refl
stays c name (suc k) h l =
    stops is_slash (c ∷ name) k (is_slash_not (byte_at name (suc k)) (name_byte name (suc k) h l))

-- The only component.
pop_root :
    (n : ℕ) (ns : Bytes)
    → All (λ b. b ≢ slash) (n ∷ ns)
    → pop_component (slash ∷ n ∷ ns) ≡ some (slash ∷ [])
unfolding pop_component
pop_root n ns h =
    let p = slash ∷ n ∷ ns in
    let before : suc (suc (length ns)) - 1 ≡ suc (length ns) = omega arith in
    ap (λ i. some (take (back_while is_not_slash p (back_while is_slash p i)) p)) before
    ∙ ap (λ i. some (take (back_while is_not_slash p i) p))
        (stays slash (n ∷ ns) (length ns) h (omega arith))
    ∙ ap (λ i. some (take i p)) (falls_root slash (n ∷ ns) (length ns) h (omega arith))

appended_lem : (n : ℕ) (r : Bytes) → n + 1 < path_max → appended n r ≡ some r
unfolding appended
appended_lem n r h = ground (arith, h)

-- A path that canonicalize leaves: it starts with a separator, and ends with one only if it is "/".
abbrev pub IsCanonical : Bytes → Type 0
IsCanonical [] = ⊥
IsCanonical (c ∷ []) = c ≡ slash
IsCanonical (c ∷ d ∷ rest) =
    (c ≡ slash) × ((byte_at (c ∷ d ∷ rest) (length (d ∷ rest)) == slash) ≡ false)

join_empty : (path : Bytes) → length path + 1 < path_max → joined [] path ≡ some path
unfolding joined
join_empty path h = appended_lem (0 + length path) path (omega (arith, h))

join_name :
    (d : ℕ) (rest : Bytes) (n : ℕ) (ns : Bytes)
    → (byte_at (slash ∷ d ∷ rest) (length (d ∷ rest)) == slash) ≡ false
    → (n == slash) ≡ false
    → length rest + length ns + 5 < path_max
    → joined (slash ∷ d ∷ rest) (n ∷ ns) ≡ some (slash ∷ d ∷ (rest ++ slash ∷ n ∷ ns))
unfolding joined
join_name d rest n ns e k h =
    rw (lt→ltb 0 (suc (suc (length rest))) (omega arith), last_of, e, k)
      (appended_lem (suc (suc (length rest)) + suc (length ns) + 1)
        (slash ∷ d ∷ (rest ++ slash ∷ n ∷ ns)) (omega (arith, h)))
  where
    last_of : suc (suc (length rest)) - 1 ≡ suc (length rest)
    last_of = omega arith

join_root :
    (n : ℕ) (ns : Bytes)
    → (n == slash) ≡ false
    → length ns + 3 < path_max
    → joined (slash ∷ []) (n ∷ ns) ≡ some (slash ∷ n ∷ ns)
unfolding joined
join_root n ns k h = rw k (appended_lem (1 + suc (length ns)) (slash ∷ n ∷ ns) (omega (arith, h)))

join_two :
    (path name path' : Bytes)
    → length path + 1 < path_max
    → joined path name ≡ some path'
    → join_paths (some path ∷ some name ∷ []) ≡ (path', pos 0)
unfolding join_paths join_from
join_two path name path' h e = rw (join_empty path h, e, join_from) refl

-- For a canonical path and a name that is not empty and has no separator, which together fit in
-- PATH_MAX with three bytes to spare, join_paths of the two succeeds and pop_component of the
-- result gives the path back.
pub pop_component-join_paths :
    (path : Bytes) (n : ℕ) (ns : Bytes)
    → IsCanonical path
    → All (λ b. b ≢ slash) (n ∷ ns)
    → length path + length (n ∷ ns) + 2 < path_max
    → ((join_paths (some path ∷ some (n ∷ ns) ∷ [])).1 ≡ pos 0)
      × (pop_component (join_paths (some path ∷ some (n ∷ ns) ∷ [])).0 ≡ some path)
pop_component-join_paths [] n ns c h l = elim c [ ]
pop_component-join_paths (a ∷ []) n ns c h l =
    let e =
      join_two (slash ∷ []) (n ∷ ns) (slash ∷ n ∷ ns) (omega (arith, l))
        (join_root n ns (ground (arith, h.0)) (omega (arith, l))) in
    rw (c, e) (refl, pop_root n ns h)
pop_component-join_paths (a ∷ d ∷ rest) n ns c h l =
    let e =
      join_two (slash ∷ d ∷ rest) (n ∷ ns) (slash ∷ d ∷ (rest ++ slash ∷ n ∷ ns)) (omega (arith, l))
        (join_name d rest n ns c.1 (ground (arith, h.0)) (omega (arith, l))) in
    rw (c.0, e) (refl, pop_lem d rest n ns h)
