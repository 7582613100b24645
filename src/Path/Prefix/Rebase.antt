-- ===== src/Path/Prefix/Rebase.antt =====
-- substitute_path_prefix of core/proot/src/main/cpp/path/path.c, on a directory and what stands
-- behind it.
use re_terminal.Prelude.{
  ℕ, suc, ◌+◌, ◌-◌, ◌<◌, ◌≤◌, ◌≡◌, ◌≢◌, refl, subst, ◌⊎◌, inl, inr, some, none, [], ◌∷◌, ◌++◌,
  arith, length, take, drop, length-append, take-length, drop-append, append-nil,
}
use re_terminal.Path.{Bytes, slash, path_max}
use re_terminal.Path.Prefix.{substitute_path_prefix, to_root, from_root, generic}

-- A directory: the root, or a longer absolute path.
pub data Dir : Type 0 where
  root : Dir
  sub : ℕ → Bytes → Dir

abbrev pub dir_path : Dir → Bytes
dir_path root = slash ∷ []
dir_path (sub c rest) = slash ∷ c ∷ rest

-- What stands behind a directory: nothing, or a separator and more.
pub data Tail : Type 0 where
  end : Tail
  more : ℕ → Bytes → Tail

abbrev pub tail_path : Tail → Bytes
tail_path end = []
tail_path (more c rest) = slash ∷ c ∷ rest

-- The path of what stands behind a directory: no second separator behind the root.
abbrev pub rebased : Dir → Tail → Bytes
rebased root end = slash ∷ []
rebased root (more c rest) = slash ∷ c ∷ rest
rebased (sub d dir) tail = slash ∷ d ∷ dir ++ tail_path tail

-- `take` and `drop` at a length that is written as a number.
take_all : (n : ℕ) (xs : Bytes) → length xs ≡ n → take n xs ≡ xs
take_all n xs e = subst (λ k. take k xs ≡ xs) e (take-length xs)

drop_front : (n : ℕ) (xs ys : Bytes) → length xs ≡ n → drop n (xs ++ ys) ≡ ys
drop_front n xs ys e = subst (λ k. drop k (xs ++ ys) ≡ ys) e (drop-append xs ys)

rebase_root :
    (b : ℕ) (old : Bytes) (tail : Tail)
    → to_root (rebased (sub b old) tail) (length (dir_path (sub b old)))
      ≡ (rebased root tail, some (length (rebased root tail)))
unfolding to_root
rebase_root b old end = ground (arith, length-append old [])
rebase_root b old (more c rest) = ground (
  arith,
  length-append old (slash ∷ c ∷ rest),
  drop-append old (slash ∷ c ∷ rest),
  take_all (length old + suc (suc (length rest)) - length old) (slash ∷ c ∷ rest) (omega arith),
)

rebase_sub :
    (b : ℕ) (old : Bytes) (d : ℕ) (dir : Bytes) (tail : Tail)
    → length (rebased (sub d dir) tail) < path_max
    → generic
        (rebased (sub b old) tail)
        (length (dir_path (sub b old)))
        (dir_path (sub d dir))
        (length (dir_path (sub d dir)))
      ≡ (rebased (sub d dir) tail, some (length (rebased (sub d dir) tail)))
unfolding generic
rebase_sub b old d dir tail fits = ground (
  arith,
  length-append old (tail_path tail),
  length-append dir (tail_path tail),
  drop-append old (tail_path tail),
  take-length dir,
)

rebase_from_root :
    (d : ℕ) (dir : Bytes) (tail : Tail)
    → length (rebased (sub d dir) tail) + 1 < path_max
    → from_root (rebased root tail) (dir_path (sub d dir)) (length (dir_path (sub d dir)))
      ≡ (rebased (sub d dir) tail, some (length (rebased (sub d dir) tail)))
unfolding from_root
rebase_from_root d dir end fits =
    ground (arith, take-length dir, length-append dir [], append-nil dir)
rebase_from_root d dir (more c rest) fits =
    ground (arith, take-length dir, length-append dir (slash ∷ c ∷ rest))

-- For two directories that are not both the root, substitute_path_prefix turns the path behind the
-- first into the path behind the second, with its length, if that fits in PATH_MAX with a byte to
-- spare.
pub rebase_lem :
    (old new : Dir) (tail : Tail)
    → (old ≢ root) ⊎ (new ≢ root)
    → length (rebased new tail) + 1 < path_max
    → substitute_path_prefix
        (rebased old tail)
        (length (dir_path old))
        (dir_path new)
        (length (dir_path new))
      ≡ (rebased new tail, some (length (rebased new tail)))
unfolding substitute_path_prefix
rebase_lem root root tail (inl h) fits = absurd (h refl)
rebase_lem root root tail (inr h) fits = absurd (h refl)
rebase_lem root (sub d dir) tail h fits = ground (arith, rebase_from_root d dir tail)
rebase_lem (sub b old) root tail h fits = ground (arith, rebase_root b old tail)
rebase_lem (sub b old) (sub d dir) tail h fits = ground (arith, rebase_sub b old d dir tail)

-- The path that a substitution leaves.
abbrev pub moved : Bytes → Dir → Dir → Bytes
moved path old new =
    (substitute_path_prefix path (length (dir_path old)) (dir_path new) (length (dir_path new))).0

-- For two directories that are not both the root, moving a path behind the first to the second and
-- back again by substitute_path_prefix gives the path, if both forms fit in PATH_MAX with a byte
-- to spare.
pub moved_roundtrip :
    (old new : Dir) (tail : Tail)
    → (old ≢ root) ⊎ (new ≢ root)
    → length (rebased new tail) + 1 < path_max
    → length (rebased old tail) + 1 < path_max
    → moved (moved (rebased old tail) old new) new old ≡ rebased old tail
moved_roundtrip old new tail h fits back =
    rw (moved, rebase_lem old new tail h fits)
      (rw (moved, rebase_lem new old tail (swapped h) back))
  where
    swapped : (old ≢ root) ⊎ (new ≢ root) → (new ≢ root) ⊎ (old ≢ root)
    swapped (inl n) = inr n
    swapped (inr n) = inl n

-- Between longer directories a path that would not fit is refused, and left as it was.
pub rebase_too_long :
    (b : ℕ) (old : Bytes) (d : ℕ) (dir : Bytes) (tail : Tail)
    → path_max ≤ length (rebased (sub d dir) tail)
    → substitute_path_prefix
        (rebased (sub b old) tail)
        (length (dir_path (sub b old)))
        (dir_path (sub d dir))
        (length (dir_path (sub d dir)))
      ≡ (rebased (sub b old) tail, none)
unfolding substitute_path_prefix generic
rebase_too_long b old d dir tail long =
    ground (arith, length-append old (tail_path tail), length-append dir (tail_path tail))
