-- ===== src/Translate/Proc/Safe.antt =====
-- The paths of descriptors that readlink_proc of core/proot/src/main/cpp/path/proc.c gives.
use re_terminal.Prelude.{
  ℕ, zero, suc, ◌+◌, ◌-◌, ◌/◌, ◌%◌, ◌≤◌, ◌≡◌, ◌≢◌, refl, ap, sym, subst, Bool, true, false, not,
  Option, none, some, List, [], ◌∷◌, ◌++◌, arith, length, length-append, drop, All, All-append, ltb,
  leb, ◌==◌, ◌⊎◌, inl, inr, Bool-cases, if◌then◌else◌,
}
use re_terminal.Prelude.Int.{ℤ, pos, negsuc}
use re_terminal.Path.{
  Bytes, slash, dot, path_max, Comparison, paths_are_equal, path1_is_prefix, path2_is_prefix,
  paths_are_not_comparable,
}
use re_terminal.Path.Compare.{byte_at, trimmed, compare_paths}
use re_terminal.Translate.{Known}
use re_terminal.Translate.SafePath.{IsName, render, IsSafe, empty-IsName, byte_at-behind}
use re_terminal.Path.Compare.Equal.{equal_cases, trimmed_name}
use re_terminal.Translate.Proc.{
  digits, decimal, slash_fd, proc_pid, Action, default, refused, canonicalize_it, dont_canonicalize,
  substituted, links_of, descriptor, below_pid, descriptors, of_pid, in_proc, itself, readlink_proc,
  atoi, strtol_succeeds,
}

-- A digit or a minus sign.
abbrev IsNumeral : ℕ → Type 0
IsNumeral b = (b ≡ b'-') ⊎ (b'0' ≤ b)

digit-IsNumeral : (n : ℕ) → IsNumeral (b'0' + n % 10)
digit-IsNumeral n = inr (omega arith)

digits-IsNumeral : (fuel n : ℕ) → All IsNumeral (digits fuel n)
unfolding digits
digits-IsNumeral zero n = tt
digits-IsNumeral (suc fuel) n = elim (Bool-cases (ltb n 10)) [
  | inl e ↦ rw e (digit-IsNumeral n, tt)
  | inr e ↦ rw e (
      All-append IsNumeral (digits fuel (n / 10)) ((b'0' + n % 10) ∷ [])
        (digits-IsNumeral fuel (n / 10)) (digit-IsNumeral n, tt))
]

decimal-IsNumeral : (z : ℤ) → All IsNumeral (decimal z)
unfolding decimal
decimal-IsNumeral (pos n) = digits-IsNumeral 20 n
decimal-IsNumeral (negsuc n) = (inl refl, digits-IsNumeral 20 (suc n))

numeral-no_slash : (name : Bytes) → All IsNumeral name → All (λ b. b ≢ slash) name
numeral-no_slash [] h = tt
numeral-no_slash (b ∷ bs) h = (λ e. ground (arith, h.0, e), numeral-no_slash bs h.1)

numeral-ne-dot : (name rest : Bytes) → All IsNumeral name → name ≢ dot ∷ rest
numeral-ne-dot name rest h e = no_dot (subst (All IsNumeral) e h).0
  where
    no_dot : IsNumeral dot → ⊥
    no_dot (inl p) = omega (arith, p)
    no_dot (inr p) = omega (arith, p)

decimal-IsName : (z : ℤ) → IsName (decimal z)
decimal-IsName z = record {
  no_slash = numeral-no_slash (decimal z) (decimal-IsNumeral z);
  not_dot = numeral-ne-dot (decimal z) [] (decimal-IsNumeral z);
  not_dots = numeral-ne-dot (decimal z) (dot ∷ []) (decimal-IsNumeral z);
}

abbrev proc_name : Bytes
proc_name = b'p' ∷ b'r' ∷ b'o' ∷ b'c' ∷ []

abbrev fd_name : Bytes
fd_name = b'f' ∷ b'd' ∷ []

proc-IsName : IsName proc_name
proc-IsName = record {
  no_slash = (omega arith, (omega arith, (omega arith, (omega arith, tt))));
  not_dot = λ e. cc;
  not_dots = λ e. cc;
}

fd-IsName : IsName fd_name
fd-IsName = record {
  no_slash = (omega arith, (omega arith, tt));
  not_dot = λ e. cc;
  not_dots = λ e. omega (arith, ap (λ p. byte_at p 0) e);
}

abbrev directory : ℤ → List Bytes
directory pid = fd_name ∷ decimal pid ∷ proc_name ∷ []

directory-names : (pid : ℤ) → All IsName (directory pid)
directory-names pid = (fd-IsName, (decimal-IsName pid, (proc-IsName, tt)))

directory-render : (pid : ℤ) → proc_pid pid ++ slash_fd ≡ render (directory pid)
unfolding render
directory-render pid = refl

-- A directory of descriptors is safe, by the path that the comparison finds equal to it.
directory-IsSafe : (pid : ℤ) → IsSafe (proc_pid pid ++ slash_fd)
directory-IsSafe pid = record {
  last = fd_name;
  before = decimal pid ∷ proc_name ∷ [];
  last_name = fd-IsName;
  before_names = (decimal-IsName pid, (proc-IsName, tt));
  rendered = directory-render pid;
}

below-IsSafe : (path name : Bytes) → IsSafe path → IsName name → IsSafe (path ++ slash ∷ name)
unfolding render
below-IsSafe path name s h = record {
  last = name;
  before = s.last ∷ s.before;
  last_name = h;
  before_names = (s.last_name, s.before_names);
  rendered = ap (λ p. p ++ slash ∷ name) s.rendered;
}

directory_last :
    (pid : ℤ) → let path = proc_pid pid ++ slash_fd in trimmed path (length path) ≡ length path
directory_last pid =
    let path = proc_pid pid ++ slash_fd in
    trimmed_name path (
      ap (λ b. b == slash)
        (byte_at-behind (proc_pid pid) slash_fd (length path - 1) 2
          (omega (arith, length-append (proc_pid pid) slash_fd))))

base-IsSafe :
    (pid : ℤ) (base : Bytes)
    → compare_paths (proc_pid pid ++ slash_fd) base ≡ paths_are_equal
    → IsSafe base
base-IsSafe pid base e =
    let path = proc_pid pid ++ slash_fd in
    elim (equal_cases path base (directory_last pid)
      (omega (arith, length-append (proc_pid pid) slash_fd)) e) [
        | inl same_path ↦ subst IsSafe (sym same_path) (directory-IsSafe pid)
        | inr more ↦
            subst IsSafe (sym more) (below-IsSafe path [] (directory-IsSafe pid) empty-IsName)
      ]

-- What is final of a link is safe.
abbrev pub ActionIsSafe : Action → Type 0
ActionIsSafe (dont_canonicalize path) = IsSafe path
ActionIsSafe (canonicalize_it path) = Unit {0}
ActionIsSafe default = Unit {0}
ActionIsSafe refused = Unit {0}

Action-if :
    (b : Bool) (x y : Action) → ActionIsSafe x → ActionIsSafe y → ActionIsSafe (if b then x else y)
Action-if true x y p q = p
Action-if false x y p q = q

substituted-IsSafe : (string : Bytes) → ActionIsSafe (substituted string)
unfolding substituted
substituted-IsSafe string =
    Action-if (leb path_max (length string)) refused (canonicalize_it string) tt tt

links-IsSafe : (known : Option Known) (component : Bytes) → ActionIsSafe (links_of known component)
unfolding links_of
links-IsSafe none component = tt
links-IsSafe (some tracee) component = search (Action-if, substituted-IsSafe) depth 6

descriptor-IsSafe :
    (base component : Bytes)
    → IsSafe base
    → IsName component
    → ActionIsSafe (descriptor base component)
unfolding descriptor
descriptor-IsSafe base component s h =
    let result = base ++ (slash ∷ component) in
    Action-if (not (strtol_succeeds component)) refused
      (if leb path_max (length result) then refused else dont_canonicalize result) tt
      (Action-if (leb path_max (length result)) refused (dont_canonicalize result) tt
        (below-IsSafe base component s h))

descriptors-IsSafe :
    (pid : ℤ) (base component : Bytes) (c : Comparison)
    → compare_paths (proc_pid pid ++ slash_fd) base ≡ c
    → IsName component
    → ActionIsSafe (descriptors base component c)
unfolding descriptors
descriptors-IsSafe pid base component paths_are_equal e h =
    descriptor-IsSafe base component (base-IsSafe pid base e) h
descriptors-IsSafe pid base component path1_is_prefix e h = tt
descriptors-IsSafe pid base component path2_is_prefix e h = tt
descriptors-IsSafe pid base component paths_are_not_comparable e h = tt

below_pid-IsSafe :
    (pid : ℤ) (base component : Bytes)
    → IsName component
    → ActionIsSafe (below_pid pid base component)
unfolding below_pid
below_pid-IsSafe pid base component h =
    let c = compare_paths (proc_pid pid ++ slash_fd) base in
    Action-if (leb 64 (length (proc_pid pid ++ slash_fd))) refused (descriptors base component c) tt
      (descriptors-IsSafe pid base component c refl h)

of_pid-IsSafe :
    (known : ℤ → Option Known) (pid : ℤ) (base component : Bytes) (c : Comparison)
    → IsName component
    → ActionIsSafe (of_pid known pid base component c)
unfolding of_pid
of_pid-IsSafe known pid base component paths_are_equal h = links-IsSafe (known pid) component
of_pid-IsSafe known pid base component path1_is_prefix h = below_pid-IsSafe pid base component h
of_pid-IsSafe known pid base component path2_is_prefix h = tt
of_pid-IsSafe known pid base component paths_are_not_comparable h = tt

in_proc-IsSafe :
    (known : ℤ → Option Known) (pid : ℤ) (base component : Bytes)
    → IsName component
    → ActionIsSafe (in_proc known pid base component)
unfolding in_proc
in_proc-IsSafe known pid base component h = search (Action-if, of_pid-IsSafe) depth 6

itself-IsSafe : (pid : ℤ) (component : Bytes) → ActionIsSafe (itself pid component)
unfolding itself
itself-IsSafe pid component = search (Action-if) depth 4

pub readlink_proc-IsSafe :
    (known : ℤ → Option Known) (self : ℤ) (base component : Bytes) (c : Comparison)
    → IsName component
    → ActionIsSafe (readlink_proc known self base component c)
unfolding readlink_proc
readlink_proc-IsSafe known self base component paths_are_equal h = itself-IsSafe self component
readlink_proc-IsSafe known self base component path1_is_prefix h =
    in_proc-IsSafe known (atoi (drop 6 base)) base component h
readlink_proc-IsSafe known self base component path2_is_prefix h = tt
readlink_proc-IsSafe known self base component paths_are_not_comparable h = tt
