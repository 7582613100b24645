-- ===== src/Execve/Script/Line.antt =====
-- The first line of a script, for core/proot/src/main/cpp/execve/shebang.c, and its bytes in buffers.
use re_terminal.Prelude.{
  ℕ, ◌<◌, ◌≡◌, refl, ap, true, false, [], ◌∷◌, ◌++◌, append-nil, ◌==◌, length, All,
}
use re_terminal.Path.{Bytes}
use re_terminal.Execve.Script.{
  is_blank, is_end, c_string, last_byte, without_last, blank_tail, trim_tail, trim_argument,
}

abbrev pub IsBlank : ℕ → Type 0
IsBlank c = is_blank c ≡ true

-- A byte within a line.
pub record IsText (c : ℕ) : Type 0 where
  pub not_nul : (c == 0) ≡ false
  pub not_end : is_end c ≡ false

-- A byte of a name without blanks.
pub record IsWord (c : ℕ) : Type 0 where
  pub text : IsText c
  pub not_blank : is_blank c ≡ false

-- Neither the first nor the last byte of an argument is a blank, and the argument stands behind a
-- blank.
abbrev pub IsArgument : Bytes → Bytes → Type 0
IsArgument gap [] = Unit
IsArgument gap (c ∷ rest) =
    IsWord c × All IsText rest × (is_blank (last_byte (c ∷ rest)) ≡ false) × (0 < length gap)

-- The first line of a script, without the newline.
pub record Line : Type 0 where
  pub leading : Bytes
  pub path : Bytes
  pub gap : Bytes
  pub argument : Bytes
  pub trailing : Bytes

pub record IsLine (line : Line) : Type 0 where
  pub leading_blank : All IsBlank line.leading
  pub path_word : All IsWord line.path
  pub path_bytes : 0 < length line.path
  pub gap_blank : All IsBlank line.gap
  pub is_argument : IsArgument line.gap line.argument
  pub trailing_blank : All IsBlank line.trailing

-- "#!", the line and what follows it.
abbrev pub written : Line → Bytes → Bytes
written line rest =
    b'#' ∷ b'!' ∷ line.leading
    ++ (line.path ++ (line.gap ++ (line.argument ++ (line.trailing ++ rest))))

-- The NULs that are stored for blanks.
unfoldable pub nuls : Bytes → Bytes
nuls [] = []
nuls (c ∷ rest) = 0 ∷ nuls rest

pub last_byte-append : (xs : Bytes) (c : ℕ) → last_byte (xs ++ c ∷ []) ≡ c
unfolding last_byte
last_byte-append [] c = refl
last_byte-append (x ∷ []) c = refl
last_byte-append (x ∷ y ∷ rest) c = last_byte-append (y ∷ rest) c

pub without_last-append : (xs : Bytes) (c : ℕ) → without_last (xs ++ c ∷ []) ≡ xs
unfolding without_last
without_last-append [] c = refl
without_last-append (x ∷ []) c = refl
without_last-append (x ∷ y ∷ rest) c = ap (◌∷◌ x) (without_last-append (y ∷ rest) c)

pub c_string-word : (xs rest : Bytes) → All IsText xs → c_string (xs ++ 0 ∷ rest) ≡ xs
unfolding c_string
c_string-word [] rest a = refl
c_string-word (c ∷ xs) rest (w, a) = rw (w.not_nul) (ap (◌∷◌ c) (c_string-word xs rest a))

pub c_string-text : (xs : Bytes) → All IsText xs → c_string xs ≡ xs
unfolding c_string
c_string-text [] a = refl
c_string-text (c ∷ xs) (w, a) = rw (w.not_nul) (ap (◌∷◌ c) (c_string-text xs a))

pub c_string-nuls : (xs gap : Bytes) → All IsText xs → c_string (xs ++ nuls gap) ≡ xs
unfolding nuls
c_string-nuls xs [] a = rw (append-nil xs) (c_string-text xs a)
c_string-nuls xs (c ∷ gap) a = c_string-word xs (nuls gap) a

pub trim_tail-blanks : (pad : Bytes) → All IsBlank pad → trim_tail pad ≡ []
unfolding trim_tail blank_tail
trim_tail-blanks [] a = refl
trim_tail-blanks (c ∷ pad) (b, a) = rw (trim_tail-blanks pad a, b) refl

pub trim_tail-append :
    (c : ℕ) (xs pad : Bytes)
    → is_blank (last_byte (c ∷ xs)) ≡ false
    → All IsBlank pad
    → trim_tail (c ∷ xs ++ pad) ≡ c ∷ xs
unfolding trim_tail blank_tail last_byte
trim_tail-append c [] pad l a = rw (trim_tail-blanks pad a, l) refl
trim_tail-append c (d ∷ xs) pad l a = rw (trim_tail-append d xs pad l a) refl

pub trim_argument-append :
    (c : ℕ) (xs pad : Bytes)
    → is_blank (last_byte (c ∷ xs)) ≡ false
    → All IsBlank pad
    → trim_argument (c ∷ xs ++ pad) ≡ c ∷ xs
unfolding trim_argument last_byte
trim_argument-append c [] pad l a = ap (◌∷◌ c) (trim_tail-blanks pad a)
trim_argument-append c (d ∷ xs) pad l a = ap (◌∷◌ c) (trim_tail-append d xs pad l a)
