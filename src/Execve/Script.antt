-- ===== src/Execve/Script.antt =====
-- extract_shebang of core/proot/src/main/cpp/execve/shebang.c: the interpreter and the argument of a
-- script. `limit` is BINPRM_BUF_SIZE.
pub mod Line
pub mod Runs
pub mod Parsed
use re_terminal.Prelude.{
  ℕ, ◌+◌, Bool, not, ◌&&◌, ◌||◌, Option, none, some, [], ◌∷◌, ◌++◌, ltb, ◌==◌, length,
  if◌then◌else◌,
}
use re_terminal.Prelude.Int.{ℤ, is_negative, minus_enoexec}
use re_terminal.Path.{Bytes}
use re_terminal.Translate.{Run, done, failed}

-- A file that is opened and read. `opened` is -errno or the descriptor; `ending` is what read(2)
-- answers behind the bytes: -errno, or 0 at the end of the file.
pub record File : Type 0 where
  pub opened : ℤ
  pub bytes : Bytes
  pub ending : ℤ

-- What the end of the bytes makes of a result.
abbrev pub at_end {ℓ} : {A : Type ℓ} → ℤ → Run A → Run A
at_end ending result = if is_negative ending then failed ending else result

abbrev pub is_blank : ℕ → Bool
is_blank c = c == b' ' || c == 9

-- '\n' and '\r'
abbrev pub is_end : ℕ → Bool
is_end c = c == 10 || c == 13

-- The C string of a buffer: up to the first NUL, or the one that is put behind the buffer.
unfoldable pub c_string : Bytes → Bytes
c_string [] = []
c_string (c ∷ rest) = if c == 0 then [] else c ∷ c_string rest

-- The last byte of a buffer, and the buffer without it.
unfoldable pub last_byte : Bytes → ℕ
last_byte [] = 0
last_byte (c ∷ []) = c
last_byte (c ∷ d ∷ rest) = last_byte (d ∷ rest)

unfoldable pub without_last : Bytes → Bytes
without_last [] = []
without_last (c ∷ []) = []
without_last (c ∷ d ∷ rest) = c ∷ without_last (d ∷ rest)

-- The removal of the trailing blanks of the argument, which stops at its first byte.
blank_tail : ℕ → Bytes → Bytes
blank_tail c [] = if is_blank c then [] else c ∷ []
blank_tail c (d ∷ rest) = c ∷ d ∷ rest

unfoldable pub trim_tail : Bytes → Bytes
unfolding blank_tail
trim_tail [] = []
trim_tail (c ∷ rest) = blank_tail c (trim_tail rest)

unfoldable pub trim_argument : Bytes → Bytes
unfolding trim_tail
trim_argument [] = []
trim_argument (c ∷ rest) = c ∷ trim_tail rest

-- What is extracted: nothing, or the interpreter and its argument.
abbrev pub Shebang : Type 0
Shebang = Option (Bytes × Bytes)

module _ (limit : ℕ) (ending : ℤ) where
  -- The bytes start with `tmp`; they are empty where the read of it has failed. `n` is
  -- current_length, and the buffer is argument[] up to i.
  unfoldable pub slurp_argument : Bytes → Bytes → ℕ → Bytes → Run Shebang
  unfolding c_string trim_argument
  slurp_argument path [] n buffer = at_end ending (done (some (path, [])))
  slurp_argument path (tmp ∷ rest) n buffer =
      let onwards = slurp_argument path rest (n + 1) (buffer ++ tmp ∷ []) in
      if not (ltb n limit)
      then done (some (path, c_string buffer))
      else if is_end tmp
      then done (some (path, c_string (trim_argument buffer)))
      else onwards

  -- The buffer is user_path[] up to i.
  unfoldable pub slurp_path : Bytes → ℕ → Bytes → Run Shebang
  unfolding slurp_argument c_string last_byte without_last
  slurp_path [] n buffer = at_end ending (done (some (c_string (without_last buffer), [])))
  slurp_path (tmp ∷ rest) n buffer =
      let next = if is_blank tmp then 0 else tmp in
      let onwards = slurp_path rest (n + 1) (buffer ++ next ∷ []) in
      if not (ltb n limit)
      then done (some (c_string buffer, []))
      else if is_blank tmp
      then onwards
      else if is_end tmp
      then done (some (c_string buffer, []))
      else if ltb 1 (length buffer) && last_byte buffer == 0
      then slurp_argument (c_string buffer) (tmp ∷ rest) n []
      else onwards

  -- The leading spaces.
  unfoldable pub skip_blanks : Bytes → ℕ → Run Shebang
  unfolding slurp_path
  skip_blanks [] n = at_end ending (failed minus_enoexec)
  skip_blanks (tmp ∷ rest) n =
      let onwards = skip_blanks rest (n + 1) in
      if is_blank tmp && ltb (n + 1) limit then onwards else slurp_path (tmp ∷ rest) (n + 1) []

  unfoldable pub script : Bytes → Run Shebang
  unfolding skip_blanks
  script [] = at_end ending (done none)
  script (c ∷ []) = done none
  script (c ∷ d ∷ rest) =
      if not (c == b'#') || not (d == b'!') then done none else skip_blanks rest 2

unfoldable pub extract_shebang : ℕ → File → Run Shebang
unfolding script
extract_shebang limit file =
    if is_negative file.opened then failed file.opened else script limit file.ending file.bytes
