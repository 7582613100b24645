-- ===== src/Execve/Script/Parsed.antt =====
-- extract_shebang of core/proot/src/main/cpp/execve/shebang.c on a line that is well formed.
use re_terminal.Prelude.{
  ℕ, ◌+◌, ◌-◌, ◌<◌, ◌≡◌, refl, sym, ap, ◌∙◌, subst, false, some, [], ◌∷◌, ◌++◌, append-nil,
  append_assoc, length, length-append, All, All-map, All-append, arith,
}
use re_terminal.Prelude.Int.{ℤ, is_negative}
use re_terminal.Path.{Bytes}
use re_terminal.Translate.{done}
use re_terminal.Execve.Script.{
  File, is_blank, is_end, c_string, last_byte, without_last, trim_argument, slurp_argument,
  slurp_path, script, extract_shebang,
}
use re_terminal.Execve.Script.Line.{
  IsBlank, IsText, IsWord, IsArgument, Line, IsLine, written, nuls, c_string-text, c_string-nuls,
  trim_argument-append,
}
use re_terminal.Execve.Script.Runs.{
  blank_not_end, slurp_path-cong, slurp_path-newline, slurp_path-argument, slurp_argument-text,
  length-nuls, last_byte-nuls, script-path,
}

word-IsText : (path : Bytes) → All IsWord path → All IsText path
word-IsText path a = All-map IsWord IsText path (λ c w. w.text) a

text_not_end : (text : Bytes) → All IsText text → All (λ c. is_end c ≡ false) text
text_not_end text a = All-map IsText (λ c. is_end c ≡ false) text (λ c w. w.not_end) a

blanks_not_end : (pad : Bytes) → All IsBlank pad → All (λ c. is_end c ≡ false) pad
blanks_not_end pad a = All-map IsBlank (λ c. is_end c ≡ false) pad blank_not_end a

module _ (limit : ℕ) (ending : ℤ) (leading path gap trailing rest : Bytes)
    (lb : All IsBlank leading) (pw : All IsWord path) (pb : 0 < length path) (gb : All IsBlank gap)
    (tb : All IsBlank trailing) where
  script-plain :
      2 + (length leading + (length path + (length gap + length trailing))) < limit - 1
      → script limit ending (b'#' ∷ b'!' ∷ leading ++ (path ++ (gap ++ (trailing ++ 10 ∷ rest))))
        ≡ done (some (path, []))
  script-plain l =
      let pad = gap ++ trailing in
      let n = 3 + (length leading + (length path + length pad)) in
      let short : n < limit = omega (arith, l, length-append gap trailing) in
      ap (λ bytes. script limit ending (b'#' ∷ b'!' ∷ leading ++ (path ++ bytes)))
        (sym (append_assoc gap trailing (10 ∷ rest)))
      ∙ (script-path limit ending leading path pad (10 ∷ rest) lb pw pb
            (All-append IsBlank gap trailing gb tb) (omega (arith, short))
          ∙ (slurp_path-newline limit ending rest n (path ++ nuls pad) short
              ∙ ap (λ p. done (some (p, []))) (c_string-nuls path pad (word-IsText path pw))))

  argument_text :
      (c : ℕ) (cs : Bytes)
      → IsWord c
      → All IsText cs
      → is_blank (last_byte (c ∷ cs)) ≡ false
      → c_string (trim_argument (c ∷ cs ++ trailing)) ≡ c ∷ cs
  argument_text c cs w a b =
      ap c_string (trim_argument-append c cs trailing b tb) ∙ c_string-text (c ∷ cs) (w.text, a)

  script-argument :
      (c : ℕ) (cs : Bytes)
      → IsArgument gap (c ∷ cs)
      → 2 + (length leading + (length path + (length gap + (length (c ∷ cs) + length trailing))))
        < limit - 1
      → script limit ending
          (b'#' ∷ b'!' ∷ leading ++ (path ++ (gap ++ (c ∷ cs ++ (trailing ++ 10 ∷ rest)))))
        ≡ done (some (path, c ∷ cs))
  script-argument c cs (w, a, b, g) l =
      let n = 3 + (length leading + (length path + length gap)) in
      let buffer = path ++ nuls gap in
      let wide : 1 < length buffer =
        omega (arith, pb, g, length-append path (nuls gap), length-nuls gap) in
      script-path limit ending leading path gap (c ∷ cs ++ (trailing ++ 10 ∷ rest)) lb pw pb gb
        (omega (arith, l))
      ∙ (slurp_path-argument limit ending c (cs ++ (trailing ++ 10 ∷ rest)) n buffer w wide
            (last_byte-nuls path gap g) (omega (arith, l))
          ∙ (ap (λ bytes. slurp_argument limit ending (c_string buffer) (c ∷ bytes) n [])
                (sym (append_assoc cs trailing (10 ∷ rest)))
              ∙ (slurp_argument-text limit ending (c_string buffer) (c ∷ cs ++ trailing) rest n []
                    (
                      w.text.not_end,
                      All-append (λ c. is_end c ≡ false) cs trailing (text_not_end cs a)
                          (blanks_not_end trailing tb),
                    )
                    (omega (arith, l, length-append cs trailing))
                  ∙ (ap (λ p. done (some (p, c_string (trim_argument (c ∷ cs ++ trailing)))))
                        (c_string-nuls path gap (word-IsText path pw))
                      ∙ ap (λ t. done (some (path, t))) (argument_text c cs w a b)))))

-- The bytes of a line before its newline.
abbrev pub line_length : Line → ℕ
line_length line =
    2
    + (length line.leading
        + (length line.path + (length line.gap + (length line.argument + length line.trailing))))

by_argument :
    (limit : ℕ) (ending : ℤ) (line : Line) (rest argument : Bytes)
    → IsLine line
    → line.argument ≡ argument
    → line_length line < limit - 1
    → script limit ending (written line (10 ∷ rest)) ≡ done (some (line.path, line.argument))
by_argument limit ending line rest [] i e l = rw e (
    script-plain limit ending line.leading line.path line.gap line.trailing rest i.leading_blank
      i.path_word i.path_bytes i.gap_blank i.trailing_blank (omega (arith, l)))
by_argument limit ending line rest (c ∷ cs) i e l = rw e (
    script-argument limit ending line.leading line.path line.gap line.trailing rest i.leading_blank
      i.path_word i.path_bytes i.gap_blank i.trailing_blank c cs
      (subst (IsArgument line.gap) e i.is_argument)
      (subst
        (λ a.
          2
            + (length line.leading
                + (length line.path + (length line.gap + (length a + length line.trailing))))
          < limit - 1)
        e l))

-- For a file that can be opened and that starts with "#!", blanks, a path without blanks, blanks,
-- and possibly, behind at least one of these, an argument that neither starts nor ends with a
-- blank, then blanks and a newline, all within BINPRM_BUF_SIZE and with no NUL or other end of a
-- line in them: extract_shebang gives the path and the argument.
pub extract_shebang-written :
    (limit : ℕ) (file : File) (line : Line) (rest : Bytes)
    → is_negative file.opened ≡ false
    → IsLine line
    → line_length line + 1 < limit
    → file.bytes ≡ written line (10 ∷ rest)
    → extract_shebang limit file ≡ done (some (line.path, line.argument))
unfolding extract_shebang
extract_shebang-written limit file line rest o i l e =
    rw (o, e) (by_argument limit file.ending line rest line.argument i refl (omega (arith, l)))

without_last-IsText : (xs : Bytes) → All IsText xs → All IsText (without_last xs)
unfolding without_last
without_last-IsText [] a = tt
without_last-IsText (c ∷ []) a = tt
without_last-IsText (c ∷ d ∷ rest) (w, a) = (w, without_last-IsText (d ∷ rest) a)

slurp_path-end :
    (limit : ℕ) (ending : ℤ) (n : ℕ) (path : Bytes)
    → is_negative ending ≡ false
    → All IsText path
    → slurp_path limit ending [] n path ≡ done (some (without_last path, []))
unfolding slurp_path
slurp_path-end limit ending n path e a =
    rw (e, c_string-text (without_last path) (without_last-IsText path a)) refl

script-unterminated :
    (limit : ℕ) (ending : ℤ) (leading path : Bytes)
    → is_negative ending ≡ false
    → All IsBlank leading
    → All IsWord path
    → 0 < length path
    → 2 + (length leading + length path) < limit
    → script limit ending (b'#' ∷ b'!' ∷ leading ++ path) ≡ done (some (without_last path, []))
unfolding nuls
script-unterminated limit ending leading path e lb pw pb l =
    let n = 3 + (length leading + (length path + 0)) in
    ap (λ bytes. script limit ending (b'#' ∷ b'!' ∷ leading ++ bytes)) (sym (append-nil path))
    ∙ (script-path limit ending leading path [] [] lb pw pb tt (omega (arith, l))
        ∙ (slurp_path-cong limit ending [] n n (path ++ []) path refl (append-nil path)
            ∙ slurp_path-end limit ending n path e (word-IsText path pw)))

-- For a file that can be opened and read and that is "#!", blanks and a path without blanks, all
-- within BINPRM_BUF_SIZE, with no newline behind it, extract_shebang gives the path without its
-- last byte and no argument.
pub extract_shebang-unterminated :
    (limit : ℕ) (file : File) (leading path : Bytes)
    → is_negative file.opened ≡ false
    → is_negative file.ending ≡ false
    → All IsBlank leading
    → All IsWord path
    → 0 < length path
    → 2 + (length leading + length path) < limit
    → file.bytes ≡ b'#' ∷ b'!' ∷ leading ++ path
    → extract_shebang limit file ≡ done (some (without_last path, []))
unfolding extract_shebang
extract_shebang-unterminated limit file leading path o n lb pw pb l e =
    rw (o, e) (script-unterminated limit file.ending leading path n lb pw pb l)
