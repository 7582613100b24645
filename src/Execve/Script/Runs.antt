-- ===== src/Execve/Script/Runs.antt =====
-- The loops of extract_shebang of core/proot/src/main/cpp/execve/shebang.c on the parts of a line.
use re_terminal.Prelude.{
  ℕ, ◌+◌, suc, ◌<◌, ◌≤◌, ◌≡◌, refl, sym, ap, ◌∙◌, subst, true, false, ◌&&◌, some, [], ◌∷◌, ◌++◌,
  append-nil, append_assoc, ltb, ◌==◌, lt→ltb, length, All, arith,
}
use re_terminal.Prelude.Int.{ℤ}
use re_terminal.Path.{Bytes}
use re_terminal.Translate.{done}
use re_terminal.Execve.Script.{
  is_blank, is_end, c_string, last_byte, trim_argument, slurp_argument, slurp_path, skip_blanks,
  script,
}
use re_terminal.Execve.Script.Line.{IsBlank, IsWord, nuls, last_byte-append}

pub blank_not_end : (c : ℕ) → is_blank c ≡ true → is_end c ≡ false
blank_not_end c b = ground arith

-- The next byte of a path does not start an argument.
abbrev Continues : Bytes → Type 0
Continues buffer = (ltb 1 (length buffer) && last_byte buffer == 0) ≡ false

append-Continues : (buffer : Bytes) (c : ℕ) → (c == 0) ≡ false → Continues (buffer ++ c ∷ [])
append-Continues buffer c z = rw (last_byte-append buffer c, z) (ground arith)

append_step : (xs : Bytes) (c : ℕ) (ys : Bytes) → (xs ++ c ∷ []) ++ ys ≡ xs ++ c ∷ ys
append_step xs c ys = append_assoc xs (c ∷ []) ys

module _ (limit : ℕ) (ending : ℤ) where
  -- The same state by another count and buffer.
  pub slurp_path-cong :
      (rest : Bytes) (m n : ℕ) (xs ys : Bytes)
      → m ≡ n
      → xs ≡ ys
      → slurp_path limit ending rest m xs ≡ slurp_path limit ending rest n ys
  slurp_path-cong rest m n xs ys e f = rw (e, f) refl

  stop_step :
      (c : ℕ) (rest : Bytes) (n : ℕ)
      → is_blank c ≡ false
      → skip_blanks limit ending (c ∷ rest) n ≡ slurp_path limit ending (c ∷ rest) (n + 1) []
  unfolding skip_blanks
  stop_step c rest n b = rw b refl

  skip_step :
      (c : ℕ) (rest : Bytes) (n : ℕ)
      → is_blank c ≡ true
      → n + 1 < limit
      → skip_blanks limit ending (c ∷ rest) n ≡ skip_blanks limit ending rest (n + 1)
  unfolding skip_blanks
  skip_step c rest n b l = rw (b, lt→ltb (n + 1) limit l) refl

  skip_blanks-run :
      (blanks : Bytes) (c : ℕ) (rest : Bytes) (n : ℕ)
      → All IsBlank blanks
      → is_blank c ≡ false
      → n + length blanks < limit
      → skip_blanks limit ending (blanks ++ c ∷ rest) n
        ≡ slurp_path limit ending (c ∷ rest) (n + length blanks + 1) []
  skip_blanks-run [] c rest n a b l =
      stop_step c rest n b ∙ slurp_path-cong (c ∷ rest) (n + 1) (n + 0 + 1) [] [] (omega arith) refl
  skip_blanks-run (d ∷ blanks) c rest n (e, a) b l =
      skip_step d (blanks ++ c ∷ rest) n e (omega (arith, l))
      ∙ (skip_blanks-run blanks c rest (n + 1) a b (omega (arith, l))
          ∙ slurp_path-cong (c ∷ rest) (n + 1 + length blanks + 1) (n + suc (length blanks) + 1) []
              [] (omega arith) refl)

  word_step :
      (rest : Bytes) (c n : ℕ) (buffer : Bytes)
      → IsWord c
      → Continues buffer
      → n < limit
      → slurp_path limit ending (c ∷ rest) n buffer
        ≡ slurp_path limit ending rest (n + 1) (buffer ++ c ∷ [])
  unfolding slurp_path
  word_step rest c n buffer w b l = rw (w.not_blank, w.text.not_end, b, lt→ltb n limit l) refl

  slurp_path-word :
      (word rest : Bytes) (n : ℕ) (buffer : Bytes)
      → All IsWord word
      → Continues buffer
      → n + length word ≤ limit
      → slurp_path limit ending (word ++ rest) n buffer
        ≡ slurp_path limit ending rest (n + length word) (buffer ++ word)
  slurp_path-word [] rest n buffer a b l =
      slurp_path-cong rest n (n + 0) buffer (buffer ++ []) (omega arith) (sym (append-nil buffer))
  slurp_path-word (c ∷ word) rest n buffer (w, a) b l =
      word_step (word ++ rest) c n buffer w b (omega (arith, l))
      ∙ (slurp_path-word word rest (n + 1) (buffer ++ c ∷ []) a
            (append-Continues buffer c w.text.not_nul) (omega (arith, l))
          ∙ slurp_path-cong rest (n + 1 + length word) (n + suc (length word))
              ((buffer ++ c ∷ []) ++ word) (buffer ++ c ∷ word) (omega arith)
              (append_step buffer c word))

  gap_step :
      (rest : Bytes) (c n : ℕ) (buffer : Bytes)
      → is_blank c ≡ true
      → n < limit
      → slurp_path limit ending (c ∷ rest) n buffer
        ≡ slurp_path limit ending rest (n + 1) (buffer ++ 0 ∷ [])
  unfolding slurp_path
  gap_step rest c n buffer b l = rw (b, lt→ltb n limit l) refl

  slurp_path-gap :
      (gap rest : Bytes) (n : ℕ) (buffer : Bytes)
      → All IsBlank gap
      → n + length gap ≤ limit
      → slurp_path limit ending (gap ++ rest) n buffer
        ≡ slurp_path limit ending rest (n + length gap) (buffer ++ nuls gap)
  unfolding nuls
  slurp_path-gap [] rest n buffer a l =
      slurp_path-cong rest n (n + 0) buffer (buffer ++ []) (omega arith) (sym (append-nil buffer))
  slurp_path-gap (c ∷ gap) rest n buffer (b, a) l =
      gap_step (gap ++ rest) c n buffer b (omega (arith, l))
      ∙ (slurp_path-gap gap rest (n + 1) (buffer ++ 0 ∷ []) a (omega (arith, l))
          ∙ slurp_path-cong rest (n + 1 + length gap) (n + suc (length gap))
              ((buffer ++ 0 ∷ []) ++ nuls gap) (buffer ++ 0 ∷ nuls gap) (omega arith)
              (append_step buffer 0 (nuls gap)))

  pub slurp_path-newline :
      (rest : Bytes) (n : ℕ) (buffer : Bytes)
      → n < limit
      → slurp_path limit ending (10 ∷ rest) n buffer ≡ done (some (c_string buffer, []))
  unfolding slurp_path
  slurp_path-newline rest n buffer l = rw (lt→ltb n limit l) refl

  pub slurp_path-argument :
      (c : ℕ) (rest : Bytes) (n : ℕ) (buffer : Bytes)
      → IsWord c
      → 1 < length buffer
      → last_byte buffer ≡ 0
      → n < limit
      → slurp_path limit ending (c ∷ rest) n buffer
        ≡ slurp_argument limit ending (c_string buffer) (c ∷ rest) n []
  unfolding slurp_path
  slurp_path-argument c rest n buffer w b z l =
      rw (w.not_blank, w.text.not_end, lt→ltb 1 (length buffer) b, z, lt→ltb n limit l) refl

  pub slurp_argument-text :
      (path text rest : Bytes) (n : ℕ) (buffer : Bytes)
      → All (λ c. is_end c ≡ false) text
      → n + length text < limit
      → slurp_argument limit ending path (text ++ 10 ∷ rest) n buffer
        ≡ done (some (path, c_string (trim_argument (buffer ++ text))))
  unfolding slurp_argument
  slurp_argument-text path [] rest n buffer a l =
      rw (lt→ltb n limit (omega (arith, l)), append-nil buffer) refl
  slurp_argument-text path (c ∷ text) rest n buffer (e, a) l =
      rw (e, lt→ltb n limit (omega (arith, l)), sym (append_step buffer c text))
        (slurp_argument-text path text rest (n + 1) (buffer ++ c ∷ []) a (omega (arith, l)))

pub length-nuls : (gap : Bytes) → length (nuls gap) ≡ length gap
unfolding nuls
length-nuls [] = refl
length-nuls (c ∷ gap) = ap suc (length-nuls gap)

pub last_byte-nuls : (xs gap : Bytes) → 0 < length gap → last_byte (xs ++ nuls gap) ≡ 0
unfolding nuls
last_byte-nuls xs [] l = absurd (omega (arith, l))
last_byte-nuls xs (c ∷ []) l = last_byte-append xs 0
last_byte-nuls xs (c ∷ d ∷ gap) l =
    subst (λ ys. last_byte ys ≡ 0) (append_step xs 0 (nuls (d ∷ gap)))
      (last_byte-nuls (xs ++ 0 ∷ []) (d ∷ gap) (omega arith))

-- Up to the end of the gap behind the path.
pub script-path :
    (limit : ℕ) (ending : ℤ) (leading path gap rest : Bytes)
    → All IsBlank leading
    → All IsWord path
    → 0 < length path
    → All IsBlank gap
    → 2 + (length leading + (length path + length gap)) < limit
    → script limit ending (b'#' ∷ b'!' ∷ leading ++ (path ++ (gap ++ rest)))
      ≡ slurp_path limit ending rest
          (3 + (length leading + (length path + length gap)))
          (path ++ nuls gap)
unfolding script
script-path limit ending leading [] gap rest lb pw pb gb l = absurd (omega (arith, pb))
script-path limit ending leading (c ∷ path) gap rest lb (w, pw) pb gb l =
    let k = 2 + length leading + 1 in
    skip_blanks-run limit ending leading c (path ++ (gap ++ rest)) 2 lb w.not_blank
      (omega (arith, l))
    ∙ (slurp_path-word limit ending (c ∷ path) (gap ++ rest) k [] (w, pw) refl (omega (arith, l))
        ∙ (slurp_path-gap limit ending gap rest (k + length (c ∷ path)) (c ∷ path) gb
              (omega (arith, l))
            ∙ slurp_path-cong limit ending rest (k + length (c ∷ path) + length gap)
                (3 + (length leading + (length (c ∷ path) + length gap))) (c ∷ path ++ nuls gap)
                (c ∷ path ++ nuls gap) (omega arith) refl))
