-- ===== src/Memory/Text.antt =====
-- read_string of core/proot/src/main/cpp/tracee/mem.c.
use re_terminal.Prelude.{
  ℕ, zero, suc, ◌+◌, ◌*◌, ◌/◌, ◌%◌, ◌^◌, ◌<◌, ◌≤◌, ◌≡◌, ◌⊎◌, inl, inr, sym, ap, ◌∙◌, subst, not,
  Option, none, some, [], ◌∷◌, ◌++◌, append-nil, append_assoc, ltb, length, length-append,
  length-take, take, drop, take-append-drop, take-append, if_each, All, All-append, arith,
}
use re_terminal.Prelude.Int.{ℤ, pos, negsuc, eqb_ℤ}
use re_terminal.Path.{Bytes}
use re_terminal.Memory.{
  Kernel, continued, untag_pointer, next_word, nul_index, string_tail, string_last, string_word,
  string_words, string_fallback, piece, string_chunk, string_chunks, read_string,
}
use re_terminal.Memory.Layout.{Reads, IsKernel, Reads-append, Reads-left}
use re_terminal.Memory.Transfer.{eqb_ℤ_pos}
use re_terminal.Memory.Nul.{
  IsNonZero, Ends, NulAt, nul_index-NulAt, text_unique, unterminated_short,
}

-- PTRACE_PEEKDATA reads a word at each address of a buffer, and at its end.
abbrev pub IsReadable : {M : Type 0} → Kernel M → M → ℕ → ℕ → Type 0
IsReadable k m a max =
    (b : ℕ) → a ≤ b → b ≤ a + max → (word : Bytes) × (k.peek_data m b ≡ some word)

-- A string with its NUL, which the status counts, and which is stored.
record StringAt {M : Type 0} (byte : M → ℕ → Option ℕ) (m : M) (a n : ℕ) (dest : Bytes)
    : Type 0 where
  text : Bytes
  nonzero : All IsNonZero text
  reads : Reads byte m a (text ++ 0 ∷ [])
  counted : length text + 1 ≡ n
  stored : take n dest ≡ text ++ 0 ∷ []

take_through : (xs ys rest : Bytes) → take (length (xs ++ ys)) (xs ++ (ys ++ rest)) ≡ xs ++ ys
take_through xs ys rest =
    ap (take (length (xs ++ ys))) (sym (append_assoc xs ys rest)) ∙ take-append (xs ++ ys) rest

module _ {M : Type 0} (k : Kernel M) (byte : M → ℕ → Option ℕ) (laws : IsKernel byte k) (m : M)
    (base max : ℕ) (access : IsReadable k m base max) where
  -- What stands at the base so far.
  record Begun (dest : Bytes) : Type 0 where
    nonzero : All IsNonZero dest
    reads : Reads byte m base dest

  -- As many bytes as the buffer has, and no NUL among them.
  record Unterminated : Type 0 where
    bytes : Bytes
    begun : Begun bytes
    full : length bytes ≡ max

  -- The status, against the bytes at the destination.
  abbrev Answered : ℤ × Bytes → Type 0
  Answered (pos n, dest) = StringAt byte m base n dest ⊎ Unterminated
  Answered (negsuc n, dest) = ⊥

  continued-Answered :
      (onwards : Bytes → ℤ × Bytes) (dest : Bytes) (o : Option Bytes) (word : Bytes)
      → o ≡ some word
      → Answered (onwards word)
      → Answered (continued onwards dest o)
  unfolding continued
  continued-Answered onwards dest o word e h = rw e h

  Begun-append :
      (dest bytes : Bytes)
      → Begun dest
      → Reads byte m (base + length dest) bytes
      → All IsNonZero bytes
      → Begun (dest ++ bytes)
  Begun-append dest bytes b r a = record {
    nonzero = All-append IsNonZero dest bytes b.nonzero a;
    reads = Reads-append byte m base dest bytes b.reads r;
  }

  -- The NUL stands in bytes that are read behind the destination; `stored` is what is copied.
  ended :
      (dest bytes stored rest : Bytes) (i : ℕ)
      → Begun dest
      → Reads byte m (base + length dest) bytes
      → (e : Ends bytes i) → stored ≡ (e.before ++ 0 ∷ []) ++ rest
      → Answered (pos (length dest + i + 1), dest ++ stored)
  ended dest bytes stored rest i b r e s =
      let tail = e.before ++ 0 ∷ [] in
      let tail_length = length-append e.before (0 ∷ []) in
      let text = dest ++ e.before in
      let whole : text ++ 0 ∷ [] ≡ dest ++ tail = append_assoc dest e.before (0 ∷ []) in
      let bytes_split : bytes ≡ tail ++ e.behind =
        e.split ∙ sym (append_assoc e.before (0 ∷ []) e.behind) in
      let counted : length text + 1 ≡ length dest + i + 1 =
        omega (arith, length-append dest e.before, e.size) in
      let all_counted : length (dest ++ tail) ≡ length dest + i + 1 =
        omega (arith, length-append dest tail, tail_length, e.size) in
      inl (record {
        text = text;
        nonzero = All-append IsNonZero dest e.before b.nonzero e.nonzero;
        reads = subst (Reads byte m base) (sym whole) (
            Reads-append byte m base dest tail b.reads (
              Reads-left byte m (base + length dest) tail e.behind
                (subst (Reads byte m (base + length dest)) bytes_split r)));
        counted = counted;
        stored =
            subst (λ n. take n (dest ++ stored) ≡ text ++ 0 ∷ []) all_counted
              (ap (λ xs. take (length (dest ++ tail)) (dest ++ xs)) s
                ∙ (take_through dest tail rest ∙ sym whole));
      })

  tail-Answered :
      (dest bytes : Bytes) (o : Option ℕ)
      → Begun dest
      → Reads byte m (base + length dest) bytes
      → length dest + length bytes ≡ max
      → NulAt bytes o
      → Answered (string_tail k dest bytes o)
  unfolding string_tail
  tail-Answered dest bytes none b r z a = inr (record {
    bytes = dest ++ bytes;
    begun = Begun-append dest bytes b r a;
    full = omega (arith, z, length-append dest bytes);
  })
  tail-Answered dest bytes (some j) b r z e =
      let tail = e.before ++ 0 ∷ [] in
      let tail_length : length tail ≡ j + 1 =
        omega (arith, length-append e.before (0 ∷ []), e.size) in
      ended dest bytes (take (j + 1) bytes) [] j b r e (
        subst (λ n. take n bytes ≡ tail ++ []) tail_length
          (ap (take (length tail)) (e.split ∙ sym (append_assoc e.before (0 ∷ []) e.behind))
            ∙ (take-append tail e.behind ∙ sym (append-nil tail))))

  last-Answered :
      (trailing : ℕ) (dest word : Bytes)
      → Begun dest
      → Reads byte m (base + length dest) word
      → length word ≡ 8
      → trailing < 8
      → length dest + trailing ≡ max
      → Answered (string_last k trailing dest word)
  unfolding string_last
  last-Answered trailing dest word b r w t z =
      tail-Answered dest (take trailing word) (nul_index (take trailing word)) b
        (Reads-left byte m (base + length dest) (take trailing word) (drop trailing word)
          (subst (Reads byte m (base + length dest)) (sym (take-append-drop trailing word)) r))
        (omega (arith, z, w, t, length-take trailing word)) (nul_index-NulAt (take trailing word))

  word-Answered :
      (onwards : ℤ × Bytes) (dest word : Bytes) (o : Option ℕ)
      → Begun dest
      → Reads byte m (base + length dest) word
      → NulAt word o
      → (All IsNonZero word → Answered onwards)
      → Answered (string_word k onwards dest word o)
  unfolding string_word
  word-Answered onwards dest word none b r a h = h a
  word-Answered onwards dest word (some j) b r e h =
      ended dest word word e.behind j b r e
        (e.split ∙ sym (append_assoc e.before (0 ∷ []) e.behind))

  words-Answered :
      (n src trailing : ℕ) (dest : Bytes)
      → Begun dest
      → src ≡ base + length dest
      → trailing < 8
      → length dest + (8 * n + trailing) ≡ max
      → base + max < 2 ^ 64
      → Answered (string_words k n src trailing dest m)
  unfolding string_words
  words-Answered zero src trailing dest b s t z o =
      let (word, e) = access src (omega (arith, s)) (omega (arith, s, z)) in
      continued-Answered (string_last k trailing dest) dest (k.peek_data m src) word e (
        last-Answered trailing dest word b
          (subst (λ a. Reads byte m a word) s (laws.peek_reads m src word e))
          (laws.peek_length m src word e) t (omega (arith, z)))
  words-Answered (suc n) src trailing dest b s t z o =
      let (word, e) = access src (omega (arith, s)) (omega (arith, s, z)) in
      let r = subst (λ a. Reads byte m a word) s (laws.peek_reads m src word e) in
      let grown = length-append dest word in
      let eight = laws.peek_length m src word e in
      continued-Answered
        (λ (w : Bytes).
          string_word k (string_words k n (next_word src) trailing (dest ++ w) m) dest w
            (nul_index w))
        dest (k.peek_data m src) word e
        (word-Answered (string_words k n (next_word src) trailing (dest ++ word) m) dest word
          (nul_index word) b r (nul_index-NulAt word)
          (λ a.
            words-Answered n (next_word src) trailing (dest ++ word) (Begun-append dest word b r a)
              (omega (arith, s, z, o, grown, eight)) t (omega (arith, z, grown, eight)) o))

  fallback-Answered : base + max < 2 ^ 64 → Answered (string_fallback k base max m)
  unfolding string_fallback
  fallback-Answered o =
      words-Answered (max / 8) base (max % 8) [] (record { nonzero = tt; reads = tt }) (omega arith)
        (omega arith) (omega arith) o

  chunk-Answered :
      (onwards fallback : ℤ × Bytes) (dest bytes : Bytes) (o : Option ℕ)
      → Begun dest
      → Reads byte m (base + length dest) bytes
      → NulAt bytes o
      → (All IsNonZero bytes → length dest + length bytes < max → Answered onwards)
      → Answered fallback
      → Answered (string_chunk k onwards fallback max dest bytes o)
  unfolding string_chunk
  chunk-Answered onwards fallback dest bytes none b r a h f =
      if_each Answered (ltb (length dest + length bytes) max) onwards fallback
        (λ e. h a (ground arith)) (λ e. f)
  chunk-Answered onwards fallback dest bytes (some i) b r e h f =
      ended dest bytes bytes e.behind i b r e
        (e.split ∙ sym (append_assoc e.before (0 ∷ []) e.behind))

  chunks-Answered :
      (rounds chunk : ℕ) (dest : Bytes)
      → Begun dest
      → length dest ≤ max
      → base + max < 2 ^ 64
      → Answered (string_chunks k rounds chunk base max dest m)
  unfolding string_chunks
  chunks-Answered zero chunk dest b l o = fallback-Answered o
  chunks-Answered (suc rounds) chunk dest b l o =
      let size = piece k chunk base max (length dest) in
      let address = (base + length dest) % 2 ^ 64 in
      let at : address ≡ base + length dest = omega (arith, l, o) in
      let (status, bytes) = k.vm_read m address size in
      if_each Answered (not (eqb_ℤ status (pos size))) (string_fallback k base max m) _
        (λ e. fallback-Answered o)
        (λ e.
          let (n, r) = laws.vm_reads m address size (eqb_ℤ_pos status size (ground arith)) in
          let r' = subst (λ a. Reads byte m a bytes) at r in
          chunk-Answered (string_chunks k rounds chunk base max (dest ++ bytes) m)
            (string_fallback k base max m) dest bytes (nul_index bytes) b r' (nul_index-NulAt bytes)
            (λ a p.
              chunks-Answered rounds chunk (dest ++ bytes) (Begun-append dest bytes b r' a)
                (omega (arith, p, length-append dest bytes)) o)
            (fallback-Answered o))

-- The outcome, where there is a string that fits.
answered_text :
    {M : Type 0} (k : Kernel M) (byte : M → ℕ → Option ℕ) (laws : IsKernel byte k) (m : M)
    (a max : ℕ) (access : IsReadable k m a max) (text : Bytes) (r : ℤ × Bytes)
    → All IsNonZero text
    → Reads byte m a (text ++ 0 ∷ [])
    → length text < max
    → Answered k byte laws m a max access r
    → (dest : Bytes) × (r ≡ (pos (length text + 1), dest))
      × (take (length text + 1) dest ≡ text ++ 0 ∷ [])
answered_text k byte laws m a max access text (pos n, dest) z r l (inl s) =
    let same_text : s.text ≡ text = text_unique byte m a s.text text s.nonzero z s.reads r in
    let counted : n ≡ length text + 1 =
      sym s.counted ∙ ap (λ (t : Bytes). length t + 1) same_text in
    (
      dest,
      ap (λ i. (pos i, dest)) counted,
      subst (λ i. take i dest ≡ text ++ 0 ∷ []) counted
          (s.stored ∙ ap (λ t. t ++ 0 ∷ []) same_text),
    )
answered_text k byte laws m a max access text (pos n, dest) z r l (inr u) = absurd (
    omega
      (arith, l, u.full, unterminated_short byte m a text u.bytes u.begun.nonzero r u.begun.reads))
answered_text k byte laws m a max access text (negsuc n, dest) z r l h = absurd h

-- For a kernel that keeps to what ptrace(2) and process_vm_readv(2) promise, a buffer whose bytes,
-- and the one behind it, are addresses at which a word can be read, all below 2 ^ 64, and a string
-- at the untagged address that fits in the buffer with its NUL: read_string returns the number of
-- its bytes with the NUL, and has stored them, whichever of the two ways reads them.
pub read_string_lem :
    {M : Type 0} (k : Kernel M) (byte : M → ℕ → Option ℕ) (chunk src max : ℕ) (text : Bytes) (m : M)
    → IsKernel byte k
    → IsReadable k m (untag_pointer src) max
    → untag_pointer src + max < 2 ^ 64
    → All IsNonZero text
    → Reads byte m (untag_pointer src) (text ++ 0 ∷ [])
    → length text < max
    → (dest : Bytes) × (read_string k chunk src max m ≡ (pos (length text + 1), dest))
      × (take (length text + 1) dest ≡ text ++ 0 ∷ [])
unfolding read_string
read_string_lem k byte chunk src max text m laws access o z r l =
    answered_text k byte laws m (untag_pointer src) max access text _ z r l (
      chunks-Answered k byte laws m (untag_pointer src) max access (max + 1) chunk []
        (record { nonzero = tt; reads = tt }) (omega arith) o)
