-- ===== src/Memory/Transfer.antt =====
-- write_data and read_data of core/proot/src/main/cpp/tracee/mem.c.
use re_terminal.Prelude.{
  ℕ, zero, suc, ◌+◌, ◌*◌, ◌/◌, ◌%◌, ◌^◌, ◌<◌, ◌≤◌, ◌≡◌, refl, sym, ap, ◌∙◌, subst, true, Option,
  none, some, [], ◌∷◌, ◌++◌, ◌==◌, ==_iff, length, length-append, length-take, length-drop, take,
  drop, take-append-drop, if_each, arith,
}
use re_terminal.Prelude.Int.{ℤ, pos, negsuc, eqb_ℤ}
use re_terminal.Path.{Bytes}
use re_terminal.Memory.{
  Kernel, continued, untag_pointer, next_word, poke_merged, write_last, write_words, write_rest,
  write_data, read_last, store_tail, read_words, read_rest, read_data,
}
use re_terminal.Memory.Layout.{
  Reads, Outside, Stores, IsKernel, Reads-append, Reads-left, Reads-right, Stores-append,
  Stores-left, Reads-at,
}

-- What holds of the value where the status is 0.
abbrev pub Succeeds {ℓ} : {A : Type ℓ} → (A → Type 0) → ℤ × A → Type 0
Succeeds P (pos zero, a) = P a
Succeeds P (pos (suc n), a) = Unit
Succeeds P (negsuc n, a) = Unit

pub Succeeds-map {ℓ} :
    {A : Type ℓ} (P Q : A → Type 0) (r : ℤ × A)
    → ((a : A) → P a → Q a)
    → Succeeds P r
    → Succeeds Q r
Succeeds-map P Q (pos zero, a) f p = f a p
Succeeds-map P Q (pos (suc n), a) f p = tt
Succeeds-map P Q (negsuc n, a) f p = tt

pub eqb_ℤ_pos : (z : ℤ) (n : ℕ) → eqb_ℤ z (pos n) ≡ true → z ≡ pos n
eqb_ℤ_pos (pos m) n e = ap pos ((==_iff m n).0 e)
eqb_ℤ_pos (negsuc m) n e = cc

pub continued-Succeeds {ℓ κ} :
    {A : Type ℓ} {B : Type κ} (P : A → Type 0) (onwards : B → ℤ × A) (a : A) (o : Option B)
    → ((b : B) → o ≡ some b → Succeeds P (onwards b))
    → Succeeds P (continued onwards a o)
unfolding continued
continued-Succeeds P onwards a none h = tt
continued-Succeeds P onwards a (some b) h = h b refl

module _ {M : Type 0} (k : Kernel M) (byte : M → ℕ → Option ℕ) (laws : IsKernel byte k) where
  poke_merged_lem :
      (dest : ℕ) (src : Bytes) (m : M) (word : Bytes)
      → k.peek_data m dest ≡ some word
      → length src < 8
      → Succeeds (Stores byte m dest src) (poke_merged k dest src m word)
  unfolding poke_merged
  poke_merged_lem dest src m word e l =
      let rest = drop (length src) word in
      let eight = laws.peek_length m dest word e in
      continued-Succeeds (Stores byte m dest src) (λ (m' : M). (pos 0, m')) m
        (k.poke_data m dest (src ++ rest))
        (λ m' f.
          Stores-left byte m m' dest src rest
            (laws.poke_stores m m' dest (src ++ rest)
              (omega (arith, l, eight, length-append src rest, length-drop (length src) word)) f)
            (Reads-at byte m (dest + length (take (length src) word)) (dest + length src) rest
              (omega (arith, l, eight, length-take (length src) word))
              (Reads-right byte m dest (take (length src) word) rest (
                subst (Reads byte m dest) (sym (take-append-drop (length src) word))
                  (laws.peek_reads m dest word e)))))

  write_last_lem :
      (dest : ℕ) (src : Bytes) (m : M)
      → length src < 8
      → Succeeds (Stores byte m dest src) (write_last k dest src m)
  unfolding write_last
  write_last_lem dest [] m l = record { reads = tt; outside = λ b o. refl }
  write_last_lem dest (c ∷ src) m l =
      if_each (Succeeds (Stores byte m dest (c ∷ src))) (suc (length src) == 0) (pos 0, m)
        (continued (poke_merged k dest (c ∷ src) m) m (k.peek_data m dest))
        (λ e. absurd (omega (arith, (==_iff (suc (length src)) 0).0 e)))
        (λ e.
          continued-Succeeds (Stores byte m dest (c ∷ src)) (poke_merged k dest (c ∷ src) m) m
            (k.peek_data m dest) (λ word f. poke_merged_lem dest (c ∷ src) m word f l))

  write_words_lem :
      (n dest : ℕ) (src : Bytes) (m : M)
      → 8 * n ≤ length src
      → length src < 8 * n + 8
      → dest + length src < 2 ^ 64
      → Succeeds (Stores byte m dest src) (write_words k n dest src m)
  unfolding write_words
  write_words_lem zero dest src m a b o = write_last_lem dest src m (omega (arith, b))
  write_words_lem (suc n) dest src m a b o =
      let eight : length (take 8 src) ≡ 8 = omega (arith, a, length-take 8 src) in
      let rest = length-drop 8 src in
      let next : next_word dest ≡ dest + length (take 8 src) = omega (arith, a, o, eight) in
      continued-Succeeds (Stores byte m dest src) (write_words k n (next_word dest) (drop 8 src)) m
        (k.poke_data m dest (take 8 src))
        (λ m' e.
          Succeeds-map (Stores byte m' (next_word dest) (drop 8 src)) (Stores byte m dest src)
            (write_words k n (next_word dest) (drop 8 src) m')
            (λ m'' s.
              subst (λ xs. Stores byte m dest xs m'') (take-append-drop 8 src)
                (Stores-append byte m m' m'' dest (take 8 src) (drop 8 src)
                  (laws.poke_stores m m' dest (take 8 src) eight e)
                  (subst (λ d. Stores byte m' d (drop 8 src) m'') next s)))
            (write_words_lem n (next_word dest) (drop 8 src) m' (omega (arith, a, rest))
              (omega (arith, b, rest)) (omega (arith, o, a, rest))))

  -- An update of a region behind another one of the same region.
  Stores-over :
      (m m' m'' : M) (a : ℕ) (xs : Bytes)
      → Outside byte m m' a (length xs)
      → Stores byte m' a xs m''
      → Stores byte m a xs m''
  Stores-over m m' m'' a xs o s = record { reads = s.reads; outside = λ b p. s.outside b p ∙ o b p }

  write_rest_lem :
      (dest : ℕ) (src : Bytes) (m : M)
      → dest + length src < 2 ^ 64
      → Succeeds (Stores byte m dest src) (write_rest k dest src (k.vm_write m dest src))
  unfolding write_rest
  write_rest_lem dest src m o =
      let (status, m') = k.vm_write m dest src in
      if_each (Succeeds (Stores byte m dest src)) (eqb_ℤ status (pos (length src))) (pos 0, m')
        (write_words k (length src / 8) dest src m')
        (λ e. laws.vm_stores m dest src (eqb_ℤ_pos status (length src) e))
        (λ e.
          Succeeds-map (Stores byte m' dest src) (Stores byte m dest src)
            (write_words k (length src / 8) dest src m')
            (λ m'' s. Stores-over m m' m'' dest src (laws.vm_outside m dest src) s)
            (write_words_lem (length src / 8) dest src m' (omega arith) (omega arith) o))

  pub write_data_lem :
      (dest : ℕ) (src : Bytes) (m : M)
      → untag_pointer dest + length src < 2 ^ 64
      → Succeeds (Stores byte m (untag_pointer dest) src) (write_data k dest src m)
  unfolding write_data
  write_data_lem dest src m o = write_rest_lem (untag_pointer dest) src m o

  read_last_lem :
      (base src trailing : ℕ) (dest : Bytes) (m : M)
      → trailing < 8
      → src ≡ base + length dest
      → Reads byte m base dest
      → Succeeds
          (λ out. (length out ≡ length dest + trailing) × Reads byte m base out)
          (read_last k src trailing dest m)
  unfolding read_last store_tail
  read_last_lem base src trailing dest m l s r =
      let P : Bytes → Type 0 =
        λ out. (length out ≡ length dest + trailing) × Reads byte m base out in
      if_each (Succeeds P) (trailing == 0) (pos 0, dest)
        (continued (store_tail k trailing dest) dest (k.peek_data m src))
        (λ e. (omega (arith, (==_iff trailing 0).0 e), r))
        (λ e. continued-Succeeds P (store_tail k trailing dest) dest (k.peek_data m src) (λ word f.
          (
            omega (
              arith,
              l,
              length-append dest (take trailing word),
              length-take trailing word,
              laws.peek_length m src word f,
            ),
            Reads-append byte m base dest (take trailing word) r (
                Reads-left byte m (base + length dest) (take trailing word) (drop trailing word) (
                  subst (λ a. Reads byte m a (take trailing word ++ drop trailing word)) s
                    (subst (Reads byte m src) (sym (take-append-drop trailing word))
                      (laws.peek_reads m src word f)))),
          )))

  read_words_lem :
      (n base src trailing : ℕ) (dest : Bytes) (m : M)
      → trailing < 8
      → src ≡ base + length dest
      → src + (8 * n + trailing) < 2 ^ 64
      → Reads byte m base dest
      → Succeeds
          (λ out. (length out ≡ length dest + (8 * n + trailing)) × Reads byte m base out)
          (read_words k n src trailing dest m)
  unfolding read_words
  read_words_lem zero base src trailing dest m l s o r =
      Succeeds-map (λ out. (length out ≡ length dest + trailing) × Reads byte m base out)
        (λ out. (length out ≡ length dest + (8 * 0 + trailing)) × Reads byte m base out)
        (read_last k src trailing dest m) (λ out h. (omega (arith, h.0), h.1))
        (read_last_lem base src trailing dest m l s r)
  read_words_lem (suc n) base src trailing dest m l s o r =
      let onwards = λ (word : Bytes). read_words k n (next_word src) trailing (dest ++ word) m in
      let P : Bytes → Type 0 =
        λ out. (length out ≡ length dest + (8 * suc n + trailing)) × Reads byte m base out in
      continued-Succeeds P onwards dest (k.peek_data m src) (λ word e.
        let eight = laws.peek_length m src word e in
        let total = length-append dest word in
        Succeeds-map
          (λ out. (length out ≡ length (dest ++ word) + (8 * n + trailing)) × Reads byte m base out)
          P (onwards word) (λ out h. (omega (arith, h.0, eight, total), h.1))
          (read_words_lem n base (next_word src) trailing (dest ++ word) m l
            (omega (arith, s, o, eight, total)) (omega (arith, o))
            (Reads-append byte m base dest word r
              (subst (λ a. Reads byte m a word) s (laws.peek_reads m src word e)))))

  read_rest_lem :
      (src size : ℕ) (m : M)
      → src + size < 2 ^ 64
      → Succeeds
          (λ out. (length out ≡ size) × Reads byte m src out)
          (read_rest k src size m (k.vm_read m src size))
  unfolding read_rest
  read_rest_lem src size m o =
      let (status, dest) = k.vm_read m src size in
      let P : Bytes → Type 0 = λ out. (length out ≡ size) × Reads byte m src out in
      if_each (Succeeds P) (eqb_ℤ status (pos size)) (pos 0, dest)
        (read_words k (size / 8) src (size % 8) [] m)
        (λ e. laws.vm_reads m src size (eqb_ℤ_pos status size e))
        (λ e.
          Succeeds-map
            (λ out. (length out ≡ 0 + (8 * (size / 8) + size % 8)) × Reads byte m src out) P
            (read_words k (size / 8) src (size % 8) [] m) (λ out h. (omega (arith, h.0), h.1))
            (read_words_lem (size / 8) src src (size % 8) [] m (omega arith) (omega arith)
              (omega (arith, o)) tt))

  pub read_data_lem :
      (src size : ℕ) (m : M)
      → untag_pointer src + size < 2 ^ 64
      → Succeeds
          (λ out. (length out ≡ size) × Reads byte m (untag_pointer src) out)
          (read_data k src size m)
  unfolding read_data
  read_data_lem src size m o = read_rest_lem (untag_pointer src) size m o
