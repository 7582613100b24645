-- ===== src/Memory/Returns.antt =====
-- The transfers of core/proot/src/main/cpp/tracee/mem.c succeed where ptrace(2) does.
use re_terminal.Prelude.{
  ℕ, zero, suc, ◌+◌, ◌*◌, ◌/◌, ◌%◌, ◌^◌, ◌<◌, ◌≤◌, ◌≡◌, refl, ap, ◌∙◌, subst, Option, some, [],
  ◌++◌, ◌==◌, length, length-append, length-take, length-drop, take, drop, if_each, arith,
}
use re_terminal.Prelude.Int.{ℤ, pos, eqb_ℤ}
use re_terminal.Path.{Bytes}
use re_terminal.Memory.{
  Kernel, continued, untag_pointer, next_word, poke_merged, write_last, write_words, write_rest,
  write_data, store_tail, read_last, read_words, read_rest, read_data,
}
use re_terminal.Memory.Layout.{Reads, Reads-unique, Stores, IsKernel}
use re_terminal.Memory.Transfer.{Succeeds, write_data_lem, read_data_lem}

-- The words that start in n bytes at an address can be read and written, whatever the memory holds.
pub record Accessible {M : Type 0} (k : Kernel M) (a n : ℕ) : Type 0 where
  pub peeks : (m : M) (b : ℕ) → a ≤ b → b < a + n → (w : Bytes) × (k.peek_data m b ≡ some w)
  pub pokes :
      (m : M) (b : ℕ) (w : Bytes)
      → a ≤ b
      → b < a + n
      → length w ≡ 8
      → (m' : M) × (k.poke_data m b w ≡ some m')

-- The status is 0.
abbrev Returns {ℓ} : {A : Type ℓ} → ℤ × A → Type ℓ
Returns {A} r = (a : A) × (r ≡ (pos 0, a))

continued-Returns {ℓ κ} :
    {A : Type ℓ} {B : Type κ} (onwards : B → ℤ × A) (a : A) (o : Option B) (b : B)
    → o ≡ some b
    → Returns (onwards b)
    → Returns (continued onwards a o)
unfolding continued
continued-Returns onwards a o b e r = rw e r

module _ {M : Type 0} (k : Kernel M) (byte : M → ℕ → Option ℕ) (laws : IsKernel byte k) (a size : ℕ)
    (access : Accessible k a size) where
  write_last-Returns :
      (dest : ℕ) (src : Bytes) (m : M)
      → a ≤ dest
      → dest + length src ≤ a + size
      → length src < 8
      → Returns (write_last k dest src m)
  unfolding write_last poke_merged
  write_last-Returns dest src m l h s =
      if_each Returns (length src == 0) (pos 0, m)
        (continued (poke_merged k dest src m) m (k.peek_data m dest)) (λ e. (m, refl))
        (λ e.
          let some_byte : dest < a + size = ground arith in
          let (word, f) = access.peeks m dest l some_byte in
          let merged = src ++ drop (length src) word in
          let (m', g) = access.pokes m dest merged l some_byte (
            omega (
              arith,
              s,
              laws.peek_length m dest word f,
              length-append src (drop (length src) word),
              length-drop (length src) word,
            )) in
          continued-Returns (poke_merged k dest src m) m (k.peek_data m dest) word f (
            continued-Returns (λ (x : M). (pos 0, x)) m (k.poke_data m dest merged) m' g
              (m', refl)))

  write_words-Returns :
      (n dest : ℕ) (src : Bytes) (m : M)
      → 8 * n ≤ length src
      → length src < 8 * n + 8
      → dest + length src < 2 ^ 64
      → a ≤ dest
      → dest + length src ≤ a + size
      → Returns (write_words k n dest src m)
  unfolding write_words
  write_words-Returns zero dest src m p q o l h =
      write_last-Returns dest src m l h (omega (arith, q))
  write_words-Returns (suc n) dest src m p q o l h =
      let rest = length-drop 8 src in
      let (m', e) =
        access.pokes m dest (take 8 src) l (omega (arith, p, h))
          (omega (arith, p, length-take 8 src)) in
      continued-Returns (write_words k n (next_word dest) (drop 8 src)) m
        (k.poke_data m dest (take 8 src)) m' e
        (write_words-Returns n (next_word dest) (drop 8 src) m' (omega (arith, p, rest))
          (omega (arith, q, rest)) (omega (arith, o, p, rest)) (omega (arith, o, p, l, rest))
          (omega (arith, o, p, h, rest)))

  write_rest-Returns :
      (src : Bytes) (m : M)
      → length src ≡ size
      → a + size < 2 ^ 64
      → Returns (write_rest k a src (k.vm_write m a src))
  unfolding write_rest
  write_rest-Returns src m z o =
      let (status, m') = k.vm_write m a src in
      if_each Returns (eqb_ℤ status (pos (length src))) (pos 0, m')
        (write_words k (length src / 8) a src m') (λ e. (m', refl))
        (λ e.
          write_words-Returns (length src / 8) a src m' (omega arith) (omega arith)
            (omega (arith, z, o)) (omega arith) (omega (arith, z)))

  read_last-Returns :
      (src trailing : ℕ) (dest : Bytes) (m : M)
      → a ≤ src
      → src + trailing ≤ a + size
      → Returns (read_last k src trailing dest m)
  unfolding read_last store_tail
  read_last-Returns src trailing dest m l h =
      if_each Returns (trailing == 0) (pos 0, dest)
        (continued (store_tail k trailing dest) dest (k.peek_data m src)) (λ e. (dest, refl))
        (λ e.
          let (word, f) = access.peeks m src l (ground arith) in
          continued-Returns (store_tail k trailing dest) dest (k.peek_data m src) word f
            (dest ++ take trailing word, refl))

  read_words-Returns :
      (n src trailing : ℕ) (dest : Bytes) (m : M)
      → src + (8 * n + trailing) < 2 ^ 64
      → a ≤ src
      → src + (8 * n + trailing) ≤ a + size
      → Returns (read_words k n src trailing dest m)
  unfolding read_words
  read_words-Returns zero src trailing dest m o l h =
      read_last-Returns src trailing dest m l (omega (arith, h))
  read_words-Returns (suc n) src trailing dest m o l h =
      let (word, e) = access.peeks m src l (omega (arith, h)) in
      continued-Returns (λ (w : Bytes). read_words k n (next_word src) trailing (dest ++ w) m) dest
        (k.peek_data m src) word e
        (read_words-Returns n (next_word src) trailing (dest ++ word) m (omega (arith, o))
          (omega (arith, o, l)) (omega (arith, o, h)))

  read_rest-Returns :
      (m : M) → a + size < 2 ^ 64 → Returns (read_rest k a size m (k.vm_read m a size))
  unfolding read_rest
  read_rest-Returns m o =
      let (status, dest) = k.vm_read m a size in
      if_each Returns (eqb_ℤ status (pos size)) (pos 0, dest)
        (read_words k (size / 8) a (size % 8) [] m) (λ e. (dest, refl))
        (λ e.
          read_words-Returns (size / 8) a (size % 8) [] m (omega (arith, o)) (omega arith)
            (omega arith))

-- For a kernel that keeps to what ptrace(2) and process_vm_writev(2) promise, where each word that
-- starts in the untagged destination can be read and written, and the destination ends below 2 ^
-- 64: write_data returns 0, whether process_vm_writev does the write or not, and the memory that
-- it leaves has the bytes at the destination and is unchanged outside of them.
pub write_data-Stores :
    {M : Type 0} (k : Kernel M) (byte : M → ℕ → Option ℕ) (dest : ℕ) (src : Bytes) (m : M)
    → IsKernel byte k
    → Accessible k (untag_pointer dest) (length src)
    → untag_pointer dest + length src < 2 ^ 64
    → (m' : M) × (write_data k dest src m ≡ (pos 0, m')) × Stores byte m (untag_pointer dest) src m'
unfolding write_data
write_data-Stores k byte dest src m laws access o =
    let (m', e) =
      write_rest-Returns k byte laws (untag_pointer dest) (length src) access src m refl o in
    (
      m',
      e,
      subst (Succeeds (Stores byte m (untag_pointer dest) src)) e
          (write_data_lem k byte laws dest src m o),
    )

-- For a kernel that keeps to what ptrace(2), process_vm_readv(2) and process_vm_writev(2) promise,
-- where each word that starts in the untagged address can be read and written, and the bytes end
-- below 2 ^ 64: write_data of the bytes returns 0, and a read_data of as many from the memory that
-- it leaves returns 0 and gives the bytes.
pub read_data-write_data :
    {M : Type 0} (k : Kernel M) (byte : M → ℕ → Option ℕ) (dest : ℕ) (src : Bytes) (m : M)
    → IsKernel byte k
    → Accessible k (untag_pointer dest) (length src)
    → untag_pointer dest + length src < 2 ^ 64
    → (m' : M) × (write_data k dest src m ≡ (pos 0, m'))
      × (read_data k dest (length src) m' ≡ (pos 0, src))
unfolding read_data
read_data-write_data k byte dest src m laws access o =
    let a = untag_pointer dest in
    let (m', e, stored) = write_data-Stores k byte dest src m laws access o in
    let (out, f) = read_rest-Returns k byte laws a (length src) access m' o in
    let (l, r) =
      subst (Succeeds (λ xs. (length xs ≡ length src) × Reads byte m' a xs)) f
        (read_data_lem k byte laws dest (length src) m' o) in
    let same_bytes : out ≡ src = Reads-unique byte m' a out src l r stored.reads in
    (m', e, f ∙ ap (λ xs. (pos 0, xs)) same_bytes)
