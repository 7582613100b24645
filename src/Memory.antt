-- ===== src/Memory.antt =====
-- core/proot/src/main/cpp/tracee/mem.c: the memory of a tracee, on a 64-bit little endian machine
-- with tagged pointers. A word is the list of its eight bytes in memory; an address is a natural
-- number below 2 ^ 64.
pub mod Layout
pub mod Transfer
pub mod Returns
pub mod Nul
pub mod Text
pub mod Words
use re_terminal.Prelude.{
  ℕ, zero, suc, ◌+◌, ◌-◌, ◌*◌, ◌/◌, ◌%◌, ◌^◌, Bool, true, false, not, ◌&&◌, Option, none, some,
  List, [], ◌∷◌, ◌++◌, ltb, leb, ◌==◌, length, take, drop, if◌then◌else◌,
}
use re_terminal.Prelude.Int.{ℤ, pos, eqb_ℤ, is_negative, minus_efault, minus_enametoolong}
use re_terminal.Path.{Bytes, path_max}

-- What the kernel does with a memory of type M. `peek_data` and `poke_data` are ptrace(2) with
-- PTRACE_PEEKDATA and PTRACE_POKEDATA, or the stub in the place of the latter; `vm_read` and
-- `vm_write` are process_vm_readv(2) and process_vm_writev(2) on one region.
pub record Kernel (M : Type 0) : Type 0 where
  pub peek_data : M → ℕ → Option Bytes
  pub poke_data : M → ℕ → Bytes → Option M
  pub vm_read : M → ℕ → ℕ → ℤ × Bytes
  pub vm_write : M → ℕ → Bytes → ℤ × M

-- By the bits of an AArch64 address.
abbrev pub untag_pointer : ℕ → ℕ
untag_pointer address = address % 2 ^ 56

abbrev pub next_word : ℕ → ℕ
next_word address = (address + 8) % 2 ^ 64

unfoldable pub one_more : Option ℕ → Option ℕ
one_more none = none
one_more (some i) = some (suc i)

-- The first NUL of a buffer: strnlen.
unfoldable pub nul_index : Bytes → Option ℕ
unfolding one_more
nul_index [] = none
nul_index (c ∷ rest) = if c == 0 then some 0 else one_more (nul_index rest)

-- Behind a call of ptrace(2), which fails with -EFAULT.
unfoldable pub continued {ℓ κ} : {A : Type ℓ} {B : Type κ} → (B → ℤ × A) → A → Option B → ℤ × A
continued onwards a none = (minus_efault, a)
continued onwards a (some b) = onwards b

module _ {M : Type 0} (k : Kernel M) where
  -- The word behind the full ones, whose first bytes are replaced.
  unfoldable pub poke_merged : ℕ → Bytes → M → Bytes → ℤ × M
  unfolding continued
  poke_merged dest src m word =
      continued (λ (m' : M). (pos 0, m')) m (k.poke_data m dest (src ++ drop (length src) word))

  unfoldable pub write_last : ℕ → Bytes → M → ℤ × M
  unfolding poke_merged continued
  write_last dest src m =
      if length src == 0
      then (pos 0, m)
      else continued (poke_merged dest src m) m (k.peek_data m dest)

  -- The loop on nb_full_words, and the trailing bytes.
  unfoldable pub write_words : ℕ → ℕ → Bytes → M → ℤ × M
  unfolding write_last continued
  write_words zero dest src m = write_last dest src m
  write_words (suc n) dest src m =
      continued (write_words n (next_word dest) (drop 8 src)) m (k.poke_data m dest (take 8 src))

  -- The status of process_vm_writev, and the memory behind it.
  write_rest : ℕ → Bytes → ℤ × M → ℤ × M
  unfolding write_words
  write_rest dest src (status, m) =
      if eqb_ℤ status (pos (length src))
      then (pos 0, m)
      else write_words (length src / 8) dest src m

  unfoldable pub write_data : ℕ → Bytes → M → ℤ × M
  unfolding write_rest
  write_data dest src m = let d = untag_pointer dest in write_rest d src (k.vm_write m d src)

  concat : List Bytes → Bytes
  concat [] = []
  concat (src ∷ rest) = src ++ concat rest

  -- One buffer after the other.
  write_each : ℕ → List Bytes → ℤ × M → ℤ × M
  unfolding write_data
  write_each dest [] (status, m) = (pos 0, m)
  write_each dest (src ∷ rest) (status, m) =
      let (status', m') = write_data dest src m in
      let onwards = write_each ((dest + length src) % 2 ^ 64) rest (pos 0, m') in
      if is_negative status' then (status', m') else onwards

  writev_rest : ℕ → List Bytes → ℤ × M → ℤ × M
  unfolding write_each concat
  writev_rest dest srcs (status, m) =
      if eqb_ℤ status (pos (length (concat srcs)))
      then (pos 0, m)
      else write_each dest srcs (pos 0, m)

  unfoldable pub writev_data : ℕ → List Bytes → M → ℤ × M
  unfolding writev_rest concat
  writev_data dest srcs m =
      let d = untag_pointer dest in writev_rest d srcs (k.vm_write m d (concat srcs))

  -- mmap gives the zeros.
  zeros : ℕ → Bytes
  zeros zero = []
  zeros (suc n) = 0 ∷ zeros n

  unfoldable pub clear_mem : ℕ → ℕ → M → ℤ × M
  unfolding write_data zeros
  clear_mem address size m = write_data (untag_pointer address) (zeros size) m

  -- Reading: the status, and the bytes that are stored at the destination.
  unfoldable pub store_tail : ℕ → Bytes → Bytes → ℤ × Bytes
  store_tail trailing dest word = (pos 0, dest ++ take trailing word)

  unfoldable pub read_last : ℕ → ℕ → Bytes → M → ℤ × Bytes
  unfolding continued store_tail
  read_last src trailing dest m =
      if trailing == 0
      then (pos 0, dest)
      else continued (store_tail trailing dest) dest (k.peek_data m src)

  unfoldable pub read_words : ℕ → ℕ → ℕ → Bytes → M → ℤ × Bytes
  unfolding read_last continued
  read_words zero src trailing dest m = read_last src trailing dest m
  read_words (suc n) src trailing dest m =
      continued (λ (word : Bytes). read_words n (next_word src) trailing (dest ++ word) m) dest
        (k.peek_data m src)

  read_rest : ℕ → ℕ → M → ℤ × Bytes → ℤ × Bytes
  unfolding read_words
  read_rest src size m (status, dest) =
      if eqb_ℤ status (pos size) then (pos 0, dest) else read_words (size / 8) src (size % 8) [] m

  unfoldable pub read_data : ℕ → ℕ → M → ℤ × Bytes
  unfolding read_rest
  read_data src size m = let s = untag_pointer src in read_rest s size m (k.vm_read m s size)

  -- The trailing bytes of a string: what is stored, and the number of bytes before the first NUL or
  -- of all.
  unfoldable pub string_tail : Bytes → Bytes → Option ℕ → ℤ × Bytes
  string_tail dest bytes none = (pos (length dest + length bytes + 1), dest ++ bytes)
  string_tail dest bytes (some j) = (pos (length dest + j + 1), dest ++ take (j + 1) bytes)

  unfoldable pub string_last : ℕ → Bytes → Bytes → ℤ × Bytes
  unfolding string_tail nul_index
  string_last trailing dest word =
      string_tail dest (take trailing word) (nul_index (take trailing word))

  -- Behind a word: where it has a NUL the string ends.
  unfoldable pub string_word : (ℤ × Bytes) → Bytes → Bytes → Option ℕ → ℤ × Bytes
  string_word onwards dest word none = onwards
  string_word onwards dest word (some j) = (pos (length dest + j + 1), dest ++ word)

  -- The fallback to ptrace: the bytes stored so far are those of the full words that are read.
  unfoldable pub string_words : ℕ → ℕ → ℕ → Bytes → M → ℤ × Bytes
  unfolding string_last string_word nul_index continued
  string_words zero src trailing dest m =
      continued (string_last trailing dest) dest (k.peek_data m src)
  string_words (suc n) src trailing dest m =
      continued
        (λ (word : Bytes).
          string_word (string_words n (next_word src) trailing (dest ++ word) m) dest word
            (nul_index word))
        dest (k.peek_data m src)

  unfoldable pub string_fallback : ℕ → ℕ → M → ℤ × Bytes
  unfolding string_words
  string_fallback src max_size m = string_words (max_size / 8) src (max_size % 8) [] m

  -- The bytes up to the next chunk or to max_size.
  unfoldable pub piece : ℕ → ℕ → ℕ → ℕ → ℕ
  piece chunk src max_size offset =
      let up_to = chunk - (src + offset) % chunk in
      if ltb up_to (max_size - offset) then up_to else max_size - offset

  -- Behind a chunk without a NUL.
  unfoldable pub string_chunk : (ℤ × Bytes) → (ℤ × Bytes) → ℕ → Bytes → Bytes → Option ℕ → ℤ × Bytes
  string_chunk onwards fallback max_size dest bytes none =
      if ltb (length dest + length bytes) max_size then onwards else fallback
  string_chunk onwards fallback max_size dest bytes (some i) =
      (pos (length dest + i + 1), dest ++ bytes)

  -- The string by chunks, with rounds to go; `dest` is what the chunks before have stored.
  unfoldable pub string_chunks : ℕ → ℕ → ℕ → ℕ → Bytes → M → ℤ × Bytes
  unfolding piece string_fallback string_chunk nul_index
  string_chunks zero chunk src max_size dest m = string_fallback src max_size m
  string_chunks (suc rounds) chunk src max_size dest m =
      let size = piece chunk src max_size (length dest) in
      let (status, bytes) = k.vm_read m ((src + length dest) % 2 ^ 64) size in
      let onwards = string_chunks rounds chunk src max_size (dest ++ bytes) m in
      let fallback = string_fallback src max_size m in
      if not (eqb_ℤ status (pos size))
      then fallback
      else string_chunk onwards fallback max_size dest bytes (nul_index bytes)

  -- Each round but the last reads a byte at least.
  unfoldable pub read_string : ℕ → ℕ → ℕ → M → ℤ × Bytes
  unfolding string_chunks
  read_string chunk src max_size m =
      string_chunks (max_size + 1) chunk (untag_pointer src) max_size [] m

  -- By the int that read_string returns.
  path_status : ℤ × Bytes → ℤ × Bytes
  path_status (pos n, dest) = if leb path_max n then (minus_enametoolong, dest) else (pos n, dest)
  path_status (status, dest) = (status, dest)

  unfoldable pub read_path : ℕ → ℕ → M → ℤ × Bytes
  unfolding path_status read_string
  read_path chunk src m = path_status (read_string chunk src path_max m)
