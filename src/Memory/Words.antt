-- ===== src/Memory/Words.antt =====
-- peek_word, poke_word and alloc_mem of core/proot/src/main/cpp/tracee/mem.c. A value is the list of
-- the eight bytes of its word_t. A tracee is narrow where it is a 32-bit process on a 64-bit kernel.
pub mod Poke
use Prim.Native.Nat.{bit_or}
use re_terminal.Prelude.{
  ℕ, zero, suc, ◌+◌, ◌-◌, ◌%◌, ◌^◌, ◌<◌, ◌≡◌, refl, ap, sym, ◌∙◌, Bool, true, false, ◌&&◌, ◌||◌,
  Option, none, some, List, [], ◌∷◌, ◌++◌, ltb, leb, ◌==◌, take, drop, length, length-take,
  if◌then◌else◌, arith,
}
use re_terminal.Prelude.Int.{ℤ, pos, negsuc}
use re_terminal.Path.{Bytes}
use re_terminal.Memory.{Kernel, untag_pointer}

-- sizeof_word
abbrev pub width : Bool → ℕ
width narrow = if narrow then 4 else 8

-- status > 0
abbrev pub is_positive : ℤ → Bool
is_positive (pos n) = ltb 0 n
is_positive (negsuc n) = false

-- The bytes over a word of zeros.
unfoldable pub over_zeros : Bytes → Bytes
over_zeros bytes = bytes ++ drop (length bytes) (0 ∷ 0 ∷ 0 ∷ 0 ∷ 0 ∷ 0 ∷ 0 ∷ 0 ∷ [])

-- value | (tmp & 0xFFFFFFFF00000000), where the value is of 32 bits or is taken with its other bits.
unfoldable pub or_high : ℕ → Bytes → Bytes → Bytes
or_high n [] tmp = []
or_high n (x ∷ value) [] = x ∷ value
or_high zero (x ∷ value) (y ∷ tmp) = bit_or x y ∷ or_high zero value tmp
or_high (suc n) (x ∷ value) (y ∷ tmp) = x ∷ or_high n value tmp

module _ {M : Type 0} (k : Kernel M) (narrow : Bool) where
  -- The word by ptrace(2), of which a narrow tracee has the low half.
  unfoldable pub peeked : Option Bytes → Option Bytes
  unfolding over_zeros
  peeked none = none
  peeked (some word) = some (if narrow then over_zeros (take 4 word) else word)

  -- By the status of process_vm_readv; `none` is an errno.
  unfoldable pub peek_rest : ℕ → M → ℤ × Bytes → Option Bytes
  unfolding peeked over_zeros
  peek_rest address m (status, bytes) =
      if is_positive status then some (over_zeros bytes) else peeked (k.peek_data m address)

  unfoldable pub peek_word : ℕ → M → Option Bytes
  unfolding peek_rest
  peek_word address m =
      let a = untag_pointer address in peek_rest a m (k.vm_read m a (width narrow))

  -- Whether there is no errno, and the memory.
  unfoldable pub poked : M → Option M → Bool × M
  poked m none = (false, m)
  poked m (some m') = (true, m')

  unfoldable pub poke_over : ℕ → Bytes → M → Option Bytes → Bool × M
  unfolding poked or_high
  poke_over a value m none = (false, m)
  poke_over a value m (some tmp) = poked m (k.poke_data m a (or_high 4 value tmp))

  -- By the status of process_vm_writev.
  unfoldable pub poke_rest : ℕ → Bytes → ℤ × M → Bool × M
  unfolding poke_over poked
  poke_rest a value (status, m) =
      if is_positive status
      then (true, m)
      else if narrow
      then poke_over a value m (k.peek_data m a)
      else poked m (k.poke_data m a value)

  unfoldable pub poke_word : ℕ → Bytes → M → Bool × M
  unfolding poke_rest
  poke_word address value m =
      let a = untag_pointer address in
      poke_rest a value (k.vm_write m a (take (width narrow) value))

-- The stack pointers of a tracee in the entry of a system call, and the red zone of its ABI.
pub record Stack : Type 0 where
  pub current : ℕ
  pub original : ℕ
  pub red_zone : ℕ

-- For a size that is not negative: the address, 0 where there is no room, and the new stack pointer.
unfoldable pub alloc_mem : ℕ → Stack → ℕ × Stack
alloc_mem size stack =
    let whole = if stack.current == stack.original then size + stack.red_zone else size in
    if ltb 0 whole && leb stack.current whole
    then (0, stack)
    else (stack.current - whole, record stack { current = stack.current - whole })
