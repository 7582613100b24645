-- ===== src/Prelude/Int.antt =====
-- Signed integers over the native numbers, and the readings of machine words as C integers.
use re_terminal.Prelude.Tests.{ltb, leb, ◌==◌, if◌then◌else◌}
use Prim.Native.Nat.{ℕ, ◌-◌, ◌/◌, ◌%◌, ◌^◌}
use mathlib.Core.Bool.{Bool, true, false}

-- `negsuc n` is -(n + 1).
pub data ℤ : Type 0 where
  pos : ℕ → ℤ
  negsuc : ℕ → ℤ

abbrev pub is_negative : ℤ → Bool
is_negative (pos n) = false
is_negative (negsuc n) = true

abbrev pub eqb_ℤ : ℤ → ℤ → Bool
eqb_ℤ (pos m) (pos n) = m == n
eqb_ℤ (negsuc m) (negsuc n) = m == n
eqb_ℤ _ _ = false

abbrev pub leb_ℤ : ℤ → ℤ → Bool
leb_ℤ (pos m) (pos n) = leb m n
leb_ℤ (pos m) (negsuc n) = false
leb_ℤ (negsuc m) (pos n) = true
leb_ℤ (negsuc m) (negsuc n) = leb n m

-- The value of an int, an int16_t and a long by their bit patterns.
abbrev pub to_int : ℕ → ℤ
to_int w = let x = w % 2 ^ 32 in if ltb x (2 ^ 31) then pos x else negsuc (2 ^ 32 - 1 - x)

abbrev pub to_int16 : ℕ → ℤ
to_int16 w = let x = w % 2 ^ 16 in if ltb x (2 ^ 15) then pos x else negsuc (2 ^ 16 - 1 - x)

-- A single bit of a flag word, by its value.
abbrev pub has_flag : ℕ → ℕ → Bool
has_flag w flag = (w / flag) % 2 == 1

-- -errno, as the kernel and the handlers return it.
abbrev pub minus_eintr : ℤ
minus_eintr = negsuc 3

abbrev pub minus_enoent : ℤ
minus_enoent = negsuc 1

abbrev pub minus_e2big : ℤ
minus_e2big = negsuc 6

abbrev pub minus_eagain : ℤ
minus_eagain = negsuc 10

abbrev pub minus_efault : ℤ
minus_efault = negsuc 13

abbrev pub minus_eexist : ℤ
minus_eexist = negsuc 16

abbrev pub minus_einval : ℤ
minus_einval = negsuc 21

abbrev pub minus_efbig : ℤ
minus_efbig = negsuc 26

abbrev pub minus_enospc : ℤ
minus_enospc = negsuc 27

abbrev pub minus_erange : ℤ
minus_erange = negsuc 33

abbrev pub minus_enametoolong : ℤ
minus_enametoolong = negsuc 35

abbrev pub minus_enomsg : ℤ
minus_enomsg = negsuc 41

abbrev pub minus_eidrm : ℤ
minus_eidrm = negsuc 42

abbrev pub minus_eperm : ℤ
minus_eperm = negsuc 0

abbrev pub minus_ebadf : ℤ
minus_ebadf = negsuc 8

abbrev pub minus_eacces : ℤ
minus_eacces = negsuc 12

abbrev pub minus_enotdir : ℤ
minus_enotdir = negsuc 19

abbrev pub minus_eloop : ℤ
minus_eloop = negsuc 39

abbrev pub minus_enoexec : ℤ
minus_enoexec = negsuc 7

abbrev pub minus_enotsup : ℤ
minus_enotsup = negsuc 94

abbrev pub minus_eisdir : ℤ
minus_eisdir = negsuc 20
