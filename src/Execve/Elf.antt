-- ===== src/Execve/Elf.antt =====
-- core/proot/src/main/cpp/execve/elf.c: the header of an ELF file, and the walk over its program
-- headers. The fields of both classes are natural numbers, as ELF_FIELD and PROGRAM_FIELD read them.
pub mod Walk
use re_terminal.Prelude.{
  ℕ, zero, suc, ◌+◌, ◌-◌, Bool, true, false, not, ◌&&◌, ◌||◌, List, [], ◌∷◌, ltb, leb, ◌==◌, same,
  take, if◌then◌else◌,
}
use re_terminal.Prelude.Int.{ℤ, pos, is_negative, eqb_ℤ, leb_ℤ, minus_enoexec, minus_enotsup}
use re_terminal.Path.{Bytes}
use re_terminal.Translate.{Run, done, failed, asserts, out_of_fuel}

-- `ident` is e_ident, whose byte 4 is the class.
pub record ElfHeader : Type 0 where
  pub ident : Bytes
  pub class : ℕ
  pub etype : ℕ
  pub machine : ℕ
  pub entry : ℕ
  pub phoff : ℕ
  pub phentsize : ℕ
  pub phnum : ℕ

pub record ProgramHeader : Type 0 where
  pub ptype : ℕ
  pub flags : ℕ
  pub offset : ℕ
  pub vaddr : ℕ
  pub filesz : ℕ
  pub memsz : ℕ

-- What the kernel answers for a file: open(2), the read of the header, lseek(2) as an int, the reads
-- of the program headers in turn, and pread(2) of a size at an offset. An error is -errno.
pub record ElfFile : Type 0 where
  pub opened : ℤ
  pub header_read : ℤ
  pub header : ElfHeader
  pub sought : ℤ
  pub read_program_header : ℕ → ℤ × ProgramHeader
  pub pread : ℕ → ℕ → ℤ × Bytes

abbrev pub is_class32 : ElfHeader → Bool
is_class32 header = header.class == 1

abbrev pub is_class64 : ElfHeader → Bool
is_class64 header = header.class == 2

-- sizeof(ElfHeader), the union of both classes.
sizeof_elf_header : ℕ
sizeof_elf_header = 64

-- The four bytes 0x7f, 'E', 'L' and 'F'.
elf_magic : Bytes
elf_magic = 127 ∷ b'E' ∷ b'L' ∷ b'F' ∷ []

unfoldable pub open_elf : ElfFile → Run ElfHeader
unfolding sizeof_elf_header elf_magic same
open_elf file =
    if is_negative file.opened
    then failed file.opened
    else if is_negative file.header_read
    then failed file.header_read
    else if not (leb_ℤ (pos sizeof_elf_header) file.header_read)
        || not (same (take 4 file.header.ident) elf_magic)
    then failed minus_enoexec
    else if not (is_class32 file.header) && not (is_class64 file.header)
    then failed minus_enoexec
    else done file.header

-- KNOWN_PHENTSIZE, by the sizes of ProgramHeader32 and ProgramHeader64.
unfoldable pub known_phentsize : ElfHeader → Bool
known_phentsize header =
    (is_class32 header && header.phentsize == 32) || (is_class64 header && header.phentsize == 56)

-- The loop of iterate_program_headers, from the i-th header on, with a callback that takes and gives
-- a state, and whose value is 0 or negative.
module _ {A : Type 0} (callback : ProgramHeader → A → Run A) (file : ElfFile)
    (header : ElfHeader) where
  -- By the value of the callback.
  unfoldable pub on_called : (A → Run A) → Run A → Run A
  on_called onwards (done a) = onwards a
  on_called onwards (failed status) = failed status
  on_called onwards asserts = asserts
  on_called onwards out_of_fuel = out_of_fuel

  -- By the status of a read.
  unfoldable pub on_read : (A → Run A) → A → ℤ × ProgramHeader → Run A
  unfolding on_called
  on_read onwards a (status, program_header) =
      if not (eqb_ℤ status (pos header.phentsize))
      then failed (if is_negative status then status else minus_enotsup)
      else on_called onwards (callback program_header a)

  unfoldable pub each_header : ℕ → ℕ → A → Run A
  unfolding on_read
  each_header zero i a = done a
  each_header (suc n) i a = on_read (each_header n (i + 1)) a (file.read_program_header i)

  unfoldable pub iterate_program_headers : A → Run A
  unfolding each_header known_phentsize
  iterate_program_headers a =
      if leb 65535 header.phnum
      then failed minus_enotsup
      else if not (known_phentsize header)
      then failed minus_enotsup
      else if is_negative file.sought
      then failed file.sought
      else each_header header.phnum 0 a
