-- ===== src/Execve/Load.antt =====
-- The load information of a program, in core/proot/src/main/cpp/execve/enter.c: which pages of its
-- ELF file and which zeroed pages the loader maps. Words are natural numbers below 2 ^ 64, and memory
-- does not run out.
pub mod Segment
pub mod Complete
use re_terminal.Prelude.{
  ℕ, zero, suc, ◌+◌, ◌-◌, ◌%◌, ◌^◌, ◌/◌, Bool, true, false, not, ◌&&◌, ◌||◌, Option, none, some,
  List, [], ◌∷◌, ◌++◌, map, ltb, leb, ◌==◌, if◌then◌else◌,
}
use re_terminal.Prelude.Int.{ℤ, pos, is_negative, eqb_ℤ, has_flag, minus_einval, minus_eacces}
use re_terminal.Path.{Bytes}
use re_terminal.Translate.{Run, done, failed, asserts, out_of_fuel}
use re_terminal.Execve.Script.{c_string}
use re_terminal.Execve.Expand.{Host, translate_and_check_exec}
use re_terminal.Execve.Elf.{
  ElfHeader, ProgramHeader, ElfFile, is_class32, open_elf, iterate_program_headers,
}

abbrev pub word : ℕ → ℕ
word n = n % 2 ^ 64

-- Subtraction on word_t.
abbrev pub minus : ℕ → ℕ → ℕ
minus a b = (a + (2 ^ 64 - b % 2 ^ 64)) % 2 ^ 64

-- PROT_READ, PROT_WRITE and PROT_EXEC.
pub record Prot : Type 0 where
  pub reads : Bool
  pub writes : Bool
  pub executes : Bool

-- Every mapping is MAP_PRIVATE | MAP_FIXED, and MAP_ANONYMOUS where `anonymous` says so; fd is -1.
pub record Mapping : Type 0 where
  pub addr : ℕ
  pub length : ℕ
  pub clear_length : ℕ
  pub prot : Prot
  pub anonymous : Bool
  pub offset : ℕ

-- An ELF file to be loaded; `interp` has the host path and the user path of its interpreter.
pub record LoadInfo : Type 0 where
  pub host_path : Bytes
  pub user_path : Bytes
  pub mappings : List Mapping
  pub elf_header : ElfHeader
  pub needs_executable_stack : Bool
  pub interp : Option (Bytes × Bytes)

-- & page_mask, where the size of a page is a power of two.
abbrev pub page_floor : ℕ → ℕ → ℕ
page_floor page_size n = n - n % page_size

-- sysconf(_SC_PAGE_SIZE), by the bits of its long.
unfoldable pub page_size_of : ℕ → ℕ
page_size_of sysconf =
    if sysconf % 2 ^ 32 == 0 || leb (2 ^ 31) (sysconf % 2 ^ 32) then 4096 else sysconf

-- The addresses of the pages behind n bytes.
abbrev pub end_of : ℕ → ProgramHeader → ℕ → ℕ
end_of page_size header n = page_floor page_size (word (header.vaddr + n + page_size))

unfoldable pub prot_of : ℕ → Prot
prot_of flags = record {
  reads = has_flag flags 4;
  writes = has_flag flags 2;
  executes = has_flag flags 1;
}

-- The pages of the file, with the bytes to clear in the last one.
unfoldable pub file_mapping : ℕ → ProgramHeader → Mapping
unfolding prot_of
file_mapping page_size header =
    let start_address = page_floor page_size header.vaddr in
    let end_address = end_of page_size header header.filesz in
    record {
      addr = start_address;
      length = minus end_address start_address;
      clear_length =
          if ltb header.filesz header.memsz
          then minus (minus end_address header.vaddr) header.filesz
          else 0;
      prot = prot_of header.flags;
      anonymous = false;
      offset = page_floor page_size header.offset;
    }

-- The pages behind them.
unfoldable pub zero_mappings : ℕ → ProgramHeader → List Mapping
unfolding prot_of
zero_mappings page_size header =
    let start_address = end_of page_size header header.filesz in
    let end_address = end_of page_size header header.memsz in
    if ltb header.filesz header.memsz && ltb start_address end_address
    then record {
      addr = start_address;
      length = minus end_address start_address;
      clear_length = 0;
      prot = prot_of header.flags;
      anonymous = true;
      offset = 0;
    }
      ∷ []
    else []

unfoldable pub add_mapping : ℕ → ProgramHeader → LoadInfo → LoadInfo
unfolding file_mapping zero_mappings
add_mapping page_size header info = record info {
  mappings = info.mappings ++ (file_mapping page_size header ∷ zero_mappings page_size header);
}

-- Behind the check of the interpreter.
unfoldable pub checked_interp : Bytes → LoadInfo → Run Bytes → Run LoadInfo
checked_interp user_path info (done host_path) =
    done (record info { interp = some (host_path, user_path) })
checked_interp user_path info (failed status) = failed status
checked_interp user_path info asserts = asserts
checked_interp user_path info out_of_fuel = out_of_fuel

-- By what pread(2) gives of the path.
unfoldable pub read_interp : Host → ProgramHeader → LoadInfo → ℤ × Bytes → Run LoadInfo
unfolding checked_interp c_string translate_and_check_exec
read_interp host header info (status, bytes) =
    if not (eqb_ℤ status (pos header.filesz))
    then failed minus_eacces
    else checked_interp (c_string bytes) info (translate_and_check_exec host (c_string bytes))

-- By the interpreter so far: there is at most one.
unfoldable pub single_interp :
    Host → ElfFile → ProgramHeader → LoadInfo → Option (Bytes × Bytes) → Run LoadInfo
unfolding read_interp
single_interp host file header info (some interp) = failed minus_einval
single_interp host file header info none =
    read_interp host header info (file.pread header.filesz header.offset)

-- Without QEMU.
unfoldable pub add_interp : Host → ElfFile → ProgramHeader → LoadInfo → Run LoadInfo
unfolding single_interp
add_interp host file header info = single_interp host file header info info.interp

-- PT_LOAD, PT_INTERP and PT_GNU_STACK.
unfoldable pub add_load_info : Host → ℕ → ElfFile → ProgramHeader → LoadInfo → Run LoadInfo
unfolding add_mapping add_interp
add_load_info host page_size file header info =
    if header.ptype == 1
    then done (add_mapping page_size header info)
    else if header.ptype == 3
    then add_interp host file header info
    else if header.ptype == 1685382481
    then done (record info {
      needs_executable_stack = info.needs_executable_stack || has_flag header.flags 1;
    })
    else done info

-- ET_EXEC and ET_DYN.
unfoldable pub with_header : Host → ℕ → ElfFile → LoadInfo → Run ElfHeader → Run LoadInfo
unfolding add_load_info iterate_program_headers
with_header host page_size file info (done header) =
    if not (header.etype == 2) && not (header.etype == 3)
    then failed minus_einval
    else iterate_program_headers (add_load_info host page_size file) file header
        (record info { elf_header = header })
with_header host page_size file info (failed status) = failed status
with_header host page_size file info asserts = asserts
with_header host page_size file info out_of_fuel = out_of_fuel

unfoldable pub extract_load_info : Host → ℕ → ElfFile → LoadInfo → Run LoadInfo
unfolding with_header open_elf
extract_load_info host page_size file info = with_header host page_size file info (open_elf file)

shifted : ℕ → Mapping → Mapping
shifted load_base mapping = record mapping { addr = word (mapping.addr + load_base) }

-- By the class the entry is of 32 bits.
unfoldable pub add_load_base : ℕ → LoadInfo → LoadInfo
unfolding shifted
add_load_base load_base info = record info {
  mappings = map (shifted load_base) info.mappings;
  elf_header = record info.elf_header {
    entry =
        if is_class32 info.elf_header
        then (info.elf_header.entry + load_base) % 2 ^ 32
        else word (info.elf_header.entry + load_base);
  };
}

-- The addresses of arch.h for position independent programs and interpreters, by the machine.
pub record PicAddresses : Type 0 where
  pub exec : ℕ
  pub interp : ℕ
  pub exec_32 : ℕ
  pub interp_32 : ℕ
  pub has_loader_32bit : Bool

-- `none` is a file without a PT_LOAD segment, of which the code reads mappings[0] all the same.
unfoldable pub at_base : ElfHeader → ℕ → LoadInfo → List Mapping → Option LoadInfo
unfolding add_load_base
at_base header load_base info [] = if header.etype == 3 then none else some info
at_base header load_base info (mapping ∷ rest) =
    if header.etype == 3 && mapping.addr == 0
    then some (add_load_base load_base info)
    else some info

-- IS_POSITION_INDENPENDANT, and the address of the first mapping. `program` is the header that the
-- class is taken from.
unfoldable pub relocate : PicAddresses → ElfHeader → Bool → LoadInfo → Option LoadInfo
unfolding at_base
relocate addresses program is_interp info =
    let small = addresses.has_loader_32bit && is_class32 program in
    let exec = if small then addresses.exec_32 else addresses.exec in
    let interp = if small then addresses.interp_32 else addresses.interp in
    at_base info.elf_header (if is_interp then interp else exec) info info.mappings
