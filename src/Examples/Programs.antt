-- ===== src/Examples/Programs.antt =====
-- The loading of a program of execve/enter.c: an ELF file with one segment, which a script runs.
use re_terminal.Prelude.{ℕ, ◌≡◌, refl, Bool, true, false, none, some, [], ◌∷◌, arith, same, ◌^◌}
use re_terminal.Prelude.Int.{pos}
use re_terminal.Path.{Bytes}
use re_terminal.Path.Compare.{compare_paths, compare_paths2}
use re_terminal.Translate.{done}
use re_terminal.Execve.Elf.{ElfHeader, ProgramHeader, ElfFile}
use re_terminal.Execve.Load.{LoadInfo, extract_load_info, prot_of}
use re_terminal.Execve.Load.Segment.{Any, Holds, IsLoadable}
use re_terminal.Execve.Load.Complete.{extract_load_info-Holds}
use re_terminal.Execve.Enter.{World, Tracee, translate_execve_enter}
use re_terminal.Execve.Enter.Launch.{IsExecution, translate_execve_enter-IsExecution}
use re_terminal.Examples.Translations.{led}
use re_terminal.Examples.Scripts.{host, expanded}

-- A position independent file of 64 bits for x86_64.
abbrev elf_header : ElfHeader
elf_header = record {
  ident = 127 ∷ b'E' ∷ b'L' ∷ b'F' ∷ 2 ∷ [];
  class = 2;
  etype = 3;
  machine = 62;
  entry = 8210;
  phoff = 64;
  phentsize = 56;
  phnum = 1;
}

-- Data of 100 bytes and zeros up to 10000.
abbrev segment : ProgramHeader
segment = record { ptype = 1; flags = 6; offset = 8; vaddr = 8200; filesz = 100; memsz = 10000 }

segment-IsLoadable : IsLoadable 4096 segment
segment-IsLoadable = record {
  has_pages = omega arith;
  filesz_le = omega arith;
  fits = omega arith;
  congruent = refl;
}

abbrev elf : ElfFile
elf = record {
  opened = pos 5;
  header_read = pos 64;
  header = elf_header;
  sought = pos 64;
  read_program_header = λ (i : ℕ). (pos 56, segment);
  pread = λ (n offset : ℕ). (pos 0, []);
}

abbrev empty_info : LoadInfo
empty_info = record {
  host_path = expanded.host_path;
  user_path = expanded.user_path;
  mappings = [];
  elf_header = elf_header;
  needs_executable_stack = false;
  interp = none;
}

abbrev pub full_info : LoadInfo
full_info = record empty_info {
  mappings =
      record {
        addr = 8192;
        length = 4096;
        clear_length = 3988;
        prot = prot_of 6;
        anonymous = false;
        offset = 0;
      }
      ∷ record {
        addr = 12288;
        length = 8192;
        clear_length = 0;
        prot = prot_of 6;
        anonymous = true;
        offset = 0;
      }
      ∷ [];
}

extracted : extract_load_info host 4096 elf empty_info ≡ done full_info
unfolding extract_load_info same prot_of
extracted = refl

extract_load_info-Holds_example : Any (Holds segment 5000) full_info.mappings
extract_load_info-Holds_example =
    extract_load_info-Holds host 4096 elf empty_info full_info 0 5000 (omega arith) refl
      segment-IsLoadable (omega arith) extracted

abbrev world : World
world = record {
  host = host;
  addresses = record {
    exec = 2 ^ 36;
    interp = 2 ^ 37;
    exec_32 = 0;
    interp_32 = 0;
    has_loader_32bit = false;
  };
  page_size = 4096;
  elf_file = λ (path : Bytes). elf;
  no_header = elf_header;
  is_load_done = false;
  loader_variable = λ (small : Bool). none;
  own_loader = λ (small : Bool). some (b'/' ∷ b'l' ∷ []);
  set_sysarg_path = λ (path : Bytes). pos 0;
}

abbrev before : Tracee
before = record {
  is_void = false;
  ignore_loader_syscalls = false;
  host_exe = none;
  new_exe = none;
  load_info = none;
  interp = none;
  raw_path = [];
  sysarg_1 = led;
}

-- Its first mapping stands at 8192, and so it is not moved.
abbrev launched : Tracee
launched = record {
  is_void = false;
  ignore_loader_syscalls = true;
  host_exe = some expanded.host_path;
  new_exe = some expanded.user_path;
  load_info = some full_info;
  interp = none;
  raw_path = led;
  sysarg_1 = b'/' ∷ b'l' ∷ [];
}

entered : translate_execve_enter world (done led) before ≡ done launched
unfolding translate_execve_enter same compare_paths2 compare_paths prot_of
entered = refl

translate_execve_enter-IsExecution_example : IsExecution world led launched
translate_execve_enter-IsExecution_example =
    translate_execve_enter-IsExecution world led before launched refl entered
