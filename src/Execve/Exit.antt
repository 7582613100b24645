-- ===== src/Execve/Exit.antt =====
-- transfer_load_script of core/proot/src/main/cpp/execve/exit.c, on a 64-bit AArch64 machine: the
-- load script that the loader is given, and where it is put on the stack of the tracee.
pub mod Stack
use re_terminal.Prelude.{
  ℕ, zero, suc, ◌+◌, ◌/◌, ◌%◌, Bool, false, ◌||◌, Option, none, some, List, [], ◌∷◌, ◌++◌, length,
  if◌then◌else◌,
}
use re_terminal.Prelude.Int.{ℤ}
use re_terminal.Path.{Bytes}
use re_terminal.Memory.{Kernel, write_data}
use re_terminal.Execve.Load.{word, minus, Prot, Mapping, LoadInfo, page_floor}

-- The word of PROT_READ, PROT_WRITE and PROT_EXEC.
unfoldable pub prot_word : Prot → ℕ
prot_word p =
    (if p.reads then 1 else 0) + (if p.writes then 2 else 0) + (if p.executes then 4 else 0)

-- LOAD_ACTION_MMAP_ANON and LOAD_ACTION_MMAP_FILE
unfoldable pub transcript_mappings : List Mapping → List ℕ
unfolding prot_word
transcript_mappings [] = []
transcript_mappings (m ∷ rest) =
    (if m.anonymous then 3 else 2)
    ∷ m.addr
    ∷ m.length
    ∷ prot_word m.prot
    ∷ m.offset
    ∷ m.clear_length
    ∷ transcript_mappings rest

-- What the script is made of: the load information of the program and of its interpreter, the path
-- that the tracee gave, `none` where it is the user path, and whether a tracer waits for the start.
pub record Launch : Type 0 where
  pub stack_pointer : ℕ
  pub page_size : ℕ
  pub info : LoadInfo
  pub interp : Option LoadInfo
  pub raw_path : Option Bytes
  pub is_traced : Bool

-- A string with its NUL, or nothing.
unfoldable pub string_of : Option Bytes → Bytes
string_of none = []
string_of (some path) = path ++ 0 ∷ []

unfoldable pub interp_path : Option LoadInfo → Option Bytes
interp_path none = none
interp_path (some interp) = some interp.user_path

unfoldable pub zeros : ℕ → Bytes
zeros zero = []
zeros (suc n) = 0 ∷ zeros n

-- The strings area, by the stack pointer.
module _ (launch : Launch) where
  unfoldable pub string1 : Bytes
  string1 = launch.info.user_path ++ 0 ∷ []

  unfoldable pub string2 : Bytes
  unfolding string_of interp_path
  string2 = string_of (interp_path launch.interp)

  unfoldable pub string3 : Bytes
  unfolding string_of
  string3 = string_of launch.raw_path

  unfoldable pub padding_size : ℕ
  unfolding string1 string2 string3
  padding_size =
      minus (minus (minus launch.stack_pointer (length string1)) (length string2)) (length string3)
      % 16

  unfoldable pub strings : Bytes
  unfolding string1 string2 string3 padding_size zeros
  strings = string1 ++ (string2 ++ (string3 ++ zeros padding_size))

  unfoldable pub string1_address : ℕ
  unfolding strings
  string1_address = minus launch.stack_pointer (length strings)

  unfoldable pub string2_address : ℕ
  unfolding string1_address string1
  string2_address = word (string1_address + length string1)

  unfoldable pub string3_at : Option Bytes → ℕ
  unfolding string2_address string1_address string2
  string3_at none = string1_address
  string3_at (some path) = word (string2_address + length string2)

  unfoldable pub string3_address : ℕ
  unfolding string3_at
  string3_address = string3_at launch.raw_path

  unfoldable pub interp_needs_stack : Option LoadInfo → Bool
  interp_needs_stack none = false
  interp_needs_stack (some interp) = interp.needs_executable_stack

  unfoldable pub open_next : Option LoadInfo → List ℕ
  unfolding transcript_mappings string2_address
  open_next none = []
  open_next (some interp) = 0 ∷ string2_address ∷ transcript_mappings interp.mappings

  unfoldable pub entry_of : Option LoadInfo → ℕ
  entry_of none = launch.info.elf_header.entry
  entry_of (some interp) = interp.elf_header.entry

  unfoldable pub stack_exec : List ℕ
  unfolding interp_needs_stack
  stack_exec =
      if launch.info.needs_executable_stack || interp_needs_stack launch.interp
      then 4 ∷ page_floor launch.page_size launch.stack_pointer ∷ []
      else []

  -- `first` is the address of the first mapping of the program.
  unfoldable pub start_statement : ℕ → List ℕ
  unfolding entry_of string3_address
  start_statement first =
      let header = launch.info.elf_header in
      (if launch.is_traced then 5 else 6)
      ∷ launch.stack_pointer
      ∷ entry_of launch.interp
      ∷ word (header.phoff + first)
      ∷ header.phentsize
      ∷ header.phnum
      ∷ header.entry
      ∷ string3_address
      ∷ []

  unfoldable pub load_script : ℕ → List ℕ
  unfolding string1_address transcript_mappings open_next stack_exec start_statement
  load_script first =
      1
      ∷ string1_address
      ∷ (transcript_mappings launch.info.mappings
          ++ (open_next launch.interp ++ (stack_exec ++ start_statement first)))

-- The bytes of a word in memory.
unfoldable pub word_bytes : ℕ → ℕ → Bytes
word_bytes zero n = []
word_bytes (suc count) n = (n % 256) ∷ word_bytes count (n / 256)

unfoldable pub script_bytes : List ℕ → Bytes
unfolding word_bytes
script_bytes [] = []
script_bytes (w ∷ words) = word_bytes 8 w ++ script_bytes words

-- The load script and the strings area.
unfoldable pub load_buffer : Launch → ℕ → Bytes
unfolding load_script script_bytes strings
load_buffer launch first = script_bytes (load_script launch first) ++ strings launch

module _ {M : Type 0} (k : Kernel M) where
  -- The new stack pointer, which is the first argument of the loader, with the status of write_data
  -- and the memory. `none` reads mappings[0] where there is none.
  unfoldable pub transfer_script : Launch → M → List Mapping → Option (ℕ × (ℤ × M))
  unfolding load_buffer write_data
  transfer_script launch m [] = none
  transfer_script launch m (first ∷ rest) =
      let buffer = load_buffer launch first.addr in
      let stack_pointer = minus launch.stack_pointer (length buffer) in
      some (stack_pointer, write_data k stack_pointer buffer m)

  unfoldable pub transfer_load_script : Launch → M → Option (ℕ × (ℤ × M))
  unfolding transfer_script
  transfer_load_script launch m = transfer_script launch m launch.info.mappings
