-- ===== src/Loader/Plan.antt =====
-- What a loader of core/proot/src/main/cpp/loader is to do for the script of transfer_load_script in
-- core/proot/src/main/cpp/execve/exit.c.
use re_terminal.Prelude.{ℕ, ◌+◌, Bool, ◌||◌, Option, none, some, List, [], ◌∷◌, ◌++◌, if◌then◌else◌}
use re_terminal.Execve.Load.{word, page_floor, LoadInfo}
use re_terminal.Execve.Exit.{
  Launch, string1_address, string2_address, string3_address, entry_of, interp_needs_stack,
}
use re_terminal.Loader.{
  Start, Event, closes, opens, protects_stack, adjusts, names, Ending, branches, executes,
}
use re_terminal.Loader.Runs.{all_mapped, first_file}

-- A file that is loaded: its descriptor, the address for AT_BASE, and what has been done so far.
pub record Loaded : Type 0 where
  pub fd : ℕ
  pub base : ℕ
  pub events : List Event

-- The program is opened and all its mappings are made.
abbrev pub program_loaded : (List Event → Event → ℕ) → Launch → Loaded
program_loaded answers launch =
    let fd = answers [] (opens (string1_address launch)) in
    record {
      fd = fd;
      base = first_file 0 launch.info.mappings;
      events = opens (string1_address launch) ∷ all_mapped fd launch.info.mappings;
    }

-- Then its interpreter, where it has one.
abbrev pub interp_loaded : (List Event → Event → ℕ) → ℕ → Option LoadInfo → Loaded → Loaded
interp_loaded answers address none l = l
interp_loaded answers address (some interp) l =
    let closed = l.events ++ (closes l.fd ∷ []) in
    let fd = answers closed (opens address) in
    record {
      fd = fd;
      base = first_file l.base interp.mappings;
      events = (closed ++ (opens address ∷ [])) ++ all_mapped fd interp.mappings;
    }

abbrev pub all_loaded : (List Event → Event → ℕ) → Launch → Loaded
all_loaded answers launch =
    interp_loaded answers (string2_address launch) launch.interp (program_loaded answers launch)

abbrev pub needs_stack : Launch → Bool
needs_stack launch = launch.info.needs_executable_stack || interp_needs_stack launch launch.interp

-- The stack is made executable where a file needs it.
abbrev pub stack_events : Launch → List Event
stack_events launch =
    if needs_stack launch
    then protects_stack (page_floor launch.page_size launch.stack_pointer) ∷ []
    else []

abbrev pub start_of : Launch → ℕ → Start
start_of launch first = record {
  stack_pointer = launch.stack_pointer;
  entry_point = entry_of launch launch.interp;
  at_phdr = word (launch.info.elf_header.phoff + first);
  at_phent = launch.info.elf_header.phentsize;
  at_phnum = launch.info.elf_header.phnum;
  at_entry = launch.info.elf_header.entry;
  at_execfn = string3_address launch;
}

abbrev pub ending_of : Bool → Start → Ending
ending_of traced start =
    if traced
    then executes start.stack_pointer start.entry_point
    else branches start.stack_pointer start.entry_point

-- The last calls, before the program runs.
abbrev pub closing : ℕ → ℕ → Start → List Event
closing fd base start = closes fd ∷ adjusts start base ∷ names start.at_execfn ∷ []
