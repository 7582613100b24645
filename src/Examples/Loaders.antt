-- ===== src/Examples/Loaders.antt =====
-- The start of a program of execve/exit.c and loader/loader.c, with an interpreter.
use re_terminal.Prelude.{ℕ, ◌≡◌, refl, ◌++◌, none, some, true, false, List, inr, arith, length}
use re_terminal.Execve.Exit.{Launch, load_script}
use re_terminal.Loader.{
  Event, closes, opens, maps_file, maps_anonymous, clears, protects_stack, adjusts, names, is_error,
  start_loader,
}
use re_terminal.Loader.Clear.{clear, IsCleared, clear-IsCleared}
use re_terminal.Loader.Runs.{Grants}
use re_terminal.Loader.Plan.{all_loaded, ending_of, start_of, stack_events, closing}
use re_terminal.Loader.Loads.{start_loader-load_script}
use re_terminal.Examples.Memories.{zeroed}
use re_terminal.Examples.Programs.{full_info}

-- A kernel whose descriptors are 3.
answer : Event → ℕ
answer (closes fd) = 0
answer (opens address) = 3
answer (maps_file addr length prot fd offset) = addr
answer (maps_anonymous addr length prot) = addr
answer (clears start stop) = 0
answer (protects_stack start) = 0
answer (adjusts start base) = 0
answer (names address) = 0

abbrev answers : List Event → Event → ℕ
answers t e = answer e

grants : Grants answers
unfolding answer is_error
grants = record {
  grants_close = λ t fd. refl;
  grants_open = λ t address. refl;
  grants_file = λ t addr length prot fd offset. refl;
  grants_anonymous = λ t addr length prot. refl;
}

-- The program is its own interpreter, and it needs an executable stack.
abbrev launch : Launch
launch = record {
  stack_pointer = 1000000;
  page_size = 4096;
  info = record full_info { needs_executable_stack = true };
  interp = some full_info;
  raw_path = none;
  is_traced = false;
}

start_loader-load_script_example : start_loader answers (load_script launch 8192) ≡ (
  ending_of false (start_of launch 8192),
  ((all_loaded answers launch).events ++ stack_events launch)
      ++ closing
          (all_loaded answers launch).fd
          (all_loaded answers launch).base
          (start_of launch 8192),
)
start_loader-load_script_example = start_loader-load_script answers launch 8192 grants

-- Six bytes before the first word, a word, and two bytes.
clear-IsCleared_example : IsCleared 4098 16 zeroed (clear 4098 4114 zeroed)
clear-IsCleared_example =
    clear-IsCleared 4098 4114 zeroed (omega arith) (omega arith) (inr (omega arith))
