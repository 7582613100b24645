-- ===== src/Execve/Exit/Stack.antt =====
-- Where transfer_load_script of core/proot/src/main/cpp/execve/exit.c puts the script and its strings.
use re_terminal.Prelude.{ℕ, ◌+◌, ◌%◌, ◌^◌, ◌<◌, ◌≤◌, ◌≡◌, Option, none, some, [], ◌∷◌, ◌++◌, length}
use re_terminal.Path.{Bytes}
use re_terminal.Memory.Layout.{Reads}
use re_terminal.Execve.Load.{minus}
use re_terminal.Execve.Exit.{
  Launch, string1, string2, string1_address, string2_address, string3_address, load_script,
  script_bytes, load_buffer,
}

-- The path that the tracee gave, with its NUL.
abbrev pub given_string : Launch → Option Bytes → Bytes
given_string launch none = launch.info.user_path ++ 0 ∷ []
given_string launch (some path) = path ++ 0 ∷ []

-- The script, and the strings that it names, in the memory of the tracee at its new stack pointer.
pub record IsOnStack {M : Type 0} (byte : M → ℕ → Option ℕ) (launch : Launch) (first sp : ℕ) (m : M)
    : Type 0 where
  pub script : Reads byte m sp (script_bytes (load_script launch first))
  pub program_path : Reads byte m (string1_address launch) (string1 launch)
  pub interp_path : Reads byte m (string2_address launch) (string2 launch)
  pub given_path : Reads byte m (string3_address launch) (given_string launch launch.raw_path)
  pub aligned : sp % 16 ≡ 0
  pub below : sp + length (load_buffer launch first) ≡ launch.stack_pointer

module _ (launch : Launch) (first : ℕ)
    (fits : length (load_buffer launch first) ≤ launch.stack_pointer)
    (untagged : launch.stack_pointer < 2 ^ 56) where
  -- The new stack pointer.
  abbrev new_pointer : ℕ
  new_pointer = minus launch.stack_pointer (length (load_buffer launch first))
