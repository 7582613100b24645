-- ===== src/Chain.antt =====
-- core/proot/src/main/cpp/syscall/chain.c: the system calls that PRoot makes a tracee run behind the
-- one that it asked for. Words are natural numbers below 2 ^ 64, and memory does not run out.
pub mod Order
use re_terminal.Prelude.{
  ℕ, ◌+◌, ◌-◌, ◌%◌, ◌^◌, Bool, true, false, Option, none, some, List, [], ◌∷◌, ◌++◌, if◌then◌else◌,
}

-- The registers from SYSARG_1 to SYSARG_6.
pub record Arguments : Type 0 where
  pub sysarg_1 : ℕ
  pub sysarg_2 : ℕ
  pub sysarg_3 : ℕ
  pub sysarg_4 : ℕ
  pub sysarg_5 : ℕ
  pub sysarg_6 : ℕ

-- struct chained_syscall
pub record Syscall : Type 0 where
  pub sysnum : ℕ
  pub sysargs : Arguments

-- enum of tracee->chain.sysnum_workaround_state
pub data Workaround : Type 0 where
  inactive process_faulty_call process_replaced_call : Workaround

-- The registers that are written here; `trap_number` is SYSTRAP_NUM.
pub record Registers : Type 0 where
  pub sysargs : Arguments
  pub trap_number : ℕ
  pub result : ℕ
  pub instr_pointer : ℕ

-- The parts of a tracee: tracee->chain, where `none` is a list that is not allocated, the registers,
-- and whether restart_how has been set to PTRACE_SYSCALL.
pub record Tracee : Type 0 where
  pub syscalls : Option (List Syscall)
  pub force_final_result : Bool
  pub final_result : ℕ
  pub workaround : Workaround
  pub registers : Registers
  pub restore_original_regs : Bool
  pub breaks_at_exit : Bool

-- detranslate_sysnum of the ABI of the tracee, and get_systrap_size.
pub record Abi : Type 0 where
  pub detranslate_sysnum : ℕ → ℕ
  pub systrap_size : ℕ

abbrev pub pending : Option (List Syscall) → List Syscall
pending none = []
pending (some syscalls) = syscalls

unfoldable pub register_chained_syscall_internal : Bool → Syscall → Tracee → Tracee
register_chained_syscall_internal at_front syscall t = record t {
  syscalls =
      some (if at_front then syscall ∷ pending t.syscalls else pending t.syscalls ++ syscall ∷ []);
}

unfoldable pub register_chained_syscall : Syscall → Tracee → Tracee
unfolding register_chained_syscall_internal
register_chained_syscall syscall t = register_chained_syscall_internal false syscall t

-- The end of a chain.
unfoldable pub finish_chain : Tracee → Tracee
finish_chain t = record t {
  syscalls = none;
  registers =
      if t.force_final_result then record t.registers { result = t.final_result } else t.registers;
  force_final_result = false;
  final_result = 0;
}

-- The registers for the next call of a chain; the instruction pointer wraps around.
unfoldable pub forge : Abi → Syscall → Registers → Registers
forge abi syscall registers = record registers {
  sysargs = syscall.sysargs;
  trap_number = abi.detranslate_sysnum syscall.sysnum;
  instr_pointer = (registers.instr_pointer + (2 ^ 64 - abi.systrap_size % 2 ^ 64)) % 2 ^ 64;
}

-- By tracee->chain.syscalls; `none` is the assertion that fails.
chain_next : Abi → Tracee → Option (List Syscall) → Option Tracee
unfolding finish_chain forge
chain_next abi t none = none
chain_next abi t (some []) = some (finish_chain t)
chain_next abi t (some (syscall ∷ syscalls)) = some (record t {
  restore_original_regs = false;
  syscalls = some syscalls;
  registers = forge abi syscall t.registers;
  breaks_at_exit = true;
})

unfoldable pub chain_next_syscall : Abi → Tracee → Option Tracee
unfolding chain_next
chain_next_syscall abi t = chain_next abi t t.syscalls

unfoldable pub force_chain_final_result : ℕ → Tracee → Tracee
force_chain_final_result forced_result t = record t {
  force_final_result = true;
  final_result = forced_result;
}

-- `original` is get_sysnum and the arguments by the original registers.
unfoldable pub restart_original_syscall : Syscall → Tracee → Tracee
unfolding register_chained_syscall
restart_original_syscall original t = register_chained_syscall original t

restart_by : Syscall → Tracee → Workaround → Option Tracee
unfolding register_chained_syscall_internal
restart_by current t inactive =
    some (
      register_chained_syscall_internal true current
        (record t { workaround = process_faulty_call }))
restart_by current t _ = none

-- `current` is get_sysnum and the arguments by the current registers.
unfoldable pub restart_current_syscall_as_chained : Syscall → Tracee → Option Tracee
unfolding restart_by
restart_current_syscall_as_chained current t = restart_by current t t.workaround
