-- ===== src/Examples/Chains.antt =====
-- A chain of syscall/chain.c: two calls behind a system call whose result is forced.
use re_terminal.Prelude.{ℕ, refl, ◌+◌, false, none, [], ◌∷◌}
use re_terminal.Chain.{
  Arguments, Syscall, Registers, Tracee, Abi, inactive, force_chain_final_result,
}
use re_terminal.Chain.Order.{register_all, Drains, Ended, chain-Drains}

abbrev arguments : Arguments
arguments = record {
  sysarg_1 = 1;
  sysarg_2 = 2;
  sysarg_3 = 3;
  sysarg_4 = 4;
  sysarg_5 = 5;
  sysarg_6 = 6;
}

abbrev numbered : ℕ → Syscall
numbered n = record { sysnum = n; sysargs = arguments }

abbrev stopped : Tracee
stopped = record {
  syscalls = none;
  force_final_result = false;
  final_result = 0;
  workaround = inactive;
  registers = record { sysargs = arguments; trap_number = 9; result = 0; instr_pointer = 4096 };
  restore_original_regs = false;
  breaks_at_exit = false;
}

abbrev plain_abi : Abi
plain_abi = record { detranslate_sysnum = λ (n : ℕ). n; systrap_size = 4 }

-- The kernel steps over the trap and answers 0.
abbrev answers : Registers → Registers
answers registers = record registers { result = 0; instr_pointer = registers.instr_pointer + 4 }

chain-Drains_example :
    (last : Tracee) × Drains plain_abi answers
      (register_all (numbered 5 ∷ numbered 6 ∷ []) (force_chain_final_result 77 stopped))
      (numbered 5 ∷ numbered 6 ∷ [])
      last
    × Ended 77 last
chain-Drains_example = chain-Drains plain_abi answers 77 stopped (numbered 5) (numbered 6 ∷ []) refl
