-- ===== src/Chain/Order.antt =====
-- The order in which the chained calls of core/proot/src/main/cpp/syscall/chain.c run.
use re_terminal.Prelude.{
  ℕ, ◌+◌, ◌%◌, ◌^◌, arith, ◌≡◌, refl, ap, subst, true, false, none, some, List, [], ◌∷◌, ◌++◌,
  append_assoc, append-nil,
}
use re_terminal.Chain.{
  Syscall, Tracee, Abi, Registers, pending, register_chained_syscall_internal,
  register_chained_syscall, finish_chain, forge, chain_next, chain_next_syscall,
  force_chain_final_result,
}

-- Registers calls, one after the other.
unfoldable pub register_all : List Syscall → Tracee → Tracee
register_all [] t = t
register_all (syscall ∷ syscalls) t = register_all syscalls (register_chained_syscall syscall t)

-- The tracee is set up to make a call: its arguments and its number are in the registers, the
-- instruction pointer is before the trap again, and the tracee stops at the end of the call, with
-- these registers.
pub record Makes (abi : Abi) (t : Tracee) (syscall : Syscall) (next : Tracee) : Type 0 where
  pub sysargs : next.registers.sysargs ≡ syscall.sysargs
  pub trap_number : next.registers.trap_number ≡ abi.detranslate_sysnum syscall.sysnum
  pub at_trap :
      (next.registers.instr_pointer + abi.systrap_size) % 2 ^ 64
      ≡ t.registers.instr_pointer % 2 ^ 64
  pub stops : next.breaks_at_exit ≡ true
  pub keeps_registers : next.restore_original_regs ≡ false

-- A chain that runs out, where `kernel` is what a system call does to the registers: the calls that
-- the tracee is made to make, in order, and the tracee at its end.
pub data Drains (abi : Abi) (kernel : Registers → Registers)
    : Tracee → List Syscall → Tracee → Type 0 where
  finished :
      (t last : Tracee)
      → t.syscalls ≡ some []
      → chain_next_syscall abi t ≡ some last
      → Drains abi kernel t [] last
  runs :
      (t next last : Tracee) (syscall : Syscall) (syscalls : List Syscall)
      → chain_next_syscall abi t ≡ some next
      → Makes abi t syscall next
      → Drains abi kernel (record next { registers = kernel next.registers }) syscalls last
      → Drains abi kernel t (syscall ∷ syscalls) last

-- The end of a chain with a forced result.
pub record Ended (v : ℕ) (last : Tracee) : Type 0 where
  pub result : last.registers.result ≡ v
  pub no_chain : last.syscalls ≡ none
  pub not_forced : last.force_final_result ≡ false

-- A tracee with a chain and a forced result.
record Forced (v : ℕ) (syscalls : List Syscall) (t : Tracee) : Type 0 where
  chain : t.syscalls ≡ some syscalls
  forced : t.force_final_result ≡ true
  value : t.final_result ≡ v

finish_chain-Ended :
    (v : ℕ) (t : Tracee)
    → t.force_final_result ≡ true
    → t.final_result ≡ v
    → Ended v (finish_chain t)
unfolding finish_chain
finish_chain-Ended v t f e = record { result = rw f e; no_chain = refl; not_forced = refl }

chain_next_end :
    (abi : Abi) (t : Tracee)
    → t.syscalls ≡ some []
    → chain_next_syscall abi t ≡ some (finish_chain t)
unfolding chain_next_syscall chain_next
chain_next_end abi t e = rw e refl

step : Abi → Syscall → List Syscall → Tracee → Tracee
step abi syscall syscalls t = record t {
  restore_original_regs = false;
  syscalls = some syscalls;
  registers = forge abi syscall t.registers;
  breaks_at_exit = true;
}

chain_next_step :
    (abi : Abi) (t : Tracee) (syscall : Syscall) (syscalls : List Syscall)
    → t.syscalls ≡ some (syscall ∷ syscalls)
    → chain_next_syscall abi t ≡ some (step abi syscall syscalls t)
unfolding chain_next_syscall chain_next step
chain_next_step abi t syscall syscalls e = rw e refl

step-Makes :
    (abi : Abi) (syscall : Syscall) (syscalls : List Syscall) (t : Tracee)
    → Makes abi t syscall (step abi syscall syscalls t)
unfolding step forge
step-Makes abi syscall syscalls t = record {
  sysargs = refl;
  trap_number = refl;
  at_trap = omega arith;
  stops = refl;
  keeps_registers = refl;
}

drained :
    (abi : Abi) (kernel : Registers → Registers) (v : ℕ) (t : Tracee) (syscalls : List Syscall)
    → Forced v syscalls t
    → (last : Tracee) × Drains abi kernel t syscalls last × Ended v last
unfolding step forge
drained abi kernel v t [] f = (
  finish_chain t,
  finished t (finish_chain t) f.chain (chain_next_end abi t f.chain),
  finish_chain-Ended v t f.forced f.value,
)
drained abi kernel v t (syscall ∷ syscalls) f =
    let next = step abi syscall syscalls t in
    let (last, d, e) =
      drained abi kernel v (record next { registers = kernel next.registers }) syscalls
        (record { chain = refl; forced = f.forced; value = f.value }) in
    (
      last,
      runs t next last syscall syscalls (chain_next_step abi t syscall syscalls f.chain)
          (step-Makes abi syscall syscalls t) d,
      e,
    )

registered-Forced :
    (v : ℕ) (before syscalls : List Syscall) (t : Tracee)
    → Forced v before t
    → Forced v (before ++ syscalls) (register_all syscalls t)
unfolding register_all register_chained_syscall register_chained_syscall_internal
registered-Forced v before [] t f = rw (append-nil before) f
registered-Forced v before (syscall ∷ syscalls) t f =
    subst (λ l. Forced v l (register_all (syscall ∷ syscalls) t))
      (append_assoc before (syscall ∷ []) syscalls)
      (registered-Forced v (before ++ syscall ∷ []) syscalls (register_chained_syscall syscall t)
        (record {
          chain = ap (λ o. some (pending o ++ syscall ∷ [])) f.chain;
          forced = f.forced;
          value = f.value;
        }))

-- For a tracee without a chain, at least one call registered behind force_chain_final_result, and
-- whatever the kernel does to the registers: for the calls in the order in which they are
-- registered, chain_next_syscall has the arguments and the number of the call in the registers,
-- the instruction pointer moved back by the size of the trap, the registers kept and the tracee
-- stop when the call is done; and at the end of the chain the result is the forced one.
pub chain-Drains :
    (abi : Abi) (kernel : Registers → Registers) (v : ℕ) (t : Tracee) (syscall : Syscall)
    (syscalls : List Syscall)
    → t.syscalls ≡ none
    → (last : Tracee) × Drains abi kernel
        (register_all (syscall ∷ syscalls) (force_chain_final_result v t))
        (syscall ∷ syscalls)
        last
      × Ended v last
unfolding register_all register_chained_syscall register_chained_syscall_internal
    force_chain_final_result
chain-Drains abi kernel v t syscall syscalls e =
    let first = register_chained_syscall syscall (force_chain_final_result v t) in
    drained abi kernel v (register_all syscalls first) (syscall ∷ syscalls) (
      registered-Forced v (syscall ∷ []) syscalls first (record {
        chain = ap (λ o. some (pending o ++ syscall ∷ [])) e;
        forced = refl;
        value = refl;
      }))
