-- ===== src/Ipc/Wait.antt =====
-- sysvipc.c: the dispatch of a system call and the events by which a tracee waits in ppoll and
-- comes back. The shared memory handlers and their chain of system calls are not in this model.
use re_terminal.Prelude.{
  ℕ, Bool, true, false, not, ◌||◌, Option, none, some, List, [], ◌∷◌, ◌==◌, if◌then◌else◌,
}
use re_terminal.Prelude.Int.{ℤ, pos, eqb_ℤ, minus_eintr, minus_efault}
use re_terminal.Ipc.{
  Config, Namespace, Write, Args, Env, not_waiting, wait_semop, WaitState, idle,
  restarted_into_ppoll_canceled, restarted_into_ppoll, entered_ppoll, signaled_ppoll,
  entered_getpid, not_chained, single, shmat_socket, msgrcv_retry,
}
use re_terminal.Ipc.Wake.{is_waiting}
use re_terminal.Ipc.Msg.{msgget, msgsnd}
use re_terminal.Ipc.Receive.{msgrcv, msgctl, retry_msgrcv, put_config}
use re_terminal.Ipc.Sem.{semget, semop, semop_timedout}
use re_terminal.Ipc.Semctl.{semctl}

-- The system calls that the extension handles, but for those on shared memory.
pub data Sysnum : Type 0 where
  msgget_call msgsnd_call msgrcv_call msgctl_call : Sysnum
  semget_call semop_call semtimedop_call semctl_call other_call : Sysnum

-- What becomes of the system call of a tracee at an event: nothing, a result for the tracee in its
-- place, a wait in ppoll with a timeout, a call of getpid whose result is replaced when it exits,
-- a chain of calls, or the result that the kernel has given.
pub data Answer : Type 0 where
  unhandled gets_pid chained kept : Answer
  result : ℤ → Answer
  polls : ℕ → Answer

-- The config of the tracee with a pid.
unfoldable pub config_of : ℕ → List Config → Option Config
config_of self [] = none
config_of self (c ∷ rest) = if c.pid == self then some c else config_of self rest

with_config : Namespace → Config → Namespace
unfolding put_config
with_config ns config = record ns { tracees = put_config config ns.tracees }

drop_written : ℤ × Namespace × List Write → ℤ × Namespace
drop_written (status, ns, written) = (status, ns)

-- The switch on the number of the system call. `none` is a failed assertion.
unfoldable pub dispatch : Env → Config → Sysnum → Args → Namespace → Option (ℤ × Namespace)
unfolding drop_written msgget msgsnd msgrcv msgctl semget semop semctl
dispatch env config msgget_call args ns = some (msgget args ns)
dispatch env config msgsnd_call args ns = msgsnd env config.pid args ns
dispatch env config msgrcv_call args ns = some (drop_written (msgrcv env config args ns))
dispatch env config msgctl_call args ns = msgctl env args ns
dispatch env config semget_call args ns = some (semget args ns)
dispatch env config semop_call args ns = semop env config args ns
dispatch env config semtimedop_call args ns = semop env config args ns
dispatch env config semctl_call args ns = semctl env args ns
dispatch env config other_call args ns = some (pos 0, ns)

timeout_of : Sysnum → Args → ℕ
timeout_of semtimedop_call args = args.arg4
timeout_of _ args = 0

-- The tail of sysvipc_syscall_common behind the switch, on the config as the handler left it.
unfoldable pub after_handler : Bool → ℕ → ℤ → Config → Option (Answer × Config)
unfolding is_waiting
after_handler from_sigsys timeout status config = elim config.chain_state [
  | single ↦ some (chained, record config { chain_state = not_chained })
  | shmat_socket ↦ some (chained, config)
  | not_chained ↦
      if is_waiting config.wait_reason
      then some (
        polls timeout,
        record config { wait_state = if from_sigsys then restarted_into_ppoll else entered_ppoll },
      )
      else if from_sigsys
      then some (result status, config)
      else some
          (gets_pid, record config { status_after_wait = status; wait_state = entered_getpid })
  | _ ↦ none
]

finish_call : Bool → ℕ → ℕ → ℤ × Namespace → Option (Answer × Namespace)
unfolding config_of after_handler with_config
finish_call from_sigsys self timeout (status, ns) = elim (config_of self ns.tracees) [
  | none ↦ none
  | some config ↦ elim (after_handler from_sigsys timeout status config) [
    | none ↦ none
    | some (answer, config') ↦ some (answer, with_config ns config')
  ]
]

is_idle : WaitState → Bool
is_idle idle = true
is_idle _ = false

handled_call : Sysnum → Bool
handled_call other_call = false
handled_call _ = true

unfoldable pub syscall_common :
    Env → Bool → Config → Sysnum → Args → Namespace → Option (Answer × Namespace)
unfolding dispatch finish_call timeout_of is_idle handled_call
syscall_common env from_sigsys config sysnum args ns =
    if not (is_idle config.wait_state)
    then none
    else if not (handled_call sysnum)
    then some (unhandled, ns)
    else elim (dispatch env config sysnum args ns) [
      | none ↦ none
      | some reply ↦ finish_call from_sigsys config.pid (timeout_of sysnum args) reply
    ]

-- The end of a wait: the status is returned, after a retry of msgrcv where that is due.
ended : Config → ℤ × Namespace → Answer × Namespace
unfolding config_of with_config
ended config (status, ns) = elim (config_of config.pid ns.tracees) [
  | none ↦ (result status, ns)
  | some c ↦ (result status, with_config ns (record c { wait_state = idle }))
]

unfoldable pub end_wait : Env → Config → Namespace → Option (Answer × Namespace)
unfolding ended retry_msgrcv drop_written
end_wait env config ns = elim config.chain_state [
  | msgrcv_retry ↦ elim (retry_msgrcv env config ns) [
    | none ↦ none
    | some reply ↦ some (ended config (drop_written reply))
  ]
  | _ ↦ some (ended config (config.status_after_wait, ns))
]

-- SYSCALL_ENTER_START
unfoldable pub enter_start : Env → Config → Sysnum → Args → Namespace → Option (Answer × Namespace)
unfolding syscall_common end_wait with_config
enter_start env config sysnum args ns = elim config.wait_state [
  | idle ↦ syscall_common env false config sysnum args ns
  | restarted_into_ppoll ↦
      some (kept, with_config ns (record config { wait_state = entered_ppoll }))
  | restarted_into_ppoll_canceled ↦ end_wait env config ns
  | _ ↦ none
]

-- SIGSYS_OCC
unfoldable pub sigsys_occ : Env → Config → Sysnum → Args → Namespace → Option (Answer × Namespace)
unfolding syscall_common
sigsys_occ env config sysnum args ns = syscall_common env true config sysnum args ns

-- ppoll has returned and nobody has woken the tracee: a timeout, or a signal.
unfoldable pub poll_ended : ℤ → Config → Option (Answer × Config)
unfolding semop_timedout
poll_ended ppoll_status config =
    let answer =
      if eqb_ℤ ppoll_status minus_efault || eqb_ℤ ppoll_status minus_eintr
      then kept
      else result minus_eintr in
    let back = record config { wait_state = idle } in
    elim config.wait_reason [
      | not_waiting ↦ none
      | wait_semop ↦ some (answer, semop_timedout back)
      | _ ↦ some (answer, record back { wait_reason = not_waiting })
    ]

-- SYSCALL_EXIT_START, outside the chain of shmat.
unfoldable pub exit_start : Env → ℤ → Config → Namespace → Option (Answer × Namespace)
unfolding poll_ended end_wait is_waiting with_config
exit_start env syscall_result config ns =
    let after_poll : Option (Answer × Namespace) = elim (poll_ended syscall_result config) [
      | none ↦ none
      | some (answer, config') ↦ some (answer, with_config ns config')
    ] in
    let after_wait : Option (Answer × Namespace) =
      if is_waiting config.wait_reason then none else end_wait env config ns in
    elim config.wait_state [
      | idle ↦ some (unhandled, ns)
      | entered_ppoll ↦ after_poll
      | signaled_ppoll ↦ after_wait
      | entered_getpid ↦ after_wait
      | _ ↦ none
    ]

-- SYSCALL_CHAINED_ENTER
unfoldable pub chained_enter : Config → Option (Answer × Config)
chained_enter config = elim config.wait_state [
  | idle ↦ some (unhandled, config)
  | restarted_into_ppoll_canceled ↦ some (polls 1, record config { wait_state = signaled_ppoll })
  | _ ↦ none
]

-- SYSCALL_CHAINED_EXIT, outside the chain of shmat.
unfoldable pub chained_exit : Config → Option (Answer × Config)
chained_exit config = elim config.wait_state [
  | idle ↦ some (unhandled, config)
  | signaled_ppoll ↦ some (unhandled, record config { wait_state = idle })
  | _ ↦ none
]
