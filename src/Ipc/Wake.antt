-- ===== src/Ipc/Wake.antt =====
-- sysvipc_wake_tracee of sysvipc.c. `none` is a failed assertion. The signal that interrupts
-- ppoll is not in the state; that it has been sent is the wait state `signaled_ppoll`.
use re_terminal.Prelude.{Bool, true, false, Option, none, some, List, ◌∷◌, if◌then◌else◌}
use re_terminal.Prelude.Int.{ℤ}
use re_terminal.Ipc.{
  Config, WaitReason, not_waiting, WaitState, restarted_into_ppoll_canceled, restarted_into_ppoll,
  entered_ppoll, signaled_ppoll,
}

unfoldable pub is_waiting : WaitReason → Bool
is_waiting not_waiting = false
is_waiting _ = true

unfoldable pub woken_state : WaitState → Option WaitState
woken_state entered_ppoll = some signaled_ppoll
woken_state restarted_into_ppoll = some restarted_into_ppoll_canceled
woken_state _ = none

unfoldable pub woken : Config → ℤ → Option WaitState → Option Config
woken config status none = none
woken config status (some state) =
    some
      (record config { wait_reason = not_waiting; status_after_wait = status; wait_state = state })

unfoldable pub wake_tracee : Config → ℤ → Option Config
unfolding woken woken_state is_waiting
wake_tracee config status =
    if is_waiting config.wait_reason
    then woken config status (woken_state config.wait_state)
    else none

-- The rest of a loop over the tracees, behind one that has been handled.
unfoldable pub prepend : Option Config → Option (List Config) → Option (List Config)
prepend none rest = none
prepend (some c) none = none
prepend (some c) (some rest) = some (c ∷ rest)
