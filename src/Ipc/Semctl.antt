-- ===== src/Ipc/Semctl.antt =====
-- sysvipc_sem.c: semctl. The commands are those of sysvipc_sys.h.
use re_terminal.Prelude.{
  ℕ, ◌+◌, ◌*◌, ◌/◌, ◌%◌, ◌^◌, Bool, false, ◌||◌, Option, none, some, List, [], ◌∷◌, ltb, leb, ◌==◌,
  length, set, get_or, if◌then◌else◌,
}
use re_terminal.Prelude.Int.{ℤ, pos, is_negative, minus_einval, minus_erange, minus_eidrm}
use re_terminal.Ipc.{Semaphore, Config, Namespace, Args, Env}
use re_terminal.Ipc.Object.{lookup_object}
use re_terminal.Ipc.Wake.{wake_tracee, prepend}
use re_terminal.Ipc.Sem.{
  Reply, semaphore_header, waits_on_set, max_sems, max_nsems, max_nsops, max_semval,
}

-- cmd & ~SYSVIPC_IPC_64
abbrev pub without_ipc_64 : ℕ → ℕ
without_ipc_64 cmd = cmd / 512 * 512 + cmd % 256

out_of_set : ℕ → Semaphore → Bool
out_of_set semnum s = leb (2 ^ 31) semnum || leb s.nsems semnum

getval : ℕ → Namespace → Semaphore → Reply
unfolding out_of_set
getval semnum ns s =
    if out_of_set semnum s then (minus_einval, ns) else (pos (get_or s.sems semnum 0), ns)

setval : ℕ → ℕ → Namespace → ℕ → Semaphore → Reply
unfolding out_of_set
setval semnum value ns index s =
    if ltb max_semval value
    then (minus_erange, ns)
    else if out_of_set semnum s
    then (minus_einval, ns)
    else (
      pos 0,
      record ns {
        semaphores = set ns.semaphores index (record s { sems = set s.sems semnum value });
      },
    )

after_write : ℤ → Namespace → Reply
after_write status ns = (if is_negative status then status else pos 0, ns)

unfoldable pub wake_all : ℕ → List Config → Option (List Config)
unfolding waits_on_set wake_tracee prepend
wake_all index [] = some []
wake_all index (c ∷ rest) =
    prepend (if waits_on_set index c then wake_tracee c minus_eidrm else some c)
      (wake_all index rest)

-- nsems stays.
unfoldable pub removed : Semaphore → Semaphore
removed s = record s { valid = false; generation = (s.generation + 1) % 2 ^ 16; sems = [] }

rmid : Namespace → ℕ → Semaphore → Option Reply
unfolding wake_all removed
rmid ns index s = elim (wake_all index ns.tracees) [
  | none ↦ none
  | some tracees ↦
      some
        (pos 0, record ns { semaphores = set ns.semaphores index (removed s); tracees = tracees })
]

total_nsems : List Semaphore → ℕ
total_nsems [] = 0
total_nsems (s ∷ rest) = s.nsems + total_nsems rest

-- semmni, semmns, semmsl, semopm, semvmx, semusz and semaem of the answer; the rest is 0.
info : ℕ → Namespace → List ℕ
unfolding total_nsems
info cmd ns =
    max_sems
    ∷ max_sems * max_nsems
    ∷ max_nsems
    ∷ max_nsops
    ∷ max_semval
    ∷ (if cmd == 19 then length ns.semaphores else 0)
    ∷ (if cmd == 19 then total_nsems ns.semaphores % 2 ^ 32 else 0)
    ∷ []

semctl_on : Env → Args → Namespace → Option (ℕ × Semaphore) → Option Reply
unfolding getval setval after_write rmid info
semctl_on env args ns none = some (minus_einval, ns)
semctl_on env args ns (some (index, s)) =
    let semnum = args.arg2 % 2 ^ 32 in
    let cmd = args.arg3 % 2 ^ 32 in
    let base = without_ipc_64 cmd in
    if base == 12
    then some (getval semnum ns s)
    else if base == 16
    then some (setval semnum args.arg4 ns index s)
    else if base == 13
    then some (after_write (env.write_shorts args.arg4 s.sems) ns)
    else if base == 0
    then rmid ns index s
    else if base == 3 || base == 19
    then some (after_write (env.write_ints args.arg4 (info cmd ns)) ns)
    else some (minus_einval, ns)

unfoldable pub semctl : Env → Args → Namespace → Option Reply
unfolding semctl_on lookup_object
semctl env args ns = semctl_on env args ns (lookup_object semaphore_header args.arg1 ns.semaphores)
