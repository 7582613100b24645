-- ===== src/Ipc/Sem.antt =====
-- sysvipc_sem.c: semaphore sets. `none` is a failed assertion. A sem_num is checked against nsems
-- before it is used, so an index out of range never occurs; a read there would give 0.
pub mod Values
pub mod Bounds
use re_terminal.Prelude.{
  ℕ, zero, suc, ◌+◌, ◌-◌, ◌*◌, ◌/◌, ◌%◌, ◌^◌, Bool, true, false, not, ◌&&◌, ◌||◌, Option, none,
  some, List, [], ◌∷◌, ◌++◌, ltb, leb, ◌==◌, length, set, get_or, get_elem?, if◌then◌else◌,
}
use re_terminal.Prelude.Int.{
  ℤ, pos, negsuc, is_negative, leb_ℤ, eqb_ℤ, to_int, has_flag, minus_enoent, minus_e2big,
  minus_eagain, minus_eexist, minus_einval, minus_efbig, minus_enospc, minus_erange, minus_eidrm,
}
use re_terminal.Ipc.{
  Semaphore, Sembuf, Config, Namespace, Args, Env, not_waiting, wait_semop, WaitReason,
}
use re_terminal.Ipc.Object.{Header, object_id, lookup_object, Search, found, missing, find_slot}
use re_terminal.Ipc.Wake.{wake_tracee, prepend}

abbrev pub max_sems : ℕ
max_sems = 512

abbrev pub max_nsems : ℕ
max_nsems = 512

abbrev pub max_nsops : ℕ
max_nsops = 512

abbrev pub max_semval : ℕ
max_semval = 0x7000

abbrev pub ipc_creat : ℕ
ipc_creat = 512

abbrev pub ipc_excl : ℕ
ipc_excl = 1024

abbrev pub ipc_nowait : ℕ
ipc_nowait = 2048

abbrev pub semaphore_header : Semaphore → Header
semaphore_header s = record { key = s.key; generation = s.generation; valid = s.valid }

abbrev pub zero_semaphore : Semaphore
zero_semaphore = record { key = 0; generation = 0; valid = false; sems = []; nsems = 0 }

unfoldable pub zeros : ℕ → List ℕ
zeros zero = []
zeros (suc n) = 0 ∷ zeros n

unfoldable pub create_semaphore : Semaphore → ℕ → ℕ → Semaphore
unfolding zeros
create_semaphore s semaphore_id nsems = record s {
  key = semaphore_id % 2 ^ 32;
  valid = true;
  sems = zeros nsems;
  nsems = nsems;
}

abbrev pub Reply : Type 0
Reply = ℤ × Namespace

semaphore_at : List Semaphore → ℕ → Semaphore
semaphore_at semaphores i = elim (get_elem? semaphores i) [ none ↦ zero_semaphore | some s ↦ s ]

semget_new : Namespace → ℕ → ℕ → Option ℕ → Reply
unfolding create_semaphore semaphore_at
semget_new ns semaphore_id nsems (some slot) =
    let s = create_semaphore (semaphore_at ns.semaphores slot) semaphore_id nsems in
    (object_id slot s.generation, record ns { semaphores = set ns.semaphores slot s })
semget_new ns semaphore_id nsems none =
    let s = create_semaphore zero_semaphore semaphore_id nsems in
    if leb max_sems (length ns.semaphores) then (minus_enospc, ns) else (
      object_id (length ns.semaphores) s.generation,
      record ns { semaphores = ns.semaphores ++ s ∷ [] },
    )

semget_from : Namespace → ℕ → ℕ → ℕ → Search Semaphore → Reply
unfolding semget_new
semget_from ns semaphore_id nsems semflg (found index s) =
    if has_flag semflg ipc_creat && has_flag semflg ipc_excl
    then (minus_eexist, ns)
    else if ltb s.nsems nsems
    then (minus_einval, ns)
    else (object_id index s.generation, ns)
semget_from ns semaphore_id nsems semflg (missing unused) =
    if not (has_flag semflg ipc_creat)
    then (minus_enoent, ns)
    else semget_new ns semaphore_id nsems unused

-- nsems is an int: a negative one has its highest bit set.
unfoldable pub semget : Args → Namespace → Reply
unfolding semget_from find_slot object_id
semget args ns =
    let nsems = args.arg2 % 2 ^ 32 in
    if nsems == 0 || leb (2 ^ 31) nsems || ltb max_nsems nsems
    then (minus_einval, ns)
    else semget_from ns args.arg1 nsems args.arg3
        (find_slot semaphore_header args.arg1 0 none ns.semaphores)

-- What the check of a tracee's operations comes to: the new values, a value for the tracee to
-- return, or that it has to wait, with the type of its wait.
pub data Outcome : Type 0 where
  done : List ℕ → Outcome
  fails : ℤ → Outcome
  waits : ℕ → Outcome

-- (int) new_sems[sem_num] + op, where it is not negative.
unfoldable pub added : ℕ → ℤ → Option ℕ
added value (pos n) = some (value + n)
added value (negsuc n) = if ltb n value then some (value - suc n) else none

blocked : Sembuf → ℕ → Outcome
blocked sop wait_type =
    if has_flag sop.sem_flg ipc_nowait then fails minus_eagain else waits wait_type

abbrev pub is_zero_op : ℤ → Bool
is_zero_op (pos zero) = true
is_zero_op _ = false

-- The loop of sysvipc_sem_check over the copy of the values.
unfoldable pub check_ops : List Sembuf → List ℕ → Outcome
unfolding added blocked
check_ops [] new_sems = done new_sems
check_ops (sop ∷ rest) new_sems =
    let value = get_or new_sems sop.sem_num 0 in
    let onwards = check_ops rest new_sems in
    let new_value = added value sop.sem_op in
    if is_zero_op sop.sem_op
    then (if not (value == 0) then blocked sop b'z' else onwards)
    else (elim new_value [
      | none ↦ blocked sop b'n'
      | some v ↦
          if ltb max_semval v
          then fails minus_erange
          else check_ops rest (set new_sems sop.sem_num v)
    ])

settle : Semaphore → Outcome → ℤ × Semaphore
settle s (done sems) = (pos 0, record s { sems = sems })
settle s (fails status) = (status, s)
settle s (waits wait_type) = (pos 1, s)

-- sysvipc_sem_check: the result, 1 for a wait, and the set.
unfoldable pub sem_check : List Sembuf → Semaphore → ℤ × Semaphore
unfolding check_ops settle
sem_check sops s = settle s (check_ops sops s.sems)

-- The tracee waits for this set.
unfoldable pub waits_on_set : ℕ → Config → Bool
waits_on_set index c =
    (elim c.wait_reason [ wait_semop ↦ true | _ ↦ false ]) && c.waiting_object_index == index

-- TALLOC_FREE of the operations, and the wake.
woken_with : Config → ℤ → Option Config
woken_with c status = wake_tracee (record c { semop_sops = [] }) status

-- SYSVIPC_FOREACH_TRACEE of semop: each of the others that waits is checked once, on the values
-- that those before it have left.
unfoldable pub recheck : ℕ → ℕ → Semaphore → List Config → Option (Semaphore × List Config)
unfolding sem_check waits_on_set woken_with wake_tracee
recheck self index s [] = some (s, [])
recheck self index s (c ∷ rest) =
    let (status, s') = sem_check c.semop_sops s in
    let skip = recheck self index s rest in
    let onwards = recheck self index s' rest in
    let waiting = not (c.pid == self) && waits_on_set index c in
    let wakes = waiting && not (eqb_ℤ status (pos 1)) in
    let now : Option Config = if wakes then woken_with c status else some c in
    elim now [
      | none ↦ none
      | some c' ↦ elim (if waiting then onwards else skip) [
        | none ↦ none
        | some (s'', rest') ↦ some (s'', c' ∷ rest')
      ]
    ]

unfoldable pub put_config : Config → List Config → List Config
put_config config [] = []
put_config config (c ∷ rest) =
    if c.pid == config.pid then config ∷ rest else c ∷ put_config config rest

in_range : ℕ → List Sembuf → Bool
in_range nsems [] = true
in_range nsems (sop ∷ rest) = ltb sop.sem_num nsems && in_range nsems rest

finish_semop : Config → Namespace → ℕ → ℤ → Option (Semaphore × List Config) → Option Reply
unfolding put_config
finish_semop config ns index status none = none
finish_semop config ns index status (some (s, tracees)) =
    let ended = record config { semop_sops = []; wait_reason = not_waiting } in
    if eqb_ℤ status (pos 1)
    then some (
      pos 0,
      record ns { semaphores = set ns.semaphores index s; tracees = put_config config tracees },
    )
    else some (
      status,
      record ns { semaphores = set ns.semaphores index s; tracees = put_config ended tracees },
    )

unfoldable pub semop_with : Config → Namespace → ℕ → Semaphore → List Sembuf → Option Reply
unfolding sem_check recheck finish_semop in_range
semop_with config ns index s sops =
    let waiting = record config {
      wait_reason = wait_semop;
      waiting_object_index = index;
      semop_sops = sops;
    } in
    let (status, s') = sem_check sops s in
    if not (in_range s.nsems sops)
    then some (minus_efbig, ns)
    else finish_semop waiting ns index status (recheck config.pid index s' ns.tracees)

semop_read : Config → Namespace → ℕ → Semaphore → ℤ × List Sembuf → Option Reply
unfolding semop_with
semop_read config ns index s (status, sops) =
    if is_negative status then some (status, ns) else semop_with config ns index s sops

semop_on : Env → Config → Args → Namespace → Option (ℕ × Semaphore) → Option Reply
unfolding semop_read
semop_on env config args ns none = some (minus_einval, ns)
semop_on env config args ns (some (index, s)) =
    if ltb max_nsops args.arg3
    then some (minus_e2big, ns)
    else if args.arg3 == 0
    then some (minus_einval, ns)
    else semop_read config ns index s (env.read_sembufs args.arg2 args.arg3)

-- `config` is that of the tracee that calls.
unfoldable pub semop : Env → Config → Args → Namespace → Option Reply
unfolding semop_on lookup_object
semop env config args ns =
    semop_on env config args ns (lookup_object semaphore_header args.arg1 ns.semaphores)

unfoldable pub semop_timedout : Config → Config
semop_timedout config = record config { semop_sops = []; wait_reason = not_waiting }
