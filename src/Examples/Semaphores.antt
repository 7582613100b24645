-- ===== src/Examples/Semaphores.antt =====
-- Semaphore sets of extension/sysvipc at work: a set of two semaphores.
use re_terminal.Prelude.{◌≡◌, refl, true, List, [], ◌∷◌, arith, get_or, ◌+◌}
use re_terminal.Prelude.Int.{pos, negsuc}
use re_terminal.Ipc.{Semaphore, Sembuf, Namespace}
use re_terminal.Ipc.Sem.{check_ops, sem_check, done}
use re_terminal.Ipc.Sem.Values.{ups, downs, InSet, check_ops-balance}
use re_terminal.Ipc.Sem.Bounds.{IsBounded, Good, sem_check-Good}

-- Two up on the first, one down on the second.
abbrev sops : List Sembuf
sops =
    record { sem_num = 0; sem_op = pos 2; sem_flg = 0 }
    ∷ record { sem_num = 1; sem_op = negsuc 0; sem_flg = 0 }
    ∷ []

abbrev pair : Semaphore
pair = record { key = 5; generation = 0; valid = true; sems = 1 ∷ 3 ∷ []; nsems = 2 }

abbrev ns : Namespace
ns = record { queues = []; semaphores = pair ∷ []; tracees = [] }

pair-IsBounded : IsBounded pair
pair-IsBounded = record { counted = refl; within = (omega arith, (omega arith, tt)) }

sops-InSet : InSet 2 sops
sops-InSet = (omega arith, (omega arith, tt))

sops_done : check_ops sops (1 ∷ 3 ∷ []) ≡ done (3 ∷ 2 ∷ [])
unfolding check_ops
sops_done = refl

check_ops-balance_example :
    get_or (3 ∷ 2 ∷ []) 1 0 + downs 1 sops ≡ get_or (1 ∷ 3 ∷ []) 1 0 + ups 1 sops
check_ops-balance_example = check_ops-balance sops (1 ∷ 3 ∷ []) (3 ∷ 2 ∷ []) 1 sops-InSet sops_done

sem_check-Good_example : Good (sem_check sops pair).1
sem_check-Good_example = sem_check-Good sops pair (refl, pair-IsBounded)
