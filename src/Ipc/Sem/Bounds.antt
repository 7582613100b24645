-- ===== src/Ipc/Sem/Bounds.antt =====
-- The bounds of a semaphore set in core/proot/src/main/cpp/extension/sysvipc/sysvipc_sem.c: as many
-- values as it says, each within SYSVIPC_MAX_SEMVAL.
use re_terminal.Prelude.{
  ℕ, zero, suc, ◌≤◌, ◌≡◌, refl, ◌∙◌, true, Option, none, some, List, [], ◌∷◌, arith, length, All,
  All-set, All-append, if_both,
}
use re_terminal.Ipc.{Semaphore, Sembuf, Namespace, Args}
use re_terminal.Ipc.Object.{Search, found, missing}
use re_terminal.Ipc.Sem.{
  max_semval, zero_semaphore, zeros, create_semaphore, Reply, semaphore_at, semget_new, semget_from,
  semget, Outcome, done, fails, waits, check_ops, sem_check, settle,
}
use re_terminal.Ipc.Sem.Values.{check_ops-bounds}

-- A set with its values in their bounds.
pub record IsBounded (s : Semaphore) : Type 0 where
  pub counted : length s.sems ≡ s.nsems
  pub within : All (λ v. v ≤ max_semval) s.sems

abbrev pub BoundedIfValid : Semaphore → Type 0
BoundedIfValid s = s.valid ≡ true → IsBounded s

abbrev pub AllBounded : Namespace → Type 0
AllBounded ns = All BoundedIfValid ns.semaphores

abbrev pub BoundedIn : Reply → Type 0
BoundedIn r = AllBounded r.1

length-zeros : (n : ℕ) → length (zeros n) ≡ n
unfolding zeros
length-zeros zero = refl
length-zeros (suc n) = omega (arith, length-zeros n)

zeros-within : (n : ℕ) → All (λ v. v ≤ max_semval) (zeros n)
unfolding zeros
zeros-within zero = tt
zeros-within (suc n) = (omega arith, zeros-within n)

create_semaphore-IsBounded : (s : Semaphore) (id n : ℕ) → IsBounded (create_semaphore s id n)
unfolding create_semaphore
create_semaphore-IsBounded s id n = record { counted = length-zeros n; within = zeros-within n }

semget_new-AllBounded :
    (ns : Namespace) (id n : ℕ) (unused : Option ℕ)
    → AllBounded ns
    → BoundedIn (semget_new ns id n unused)
unfolding semget_new
semget_new-AllBounded ns id n none h = if_both BoundedIn _ _ _ h (
    All-append BoundedIfValid ns.semaphores (create_semaphore zero_semaphore id n ∷ []) h
      ((λ _. create_semaphore-IsBounded zero_semaphore id n), tt))
semget_new-AllBounded ns id n (some slot) h =
    All-set BoundedIfValid ns.semaphores slot
      (create_semaphore (semaphore_at ns.semaphores slot) id n)
      (λ _. create_semaphore-IsBounded (semaphore_at ns.semaphores slot) id n) h

semget_from-AllBounded :
    (ns : Namespace) (id n flags : ℕ) (found_set : Search Semaphore)
    → AllBounded ns
    → BoundedIn (semget_from ns id n flags found_set)
unfolding semget_from
semget_from-AllBounded ns id n flags (found i s) h = search (if_both BoundedIn) depth 5
semget_from-AllBounded ns id n flags (missing unused) h =
    search (if_both BoundedIn, semget_new-AllBounded) depth 5

-- Where every valid set has as many values as it says, each at most SYSVIPC_MAX_SEMVAL, semget
-- leaves it so, whether it creates a set, finds one or refuses.
pub semget-AllBounded :
    (args : Args) (ns : Namespace) → AllBounded ns → AllBounded (semget args ns).1
unfolding semget
semget-AllBounded args ns h = search (if_both BoundedIn, semget_from-AllBounded) depth 5

settle-IsBounded :
    (sops : List Sembuf) (s : Semaphore) (o : Outcome)
    → check_ops sops s.sems ≡ o
    → IsBounded s
    → IsBounded (settle s o).1
unfolding settle
settle-IsBounded sops s (done sems) e b =
    let (l, w) = check_ops-bounds sops s.sems sems b.within e in
    record { counted = l ∙ b.counted; within = w }
settle-IsBounded sops s (fails status) e b = b
settle-IsBounded sops s (waits t) e b = b

-- Valid, and in its bounds.
abbrev pub Good : Semaphore → Type 0
Good s = (s.valid ≡ true) × IsBounded s

-- The check of a tracee's operations, whether they are done, refused or put to wait, leaves a
-- valid set valid, with as many values as it says and each at most SYSVIPC_MAX_SEMVAL.
pub sem_check-Good : (sops : List Sembuf) (s : Semaphore) → Good s → Good (sem_check sops s).1
unfolding sem_check
sem_check-Good sops s g =
    (still (check_ops sops s.sems), settle-IsBounded sops s (check_ops sops s.sems) refl g.1)
  where
    still : (o : Outcome) → (settle s o).1.valid ≡ true
    still (done sems) = unfold settle in g.0
    still (fails status) = unfold settle in g.0
    still (waits t) = unfold settle in g.0
