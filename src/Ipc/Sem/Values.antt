-- ===== src/Ipc/Sem/Values.antt =====
-- The values of a set through sysvipc_sem_check of extension/sysvipc/sysvipc_sem.c.
use re_terminal.Prelude.{
  ℕ, zero, suc, ◌+◌, ◌≤◌, ◌<◌, ◌≡◌, refl, subst, sym, ap, ◌∙◌, ◌⊎◌, inl, inr, true, some, List, [],
  ◌∷◌, arith, ◌==◌, ==_iff, length, length-set, get_or, set, All, All-set, Bool-cases, Option-cases,
  if◌then◌else◌,
}
use re_terminal.Prelude.Int.{ℤ, pos, negsuc}
use re_terminal.Ipc.{Sembuf}
use re_terminal.Ipc.Sem.{max_semval, done, added, blocked, is_zero_op, check_ops}

-- The sum of the increments of one semaphore, and that of its decrements.
pub ups : ℕ → List Sembuf → ℕ
ups i [] = 0
ups i (sop ∷ rest) =
    (if sop.sem_num == i then (elim sop.sem_op [ pos n ↦ n | negsuc n ↦ 0 ]) else 0) + ups i rest

pub downs : ℕ → List Sembuf → ℕ
downs i [] = 0
downs i (sop ∷ rest) =
    (if sop.sem_num == i then (elim sop.sem_op [ pos n ↦ 0 | negsuc n ↦ suc n ]) else 0)
    + downs i rest

get_or-set :
    (xs : List ℕ) (i j v : ℕ)
    → i < length xs
    → get_or (set xs i v) j 0 ≡ (if i == j then v else get_or xs j 0)
get_or-set [] i j v h = absurd (omega arith)
get_or-set (x ∷ xs) zero zero v h = refl
get_or-set (x ∷ xs) zero (suc j) v h = ground arith
get_or-set (x ∷ xs) (suc i) zero v h = ground arith
get_or-set (x ∷ xs) (suc i) (suc j) v h = ground (arith, get_or-set xs i j v (omega arith))

added-balance :
    (value v : ℕ) (op : ℤ)
    → added value op ≡ some v
    → v + (elim op [ pos n ↦ 0 | negsuc n ↦ suc n ])
      ≡ value + (elim op [ pos n ↦ n | negsuc n ↦ 0 ])
unfolding added
added-balance value v (pos n) h = ground arith
added-balance value v (negsuc n) h = ground arith

-- Every operation names a semaphore of the set.
abbrev pub InSet : ℕ → List Sembuf → Type 0
InSet n sops = All (λ sop. sop.sem_num < n) sops

-- One operation that is done: a test for zero that holds, or a change within the bounds.
check_ops-step :
    (sop : Sembuf) (rest : List Sembuf) (sems new_sems : List ℕ)
    → check_ops (sop ∷ rest) sems ≡ done new_sems
    → ((is_zero_op sop.sem_op ≡ true) × (check_ops rest sems ≡ done new_sems))
      ⊎ ((v : ℕ) × (added (get_or sems sop.sem_num 0) sop.sem_op ≡ some v)
          × (v ≤ max_semval)
          × (check_ops rest (set sems sop.sem_num v) ≡ done new_sems))
unfolding check_ops blocked
check_ops-step sop rest sems new_sems h = elim (Bool-cases (is_zero_op sop.sem_op)) [
  | inl e ↦ inl (e, ground arith)
  | inr e ↦ elim (Option-cases (added (get_or sems sop.sem_num 0) sop.sem_op)) [
    | inl f ↦ absurd (ground arith)
    | inr (v, f) ↦ inr (v, f, ground arith, ground arith)
  ]
]

is_zero_op-eq : (op : ℤ) → is_zero_op op ≡ true → op ≡ pos 0
is_zero_op-eq (pos zero) h = refl
is_zero_op-eq (pos (suc n)) h = cc
is_zero_op-eq (negsuc n) h = cc

-- Where every operation names a semaphore of the set and the operations are done, each new value
-- with the sum of the decrements of its semaphore is the old value with the sum of the increments.
pub check_ops-balance :
    (sops : List Sembuf) (sems new_sems : List ℕ) (i : ℕ)
    → InSet (length sems) sops
    → check_ops sops sems ≡ done new_sems
    → get_or new_sems i 0 + downs i sops ≡ get_or sems i 0 + ups i sops
unfolding ups downs
check_ops-balance [] sems new_sems i m h = unfold check_ops in ground arith
check_ops-balance (sop ∷ rest) sems new_sems i m h =
    elim (check_ops-step sop rest sems new_sems h) [
      | inl (z, k) ↦
          ground (arith, is_zero_op-eq sop.sem_op z, check_ops-balance rest sems new_sems i m.1 k)
      | inr (v, a, b, k) ↦
          let in_set = subst (λ n. InSet n rest) (sym (length-set sems sop.sem_num v)) m.1 in
          let ih = check_ops-balance rest (set sems sop.sem_num v) new_sems i in_set k in
          let at_i = get_or-set sems sop.sem_num i v m.0 in
          let balance = added-balance (get_or sems sop.sem_num 0) v sop.sem_op a in
          elim (Bool-cases (sop.sem_num == i)) [
            | inl e ↦
                let same : sop.sem_num ≡ i = (==_iff sop.sem_num i).0 e in
                rw e (ground (arith, ih, at_i, balance, same, ap (λ n. get_or sems n 0) same))
            | inr e ↦ rw e (ground (arith, ih, at_i))
          ]
    ]

-- The values stay as many, and within the bound.
pub check_ops-bounds :
    (sops : List Sembuf) (sems new_sems : List ℕ)
    → All (λ v. v ≤ max_semval) sems
    → check_ops sops sems ≡ done new_sems
    → (length new_sems ≡ length sems) × All (λ v. v ≤ max_semval) new_sems
check_ops-bounds [] sems new_sems b h =
    unfold check_ops in
    let same : sems ≡ new_sems = ground arith in
    subst (λ t. (length t ≡ length sems) × All (λ v. v ≤ max_semval) t) same (refl, b)
check_ops-bounds (sop ∷ rest) sems new_sems b h = elim (check_ops-step sop rest sems new_sems h) [
  | inl (z, k) ↦ check_ops-bounds rest sems new_sems b k
  | inr (v, a, c, k) ↦
      let (l, t) =
        check_ops-bounds rest (set sems sop.sem_num v) new_sems
          (All-set (λ u. u ≤ max_semval) sems sop.sem_num v c b) k in
      (l ∙ length-set sems sop.sem_num v, t)
]
