-- ===== src/Heap/Breaks.antt =====
-- The program break that core/proot/src/main/cpp/syscall/heap.c shows to a tracee.
pub mod First
pub mod Backed
use re_terminal.Prelude.{
  ℕ, ◌+◌, ◌-◌, ◌%◌, ◌^◌, ◌<◌, ◌≤◌, ◌≡◌, ◌≢◌, refl, ap, ◌∙◌, Bool, true, false, Option, none, some,
  arith, ◌==◌, ==_iff, ltb, lt→ltb, if_both, not, ◌||◌, ◌⊎◌, inl, inr, Bool-cases, ◌↔◌, ltb→lt,
}
use re_terminal.Heap.{
  word, minus, Heap, Call, Machine, Sysnum, pr_void, pr_mremap, offset_for, resizing,
  translate_brk_enter, is_error, end_of, resized, by_sysnum, translate_brk_exit,
}

-- A heap that has been mapped, after a mapping of heap_offset bytes, and that ends below 2 ^ 64.
pub record IsMapped (heap_offset : ℕ) (heap : Heap) : Type 0 where
  pub enabled : heap.disabled ≡ false
  pub set_up : heap_offset ≢ 0
  pub above : heap_offset < heap.base
  pub ends : heap.base + heap.size < 2 ^ 64

word_small : (n : ℕ) → n < 2 ^ 64 → word n ≡ n
word_small n h = omega (arith, h)

minus_lem : (a b : ℕ) → b ≤ a → a < 2 ^ 64 → minus a b ≡ a - b
minus_lem a b h l = omega (arith, h, l)

eqb_no : (a b : ℕ) → a ≢ b → (a == b) ≡ false
eqb_no a b h = ground (arith, h)

not_below : (a b : ℕ) → b ≤ a → ltb a b ≡ false
not_below a b h = ground (arith, h)

pub ltb-cases : (a b : ℕ) → (a < b) ⊎ (b ≤ a)
ltb-cases a b = ground arith

-- A system call brk(2): what enters the kernel, what it answers and what comes back.
abbrev pub brk_with : Machine → ℕ → Heap → Call → ℕ → Option (Heap × ℕ)
brk_with machine heap_offset heap call result =
    let (offset, modified) = translate_brk_enter machine heap_offset heap call in
    translate_brk_exit offset heap call modified result

offset_lem : (machine : Machine) (k : ℕ) → k ≢ 0 → offset_for machine k ≡ k
unfolding offset_for
offset_lem machine k h = rw (eqb_no k 0 h) refl

pub enter_below :
    (machine : Machine) (k : ℕ) (heap : Heap) (call : Call)
    → IsMapped k heap
    → call.sysarg_1 < heap.base
    → translate_brk_enter machine k heap call ≡ (k, record call { sysnum = pr_void })
unfolding translate_brk_enter
enter_below machine k heap call m h =
    rw
      (
        m.enabled,
        eqb_no heap.base 0 (omega (arith, h)),
        lt→ltb call.sysarg_1 heap.base h,
        offset_lem machine k m.set_up,
      )
      refl

pub enter_resizing :
    (machine : Machine) (k : ℕ) (heap : Heap) (call : Call)
    → IsMapped k heap
    → heap.base ≤ call.sysarg_1
    → translate_brk_enter machine k heap call ≡ (k, resizing k heap call)
unfolding translate_brk_enter
enter_resizing machine k heap call m h =
    rw
      (
        m.enabled,
        eqb_no heap.base 0 (omega (arith, m.above)),
        not_below call.sysarg_1 heap.base h,
        offset_lem machine k m.set_up,
      )
      refl

exit_lem :
    (k : ℕ) (heap : Heap) (call modified : Call) (result : ℕ)
    → IsMapped k heap
    → translate_brk_exit k heap call modified result
      ≡ by_sysnum modified.sysnum k heap call modified result
unfolding translate_brk_exit
exit_lem k heap call modified result m = rw (m.enabled, eqb_no k 0 m.set_up) refl

pub below_lem :
    (machine : Machine) (k : ℕ) (heap : Heap) (call : Call) (result : ℕ)
    → IsMapped k heap
    → call.sysarg_1 < heap.base
    → brk_with machine k heap call result ≡ some (heap, heap.base + heap.size)
unfolding by_sysnum
below_lem machine k heap call result m h =
    rw
      (
        enter_below machine k heap call m h,
        exit_lem k heap call (record call { sysnum = pr_void }) result m,
        word_small (heap.base + heap.size) m.ends,
      )
      refl

pub resizing_lem :
    (machine : Machine) (k : ℕ) (heap : Heap) (call : Call) (result : ℕ)
    → IsMapped k heap
    → heap.base ≤ call.sysarg_1
    → brk_with machine k heap call result ≡ some (resized k heap (resizing k heap call) result)
unfolding by_sysnum resizing
resizing_lem machine k heap call result m h =
    rw
      (enter_resizing machine k heap call m h, exit_lem k heap call (resizing k heap call) result m)
      refl

pub aligned_lem : (r : ℕ) → r % 4096 ≡ 0 → is_error r ≡ false
unfolding is_error
aligned_lem r h = not_below (2 ^ 32 - 4096) (r % 2 ^ 32) (omega (arith, h))

-- What the kernel answers to the mremap decides the new heap.
resized_lem :
    (k : ℕ) (heap : Heap) (call : Call)
    → IsMapped k heap
    → heap.base ≤ call.sysarg_1
    → call.sysarg_1 < 2 ^ 64
    → minus (resizing k heap call).sysarg_3 k ≡ call.sysarg_1 - heap.base
unfolding resizing
resized_lem k heap call m h l =
    rw (minus_lem call.sysarg_1 heap.base h l) (omega (arith, h, l, m.above))

-- For a heap that is mapped and a break at or above its base and below 2 ^ 64: where the kernel
-- resizes the mapping in place, at an address aligned to 4096, the break that the tracee reads is
-- the one that it asked for, and the heap ends there.
pub brk_resized :
    (machine : Machine) (k : ℕ) (heap : Heap) (call : Call)
    → IsMapped k heap
    → heap.base ≤ call.sysarg_1
    → call.sysarg_1 < 2 ^ 64
    → (heap.base - k) % 4096 ≡ 0
    → brk_with machine k heap call (heap.base - k)
      ≡ some (record heap { size = call.sysarg_1 - heap.base }, call.sysarg_1)
unfolding resized
brk_resized machine k heap call m h l a =
    rw
      (
        resizing_lem machine k heap call (heap.base - k) m h,
        aligned_lem (heap.base - k) a,
        same_base,
        resized_lem k heap call m h l,
        same_end,
      )
      refl
  where
    same_base : (heap.base == word ((heap.base - k) + k)) ≡ true
    same_base = (==_iff heap.base (word ((heap.base - k) + k))).1 (omega (arith, m.above, m.ends))

    same_end : word (heap.base + (call.sysarg_1 - heap.base)) ≡ call.sysarg_1
    same_end = omega (arith, h, l)

-- The low half of a result is that of -errno, from -4095 on.
abbrev pub IsErrno : ℕ → Type 0
IsErrno result = 2 ^ 32 - 4096 < result % 2 ^ 32

is_error_iff : (result : ℕ) → is_error result ≡ true ↔ IsErrno result
unfolding is_error
is_error_iff result = (
  λ e. ltb→lt (2 ^ 32 - 4096) (result % 2 ^ 32) e,
  λ h. lt→ltb (2 ^ 32 - 4096) (result % 2 ^ 32) h,
)

-- The three ways in which a break is refused: it is below the heap, the kernel fails, or it would
-- have to move the mapping.
abbrev pub IsRefused : ℕ → Heap → Call → ℕ → Type 0
IsRefused k heap call result =
    (call.sysarg_1 < heap.base) ⊎ (IsErrno result ⊎ (heap.base ≢ word (result + k)))

or_right : (a b : Bool) → b ≡ true → (a || b) ≡ true
or_right true b e = refl
or_right false b e = e

pub kept_lem :
    (k : ℕ) (heap : Heap) (modified : Call) (result : ℕ)
    → IsMapped k heap
    → IsErrno result ⊎ (heap.base ≢ word (result + k))
    → resized k heap modified result ≡ (heap, heap.base + heap.size)
unfolding resized
kept_lem k heap modified result m (inl e) =
    rw ((is_error_iff result).1 e, word_small (heap.base + heap.size) m.ends) refl
kept_lem k heap modified result m (inr p) =
    rw
      (
        or_right (is_error result) (not (heap.base == word (result + k)))
            (ap not (eqb_no heap.base (word (result + k)) p)),
        word_small (heap.base + heap.size) m.ends,
      )
      refl

-- A heap that is mapped stays as it is, and the tracee reads its end, where the break is refused:
-- it is below the base, the kernel answers an error to the mremap, or the mapping would move.
pub brk_refused :
    (machine : Machine) (k : ℕ) (heap : Heap) (call : Call) (result : ℕ)
    → IsMapped k heap
    → IsRefused k heap call result
    → brk_with machine k heap call result ≡ some (heap, heap.base + heap.size)
brk_refused machine k heap call result m (inl h) = below_lem machine k heap call result m h
brk_refused machine k heap call result m (inr r) = elim (ltb-cases call.sysarg_1 heap.base) [
  | inl h ↦ below_lem machine k heap call result m h
  | inr h ↦
      resizing_lem machine k heap call result m h
      ∙ ap some (kept_lem k heap (resizing k heap call) result m r)
]

pub grown-IsMapped :
    (k : ℕ) (heap : Heap) (n : ℕ)
    → IsMapped k heap
    → heap.base + n < 2 ^ 64
    → IsMapped k (record heap { size = n })
grown-IsMapped k heap n m h = record {
  enabled = m.enabled;
  set_up = m.set_up;
  above = m.above;
  ends = h;
}

-- The only way in which a break is granted: the kernel has not failed, and the mapping is in its place.
pub record IsGranted (k : ℕ) (heap : Heap) (call : Call) (result : ℕ) : Type 0 where
  pub not_below : heap.base ≤ call.sysarg_1
  pub no_error : ¬ IsErrno result
  pub in_place : heap.base ≡ word (result + k)

no_errno_lem : (result : ℕ) → ¬ IsErrno result → is_error result ≡ false
no_errno_lem result n = elim (Bool-cases (is_error result)) [
  | inl e ↦ absurd (n ((is_error_iff result).0 e))
  | inr e ↦ e
]

pub granted_lem :
    (k : ℕ) (heap : Heap) (call : Call) (result : ℕ)
    → IsMapped k heap
    → call.sysarg_1 < 2 ^ 64
    → IsGranted k heap call result
    → resized k heap (resizing k heap call) result
      ≡ (record heap { size = call.sysarg_1 - heap.base }, call.sysarg_1)
unfolding resized
granted_lem k heap call result m l g =
    rw
      (
        no_errno_lem result g.no_error,
        (==_iff heap.base (word (result + k))).1 g.in_place,
        resized_lem k heap call m g.not_below l,
        same_end,
      )
      refl
  where
    same_end : word (heap.base + (call.sysarg_1 - heap.base)) ≡ call.sysarg_1
    same_end = omega (arith, g.not_below, l)

told_apart :
    (k : ℕ) (heap : Heap) (call : Call) (result : ℕ)
    → IsRefused k heap call result ⊎ IsGranted k heap call result
told_apart k heap call result = elim (ltb-cases call.sysarg_1 heap.base) [
  | inl h ↦ inl (inl h)
  | inr h ↦ elim (Bool-cases (is_error result)) [
    | inl e ↦ inl (inr (inl ((is_error_iff result).0 e)))
    | inr e ↦ elim (Bool-cases (heap.base == word (result + k))) [
      | inl f ↦ inr (record {
        not_below = h;
        no_error = λ h. cc (e, (is_error_iff result).1 h);
        in_place = (==_iff heap.base (word (result + k))).0 f;
      })
      | inr f ↦ inl (inr (inr (ground (arith, f))))
    ]
  ]
]

-- What comes back from a break, by the answer of the kernel.
abbrev pub Decides : Machine → ℕ → Heap → Call → ℕ → Type 0
Decides machine k heap call result =
    (heap' : Heap) × (reported : ℕ) × (brk_with machine k heap call result ≡ some (heap', reported))
    × IsMapped k heap'
    × (reported ≡ heap'.base + heap'.size)
    × ((IsRefused k heap call result × (heap' ≡ heap))
        ⊎ (IsGranted k heap call result × (reported ≡ call.sysarg_1)))

-- For a heap that is mapped, a break asked for by a 64-bit word fails no assertion, whatever the
-- kernel answers. The heap stays mapped, and what the tracee reads is where it ends. Either the
-- break lies below the base of the heap, or the kernel answers an error or another address than
-- that of the mapping, and the heap is unchanged; or none of these, and it ends at the break asked
-- for.
pub brk-IsMapped :
    (machine : Machine) (k : ℕ) (heap : Heap) (call : Call) (result : ℕ)
    → IsMapped k heap
    → call.sysarg_1 < 2 ^ 64
    → Decides machine k heap call result
brk-IsMapped machine k heap call result m l = elim (told_apart k heap call result) [
  | inl r ↦ (
    heap,
    heap.base + heap.size,
    brk_refused machine k heap call result m r,
    m,
    refl,
    inl (r, refl),
  )
  | inr g ↦
      let grown : Heap = record heap { size = call.sysarg_1 - heap.base } in
      (
        grown,
        call.sysarg_1,
        resizing_lem machine k heap call result m g.not_below
            ∙ ap some (granted_lem k heap call result m l g),
        grown-IsMapped k heap (call.sysarg_1 - heap.base) m (omega (arith, g.not_below, l)),
        omega (arith, g.not_below),
        inr (g, refl),
      )
]
