-- ===== src/Heap/Breaks/First.antt =====
-- The first brk(2) of a tracee in core/proot/src/main/cpp/syscall/heap.c: the mapping of its heap.
use re_terminal.Prelude.{
  ℕ, ◌+◌, ◌%◌, ◌^◌, ◌<◌, ◌≡◌, ◌≢◌, refl, ap, ◌∙◌, false, some, arith, ==_iff, Bool-cases, inl, inr,
}
use re_terminal.Heap.{
  Heap, Call, Machine, offset_for, not_positive, first_mapping, translate_brk_enter, mapped,
  translate_brk_exit, by_sysnum,
}
use re_terminal.Heap.Breaks.{IsMapped, brk_with, eqb_no, word_small, aligned_lem}

offset_nonzero : (machine : Machine) (k : ℕ) → offset_for machine k ≢ 0
unfolding offset_for not_positive
offset_nonzero machine k e = ground (arith, e)

exit_mapped :
    (machine : Machine) (k result : ℕ) (heap : Heap) (call : Call)
    → k ≢ 0
    → heap.disabled ≡ false
    → call.sysarg_1 ≡ 0
    → translate_brk_exit k heap call (first_mapping machine k call) result
      ≡ some (mapped k heap result)
unfolding translate_brk_exit first_mapping by_sysnum
exit_mapped machine k result heap call n d z = elim (Bool-cases machine.has_mmap2) [
  | inl e ↦ rw (d, eqb_no k 0 n, (==_iff call.sysarg_1 0).1 z, e) refl
  | inr e ↦ rw (d, eqb_no k 0 n, (==_iff call.sysarg_1 0).1 z, e) refl
]

enter_first :
    (machine : Machine) (k : ℕ) (heap : Heap) (call : Call)
    → heap.disabled ≡ false
    → heap.base ≡ 0
    → translate_brk_enter machine k heap call
      ≡ (offset_for machine k, first_mapping machine (offset_for machine k) call)
unfolding translate_brk_enter
enter_first machine k heap call d b = rw (d, (==_iff heap.base 0).1 b) refl

mapped_lem :
    (offset : ℕ) (heap : Heap) (result : ℕ)
    → result % 4096 ≡ 0
    → result + offset < 2 ^ 64
    → mapped offset heap result
      ≡ (record heap { base = result + offset; size = 0 }, result + offset)
unfolding mapped
mapped_lem offset heap result a l =
    rw (aligned_lem result a, word_small (result + offset) l)
      (ap (λ e. (record heap { base = result + offset; size = 0 }, e)) (omega (arith, l)))

-- For a tracee with an enabled heap that is not mapped yet and that asks for its break by brk(0):
-- where the kernel maps the pages at an address above 0 and aligned to 4096, whose end does not
-- overflow, the heap is mapped and empty, and the tracee reads its base, heap_offset bytes into
-- the mapping.
pub brk_first :
    (machine : Machine) (k result : ℕ) (heap : Heap) (call : Call)
    → heap.disabled ≡ false
    → heap.base ≡ 0
    → call.sysarg_1 ≡ 0
    → result % 4096 ≡ 0
    → 0 < result
    → result + offset_for machine k < 2 ^ 64
    → let base = result + offset_for machine k in
      let heap' = record heap { base = base; size = 0 } in
      (brk_with machine k heap call result ≡ some (heap', base))
      × IsMapped (offset_for machine k) heap'
brk_first machine k result heap call d b z a p l =
    let offset = offset_for machine k in
    let n = offset_nonzero machine k in
    (
      rw (enter_first machine k heap call d b) (
          exit_mapped machine offset result heap call n d z
          ∙ ap some (mapped_lem offset heap result a l)),
      record { enabled = d; set_up = n; above = omega (arith, p); ends = omega (arith, l) },
    )
