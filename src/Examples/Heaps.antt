-- ===== src/Examples/Heaps.antt =====
-- Breaks of syscall/heap.c.
use re_terminal.Prelude.{ℕ, ◌≡◌, false, refl, some, arith}
use re_terminal.Heap.{Heap, Call, Machine, pr_brk}
use re_terminal.Heap.Breaks.{IsMapped, Decides, brk_with, brk_resized, brk-IsMapped}

abbrev machine : Machine
machine = record { page_size = 4096; has_mmap2 = false; bss_end = 65536 }

abbrev heap : Heap
heap = record { base = 69632; size = 100; disabled = false }

abbrev no_heap : Heap
no_heap = record { base = 0; size = 0; disabled = false }

abbrev brk : ℕ → Call
brk address = record {
  sysnum = pr_brk;
  sysarg_1 = address;
  sysarg_2 = 0;
  sysarg_3 = 0;
  sysarg_4 = 0;
  sysarg_5 = 0;
  sysarg_6 = 0;
}

mapped : IsMapped 4096 heap
mapped = record { enabled = refl; set_up = omega arith; above = omega arith; ends = omega arith }

brk_resized_example :
    brk_with machine 4096 heap (brk 70000) 65536 ≡ some (record heap { size = 368 }, 70000)
brk_resized_example =
    brk_resized machine 4096 heap (brk 70000) mapped (omega arith) (omega arith) refl

brk-IsMapped_example : Decides machine 4096 heap (brk 70000) 65536
brk-IsMapped_example = brk-IsMapped machine 4096 heap (brk 70000) 65536 mapped (omega arith)
