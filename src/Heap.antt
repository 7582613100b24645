-- ===== src/Heap.antt =====
-- core/proot/src/main/cpp/syscall/heap.c: the heap of a tracee, emulated by a memory mapping. Words
-- are natural numbers below 2 ^ 64.
pub mod Breaks
use re_terminal.Prelude.{
  ℕ, ◌+◌, ◌-◌, ◌*◌, ◌%◌, ◌^◌, Bool, true, false, not, ◌&&◌, ◌||◌, Option, none, some, ltb, leb,
  ◌==◌, if◌then◌else◌,
}

abbrev pub word : ℕ → ℕ
word n = n % 2 ^ 64

-- Subtraction on word_t.
abbrev pub minus : ℕ → ℕ → ℕ
minus a b = (a + (2 ^ 64 - b % 2 ^ 64)) % 2 ^ 64

pub record Heap : Type 0 where
  pub base : ℕ
  pub size : ℕ
  pub disabled : Bool

-- The system calls that brk(2) becomes; pr_other is any other.
pub data Sysnum : Type 0 where
  pr_void pr_mmap pr_mmap2 pr_mremap pr_brk pr_other : Sysnum

-- The system call that the tracee makes, with the arguments that are set here.
pub record Call : Type 0 where
  pub sysnum : Sysnum
  pub sysarg_1 : ℕ
  pub sysarg_2 : ℕ
  pub sysarg_3 : ℕ
  pub sysarg_4 : ℕ
  pub sysarg_5 : ℕ
  pub sysarg_6 : ℕ

-- What translate_brk_enter reads of its surroundings: sysconf(_SC_PAGE_SIZE), by the bits of its
-- long, whether the ABI has mmap2(2), and the end of the last mapping of the load information.
pub record Machine : Type 0 where
  pub page_size : ℕ
  pub has_mmap2 : Bool
  pub bss_end : ℕ

-- (int) heap_offset <= 0, by the low 32 bits.
unfoldable pub not_positive : ℕ → Bool
not_positive w = w % 2 ^ 32 == 0 || leb (2 ^ 31) (w % 2 ^ 32)

-- The static variable heap_offset, 0 until it is set.
unfoldable pub offset_for : Machine → ℕ → ℕ
unfolding not_positive
offset_for machine heap_offset =
    if not (heap_offset == 0)
    then heap_offset
    else if not_positive machine.page_size
    then 4096
    else machine.page_size

prot_read_write : ℕ
prot_read_write = 3

map_private_anonymous : ℕ
map_private_anonymous = 34

unfoldable pub first_mapping : Machine → ℕ → Call → Call
unfolding prot_read_write map_private_anonymous
first_mapping machine heap_offset call = if not (call.sysarg_1 == 0) then call else record call {
  sysnum = if machine.has_mmap2 then pr_mmap2 else pr_mmap;
  sysarg_1 = word machine.bss_end;
  sysarg_2 = heap_offset;
  sysarg_3 = prot_read_write;
  sysarg_4 = map_private_anonymous;
  sysarg_5 = 2 ^ 64 - 1;
  sysarg_6 = 0;
}

unfoldable pub resizing : ℕ → Heap → Call → Call
resizing heap_offset heap call = record call {
  sysnum = pr_mremap;
  sysarg_1 = minus heap.base heap_offset;
  sysarg_2 = word (heap.size + heap_offset);
  sysarg_3 = word (minus call.sysarg_1 heap.base + heap_offset);
  sysarg_4 = 0;
  sysarg_5 = 0;
}

-- heap_offset and the call, as they are left.
unfoldable pub translate_brk_enter : Machine → ℕ → Heap → Call → ℕ × Call
unfolding offset_for first_mapping resizing
translate_brk_enter machine heap_offset heap call =
    let offset = offset_for machine heap_offset in
    if heap.disabled
    then (heap_offset, call)
    else if heap.base == 0
    then (offset, first_mapping machine offset call)
    else if ltb call.sysarg_1 heap.base
    then (offset, record call { sysnum = pr_void })
    else (offset, resizing offset heap call)

-- tracee_errno < 0 && tracee_errno > -4096, where it is the low 32 bits read as an int.
unfoldable pub is_error : ℕ → Bool
is_error result = ltb (2 ^ 32 - 4096) (result % 2 ^ 32)

abbrev pub end_of : Heap → ℕ
end_of heap = word (heap.base + heap.size)

unfoldable pub mapped : ℕ → Heap → ℕ → Heap × ℕ
unfolding is_error
mapped heap_offset heap result =
    let heap' = record heap { base = word (result + heap_offset); size = 0 } in
    if is_error result then (heap, 0) else (heap', end_of heap')

unfoldable pub resized : ℕ → Heap → Call → ℕ → Heap × ℕ
unfolding is_error
resized heap_offset heap modified result =
    let heap' = record heap { size = minus modified.sysarg_3 heap_offset } in
    if is_error result || not (heap.base == word (result + heap_offset))
    then (heap, end_of heap)
    else (heap', end_of heap')

confirmed : Heap → Call → ℕ → Heap × ℕ
confirmed heap original result =
    if result == original.sysarg_1
    then (record heap { disabled = true }, result)
    else (heap, result)

unfoldable pub by_sysnum : Sysnum → ℕ → Heap → Call → Call → ℕ → Option (Heap × ℕ)
unfolding mapped resized confirmed
by_sysnum pr_void heap_offset heap original modified result = some (heap, end_of heap)
by_sysnum pr_mmap heap_offset heap original modified result = some (mapped heap_offset heap result)
by_sysnum pr_mmap2 heap_offset heap original modified result = some (mapped heap_offset heap result)
by_sysnum pr_mremap heap_offset heap original modified result =
    some (resized heap_offset heap modified result)
by_sysnum pr_brk heap_offset heap original modified result = some (confirmed heap original result)
by_sysnum pr_other heap_offset heap original modified result = none

-- The heap and the result that the tracee reads; `none` is an assertion that fails.
unfoldable pub translate_brk_exit : ℕ → Heap → Call → Call → ℕ → Option (Heap × ℕ)
unfolding by_sysnum
translate_brk_exit heap_offset heap original modified result =
    if heap.disabled
    then some (heap, result)
    else if heap_offset == 0
    then none
    else by_sysnum modified.sysnum heap_offset heap original modified result
