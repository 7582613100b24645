-- ===== src/Heap/Breaks/Backed.antt =====
-- The mapping behind the heap of core/proot/src/main/cpp/syscall/heap.c, which mremap(2) resizes.
use re_terminal.Prelude.{ℕ, ◌+◌, ◌-◌, ◌%◌, ◌^◌, ◌<◌, ◌≡◌, Option, some, ◌⊎◌}
use re_terminal.Heap.{Heap, Call, pr_void, pr_mremap}
use re_terminal.Heap.Breaks.{IsMapped}

-- The pages from `start` on are mapped for `length` bytes: an offset of k bytes, and the heap.
pub record IsBacked (k : ℕ) (heap : Heap) (start length : ℕ) : Type 0 where
  pub mapped : IsMapped k heap
  pub starts : start + k ≡ heap.base
  pub aligned : start % 4096 ≡ 0
  pub covers : length ≡ k + heap.size

-- What the kernel does for the call that enters it, to a mapping of so many bytes: nothing for
-- PR_void; an mremap(2) without flags fails with an -errno, or has the new size at the same address.
abbrev pub Remaps : Call → ℕ → ℕ → ℕ → Type 0
Remaps call length result length' =
    ((call.sysnum ≡ pr_void) × (length' ≡ length))
    ⊎ ((call.sysnum ≡ pr_mremap)
        × (((2 ^ 64 - 4096 < result) × (result < 2 ^ 64) × (length' ≡ length))
            ⊎ ((result ≡ call.sysarg_1) × (length' ≡ call.sysarg_3))))

-- Nothing is asked for, or else an mremap(2) of the mapping, with its size and without flags.
abbrev pub Asks : Call → ℕ → ℕ → Type 0
Asks call start length =
    (call.sysnum ≡ pr_void)
    ⊎ ((call.sysnum ≡ pr_mremap)
        × (call.sysarg_1 ≡ start)
        × (call.sysarg_2 ≡ length)
        × (call.sysarg_4 ≡ 0))

-- The heap and the break that the tracee reads are those of the mapping.
abbrev pub Keeps : ℕ → ℕ → ℕ → Option (Heap × ℕ) → Type 0
Keeps k start length r =
    (heap' : Heap) × (reported : ℕ) × (r ≡ some (heap', reported))
    × IsBacked k heap' start length
    × (reported ≡ start + length)
