-- ===== src/Memory/Words/Poke.antt =====
-- poke_word of core/proot/src/main/cpp/tracee/mem.c stores the word of a tracee.
use Prim.Native.Nat.{bit_or, bit_or-bitwise}
use re_terminal.Prelude.{
  ℕ, zero, suc, ◌+◌, ◌≡◌, refl, ap, sym, ◌∙◌, subst, Bool, true, false, Option, [], ◌∷◌, ◌++◌, take,
  drop, take-append-drop, length, length-take, length-drop, length-append, if◌then◌else◌, if_each,
  All, arith,
}
use re_terminal.Prelude.Int.{pos}
use re_terminal.Path.{Bytes}
use re_terminal.Memory.{Kernel, untag_pointer}
use re_terminal.Memory.Layout.{Reads, Outside, Stores, IsKernel, Reads-at, Reads-right, Stores-left}
use re_terminal.Memory.Returns.{Accessible}
use re_terminal.Memory.Words.{width, is_positive, or_high, poked, poke_over, poke_rest, poke_word}

-- The value of a narrow tracee has no bits above its word.
abbrev pub FitsWord : Bool → Bytes → Type 0
FitsWord true value = (length value ≡ 8) × (drop 4 value ≡ 0 ∷ 0 ∷ 0 ∷ 0 ∷ [])
FitsWord false value = length value ≡ 8

-- process_vm_writev(2) of one region writes all of it or nothing.
abbrev pub IsWhole : {M : Type 0} → Kernel M → Type 0
IsWhole {M} k =
    (m : M) (a : ℕ) (w : Bytes)
    → is_positive (k.vm_write m a w).0 ≡ true
    → (k.vm_write m a w).0 ≡ pos (length w)

take_all : (n : ℕ) (xs : Bytes) → length xs ≡ n → take n xs ≡ xs
take_all zero [] e = refl
take_all zero (x ∷ xs) e = absurd (omega (arith, e))
take_all (suc n) [] e = refl
take_all (suc n) (x ∷ xs) e = ap (◌∷◌ x) (take_all n xs (omega (arith, e)))

zero_or : (y : ℕ) → bit_or 0 y ≡ y
zero_or y = bit_or-bitwise 0 y

or_zeros : (zs tmp : Bytes) → All (λ z. z ≡ 0) zs → length tmp ≡ length zs → or_high 0 zs tmp ≡ tmp
unfolding or_high
or_zeros [] [] a e = refl
or_zeros [] (y ∷ tmp) a e = absurd (omega (arith, e))
or_zeros (z ∷ zs) [] a e = absurd (omega (arith, e))
or_zeros (z ∷ zs) (y ∷ tmp) (p, a) e =
    let head : bit_or z y ≡ y = ap (λ x. bit_or x y) p ∙ zero_or y in
    let rest : or_high 0 zs tmp ≡ tmp = or_zeros zs tmp a (omega (arith, e)) in rw (head, rest) refl

-- The bytes behind the low half are those that were there.
or_high_lem :
    (n : ℕ) (value tmp : Bytes)
    → drop n value ≡ 0 ∷ 0 ∷ 0 ∷ 0 ∷ []
    → length value ≡ n + 4
    → length tmp ≡ n + 4
    → or_high n value tmp ≡ take n value ++ drop n tmp
unfolding or_high
or_high_lem zero value tmp z l t =
    ap (λ v. or_high 0 v tmp) z
    ∙ or_zeros (0 ∷ 0 ∷ 0 ∷ 0 ∷ []) tmp (refl, (refl, (refl, (refl, tt)))) (omega (arith, t))
or_high_lem (suc n) [] tmp z l t = absurd (omega (arith, l))
or_high_lem (suc n) (x ∷ value) [] z l t = absurd (omega (arith, t))
or_high_lem (suc n) (x ∷ value) (y ∷ tmp) z l t =
    ap (◌∷◌ x) (or_high_lem n value tmp z (omega (arith, l)) (omega (arith, t)))

module _ {M : Type 0} (k : Kernel M) (byte : M → ℕ → Option ℕ) (laws : IsKernel byte k) (a : ℕ)
    (access : Accessible k a 1) (value : Bytes) where
  -- The word is stored over what the memory was before process_vm_writev.
  abbrev Pokes : M → Bytes → Bool × M → Type 0
  Pokes m w r = (m' : M) × (r ≡ (true, m')) × Stores byte m a w m'

  over :
      (m m1 m2 : M) (w : Bytes)
      → Outside byte m m1 a (length w)
      → Stores byte m1 a w m2
      → Stores byte m a w m2
  over m m1 m2 w o s = record { reads = s.reads; outside = λ b p. s.outside b p ∙ o b p }

  poked-Pokes :
      (narrow : Bool) (m m1 : M) (w : Bytes)
      → length w ≡ 8
      → Outside byte m m1 a (length w)
      → Pokes m w (poked k narrow m1 (k.poke_data m1 a w))
  unfolding poked
  poked-Pokes narrow m m1 w l o =
      let (m2, e) = access.pokes m1 a w (omega arith) (omega arith) l in
      (m2, ap (poked k narrow m1) e, over m m1 m2 w o (laws.poke_stores m1 m2 a w l e))

  -- The high half is that of the word that was there.
  narrow-Pokes :
      (m m1 : M)
      → FitsWord true value
      → Outside byte m m1 a (length (take 4 value))
      → Pokes m (take 4 value) (poke_over k true a value m1 (k.peek_data m1 a))
  unfolding poke_over poked
  narrow-Pokes m m1 (l, z) o =
      let (tmp, e) = access.peeks m1 a (omega arith) (omega arith) in
      let eight = laws.peek_length m1 a tmp e in
      let merged = take 4 value ++ drop 4 tmp in
      let same = or_high_lem 4 value tmp z l eight in
      let four = length-take 4 value in
      let rest = length-drop 4 tmp in
      let whole = length-append (take 4 value) (drop 4 tmp) in
      let (m2, p) =
        access.pokes m1 a merged (omega arith) (omega arith)
          (omega (arith, l, eight, four, rest, whole)) in
      let stored = laws.poke_stores m1 m2 a merged (omega (arith, l, eight, four, rest, whole)) p in
      (
        m2,
        ap (poke_over k true a value m1) e
            ∙ (ap (λ w. poked k true m1 (k.poke_data m1 a w)) same ∙ ap (poked k true m1) p),
        over m m1 m2 (take 4 value) o (
            Stores-left byte m1 m2 a (take 4 value) (drop 4 tmp) stored (
              Reads-at byte m1 (a + length (take 4 tmp)) (a + length (take 4 value)) (drop 4 tmp)
                (omega (arith, l, eight, four, length-take 4 tmp))
                (Reads-right byte m1 a (take 4 tmp) (drop 4 tmp) (
                  subst (Reads byte m1 a) (sym (take-append-drop 4 tmp))
                    (laws.peek_reads m1 a tmp e))))),
      )

  fallback-Pokes :
      (narrow : Bool) (m m1 : M)
      → FitsWord narrow value
      → Outside byte m m1 a (length (take (width narrow) value))
      → Pokes m (take (width narrow) value) (
          if narrow
          then poke_over k narrow a value m1 (k.peek_data m1 a)
          else poked k narrow m1 (k.poke_data m1 a value))
  fallback-Pokes true m m1 f o = narrow-Pokes m m1 f o
  fallback-Pokes false m m1 f o =
      let same : take 8 value ≡ value = take_all 8 value (omega (arith, f)) in
      subst (λ w. Pokes m w (poked k false m1 (k.poke_data m1 a value))) (sym same)
        (poked-Pokes false m m1 value f (subst (λ w. Outside byte m m1 a (length w)) same o))

-- For a kernel that keeps to what ptrace(2) and process_vm_writev(2) promise, of which the latter
-- writes a region whole or not at all, an untagged address at which a word can be read and
-- written, and a value of eight bytes, the upper four of them zero where the tracee is a 32-bit
-- process on a 64-bit kernel: poke_word sets no errno, and the memory that it leaves has the four
-- or eight bytes of the tracee's word at the address and is unchanged outside of them.
pub poke_word-Stores :
    {M : Type 0} (k : Kernel M) (byte : M → ℕ → Option ℕ) (narrow : Bool) (address : ℕ)
    (value : Bytes) (m : M)
    → IsKernel byte k
    → IsWhole k
    → Accessible k (untag_pointer address) 1
    → FitsWord narrow value
    → (m' : M) × (poke_word k narrow address value m ≡ (true, m'))
      × Stores byte m (untag_pointer address) (take (width narrow) value) m'
unfolding poke_word poke_rest
poke_word-Stores k byte narrow address value m laws whole access f =
    let a = untag_pointer address in
    let w = take (width narrow) value in
    let (status, m1) = k.vm_write m a w in
    if_each (Pokes k byte laws a access value m w) (is_positive status) (true, m1) _
      (λ e. (m1, refl, laws.vm_stores m a w (whole m a w e)))
      (λ e. fallback-Pokes k byte laws a access value narrow m m1 f (laws.vm_outside m a w))
