-- ===== src/Memory/Layout.antt =====
-- Bytes in a memory, for core/proot/src/main/cpp/tracee/mem.c: what stands at an address, what an
-- update leaves as it was, and what the kernel promises of its calls.
use re_terminal.Prelude.{
  ℕ, suc, ◌+◌, ◌<◌, ◌≤◌, ◌≡◌, refl, sym, ◌∙◌, subst, ◌⊎◌, inl, inr, Option, some, [], ◌∷◌, ◌++◌,
  length, length-append, arith,
}
use re_terminal.Prelude.Int.{pos}
use re_terminal.Path.{Bytes}
use re_terminal.Memory.{Kernel}

module _ {M : Type 0} (byte : M → ℕ → Option ℕ) where
  -- The bytes stand at the address and behind it.
  abbrev pub Reads : M → ℕ → Bytes → Type 0
  Reads m a [] = Unit {0}
  Reads m a (c ∷ rest) = (byte m a ≡ some c) × Reads m (suc a) rest

  -- Outside of n bytes at a the memories are the same.
  abbrev pub Outside : M → M → ℕ → ℕ → Type 0
  Outside m m' a n = (b : ℕ) → (b < a) ⊎ (a + n ≤ b) → byte m' b ≡ byte m b

  -- The second memory is the first with the bytes stored at the address.
  pub record Stores (m : M) (a : ℕ) (bytes : Bytes) (m' : M) : Type 0 where
    pub reads : Reads m' a bytes
    pub outside : Outside m m' a (length bytes)

  -- What ptrace(2), process_vm_readv(2) and process_vm_writev(2) promise. A partial write stays in
  -- its region.
  pub record IsKernel (k : Kernel M) : Type 0 where
    pub peek_length : (m : M) (a : ℕ) (w : Bytes) → k.peek_data m a ≡ some w → length w ≡ 8
    pub peek_reads : (m : M) (a : ℕ) (w : Bytes) → k.peek_data m a ≡ some w → Reads m a w
    pub poke_stores :
        (m m' : M) (a : ℕ) (w : Bytes)
        → length w ≡ 8
        → k.poke_data m a w ≡ some m'
        → Stores m a w m'
    pub vm_reads :
        (m : M) (a n : ℕ)
        → (k.vm_read m a n).0 ≡ pos n
        → (length (k.vm_read m a n).1 ≡ n) × Reads m a (k.vm_read m a n).1
    pub vm_stores :
        (m : M) (a : ℕ) (w : Bytes)
        → (k.vm_write m a w).0 ≡ pos (length w)
        → Stores m a w (k.vm_write m a w).1
    pub vm_outside : (m : M) (a : ℕ) (w : Bytes) → Outside m (k.vm_write m a w).1 a (length w)

  pub Reads-at : (m : M) (a b : ℕ) (xs : Bytes) → a ≡ b → Reads m a xs → Reads m b xs
  Reads-at m a b xs e r = subst (λ c. Reads m c xs) e r

  pub Reads-append :
      (m : M) (a : ℕ) (xs ys : Bytes)
      → Reads m a xs
      → Reads m (a + length xs) ys
      → Reads m a (xs ++ ys)
  Reads-append m a [] ys r s = Reads-at m (a + 0) a ys (omega arith) s
  Reads-append m a (x ∷ xs) ys (e, r) s = (
    e,
    Reads-append m (suc a) xs ys r
        (Reads-at m (a + suc (length xs)) (suc a + length xs) ys (omega arith) s),
  )

  pub Reads-left : (m : M) (a : ℕ) (xs ys : Bytes) → Reads m a (xs ++ ys) → Reads m a xs
  Reads-left m a [] ys r = tt
  Reads-left m a (x ∷ xs) ys (e, r) = (e, Reads-left m (suc a) xs ys r)

  pub Reads-right :
      (m : M) (a : ℕ) (xs ys : Bytes) → Reads m a (xs ++ ys) → Reads m (a + length xs) ys
  Reads-right m a [] ys r = Reads-at m a (a + 0) ys (omega arith) r
  Reads-right m a (x ∷ xs) ys (e, r) =
      Reads-at m (suc a + length xs) (a + suc (length xs)) ys (omega arith)
        (Reads-right m (suc a) xs ys r)

  pub some_injective : (c d : ℕ) → ◌≡◌ {A = Option ℕ} (some c) (some d) → c ≡ d
  some_injective c d e = cc

  pub Reads-unique :
      (m : M) (a : ℕ) (xs ys : Bytes)
      → length xs ≡ length ys
      → Reads m a xs
      → Reads m a ys
      → xs ≡ ys
  Reads-unique m a [] [] e r s = refl
  Reads-unique m a [] (y ∷ ys) e r s = absurd (omega (arith, e))
  Reads-unique m a (x ∷ xs) [] e r s = absurd (omega (arith, e))
  Reads-unique m a (x ∷ xs) (y ∷ ys) e (p, r) (q, s) =
      let h : x ≡ y = some_injective x y (sym p ∙ q) in
      let t : xs ≡ ys = Reads-unique m (suc a) xs ys (omega (arith, e)) r s in rw (h, t) refl

  pub Reads-moved :
      (m m' : M) (a : ℕ) (xs : Bytes)
      → ((b : ℕ) → a ≤ b → b < a + length xs → byte m' b ≡ byte m b)
      → Reads m a xs
      → Reads m' a xs
  Reads-moved m m' a [] h r = tt
  Reads-moved m m' a (x ∷ xs) h (e, r) = (
    h a (omega arith) (omega arith) ∙ e,
    Reads-moved m m' (suc a) xs (λ b p q. h b (omega (arith, p)) (omega (arith, q))) r,
  )

  -- Two memories that hold the same bytes at an address agree there.
  pub Reads-agree :
      (m m' : M) (a : ℕ) (xs : Bytes)
      → Reads m a xs
      → Reads m' a xs
      → (b : ℕ) → a ≤ b
      → b < a + length xs
      → byte m' b ≡ byte m b
  Reads-agree m m' a [] r s b p q = absurd (omega (arith, p, q))
  Reads-agree m m' a (x ∷ xs) (e, r) (f, s) b p q = elim (at_or_behind a b p) [
    | inl z ↦ subst (λ c. byte m' c ≡ byte m c) z (f ∙ sym e)
    | inr l ↦ Reads-agree m m' (suc a) xs r s b l (omega (arith, q))
  ]
    where
      at_or_behind : (a b : ℕ) → a ≤ b → (a ≡ b) ⊎ (suc a ≤ b)
      at_or_behind a b p = omega (arith, p)

  pub Stores-append :
      (m m' m'' : M) (a : ℕ) (xs ys : Bytes)
      → Stores m a xs m'
      → Stores m' (a + length xs) ys m''
      → Stores m a (xs ++ ys) m''
  Stores-append m m' m'' a xs ys s t = record {
    reads =
        Reads-append m'' a xs ys (Reads-moved m' m'' a xs (λ b p q. t.outside b (inl q)) s.reads)
          t.reads;
    outside = λ b o. t.outside b (beside b o) ∙ s.outside b (around b o);
  }
    where
      beside :
          (b : ℕ)
          → (b < a) ⊎ (a + length (xs ++ ys) ≤ b)
          → (b < a + length xs) ⊎ (a + length xs + length ys ≤ b)
      beside b (inl p) = inl (omega (arith, p))
      beside b (inr p) = inr (omega (arith, p, length-append xs ys))

      around : (b : ℕ) → (b < a) ⊎ (a + length (xs ++ ys) ≤ b) → (b < a) ⊎ (a + length xs ≤ b)
      around b (inl p) = inl p
      around b (inr p) = inr (omega (arith, p, length-append xs ys))

  -- The bytes behind the first ones, where they were already.
  pub Stores-left :
      (m m' : M) (a : ℕ) (xs ys : Bytes)
      → Stores m a (xs ++ ys) m'
      → Reads m (a + length xs) ys
      → Stores m a xs m'
  Stores-left m m' a xs ys s r = record {
    reads = Reads-left m' a xs ys s.reads;
    outside = λ b o. outside_left b o;
  }
    where
      behind :
          (b : ℕ)
          → a + length xs ≤ b
          → (b < a + length xs + length ys) ⊎ (a + length (xs ++ ys) ≤ b)
      behind b p = omega (arith, p, length-append xs ys)

      outside_right :
          (b : ℕ)
          → a + length xs ≤ b
          → (b < a + length xs + length ys) ⊎ (a + length (xs ++ ys) ≤ b)
          → byte m' b ≡ byte m b
      outside_right b p (inl q) =
          Reads-agree m m' (a + length xs) ys r (Reads-right m' a xs ys s.reads) b p q
      outside_right b p (inr q) = s.outside b (inr q)

      outside_left : (b : ℕ) → (b < a) ⊎ (a + length xs ≤ b) → byte m' b ≡ byte m b
      outside_left b (inl p) = s.outside b (inl p)
      outside_left b (inr p) = outside_right b p (behind b p)
