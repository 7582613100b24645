-- ===== src/Examples/Memories.antt =====
-- The transfers of tracee/mem.c on a memory without holes, whose process_vm calls fail.
use re_terminal.Prelude.{
  true, ℕ, zero, suc, ◌+◌, ◌<◌, ◌≤◌, ◌≡◌, refl, sym, ap, subst, ◌⊎◌, inl, inr, Option, some, [],
  ◌∷◌, ◌==◌, ==_iff, ==_refl, length, take, if◌then◌else◌, if_each, arith,
}
use re_terminal.Prelude.Int.{pos, negsuc}
use re_terminal.Path.{Bytes}
use re_terminal.Memory.{Kernel, write_data, read_data, read_string}
use re_terminal.Memory.Layout.{Reads, Outside, Stores, IsKernel, Reads-moved}
use re_terminal.Memory.Returns.{Accessible, write_data-Stores, read_data-write_data}
use re_terminal.Memory.Text.{read_string_lem}
use re_terminal.Memory.Words.{poke_word}
use re_terminal.Memory.Words.Poke.{poke_word-Stores}

abbrev pub Flat : Type 0
Flat = ℕ → ℕ

abbrev pub at_address : Flat → ℕ → Option ℕ
at_address m a = some (m a)

abbrev stored_at : Flat → ℕ → Bytes → Flat
stored_at m a [] = m
stored_at m a (c ∷ rest) = λ (b : ℕ). if b == a then c else stored_at m (suc a) rest b

abbrev bytes_at : ℕ → Flat → ℕ → Bytes
bytes_at zero m a = []
bytes_at (suc n) m a = m a ∷ bytes_at n m (suc a)

abbrev pub flat_kernel : Kernel Flat
flat_kernel = record {
  peek_data = λ (m : Flat) (a : ℕ). some (bytes_at 8 m a);
  poke_data = λ (m : Flat) (a : ℕ) (w : Bytes). some (stored_at m a w);
  vm_read = λ (m : Flat) (a : ℕ) (n : ℕ). (negsuc 0, []);
  vm_write = λ (m : Flat) (a : ℕ) (w : Bytes). (negsuc 0, m);
}

Outside-stored :
    (m : Flat) (a : ℕ) (w : Bytes) → Outside at_address m (stored_at m a w) a (length w)
Outside-stored m a [] b o = refl
Outside-stored m a (c ∷ w) b o =
    if_each (λ n. ◌≡◌ {A = Option ℕ} (some n) (some (m b))) (b == a) c (stored_at m (suc a) w b)
      (λ e. absurd (apart b o ((==_iff b a).0 e))) (λ e. Outside-stored m (suc a) w b (beside b o))
  where
    apart : (b : ℕ) → (b < a) ⊎ (a + suc (length w) ≤ b) → b ≡ a → ⊥
    apart b o e = omega (arith, o, e)

    beside : (b : ℕ) → (b < a) ⊎ (a + suc (length w) ≤ b) → (b < suc a) ⊎ (suc a + length w ≤ b)
    beside b (inl p) = inl (omega (arith, p))
    beside b (inr p) = inr (omega (arith, p))

Reads-stored : (m : Flat) (a : ℕ) (w : Bytes) → Reads at_address (stored_at m a w) a w
Reads-stored m a [] = tt
Reads-stored m a (c ∷ w) = (
  rw (==_refl a) refl,
  Reads-moved at_address (stored_at m (suc a) w) (stored_at m a (c ∷ w)) (suc a) w
      (λ b p q. elsewhere b p) (Reads-stored m (suc a) w),
)
  where
    elsewhere :
        (b : ℕ)
        → suc a ≤ b
        → ◌≡◌ {A = Option ℕ} (some (stored_at m a (c ∷ w) b)) (some (stored_at m (suc a) w b))
    elsewhere b p =
        if_each (λ n. ◌≡◌ {A = Option ℕ} (some n) (some (stored_at m (suc a) w b))) (b == a) c
          (stored_at m (suc a) w b) (λ e. absurd (omega (arith, p, (==_iff b a).0 e))) (λ e. refl)

Reads-bytes : (n : ℕ) (m : Flat) (a : ℕ) → Reads at_address m a (bytes_at n m a)
Reads-bytes zero m a = tt
Reads-bytes (suc n) m a = (refl, Reads-bytes n m (suc a))

same_word : (v w : Bytes) → ◌≡◌ {A = Option Bytes} (some v) (some w) → v ≡ w
same_word v w e = cc

same_memory : (m m' : Flat) → ◌≡◌ {A = Option Flat} (some m) (some m') → m ≡ m'
same_memory m m' e = cc

pub flat-IsKernel : IsKernel at_address flat_kernel
flat-IsKernel = record {
  peek_length = λ m a w e. ap length (sym (same_word (bytes_at 8 m a) w e));
  peek_reads =
      λ m a w e. subst (Reads at_address m a) (same_word (bytes_at 8 m a) w e) (Reads-bytes 8 m a);
  poke_stores = λ m m' a w z e.
      subst (Stores at_address m a w) (same_memory (stored_at m a w) m' e)
        (record { reads = Reads-stored m a w; outside = Outside-stored m a w });
  vm_reads = λ m a n e. cc;
  vm_stores = λ m a w e. cc;
  vm_outside = λ m a w b o. refl;
}

pub flat-Accessible : (a n : ℕ) → Accessible flat_kernel a n
flat-Accessible a n = record {
  peeks = λ m b p q. (bytes_at 8 m b, refl);
  pokes = λ m b w p q z. (stored_at m b w, refl);
}

abbrev pub zeroed : Flat
zeroed b = 0

-- Ten bytes, a full word and two.
abbrev ten_bytes : Bytes
ten_bytes = 1 ∷ 2 ∷ 3 ∷ 4 ∷ 5 ∷ 6 ∷ 7 ∷ 8 ∷ 9 ∷ 10 ∷ []

write_data-Stores_example :
    (m' : Flat) × (write_data flat_kernel 4096 ten_bytes zeroed ≡ (pos 0, m'))
    × Stores at_address zeroed 4096 ten_bytes m'
write_data-Stores_example =
    write_data-Stores flat_kernel at_address 4096 ten_bytes zeroed flat-IsKernel
      (flat-Accessible 4096 10) (omega arith)

read_data-write_data_example :
    (m' : Flat) × (write_data flat_kernel 4096 ten_bytes zeroed ≡ (pos 0, m'))
    × (read_data flat_kernel 4096 10 m' ≡ (pos 0, ten_bytes))
read_data-write_data_example =
    read_data-write_data flat_kernel at_address 4096 ten_bytes zeroed flat-IsKernel
      (flat-Accessible 4096 10) (omega arith)

-- "/d" at address 4096
abbrev with_text : Flat
with_text = stored_at zeroed 4096 (b'/' ∷ b'd' ∷ [])

read_string_lem_example :
    (dest : Bytes) × (read_string flat_kernel 1024 4096 16 with_text ≡ (pos 3, dest))
    × (take 3 dest ≡ b'/' ∷ b'd' ∷ 0 ∷ [])
read_string_lem_example =
    read_string_lem flat_kernel at_address 1024 4096 16 (b'/' ∷ b'd' ∷ []) with_text flat-IsKernel
      (λ b p q. (bytes_at 8 with_text b, refl)) (omega arith) ((λ e. cc), ((λ e. cc), tt))
      (refl, (refl, (refl, tt))) (omega arith)

-- A word of 32 bits, in the midst of others.
poke_word-Stores_example :
    (m : Flat) × (poke_word flat_kernel true 4100 (1 ∷ 2 ∷ 3 ∷ 4 ∷ 0 ∷ 0 ∷ 0 ∷ 0 ∷ []) zeroed
      ≡ (true, m))
    × Stores at_address zeroed 4100 (1 ∷ 2 ∷ 3 ∷ 4 ∷ []) m
poke_word-Stores_example =
    poke_word-Stores flat_kernel at_address true 4100 (1 ∷ 2 ∷ 3 ∷ 4 ∷ 0 ∷ 0 ∷ 0 ∷ 0 ∷ []) zeroed
      flat-IsKernel (λ m a w e. cc) (flat-Accessible 4100 1) (refl, refl)
