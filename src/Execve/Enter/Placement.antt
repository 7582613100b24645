-- ===== src/Execve/Enter/Placement.antt =====
-- The load addresses by compute_load_addresses of core/proot/src/main/cpp/execve/enter.c.
use re_terminal.Prelude.{
  ℕ, ◌+◌, ◌%◌, ◌^◌, map, ◌≢◌, arith, ◌≡◌, refl, ap, sym, subst, if◌then◌else◌, ◌⊎◌, inl, inr, Bool,
  true, false, ◌&&◌, Option, none, some, List, [], ◌∷◌, ◌==◌, if_each,
}
use re_terminal.Execve.Elf.{ElfHeader, is_class32}
use re_terminal.Execve.Load.{Mapping, LoadInfo, add_load_base, at_base, relocate}
use re_terminal.Execve.Enter.{World}

-- The first mapping of a file is at address 0.
abbrev pub StartsAtZero : List Mapping → Type 0
StartsAtZero [] = ⊥
StartsAtZero (mapping ∷ rest) = mapping.addr ≡ 0

-- With the addresses of its mappings and its entry point moved.
abbrev pub moved_by : ℕ → LoadInfo → LoadInfo
moved_by base info = record info {
  mappings = map (λ (m : Mapping). record m { addr = (m.addr + base) % 2 ^ 64 }) info.mappings;
  elf_header = record info.elf_header {
    entry =
        if is_class32 info.elf_header
        then (info.elf_header.entry + base) % 2 ^ 32
        else (info.elf_header.entry + base) % 2 ^ 64;
  };
}

-- A position independent file (ET_DYN) that starts at 0 is moved to its load address; others are not.
pub record Placed (base : ℕ) (info loaded : LoadInfo) : Type 0 where
  pub moved : info.elf_header.etype ≡ 3 → StartsAtZero info.mappings → loaded ≡ moved_by base info
  pub kept : (info.elf_header.etype ≢ 3) ⊎ (¬ StartsAtZero info.mappings) → loaded ≡ info

-- The loader, and the load addresses, are those of 32 bits by the header of the program.
abbrev pub is_small : World → ElfHeader → Bool
is_small world header = world.addresses.has_loader_32bit && is_class32 header

abbrev pub exec_base : World → ElfHeader → ℕ
exec_base world header =
    if is_small world header then world.addresses.exec_32 else world.addresses.exec

abbrev pub interp_base : World → ElfHeader → ℕ
interp_base world header =
    if is_small world header then world.addresses.interp_32 else world.addresses.interp

pub some_injective : (a b : LoadInfo) → ◌≡◌ {A = Option LoadInfo} (some a) (some b) → a ≡ b
some_injective a b e = ap (value a) e
  where
    value : LoadInfo → Option LoadInfo → LoadInfo
    value d none = d
    value d (some x) = x

pub none≢some : {a : LoadInfo} → ◌≡◌ {A = Option LoadInfo} none (some a) → ⊥
none≢some e = subst (λ (o : Option LoadInfo). elim o [ none ↦ Unit | some a ↦ ⊥ ]) e tt

at_base-Placed :
    (base : ℕ) (info : LoadInfo) (mappings : List Mapping) (loaded : LoadInfo)
    → info.mappings ≡ mappings
    → at_base info.elf_header base info mappings ≡ some loaded
    → Placed base info loaded
unfolding at_base add_load_base
at_base-Placed base info [] loaded m e =
    if_each (λ o. o ≡ some loaded → Placed base info loaded) (info.elf_header.etype == 3) none
      (some info) (λ t n. absurd (none≢some n))
      (λ f s. record {
        moved = λ t z. absurd (subst StartsAtZero m z);
        kept = λ k. sym (some_injective info loaded s);
      })
      e
at_base-Placed base info (mapping ∷ rest) loaded m e =
    if_each (λ o. o ≡ some loaded → Placed base info loaded)
      (info.elf_header.etype == 3 && mapping.addr == 0) (some (add_load_base base info)) (some info)
      (λ t s. record {
        moved = λ x z. sym (some_injective (add_load_base base info) loaded s);
        kept = λ k. absurd (stays t (by_mappings k));
      })
      (λ f s. record {
        moved = λ x z. absurd (moves f x (subst StartsAtZero m z));
        kept = λ k. sym (some_injective info loaded s);
      })
      e
  where
    by_mappings :
        (info.elf_header.etype ≢ 3) ⊎ (¬ StartsAtZero info.mappings)
        → (info.elf_header.etype ≢ 3) ⊎ (mapping.addr ≢ 0)
    by_mappings (inl n) = inl n
    by_mappings (inr n) = inr (λ z. n (subst StartsAtZero (sym m) z))

    stays :
        (info.elf_header.etype == 3 && mapping.addr == 0) ≡ true
        → (info.elf_header.etype ≢ 3) ⊎ (mapping.addr ≢ 0)
        → ⊥
    stays t k = ground (arith, t, k)

    moves :
        (info.elf_header.etype == 3 && mapping.addr == 0) ≡ false
        → info.elf_header.etype ≡ 3
        → mapping.addr ≡ 0
        → ⊥
    moves f x z = ground (arith, f, x, z)

pub exec-Placed :
    (world : World) (info loaded : LoadInfo)
    → relocate world.addresses info.elf_header false info ≡ some loaded
    → Placed (exec_base world info.elf_header) info loaded
unfolding relocate
exec-Placed world info loaded e =
    at_base-Placed (exec_base world info.elf_header) info info.mappings loaded refl e

pub interp-Placed :
    (world : World) (header : ElfHeader) (info loaded : LoadInfo)
    → relocate world.addresses header true info ≡ some loaded
    → Placed (interp_base world header) info loaded
unfolding relocate
interp-Placed world header info loaded e =
    at_base-Placed (interp_base world header) info info.mappings loaded refl e
