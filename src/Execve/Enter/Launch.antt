-- ===== src/Execve/Enter/Launch.antt =====
-- What translate_execve_enter of core/proot/src/main/cpp/execve/enter.c has a tracee run.
use re_terminal.Prelude.{
  ◌≡◌, refl, subst, if◌then◌else◌, ◌⊎◌, inl, inr, Bool, true, false, Option, none, some,
}
use re_terminal.Prelude.Int.{is_negative}
use re_terminal.Path.{Bytes}
use re_terminal.Translate.{Run, done, failed, asserts, out_of_fuel}
use re_terminal.Translate.Results.{Results, Results-map, Results-if}
use re_terminal.Execve.Expand.{Program, expand_shebang}
use re_terminal.Execve.Elf.{ElfHeader}
use re_terminal.Execve.Load.{LoadInfo, extract_load_info, page_size_of, relocate}
use re_terminal.Execve.Enter.{
  World, Tracee, fresh, chosen, get_loader_path, with_loader, with_interp_addresses, with_addresses,
  with_interp, needing, with_info, with_exe, with_program, with_path, translate_execve_enter,
}
use re_terminal.Execve.Enter.Placement.{
  Placed, is_small, exec_base, interp_base, exec-Placed, interp-Placed,
}

-- The path of the loader is that of its variable, or else of the own loader.
abbrev pub IsLoader : World → Bool → Bytes → Type 0
IsLoader world small path =
    (world.loader_variable small ≡ some path)
    ⊎ ((world.loader_variable small ≡ none) × (world.own_loader small ≡ some path))

-- The load information of the interpreter that the program needs, which has none itself.
abbrev pub IsInterp : World → LoadInfo → Option (Bytes × Bytes) → Option LoadInfo → Type 0
IsInterp world loaded none o = o ≡ none
IsInterp world loaded (some (host_path, user_path)) o =
    (interp : LoadInfo) × (placed : LoadInfo) × (extract_load_info world.host
        (page_size_of world.page_size) (world.elf_file host_path) (fresh world host_path user_path)
      ≡ done interp)
    × Placed (interp_base world loaded.elf_header) (record interp { interp = none }) placed
    × (o ≡ some placed)

-- The loader runs in place of the program, with what it is to load.
pub record IsLaunched (world : World) (info : LoadInfo) (need : Option (Bytes × Bytes))
    (host_exe : Option Bytes) (tracee : Tracee) : Type 0 where
  pub loaded : LoadInfo
  pub placed : Placed (exec_base world info.elf_header) info loaded
  pub load_info : tracee.load_info ≡ some loaded
  pub loader : IsLoader world (is_small world loaded.elf_header) tracee.sysarg_1
  pub is_set : is_negative (world.set_sysarg_path tracee.sysarg_1) ≡ false
  pub hides : tracee.ignore_loader_syscalls ≡ true
  pub interp : IsInterp world loaded need tracee.interp
  pub exe : tracee.host_exe ≡ host_exe

-- The program that the path comes to, whose load information has been extracted.
pub record IsExecution (world : World) (user_path : Bytes) (tracee : Tracee) : Type 0 where
  pub program : Program
  pub expands : expand_shebang world.host user_path ≡ done program
  pub info : LoadInfo
  pub extracted :
      extract_load_info world.host
        (page_size_of world.page_size)
        (world.elf_file program.host_path)
        (fresh world program.host_path program.user_path)
      ≡ done info
  pub launched : IsLaunched world info info.interp (some program.host_path) tracee

get_loader_path-IsLoader :
    (world : World) (header : ElfHeader) (path : Bytes)
    → get_loader_path world header ≡ some path
    → IsLoader world (is_small world header) path
unfolding get_loader_path chosen
get_loader_path-IsLoader world header path e =
    let small = is_small world header in
    by_variable (world.loader_variable small) (world.own_loader small) refl e
  where
    by_variable :
        (v own : Option Bytes)
        → world.loader_variable (is_small world header) ≡ v
        → chosen v own ≡ some path
        → (v ≡ some path) ⊎ ((v ≡ none) × (own ≡ some path))
    by_variable none own f e = inr (refl, e)
    by_variable (some x) own f e = inl e

module _ (world : World) (info : LoadInfo) (need : Option (Bytes × Bytes))
    (host_exe : Option Bytes) where
  loader-IsLaunched :
      (loaded : LoadInfo) (tracee : Tracee) (path : Option Bytes)
      → Placed (exec_base world info.elf_header) info loaded
      → tracee.load_info ≡ some loaded
      → IsInterp world loaded need tracee.interp
      → tracee.host_exe ≡ host_exe
      → get_loader_path world loaded.elf_header ≡ path
      → Results (IsLaunched world info need host_exe) (with_loader world tracee path)
  unfolding with_loader
  loader-IsLaunched loaded tracee none p l s x e = tt
  loader-IsLaunched loaded tracee (some loader_path) p l s x e =
      Results-if (IsLaunched world info need host_exe)
        (is_negative (world.set_sysarg_path loader_path)) _ _ (λ t. tt)
        (λ f. record {
          loaded = loaded;
          placed = p;
          load_info = l;
          loader = get_loader_path-IsLoader world loaded.elf_header loader_path e;
          is_set = f;
          hides = refl;
          interp = s;
          exe = x;
        })

  -- What the load information of the interpreter is to satisfy before it is placed.
  abbrev Awaits : LoadInfo → Option LoadInfo → Type 0
  Awaits loaded none = IsInterp world loaded need none
  Awaits loaded (some interp) =
      (placed : LoadInfo)
      → Placed (interp_base world loaded.elf_header) interp placed
      → IsInterp world loaded need (some placed)

  interp-IsLaunched :
      (tracee : Tracee) (loaded : LoadInfo) (o : Option LoadInfo)
      → Placed (exec_base world info.elf_header) info loaded
      → ((placed : LoadInfo) → o ≡ some placed → IsInterp world loaded need (some placed))
      → tracee.host_exe ≡ host_exe
      → Results (IsLaunched world info need host_exe) (with_interp_addresses world tracee loaded o)
  unfolding with_interp_addresses
  interp-IsLaunched tracee loaded none p s x = tt
  interp-IsLaunched tracee loaded (some interp) p s x =
      loader-IsLaunched loaded (record tracee { load_info = some loaded; interp = some interp })
        (get_loader_path world loaded.elf_header) p refl (s interp refl) x refl

  addresses-IsLaunched :
      (tracee : Tracee) (interp : Option LoadInfo) (o : Option LoadInfo)
      → relocate world.addresses info.elf_header false info ≡ o
      → ((loaded : LoadInfo) → Awaits loaded interp)
      → tracee.host_exe ≡ host_exe
      → Results (IsLaunched world info need host_exe) (with_addresses world tracee interp o)
  unfolding with_addresses
  addresses-IsLaunched tracee interp none p s x = tt
  addresses-IsLaunched tracee none (some loaded) p s x =
      loader-IsLaunched loaded (record tracee { load_info = some loaded; interp = none })
        (get_loader_path world loaded.elf_header) (exec-Placed world info loaded p) refl (s loaded)
        x refl
  addresses-IsLaunched tracee (some interp) (some loaded) p s x =
      interp-IsLaunched tracee loaded (relocate world.addresses loaded.elf_header true interp)
        (exec-Placed world info loaded p)
        (λ i e. s loaded i (interp-Placed world loaded.elf_header interp i e)) x

module _ (world : World) (info : LoadInfo) (host_exe : Option Bytes) where
  with_interp-IsLaunched :
      (host_path user_path : Bytes) (tracee : Tracee) (r : Run LoadInfo)
      → tracee.host_exe ≡ host_exe
      → extract_load_info world.host
          (page_size_of world.page_size)
          (world.elf_file host_path)
          (fresh world host_path user_path)
        ≡ r
      → Results
          (IsLaunched world info (some (host_path, user_path)) host_exe)
          (with_interp world tracee info r)
  unfolding with_interp
  with_interp-IsLaunched host_path user_path tracee (done interp) x e =
      addresses-IsLaunched world info (some (host_path, user_path)) host_exe tracee
        (some (record interp { interp = none }))
        (relocate world.addresses info.elf_header false info) refl
        (λ loaded placed p. (interp, placed, e, p, refl)) x
  with_interp-IsLaunched host_path user_path tracee (failed status) x e = tt
  with_interp-IsLaunched host_path user_path tracee asserts x e = tt
  with_interp-IsLaunched host_path user_path tracee out_of_fuel x e = tt

  needing-IsLaunched :
      (tracee : Tracee) (need : Option (Bytes × Bytes))
      → tracee.host_exe ≡ host_exe
      → Results (IsLaunched world info need host_exe) (needing world tracee info need)
  unfolding needing
  needing-IsLaunched tracee none x =
      addresses-IsLaunched world info none host_exe tracee none
        (relocate world.addresses info.elf_header false info) refl (λ loaded. refl) x
  needing-IsLaunched tracee (some (host_path, user_path)) x =
      with_interp-IsLaunched host_path user_path tracee _ x refl

module _ (world : World) (user_path : Bytes) (p : Program)
    (expands : expand_shebang world.host user_path ≡ done p) where
  info-IsExecution :
      (tracee : Tracee) (r : Run LoadInfo)
      → tracee.host_exe ≡ some p.host_path
      → extract_load_info world.host
          (page_size_of world.page_size)
          (world.elf_file p.host_path)
          (fresh world p.host_path p.user_path)
        ≡ r
      → Results (IsExecution world user_path) (with_info world tracee r)
  unfolding with_info
  info-IsExecution tracee (done info) x e =
      Results-map (IsLaunched world info info.interp (some p.host_path))
        (IsExecution world user_path) (needing world tracee info info.interp)
        (λ t l. record { program = p; expands = expands; info = info; extracted = e; launched = l })
        (needing-IsLaunched world info (some p.host_path) tracee info.interp x)
  info-IsExecution tracee (failed status) x e = tt
  info-IsExecution tracee asserts x e = tt
  info-IsExecution tracee out_of_fuel x e = tt

  exe-IsExecution :
      (tracee : Tracee) (r : Run (Option Bytes))
      → Results (IsExecution world user_path) (with_exe world tracee user_path p r)
  unfolding with_exe
  exe-IsExecution tracee (done new_exe) =
      info-IsExecution
        (record tracee {
          host_exe = some p.host_path;
          new_exe = new_exe;
          raw_path = if p.has_shebang then user_path else p.user_path;
        })
        _ refl refl
  exe-IsExecution tracee (failed status) = tt
  exe-IsExecution tracee asserts = tt
  exe-IsExecution tracee out_of_fuel = tt

program-IsExecution :
    (world : World) (user_path : Bytes) (tracee : Tracee) (r : Run Program)
    → expand_shebang world.host user_path ≡ r
    → Results (IsExecution world user_path) (with_program world tracee user_path r)
unfolding with_program
program-IsExecution world user_path tracee (done p) e = exe-IsExecution world user_path p e tracee _
program-IsExecution world user_path tracee (failed status) e = tt
program-IsExecution world user_path tracee asserts e = tt
program-IsExecution world user_path tracee out_of_fuel e = tt

-- Where the path of an execve is read, the call does not tell that the loader is done, and
-- translate_execve_enter is done: the first argument is the path of the loader for the class of
-- the program, by its variable or else the own one, which was written without an error, system
-- calls of the loader are hidden, and the load information of the tracee is that of the host path
-- to which expand_shebang leads, which is the host_exe. A position independent file whose first
-- mapping is at 0 is moved to the load address of programs of its class, and others are not moved.
-- If the program names an interpreter, its load information, with no interpreter of its own, is
-- there and is placed in the same way, by the load address of interpreters, and else there is
-- none.
pub translate_execve_enter-IsExecution :
    (world : World) (user_path : Bytes) (tracee tracee' : Tracee)
    → world.is_load_done ≡ false
    → translate_execve_enter world (done user_path) tracee ≡ done tracee'
    → IsExecution world user_path tracee'
unfolding translate_execve_enter with_path
translate_execve_enter-IsExecution world user_path tracee tracee' n e =
    subst (Results (IsExecution world user_path)) e (
      simp n
        (program-IsExecution world user_path tracee (expand_shebang world.host user_path) refl))
