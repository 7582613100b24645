-- ===== src/Execve/Enter.antt =====
-- translate_execve_enter of core/proot/src/main/cpp/execve/enter.c: what a tracee runs in place of
-- the program that it names. Without QEMU; memory does not run out.
pub mod Placement
pub mod Launch
use re_terminal.Prelude.{
  ℕ, Bool, true, false, Option, none, some, List, [], ◌∷◌, ◌&&◌, if◌then◌else◌,
}
use re_terminal.Prelude.Int.{ℤ, is_negative, eqb_ℤ, minus_eisdir, minus_eacces, minus_enoent}
use re_terminal.Path.{Bytes}
use re_terminal.Translate.{Run, done, failed, asserts, out_of_fuel}
use re_terminal.Translate.Detranslate.{detranslate_path}
use re_terminal.Execve.Expand.{Host, Program, expand_shebang}
use re_terminal.Execve.Elf.{ElfHeader, ElfFile, is_class32}
use re_terminal.Execve.Load.{LoadInfo, PicAddresses, extract_load_info, relocate, page_size_of}

-- What the environment gives: whether this execve tells that the loader is done, getenv(3) of the
-- loader by whether it is that of 32 bits, and the loader that stands where no variable is set. The
-- path is written to the first argument by set_sysarg_path.
pub record World : Type 0 where
  pub host : Host
  pub addresses : PicAddresses
  pub page_size : ℕ
  pub elf_file : Bytes → ElfFile
  pub no_header : ElfHeader
  pub is_load_done : Bool
  pub loader_variable : Bool → Option Bytes
  pub own_loader : Bool → Option Bytes
  pub set_sysarg_path : Bytes → ℤ

-- The fields of a tracee that it writes; `is_void` is a call whose number is PR_void.
pub record Tracee : Type 0 where
  pub is_void : Bool
  pub ignore_loader_syscalls : Bool
  pub host_exe : Option Bytes
  pub new_exe : Option Bytes
  pub load_info : Option LoadInfo
  pub interp : Option LoadInfo
  pub raw_path : Bytes
  pub sysarg_1 : Bytes

-- Of a LoadInfo that is zeroed.
unfoldable pub fresh : World → Bytes → Bytes → LoadInfo
fresh world host_path user_path = record {
  host_path = host_path;
  user_path = user_path;
  mappings = [];
  elf_header = world.no_header;
  needs_executable_stack = false;
  interp = none;
}

unfoldable pub chosen : Option Bytes → Option Bytes → Option Bytes
chosen (some path) own = some path
chosen none own = own

unfoldable pub get_loader_path : World → ElfHeader → Option Bytes
unfolding chosen
get_loader_path world header =
    let small = world.addresses.has_loader_32bit && is_class32 header in
    chosen (world.loader_variable small) (world.own_loader small)

-- Behind the choice of the loader.
unfoldable pub with_loader : World → Tracee → Option Bytes → Run Tracee
with_loader world tracee none = failed minus_enoent
with_loader world tracee (some loader_path) =
    let status = world.set_sysarg_path loader_path in
    if is_negative status
    then failed status
    else done (record tracee { sysarg_1 = loader_path; ignore_loader_syscalls = true })

-- compute_load_addresses for the program and its interpreter; `asserts` is the read of mappings[0]
-- where there is none.
unfoldable pub with_interp_addresses : World → Tracee → LoadInfo → Option LoadInfo → Run Tracee
unfolding with_loader get_loader_path
with_interp_addresses world tracee info none = asserts
with_interp_addresses world tracee info (some interp) =
    with_loader world (record tracee { load_info = some info; interp = some interp })
      (get_loader_path world info.elf_header)

unfoldable pub with_addresses : World → Tracee → Option LoadInfo → Option LoadInfo → Run Tracee
unfolding with_interp_addresses relocate with_loader get_loader_path
with_addresses world tracee interp none = asserts
with_addresses world tracee none (some info) =
    with_loader world (record tracee { load_info = some info; interp = none })
      (get_loader_path world info.elf_header)
with_addresses world tracee (some interp) (some info) =
    with_interp_addresses world tracee info (relocate world.addresses info.elf_header true interp)

-- The interpreter of the interpreter is dropped.
unfoldable pub with_interp : World → Tracee → LoadInfo → Run LoadInfo → Run Tracee
unfolding with_addresses relocate
with_interp world tracee info (done interp) =
    with_addresses world tracee (some (record interp { interp = none }))
      (relocate world.addresses info.elf_header false info)
with_interp world tracee info (failed status) = failed status
with_interp world tracee info asserts = asserts
with_interp world tracee info out_of_fuel = out_of_fuel

unfoldable pub needing : World → Tracee → LoadInfo → Option (Bytes × Bytes) → Run Tracee
unfolding with_interp with_addresses relocate extract_load_info fresh page_size_of
needing world tracee info none =
    with_addresses world tracee none (relocate world.addresses info.elf_header false info)
needing world tracee info (some (host_path, user_path)) = with_interp world tracee info (
    extract_load_info world.host (page_size_of world.page_size) (world.elf_file host_path)
      (fresh world host_path user_path))

unfoldable pub with_info : World → Tracee → Run LoadInfo → Run Tracee
unfolding needing
with_info world tracee (done info) = needing world tracee info info.interp
with_info world tracee (failed status) = failed status
with_info world tracee asserts = asserts
with_info world tracee out_of_fuel = out_of_fuel

-- A path that cannot be detranslated leaves no new_exe.
exe_of : Run (ℕ × Bytes) → Run (Option Bytes)
exe_of (done (size, path)) = done (some path)
exe_of (failed status) = done none
exe_of asserts = asserts
exe_of out_of_fuel = out_of_fuel

unfoldable pub with_exe : World → Tracee → Bytes → Program → Run (Option Bytes) → Run Tracee
unfolding with_info extract_load_info fresh page_size_of
with_exe world tracee user_path p (done new_exe) =
    with_info world
      (record tracee {
        host_exe = some p.host_path;
        new_exe = new_exe;
        raw_path = if p.has_shebang then user_path else p.user_path;
      })
      (extract_load_info world.host (page_size_of world.page_size) (world.elf_file p.host_path)
        (fresh world p.host_path p.user_path))
with_exe world tracee user_path p (failed status) = failed status
with_exe world tracee user_path p asserts = asserts
with_exe world tracee user_path p out_of_fuel = out_of_fuel

unfoldable pub with_program : World → Tracee → Bytes → Run Program → Run Tracee
unfolding with_exe exe_of detranslate_path
with_program world tracee user_path (done p) =
    with_exe world tracee user_path p (exe_of (detranslate_path world.host.env none p.host_path))
with_program world tracee user_path (failed status) =
    failed (if eqb_ℤ status minus_eisdir then minus_eacces else status)
with_program world tracee user_path asserts = asserts
with_program world tracee user_path out_of_fuel = out_of_fuel

unfoldable pub with_path : World → Tracee → Run Bytes → Run Tracee
unfolding with_program expand_shebang
with_path world tracee (done user_path) =
    with_program world tracee user_path (expand_shebang world.host user_path)
with_path world tracee (failed status) = failed status
with_path world tracee asserts = asserts
with_path world tracee out_of_fuel = out_of_fuel

-- By the path that get_sysarg_path gives; what a call that fails leaves in the tracee is not given.
unfoldable pub translate_execve_enter : World → Run Bytes → Tracee → Run Tracee
unfolding with_path
translate_execve_enter world sysarg_path tracee =
    if world.is_load_done
    then done (record tracee { ignore_loader_syscalls = false; is_void = true })
    else with_path world tracee sysarg_path
