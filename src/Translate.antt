-- ===== src/Translate.antt =====
-- core/proot/src/main/cpp/path: the translation between guest and host paths, which follows the
-- symbolic links of the guest with the bindings applied. Every glue_type is 0: no binding is being
-- initialized.
pub mod Results
pub mod SafePath
pub mod Proc
pub mod Detranslate
pub mod Stat
pub mod Link
pub mod Canon
pub mod Whole
use re_terminal.Prelude.{ℕ, Bool, Option}
use re_terminal.Prelude.Int.{ℤ}
use re_terminal.Path.{Bytes}
use re_terminal.Binding.{Bindings}

-- What readlink_proc reads of another tracee.
pub record Known : Type 0 where
  pub exe : Bytes
  pub cwd : Bytes
  pub root : Bytes

-- What lstat(2) says of a host path; `denied` is the error EACCES, `missing` any other.
pub data FileKind : Type 0 where
  missing denied directory symlink other_kind : FileKind

-- The tracee, and what the kernel and the extensions answer for it. `skips_access` is the answer of
-- path/f2fs-bug.c. `read_link` is readlink(2) with a buffer of PATH_MAX bytes. `host_event` and
-- `translated_event` are the extensions' handlers of HOST_PATH and TRANSLATED_PATH, with the path as
-- they leave it, and `guest_event` that of GUEST_PATH. `max_symlinks` is MAXSYMLINKS of the C library.
pub record Surroundings : Type 0 where
  pub bindings : Bindings
  pub max_symlinks : ℕ
  pub pid : ℤ
  pub cwd : Bytes
  pub known : ℤ → Option Known
  pub host_event : Bytes → Bool → ℤ × Bytes
  pub guest_event : Bytes → Bytes → ℤ × Bytes
  pub translated_event : Bytes → ℤ × Bytes
  pub skips_access : Bytes → Bool
  pub lstat : Bytes → FileKind
  pub read_link : Bytes → ℤ × Bytes

-- The end of a function that may fail: `failed` has the -errno, `asserts` is an assertion that
-- fails, and `out_of_fuel` is of the model only.
pub data Run {ℓ} (A : Type ℓ) : Type ℓ where
  done : A → Run A
  failed : ℤ → Run A
  asserts out_of_fuel : Run A
