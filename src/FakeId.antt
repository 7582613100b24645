-- ===== src/FakeId.antt =====
-- The user and group ids that core/proot/src/main/cpp/extension/fake_id0/fake_id0.c shows to a
-- tracee, and the privilege that goes with them. An id is a natural number below 2 ^ 32; an argument
-- of a system call is a machine word.
pub mod Confined
pub mod Drop
use re_terminal.Prelude.{
  ℕ, ◌+◌, ◌%◌, ◌^◌, ◌-◌, Bool, true, false, not, ◌&&◌, ◌||◌, Option, none, some, List, [], ◌∷◌,
  ◌==◌, if◌then◌else◌,
}
use re_terminal.Prelude.Int.{ℤ, pos, is_negative, minus_eperm}

-- The four ids of a kind: ruid, euid, suid and fsuid, or rgid, egid, sgid and fsgid.
pub record Ids : Type 0 where
  pub real : ℕ
  pub effective : ℕ
  pub saved : ℕ
  pub fs : ℕ

pub record Config : Type 0 where
  pub uids : Ids
  pub gids : Ids
  pub umask : ℕ
  pub caps_active : Bool
  pub keep_caps : Bool

-- The argument `id` or `type` of the macros.
pub data Kind : Type 0 where
  uid gid : Kind

abbrev pub ids_of : Kind → Config → Ids
ids_of uid config = config.uids
ids_of gid config = config.gids

abbrev pub with_ids : Kind → Config → Ids → Config
with_ids uid config ids = record config { uids = ids }
with_ids gid config ids = record config { gids = ids }

-- The conversion of a word to uid_t or gid_t.
abbrev pub to_id : ℕ → ℕ
to_id word = word % 2 ^ 32

-- What the handler returns, what it puts into SYSARG_RESULT if it does, and the config.
pub record Answer : Type 0 where
  pub status : ℤ
  pub result : Option ℕ
  pub config : Config

abbrev pub refused : Config → Answer
refused config = record { status = minus_eperm; result = none; config = config }

abbrev pub granted : Config → Answer
granted config = record { status = pos 0; result = some 0; config = config }

-- prev_root
abbrev pub has_root : Config → Bool
has_root config = config.uids.real == 0 || config.uids.effective == 0 || config.uids.saved == 0

abbrev pub is_privileged : Config → Bool
is_privileged config = config.uids.effective == 0 || config.caps_active

-- MAYBE_DROP_CAPS
unfoldable pub maybe_drop_caps : Bool → Config → Config
maybe_drop_caps prev_root config =
    if prev_root
      && not config.keep_caps
      && not (config.uids.real == 0)
      && not (config.uids.effective == 0)
      && not (config.uids.saved == 0)
    then record config { caps_active = false }
    else config

-- UNSET_ID
abbrev pub unset_id : ℕ → Bool
unset_id id = id == 2 ^ 32 - 1

-- UNCHANGED_ID, with the id that the config has.
abbrev pub unchanged_id : ℕ → ℕ → Bool
unchanged_id id current = unset_id id || id == current

-- EQUALS_ANY_ID
abbrev pub equals_any_id : ℕ → Ids → Bool
equals_any_id id ids = id == ids.real || id == ids.effective || id == ids.saved

abbrev pub set_all : Bool → ℕ → Ids → Ids
set_all true id ids = record { real = id; effective = id; saved = id; fs = id }
set_all false id ids = record ids { effective = id; fs = id }

-- SETXID
unfoldable pub setxid : Kind → ℕ → Config → Answer
unfolding maybe_drop_caps
setxid kind word config =
    let ids = ids_of kind config in
    let id = to_id word in
    if not (is_privileged config || equals_any_id id ids)
    then refused config
    else granted (
        maybe_drop_caps (has_root config)
          (with_ids kind config (set_all (is_privileged config) id ids)))

-- The condition of SETREXID for a process without privilege.
abbrev pub allows_pair : ℕ → ℕ → Ids → Bool
allows_pair real effective ids =
    (unchanged_id effective ids.effective && unchanged_id real ids.real)
    || (real == ids.effective && (effective == ids.real || unchanged_id effective ids.effective))
    || (effective == ids.real && (real == ids.effective || unchanged_id real ids.real))
    || (effective == ids.saved && unchanged_id real ids.real)

-- The new ids of SETREXID, first by the effective id.
abbrev pub set_effective : ℕ → Ids → Ids
set_effective effective ids = if unset_id effective then ids else record {
  real = ids.real;
  effective = effective;
  saved = if effective == ids.real then ids.saved else effective;
  fs = effective;
}

abbrev pub set_real : ℕ → ℕ → Ids → Ids
set_real real effective ids =
    if unset_id real
    then ids
    else record ids { real = real; saved = if unset_id effective then ids.saved else effective }

-- SETREXID
unfoldable pub setrexid : Kind → ℕ → ℕ → Config → Answer
unfolding maybe_drop_caps
setrexid kind word1 word2 config =
    let ids = ids_of kind config in
    let real = to_id word1 in
    let effective = to_id word2 in
    if not (is_privileged config || allows_pair real effective ids)
    then refused config
    else granted (
        maybe_drop_caps (has_root config)
          (with_ids kind config (set_real real effective (set_effective effective ids))))

abbrev pub or_current : ℕ → ℕ → ℕ
or_current id current = if unset_id id then current else id

abbrev pub set_three : ℕ → ℕ → ℕ → Ids → Ids
set_three real effective saved ids = record {
  real = or_current real ids.real;
  effective = or_current effective ids.effective;
  saved = or_current saved ids.saved;
  fs = or_current effective ids.fs;
}

-- SETRESXID
unfoldable pub setresxid : Kind → ℕ → ℕ → ℕ → Config → Answer
unfolding maybe_drop_caps
setresxid kind word1 word2 word3 config =
    let ids = ids_of kind config in
    let real = to_id word1 in
    let effective = to_id word2 in
    let saved = to_id word3 in
    if not (
      is_privileged config
      || (unset_id real || equals_any_id real ids)
        && (unset_id effective || equals_any_id effective ids)
        && (unset_id saved || equals_any_id saved ids))
    then refused config
    else granted (
        maybe_drop_caps (has_root config)
          (with_ids kind config (set_three real effective saved ids)))

-- SETFSXID
unfoldable pub setfsxid : Kind → ℕ → Config → Answer
setfsxid kind word config =
    let ids = ids_of kind config in
    let fs = to_id word in
    record {
      status = pos 0;
      result = some ids.fs;
      config =
          if is_privileged config || fs == ids.fs || equals_any_id fs ids
          then with_ids kind config (record ids { fs = fs })
          else config;
    }

-- prctl(2) behind the kernel, which has answered `result` as an int; pr_set_keepcaps tells whether
-- the operation is PR_SET_KEEPCAPS.
unfoldable pub prctl : ℕ → Bool → ℕ → Config → Answer
prctl result pr_set_keepcaps arg config = record {
  status = pos 0;
  result = none;
  config =
      if result % 2 ^ 32 == 0 && pr_set_keepcaps
      then record config { keep_caps = not (arg == 0) }
      else config;
}

-- The writes of POKE_MEM_ID, where `poke k` is the -errno of the k-th or 0: the status, and the
-- values that are written.
poke_ids : (ℕ → ℤ) → ℕ → List ℕ → ℤ × List ℕ
poke_ids poke k [] = (pos 0, [])
poke_ids poke k (id ∷ ids) =
    let (status, written) = poke_ids poke (k + 1) ids in
    if is_negative (poke k) then (poke k, []) else (status, id % 2 ^ 16 ∷ written)

-- handle_getresuid_exit_end and handle_getresgid_exit_end
unfoldable pub getresxid : Kind → (ℕ → ℤ) → Config → ℤ × List ℕ
unfolding poke_ids
getresxid kind poke config =
    let ids = ids_of kind config in poke_ids poke 1 (ids.real ∷ ids.effective ∷ ids.saved ∷ [])

-- The end of a successful execve(2), in handle_sysexit_start: whether stat succeeds, and the bits
-- S_ISUID and S_ISGID of the file.
unfoldable pub exec : Bool → Bool → Bool → Config → Config
exec false is_suid is_sgid config = record config { keep_caps = false }
exec true is_suid is_sgid config = record {
  uids = if is_suid then record config.uids { effective = 0; saved = 0 } else config.uids;
  gids = if is_sgid then record config.gids { effective = 0; saved = 0 } else config.gids;
  umask = config.umask;
  caps_active = is_suid || config.caps_active;
  keep_caps = false;
}

-- INITIALIZATION, with the ids that are read from the option, or of PRoot itself.
unfoldable pub initial : ℕ → ℕ → Config
initial user group = record {
  uids = record { real = user; effective = user; saved = user; fs = user };
  gids = record { real = group; effective = group; saved = group; fs = group };
  umask = 18;
  caps_active = user == 0;
  keep_caps = false;
}

-- The system calls that change ids or privilege, at handle_sysexit_end, with their arguments, and
-- execve(2), at handle_sysexit_start.
pub data IdCall : Type 0 where
  set_id : Kind → ℕ → IdCall
  set_re_id : Kind → ℕ → ℕ → IdCall
  set_res_id : Kind → ℕ → ℕ → ℕ → IdCall
  set_fs_id : Kind → ℕ → IdCall
  set_keepcaps : ℕ → Bool → ℕ → IdCall
  execute : Bool → Bool → Bool → IdCall

unfoldable pub handle : IdCall → Config → Answer
unfolding setxid setrexid setresxid setfsxid prctl exec
handle (set_id kind word) config = setxid kind word config
handle (set_re_id kind word1 word2) config = setrexid kind word1 word2 config
handle (set_res_id kind word1 word2 word3) config = setresxid kind word1 word2 word3 config
handle (set_fs_id kind word) config = setfsxid kind word config
handle (set_keepcaps result operation arg) config = prctl result operation arg config
handle (execute has_stat is_suid is_sgid) config = record {
  status = pos 0;
  result = none;
  config = exec has_stat is_suid is_sgid config;
}

-- A sequence of such calls.
unfoldable pub after : List IdCall → Config → Config
unfolding handle
after [] config = config
after (call ∷ calls) config = after calls (handle call config).config
