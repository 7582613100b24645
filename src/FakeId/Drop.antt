-- ===== src/FakeId/Drop.antt =====
-- The setters of core/proot/src/main/cpp/extension/fake_id0/fake_id0.c in a process with privilege.
use re_terminal.Prelude.{
  All, ℕ, ◌<◌, ◌%◌, ◌^◌, ◌≡◌, ◌≢◌, refl, sym, ◌∙◌, subst, Bool, true, false, List, [], ◌∷◌, ◌==◌,
  arith, if_both,
}
use re_terminal.Prelude.Int.{pos}
use re_terminal.FakeId.{
  Ids, Config, Kind, uid, gid, ids_of, with_ids, to_id, has_root, is_privileged, maybe_drop_caps,
  set_all, setxid, or_current, set_three, setresxid, getresxid, IdCall, after,
}
use re_terminal.FakeId.Confined.{Within, IsConfined, IsPlain, after-IsConfined}

-- The user ids are all `id`, and the group ids any.
abbrev pub Only : ℕ → Kind → ℕ → Type 0
Only id uid n = n ≡ id
Only id gid n = Unit

every-Within : (ids : Ids) → Within (λ (n : ℕ). Unit {0}) ids
every-Within ids = record { real = tt; effective = tt; saved = tt; fs = tt }

not_root : (id n : ℕ) → id ≢ 0 → n ≡ id → (n == 0) ≡ false
not_root id n h e = ground arith

-- The ids stay when the privilege is dropped.
ids_of-dropped :
    (kind : Kind) (b : Bool) (config : Config)
    → ids_of kind (maybe_drop_caps b config) ≡ ids_of kind config
unfolding maybe_drop_caps
ids_of-dropped uid b config = if_both (λ c. c.uids ≡ config.uids) _ _ config refl refl
ids_of-dropped gid b config = if_both (λ c. c.gids ≡ config.gids) _ _ config refl refl

dropped :
    (id : ℕ) (config : Config)
    → config.keep_caps ≡ false
    → id ≢ 0
    → Within (λ n. n ≡ id) config.uids
    → (maybe_drop_caps true config).caps_active ≡ false
unfolding maybe_drop_caps
dropped id config k n w =
    rw
      (
        k,
        not_root id config.uids.real n w.real,
        not_root id config.uids.effective n w.effective,
        not_root id config.uids.saved n w.saved,
      )
      refl

root_is_privileged : (config : Config) → config.uids.effective ≡ 0 → is_privileged config ≡ true
root_is_privileged config r = ground arith

root_has_root : (config : Config) → config.uids.effective ≡ 0 → has_root config ≡ true
root_has_root config r = ground arith

setuid-Only :
    (word : ℕ) (config : Config)
    → config.uids.effective ≡ 0
    → config.keep_caps ≡ false
    → to_id word ≢ 0
    → IsConfined (Only (to_id word)) (setxid uid word config).config
unfolding setxid
setuid-Only word config r k n =
    let id = to_id word in
    let new = with_ids uid config (set_all true id config.uids) in
    let w : Within (λ n. n ≡ id) new.uids = record {
      real = refl;
      effective = refl;
      saved = refl;
      fs = refl;
    } in
    rw (root_is_privileged config r, root_has_root config r)
      (record {
        no_caps = dropped id new k n w;
        uids = subst (Within (λ n. n ≡ id)) (sym (ids_of-dropped uid true new)) w;
        gids = every-Within (maybe_drop_caps true new).gids;
      })

-- Where the effective user id is root and keep_caps is off, after a setuid to another user and any
-- sequence of setters of ids, prctl, and execve of files without S_ISUID and S_ISGID behind it,
-- every user id is that of the other user, and the process has no capability.
pub after-setuid :
    (calls : List IdCall) (word : ℕ) (config : Config)
    → All IsPlain calls
    → config.uids.effective ≡ 0
    → config.keep_caps ≡ false
    → to_id word ≢ 0
    → IsConfined (Only (to_id word)) (after calls (setxid uid word config).config)
after-setuid calls word config ps r k n =
    after-IsConfined (Only (to_id word)) (λ m e z. n (sym e ∙ z)) calls
      (setxid uid word config).config ps (setuid-Only word config r k n)

ids_of-with_ids :
    (kind : Kind) (config : Config) (ids : Ids) → ids_of kind (with_ids kind config ids) ≡ ids
ids_of-with_ids uid config ids = refl
ids_of-with_ids gid config ids = refl

setresxid_ids :
    (kind : Kind) (real effective saved : ℕ) (config : Config)
    → is_privileged config ≡ true
    → ids_of kind (setresxid kind real effective saved config).config
      ≡ set_three (to_id real) (to_id effective) (to_id saved) (ids_of kind config)
unfolding setresxid
setresxid_ids kind real effective saved config p =
    let new = set_three (to_id real) (to_id effective) (to_id saved) (ids_of kind config) in
    rw p (
      ids_of-dropped kind (has_root config) (with_ids kind config new)
      ∙ ids_of-with_ids kind config new)

read_back : (id current : ℕ) → id < 2 ^ 16 → or_current (to_id id) current % 2 ^ 16 ≡ id
read_back id current h = ground arith

-- In a privileged process and for three ids below 2 ^ 16, the getter, whose writes succeed, reads
-- back the three ids that setresuid, or setresgid, has set.
pub getresxid-setresxid :
    (kind : Kind) (real effective saved : ℕ) (config : Config)
    → is_privileged config ≡ true
    → real < 2 ^ 16
    → effective < 2 ^ 16
    → saved < 2 ^ 16
    → getresxid kind (λ (k : ℕ). pos 0) (setresxid kind real effective saved config).config
      ≡ (pos 0, real ∷ effective ∷ saved ∷ [])
unfolding getresxid
getresxid-setresxid kind real effective saved config p r e s =
    let ids = ids_of kind config in
    rw
      (
        setresxid_ids kind real effective saved config p,
        read_back real ids.real r,
        read_back effective ids.effective e,
        read_back saved ids.saved s,
      )
      refl
