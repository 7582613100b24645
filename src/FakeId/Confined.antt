-- ===== src/FakeId/Confined.antt =====
-- A process without privilege, in core/proot/src/main/cpp/extension/fake_id0/fake_id0.c: no sequence
-- of system calls gives it an id that it did not have.
use re_terminal.Prelude.{
  ℕ, ◌≡◌, ◌≢◌, ◌⊎◌, inl, inr, refl, sym, subst, Bool, true, false, not, ◌&&◌, ◌||◌, List, [], ◌∷◌,
  ◌==◌, ==_iff, Bool-cases, if◌then◌else◌, arith, if_each, if_both, All,
}
use re_terminal.FakeId.{
  Ids, Config, Kind, uid, gid, ids_of, with_ids, to_id, has_root, is_privileged, maybe_drop_caps,
  unset_id, equals_any_id, setxid, allows_pair, set_effective, set_real, setrexid, or_current,
  setresxid, setfsxid, prctl, IdCall, set_id, set_re_id, set_res_id, set_fs_id, set_keepcaps,
  execute, exec, handle, after, refused, granted,
}

-- Every id of a kind is one of P.
pub record Within {ℓ} (P : ℕ → Type ℓ) (ids : Ids) : Type ℓ where
  pub real : P ids.real
  pub effective : P ids.effective
  pub saved : P ids.saved
  pub fs : P ids.fs

-- No privilege is active, and the ids of each kind are of `Owns`.
pub record IsConfined {ℓ} (Owns : Kind → ℕ → Type ℓ) (config : Config) : Type ℓ where
  pub no_caps : config.caps_active ≡ false
  pub uids : Within (Owns uid) config.uids
  pub gids : Within (Owns gid) config.gids

-- A call that is not an execve(2) of a file with S_ISUID or S_ISGID.
abbrev pub IsPlain : IdCall → Type 0
IsPlain (execute has_stat is_suid is_sgid) = (is_suid ≡ false) × (is_sgid ≡ false)
IsPlain _ = Unit {0}

and_first : (a b : Bool) → (a && b) ≡ true → a ≡ true
and_first a b e = ground arith

and_second : (a b : Bool) → (a && b) ≡ true → b ≡ true
and_second a b e = ground arith

any_cases :
    (id : ℕ) (ids : Ids)
    → equals_any_id id ids ≡ true
    → (id ≡ ids.real) ⊎ ((id ≡ ids.effective) ⊎ (id ≡ ids.saved))
any_cases id ids e = ground arith

pair_real_cases :
    (real effective : ℕ) (ids : Ids)
    → allows_pair real effective ids ≡ true
    → unset_id real ≡ false
    → (real ≡ ids.real) ⊎ (real ≡ ids.effective)
pair_real_cases real effective ids e u = ground arith

pair_effective_cases :
    (real effective : ℕ) (ids : Ids)
    → allows_pair real effective ids ≡ true
    → unset_id effective ≡ false
    → (effective ≡ ids.real) ⊎ ((effective ≡ ids.effective) ⊎ (effective ≡ ids.saved))
pair_effective_cases real effective ids e u = ground arith

no_privilege :
    (config : Config)
    → config.caps_active ≡ false
    → config.uids.effective ≢ 0
    → is_privileged config ≡ false
no_privilege config c e = ground arith

module _ {ℓ} (P : ℕ → Type ℓ) where
  two_of : (id a b : ℕ) → P a → P b → (id ≡ a) ⊎ (id ≡ b) → P id
  two_of id a b p q (inl e) = subst P (sym e) p
  two_of id a b p q (inr e) = subst P (sym e) q

  three_of : (id a b c : ℕ) → P a → P b → P c → (id ≡ a) ⊎ ((id ≡ b) ⊎ (id ≡ c)) → P id
  three_of id a b c p q r (inl e) = subst P (sym e) p
  three_of id a b c p q r (inr e) = two_of id b c q r e

  any_lem : (id : ℕ) (ids : Ids) → Within P ids → equals_any_id id ids ≡ true → P id
  any_lem id ids w e =
      three_of id ids.real ids.effective ids.saved w.real w.effective w.saved (any_cases id ids e)

  fs_lem :
      (id : ℕ) (ids : Ids) → Within P ids → (id == ids.fs || equals_any_id id ids) ≡ true → P id
  fs_lem id ids w e = elim (Bool-cases (id == ids.fs)) [
    | inl t ↦ subst P (sym ((==_iff id ids.fs).0 t)) w.fs
    | inr f ↦ any_lem id ids w (ground arith)
  ]

  or_current_lem :
      (id current : ℕ) (ids : Ids)
      → Within P ids
      → P current
      → (unset_id id || equals_any_id id ids) ≡ true
      → P (or_current id current)
  or_current_lem id current ids w p e =
      if_each P (unset_id id) current id (λ u. p) (λ u. any_lem id ids w (ground arith))

  set_effective_lem :
      (real effective : ℕ) (ids : Ids)
      → Within P ids
      → allows_pair real effective ids ≡ true
      → Within P (set_effective effective ids)
  set_effective_lem real effective ids w e =
      if_each (Within P) (unset_id effective) ids _ (λ u. w)
        (λ u.
          let p =
            three_of effective ids.real ids.effective ids.saved w.real w.effective w.saved
              (pair_effective_cases real effective ids e u) in
          record {
            real = w.real;
            effective = p;
            saved = if_each P (effective == ids.real) ids.saved effective (λ t. w.saved) (λ t. p);
            fs = p;
          })

  set_real_lem :
      (real effective : ℕ) (ids : Ids)
      → Within P ids
      → allows_pair real effective ids ≡ true
      → Within P (set_real real effective (set_effective effective ids))
  set_real_lem real effective ids w e =
      let before = set_effective effective ids in
      let b = set_effective_lem real effective ids w e in
      if_each (Within P) (unset_id real) before _ (λ u. b)
        (λ u. record {
          real =
              two_of real ids.real ids.effective w.real w.effective
                (pair_real_cases real effective ids e u);
          effective = b.effective;
          saved =
              if_each P (unset_id effective) before.saved effective (λ t. b.saved)
                (λ t.
                  three_of effective ids.real ids.effective ids.saved w.real w.effective w.saved
                    (pair_effective_cases real effective ids e t));
          fs = b.fs;
        })

module _ {ℓ} (Owns : Kind → ℕ → Type ℓ) where
  ids_of-Within :
      (kind : Kind) (config : Config)
      → IsConfined Owns config
      → Within (Owns kind) (ids_of kind config)
  ids_of-Within uid config c = c.uids
  ids_of-Within gid config c = c.gids

  with_ids-IsConfined :
      (kind : Kind) (config : Config) (ids : Ids)
      → IsConfined Owns config
      → Within (Owns kind) ids
      → IsConfined Owns (with_ids kind config ids)
  with_ids-IsConfined uid config ids c w = record { no_caps = c.no_caps; uids = w; gids = c.gids }
  with_ids-IsConfined gid config ids c w = record { no_caps = c.no_caps; uids = c.uids; gids = w }

  dropped-IsConfined :
      (b : Bool) (config : Config)
      → IsConfined Owns config
      → IsConfined Owns (maybe_drop_caps b config)
  unfolding maybe_drop_caps
  dropped-IsConfined b config c =
      if_both (IsConfined Owns) _ (record config { caps_active = false }) config
        (record { no_caps = refl; uids = c.uids; gids = c.gids }) c

  updated-IsConfined :
      (kind : Kind) (b : Bool) (config : Config) (ids : Ids)
      → IsConfined Owns config
      → Within (Owns kind) ids
      → IsConfined Owns (maybe_drop_caps b (with_ids kind config ids))
  updated-IsConfined kind b config ids c w =
      dropped-IsConfined b (with_ids kind config ids) (with_ids-IsConfined kind config ids c w)

  -- The guard of a setter, without privilege.
  guarded-IsConfined :
      (allowed : Bool) (config new : Config)
      → IsConfined Owns config
      → (allowed ≡ true → IsConfined Owns new)
      → IsConfined Owns (if not allowed then refused config else granted new).config
  guarded-IsConfined true config new c n = n refl
  guarded-IsConfined false config new c n = c

  -- Root is owned by nobody.
  module _ (no_root : (n : ℕ) → Owns uid n → n ≢ 0) where
    unprivileged : (config : Config) → IsConfined Owns config → is_privileged config ≡ false
    unprivileged config c =
        no_privilege config c.no_caps (no_root config.uids.effective c.uids.effective)

    setxid-IsConfined :
        (kind : Kind) (word : ℕ) (config : Config)
        → IsConfined Owns config
        → IsConfined Owns (setxid kind word config).config
    unfolding setxid
    setxid-IsConfined kind word config c =
        let ids = ids_of kind config in
        let w = ids_of-Within kind config c in
        rw (unprivileged config c) (
          guarded-IsConfined (equals_any_id (to_id word) ids) config _ c (λ e.
            let p = any_lem (Owns kind) (to_id word) ids w e in
            updated-IsConfined kind (has_root config) config _ c
              (record { real = w.real; effective = p; saved = w.saved; fs = p })))

    setrexid-IsConfined :
        (kind : Kind) (word1 word2 : ℕ) (config : Config)
        → IsConfined Owns config
        → IsConfined Owns (setrexid kind word1 word2 config).config
    unfolding setrexid
    setrexid-IsConfined kind word1 word2 config c =
        let ids = ids_of kind config in
        let real = to_id word1 in
        let effective = to_id word2 in
        rw (unprivileged config c) (
          guarded-IsConfined (allows_pair real effective ids) config _ c (λ e.
            updated-IsConfined kind (has_root config) config _ c
              (set_real_lem (Owns kind) real effective ids (ids_of-Within kind config c) e)))

    setresxid-IsConfined :
        (kind : Kind) (word1 word2 word3 : ℕ) (config : Config)
        → IsConfined Owns config
        → IsConfined Owns (setresxid kind word1 word2 word3 config).config
    unfolding setresxid
    setresxid-IsConfined kind word1 word2 word3 config c =
        let ids = ids_of kind config in
        let w = ids_of-Within kind config c in
        let real = to_id word1 in
        let effective = to_id word2 in
        let saved = to_id word3 in
        rw (unprivileged config c) (
          guarded-IsConfined
            ((unset_id real || equals_any_id real ids)
              && (unset_id effective || equals_any_id effective ids)
              && (unset_id saved || equals_any_id saved ids))
            config _ c
            (λ e. updated-IsConfined kind (has_root config) config _ c (record {
              real =
                  or_current_lem (Owns kind) real ids.real ids w w.real
                    (and_first _ _ (and_first _ _ e));
              effective =
                  or_current_lem (Owns kind) effective ids.effective ids w w.effective
                    (and_second _ _ (and_first _ _ e));
              saved = or_current_lem (Owns kind) saved ids.saved ids w w.saved (and_second _ _ e);
              fs =
                  or_current_lem (Owns kind) effective ids.fs ids w w.fs
                    (and_second _ _ (and_first _ _ e));
            })))

    setfsxid-IsConfined :
        (kind : Kind) (word : ℕ) (config : Config)
        → IsConfined Owns config
        → IsConfined Owns (setfsxid kind word config).config
    unfolding setfsxid
    setfsxid-IsConfined kind word config c =
        let ids = ids_of kind config in
        let w = ids_of-Within kind config c in
        let fs = to_id word in
        rw (unprivileged config c) (
          if_each (IsConfined Owns) (fs == ids.fs || equals_any_id fs ids) _ config
            (λ e.
              with_ids-IsConfined kind config (record ids { fs = fs }) c
                (record {
                  real = w.real;
                  effective = w.effective;
                  saved = w.saved;
                  fs = fs_lem (Owns kind) fs ids w e;
                }))
            (λ e. c))

    exec-IsConfined :
        (has_stat is_suid is_sgid : Bool) (config : Config)
        → is_suid ≡ false
        → is_sgid ≡ false
        → IsConfined Owns config
        → IsConfined Owns (exec has_stat is_suid is_sgid config)
    unfolding exec
    exec-IsConfined false is_suid is_sgid config u g c = record {
      no_caps = c.no_caps;
      uids = c.uids;
      gids = c.gids;
    }
    exec-IsConfined true is_suid is_sgid config u g c =
        rw (u, g) (record { no_caps = c.no_caps; uids = c.uids; gids = c.gids })

    handle-IsConfined :
        (call : IdCall) (config : Config)
        → IsPlain call
        → IsConfined Owns config
        → IsConfined Owns (handle call config).config
    unfolding handle prctl
    handle-IsConfined (set_id kind word) config t c = setxid-IsConfined kind word config c
    handle-IsConfined (set_re_id kind word1 word2) config t c =
        setrexid-IsConfined kind word1 word2 config c
    handle-IsConfined (set_res_id kind word1 word2 word3) config t c =
        setresxid-IsConfined kind word1 word2 word3 config c
    handle-IsConfined (set_fs_id kind word) config t c = setfsxid-IsConfined kind word config c
    handle-IsConfined (set_keepcaps result operation arg) config t c =
        if_both (IsConfined Owns) _ (record config { keep_caps = not (arg == 0) }) config
          (record { no_caps = c.no_caps; uids = c.uids; gids = c.gids }) c
    handle-IsConfined (execute has_stat is_suid is_sgid) config (u, g) c =
        exec-IsConfined has_stat is_suid is_sgid config u g c

    -- For a process without the capability whose user ids and group ids are all among those that
    -- it owns, root not among its user ids: after any sequence of setuid, setreuid, setresuid,
    -- setfsuid, their forms for groups, prctl, and execve of files without S_ISUID and S_ISGID, it
    -- has no capability and only ids that it owns.
    pub after-IsConfined :
        (calls : List IdCall) (config : Config)
        → All IsPlain calls
        → IsConfined Owns config
        → IsConfined Owns (after calls config)
    unfolding after
    after-IsConfined [] config t c = c
    after-IsConfined (call ∷ calls) config (p, ps) c =
        after-IsConfined calls (handle call config).config ps (handle-IsConfined call config p c)
