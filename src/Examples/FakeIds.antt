-- ===== src/Examples/FakeIds.antt =====
-- The ids of extension/fake_id0/fake_id0.c: a user 1000, and root that becomes it.
use re_terminal.Prelude.{ℕ, ◌≡◌, ◌≢◌, refl, [], ◌∷◌, List, arith, ◌^◌, ◌-◌, All, true, false}
use re_terminal.Prelude.Int.{pos}
use re_terminal.FakeId.{
  Config, Kind, uid, gid, IdCall, set_id, set_res_id, execute, setxid, setresxid, getresxid,
  initial, after,
}
use re_terminal.FakeId.Confined.{IsConfined, after-IsConfined, IsPlain}
use re_terminal.FakeId.Drop.{Only, after-setuid, getresxid-setresxid}

abbrev user : Config
user = initial 1000 1000

abbrev root : Config
root = initial 0 0

-- setuid(0), setresuid(-1, 1000, 0), setgid(0) and an execve of a plain file
abbrev calls : List IdCall
calls =
    set_id uid 0 ∷ set_res_id uid (2 ^ 32 - 1) 1000 0 ∷ set_id gid 0 ∷ execute true false false ∷ []

calls-IsPlain : All IsPlain calls
calls-IsPlain = (tt, (tt, (tt, ((refl, refl), tt))))

abbrev Mine : Kind → ℕ → Type 0
Mine kind n = n ≡ 1000

user-IsConfined : IsConfined Mine user
unfolding initial
user-IsConfined = record {
  no_caps = refl;
  uids = record { real = refl; effective = refl; saved = refl; fs = refl };
  gids = record { real = refl; effective = refl; saved = refl; fs = refl };
}

never_zero : (n : ℕ) → Mine uid n → n ≢ 0
never_zero n e z = omega (arith, e, z)

after-IsConfined_example : IsConfined Mine (after calls user)
after-IsConfined_example = after-IsConfined Mine never_zero calls user calls-IsPlain user-IsConfined

after-setuid_example : IsConfined (Only 1000) (after calls (setxid uid 1000 root).config)
unfolding initial
after-setuid_example = after-setuid calls 1000 root calls-IsPlain refl refl (omega arith)

getresxid-setresxid_example :
    getresxid gid (λ (k : ℕ). pos 0) (setresxid gid 5 6 7 root).config ≡ (pos 0, 5 ∷ 6 ∷ 7 ∷ [])
unfolding initial
getresxid-setresxid_example =
    getresxid-setresxid gid 5 6 7 root refl (omega arith) (omega arith) (omega arith)
