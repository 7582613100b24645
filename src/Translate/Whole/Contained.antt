-- ===== src/Translate/Whole/Contained.antt =====
-- The guest paths behind the host paths of translate_path, in core/proot/src/main/cpp/path/path.c.
use re_terminal.Translate.Results.{Results, Results-if, Results-map}
use re_terminal.Prelude.{
  ◌≡◌, refl, subst, Bool, false, not, ◌⊎◌, inl, inr, Option, some, [], ◌∷◌, ◌==◌,
}
use re_terminal.Prelude.Int.{ℤ, pos, is_negative}
use re_terminal.Path.{Bytes, slash}
use re_terminal.Path.Compare.{byte_at}
use re_terminal.Path.Join.{join_paths}
use re_terminal.Binding.{guest_side}
use re_terminal.Binding.Lookup.{
  substitute_binding, Substitution, no_entry, symmetric, asymmetric, no_access,
}
use re_terminal.Translate.{Surroundings, Run, done, failed, asserts, out_of_fuel}
use re_terminal.Translate.SafePath.{root-IsSafe}
use re_terminal.Translate.Canon.{canonicalize}
use re_terminal.Translate.Canon.Safe.{IsCanonicalized, canonicalize-Results}
use re_terminal.Translate.Whole.{
  base_of, skip_label, onto_host, from_canonical, enough, on_joined, on_event, on_base,
  translate_path,
}

-- The outcome of the last event of the extensions, which may refuse a path and change it.
pub record Leaves (env : Surroundings) (host path : Bytes) : Type 0 where
  pub accepted : is_negative (env.translated_event host).0 ≡ false
  pub changed : (env.translated_event host).1 ≡ path

-- The path that a binding gives, where there is a binding that can be accessed.
pub record IsHost (env : Surroundings) (r : Substitution × Bytes) (path : Bytes) : Type 0 where
  pub bound : (r.0 ≡ symmetric) ⊎ (r.0 ≡ asymmetric)
  pub leaves : Leaves env r.1 path

-- A host path that the bindings, and then the extensions, make of a canonicalized guest path.
pub record IsImage (env : Surroundings) (path : Bytes) : Type 0 where
  pub guest : Bytes
  pub canonical : IsCanonicalized 0 guest
  pub image : IsHost env (substitute_binding env.bindings guest_side guest) path

-- The extensions do not take the translation over at GUEST_PATH.
abbrev pub LeavesGuestPaths : Surroundings → Type 0
LeavesGuestPaths env = (base user_path : Bytes) → (env.guest_event base user_path).0 ≡ pos 0

skip-Results :
    (env : Surroundings) (host : Bytes)
    → Results (Leaves env host) (skip_label (env.translated_event host))
unfolding skip_label
skip-Results env host =
    let (status, path) = env.translated_event host in
    Results-if (Leaves env host) (is_negative status) (failed status) (done path) (λ e. tt)
      (λ e. record { accepted = e; changed = refl })

-- By a status that is no failure.
event-Results :
    (env : Surroundings) (r : Substitution × Bytes)
    → (r.0 ≡ symmetric) ⊎ (r.0 ≡ asymmetric)
    → Results (IsHost env r) (skip_label (env.translated_event r.1))
event-Results env r b =
    Results-map (Leaves env r.1) (IsHost env r) (skip_label (env.translated_event r.1))
      (λ p l. record { bound = b; leaves = l }) (skip-Results env r.1)

onto_host-Results :
    (env : Surroundings) (r : Substitution × Bytes) → Results (IsHost env r) (onto_host env r)
unfolding onto_host
onto_host-Results env (no_entry, path) = tt
onto_host-Results env (no_access, path) = tt
onto_host-Results env (symmetric, path) = event-Results env (symmetric, path) (inl refl)
onto_host-Results env (asymmetric, path) = event-Results env (asymmetric, path) (inr refl)

imaged :
    (env : Surroundings) (guest : Bytes) (r : Run Bytes)
    → IsCanonicalized 0 guest
    → Results (IsHost env (substitute_binding env.bindings guest_side guest)) r
    → Results (IsImage env) r
imaged env guest r c h =
    Results-map (IsHost env (substitute_binding env.bindings guest_side guest)) (IsImage env) r
      (λ p i. record { guest = guest; canonical = c; image = i }) h

from_canonical-Results :
    (env : Surroundings) (r : Run Bytes)
    → Results (IsCanonicalized 0) r
    → Results (IsImage env) (from_canonical env r)
unfolding from_canonical
from_canonical-Results env (done path) c =
    let s = substitute_binding env.bindings guest_side path in
    imaged env path (onto_host env s) c (onto_host-Results env s)
from_canonical-Results env (failed status) c = tt
from_canonical-Results env asserts c = tt
from_canonical-Results env out_of_fuel c = tt

on_joined-Results :
    (env : Surroundings) (deref_final : Bool) (r : Bytes × ℤ)
    → Results (IsImage env) (on_joined env deref_final r)
unfolding on_joined
on_joined-Results env deref_final (guest, status) =
    let c = canonicalize (enough env) env guest deref_final (slash ∷ []) 0 in
    Results-if (IsImage env) (is_negative status) (failed status) (from_canonical env c) (λ e. tt)
      (λ e.
        from_canonical-Results env c (
          canonicalize-Results (enough env) env guest deref_final (slash ∷ []) 0 (inr root-IsSafe)))

on_event-Results :
    (env : Surroundings) (deref_final : Bool) (user_path : Bytes) (r : ℤ × Bytes)
    → r.0 ≡ pos 0
    → Results (IsImage env) (on_event env deref_final user_path r)
unfolding on_event
on_event-Results env deref_final user_path (status, path) z = rw z (
    Results-if (IsImage env) (not (byte_at path 0 == slash)) asserts
      (on_joined env deref_final (join_paths (some path ∷ some user_path ∷ []))) (λ e. tt)
      (λ e. on_joined-Results env deref_final (join_paths (some path ∷ some user_path ∷ []))))

on_base-Results :
    (env : Surroundings) (deref_final : Bool) (user_path : Bytes) (r : Run Bytes)
    → LeavesGuestPaths env
    → Results (IsImage env) (on_base env deref_final user_path r)
unfolding on_base
on_base-Results env deref_final user_path (done path) l =
    on_event-Results env deref_final user_path (env.guest_event path user_path) (l path user_path)
on_base-Results env deref_final user_path (failed status) l = tt
on_base-Results env deref_final user_path asserts l = tt
on_base-Results env deref_final user_path out_of_fuel l = tt

-- Where the extensions do not take the translation over at GUEST_PATH and translate_path is done,
-- the host path is what a binding, which substitute_binding finds and which can be accessed, and
-- behind it the extensions, which do not refuse it, make of a guest path that is canonicalized.
pub translate_path-IsImage :
    (env : Surroundings) (dir_fd : Option ℤ) (user_path : Bytes) (deref_final : Bool) (path : Bytes)
    → LeavesGuestPaths env
    → translate_path env dir_fd user_path deref_final ≡ done path
    → IsImage env path
unfolding translate_path
translate_path-IsImage env dir_fd user_path deref_final path l e =
    subst (Results (IsImage env)) e
      (on_base-Results env deref_final user_path (base_of env dir_fd user_path) l)
