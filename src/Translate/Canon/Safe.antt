-- ===== src/Translate/Canon/Safe.antt =====
-- What canonicalize of core/proot/src/main/cpp/path/canon.c leaves in the guest path.
use re_terminal.Translate.Results.{Results, Results-if, Results-map}
use re_terminal.Translate.Link.Safe.{LeadsSafely, dereference-IsSafe}
use re_terminal.Prelude.{
  ℕ, zero, suc, ◌+◌, ◌≡◌, ◌≢◌, refl, ap, sym, ◌∙◌, subst, Bool, true, false, not, ◌&&◌, ◌||◌, ◌⊎◌,
  Option, none, some, [], ◌∷◌, arith, length, ltb, leb, ◌==◌, same, same_iff, ==_iff, if_both,
  if◌then◌else◌, inl, inr, Gives, All,
}
use re_terminal.Prelude.Int.{ℤ, is_negative, minus_eloop, minus_einval, minus_enametoolong}
use re_terminal.Path.{Bytes, slash, dot, path_max}
use re_terminal.Path.Compare.{byte_at}
use re_terminal.Path.Join.{join_paths, pop_component}
use re_terminal.Path.Component.{
  Finality, not_final, final_normal, final_slash, final_dot, next_component,
}
use re_terminal.Path.Component.Splits.{next_component-IsSplit}
use re_terminal.Translate.{Surroundings, Run, done, failed, asserts, out_of_fuel}
use re_terminal.Translate.SafePath.{IsName, IsSafe, root-IsSafe, empty-IsName, join-IsSafe}
use re_terminal.Translate.SafePath.Pop.{pop-IsSafe}
use re_terminal.Translate.Stat.{is_final, substitute_binding_stat}
use re_terminal.Translate.Link.{Destination, target, final_path, dereference}
use re_terminal.Translate.Canon.{
  Walk, Turn, continues, returns, checked, arrived, follow, on_file, on_name, popped,
  is_final_normal, on_component, from_component, turn, behind_turn, walk, appended_last, ending,
  finish, start_at, canonicalize,
}

abbrev TurnIsSafe : Turn → Type 0
TurnIsSafe (continues w) = IsSafe w.guest_path
TurnIsSafe (returns path) = IsSafe path

checked-IsSafe :
    (w : Walk) (r : Run (Bool × Bytes)) → IsSafe w.guest_path → Results TurnIsSafe (checked w r)
unfolding checked
checked-IsSafe w (done (link, host)) s = search (Results-if TurnIsSafe) depth 5
checked-IsSafe w (failed status) s = tt
checked-IsSafe w asserts s = tt
checked-IsSafe w out_of_fuel s = tt

arrived-IsSafe :
    (env : Surroundings) (level : ℕ) (w : Walk) (r : Run Bytes)
    → Results IsSafe r
    → Results TurnIsSafe (arrived env level w r)
unfolding arrived
arrived-IsSafe env level w (done guest) s =
    let stat = substitute_binding_stat env w.finality level guest in
    let w' = record w { guest_path = guest } in
    Results-if TurnIsSafe (same w.guest_path guest) (failed minus_eloop) (checked w' stat) (λ e. tt)
      (λ e. checked-IsSafe w' stat s)
arrived-IsSafe env level w (failed status) s = tt
arrived-IsSafe env level w asserts s = tt
arrived-IsSafe env level w out_of_fuel s = tt

contradictory : false ≡ true → ⊥
contradictory e = cc

module _ (again : Bytes → Bytes → ℕ → Run Bytes) (env : Surroundings) (deref_final : Bool)
    (level : ℕ)
    (safely : (path base : Bytes) (k : ℕ)
      → IsSafe base
      → Results IsSafe (again path base (level + suc k))) where
  follow-IsSafe :
      (w : Walk) (r : Run Destination)
      → IsSafe w.guest_path
      → Results LeadsSafely r
      → Results TurnIsSafe (follow again env deref_final level w r)
  unfolding follow
  follow-IsSafe w (done (final_path path)) s l = l
  follow-IsSafe w (done (target path)) s l =
      arrived-IsSafe env level (record w { symlinks_followed = suc w.symlinks_followed })
        (again path w.guest_path (level + suc w.symlinks_followed))
        (safely path w.guest_path w.symlinks_followed s)
  follow-IsSafe w (failed status) s l = tt
  follow-IsSafe w asserts s l = tt
  follow-IsSafe w out_of_fuel s l = tt

  on_file-IsSafe :
      (w : Walk) (component joined_path : Bytes) (r : Run (Bool × Bytes))
      → IsSafe w.guest_path
      → IsName component
      → IsSafe joined_path
      → Results TurnIsSafe (on_file again env deref_final level w component joined_path r)
  unfolding on_file
  on_file-IsSafe w component joined_path (done (link, host)) s h j =
      let d = dereference env w.finality w.guest_path component host in
      Results-if TurnIsSafe (not link || is_final_normal w.finality && not deref_final)
        (done (continues (record w { guest_path = joined_path })))
        (follow again env deref_final level w d) (λ e. j)
        (λ e. follow-IsSafe w d s (dereference-IsSafe env w.finality w.guest_path component host h))
  on_file-IsSafe w component joined_path (failed status) s h j = tt
  on_file-IsSafe w component joined_path asserts s h j = tt
  on_file-IsSafe w component joined_path out_of_fuel s h j = tt

  on_name-IsSafe :
      (w : Walk) (component : Bytes) (r : Bytes × ℤ)
      → IsSafe w.guest_path
      → IsName component
      → (is_negative r.1 ≡ false → IsSafe r.0)
      → Results TurnIsSafe (on_name again env deref_final level w component r)
  unfolding on_name
  on_name-IsSafe w component (path, status) s h j =
      let r = substitute_binding_stat env w.finality level path in
      Results-if TurnIsSafe (is_negative status) (failed status)
        (on_file again env deref_final level w component path r) (λ e. tt)
        (λ e. on_file-IsSafe w component path r s h (j e))

  popped-IsSafe :
      (w : Walk) (o : Option Bytes)
      → Gives IsSafe o
      → Results TurnIsSafe (popped again env deref_final level w o)
  unfolding popped
  popped-IsSafe w none g = tt
  popped-IsSafe w (some path) g = g.holds path refl

  on_component-IsSafe :
      (w : Walk) (component : Bytes)
      → IsSafe w.guest_path
      → All (λ b. b ≢ slash) component
      → Results TurnIsSafe (on_component again env deref_final level w component)
  unfolding on_component
  on_component-IsSafe w component s h =
      let up = popped again env deref_final level w (pop_component w.guest_path) in
      let joined = join_paths (some w.guest_path ∷ some component ∷ []) in
      let named = on_name again env deref_final level w component joined in
      let here = record w { finality = if is_final w.finality then final_dot else w.finality } in
      Results-if TurnIsSafe (same component (dot ∷ [])) (done (continues here))
        (if same component (dot ∷ dot ∷ []) then up else named) (λ e. s)
        (λ e.
          Results-if TurnIsSafe (same component (dot ∷ dot ∷ [])) up named
            (λ k. popped-IsSafe w (pop_component w.guest_path) (pop-IsSafe w.guest_path s))
            (λ k.
              let name = name_of component h e k in
              on_name-IsSafe w component joined s name (join-IsSafe w.guest_path component s name)))
    where
      differs : (p q : Bytes) → same p q ≡ false → p ≢ q
      differs p q e k = contradictory (sym e ∙ (same_iff p q).1 k)

      name_of :
          (name : Bytes)
          → All (λ b. b ≢ slash) name
          → same name (dot ∷ []) ≡ false
          → same name (dot ∷ dot ∷ []) ≡ false
          → IsName name
      name_of name n e k = record {
        no_slash = n;
        not_dot = differs name (dot ∷ []) e;
        not_dots = differs name (dot ∷ dot ∷ []) k;
      }

  component-IsSafe :
      (w : Walk) (o : Option (Bytes × Bytes × Finality))
      → next_component w.cursor ≡ o
      → IsSafe w.guest_path
      → Results TurnIsSafe (from_component again env deref_final level w o)
  unfolding from_component
  component-IsSafe w none e s = tt
  component-IsSafe w (some (component, cursor, finality)) e s =
      on_component-IsSafe (record w { cursor = cursor; finality = finality }) component s
        (next_component-IsSplit w.cursor component cursor finality e).no_slash

  behind_turn-IsSafe :
      (rest : Walk → Run Turn) (r : Run Turn)
      → Results TurnIsSafe r
      → ((w : Walk) → IsSafe w.guest_path → Results TurnIsSafe (rest w))
      → Results TurnIsSafe (behind_turn again env deref_final level rest r)
  unfolding behind_turn
  behind_turn-IsSafe rest (done (continues w)) s h =
      Results-if TurnIsSafe (is_final w.finality) (done (continues w)) (rest w) (λ e. s)
        (λ e. h w s)
  behind_turn-IsSafe rest (done (returns path)) s h = s
  behind_turn-IsSafe rest (failed status) s h = tt
  behind_turn-IsSafe rest asserts s h = tt
  behind_turn-IsSafe rest out_of_fuel s h = tt

  walk-IsSafe :
      (rounds : ℕ) (w : Walk)
      → IsSafe w.guest_path
      → Results TurnIsSafe (walk again env deref_final level rounds w)
  unfolding walk turn
  walk-IsSafe zero w s = tt
  walk-IsSafe (suc rounds) w s =
      behind_turn-IsSafe (walk again env deref_final level rounds)
        (turn again env deref_final level w) (component-IsSafe w (next_component w.cursor) refl s)
        (λ w' s'. walk-IsSafe rounds w' s')

appended-Results :
    (path name : Bytes) (r : Bytes × ℤ)
    → join_paths (some path ∷ some name ∷ []) ≡ r
    → Results
        (λ p.
          (join_paths (some path ∷ some name ∷ [])).0 ≡ p
          × (is_negative (join_paths (some path ∷ some name ∷ [])).1 ≡ false))
        (appended_last r)
unfolding appended_last
appended-Results path name (p, status) e =
    Results-if
      (λ q.
        (join_paths (some path ∷ some name ∷ [])).0 ≡ q
        × (is_negative (join_paths (some path ∷ some name ∷ [])).1 ≡ false))
      (is_negative status) (failed status) (done p) (λ k. tt)
      (λ k. (ap (λ (x : Bytes × ℤ). x.0) e, ap (λ (x : Bytes × ℤ). is_negative x.1) e ∙ k))

-- A safe path, or at the first level of recursion one behind which join_paths has put a ".".
abbrev pub IsCanonicalized : ℕ → Bytes → Type 0
IsCanonicalized level path =
    IsSafe path
    ⊎ ((level ≡ 0)
        × (q : Bytes) × IsSafe q
        × ((join_paths (some q ∷ some (dot ∷ []) ∷ [])).0 ≡ path))

ending-Results :
    (level : ℕ) (path : Bytes) (finality : Finality)
    → level ≡ 0
    → IsSafe path
    → Results (IsCanonicalized level) (ending path finality)
unfolding ending
ending-Results level path not_final z s = tt
ending-Results level path final_normal z s = inl s
ending-Results level path final_slash z s =
    let r = join_paths (some path ∷ some [] ∷ []) in
    Results-map _ (IsCanonicalized level) (appended_last r)
      (λ p (h : (r.0 ≡ p) × (is_negative r.1 ≡ false)).
        inl (subst IsSafe h.0 (join-IsSafe path [] s empty-IsName h.1)))
      (appended-Results path [] r refl)
ending-Results level path final_dot z s =
    let r = join_paths (some path ∷ some (dot ∷ []) ∷ []) in
    Results-map _ (IsCanonicalized level) (appended_last r)
      (λ p (h : (r.0 ≡ p) × (is_negative r.1 ≡ false)). inr (z, path, s, h.0))
      (appended-Results path (dot ∷ []) r refl)

finish-Results :
    (level : ℕ) (r : Run Turn)
    → Results TurnIsSafe r
    → Results (IsCanonicalized level) (finish level r)
unfolding finish
finish-Results level (done (returns path)) s = inl s
finish-Results level (done (continues w)) s =
    Results-if (IsCanonicalized level) (level == 0) (ending w.guest_path w.finality)
      (done w.guest_path)
      (λ e. ending-Results level w.guest_path w.finality ((==_iff level 0).0 e) s) (λ e. inl s)
finish-Results level (failed status) s = tt
finish-Results level asserts s = tt
finish-Results level out_of_fuel s = tt

start-IsSafe :
    (user_path guest_path : Bytes)
    → (byte_at user_path 0 ≡ slash) ⊎ IsSafe guest_path
    → IsSafe (start_at user_path guest_path).guest_path
start-IsSafe user_path guest_path (inl e) =
    rw ((==_iff (byte_at user_path 0) slash).1 e) root-IsSafe
start-IsSafe user_path guest_path (inr s) =
    if_both IsSafe (byte_at user_path 0 == slash) (slash ∷ []) guest_path root-IsSafe s

deeper :
    (level k : ℕ) (r : Run Bytes) → Results (IsCanonicalized (level + suc k)) r → Results IsSafe r
deeper level k (done path) (inl s) = s
deeper level k (done path) (inr (z, q, s, e)) = absurd (omega (arith, z))
deeper level k (failed status) s = tt
deeper level k asserts s = tt
deeper level k out_of_fuel s = tt

pub canonicalize-Results :
    (fuel : ℕ) (env : Surroundings) (user_path : Bytes) (deref_final : Bool) (guest_path : Bytes)
    (level : ℕ)
    → (byte_at user_path 0 ≡ slash) ⊎ IsSafe guest_path
    → Results (IsCanonicalized level) (canonicalize fuel env user_path deref_final guest_path level)
unfolding canonicalize
canonicalize-Results zero env user_path deref_final guest_path level s = tt
canonicalize-Results (suc fuel) env user_path deref_final guest_path level s =
    Results-if (IsCanonicalized level) (ltb env.max_symlinks level) (failed minus_eloop)
      (if leb path_max (length guest_path)
        then failed minus_enametoolong
        else if relative
        then failed minus_einval
        else finish level looped)
      (λ e. tt)
      (λ e.
        Results-if (IsCanonicalized level) (leb path_max (length guest_path))
          (failed minus_enametoolong)
          (if relative then failed minus_einval else finish level looped) (λ k. tt)
          (λ k.
            Results-if (IsCanonicalized level) relative (failed minus_einval) (finish level looped)
              (λ i. tt)
              (λ i. finish-Results level looped (
                walk-IsSafe again env deref_final level
                  (λ path base k b.
                    deeper level k (again path base (level + suc k))
                      (canonicalize-Results fuel env path true base (level + suc k) (inr b)))
                  (length user_path + 1) (start_at user_path guest_path)
                  (start-IsSafe user_path guest_path s)))))
  where
    again : Bytes → Bytes → ℕ → Run Bytes
    again path base k = canonicalize fuel env path true base k

    relative : Bool
    relative = not (byte_at user_path 0 == slash) && not (byte_at guest_path 0 == slash)

    looped : Run Turn
    looped = walk again env deref_final level (length user_path + 1) (start_at user_path guest_path)

-- For a path that is absolute, or else a guest path that is safe, that is, components behind
-- separators none of which is "." or "..": where canonicalize is done, what it leaves in the guest
-- path is safe, or it is at the first level of recursion and is a safe path with a "." joined to
-- it, whatever the file system, the bindings and the extensions answer.
pub canonicalize-IsCanonicalized :
    (fuel : ℕ) (env : Surroundings) (user_path : Bytes) (deref_final : Bool)
    (guest_path path : Bytes) (level : ℕ)
    → (byte_at user_path 0 ≡ slash) ⊎ IsSafe guest_path
    → canonicalize fuel env user_path deref_final guest_path level ≡ done path
    → IsCanonicalized level path
canonicalize-IsCanonicalized fuel env user_path deref_final guest_path path level s e =
    subst (Results (IsCanonicalized level)) e
      (canonicalize-Results fuel env user_path deref_final guest_path level s)
