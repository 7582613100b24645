-- ===== src/Translate/Canon/Terminates.antt =====
-- The fuel of canonicalize of core/proot/src/main/cpp/path/canon.c.
use re_terminal.Translate.Link.Ends.{stat-Ends, dereference-Ends}
use re_terminal.Path.Component.Shorter.{cursor-lt}
use re_terminal.Prelude.{
  ℕ, zero, suc, ◌+◌, ◌<◌, ◌≤◌, ◌≡◌, ◌≢◌, refl, subst, Bool, true, false, not, ◌&&◌, ◌||◌, ◌⊎◌,
  Option, none, some, [], ◌∷◌, arith, length, ltb, leb, ◌==◌, same, if◌then◌else◌, Bool-cases, inl,
  inr,
}
use re_terminal.Prelude.Int.{ℤ, is_negative, minus_eloop, minus_einval, minus_enametoolong}
use re_terminal.Path.{Bytes, slash, dot, path_max}
use re_terminal.Path.Compare.{byte_at}
use re_terminal.Path.Join.{join_paths, pop_component}
use re_terminal.Path.Component.{
  Finality, not_final, final_normal, final_slash, final_dot, next_component,
}
use re_terminal.Translate.{Surroundings, Run, done, failed, asserts, out_of_fuel}
use re_terminal.Translate.Detranslate.Ends.{Ends, Ends-if}
use re_terminal.Translate.Stat.{is_final, substitute_binding_stat}
use re_terminal.Translate.Link.{Destination, target, final_path, dereference}
use re_terminal.Translate.Canon.{
  Walk, Turn, continues, returns, checked, arrived, follow, on_file, on_name, popped,
  is_final_normal, on_component, from_component, turn, behind_turn, walk, appended_last, ending,
  finish, start_at, canonicalize,
}

-- The loop ends behind this state, or its cursor has fewer than n bytes left.
abbrev Shrinks : ℕ → Walk → Type 0
Shrinks n w = (is_final w.finality ≡ true) ⊎ (length w.cursor < n)

abbrev Progress : ℕ → Run Turn → Type 0
Progress n (done (continues w)) = Shrinks n w
Progress n (done (returns path)) = Unit {0}
Progress n (failed status) = Unit {0}
Progress n asserts = Unit {0}
Progress n out_of_fuel = ⊥

Progress-if :
    (n : ℕ) (b : Bool) (x y : Run Turn)
    → Progress n x
    → Progress n y
    → Progress n (if b then x else y)
Progress-if n true x y p q = p
Progress-if n false x y p q = q

checked-Progress :
    (n : ℕ) (w : Walk) (r : Run (Bool × Bytes)) → Shrinks n w → Ends r → Progress n (checked w r)
unfolding checked
checked-Progress n w (done (link, host)) s e = search (Progress-if) depth 4
checked-Progress n w (failed status) s e = tt
checked-Progress n w asserts s e = tt
checked-Progress n w out_of_fuel s e = e

arrived-Progress :
    (n : ℕ) (env : Surroundings) (level : ℕ) (w : Walk) (r : Run Bytes)
    → Shrinks n w
    → Ends r
    → Progress n (arrived env level w r)
unfolding arrived
arrived-Progress n env level w (done guest) s e =
    Progress-if n (same w.guest_path guest) (failed minus_eloop)
      (checked (record w { guest_path = guest })
        (substitute_binding_stat env w.finality level guest))
      tt
      (checked-Progress n (record w { guest_path = guest })
        (substitute_binding_stat env w.finality level guest) s
        (stat-Ends env w.finality level guest))
arrived-Progress n env level w (failed status) s e = tt
arrived-Progress n env level w asserts s e = tt
arrived-Progress n env level w out_of_fuel s e = e

dot_final :
    (finality : Finality) (m n : ℕ)
    → (is_final finality ≡ true) ⊎ (m < n)
    → (is_final (if is_final finality then final_dot else finality) ≡ true) ⊎ (m < n)
unfolding is_final
dot_final not_final m n h = h
dot_final final_normal m n h = inl refl
dot_final final_slash m n h = inl refl
dot_final final_dot m n h = inl refl

slash_final_or :
    (finality : Finality) (m n : ℕ)
    → (is_final finality ≡ true) ⊎ (m < n)
    → (is_final (if is_final finality then final_slash else finality) ≡ true) ⊎ (m < n)
unfolding is_final
slash_final_or not_final m n h = h
slash_final_or final_normal m n h = inl refl
slash_final_or final_slash m n h = inl refl
slash_final_or final_dot m n h = inl refl

normal_final : is_final final_normal ≡ true
unfolding is_final
normal_final = refl

slash_is_final : is_final final_slash ≡ true
unfolding is_final
slash_is_final = refl

dot_is_final : is_final final_dot ≡ true
unfolding is_final
dot_is_final = refl

module _ (again : Bytes → Bytes → ℕ → Run Bytes) (env : Surroundings) (deref_final : Bool)
    (level : ℕ) (ends : (path base : Bytes) (k : ℕ) → Ends (again path base (level + suc k))) where
  follow-Progress :
      (n : ℕ) (w : Walk) (r : Run Destination)
      → Shrinks n w
      → Ends r
      → Progress n (follow again env deref_final level w r)
  unfolding follow
  follow-Progress n w (done (final_path path)) s e = tt
  follow-Progress n w (done (target path)) s e =
      arrived-Progress n env level (record w { symlinks_followed = suc w.symlinks_followed })
        (again path w.guest_path (level + suc w.symlinks_followed)) s
        (ends path w.guest_path w.symlinks_followed)
  follow-Progress n w (failed status) s e = tt
  follow-Progress n w asserts s e = tt
  follow-Progress n w out_of_fuel s e = e

  on_file-Progress :
      (n : ℕ) (w : Walk) (component joined_path : Bytes) (r : Run (Bool × Bytes))
      → Shrinks n w
      → Ends r
      → Progress n (on_file again env deref_final level w component joined_path r)
  unfolding on_file
  on_file-Progress n w component joined_path (done (link, host)) s e =
      let d = dereference env w.finality w.guest_path component host in
      Progress-if n (not link || is_final_normal w.finality && not deref_final)
        (done (continues (record w { guest_path = joined_path })))
        (follow again env deref_final level w d) s
        (follow-Progress n w d s (dereference-Ends env w.finality w.guest_path component host))
  on_file-Progress n w component joined_path (failed status) s e = tt
  on_file-Progress n w component joined_path asserts s e = tt
  on_file-Progress n w component joined_path out_of_fuel s e = e

  on_name-Progress :
      (n : ℕ) (w : Walk) (component : Bytes) (r : Bytes × ℤ)
      → Shrinks n w
      → Progress n (on_name again env deref_final level w component r)
  unfolding on_name
  on_name-Progress n w component (path, status) s =
      let r = substitute_binding_stat env w.finality level path in
      Progress-if n (is_negative status) (failed status)
        (on_file again env deref_final level w component path r) tt
        (on_file-Progress n w component path r s (stat-Ends env w.finality level path))

  popped-Progress :
      (n : ℕ) (w : Walk) (o : Option Bytes)
      → Shrinks n w
      → Progress n (popped again env deref_final level w o)
  unfolding popped
  popped-Progress n w none s = tt
  popped-Progress n w (some path) s = slash_final_or w.finality (length w.cursor) n s

  on_component-Progress :
      (n : ℕ) (w : Walk) (component : Bytes)
      → Shrinks n w
      → Progress n (on_component again env deref_final level w component)
  unfolding on_component
  on_component-Progress n w component s =
      let up = popped again env deref_final level w (pop_component w.guest_path) in
      let joined = join_paths (some w.guest_path ∷ some component ∷ []) in
      let named = on_name again env deref_final level w component joined in
      let here = record w { finality = if is_final w.finality then final_dot else w.finality } in
      Progress-if n (same component (dot ∷ [])) (done (continues here))
        (if same component (dot ∷ dot ∷ []) then up else named)
        (dot_final w.finality (length w.cursor) n s)
        (Progress-if n (same component (dot ∷ dot ∷ [])) up named
          (popped-Progress n w (pop_component w.guest_path) s)
          (on_name-Progress n w component joined s))

  component-Progress :
      (w : Walk) (o : Option (Bytes × Bytes × Finality))
      → next_component w.cursor ≡ o
      → Progress (length w.cursor) (from_component again env deref_final level w o)
  unfolding from_component
  component-Progress w none e = tt
  component-Progress w (some (component, cursor, not_final)) e =
      on_component-Progress (length w.cursor) (record w { cursor = cursor; finality = not_final })
        component (inr (cursor-lt w.cursor component cursor e))
  component-Progress w (some (component, cursor, final_normal)) e =
      on_component-Progress (length w.cursor)
        (record w { cursor = cursor; finality = final_normal }) component (inl normal_final)
  component-Progress w (some (component, cursor, final_slash)) e =
      on_component-Progress (length w.cursor) (record w { cursor = cursor; finality = final_slash })
        component (inl slash_is_final)
  component-Progress w (some (component, cursor, final_dot)) e =
      on_component-Progress (length w.cursor) (record w { cursor = cursor; finality = final_dot })
        component (inl dot_is_final)

  turn-Progress : (w : Walk) → Progress (length w.cursor) (turn again env deref_final level w)
  unfolding turn
  turn-Progress w = component-Progress w (next_component w.cursor) refl

  behind_turn-Ends :
      (n : ℕ) (rest : Walk → Run Turn) (r : Run Turn)
      → Progress n r
      → ((w : Walk) → length w.cursor < n → Ends (rest w))
      → Ends (behind_turn again env deref_final level rest r)
  unfolding behind_turn
  behind_turn-Ends n rest (done (continues w)) (inl f) h = rw f tt
  behind_turn-Ends n rest (done (continues w)) (inr l) h =
      Ends-if (is_final w.finality) (done (continues w)) (rest w) tt (h w l)
  behind_turn-Ends n rest (done (returns path)) p h = tt
  behind_turn-Ends n rest (failed status) p h = tt
  behind_turn-Ends n rest asserts p h = tt
  behind_turn-Ends n rest out_of_fuel p h = p

  walk-Ends :
      (rounds : ℕ) (w : Walk)
      → length w.cursor < rounds
      → Ends (walk again env deref_final level rounds w)
  unfolding walk
  walk-Ends zero w h = absurd (omega (arith, h))
  walk-Ends (suc rounds) w h =
      behind_turn-Ends (length w.cursor) (walk again env deref_final level rounds)
        (turn again env deref_final level w) (turn-Progress w)
        (λ w' l. walk-Ends rounds w' (omega (arith, l, h)))

appended-Ends : (r : Bytes × ℤ) → Ends (appended_last r)
unfolding appended_last
appended-Ends (path, status) = Ends-if (is_negative status) (failed status) (done path) tt tt

ending-Ends : (path : Bytes) (finality : Finality) → Ends (ending path finality)
unfolding ending
ending-Ends path not_final = tt
ending-Ends path final_normal = tt
ending-Ends path final_slash = appended-Ends (join_paths (some path ∷ some [] ∷ []))
ending-Ends path final_dot = appended-Ends (join_paths (some path ∷ some (dot ∷ []) ∷ []))

finish-Ends : (level : ℕ) (r : Run Turn) → Ends r → Ends (finish level r)
unfolding finish
finish-Ends level (done (returns path)) e = tt
finish-Ends level (done (continues w)) e =
    Ends-if (level == 0) (ending w.guest_path w.finality) (done w.guest_path)
      (ending-Ends w.guest_path w.finality) tt
finish-Ends level (failed status) e = tt
finish-Ends level asserts e = tt
finish-Ends level out_of_fuel e = e

pub canonicalize-Ends :
    (fuel : ℕ) (env : Surroundings) (user_path : Bytes) (deref_final : Bool) (guest_path : Bytes)
    (level : ℕ)
    → 0 < fuel
    → env.max_symlinks + 2 ≤ fuel + level
    → Ends (canonicalize fuel env user_path deref_final guest_path level)
unfolding canonicalize
canonicalize-Ends zero env user_path deref_final guest_path level p h = absurd (omega (arith, p))
canonicalize-Ends (suc fuel) env user_path deref_final guest_path level p h =
    elim (Bool-cases (ltb env.max_symlinks level)) [
      | inl e ↦ rw e tt
      | inr e ↦ rw e (
          Ends-if (leb path_max (length guest_path)) (failed minus_enametoolong)
            (if not (byte_at user_path 0 == slash) && not (byte_at guest_path 0 == slash)
              then failed minus_einval
              else finish level looped)
            tt
            (Ends-if (not (byte_at user_path 0 == slash) && not (byte_at guest_path 0 == slash))
              (failed minus_einval) (finish level looped) tt
              (finish-Ends level looped (
                walk-Ends again env deref_final level
                  (λ path base k.
                    canonicalize-Ends fuel env path true base (level + suc k) (within e)
                      (omega (arith, h)))
                  (length user_path + 1) (start_at user_path guest_path) (omega arith)))))
    ]
  where
    again : Bytes → Bytes → ℕ → Run Bytes
    again path base k = canonicalize fuel env path true base k

    looped : Run Turn
    looped = walk again env deref_final level (length user_path + 1) (start_at user_path guest_path)

    within : ltb env.max_symlinks level ≡ false → 0 < fuel
    within e = ground (arith, e, h)

-- With some fuel, and MAXSYMLINKS + 2 for the fuel and the level of recursion together,
-- canonicalize does not run out of fuel, whatever the file system, the bindings and the extensions
-- answer.
pub canonicalize_terminates :
    (fuel : ℕ) (env : Surroundings) (user_path : Bytes) (deref_final : Bool) (guest_path : Bytes)
    (level : ℕ)
    → 0 < fuel
    → env.max_symlinks + 2 ≤ fuel + level
    → canonicalize fuel env user_path deref_final guest_path level ≢ out_of_fuel
canonicalize_terminates fuel env user_path deref_final guest_path level p h e =
    subst Ends e (canonicalize-Ends fuel env user_path deref_final guest_path level p h)
