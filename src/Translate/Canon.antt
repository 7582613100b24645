-- ===== src/Translate/Canon.antt =====
-- canonicalize of core/proot/src/main/cpp/path/canon.c.
pub mod Terminates
pub mod Safe
use re_terminal.Prelude.{
  ℕ, zero, suc, ◌+◌, ◌-◌, Bool, true, false, not, ◌&&◌, ◌||◌, Option, none, some, List, [], ◌∷◌,
  ◌++◌, ltb, leb, ◌==◌, same, length, take, if◌then◌else◌,
}
use re_terminal.Prelude.Int.{
  ℤ, pos, is_negative, eqb_ℤ, minus_enoent, minus_eacces, minus_einval, minus_enametoolong,
  minus_enotdir, minus_eloop, minus_eperm,
}
use re_terminal.Path.{
  Bytes, slash, dot, path_max, Comparison, paths_are_equal, path1_is_prefix, path2_is_prefix,
  paths_are_not_comparable,
}
use re_terminal.Path.Compare.{byte_at, compare_paths}
use re_terminal.Path.Join.{join_paths, pop_component}
use re_terminal.Path.Component.{
  Finality, not_final, final_normal, final_slash, final_dot, next_component,
}
use re_terminal.Binding.{guest_side, is_equal_or_under}
use re_terminal.Binding.Lookup.{
  substitute_binding, Substitution, no_entry, symmetric, asymmetric, no_access,
}
use re_terminal.Translate.{
  Surroundings, FileKind, missing, denied, directory, symlink, other_kind, Run, done, failed,
  asserts, out_of_fuel,
}
use re_terminal.Translate.Stat.{is_final, substitute_binding_stat}
use re_terminal.Translate.Link.{Destination, target, final_path, dereference, named_descriptor}
use re_terminal.Translate.Proc.{
  Action, default, refused, canonicalize_it, dont_canonicalize, proc, slash_fd, is_digit,
  skip_spaces, starts_with_digit, signed, readlink_proc,
}
use re_terminal.Translate.Detranslate.{detranslate_path}

-- The state of the loop of canonicalize, at a test of it: the cursor, the guest path, the finality
-- and the number of links followed.
pub record Walk : Type 0 where
  pub cursor : Bytes
  pub guest_path : Bytes
  pub finality : Finality
  pub symlinks_followed : ℕ

-- What one turn comes to: the state for the next test, or the return of 0 from within.
pub data Turn : Type 0 where
  continues : Walk → Turn
  returns : Bytes → Turn

-- The check of a link that has been canonicalized.
checked : Walk → Run (Bool × Bytes) → Run Turn
unfolding named_descriptor
checked w (done (link, host_path)) =
    if link && not (named_descriptor w.guest_path) then asserts else done (continues w)
checked w (failed status) = failed status
checked w asserts = asserts
checked w out_of_fuel = out_of_fuel

-- The guest path, behind the canonicalization of the target of a link.
arrived : Surroundings → ℕ → Walk → Run Bytes → Run Turn
unfolding checked substitute_binding_stat
arrived env recursion_level w (done guest_path) =
    if same w.guest_path guest_path
    then failed minus_eloop
    else checked (record w { guest_path = guest_path })
        (substitute_binding_stat env w.finality recursion_level guest_path)
arrived env recursion_level w (failed status) = failed status
arrived env recursion_level w asserts = asserts
arrived env recursion_level w out_of_fuel = out_of_fuel

is_final_normal : Finality → Bool
is_final_normal final_normal = true
is_final_normal _ = false

-- `again` is canonicalize itself, on a target, a guest path and a recursion level, with deref_final.
module _ (again : Bytes → Bytes → ℕ → Run Bytes) (env : Surroundings) (deref_final : Bool)
    (recursion_level : ℕ) where
  unfoldable pub follow : Walk → Run Destination → Run Turn
  unfolding arrived
  follow w (done (final_path path)) = done (returns path)
  follow w (done (target path)) =
      let followed = suc w.symlinks_followed in
      arrived env recursion_level (record w { symlinks_followed = followed })
        (again path w.guest_path (recursion_level + followed))
  follow w (failed status) = failed status
  follow w asserts = asserts
  follow w out_of_fuel = out_of_fuel

  -- The second join_paths of the source has the arguments of the first, and so its result.
  unfoldable pub on_file : Walk → Bytes → Bytes → Run (Bool × Bytes) → Run Turn
  unfolding follow dereference is_final_normal
  on_file w component joined_path (done (link, host_path)) =
      if not link || is_final_normal w.finality && not deref_final
      then done (continues (record w { guest_path = joined_path }))
      else follow w (dereference env w.finality w.guest_path component host_path)
  on_file w component joined_path (failed status) = failed status
  on_file w component joined_path asserts = asserts
  on_file w component joined_path out_of_fuel = out_of_fuel

  unfoldable pub on_name : Walk → Bytes → Bytes × ℤ → Run Turn
  unfolding on_file substitute_binding_stat
  on_name w component (scratch_path, status) =
      if is_negative status
      then failed status
      else on_file w component scratch_path
          (substitute_binding_stat env w.finality recursion_level scratch_path)

  unfoldable pub popped : Walk → Option Bytes → Run Turn
  unfolding is_final
  popped w none = asserts
  popped w (some guest_path) = done (
      continues (record w {
        guest_path = guest_path;
        finality = if is_final w.finality then final_slash else w.finality;
      }))

  -- `w` is the state behind next_component.
  unfoldable pub on_component : Walk → Bytes → Run Turn
  unfolding on_name popped is_final join_paths pop_component
  on_component w component =
      if same component (dot ∷ [])
      then done (
          continues (record w { finality = if is_final w.finality then final_dot else w.finality }))
      else if same component (dot ∷ dot ∷ [])
      then popped w (pop_component w.guest_path)
      else on_name w component (join_paths (some w.guest_path ∷ some component ∷ []))

  from_component : Walk → Option (Bytes × Bytes × Finality) → Run Turn
  unfolding on_component
  from_component w none = failed minus_enametoolong
  from_component w (some (component, cursor, finality)) =
      on_component (record w { cursor = cursor; finality = finality }) component

  unfoldable pub turn : Walk → Run Turn
  unfolding from_component next_component
  turn w = from_component w (next_component w.cursor)

  -- Behind a turn, with the rest of the loop from a state.
  behind_turn : (Walk → Run Turn) → Run Turn → Run Turn
  unfolding is_final
  behind_turn rest (done (continues w)) = if is_final w.finality then done (continues w) else rest w
  behind_turn rest (done (returns path)) = done (returns path)
  behind_turn rest (failed status) = failed status
  behind_turn rest asserts = asserts
  behind_turn rest out_of_fuel = out_of_fuel

  -- The loop of canonicalize. The rounds are the fuel.
  unfoldable pub walk : ℕ → Walk → Run Turn
  unfolding turn behind_turn
  walk zero w = out_of_fuel
  walk (suc rounds) w = behind_turn (walk rounds) (turn w)

appended_last : Bytes × ℤ → Run Bytes
appended_last (path, status) = if is_negative status then failed status else done path

-- The end of the first level of recursion.
ending : Bytes → Finality → Run Bytes
unfolding appended_last join_paths
ending guest_path final_normal = done guest_path
ending guest_path final_slash = appended_last (join_paths (some guest_path ∷ some [] ∷ []))
ending guest_path final_dot = appended_last (join_paths (some guest_path ∷ some (dot ∷ []) ∷ []))
ending guest_path not_final = asserts

unfoldable pub finish : ℕ → Run Turn → Run Bytes
unfolding ending
finish recursion_level (done (returns path)) = done path
finish recursion_level (done (continues w)) =
    if recursion_level == 0 then ending w.guest_path w.finality else done w.guest_path
finish recursion_level (failed status) = failed status
finish recursion_level asserts = asserts
finish recursion_level out_of_fuel = out_of_fuel

abbrev pub start_at : Bytes → Bytes → Walk
start_at user_path guest_path = record {
  cursor = user_path;
  guest_path = if byte_at user_path 0 == slash then slash ∷ [] else guest_path;
  finality = not_final;
  symlinks_followed = 0;
}

-- The first argument is the fuel of the recursion.
unfoldable pub canonicalize : ℕ → Surroundings → Bytes → Bool → Bytes → ℕ → Run Bytes
unfolding walk finish
canonicalize zero env user_path deref_final guest_path recursion_level = out_of_fuel
canonicalize (suc fuel) env user_path deref_final guest_path recursion_level =
    let again =
      λ (path : Bytes) (base : Bytes) (level : ℕ). canonicalize fuel env path true base level in
    if ltb env.max_symlinks recursion_level
    then failed minus_eloop
    else if leb path_max (length guest_path)
    then failed minus_enametoolong
    else if not (byte_at user_path 0 == slash) && not (byte_at guest_path 0 == slash)
    then failed minus_einval
    else finish recursion_level (
        walk again env deref_final recursion_level (length user_path + 1)
          (start_at user_path guest_path))
