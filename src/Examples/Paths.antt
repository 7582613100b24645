-- ===== src/Examples/Paths.antt =====
-- Paths of path/path.c and path/canon.c at work.
use re_terminal.Prelude.{◌≡◌, ◌≢◌, ◌↔◌, ◌⊎◌, inl, refl, some, [], ◌∷◌, arith}
use re_terminal.Prelude.Int.{pos}
use re_terminal.Path.{path1_is_prefix, path2_is_prefix, paths_are_equal}
use re_terminal.Path.Compare.{compare_paths}
use re_terminal.Path.Compare.Relation.{clean, relation, NoNul, compare_paths-relation}
use re_terminal.Path.Compare.Order.{IsUnder, compare_paths-IsUnder_iff}
use re_terminal.Path.Prefix.{substitute_path_prefix}
use re_terminal.Path.Prefix.Rebase.{root, sub, more, rebase_lem, moved, moved_roundtrip}
use re_terminal.Path.Join.{join_paths, pop_component}
use re_terminal.Path.Join.Pop.{pop_component-join_paths}
use re_terminal.Path.Component.{next_component, not_final}
use re_terminal.Path.Component.Splits.{IsSplit, next_component-IsSplit}
use re_terminal.Examples.{d_path, x_path}

d_NoNul : NoNul d_path
d_NoNul = (omega arith, (omega arith, tt))

x_NoNul : NoNul x_path
x_NoNul = (omega arith, (omega arith, (omega arith, (omega arith, tt))))

d_full : d_path ≢ []
d_full e = cc

x_full : x_path ≢ []
x_full e = cc

compare_paths-relation_example :
    compare_paths d_path x_path ≡ relation (clean d_path) (clean x_path)
compare_paths-relation_example = compare_paths-relation d_path x_path d_NoNul x_NoNul d_full x_full

compare_paths-IsUnder_iff_example :
    ((compare_paths d_path x_path ≡ paths_are_equal) ↔ (clean d_path ≡ clean x_path))
    × ((compare_paths d_path x_path ≡ path1_is_prefix) ↔ IsUnder (clean d_path) (clean x_path))
    × ((compare_paths d_path x_path ≡ path2_is_prefix) ↔ IsUnder (clean x_path) (clean d_path))
compare_paths-IsUnder_iff_example =
    compare_paths-IsUnder_iff d_path x_path d_NoNul x_NoNul d_full x_full

not_root : (sub b'd' [] ≢ root) ⊎ (sub b'r' [] ≢ root)
not_root = inl (λ e. cc)

rebase_lem_example :
    substitute_path_prefix x_path 2 (b'/' ∷ b'r' ∷ []) 2 ≡ (b'/' ∷ b'r' ∷ b'/' ∷ b'x' ∷ [], some 4)
rebase_lem_example = rebase_lem (sub b'd' []) (sub b'r' []) (more b'x' []) not_root (omega arith)

moved_roundtrip_example :
    moved (moved x_path (sub b'd' []) (sub b'r' [])) (sub b'r' []) (sub b'd' []) ≡ x_path
moved_roundtrip_example =
    moved_roundtrip (sub b'd' []) (sub b'r' []) (more b'x' []) not_root (omega arith) (omega arith)

pop_component-join_paths_example :
    ((join_paths (some d_path ∷ some (b'x' ∷ []) ∷ [])).1 ≡ pos 0)
    × (pop_component (join_paths (some d_path ∷ some (b'x' ∷ []) ∷ [])).0 ≡ some d_path)
pop_component-join_paths_example =
    pop_component-join_paths d_path b'x' [] (refl, refl) (omega arith, tt) (omega arith)

read_d : next_component x_path ≡ some (b'd' ∷ [], b'x' ∷ [], not_final)
unfolding next_component
read_d = refl

next_component-IsSplit_example : IsSplit x_path (b'd' ∷ []) (b'x' ∷ []) not_final
next_component-IsSplit_example =
    next_component-IsSplit x_path (b'd' ∷ []) (b'x' ∷ []) not_final read_d
