-- ===== src/Examples/Translations.antt =====
-- The translation of path/canon.c and path/path.c, in a guest whose "/d" is a link to "x".
use re_terminal.Prelude.{
  ◌≡◌, ◌≢◌, refl, inl, Bool, true, false, none, [], ◌∷◌, arith, same, if◌then◌else◌,
}
use re_terminal.Prelude.Int.{ℤ, pos}
use re_terminal.Path.{Bytes}
use re_terminal.Path.Compare.{compare_paths, compare_paths2}
use re_terminal.Translate.{Surroundings, directory, symlink, done, out_of_fuel}
use re_terminal.Translate.Canon.{canonicalize}
use re_terminal.Translate.Canon.Terminates.{canonicalize_terminates}
use re_terminal.Translate.Canon.Safe.{IsCanonicalized, canonicalize-IsCanonicalized}
use re_terminal.Translate.Whole.{translate_path}
use re_terminal.Translate.Whole.Contained.{IsImage, translate_path-IsImage}
use re_terminal.Examples.{d_path}
use re_terminal.Examples.Bindings.{root_path, one}

-- "/r/d", "/x" and "/r/x"
abbrev linked : Bytes
linked = b'/' ∷ b'r' ∷ b'/' ∷ b'd' ∷ []

abbrev pub led : Bytes
led = b'/' ∷ b'x' ∷ []

abbrev pub led_host : Bytes
led_host = b'/' ∷ b'r' ∷ b'/' ∷ b'x' ∷ []

abbrev pub guest : Surroundings
guest = record {
  bindings = one;
  max_symlinks = 8;
  pid = pos 7;
  cwd = root_path;
  known = λ (pid : ℤ). none;
  host_event = λ (path : Bytes) (last : Bool). (pos 0, path);
  guest_event = λ (base : Bytes) (path : Bytes). (pos 0, base);
  translated_event = λ (path : Bytes). (pos 0, path);
  skips_access = λ (path : Bytes). false;
  lstat = λ (path : Bytes). if same path linked then symlink else directory;
  read_link = λ (path : Bytes). (pos 1, b'x' ∷ []);
}

canonicalized : canonicalize 42 guest d_path true root_path 0 ≡ done led
unfolding canonicalize same compare_paths2 compare_paths
canonicalized = refl

translated : translate_path guest none d_path true ≡ done led_host
unfolding translate_path same compare_paths2 compare_paths
translated = refl

canonicalize_terminates_example : canonicalize 42 guest d_path true root_path 0 ≢ out_of_fuel
canonicalize_terminates_example =
    canonicalize_terminates 42 guest d_path true root_path 0 (omega arith) (omega arith)

canonicalize-IsCanonicalized_example : IsCanonicalized 0 led
canonicalize-IsCanonicalized_example =
    canonicalize-IsCanonicalized 42 guest d_path true root_path led 0 (inl refl) canonicalized

translate_path-IsImage_example : IsImage guest led_host
translate_path-IsImage_example =
    translate_path-IsImage guest none d_path true led_host (λ base path. refl) translated
