-- ===== src/Examples/Scripts.antt =====
-- Scripts of execve/shebang.c: "/r/x" is "#! /i a" and a newline, and every other file is no script.
use re_terminal.Prelude.{◌≡◌, refl, true, some, List, [], ◌∷◌, arith, same, if◌then◌else◌}
use re_terminal.Prelude.Int.{pos}
use re_terminal.Path.{Bytes}
use re_terminal.Path.Compare.{compare_paths, compare_paths2}
use re_terminal.Translate.{done}
use re_terminal.Execve.Script.{File, extract_shebang, last_byte, without_last}
use re_terminal.Execve.Script.Line.{Line, IsLine, written}
use re_terminal.Execve.Script.Parsed.{extract_shebang-written, extract_shebang-unterminated}
use re_terminal.Execve.Expand.{Host, Program, argv_of, expand_shebang}
use re_terminal.Execve.Expand.Interpreters.{Interprets, expand_shebang-Interprets}
use re_terminal.Examples.Translations.{guest, led, led_host}

-- "/i", and the first line of the script
abbrev interpreter : Bytes
interpreter = b'/' ∷ b'i' ∷ []

abbrev line : Line
line = record {
  leading = b' ' ∷ [];
  path = interpreter;
  gap = b' ' ∷ [];
  argument = b'a' ∷ [];
  trailing = [];
}

abbrev script_file : File
script_file = record { opened = pos 3; bytes = written line (10 ∷ []); ending = pos 0 }

line-IsLine : IsLine line
unfolding last_byte
line-IsLine = record {
  leading_blank = (refl, tt);
  path_word = (
    record { text = record { not_nul = refl; not_end = refl }; not_blank = refl },
    (record { text = record { not_nul = refl; not_end = refl }; not_blank = refl }, tt),
  );
  path_bytes = omega arith;
  gap_blank = (refl, tt);
  is_argument = (
    record { text = record { not_nul = refl; not_end = refl }; not_blank = refl },
    tt,
    refl,
    omega arith,
  );
  trailing_blank = tt;
}

extract_shebang-written_example :
    extract_shebang 128 script_file ≡ done (some (interpreter, b'a' ∷ []))
extract_shebang-written_example =
    extract_shebang-written 128 script_file line [] refl line-IsLine (omega arith) refl

-- "#!/i" and the end of the file
abbrev short_file : File
short_file = record { opened = pos 3; bytes = b'#' ∷ b'!' ∷ interpreter; ending = pos 0 }

extract_shebang-unterminated_example : extract_shebang 128 short_file ≡ done (some (b'/' ∷ [], []))
unfolding without_last
extract_shebang-unterminated_example =
    extract_shebang-unterminated 128 short_file [] interpreter refl refl tt line-IsLine.path_word
      (omega arith) (omega arith) refl

abbrev binary_file : File
binary_file = record { opened = pos 3; bytes = []; ending = pos 0 }

abbrev pub host : Host
host = record {
  env = guest;
  limit = 128;
  exists = λ (path : Bytes). true;
  is_executable = λ (path : Bytes). true;
  open_file = λ (path : Bytes). if same path led_host then script_file else binary_file;
  fetch_argv = done ((b'x' ∷ []) ∷ (b'y' ∷ []) ∷ []);
  push_argv = λ (argv : List Bytes). pos 0;
}

-- "/i", run as `/i a /x y`
abbrev pub expanded : Program
expanded = record {
  host_path = b'/' ∷ b'r' ∷ b'/' ∷ b'i' ∷ [];
  user_path = interpreter;
  argv = some (interpreter ∷ (b'a' ∷ []) ∷ led ∷ (b'y' ∷ []) ∷ []);
  has_shebang = true;
}

pub expansion : expand_shebang host led ≡ done expanded
unfolding expand_shebang same compare_paths2 compare_paths
expansion = refl

expand_shebang-Interprets_example :
    (last : List Bytes) × (argv_of host expanded.argv ≡ done last)
    × Interprets host led ((b'x' ∷ []) ∷ (b'y' ∷ []) ∷ []) interpreter expanded.host_path last
expand_shebang-Interprets_example =
    expand_shebang-Interprets host led ((b'x' ∷ []) ∷ (b'y' ∷ []) ∷ []) expanded refl expansion
