-- ===== src/Loader/Runs.antt =====
-- What the loader of core/proot/src/main/cpp/loader does with the statements that map a file, where
-- the kernel grants all that it asks for.
use re_terminal.Prelude.{
  ℕ, suc, ◌≡◌, refl, ap, sym, ◌∙◌, Bool, true, false, List, [], ◌∷◌, ◌++◌, append_assoc, append-nil,
  ==_refl, length, if◌then◌else◌, if_both,
}
use re_terminal.Execve.Load.{Prot, Mapping}
use re_terminal.Execve.Exit.{prot_word, transcript_mappings}
use re_terminal.Loader.{
  Event, closes, opens, maps_file, maps_anonymous, Loader, is_error, does, opened, on_open,
  on_open_next, clearing, on_mmap_file, on_mmap_anon, on_action, interpret,
}

-- A kernel that does what it is asked: files open and close, and mappings are where they should be.
pub record Grants (answers : List Event → Event → ℕ) : Type 0 where
  pub grants_close : (t : List Event) (fd : ℕ) → is_error (answers t (closes fd)) ≡ false
  pub grants_open : (t : List Event) (address : ℕ) → is_error (answers t (opens address)) ≡ false
  pub grants_file :
      (t : List Event) (addr length prot fd offset : ℕ)
      → answers t (maps_file addr length prot fd offset) ≡ addr
  pub grants_anonymous :
      (t : List Event) (addr length prot : ℕ) → answers t (maps_anonymous addr length prot) ≡ addr

-- What is done for a mapping of an open file.
abbrev pub mapped : ℕ → Mapping → List Event
mapped fd m =
    if m.anonymous
    then maps_anonymous m.addr m.length (prot_word m.prot) ∷ []
    else maps_file m.addr m.length (prot_word m.prot) fd m.offset
      ∷ clearing m.addr m.length m.clear_length

abbrev pub all_mapped : ℕ → List Mapping → List Event
all_mapped fd [] = []
all_mapped fd (m ∷ rest) = mapped fd m ++ all_mapped fd rest

-- The variables behind a mapping.
unfoldable pub after_mapping : Loader → Mapping → Loader
after_mapping s m =
    if m.anonymous then record s { trace = s.trace ++ mapped s.fd m } else record s {
      at_base = if s.reset_at_base then m.addr else s.at_base;
      reset_at_base = false;
      trace = s.trace ++ mapped s.fd m;
    }

unfoldable pub after_mappings : Loader → List Mapping → Loader
after_mappings s [] = s
after_mappings s (m ∷ rest) = after_mappings (after_mapping s m) rest

-- The address of the first mapping of a file, or what was there.
abbrev pub first_file : ℕ → List Mapping → ℕ
first_file base [] = base
first_file base (m ∷ rest) = if m.anonymous then first_file base rest else m.addr

unfoldable pub base_behind : Bool → ℕ → List Mapping → ℕ
base_behind reset base [] = base
base_behind reset base (m ∷ rest) =
    if m.anonymous
    then base_behind reset base rest
    else base_behind false (if reset then m.addr else base) rest

unfoldable pub reset_behind : Bool → List Mapping → Bool
reset_behind reset [] = reset
reset_behind reset (m ∷ rest) =
    if m.anonymous then reset_behind reset rest else reset_behind false rest

pub base_when_kept : (base : ℕ) (mappings : List Mapping) → base_behind false base mappings ≡ base
unfolding base_behind
base_when_kept base [] = refl
base_when_kept base (m ∷ rest) =
    if_both (λ b. b ≡ base) m.anonymous (base_behind false base rest) (base_behind false base rest)
      (base_when_kept base rest) (base_when_kept base rest)

pub base_when_reset :
    (base : ℕ) (mappings : List Mapping) → base_behind true base mappings ≡ first_file base mappings
unfolding base_behind
base_when_reset base [] = refl
base_when_reset base (m ∷ rest) = rw (base_when_reset base rest, base_when_kept m.addr rest) refl

abbrev pub at : Bool → ℕ → ℕ → List Event → Loader
at reset base fd trace = record { reset_at_base = reset; at_base = base; fd = fd; trace = trace }

-- Behind a mapping, by its fields, and the others.
fields_after :
    (reset : Bool) (base fd : ℕ) (trace : List Event) (addr length clear_length : ℕ) (prot : Prot)
    (anonymous : Bool) (offset : ℕ) (rest : List Mapping)
    → let m : Mapping = record {
      addr = addr;
      length = length;
      clear_length = clear_length;
      prot = prot;
      anonymous = anonymous;
      offset = offset;
    } in
      ((reset' : Bool) (base' : ℕ) (trace' : List Event)
        → after_mappings (at reset' base' fd trace') rest
          ≡ at
              (reset_behind reset' rest)
              (base_behind reset' base' rest)
              fd
              (trace' ++ all_mapped fd rest))
      → after_mappings (after_mapping (at reset base fd trace) m) rest
        ≡ at
            (reset_behind reset (m ∷ rest))
            (base_behind reset base (m ∷ rest))
            fd
            (trace ++ all_mapped fd (m ∷ rest))
unfolding after_mapping base_behind reset_behind
fields_after reset base fd trace addr length clear_length prot true offset rest ih =
    let e = maps_anonymous addr length (prot_word prot) ∷ [] in
    ih reset base (trace ++ e)
    ∙ ap (at (reset_behind reset rest) (base_behind reset base rest) fd)
        (append_assoc trace e (all_mapped fd rest))
fields_after reset base fd trace addr length clear_length prot false offset rest ih =
    let e = maps_file addr length (prot_word prot) fd offset ∷ clearing addr length clear_length in
    let base' = if reset then addr else base in
    ih false base' (trace ++ e)
    ∙ ap (at (reset_behind false rest) (base_behind false base' rest) fd)
        (append_assoc trace e (all_mapped fd rest))

pub after_mappings_lem :
    (mappings : List Mapping) (reset : Bool) (base fd : ℕ) (trace : List Event)
    → after_mappings (at reset base fd trace) mappings
      ≡ at
          (reset_behind reset mappings)
          (base_behind reset base mappings)
          fd
          (trace ++ all_mapped fd mappings)
unfolding after_mappings reset_behind base_behind
after_mappings_lem [] reset base fd trace = ap (at reset base fd) (sym (append-nil trace))
after_mappings_lem (m ∷ rest) reset base fd trace =
    fields_after reset base fd trace m.addr m.length m.clear_length m.prot m.anonymous m.offset rest
      (λ r b t. after_mappings_lem rest r b fd t)

-- One round more for each mapping.
abbrev pub count : List Mapping → ℕ → ℕ
count [] n = n
count (m ∷ rest) n = suc (count rest n)

unfoldable pub after_open : (List Event → Event → ℕ) → Loader → ℕ → Loader
after_open answers s address = record s {
  fd = answers s.trace (opens address);
  reset_at_base = true;
  trace = s.trace ++ (opens address ∷ []);
}

module _ (answers : List Event → Event → ℕ) (grants : Grants answers) where
  -- By the fields of a mapping.
  fields_run :
      (n addr length clear_length : ℕ) (prot : Prot) (anonymous : Bool) (offset : ℕ)
      (words : List ℕ) (s : Loader)
      → interpret answers
          (suc n)
          ((if anonymous then 3 else 2)
            ∷ addr
            ∷ length
            ∷ prot_word prot
            ∷ offset
            ∷ clear_length
            ∷ words)
          s
        ≡ interpret answers n words (
            after_mapping s (record {
              addr = addr;
              length = length;
              clear_length = clear_length;
              prot = prot;
              anonymous = anonymous;
              offset = offset;
            }))
  unfolding interpret on_action on_mmap_anon on_mmap_file after_mapping
  fields_run n addr length clear_length prot true offset words s =
      rw (grants.grants_anonymous s.trace addr length (prot_word prot), ==_refl addr) refl
  fields_run n addr length clear_length prot false offset words s =
      rw (grants.grants_file s.trace addr length (prot_word prot) s.fd offset, ==_refl addr) refl

  pub mappings_run :
      (n : ℕ) (mappings : List Mapping) (words : List ℕ) (s : Loader)
      → interpret answers (count mappings n) (transcript_mappings mappings ++ words) s
        ≡ interpret answers n words (after_mappings s mappings)
  unfolding transcript_mappings after_mappings
  mappings_run n [] words s = refl
  mappings_run n (m ∷ rest) words s =
      fields_run (count rest n) m.addr m.length m.clear_length m.prot m.anonymous m.offset
        (transcript_mappings rest ++ words) s
      ∙ mappings_run n rest words (after_mapping s m)

  pub open_runs :
      (n address : ℕ) (words : List ℕ) (s : Loader)
      → interpret answers (suc n) (1 ∷ address ∷ words) s
        ≡ interpret answers n words (after_open answers s address)
  unfolding interpret on_action on_open opened after_open
  open_runs n address words s = rw (grants.grants_open s.trace address) refl

  pub open_next_runs :
      (n address : ℕ) (words : List ℕ) (s : Loader)
      → interpret answers (suc n) (0 ∷ address ∷ words) s
        ≡ interpret answers n words (after_open answers (does s (closes s.fd)) address)
  unfolding interpret on_action on_open_next on_open opened after_open
  open_next_runs n address words s =
      rw
        (
          grants.grants_close s.trace s.fd,
          grants.grants_open (s.trace ++ (closes s.fd ∷ [])) address,
        )
        refl
