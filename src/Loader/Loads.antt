-- ===== src/Loader/Loads.antt =====
-- What the loader of core/proot/src/main/cpp/loader does with the script of transfer_load_script: it
-- loads the program, then its interpreter, and starts.
use re_terminal.Prelude.{
  ℕ, suc, ◌+◌, ◌-◌, ◌*◌, ◌^◌, ◌≡◌, refl, ap, sym, ◌∙◌, Bool, true, false, Option, none, some, List,
  [], ◌∷◌, ◌++◌, append-nil, length, length-append, if◌then◌else◌, arith,
}
use re_terminal.Execve.Load.{page_floor, Mapping, LoadInfo}
use re_terminal.Execve.Exit.{
  transcript_mappings, Launch, string1_address, string2_address, open_next, stack_exec,
  start_statement, load_script,
}
use re_terminal.Loader.{
  Start, Event, closes, opens, protects_stack, on_stack_exec, on_start, on_action, interpret,
  start_loader,
}
use re_terminal.Loader.Runs.{
  Grants, all_mapped, at, count, after_open, reset_behind, base_when_reset, after_mappings_lem,
  mappings_run, open_runs, open_next_runs,
}
use re_terminal.Loader.Plan.{
  Loaded, program_loaded, interp_loaded, all_loaded, needs_stack, stack_events, start_of, ending_of,
  closing,
}

-- The rounds of the statements for an interpreter.
abbrev interp_count : Option LoadInfo → ℕ → ℕ
interp_count none n = n
interp_count (some interp) n = suc (count interp.mappings n)

module _ (answers : List Event → Event → ℕ) (grants : Grants answers) where
  start_runs :
      (n : ℕ) (traced : Bool) (start : Start) (r : Bool) (base fd : ℕ) (trace : List Event)
      → interpret answers
          (suc n)
          ((if traced then 5 else 6)
            ∷ start.stack_pointer
            ∷ start.entry_point
            ∷ start.at_phdr
            ∷ start.at_phent
            ∷ start.at_phnum
            ∷ start.at_entry
            ∷ start.at_execfn
            ∷ [])
          (at r base fd trace)
        ≡ (ending_of traced start, trace ++ closing fd base start)
  unfolding interpret on_action on_start
  start_runs n true start r base fd trace = rw (grants.grants_close trace fd) refl
  start_runs n false start r base fd trace = rw (grants.grants_close trace fd) refl

  stack_runs :
      (k : ℕ) (needs traced : Bool) (page : ℕ) (start : Start) (r : Bool) (base fd : ℕ)
      (trace : List Event)
      → interpret answers
          (suc (suc k))
          ((if needs then 4 ∷ page ∷ [] else [])
            ++ ((if traced then 5 else 6)
                ∷ start.stack_pointer
                ∷ start.entry_point
                ∷ start.at_phdr
                ∷ start.at_phent
                ∷ start.at_phnum
                ∷ start.at_entry
                ∷ start.at_execfn
                ∷ []))
          (at r base fd trace)
        ≡ (
          ending_of traced start,
          (trace ++ (if needs then protects_stack page ∷ [] else [])) ++ closing fd base start,
        )
  unfolding interpret on_action on_stack_exec
  stack_runs k true traced page start r base fd trace =
      start_runs k traced start r base fd (trace ++ (protects_stack page ∷ []))
  stack_runs k false traced page start r base fd trace =
      start_runs (suc k) traced start r base fd trace
      ∙ ap (λ t. (ending_of traced start, t ++ closing fd base start)) (sym (append-nil trace))

  -- Behind what is loaded.
  tail_runs :
      (k : ℕ) (launch : Launch) (first : ℕ) (r : Bool) (l : Loaded)
      → interpret answers
          (suc (suc k))
          (stack_exec launch ++ start_statement launch first)
          (at r l.base l.fd l.events)
        ≡ (
          ending_of launch.is_traced (start_of launch first),
          (l.events ++ stack_events launch) ++ closing l.fd l.base (start_of launch first),
        )
  unfolding stack_exec start_statement
  tail_runs k launch first r l =
      stack_runs k (needs_stack launch) launch.is_traced
        (page_floor launch.page_size launch.stack_pointer) (start_of launch first) r l.base l.fd
        l.events

  interp_runs :
      (n : ℕ) (launch : Launch) (o : Option LoadInfo) (words : List ℕ) (r : Bool) (l : Loaded)
      → let l' = interp_loaded answers (string2_address launch) o l in
        (r' : Bool) × (interpret answers
            (interp_count o n)
            (open_next launch o ++ words)
            (at r l.base l.fd l.events)
          ≡ interpret answers n words (at r' l'.base l'.fd l'.events))
  unfolding open_next after_open
  interp_runs n launch none words r l = (r, refl)
  interp_runs n launch (some interp) words r l =
      let address = string2_address launch in
      let ms = interp.mappings in
      let closed = l.events ++ (closes l.fd ∷ []) in
      let fd = answers closed (opens address) in
      let trace = closed ++ (opens address ∷ []) in
      (
        reset_behind true ms,
        open_next_runs answers grants (count ms n) address (transcript_mappings ms ++ words)
              (at r l.base l.fd l.events)
            ∙ (mappings_run answers grants n ms words (at true l.base fd trace)
                ∙ ap (interpret answers n words) (
                    after_mappings_lem ms true l.base fd trace
                    ∙ ap (λ b. at (reset_behind true ms) b fd (trace ++ all_mapped fd ms))
                        (base_when_reset l.base ms))),
      )

  program_runs :
      (n : ℕ) (launch : Launch) (words : List ℕ)
      → let l = program_loaded answers launch in
        (r : Bool) × (interpret answers
            (suc (count launch.info.mappings n))
            (1 ∷ string1_address launch ∷ (transcript_mappings launch.info.mappings ++ words))
            (at true 0 (2 ^ 64 - 1) [])
          ≡ interpret answers n words (at r l.base l.fd l.events))
  unfolding after_open
  program_runs n launch words =
      let address = string1_address launch in
      let ms = launch.info.mappings in
      let fd = answers [] (opens address) in
      let trace = opens address ∷ [] in
      (
        reset_behind true ms,
        open_runs answers grants (count ms n) address (transcript_mappings ms ++ words)
              (at true 0 (2 ^ 64 - 1) [])
            ∙ (mappings_run answers grants n ms words (at true 0 fd trace)
                ∙ ap (interpret answers n words) (
                    after_mappings_lem ms true 0 fd trace
                    ∙ ap (λ b. at (reset_behind true ms) b fd (trace ++ all_mapped fd ms))
                        (base_when_reset 0 ms))),
      )

  -- The script, with the rounds that it takes and any more.
  script_runs :
      (k : ℕ) (launch : Launch) (first : ℕ)
      → let l = all_loaded answers launch in
        interpret answers
          (suc (count launch.info.mappings (interp_count launch.interp (suc (suc k)))))
          (load_script launch first)
          (at true 0 (2 ^ 64 - 1) [])
        ≡ (
          ending_of launch.is_traced (start_of launch first),
          (l.events ++ stack_events launch) ++ closing l.fd l.base (start_of launch first),
        )
  unfolding load_script
  script_runs k launch first =
      let rest = stack_exec launch ++ start_statement launch first in
      let (r, p) =
        program_runs (interp_count launch.interp (suc (suc k))) launch
          (open_next launch launch.interp ++ rest) in
      let (r', i) =
        interp_runs (suc (suc k)) launch launch.interp rest r (program_loaded answers launch) in
      p ∙ (i ∙ tail_runs k launch first r' (all_loaded answers launch))

-- The rounds are fewer than the words.
count_lem : (ms : List Mapping) (n : ℕ) → count ms n ≡ length ms + n
count_lem [] n = omega arith
count_lem (m ∷ rest) n = omega (arith, count_lem rest n)

length-transcript_mappings : (ms : List Mapping) → length (transcript_mappings ms) ≡ 6 * length ms
unfolding transcript_mappings
length-transcript_mappings [] = refl
length-transcript_mappings (m ∷ rest) = omega (arith, length-transcript_mappings rest)

enough_interp :
    (launch : Launch) (o : Option LoadInfo) (k : ℕ)
    → (k' : ℕ) × (length (open_next launch o) + suc (suc k) ≡ interp_count o (suc (suc k')))
unfolding open_next
enough_interp launch none k = (k, omega arith)
enough_interp launch (some interp) k = (
  5 * length interp.mappings + 1 + k,
  omega (
    arith,
    count_lem interp.mappings (suc (suc (5 * length interp.mappings + 1 + k))),
    length-transcript_mappings interp.mappings,
  ),
)

enough_rounds :
    (launch : Launch) (first : ℕ)
    → (k : ℕ) × (length (load_script launch first)
        ≡ suc (count launch.info.mappings (interp_count launch.interp (suc (suc k)))))
unfolding load_script start_statement
enough_rounds launch first =
    let ms = launch.info.mappings in
    let stack = stack_exec launch in
    let start = start_statement launch first in
    let next = open_next launch launch.interp in
    let (k, e) = enough_interp launch launch.interp (length stack + 5 * length ms + 7) in
    (
      k,
      omega (
        arith,
        e,
        count_lem ms (interp_count launch.interp (suc (suc k))),
        length-transcript_mappings ms,
        length-append (transcript_mappings ms) (next ++ (stack ++ start)),
        length-append next (stack ++ start),
        length-append stack start,
      ),
    )

-- Where the kernel closes and opens files and maps pages where it is asked to, the loader, given a
-- load script of transfer_load_script, does this and nothing else, in this order: it opens the
-- program, makes each of its mappings and clears what it says, and, where there is an interpreter,
-- closes the program, opens the interpreter and makes its mappings; it makes the stack executable
-- where one of the two needs it, closes the last file, adjusts the auxiliary vectors, with the
-- address of the first mapping of the last file that has one for AT_BASE, sets the name, and ends
-- by a jump to the entry point of the interpreter, or else of the program, or by the execve that
-- tells it to a tracer.
pub start_loader-load_script :
    (answers : List Event → Event → ℕ) (launch : Launch) (first : ℕ)
    → Grants answers
    → let l = all_loaded answers launch in
      start_loader answers (load_script launch first) ≡ (
        ending_of launch.is_traced (start_of launch first),
        (l.events ++ stack_events launch) ++ closing l.fd l.base (start_of launch first),
      )
unfolding start_loader
start_loader-load_script answers launch first grants =
    let (k, e) = enough_rounds launch first in
    ap (λ rounds. interpret answers rounds (load_script launch first) (at true 0 (2 ^ 64 - 1) [])) e
    ∙ script_runs answers grants k launch first
