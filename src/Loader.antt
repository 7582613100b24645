-- ===== src/Loader.antt =====
-- core/proot/src/main/cpp/loader: the program that loads a guest program from within its process, by
-- the load script of loader/script.h. A script is the list of its 64-bit words.
pub mod Clear
pub mod Runs
pub mod Plan
pub mod Loads
use re_terminal.Prelude.{
  ℕ, zero, suc, ◌+◌, ◌-◌, ◌%◌, ◌^◌, Bool, true, false, not, List, [], ◌∷◌, ◌++◌, leb, ◌==◌, length,
  if◌then◌else◌,
}

-- The statement of LOAD_ACTION_START and LOAD_ACTION_START_TRACED.
pub record Start : Type 0 where
  pub stack_pointer : ℕ
  pub entry_point : ℕ
  pub at_phdr : ℕ
  pub at_phent : ℕ
  pub at_phnum : ℕ
  pub at_entry : ℕ
  pub at_execfn : ℕ

-- What the loader does to its process: system calls, `clears` of bytes from an address to another,
-- and `adjusts` of the auxiliary vectors, with AT_BASE.
pub data Event : Type 0 where
  closes : ℕ → Event
  opens : ℕ → Event
  maps_file : (addr length prot fd offset : ℕ) → Event
  maps_anonymous : (addr length prot : ℕ) → Event
  clears : (start stop : ℕ) → Event
  protects_stack : ℕ → Event
  adjusts : Start → ℕ → Event
  names : ℕ → Event

-- FATAL(), BRANCH to the entry point with the stack pointer, the execve(2) that tells a tracer that
-- the loader is done, or words that the script does not have.
pub data Ending : Type 0 where
  fatal : Ending
  branches : (stack_pointer entry_point : ℕ) → Ending
  executes : (stack_pointer entry_point : ℕ) → Ending
  unknown : Ending

abbrev pub Outcome : Type 0
Outcome = Ending × List Event

-- The variables of _start, and what it has done so far.
pub record Loader : Type 0 where
  pub reset_at_base : Bool
  pub at_base : ℕ
  pub fd : ℕ
  pub trace : List Event

-- (int) status < 0
unfoldable pub is_error : ℕ → Bool
is_error status = leb (2 ^ 31) (status % 2 ^ 32)

abbrev pub does : Loader → Event → Loader
does s e = record s { trace = s.trace ++ (e ∷ []) }

-- The bytes to clear at the end of a mapping.
unfoldable pub clearing : ℕ → ℕ → ℕ → List Event
clearing addr length clear_length =
    if clear_length == 0
    then []
    else clears ((addr + length + (2 ^ 64 - clear_length)) % 2 ^ 64) ((addr + length) % 2 ^ 64) ∷ []

-- The kernel answers a call by what was done before. `onwards` goes on with the words behind.
module _ (answers : List Event → Event → ℕ) where
  unfoldable pub opened : (List ℕ → Loader → Outcome) → Loader → ℕ → List ℕ → ℕ → Outcome
  unfolding is_error
  opened onwards s address rest fd =
      let s' = record s {
        fd = fd;
        reset_at_base = true;
        trace = s.trace ++ (opens address ∷ []);
      } in
      if is_error fd then (fatal, s'.trace) else onwards rest s'

  -- LOAD_ACTION_OPEN
  unfoldable pub on_open : (List ℕ → Loader → Outcome) → Loader → List ℕ → Outcome
  unfolding opened
  on_open onwards s [] = (unknown, s.trace)
  on_open onwards s (address ∷ rest) =
      opened onwards s address rest (answers s.trace (opens address))

  -- LOAD_ACTION_OPEN_NEXT
  unfoldable pub on_open_next : (List ℕ → Loader → Outcome) → Loader → List ℕ → Outcome
  unfolding on_open is_error
  on_open_next onwards s words =
      let s' = does s (closes s.fd) in
      if is_error (answers s.trace (closes s.fd))
      then (fatal, s'.trace)
      else on_open onwards s' words

  -- LOAD_ACTION_MMAP_FILE
  unfoldable pub on_mmap_file : (List ℕ → Loader → Outcome) → Loader → List ℕ → Outcome
  unfolding clearing
  on_mmap_file onwards s (addr ∷ length ∷ prot ∷ offset ∷ clear_length ∷ rest) =
      let e = maps_file addr length prot s.fd offset in
      let s' = record s {
        at_base = if s.reset_at_base then addr else s.at_base;
        reset_at_base = false;
        trace = s.trace ++ (e ∷ clearing addr length clear_length);
      } in
      if answers s.trace e == addr then onwards rest s' else (fatal, s.trace ++ (e ∷ []))
  on_mmap_file onwards s _ = (unknown, s.trace)

  -- LOAD_ACTION_MMAP_ANON
  unfoldable pub on_mmap_anon : (List ℕ → Loader → Outcome) → Loader → List ℕ → Outcome
  on_mmap_anon onwards s (addr ∷ length ∷ prot ∷ offset ∷ clear_length ∷ rest) =
      let e = maps_anonymous addr length prot in
      if answers s.trace e == addr then onwards rest (does s e) else (fatal, s.trace ++ (e ∷ []))
  on_mmap_anon onwards s _ = (unknown, s.trace)

  -- LOAD_ACTION_MAKE_STACK_EXEC: the status of mprotect(2) is not read.
  unfoldable pub on_stack_exec : (List ℕ → Loader → Outcome) → Loader → List ℕ → Outcome
  on_stack_exec onwards s [] = (unknown, s.trace)
  on_stack_exec onwards s (start ∷ rest) = onwards rest (does s (protects_stack start))

  -- LOAD_ACTION_START and LOAD_ACTION_START_TRACED
  unfoldable pub on_start : Bool → Loader → List ℕ → Outcome
  unfolding is_error
  on_start traced s (sp ∷ entry ∷ phdr ∷ phent ∷ phnum ∷ at_entry ∷ execfn ∷ rest) =
      let start : Start = record {
        stack_pointer = sp;
        entry_point = entry;
        at_phdr = phdr;
        at_phent = phent;
        at_phnum = phnum;
        at_entry = at_entry;
        at_execfn = execfn;
      } in
      let ended = closes s.fd ∷ adjusts start s.at_base ∷ names execfn ∷ [] in
      if is_error (answers s.trace (closes s.fd))
      then (fatal, s.trace ++ (closes s.fd ∷ []))
      else ((if traced then executes sp entry else branches sp entry), s.trace ++ ended)
  on_start traced s _ = (unknown, s.trace)

  unfoldable pub on_action : (List ℕ → Loader → Outcome) → Loader → ℕ → List ℕ → Outcome
  unfolding on_open_next on_open on_mmap_file on_mmap_anon on_stack_exec on_start
  on_action onwards s action rest =
      if action == 0
      then on_open_next onwards s rest
      else if action == 1
      then on_open onwards s rest
      else if action == 2
      then on_mmap_file onwards s rest
      else if action == 3
      then on_mmap_anon onwards s rest
      else if action == 4
      then on_stack_exec onwards s rest
      else if action == 5
      then on_start true s rest
      else if action == 6
      then on_start false s rest
      else (fatal, s.trace)

  -- The loop, with rounds to go.
  unfoldable pub interpret : ℕ → List ℕ → Loader → Outcome
  unfolding on_action
  interpret zero words s = (unknown, s.trace)
  interpret (suc rounds) [] s = (unknown, s.trace)
  interpret (suc rounds) (action ∷ rest) s = on_action (interpret rounds) s action rest

-- A statement has a word at least, and so as many rounds as words are enough.
unfoldable pub start_loader : (List Event → Event → ℕ) → List ℕ → Outcome
unfolding interpret
start_loader answers words =
    interpret answers (length words) words
      (record { reset_at_base = true; at_base = 0; fd = 2 ^ 64 - 1; trace = [] })
