-- ===== src/Execve/Load/Complete.antt =====
-- extract_load_info of core/proot/src/main/cpp/execve/enter.c gives mappings for all that the program
-- headers of a file ask for.
use re_terminal.Prelude.{
  ℕ, ◌+◌, ◌<◌, ◌≡◌, ap, sym, subst, inl, inr, Option, none, some, List, [], ◌∷◌, ◌++◌, All, ◌==◌,
}
use re_terminal.Prelude.Int.{ℤ}
use re_terminal.Path.{Bytes}
use re_terminal.Translate.{Run, done, failed, asserts, out_of_fuel}
use re_terminal.Translate.Results.{Results, Results-if, Results-guard}
use re_terminal.Execve.Script.{c_string}
use re_terminal.Execve.Expand.{Host, translate_and_check_exec}
use re_terminal.Execve.Elf.{ElfHeader, ProgramHeader, ElfFile, open_elf}
use re_terminal.Execve.Elf.Walk.{open_elf-header, iterate_reaches}
use re_terminal.Execve.Load.{
  Mapping, LoadInfo, add_mapping, checked_interp, read_interp, single_interp, add_interp,
  add_load_info, with_header, extract_load_info,
}
use re_terminal.Execve.Load.Segment.{Any, Covers, Holds, IsLoadable, add_mapping-Holds}

Any-left : (P : Mapping → Type 0) (xs ys : List Mapping) → Any P xs → Any P (xs ++ ys)
Any-left P [] ys x = absurd x
Any-left P (x ∷ xs) ys (inl p) = inl p
Any-left P (x ∷ xs) ys (inr p) = inr (Any-left P xs ys p)

Any-right : (P : Mapping → Type 0) (xs ys : List Mapping) → Any P ys → Any P (xs ++ ys)
Any-right P [] ys p = p
Any-right P (x ∷ xs) ys p = inr (Any-right P xs ys p)

Any-All :
    (P Q : Mapping → Type 0) (xs : List Mapping) → Any P xs → All (λ x. P x → Q x) xs → Any Q xs
Any-All P Q [] x h = absurd x
Any-All P Q (x ∷ xs) (inl p) (f, fs) = inl (f p)
Any-All P Q (x ∷ xs) (inr p) (f, fs) = inr (Any-All P Q xs p fs)

-- Some mapping of the load information.
abbrev HasMapping : (Mapping → Type 0) → LoadInfo → Type 0
HasMapping P info = Any P info.mappings

module _ (host : Host) (page_size : ℕ) (file : ElfFile) where
  module _ (P : Mapping → Type 0) where
    checked-kept :
        (user_path : Bytes) (info : LoadInfo) (r : Run Bytes)
        → HasMapping P info
        → Results (HasMapping P) (checked_interp user_path info r)
    unfolding checked_interp
    checked-kept user_path info (done host_path) h = h
    checked-kept user_path info (failed status) h = tt
    checked-kept user_path info asserts h = tt
    checked-kept user_path info out_of_fuel h = tt

    read-kept :
        (header : ProgramHeader) (info : LoadInfo) (r : ℤ × Bytes)
        → HasMapping P info
        → Results (HasMapping P) (read_interp host header info r)
    unfolding read_interp
    read-kept header info (status, bytes) h =
        let checked =
          checked-kept (c_string bytes) info (translate_and_check_exec host (c_string bytes)) h in
        search (Results-guard, checked)

    single-kept :
        (header : ProgramHeader) (info : LoadInfo) (interp : Option (Bytes × Bytes))
        → HasMapping P info
        → Results (HasMapping P) (single_interp host file header info interp)
    unfolding single_interp
    single-kept header info (some interp) h = tt
    single-kept header info none h =
        read-kept header info (file.pread header.filesz header.offset) h

    interp-kept :
        (header : ProgramHeader) (info : LoadInfo)
        → HasMapping P info
        → Results (HasMapping P) (add_interp host file header info)
    unfolding add_interp
    interp-kept header info h = single-kept header info info.interp h

    mapping-kept :
        (header : ProgramHeader) (info : LoadInfo)
        → HasMapping P info
        → HasMapping P (add_mapping page_size header info)
    unfolding add_mapping
    mapping-kept header info h = Any-left P info.mappings _ h

    -- A program header takes no mapping away.
    add_load_info-kept :
        (header : ProgramHeader) (info : LoadInfo)
        → HasMapping P info
        → Results (HasMapping P) (add_load_info host page_size file header info)
    unfolding add_load_info
    add_load_info-kept header info h =
        let mapped = mapping-kept header info h in
        let read = interp-kept header info h in search (Results-if, mapped, read, h)

  -- PT_LOAD
  add_load_info-Holds :
      (header : ProgramHeader) (info : LoadInfo) (j : ℕ)
      → header.ptype ≡ 1
      → IsLoadable page_size header
      → j < header.memsz
      → Results (HasMapping (Holds header j)) (add_load_info host page_size file header info)
  unfolding add_load_info
  add_load_info-Holds header info j is_load h l =
      let added = add_mapping-Holds page_size header info h in
      let held = added.2 j l in
      rw (ap (λ n. n == 1) is_load) (
        subst (Any (Holds header j)) (sym added.1) (
          Any-right (Holds header j) info.mappings added.0 (
            Any-All (λ mapping. Covers mapping (header.vaddr + j)) (Holds header j) added.0 held.0
              held.1)))

  module _ (k j : ℕ) (reached : k < file.header.phnum)
      (is_load : (file.read_program_header k).1.ptype ≡ 1)
      (loadable : IsLoadable page_size (file.read_program_header k).1)
      (inside : j < (file.read_program_header k).1.memsz) where
    header-Holds :
        (info : LoadInfo) (r : Run ElfHeader)
        → Results (λ header. header ≡ file.header) r
        → Results
            (HasMapping (Holds (file.read_program_header k).1 j))
            (with_header host page_size file info r)
    unfolding with_header
    header-Holds info (done header) e =
        let walked =
          iterate_reaches (add_load_info host page_size file) file header
            (HasMapping (Holds (file.read_program_header k).1 j))
            (add_load_info-kept (Holds (file.read_program_header k).1 j)) k
            (λ a. add_load_info-Holds (file.read_program_header k).1 a j is_load loadable inside)
            (record info { elf_header = header })
            (subst (λ (h : ElfHeader). k < h.phnum) (sym e) reached) in
        search (Results-guard, walked)
    header-Holds info (failed status) e = tt
    header-Holds info asserts e = tt
    header-Holds info out_of_fuel e = tt

-- Where extract_load_info is done, for each program header of the file that is a PT_LOAD segment,
-- with its addresses and the ends of its pages below 2 ^ 64, at least as many bytes in memory as
-- in the file, and as its place in its page the one that its offset has: each byte of the segment
-- is in a mapping that gives it its value, the byte of the file at its offset where the file has
-- one, and else zero, in an anonymous page or among the bytes that are cleared.
pub extract_load_info-Holds :
    (host : Host) (page_size : ℕ) (file : ElfFile) (info info' : LoadInfo) (k j : ℕ)
    → k < file.header.phnum
    → (file.read_program_header k).1.ptype ≡ 1
    → IsLoadable page_size (file.read_program_header k).1
    → j < (file.read_program_header k).1.memsz
    → extract_load_info host page_size file info ≡ done info'
    → Any (Holds (file.read_program_header k).1 j) info'.mappings
unfolding extract_load_info
extract_load_info-Holds host page_size file info info' k j reached is_load loadable inside e =
    subst (Results (HasMapping (Holds (file.read_program_header k).1 j))) e (
      header-Holds host page_size file k j reached is_load loadable inside info (open_elf file)
        (open_elf-header file))
