-- ===== src/Execve/Elf/Walk.antt =====
-- What iterate_program_headers of core/proot/src/main/cpp/execve/elf.c brings about: a callback that
-- keeps what one program header has made it do has done it at the end.
use re_terminal.Prelude.{ℕ, zero, suc, ◌+◌, ◌<◌, ◌≤◌, ◌≡◌, sym, subst, ◌⊎◌, inl, inr, not, arith}
use re_terminal.Prelude.Int.{ℤ, pos, eqb_ℤ}
use re_terminal.Translate.{Run, done, failed, asserts, out_of_fuel}
use re_terminal.Translate.Results.{Results, Results-if, Results-guard}
use re_terminal.Execve.Elf.{
  ElfHeader, ProgramHeader, ElfFile, open_elf, on_called, on_read, each_header,
  iterate_program_headers,
}

-- The header that open_elf gives is that of the file.
pub open_elf-header : (file : ElfFile) → Results (λ header. header ≡ file.header) (open_elf file)
unfolding open_elf
open_elf-header file = search Results-guard

module _ {A : Type 0} (callback : ProgramHeader → A → Run A) (file : ElfFile) (header : ElfHeader)
    (Q : A → Type 0) where
  called-Results :
      (onwards : A → Run A) (r : Run A)
      → ((a : A) → Q a → Results Q (onwards a))
      → Results Q r
      → Results Q (on_called callback file header onwards r)
  unfolding on_called
  called-Results onwards (done a) f h = f a h
  called-Results onwards (failed status) f h = tt
  called-Results onwards asserts f h = tt
  called-Results onwards out_of_fuel f h = tt

  read-Results :
      (onwards : A → Run A) (a : A) (r : ℤ × ProgramHeader)
      → ((a' : A) → Q a' → Results Q (onwards a'))
      → Results Q (callback (r.1) a)
      → Results Q (on_read callback file header onwards a r)
  unfolding on_read
  read-Results onwards a (status, program_header) f h =
      Results-if Q (not (eqb_ℤ status (pos header.phentsize))) _ _ (λ e. tt)
        (λ e. called-Results onwards (callback program_header a) f h)

  called_any :
      (onwards : A → Run A) (r : Run A)
      → ((a : A) → Results Q (onwards a))
      → Results Q (on_called callback file header onwards r)
  unfolding on_called
  called_any onwards (done a) f = f a
  called_any onwards (failed status) f = tt
  called_any onwards asserts f = tt
  called_any onwards out_of_fuel f = tt

  read_any :
      (onwards : A → Run A) (a : A) (r : ℤ × ProgramHeader)
      → ((a' : A) → Results Q (onwards a'))
      → Results Q (on_read callback file header onwards a r)
  unfolding on_read
  read_any onwards a (status, program_header) f =
      Results-if Q (not (eqb_ℤ status (pos header.phentsize))) _ _ (λ e. tt)
        (λ e. called_any onwards (callback program_header a) f)

  module _ (kept : (h : ProgramHeader) (a : A) → Q a → Results Q (callback h a)) where
    keeps : (n i : ℕ) (a : A) → Q a → Results Q (each_header callback file header n i a)
    unfolding each_header
    keeps zero i a q = q
    keeps (suc n) i a q =
        read-Results (each_header callback file header n (i + 1)) a (file.read_program_header i)
          (λ a' q'. keeps n (i + 1) a' q') (kept ((file.read_program_header i).1) a q)

    module _ (k : ℕ)
        (made : (a : A) → Results Q (callback ((file.read_program_header k).1) a)) where
      -- The i-th header is the one, or one before it.
      reads_one :
          (onwards : A → Run A) (i : ℕ) (a : A)
          → (i < k → (a' : A) → Results Q (onwards a'))
          → ((a' : A) → Q a' → Results Q (onwards a'))
          → (i < k) ⊎ (i ≡ k)
          → Results Q (on_read callback file header onwards a (file.read_program_header i))
      reads_one onwards i a later kept_on (inl l) =
          read_any onwards a (file.read_program_header i) (later l)
      reads_one onwards i a later kept_on (inr e) =
          read-Results onwards a (file.read_program_header i) kept_on
            (subst (λ j. Results Q (callback ((file.read_program_header j).1) a)) (sym e) (made a))

      reaches :
          (n i : ℕ) (a : A) → i ≤ k → k < i + n → Results Q (each_header callback file header n i a)
      unfolding each_header
      reaches zero i a p l = absurd (omega (arith, p, l))
      reaches (suc n) i a p l =
          reads_one (each_header callback file header n (i + 1)) i a
            (λ q a'. reaches n (i + 1) a' (omega (arith, q)) (omega (arith, l)))
            (λ a' q. keeps n (i + 1) a' q) (omega (arith, p))

      -- The walk reaches the header.
      pub iterate_reaches :
          (a : A) → k < header.phnum → Results Q (iterate_program_headers callback file header a)
      unfolding iterate_program_headers
      iterate_reaches a l =
          let walked = reaches header.phnum 0 a (omega arith) (omega (arith, l)) in
          search (Results-guard, walked)

    -- The walk keeps it.
    pub iterate_keeps : (a : A) → Q a → Results Q (iterate_program_headers callback file header a)
    unfolding iterate_program_headers
    iterate_keeps a q = let walked = keeps header.phnum 0 a q in search (Results-guard, walked)
