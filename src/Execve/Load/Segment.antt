-- ===== src/Execve/Load/Segment.antt =====
-- What add_mapping of core/proot/src/main/cpp/execve/enter.c maps for a PT_LOAD segment.
use re_terminal.Prelude.{
  ℕ, ◌+◌, ◌-◌, ◌%◌, ◌^◌, ◌<◌, ◌≤◌, ◌≡◌, refl, ◌⊎◌, inl, inr, true, false, ◌&&◌, List, [], ◌∷◌, ◌++◌,
  ltb, if_both, lt→ltb, All, arith,
}
use native.Mathlib.Nat.{mod-lt}
use re_terminal.Execve.Elf.{ProgramHeader}
use re_terminal.Execve.Load.{
  word, minus, Mapping, LoadInfo, add_mapping, page_floor, end_of, prot_of, file_mapping,
  zero_mappings,
}

-- The address is in the pages of the mapping.
abbrev pub Covers : Mapping → ℕ → Type 0
Covers mapping a = (mapping.addr ≤ a) × (a < mapping.addr + mapping.length)

-- The loader leaves the byte of the file at the offset there.
pub record ReadsFile (mapping : Mapping) (a offset : ℕ) : Type 0 where
  pub of_file : mapping.anonymous ≡ false
  pub covers : Covers mapping a
  pub not_cleared : a + mapping.clear_length < mapping.addr + mapping.length
  pub byte : mapping.offset + (a - mapping.addr) ≡ offset

-- The byte is zero: its page is anonymous, or it is among those that are cleared.
abbrev pub IsZeroed : Mapping → ℕ → Type 0
IsZeroed mapping a =
    Covers mapping a
    × ((mapping.anonymous ≡ true) ⊎ (mapping.addr + mapping.length ≤ a + mapping.clear_length))

-- Some mapping of a list.
abbrev pub Any {ℓ} : {A : Type ℓ} → (A → Type 0) → List A → Type 0
Any P [] = ⊥
Any P (x ∷ xs) = P x ⊎ Any P xs

-- The i-th byte of the segment, in a mapping: the byte of the file, or behind these a zero.
pub record Holds (header : ProgramHeader) (i : ℕ) (mapping : Mapping) : Type 0 where
  pub file_byte : i < header.filesz → ReadsFile mapping (header.vaddr + i) (header.offset + i)
  pub zero_byte : header.filesz ≤ i → IsZeroed mapping (header.vaddr + i)

-- A segment that a loader can map: its addresses and the ends of its pages are machine words, and it
-- stands in its page as it does in the file.
pub record IsLoadable (page_size : ℕ) (header : ProgramHeader) : Type 0 where
  pub has_pages : 0 < page_size
  pub filesz_le : header.filesz ≤ header.memsz
  pub fits : header.vaddr + header.memsz + page_size < 2 ^ 64
  pub congruent : header.vaddr % page_size ≡ header.offset % page_size

module _ (page_size : ℕ) (header : ProgramHeader) (h : IsLoadable page_size header) where
  floor_near : (n : ℕ) → (page_floor page_size n ≤ n) × (n < page_floor page_size n + page_size)
  floor_near n = (omega arith, omega (arith, h.has_pages, mod-lt n h.has_pages))

  -- The end of the pages behind n bytes of the segment.
  end_behind :
      (n : ℕ)
      → n ≤ header.memsz
      → (header.vaddr + n < end_of page_size header n)
        × (end_of page_size header n ≤ header.vaddr + n + page_size)
  end_behind n l =
      let t = header.vaddr + n + page_size in
      let same_word : word t ≡ t = omega (arith, l, h.fits) in
      let near = floor_near (word t) in
      (omega (arith, near.0, near.1, same_word), omega (arith, near.0, same_word))

  -- The first mapping holds the bytes of the file.
  file_bytes :
      (i : ℕ)
      → i < header.filesz
      → ReadsFile (file_mapping page_size header) (header.vaddr + i) (header.offset + i)
  unfolding file_mapping
  file_bytes i l =
      let e = end_behind header.filesz h.filesz_le in
      let v = floor_near header.vaddr in
      let o = floor_near header.offset in
      let fit = h.fits in
      let le = h.filesz_le in
      let same_place = h.congruent in
      record {
        of_file = refl;
        covers = (omega (arith, v.0), omega (arith, v.0, e.0, e.1, l, fit, le));
        not_cleared = ground (arith, v.0, e.0, e.1, l, fit, le);
        byte = omega (arith, v.0, o.0, same_place);
      }

  -- The bytes behind them, up to the end of its pages, are cleared.
  cleared_bytes :
      (i : ℕ)
      → header.filesz ≤ i
      → i < header.memsz
      → Covers (file_mapping page_size header) (header.vaddr + i)
      → IsZeroed (file_mapping page_size header) (header.vaddr + i)
  unfolding file_mapping
  cleared_bytes i p q c =
      let e = end_behind header.filesz h.filesz_le in
      let v = floor_near header.vaddr in
      let fit = h.fits in (c, inr (ground (arith, v.0, e.0, e.1, p, q, fit)))

  file_covers :
      (i : ℕ)
      → i < header.memsz
      → header.vaddr + i < end_of page_size header header.filesz
      → Covers (file_mapping page_size header) (header.vaddr + i)
  unfolding file_mapping
  file_covers i q l =
      let e = end_behind header.filesz h.filesz_le in
      let v = floor_near header.vaddr in
      let fit = h.fits in
      let le = h.filesz_le in (omega (arith, v.0), omega (arith, v.0, e.0, e.1, l, fit, le))

  file_mapping-Holds :
      (i : ℕ)
      → i < header.memsz
      → Covers (file_mapping page_size header) (header.vaddr + i)
      → Holds header i (file_mapping page_size header)
  file_mapping-Holds i q c = record {
    file_byte = λ l. file_bytes i l;
    zero_byte = λ p. cleared_bytes i p q c;
  }

  -- Where there are pages behind, they start where those of the file end.
  zero_mappings-Holds :
      (i : ℕ)
      → i < header.memsz
      → All
          (λ mapping. Covers mapping (header.vaddr + i) → Holds header i mapping)
          (zero_mappings page_size header)
  unfolding zero_mappings
  zero_mappings-Holds i q =
      let e = end_behind header.filesz h.filesz_le in
      if_both (All (λ mapping. Covers mapping (header.vaddr + i) → Holds header i mapping))
        (ltb header.filesz header.memsz
          && ltb (end_of page_size header header.filesz) (end_of page_size header header.memsz))
        (record {
          addr = end_of page_size header header.filesz;
          length =
              minus (end_of page_size header header.memsz) (end_of page_size header header.filesz);
          clear_length = 0;
          prot = prot_of header.flags;
          anonymous = true;
          offset = 0;
        }
          ∷ [])
        []
        (
          (λ c. record {
            file_byte = λ l. absurd (omega (arith, l, c.0, e.0));
            zero_byte = λ p. (c, inl refl);
          }),
          tt,
        )
        tt

  -- The byte is in the pages of the file, or in the zeroed pages.
  zero_covers :
      (i : ℕ)
      → i < header.memsz
      → end_of page_size header header.filesz ≤ header.vaddr + i
      → Any (λ mapping. Covers mapping (header.vaddr + i)) (zero_mappings page_size header)
  unfolding zero_mappings
  zero_covers i q l =
      let e = end_behind header.filesz h.filesz_le in
      let f = end_behind header.memsz (omega arith) in
      let fit = h.fits in
      let behind : end_of page_size header header.filesz < end_of page_size header header.memsz =
        omega (arith, l, f.0, q) in
      let more : header.filesz < header.memsz = omega (arith, e.0, l, q) in
      rw (lt→ltb _ _ more, lt→ltb _ _ behind)
        (inl (l, omega (arith, f.0, f.1, e.0, e.1, fit, behind, q)))

  some_covers :
      (i : ℕ)
      → i < header.memsz
      → (header.vaddr + i < end_of page_size header header.filesz)
        ⊎ (end_of page_size header header.filesz ≤ header.vaddr + i)
      → Any
          (λ mapping. Covers mapping (header.vaddr + i))
          (file_mapping page_size header ∷ zero_mappings page_size header)
  some_covers i q (inl l) = inl (file_covers i q l)
  some_covers i q (inr l) = inr (zero_covers i q l)

-- The mappings that are added cover the segment, and each gives the bytes that it covers their value.
pub add_mapping-Holds :
    (page_size : ℕ) (header : ProgramHeader) (info : LoadInfo)
    → IsLoadable page_size header
    → (new : List Mapping) × ((add_mapping page_size header info).mappings ≡ info.mappings ++ new)
      × ((i : ℕ)
          → i < header.memsz
          → Any (λ mapping. Covers mapping (header.vaddr + i)) new
            × All (λ mapping. Covers mapping (header.vaddr + i) → Holds header i mapping) new)
unfolding add_mapping
add_mapping-Holds page_size header info h = (
  file_mapping page_size header ∷ zero_mappings page_size header,
  refl,
  λ i q. (
    some_covers page_size header h i q (omega arith),
    (file_mapping-Holds page_size header h i q, zero_mappings-Holds page_size header h i q),
  ),
)
