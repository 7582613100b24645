-- ===== src/Ipc/Object/Ids.antt =====
-- Ids and lookups of extension/sysvipc/sysvipc_internal.h together.
use re_terminal.Prelude.{
  ℕ, ◌+◌, ◌≡◌, ◌<◌, ◌*◌, ◌^◌, ◌/◌, ◌%◌, true, none, some, arith, List, Option, ◌-◌, get_elem?,
  length,
}
use re_terminal.Prelude.Int.{pos}
use re_terminal.Prelude.Bits.{bit_or_disjoint}
use re_terminal.Ipc.Object.{
  Header, object_id, generation_matches, check_object, lookup_object, Option, List, get_elem?,
}
use Prim.Native.Nat.{ℕ}

-- Within the bounds of its two fields an id is their sum.
pub object_id-fields :
    (index generation : ℕ)
    → index + 1 < 2 ^ 12
    → generation < 2 ^ 15
    → object_id index generation ≡ pos (index + 1 + generation * 2 ^ 12)
unfolding object_id
object_id-fields index generation hi hg = ground (arith, bit_or_disjoint 12 (index + 1) generation)

matches :
    (index g : ℕ)
    → index + 1 < 2 ^ 12
    → g < 2 ^ 15
    → generation_matches g (index + 1 + g * 2 ^ 12) ≡ true
unfolding generation_matches
matches index g hi hg = ground arith

module _ {ℓ} {A : Type ℓ} (header : A → Header) where
  check_object-eq :
      (id index : ℕ) (o : Option A) (i : ℕ) (object : A)
      → check_object header id index o ≡ some (i, object)
      → (i ≡ index)
        × (o ≡ some object)
        × ((header object).valid ≡ true)
        × ((header object).generation ≡ (id / 2 ^ 12) % 2 ^ 16)
  unfolding check_object generation_matches
  check_object-eq id index none i object h = cc
  check_object-eq id index (some x) i object h = ground arith

  -- What a lookup finds is a valid object in its slot, whose generation is the one that the id
  -- names.
  pub lookup_object_sound :
      (arg : ℕ) (objects : List A) (i : ℕ) (object : A)
      → lookup_object header arg objects ≡ some (i, object)
      → (get_elem? objects i ≡ some object)
        × ((header object).valid ≡ true)
        × ((header object).generation ≡ (arg % 2 ^ 32 / 2 ^ 12) % 2 ^ 16)
  unfolding lookup_object
  lookup_object_sound arg objects i object h =
      let id = arg % 2 ^ 32 in
      let k = id % 2 ^ 12 in
      let (e, f, v, g) =
        check_object-eq id (k - 1) (get_elem? objects (k - 1)) i object (ground arith) in
      (rw e f, v, g)

  check_object-found :
      (id index i : ℕ) (o : Option A) (object : A)
      → i ≡ index
      → o ≡ some object
      → (header object).valid ≡ true
      → generation_matches (header object).generation id ≡ true
      → check_object header id i o ≡ some (index, object)
  unfolding check_object
  check_object-found id index i o object e f v g = rw (e, f) (unfold check_object in ground arith)

  -- For a valid object in a slot of its list, with an index below 4095 and a generation below 2 ^
  -- 15, its id is not negative, and the lookup of that id finds the object in that slot.
  pub lookup-object_id :
      (index : ℕ) (object : A) (objects : List A)
      → get_elem? objects index ≡ some object
      → (header object).valid ≡ true
      → index + 1 < 2 ^ 12
      → index < length objects
      → (header object).generation < 2 ^ 15
      → (id : ℕ) × (object_id index (header object).generation ≡ pos id)
        × (lookup_object header id objects ≡ some (index, object))
  unfolding lookup_object
  lookup-object_id index object objects e v hi hl hg =
      let g = (header object).generation in
      let id = index + 1 + g * 2 ^ 12 in
      let small : id % 2 ^ 32 ≡ id = omega arith in
      let slot : id % 2 ^ 12 ≡ index + 1 = omega arith in
      let back : index + 1 - 1 ≡ index = omega arith in
      let hit : check_object header id (index + 1 - 1) (get_elem? objects (index + 1 - 1))
          ≡ some (index, object) =
        check_object-found id index (index + 1 - 1) (get_elem? objects (index + 1 - 1)) object back
          (rw back e) v (matches index g hi hg) in
      (id, object_id-fields index g hi hg, rw small (rw slot (ground arith)))
