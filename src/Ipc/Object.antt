-- ===== src/Ipc/Object.antt =====
-- The ids of IPC objects: LOOKUP_IPC_OBJECT and IPC_OBJECT_ID of sysvipc_internal.h, and the loop
-- by which msgget and semget look for a key or an unused slot.
pub mod Ids
use Prim.Native.Nat.{bit_or}
use re_terminal.Prelude.{
  ℕ, zero, suc, ◌+◌, ◌-◌, ◌*◌, ◌/◌, ◌%◌, ◌^◌, Bool, true, false, not, ◌&&◌, ◌||◌, Option, none,
  some, List, [], ◌∷◌, ltb, ◌==◌, length, get_elem?, if◌then◌else◌,
}
use re_terminal.Prelude.Int.{ℤ, to_int}

-- The fields that all kinds of objects share.
pub record Header : Type 0 where
  pub key : ℕ
  pub generation : ℕ
  pub valid : Bool

-- generation << 12, as the bit pattern of an int; the generation is an int16_t.
shifted_generation : ℕ → ℕ
shifted_generation g = if ltb g (2 ^ 15) then g * 2 ^ 12 else 2 ^ 32 - (2 ^ 16 - g) * 2 ^ 12

-- The id that is returned to the tracee, as an int.
unfoldable pub object_id : ℕ → ℕ → ℤ
unfolding shifted_generation
object_id index generation = to_int (bit_or ((index + 1) % 2 ^ 32) (shifted_generation generation))

-- generation != ((object_id >> 12) & 0xFFFF) compares an int16_t, promoted to int, with a number
-- that is not negative.
generation_matches : ℕ → ℕ → Bool
generation_matches generation id = ltb generation (2 ^ 15) && generation == (id / 2 ^ 12) % 2 ^ 16

-- The outcome of the loop over the slots: an object with the key, or none and the first unused
-- slot.
pub data Search {ℓ} (A : Type ℓ) : Type ℓ where
  found : ℕ → A → Search A
  missing : Option ℕ → Search A

or_first : Option ℕ → ℕ → Option ℕ
or_first none index = some index
or_first (some unused) index = some unused

module _ {ℓ} {A : Type ℓ} (header : A → Header) where
  check_object : ℕ → ℕ → Option A → Option (ℕ × A)
  unfolding generation_matches
  check_object id index none = none
  check_object id index (some object) =
      if not (header object).valid || not (generation_matches (header object).generation id)
      then none
      else some (index, object)

  -- `none` is -EINVAL.
  unfoldable pub lookup_object : ℕ → List A → Option (ℕ × A)
  unfolding check_object
  lookup_object arg objects =
      let id = arg % 2 ^ 32 in
      let object_index = id % 2 ^ 12 in
      if object_index == 0 || ltb (length objects) object_index
      then none
      else check_object id (object_index - 1) (get_elem? objects (object_index - 1))

  unfoldable pub find_slot : ℕ → ℕ → Option ℕ → List A → Search A
  unfolding or_first
  find_slot id index unused [] = missing unused
  find_slot id index unused (x ∷ xs) =
      let onwards = find_slot id (index + 1) unused xs in
      let with_slot = find_slot id (index + 1) (or_first unused index) xs in
      if (header x).valid
      then if not (id == 0) && (header x).key == id % 2 ^ 32 then found index x else onwards
      else with_slot
