-- ===== src/Examples.antt =====
-- The theorems at concrete inputs, and the data that they share.
pub mod Paths
pub mod Bindings
pub mod Heaps
pub mod Messages
pub mod Semaphores
pub mod Translations
pub mod FakeIds
pub mod Scripts
pub mod Chains
pub mod Memories
pub mod Programs
pub mod Loaders
use re_terminal.Prelude.{ℕ, List, [], ◌∷◌}
use re_terminal.Path.{Bytes}

-- "/r" and "/d"
abbrev pub r_path : Bytes
r_path = b'/' ∷ b'r' ∷ []

abbrev pub d_path : Bytes
d_path = b'/' ∷ b'd' ∷ []

-- "/d/x"
abbrev pub x_path : Bytes
x_path = b'/' ∷ b'd' ∷ b'/' ∷ b'x' ∷ []
