-- ===== src/Loader/Tests.antt =====
-- The loader on an image with two modules in memory.
use so_bare_bones.Common.{ℕ, ◌-◌, ◌≡◌, refl, ap, arith, some, none, Option, List, [], ◌∷◌, get_or}
use so_bare_bones.Loader.{
  build_payload, load_modules, bytes32, write_size, build_modules, read_uint32, load_module,
  load_loop,
}
use so_bare_bones.Loader.RoundTrip.{IsAt}
use so_bare_bones.Number.{Text}
use so_bare_bones.Transfer.{memcpy, byte_loop, word_loop, copy_word}

-- A memory with these bytes from `p` on.
abbrev pub held : (p : ℕ) → List ℕ → Text
held p bytes q = get_or bytes (q - p) 0

pub held-IsAt : (p : ℕ) (bytes : List ℕ) → IsAt (held p bytes) p bytes
held-IsAt p bytes j lt = ap (λ i. get_or bytes i 0) (omega arith)

abbrev code_module : List ℕ
code_module = 0x55 ∷ 0x48 ∷ 0x89 ∷ []

abbrev data_module : List ℕ
data_module = 7 ∷ []

-- Four bytes from the two addresses on.
abbrev shown : Option Text → List ℕ
shown none = []
shown (some t) = t 0x400000 ∷ t 0x400001 ∷ t 0x400002 ∷ t 0x500000 ∷ []

image_test :
    shown (
      load_modules
        (held 0x100000 (build_payload (code_module ∷ data_module ∷ [])))
        0x100000
        (0x400000 ∷ 0x500000 ∷ []))
    ≡ 0x55 ∷ 0x48 ∷ 0x89 ∷ 7 ∷ []
unfolding load_modules build_payload bytes32 write_size build_modules read_uint32 load_module
    load_loop memcpy byte_loop word_loop copy_word
image_test = refl
