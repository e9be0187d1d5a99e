-- ===== src/Loader.antt =====
-- The kernel image: how Toolchain/ModulePacker/main.c packs modules behind the kernel, and how
-- Kernel/moduleLoader.c finds them again in memory and copies them to their places.
--
-- A file is the list of its bytes, and memory a function from addresses to bytes.
pub mod RoundTrip
pub mod Tests
use so_bare_bones.Common.{
  ℕ, zero, suc, ◌+◌, ◌*◌, ◌-◌, ◌/◌, ◌%◌, ◌^◌, Option, none, some, List, [], ◌∷◌, ◌++◌, length,
}
use so_bare_bones.Number.{Text}
use so_bare_bones.Transfer.{memcpy}

-- The four bytes of a `uint32_t` as the machine stores it, the low one first.
unfoldable pub bytes32 : ℕ → List ℕ
bytes32 n = n % 256 ∷ n / 256 % 256 ∷ n / 65536 % 256 ∷ n / 16777216 % 256 ∷ []

-- `write_size`: the size of a file as a `uint32_t`.
unfoldable pub write_size : List ℕ → List ℕ
write_size file = bytes32 (length file)

-- The loop of `buildImage` over the modules behind the kernel: what it writes. `write_file` copies a
-- file as it is.
unfoldable pub build_modules : List (List ℕ) → List ℕ
build_modules [] = []
build_modules (file ∷ files) = write_size file ++ (file ++ build_modules files)

-- What `buildImage` writes behind the kernel: the number of modules, and each with its size.
unfoldable pub build_payload : List (List ℕ) → List ℕ
build_payload files = bytes32 (length files) ++ build_modules files

-- `buildImage` of the kernel's file and the modules' files.
unfoldable pub build_image : List ℕ → List (List ℕ) → List ℕ
build_image kernel files = kernel ++ build_payload files

-- `readUint32` of the bytes at an address: the number, and the address behind it.
unfoldable pub read_uint32 : Text → (address : ℕ) → ℕ × ℕ
read_uint32 text address = (
  text address
      + 256 * text (address + 1)
      + 65536 * text (address + 2)
      + 16777216 * text (address + 3),
  address + 4,
)

-- `loadModule`: memory behind it, and the address behind the module.
unfoldable pub load_module : Text → (module_at target_module_address : ℕ) → Text × ℕ
load_module text module_at target_module_address =
    let size = read_uint32 text module_at in
    (memcpy text target_module_address size.1 size.0, size.1 + size.0)

-- The loop of `loadModules`; `none` is a read past the array of addresses.
unfoldable pub load_loop :
    ℕ → Text → (current_module : ℕ) → (target_module_address : List ℕ) → Option Text
load_loop zero text current_module targets = some text
load_loop (suc n) text current_module [] = none
load_loop (suc n) text current_module (target ∷ targets) =
    let r = load_module text current_module target in load_loop n r.0 r.1 targets

unfoldable pub load_modules :
    Text → (payload_start : ℕ) → (target_module_address : List ℕ) → Option Text
load_modules text payload_start targets =
    let count = read_uint32 text payload_start in load_loop count.0 text count.1 targets
