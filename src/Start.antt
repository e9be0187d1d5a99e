-- ===== src/Start.antt =====
-- The start of the kernel, Kernel/kernel.c, and of the user's module, Userland/SampleCodeModule/_loader.c
-- and sampleCodeModule.c.
--
-- `sp` is what `getSP` gives. The addresses of `bss`, `endOfKernelBinary`, `endOfKernel` and
-- `endOfBinary` are the linker's.
pub mod Main
pub mod Modules
mod Tests
use mathlib.Core.Option
use so_bare_bones.Common.{
  ℕ, zero, suc, ◌+◌, ◌-◌, ◌*◌, ◌%◌, ◌^◌, Option, none, some, List, [], ◌∷◌, add64, sub64,
}
use so_bare_bones.Number.{Text, store}
use so_bare_bones.Idt.{Table, Handlers, load_idt}
use so_bare_bones.Loader.{load_modules}
use so_bare_bones.Stress.{Seed, Message, Literals, shell}
use so_bare_bones.System.{System, initial_state_snapshot}
use so_bare_bones.Transfer.{memset}

abbrev pub page_size : ℕ
page_size = 0x1000

abbrev pub sample_code_module_address : ℕ
sample_code_module_address = 0x400000

abbrev pub sample_data_module_address : ℕ
sample_data_module_address = 0x500000

abbrev pub clear_bss : Text → (bss_address bss_size : ℕ) → Text
clear_bss text bss_address bss_size = memset text bss_address 0 bss_size

unfoldable pub get_stack_base : (end_of_kernel : ℕ) → ℕ
get_stack_base end_of_kernel = sub64 (add64 end_of_kernel (page_size * 8)) 8

-- Memory, and the address of the stack.
unfoldable pub initialize_kernel_binary :
    Text → (bss end_of_kernel_binary end_of_kernel : ℕ) → Option (Text × ℕ)
initialize_kernel_binary text bss end_of_kernel_binary end_of_kernel =
    Option.map (λ t. (clear_bss t bss (end_of_kernel - bss), get_stack_base end_of_kernel))
      (load_modules text end_of_kernel_binary
        (sample_code_module_address ∷ sample_data_module_address ∷ []))

-- `_start` of the user's module; its `memset` is the kernel's, word for word. `main` calls `shell`.
unfoldable pub user_start :
    (uniform : ℕ → ℕ → ℕ)
    → (fuel : ℕ) → Literals
    → System
    → (bss end_of_binary : ℕ) → Option (System × Seed × List Message)
user_start uniform fuel l s bss end_of_binary = shell uniform fuel l (record s {
  screen = record s.screen { vram = memset s.screen.vram bss 0 (end_of_binary - bss) };
})

-- The table, the masks of the controllers, and what the user's module leaves.
pub record Started : Type 0 where
  pub table : Table
  pub masks : ℕ × ℕ
  pub run : System × Seed × List Message

-- `main` of the kernel.
unfoldable pub kernel_main :
    (uniform : ℕ → ℕ → ℕ)
    → (fuel : ℕ) → Literals
    → System
    → Table
    → Handlers
    → (sp bss end_of_binary : ℕ) → Option Started
kernel_main uniform fuel l s table h sp bss end_of_binary =
    let loaded = load_idt table h in
    let s' = record s { timer = initial_state_snapshot s.timer sample_code_module_address sp } in
    Option.map (λ run. record { table = loaded.0; masks = loaded.1; run = run })
      (user_start uniform fuel l s' bss end_of_binary)
