-- ===== src/Start/Modules.antt =====
-- Where the modules behind the kernel go: `initializeKernelBinary` of Kernel/kernel.c.
use so_bare_bones.Common.{
  ℕ, ◌+◌, ◌-◌, ◌*◌, ◌^◌, ◌≤◌, ◌<◌, ◌≡◌, inr, some, List, [], ◌∷◌, length, refl, arith, ◌∙◌,
}
use so_bare_bones.Loader.{build_payload}
use so_bare_bones.Loader.RoundTrip.{IsAt, IsClear, AreDisjoint, AllAt, load_modules-build_payload}
use so_bare_bones.Number.{Text}
use so_bare_bones.Transfer.{memset}
use so_bare_bones.Transfer.Copied.{memset_lem}
use so_bare_bones.Start.{
  initialize_kernel_binary, get_stack_base, sample_code_module_address, sample_data_module_address,
}

-- Started with what the packer wrote of two modules in memory from `endOfKernelBinary` on, all of it
-- and the kernel below the first module's address, and the first module not longer than the room up to
-- the second's, the kernel leaves the modules whole at their addresses and its BSS zero, and returns
-- the stack's address.
pub initialize_kernel_binary-IsAt :
    (text : Text) (code data_bytes : List ℕ) (bss end_of_kernel_binary end_of_kernel : ℕ)
    → IsAt text end_of_kernel_binary (build_payload (code ∷ data_bytes ∷ []))
    → end_of_kernel_binary + length (build_payload (code ∷ data_bytes ∷ []))
      ≤ sample_code_module_address
    → length code ≤ sample_data_module_address - sample_code_module_address
    → length data_bytes < 2 ^ 32
    → bss ≤ end_of_kernel
    → end_of_kernel ≤ sample_code_module_address
    → (t : Text) × (initialize_kernel_binary text bss end_of_kernel_binary end_of_kernel
        ≡ some (t, end_of_kernel + 32 * 1024 - 8))
      × IsAt t sample_code_module_address code
      × IsAt t sample_data_module_address data_bytes
      × ((j : ℕ) → j < end_of_kernel - bss → t (bss + j) ≡ 0)
unfolding initialize_kernel_binary get_stack_base IsClear AreDisjoint AllAt
initialize_kernel_binary-IsAt text code data_bytes bss end_of_kernel_binary end_of_kernel payload
      room fits small order below =
    let targets = sample_code_module_address ∷ sample_data_module_address ∷ [] in
    let l =
      load_modules-build_payload (code ∷ data_bytes ∷ []) targets text end_of_kernel_binary
        (omega arith) (omega arith) (omega arith, (omega arith, tt)) payload
        (inr room, (inr (omega arith), tt)) ((inr (omega arith), tt), (tt, tt)) in
    let n = end_of_kernel - bss in
    let set = memset_lem l.after bss 0 n in
    let base : get_stack_base end_of_kernel ≡ end_of_kernel + 32 * 1024 - 8 = ground arith in
    (
      memset l.after bss 0 n,
      rw (l.runs, base) refl,
      (λ j lt. set.1 (sample_code_module_address + j) (omega arith) ∙ l.at.0 j lt),
      (λ j lt. set.1 (sample_data_module_address + j) (omega arith) ∙ l.at.1.0 j lt),
      set.0,
    )
