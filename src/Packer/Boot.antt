-- ===== src/Packer/Boot.antt =====
-- The kernel's loader, Kernel/moduleLoader.c, on what the packer of Toolchain/ModulePacker/main.c
-- writes.
use so_bare_bones.Common.{
  ℕ, suc, ◌+◌, ◌*◌, ◌^◌, ◌≤◌, ◌<◌, ◌≡◌, true, some, List, ◌∷◌, map, length, All, refl, ap, arith,
  subst, sym, ◌∙◌,
}
use so_bare_bones.Loader.{load_modules, build_payload, build_image}
use so_bare_bones.Loader.RoundTrip.{
  IsAt, IsAt-right, IsClear, AreDisjoint, Loaded, load_modules-build_payload,
}
use so_bare_bones.Number.{Text}
use so_bare_bones.Packer.{Stdio, Key, returned, packer_main, max_files}
use so_bare_bones.Packer.Files.{IsStdio}
use so_bare_bones.Packer.Image.{packed, all, length-map, packer_main_lem}
use so_bare_bones.Packer.Words.{is_complete, names_of, output_of}

packed-image :
    (c : Stdio) (content : c.Name → List ℕ) (output_file kernel : c.Name) (names : List c.Name)
    → all c.can_read (kernel ∷ names) ≡ true
    → c.can_create output_file ≡ true
    → packed c content output_file (kernel ∷ names)
      ≡ returned 0 (build_image (content kernel) (map content names))
unfolding packed
packed-image c content output_file kernel names r t = rw (r, t)

-- For every command line of at most 128 files that can be read, whose target can be made, the packer
-- returns 0, and its target is the image of the kernel and the modules. With this image in memory
-- from `base` on, as many addresses as there are modules, sizes that fit in 32 bits, and places for the
-- modules that meet neither each other nor the image, the loader, started behind the kernel, returns:
-- every module stands whole at its address, and no byte beside them has changed.
pub load_modules-packer_main :
    {c : Stdio} {content : c.Name → List ℕ} (io : IsStdio c content) (f : ℕ) (default : c.Name)
    (keys : List (Key c.Name)) (kernel : c.Name) (names : List c.Name) (targets : List ℕ)
    (text : Text) (base : ℕ)
    → is_complete keys ≡ true
    → names_of keys ≡ kernel ∷ names
    → length (kernel ∷ names) ≤ max_files
    → length names ≤ length targets
    → All (λ name. length (content name) < f * 128) (kernel ∷ names)
    → All (λ file. length file < 2 ^ 32) (map content names)
    → all c.can_read (kernel ∷ names) ≡ true
    → c.can_create (output_of default keys) ≡ true
    → IsAt text base (build_image (content kernel) (map content names))
    → IsClear
        (base + length (content kernel))
        (base + length (content kernel) + length (build_payload (map content names)))
        targets
        (map content names)
    → AreDisjoint targets (map content names)
    → (packer_main c (suc f) default keys
        ≡ some (returned 0 (build_image (content kernel) (map content names))))
      × Loaded text targets
          (map content names)
          (load_modules text (base + length (content kernel)) targets)
unfolding build_image
load_modules-packer_main {c} {content} io f default keys kernel names targets text base words files
      fit room short size readable create at clear apart =
    let payload = build_payload (map content names) in
    let count = length-map content names in
    let runs =
      packer_main_lem io f default keys words (subst (λ l. length l ≤ max_files) (sym files) fit)
        (subst (All (λ name. length (content name) < f * 128)) (sym files) short) in
    (
      runs
          ∙ ap some (
              rw files
                (packed-image c content (output_of default keys) kernel names readable create)),
      load_modules-build_payload (map content names) targets text (base + length (content kernel))
          (omega (arith, count)) (omega (arith, count)) size
          (IsAt-right text base (base + length (content kernel)) (content kernel) payload refl at)
          clear apart,
    )
