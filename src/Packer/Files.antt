-- ===== src/Packer/Files.antt =====
-- `write_file`, `write_size` and the loop of `buildImage` of Toolchain/ModulePacker/main.c, with files
-- that do not change while the packer runs: its target is none of them.
use mathlib.Core.List.{append-nil, append_assoc}
use so_bare_bones.Common.{
  ℕ, zero, suc, ◌+◌, ◌*◌, ◌%◌, ◌^◌, ◌≤◌, ◌<◌, ◌≡◌, refl, ap, sym, ◌∙◌, subst, inl, inr, true, false,
  Bool-cases, Option, some, ◌>>=◌, List, [], ◌∷◌, ◌++◌, map, length, All, ltb, ltb→lt, ltb→le,
  arith,
}
use so_bare_bones.Loader.{bytes32, write_size, build_modules}
use so_bare_bones.Packer.{Stdio, buffer_size, take, write_file, write_size_to, image_loop}

abbrev pub drop {ℓ} : {A : Type ℓ} → ℕ → List A → List A
drop zero l = l
drop (suc n) [] = []
drop (suc n) (x ∷ l) = drop n l

-- What the C library promises of files that stay as they are: `content` is what a file holds, and
-- `left_of` what an open file has left to read. A file that `access` allows opens, at its first
-- byte; `fread` reads what there is, and meets the end of the file where that is less than asked
-- for.
pub record IsStdio (c : Stdio) (content : c.Name → List ℕ) : Type 0 where
  pub left_of : c.File → List ℕ
  pub fread_bytes : (s : c.File) (n : ℕ) → (c.fread s n).0 ≡ take n (left_of s)
  pub fread_left : (s : c.File) (n : ℕ) → left_of (c.fread s n).1 ≡ drop n (left_of s)
  pub fread_feof :
      (s : c.File) (n : ℕ) → c.feof s ≡ false → c.feof (c.fread s n).1 ≡ ltb (length (left_of s)) n
  pub fopen_first :
      (name : c.Name)
      → c.can_read name ≡ true
      → (s : c.File) × (c.fopen name ≡ some s) × (c.feof s ≡ false) × (left_of s ≡ content name)
  pub st_size_length : (name : c.Name) → c.st_size name ≡ length (content name)

take-short : (n : ℕ) (l : List ℕ) → length l < n → take n l ≡ l
take-short zero [] h = refl
take-short (suc n) [] h = refl
take-short zero (x ∷ l) h = absurd (omega arith)
take-short (suc n) (x ∷ l) h = ap (λ t. x ∷ t) (take-short n l (omega arith))

take-drop : (n : ℕ) (l : List ℕ) → take n l ++ drop n l ≡ l
take-drop zero l = refl
take-drop (suc n) [] = refl
take-drop (suc n) (x ∷ l) = ap (λ t. x ∷ t) (take-drop n l)

length-drop : (n : ℕ) (l : List ℕ) → n ≤ length l → length (drop n l) + n ≡ length l
length-drop zero l h = omega arith
length-drop (suc n) [] h = absurd (omega arith)
length-drop (suc n) (x ∷ l) h = omega (arith, length-drop n l (omega arith))

bytes32_congr :
    {a b c d a' b' c' d' : ℕ}
    → a ≡ a'
    → b ≡ b'
    → c ≡ c'
    → d ≡ d'
    → (a ∷ b ∷ c ∷ d ∷ []) ≡ (a' ∷ b' ∷ c' ∷ d' ∷ [])
bytes32_congr p q r s = cc

bytes32-mod : (n : ℕ) → bytes32 (n % 2 ^ 32) ≡ bytes32 n
unfolding bytes32
bytes32-mod n = bytes32_congr (omega arith) (omega arith) (omega arith) (omega arith)

module _ {c : Stdio} {content : c.Name → List ℕ} (io : IsStdio c content) where
  write_file-end :
      (f : ℕ) (target : List ℕ) (s : c.File)
      → c.feof s ≡ true
      → write_file c (suc f) target s ≡ some target
  unfolding write_file
  write_file-end f target s h = rw h

  write_file-more :
      (f : ℕ) (target : List ℕ) (s : c.File)
      → c.feof s ≡ false
      → write_file c (suc f) target s
        ≡ write_file c f (target ++ take buffer_size (io.left_of s)) (c.fread s buffer_size).1
  unfolding write_file
  write_file-more f target s h = rw (h, io.fread_bytes s buffer_size)

  -- With a step for each block and one to see the end, a file is copied whole.
  write_file_lem :
      (f : ℕ) (target : List ℕ) (s : c.File)
      → c.feof s ≡ false
      → length (io.left_of s) < f * 128
      → write_file c (suc f) target s ≡ some (target ++ io.left_of s)
  write_file_lem zero target s h k = absurd (omega arith)
  write_file_lem (suc f) target s h k =
      let next = (c.fread s buffer_size).1 in
      let l = io.left_of s in
      let ends : c.feof next ≡ ltb (length l) 128 = io.fread_feof s buffer_size h in
      elim (Bool-cases (ltb (length l) 128)) [
        | inl short ↦ rw (
          write_file-more (suc f) target s h,
          take-short 128 l (ltb→lt (length l) 128 short),
          write_file-end f (target ++ l) next (ends ∙ short),
        )
        | inr long ↦
            let shorter = length-drop 128 l (ltb→le (length l) 128 long) in
            let left : length (io.left_of next) < f * 128 =
              subst (λ d. length d < f * 128) (sym (io.fread_left s buffer_size))
                (omega (arith, shorter)) in
            rw (
              write_file-more (suc f) target s h,
              write_file_lem f (target ++ take 128 l) next (ends ∙ long) left,
              io.fread_left s buffer_size,
              append_assoc target (take 128 l) (drop 128 l),
              take-drop 128 l,
            )
      ]

  -- Opened at its first byte, the file of a name is copied whole.
  pub write_named {ℓ} :
      {A : Type ℓ} (f : ℕ) (target : List ℕ) (name : c.Name) (go_on : List ℕ → Option A)
      → c.can_read name ≡ true
      → length (content name) < f * 128
      → (c.fopen name >>= λ s. write_file c (suc f) target s >>= go_on)
        ≡ go_on (target ++ content name)
  write_named f target name go_on h k =
      let opened = io.fopen_first name h in
      let short = subst (λ l. length l < f * 128) (sym opened.3) k in
      rw (opened.1, write_file_lem f target opened.0 opened.2 short, opened.3)

  pub image_loop_lem :
      (f : ℕ) (target : List ℕ) (names : List c.Name)
      → All (λ name. c.can_read name ≡ true) names
      → All (λ name. length (content name) < f * 128) names
      → image_loop c (suc f) target names ≡ some (target ++ build_modules (map content names))
  unfolding image_loop build_modules write_size write_size_to
  image_loop_lem f target [] h k = ap some (sym (append-nil target))
  image_loop_lem f target (name ∷ names) h k =
      let size = bytes32 (length (content name)) in
      let rest = build_modules (map content names) in
      rw (
        io.st_size_length name,
        bytes32-mod (length (content name)),
        write_named f (target ++ size) name (λ t. image_loop c (suc f) t names) h.0 k.0,
        image_loop_lem f (target ++ size ++ content name) names h.1 k.1,
        append_assoc (target ++ size) (content name) rest,
        append_assoc target size (content name ++ rest),
      )
