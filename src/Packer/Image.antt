-- ===== src/Packer/Image.antt =====
-- The packer of Toolchain/ModulePacker/main.c from its command line to the target.
use mathlib.Core.Bool.{true≢false}
use mathlib.Core.List.{append_assoc}
use so_bare_bones.Common.{
  ℕ, suc, ◌+◌, ◌*◌, ◌≤◌, ◌<◌, ◌≡◌, refl, ap, sym, subst, inl, inr, Bool, true, ◌&&◌, Bool-cases,
  Option, some, ◌>>=◌, List, [], ◌∷◌, ◌++◌, map, length, All, le→ltb, if◌then◌else◌, arith,
}
use so_bare_bones.Loader.{bytes32, build_modules, build_payload, build_image}
use so_bare_bones.Packer.{
  Stdio, Key, end, Arguments, parse_opt, max_files, Outcome, left, returned, take, image_loop,
  build_image_file, check_files, pack, packer_main, after_parse,
}
use so_bare_bones.Packer.Files.{IsStdio, write_named, image_loop_lem}
use so_bare_bones.Packer.Words.{is_complete, names_of, output_of, argp_parse_lem}

abbrev pub all {ℓ} : {A : Type ℓ} → (A → Bool) → List A → Bool
all p [] = true
all p (x ∷ l) = p x && all p l

-- What the program does for these files, where every file is as `content` says.
unfoldable pub packed :
    (c : Stdio) → (c.Name → List ℕ) → (output_file : c.Name) → List c.Name → Outcome
packed c content output_file [] = left
packed c content output_file (kernel ∷ names) =
    if all c.can_read (kernel ∷ names) && c.can_create output_file
    then returned 0 (build_image (content kernel) (map content names))
    else returned 1 []

check_files-all : (c : Stdio) (names : List c.Name) → check_files c names ≡ all c.can_read names
unfolding check_files
check_files-all c [] = refl
check_files-all c (name ∷ names) = elim (Bool-cases (c.can_read name)) [
  | inl h ↦ rw h (check_files-all c names)
  | inr h ↦ rw h
]

all-All : {A : Type 0} (p : A → Bool) (l : List A) → all p l ≡ true → All (λ x. p x ≡ true) l
all-All p [] h = tt
all-All p (x ∷ l) h =
    let tail : Bool → Type 0 = λ b. (b && all p l) ≡ true in
    elim (Bool-cases (p x)) [
      | inl e ↦ (e, all-All p l (subst tail e h))
      | inr e ↦ absurd (true≢false (sym (subst tail e h)))
    ]

take-length : {A : Type 0} (l : List A) → take (length l) l ≡ l
take-length [] = refl
take-length (x ∷ l) = ap (λ t. x ∷ t) (take-length l)

pub length-map : {A B : Type 0} (f : A → B) (l : List A) → length (map f l) ≡ length l
length-map f [] = refl
length-map f (x ∷ l) = ap suc (length-map f l)

module _ {c : Stdio} {content : c.Name → List ℕ} (io : IsStdio c content) where
  pack_lem :
      (f : ℕ) (output_file : c.Name) (names : List c.Name)
      → 1 ≤ length names
      → All (λ name. length (content name) < f * 128) names
      → pack c (suc f) (record { output_file = output_file; args = names; count = length names })
        ≡ some (packed c content output_file names)
  unfolding pack packed build_image_file build_image build_payload
  pack_lem f output_file [] h k = absurd (omega arith)
  pack_lem f output_file (kernel ∷ names) h k =
      elim (Bool-cases (all c.can_read (kernel ∷ names))) [
        | inr r ↦ rw (take-length names, check_files-all c (kernel ∷ names), r) refl
        | inl r ↦ elim (Bool-cases (c.can_create output_file)) [
          | inr t ↦ rw (take-length names, check_files-all c (kernel ∷ names), r, t) refl
          | inl t ↦
              let read = all-All c.can_read (kernel ∷ names) r in
              let count = bytes32 (length names) in
              let go_on : List ℕ → Option (Bool × List ℕ) =
                λ l. image_loop c (suc f) (l ++ count) names >>= λ l'. some (true, l') in
              rw (
                take-length names,
                check_files-all c (kernel ∷ names),
                r,
                t,
                write_named io f [] kernel go_on read.0 k.0,
                image_loop_lem io f (content kernel ++ count) names read.1 k.1,
                append_assoc (content kernel) count (build_modules (map content names)),
                length-map content names,
              )
        ]
      ]

  end_lem :
      (f : ℕ) (output_file : c.Name) (names : List c.Name)
      → All (λ name. length (content name) < f * 128) names
      → after_parse c (suc f) (
          parse_opt
            (record { output_file = output_file; args = names; count = 0 })
            (length names)
            end)
        ≡ some (packed c content output_file names)
  unfolding parse_opt packed
  end_lem f output_file [] short = refl
  end_lem f output_file (kernel ∷ names) short =
      let some_file = le→ltb (suc (length names)) 1 (omega arith) in
      rw some_file (pack_lem f output_file (kernel ∷ names) (omega arith) short)

  -- For every command line of files and targets, with at most as many files as the
  -- array holds and steps enough for each of them, the program runs to its end: without a file it
  -- prints the usage, where a file cannot be read or the target cannot be made it returns 1 and
  -- writes nothing, and else it returns 0 and the target is the image of the kernel and the modules.
  pub packer_main_lem :
      (f : ℕ) (default : c.Name) (keys : List (Key c.Name))
      → is_complete keys ≡ true
      → length (names_of keys) ≤ max_files
      → All (λ name. length (content name) < f * 128) (names_of keys)
      → packer_main c (suc f) default keys
        ≡ some (packed c content (output_of default keys) (names_of keys))
  unfolding packer_main
  packer_main_lem f default keys words fit short =
      let a : Arguments c.Name = record { output_file = default; args = []; count = 0 } in
      let none_before : 0 + length (names_of keys) ≡ length (names_of keys) = omega arith in
      rw (argp_parse_lem a 0 keys words (omega arith), none_before)
        (end_lem f (output_of default keys) (names_of keys) short)
