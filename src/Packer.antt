-- ===== src/Packer.antt =====
-- The packer as a program, Toolchain/ModulePacker/main.c: its arguments, the check of the files, and
-- the image written block by block. What the image is, is in Loader.antt.
--
-- The C library is a parameter: its files (`Stdio`), and `argp_parse` as the list of the calls of
-- `parse_opt` that it makes. The file that is written is the list of its bytes. `none` is a use of a
-- null pointer, a write behind an array, or the loop of `write_file` out of fuel.
pub mod Boot
pub mod Files
pub mod Image
mod Tests
pub mod Words
use mathlib.Core.Option
use so_bare_bones.Common.{
  ℕ, zero, suc, ◌+◌, ◌-◌, ◌%◌, ◌^◌, Bool, true, false, not, Option, none, some, ◌>>=◌, List, [],
  ◌∷◌, ◌++◌, length, ltb, if◌then◌else◌,
}
use so_bare_bones.Loader.{bytes32}

-- The calls of the C library that the packer makes: `fread`, `feof`, `fopen` to read, the size that
-- `stat` gives, whether `access` allows reading, and whether `fopen` can make the target.
pub record Stdio : Type 1 where
  pub Name : Type 0
  pub File : Type 0
  pub fread : File → ℕ → List ℕ × File
  pub feof : File → Bool
  pub fopen : Name → Option File
  pub st_size : Name → ℕ
  pub can_read : Name → Bool
  pub can_create : Name → Bool

abbrev pub buffer_size : ℕ
buffer_size = 128

-- How argp calls `parse_opt`: for `-o`, for each file, at the end, and with keys of its
-- own before and behind. An option that it does not know ends the program before.
pub data Key (N : Type 0) : Type 0 where
  output : N → Key N
  argument : N → Key N
  end : Key N
  other : Key N

-- `struct arguments`; `args` are the files that are stored, in order.
pub record Arguments (N : Type 0) : Type 0 where
  pub output_file : N
  pub args : List N
  pub count : ℕ

-- The answers of `parse_opt`: go on, print the usage and leave, and `ARGP_ERR_UNKNOWN`. A file that
-- does not fit into the array of `MAX_FILES` is written behind it.
pub data Parsed (N : Type 0) : Type 0 where
  parsed : Arguments N → Parsed N
  usage : Parsed N
  unknown : Parsed N
  out_of_bounds : Parsed N

abbrev pub max_files : ℕ
max_files = 128

unfoldable pub parse_opt : {N : Type 0} → Arguments N → (arg_num : ℕ) → Key N → Parsed N
parse_opt a arg_num (output file) = parsed (record a { output_file = file })
parse_opt a arg_num (argument file) =
    if ltb arg_num max_files
    then parsed (record a { args = a.args ++ file ∷ [] })
    else out_of_bounds
parse_opt a arg_num end = if ltb arg_num 1 then usage else parsed (record a { count = arg_num })
parse_opt a arg_num other = unknown

-- argp counts the files.
abbrev pub next_num : {N : Type 0} → ℕ → Key N → ℕ
next_num arg_num (output file) = arg_num
next_num arg_num (argument file) = arg_num + 1
next_num arg_num end = arg_num
next_num arg_num other = arg_num

-- What argp does behind a call: it goes on behind `ARGP_ERR_UNKNOWN`, with `a` as it was.
abbrev pub after_call :
    {N : Type 0} → Parsed N → (a : Arguments N) → (Arguments N → Parsed N) → Parsed N
after_call (parsed a') a go_on = go_on a'
after_call usage a go_on = usage
after_call unknown a go_on = go_on a
after_call out_of_bounds a go_on = out_of_bounds

-- `argp_parse`: the calls one after the other.
unfoldable pub argp_parse : {N : Type 0} → Arguments N → (arg_num : ℕ) → List (Key N) → Parsed N
argp_parse a arg_num [] = parsed a
argp_parse a arg_num (key ∷ keys) =
    after_call (parse_opt a arg_num key) a λ b. argp_parse b (next_num arg_num key) keys

-- The end of the program: the usage was printed, or `main` returned this, with the target written.
pub data Outcome : Type 0 where
  left : Outcome
  returned : (status : ℕ) (target : List ℕ) → Outcome

abbrev pub take {ℓ} : {A : Type ℓ} → ℕ → List A → List A
take zero l = []
take (suc n) [] = []
take (suc n) (x ∷ l) = x ∷ take n l

module _ (c : Stdio) where
  -- The loop of `write_file`: what the target holds behind it.
  unfoldable pub write_file : ℕ → (target : List ℕ) → c.File → Option (List ℕ)
  write_file zero target source = none
  write_file (suc f) target source =
      let read = c.fread source buffer_size in
      let rest = write_file f (target ++ read.0) read.1 in
      if not (c.feof source) then rest else some target

  unfoldable pub write_size_to : (target : List ℕ) → (filename : c.Name) → List ℕ
  write_size_to target filename = target ++ bytes32 (c.st_size filename % 2 ^ 32)

  -- The loop of `buildImage` over the modules.
  unfoldable pub image_loop : (fuel : ℕ) → (target : List ℕ) → List c.Name → Option (List ℕ)
  image_loop fuel target [] = some target
  image_loop fuel target (name ∷ names) = do
    source ← c.fopen name
    target' ← write_file fuel (write_size_to target name) source
    image_loop fuel target' names

  -- `buildImage`: what it returns, and the target.
  unfoldable pub build_image_file :
      (fuel : ℕ) → List c.Name → (output_file : c.Name) → Option (Bool × List ℕ)
  build_image_file fuel [] output_file = none
  build_image_file fuel (kernel ∷ names) output_file =
      if not (c.can_create output_file) then some (false, []) else do
        source ← c.fopen kernel
        target ← write_file fuel [] source
        target' ← image_loop fuel (target ++ bytes32 (length names)) names
        some (true, target')

  unfoldable pub check_files : List c.Name → Bool
  check_files [] = true
  check_files (name ∷ names) = if not (c.can_read name) then false else check_files names

  -- `main` behind `argp_parse`.
  unfoldable pub pack : (fuel : ℕ) → Arguments c.Name → Option Outcome
  pack fuel a =
      let files = take a.count a.args in
      if not (check_files files)
      then some (returned 1 [])
      else Option.map (λ r. returned (if r.0 then 0 else 1) r.1)
          (build_image_file fuel files a.output_file)

  -- What becomes of the answer of `argp_parse`: the usage ends the program.
  abbrev pub after_parse : (fuel : ℕ) → Parsed c.Name → Option Outcome
  after_parse fuel (parsed a) = pack fuel a
  after_parse fuel usage = some left
  after_parse fuel unknown = some left
  after_parse fuel out_of_bounds = none

  -- `output_file` is the name of `OUTPUT_FILE`.
  unfoldable pub packer_main :
      (fuel : ℕ) → (output_file : c.Name) → List (Key c.Name) → Option Outcome
  packer_main fuel output_file keys =
      after_parse fuel
        (argp_parse (record { output_file = output_file; args = []; count = 0 }) 0 keys)
