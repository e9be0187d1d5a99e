-- ===== src/Packer/Tests.antt =====
-- The packer on two small files and on one that cannot be read.
use so_bare_bones.Common.{
  ℕ, zero, suc, ◌≡◌, refl, inr, Bool, true, false, ◌||◌, if◌then◌else◌, none, some, List, [], ◌∷◌,
  length, ltb, arith,
}
use so_bare_bones.Loader.{
  bytes32, write_size, build_modules, build_payload, build_image, load_modules,
}
use so_bare_bones.Loader.Tests.{held, held-IsAt}
use so_bare_bones.Loader.RoundTrip.{Loaded, IsClear, AreDisjoint}
use so_bare_bones.Packer.Boot.{load_modules-packer_main}
use so_bare_bones.Packer.{
  Key, Stdio, output, argument, end, other, take, left, returned, packer_main, argp_parse,
  parse_opt, pack, check_files, build_image_file, write_file, image_loop, write_size_to,
}
use so_bare_bones.Packer.Files.{drop, IsStdio}
use so_bare_bones.Packer.Words.{names_of, output_of}
use so_bare_bones.Packer.Image.{packed, packer_main_lem}

abbrev bytes_of : ℕ → List ℕ
bytes_of zero = 10 ∷ 20 ∷ []
bytes_of (suc zero) = 7 ∷ 8 ∷ 9 ∷ []
bytes_of (suc (suc name)) = []

abbrev readable : ℕ → Bool
readable zero = true
readable (suc zero) = true
readable (suc (suc name)) = false

abbrev small_files : Stdio
small_files = record {
  Name = ℕ;
  File = List ℕ × Bool;
  fread = λ s n. (take n s.0, (drop n s.0, s.1 || ltb (length s.0) n));
  feof = λ s. s.1;
  fopen = λ name. if readable name then some (bytes_of name, false) else none;
  st_size = λ name. length (bytes_of name);
  can_read = readable;
  can_create = λ name. true;
}

small_files-IsStdio : IsStdio small_files bytes_of
small_files-IsStdio = record {
  left_of = λ s. s.0;
  fread_bytes = λ s n. refl;
  fread_left = λ s n. refl;
  fread_feof = λ s n h. rw h;
  fopen_first = λ name h. ((bytes_of name, false), rw h, refl, refl);
  st_size_length = λ name. refl;
}

-- The keys of a command line with a target and two files, between those that argp sends besides.
abbrev command_line : List (Key ℕ)
command_line = other ∷ argument 0 ∷ output 6 ∷ argument 1 ∷ end ∷ other ∷ []

-- The file 0 is the kernel, and the file 1 its module; the image is in memory from 0x100000 on.
abbrev packed_image : List ℕ
packed_image = 10 ∷ 20 ∷ 1 ∷ 0 ∷ 0 ∷ 0 ∷ 3 ∷ 0 ∷ 0 ∷ 0 ∷ 7 ∷ 8 ∷ 9 ∷ []

load_modules-packer_main_example :
    (packer_main small_files 2 5 command_line ≡ some (returned 0 packed_image))
    × Loaded
        (held 0x100000 packed_image)
        (0x400000 ∷ [])
        ((7 ∷ 8 ∷ 9 ∷ []) ∷ [])
        (load_modules (held 0x100000 packed_image) 0x100002 (0x400000 ∷ []))
unfolding names_of output_of build_image build_payload build_modules write_size bytes32 IsClear
    AreDisjoint
load_modules-packer_main_example =
    load_modules-packer_main small_files-IsStdio 1 5 command_line 0 (1 ∷ []) (0x400000 ∷ [])
      (held 0x100000 packed_image) 0x100000 refl refl (omega arith) (omega arith)
      (omega arith, (omega arith, tt)) (omega arith, tt) refl refl (held-IsAt 0x100000 packed_image)
      (inr (omega arith), tt) (tt, tt)

packer_main_lem_example :
    packer_main small_files 2 5 command_line ≡ some (packed small_files bytes_of 6 (0 ∷ 1 ∷ []))
unfolding names_of output_of
packer_main_lem_example =
    packer_main_lem small_files-IsStdio 1 5 command_line refl (omega arith)
      (omega arith, (omega arith, tt))

image_test :
    packer_main small_files 2 5 (argument 0 ∷ argument 1 ∷ end ∷ [])
    ≡ some (returned 0 (10 ∷ 20 ∷ 1 ∷ 0 ∷ 0 ∷ 0 ∷ 3 ∷ 0 ∷ 0 ∷ 0 ∷ 7 ∷ 8 ∷ 9 ∷ []))
unfolding packer_main argp_parse parse_opt pack check_files build_image_file write_file image_loop
    write_size_to bytes32
image_test = refl

unreadable_test :
    packer_main small_files 2 5 (argument 0 ∷ argument 2 ∷ end ∷ []) ≡ some (returned 1 [])
unfolding packer_main argp_parse parse_opt pack check_files
unreadable_test = refl

usage_test : packer_main small_files 2 5 (output 3 ∷ end ∷ []) ≡ some left
unfolding packer_main argp_parse parse_opt
usage_test = refl
