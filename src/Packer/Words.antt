-- ===== src/Packer/Words.antt =====
-- What `parse_opt` of Toolchain/ModulePacker/main.c takes from a command line.
use mathlib.Core.Bool.{true≢false}
use mathlib.Core.List.{append-nil, append_assoc}
use so_bare_bones.Common.{
  ℕ, refl, suc, ◌+◌, ◌≤◌, ◌≡◌, sym, inl, inr, Bool, true, false, Bool-cases, List, [], ◌∷◌, ◌++◌,
  length, ltb, lt→ltb, arith,
}
use so_bare_bones.Packer.{
  Key, parsed, output, argument, end, other, Arguments, parse_opt, argp_parse, max_files,
}

-- What the command line says: the files, and the last target.
module _ {N : Type 0} where
  abbrev pub only_other : List (Key N) → Bool
  only_other [] = true
  only_other (other ∷ keys) = only_other keys
  only_other (output file ∷ keys) = false
  only_other (argument file ∷ keys) = false
  only_other (end ∷ keys) = false

  -- The end comes once, and behind it only keys that the parser does not know.
  abbrev pub is_complete : List (Key N) → Bool
  is_complete [] = false
  is_complete (output file ∷ keys) = is_complete keys
  is_complete (argument file ∷ keys) = is_complete keys
  is_complete (end ∷ keys) = only_other keys
  is_complete (other ∷ keys) = is_complete keys

  unfoldable pub names_of : List (Key N) → List N
  names_of [] = []
  names_of (output file ∷ keys) = names_of keys
  names_of (argument file ∷ keys) = file ∷ names_of keys
  names_of (end ∷ keys) = names_of keys
  names_of (other ∷ keys) = names_of keys

  unfoldable pub output_of : N → List (Key N) → N
  output_of file [] = file
  output_of file (output file' ∷ keys) = output_of file' keys
  output_of file (argument name ∷ keys) = output_of file keys
  output_of file (end ∷ keys) = output_of file keys
  output_of file (other ∷ keys) = output_of file keys

  abbrev pub read_args : Arguments N → List (Key N) → Arguments N
  read_args a keys = record a {
    output_file = output_of a.output_file keys;
    args = a.args ++ names_of keys;
  }

  names_of-other : (keys : List (Key N)) → only_other keys ≡ true → names_of keys ≡ []
  unfolding names_of
  names_of-other [] h = refl
  names_of-other (other ∷ keys) h = names_of-other keys h
  names_of-other (output file ∷ keys) h = absurd (true≢false (sym h))
  names_of-other (argument file ∷ keys) h = absurd (true≢false (sym h))
  names_of-other (end ∷ keys) h = absurd (true≢false (sym h))

  output_of-other :
      (file : N) (keys : List (Key N)) → only_other keys ≡ true → output_of file keys ≡ file
  unfolding output_of
  output_of-other name [] h = refl
  output_of-other name (other ∷ keys) h = output_of-other name keys h
  output_of-other name (output file ∷ keys) h = absurd (true≢false (sym h))
  output_of-other name (argument file ∷ keys) h = absurd (true≢false (sym h))
  output_of-other name (end ∷ keys) h = absurd (true≢false (sym h))

  argp_parse-other :
      (a : Arguments N) (n : ℕ) (keys : List (Key N))
      → only_other keys ≡ true
      → argp_parse a n keys ≡ parsed a
  unfolding argp_parse parse_opt
  argp_parse-other a n [] h = refl
  argp_parse-other a n (other ∷ keys) h = argp_parse-other a n keys h
  argp_parse-other a n (output file ∷ keys) h = absurd (true≢false (sym h))
  argp_parse-other a n (argument file ∷ keys) h = absurd (true≢false (sym h))
  argp_parse-other a n (end ∷ keys) h = absurd (true≢false (sym h))

  argp_parse-end :
      (a : Arguments N) (n : ℕ) (keys : List (Key N))
      → only_other keys ≡ true
      → argp_parse a n (end ∷ keys) ≡ parse_opt a n end
  unfolding argp_parse parse_opt
  argp_parse-end a n keys h = elim (Bool-cases (ltb n 1)) [
    | inl few ↦ rw few
    | inr some_file ↦ rw some_file (argp_parse-other (record a { count = n }) n keys h)
  ]

  pub argp_parse_lem :
      (a : Arguments N) (n : ℕ) (keys : List (Key N))
      → is_complete keys ≡ true
      → n + length (names_of keys) ≤ max_files
      → argp_parse a n keys ≡ parse_opt (read_args a keys) (n + length (names_of keys)) end
  unfolding argp_parse parse_opt names_of output_of
  argp_parse_lem a n [] h k = absurd (true≢false (sym h))
  argp_parse_lem a n (output file ∷ keys) h k =
      argp_parse_lem (record a { output_file = file }) n keys h k
  argp_parse_lem a n (argument file ∷ keys) h k =
      let b : Arguments N = record a { args = a.args ++ file ∷ [] } in
      let sum : n + suc (length (names_of keys)) ≡ n + 1 + length (names_of keys) = omega arith in
      rw (lt→ltb n 128 (omega arith), sym (append_assoc a.args (file ∷ []) (names_of keys)), sum)
        (argp_parse_lem b (n + 1) keys h (omega arith))
  argp_parse_lem a n (end ∷ keys) h k =
      let same : n + 0 ≡ n = omega arith in
      rw (names_of-other keys h, output_of-other a.output_file keys h, append-nil a.args, same)
        (argp_parse-end a n keys h)
  argp_parse_lem a n (other ∷ keys) h k = argp_parse_lem a n keys h k
