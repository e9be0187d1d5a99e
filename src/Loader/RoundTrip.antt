-- ===== src/Loader/RoundTrip.antt =====
-- Kernel/moduleLoader.c on what Toolchain/ModulePacker/main.c has written.
use so_bare_bones.Common.{
  ℕ, zero, suc, ◌+◌, ◌/◌, ◌%◌, ◌^◌, ◌<◌, ◌≤◌, ◌≡◌, ◌⊎◌, Option, some, List, [], ◌∷◌, ◌++◌, length,
  length-append, get_or, All, refl, arith, ap, ◌∙◌,
}
use so_bare_bones.Loader.{
  bytes32, write_size, build_modules, build_payload, read_uint32, load_module, load_loop,
  load_modules,
}
use so_bare_bones.Number.{Text}
use so_bare_bones.Transfer.{memcpy}
use so_bare_bones.Transfer.Copied.{memcpy-Copied}

-- The bytes stand from `p` on.
abbrev pub IsAt : Text → (p : ℕ) → List ℕ → Type 0
IsAt t p bytes = (j : ℕ) → j < length bytes → t (p + j) ≡ get_or bytes j 0

-- Each file stands at its address.
unfoldable pub AllAt : Text → (targets : List ℕ) → List (List ℕ) → Type 0
AllAt t [] files = Unit
AllAt t (a ∷ targets) [] = Unit
AllAt t (a ∷ targets) (f ∷ files) = IsAt t a f × AllAt t targets files

-- No file's place meets the bytes from `lo` up to `hi`.
unfoldable pub IsClear : (lo hi : ℕ) → (targets : List ℕ) → List (List ℕ) → Type 0
IsClear lo hi [] files = Unit
IsClear lo hi (a ∷ targets) [] = Unit
IsClear lo hi (a ∷ targets) (f ∷ files) =
    ((a + length f ≤ lo) ⊎ (hi ≤ a)) × IsClear lo hi targets files

-- No two files' places meet.
unfoldable pub AreDisjoint : (targets : List ℕ) → List (List ℕ) → Type 0
AreDisjoint [] files = Unit
AreDisjoint (a ∷ targets) [] = Unit
AreDisjoint (a ∷ targets) (f ∷ files) =
    IsClear a (a + length f) targets files × AreDisjoint targets files

get_or-left : (xs ys : List ℕ) (j : ℕ) → j < length xs → get_or (xs ++ ys) j 0 ≡ get_or xs j 0
get_or-left [] ys j lt = absurd (omega arith)
get_or-left (x ∷ xs) ys zero lt = refl
get_or-left (x ∷ xs) ys (suc j) lt = get_or-left xs ys j (omega arith)

get_or-right :
    (xs ys : List ℕ) (k j : ℕ) → k ≡ length xs + j → get_or (xs ++ ys) k 0 ≡ get_or ys j 0
get_or-right [] ys k j e = ap (λ i. get_or ys i 0) (omega arith)
get_or-right (x ∷ xs) ys zero j e = absurd (omega arith)
get_or-right (x ∷ xs) ys (suc k) j e = get_or-right xs ys k j (omega arith)

pub IsAt-left : (t : Text) (p : ℕ) (xs ys : List ℕ) → IsAt t p (xs ++ ys) → IsAt t p xs
IsAt-left t p xs ys h j lt = h j (omega (arith, length-append xs ys)) ∙ get_or-left xs ys j lt

pub IsAt-right :
    (t : Text) (p q : ℕ) (xs ys : List ℕ) → p + length xs ≡ q → IsAt t p (xs ++ ys) → IsAt t q ys
IsAt-right t p q xs ys e h j lt =
    let at : q + j ≡ p + (length xs + j) = omega arith in
    ap t at
    ∙ h (length xs + j) (omega (arith, length-append xs ys))
    ∙ get_or-right xs ys (length xs + j) j refl

read_uint32-bytes32 :
    (t : Text) (p n : ℕ) → n < 2 ^ 32 → IsAt t p (bytes32 n) → read_uint32 t p ≡ (n, p + 4)
unfolding read_uint32 bytes32
read_uint32-bytes32 t p n small h =
    let first : t p ≡ n % 256 = ap t (omega arith) ∙ h 0 (omega arith) in
    let second : t (p + 1) ≡ n / 256 % 256 = h 1 (omega arith) in
    let third : t (p + 2) ≡ n / 65536 % 256 = h 2 (omega arith) in
    let fourth : t (p + 3) ≡ n / 16777216 % 256 = h 3 (omega arith) in
    ap (λ k. (k, p + 4)) (omega arith)

length-bytes32 : (n : ℕ) → length (bytes32 n) ≡ 4
unfolding bytes32
length-bytes32 n = refl

load_module_lem :
    (text : Text) (p target n : ℕ)
    → read_uint32 text p ≡ (n, p + 4)
    → load_module text p target ≡ (memcpy text target (p + 4) n, p + 4 + n)
unfolding load_module
load_module_lem text p target n read = rw read

-- Memory behind the loader: each file at its address, and no byte beside them changed.
pub record Loaded (text : Text) (targets : List ℕ) (files : List (List ℕ)) (o : Option Text)
    : Type 0 where
  pub after : Text
  pub runs : o ≡ some after
  pub at : AllAt after targets files
  pub same : (q : ℕ) → IsClear q (q + 1) targets files → after q ≡ text q

IsClear-within :
    (lo hi q : ℕ) (targets : List ℕ) (files : List (List ℕ))
    → lo ≤ q
    → q < hi
    → IsClear lo hi targets files
    → IsClear q (q + 1) targets files
unfolding IsClear
IsClear-within lo hi q [] files l h c = tt
IsClear-within lo hi q (a ∷ targets) [] l h c = tt
IsClear-within lo hi q (a ∷ targets) (f ∷ files) l h c =
    (omega (arith, c.0), IsClear-within lo hi q targets files l h c.1)

-- The files' places meet neither each other nor the bytes from `lo` up to `hi`, among which the rest
-- of the payload lies.
load_loop-Loaded :
    (files : List (List ℕ)) (targets : List ℕ) (text : Text) (p lo hi : ℕ)
    → length files ≤ length targets
    → All (λ f. length f < 2 ^ 32) files
    → IsAt text p (build_modules files)
    → lo ≤ p
    → p + length (build_modules files) ≤ hi
    → IsClear lo hi targets files
    → AreDisjoint targets files
    → Loaded text targets files (load_loop (length files) text p targets)
unfolding load_loop build_modules IsClear AreDisjoint AllAt write_size
load_loop-Loaded [] [] text p lo hi h small at l r clear apart = record {
  after = text;
  runs = refl;
  at = tt;
  same = λ q out. refl;
}
load_loop-Loaded [] (a ∷ targets) text p lo hi h small at l r clear apart = record {
  after = text;
  runs = refl;
  at = tt;
  same = λ q out. refl;
}
load_loop-Loaded (f ∷ files) [] text p lo hi h small at l r clear apart = absurd (omega arith)
load_loop-Loaded (f ∷ files) (a ∷ targets) text p lo hi h small at l r clear apart =
    let rest = build_modules files in
    let size = length-bytes32 (length f) in
    let body = length-append f rest in
    let whole = length-append (write_size f) (f ++ rest) in
    let read =
      read_uint32-bytes32 text p (length f) small.0
        (IsAt-left text p (write_size f) (f ++ rest) at) in
    let file_rest = IsAt-right text p (p + 4) (write_size f) (f ++ rest) (omega (arith, size)) at in
    let file = IsAt-left text (p + 4) f rest file_rest in
    let t = memcpy text a (p + 4) (length f) in
    let copied =
      memcpy-Copied text a (p + 4) (length f) (omega (arith, clear.0, whole, body, size)) in
    let next : IsAt t (p + 4 + length f) rest = λ j lt.
      copied.same (p + 4 + length f + j) (omega (arith, clear.0, whole, body, size))
      ∙ IsAt-right text (p + 4) (p + 4 + length f) f rest refl file_rest j lt in
    let loaded = load_module_lem text p a (length f) read in
    let more =
      load_loop-Loaded files targets t (p + 4 + length f) lo hi (omega arith) small.1 next
        (omega arith) (omega (arith, whole, body, size)) clear.1 apart.1 in
    record {
      after = more.after;
      runs = ap (λ r. load_loop (length files) r.0 r.1 targets) loaded ∙ more.runs;
      at = (
        λ j lt.
            more.same (a + j) (
              IsClear-within a (a + length f) (a + j) targets files (omega arith) (omega arith)
                apart.0)
            ∙ copied.taken j (omega arith) lt
            ∙ file j lt,
        more.at,
      );
      same = λ q out. more.same q out.1 ∙ copied.same q (omega (arith, out.0));
    }

-- With the packer's payload in memory, an address for each module, sizes that fit in 32 bits, and
-- places that meet neither each other nor the payload, the loader returns: every module stands whole
-- at its address, and no byte beside them has changed.
pub load_modules-build_payload :
    (files : List (List ℕ)) (targets : List ℕ) (text : Text) (payload_start : ℕ)
    → length files < 2 ^ 32
    → length files ≤ length targets
    → All (λ f. length f < 2 ^ 32) files
    → IsAt text payload_start (build_payload files)
    → IsClear payload_start (payload_start + length (build_payload files)) targets files
    → AreDisjoint targets files
    → Loaded text targets files (load_modules text payload_start targets)
unfolding load_modules build_payload
load_modules-build_payload files targets text p few h small at clear apart =
    let count = bytes32 (length files) in
    let modules = build_modules files in
    let size = length-bytes32 (length files) in
    let whole = length-append count modules in
    let read = read_uint32-bytes32 text p (length files) few (IsAt-left text p count modules at) in
    rw read (
      load_loop-Loaded files targets text (p + 4) p (p + length (count ++ modules)) h small
        (IsAt-right text p (p + 4) count modules (omega (arith, size)) at) (omega arith)
        (omega (arith, whole, size)) clear apart)
