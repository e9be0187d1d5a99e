-- ===== src/Stress.antt =====
-- The allocator's stress test, which the shell runs, Userland/SampleCodeModule/test_mm.c with
-- test_util.c and the system calls of Lib.c that it uses.
--
-- `uniform` is the floating-point expression of `GetUniform` on the random number and `max`, cut to a
-- number. The array `mm_rqs` is a list, in order. What the program prints is drawn by the system call
-- of `print`, and returned as messages besides. `fuel` is for the loop of `strlen`; `none` is a system
-- call that does not return, or that draws a character for which there is no glyph.
pub mod Boot
pub mod Owned
pub mod Filled
pub mod Left
pub mod Passes
pub mod Tests
use mathlib.Core.Option
use so_bare_bones.Common.{
  ℕ, zero, suc, ◌+◌, ◌-◌, ◌*◌, ◌/◌, ◌%◌, ◌^◌, Option, none, some, List, [], ◌∷◌, ◌++◌, ltb, ◌==◌,
  not, ◌&&◌, if◌then◌else◌,
}
use so_bare_bones.Number.{Text}
use so_bare_bones.System.{System, int80_dispatcher, widen}
use so_bare_bones.User.{print}

abbrev pub max_blocks : ℕ
max_blocks = 128

abbrev pub max_memory : ℕ
max_memory = 1024

-- `m_z` and `m_w` of test_util.c.
pub record Seed : Type 0 where
  pub m_z : ℕ
  pub m_w : ℕ

abbrev pub first_seed : Seed
first_seed = record { m_z = 362436069; m_w = 521288629 }

unfoldable pub get_uint : Seed → Seed × ℕ
get_uint seed =
    let z = (36969 * (seed.m_z % 65536) + seed.m_z / 65536) % 2 ^ 32 in
    let w = (18000 * (seed.m_w % 65536) + seed.m_w / 65536) % 2 ^ 32 in
    (record { m_z = z; m_w = w }, (z * 65536 + w) % 2 ^ 32)

unfoldable pub get_uniform : (uniform : ℕ → ℕ → ℕ) → Seed → (max : ℕ) → Seed × ℕ
get_uniform uniform seed max = let r = get_uint seed in (r.0, uniform r.1 max % 2 ^ 32)

unfoldable pub memcheck : (size : ℕ) → Text → (p value : ℕ) → ℕ
memcheck zero text p value = 1
memcheck (suc n) text p value =
    let rest = memcheck n text (p + 1) value in if not (text p == value) then 0 else rest

-- The calls 14, 15 and 16 of Lib.c; none of them runs the loop that the first argument is fuel for.
unfoldable pub mmalloc : System → (size : ℕ) → Option (System × ℕ)
mmalloc s size = int80_dispatcher 0 s 14 (widen size) 0 0

unfoldable pub mfree : System → (pointer : ℕ) → Option System
mfree s pointer = Option.map (λ r. r.0) (int80_dispatcher 0 s 15 pointer 0 0)

unfoldable pub mem_set_call : System → (ptr c n : ℕ) → Option System
mem_set_call s ptr c n = Option.map (λ r. r.0) (int80_dispatcher 0 s 16 ptr (c % 2 ^ 32) n)

pub record MmRq : Type 0 where
  pub address : ℕ
  pub size : ℕ

pub data Message : Type 0 where
  malloc_returns_null : Message
  error : Message
  pasa_testeo : Message

-- The addresses of the three literals.
pub record Literals : Type 0 where
  pub null_text : ℕ
  pub error_text : ℕ
  pub passed_text : ℕ

pub record Requested : Type 0 where
  pub system : System
  pub seed : Seed
  pub mm_rqs : List MmRq
  pub messages : List Message

-- A pass through the first loop, in front of those behind it.
abbrev pub add_request : (address size : ℕ) → Requested → Requested
add_request address size q = record q {
  mm_rqs = record { address = address; size = size } ∷ q.mm_rqs;
  messages = if address == 0 then malloc_returns_null ∷ q.messages else q.messages;
}

-- `print` where the request was refused.
unfoldable pub tell_null : (fuel : ℕ) → Literals → System → (address : ℕ) → Option System
tell_null fuel l s address = if address == 0 then print fuel s l.null_text else some s

-- The first loop; the number is `MAX_BLOCKS - rq`.
unfoldable pub request_loop :
    (uniform : ℕ → ℕ → ℕ)
    → (fuel : ℕ) → Literals
    → ℕ
    → System
    → Seed
    → (total : ℕ) → Option Requested
request_loop uniform fuel l zero s seed total =
    some (record { system = s; seed = seed; mm_rqs = []; messages = [] })
request_loop uniform fuel l (suc n) s seed total =
    let u = get_uniform uniform seed (max_memory - total - 1) in
    let size = (u.1 + 1) % 2 ^ 32 in
    let rest : System × ℕ → Option Requested = λ r. Option.bind (tell_null fuel l r.0 r.1) λ s'.
      Option.map (add_request r.1 size)
        (request_loop uniform fuel l n s' u.0 ((total + size) % 2 ^ 32)) in
    if ltb total max_memory
    then Option.bind (mmalloc s size) rest
    else some (record { system = s; seed = seed; mm_rqs = []; messages = [] })

-- The other three loops, from the request `i` on.
unfoldable pub fill_loop : System → (i : ℕ) → List MmRq → Option System
fill_loop s i [] = some s
fill_loop s i (r ∷ rs) =
    if not (r.address == 0)
    then Option.bind (mem_set_call s r.address i r.size) (λ s'. fill_loop s' (i + 1) rs)
    else fill_loop s (i + 1) rs

unfoldable pub check_loop :
    (fuel : ℕ) → Literals → System → (i : ℕ) → List MmRq → Option (System × List Message)
check_loop fuel l s i [] = some (s, [])
check_loop fuel l s i (r ∷ rs) =
    let rest : System → Option (System × List Message) = λ s'. check_loop fuel l s' (i + 1) rs in
    if not (r.address == 0) && (memcheck r.size s.screen.vram r.address (i % 256) == 0)
    then Option.bind (print fuel s l.error_text)
        (λ s'. Option.map (λ q. (q.0, error ∷ q.1)) (rest s'))
    else rest s

unfoldable pub free_loop : System → List MmRq → Option System
free_loop s [] = some s
free_loop s (r ∷ rs) =
    if not (r.address == 0)
    then Option.bind (mfree s r.address) (λ s'. free_loop s' rs)
    else free_loop s rs

unfoldable pub test_mm :
    (uniform : ℕ → ℕ → ℕ)
    → (fuel : ℕ) → Literals
    → System
    → Seed
    → Option (System × Seed × List Message)
test_mm uniform fuel l s seed = Option.bind (request_loop uniform fuel l max_blocks s seed 0) λ q.
    Option.bind (fill_loop q.system 0 q.mm_rqs) λ filled.
      Option.bind (check_loop fuel l filled 0 q.mm_rqs) λ checked.
        Option.bind (free_loop checked.0 q.mm_rqs) λ freed.
          Option.map (λ s'. (s', q.seed, q.messages ++ (checked.1 ++ pasa_testeo ∷ [])))
            (print fuel freed l.passed_text)

-- `shell`, whose command loop is commented out.
unfoldable pub shell :
    (uniform : ℕ → ℕ → ℕ) → (fuel : ℕ) → Literals → System → Option (System × Seed × List Message)
shell uniform fuel l s = test_mm uniform fuel l s first_seed
