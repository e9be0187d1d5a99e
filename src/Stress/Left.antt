-- ===== src/Stress/Left.antt =====
-- The first loop of Userland/SampleCodeModule/test_mm.c, with the message for a refused request.
use mathlib.Core.Option
use so_bare_bones.Common.{
  ℕ, zero, suc, ◌+◌, ◌-◌, ◌%◌, ◌^◌, ◌≤◌, ◌≡◌, inl, inr, Option, some, List, [], ◌∷◌, ltb, ◌==◌,
  false, replicate, refl, arith, ap, Bool-cases,
}
use so_bare_bones.Heap.Blocks.{Block}
use so_bare_bones.Heap.Free.{payload}
use so_bare_bones.Heap.Valid.{IsValid}
use so_bare_bones.System.{System}
use so_bare_bones.Stress.{
  Seed, malloc_returns_null, Requested, add_request, mmalloc, get_uniform, request_loop, max_memory,
  Literals, tell_null,
}
use so_bare_bones.Number.{Text}
use so_bare_bones.User.Ends.{IsFine, IsFine-screen, IsOffFrame, IsText, print-Shown}
use so_bare_bones.Video.{Mode}
use so_bare_bones.Stress.Owned.{
  Owned, others, refused, has, Owned-Remove, Malloced, no_room, given, mmalloc-Malloced,
}

-- The strings that the test prints where all goes well.
abbrev pub null_chars : List ℕ
null_chars =
    b'm' ∷ b'a' ∷ b'l' ∷ b'l' ∷ b'o' ∷ b'c' ∷ b' ' ∷ b'r' ∷ b'e' ∷ b't' ∷ b'u' ∷ b'r' ∷ b'n' ∷ b's'
    ∷ b' ' ∷ b'N' ∷ b'U' ∷ b'L' ∷ b'L' ∷ []

abbrev pub passed_chars : List ℕ
passed_chars = b'p' ∷ b'a' ∷ b's' ∷ b'a' ∷ b' ' ∷ b't' ∷ b'e' ∷ b's' ∷ b't' ∷ b'e' ∷ b'o' ∷ []

-- What the first loop leaves: a valid heap, whose blocks in use are those of the requests and those
-- from before, and a message for each request that was refused.
pub record Left (m : Mode) (b : ℕ) (P : ℕ → Type 0) (text : Text) (used : List Block)
    (res : Option Requested) : Type 0 where
  pub q : Requested
  pub runs : res ≡ some q
  pub fine : IsFine m b P text q.system
  pub free_blocks : List Block
  pub used_blocks : List Block
  pub valid : IsValid q.system.heap free_blocks used_blocks
  pub owned : Owned used q.mm_rqs used_blocks
  pub refusals : ℕ
  pub told : q.messages ≡ replicate refusals malloc_returns_null []

module _ {m : Mode} {b : ℕ} {P : ℕ → Type 0} {text : Text} where
  Left-end :
      (s : System) (seed : Seed) (free used : List Block)
      → IsValid s.heap free used
      → IsFine m b P text s
      → Left m b P text used (some (record { system = s; seed = seed; mm_rqs = []; messages = [] }))
  Left-end s seed free used v f = record {
    q = record { system = s; seed = seed; mm_rqs = []; messages = [] };
    runs = refl;
    fine = f;
    free_blocks = free;
    used_blocks = used;
    valid = v;
    owned = others;
    refusals = 0;
    told = refl;
  }

  Left-refused :
      (used : List Block) (size : ℕ) (res : Option Requested)
      → Left m b P text used res
      → Left m b P text used (Option.map (add_request 0 size) res)
  Left-refused used size res l = record {
    q = add_request 0 size l.q;
    runs = ap (Option.map (add_request 0 size)) l.runs;
    fine = l.fine;
    free_blocks = l.free_blocks;
    used_blocks = l.used_blocks;
    valid = l.valid;
    owned = refused refl l.owned;
    refusals = suc l.refusals;
    told = ap (λ m. malloc_returns_null ∷ m) l.told;
  }

  Left-given :
      (c : Block) (used : List Block) (size : ℕ) (res : Option Requested)
      → size + 64 ≤ c.size
      → Left m b P text (c ∷ used) res
      → Left m b P text used (Option.map (add_request (payload c) size) res)
  Left-given c used size res room l =
      let o = Owned-Remove l.owned in
      let there_is : (payload c == 0) ≡ false = ground arith in
      record {
        q = add_request (payload c) size l.q;
        runs = ap (Option.map (add_request (payload c) size)) l.runs;
        fine = l.fine;
        free_blocks = l.free_blocks;
        used_blocks = l.used_blocks;
        valid = l.valid;
        owned = has (record { at = refl; room = room }) o.1 o.2;
        refusals = l.refusals;
        told = rw there_is l.told;
      }

tell_null-some :
    (fuel : ℕ) (l : Literals) (s : System) (c : Block) → tell_null fuel l s (payload c) ≡ some s
unfolding tell_null
tell_null-some fuel l s c = let there_is : (payload c == 0) ≡ false = ground arith in rw there_is

module _ {m : Mode} {b : ℕ} {P : ℕ → Type 0} {text : Text} (off : IsOffFrame m P) (fuel : ℕ)
    (l : Literals) (null_in : IsText fuel P text l.null_text null_chars) where
  Left-step :
      (s : System) (free used : List Block) (size : ℕ) (f : System → Option Requested)
      → ((t : System) (left held : List Block)
          → IsValid t.heap left held
          → IsFine m b P text t
          → Left m b P text held (f t))
      → IsValid s.heap free used
      → IsFine m b P text s
      → (o : Option (System × ℕ)) → Malloced s used size o
      → Left m b P text used (
          Option.bind o λ r.
            Option.bind (tell_null fuel l r.0 r.1) λ s'. Option.map (add_request r.1 size) (f s'))
  unfolding Option.bind tell_null
  Left-step s free used size f more v fine o no_room =
      let d = print-Shown off s fine fuel l.null_text null_chars null_in in
      let t = record s { screen = d.screen } in
      rw d.runs (Left-refused used size (f t) (more t free used v d.fine))
  Left-step s free used size f more v fine o (given h c left valid room) =
      let t = record s { heap = h } in
      rw (tell_null-some fuel l t c) (
        Left-given c used size (f t) room
          (more t left (c ∷ used) valid (IsFine-screen s t refl fine)))

  pub request_loop-Left :
      (uniform : ℕ → ℕ → ℕ) (n : ℕ) (s : System) (seed : Seed) (total : ℕ) (free used : List Block)
      → IsValid s.heap free used
      → IsFine m b P text s
      → Left m b P text used (request_loop uniform fuel l n s seed total)
  unfolding request_loop
  request_loop-Left uniform zero s seed total free used v f = Left-end s seed free used v f
  request_loop-Left uniform (suc n) s seed total free used v f =
      let u = get_uniform uniform seed (max_memory - total - 1) in
      let size = (u.1 + 1) % 2 ^ 32 in
      let next = (total + size) % 2 ^ 32 in
      elim (Bool-cases (ltb total max_memory)) [
        | inl more ↦ rw more (
            Left-step s free used size (λ t. request_loop uniform fuel l n t u.0 next)
              (λ t left held w g. request_loop-Left uniform n t u.0 next left held w g) v f
              (mmalloc s size) (mmalloc-Malloced s free used size v (omega arith)))
        | inr stop ↦ rw stop (Left-end s seed free used v f)
      ]
