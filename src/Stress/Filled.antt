-- ===== src/Stress/Filled.antt =====
-- What the second and the third loop of Userland/SampleCodeModule/test_mm.c do with memory.
use mathlib.Core.Option
use so_bare_bones.Common.{
  ℕ, zero, suc, ◌+◌, ◌%◌, ◌^◌, ◌≤◌, ◌<◌, ◌≡◌, ◌≢◌, ◌⊎◌, inl, inr, some, List, [], ◌∷◌, ◌==◌, not,
  true, false, if◌then◌else◌, All, All-map, refl, arith, ap, sym, subst, ◌∙◌, Bool-cases,
}
use so_bare_bones.Number.{Text}
use so_bare_bones.System.{System, int80_dispatcher, mem_set}
use so_bare_bones.Transfer.{memset}
use so_bare_bones.Transfer.Copied.{memset_lem}
use so_bare_bones.Stress.{Literals, MmRq, mem_set_call, fill_loop, check_loop, memcheck}

-- Memory behind the second loop.
unfoldable pub filled : Text → (i : ℕ) → List MmRq → Text
filled text i [] = text
filled text i (r ∷ rs) =
    if not (r.address == 0)
    then filled (memset text r.address (i % 2 ^ 32) r.size) (i + 1) rs
    else filled text (i + 1) rs

abbrev pub with_vram : System → Text → System
with_vram s text = record s { screen = record s.screen { vram = text } }

mem_set_call-memset :
    (s : System) (p c n : ℕ)
    → mem_set_call s p c n ≡ some (with_vram s (memset s.screen.vram p (c % 2 ^ 32) n))
unfolding mem_set_call int80_dispatcher mem_set
mem_set_call-memset s p c n =
    let twice : c % 2 ^ 32 % 2 ^ 32 ≡ c % 2 ^ 32 = omega arith in
    ap (λ z. some (with_vram s (memset s.screen.vram p z n))) twice

pub fill_loop-filled :
    (s : System) (i : ℕ) (rs : List MmRq)
    → fill_loop s i rs ≡ some (with_vram s (filled s.screen.vram i rs))
unfolding fill_loop filled Option.bind
fill_loop-filled s i [] = refl
fill_loop-filled s i (r ∷ rs) = elim (Bool-cases (r.address == 0)) [
  | inl z ↦ rw z (fill_loop-filled s (i + 1) rs)
  | inr n ↦
      rw (n, mem_set_call-memset s r.address i r.size)
        (fill_loop-filled (with_vram s (memset s.screen.vram r.address (i % 2 ^ 32) r.size)) (i + 1)
          rs)
]

-- A byte that no request has.
abbrev pub IsOutside : ℕ → MmRq → Type 0
IsOutside q r = r.address ≢ 0 → (q < r.address) ⊎ (r.address + r.size ≤ q)

pub filled-outside :
    (text : Text) (i : ℕ) (rs : List MmRq) (q : ℕ)
    → All (IsOutside q) rs
    → filled text i rs q ≡ text q
unfolding filled
filled-outside text i [] q out = refl
filled-outside text i (r ∷ rs) q out = elim (Bool-cases (r.address == 0)) [
  | inl z ↦ rw z (filled-outside text (i + 1) rs q out.1)
  | inr n ↦ rw n (
      filled-outside (memset text r.address (i % 2 ^ 32) r.size) (i + 1) rs q out.1
      ∙ (memset_lem text r.address (i % 2 ^ 32) r.size).1 q (out.0 (ground arith)))
]

-- The bytes of two requests do not meet.
abbrev pub AreApart : MmRq → MmRq → Type 0
AreApart r t = t.address ≢ 0 → (r.address + r.size ≤ t.address) ⊎ (t.address + t.size ≤ r.address)

abbrev pub AllSeparate : List MmRq → Type 0
AllSeparate [] = Unit
AllSeparate (r ∷ rs) = (r.address ≢ 0 → All (AreApart r) rs) × AllSeparate rs

memcheck-all :
    (n : ℕ) (text : Text) (p value : ℕ)
    → ((j : ℕ) → j < n → text (p + j) ≡ value)
    → memcheck n text p value ≡ 1
unfolding memcheck
memcheck-all zero text p value h = refl
memcheck-all (suc n) text p value h =
    let base : p ≡ p + 0 = omega arith in
    let head : text p ≡ value = ap text base ∙ h 0 (omega arith) in
    let same : (text p == value) ≡ true = ground (arith, head) in
    rw same (
      memcheck-all n text (p + 1) value (λ j lt.
        let next : p + 1 + j ≡ p + (j + 1) = omega arith in ap text next ∙ h (j + 1) (omega arith)))

-- Every byte of a request has the number of the request.
abbrev pub AllFilled : Text → (i : ℕ) → List MmRq → Type 0
AllFilled text i [] = Unit
AllFilled text i (r ∷ rs) =
    (r.address ≢ 0 → (j : ℕ) → j < r.size → text (r.address + j) ≡ i % 256)
    × AllFilled text (i + 1) rs

check_loop-AllFilled :
    (fuel : ℕ) (l : Literals) (s : System) (i : ℕ) (rs : List MmRq)
    → AllFilled s.screen.vram i rs
    → check_loop fuel l s i rs ≡ some (s, [])
unfolding check_loop
check_loop-AllFilled fuel l s i [] f = refl
check_loop-AllFilled fuel l s i (r ∷ rs) f = elim (Bool-cases (r.address == 0)) [
  | inl z ↦ rw z (check_loop-AllFilled fuel l s (i + 1) rs f.1)
  | inr n ↦
      let checked = memcheck-all r.size s.screen.vram r.address (i % 256) (f.0 (ground arith)) in
      rw (n, checked) (check_loop-AllFilled fuel l s (i + 1) rs f.1)
]

filled-null :
    (text : Text) (i : ℕ) (r : MmRq) (rs : List MmRq)
    → (r.address == 0) ≡ true
    → filled text i (r ∷ rs) ≡ filled text (i + 1) rs
unfolding filled
filled-null text i r rs z = rw z refl

filled-set :
    (text : Text) (i : ℕ) (r : MmRq) (rs : List MmRq)
    → (r.address == 0) ≡ false
    → filled text i (r ∷ rs) ≡ filled (memset text r.address (i % 2 ^ 32) r.size) (i + 1) rs
unfolding filled
filled-set text i r rs n = rw n refl

-- The bytes that `MemSet` has set for a request are left alone for those behind it.
filled-keeps :
    (text : Text) (i : ℕ) (r : MmRq) (rs : List MmRq)
    → All (AreApart r) rs
    → (j : ℕ) → j < r.size
    → filled (memset text r.address (i % 2 ^ 32) r.size) (i + 1) rs (r.address + j) ≡ i % 256
filled-keeps text i r rs apart j lt =
    let set = memset text r.address (i % 2 ^ 32) r.size in
    let byte : i % 2 ^ 32 % 256 ≡ i % 256 = omega arith in
    filled-outside set (i + 1) rs (r.address + j)
      (All-map (AreApart r) (IsOutside (r.address + j)) (λ t a ne. outside t (a ne)) rs apart)
    ∙ (memset_lem text r.address (i % 2 ^ 32) r.size).0 j lt
    ∙ byte
  where
    outside :
        (t : MmRq)
        → (r.address + r.size ≤ t.address) ⊎ (t.address + t.size ≤ r.address)
        → (r.address + j < t.address) ⊎ (t.address + t.size ≤ r.address + j)
    outside t a = omega arith

filled-AllFilled :
    (text : Text) (i : ℕ) (rs : List MmRq) → AllSeparate rs → AllFilled (filled text i rs) i rs
filled-AllFilled text i [] apart = tt
filled-AllFilled text i (r ∷ rs) apart = elim (Bool-cases (r.address == 0)) [
  | inl z ↦
      subst (λ m. AllFilled m i (r ∷ rs)) (sym (filled-null text i r rs z))
        ((λ ne. absurd (ne (ground arith))), filled-AllFilled text (i + 1) rs apart.1)
  | inr n ↦
      subst (λ m. AllFilled m i (r ∷ rs)) (sym (filled-set text i r rs n))
        (
          (λ ne. filled-keeps text i r rs (apart.0 ne)),
          filled-AllFilled (memset text r.address (i % 2 ^ 32) r.size) (i + 1) rs apart.1,
        )
]

-- Where the requests do not meet, the third loop finds the value of the second in every byte.
pub check_loop-filled :
    (fuel : ℕ) (l : Literals) (s : System) (i : ℕ) (rs : List MmRq)
    → AllSeparate rs
    → check_loop fuel l (with_vram s (filled s.screen.vram i rs)) i rs
      ≡ some (with_vram s (filled s.screen.vram i rs), [])
check_loop-filled fuel l s i rs apart =
    check_loop-AllFilled fuel l (with_vram s (filled s.screen.vram i rs)) i rs
      (filled-AllFilled s.screen.vram i rs apart)
