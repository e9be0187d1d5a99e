-- ===== src/Strings/Compare.antt =====
-- `strcmp` of Userland/SampleCodeModule/Lib.c, which returns 1 for equal strings.
use so_bare_bones.Common.{
  ℕ, zero, suc, ◌+◌, ◌<◌, ◌≡◌, ◌↔◌, some, List, [], ◌∷◌, length, refl, arith, ◌==◌, if◌then◌else◌,
  ◌&&◌, true, false, Bool,
}
use so_bare_bones.Number.{Text}
use so_bare_bones.Strings.{strcmp_loop, strcmp}
use so_bare_bones.Strings.Holds.{Holds}

abbrev pub equal : List ℕ → List ℕ → Bool
equal [] [] = true
equal [] (b ∷ bs) = false
equal (a ∷ as') [] = false
equal (a ∷ as') (b ∷ bs) = a == b && equal as' bs

pub equal_iff : (as' bs : List ℕ) → (equal as' bs ≡ true) ↔ (as' ≡ bs)
equal_iff [] [] = (λ _. refl, λ _. refl)
equal_iff [] (b ∷ bs) = (λ e. cc, λ e. cc)
equal_iff (a ∷ as') [] = (λ e. cc, λ e. cc)
equal_iff (a ∷ as') (b ∷ bs) = ground (arith, equal_iff as' bs)

-- A flag of 1 and 0 says which of two it is.
flag_iff :
    {P : Type 0} (b : Bool)
    → (b ≡ true) ↔ P
    → (◌≡◌ {A = ℕ} (if b then 1 else 0) 1 ↔ P) × (◌≡◌ {A = ℕ} (if b then 1 else 0) 0 ↔ ¬ P)
flag_iff true h =
    ((λ _. h.0 refl, λ _. refl), (λ e. absurd (omega arith), λ n. absurd (n (h.0 refl))))
flag_iff false h =
    ((λ e. absurd (omega arith), λ p. absurd (f-ne-t (h.1 p))), (λ _ p. f-ne-t (h.1 p), λ _. refl))
  where
    f-ne-t : false ≡ true → ⊥
    f-ne-t e = cc

strcmp_loop-Holds :
    (f : ℕ) (text : Text) (str1 str2 i : ℕ) (as' bs : List ℕ)
    → length as' < f
    → Holds text (str1 + i) as'
    → Holds text (str2 + i) bs
    → strcmp_loop f text str1 str2 i ≡ some (if equal as' bs then 1 else 0)
unfolding strcmp_loop
strcmp_loop-Holds zero text str1 str2 i as' bs h s t = absurd (omega arith)
strcmp_loop-Holds (suc f) text str1 str2 i [] [] h s t = ground arith
strcmp_loop-Holds (suc f) text str1 str2 i [] (b ∷ bs) h s t = ground arith
strcmp_loop-Holds (suc f) text str1 str2 i (a ∷ as') [] h s t = ground arith
strcmp_loop-Holds (suc f) text str1 str2 i (a ∷ as') (b ∷ bs) h s t =
    let next1 : str1 + i + 1 ≡ str1 + (i + 1) = omega arith in
    let next2 : str2 + i + 1 ≡ str2 + (i + 1) = omega arith in
    let rest =
      strcmp_loop-Holds f text str1 str2 (i + 1) as' bs (omega arith) (rw next1 at s.2)
        (rw next2 at t.2) in
    ground (arith, rest)

pub strcmp-equal :
    (f : ℕ) (text : Text) (str1 str2 : ℕ) (as' bs : List ℕ)
    → length as' < f
    → Holds text str1 as'
    → Holds text str2 bs
    → strcmp f text str1 str2 ≡ some (if equal as' bs then 1 else 0)
strcmp-equal f text str1 str2 as' bs h s t =
    let base1 : str1 ≡ str1 + 0 = omega arith in
    let base2 : str2 ≡ str2 + 0 = omega arith in
    strcmp_loop-Holds f text str1 str2 0 as' bs h (rw base1 at s) (rw base2 at t)

-- `strcmp` of two strings returns 1 if they are equal, and 0 if not.
pub strcmp_lem :
    (f : ℕ) (text : Text) (str1 str2 : ℕ) (as' bs : List ℕ)
    → length as' < f
    → Holds text str1 as'
    → Holds text str2 bs
    → (r : ℕ) × (strcmp f text str1 str2 ≡ some r)
      × ((r ≡ 1) ↔ (as' ≡ bs))
      × ((r ≡ 0) ↔ ¬ (as' ≡ bs))
strcmp_lem f text str1 str2 as' bs h s t = (
  (if equal as' bs then 1 else 0),
  strcmp-equal f text str1 str2 as' bs h s t,
  (flag_iff (equal as' bs) (equal_iff as' bs)).0,
  (flag_iff (equal as' bs) (equal_iff as' bs)).1,
)
