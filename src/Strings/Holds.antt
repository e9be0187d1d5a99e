-- ===== src/Strings/Holds.antt =====
-- Terminated strings in memory, and what `strlen` and `strncpy` of
-- Userland/SampleCodeModule/Lib.c do with them.
use so_bare_bones.Common.{
  ℕ, zero, suc, ◌+◌, ◌-◌, ◌≤◌, ◌<◌, ◌≡◌, ◌≢◌, ◌⊎◌, some, List, [], ◌∷◌, length, refl, arith, ap,
  ◌∙◌, ltb, ◌==◌, not, ◌&&◌, true, false, subst, sym,
}
use so_bare_bones.Number.{Text, store}
use so_bare_bones.Number.Digits.{store_self, store_ne}
use so_bare_bones.Strings.{strlen_loop, strlen, strncpy_loop, strncpy}

-- The string at `p` has these characters, and a terminator.
abbrev pub Holds : Text → (p : ℕ) → List ℕ → Type 0
Holds text p [] = text p ≡ 0
Holds text p (c ∷ l) = (text p ≡ c) × (c ≢ 0) × Holds text (p + 1) l

abbrev pub take : ℕ → List ℕ → List ℕ
take zero l = []
take (suc n) [] = []
take (suc n) (c ∷ l) = c ∷ take n l

-- A string stays where its bytes do.
pub Holds-same :
    (text t : Text) (p : ℕ) (l : List ℕ)
    → ((q : ℕ) → p ≤ q → q ≤ p + length l → t q ≡ text q)
    → Holds text p l
    → Holds t p l
Holds-same text t p [] same h = same p (omega arith) (omega arith) ∙ h
Holds-same text t p (c ∷ l) same h = (
  same p (omega arith) (omega arith) ∙ h.0,
  h.1,
  Holds-same text t (p + 1) l (λ q lo hi. same q (omega arith) (omega arith)) h.2,
)

strlen_loop-Holds :
    (f : ℕ) (text : Text) (str i : ℕ) (l : List ℕ)
    → length l < f
    → Holds text (str + i) l
    → strlen_loop f text str i ≡ some (i + length l)
unfolding strlen_loop
strlen_loop-Holds zero text str i l h t = absurd (omega arith)
strlen_loop-Holds (suc f) text str i [] h t = ground arith
strlen_loop-Holds (suc f) text str i (c ∷ l) h t =
    let next : str + i + 1 ≡ str + (i + 1) = omega arith in
    let rest = strlen_loop-Holds f text str (i + 1) l (omega arith) (rw next at t.2) in
    ground (arith, rest)

-- `strlen` returns the number of characters in front of the terminator.
pub strlen_lem :
    (f : ℕ) (text : Text) (str : ℕ) (l : List ℕ)
    → length l < f
    → Holds text str l
    → strlen f text str ≡ some (length l)
strlen_lem f text str l h t =
    let base : str ≡ str + 0 = omega arith in
    strlen_loop-Holds f text str 0 l h (rw base at t) ∙ ap some (omega arith)

-- A string that is written elsewhere stays.
Holds-store :
    (text : Text) (p q c : ℕ) (l : List ℕ)
    → (q < p) ⊎ (p + length l < q)
    → Holds text p l
    → Holds (store text q c) p l
Holds-store text p q c [] out t = store_ne text q c p (omega arith) ∙ t
Holds-store text p q c (d ∷ l) out t =
    (store_ne text q c p (omega arith) ∙ t.0, t.1, Holds-store text (p + 1) q c l (omega arith) t.2)

-- What the loop of `strncpy` leaves: the string `l` at `dest + j`, and nothing else changed.
pub record Cut (text : Text) (f source dest size i j : ℕ) (l : List ℕ) : Type 0 where
  pub after : Text
  pub runs : strncpy_loop f text source dest size i j ≡ some after
  pub copied : Holds after (dest + j) l
  pub same : (q : ℕ) → (q < dest + j) ⊎ (dest + j + length l < q) → after q ≡ text q

module _ (f : ℕ) (text : Text) (source dest size i j : ℕ) where
  Cut-end :
      (ltb i size && not (text (source + i) == 0)) ≡ false
      → Cut text (suc f) source dest size i j []
  unfolding strncpy_loop
  Cut-end stop = record {
    after = store text (dest + j) 0;
    runs = rw stop refl;
    copied = store_self text (dest + j) 0;
    same = λ q out. store_ne text (dest + j) 0 q (omega arith);
  }

  Cut-more :
      (c : ℕ) (l : List ℕ)
      → text (source + i) ≡ c
      → c ≢ 0
      → i < size
      → Cut (store text (dest + j) c) f source dest size (i + 1) (j + 1) l
      → Cut text (suc f) source dest size i j (c ∷ l)
  unfolding strncpy_loop
  Cut-more c l here ne room r =
      let on : (ltb i size && not (text (source + i) == 0)) ≡ true = ground arith in
      let next : dest + (j + 1) ≡ dest + j + 1 = omega arith in
      record {
        after = r.after;
        runs = rw on (
            subst
              (λ b.
                strncpy_loop f (store text (dest + j) b) source dest size (i + 1) (j + 1)
                ≡ some r.after)
              (sym here) r.runs);
        copied = (
          r.same (dest + j) (omega arith) ∙ store_self text (dest + j) c,
          ne,
          rw next at r.copied,
        );
        same = λ q out. r.same q (omega arith) ∙ store_ne text (dest + j) c q (omega arith);
      }

-- The copy does not run into the string that is left to copy.
abbrev pub AreApart : (source dest : ℕ) → List ℕ → Type 0
AreApart source dest l = (dest + length l < source) ⊎ (source + length l < dest)

strncpy_loop-Cut :
    (f : ℕ) (text : Text) (source dest size i j n : ℕ) (l : List ℕ)
    → length l < f
    → n ≡ size - i
    → AreApart (source + i) (dest + j) l
    → Holds text (source + i) l
    → Cut text f source dest size i j (take n l)
strncpy_loop-Cut zero text source dest size i j n l h e apart t = absurd (omega arith)
strncpy_loop-Cut (suc f) text source dest size i j zero l h e apart t =
    let stop : ltb i size ≡ false = ground arith in
    Cut-end f text source dest size i j (rw stop refl)
strncpy_loop-Cut (suc f) text source dest size i j (suc n) [] h e apart t =
    Cut-end f text source dest size i j (ground arith)
strncpy_loop-Cut (suc f) text source dest size i j (suc n) (c ∷ l) h e apart t =
    let next : source + i + 1 ≡ source + (i + 1) = omega arith in
    Cut-more f text source dest size i j c (take n l) t.0 t.1 (omega arith) (
      strncpy_loop-Cut f (store text (dest + j) c) source dest size (i + 1) (j + 1) n l
        (omega arith) (omega arith) (omega arith)
        (Holds-store text (source + (i + 1)) (dest + j) c l (omega arith) (rw next at t.2)))

-- `strncpy` of a string from `index` on leaves, at `dest`, its characters up to place `size` of the
-- source, a terminator, and every other byte as it was; the two may not overlap.
pub strncpy_lem :
    (f : ℕ) (text : Text) (source dest index size : ℕ) (l : List ℕ)
    → length l < f
    → AreApart (source + index) dest l
    → Holds text (source + index) l
    → (after : Text) × (strncpy f text source dest index size ≡ some after)
      × Holds after dest (take (size - index) l)
      × ((q : ℕ) → (q < dest) ⊎ (dest + length (take (size - index) l) < q) → after q ≡ text q)
strncpy_lem f text source dest index size l h apart t =
    let base : dest + 0 ≡ dest = omega arith in
    let c =
      strncpy_loop-Cut f text source dest size index 0 (size - index) l h refl (omega arith) t in
    (
      c.after,
      c.runs,
      subst (λ p. Holds c.after p (take (size - index) l)) base c.copied,
      λ q out. c.same q (omega arith),
    )
