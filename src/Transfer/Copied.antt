-- ===== src/Transfer/Copied.antt =====
-- What `memset` and `memcpy` of Kernel/lib.c leave in memory.
use so_bare_bones.Common.{
  ℕ, zero, suc, ◌+◌, ◌*◌, ◌/◌, ◌%◌, ◌≤◌, ◌<◌, ◌≡◌, ◌⊎◌, inl, inr, refl, arith, ◌∙◌, subst, ◌&&◌,
  ◌==◌, lt-or-le, Bool-cases,
}
use so_bare_bones.Number.{Text, store}
use so_bare_bones.Number.Digits.{store_ne}
use so_bare_bones.Transfer.{byte_loop, word_loop, copy_word, memcpy, set_loop, memset}

-- `after` is `text` with the bytes from `d + i` to `d + k` taken from those behind `s`.
pub record Copied (text after : Text) (d s i k : ℕ) : Type 0 where
  pub taken : (j : ℕ) → i ≤ j → j < k → after (d + j) ≡ text (s + j)
  pub same : (q : ℕ) → (q < d + i) ⊎ (d + k ≤ q) → after q ≡ text q

abbrev pub AreApart : (d s length : ℕ) → Type 0
AreApart d s length = (d + length ≤ s) ⊎ (s + length ≤ d)

Copied-join :
    (text middle after : Text) (d s i h k length : ℕ)
    → i ≤ h
    → h ≤ k
    → k ≤ length
    → AreApart d s length
    → Copied text middle d s i h
    → Copied middle after d s h k
    → Copied text after d s i k
Copied-join text middle after d s i h k length ih hk kl apart first rest = record {
  taken = λ j lo hi. elim (lt-or-le j h) [
    | inl before ↦ rest.same (d + j) (omega arith) ∙ first.taken j lo before
    | inr behind ↦ rest.taken j behind hi ∙ first.same (s + j) (omega arith)
  ];
  same = λ q out. rest.same q (omega arith) ∙ first.same q (omega arith);
}

byte-Copied :
    (text : Text) (d s i : ℕ) → Copied text (store text (d + i) (text (s + i))) d s i (i + 1)
byte-Copied text d s i = record {
  taken = λ j lo hi. let here : j ≡ i = omega arith in ground (arith);
  same = λ q out. store_ne text (d + i) (text (s + i)) q (omega arith);
}

word-Copied :
    (text : Text) (d s i : ℕ)
    → Copied text (copy_word text (d + 4 * i) (s + 4 * i)) d s (4 * i) (4 * (i + 1))
unfolding copy_word
word-Copied text d s i = record {
  taken = λ j lo hi. elim (lt-or-le j (4 * i + 2)) [
    | inl low ↦ elim (lt-or-le j (4 * i + 1)) [
      | inl first ↦ let at : j ≡ 4 * i = omega arith in ground arith
      | inr second ↦ let at : j ≡ 4 * i + 1 = omega arith in ground arith
    ]
    | inr high ↦ elim (lt-or-le j (4 * i + 3)) [
      | inl third ↦ let at : j ≡ 4 * i + 2 = omega arith in ground arith
      | inr fourth ↦ let at : j ≡ 4 * i + 3 = omega arith in ground arith
    ]
  ];
  same = λ q out. ground arith;
}

Copied-none : (text : Text) (d s i : ℕ) → Copied text text d s i i
Copied-none text d s i = record { taken = λ j lo hi. absurd (omega arith); same = λ q out. refl }

byte_loop-Copied :
    (n : ℕ) (text : Text) (d s i length : ℕ)
    → i + n ≤ length
    → AreApart d s length
    → Copied text (byte_loop n text d s i) d s i (i + n)
unfolding byte_loop
byte_loop-Copied zero text d s i length h apart =
    subst (λ k. Copied text text d s i k) (omega arith) (Copied-none text d s i)
byte_loop-Copied (suc n) text d s i length h apart =
    let rest =
      byte_loop-Copied n (store text (d + i) (text (s + i))) d s (i + 1) length (omega arith)
        apart in
    let end : i + 1 + n ≡ i + suc n = omega arith in
    Copied-join text _ _ d s i (i + 1) (i + suc n) length (omega arith) (omega arith) (omega arith)
      apart (byte-Copied text d s i) (rw (← end) rest)

word_loop-Copied :
    (n : ℕ) (text : Text) (d s i length : ℕ)
    → 4 * (i + n) ≤ length
    → AreApart d s length
    → Copied text (word_loop n text d s i) d s (4 * i) (4 * (i + n))
unfolding word_loop
word_loop-Copied zero text d s i length h apart =
    subst (λ k. Copied text text d s (4 * i) k) (omega arith) (Copied-none text d s (4 * i))
word_loop-Copied (suc n) text d s i length h apart =
    let rest =
      word_loop-Copied n (copy_word text (d + 4 * i) (s + 4 * i)) d s (i + 1) length (omega arith)
        apart in
    let end : 4 * (i + 1 + n) ≡ 4 * (i + suc n) = omega arith in
    Copied-join text _ _ d s (4 * i) (4 * (i + 1)) (4 * (i + suc n)) length (omega arith)
      (omega arith) (omega arith) apart (word-Copied text d s i) (rw (← end) rest)

-- Between areas that do not overlap, `memcpy` copies every byte, by words or by bytes, and changes
-- nothing else.
pub memcpy-Copied :
    (text : Text) (destination source length : ℕ)
    → AreApart destination source length
    → Copied text (memcpy text destination source length) destination source 0 length
unfolding memcpy
memcpy-Copied text d s length apart =
    elim (Bool-cases (d % 4 == 0 && (s % 4 == 0 && length % 4 == 0))) [
      | inl aligned ↦
          let whole : length % 4 ≡ 0 = ground arith in
          let end : 4 * (0 + length / 4) ≡ length = omega arith in
          rw aligned (
            subst (λ k. Copied text (word_loop (length / 4) text d s 0) d s 0 k) end
              (word_loop-Copied (length / 4) text d s 0 length (omega arith) apart))
      | inr odd ↦
          let end : 0 + length ≡ length = omega arith in
          rw odd (
            subst (λ k. Copied text (byte_loop length text d s 0) d s 0 k) end
              (byte_loop-Copied length text d s 0 length (omega arith) apart))
    ]

-- Outside its destination the loop over bytes changes nothing, whatever it reads.
pub byte_loop-outside :
    (n : ℕ) (text : Text) (d s i q : ℕ)
    → (q < d + i) ⊎ (d + i + n ≤ q)
    → byte_loop n text d s i q ≡ text q
unfolding byte_loop
byte_loop-outside zero text d s i q out = refl
byte_loop-outside (suc n) text d s i q out =
    byte_loop-outside n (store text (d + i) (text (s + i))) d s (i + 1) q (omega arith)
    ∙ store_ne text (d + i) (text (s + i)) q (omega arith)

set_loop-set :
    (n : ℕ) (text : Text) (d c : ℕ)
    → ((j : ℕ) → j < n → set_loop n text d c (d + j) ≡ c)
      × ((q : ℕ) → (q < d) ⊎ (d + n ≤ q) → set_loop n text d c q ≡ text q)
unfolding set_loop
set_loop-set zero text d c = (λ j h. absurd (omega arith), λ q out. refl)
set_loop-set (suc n) text d c =
    let (inner, outer) = set_loop-set n (store text (d + n) c) d c in
    (
      λ j h. elim (lt-or-le j n) [
        | inl lt ↦ inner j lt
        | inr ge ↦ outer (d + j) (omega arith) ∙ ground arith
      ],
      λ q out. outer q (omega arith) ∙ store_ne text (d + n) c q (omega arith),
    )

-- `memset` fills the area with the low byte of `c`, and changes nothing else.
pub memset_lem :
    (text : Text) (destination c length : ℕ)
    → ((j : ℕ) → j < length → memset text destination c length (destination + j) ≡ c % 256)
      × ((q : ℕ)
          → (q < destination) ⊎ (destination + length ≤ q)
          → memset text destination c length q ≡ text q)
unfolding memset
memset_lem text d c length = set_loop-set length text d (c % 256)
