-- ===== src/Console/Newline.antt =====
-- `ncNewline` of Kernel/naiveConsole.c.
use so_bare_bones.Common.{
  ℕ, zero, suc, ◌+◌, ◌-◌, ◌*◌, ◌/◌, ◌%◌, ◌≤◌, ◌<◌, ◌≡◌, ◌⊎◌, inl, inr, some, refl, arith, ap, ◌∙◌,
  ◌==◌, true, false, lt-or-le,
}
use so_bare_bones.Number.{store}
use so_bare_bones.Number.Digits.{store_self, store_ne}
use so_bare_bones.Console.{Console, video, nc_print_char, newline_loop, nc_newline}

-- `m` cells from the cursor on are blank, and the cursor is behind them.
record IsBlanked (c c' : Console) (m : ℕ) : Type 0 where
  at : c'.current_video ≡ c.current_video + 2 * m
  blank : (j : ℕ) → j < m → c'.text (c.current_video + 2 * j) ≡ b' '
  same :
      (q : ℕ)
      → (q < c.current_video) ⊎ (c.current_video + 2 * m ≤ q) ⊎ ((q - c.current_video) % 2 ≡ 1)
      → c'.text q ≡ c.text q

one-IsBlanked : (c : Console) → IsBlanked c (nc_print_char c b' ') 1
unfolding nc_print_char
one-IsBlanked c = record {
  at = omega arith;
  blank = λ j lt.
      let first : c.current_video + 2 * j ≡ c.current_video = omega arith in
      ap (store c.text c.current_video b' ') first ∙ store_self c.text c.current_video b' ';
  same = λ q out. store_ne c.text c.current_video b' ' q (omega arith);
}

more-IsBlanked :
    (c c' : Console) (m : ℕ) → IsBlanked (nc_print_char c b' ') c' m → IsBlanked c c' (suc m)
unfolding nc_print_char
more-IsBlanked c c' m b = record {
  at = omega (arith, b.at);
  blank = λ j lt. elim (lt-or-le 0 j) [
    | inl later ↦
        let shift : c.current_video + 2 * j ≡ c.current_video + 2 + 2 * (j - 1) = omega arith in
        ap c'.text shift ∙ b.blank (j - 1) (omega arith)
    | inr first ↦
        let here : c.current_video + 2 * j ≡ c.current_video = omega arith in
        ap c'.text here
        ∙ b.same c.current_video (inl (omega arith))
        ∙ store_self c.text c.current_video b' '
  ];
  same = λ q out. b.same q (omega arith) ∙ store_ne c.text c.current_video b' ' q (omega arith);
}

newline_loop-IsBlanked :
    (f : ℕ) (c : Console) (m : ℕ)
    → video ≤ c.current_video
    → m < 80
    → m < f
    → (c.current_video - video + 2 * suc m) % 160 ≡ 0
    → (c' : Console) × (newline_loop f c ≡ some c') × IsBlanked c c' (suc m)
unfolding newline_loop nc_print_char
newline_loop-IsBlanked zero c m low short fuel ends = absurd (omega arith)
newline_loop-IsBlanked (suc f) c zero low short fuel ends =
    let stop : ((c.current_video + 2 - video) % 160 == 0) ≡ true = ground arith in
    (nc_print_char c b' ', (rw stop refl), one-IsBlanked c)
newline_loop-IsBlanked (suc f) c (suc m) low short fuel ends =
    let on : ((c.current_video + 2 - video) % 160 == 0) ≡ false = ground arith in
    let rest =
      newline_loop-IsBlanked f (nc_print_char c b' ') m (omega arith) (omega arith) (omega arith)
        (omega arith) in
    (rest.0, (rw on rest.1), more-IsBlanked c rest.0 (suc m) rest.2)

-- `ncNewline` in cell `k` of the screen returns with the cursor in the first cell of the next line;
-- the cells in between, `k` included, hold a space, and no other byte has changed.
pub nc_newline_lem :
    (c : Console) (k : ℕ)
    → c.current_video ≡ video + 2 * k
    → (c' : Console) × (nc_newline c ≡ some c')
      × (c'.current_video ≡ video + 2 * ((k / 80 + 1) * 80))
      × ((j : ℕ) → k ≤ j → j < (k / 80 + 1) * 80 → c'.text (video + 2 * j) ≡ b' ')
      × ((q : ℕ)
          → (q < c.current_video) ⊎ (c'.current_video ≤ q) ⊎ ((q - video) % 2 ≡ 1)
          → c'.text q ≡ c.text q)
unfolding nc_newline
nc_newline_lem c k at =
    let m = 79 - k % 80 in
    let l = newline_loop-IsBlanked 80 c m (omega arith) (omega arith) (omega arith) (omega arith) in
    (
      l.0,
      l.1,
      omega (arith, l.2.at),
      λ j lo hi.
          let cell : video + 2 * j ≡ c.current_video + 2 * (j - k) = omega arith in
          ap l.0.text cell ∙ l.2.blank (j - k) (omega arith),
      λ q out. l.2.same q (omega (arith, l.2.at)),
    )
