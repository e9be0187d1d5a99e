-- ===== src/User/Ends.antt =====
-- Which calls of Userland/SampleCodeModule/Lib.c that write on the screen return, and what they leave.
use mathlib.Core.Option
use so_bare_bones.Common.{
  ℕ, ◌+◌, ◌^◌, ◌≤◌, ◌<◌, ◌≡◌, ◌⊎◌, Option, some, ◌>>=◌, List, [], ◌∷◌, length, All, refl, arith, ap,
  sym, ◌∙◌, subst, to_int, rounds,
}
use so_bare_bones.Number.{Text}
use so_bare_bones.Strings.Holds.{Holds, Holds-same, strlen_lem}
use so_bare_bones.System.{System, int80_dispatcher, sys_write, sys_print_num, on_screen, widen}
use so_bare_bones.Video.{Screen, Mode, draw_string, read_text, draw_number, draw_decimal, draw_hex}
use so_bare_bones.Video.Cursor.{At, At-vram, new_line-At}
use so_bare_bones.Video.Numbers.{draw_number-Written}
use so_bare_bones.Video.Outside.{IsOutside, new_line-Kept, draw_string-Written}
use so_bare_bones.Video.Typing.{Printable}
use so_bare_bones.User.{call, print, new_line, print_num}

-- What a program on its way can rely on: the cursor stands in the text area, and the bytes that `P`
-- names are still those of the memory `text`.
pub record IsFine (m : Mode) (b : ℕ) (P : ℕ → Type 0) (text : Text) (s : System) : Type 0 where
  pub left : ℕ
  pub cols : ℕ
  pub col : ℕ
  pub row : ℕ
  pub at : At s.screen left cols col row
  pub mode : s.screen.mode ≡ m
  pub buffer : s.screen.buffer ≡ b
  pub memory : (q : ℕ) → P q → s.screen.vram q ≡ text q

-- The step returns, in a state in which the program can go on.
pub record Ends (m : Mode) (b : ℕ) (P : ℕ → Type 0) (text : Text) (o : Option System) : Type 0 where
  pub after : System
  pub runs : o ≡ some after
  pub fine : IsFine m b P text after

-- `P` names no byte of the framebuffer nor of the driver's buffer for numbers.
abbrev pub IsAway : Mode → (b : ℕ) → (ℕ → Type 0) → Type 0
IsAway m b P = (q : ℕ) → P q → IsOutside m q × ((q < b) ⊎ (b + 9 < q))

-- A string of the font's characters in the memory that stays.
pub record IsText (fuel : ℕ) (P : ℕ → Type 0) (text : Text) (p : ℕ) (l : List ℕ) : Type 0 where
  pub holds : Holds text p l
  pub printable : All Printable l
  pub short : length l < fuel
  pub int_length : length l < 2 ^ 31
  pub stays : (q : ℕ) → p ≤ q → q ≤ p + length l → P q

read_text-Holds : (t : Text) (p : ℕ) (l : List ℕ) → Holds t p l → read_text t p (length l) ≡ l
unfolding read_text
read_text-Holds t p [] h = refl
read_text-Holds t p (c ∷ l) h =
    ap (λ k. k ∷ read_text t (p + 1) (length l)) h.0
    ∙ ap (λ k. c ∷ k) (read_text-Holds t (p + 1) l h.2)

pub Ends-some :
    {m : Mode} {b : ℕ} {P : ℕ → Type 0} {text : Text} (s : System)
    → IsFine m b P text s
    → Ends m b P text (some s)
Ends-some s f = record { after = s; runs = refl; fine = f }

pub Ends->>= :
    {m : Mode} {b : ℕ} {P : ℕ → Type 0} {text : Text} (o : Option System)
    (f : System → Option System)
    → Ends m b P text o
    → ((t : System) → IsFine m b P text t → Ends m b P text (f t))
    → Ends m b P text (o >>= f)
Ends->>= o f e k =
    let r = k e.after e.fine in
    record { after = r.after; runs = ap (λ x. x >>= f) e.runs ∙ r.runs; fine = r.fine }

-- `P` names no byte of the framebuffer.
abbrev pub IsOffFrame : Mode → (ℕ → Type 0) → Type 0
IsOffFrame m P = (q : ℕ) → P q → IsOutside m q

pub off_frame : (m : Mode) (b : ℕ) (P : ℕ → Type 0) → IsAway m b P → IsOffFrame m P
off_frame m b P away q p = (away q p).0

-- The step returns and changes only the screen.
pub record Shown (m : Mode) (b : ℕ) (P : ℕ → Type 0) (text : Text) (s : System) (o : Option System)
    : Type 0 where
  pub screen : Screen
  pub runs : o ≡ some (record s { screen = screen })
  pub fine : IsFine m b P text (record s { screen = screen })

Shown-Ends :
    {m : Mode} {b : ℕ} {P : ℕ → Type 0} {text : Text} {s : System} {o : Option System}
    → Shown m b P text s o
    → Ends m b P text o
Shown-Ends {s} d = record { after = record s { screen = d.screen }; runs = d.runs; fine = d.fine }

-- Only the screen counts.
pub IsFine-screen :
    {m : Mode} {b : ℕ} {P : ℕ → Type 0} {text : Text} (s t : System)
    → t.screen ≡ s.screen
    → IsFine m b P text s
    → IsFine m b P text t
IsFine-screen s t same f = record {
  left = f.left;
  cols = f.cols;
  col = f.col;
  row = f.row;
  at = subst (λ sc. At sc f.left f.cols f.col f.row) (sym same) f.at;
  mode = ap (λ sc. sc.mode) same ∙ f.mode;
  buffer = ap (λ sc. sc.buffer) same ∙ f.buffer;
  memory = λ q p. ap (λ sc. sc.vram q) same ∙ f.memory q p;
}

-- Memory that the program writes for itself.
pub IsFine-vram :
    {m : Mode} {b : ℕ} {P : ℕ → Type 0} {text : Text} (s : System) (t : Text)
    → IsFine m b P text s
    → ((q : ℕ) → P q → t q ≡ s.screen.vram q)
    → IsFine m b P text (record s { screen = record s.screen { vram = t } })
IsFine-vram s t f same = record {
  left = f.left;
  cols = f.cols;
  col = f.col;
  row = f.row;
  at = At-vram s.screen t f.at;
  mode = f.mode;
  buffer = f.buffer;
  memory = λ q p. same q p ∙ f.memory q p;
}

-- A call that changes only the screen.
on_screen-Shown :
    {m : Mode} {b : ℕ} {P : ℕ → Type 0} {text : Text} (s : System) (o : Option Screen) (sc : Screen)
    {left cols col row : ℕ}
    → IsFine m b P text s
    → o ≡ some sc
    → At sc left cols col row
    → sc.mode ≡ s.screen.mode
    → sc.buffer ≡ s.screen.buffer
    → ((q : ℕ) → P q → sc.vram q ≡ s.screen.vram q)
    → Shown m b P text s (Option.map (λ r. r.0) (on_screen s 0 o))
on_screen-Shown s o sc {left} {cols} {col} {row} f e a mode buffer same = record {
  screen = sc;
  runs = ap (λ x. Option.map (λ r. r.0) (on_screen s 0 x)) e;
  fine = record {
    left = left;
    cols = cols;
    col = col;
    row = row;
    at = a;
    mode = mode ∙ f.mode;
    buffer = buffer ∙ f.buffer;
    memory = λ q p. same q p ∙ f.memory q p;
  };
}

module _ {m : Mode} {b : ℕ} {P : ℕ → Type 0} {text : Text} (off : IsOffFrame m P) (s : System)
    (f : IsFine m b P text s) where
  outside : (q : ℕ) → P q → IsOutside s.screen.mode q
  outside q p = subst (λ k. IsOutside k q) (sym f.mode) (off q p)

  draw_string-Shown :
      (l : List ℕ)
      → All Printable l
      → Shown m b P text s (Option.map (λ r. r.0) (on_screen s 0 (draw_string s.screen l)))
  draw_string-Shown l printable =
      let w = draw_string-Written l s.screen f.left f.cols f.col f.row printable f.at in
      on_screen-Shown s (draw_string s.screen l) w.after f w.runs w.at w.kept.mode w.kept.buffer
        (λ q p. w.kept.same q (outside q p))

  pub new_line-Ends : Ends m b P text (new_line s)
  unfolding new_line call int80_dispatcher
  new_line-Ends =
      let k = new_line-Kept s.screen f.left f.cols f.col f.row f.at in
      Shown-Ends (
        on_screen-Shown s _ (so_bare_bones.Video.new_line s.screen) f refl (new_line-At f.at) k.mode
          k.buffer (λ q p. k.same q (outside q p)))

  -- `print` of a string in memory that stays.
  pub print-Shown :
      (fuel p : ℕ) (l : List ℕ) → IsText fuel P text p l → Shown m b P text s (print fuel s p)
  unfolding print call int80_dispatcher sys_write
  print-Shown fuel p l t =
      let here =
        Holds-same text s.screen.vram p l (λ q lo hi. f.memory q (t.stays q lo hi)) t.holds in
      let count : rounds (to_int (widen (length l))) ≡ length l = ground (arith, t.int_length) in
      let read : read_text s.screen.vram p (rounds (to_int (widen (length l)))) ≡ l =
        ap (read_text s.screen.vram p) count ∙ read_text-Holds s.screen.vram p l here in
      let len = strlen_lem fuel s.screen.vram p l t.short here in
      subst (λ o. Shown m b P text s (o >>= λ n. call 0 s 1 p (widen n) 0)) (sym len)
        (subst
          (λ z. Shown m b P text s (Option.map (λ r. r.0) (on_screen s 0 (draw_string s.screen z))))
          (sym read) (draw_string-Shown l t.printable))

  pub print-Ends :
      (fuel p : ℕ) (l : List ℕ) → IsText fuel P text p l → Ends m b P text (print fuel s p)
  print-Ends fuel p l t = Shown-Ends (print-Shown fuel p l t)

module _ {m : Mode} {b : ℕ} {P : ℕ → Type 0} {text : Text} (away : IsAway m b P) (s : System)
    (f : IsFine m b P text s) where
  draw_number-Ends :
      (value base : ℕ)
      → 2 ≤ base
      → base ≤ 16
      → value < 2 ^ 64
      → value < base ^ 9
      → Ends m b P text (Option.map (λ r. r.0) (on_screen s 0 (draw_number s.screen value base)))
  draw_number-Ends value base radix small word few =
      let w =
        draw_number-Written s.screen value base f.left f.cols f.col f.row radix small word few
          f.at in
      Shown-Ends (
        on_screen-Shown s (draw_number s.screen value base) w.after f w.runs w.at w.mode w.buffer
          (λ q p.
            let beside = subst (λ c. (q < c) ⊎ (c + 9 < q)) (sym f.buffer) (away q p).1 in
            w.same q (outside (off_frame m b P away) s f q p) (omega (arith, beside, w.few))))

  word_widen : (n : ℕ) → widen n < 2 ^ 64
  word_widen n = ground arith

  -- `print_num` of a number that fits in the driver's buffer, in decimal digits (0) and in hexadecimal
  -- ones (1).
  pub print_num-Ends_decimal : (num : ℕ) → num < 10 ^ 9 → Ends m b P text (print_num s num 0)
  unfolding print_num call int80_dispatcher sys_print_num draw_decimal
  print_num-Ends_decimal num small =
      let same : widen (widen num) ≡ num = ground arith in
      draw_number-Ends (widen (widen num)) 10 (omega arith) (omega arith) (word_widen (widen num))
        (omega (arith, same))

  pub print_num-Ends_hex : (num : ℕ) → num < 2 ^ 31 → Ends m b P text (print_num s num 1)
  unfolding print_num call int80_dispatcher sys_print_num draw_hex
  print_num-Ends_hex num small =
      let same : widen (widen num) ≡ num = ground arith in
      draw_number-Ends (widen (widen num)) 16 (omega arith) (omega arith) (word_widen (widen num))
        (omega (arith, same))
