-- ===== src/System/Exception/Register.antt =====
-- What `printRegister` of Kernel/interrupts/Interrupt_routines.c can show.
use so_bare_bones.Common.{
  ℕ, zero, suc, ◌+◌, ◌^◌, ◌<◌, ◌≡◌, ◌⊎◌, inl, inr, Option, none, ◌>>=◌, List, [], get_or, refl,
  arith, sym, ◌∙◌, subst,
}
use so_bare_bones.Number.{uint_to_base}
use so_bare_bones.Number.Reverse.{uint_to_base-Printed}
use so_bare_bones.Video.{Screen, draw_string, read_text, new_line}
use so_bare_bones.Video.Cursor.{At, At-vram, new_line-At}
use so_bare_bones.Video.Fails.{Drawn, draw_string-Drawn, draw_string-none}
use so_bare_bones.Video.Numbers.{length-read_text, get_or-read_text, few_digits_of}
use so_bare_bones.Video.Outside.{IsOutside, new_line-Kept}
use so_bare_bones.Strings.Holds.{Holds}
use so_bare_bones.System.{Timer}
use so_bare_bones.System.Exception.{
  Messages, reads_outside_font, register_names, register_loop, print_register, print_exception,
  exception_text,
}

-- The name of register `k` is shorter than seven characters: its terminator is among the bytes that
-- are drawn. It lies outside the framebuffer and the array for the digits.
pub record IsShort (s : Screen) (name to_print : ℕ) : Type 0 where
  pub place : ℕ
  pub within : place < 7
  pub terminator : s.vram (name + place) ≡ 0
  pub outside : IsOutside s.mode (name + place)
  pub beside : (name + place < to_print) ⊎ (to_print + 64 < name + place)

IsShort-kept :
    (s s' : Screen) (name to_print : ℕ)
    → s'.mode ≡ s.mode
    → ((q : ℕ) → IsOutside s.mode q → (q < to_print) ⊎ (to_print + 64 < q) → s'.vram q ≡ s.vram q)
    → IsShort s name to_print
    → IsShort s' name to_print
IsShort-kept s s' name to_print mode same h = record {
  place = h.place;
  within = h.within;
  terminator = same (name + h.place) h.outside h.beside ∙ h.terminator;
  outside = subst (λ m. IsOutside m (name + h.place)) (sym mode) h.outside;
  beside = h.beside;
}

-- A name that is too short is not drawn.
name-none :
    (s : Screen) (name to_print left cols col row : ℕ)
    → At s left cols col row
    → IsShort s name to_print
    → draw_string s (read_text s.vram name 7) ≡ none
name-none s name to_print left cols col row a h =
    let nul : get_or (read_text s.vram name 7) h.place 0 ≡ 0 =
      get_or-read_text s.vram name 7 h.place h.within ∙ h.terminator in
    draw_string-none (read_text s.vram name 7) s left cols col row h.place a
      (omega (arith, length-read_text s.vram name 7, h.within)) (omega (arith, nul))
      (inl (omega (arith, nul)))

module _ (names pri : ℕ → ℕ) (to_print k : ℕ) (words : (i : ℕ) → pri i < 2 ^ 64) where
  -- The rounds in front of register `k` draw their texts or fail; that of `k` fails.
  register_loop-none :
      (d n : ℕ) (s : Screen) (i left cols col row : ℕ)
      → i + d ≡ k
      → d < n
      → At s left cols col row
      → IsShort s (names k) to_print
      → register_loop n s names pri to_print i ≡ none
  unfolding register_loop
  register_loop-none d zero s i left cols col row e lt a h = absurd (omega arith)
  register_loop-none zero (suc n) s i left cols col row e lt a h =
      let here : i ≡ k = omega arith in
      let fails : draw_string s (read_text s.vram (names i) 7) ≡ none =
        subst (λ j. draw_string s (read_text s.vram (names j) 7) ≡ none) (sym here)
          (name-none s (names k) to_print left cols col row a h) in
      rw fails refl
  register_loop-none (suc d) (suc n) s i left cols col row e lt a h =
      by_name (draw_string-Drawn (read_text s.vram (names i) 7) s left cols col row a)
        (λ t cl ro at short.
          register_loop-none d n t (i + 1) left cols cl ro (omega arith) (omega arith) at short)
    where
      rest : Screen → Option Screen
      rest t = register_loop n (new_line t) names pri to_print (i + 1)

      by_digits :
          (s₁ : Screen) (col₁ row₁ : ℕ)
          → At s₁ left cols col₁ row₁
          → IsShort s₁ (names k) to_print
          → ((t : Screen) (cl ro : ℕ)
              → At t left cols cl ro
              → IsShort t (names k) to_print
              → register_loop n t names pri to_print (i + 1) ≡ none)
          → (uint_to_base (pri i) s₁.vram to_print 16 >>= λ r.
              draw_string (record s₁ { vram = r.0 }) (read_text r.0 to_print 5) >>= rest)
            ≡ none
      by_digits s₁ col₁ row₁ at short go_on =
          let p =
            uint_to_base-Printed (pri i) s₁.vram to_print 16 (omega arith) (omega arith)
              (words i) in
          let few = few_digits_of (pri i) s₁.vram to_print 16 (omega arith) (words i) p in
          let u = record s₁ { vram = p.after } in
          let kept =
            IsShort-kept s₁ u (names k) to_print refl
              (λ q out beside. p.same q (omega (arith, few))) short in
          rw p.runs
            (elim (draw_string-Drawn (read_text p.after to_print 5) u left cols col₁ row₁
              (At-vram s₁ p.after at)) [
                | inl fails ↦ rw fails refl
                | inr w ↦
                    let l = new_line-Kept w.after left cols _ _ w.at in
                    rw w.runs (
                      go_on (new_line w.after) 0 _ (new_line-At w.at) (
                        IsShort-kept w.after (new_line w.after) (names k) to_print l.mode
                          (λ q out beside. l.same q out)
                          (IsShort-kept u w.after (names k) to_print w.kept.mode
                            (λ q out beside. w.kept.same q out) kept)))
              ])

      by_name :
          (draw_string s (read_text s.vram (names i) 7) ≡ none)
            ⊎ Drawn s (read_text s.vram (names i) 7) left cols col row
          → ((t : Screen) (cl ro : ℕ)
              → At t left cols cl ro
              → IsShort t (names k) to_print
              → register_loop n t names pri to_print (i + 1) ≡ none)
          → register_loop (suc n) s names pri to_print i ≡ none
      by_name (inl fails) go_on = rw fails refl
      by_name (inr w) go_on = rw w.runs (
          by_digits w.after _ _ w.at
            (IsShort-kept s w.after (names k) to_print w.kept.mode
              (λ q out beside. w.kept.same q out) h)
            go_on)

-- A name that is too short for the seven characters that are drawn.
print_exception-short :
    (s : Screen) (t : Timer) (exc : ℕ) (names stackframe : ℕ → ℕ) (to_print : ℕ) (m : Messages)
    (keys : List ℕ) (k left cols col row : ℕ)
    → At s left cols col row
    → ((i : ℕ) → stackframe i < 2 ^ 64)
    → k < 17
    → IsShort s (names k) to_print
    → print_exception s t exc names stackframe to_print m keys ≡ reads_outside_font
unfolding print_exception print_register
print_exception-short s t exc names stackframe to_print m keys k left cols col row a words lt h =
    elim (draw_string-Drawn (exception_text s exc m) s left cols col row a) [
      | inl fails ↦ rw fails refl
      | inr w ↦
          let l = new_line-Kept w.after left cols _ _ w.at in
          let short =
            IsShort-kept w.after (new_line w.after) (names k) to_print l.mode
              (λ q out beside. l.same q out)
              (IsShort-kept s w.after (names k) to_print w.kept.mode
                (λ q out beside. w.kept.same q out) h) in
          let fails =
            register_loop-none names stackframe to_print k words k 17 (new_line w.after) 0 left cols
              0 _ (omega arith) lt (new_line-At w.at) short in
          rw (w.runs, fails) refl
    ]

-- The handler of an exception, with the cursor in a cell of a text area on the screen, reads outside
-- the font's table, whatever the exception, the frame and the keys: the name "R13: " is shorter than
-- the seven characters that are drawn of it, and its terminator has no glyph. The string lies in
-- neither the framebuffer nor the array for the digits.
pub print_exception-reads_outside_font :
    (s : Screen) (t : Timer) (exc : ℕ) (names stackframe : ℕ → ℕ) (to_print : ℕ) (m : Messages)
    (keys : List ℕ) (left cols col row : ℕ)
    → At s left cols col row
    → ((i : ℕ) → stackframe i < 2 ^ 64)
    → Holds s.vram (names 2) (get_or register_names 2 [])
    → IsOutside s.mode (names 2 + 5)
    → (names 2 + 5 < to_print) ⊎ (to_print + 64 < names 2 + 5)
    → print_exception s t exc names stackframe to_print m keys ≡ reads_outside_font
print_exception-reads_outside_font s t exc names stackframe to_print m keys left cols col row a
      words name out beside =
    let end : names 2 + 1 + 1 + 1 + 1 + 1 ≡ names 2 + 5 = omega arith in
    print_exception-short s t exc names stackframe to_print m keys 2 left cols col row a words
      (omega arith)
      (record {
        place = 5;
        within = omega arith;
        terminator = subst (λ q. s.vram q ≡ 0) end name.2.2.2.2.2;
        outside = out;
        beside = beside;
      })
