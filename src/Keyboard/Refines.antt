-- ===== src/Keyboard/Refines.antt =====
-- The keys of Kernel/drivers/keyboard_driver.c, on the ring and on the line of Keyboard/Line.antt.
use mathlib.Core.Option
use mathlib.Core.Option.{some-injective, none-ne-some}
use so_bare_bones.Common.{
  ℕ, suc, ◌<◌, ◌≡◌, Bool, true, false, ◌||◌, Bool-cases, inl, inr, Option, none, some, ◌>>=◌, List,
  [], ◌∷◌, ◌++◌, length, ltb, ltb→lt, ◌==◌, if◌then◌else◌, refl, ◌∙◌, subst, arith,
}
use so_bare_bones.Keyboard.{
  Keyboard, Effect, save_regs, add_to_buffer, add_char, press_special, press_char, release_special,
  plain_char, shift_char, keyboard_handler, to_lower_case, to_upper_case,
}
use so_bare_bones.Keyboard.Line.{Line, append, hold, release, type_key}
use so_bare_bones.Keyboard.Table.{table, table_congr, length-table}
use so_bare_bones.Keyboard.Ring.{IsValid, waiting, add_to_buffer_lem}

-- The line that a keyboard implements.
unfoldable pub line_of : Keyboard → Line
line_of k = record {
  left_shift = k.lshift_lckd;
  right_shift = k.rshift_lckd;
  caps_lock = k.caps_lckd;
  ctrl = k.ctrl_lckd;
  chars = table (waiting k) k.size;
}

pub record Implements (k : Keyboard) (l : Line) : Type 0 where
  pub valid : IsValid k
  pub line : line_of k ≡ l

-- A step of the driver that ends in the line `l`, with something to tell.
pub record Does {X : Type 0} (o : Option (Keyboard × X)) (l : Line) : Type 0 where
  pub after : Keyboard
  pub told : X
  pub runs : o ≡ some (after, told)
  pub implements : Implements after l

-- The same keys, and another number of characters that wait.
abbrev pub with_chars : Keyboard → List ℕ → Line
with_chars k chars = record (line_of k) { chars = chars }

chars-add_to_buffer :
    (k : Keyboard) (c : ℕ)
    → IsValid k
    → k.size < 100
    → table (waiting (add_to_buffer k c)) (suc k.size) ≡ table (waiting k) k.size ++ c ∷ []
unfolding table
chars-add_to_buffer k c v h =
    let added = add_to_buffer_lem k c v h in
    rw (table_congr (waiting (add_to_buffer k c)) (waiting k) k.size added.3, added.2)

keys-add_to_buffer :
    (k : Keyboard) (c : ℕ) (chars : List ℕ)
    → with_chars (add_to_buffer k c) chars ≡ with_chars k chars
unfolding add_to_buffer line_of
keys-add_to_buffer k c chars = refl

-- An added character stands behind those that wait.
add_to_buffer-Implements :
    (k : Keyboard) (c : ℕ)
    → IsValid k
    → k.size < 100
    → Implements (add_to_buffer k c) (with_chars k ((line_of k).chars ++ c ∷ []))
unfolding line_of
add_to_buffer-Implements k c v h =
    let added = add_to_buffer_lem k c v h in
    let size : (add_to_buffer k c).size ≡ suc k.size = omega (arith, added.1) in
    record {
      valid = added.0;
      line =
          rw (size, chars-add_to_buffer k c v h)
            (keys-add_to_buffer k c (table (waiting k) k.size ++ c ∷ []));
    }

length-chars : (k : Keyboard) → length (line_of k).chars ≡ k.size
unfolding line_of
length-chars k = length-table (waiting k) k.size

add_char-Implements :
    (k : Keyboard) (c shown : ℕ) (l : Line)
    → IsValid k
    → append (line_of k) c shown ≡ some l
    → Implements (add_char k c shown) l
unfolding add_char append
add_char-Implements k c shown l v h = elim (Bool-cases (c == 0)) [
  | inl no_char ↦
      rw no_char record { valid = v; line = some-injective (line_of k) l (rw no_char at h) }
  | inr char ↦ elim (Bool-cases (ltb (length (line_of k).chars) 100)) [
    | inl room ↦
        let below = ltb→lt (length (line_of k).chars) 100 room in
        let done = add_to_buffer-Implements k shown v (omega (arith, below, length-chars k)) in
        let e =
          some-injective (with_chars k ((line_of k).chars ++ shown ∷ [])) l
            (rw (char, room) at h) in
        rw char (subst (Implements (add_to_buffer k shown)) e done)
    | inr full ↦ absurd (none-ne-some l (rw (char, full) at h))
  ]
]

press_special-line :
    (k : Keyboard) (code : ℕ) → line_of (press_special k code) ≡ hold (line_of k) code
unfolding press_special hold line_of
press_special-line k code = ground arith

release_special-line :
    (k : Keyboard) (code : ℕ) → line_of (release_special k code) ≡ release (line_of k) code
unfolding release_special release line_of
release_special-line k code = ground arith

press_special-IsValid : (k : Keyboard) (code : ℕ) → IsValid k → IsValid (press_special k code)
unfolding press_special
press_special-IsValid k code v = ground (arith, v.room, v.start_in, v.end_at, v.size_in)

release_special-IsValid : (k : Keyboard) (code : ℕ) → IsValid k → IsValid (release_special k code)
unfolding release_special
release_special-IsValid k code v = ground (arith, v.room, v.start_in, v.end_at, v.size_in)

-- A key that types one character of the map.
typed :
    (k : Keyboard) (l : Line) (code_char : Option ℕ) (shown : ℕ → ℕ)
    → IsValid k
    → (code_char >>= λ c. append (line_of k) c (shown c)) ≡ some l
    → Does {X = List Effect} (Option.map (λ c. (add_char k c (shown c), [])) code_char) l
typed k l none shown v h = absurd (none-ne-some l h)
typed k l (some c) shown v h = record {
  after = add_char k c (shown c);
  told = [];
  runs = refl;
  implements = add_char-Implements k c (shown c) l v h;
}

Does-map :
    {X Y : Type 0} (o : Option (Keyboard × X)) (l : Line) (tell : X → Y)
    → Does o l
    → Does (Option.map (λ r. (r.0, tell r.1)) o) l
Does-map o l tell d =
    rw d.runs record { after = d.after; told = tell d.told; runs = refl; implements = d.implements }

if-Does :
    {X : Type 0} (b : Bool) (o o' : Option (Keyboard × X)) (p p' : Option Line) (l : Line)
    → (p ≡ some l → Does o l)
    → (p' ≡ some l → Does o' l)
    → (if b then p else p') ≡ some l
    → Does (if b then o else o') l
if-Does true o o' p p' l first other h = first h
if-Does false o o' p p' l first other h = other h

press_char-Does :
    (k : Keyboard) (code : ℕ) (l : Line)
    → IsValid k
    → type_key (line_of k) code ≡ some l
    → Does (press_char k code) l
unfolding press_char type_key line_of
press_char-Does k code l v =
    let shown : ℕ → ℕ = λ c. if k.caps_lckd then to_lower_case c else c in
    if-Does (k.lshift_lckd || k.rshift_lckd) _ _ _ _ l (typed k l (shift_char code) shown v) (
      if-Does k.caps_lckd _ _ _ _ l (typed k l (plain_char code) (λ c. to_upper_case c) v) (
        if-Does k.ctrl_lckd _ _ _ _ l
          (λ h. record {
            after = k;
            told = save_regs ∷ [];
            runs = refl;
            implements = record { valid = v; line = some-injective (line_of k) l h };
          })
          (typed k l (plain_char code) (λ c. c) v)))

-- A scan code that the line takes, the driver takes too.
pub keyboard_handler-Does :
    (k : Keyboard) (code : ℕ) (l : Line)
    → IsValid k
    → (if ltb code 0x80
        then type_key (hold (line_of k) code) code
        else some (release (line_of k) code))
      ≡ some l
    → Does (keyboard_handler k code) l
unfolding keyboard_handler
keyboard_handler-Does k code l v =
    if-Does (ltb code 0x80) _ _ _ _ l
      (λ h.
        let pressed = press_special k code in
        let line = press_special-line k code in
        Does-map (press_char pressed code) l _
          (press_char-Does pressed code l (press_special-IsValid k code v) (rw line h)))
      (λ h. record {
        after = release_special k code;
        told = _;
        runs = refl;
        implements = record {
          valid = release_special-IsValid k code v;
          line = release_special-line k code ∙ some-injective (release (line_of k) code) l h;
        };
      })
