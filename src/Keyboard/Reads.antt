-- ===== src/Keyboard/Reads.antt =====
-- The reads of Kernel/drivers/keyboard_driver.c on the line of Keyboard/Line.antt, and the driver on
-- any sequence of keys and reads.
use mathlib.Core.Option
use mathlib.Core.Option.{some-injective, none-ne-some}
use so_bare_bones.Common.{
  ℕ, zero, suc, ◌+◌, ◌-◌, ◌≡◌, true, Bool-cases, inl, inr, Option, none, some, >>=-some, List, [],
  ◌∷◌, ◌++◌, ◌==◌, refl, ap, sym, ◌∙◌, subst, arith,
}
use so_bare_bones.Keyboard.{Keyboard, Effect, keyboard_handler, get_char, get_last_input}
use so_bare_bones.Keyboard.Line.{
  Line, Event, key, take_oldest, take_latest, take_first, take_last, line_step, keyboard_step, run,
}
use so_bare_bones.Keyboard.Table.{table, table_congr, table-front, take_last-append}
use so_bare_bones.Keyboard.Refines.{line_of, with_chars, Implements, keyboard_handler-Does, Does}
use so_bare_bones.Keyboard.Ring.{IsValid, waiting, get_char_lem, get_last_input_lem}

chars-table : (k : Keyboard) (n : ℕ) → k.size ≡ n → (line_of k).chars ≡ table (waiting k) n
unfolding line_of
chars-table k n e = ap (table (waiting k)) e

-- A read changes none of the keys.
line-with_chars :
    (k k' : Keyboard) (chars : List ℕ)
    → ((l : List ℕ) → with_chars k' l ≡ with_chars k l)
    → (line_of k').chars ≡ chars
    → line_of k' ≡ with_chars k chars
line-with_chars k k' chars keys e = keys (line_of k').chars ∙ ap (with_chars k) e

keys-get_char : (k : Keyboard) (l : List ℕ) → with_chars (get_char k).0 l ≡ with_chars k l
unfolding get_char line_of
keys-get_char k l = elim (Bool-cases (k.size == 0)) [ inl e ↦ rw e | inr e ↦ rw e ]

keys-get_last_input :
    (k : Keyboard) (l : List ℕ) → with_chars (get_last_input k).0 l ≡ with_chars k l
unfolding get_last_input line_of
keys-get_last_input k l = elim (Bool-cases (k.size == 0)) [
  | inl e ↦ rw e
  | inr e ↦ elim (Bool-cases (k.end_position == 0)) [ inl z ↦ rw (e, z) | inr z ↦ rw (e, z) ]
]

-- What a read does to the line, and what it answers.
record Reads (r : Keyboard × ℕ) (k : Keyboard) (s : List ℕ × ℕ) : Type 0 where
  pub valid : IsValid r.0
  pub line : line_of r.0 ≡ with_chars k s.0
  pub answer : r.1 ≡ s.1

get_char-empty : (k : Keyboard) → k.size ≡ 0 → get_char k ≡ (k, 0)
unfolding get_char
get_char-empty k e = let z : (k.size == 0) ≡ true = ground arith in rw z

get_last_input-empty : (k : Keyboard) → k.size ≡ 0 → get_last_input k ≡ (k, 0)
unfolding get_last_input
get_last_input-empty k e = let z : (k.size == 0) ≡ true = ground arith in rw z

empty-Reads : (k : Keyboard) → k.size ≡ 0 → IsValid k → Reads (k, 0) k ([], 0)
unfolding table
empty-Reads k e v = record {
  valid = v;
  line = line-with_chars k k [] (λ l. refl) (chars-table k 0 e);
  answer = refl;
}

get_char-Reads :
    (k : Keyboard) (n : ℕ)
    → k.size ≡ n
    → IsValid k
    → Reads (get_char k) k (take_first (line_of k).chars)
unfolding take_first table
get_char-Reads k zero e v = rw (get_char-empty k e, chars-table k 0 e) (empty-Reads k e v)
get_char-Reads k (suc n) e v =
    let r = get_char_lem k v (omega arith) in
    let k' = (get_char k).0 in
    let up = table_congr (waiting k') (λ j. waiting k (j + 1)) n (λ j lt. r.3 j) in
    rw (chars-table k (suc n) e, table-front (waiting k) n)
      record {
        valid = r.0;
        line =
            line-with_chars k k' _ (keys-get_char k)
              (chars-table k' n (omega (arith, r.2, e)) ∙ up);
        answer = r.1;
      }

get_last_input-Reads :
    (k : Keyboard) (n : ℕ)
    → k.size ≡ n
    → IsValid k
    → Reads (get_last_input k) k (take_last (line_of k).chars)
unfolding take_last table
get_last_input-Reads k zero e v =
    rw (get_last_input-empty k e, chars-table k 0 e) (empty-Reads k e v)
get_last_input-Reads k (suc n) e v =
    let r = get_last_input_lem k v (omega arith) in
    let k' = (get_last_input k).0 in
    let last : k.size - 1 ≡ n = omega (arith, e) in
    let stay = table_congr (waiting k') (waiting k) n (λ j lt. r.3 j) in
    rw (chars-table k (suc n) e, take_last-append (table (waiting k) n) (waiting k n))
      record {
        valid = r.0;
        line =
            line-with_chars k k' _ (keys-get_last_input k)
              (chars-table k' n (omega (arith, r.2, e)) ∙ stay);
        answer = r.1 ∙ ap (waiting k) last;
      }

-- An event that the line takes, the driver takes too, with the same answer and the line behind it.
pub record Follows (o : Option (Keyboard × List ℕ)) (s : Line × List ℕ) : Type 0 where
  pub after : Keyboard
  pub runs : o ≡ some (after, s.1)
  pub implements : Implements after s.0

Reads-Follows :
    (r : Keyboard × ℕ) (k : Keyboard) (s : List ℕ × ℕ)
    → Reads r k s
    → Follows (some (r.0, r.1 ∷ [])) (with_chars k s.0, s.1 ∷ [])
Reads-Follows r k s f = record {
  after = r.0;
  runs = ap (λ c. some (r.0, c ∷ [])) f.answer;
  implements = record { valid = f.valid; line = f.line };
}

Does-Follows :
    (o : Option (Keyboard × List Effect)) (p : Option Line) (s : Line × List ℕ)
    → ((l : Line) → p ≡ some l → Does o l)
    → Option.map (λ l. (l, [])) p ≡ some s
    → Follows (Option.map (λ r. (r.0, [])) o) s
Does-Follows o none s does h = absurd (none-ne-some s h)
Does-Follows o (some l) s does h =
    let d = does l refl in
    let e = some-injective (l, []) s h in
    rw d.runs (
      subst (Follows (some (d.after, []))) e
        record { after = d.after; runs = refl; implements = d.implements })

keyboard_step-Follows :
    (k : Keyboard) (e : Event) (s : Line × List ℕ)
    → IsValid k
    → line_step (line_of k) e ≡ some s
    → Follows (keyboard_step k e) s
unfolding keyboard_step line_step
keyboard_step-Follows k take_oldest s v h =
    let e = some-injective _ s h in
    subst (Follows (some ((get_char k).0, (get_char k).1 ∷ []))) e
      (Reads-Follows (get_char k) k _ (get_char-Reads k k.size refl v))
keyboard_step-Follows k take_latest s v h =
    let e = some-injective _ s h in
    subst (Follows (some ((get_last_input k).0, (get_last_input k).1 ∷ []))) e
      (Reads-Follows (get_last_input k) k _ (get_last_input-Reads k k.size refl v))
keyboard_step-Follows k (key code) s v h =
    Does-Follows (keyboard_handler k code) _ s (λ l. keyboard_handler-Does k code l v) h

-- Whatever sequence of keys and reads the line takes, its characters never being more than 100, the
-- driver takes too, from any valid ring that holds this line: its readers get the same characters in
-- the same order, and the ring behind it is valid and holds the line behind it.
pub run-keyboard_step :
    (k : Keyboard) (l : Line) (events : List Event) (s : Line × List ℕ)
    → Implements k l
    → run line_step l events ≡ some s
    → Follows (run keyboard_step k events) s
unfolding run
run-keyboard_step k l [] s i h =
    let e = some-injective (l, []) s h in
    subst (Follows (some (k, []))) e record { after = k; runs = refl; implements = i }
run-keyboard_step k l (event ∷ events) s i h =
    let now = >>=-some (line_step l event) _ s h in
    let later = >>=-some (run line_step now.0.0 events) _ s now.2 in
    let first =
      keyboard_step-Follows k event now.0 i.valid
        (subst (λ m. line_step m event ≡ some now.0) (sym i.line) now.1) in
    let rest = run-keyboard_step first.after now.0.0 events later.0 first.implements later.1 in
    let e = some-injective (later.0.0, now.0.1 ++ later.0.1) s later.2 in
    rw (first.runs, rest.runs)
      (subst (Follows (some (rest.after, now.0.1 ++ later.0.1))) e
        record { after = rest.after; runs = refl; implements = rest.implements })
