-- ===== src/Shell/Find.antt =====
-- Which command a line runs in `CommandHandler` of Userland/SampleCodeModule/shell.c.
use mathlib.Core.Option
use so_bare_bones.Common.{
  ℕ, zero, suc, ◌+◌, ◌-◌, ◌≤◌, ◌<◌, ◌≡◌, ◌⊎◌, inl, inr, Option, none, some, List, [], ◌∷◌, map,
  length, refl, arith, ap, ◌∙◌, subst, All, All-map, false, Bool-cases, if◌then◌else◌,
}
use so_bare_bones.Number.{Text}
use so_bare_bones.Strings.{strncpy}
use so_bare_bones.Strings.Compare.{equal, equal_iff, strcmp-equal}
use so_bare_bones.Strings.Holds.{Holds, Holds-same, take, strncpy_lem}
use so_bare_bones.Transfer.Copied.{memset_lem}
use so_bare_bones.Shell.Command.{
  Places, run_command, not_valid, zeroed, find_command, handle_print_mem, command_handler,
}

-- The first entry of that name, from `i` on.
abbrev pub index_of : List ℕ → List (ℕ × List ℕ) → (i : ℕ) → Option ℕ
index_of line [] i = none
index_of line (e ∷ entries) i =
    let rest = index_of line entries (i + 1) in if equal line e.1 then some i else rest

-- "printMem "
abbrev pub print_mem_text : List ℕ
print_mem_text = b'p' ∷ b'r' ∷ b'i' ∷ b'n' ∷ b't' ∷ b'M' ∷ b'e' ∷ b'm' ∷ b' ' ∷ []

-- `n` bytes at `a` and `m` at `b` do not meet.
abbrev pub AreApart : (a n b m : ℕ) → Type 0
AreApart a n b m = (a + n ≤ b) ⊎ (b + m ≤ a)

-- No two of the arrays meet.
pub record IsLaidOut (p : Places) : Type 0 where
  pub line_potential : AreApart p.terminal_buffer 101 p.potential_command 100
  pub potential_print : AreApart p.potential_command 100 p.printmemcommand 100
  pub potential_arg : AreApart p.potential_command 100 p.arg 100
  pub literal_potential : AreApart p.literal 10 p.potential_command 100
  pub literal_print : AreApart p.literal 10 p.printmemcommand 100
  pub literal_arg : AreApart p.literal 10 p.arg 100

-- An entry's name is in memory, away from an array of 100 bytes.
abbrev pub IsNamed : Text → (area : ℕ) → ℕ × List ℕ → Type 0
IsNamed text area e = Holds text e.0 e.1 × AreApart e.0 (length e.1 + 1) area 100

Holds-zeroed :
    (text : Text) (a p : ℕ) (l : List ℕ)
    → AreApart p (length l + 1) a 100
    → Holds text p l
    → Holds (zeroed text a) p l
Holds-zeroed text a p l apart h =
    Holds-same text (zeroed text a) p l (λ q lo hi. (memset_lem text a 0 100).1 q (omega arith)) h

take-length : (l : List ℕ) → take (length l) l ≡ l
take-length [] = refl
take-length (c ∷ l) = ap (λ m. c ∷ m) (take-length l)

length-take : (n : ℕ) (l : List ℕ) → length (take n l) ≤ n
length-take zero l = omega arith
length-take (suc n) [] = omega arith
length-take (suc n) (c ∷ l) = omega (arith, length-take n l)

-- The loop finds the first entry whose name is the line.
find_command-index_of :
    (fuel : ℕ) (text : Text) (at : ℕ) (line : List ℕ) (entries : List (ℕ × List ℕ)) (i : ℕ)
    → length line < fuel
    → Holds text at line
    → All (λ e. Holds text e.0 e.1) entries
    → find_command fuel text at (map (λ e. e.0) entries) i ≡ some (index_of line entries i)
unfolding find_command Option.bind
find_command-index_of fuel text at line [] i small h named = refl
find_command-index_of fuel text at line (e ∷ entries) i small h named =
    let compares = strcmp-equal fuel text at e.0 line e.1 small h named.0 in
    let rest = find_command-index_of fuel text at line entries (i + 1) small h named.1 in
    rw (compares, rest)
      (elim (Bool-cases (equal line e.1)) [ inl s ↦ rw s refl | inr d ↦ rw d refl ])

-- A string of at most 99 characters copied into an array of zeros that it does not meet.
record IsCopied (text : Text) (at : ℕ) (line : List ℕ) (t : Text) : Type 0 where
  holds : Holds t at line
  same : (q : ℕ) → (q < at) ⊎ (at + 100 ≤ q) → t q ≡ text q

copy-IsCopied :
    (fuel : ℕ) (text t₀ : Text) (source at size : ℕ) (l : List ℕ)
    → length l < fuel
    → length l ≤ 99
    → AreApart source (length l + 1) at 100
    → ((q : ℕ) → (q < at) ⊎ (at + 100 ≤ q) → t₀ q ≡ text q)
    → Holds text source l
    → (t : Text) × (strncpy fuel t₀ source at 0 size ≡ some t) × IsCopied text at (take size l) t
copy-IsCopied fuel text t₀ source at size l small short apart zeros h =
    let base : source ≡ source + 0 = omega arith in
    let h₀ = Holds-same text t₀ source l (λ q lo hi. zeros q (omega arith)) h in
    let whole_size : size - 0 ≡ size = omega arith in
    let cut =
      rw whole_size at
        (strncpy_lem fuel t₀ source at 0 size l small (omega arith) (rw base at h₀)) in
    let shorter : length (take size l) ≤ 99 = omega (arith, length-take-le size l) in
    (
      cut.0,
      cut.1,
      record { holds = cut.2; same = λ q out. cut.3 q (omega (arith, shorter)) ∙ zeros q out },
    )
  where
    length-take-le : (n : ℕ) (m : List ℕ) → length (take n m) ≤ length m
    length-take-le zero m = omega arith
    length-take-le (suc n) [] = omega arith
    length-take-le (suc n) (c ∷ m) = omega (arith, length-take-le n m)

-- A line that does not begin with "printMem " is refused when it is no command's name.
handle_print_mem-not_valid :
    (fuel : ℕ) (text : Text) (p : Places) (line : List ℕ)
    → IsLaidOut p
    → length line ≤ 99
    → length line < fuel
    → 9 < fuel
    → Holds text p.potential_command line
    → Holds text p.literal print_mem_text
    → ¬ (take 9 line ≡ print_mem_text)
    → (t : Text) × (handle_print_mem fuel text p ≡ some (t, not_valid))
unfolding handle_print_mem Option.bind
handle_print_mem-not_valid fuel text p line laid short small nine h lit other =
    let t₁ = zeroed (zeroed text p.printmemcommand) p.arg in
    let line₁ =
      Holds-zeroed (zeroed text p.printmemcommand) p.arg p.potential_command line
        (omega (arith, laid.potential_arg))
        (Holds-zeroed text p.printmemcommand p.potential_command line
          (omega (arith, laid.potential_print)) h) in
    let lit₁ =
      Holds-zeroed (zeroed text p.printmemcommand) p.arg p.literal print_mem_text laid.literal_arg
        (Holds-zeroed text p.printmemcommand p.literal print_mem_text laid.literal_print lit) in
    let copy =
      copy-IsCopied fuel t₁ t₁ p.potential_command p.printmemcommand 9 line small short
        (omega (arith, laid.potential_print)) (λ q out. refl) line₁ in
    let lit₂ =
      Holds-same t₁ copy.0 p.literal print_mem_text
        (λ q lo hi. copy.2.same q (omega (arith, laid.literal_print))) lit₁ in
    let compares =
      strcmp-equal fuel copy.0 p.printmemcommand p.literal (take 9 line) print_mem_text
        (omega (arith, length-take 9 line)) copy.2.holds lit₂ in
    let differs : equal (take 9 line) print_mem_text ≡ false =
      elim (Bool-cases (equal (take 9 line) print_mem_text)) [
        | inl s ↦ absurd (other ((equal_iff (take 9 line) print_mem_text).0 s))
        | inr d ↦ d
      ] in
    (copy.0, (rw (copy.1, compares, differs) refl))

-- A line of at most 99 characters runs the first command whose name it is; if it is no command's name
-- and does not begin with "printMem ", it is refused. The arrays, the line and the names do not meet.
pub command_handler-index_of :
    (fuel : ℕ) (text : Text) (p : Places) (line : List ℕ) (entries : List (ℕ × List ℕ))
    → IsLaidOut p
    → length line ≤ 99
    → length line < fuel
    → 9 < fuel
    → Holds text p.terminal_buffer line
    → Holds text p.literal print_mem_text
    → All (IsNamed text p.potential_command) entries
    → ((i : ℕ)
        → index_of line entries 0 ≡ some i
        → (t : Text) × (command_handler fuel text p (length line) (map (λ e. e.0) entries)
            ≡ some (t, run_command i)))
      × (index_of line entries 0 ≡ none
          → ¬ (take 9 line ≡ print_mem_text)
          → (t : Text) × (command_handler fuel text p (length line) (map (λ e. e.0) entries)
              ≡ some (t, not_valid)))
unfolding command_handler Option.bind
command_handler-index_of fuel text p line entries laid short small nine h lit named =
    let copy =
      copy-IsCopied fuel text (zeroed text p.potential_command) p.terminal_buffer
        p.potential_command (length line) line small short (omega (arith, laid.line_potential))
        (λ q out. (memset_lem text p.potential_command 0 100).1 q out) h in
    let held : Holds copy.0 p.potential_command line =
      subst (Holds copy.0 p.potential_command) (take-length line) copy.2.holds in
    let lit₁ =
      Holds-same text copy.0 p.literal print_mem_text
        (λ q lo hi. copy.2.same q (omega (arith, laid.literal_potential))) lit in
    let named₁ =
      All-map (IsNamed text p.potential_command) (λ e. Holds copy.0 e.0 e.1)
        (λ e n. Holds-same text copy.0 e.0 e.1 (λ q lo hi. copy.2.same q (omega (arith, n.1))) n.0)
        entries named in
    let found =
      find_command-index_of fuel copy.0 p.potential_command line entries 0 small held named₁ in
    (
      (λ i e. (copy.0, (rw (copy.1, found, e) refl))),
      λ e other.
          let refused =
            handle_print_mem-not_valid fuel copy.0 p line laid short small nine held lit₁ other in
          (refused.0, (rw (copy.1, found, e) refused.1)),
    )
