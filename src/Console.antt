-- ===== src/Console.antt =====
-- The text console of Kernel/naiveConsole.c, which writes into the memory of the text mode.
--
-- Memory is a function from addresses to bytes; `buffer` is the address of the static array. The loops
-- run on fuel, and `none` means that it ran out.
pub mod Newline
mod Tests
use mathlib.Core.Option
use so_bare_bones.Common.{
  ℕ, zero, suc, ◌+◌, ◌-◌, ◌*◌, ◌%◌, Option, none, some, ◌==◌, not, if◌then◌else◌,
}
use so_bare_bones.Number.{Text, store, uint_to_base}

abbrev pub video : ℕ
video = 0xB8000

abbrev pub width : ℕ
width = 80

abbrev pub height : ℕ
height = 25

pub record Console : Type 0 where
  pub text : Text
  pub current_video : ℕ
  pub buffer : ℕ

unfoldable pub nc_print_char : Console → (character : ℕ) → Console
nc_print_char c character = record c {
  text = store c.text c.current_video character;
  current_video = c.current_video + 2;
}

-- The loop of `ncPrint`, from `i` on.
unfoldable pub print_loop : ℕ → Console → (string i : ℕ) → Option Console
print_loop zero c string i = none
print_loop (suc f) c string i =
    let rest = print_loop f (nc_print_char c (c.text (string + i))) string (i + 1) in
    if not (c.text (string + i) == 0) then rest else some c

unfoldable pub nc_print : (fuel : ℕ) → Console → (string : ℕ) → Option Console
nc_print fuel c string = print_loop fuel c string 0

-- The do-while loop of `ncNewline`.
unfoldable pub newline_loop : ℕ → Console → Option Console
newline_loop zero c = none
newline_loop (suc f) c =
    let c' = nc_print_char c b' ' in
    let rest = newline_loop f c' in
    if not ((c'.current_video - video) % (width * 2) == 0) then rest else some c'

unfoldable pub nc_newline : Console → Option Console
nc_newline c = newline_loop width c

unfoldable pub nc_print_base : (fuel : ℕ) → Console → (value base : ℕ) → Option Console
nc_print_base fuel c value base =
    Option.bind (uint_to_base value c.text c.buffer base)
      λ r. nc_print fuel (record c { text = r.0 }) c.buffer

unfoldable pub nc_print_dec : (fuel : ℕ) → Console → (value : ℕ) → Option Console
nc_print_dec fuel c value = nc_print_base fuel c value 10

unfoldable pub nc_print_hex : (fuel : ℕ) → Console → (value : ℕ) → Option Console
nc_print_hex fuel c value = nc_print_base fuel c value 16

unfoldable pub nc_print_bin : (fuel : ℕ) → Console → (value : ℕ) → Option Console
nc_print_bin fuel c value = nc_print_base fuel c value 2

-- The loop of `ncClear`, from `i` on.
unfoldable pub clear_loop : ℕ → Text → (i : ℕ) → Text
clear_loop zero text i = text
clear_loop (suc n) text i = clear_loop n (store text (video + i * 2) b' ') (i + 1)

unfoldable pub nc_clear : Console → Console
nc_clear c = record c { text = clear_loop (height * width) c.text 0; current_video = video }
