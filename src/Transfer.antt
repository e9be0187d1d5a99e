-- ===== src/Transfer.antt =====
-- `memset` and `memcpy` of Kernel/lib.c, on a memory of bytes (`Text`). Addresses do not wrap around.
pub mod Copied
mod Tests
use so_bare_bones.Common.{ℕ, zero, suc, ◌+◌, ◌*◌, ◌/◌, ◌%◌, ◌&&◌, ◌==◌, if◌then◌else◌}
use so_bare_bones.Number.{Text, store}

-- `while (length--) dst[length] = chr`
unfoldable pub set_loop : (length : ℕ) → Text → (dst chr : ℕ) → Text
set_loop zero text dst chr = text
set_loop (suc length) text dst chr = set_loop length (store text (dst + length) chr) dst chr

unfoldable pub memset : Text → (destination c length : ℕ) → Text
memset text destination c length = set_loop length text destination (c % 256)

-- The loop over bytes, with so many rounds left, at `i`.
unfoldable pub byte_loop : (rounds : ℕ) → Text → (d s i : ℕ) → Text
byte_loop zero text d s i = text
byte_loop (suc n) text d s i = byte_loop n (store text (d + i) (text (s + i))) d s (i + 1)

-- `d[i] = s[i]` of a `uint32_t`: four bytes are read, and then written.
unfoldable pub copy_word : Text → (d s : ℕ) → Text
copy_word text d s =
    store (store (store (store text d (text s)) (d + 1) (text (s + 1))) (d + 2) (text (s + 2)))
      (d + 3) (text (s + 3))

unfoldable pub word_loop : (rounds : ℕ) → Text → (d s i : ℕ) → Text
word_loop zero text d s i = text
word_loop (suc n) text d s i = word_loop n (copy_word text (d + 4 * i) (s + 4 * i)) d s (i + 1)

unfoldable pub memcpy : Text → (destination source length : ℕ) → Text
memcpy text destination source length =
    if destination % 4 == 0 && (source % 4 == 0 && length % 4 == 0)
    then word_loop (length / 4) text destination source 0
    else byte_loop length text destination source 0
