-- ===== src/Transfer/Tests.antt =====
-- `memset` and `memcpy` of Kernel/lib.c on a small memory.
use so_bare_bones.Common.{◌≡◌, arith, refl}
use so_bare_bones.Number.{Text}
use so_bare_bones.Transfer.{memcpy, byte_loop, word_loop, copy_word}
use so_bare_bones.Transfer.Copied.{Copied, memcpy-Copied}

-- Every byte is its own address.
abbrev numbered : Text
numbered p = p

by_words : memcpy numbered 64 128 8 71 ≡ 135
unfolding memcpy word_loop copy_word
by_words = refl

by_bytes : memcpy numbered 65 128 8 72 ≡ 135
unfolding memcpy byte_loop
by_bytes = refl

memcpy-Copied_example : Copied numbered (memcpy numbered 64 128 8) 64 128 0 8
memcpy-Copied_example = memcpy-Copied numbered 64 128 8 (omega arith)
