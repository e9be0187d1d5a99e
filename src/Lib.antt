-- ===== src/Lib.antt =====
-- SO-BareBones (RowDaBoat-x64barebones): a small x64 kernel with a memory manager, a keyboard
-- and a video driver, an image of modules that it loads at boot, and a shell in user space.
--
-- What is modelled, file by file. The names are those of the source in snake case.
--
--   * Heap.antt: the allocator, RowDaBoat-x64barebones/Kernel/memory/mem_man.c and mem_man.h:
--     `RTOSMalloc`, `RTOSFree`, `addBlockToFreeList`, `initHeap`, `sbrk_handler`. The static
--     variables are a record, the headers in memory a function from addresses; pointers and
--     sizes are numbers with the wrap-around of 64 bits written out (`add64`, `sub64` of
--     Common/Tests.antt). Heap/Blocks.antt has the abstract view, an ordered list of free
--     blocks, with its operations `pick`, `carve` and `insert_free`; Heap/Valid.antt the
--     invariant that ties it to memory; Heap/Insert.antt and Heap/Place.antt the insertion into
--     the list, Heap/Search.antt, Heap/Split.antt and Heap/Malloc.antt the allocation,
--     Heap/Free.antt the release; Heap/Client.antt sequences of calls.
--   * Keyboard.antt: the driver, RowDaBoat-x64barebones/Kernel/drivers/keyboard_driver.c:
--     `keyboard_handler`, `addToBuffer`, `getChar`, `getLastInput`. The interrupt calls the
--     handler, and the system calls read the ring; what the handler asks of other drivers is
--     returned as a list of effects. Keyboard/Ring.antt is about the ring, Keyboard/Decode.antt
--     about scan codes; Keyboard/Line.antt is the specification, a line of at most 100
--     characters with the keys that are held, and Keyboard/Refines.antt and Keyboard/Reads.antt
--     are about the driver against it.
--   * Loader.antt: the image, written by `buildImage` of
--     RowDaBoat-x64barebones/Toolchain/ModulePacker/main.c and read at boot by `loadModules` of
--     RowDaBoat-x64barebones/Kernel/moduleLoader.c from the memory that its copies, by
--     `memcpy`, are made in. Loader/RoundTrip.antt is about the loader on what the packer
--     wrote.
--   * Packer.antt: the packer as a program, the same main.c from the command line to the
--     target, block by block, over the C library as a parameter (`Stdio`, and in
--     Packer/Files.antt what is documented of it). Packer/Words.antt is about the command line,
--     Packer/Image.antt about the whole, and Packer/Boot.antt about its target in the hands of
--     the loader.
--   * Font.antt, Font/Lower.antt, Font/Upper.antt: the table `__font_bitmap__` and `charBitmap`
--     of RowDaBoat-x64barebones/Kernel/font.c, from which the video driver draws. Font/Row.antt
--     has the names of the rows, pictures of eight pixels, from Kernel/include/font.h, and
--     Video/Rows.antt is about how they are drawn.
--   * Number.antt: `uintToBase` of RowDaBoat-x64barebones/Kernel/naiveConsole.c, which the
--     exception handlers print with, and which Kernel/drivers/video_driver.c has again as
--     `valueToBase`. Number/Digits.antt is about the loop that finds the digits,
--     Number/Reverse.antt about the loop that turns them around, Number/Room.antt about the
--     size of the buffer.
--   * Video.antt: the video driver, RowDaBoat-x64barebones/Kernel/drivers/video_driver.c:
--     pixels in a memory of bytes, glyphs, and a text cursor in signed coordinates
--     (Common/Int.antt). Video/Pixels.antt and Video/Glyph.antt are about what is drawn,
--     Video/Cursor.antt about cells, columns and rows, Video/Scroll.antt, Video/Erase.antt,
--     Video/Typing.antt and Video/Forever.antt about `scroll`, `delete_char`, `draw_string` and
--     `delete_line`; Video/Clean.antt is about `clean_all`, Video/Outside.antt about the memory
--     that drawing leaves alone, Video/Numbers.antt about `draw_number`, which is `none` for a
--     number of ten digits or more, as it writes past the ten bytes of its buffer, and
--     Video/Fails.antt about texts that the font does not have.
--   * Strings.antt: the string functions of
--     RowDaBoat-x64barebones/Userland/SampleCodeModule/Lib.c, on strings in a memory of bytes
--     (Strings/Holds.antt): `strlen`, `strncpy`, `strcmp` (Strings/Compare.antt) and
--     `strToNumHex` (Strings/Numbers.antt).
--   * Idt.antt, Idt/Entries.antt: the table of interrupt descriptors,
--     RowDaBoat-x64barebones/Kernel/interrupts/idt.c.
--   * System.antt: the state of all drivers behind the two gates of the kernel, the dispatch of
--     system calls, RowDaBoat-x64barebones/Kernel/interrupts/int80.c, and of the interrupts of
--     the timer and of the keyboard, idt.c and Interrupt_routines.c. Memory is that of the
--     video driver. System/Input.antt is about the way from a key to a program,
--     System/Storage.antt about memory that a program asked for. System/Exception.antt:
--     `printException` and `printRegister` of Interrupt_routines.c, with what the keyboard
--     sends while they wait as a list of keys; what they come to is a read outside the font, an
--     endless wait, or an end.
--   * Stress.antt: what the shell runs, `test_mm` of
--     RowDaBoat-x64barebones/Userland/SampleCodeModule/test_mm.c with the random numbers and
--     the memory check of test_util.c, over the system calls. What it prints is drawn by the
--     system call, and returned as messages besides. The scaling of a random number, in
--     floating point, is a parameter. Stress/Owned.antt is about the blocks that the requests
--     hold, Stress/Left.antt about what the first loop leaves, Stress/Filled.antt about the
--     bytes, Stress/Passes.antt and Stress/Boot.antt about the whole test.
--   * Console.antt, Console/Newline.antt: the text console of
--     RowDaBoat-x64barebones/Kernel/naiveConsole.c, with `ncNewline`.
--   * Start.antt: RowDaBoat-x64barebones/Kernel/kernel.c, with `_start` of
--     RowDaBoat-x64barebones/Userland/SampleCodeModule/_loader.c: `initializeKernelBinary` on a
--     payload in memory at `endOfKernelBinary` (Start/Modules.antt), and `main` over the
--     interrupt table, the user's module and its shell (Start/Main.antt). The addresses that
--     the linker chooses are parameters.
--   * Shell.antt: the command line of RowDaBoat-x64barebones/Userland/SampleCodeModule/shell.c,
--     which `shell` has commented out: `readNewInput` against a line editor
--     (Shell/Editor.antt), `cleanBuffer` (Shell/Clean.antt), and `CommandHandler`
--     (Shell/Command.antt, Shell/Find.antt); the list of commands and the commands themselves
--     (Shell/Commands.antt, Shell/Prints.antt), over the system calls of User.antt. Their
--     literals and local arrays are at places that are parameters.
--   * User.antt, User/Ends.antt: the other functions of Lib.c, one for each system call.
--   * Clock.antt, Clock/Time.antt: the clock in RowDaBoat-x64barebones/Kernel/lib.c; `readCMOS`
--     is a parameter.
--   * Transfer.antt, Transfer/Copied.antt: `memset` and `memcpy` of
--     RowDaBoat-x64barebones/Kernel/lib.c, on a memory of bytes.
--   * Common.antt: what the others share: numbers and Boolean tests, lists over the native
--     numbers.
--
-- Fuel and bounds. Both loops of the allocator run on 256 rounds (`max_rounds`). The heap has
-- 10176 bytes behind its first header, and a free block at least 64, so that a valid heap has
-- 159 free blocks at most: the rounds are enough, and the theorems on the allocator say that it
-- returns. The loops of `uintToBase` run on 64 rounds, since a 64-bit number has 64 digits at
-- most. The loop of `delete_line`, and with it system call 6, runs on a fuel that is an
-- argument. Those of the string functions, and with them `CommandHandler`, run on any fuel that
-- is larger than the string. `ncNewline` runs on 80 rounds, one for each cell of a line. The
-- first loop of `test_mm` runs `MAX_BLOCKS` times at most, as the code has it. The address of
-- the static `start` is a parameter, chosen by the linker, below the heap. A header that the
-- allocator writes does not overlap another at a different address: all lie at multiples of 64,
-- and `start` below the heap.
--
-- The loops of `write_file` and of the commands run on any fuel that is larger than the number
-- of blocks of the file, or than the string; so does `print` in the stress test.
--
-- Memory and the state of the drivers. Memory is one function from addresses to bytes, with the
-- frame, the modules, the arrays of programs and the driver's buffer for numbers in it. The
-- other static variables of the drivers - the cursor and the margins, the ring of keys, the
-- ticks - and the headers of the allocator are records beside it. A write through a pointer
-- therefore reaches memory only: it is assumed that the pointers given to the system calls 2,
-- 4, 13 and 16 point to memory of the program, and that a write past the frame meets none of
-- these variables. A program that passes a pointer into them, which the kernel does not check,
-- is outside the model.
--
-- What is not modelled: the assembly, with the instruction of each of the two commands that
-- raise an exception; Pure64 and BMFS, which are copies of other projects; what the functions
-- of the C library that the packer calls do, but for what Packer/Files.antt asks of them.
pub mod Clock
pub mod Common
pub mod Console
pub mod Font
pub mod Heap
pub mod Idt
pub mod Keyboard
pub mod Loader
pub mod Number
pub mod Packer
pub mod Shell
pub mod Start
pub mod Stress
pub mod Strings
pub mod System
pub mod Transfer
pub mod User
pub mod Video
