-- ===== src/Idt.antt =====
-- The interrupt descriptor table, Kernel/interrupts/idt.c. The addresses of the handlers, which are
-- assembly, are parameters.
pub mod Entries
pub mod Tests
use so_bare_bones.Common.{ℕ, ◌+◌, ◌*◌, ◌/◌, ◌%◌, ◌^◌, ◌==◌, if◌then◌else◌}

pub record IdtEntry : Type 0 where
  pub offset_1 : ℕ
  pub selector : ℕ
  pub ist : ℕ
  pub type_attr : ℕ
  pub offset_2 : ℕ
  pub offset_3 : ℕ
  pub zero_bits : ℕ

abbrev pub Table : Type 0
Table = ℕ → IdtEntry

-- `TATTR_INT_32 | TATTR_PRE`: the two have no bit in common.
abbrev pub tattr_interrupt_32 : ℕ
tattr_interrupt_32 = 0x0E + 0x80

unfoldable pub setup_entry : Table → (index offset : ℕ) → Table
setup_entry table index offset i =
    if i == index
    then record {
      offset_1 = offset % 2 ^ 16;
      selector = 0x08;
      ist = 0;
      type_attr = tattr_interrupt_32;
      offset_2 = offset / 2 ^ 16 % 2 ^ 16;
      offset_3 = offset / 2 ^ 32 % 2 ^ 32;
      zero_bits = 0;
    }
    else table i

-- The addresses of `irq0Handler`, `irq1Handler`, `int_80`, `exception0` and `exception6`.
pub record Handlers : Type 0 where
  pub irq0_handler : ℕ
  pub irq1_handler : ℕ
  pub int_80 : ℕ
  pub exception0 : ℕ
  pub exception6 : ℕ

-- The table that `loadIDT` leaves, and the masks that it writes to the interrupt controllers, between
-- `_cli` and `_sti`.
unfoldable pub load_idt : Table → Handlers → Table × (ℕ × ℕ)
load_idt table h =
    let t₁ = setup_entry table 0x20 h.irq0_handler in
    let t₂ = setup_entry t₁ 0x21 h.irq1_handler in
    let t₃ = setup_entry t₂ 0x80 h.int_80 in
    let t₄ = setup_entry t₃ 0x00 h.exception0 in (setup_entry t₄ 0x06 h.exception6, (0xFC, 0x00))
