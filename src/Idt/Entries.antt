-- ===== src/Idt/Entries.antt =====
-- Which handler the processor finds in the table of Kernel/interrupts/idt.c.
use so_bare_bones.Common.{ℕ, ◌+◌, ◌-◌, ◌*◌, ◌^◌, ◌<◌, ◌≡◌, ◌≢◌, refl, arith}
use so_bare_bones.Idt.{IdtEntry, Table, Handlers, setup_entry, load_idt}

-- The address that the processor puts together from an entry.
abbrev pub target : IdtEntry → ℕ
target e = e.offset_1 + 2 ^ 16 * e.offset_2 + 2 ^ 32 * e.offset_3

-- An interrupt gate that is present, of the lowest level, in the kernel's code segment.
abbrev pub IsGate : IdtEntry → ℕ → Type 0
IsGate e handler =
    (target e ≡ handler)
    × (e.selector ≡ 0x08)
    × (e.ist ≡ 0)
    × (e.type_attr ≡ 0x8E)
    × (e.zero_bits ≡ 0)

pub record Are64Bit (h : Handlers) : Type 0 where
  pub irq0 : h.irq0_handler < 2 ^ 64
  pub irq1 : h.irq1_handler < 2 ^ 64
  pub int80 : h.int_80 < 2 ^ 64
  pub exc0 : h.exception0 < 2 ^ 64
  pub exc6 : h.exception6 < 2 ^ 64

-- `loadIDT` makes a gate to the timer's handler for vector 0x20, to the keyboard's for 0x21, to that
-- of system calls for 0x80, and to those of the exceptions 0 and 6 for their vectors, each with its
-- whole 64-bit address; every other entry stays, and only interrupts 0 and 1 of the first controller
-- are let through.
pub load_idt_lem :
    (table : Table) (h : Handlers)
    → Are64Bit h
    → IsGate ((load_idt table h).0 0x20) h.irq0_handler
      × IsGate ((load_idt table h).0 0x21) h.irq1_handler
      × IsGate ((load_idt table h).0 0x80) h.int_80
      × IsGate ((load_idt table h).0 0x00) h.exception0
      × IsGate ((load_idt table h).0 0x06) h.exception6
      × ((i : ℕ)
          → i ≢ 0x20
          → i ≢ 0x21
          → i ≢ 0x80
          → i ≢ 0x00
          → i ≢ 0x06
          → (load_idt table h).0 i ≡ table i)
      × ((load_idt table h).1 ≡ (0xFF - 1 - 2, 0))
unfolding load_idt setup_entry
load_idt_lem table h v = (
  omega (arith, v.irq0),
  omega (arith, v.irq1),
  omega (arith, v.int80),
  omega (arith, v.exc0),
  omega (arith, v.exc6),
  λ i a b c d e. ground arith,
  refl,
)
