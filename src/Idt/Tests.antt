-- ===== src/Idt/Tests.antt =====
-- The table of Kernel/interrupts/idt.c with some addresses.
use so_bare_bones.Common.{ℕ, ◌-◌, ◌≡◌, ◌≢◌, arith}
use so_bare_bones.Idt.{Table, Handlers, load_idt}
use so_bare_bones.Idt.Entries.{IsGate, Are64Bit, load_idt_lem}

abbrev pub empty : Table
empty i = record {
  offset_1 = 0;
  selector = 0;
  ist = 0;
  type_attr = 0;
  offset_2 = 0;
  offset_3 = 0;
  zero_bits = 0;
}

abbrev pub handlers : Handlers
handlers = record {
  irq0_handler = 0x100000;
  irq1_handler = 0x10002F;
  int_80 = 0xFFFF800012345678;
  exception0 = 0x100100;
  exception6 = 0x100200;
}

pub handlers-Are64Bit : Are64Bit handlers
handlers-Are64Bit = record {
  irq0 = omega arith;
  irq1 = omega arith;
  int80 = omega arith;
  exc0 = omega arith;
  exc6 = omega arith;
}

load_idt_example :
    IsGate ((load_idt empty handlers).0 0x20) 0x100000
    × IsGate ((load_idt empty handlers).0 0x21) 0x10002F
    × IsGate ((load_idt empty handlers).0 0x80) 0xFFFF800012345678
    × IsGate ((load_idt empty handlers).0 0x00) 0x100100
    × IsGate ((load_idt empty handlers).0 0x06) 0x100200
    × ((i : ℕ)
        → i ≢ 0x20
        → i ≢ 0x21
        → i ≢ 0x80
        → i ≢ 0x00
        → i ≢ 0x06
        → (load_idt empty handlers).0 i ≡ empty i)
    × ((load_idt empty handlers).1 ≡ (0xFF - 1 - 2, 0))
load_idt_example = load_idt_lem empty handlers handlers-Are64Bit
