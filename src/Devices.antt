-- ===== src/Devices.antt =====
-- The devices: the interrupt table and the exception handlers of sys/idt.c, the disk commands
-- of sys/ahci.c, the driver of sys/ide.c, the bus scan of sys/pci.c and the descriptors of sys/gdt.c.
pub mod Interrupts
pub mod Disk
pub mod Ide
pub mod Pci
pub mod Exceptions
pub mod Gdt
