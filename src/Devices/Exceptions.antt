-- ===== src/Devices/Exceptions.antt =====
-- sys/idt.c, `isr0` to `isr31` without `isr14`: what the handlers of the processor's exceptions do.
use osproject.Prelude.{ℕ, Option, none, some, List, [], ◌∷◌, ltb, ◌==◌, if◌then◌else◌}
use osproject.Text.{Bytes}

-- A text for the screen, or a byte for a port.
pub data Output : Type 0 where
  kprintf : Bytes → Output
  outportb : ℕ → ℕ → Output

-- "This is an exception".
abbrev pub exception_text : Bytes
exception_text =
    b'T' ∷ b'h' ∷ b'i' ∷ b's' ∷ b' ' ∷ b'i' ∷ b's' ∷ b' ' ∷ b'a' ∷ b'n' ∷ b' ' ∷ b'e' ∷ b'x' ∷ b'c'
    ∷ b'e' ∷ b'p' ∷ b't' ∷ b'i' ∷ b'o' ∷ b'n' ∷ []

-- The body that all handlers but two have; the byte 0x20 tells the interrupt controller that an interrupt is
-- done.
abbrev pub report_exception : List Output
report_exception = kprintf exception_text ∷ outportb 0x20 0x20 ∷ []

-- `isr0` to `isr13`; `isr13` spins behind its text.
unfoldable pub low_exception : ℕ → Option (List Output)
low_exception n = if n == 13 then none else some report_exception

-- `isr15` to `isr31`.
unfoldable pub high_exception : ℕ → Option (List Output)
high_exception n = some report_exception

-- The handler of a vector below 32, with that of 14, the page fault, as an argument.
unfoldable pub exception : Option (List Output) → ℕ → Option (List Output)
exception page_fault n =
    if n == 14 then page_fault else if ltb n 14 then low_exception n else high_exception n
