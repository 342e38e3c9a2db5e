-- ===== src/Devices/Interrupts.antt =====
-- sys/idt.c, lines 48-62 and 80-125: the interrupt descriptor table.
use osproject.Prelude.{
  ℕ, zero, suc, ◌+◌, ◌*◌, ◌/◌, ◌%◌, ◌≤◌, ◌<◌, ◌≡◌, ◌≢◌, refl, sym, ap, ◌∙◌, ◌==◌, if◌then◌else◌,
  ◌⊎◌, inl, inr, arith,
}
use mathlib.Core.Path.{subst}
use osproject.Prelude.Loops.{update, update_self, update_other}
use native.Mathlib.Decide.{ℕ_discrete, dec_lt}

-- `struct idt`.
pub record Gate : Type 0 where
  pub lower_offset : ℕ
  pub selector : ℕ
  pub zero_1 : ℕ
  pub type : ℕ
  pub mid_offset : ℕ
  pub high_offset : ℕ
  pub zero_2 : ℕ

-- What `set_value` writes into an entry.
unfoldable pub gate : ℕ → ℕ → Gate
gate int_num handler = record {
  lower_offset = handler % 65536;
  selector = 0x08;
  zero_1 = 0;
  type = if int_num == 128 then 0xEE else 0x8E;
  mid_offset = handler / 65536 % 65536;
  high_offset = handler / 4294967296 % 4294967296;
  zero_2 = 0;
}

-- `set_value`.
unfoldable pub set_value : ℕ → ℕ → (ℕ → Gate) → ℕ → Gate
unfolding gate
set_value int_num handler idt_table = update idt_table int_num (gate int_num handler)

-- The addresses that idt.s gives to `isr_0` to `isr_31` and `isr_128`, to `timer` and to `kb1`.
pub record Handlers : Type 0 where
  pub isr : ℕ → ℕ
  pub timer : ℕ
  pub kb1 : ℕ

-- `set_value(i, &isr_i)` for `n` vectors from `i` on.
unfoldable pub set_values : ℕ → ℕ → Handlers → (ℕ → Gate) → ℕ → Gate
unfolding set_value
set_values zero i h idt_table = idt_table
set_values (suc n) i h idt_table = set_values n (i + 1) h (set_value i (h.isr i) idt_table)

-- `init_idt`, up to `lidt`.
unfoldable pub init_idt : Handlers → (ℕ → Gate) → ℕ → Gate
unfolding set_values set_value
init_idt h idt_table =
    set_value 33 h.kb1
      (set_value 32 h.timer (set_value 128 (h.isr 128) (set_values 32 0 h idt_table)))

-- Where the processor goes on through a gate.
abbrev pub target : Gate → ℕ
target g = g.lower_offset + 65536 * (g.mid_offset + 65536 * g.high_offset)

-- The handler of a vector.
abbrev pub handler_of : Handlers → ℕ → ℕ
handler_of h i = if i == 32 then h.timer else if i == 33 then h.kb1 else h.isr i

set_values_below :
    (n i : ℕ) (h : Handlers) (t : ℕ → Gate) (j : ℕ) → j < i → set_values n i h t j ≡ t j
unfolding set_values set_value
set_values_below zero i h t j lt = refl
set_values_below (suc n) i h t j lt =
    set_values_below n (i + 1) h _ j (omega arith)
    ∙ update_other t i (gate i (h.isr i)) j (omega arith)

set_values_at :
    (n i : ℕ) (h : Handlers) (t : ℕ → Gate) (j : ℕ)
    → i ≤ j
    → j < i + n
    → set_values n i h t j ≡ gate j (h.isr j)
unfolding set_values set_value
set_values_at zero i h t j low high = absurd (omega arith)
set_values_at (suc n) i h t j low high = elim (ℕ_discrete i j) [
  | yes e ↦
      set_values_below n (i + 1) h _ j (omega arith)
      ∙ subst (λ x. update t i (gate i (h.isr i)) x ≡ gate x (h.isr x)) e
          (update_self t i (gate i (h.isr i)))
  | no ne ↦ set_values_at n (i + 1) h _ j (omega arith) (omega arith)
]

set_values_above :
    (n i : ℕ) (h : Handlers) (t : ℕ → Gate) (j : ℕ) → i + n ≤ j → set_values n i h t j ≡ t j
unfolding set_values set_value
set_values_above zero i h t j le = refl
set_values_above (suc n) i h t j le =
    set_values_above n (i + 1) h _ j (omega arith)
    ∙ update_other t i (gate i (h.isr i)) j (omega arith)

gate-target : (i handler : ℕ) → handler < 18446744073709551616 → target (gate i handler) ≡ handler
unfolding gate
gate-target i handler lt = omega arith

-- What vector `i` finds in a table that was `t`: its handler, which only vector 128 lets user code call, or
-- what was there before.
pub data Served (h : Handlers) (t : ℕ → Gate) (i : ℕ) : Gate → Type 0 where
  handled :
      (g : Gate)
      → (i < 34) ⊎ (i ≡ 128)
      → target g ≡ handler_of h i
      → g.type ≡ (if i == 128 then 0xEE else 0x8E)
      → g.selector ≡ 0x08
      → Served h t i g
  untouched : 34 ≤ i → i ≢ 128 → Served h t i (t i)

gate-Served :
    (h : Handlers) (t : ℕ → Gate) (i : ℕ)
    → handler_of h i < 18446744073709551616
    → (i < 34) ⊎ (i ≡ 128)
    → Served h t i (gate i (handler_of h i))
unfolding gate
gate-Served h t i lt used = handled _ used (gate-target i (handler_of h i) lt) refl refl

-- The table before the calls for the timer and the keyboard.
abbrev isr_table : Handlers → (ℕ → Gate) → ℕ → Gate
isr_table h t = update (set_values 32 0 h t) 128 (gate 128 (h.isr 128))

isr_table-below :
    (h : Handlers) (t : ℕ → Gate) (i : ℕ) → i < 32 → isr_table h t i ≡ gate i (h.isr i)
isr_table-below h t i lt =
    update_other (set_values 32 0 h t) 128 (gate 128 (h.isr 128)) i (omega arith)
    ∙ set_values_at 32 0 h t i (omega arith) (omega arith)

last_two :
    (h : Handlers) (t : ℕ → Gate) (i : ℕ)
    → i ≢ 32
    → i ≢ 33
    → update (update t 32 (gate 32 h.timer)) 33 (gate 33 h.kb1) i ≡ t i
last_two h t i n32 n33 =
    update_other (update t 32 (gate 32 h.timer)) 33 (gate 33 h.kb1) i (λ e. n33 (sym e))
    ∙ update_other t 32 (gate 32 h.timer) i (λ e. n32 (sym e))

handler_of-isr : (h : Handlers) (i : ℕ) → i ≢ 32 → i ≢ 33 → handler_of h i ≡ h.isr i
handler_of-isr h i n32 n33 = ground arith

init_idt-gate :
    (h : Handlers) (t : ℕ → Gate) (i : ℕ)
    → (i < 34) ⊎ (i ≡ 128)
    → init_idt h t i ≡ gate i (handler_of h i)
unfolding init_idt set_value
init_idt-gate h t i used = elim (ℕ_discrete i 32) [
  | yes e ↦ rw e refl
  | no n32 ↦ elim (ℕ_discrete i 33) [
    | yes e ↦ rw e refl
    | no n33 ↦
        last_two h (isr_table h t) i n32 n33
        ∙ elim used [
          | inl lt ↦ isr_table-below h t i (omega arith)
          | inr e ↦
              subst (λ x. isr_table h t x ≡ gate x (h.isr x)) (sym e)
                (update_self (set_values 32 0 h t) 128 (gate 128 (h.isr 128)))
        ]
        ∙ ap (gate i) (sym (handler_of-isr h i n32 n33))
  ]
]

init_idt_other : (h : Handlers) (t : ℕ → Gate) (i : ℕ) → 34 ≤ i → i ≢ 128 → init_idt h t i ≡ t i
unfolding init_idt set_value
init_idt_other h t i le n128 =
    last_two h (isr_table h t) i (omega arith) (omega arith)
    ∙ update_other (set_values 32 0 h t) 128 (gate 128 (h.isr 128)) i (λ e. n128 (sym e))
    ∙ set_values_above 32 0 h t i (omega arith)

-- After `init_idt`, each of the vectors 0 to 33 and 128 leads to its own handler, whose address has 64 bits,
-- in the kernel's code segment, and 128 is the only one of them that user code may raise; every other entry
-- is as it was.
pub init_idt-Served :
    (h : Handlers) (t : ℕ → Gate) (i : ℕ)
    → handler_of h i < 18446744073709551616
    → Served h t i (init_idt h t i)
init_idt-Served h t i lt = elim (dec_lt i 34) [
  | yes below ↦ served (inl below)
  | no above ↦ elim (ℕ_discrete i 128) [
    | yes e ↦ served (inr e)
    | no n128 ↦
        subst (Served h t i) (sym (init_idt_other h t i (omega arith) n128))
          (untouched (omega arith) n128)
  ]
]
  where
    served : (i < 34) ⊎ (i ≡ 128) → Served h t i (init_idt h t i)
    served used = subst (Served h t i) (sym (init_idt-gate h t i used)) (gate-Served h t i lt used)
