-- ===== src/Devices/Ide/Quiet.antt =====
-- Accesses of sys/ide.c to registers move no block and leave the memory and the drives alone.
use osproject.Prelude.{
  ℕ, zero, suc, ◌+◌, ◌≡◌, refl, ◌∙◌, inl, inr, Bool, Option, some, List, [], ◌∷◌, ◌==◌, Bool-cases,
  arith,
}
use mathlib.Core.Path.{subst}
use osproject.Prelude.State.{Op, pure, ◌>>=◌, for_op, >>=-eq-some}
use osproject.Devices.Disk.{bit}
use osproject.Devices.Ide.{
  Channel, Ide, Event, Drives, outb, inb, ins, outs, port_of, write_reg, read_reg, ide_write,
  ide_read, wait_while, status_code, ignore_status, ide_polling,
}

-- The addresses that blocks went to, the latest first.
abbrev pub received : List Event → List ℕ
received [] = []
received (outb _ _ ∷ es) = received es
received (inb _ ∷ es) = received es
received (ins _ addr _ ∷ es) = addr ∷ received es
received (outs _ _ ∷ es) = received es

-- The blocks that were sent, the latest first.
abbrev pub sent_blocks : List Event → List (List ℕ)
sent_blocks [] = []
sent_blocks (outb _ _ ∷ es) = sent_blocks es
sent_blocks (inb _ ∷ es) = sent_blocks es
sent_blocks (ins _ _ _ ∷ es) = sent_blocks es
sent_blocks (outs _ bytes ∷ es) = bytes ∷ sent_blocks es

-- Registers are read and written, and no block moves.
pub record Same (s s' : Ide) : Type 0 where
  pub blocks_in : received s'.events ≡ received s.events
  pub blocks_out : sent_blocks s'.events ≡ sent_blocks s.events
  pub memory : s'.memory ≡ s.memory
  pub devices : s'.ide_devices ≡ s.ide_devices

abbrev pub Quiet : {A : Type 0} → Op Ide A → Type 0
Quiet {A} m = (s s' : Ide) (a : A) → ◌≡◌ {A = Option (A × Ide)} (m s) (some (a, s')) → Same s s'

pub Same-refl : (s : Ide) → Same s s
Same-refl s = record { blocks_in = refl; blocks_out = refl; memory = refl; devices = refl }

pub Same-trans : (s t u : Ide) → Same s t → Same t u → Same s u
Same-trans s t u a b = record {
  blocks_in = b.blocks_in ∙ a.blocks_in;
  blocks_out = b.blocks_out ∙ a.blocks_out;
  memory = b.memory ∙ a.memory;
  devices = b.devices ∙ a.devices;
}

pub bind-Quiet :
    {A B : Type 0} (m : Op Ide A) (f : A → Op Ide B)
    → Quiet m
    → ((a : A) → Quiet (f a))
    → Quiet (m >>= f)
bind-Quiet m f hm hf s s' b e =
    let (a, t, went, rest) = >>=-eq-some m f s s' b e in
    Same-trans s t s' (hm s t a went) (hf a t s' b rest)

-- What an operation came back with.
pub returned-value :
    {A : Type 0} (a b : A) (s s' : Ide)
    → ◌≡◌ {A = Option (A × Ide)} (some (a, s)) (some (b, s'))
    → a ≡ b
returned-value a b s s' e = cc

pub returned-state :
    {A : Type 0} (a b : A) (s s' : Ide)
    → ◌≡◌ {A = Option (A × Ide)} (some (a, s)) (some (b, s'))
    → s ≡ s'
returned-state a b s s' e = cc

pub pure-Quiet : {A : Type 0} (a : A) → Quiet {A = A} (pure a)
pure-Quiet a s s' b e = subst (Same s) (returned-state a b s s' e) (Same-refl s)

write_reg-events :
    (c : Channel) (reg v : ℕ) (es : List Event)
    → (received (write_reg c reg v es) ≡ received es)
      × (sent_blocks (write_reg c reg v es) ≡ sent_blocks es)
unfolding write_reg port_of
write_reg-events c reg v es = ground arith

read_reg-events :
    (hw : Drives) (c : Channel) (reg : ℕ) (es : List Event)
    → (received (read_reg hw c reg es).1 ≡ received es)
      × (sent_blocks (read_reg hw c reg es).1 ≡ sent_blocks es)
unfolding read_reg port_of
read_reg-events hw c reg es = ground arith

pub ide_write-Quiet : (channel reg v : ℕ) → Quiet (ide_write channel reg v)
unfolding ide_write
ide_write-Quiet channel reg v s s' a e =
    let (h1, h2) = write_reg-events (s.channels channel) reg v s.events in
    subst (Same s) (returned-state tt a _ s' e)
      (record { blocks_in = h1; blocks_out = h2; memory = refl; devices = refl })

pub ide_read-Quiet : (hw : Drives) (channel reg : ℕ) → Quiet (ide_read hw channel reg)
unfolding ide_read
ide_read-Quiet hw channel reg s s' a e =
    let (h1, h2) = read_reg-events hw (s.channels channel) reg s.events in
    subst (Same s) (returned-state _ a _ s' e)
      (record { blocks_in = h1; blocks_out = h2; memory = refl; devices = refl })

pub wait_while-Quiet :
    (fuel : ℕ) (hw : Drives) (busy : ℕ → Bool) (channel : ℕ)
    → Quiet (wait_while fuel hw busy channel)
unfolding wait_while
wait_while-Quiet zero hw busy channel = λ s s' a e. absurd (cc)
wait_while-Quiet (suc fuel) hw busy channel =
    bind-Quiet (ide_read hw channel 0x07) _ (ide_read-Quiet hw channel 0x07) (λ status.
      elim (Bool-cases (busy status)) [
        | inl later ↦ rw later (wait_while-Quiet fuel hw busy channel)
        | inr now ↦ rw now (pure-Quiet status)
      ])

ignore_status-Quiet : (hw : Drives) (channel k : ℕ) → Quiet (ignore_status hw channel k)
ignore_status-Quiet hw channel k =
    bind-Quiet (ide_read hw channel 0x0C) _ (ide_read-Quiet hw channel 0x0C) (λ _. pure-Quiet tt)

for_op-Quiet :
    (n i : ℕ) (body : ℕ → Op Ide (Unit {0})) → ((k : ℕ) → Quiet (body k)) → Quiet (for_op n i body)
unfolding for_op
for_op-Quiet zero i body h = pure-Quiet tt
for_op-Quiet (suc n) i body h =
    bind-Quiet (body i) (λ _. for_op n (i + 1) body) (h i) (λ _. for_op-Quiet n (i + 1) body h)

pub ide_polling-Quiet :
    (fuel : ℕ) (hw : Drives) (channel advanced : ℕ) → Quiet (ide_polling fuel hw channel advanced)
unfolding ide_polling
ide_polling-Quiet fuel hw channel advanced =
    bind-Quiet (for_op 4 0 (ignore_status hw channel)) _
      (for_op-Quiet 4 0 (ignore_status hw channel) (ignore_status-Quiet hw channel))
      (λ _.
        bind-Quiet (wait_while fuel hw (bit 7) channel) _ (wait_while-Quiet fuel hw (bit 7) channel)
          (λ _. elim (Bool-cases (advanced == 0)) [
            | inl plain ↦ rw plain (pure-Quiet 0)
            | inr full ↦ rw full (
                bind-Quiet (ide_read hw channel 0x07) _ (ide_read-Quiet hw channel 0x07)
                  (λ state. pure-Quiet (status_code state)))
          ]))
