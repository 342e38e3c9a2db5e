-- ===== src/Exec/Stack/Writes.antt =====
-- Bytes and 64-bit words on a stack: what a write leaves, and what it does not touch.
use osproject.Prelude.{
  ℕ, zero, suc, ◌+◌, ◌/◌, ◌^◌, ◌≤◌, ◌<◌, ◌≡◌, refl, sym, ◌∙◌, [], ◌∷◌, length, arith,
}
use osproject.Prelude.Loops.{update, update_self, update_other}
use osproject.Text.{Bytes}
use osproject.Exec.Elf.{little_endian}
use osproject.Exec.Stack.{UserStack, write_bytes, word_bytes, push_word, sub64}

-- The two memories agree from `low` on.
abbrev pub Above : ℕ → (ℕ → ℕ) → (ℕ → ℕ) → Type 0
Above low m m' = (a : ℕ) → low ≤ a → m' a ≡ m a

abbrev pub BytesAt : (ℕ → ℕ) → ℕ → Bytes → Type 0
BytesAt m p [] = Unit {0}
BytesAt m p (c ∷ cs) = (m p ≡ c) × BytesAt m (p + 1) cs

pub write_bytes_below :
    (cs : Bytes) (p : ℕ) (m : ℕ → ℕ) (a : ℕ) → a < p → write_bytes cs p m a ≡ m a
unfolding write_bytes
write_bytes_below [] p m a lt = refl
write_bytes_below (c ∷ cs) p m a lt =
    write_bytes_below cs (p + 1) (update m p c) a (omega arith) ∙ update_other m p c a (omega arith)

pub write_bytes-Above :
    (cs : Bytes) (p : ℕ) (m : ℕ → ℕ) → Above (p + length cs) m (write_bytes cs p m)
unfolding write_bytes
write_bytes-Above [] p m a le = refl
write_bytes-Above (c ∷ cs) p m a le =
    write_bytes-Above cs (p + 1) (update m p c) a (omega arith) ∙ update_other m p c a (omega arith)

pub write_bytes-BytesAt : (cs : Bytes) (p : ℕ) (m : ℕ → ℕ) → BytesAt (write_bytes cs p m) p cs
unfolding write_bytes
write_bytes-BytesAt [] p m = tt
write_bytes-BytesAt (c ∷ cs) p m = (
  write_bytes_below cs (p + 1) (update m p c) p (omega arith) ∙ update_self m p c,
  write_bytes-BytesAt cs (p + 1) (update m p c),
)

pub BytesAt-Above :
    (low p : ℕ) (cs : Bytes) (m m' : ℕ → ℕ)
    → Above low m m'
    → low ≤ p
    → BytesAt m p cs
    → BytesAt m' p cs
BytesAt-Above low p [] m m' same le h = tt
BytesAt-Above low p (c ∷ cs) m m' same le h =
    (same p le ∙ h.0, BytesAt-Above low (p + 1) cs m m' same (omega arith) h.1)

-- A number of `n` bytes has nothing beyond them.
abbrev Fits : ℕ → ℕ → Type 0
Fits zero w = w ≡ 0
Fits (suc n) w = Fits n (w / 256)

little_endian-word_bytes :
    (n w p : ℕ) (m : ℕ → ℕ) → Fits n w → BytesAt m p (word_bytes n w) → little_endian m n p ≡ w
unfolding little_endian word_bytes
little_endian-word_bytes zero w p m fits h = sym fits
little_endian-word_bytes (suc n) w p m fits h =
    omega (arith, h.0, little_endian-word_bytes n (w / 256) (p + 1) m fits h.1)

length-word_bytes : (n w : ℕ) → length (word_bytes n w) ≡ n
unfolding word_bytes
length-word_bytes zero w = refl
length-word_bytes (suc n) w = omega (arith, length-word_bytes n (w / 256))

-- One word is pushed: the stack grows by eight bytes, the word reads back, and nothing above changes.
pub record Pushed (w : ℕ) (s s' : UserStack) : Type 0 where
  pub place : s'.rsp + 8 ≡ s.rsp
  pub reads : little_endian s'.byte 8 s'.rsp ≡ w
  pub same : Above s.rsp s.byte s'.byte

pub push_word-Pushed :
    (w : ℕ) (s : UserStack) → w < 2 ^ 64 → 8 ≤ s.rsp → s.rsp < 2 ^ 64 → Pushed w s (push_word w s)
unfolding push_word
push_word-Pushed w s small room top = record {
  place = omega arith;
  reads =
      little_endian-word_bytes 8 w _ _ (omega arith)
        (write_bytes-BytesAt (word_bytes 8 w) (sub64 s.rsp 8) s.byte);
  same = λ a le.
      write_bytes-Above (word_bytes 8 w) (sub64 s.rsp 8) s.byte a
        (omega (arith, length-word_bytes 8 w));
}
