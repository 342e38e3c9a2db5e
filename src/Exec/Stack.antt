-- ===== src/Exec/Stack.antt =====
-- The user stack that `create_process` and `execvpe` of sys/process.c prepare; `ts->rsp` is a `uint64_t *`,
-- so that every step moves it by eight bytes.
pub mod Writes
pub mod Layout
use mathlib.Core.Option
use osproject.Prelude.{
  ℕ, zero, suc, ◌+◌, ◌-◌, ◌*◌, ◌/◌, ◌%◌, ◌^◌, List, [], ◌∷◌, Option, none, some, length,
}
use osproject.Prelude.Loops.{update}
use osproject.Text.{Bytes, strlen}

-- `ts->rsp` and the bytes of the address space.
pub record UserStack : Type 0 where
  pub rsp : ℕ
  pub byte : ℕ → ℕ

abbrev pub sub64 : ℕ → ℕ → ℕ
sub64 a b = (a + 2 ^ 64 - b) % 2 ^ 64

-- `memcpy` to `p`.
unfoldable pub write_bytes : Bytes → ℕ → (ℕ → ℕ) → ℕ → ℕ
write_bytes [] p m = m
write_bytes (c ∷ cs) p m = write_bytes cs (p + 1) (update m p c)

-- The bytes of a number, the lowest first.
unfoldable pub word_bytes : ℕ → ℕ → Bytes
word_bytes zero w = []
word_bytes (suc n) w = (w % 256) ∷ word_bytes n (w / 256)

-- `ts->rsp -= 1; *(ts->rsp) = w`.
unfoldable pub push_word : ℕ → UserStack → UserStack
unfolding write_bytes word_bytes
push_word w s =
    let p = sub64 s.rsp 8 in record { rsp = p; byte = write_bytes (word_bytes 8 w) p s.byte }

-- `ts->rsp = ts->rsp - len; memcpy(ts->rsp, a, len)` for a text of `len` bytes, its terminator included.
unfoldable pub push_text : Bytes → UserStack → UserStack
unfolding write_bytes
push_text a s =
    let p = sub64 s.rsp (8 * length a) in record { rsp = p; byte = write_bytes a p s.byte }

-- The loop that copies the arguments from the last to the first, with `temp`, where each one stands.
unfoldable pub push_texts : List Bytes → UserStack → UserStack × List ℕ
unfolding push_text
push_texts [] s = (s, [])
push_texts (a ∷ args) s =
    let (t, temp) = push_texts args s in let u = push_text a t in (u, u.rsp ∷ temp)

-- The loop that pushes the addresses, again from the last to the first.
unfoldable pub push_words : List ℕ → UserStack → UserStack
unfolding push_word
push_words [] s = s
push_words (p ∷ temp) s = push_word p (push_words temp s)

-- What `execvpe` puts on the stack, without an environment: the arguments, two NULL, the addresses of the
-- arguments, and their number.
unfoldable pub push_arguments : List Bytes → UserStack → UserStack
unfolding push_texts push_words push_word
push_arguments args s =
    let (t, temp) = push_texts args s in
    push_word (length args) (push_words temp (push_word 0 (push_word 0 t)))

-- What `create_process` puts there: its address of the argument is that of the word above it.
unfoldable pub push_name : Bytes → UserStack → UserStack
unfolding push_text push_word
push_name a s = let t = push_word 0 (push_word 0 (push_text a s)) in push_word 1 (push_word t.rsp t)
