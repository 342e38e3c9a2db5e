-- ===== src/Tarfs/Paths/Plain.antt =====
-- `setTruePath` of sys/tarfs.c on paths that do not go up.
use osproject.Prelude.{
  ℕ, zero, suc, ◌+◌, ◌≤◌, ◌<◌, ◌≡◌, refl, ap, ◌∙◌, Bool, true, false, ◌&&◌, not, [], ◌∷◌, ◌++◌,
  some, ◌==◌, length, drop, length-append, length-drop, length-replicate, replicate, arith,
}
use osproject.Prelude.Loops.{update, update_self, update_other}
use osproject.Text.{Bytes, no_nul, holds}
use osproject.Text.Laws.{strcpy-holds, strcat-holds}
use osproject.Tarfs.Paths.{resolve, text_from, file_path, set_true_path}

-- Nowhere do two dots stand side by side.
abbrev pub is_dot : Bytes → Bool
is_dot [] = false
is_dot (c ∷ s) = c == b'.'

unfoldable pub no_dots : Bytes → Bool
no_dots [] = true
no_dots (c ∷ s) = not ((c == b'.') && is_dot s) && no_dots s

-- The end of the loop, whatever lies behind the terminator.
resolve-end :
    (rest : Bytes) (n : ℕ) (b : ℕ → ℕ)
    → resolve (0 ∷ rest) n b ≡ some (update (update b n 0) (n + 1) 0)
unfolding resolve
resolve-end [] n b = refl
resolve-end (d ∷ rest) n b = refl

-- One character that is copied.
resolve_step :
    (c d : ℕ) (cs : Bytes) (n : ℕ) (b : ℕ → ℕ)
    → (c == 0) ≡ false
    → ((c == b'.') && (d == b'.')) ≡ false
    → resolve (c ∷ d ∷ cs) n b ≡ resolve (d ∷ cs) (n + 1) (update b n c)
unfolding resolve
resolve_step c d cs n b more plain = rw (more, plain) refl

-- What a run over the text `s` leaves from index `n` on.
record Copied (s rest : Bytes) (n : ℕ) (b : ℕ → ℕ) : Type 0 where
  after : ℕ → ℕ
  runs : resolve (holds s rest) n b ≡ some after
  before : (j : ℕ) → j < n → after j ≡ b j
  reads : (f : ℕ) → length s < f → text_from f n after ≡ holds s []

Copied-cons :
    (c : ℕ) (s rest : Bytes) (n : ℕ) (b : ℕ → ℕ)
    → (c == 0) ≡ false
    → resolve (c ∷ holds s rest) n b ≡ resolve (holds s rest) (n + 1) (update b n c)
    → Copied s rest (n + 1) (update b n c)
    → Copied (c ∷ s) rest n b
unfolding text_from
Copied-cons c s rest n b more step r =
    let here : r.after n ≡ c = r.before n (omega arith) ∙ update_self b n c in
    record {
      after = r.after;
      runs = step ∙ r.runs;
      before = λ j lt. r.before j (omega arith) ∙ update_other b n c j (omega arith);
      reads = reads here;
    }
  where
    reads : r.after n ≡ c → (f : ℕ) → suc (length s) < f → text_from f n r.after ≡ c ∷ holds s []
    reads here zero lt = absurd (omega arith)
    reads here (suc f) lt = rw (here, more) (rw (r.reads f (omega arith)) refl)

resolve-Copied :
    (s rest : Bytes) (n : ℕ) (b : ℕ → ℕ) → no_nul s ≡ true → no_dots s ≡ true → Copied s rest n b
unfolding no_nul no_dots text_from
resolve-Copied [] rest n b ok plain = record {
  after = update (update b n 0) (n + 1) 0;
  runs = resolve-end rest n b;
  before = λ j lt.
      update_other (update b n 0) (n + 1) 0 j (omega arith) ∙ update_other b n 0 j (omega arith);
  reads = reads;
}
  where
    here : update (update b n 0) (n + 1) 0 n ≡ 0
    here = update_other (update b n 0) (n + 1) 0 n (omega arith) ∙ update_self b n 0

    reads : (f : ℕ) → 0 < f → text_from f n (update (update b n 0) (n + 1) 0) ≡ 0 ∷ []
    reads zero lt = absurd (omega arith)
    reads (suc f) lt = rw here refl
resolve-Copied (c ∷ []) rest n b ok plain =
    let more : (c == 0) ≡ false = ground arith in
    Copied-cons c [] rest n b more (resolve_step c 0 rest n b more (ground arith))
      (resolve-Copied [] rest (n + 1) (update b n c) refl refl)
resolve-Copied (c ∷ d ∷ s) rest n b ok plain =
    let more : (c == 0) ≡ false = ground arith in
    Copied-cons c (d ∷ s) rest n b more (resolve_step c d (holds s rest) n b more (ground arith))
      (resolve-Copied (d ∷ s) rest (n + 1) (update b n c) (ground arith) (ground arith))

file_path-absolute :
    (curr_dir s rest : Bytes)
    → no_nul s ≡ true
    → length s < 50
    → file_path curr_dir (holds (b'/' ∷ s) rest) (replicate 50 0)
      ≡ some (holds s (drop (suc (length s)) (replicate 50 0)))
unfolding file_path
file_path-absolute curr_dir s rest ok short = strcpy-holds (replicate 50 0) s rest ok short

resolved :
    (curr_dir path f t : Bytes) (before after : ℕ → ℕ)
    → file_path curr_dir path (replicate 50 0) ≡ some f
    → resolve f 1 (update before 1 0) ≡ some after
    → text_from 51 1 after ≡ t
    → set_true_path curr_dir path before ≡ some t
unfolding set_true_path
resolved curr_dir path f t before after e runs reads =
    rw (e, set_true_path) (rw runs (ap some reads))

-- An absolute path of less than 50 characters after its slash, in which no two dots stand side by side,
-- becomes what follows the slash.
pub set_true_path-absolute :
    (curr_dir s rest : Bytes) (before : ℕ → ℕ)
    → no_nul s ≡ true
    → no_dots s ≡ true
    → length s < 50
    → set_true_path curr_dir (holds (b'/' ∷ s) rest) before ≡ some (holds s [])
set_true_path-absolute curr_dir s rest before ok plain short =
    let r =
      resolve-Copied s (drop (suc (length s)) (replicate 50 0)) 1 (update before 1 0) ok plain in
    resolved curr_dir _ _ _ before r.after (file_path-absolute curr_dir s rest ok short) r.runs
      (r.reads 51 (omega arith))

file_path-relative :
    (d s r rest : Bytes) (c : ℕ)
    → (c == b'/') ≡ false
    → no_nul d ≡ true
    → no_nul (c ∷ s) ≡ true
    → length d + length (c ∷ s) < 50
    → file_path (holds (b'/' ∷ d) r) (holds (c ∷ s) rest) (replicate 50 0)
      ≡ some (holds (d ++ c ∷ s) (drop (length (c ∷ s)) (drop (suc (length d)) (replicate 50 0))))
unfolding file_path
file_path-relative d s r rest c other ok ok' short =
    let room : Bytes = drop (suc (length d)) (replicate 50 0) in
    let wide : length (c ∷ s) ≤ length room = omega (
      arith,
      length-drop {A = ℕ} (suc (length d)) (replicate 50 0),
      length-replicate {A = ℕ} 50 0,
    ) in
    rw other (
      rw (strcpy-holds (replicate 50 0) d r ok (omega arith))
        (strcat-holds d (c ∷ s) room rest ok ok' wide))

-- A path that does not begin with a slash, in a directory "/d" with less than 50 characters in both, is
-- put behind `d`, if no two dots then stand side by side.
pub set_true_path-relative :
    (d s r rest : Bytes) (c : ℕ) (before : ℕ → ℕ)
    → (c == b'/') ≡ false
    → no_nul d ≡ true
    → no_nul (c ∷ s) ≡ true
    → no_nul (d ++ c ∷ s) ≡ true
    → no_dots (d ++ c ∷ s) ≡ true
    → length d + length (c ∷ s) < 50
    → set_true_path (holds (b'/' ∷ d) r) (holds (c ∷ s) rest) before ≡ some (holds (d ++ c ∷ s) [])
set_true_path-relative d s r rest c before other ok ok' both plain short =
    let t = d ++ c ∷ s in
    let q =
      resolve-Copied t (drop (length (c ∷ s)) (drop (suc (length d)) (replicate 50 0))) 1
        (update before 1 0) both plain in
    resolved (holds (b'/' ∷ d) r) _ _ _ before q.after
      (file_path-relative d s r rest c other ok ok' short) q.runs
      (q.reads 51 (omega (arith, length-append d (c ∷ s))))
