-- ===== src/Exec/Stack/Layout.antt =====
-- The arguments that a program finds on the stack that sys/process.c prepares.
use osproject.Prelude.{
  ℕ, zero, suc, ◌+◌, ◌*◌, ◌^◌, ◌≤◌, ◌<◌, ◌≡◌, refl, ◌∙◌, List, [], ◌∷◌, ◌++◌, length, arith,
}
use osproject.Text.{Bytes}
use osproject.Exec.Elf.{little_endian}
use osproject.Exec.Stack.{
  UserStack, write_bytes, push_word, push_words, push_text, push_texts, push_arguments, push_name,
  sub64,
}
use osproject.Exec.Stack.Writes.{
  Above, BytesAt, write_bytes-Above, write_bytes-BytesAt, BytesAt-Above, Pushed, push_word-Pushed,
}

-- The bytes of all texts.
abbrev pub size : List Bytes → ℕ
size [] = 0
size (a ∷ args) = length a + size args

-- Each text stands at its address, from `low` on.
abbrev pub TextsAt : (ℕ → ℕ) → ℕ → List Bytes → List ℕ → Type 0
TextsAt m low [] [] = Unit {0}
TextsAt m low [] (p ∷ temp) = ⊥
TextsAt m low (a ∷ args) [] = ⊥
TextsAt m low (a ∷ args) (p ∷ temp) =
    (low ≤ p) × (p < 2 ^ 64) × BytesAt m p a × TextsAt m low args temp

-- The words stand one behind the other.
abbrev pub WordsAt : (ℕ → ℕ) → ℕ → List ℕ → Type 0
WordsAt m p [] = Unit {0}
WordsAt m p (w ∷ ws) = (little_endian m 8 p ≡ w) × WordsAt m (p + 8) ws

TextsAt-Above :
    (low low' : ℕ) (m m' : ℕ → ℕ) (args : List Bytes) (temp : List ℕ)
    → Above low m m'
    → low' ≤ low
    → TextsAt m low args temp
    → TextsAt m' low' args temp
TextsAt-Above low low' m m' [] [] same le h = tt
TextsAt-Above low low' m m' [] (p ∷ temp) same le h = elim h [ ]
TextsAt-Above low low' m m' (a ∷ args) [] same le h = elim h [ ]
TextsAt-Above low low' m m' (a ∷ args) (p ∷ temp) same le h = (
  omega (arith, h.0),
  h.1,
  BytesAt-Above low p a m m' same h.0 h.2,
  TextsAt-Above low low' m m' args temp same le h.3,
)

little_endian-Above :
    (n low p : ℕ) (m m' : ℕ → ℕ)
    → Above low m m'
    → low ≤ p
    → little_endian m' n p ≡ little_endian m n p
unfolding little_endian
little_endian-Above zero low p m m' same le = refl
little_endian-Above (suc n) low p m m' same le =
    omega (arith, same p le, little_endian-Above n low (p + 1) m m' same (omega arith))

WordsAt-Above :
    (low p : ℕ) (ws : List ℕ) (m m' : ℕ → ℕ)
    → Above low m m'
    → low ≤ p
    → WordsAt m p ws
    → WordsAt m' p ws
WordsAt-Above low p [] m m' same le h = tt
WordsAt-Above low p (w ∷ ws) m m' same le h = (
  little_endian-Above 8 low p m m' same le ∙ h.0,
  WordsAt-Above low (p + 8) ws m m' same (omega arith) h.1,
)

-- What pushing the texts leaves.
record TextsPushed (args : List Bytes) (s u : UserStack) (temp : List ℕ) : Type 0 where
  place : u.rsp + 8 * size args ≡ s.rsp
  count : length temp ≡ length args
  texts : TextsAt u.byte u.rsp args temp
  same : Above s.rsp s.byte u.byte

push_texts-TextsPushed :
    (args : List Bytes) (s : UserStack)
    → 8 * size args ≤ s.rsp
    → s.rsp < 2 ^ 64
    → TextsPushed args s (push_texts args s).0 (push_texts args s).1
unfolding push_texts
push_texts-TextsPushed [] s room top = record {
  place = omega arith;
  count = refl;
  texts = tt;
  same = λ a le. refl;
}
push_texts-TextsPushed (a ∷ args) s room top =
    let t = (push_texts args s).0 in
    let rest = push_texts-TextsPushed args s (omega arith) top in
    let p = sub64 t.rsp (8 * length a) in
    let place : p + 8 * length a ≡ t.rsp = omega (arith, rest.place) in
    let above : Above t.rsp t.byte (write_bytes a p t.byte) =
      λ b le. write_bytes-Above a p t.byte b (omega (arith, place)) in
    record {
      place = omega (arith, place, rest.place);
      count = omega (arith, rest.count);
      texts = (
        omega arith,
        omega (arith, place, rest.place),
        write_bytes-BytesAt a p t.byte,
        TextsAt-Above t.rsp p t.byte (write_bytes a p t.byte) args (push_texts args s).1 above
            (omega (arith, place)) rest.texts,
      );
      same = λ b le. above b (omega (arith, rest.place)) ∙ rest.same b le;
    }

-- What pushing the words leaves in front of the words `rest`.
record WordsPushed (ws rest : List ℕ) (s u : UserStack) : Type 0 where
  place : u.rsp + 8 * length ws ≡ s.rsp
  words : WordsAt u.byte u.rsp (ws ++ rest)
  same : Above s.rsp s.byte u.byte

abbrev AllSmall : List ℕ → Type 0
AllSmall [] = Unit {0}
AllSmall (w ∷ ws) = (w < 2 ^ 64) × AllSmall ws

TextsAt-AllSmall :
    (m : ℕ → ℕ) (low : ℕ) (args : List Bytes) (temp : List ℕ)
    → TextsAt m low args temp
    → AllSmall temp
TextsAt-AllSmall m low [] [] h = tt
TextsAt-AllSmall m low [] (p ∷ temp) h = elim h [ ]
TextsAt-AllSmall m low (a ∷ args) [] h = elim h [ ]
TextsAt-AllSmall m low (a ∷ args) (p ∷ temp) h = (h.1, TextsAt-AllSmall m low args temp h.3)

push_word-WordsAt :
    (w : ℕ) (rest : List ℕ) (s u : UserStack)
    → Pushed w s u
    → WordsAt s.byte s.rsp rest
    → WordsAt u.byte u.rsp (w ∷ rest)
push_word-WordsAt w rest s u pushed h = (
  pushed.reads,
  rw pushed.place (WordsAt-Above s.rsp s.rsp rest s.byte u.byte pushed.same (omega arith) h),
)

push_words-WordsPushed :
    (ws rest : List ℕ) (s : UserStack)
    → AllSmall ws
    → 8 * length ws ≤ s.rsp
    → s.rsp < 2 ^ 64
    → WordsAt s.byte s.rsp rest
    → WordsPushed ws rest s (push_words ws s)
unfolding push_words
push_words-WordsPushed [] rest s small room top h = record {
  place = omega arith;
  words = h;
  same = λ a le. refl;
}
push_words-WordsPushed (w ∷ ws) rest s small room top h =
    let r = push_words-WordsPushed ws rest s small.1 (omega arith) top h in
    let p =
      push_word-Pushed w (push_words ws s) small.0 (omega (arith, r.place))
        (omega (arith, r.place)) in
    record {
      place = omega (arith, p.place, r.place);
      words = push_word-WordsAt w (ws ++ rest) (push_words ws s) _ p r.words;
      same = λ a le. p.same a (omega (arith, r.place)) ∙ r.same a le;
    }

-- What a program that is started with the arguments `args` finds at its stack pointer: their number, then
-- the address of each, then the two NULL, and each argument at its address.
pub record Arguments (args : List Bytes) (s u : UserStack) : Type 0 where
  pub temp : List ℕ
  pub place : u.rsp + 8 * (size args + length args + 3) ≡ s.rsp
  pub count : length temp ≡ length args
  pub words : WordsAt u.byte u.rsp (length args ∷ temp ++ 0 ∷ 0 ∷ [])
  pub texts : TextsAt u.byte u.rsp args temp
  pub same : Above s.rsp s.byte u.byte

-- If the stack pointer has room for the arguments below it, `execvpe` leaves a stack on which the program
-- finds the number of its arguments, their addresses, two NULL, and the bytes of each argument at its
-- address; no byte above the old stack pointer changes.
pub push_arguments-Arguments :
    (args : List Bytes) (s : UserStack)
    → 8 * (size args + length args + 3) ≤ s.rsp
    → s.rsp < 2 ^ 64
    → Arguments args s (push_arguments args s)
unfolding push_arguments
push_arguments-Arguments args s room top =
    let t = (push_texts args s).0 in
    let temp = (push_texts args s).1 in
    let texts = push_texts-TextsPushed args s (omega arith) top in
    let z =
      push_word-Pushed 0 t (omega arith) (omega (arith, texts.place))
        (omega (arith, texts.place)) in
    let y =
      push_word-Pushed 0 (push_word 0 t) (omega arith) (omega (arith, z.place, texts.place))
        (omega (arith, z.place, texts.place)) in
    let nulls = push_word-WordsAt 0 (0 ∷ []) _ _ y (push_word-WordsAt 0 [] t _ z tt) in
    let v = push_word 0 (push_word 0 t) in
    let words =
      push_words-WordsPushed temp (0 ∷ 0 ∷ []) v
        (TextsAt-AllSmall t.byte t.rsp args temp texts.texts)
        (omega (arith, y.place, z.place, texts.place, texts.count))
        (omega (arith, y.place, z.place, texts.place)) nulls in
    let x = push_words temp v in
    let n =
      push_word-Pushed (length args) x (omega arith)
        (omega (arith, words.place, y.place, z.place, texts.place, texts.count))
        (omega (arith, words.place, y.place, z.place, texts.place)) in
    let u = push_word (length args) x in
    let kept : Above t.rsp t.byte u.byte = λ a le.
      n.same a (omega (arith, words.place, y.place, z.place))
      ∙ words.same a (omega (arith, y.place, z.place))
      ∙ y.same a (omega (arith, z.place))
      ∙ z.same a le in
    record {
      temp = temp;
      place = omega (arith, n.place, words.place, y.place, z.place, texts.place, texts.count);
      count = texts.count;
      words = push_word-WordsAt (length args) (temp ++ 0 ∷ 0 ∷ []) x u n words.words;
      texts =
          TextsAt-Above t.rsp u.rsp t.byte u.byte args temp kept
            (omega (arith, n.place, words.place, y.place, z.place)) texts.texts;
      same = λ a le. kept a (omega (arith, texts.place)) ∙ texts.same a le;
    }

-- The first process is started with one argument whose address is that of a word 0, so that its own name,
-- `argv[0]`, is empty, if the stack pointer has room.
pub push_name-empty :
    (a : Bytes) (s : UserStack)
    → 8 * (length a + 4) ≤ s.rsp
    → s.rsp < 2 ^ 64
    → (q : ℕ) × WordsAt (push_name a s).byte (push_name a s).rsp (1 ∷ q ∷ [])
      × (little_endian (push_name a s).byte 8 q ≡ 0)
unfolding push_name push_text
push_name-empty a s room top =
    let b = push_text a s in
    let z = push_word-Pushed 0 b (omega arith) (omega arith) (omega arith) in
    let y =
      push_word-Pushed 0 (push_word 0 b) (omega arith) (omega (arith, z.place))
        (omega (arith, z.place)) in
    let t = push_word 0 (push_word 0 b) in
    let p =
      push_word-Pushed t.rsp t (omega (arith, y.place, z.place)) (omega (arith, y.place, z.place))
        (omega (arith, y.place, z.place)) in
    let x = push_word t.rsp t in
    let n =
      push_word-Pushed 1 x (omega arith) (omega (arith, p.place, y.place, z.place))
        (omega (arith, p.place, y.place, z.place)) in
    let u = push_word 1 x in
    let here = push_word-WordsAt t.rsp (0 ∷ []) t x p (y.reads, tt) in
    let all = push_word-WordsAt 1 (t.rsp ∷ 0 ∷ []) x u n here in
    (
      t.rsp,
      (all.0, (all.1.0, tt)),
      little_endian-Above 8 x.rsp t.rsp x.byte u.byte n.same (omega (arith, p.place))
          ∙ little_endian-Above 8 t.rsp t.rsp t.byte x.byte p.same (omega arith)
          ∙ y.reads,
    )
