-- ===== src/Examples/Archives.antt =====
-- A small archive.
use osproject.Prelude.{ℕ, ◌≡◌, refl, List, [], ◌∷◌, Option, some, arith, ◌==◌, if◌then◌else◌}
use osproject.Text.{Bytes, no_nul, holds}
use osproject.Tarfs.{Header, get_file_address, data_address}
use osproject.Tarfs.Lookup.{Index, Finds, Seen, nil, cons, get_file_address-Finds}
use osproject.Tarfs.Files.Find.{Names}
use osproject.Examples.Texts.{bin, ls}

-- The size field "00000001750", 1000 bytes.
abbrev size_field : ℕ → ℕ
size_field i = if i == 7 then b'1' else if i == 8 then b'7' else if i == 9 then b'5' else b'0'

-- A directory and a file of 1000 bytes behind it.
abbrev archive : ℕ → ℕ
archive a = if a == 4739 then b'1' else if a == 4740 then b'7' else if a == 4741 then b'5' else b'0'

abbrev pub header : Bytes → ℕ → Header
header s a = record { address = a; name = holds s []; size = size_field }

abbrev pub headers : List Header
headers = header bin 4096 ∷ header ls 4608 ∷ []

abbrev pub index : List (Bytes × ℕ)
index = (bin, 4096) ∷ (ls, 4608) ∷ []

pub headers-Index : Index headers index
unfolding no_nul
headers-Index =
    cons ([], refl, refl, (omega arith, (omega arith, (omega arith, tt)))) (omega arith)
      (cons ([], refl, refl, (omega arith, (omega arith, tt))) (omega arith) nil)

get_file_address-Finds_example :
    (r : Option ℕ) × (a : ℕ) × Finds ls index r
    × (get_file_address (holds ls (0 ∷ [])) headers ≡ some a)
    × Seen r (data_address a)
unfolding no_nul
get_file_address-Finds_example =
    get_file_address-Finds ls (0 ∷ []) headers index refl (omega arith, (omega arith, tt))
      headers-Index

headers-Names : Names headers (bin ∷ ls ∷ [])
unfolding no_nul
headers-Names =
    Names.cons ([], refl, refl, (omega arith, (omega arith, (omega arith, tt))))
      (Names.cons ([], refl, refl, (omega arith, (omega arith, tt))) Names.nil)
