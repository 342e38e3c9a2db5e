-- ===== src/Examples/Directories.antt =====
-- Paths and reads.
use osproject.Prelude.{ℕ, ◌+◌, ◌<◌, ◌≡◌, refl, [], ◌∷◌, ◌++◌, some, arith, get_elem?, length}
use osproject.Text.{Bytes, no_nul, holds}
use osproject.Prelude.Int.{negsuc}
use osproject.Process.{Task, running}
use osproject.Tarfs.Paths.{set_true_path}
use osproject.Tarfs.Paths.Plain.{no_dots, set_true_path-relative}
use osproject.Tarfs.Files.{filled, in_front, clipped, fill_buf, read_tarfs}
use osproject.Tarfs.Files.Read.{amount, read_tarfs-bytes}
use osproject.Examples.Texts.{ls}
use osproject.Examples.Processes.{task}

abbrev bin_dir : Bytes
bin_dir = b'b' ∷ b'i' ∷ b'n' ∷ b'/' ∷ []

set_true_path-relative_example :
    set_true_path (holds (b'/' ∷ bin_dir) []) (holds ls (0 ∷ [])) (λ i. 7)
    ≡ some (holds (bin_dir ++ ls) [])
unfolding no_nul no_dots
set_true_path-relative_example =
    set_true_path-relative bin_dir (b's' ∷ []) [] (0 ∷ []) b'l' (λ i. 7) refl refl refl refl refl
      (omega arith)

-- A process with file 3 open, ten bytes long.
abbrev reader : Task
reader = record (task 1 0 running) {
  fd = λ i. record {
    fd = 3;
    file_name = holds ls [];
    aval = 1;
    offset = 0;
    entry = 0;
    flags = 0;
    size = 10;
    address = 4096;
  };
}

read_tarfs-bytes_example :
    (out : Bytes) × (read_tarfs (λ a. a) reader 3 (negsuc 0) ≡ filled out (amount 10 (negsuc 0)))
    × (length out ≡ amount 10 (negsuc 0) + 1)
    × ((i : ℕ) → i < amount 10 (negsuc 0) → get_elem? out i ≡ some (4096 + 512 + i))
read_tarfs-bytes_example =
    read_tarfs-bytes (λ a. a) reader 3 (negsuc 0) refl (omega arith) (omega arith) refl

-- A file of 2^32 - 1 bytes has the count -1, and a NUL is put in front of the buffer.
in_front_example :
    read_tarfs
      (λ a. a)
      (record reader { fd = λ i. record (reader.fd i) { size = 4294967295 } })
      3
      (negsuc 7)
    ≡ in_front (negsuc 0)
unfolding read_tarfs clipped fill_buf
in_front_example = refl
