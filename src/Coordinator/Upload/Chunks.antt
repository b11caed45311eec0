-- ===== src/Coordinator/Upload/Chunks.antt =====
-- How `PutFile` cuts a file into chunks, and where the `int` product of the chunk's start overflows.
use toy_dfs.Prelude.{
  ℕ, ◌+◌, ◌-◌, ◌*◌, ◌/◌, ◌%◌, ◌≤◌, ◌<◌, ◌≡◌, ap, ◌∙◌, sym, ◌++◌, none, some, pos_part,
  to_int32-small, int_max, le→leb, take, drop, arith, length-drop, drop-drop, take_clip,
  take-append-drop,
}
use toy_dfs.Bytes.{Bytes}
use toy_dfs.Coordinator.Upload.{chunk_size, chunk_at, num_chunks}

-- 2 GiB: up to here no product of `PutFile` leaves `int`.
abbrev pub max_file_size : ℕ
max_file_size = 2147483648

abbrev pub max_chunks : ℕ
max_chunks = 2048

abbrev pub piece : ℕ → Bytes → Bytes
piece i file_data = take chunk_size (drop (i * chunk_size) file_data)

-- While the start of the chunk fits an `int` the chunk is the piece of the file that belongs to it.
pub chunk_at-piece :
    (i : ℕ) (file_data : Bytes)
    → i * chunk_size ≤ int_max
    → chunk_at i file_data ≡ some (piece i file_data)
unfolding chunk_at
chunk_at-piece i file_data h = rw (le→leb (i * chunk_size) int_max h) (
    ap some (
      ap (λ k. take k (drop (i * chunk_size) file_data))
        (omega (arith, length-drop (i * chunk_size) file_data))
      ∙ take_clip chunk_size (drop (i * chunk_size) file_data)))

-- From the chunk 2048 on, the product overflows.
pub chunk_at_overflow : (i : ℕ) (file_data : Bytes) → 2048 ≤ i → chunk_at i file_data ≡ none
unfolding chunk_at
chunk_at_overflow i file_data h = ground arith

-- A piece and what follows it.
pub piece-append :
    (i : ℕ) (file_data : Bytes)
    → piece i file_data ++ drop ((i + 1) * chunk_size) file_data ≡ drop (i * chunk_size) file_data
piece-append i file_data =
    ap (λ r. piece i file_data ++ r)
      (ap (λ k. drop k file_data) (omega arith)
        ∙ sym (drop-drop (i * chunk_size) chunk_size file_data))
    ∙ take-append-drop chunk_size (drop (i * chunk_size) file_data)

-- A file of up to 2251799812636672 bytes has as many chunks as it takes to hold its bytes, and no
-- empty one.
pub num_chunks_bounds :
    (size : ℕ)
    → size ≤ 2251799812636672
    → let n = pos_part (num_chunks size) in
      (size ≤ n * chunk_size) × (n * chunk_size < size + chunk_size)
unfolding num_chunks
num_chunks_bounds size h =
    rw
      (to_int32-small ((size + (chunk_size - 1)) % 18446744073709551616 / chunk_size) (omega arith))
      (omega arith)
