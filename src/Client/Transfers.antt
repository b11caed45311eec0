-- ===== src/Client/Transfers.antt =====
-- What the client sends is the file, and what it stores it can fetch.
use toy_dfs.Prelude.{
  ℕ, zero, suc, ◌+◌, ◌≤◌, ◌<◌, ◌≡◌, refl, ap, ◌∙◌, sym, Bool, true, List, [], ◌∷◌, ◌++◌, Option,
  none, some, leb, take, drop, length, leb→le, arith, Bool-cases, inl, inr, take-append-drop,
  length-take, length-drop, append-nil, All, int_max, subst,
}
use toy_dfs.Bytes.{Bytes}
use toy_dfs.Grpc.{status_ok, PutFileRequest}
use toy_dfs.Coordinator.{Coordinator}
use toy_dfs.Coordinator.Client.{IsReliable}
use toy_dfs.Coordinator.Environment.{Environment}
use toy_dfs.Coordinator.Upload.{put_file, read_data, returned}
use toy_dfs.Coordinator.Download.{get_file}
use toy_dfs.Coordinator.RoundTrip.{get_file-put_file}
use toy_dfs.Coordinator.Upload.Chunks.{max_file_size, max_chunks}
use toy_dfs.Client.{
  done, send_data, send_file, put_file_sync, get_file_sync, put_outcome, block_size, request,
}
use toy_dfs.Coordinator.Download.Stream.{joined}

-- A message of the file: its name, and some of its bytes.
abbrev pub IsBlock : Bytes → PutFileRequest → Type 0
IsBlock filename req =
    (req.filename ≡ filename) × (1 ≤ length req.content) × (length req.content ≤ block_size)

send_data_lem :
    (fuel : ℕ) (filename content : Bytes) (takes : ℕ → Bool) (i : ℕ)
    → ((j : ℕ) → takes j ≡ true)
    → length content < fuel
    → let (reqs, failure) = send_data fuel filename content takes i in
      (failure ≡ none) × (read_data reqs ≡ content) × All (IsBlock filename) reqs
unfolding send_data
send_data_lem zero filename content takes i taken h = absurd (omega arith)
send_data_lem (suc fuel) filename [] takes i taken h = (refl, refl, tt)
send_data_lem (suc fuel) filename (b ∷ content) takes i taken h =
    elim (Bool-cases (leb block_size (length (b ∷ content)))) [
      | inl full ↦
          let rest = drop block_size (b ∷ content) in
          let (ok, all, small) =
            send_data_lem fuel filename rest takes (suc i) taken
              (omega (arith, length-drop block_size (b ∷ content), leb→le block_size _ full)) in
          rw (full, taken i)
            (
              ok,
              ap (λ r. take block_size (b ∷ content) ++ r) all
                  ∙ take-append-drop block_size (b ∷ content),
              (
                (
                  refl,
                  omega (arith, length-take block_size (b ∷ content), leb→le block_size _ full),
                  length-take_le block_size (b ∷ content),
                ),
                small,
              ),
            )
      | inr last ↦
          rw (last, taken i)
            (refl, append-nil (b ∷ content), ((refl, omega arith, ground arith), tt))
    ]
  where
    length-take_le : (n : ℕ) (xs : Bytes) → length (take n xs) ≤ n
    length-take_le zero xs = omega arith
    length-take_le (suc n) [] = omega arith
    length-take_le (suc n) (x ∷ xs) = omega (arith, length-take_le n xs)

-- Over a stream that takes every message no write fails, and the client sends first a message with
-- the name of the file and no data, and then the file in messages with that name, of 1 to 4096 bytes
-- each; nothing is lost.
pub send_file_lem :
    (filename content : Bytes) (takes : ℕ → Bool)
    → ((j : ℕ) → takes j ≡ true)
    → let (reqs, failure) = send_file filename content takes in
      (failure ≡ none)
      × (blocks : List PutFileRequest) × (reqs ≡ request filename [] ∷ blocks)
      × (read_data blocks ≡ content)
      × All (IsBlock filename) blocks
unfolding send_file
send_file_lem filename content takes taken =
    let (ok, all, sizes) =
      send_data_lem (suc (length content)) filename content takes 1 taken (omega arith) in
    rw (taken 0) (ok, _, refl, all, sizes)

pub send_file-read_data :
    (filename content : Bytes) (takes : ℕ → Bool)
    → ((j : ℕ) → takes j ≡ true)
    → let (reqs, failure) = send_file filename content takes in
      (failure ≡ none) × (read_data reqs ≡ content)
send_file-read_data filename content takes taken =
    let (ok, blocks, first, all, sizes) = send_file_lem filename content takes taken in
    (ok, ap read_data first ∙ all)

module _ {W : Type 0} (env : Environment W) (reliable : IsReliable env.client) where
  -- Let the data nodes be reliable and the chunk numbers stay in the range of `int`. A file of at
  -- most 2 GiB that the client sends over a stream that takes every message, and whose upload the
  -- coordinator reports as successful, is a success for the client; and a download of it at once,
  -- through a stream that takes all its chunks, gives the client exactly the file.
  pub get_file_sync-put_file_sync :
      (filename content : Bytes) (takes : ℕ → Bool) (quota : ℕ) (c c' : Coordinator) (w w' : W)
      → ((j : ℕ) → takes j ≡ true)
      → length content ≤ max_file_size
      → c.chunk_id_counter + max_chunks ≤ int_max
      → max_chunks ≤ quota
      → put_file env (send_file filename content takes).0 c w ≡ (returned status_ok true, c', w')
      → let (st, messages, c'', w'') = get_file env.client filename quota c' w' in
        (put_file_sync filename (some content) takes (λ reqs. (status_ok, true)) ≡ done tt)
        × (get_file_sync (st, messages) ≡ done content)
  get_file_sync-put_file_sync filename content takes quota c c' w w' taken small fresh room e =
      let (ok, all) = send_file-read_data filename content takes taken in
      let later = (send_data (suc (length content)) filename content takes 1).0 in
      let sent =
        ap (λ (p : List PutFileRequest × Option Bytes). p.0)
          (first_sent filename content takes (taken 0)) in
      let whole = ap read_data (sym sent) ∙ all in
      let (fine, same) =
        get_file-put_file env reliable (request filename []) later quota c c' w w'
          (subst (λ l. length l ≤ max_file_size) (sym whole) small) fresh room
          (subst (λ rs. put_file env rs c w ≡ (returned status_ok true, c', w')) sent e) in
      (sync filename content takes ok, fetched filename content fine (same ∙ whole))
    where
      first_sent :
          (name all : Bytes) (t : ℕ → Bool)
          → t 0 ≡ true
          → send_file name all t ≡ (
            request name [] ∷ (send_data (suc (length all)) name all t 1).0,
            (send_data (suc (length all)) name all t 1).1,
          )
      first_sent name all t h = unfold send_file in rw h refl

      sync :
          (name all : Bytes) (t : ℕ → Bool)
          → (send_file name all t).1 ≡ none
          → put_file_sync name (some all) t (λ reqs. (status_ok, true)) ≡ done tt
      sync name all t h = unfold put_file_sync in rw (h, put_file_sync) (unfold put_outcome in refl)

      fetched :
          (name all : Bytes)
          → (get_file env.client filename quota c' w').0 ≡ status_ok
          → joined (get_file env.client filename quota c' w').1 ≡ all
          → get_file_sync (
            (get_file env.client filename quota c' w').0,
            (get_file env.client filename quota c' w').1,
          )
            ≡ done all
      fetched name all h k = unfold get_file_sync in rw (h, k) refl
