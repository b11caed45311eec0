-- ===== src/Coordinator/Concurrent/Sound.antt =====
-- Uploads that run at once, and their chunks.
use toy_dfs.Prelude.{
  ℕ, zero, suc, ◌+◌, ◌*◌, ◌≤◌, ◌<◌, ◌≡◌, refl, ap, ◌∙◌, sym, subst, Bool, true, false, List, [],
  ◌∷◌, length, pos_part, arith, All, All-map, int_max, if◌then◌else◌, map,
}
use toy_dfs.Bytes.{Bytes, is_empty, codes}
use toy_dfs.Grpc.{status, status_ok, already_exists, invalid_argument}
use toy_dfs.MetadataStore
use toy_dfs.MetadataStore.{ChunkInfo, is_some}
use toy_dfs.MetadataStore.Files.{file_at}
use toy_dfs.Coordinator.{Coordinator}
use toy_dfs.Coordinator.Client.{IsReliable}
use toy_dfs.Coordinator.Environment.{Environment}
use toy_dfs.Coordinator.Upload.{chunk_size, Loop, finished, stopped, put_chunks, num_chunks}
use toy_dfs.Coordinator.Upload.Chunks.{num_chunks_bounds, max_file_size}
use toy_dfs.Coordinator.Upload.Defined.{put_chunks-defined}
use toy_dfs.Coordinator.Upload.Keeps.{Uses, put_chunks-Uses}
use toy_dfs.Coordinator.Upload.Stored.{Stored}
use toy_dfs.Coordinator.Download.{send_chunks}
use toy_dfs.Coordinator.Download.Stream.{joined, send_chunks-Stored}
use toy_dfs.Coordinator.Concurrent.{
  Stage, started, looping, succeeded, failed, undefined, Call, after_round, step, step_at,
  interleave,
}
use toy_dfs.Coordinator.Concurrent.Rounds.{
  take_all, StageSound, CallSound, Uses-CallSound, round-Stored,
}

-- The name and the data of a call.
abbrev pub upload_of : Call → Bytes × Bytes
upload_of call = (call.filename, call.file_data)

abbrev pub IsFresh : Call → Type 0
IsFresh call = (call.stage ≡ started) × (length call.file_data ≤ max_file_size)

module _ {W : Type 0} (env : Environment W) (reliable : IsReliable env.client) where
  store-Uses :
      (c : Coordinator) (w : W) (store' : MetadataStore.MetadataStore)
      → Uses env reliable 1 c (record c { store = store' }) w w
  store-Uses c w store' = record {
    grows = omega arith;
    within = omega arith;
    same_nodes = refl;
    same_next = refl;
    survives = λ m other content below held. held;
  }

  round-StageSound :
      (n i : ℕ) (file_data : Bytes) (chunks : List ChunkInfo) (c : Coordinator) (w : W)
      (l : Loop × Coordinator × W)
      → c.chunk_id_counter < int_max
      → put_chunks env 1 i file_data chunks c w ≡ l
      → StageSound env reliable c.registered_nodes c.chunk_id_counter w file_data
          (looping (suc n) i chunks)
      → StageSound env reliable l.1.registered_nodes l.1.chunk_id_counter l.2 file_data
          (after_round n i l.0)
  round-StageSound n i file_data chunks c w (finished all, last, done) room e s = (
    omega arith,
    omega arith,
    round-Stored env reliable i file_data chunks all c last w done (omega arith) room e s.2,
  )
  round-StageSound n i file_data chunks c w (stopped st, last, done) room e s = tt
  round-StageSound n i file_data chunks c w (Loop.undefined, last, done) room e s =
      put_chunks-defined env 1 i file_data chunks c w (omega arith)
        (ap (λ (t : Loop × Coordinator × W). t.0) e)

  abbrev call_at : Bytes → Bytes → Stage → Call
  call_at filename file_data stage = record {
    filename = filename;
    file_data = file_data;
    stage = stage;
  }

  step-CallSound :
      (filename file_data : Bytes) (stage : Stage) (c : Coordinator) (w : W)
      → c.chunk_id_counter < int_max
      → StageSound env reliable c.registered_nodes c.chunk_id_counter w file_data stage
      → let (call, c', w') = step env (call_at filename file_data stage) c w in
        CallSound env reliable c' w' call
        × Uses env reliable 1 c c' w w'
        × (call.filename ≡ filename)
        × (call.file_data ≡ file_data)
  unfolding step
  step-CallSound filename file_data started c w room s = (
    looked_up (is_some (file_at c.store filename)) (is_empty filename),
    store-Uses c w _,
    refl,
    refl,
  )
    where
      rounds : ℕ
      rounds = pos_part (num_chunks (length file_data))

      bounds :
          (length file_data ≤ rounds * chunk_size)
          × (rounds * chunk_size < length file_data + chunk_size)
      bounds = num_chunks_bounds (length file_data) (omega (arith, s))

      looked_up :
          (there nameless : Bool)
          → StageSound env reliable c.registered_nodes c.chunk_id_counter w file_data (
              if there
              then failed (status already_exists (codes "File exists"))
              else if nameless
              then failed (status invalid_argument (codes "Filename not provided"))
              else looping rounds 0 [])
      looked_up true nameless = tt
      looked_up false true = tt
      looked_up false false = (omega (arith, bounds, s), omega (arith, bounds), refl)
  step-CallSound filename file_data (looping zero i chunks) c w room s = (
    subst (Stored env.client c.registered_nodes c.chunk_id_counter w chunks)
        (take_all (i * chunk_size) file_data (omega (arith, s.1))) s.2,
    store-Uses c w _,
    refl,
    refl,
  )
  step-CallSound filename file_data (looping (suc n) i chunks) c w room s = (
    round-StageSound n i file_data chunks c w _ room refl s,
    put_chunks-Uses env reliable 1 i file_data chunks c w (omega arith),
    refl,
    refl,
  )
  step-CallSound filename file_data (succeeded chunks) c w room s =
      (s, store-Uses c w c.store, refl, refl)
  step-CallSound filename file_data (failed st) c w room s = (s, store-Uses c w c.store, refl, refl)
  step-CallSound filename file_data undefined c w room s = absurd s

  step_at-AllSound :
      (j : ℕ) (calls : List Call) (c : Coordinator) (w : W)
      → c.chunk_id_counter < int_max
      → All (CallSound env reliable c w) calls
      → let (calls', c', w') = step_at env j calls c w in
        All (CallSound env reliable c' w') calls'
        × Uses env reliable 1 c c' w w'
        × (map upload_of calls' ≡ map upload_of calls)
  unfolding step_at
  step_at-AllSound j [] c w room s = (tt, store-Uses c w c.store, refl)
  step_at-AllSound zero (call ∷ calls) c w room s =
      let (call', c', w') = step env call c w in
      let (sound, u, name, bytes) =
        step-CallSound call.filename call.file_data call.stage c w room s.0 in
      (
        (sound, All-map _ _ (Uses-CallSound env reliable 1 c c' w w' u) calls s.1),
        u,
        ap (λ a. (a, call'.file_data) ∷ map upload_of calls) name
            ∙ ap (λ b. (call.filename, b) ∷ map upload_of calls) bytes,
      )
  step_at-AllSound (suc j) (call ∷ calls) c w room s =
      let (calls', c', w') = step_at env j calls c w in
      let (sound, u, same) = step_at-AllSound j calls c w room s.1 in
      (
        (Uses-CallSound env reliable 1 c c' w w' u call s.0, sound),
        u,
        ap (λ us. upload_of call ∷ us) same,
      )

  pub interleave-AllSound :
      (schedule : List ℕ) (calls : List Call) (c : Coordinator) (w : W)
      → c.chunk_id_counter + length schedule ≤ int_max
      → All (CallSound env reliable c w) calls
      → let (calls', c', w') = interleave env schedule calls c w in
        All (CallSound env reliable c' w') calls' × (map upload_of calls' ≡ map upload_of calls)
  unfolding interleave
  interleave-AllSound [] calls c w room s = (s, refl)
  interleave-AllSound (j ∷ schedule) calls c w room s =
      let (calls', c', w') = step_at env j calls c w in
      let (sound, u, same) = step_at-AllSound j calls c w (omega arith) s in
      let (sound', same') =
        interleave-AllSound schedule calls' c' w' (omega (arith, u.within)) sound in
      (sound', same' ∙ same)

  -- What a call has come to: where it reports success, a read of the chunks that it entered gives
  -- exactly its data.
  abbrev pub Kept : Coordinator → W → Bytes → Stage → Type 0
  Kept c w file_data (succeeded chunks) =
      let (st, messages, w') = send_chunks env.client c.registered_nodes chunks (length chunks) w in
      (st ≡ status_ok) × (joined messages ≡ file_data)
  Kept c w file_data started = Unit {0}
  Kept c w file_data (looping n i chunks) = Unit {0}
  Kept c w file_data (failed st) = Unit {0}
  Kept c w file_data undefined = ⊥

  abbrev pub CallKept : Coordinator → W → Call → Type 0
  CallKept c w call = Kept c w call.file_data call.stage

  pub CallSound-CallKept :
      (c : Coordinator) (w : W) (call : Call) → CallSound env reliable c w call → CallKept c w call
  CallSound-CallKept c w call s = go call.stage s
    where
      go :
          (stage : Stage)
          → StageSound env reliable c.registered_nodes c.chunk_id_counter w call.file_data stage
          → Kept c w call.file_data stage
      go (succeeded chunks) s =
          let (count, prefix, whole, broken) =
            send_chunks-Stored env.client reliable c.registered_nodes c.chunk_id_counter chunks
              call.file_data (length chunks) w s in
          whole (omega arith)
      go started s = tt
      go (looping n i chunks) s = tt
      go (failed st) s = tt
      go undefined s = s

  pub IsFresh-CallSound :
      (c : Coordinator) (w : W) (call : Call) → IsFresh call → CallSound env reliable c w call
  IsFresh-CallSound c w call f =
      subst (StageSound env reliable c.registered_nodes c.chunk_id_counter w call.file_data)
        (sym f.0) f.1
