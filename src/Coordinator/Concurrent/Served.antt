-- ===== src/Coordinator/Concurrent/Served.antt =====
-- What a download gives after uploads that ran at once.
use mathlib.Core.List.{Memᴰ}
use toy_dfs.Prelude.{
  ℕ, ◌+◌, ◌≤◌, ◌≡◌, ◌⊎◌, inl, inr, refl, ap, ◌∙◌, sym, subst, Bool-cases, List, [], ◌∷◌, Option,
  none, some, length, All, All-map, int_max, if◌then◌else◌, map, ◌==◌,
}
use toy_dfs.Bytes.{Bytes, bytes_eq}
use toy_dfs.Grpc.{status_ok}
use toy_dfs.MetadataStore.{ChunkInfo, FileMeta}
use toy_dfs.MetadataStore.Files.{file_at}
use toy_dfs.Coordinator.{Coordinator}
use toy_dfs.Coordinator.Client.{IsReliable}
use toy_dfs.Coordinator.Environment.{Environment}
use toy_dfs.Coordinator.Upload.{file_meta}
use toy_dfs.Coordinator.Download.{get_file}
use toy_dfs.Coordinator.Download.Stream.{joined}
use toy_dfs.Coordinator.RoundTrip.{get_file_entered}
use toy_dfs.Coordinator.Concurrent.{
  Stage, started, looping, succeeded, failed, undefined, Call, interleave,
}
use toy_dfs.Coordinator.Concurrent.Sound.{
  upload_of, IsFresh, CallKept, Kept, CallSound-CallKept, interleave-AllSound, IsFresh-CallSound,
}
use toy_dfs.Coordinator.Concurrent.Entered.{entry_of, entry_for, Shows, interleave-Shows}

module _ {W : Type 0} (env : Environment W) (reliable : IsReliable env.client) where
  -- A download of `path` gives the data of one of the calls for that path that report success.
  abbrev pub IsServed : Bytes → List Call → Coordinator → W → Type 0
  IsServed path calls c w =
      (call : Call) × (chunks : List ChunkInfo) × Memᴰ call calls
      × (call.filename ≡ path)
      × (call.stage ≡ succeeded chunks)
      × (let (st, messages, c', w') = get_file env.client path (length chunks) c w in
          (st ≡ status_ok) × (joined messages ≡ call.file_data))

  -- The chunks of a call that has entered a file.
  entry_of-succeeded :
      (file_data : Bytes) (stage : Stage) (m : FileMeta)
      → entry_of file_data stage ≡ some m
      → (chunks : List ChunkInfo) × (stage ≡ succeeded chunks)
        × (some m ≡ some (file_meta (length file_data) chunks))
  entry_of-succeeded file_data (succeeded chunks) m e = (chunks, refl, sym e)
  entry_of-succeeded file_data started m e = cc
  entry_of-succeeded file_data (looping n i chunks) m e = cc
  entry_of-succeeded file_data (failed st) m e = cc
  entry_of-succeeded file_data undefined m e = cc

  CallKept-IsServed :
      (path : Bytes) (call : Call) (calls : List Call) (m : FileMeta) (c : Coordinator) (w : W)
      → Memᴰ call calls
      → CallKept env reliable c w call
      → some m ≡ entry_for path call
      → file_at c.store path ≡ some m
      → IsServed path calls c w
  CallKept-IsServed path call calls m c w there kept e now =
      elim (Bool-cases (call.filename == path)) [
        | inl here ↦
            let (chunks, ended, same) =
              entry_of-succeeded call.file_data call.stage m
                (sym (e ∙ ap (λ b. if b then entry_of call.file_data call.stage else none) here)) in
            let (st, messages) =
              get_file_entered env reliable path (length chunks)
                (file_meta (length call.file_data) chunks) c w (now ∙ same) in
            let (ok, all) : Kept env reliable c w call.file_data (succeeded chunks) =
              subst (Kept env reliable c w call.file_data) ended kept in
            (
              call,
              chunks,
              there,
              (bytes_eq.equal_iff call.filename path).0 here,
              ended,
              (st ∙ ok, ap joined messages ∙ all),
            )
        | inr elsewhere ↦ absurd (
            some_is_entered
              (e ∙ ap (λ b. if b then entry_of call.file_data call.stage else none) elsewhere))
      ]
    where
      some_is_entered : some m ≡ none → ⊥
      some_is_entered h = cc

  Shows-IsServed :
      (path : Bytes) (calls : List Call) (m : FileMeta) (c : Coordinator) (w : W)
      → All (CallKept env reliable c w) calls
      → Memᴰ (some m) (map (entry_for path) calls)
      → file_at c.store path ≡ some m
      → IsServed path calls c w
  Shows-IsServed path [] m c w kept there now = elim there [ ]
  Shows-IsServed path (call ∷ calls) m c w kept (Memᴰ.head e) now =
      CallKept-IsServed path call (call ∷ calls) m c w (Memᴰ.head refl) kept.0 e now
  Shows-IsServed path (call ∷ calls) m c w kept (Memᴰ.tail n) now =
      let (it, chunks, there, name, ended, download) =
        Shows-IsServed path calls m c w kept.1 n now in
      (it, chunks, Memᴰ.tail there, name, ended, download)

  none_entered :
      (path : Bytes) (calls : List Call)
      → All IsFresh calls
      → All (λ (o : Option FileMeta). o ≡ none) (map (entry_for path) calls)
  none_entered path [] fresh = tt
  none_entered path (call ∷ calls) fresh = (
    elim (Bool-cases (call.filename == path)) [
      | inl here ↦ rw (here, fresh.0.0) refl
      | inr elsewhere ↦ rw elsewhere refl
    ],
    none_entered path calls fresh.1,
  )

  none_for :
      (path : Bytes) (calls : List Call)
      → All (λ (o : Option FileMeta). o ≡ none) (map (entry_for path) calls)
      → All (λ call. entry_for path call ≡ none) calls
  none_for path [] h = tt
  none_for path (call ∷ calls) h = (h.0, none_for path calls h.1)

  -- Let the data nodes be reliable. However the lookups, rounds and entries of any number of uploads
  -- of at most 2 GiB each are interleaved, by a schedule so short that the chunk numbers stay in the
  -- range of `int`: none runs into undefined behaviour; each keeps its name and its data; a read of
  -- the chunks of each that reports success gives exactly its own data, whatever the others have done
  -- since; and at any path, either some upload to it has reported success, and a download of the path
  -- through a stream that takes all chunks returns OK and exactly the data of one such upload, or none
  -- has, and the path names what it did before.
  pub interleave-IsServed :
      (path : Bytes) (schedule : List ℕ) (calls : List Call) (c : Coordinator) (w : W)
      → All IsFresh calls
      → c.chunk_id_counter + length schedule ≤ int_max
      → let (calls', c', w') = interleave env schedule calls c w in
        All (CallKept env reliable c' w') calls'
        × (map upload_of calls' ≡ map upload_of calls)
        × (IsServed path calls' c' w'
            ⊎ (All (λ call. entry_for path call ≡ none) calls'
                × (file_at c'.store path ≡ file_at c.store path)))
  interleave-IsServed path schedule calls c w fresh room =
      let (calls', c', w') = interleave env schedule calls c w in
      let (sound, same) =
        interleave-AllSound env reliable schedule calls c w room
          (All-map IsFresh _ (IsFresh-CallSound env reliable c w) calls fresh) in
      let kept = All-map _ _ (CallSound-CallKept env reliable c' w') calls' sound in
      (
        kept,
        same,
        shown calls' c' w' kept (
            interleave-Shows env path (file_at c.store path) schedule calls c w
              (inr (none_entered path calls fresh, refl))),
      )
    where
      shown :
          (calls' : List Call) (c' : Coordinator) (w' : W)
          → All (CallKept env reliable c' w') calls'
          → Shows path (file_at c.store path) c'.store (map (entry_for path) calls')
          → IsServed path calls' c' w'
            ⊎ (All (λ call. entry_for path call ≡ none) calls'
                × (file_at c'.store path ≡ file_at c.store path))
      shown calls' c' w' kept (inl (m, there, now)) =
          inl (Shows-IsServed path calls' m c' w' kept there now)
      shown calls' c' w' kept (inr (nothing, before)) = inr (none_for path calls' nothing, before)
