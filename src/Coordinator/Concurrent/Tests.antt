-- ===== src/Coordinator/Concurrent/Tests.antt =====
-- Two uploads of one name at once on the sample cluster.
use toy_dfs.Prelude.{
  ℕ, ◌≡◌, refl, some, List, [], ◌∷◌, arith, All, map, to_int32, Bool, true, false, ◌⊎◌, none,
}
use toy_dfs.Bytes.{Bytes, codes, bytes_beq}
use toy_dfs.Table.{find}
use toy_dfs.MetadataStore
use toy_dfs.MetadataStore.Files.{file_at}
use toy_dfs.Coordinator.{init}
use toy_dfs.Coordinator.Placement.{select_nodes}
use toy_dfs.Coordinator.Distribution.{distribute, pending, fill}
use toy_dfs.Coordinator.Upload.{put_file, num_chunks, put_chunks, chunk_at}
use toy_dfs.Coordinator.Samples.{disk_client-IsReliable, env, cluster}
use toy_dfs.Coordinator.Concurrent.{Call, Stage, started, succeeded, step, step_at, interleave}
use toy_dfs.Coordinator.Concurrent.Alone.{turns, call_at, result_of, interleave-put_file}
use toy_dfs.Coordinator.Concurrent.Sound.{CallKept, upload_of}
use toy_dfs.Coordinator.Concurrent.Entered.{entry_for}
use toy_dfs.Coordinator.Concurrent.Served.{IsServed, interleave-IsServed}

abbrev upload : Bytes → Call
upload text = record { filename = codes "/greeting"; file_data = text; stage = started }

abbrev calls : List Call
calls = upload (codes "hello") ∷ (upload (codes "bye") ∷ [])

-- Both look the name up before either enters its file.
abbrev schedule : List ℕ
schedule = 0 ∷ (1 ∷ (1 ∷ (0 ∷ (0 ∷ (1 ∷ [])))))

interleave-IsServed_example :
    let (calls', c', w') = interleave env schedule calls cluster [] in
    All (CallKept env disk_client-IsReliable c' w') calls'
    × (map upload_of calls' ≡ map upload_of calls)
    × (IsServed env disk_client-IsReliable (codes "/greeting") calls' c' w'
        ⊎ (All (λ call. entry_for (codes "/greeting") call ≡ none) calls'
            × (file_at c'.store (codes "/greeting") ≡ file_at cluster.store (codes "/greeting"))))
unfolding codes init
interleave-IsServed_example =
    interleave-IsServed env disk_client-IsReliable (codes "/greeting") schedule calls cluster []
      ((refl, omega arith), ((refl, omega arith), tt)) (omega arith)

is_success : Stage → Bool
is_success (succeeded chunks) = true
is_success stage = false

-- Both report success, and the file of the second to finish has replaced that of the first.
both_succeed :
    map (λ (call : Call). is_success call.stage) (interleave env schedule calls cluster []).0
    ≡ true ∷ (true ∷ [])
unfolding is_success init codes interleave step_at step MetadataStore.get_file find num_chunks
    put_chunks to_int32 select_nodes chunk_at distribute pending fill bytes_beq
both_succeed = refl

interleave-put_file_example :
    let (alone, c', w') =
      interleave env
        (turns 3)
        (call_at (codes "/greeting") (codes "hello") started ∷ [])
        cluster
        [] in
    let (p, c'', w'') =
      put_file env
        ((record { filename = codes "/greeting"; content = codes "hello" }) ∷ [])
        cluster
        [] in
    (map (λ (call : Call). result_of call.stage) alone ≡ some p ∷ []) × (c' ≡ c'') × (w' ≡ w'')
unfolding codes num_chunks to_int32
interleave-put_file_example =
    interleave-put_file env (record { filename = codes "/greeting"; content = codes "hello" }) []
      cluster []
