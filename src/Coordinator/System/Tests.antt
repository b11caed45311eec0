-- ===== src/Coordinator/System/Tests.antt =====
-- A short life of the service on the sample data nodes.
use toy_dfs.Prelude.{◌≡◌, refl, List, [], ◌∷◌, ◌++◌, none, pos, arith, to_int32, increment}
use toy_dfs.Bytes.{Bytes, codes, bytes_beq, rfind_byte}
use toy_dfs.Grpc.{status_ok, PutFileRequest}
use toy_dfs.Table.{find, insert}
use toy_dfs.MetadataStore
use toy_dfs.Coordinator.{Coordinator, init}
use toy_dfs.Coordinator.Samples.{Disk, disk_client-IsReliable, env}
use toy_dfs.Coordinator.Placement.{select_nodes}
use toy_dfs.Coordinator.Distribution.{distribute, pending, fill}
use toy_dfs.Coordinator.Registry.{register_data_node, extract_client_address}
use toy_dfs.Coordinator.Upload.{put_file, put_chunks, chunk_at, PutResult}
use toy_dfs.Coordinator.Download.{get_file}
use toy_dfs.Coordinator.Download.Stream.{joined}
use toy_dfs.Coordinator.System.{
  Request, upload, download, delete, join, cleanup, Answer, run, handle,
}
use toy_dfs.Coordinator.System.Spec.{Contents, Trace}
use toy_dfs.Coordinator.System.Refinement.{run-Trace}
use toy_dfs.Coordinator.System.Lasting.{run-lasting}

abbrev greeting : Bytes
greeting = codes "/greeting"

abbrev send : Bytes → Bytes → PutFileRequest
send name bytes = record { filename = name; content = bytes }

abbrev register_two : List Request
register_two =
    join (codes "ipv4:10.0.0.1:40000") (pos 5001)
    ∷ (join (codes "ipv4:10.0.0.2:40000") (pos 5001) ∷ [])

-- A file is uploaded twice, read through a stream that breaks at once, and deleted; another file
-- stays.
abbrev history : List Request
history =
    register_two
    ++ (upload (send greeting (codes "hello") ∷ (send [] (codes " you") ∷ []))
        ∷ (upload (send greeting (codes "again") ∷ [])
            ∷ (upload (send (codes "/b") (codes "bye") ∷ [])
                ∷ (download greeting 0
                    ∷ (delete 1000 1001 greeting
                        ∷ (cleanup 300000001001
                            ∷ (download greeting 2048 ∷ (download (codes "/b") 2048 ∷ []))))))))

run-Trace_example :
    let (answers, c', w') = run env history init [] in
    (files : Contents) × Trace (λ path. none) history answers files
unfolding codes
run-Trace_example =
    run-Trace env disk_client-IsReliable history []
      (tt, (tt, (omega arith, (omega arith, (omega arith, (tt, (tt, (tt, (tt, (tt, tt))))))))))
      (omega arith)

-- The second upload, the download of the deleted file and that of the other one.
abbrev during : List Request
during =
    upload (send (codes "/b") (codes "bye") ∷ [])
    ∷ (upload (send greeting (codes "again") ∷ [])
        ∷ (delete 1000 1001 (codes "/b") ∷ (cleanup 300000001001 ∷ [])))

abbrev started : List Answer × Coordinator × Disk
started = run env register_two init []

abbrev stored : PutResult × Coordinator × Disk
stored = put_file env (send greeting (codes "hello") ∷ []) started.1 started.2

run-lasting_example :
    let (answers', c3, w3) = run env during stored.1 stored.2 in
    let (st, messages, c4, w4) = get_file env.client greeting 2048 c3 w3 in
    (st ≡ status_ok) × (joined messages ≡ codes "hello")
unfolding codes bytes_beq run handle register_data_node extract_client_address put_file init
    MetadataStore.get_file find put_chunks to_int32 select_nodes chunk_at distribute pending fill
    insert rfind_byte increment
run-lasting_example =
    run-lasting env disk_client-IsReliable register_two during (send greeting (codes "hello")) []
      2048 [] (tt, (tt, tt)) (omega arith) (omega arith, (omega arith, (tt, (tt, tt))))
      (tt, (tt, (refl, (tt, tt)))) (omega arith) (omega arith) refl
