-- ===== src/Client/Tests.antt =====
-- A short file on its way.
use toy_dfs.Prelude.{List, [], ◌∷◌, some, arith, to_int32, true, ◌≡◌, refl, All, none}
use toy_dfs.Bytes.{Bytes, codes}
use toy_dfs.Grpc.{Status, StatusCode, status, status_ok, PutFileRequest}
use toy_dfs.Table.{find}
use toy_dfs.MetadataStore
use toy_dfs.MetadataStore.{is_some}
use toy_dfs.Coordinator.{Coordinator, init}
use toy_dfs.Coordinator.Samples.{Disk, disk_client-IsReliable, env, cluster}
use toy_dfs.Coordinator.Placement.{select_nodes}
use toy_dfs.Coordinator.Distribution.{distribute, pending, fill}
use toy_dfs.Coordinator.Download.{get_file}
use toy_dfs.Coordinator.Deletion.{delete_file}
use toy_dfs.Client.{request, send_file, put_file_sync, get_file_sync, delete_file_sync, done}
use toy_dfs.Client.Transfers.{IsBlock, send_file_lem, get_file_sync-put_file_sync}
use toy_dfs.Client.Deletions.{lost, deliver, IsTrue, delete_file_sync_lem}
use toy_dfs.Coordinator.Upload.{read_data, PutResult, put_file, put_chunks, chunk_at}

send_file_lem_example :
    let (reqs, failure) = send_file (codes "greeting") (codes "hello") (λ j. true) in
    (failure ≡ none)
    × (blocks : List PutFileRequest) × (reqs ≡ request (codes "greeting") [] ∷ blocks)
    × (read_data blocks ≡ codes "hello")
    × All (IsBlock (codes "greeting")) blocks
send_file_lem_example = send_file_lem (codes "greeting") (codes "hello") (λ j. true) (λ j. refl)

abbrev greeting : Bytes
greeting = codes "greeting"

abbrev hello : Bytes
hello = codes "hello"

abbrev upload : PutResult × Coordinator × Disk
upload = put_file env (send_file greeting hello (λ j. true)).0 cluster []

get_file_sync-put_file_sync_example :
    let (st, messages, c'', w'') = get_file env.client greeting 2048 upload.1 upload.2 in
    (put_file_sync greeting (some hello) (λ j. true) (λ reqs. (status_ok, true)) ≡ done tt)
    × (get_file_sync (st, messages) ≡ done hello)
unfolding put_file init codes MetadataStore.get_file find put_chunks to_int32 select_nodes chunk_at
    distribute pending fill send_file
get_file_sync-put_file_sync_example =
    get_file_sync-put_file_sync env disk_client-IsReliable greeting hello (λ j. true) 2048 cluster
      upload.1 [] upload.2 (λ j. refl) (omega arith) (omega arith) (omega arith) refl

-- The handler has deleted the file, but its answer was lost.
abbrev unavailable : Status
unavailable = status StatusCode.unavailable (codes "connection reset")

delete_file_sync_lem_example :
    let (st, success, c') =
      deliver (lost unavailable) (delete_file 1000 1001 greeting upload.1) upload.1 in
    IsTrue
      (lost unavailable)
      greeting
      greeting
      upload.1.store
      c'.store
      (delete_file_sync (λ code. 14) (st, success))
delete_file_sync_lem_example =
    delete_file_sync_lem (λ code. 14) (lost unavailable) 1000 1001 greeting greeting upload.1
      (refl, refl)
