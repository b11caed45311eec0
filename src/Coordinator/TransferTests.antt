-- ===== src/Coordinator/TransferTests.antt =====
-- Uploads, downloads and deletions on the sample cluster.
use mathlib.Core.Bool.{false≢true}
use mathlib.Core.List.{Mem, Nodup, Nodup-cons, Nodup-nil, mem-cons, not-mem-nil}
use mathlib.Core.Logic.Or
use toy_dfs.Prelude.{
  ℕ, zero, suc, ◌≡◌, ◌≢◌, refl, ap, Bool, true, false, not, ◌&&◌, List, [], ◌∷◌, ◌++◌, none, some,
  ℤ, pos, pos_part, is_positive, length, if◌then◌else◌, All, arith, map, filter_by, ◌==◌, int_eq,
  to_int32,
}
use toy_dfs.Bytes.{Bytes, codes, bytes_eq, bytes_beq, is_empty}
use toy_dfs.Bytes.Decimal.{to_string_nat}
use toy_dfs.Grpc.{status, status_ok, internal, not_found, PutFileRequest}
use toy_dfs.Table.{find}
use toy_dfs.MetadataStore
use toy_dfs.MetadataStore.{is_some, is_expired}
use toy_dfs.MetadataStore.Files.{file_at}
use toy_dfs.MetadataStore.Tombstones.{is_fresh}
use toy_dfs.Coordinator.{Coordinator, init}
use toy_dfs.Coordinator.Client.{chunk_name}
use toy_dfs.Coordinator.Samples.{Disk, disk_client, disk_client-IsReliable, env, cluster}
use toy_dfs.Coordinator.Placement.{select_nodes}
use toy_dfs.Coordinator.Placement.RoundRobin.{
  select_nodes_registered, select_nodes-Nodup, select_nodes_turn,
}
use toy_dfs.Coordinator.Distribution.{
  distribute, distribute_to_single, pending, fill, collect_errors,
}
use toy_dfs.Coordinator.Distribution.Replicas.{HasReplica, distribute-HasReplica}
use toy_dfs.Coordinator.Distribution.Completion.{distribute-Writable}
use toy_dfs.Coordinator.Upload.{
  chunk_at, put_chunks, put_file, PutResult, returned, undefined, read_data,
}
use toy_dfs.Coordinator.Upload.Chunks.{chunk_at-piece, piece}
use toy_dfs.Coordinator.Upload.Defined.{put_file-defined}
use toy_dfs.Coordinator.Upload.Failure.{put_file_atomic, put_file_too_large}
use toy_dfs.Coordinator.Download.{read_chunk_with_fallback, get_file}
use toy_dfs.Coordinator.Download.Fallback.{
  read_chunk_with_fallback_lem, read_chunk_with_fallback_down,
}
use toy_dfs.Coordinator.Download.Stream.{joined}
use toy_dfs.Coordinator.RoundTrip.{get_file-put_file}
use toy_dfs.Coordinator.Deletion.{delete_file, cleanup_round}
use toy_dfs.Coordinator.Deletion.Laws.{
  delete_file_lem, cleanup_round_lem, target, replicas_of_all, IsUnconfirmed, remove_all,
}

select_nodes_registered_example :
    let ids = (select_nodes env.iteration (pos 3) cluster).0 in
    (length ids ≡ (
      if is_positive (pos 3) && not (is_empty cluster.registered_nodes)
      then pos_part (pos 3)
      else 0))
    × All (λ id. find id cluster.registered_nodes ≢ none) ids
select_nodes_registered_example = select_nodes_registered env.iteration cluster (pos 3)

pos-apart : (a b : ℕ) → a ≢ b → pos a ≢ pos b
pos-apart a b n e = n (ap pos_part e)

select_nodes_turn_example :
    let (first, c') = select_nodes env.iteration (pos 3) cluster in
    (x : ℤ) × (shared : List ℤ) × (y : ℤ) × (first ≡ x ∷ shared)
    × ((select_nodes env.iteration (pos 3) c').0 ≡ shared ++ y ∷ [])
unfolding init
select_nodes_turn_example = select_nodes_turn env.iteration 2 cluster (omega arith) (omega arith)

abbrev hello : Bytes
hello = codes "hello"

abbrev three : List ℤ
three = pos 1 ∷ (pos 2 ∷ (pos 3 ∷ []))

distribute-HasReplica_example :
    All
      (HasReplica disk_client cluster.registered_nodes
        (chunk_name 0)
        hello
        (distribute disk_client cluster.registered_nodes (chunk_name 0) hello (2 ∷ []) three []).1)
      three
unfolding distribute find pending fill collect_errors init
distribute-HasReplica_example =
    distribute-HasReplica disk_client disk_client-IsReliable cluster.registered_nodes (chunk_name 0)
      hello (2 ∷ []) three [] refl

distribute-Writable_example :
    (distribute disk_client cluster.registered_nodes (chunk_name 0) hello (2 ∷ []) three []).0
    ≡ status_ok
unfolding distribute_to_single find
distribute-Writable_example =
    distribute-Writable disk_client cluster.registered_nodes (chunk_name 0) hello (2 ∷ []) (pos 1)
      (pos 2 ∷ (pos 3 ∷ [])) [] ((λ w. refl), ((λ w. refl), ((λ w. refl), tt)))

chunk_at-piece_example : chunk_at 0 hello ≡ some (piece 0 hello)
chunk_at-piece_example = chunk_at-piece 0 hello (omega arith)

abbrev request : Bytes → Bytes → PutFileRequest
request filename content = record { filename = filename; content = content }

abbrev greeting : Bytes
greeting = codes "greeting"

abbrev upload : PutResult × Coordinator × Disk
upload = put_file env (request greeting hello ∷ (request [] (codes " you") ∷ [])) cluster []

upload_done : upload.0 ≡ returned status_ok true
unfolding put_file init codes MetadataStore.get_file find put_chunks to_int32 select_nodes chunk_at
    distribute pending fill
upload_done = refl

-- Nobody is registered.
put_file_atomic_example :
    file_at (put_file env (request greeting hello ∷ []) init []).1.store greeting
    ≡ file_at init.store greeting
unfolding put_file init codes MetadataStore.get_file find put_chunks to_int32 select_nodes
put_file_atomic_example =
    put_file_atomic env (request greeting hello ∷ []) greeting init []
      λ e. absurd (false≢true (ap is_done e))
  where
    is_done : PutResult → Bool
    is_done (returned st success) = success
    is_done undefined = false

put_file-defined_example :
    (put_file env (request greeting hello ∷ []) cluster []).0 ≢ PutResult.undefined
unfolding codes
put_file-defined_example =
    put_file-defined env (request greeting hello ∷ []) cluster [] (omega arith)

zeros : ℕ → Bytes
zeros zero = []
zeros (suc n) = 0 ∷ zeros n

length-zeros : (n : ℕ) → length (zeros n ++ []) ≡ n
unfolding zeros
length-zeros zero = refl
length-zeros (suc n) = ap suc (length-zeros n)

put_file_too_large_example :
    (put_file env (request greeting (zeros 2147483649) ∷ []) cluster []).0 ≢ returned status_ok true
put_file_too_large_example =
    put_file_too_large env (request greeting (zeros 2147483649)) [] cluster []
      (rw (length-zeros 2147483649) (omega arith)) (rw (length-zeros 2147483649) (omega arith))

-- Node 9 is not registered.
read_chunk_with_fallback_lem_example :
    let (st, chunk_data, w') =
      read_chunk_with_fallback disk_client cluster.registered_nodes
        (chunk_name 0)
        (pos 9 ∷ (pos 2 ∷ []))
        ((chunk_name 0, hello) ∷ []) in
    (st ≡ status_ok) × (chunk_data ≡ hello)
unfolding find init bytes_beq chunk_name to_string_nat codes
read_chunk_with_fallback_lem_example =
    read_chunk_with_fallback_lem disk_client cluster.registered_nodes (chunk_name 0)
      disk_client-IsReliable hello (pos 9 ∷ []) (pos 2) [] ((chunk_name 0, hello) ∷ [])
      ((λ info w e. cc), tt)
      (
        record { node_id = pos 2; address = codes "10.0.0.1"; port = pos 2 },
        refl,
        record { reads = refl; same = refl },
      )

read_chunk_with_fallback_down_example :
    let (st, chunk_data, w') = read_chunk_with_fallback disk_client [] (chunk_name 0) three [] in
    (st.code ≡ internal) × (chunk_data ≡ [])
unfolding find
read_chunk_with_fallback_down_example =
    read_chunk_with_fallback_down disk_client [] (chunk_name 0) three []
      ((λ info w e. cc), ((λ info w e. cc), ((λ info w e. cc), tt)))

get_file-put_file_example :
    let (st, messages, c'', w'') = get_file disk_client greeting 2048 upload.1 upload.2 in
    (st ≡ status_ok)
    × (joined messages ≡ read_data (request greeting hello ∷ (request [] (codes " you") ∷ [])))
unfolding put_file init codes MetadataStore.get_file find put_chunks to_int32 select_nodes chunk_at
    distribute pending fill
get_file-put_file_example =
    get_file-put_file env disk_client-IsReliable (request greeting hello)
      (request [] (codes " you") ∷ []) 2048 cluster upload.1 [] upload.2 (omega arith) (omega arith)
      (omega arith) refl

delete_file_lem_example :
    let (st, success, c') = delete_file 1000 1001 greeting upload.1 in
    (success ≡ is_some (file_at upload.1.store greeting))
    × (st ≡ (if success then status_ok else status not_found (codes "File not found")))
    × (file_at c'.store greeting
        ≡ (if success && greeting == greeting then none else file_at upload.1.store greeting))
    × (success ≡ true → c'.running ≡ true)
delete_file_lem_example = delete_file_lem 1000 1001 greeting greeting upload.1

abbrev deleted : Coordinator
deleted = (delete_file 1000 1001 greeting upload.1).2

cleanup_round_lem_example :
    let (c', w', log) = cleanup_round disk_client 300000001500 deleted upload.2 in
    (map target log
      ≡ replicas_of_all (filter_by (is_expired 300000001500) deleted.store.deleted_entries))
    × All IsUnconfirmed log
    × (w'
        ≡ remove_all disk_client deleted.registered_nodes
            (replicas_of_all (filter_by (is_expired 300000001500) deleted.store.deleted_entries))
            upload.2)
    × (c'.store.deleted_entries ≡ filter_by (is_fresh 300000001500) deleted.store.deleted_entries)
    × (c'.store.entries ≡ deleted.store.entries)
cleanup_round_lem_example = cleanup_round_lem disk_client 300000001500 deleted upload.2

select_nodes-Nodup_example : Nodup (select_nodes env.iteration (pos 2) cluster).0
unfolding init
select_nodes-Nodup_example = select_nodes-Nodup env.iteration cluster 2 (omega arith) (
    Nodup-cons.1 (
      (λ m.
          one_of (pos 1) (pos 2) (pos 3 ∷ []) (pos-apart 1 2 (omega arith))
            (λ m'. one_of (pos 1) (pos 3) [] (pos-apart 1 3 (omega arith)) not-mem-nil m') m),
      Nodup-cons.1 (
        (λ m. one_of (pos 2) (pos 3) [] (pos-apart 2 3 (omega arith)) not-mem-nil m),
        Nodup-cons.1 (not-mem-nil, Nodup-nil),
      ),
    ))
  where
    one_of : (x y : ℤ) (ys : List ℤ) → x ≢ y → ¬ Mem x ys → ¬ Mem x (y ∷ ys)
    one_of x y ys n k m = Or.elim (λ a b. absurd a) (mem-cons.0 m) n k
