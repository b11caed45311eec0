-- ===== src/Coordinator/Worker/Tests.antt =====
-- The cleanup thread of the sample service.
use toy_dfs.Prelude.{
  ℕ, zero, suc, ◌≡◌, refl, true, List, [], ◌∷◌, ◌++◌, none, pos, arith, to_int32, increment,
}
use toy_dfs.Bytes.{Bytes, codes, bytes_beq, rfind_byte}
use toy_dfs.Table.{find, insert}
use toy_dfs.MetadataStore
use toy_dfs.Coordinator.{Coordinator, init}
use toy_dfs.Coordinator.Samples.{Disk, disk_client-IsReliable, env}
use toy_dfs.Coordinator.Placement.{select_nodes}
use toy_dfs.Coordinator.Distribution.{distribute, pending, fill}
use toy_dfs.Coordinator.Registry.{register_data_node, extract_client_address}
use toy_dfs.Coordinator.Upload.{put_file, put_chunks, chunk_at}
use toy_dfs.Coordinator.Deletion.{delete_file, cleanup_round}
use toy_dfs.Coordinator.System.{Request, upload, delete, join, Answer, handle}
use toy_dfs.Coordinator.System.Spec.{Contents, Trace}
use toy_dfs.Coordinator.Worker
use toy_dfs.Coordinator.Worker.{
  Place, at_while, at_for, at_cleanup, joining, destroyed, serving, Service, at, work, work_all,
  serve, stop,
}
use toy_dfs.Coordinator.Worker.Cycle.{work_all_lem}
use toy_dfs.Coordinator.Worker.Ends.{join-work_all}
use toy_dfs.Coordinator.Worker.Threads.{
  Execution, begin, idles, serves, stops, fresh, Execution-Trace,
}

abbrev greeting : Bytes
greeting = codes "/greeting"

-- A data node joins, a file is stored and deleted.
abbrev calls : List Request
calls =
    join (codes "ipv4:10.0.0.1:40000") (pos 5001)
    ∷ (upload ((record { filename = greeting; content = codes "hi" }) ∷ [])
        ∷ (delete 1000 1001 greeting ∷ []))

abbrev joined_once : Answer × Service Disk
joined_once = serve env (join (codes "ipv4:10.0.0.1:40000") (pos 5001)) (fresh env [])

abbrev stored_once : Answer × Service Disk
stored_once =
    serve env (upload ((record { filename = greeting; content = codes "hi" }) ∷ [])) joined_once.1

abbrev deleted_once : Answer × Service Disk
deleted_once = serve env (delete 1000 1001 greeting) stored_once.1

abbrev answers : List Answer
answers = joined_once.0 ∷ (stored_once.0 ∷ (deleted_once.0 ∷ []))

deleting : Execution env [] calls answers deleted_once.1
unfolding serve
deleting = serves _ refl (serves _ refl (serves _ refl begin))

-- The thread that the deletion started tests the flag, and then the destructor clears it.
abbrev stopped : Service Disk
stopped = stop (work env 2000 deleted_once.1)

stopping : Execution env [] calls answers stopped
unfolding codes bytes_beq handle register_data_node extract_client_address put_file init
    MetadataStore.get_file find put_chunks to_int32 select_nodes chunk_at distribute pending fill
    insert rfind_byte increment serve work stop delete_file MetadataStore.put_file
stopping =
    stops {s = work env 2000 deleted_once.1} refl
      (idles {s = deleted_once.1} 2000 (λ e. cc) deleting)

Execution-Trace_example : (files : Contents) × Trace (λ path. none) calls answers files
unfolding codes
Execution-Trace_example =
    Execution-Trace env disk_client-IsReliable [] calls answers stopped
      (tt, (omega arith, (tt, tt))) (omega arith) stopping

join-work_all_example :
    (Worker.join (work_all env (3000 ∷ (3001 ∷ (3002 ∷ []))) stopped)).phase ≡ destroyed
unfolding codes bytes_beq handle register_data_node extract_client_address put_file init
    MetadataStore.get_file find put_chunks to_int32 select_nodes chunk_at distribute pending fill
    insert rfind_byte increment serve work stop delete_file MetadataStore.put_file
join-work_all_example =
    join-work_all env [] calls answers stopped (3000 ∷ (3001 ∷ (3002 ∷ []))) refl (omega arith)
      stopping

abbrev seconds : ℕ → List ℕ
seconds zero = []
seconds (suc n) = n ∷ seconds n

abbrev flagged : Coordinator
flagged = record init { running = true }

work_all_lem_example :
    let (c', w', log) = cleanup_round env.client 64 flagged [] in
    work_all env (0 ∷ (seconds 120 ++ (61 ∷ (62 ∷ (64 ∷ []))))) (at flagged [] at_while serving)
    ≡ at c' w' at_while serving
work_all_lem_example = work_all_lem env 0 61 62 64 (seconds 120) flagged [] serving refl refl
