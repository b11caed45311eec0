-- ===== src/Program/Tests.antt =====
-- The client's program on the sample cluster.
use toy_dfs.Prelude.{
  ◌≡◌, refl, true, false, List, [], ◌∷◌, Option, some, pos, arith, to_int32, increment,
}
use toy_dfs.Bytes.{Bytes, codes, bytes_beq, rfind_byte}
use toy_dfs.Grpc.{status_ok}
use toy_dfs.Table.{find, insert}
use toy_dfs.MetadataStore
use toy_dfs.Coordinator.{Coordinator, init}
use toy_dfs.Coordinator.Samples.{Disk, disk_client-IsReliable, env}
use toy_dfs.Coordinator.Placement.{select_nodes}
use toy_dfs.Coordinator.Distribution.{distribute, pending, fill}
use toy_dfs.Coordinator.Registry.{register_data_node, extract_client_address}
use toy_dfs.Coordinator.Upload.{put_file, put_chunks, chunk_at}
use toy_dfs.Coordinator.System.{Request, download, join, cleanup, Answer, run, handle}
use toy_dfs.Client.{send_file, put_file_sync}
use toy_dfs.Program.{Ending, exit, Output, out}
use toy_dfs.Program.ClientMain.{Calls, main, parse_options, run_command}
use toy_dfs.Program.Service.{service}
use toy_dfs.Program.RoundTrip.{main_get-main_put}

abbrev greeting : Bytes
greeting = codes "/greeting"

-- Every local file says hello.
abbrev file : Bytes → Option Bytes
file path = some (codes "hello")

abbrev calls : Bytes → Calls (Coordinator × Disk)
calls address = service env file (λ j. true) 2048 (λ code. 2) 1000 1001 (status_ok, false)

abbrev before : List Request
before = join (codes "ipv4:10.0.0.1:40000") (pos 5001) ∷ []

abbrev during : List Request
during = download greeting 0 ∷ (cleanup 300000001001 ∷ [])

abbrev started : List Answer × Coordinator × Disk
started = run env before init []

abbrev put_greeting : Ending × List Output × (Coordinator × Disk)
put_greeting =
    main (codes "dfs_client") [] (codes "put" ∷ (greeting ∷ [])) calls (started.1, started.2)

main_get-main_put_example :
    let (answers', c3, w3) = run env during put_greeting.2.0 put_greeting.2.1 in
    let (ending', output', s') =
      main (codes "dfs_client") [] (codes "get" ∷ (greeting ∷ [])) calls (c3, w3) in
    (ending' ≡ exit 0) × (output' ≡ out (codes "hello") ∷ [])
unfolding codes bytes_beq run handle register_data_node extract_client_address put_file init
    MetadataStore.get_file find put_chunks to_int32 select_nodes chunk_at distribute pending fill
    insert rfind_byte increment send_file put_file_sync main parse_options run_command service
main_get-main_put_example =
    main_get-main_put env disk_client-IsReliable file (λ j. true) 2048 (λ code. 2) 1000 1001
      (status_ok, false) (codes "dfs_client") before during greeting (codes "hello") [] (λ j. refl)
      (omega arith) refl (omega arith) (tt, tt) (tt, (tt, tt)) (tt, (tt, tt)) (omega arith) refl
