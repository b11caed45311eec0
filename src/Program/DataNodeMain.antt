-- ===== src/Program/DataNodeMain.antt =====
-- The program of a data node (datanode/src/main.cpp).
use toy_dfs.Prelude.{ℕ, List, [], ◌∷◌, ◌++◌, none, some, ℤ, if◌then◌else◌, ◌==◌, nat_eq}
use toy_dfs.Bytes.{Bytes, codes}
use toy_dfs.Grpc.{Status, RegisterResponse}
use toy_dfs.Server.{create, start}
use toy_dfs.Server.Lifecycle.{ServerBuilder, create_server, start_server, wait}
use toy_dfs.Program.{Ending, exit, terminated, Output, out, err, line}

-- The text of `print_usage`, line by line.
unfoldable pub print_usage : Bytes → List Output
print_usage program_name =
    out (line (codes "DataNode - Distributed File System DataNode Server"))
    ∷ (out (line [])
        ∷ (out (line (codes "Usage: " ++ (program_name ++ (codes " [options]"))))
            ∷ (out (line [])
                ∷ (out (line (codes "Options:"))
                    ∷ (out (
                          line (
                            codes
                              "  -l, --listen-address ADDR    Address to listen on (default: 0.0.0.0:50052)"))
                        ∷ (out (
                              line (
                                codes
                                  "  -c, --coordinator-address ADDR  Coordinator address to connect to (default: localhost:50051)"))
                            ∷ (out (
                                  line
                                    (codes "  -h, --help                   Show this help message"))
                                ∷ (out (line [])
                                    ∷ (out (line (codes "Examples:"))
                                        ∷ (out (
                                              line (
                                                codes "  "
                                                ++ (program_name
                                                    ++ (codes
                                                        "                           # Use default addresses"))))
                                            ∷ (out (
                                                  line (
                                                    codes "  "
                                                    ++ (program_name
                                                        ++ (codes
                                                            " -l 0.0.0.0:50052           # Specify listen address only"))))
                                                ∷ (out (
                                                      line (
                                                        codes "  "
                                                        ++ (program_name
                                                            ++ (codes
                                                            " -c localhost:50051         # Specify coordinator address only"))))
                                                    ∷ (out (
                                                          line (
                                                            codes "  "
                                                            ++ (program_name
                                                            ++ (codes
                                                            " -l 0.0.0.0:50052 -c localhost:50051  # Specify both addresses"))))
                                                        ∷ [])))))))))))))

-- As in the coordinator's program. The addresses are those of the server and of the coordinator.
pub data Parsed : Type 0 where
  exited : ℕ → List Output → Parsed
  fell_off : Bytes → Bytes → Parsed

abbrev listed : List Bytes → Bytes
listed [] = []
listed (arg ∷ args) = arg ++ (codes " " ++ listed args)

abbrev unexpected : Bytes → List Bytes → Bytes → Bytes → Parsed
unexpected program_name [] server_address coordinator_address =
    fell_off server_address coordinator_address
unexpected program_name (arg ∷ args) server_address coordinator_address = exited 1 (
    err (line (codes "Error: Unexpected non-option arguments: " ++ listed (arg ∷ args)))
    ∷ print_usage program_name)

unfoldable pub parse_opts : Bytes → List (ℕ × Bytes) → List Bytes → Bytes → Bytes → Parsed
parse_opts program_name [] args server_address coordinator_address =
    unexpected program_name args server_address coordinator_address
parse_opts program_name ((opt, optarg) ∷ opts) args server_address coordinator_address =
    let listening = parse_opts program_name opts args optarg coordinator_address in
    let connecting = parse_opts program_name opts args server_address optarg in
    if opt == b'l'
    then listening
    else if opt == b'c'
    then connecting
    else if opt == b'h'
    then exited 0 (print_usage program_name)
    else exited 1 (print_usage program_name)

-- `rpc` registers with the coordinator at an address.
module _ {G S : Type 0} (grpc : ServerBuilder G S)
    (rpc : Bytes → ℤ → S → Status × RegisterResponse × S) where
  -- What `main` does at these addresses. The program ends by an exception where the port of its
  -- address is no number, registers whether or not gRPC could start, and never unregisters.
  unfoldable pub serve_at : Bytes → Bytes → S → Ending × List Output × S
  serve_at server_address coordinator_address s = elim (create server_address) [
    | none ↦ (terminated, [], s)
    | some node ↦
        let (server, s1) = start_server grpc (create_server server_address) s in
        let (node', s2) = start (rpc coordinator_address) node s1 in
        (
          exit 0,
          out (line (codes "DataNode listening on " ++ server_address))
              ∷ (out (line (codes "DataNode connecting to coordinator at " ++ coordinator_address))
                  ∷ []),
          wait grpc server s2,
        )
  ]

  unfoldable pub main : Bytes → List (ℕ × Bytes) → List Bytes → S → Ending × List Output × S
  unfolding parse_opts serve_at
  main program_name opts args s =
      elim (parse_opts program_name opts args (codes "0.0.0.0:50052") (codes "localhost:50051")) [
        | exited code output ↦ (exit code, output, s)
        | fell_off server_address coordinator_address ↦
            serve_at server_address coordinator_address s
      ]
