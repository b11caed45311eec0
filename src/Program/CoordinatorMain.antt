-- ===== src/Program/CoordinatorMain.antt =====
-- The coordinator's program (coordinator/src/main.cpp).
use toy_dfs.Prelude.{ℕ, List, [], ◌∷◌, ◌++◌, if◌then◌else◌, ◌==◌, nat_eq}
use toy_dfs.Bytes.{Bytes, codes}
use toy_dfs.Server.Lifecycle.{ServerBuilder, create_server, start_server, wait, is_running}
use toy_dfs.Program.{Ending, exit, Output, out, err, line}

-- The text of `print_usage`, line by line.
unfoldable pub print_usage : Bytes → List Output
print_usage program_name =
    out (line (codes "Coordinator - Distributed File System Coordinator Server"))
    ∷ (out (line [])
        ∷ (out (line (codes "Usage: " ++ (program_name ++ (codes " [options]"))))
            ∷ (out (line [])
                ∷ (out (line (codes "Options:"))
                    ∷ (out (
                          line (
                            codes
                              "  -l, --listen-address ADDR    Address to listen on (default: 0.0.0.0:50051)"))
                        ∷ (out
                              (line (codes "  -h, --help                   Show this help message"))
                            ∷ (out (line [])
                                ∷ (out (line (codes "Examples:"))
                                    ∷ (out (
                                          line (
                                            codes "  "
                                            ++ (program_name
                                                ++ (codes
                                                    "                           # Use default address"))))
                                        ∷ (out (
                                              line (
                                                codes "  "
                                                ++ (program_name
                                                    ++ (codes
                                                        " -l localhost:50051         # Specify listen address"))))
                                            ∷ (out (
                                                  line (
                                                    codes "  "
                                                    ++ (program_name
                                                        ++ (codes
                                                            " --listen-address 0.0.0.0:50051  # Specify listen address"))))
                                                ∷ [])))))))))))

-- `parse_opts` exits, or it comes to its closing brace. It is declared to return an `int` and does
-- not, so its call is undefined there; `main` goes on as if it had returned.
pub data Parsed : Type 0 where
  exited : ℕ → List Output → Parsed
  fell_off : Bytes → Parsed

abbrev no_positional : Bytes → List Output
no_positional program_name =
    err (line (codes "Error: Positional arguments are not supported."))
    ∷ (err (line (codes "Please use --listen-address or -l to specify the server address."))
        ∷ (err (line [])
            ∷ (err (line (codes "Example:"))
                ∷ (err (line (codes "  Old: " ++ (program_name ++ codes " localhost:50051")))
                    ∷ (err (line (codes "  New: " ++ (program_name ++ codes " -l localhost:50051")))
                        ∷ (err (line []) ∷ print_usage program_name))))))

abbrev positional : Bytes → List Bytes → Bytes → Parsed
positional program_name [] server_address = fell_off server_address
positional program_name (arg ∷ args) server_address = exited 1 (no_positional program_name)

unfoldable pub parse_opts : Bytes → List (ℕ × Bytes) → List Bytes → Bytes → Parsed
parse_opts program_name [] args server_address = positional program_name args server_address
parse_opts program_name ((opt, optarg) ∷ opts) args server_address =
    let rest = parse_opts program_name opts args optarg in
    if opt == b'l'
    then rest
    else if opt == b'h'
    then exited 0 (print_usage program_name)
    else exited 1 (print_usage program_name)

module _ {G S : Type 0} (grpc : ServerBuilder G S) where
  -- What `main` does at this address.
  unfoldable pub serve_at : Bytes → S → Ending × List Output × S
  serve_at server_address s =
      let (server, s') = start_server grpc (create_server server_address) s in
      if is_running server
      then (
        exit 0,
        out (line (codes "Coordinator listening on " ++ server_address)) ∷ [],
        wait grpc server s',
      )
      else (exit 1, err (line (codes "Fatal error starting server")) ∷ [], s')

  unfoldable pub main : Bytes → List (ℕ × Bytes) → List Bytes → S → Ending × List Output × S
  unfolding parse_opts serve_at
  main program_name opts args s = elim (parse_opts program_name opts args (codes "0.0.0.0:50051")) [
    | exited code output ↦ (exit code, output, s)
    | fell_off server_address ↦ serve_at server_address s
  ]
