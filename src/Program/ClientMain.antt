-- ===== src/Program/ClientMain.antt =====
-- The command line of the client (client/src/main.cpp).
use toy_dfs.Prelude.{ℕ, Bool, List, [], ◌∷◌, ◌++◌, if◌then◌else◌, ◌==◌, nat_eq}
use toy_dfs.Bytes.{Bytes, codes, bytes_eq}
use toy_dfs.Client.{Outcome, done, file_exists, no_such_file, failed}
use toy_dfs.Program.{Ending, exit, terminated, Output, out, err, line}

-- The text of `print_usage`, line by line.
unfoldable pub print_usage : Bytes → List Output
print_usage program_name =
    out (line (codes "DFS Client - Distributed File System Client"))
    ∷ (out (line [])
        ∷ (out (
              line (
                codes "Usage: "
                ++ (program_name ++ (codes " [options] <put|get|delete> <file_path>"))))
            ∷ (out (line [])
                ∷ (out (line (codes "Commands:"))
                    ∷ (out (line (codes "  put <file_path>     Upload a file to DFS"))
                        ∷ (out (line (codes "  get <file_path>     Download a file from DFS"))
                            ∷ (out (line (codes "  delete <file_path>  Delete a file from DFS"))
                                ∷ (out (line [])
                                    ∷ (out (line (codes "Options:"))
                                        ∷ (out (
                                              line (
                                                codes
                                                  "  -c, --coordinator-address ADDR  Coordinator address (default: localhost:50051)"))
                                            ∷ (out (
                                                  line (
                                                    codes
                                                      "  -h, --help                      Show this help message"))
                                                ∷ (out (line [])
                                                    ∷ (out (line (codes "Examples:"))
                                                        ∷ (out (
                                                            line (
                                                            codes "  "
                                                            ++ (program_name
                                                            ++ (codes
                                                            " put myfile.txt                    # Upload file (default coordinator)"))))
                                                            ∷ (out (
                                                            line (
                                                            codes "  "
                                                            ++ (program_name
                                                            ++ (codes
                                                            " get myfile.txt                    # Download file (default coordinator)"))))
                                                            ∷ (out (
                                                            line (
                                                            codes "  "
                                                            ++ (program_name
                                                            ++ (codes
                                                            " -c localhost:50051 put myfile.txt  # Upload with custom coordinator"))))
                                                            ∷ (out (
                                                            line (
                                                            codes "  "
                                                            ++ (program_name
                                                            ++ (codes
                                                            " --coordinator-address coordinator.example.com:50051 get myfile.txt"))))
                                                            ∷ [])))))))))))))))))

-- The loop over the options goes on with an address, or ends the program with a code.
pub data Parsed : Type 0 where
  go_on : Bytes → Parsed
  leave : ℕ → Parsed

unfoldable pub parse_options : List (ℕ × Bytes) → Bytes → Parsed
parse_options [] coordinator_address = go_on coordinator_address
parse_options ((opt, optarg) ∷ opts) coordinator_address =
    let rest = parse_options opts optarg in
    if opt == b'c' then rest else if opt == b'h' then leave 0 else leave 1

-- The three calls of a `DFSClient`, each with `get()` of its future.
pub record Calls (S : Type 0) : Type 0 where
  pub put : Bytes → S → Outcome Bool × S
  pub get : Bytes → S → Outcome Bytes × S
  pub delete : Bytes → S → Outcome Bool × S

-- An exception that the `catch` block passes on, or that it does not catch, ends the process.
abbrev pub after_put : Bytes → Outcome Bool → Ending × List Output
after_put file_path (done success) =
    if success
    then (exit 0, out (line (codes "Uploaded " ++ file_path)) ∷ [])
    else (exit 1, err (line (codes "Upload failed")) ∷ [])
after_put file_path file_exists = (exit 1, err (line (file_path ++ codes ": File exists")) ∷ [])
after_put file_path no_such_file = (terminated, [])
after_put file_path (failed text) = (terminated, [])

abbrev pub after_get : Bytes → Outcome Bytes → Ending × List Output
after_get file_path (done content) = (exit 0, out content ∷ [])
after_get file_path no_such_file =
    (exit 1, err (line (file_path ++ codes ": No such file or directory")) ∷ [])
after_get file_path file_exists = (terminated, [])
after_get file_path (failed text) = (terminated, [])

abbrev pub after_delete : Bytes → Outcome Bool → Ending × List Output
after_delete file_path (done result) =
    if result
    then (exit 0, out (line (file_path ++ codes " deleted successfully")) ∷ [])
    else (exit 1, err (line (codes "Unexpected error when deleting " ++ file_path)) ∷ [])
after_delete file_path no_such_file =
    (exit 1, err (line (file_path ++ codes ": No such file or directory")) ∷ [])
after_delete file_path file_exists = (terminated, [])
after_delete file_path (failed text) = (terminated, [])

abbrev hint : Bytes → List Output
hint program_name =
    out
      (line (codes "Usage: " ++ (program_name ++ codes " [options] <put|get|delete> <file_path>")))
    ∷ (out (line (codes "Use --help for more information.")) ∷ [])

module _ {S : Type 0} where
  -- The arguments from `optind` on.
  unfoldable pub run_command : Bytes → List Bytes → Calls S → S → Ending × List Output × S
  run_command program_name [] client s = (exit 1, hint program_name, s)
  run_command program_name (command ∷ []) client s = (exit 1, hint program_name, s)
  run_command program_name (command ∷ (file_path ∷ more)) client s =
      let (put_result, put_state) = client.put file_path s in
      let (get_result, get_state) = client.get file_path s in
      let (delete_result, delete_state) = client.delete file_path s in
      if command == codes "put"
      then (let (ending, output) = after_put file_path put_result in (ending, output, put_state))
      else if command == codes "get"
      then (let (ending, output) = after_get file_path get_result in (ending, output, get_state))
      else if command == codes "delete"
      then (let (ending, output) = after_delete file_path delete_result in
          (ending, output, delete_state))
      else (exit 1, out (line (codes "Unknown command: " ++ command)) ∷ [], s)

  -- `connect` makes a client of the coordinator at an address.
  unfoldable pub main :
      Bytes → List (ℕ × Bytes) → List Bytes → (Bytes → Calls S) → S → Ending × List Output × S
  unfolding parse_options run_command
  main program_name opts args connect s = elim (parse_options opts (codes "localhost:50051")) [
    | go_on coordinator_address ↦ run_command program_name args (connect coordinator_address) s
    | leave code ↦ (exit code, print_usage program_name, s)
  ]
