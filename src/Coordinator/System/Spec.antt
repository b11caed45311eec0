-- ===== src/Coordinator/System/Spec.antt =====
-- The contract: a partial map from paths to contents, and which answers it allows.
use toy_dfs.Prelude.{
  ℕ, ◌≡◌, ◌≢◌, ◌<◌, true, false, List, [], ◌∷◌, ◌++◌, Option, none, some, if◌then◌else◌, ◌==◌, ℤ,
}
use toy_dfs.Bytes.{Bytes, codes, bytes_eq}
use toy_dfs.Grpc.{
  Status, status, status_ok, not_found, internal, already_exists, PutFileRequest, RegisterResponse,
}
use toy_dfs.MetadataStore.{is_some}
use toy_dfs.Coordinator.Upload.{PutResult, returned, read_data}
use toy_dfs.Coordinator.Upload.Chunks.{max_chunks}
use toy_dfs.Coordinator.Download.Stream.{joined}
use toy_dfs.Coordinator.Deletion.{Event}
use toy_dfs.Coordinator.System.{Request, Answer}

abbrev pub Contents : Type 0
Contents = Bytes → Option Bytes

abbrev pub assign : Bytes → Option Bytes → Contents → Contents
assign path content files = λ other. if path == other then content else files other

-- An upload to a path that names a file is refused for that reason.
abbrev pub Explained : Contents → List PutFileRequest → PutResult → Type 0
Explained files [] r = Unit {0}
Explained files (req ∷ reqs) r =
    is_some (files req.filename) ≡ true
    → r ≡ returned (status already_exists (codes "File exists")) false

-- `Allowed files request answer files'`: to this request the contract lets a service that holds
-- `files` give this answer, and then it holds `files'`.
pub data Allowed (files : Contents) : Request → Answer → Contents → Type 0 where
  stores :
      (req : PutFileRequest) (reqs : List PutFileRequest)
      → files req.filename ≡ none
      → Allowed files
          (Request.upload (req ∷ reqs))
          (Answer.uploaded (returned status_ok true))
          (assign req.filename (some (read_data (req ∷ reqs))) files)
  -- A failed upload has no effect.
  stores_nothing :
      (reqs : List PutFileRequest) (r : PutResult)
      → r ≢ returned status_ok true
      → Explained files reqs r
      → Allowed files (Request.upload reqs) (Answer.uploaded r) files
  sends :
      (path content : Bytes) (quota : ℕ) (messages : List Bytes)
      → files path ≡ some content
      → joined messages ≡ content
      → Allowed files (Request.download path quota) (Answer.sent status_ok messages) files
  -- Only a stream that breaks before the last chunk cuts a file short.
  breaks :
      (path content rest : Bytes) (quota : ℕ) (st : Status) (messages : List Bytes)
      → files path ≡ some content
      → quota < max_chunks
      → st.code ≡ internal
      → content ≡ joined messages ++ rest
      → Allowed files (Request.download path quota) (Answer.sent st messages) files
  sends_nothing :
      (path : Bytes) (quota : ℕ)
      → files path ≡ none
      → Allowed files
          (Request.download path quota)
          (Answer.sent (status not_found (codes "File not found")) [])
          files
  deletes :
      (now later : ℕ) (path content : Bytes)
      → files path ≡ some content
      → Allowed files
          (Request.delete now later path)
          (Answer.deleted status_ok true)
          (assign path none files)
  deletes_nothing :
      (now later : ℕ) (path : Bytes)
      → files path ≡ none
      → Allowed files
          (Request.delete now later path)
          (Answer.deleted (status not_found (codes "File not found")) false)
          files
  joins :
      (peer : Bytes) (port : ℤ) (resp : RegisterResponse)
      → Allowed files (Request.join peer port) (Answer.joined resp) files
  cleans :
      (now : ℕ) (log : List Event) → Allowed files (Request.cleanup now) (Answer.cleaned log) files

pub data Trace : Contents → List Request → List Answer → Contents → Type 0 where
  done : {files : Contents} → Trace files [] [] files
  next :
      {r : Request} {rs : List Request} {answer : Answer} {answers : List Answer}
      {files files' files'' : Contents}
      → Allowed files r answer files'
      → Trace files' rs answers files''
      → Trace files (r ∷ rs) (answer ∷ answers) files''
