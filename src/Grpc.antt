-- ===== src/Grpc.antt =====
-- What the program uses of gRPC: the status of a call, and the messages of proto/coordinator and
-- proto/datanode. A handler that throws does not return a status: gRPC answers for it.
use toy_dfs.Prelude.{Bool, true, false, ℤ}
use toy_dfs.Bytes.{Bytes, codes}

-- grpc::StatusCode
pub data StatusCode : Type 0 where
  ok cancelled unknown invalid_argument deadline_exceeded not_found already_exists : StatusCode
  permission_denied resource_exhausted failed_precondition aborted out_of_range : StatusCode
  unimplemented internal unavailable data_loss unauthenticated : StatusCode

-- grpc::Status
pub record Status : Type 0 where
  pub code : StatusCode
  pub message : Bytes

-- status.ok()
abbrev pub is_ok_code : StatusCode → Bool
is_ok_code StatusCode.ok = true
is_ok_code _ = false

abbrev pub is_ok : Status → Bool
is_ok s = is_ok_code s.code

-- Status::OK
abbrev pub status_ok : Status
status_ok = record { code = ok; message = codes "" }

abbrev pub status : StatusCode → Bytes → Status
status c m = record { code = c; message = m }

pub record PutFileRequest : Type 0 where
  pub filename : Bytes
  pub content : Bytes

pub record RegisterResponse : Type 0 where
  pub success : Bool
  pub node_id : ℤ
  pub error_message : Bytes

pub record UnregisterResponse : Type 0 where
  pub success : Bool
  pub error_message : Bytes

pub record PutChunkRequest : Type 0 where
  pub chunk_id : Bytes
  pub content : Bytes

pub record DeleteChunkResponse : Type 0 where
  pub success : Bool
  pub error_message : Bytes
