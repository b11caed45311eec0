-- ===== src/Coordinator/System.antt =====
-- The service as its callers see it: any sequence of the handlers' calls and of the rounds of the
-- cleanup thread, each one step, and what is answered. Child modules relate it to a map from paths to
-- contents.
pub mod Spec
pub mod Chunks
pub mod Represents
pub mod Stores
pub mod Uploads
pub mod Downloads
pub mod Deletions
pub mod Joins
pub mod Cleanups
pub mod Refinement
pub mod Lasting
mod Tests
use toy_dfs.Prelude.{ℕ, Bool, List, [], ◌∷◌, ◌++◌, ◌≡◌, refl, ap, ℤ}
use toy_dfs.Bytes.{Bytes}
use toy_dfs.Grpc.{Status, PutFileRequest, RegisterResponse}
use toy_dfs.Coordinator.{Coordinator}
use toy_dfs.Coordinator.Environment.{Environment}
use toy_dfs.Coordinator.Upload.{PutResult, put_file}
use toy_dfs.Coordinator.Download.{get_file}
use toy_dfs.Coordinator.Deletion.{Event, delete_file, cleanup_round}
use toy_dfs.Coordinator.Registry.{register_data_node}

pub data Request : Type 0 where
  upload : List PutFileRequest → Request
  -- The path, and how many messages the stream takes.
  download : Bytes → ℕ → Request
  -- The two readings of the clock, and the path.
  delete : ℕ → ℕ → Bytes → Request
  join : Bytes → ℤ → Request
  cleanup : ℕ → Request

pub data Answer : Type 0 where
  uploaded : PutResult → Answer
  sent : Status → List Bytes → Answer
  deleted : Status → Bool → Answer
  joined : RegisterResponse → Answer
  cleaned : List Event → Answer

module _ {W : Type 0} (env : Environment W) where
  unfoldable pub handle : Request → Coordinator → W → Answer × Coordinator × W
  handle (upload reqs) c w = let (r, c', w') = put_file env reqs c w in (uploaded r, c', w')
  handle (download path quota) c w =
      let (st, messages, c', w') = get_file env.client path quota c w in (sent st messages, c', w')
  handle (delete now later path) c w =
      let (st, success, c') = delete_file now later path c in (deleted st success, c', w)
  handle (join peer port) c w =
      let (st, resp, c') = register_data_node peer port c in (joined resp, c', w)
  handle (cleanup now) c w =
      let (c', w', log) = cleanup_round env.client now c w in (cleaned log, c', w')

  unfoldable pub run : List Request → Coordinator → W → List Answer × Coordinator × W
  unfolding handle
  run [] c w = ([], c, w)
  run (r ∷ rs) c w =
      let (answer, c', w') = handle r c w in
      let (answers, c'', w'') = run rs c' w' in (answer ∷ answers, c'', w'')

  -- One call more.
  pub run-append :
      (rs : List Request) (r : Request) (c : Coordinator) (w : W)
      → run (rs ++ r ∷ []) c w ≡ (
          let (answers, c', w') = run rs c w in
          let (answer, c'', w'') = handle r c' w' in (answers ++ answer ∷ [], c'', w''))
  unfolding run
  run-append [] r c w = refl
  run-append (s ∷ rs) r c w =
      let (answer, c', w') = handle s c w in
      ap
        (λ (t : List Answer × Coordinator × W).
          let (answers, c'', w'') = t in (answer ∷ answers, c'', w''))
        (run-append rs r c' w')
