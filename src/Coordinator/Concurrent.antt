-- ===== src/Coordinator/Concurrent.antt =====
-- Several calls of `PutFile` at once, each on its own thread. A step of a call is its lookup, one round
-- of its loop over the chunks, or the entry of its file; a schedule says whose step is next.
pub mod Rounds
pub mod Sound
pub mod Entered
pub mod Served
pub mod Alone
mod Tests
use toy_dfs.Prelude.{
  ℕ, zero, suc, ◌+◌, true, false, List, [], ◌∷◌, Option, none, some, length, pos_part,
  if◌then◌else◌,
}
use toy_dfs.Bytes.{Bytes, codes, is_empty}
use toy_dfs.Grpc.{Status, status, status_ok, already_exists, invalid_argument}
use toy_dfs.MetadataStore
use toy_dfs.MetadataStore.{ChunkInfo, is_some}
use toy_dfs.Coordinator.{Coordinator}
use toy_dfs.Coordinator.Environment.{Environment}
use toy_dfs.Coordinator.Upload.{Loop, finished, stopped, put_chunks, num_chunks, file_meta}

-- Before the lookup; in the loop, with the rounds left, the index and the chunks so far; or at the
-- end, where a success shows the chunks that were entered.
pub data Stage : Type 0 where
  started : Stage
  looping : ℕ → ℕ → List ChunkInfo → Stage
  succeeded : List ChunkInfo → Stage
  failed : Status → Stage
  undefined : Stage

pub record Call : Type 0 where
  pub filename : Bytes
  pub file_data : Bytes
  pub stage : Stage

-- The result of a round.
abbrev pub after_round : ℕ → ℕ → Loop → Stage
after_round n i (finished chunks) = looping n (i + 1) chunks
after_round n i (stopped st) = failed st
after_round n i Loop.undefined = undefined

module _ {W : Type 0} (env : Environment W) where
  unfoldable pub step : Call → Coordinator → W → Call × Coordinator × W
  step call c w = elim call.stage [
    | started ↦
        let (found, store') = MetadataStore.get_file call.filename c.store in
        let next =
          if is_some found
          then failed (status already_exists (codes "File exists"))
          else if is_empty call.filename
          then failed (status invalid_argument (codes "Filename not provided"))
          else looping (pos_part (num_chunks (length call.file_data))) 0 [] in
        (record call { stage = next }, record c { store = store' }, w)
    | looping zero i chunks ↦ (
      record call { stage = succeeded chunks },
      record c {
        store =
            MetadataStore.put_file call.filename (file_meta (length call.file_data) chunks) c.store;
      },
      w,
    )
    | looping (suc n) i chunks ↦
        let (l, c', w') = put_chunks env 1 i call.file_data chunks c w in
        (record call { stage = after_round n i l }, c', w')
    | succeeded chunks ↦ (call, c, w)
    | failed st ↦ (call, c, w)
    | undefined ↦ (call, c, w)
  ]

  -- The step of the j-th call, if there is one.
  unfoldable pub step_at : ℕ → List Call → Coordinator → W → List Call × Coordinator × W
  unfolding step
  step_at j [] c w = ([], c, w)
  step_at zero (call ∷ calls) c w = let (call', c', w') = step call c w in (call' ∷ calls, c', w')
  step_at (suc j) (call ∷ calls) c w =
      let (calls', c', w') = step_at j calls c w in (call ∷ calls', c', w')

  unfoldable pub interleave : List ℕ → List Call → Coordinator → W → List Call × Coordinator × W
  unfolding step_at
  interleave [] calls c w = (calls, c, w)
  interleave (j ∷ schedule) calls c w =
      let (calls', c', w') = step_at j calls c w in interleave schedule calls' c' w'
