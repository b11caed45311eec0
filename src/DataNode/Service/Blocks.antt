-- ===== src/DataNode/Service/Blocks.antt =====
-- The messages of `GetChunk` are the content, cut into buffers.
use toy_dfs.Prelude.{
  ℕ, zero, suc, ◌<◌, ◌≡◌, refl, ap, ◌∙◌, Bool, true, [], ◌∷◌, ◌++◌, leb, take, drop, length, leb→le,
  arith, Bool-cases, inl, inr, take-append-drop, length-drop, append-nil,
}
use toy_dfs.Bytes.{Bytes, is_empty}
use toy_dfs.Grpc.{status_ok}
use toy_dfs.Coordinator.Download.Stream.{joined}
use toy_dfs.DataNode.Service.{send_blocks, buffer_size}

-- With fuel for every buffer and a stream that takes every message, the messages are the content,
-- the status is OK, and an empty content is no message.
pub send_blocks_lem :
    (fuel : ℕ) (content : Bytes) (takes : ℕ → Bool) (i : ℕ)
    → ((j : ℕ) → takes j ≡ true)
    → length content < fuel
    → let (st, messages) = send_blocks fuel content takes i in
      (st ≡ status_ok) × (joined messages ≡ content) × (is_empty messages ≡ is_empty content)
unfolding send_blocks
send_blocks_lem zero content takes i all_taken h = absurd (omega arith)
send_blocks_lem (suc fuel) [] takes i all_taken h = (refl, refl, refl)
send_blocks_lem (suc fuel) (b ∷ content) takes i all_taken h =
    elim (Bool-cases (leb buffer_size (length (b ∷ content)))) [
      | inl full ↦
          let rest = drop buffer_size (b ∷ content) in
          let (st, all, empty) =
            send_blocks_lem fuel rest takes (suc i) all_taken
              (omega (arith, length-drop buffer_size (b ∷ content), leb→le buffer_size _ full)) in
          rw (full, all_taken i)
            (
              st,
              ap (λ r. take buffer_size (b ∷ content) ++ r) all
                  ∙ take-append-drop buffer_size (b ∷ content),
              refl,
            )
      | inr last ↦ rw (last, all_taken i) (refl, append-nil (b ∷ content), refl)
    ]
