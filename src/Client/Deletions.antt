-- ===== src/Client/Deletions.antt =====
-- What a deletion tells the client, also over a connection that fails.
use toy_dfs.Prelude.{
  ℕ, ◌≡◌, ◌⊎◌, refl, Bool, true, false, Option, none, if◌then◌else◌, ◌==◌, Option-cases, inl, inr,
  ◌∙◌, ap,
}
use toy_dfs.Bytes.{Bytes, bytes_eq}
use toy_dfs.Grpc.{Status, StatusCode, is_ok}
use toy_dfs.MetadataStore
use toy_dfs.MetadataStore.{MetadataStore, FileMeta, is_some}
use toy_dfs.MetadataStore.Files.{file_at, file_at-get_file, file_at-delete_path}
use toy_dfs.Coordinator.{Coordinator}
use toy_dfs.Coordinator.Deletion
use toy_dfs.Client.{Outcome, done, file_exists, no_such_file, failed, is_code, delete_file_sync}

-- How a call goes: its answer arrives; the handler runs and its answer is lost; or the call never
-- reaches the handler. In the last two gRPC ends it with a status of its own.
pub data Delivery : Type 0 where
  answered : Delivery
  lost : Status → Delivery
  unreached : Status → Delivery

-- gRPC ends no call that fails with OK or NOT_FOUND.
abbrev pub IsFailure : Status → Type 0
IsFailure st = (is_ok st ≡ false) × (is_code st.code StatusCode.not_found ≡ false)

abbrev pub IsDelivery : Delivery → Type 0
IsDelivery answered = Unit {0}
IsDelivery (lost st) = IsFailure st
IsDelivery (unreached st) = IsFailure st

abbrev pub is_answered : Delivery → Bool
is_answered answered = true
is_answered (lost st) = false
is_answered (unreached st) = false

-- What the client and the coordinator are left with. A response that does not arrive is empty.
abbrev pub deliver :
    Delivery → Status × Bool × Coordinator → Coordinator → Status × Bool × Coordinator
deliver answered (st, success, c') c = (st, success, c')
deliver (lost st) (handled, success, c') c = (st, false, c')
deliver (unreached st) (handled, success, c') c = (st, false, c)

-- The metadata of a path where the file at `path` goes.
abbrev pub without : Bytes → Bytes → MetadataStore → Option FileMeta
without path other s = if path == other then none else file_at s other

-- Whether the outcome is true of what the store holds before and after.
abbrev pub IsTrue : Delivery → Bytes → Bytes → MetadataStore → MetadataStore → Outcome Bool → Type 0
IsTrue d path other before after (done success) =
    (success ≡ true)
    × (is_some (file_at before path) ≡ true)
    × (file_at after other ≡ without path other before)
IsTrue d path other before after no_such_file =
    (file_at before path ≡ none) × (file_at after other ≡ file_at before other)
IsTrue d path other before after file_exists = ⊥
IsTrue d path other before after (failed text) =
    (is_answered d ≡ false)
    × ((file_at after other ≡ file_at before other)
        ⊎ (file_at after other ≡ without path other before))

-- What the handler does to a path.
handled :
    (now later : ℕ) (path other : Bytes) (c : Coordinator)
    → let (st, success, c') = Deletion.delete_file now later path c in
      (file_at c'.store other ≡ file_at c.store other)
      ⊎ (file_at c'.store other ≡ without path other c.store)
unfolding Deletion.delete_file
handled now later path other c = elim (Option-cases (file_at c.store path)) [
  | inl e ↦ rw (e, Deletion.delete_file) (inl (file_at-get_file path other c.store))
  | inr (meta, e) ↦
      rw (e, Deletion.delete_file)
        (inr (
          file_at-delete_path now later path other (MetadataStore.get_file path c.store).1
          ∙ ap (λ f. if path == other then none else f) (file_at-get_file path other c.store)))
]

-- A call that fails is a `runtime_error`.
broken :
    (number : StatusCode → ℕ) (st : Status)
    → IsFailure st
    → (text : Bytes) × (delete_file_sync number (st, false) ≡ failed text)
unfolding delete_file_sync
broken number st (bad, other) = rw (bad, other) (_, refl)

-- Let gRPC end a call that fails neither with OK nor with NOT_FOUND. Whether the answer of the
-- handler arrives, is lost, or the call never reaches it, what the client is told holds at every
-- path. It returns true only where the path named a file; then the path names none, and no other
-- path has changed. It throws ENOENT only where the path named no file, and then no path has changed.
-- It never throws EEXIST. It throws a `runtime_error` only where the answer did not arrive, and then
-- the file is gone or no path has changed.
pub delete_file_sync_lem :
    (number : StatusCode → ℕ) (d : Delivery) (now later : ℕ) (path other : Bytes) (c : Coordinator)
    → IsDelivery d
    → let (st, success, c') = deliver d (Deletion.delete_file now later path c) c in
      IsTrue d path other c.store c'.store (delete_file_sync number (st, success))
delete_file_sync_lem number answered now later path other c f =
    elim (Option-cases (file_at c.store path)) [
      | inl e ↦
          unfold Deletion.delete_file delete_file_sync in
          rw (e, Deletion.delete_file) (e, file_at-get_file path other c.store)
      | inr (meta, e) ↦
          unfold Deletion.delete_file delete_file_sync in
          rw (e, Deletion.delete_file)
            (
              refl,
              ap is_some e,
              file_at-delete_path now later path other (MetadataStore.get_file path c.store).1
                  ∙ ap (λ f. if path == other then none else f)
                      (file_at-get_file path other c.store),
            )
    ]
delete_file_sync_lem number (lost st) now later path other c f =
    let (text, e) = broken number st f in rw e (refl, handled now later path other c)
delete_file_sync_lem number (unreached st) now later path other c f =
    let (text, e) = broken number st f in rw e (refl, inl refl)
