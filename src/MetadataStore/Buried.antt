-- ===== src/MetadataStore/Buried.antt =====
-- What `DeletePath` and `CleanupTombstones` leave among the tombstones.
use toy_dfs.Prelude.{
  ℕ, ◌≡◌, List, [], ◌∷◌, some, All, All-append, Bool-cases, Option-cases, inl, inr, ltb, length,
  Bool, filter_by,
}
use toy_dfs.Bytes.{Bytes, bytes_eq}
use toy_dfs.Table.{find}
use toy_dfs.MetadataStore.{
  MetadataStore, FileMeta, Tombstone, is_expired, drop_old, cleanup_old_tombstones,
  limit_tombstones, count_delete, bury, delete_path, as_file, fetch_sub, max_deleted_entries,
  get_file,
}
use toy_dfs.MetadataStore.Files.{file_at}

module _ {κ} (P : Tombstone → Type κ) where
  drop_old-All :
      (now : ℕ) (ts : List Tombstone) (count : ℕ) → All P ts → All P (drop_old now ts count).0
  unfolding drop_old
  drop_old-All now [] count h = h
  drop_old-All now (t ∷ ts) count h = elim (Bool-cases (is_expired now t)) [
    | inl old ↦ rw (old, drop_old) (drop_old-All now ts (fetch_sub count) h.1)
    | inr young ↦ rw (young, drop_old) h
  ]

  limit_tombstones-All :
      (now : ℕ) (s : MetadataStore)
      → All P s.deleted_entries
      → All P (limit_tombstones now s).deleted_entries
  unfolding limit_tombstones cleanup_old_tombstones
  limit_tombstones-All now s h =
      elim (Bool-cases (ltb max_deleted_entries (length s.deleted_entries))) [
        | inl full ↦
            rw (full, limit_tombstones) (drop_old-All now s.deleted_entries s.tombstone_count h)
        | inr room ↦ rw (room, limit_tombstones) h
      ]

  -- What holds of the tombstones and of the one of the deleted file holds of all of them after.
  pub delete_path-All :
      (now later : ℕ) (path : Bytes) (s : MetadataStore)
      → ((meta : FileMeta)
          → file_at s path ≡ some meta
          → P (record { path = path; meta = meta; delete_time = now }))
      → All P s.deleted_entries
      → All P (delete_path now later path s).deleted_entries
  unfolding delete_path get_file
  delete_path-All now later path s new h = elim (Option-cases (as_file (find path s.entries))) [
    | inl e ↦ rw (e, delete_path) h
    | inr (meta, e) ↦
        rw (e, delete_path)
          (unfold count_delete in
            limit_tombstones-All later (bury now path meta s)
              (unfold bury in All-append P s.deleted_entries _ h (new meta e, tt)))
  ]

  pub filter_by-All :
      (test : Tombstone → Bool) (ts : List Tombstone) → All P ts → All P (filter_by test ts)
  filter_by-All test [] h = h
  filter_by-All test (t ∷ ts) h = elim (Bool-cases (test t)) [
    | inl kept ↦ rw (kept, filter_by) (h.0, filter_by-All test ts h.1)
    | inr left ↦ rw (left, filter_by) (filter_by-All test ts h.1)
  ]
