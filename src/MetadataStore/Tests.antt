-- ===== src/MetadataStore/Tests.antt =====
-- Histories of the metadata store on concrete files.
use toy_dfs.Prelude.{ℕ, ◌≡◌, refl, List, [], ◌∷◌, some, pos, ◌%◌, arith, filter_by, length, ◌++◌}
use toy_dfs.Bytes.{Bytes, codes, bytes_beq}
use toy_dfs.Table.{find, insert, erase}
use toy_dfs.MetadataStore.{
  FileMeta, MetadataStore, empty, put_file, delete_path, cleanup_tombstones, cleanup_old_tombstones,
  is_expired, get_file, size_modulus, get_statistics,
}
use toy_dfs.MetadataStore.Files.{file_at}
use toy_dfs.MetadataStore.History.{Call, run, effects, run-effects, run-tombstone_count, run-Inv}
use toy_dfs.MetadataStore.Invariant.{Inv, empty-Inv}
use toy_dfs.MetadataStore.Tombstones.{
  delete_all, is_fresh, buried, cleanup_tombstones_lem, cleanup_old_tombstones-cleanup_tombstones,
  added, filter_by-delete_path,
}

abbrev meta_of : ℕ → FileMeta
meta_of size = record { size = pos size; chunk_size = pos 1048576; chunks = [] }

abbrev report : Bytes
report = codes "report"

abbrev photo : Bytes
photo = codes "photo"

-- The world outside lists the files whose chunks were deleted.
abbrev note_deleted : FileMeta → List FileMeta → List FileMeta
note_deleted meta log = log ++ meta ∷ []

abbrev calls : List (Call (List FileMeta))
calls =
    Call.put report (meta_of 5)
    ∷ (Call.put photo (meta_of 7)
        ∷ (Call.delete 1000 1001 report
            ∷ (Call.get report
                ∷ (Call.delete 2000 2001 photo
                    ∷ (Call.put report (meta_of 9)
                        ∷ (Call.sweep 300000001500 (some note_deleted) ∷ []))))))

abbrev after_calls : MetadataStore × List FileMeta
after_calls = run calls (empty, [])

-- One tombstone is left, and one file's chunks are gone.
after_calls_run : (length after_calls.0.deleted_entries ≡ 1) × (after_calls.1 ≡ meta_of 5 ∷ [])
unfolding run empty codes cleanup_tombstones put_file delete_path find get_file insert bytes_beq
    erase
after_calls_run = (refl, refl)

run-effects_example : file_at (run calls (empty, [])).0 ≡ effects calls (file_at empty)
run-effects_example = run-effects calls (empty, [])

run-Inv_example : Inv 2000 (run calls (empty, [])).0
run-Inv_example = run-Inv 0 calls (empty, []) (omega arith, (omega arith, tt)) empty-Inv

run-tombstone_count_example :
    let stats = get_statistics (run calls (empty, [])).0 in
    stats.tombstone_count ≡ stats.deleted_entries % size_modulus
run-tombstone_count_example = run-tombstone_count calls [] (omega arith, (omega arith, tt))

abbrev two_deleted : MetadataStore
two_deleted = record empty {
  deleted_entries = buried 1000 report (meta_of 5) ∷ (buried 2000 photo (meta_of 7) ∷ []);
  tombstone_count = 2;
}

cleanup_tombstones_lem_example :
    let (s', w') = cleanup_tombstones 300000001500 (some note_deleted) two_deleted [] in
    (s'.deleted_entries ≡ filter_by (is_fresh 300000001500) two_deleted.deleted_entries)
    × (w'
        ≡ delete_all 300000001500
            (some note_deleted)
            (filter_by (is_expired 300000001500) two_deleted.deleted_entries)
            [])
    × (s'.entries ≡ two_deleted.entries)
cleanup_tombstones_lem_example =
    cleanup_tombstones_lem 300000001500 (some note_deleted) two_deleted []

cleanup_old_tombstones-cleanup_tombstones_example :
    (cleanup_old_tombstones 300000001500 two_deleted).deleted_entries
    ≡ (cleanup_tombstones 300000001500 (some note_deleted) two_deleted []).0.deleted_entries
cleanup_old_tombstones-cleanup_tombstones_example =
    cleanup_old_tombstones-cleanup_tombstones 300000001500 0 (some note_deleted) two_deleted []
      (omega arith, (omega arith, tt))

abbrev one_file : MetadataStore
one_file = put_file report (meta_of 5) empty

one_file_found : file_at one_file report ≡ some (meta_of 5)
unfolding put_file empty codes find insert bytes_beq get_file
one_file_found = refl

filter_by-delete_path_example :
    filter_by (is_fresh 1001) (delete_path 1000 1001 report one_file).deleted_entries
    ≡ filter_by
        (is_fresh 1001)
        (one_file.deleted_entries ++ added 1000 report (file_at one_file report))
filter_by-delete_path_example = filter_by-delete_path 1000 1001 report one_file
