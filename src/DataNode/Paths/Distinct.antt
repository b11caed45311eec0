-- ===== src/DataNode/Paths/Distinct.antt =====
-- Chunks with different numbers are stored in different files.
use toy_dfs.Prelude.{
  ℕ, suc, ◌≤◌, ◌≡◌, refl, ap, ◌∙◌, sym, false, ◌++◌, Option, none, some, pos, int_max, drop, arith,
}
use toy_dfs.Bytes.{Bytes, codes, find_byte, rfind_byte, bytes_beq, bytes_eq}
use toy_dfs.Bytes.Decimal.{
  to_string_nat, to_string, stoi, stoi-to_string, stoi-to_string_overflow, scan, scan-to_string_nat,
  to_string_nat-plain,
}
use toy_dfs.Bytes.Search.{has_byte, rfind_byte-append, drop_past}
use toy_dfs.Coordinator.Client.{chunk_name}
use toy_dfs.DataNode.{DataNodeConfig}
use toy_dfs.DataNode.Paths.{
  chunk_file, dir_path, parse_chunk_id, numbered, refused, number_or_refused,
}

parse-stoi : (n : ℕ) → parse_chunk_id (chunk_name n) ≡ number_or_refused (stoi (to_string_nat n))
unfolding parse_chunk_id chunk_name find_byte bytes_beq
parse-stoi n = refl

-- The data node reads the number of a chunk back from its id, up to the range of `int`. Past it
-- `stoi` throws.
pub parse_chunk_id-chunk_name :
    (n : ℕ)
    → (n ≤ int_max → parse_chunk_id (chunk_name n) ≡ numbered (pos n))
      × (suc int_max ≤ n → parse_chunk_id (chunk_name n) ≡ refused)
parse_chunk_id-chunk_name n = (
  λ h. parse-stoi n ∙ ap number_or_refused (stoi-to_string n h),
  λ h. parse-stoi n ∙ ap number_or_refused (stoi-to_string_overflow n h),
)

extension-plain : has_byte b'/' (codes ".cfile") ≡ false
unfolding has_byte codes
extension-plain = refl

extension_stops : (n : ℕ) → scan 0 (to_string_nat n ++ codes ".cfile") ≡ n
unfolding codes
extension_stops n = scan-to_string_nat n (codes ".cfile") refl

-- What follows the last '/' of a path.
abbrev cut_at : Bytes → Option ℕ → Bytes
cut_at path none = path
cut_at path (some i) = drop (suc i) path

abbrev base_name : Bytes → Bytes
base_name path = cut_at path (rfind_byte b'/' path)

base_name-chunk_file :
    (config : DataNodeConfig) (n : ℕ)
    → base_name (chunk_file config (pos n)) ≡ to_string_nat n ++ codes ".cfile"
unfolding chunk_file to_string
base_name-chunk_file config n =
    ap (cut_at _) (
      rfind_byte-append b'/' (dir_path config (pos n)) (to_string_nat n ++ codes ".cfile")
        (to_string_nat-plain b'/' n (codes ".cfile") (omega arith) extension-plain))
    ∙ drop_past (dir_path config (pos n)) (to_string_nat n ++ codes ".cfile") b'/'

-- Whatever the directories of the two configurations are, chunks with different numbers, none
-- negative, have different files.
pub chunk_file-injective :
    (config config' : DataNodeConfig) (n m : ℕ)
    → chunk_file config (pos n) ≡ chunk_file config' (pos m)
    → n ≡ m
chunk_file-injective config config' n m e =
    sym (extension_stops n)
    ∙ ap (scan 0)
        (sym (base_name-chunk_file config n) ∙ ap base_name e ∙ base_name-chunk_file config' m)
    ∙ extension_stops m
