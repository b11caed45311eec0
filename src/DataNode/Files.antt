-- ===== src/DataNode/Files.antt =====
-- The file systems of the hosts, which the operating system provides: `D` is the state of all their
-- disks, and each operation names its host. `read_file` opens a file and reads it to its end.
use toy_dfs.Prelude.{◌≡◌, ◌≢◌, Bool, true, Option, some, [], ◌++◌}
use toy_dfs.Bytes.{Bytes}

-- What `mkdir` and `remove` report; `failed` holds the text of `errno`.
pub data MkdirResult : Type 0 where
  created : MkdirResult
  already_there : MkdirResult
  failed : Bytes → MkdirResult

pub data RemoveResult : Type 0 where
  removed : RemoveResult
  no_entry : RemoveResult
  failed : Bytes → RemoveResult

pub record FileSystem (D : Type 0) : Type 0 where
  pub mkdir : Bytes → Bytes → D → MkdirResult × D
  -- Opening for writing creates the file or empties it.
  pub open_write : Bytes → Bytes → D → Bool × D
  pub append : Bytes → Bytes → Bytes → D → D
  pub read_file : Bytes → Bytes → D → Option Bytes
  pub remove : Bytes → Bytes → D → RemoveResult × D

-- What the services rely on while the disks have room and do not fail.
pub record IsLasting {D : Type 0} (fs : FileSystem D) : Type 0 where
  pub mkdir_keeps :
      (host dir host' path : Bytes) (d : D)
      → fs.read_file host' path (fs.mkdir host dir d).1 ≡ fs.read_file host' path d
  pub open_empties :
      (host path : Bytes) (d : D)
      → (fs.open_write host path d).0 ≡ true
      → fs.read_file host path (fs.open_write host path d).1 ≡ some []
  pub open_keeps :
      (host path host' path' : Bytes) (d : D)
      → ◌≢◌ {A = Bytes × Bytes} (host, path) (host', path')
      → fs.read_file host' path' (fs.open_write host path d).1 ≡ fs.read_file host' path' d
  pub append_adds :
      (host path content old : Bytes) (d : D)
      → fs.read_file host path d ≡ some old
      → fs.read_file host path (fs.append host path content d) ≡ some (old ++ content)
  pub append_keeps :
      (host path host' path' content : Bytes) (d : D)
      → ◌≢◌ {A = Bytes × Bytes} (host, path) (host', path')
      → fs.read_file host' path' (fs.append host path content d) ≡ fs.read_file host' path' d
  pub remove_keeps :
      (host path host' path' : Bytes) (d : D)
      → ◌≢◌ {A = Bytes × Bytes} (host, path) (host', path')
      → fs.read_file host' path' (fs.remove host path d).1 ≡ fs.read_file host' path' d
