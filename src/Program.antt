-- ===== src/Program.antt =====
-- The three programs: what their `main` functions share. `getopt_long` and the arguments that it
-- leaves are parameters: the letters it returns with `optarg`, and what stands from `optind` on.
pub mod ClientMain
pub mod CoordinatorMain
pub mod DataNodeMain
pub mod Service
pub mod RoundTrip
mod Tests
use toy_dfs.Prelude.{ℕ, List, [], ◌∷◌, ◌++◌}
use toy_dfs.Bytes.{Bytes, codes}

-- How the process ends: with an exit code, or by `std::terminate` for an exception that nothing
-- catches.
pub data Ending : Type 0 where
  exit : ℕ → Ending
  terminated : Ending

-- What goes to `std::cout` and `std::cerr`.
pub data Output : Type 0 where
  out : Bytes → Output
  err : Bytes → Output

-- A line with its `std::endl`.
abbrev pub line : Bytes → Bytes
line text = text ++ 10 ∷ []
