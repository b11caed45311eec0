-- ===== src/Coordinator/Environment.antt =====
-- What the handlers take from outside: the data nodes, the iteration order of the registry, and the
-- order in which the tasks of the n-th chunk run.
use toy_dfs.Prelude.{ℕ, List}
use toy_dfs.Coordinator.Client.{DataNodeClient}
use toy_dfs.Coordinator.Placement.{Iteration}

pub record Environment (W : Type 0) : Type 0 where
  pub client : DataNodeClient W
  pub iteration : Iteration
  pub schedule : ℕ → List ℕ
