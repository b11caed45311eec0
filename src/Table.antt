-- ===== src/Table.antt =====
-- `std::unordered_map` as the program uses it (coordinator/include/metadata_store.h `entries_`,
-- coordinator/include/coordinator_service_impl.h `registered_nodes_`): the entries in iteration
-- order. The order of iteration that the standard leaves open is the order of the list.
pub mod Laws
use toy_dfs.Prelude.{Eq, ◌==◌, List, [], ◌∷◌, Option, none, some, if◌then◌else◌, map}

abbrev pub Table {ℓ} : Type ℓ → Type ℓ → Type ℓ
Table K V = List (K × V)

module _ {ℓ} {K V : Type ℓ} ⦃e : Eq K⦄ where
  -- m.find(k)
  unfoldable pub find : K → Table K V → Option V
  find k [] = none
  find k ((j, v) ∷ m) = if j == k then some v else find k m

  -- m[k] = v
  unfoldable pub insert : K → V → Table K V → Table K V
  insert k v [] = (k, v) ∷ []
  insert k v ((i, old) ∷ rest) = if i == k then (k, v) ∷ rest else (i, old) ∷ insert k v rest

  -- m.erase(k)
  unfoldable pub erase : K → Table K V → Table K V
  erase k [] = []
  erase k ((j, w) ∷ m) = let rest = erase k m in if j == k then rest else (j, w) ∷ rest

-- The keys, in iteration order.
abbrev pub keys {ℓ} : {K V : Type ℓ} → Table K V → List K
keys = map (λ p. p.0)
