-- ===== src/Server/Lifecycle.antt =====
-- The server class (server/include/dfs_server.h): where it listens, and whether it runs. gRPC's
-- servers are a parameter, with `G` its server objects and `S` the state of the machine.
use toy_dfs.Prelude.{
  ◌≡◌, refl, Bool, false, List, [], ◌∷◌, ◌++◌, Option, none, some, take, drop, ◌||◌, if◌then◌else◌,
  ◌==◌, map, Bool-cases, inl, inr,
}
use toy_dfs.Bytes.{Bytes, codes, bytes_eq, rfind_byte}
use toy_dfs.Bytes.Search.{rfind_byte-append, has_byte, take-length, drop-length}
use toy_dfs.MetadataStore.{is_some}

-- `BuildAndStart` returns a null pointer where it fails.
pub record ServerBuilder (G S : Type 0) : Type 0 where
  pub build_and_start : List Bytes → S → Option G × S
  pub shutdown : G → S → S
  pub shutdown_now : G → S → S
  pub wait_for : G → S → S

pub record DfsServer (G : Type 0) : Type 0 where
  pub address : Bytes
  pub server : Option G

abbrev pub create_server : {G : Type 0} → Bytes → DfsServer G
create_server address = record { address = address; server = none }

-- The ports that `Start` adds, in order.
unfoldable pub listening_ports : Bytes → List Bytes
listening_ports address = elim (rfind_byte b':' address) [
  | none ↦ address ∷ []
  | some colon_pos ↦
      let host = take colon_pos address in
      let colon_port = drop colon_pos address in
      if host == codes "0.0.0.0" || host == codes "[::]"
      then address ∷ ((codes "127.0.0.1" ++ colon_port) ∷ ((codes "[::1]" ++ colon_port) ∷ []))
      else address ∷ []
]

module _ {G S : Type 0} (grpc : ServerBuilder G S) where
  unfoldable pub start_server : DfsServer G → S → DfsServer G × S
  unfolding listening_ports
  start_server d s =
      let (server, s') = grpc.build_and_start (listening_ports d.address) s in
      (record d { server = server }, s')

  unfoldable pub stop_server : DfsServer G → S → S
  stop_server d s = elim d.server [ none ↦ s | some server ↦ grpc.shutdown server s ]

  unfoldable pub force_shutdown : DfsServer G → S → DfsServer G × S
  force_shutdown d s = elim d.server [
    | none ↦ (d, s)
    | some server ↦ (record d { server = none }, grpc.shutdown_now server s)
  ]

  unfoldable pub wait : DfsServer G → S → S
  wait d s = elim d.server [ none ↦ s | some server ↦ grpc.wait_for server s ]

abbrev pub is_running : {G : Type 0} → DfsServer G → Bool
is_running d = is_some d.server

-- The hosts that a server for this one listens on.
abbrev pub hosts : Bytes → List Bytes
hosts host =
    if host == codes "0.0.0.0" || host == codes "[::]"
    then host ∷ (codes "127.0.0.1" ∷ (codes "[::1]" ∷ []))
    else host ∷ []

-- The host is what stands before the last colon, and every port added is the one after it.
listening_ports-hosts :
    (host port : Bytes)
    → has_byte b':' port ≡ false
    → listening_ports (host ++ b':' ∷ port) ≡ map (λ h. h ++ b':' ∷ port) (hosts host)
unfolding listening_ports
listening_ports-hosts host port one =
    rw (rfind_byte-append b':' host port one, listening_ports)
      (rw (take-length host (b':' ∷ port), drop-length host (b':' ∷ port))
        (elim (Bool-cases (host == codes "0.0.0.0" || host == codes "[::]")) [
          | inl everywhere ↦ rw everywhere refl
          | inr one_host ↦ rw one_host refl
        ]))

module _ {G S : Type 0} (grpc : ServerBuilder G S) where
  down :
      (address : Bytes) (server : Option G) (s : S)
      → let (d, s') = force_shutdown grpc (record { address = address; server = server }) s in
        (is_running d ≡ false) × (force_shutdown grpc d s' ≡ (d, s'))
  unfolding force_shutdown
  down address none s = (refl, refl)
  down address (some server) s = (refl, refl)

  -- A server for a host and a port, a text without a colon, listens on that port of that host, and,
  -- where the host stands for all interfaces, also on that port of the two loopback addresses. After
  -- `Start` it runs exactly if gRPC could build it; after `ForceShutdown` it does not run, and a
  -- second one changes nothing.
  pub start_server-force_shutdown :
      (host port : Bytes) (s : S)
      → has_byte b':' port ≡ false
      → let (built, s') = grpc.build_and_start (map (λ h. h ++ b':' ∷ port) (hosts host)) s in
        let (d, s'') = start_server grpc (create_server (host ++ b':' ∷ port)) s in
        let (d', s3) = force_shutdown grpc d s'' in
        (s'' ≡ s')
        × (d.server ≡ built)
        × (is_running d ≡ is_some built)
        × (is_running d' ≡ false)
        × (force_shutdown grpc d' s3 ≡ (d', s3))
  unfolding start_server
  start_server-force_shutdown host port s one =
      let (built, s') = grpc.build_and_start (map (λ h. h ++ b':' ∷ port) (hosts host)) s in
      let shut = down (host ++ b':' ∷ port) built s' in
      rw (listening_ports-hosts host port one) (refl, refl, refl, shut.0, shut.1)
