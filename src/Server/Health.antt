-- ===== src/Server/Health.antt =====
-- The health service of the Rust server, rust/grpcuds/src/health.rs, over the writers of Server. A
-- map is the list of its entries; the lock makes each operation one step. `encode` is that of prost
-- for the response, and `on_io` says whether the thread is that of the loop.
pub mod Tells
mod Tests
use grpc_uds.Prelude.{
  ℕ, Bool, true, false, List, [], ◌∷◌, ◌++◌, Option, none, some, Result, ok, err, same_bytes,
  if◌then◌else◌, codes,
}
use grpc_uds.Headers.{GrpcStatus}
use grpc_uds.Server.{ServerWriter, World, Status, write_bytes}

pub data ServingStatus : Type 0 where
  unknown serving not_serving service_unknown : ServingStatus

unfoldable pub wire_value : ServingStatus → ℕ
wire_value unknown = 0
wire_value serving = 1
wire_value not_serving = 2
wire_value service_unknown = 3

pub record Inner : Type 0 where
  pub statuses : List (List ℕ × ServingStatus)
  pub watchers : List (List ℕ × List ServerWriter)

abbrev pub new_reporter : Inner
new_reporter = record { statuses = ([], serving) ∷ []; watchers = [] }

module _ {ℓ} {A : Type ℓ} where
  -- `HashMap::get` and `insert`.
  unfoldable pub get : List ℕ → List (List ℕ × A) → Option A
  get key [] = none
  get key ((k, a) ∷ entries) = if same_bytes k key then some a else get key entries

  unfoldable pub insert : List ℕ → A → List (List ℕ × A) → List (List ℕ × A)
  insert key a [] = (key, a) ∷ []
  insert key a ((k, old) ∷ entries) =
      if same_bytes k key then (k, a) ∷ entries else (k, old) ∷ insert key a entries

abbrev kept : ServerWriter → Bool → List ServerWriter → List ServerWriter
kept w sent ws = if sent then w ∷ ws else ws

-- `retain`, with a send to each watcher.
unfoldable pub retain_sent : Bool → List ℕ → List ServerWriter → World → World × List ServerWriter
unfolding write_bytes
retain_sent on_io bytes [] world = (world, [])
retain_sent on_io bytes (w ∷ ws) world =
    let (world', sent) = write_bytes on_io w bytes world in
    let (world'', rest) = retain_sent on_io bytes ws world' in (world'', kept w sent rest)

abbrev pub Health : Type 0
Health = Inner × World

abbrev pub notify : Bool → List ℕ → List ℕ → Inner → World → Option (List ServerWriter) → Health
notify on_io bytes service inner world none = (inner, world)
notify on_io bytes service inner world (some ws) =
    let (world', rest) = retain_sent on_io bytes ws world in
    (record inner { watchers = insert service rest inner.watchers }, world')

unfoldable pub set_status :
    (ServingStatus → List ℕ) → Bool → List ℕ → ServingStatus → Inner → World → Health
unfolding insert get retain_sent
set_status encode on_io service status inner world =
    let inner' = record inner { statuses = insert service status inner.statuses } in
    notify on_io (encode status) service inner' world (get service inner.watchers)

unfoldable pub check : List ℕ → Inner → Option ServingStatus
unfolding get
check service inner = get service inner.statuses

abbrev pub or_unknown : Option ServingStatus → ServingStatus
or_unknown none = service_unknown
or_unknown (some status) = status

abbrev pub watchers_of : Option (List ServerWriter) → List ServerWriter
watchers_of none = []
watchers_of (some ws) = ws

abbrev registered : List ℕ → ServerWriter → Inner → World × Bool → Health
registered service w inner (world, false) = (inner, world)
registered service w inner (world, true) = (
  record inner {
    watchers = insert service (watchers_of (get service inner.watchers) ++ (w ∷ [])) inner.watchers;
  },
  world,
)

unfoldable pub watch :
    (ServingStatus → List ℕ) → Bool → List ℕ → ServerWriter → Inner → World → Health
unfolding insert get write_bytes
watch encode on_io service w inner world =
    registered service w inner
      (write_bytes on_io w (encode (or_unknown (get service inner.statuses))) world)

abbrev check_result : (ServingStatus → List ℕ) → Option ServingStatus → Result (List ℕ) Status
check_result encode (some status) = ok (encode status)
check_result encode none = err (GrpcStatus.not_found, some (codes "unknown service"))

-- The unary handler of Check, after its request is decoded.
unfoldable pub check_handler : (ServingStatus → List ℕ) → Inner → List ℕ → Result (List ℕ) Status
unfolding check
check_handler encode inner service = check_result encode (check service inner)
