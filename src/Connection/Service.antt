-- ===== src/Connection/Service.antt =====
-- `Service` of internal/connection/service.go over the store of internal/connection/state.go.
use nordmac.Base.{
  ℕ, Bool, true, false, not, ◌||◌, Option, none, some, [], ◌∷◌, ◌++◌, ◌==◌, text_eq, nat_eq, pos,
  Text, length, Error, Outcome, ok, err, panic, message, Sentinel, sentinel, is_error, join, Check,
  reject_if, if◌then◌else◌,
}
use nordmac.Base.Actions.{
  pure, raise, lift, gets, within, attempt, map_error, finally, cleanup, ◌>>=◌, ◌>>◌,
}
use nordmac.Netip.{v4, AddrPort}
use nordmac.Netip.Prefixes
use nordmac.Tunnel.Types.{
  Phase, phase_eq, other_phase, connected, disconnected, degraded, Plan, Route, full_ipv4,
}
use nordmac.Tunnel.Plan.{validate_plan}
use nordmac.Helper.Protocol.{
  schema_version, secret_channel_version, Operation, connect_operation, disconnect_operation,
  status_operation, Request, Response, DeviceSecrets, validate_secrets,
}
use nordmac.Recommend.Select.{Server}
use nordmac.Connection.World.{
  is_connecting, is_connected, Metadata, Query, lock_connection, release_lock, read_metadata,
  make_directory, create_temporary, chmod_temporary, sync_temporary, close_temporary,
  rename_temporary, remove_temporary, remove_metadata, write_temporary, recommend, get_key,
  snapshot_routes, random_bytes, network_service, exchange, World, Tx, do_call,
}
use nordmac.Connection.Metadata.{validate_metadata, decoded, marshalled, unless_missing}

pub record Result : Type 0 where
  pub state : Phase
  pub session_id : Text
  pub server : Text
  pub country : Text
  pub city : Text

-- `resultFromMetadata`
abbrev pub result_from : Metadata → Phase → Result
result_from m state = record {
  state = state;
  session_id = m.session_id;
  server = m.server;
  country = m.country;
  city = m.city;
}

-- `Result{State: "disconnected"}`
abbrev pub no_connection : Result
no_connection = record {
  state = disconnected;
  session_id = [];
  server = [];
  country = [];
  city = [];
}

abbrev pub errors_helper : Error
errors_helper = sentinel Sentinel.helper_failed

-- `errors.Join(ErrHelper, err)`
abbrev pub helper_error : Option Error → Error
helper_error none = errors_helper
helper_error (some e) = join errors_helper e

abbrev pub is_nil : Option Error → Bool
is_nil none = true
is_nil (some e) = false

-- The decoded key, where it has the length of one.
abbrev pub key_or : Error → Option Text → Outcome Text
key_or e none = err e
key_or e (some k) = if length k == 32 then ok k else err e

abbrev pub or_error : {A : Type 0} → Error → Option A → Outcome A
or_error e none = err e
or_error e (some a) = ok a

module _ (w : World) where
  -- `MetadataStore.Load`
  unfoldable pub load : Tx Metadata
  load = do
    bytes ← gets w.contents
    do_call w read_metadata
    m ← lift (decoded (w.codec.unmarshal bytes))
    lift (validate_metadata m)
    pure m

  -- The temporary file's mode and bytes, on disk.
  unfoldable pub fill : Metadata → Text → Tx (Unit {0})
  fill m bytes = do
    do_call w chmod_temporary
    do_call w (write_temporary m bytes)
    do_call w sync_temporary

  abbrev pub or_close : Option Error → Tx (Unit {0}) → Tx (Unit {0})
  or_close none next = next
  or_close (some e) next = do attempt (do_call w close_temporary); raise e

  unfoldable pub publish : Metadata → Text → Tx (Unit {0})
  publish m bytes = do
    e ← attempt (fill m bytes)
    or_close e do
      do_call w close_temporary
      within "replace local connection metadata" (do_call w rename_temporary)

  -- `MetadataStore.Save`
  unfoldable pub save : Metadata → Tx (Unit {0})
  save m = do
    lift (validate_metadata m)
    do_call w make_directory
    bytes ← lift (marshalled (w.codec.marshal m))
    do_call w create_temporary
    cleanup (do_call w remove_temporary) (publish m bytes)

  -- `MetadataStore.Delete`
  unfoldable pub delete : Tx (Unit {0})
  delete = do e ← attempt (do_call w remove_metadata); lift (unless_missing e)

  -- `randomID`
  unfoldable pub random_id : Tx Text
  random_id = do
    id ← gets w.random
    within "generate session identity" (do_call w random_bytes)
    pure id

  abbrev pub or_panic : Option Error → Outcome (Unit {0})
  or_panic none = ok tt
  or_panic (some e) = panic

  -- `mustRandomID`
  unfoldable pub must_random_id : Tx Text
  must_random_id = do
    id ← gets w.random
    e ← attempt (do_call w random_bytes)
    lift (or_panic e)
    pure id

  -- `decodeSecrets`
  unfoldable pub decode_secrets : Text → Server → Tx DeviceSecrets
  decode_secrets private_text server = do
    private ←
        lift (key_or (message "stored NordLynx private key is invalid") (w.decode private_text))
    peer ← lift (
        key_or (message "recommended server public key is invalid")
          (w.decode server.wireguard_pub_key))
    lift (validate_secrets (some (record { client_private_key = private; peer_public_key = peer })))
    pure (record { client_private_key = private; peer_public_key = peer })

  -- A connection may be made where there is no metadata.
  abbrev pub must_miss : Option Error → Check
  must_miss none = err (sentinel Sentinel.already_connected)
  must_miss (some e) = if is_error e Sentinel.not_exist then ok tt else err e

  abbrev pub missing_key : Error → Error
  missing_key e = if is_error e Sentinel.not_found then sentinel Sentinel.not_authenticated else e

  -- ":51820"
  abbrev pub port_suffix : Text
  port_suffix = b':' ∷ b'5' ∷ b'1' ∷ b'8' ∷ b'2' ∷ b'0' ∷ []

  -- The plan of `connectLocked`; its DNS servers are 103.86.96.100 and 103.86.99.100.
  abbrev pub plan_of : Text → AddrPort → Route → Text → Text → Plan
  plan_of id endpoint physical dns print = record {
    session_id = id;
    owner_uid = w.uid;
    endpoint = endpoint;
    physical_gateway = physical.gateway;
    physical_interface = physical.interface;
    tunnel_address = Prefixes.from (v4 168099842) 32;
    tunnel_mtu = pos 1280;
    tunnel_dns = v4 1733714020 ∷ v4 1733714788 ∷ [];
    dns_service = dns;
    route_policy = full_ipv4;
    scoped_routes = [];
    peer_fingerprint = print;
  }

  abbrev pub metadata_of : Text → Server → ℕ → Metadata
  metadata_of id server now = record {
    schema = pos 1;
    session_id = id;
    server = server.hostname;
    country = server.country_name;
    city = server.city_name;
    phase = is_connecting;
    created_at = now;
  }

  -- A request without a plan.
  abbrev pub plain_request : Operation → Text → Text → Request
  plain_request operation request_id id = record {
    schema = schema_version;
    request_id = request_id;
    operation = operation;
    session_id = id;
    owner_uid = w.uid;
    secret_channel = pos 0;
    plan = none;
  }

  abbrev pub connect_request : Text → Plan → Request
  connect_request request_id plan = record {
    schema = schema_version;
    request_id = request_id;
    operation = connect_operation;
    session_id = plan.session_id;
    owner_uid = w.uid;
    secret_channel = secret_channel_version;
    plan = some plan;
  }

  -- `Helper.Exchange`: the response and the error
  unfoldable pub ask : Request → Tx (Response × Option Error)
  ask request = do
    response ← gets (λ h. w.response h request)
    e ← attempt (do_call w (exchange request))
    pure (response, e)

  -- `err != nil || !response.OK`
  abbrev pub has_failed : Response × Option Error → Bool
  has_failed (response, e) = not (is_nil e) || not response.succeeded

  -- `errors.Join(err, cleanupErr)`
  abbrev pub join_errors : Error → Option Error → Outcome Result
  join_errors e none = err e
  join_errors e (some f) = err (join e f)

  -- The second `Save` of `connectLocked`, by its error.
  unfoldable pub on_saved : Metadata → Option Error → Tx Result
  on_saved m none = pure (result_from m connected)
  on_saved m (some e) = do
    id ← must_random_id
    r ← ask (plain_request disconnect_operation id m.session_id)
    lift (join_errors e r.1)

  -- What `connectLocked` does with its plan.
  unfoldable pub connect_planned : Plan → Metadata → Tx Result
  connect_planned plan m = do
    save m
    id ← must_random_id
    r ← ask (connect_request id plan)
    if has_failed r then raise (helper_error r.1) else (do
      e ← attempt (save (record m { phase = is_connected }))
      on_saved (record m { phase = is_connected }) e)

  -- `connectLocked`
  unfoldable pub connect_locked : Query → Tx Result
  connect_locked query = do
    e ← attempt load
    lift (must_miss e)
    server ← gets (λ h. w.server h query)
    do_call w (recommend query)
    manifest ← lift (w.manifest server)
    private_text ← gets w.key
    map_error missing_key (do_call w get_key)
    secrets ← decode_secrets private_text server
    physical ← gets w.routes
    do_call w snapshot_routes
    dns ← gets (λ h. w.service h physical.default_route.interface)
    do_call w (network_service physical.default_route.interface)
    id ← random_id
    endpoint ← lift (
        or_error (message "recommended server has an invalid endpoint")
          (w.parse_endpoint (manifest.ipv4 ++ port_suffix)))
    lift (
        reject_if (not (w.digest secrets.peer_public_key == manifest.fingerprint))
          "recommended peer key changed while planning")
    let plan = plan_of id endpoint physical.default_route dns (w.digest secrets.peer_public_key)
    lift (validate_plan plan)
    now ← gets w.clock
    connect_planned plan (metadata_of id server now)

  -- `disconnectLocked`, where there is metadata
  unfoldable pub disconnect_recorded : Metadata → Tx Result
  disconnect_recorded m = do
    id ← must_random_id
    r ← ask (plain_request disconnect_operation id m.session_id)
    if has_failed r then raise (helper_error r.1) else (do delete; pure no_connection)

  -- What the method does with the metadata, or without it.
  abbrev pub on_load : Outcome Metadata → (Metadata → Tx Result) → Tx Result
  on_load (ok m) next = next m
  on_load (err e) next = if is_error e Sentinel.not_exist then pure no_connection else raise e
  on_load panic next = lift panic

  -- `Metadata.Load` with what follows it.
  unfoldable pub with_metadata : (Metadata → Tx Result) → Tx Result
  with_metadata next h = let (r, h') = load h in on_load r next h'

  -- `disconnectLocked`
  unfoldable pub disconnect_locked : Tx Result
  disconnect_locked = with_metadata disconnect_recorded

  abbrev pub status_of : Metadata → Response × Option Error → Result
  status_of m (response, some e) = result_from m degraded
  status_of m (response, none) =
      result_from m (if response.state == other_phase [] then degraded else response.state)

  -- `statusLocked`
  unfoldable pub status_locked : Tx Result
  status_locked = with_metadata λ m. do
    id ← must_random_id
    r ← ask (plain_request status_operation id m.session_id)
    pure (status_of m r)

  -- `Service.lock` and the deferred release
  unfoldable pub locked : Tx Result → Tx Result
  locked body = do
    lift (reject_if (not w.has_locker) "connection lock is unavailable")
    map_error (join (sentinel Sentinel.busy)) (do_call w lock_connection)
    finally (do_call w release_lock) body

  -- `Connect`, `Disconnect` and `Status`
  unfoldable pub connect : Query → Tx Result
  connect query = locked (connect_locked query)

  unfoldable pub disconnect : Tx Result
  disconnect = locked disconnect_locked

  unfoldable pub status : Tx Result
  status = locked status_locked

  abbrev pub query_of : Metadata → Query
  query_of m = record { country = m.country; city = m.city; server = [] }

  -- `Reconnect`
  unfoldable pub reconnect : Bool → Tx Result
  reconnect fresh = do
    lift (reject_if (not fresh) "reconnect requires fresh server selection")
    locked (do m ← load; disconnect_locked; connect_locked (query_of m))
