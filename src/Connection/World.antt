-- ===== src/Connection/World.antt =====
-- What internal/connection calls: its lock and metadata file, the credential store, the recommender, the
-- routes and services of the host, and the helper. Any call may fail.
use nordmac.Base.{ℕ, Bool, Option, Text, Error, Outcome, ℤ}
use nordmac.Base.Actions.{Action}
use nordmac.Base.Calls
use nordmac.Base.Calls.{perform}
use nordmac.Netip.{AddrPort}
use nordmac.Tunnel.Types.{RouteSnapshot}
use nordmac.Helper.Protocol.{Request, Response}
use nordmac.Helper.Frames.{Codec}
use nordmac.Recommend.Select.{Server}

pub data ConnectionPhase : Type 0 where
  is_connecting is_connected : ConnectionPhase
  is_other : Text → ConnectionPhase

-- An instant is a count of nanoseconds, 0 the zero time.
pub record Metadata : Type 0 where
  pub schema : ℤ
  pub session_id : Text
  pub server : Text
  pub country : Text
  pub city : Text
  pub phase : ConnectionPhase
  pub created_at : ℕ

-- The `recommend.Query` of a connection.
pub record Query : Type 0 where
  pub country : Text
  pub city : Text
  pub server : Text

-- What the service uses of the report of `connectplan.Build`.
pub record Manifest : Type 0 where
  pub ipv4 : Text
  pub fingerprint : Text

-- A write of the temporary file is the bytes of the metadata.
pub data Call : Type 0 where
  lock_connection release_lock : Call
  read_metadata make_directory create_temporary chmod_temporary sync_temporary : Call
  close_temporary rename_temporary remove_temporary remove_metadata : Call
  write_temporary : Metadata → Text → Call
  recommend : Query → Call
  get_key snapshot_routes random_bytes : Call
  network_service : Text → Call
  exchange : Request → Call

abbrev pub History : Type 0
History = Calls.History Call

-- `uid` is what `service.uid()` returns.
pub record World : Type 0 where
  pub fails : History → Call → Option Error
  pub has_locker : Bool
  pub codec : Codec Metadata
  pub contents : History → Text
  pub server : History → Query → Server
  pub manifest : Server → Outcome Manifest
  pub key : History → Text
  pub routes : History → RouteSnapshot
  pub service : History → Text → Text
  pub random : History → Text
  pub decode : Text → Option Text
  pub parse_endpoint : Text → Option AddrPort
  pub digest : Text → Text
  pub response : History → Request → Response
  pub clock : History → ℕ
  pub uid : ℤ

abbrev pub Tx : Type 0 → Type 0
Tx A = Action History A

module _ (w : World) where
  abbrev pub do_call : Call → Tx (Unit {0})
  do_call = perform w.fails
