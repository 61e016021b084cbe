-- ===== src/Connection/Tests.antt =====
-- A connection and its disconnection, on a host that answers every call.
use nordmac.Base.{
  Bool, true, false, Option, none, some, List, [], ◌∷◌, Error, message, sentinel, Sentinel,
  is_error, ok, panic, ap, Text-discrete, ℤ-discrete, ℕ_discrete, pos, ◌≡◌, ◌≢◌, inl, refl,
  some-injective, subst, sym, arith, replicate,
}
use nordmac.Netip.{v4}
use nordmac.Tunnel.Examples.{session, host_route}
use nordmac.Tunnel.Types.{connected}
use nordmac.Helper.Protocol.{Operation, disconnect_operation, no_error}
use nordmac.Recommend.Select.{Server}
use nordmac.Connection.World.{
  ConnectionPhase, is_connecting, Metadata, Query, Call, read_metadata, World,
}
use nordmac.Connection.Recorded.{
  Content, absent, unknown, recorded, file_holds, pending, IsAmong, IsRecorded, IsHonest,
}
use nordmac.Connection.Commands.{
  connect_command, disconnect_command, status_command, run, run-IsRecorded,
}

abbrev some_server : Server
some_server = record {
  id = pos 1;
  name = b's' ∷ [];
  hostname = b's' ∷ [];
  station = [];
  load = pos 1;
  status = [];
  country_id = pos 1;
  country_name = b'c' ∷ [];
  country_code = [];
  city_id = pos 1;
  city_name = b'd' ∷ [];
  city_slug = [];
  wireguard_pub_key = b'k' ∷ [];
}

abbrev metadata : Metadata
metadata = record {
  schema = pos 1;
  session_id = session;
  server = b's' ∷ [];
  country = b'c' ∷ [];
  city = b'd' ∷ [];
  phase = is_connecting;
  created_at = 9;
}

unfoldable ConnectionPhase-discrete : Discrete ConnectionPhase
unfolding Text-discrete
ConnectionPhase-discrete = hlevel Text-discrete

unfoldable Metadata-discrete : Discrete Metadata
unfolding Text-discrete ℤ-discrete ℕ_discrete ConnectionPhase-discrete
Metadata-discrete = hlevel (Text-discrete, ℤ-discrete, ℕ_discrete, ConnectionPhase-discrete)

-- The file can be read where it is this metadata.
abbrev same_or_fail : {m : Metadata} → Dec (m ≡ metadata) → Option Error
same_or_fail (yes p) = none
same_or_fail (no n) = some (message "unreadable")

abbrev read_error : List Content → Option Error
read_error (absent ∷ cs) = some (sentinel Sentinel.not_exist)
read_error (recorded m ∷ cs) = same_or_fail (Metadata-discrete m metadata)
read_error cs = some (message "unreadable")

abbrev answer : List Content → Call → Option Error
answer cs read_metadata = read_error cs
answer cs c = none

abbrev is_disconnect : Operation → Bool
is_disconnect disconnect_operation = true
is_disconnect _ = false

-- A host on which the helper refuses to connect, and acknowledges a disconnection.
abbrev host : World
host = record {
  fails = λ h c. answer (file_holds (absent ∷ []) h) c;
  has_locker = true;
  codec = record { marshal = λ m. some (b'{' ∷ []); unmarshal = λ d. some (metadata, true) };
  contents = λ h. [];
  server = λ h q. some_server;
  manifest = λ s. ok (record { ipv4 = []; fingerprint = replicate 64 b'0' });
  key = λ h. b'k' ∷ [];
  routes = λ h. record { default_route = host_route };
  service = λ h i. b'W' ∷ b'i' ∷ [];
  random = λ h. session;
  decode = λ t. some (replicate 32 1);
  parse_endpoint = λ t. some (record { addr = v4 3221225985; port = 51820 });
  digest = λ t. replicate 64 b'0';
  response = λ h r. record {
    schema = pos 2;
    request_id = r.request_id;
    succeeded = is_disconnect r.operation;
    state = connected;
    error_code = no_error;
  };
  clock = λ h. 9;
  uid = pos 501;
}

read_same : (m : Metadata) (d : Dec (m ≡ metadata)) → same_or_fail d ≡ none → m ≡ metadata
read_same m (yes p) h = p
read_same m (no n) h = absurd (ground (arith, h))

reads_first : (cs : List Content) → read_error cs ≡ none → IsAmong (recorded metadata) cs
reads_first [] h = ground (arith, h)
reads_first (absent ∷ cs) h = ground (arith, h)
reads_first (unknown ∷ cs) h = ground (arith, h)
reads_first (recorded m ∷ cs) h = inl (ap recorded (read_same m (Metadata-discrete m metadata) h))

not_missing : Error → Bool
not_missing e = is_error e Sentinel.not_exist

unreadable :
    {m : Metadata} (d : Dec (m ≡ metadata)) (e : Error)
    → same_or_fail d ≡ some e
    → not_missing e ≡ false
unfolding not_missing is_error
unreadable (yes p) e h = ground (arith, h)
unreadable (no n) e h = subst (λ x. not_missing x ≡ false) (some-injective _ e h) refl

misses_first :
    (cs : List Content) (e : Error)
    → read_error cs ≡ some e
    → not_missing e ≡ true
    → IsAmong absent cs
unfolding not_missing is_error
misses_first [] e h gone =
    absurd (ground (arith, subst (λ x. not_missing x ≡ true) (sym (some-injective _ e h)) gone))
misses_first (absent ∷ cs) e h gone = inl refl
misses_first (unknown ∷ cs) e h gone =
    absurd (ground (arith, subst (λ x. not_missing x ≡ true) (sym (some-injective _ e h)) gone))
misses_first (recorded m ∷ cs) e h gone =
    absurd (ground (arith, unreadable (Metadata-discrete m metadata) e h, gone))

host-IsHonest : IsHonest (absent ∷ []) none host
unfolding not_missing
host-IsHonest = record {
  reads = λ h m fine is.
      subst (λ x. IsAmong (recorded x) (file_holds (absent ∷ []) h))
        (ap (λ p. p.0) (some-injective _ (m, true) is))
        (reads_first (file_holds (absent ∷ []) h) fine);
  misses = λ h e failed gone. misses_first (file_holds (absent ∷ []) h) e failed gone;
  random = λ h. refl;
}

no_panic : (s : Server) → host.manifest s ≢ panic
no_panic s h = cc

run-IsRecorded_example :
    let query : Query = record { country = b'c' ∷ []; city = []; server = [] } in
    let cs = connect_command query ∷ status_command ∷ disconnect_command ∷ [] in
    IsRecorded (absent ∷ []) none host (run host cs [])
unfolding pending
run-IsRecorded_example =
    run-IsRecorded (absent ∷ []) none host host-IsHonest no_panic
      (connect_command (record { country = b'c' ∷ []; city = []; server = [] })
        ∷ status_command
        ∷ disconnect_command
        ∷ [])
      [] (λ s h. absurd (ground (arith, h)))
