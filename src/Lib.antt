-- ===== src/Lib.antt =====
-- nordmac: a verification library beside the Go code of the NordVPN client for macOS.
--
-- The privileged helper (internal/helperdaemon) brings a tunnel up and down through the controller of
-- internal/tunnel, which writes each change of the host to a journal before and after it makes it, so
-- that a crash or a failure at any point can be undone.
--
-- The unprivileged program runs the connection commands of internal/connection, which reach the helper
-- through the framed requests of internal/helperproto and keep a record of the session; it
-- keeps its credential pair through internal/authstate and internal/loginflow, and chooses a server with
-- internal/recommend.
--
-- The files and the code that they model:
--   Base          lists, Boolean tests, errors of Go (wrapped and joined), outcomes with panics, and
--                 the actions and triples (preconditions and postconditions) that state passing code
--                 is written and proved with
--   Netip         the addresses and prefixes of Go's net/netip that the code calls
--   Patterns      the regular expressions and character classes of internal/tunnel/model.go
--   Tunnel.Types, Tunnel.Plan, Tunnel.Journal
--                 internal/tunnel/model.go: Plan, Journal, their Validate methods, the routes of a plan
--   Tunnel.Phases, Tunnel.World, Tunnel.Steps, Tunnel.Rollback, Tunnel.Connect, Tunnel.Disconnect
--                 internal/tunnel/controller.go: Controller.Connect, Controller.Disconnect,
--                 Controller.rollback and their helpers
--   Tunnel.Validity, Tunnel.Panics
--                 the validation of journals
--   Tunnel.Safety the host behind the journal: calls, errors, crashes and recovery
--   Tunnel.Tests  runs of the controller and the theorems at concrete inputs
--   Store         internal/state/journal.go and lock.go: JournalStore and FileLocker
--   Connection    internal/connection/service.go and state.go: Connect, Disconnect, Status, Reconnect and
--                 the metadata file
--   Daemon        internal/helperdaemon/daemon.go: Run, connectAndServe, serve, handle, recoverSession,
--                 fullVerifier, and the helper's directories and socket
--   Devices       internal/wgbackend/backend.go and secrets.go: Manager and OneShotSecrets
--   Helper        internal/helperproto/protocol.go: requests, responses, secrets and their frames
--   Credentials   internal/authstate/service.go, internal/loginflow/service.go and the store interface
--                 of internal/credentials/credentials.go: Login, Inspect, LogoutLocal
--   Darwin        internal/darwinnet/conflict.go: the conflict check before a connect; dns.go: DNSManager
--                 (Darwin.Dns, Darwin.Network, Darwin.Restore, Darwin.Undone); route.go: RouteManager with
--                 its parsing of the output of route (Darwin.Fields, Darwin.Masks, Darwin.Routes,
--                 Darwin.Total, Darwin.Table, Darwin.Owned) and under the conflict check (Darwin.Free)
--   Strings       the functions of Go's strings and strconv that these call, on bytes
--   Auth          internal/tokeninput/read.go (Auth.Token, Auth.Accepted) and internal/nordauth/client.go:
--                 Provision (Auth.Provision, Auth.Trusted, Auth.Returned)
--   Command       internal/command/run.go: the arguments, the dispatch and the exit codes
--   Recommend     internal/recommend/recommend.go and the types of internal/catalog/catalog.go
--
-- State. The controller's state is the journal variable of Connect and Disconnect and the history of the
-- calls made so far (Tunnel.World.State). What the dependencies of Controller (journal store, routes,
-- devices, DNS, locks, conflict checker, verifier, clock) answer is a World: a function of the history,
-- so that a dependency may fail at any call and may change its mind. A mutation of the host that fails
-- may still have taken effect (Tunnel.Safety.Host.owned), and so may a failed write of the journal
-- (on_disk lists every journal that may be on disk after it). A nil dependency that is called and an
-- index out of range are the outcome `panic`. The loops are over lists or count down an index, so
-- nothing needs fuel. Times are numbers, the zero time is 0, and nextTime adds one to the time that it
-- does not move past.
--
-- The credential services run against a store, a lock and a provisioner that answer by the history of
-- calls, too; a write of a credential that fails may have taken effect. The frames are written to an
-- io.Writer that may fail or take less than it is given, and read from the bytes that arrive.
--
-- The journal store and the lock make system calls, and the devices call runtimes, each of which may be
-- refused (Store.Files, Devices.Manager); a rename, link or removal that is refused may have taken effect
-- (Store.Contents). Store.Calls relates the journal file to what Tunnel.Safety.Host expects on disk.
--
-- The helper (Daemon) runs over the history of its calls, in which the controller's Connect and Disconnect,
-- the managers' queries, the socket and the clock each are calls that may fail. Its loops over connections
-- and over handshakes have no end of their own, so serve and Verify take a number of rounds and say whether
-- they still run after it. Times are in nanoseconds.
--
-- The route and DNS managers (Darwin) run commands on a host of any type, by an arbitrary runner that may
-- fail; their theorems take as hypotheses what the commands read and change (NetworkSetup, RoutingTable).
-- The command line (Command) records the calls of its backend and what it writes; where a result is
-- written as text, its lines are one call.
--
-- The connection commands (Connection) run over the history of their calls too. A rename or a removal of
-- the metadata file that fails may have taken effect (Connection.Recorded).
--
-- Parameters: the recommender, the connection report and the helper client as the commands call
-- them, the source of random bytes, the controller and the peer's credentials as the helper calls
-- them, the file system, the WireGuard runtimes with their snapshots, the SHA-256 digest, the JSON
-- codecs, the text functions of Go's strings and unicode packages, the base64 decoder, the
-- credential store, the lock and the provisioner, the command runner of internal/darwinnet, the
-- text forms of net/netip, and, to the command line, its backend, the token input and the planned
-- report; to the credential exchange, http.Client.Do, of which it is supposed that a client whose
-- CheckRedirect refuses every redirection sends no other request (SendsOnly), and the URL and JSON parsers.
--
-- What is not modelled: the wiping of secret buffers, the cancellation of contexts beyond which of
-- the two contexts a call gets and when the helper's context is cancelled, the text of error
-- messages beyond what errors.Is can see, the value that a command of internal/connection returns
-- beside an error, the JSON forms, the adapter to wireguard-go in internal/wgbackend/runtime.go,
-- the list of network services and the interface addresses of internal/darwinnet, the HTTP exchange
-- of internal/nordapi, the keychain processes, and internal/connectplan, internal/helperclient,
-- internal/cache, internal/credentiallock and internal/command/service.go.
pub mod Auth
pub mod Base
pub mod Command
pub mod Connection
pub mod Credentials
pub mod Daemon
pub mod Darwin
pub mod Devices
pub mod Helper
pub mod Netip
pub mod Patterns
pub mod Recommend
pub mod Store
pub mod Strings
pub mod Tunnel
