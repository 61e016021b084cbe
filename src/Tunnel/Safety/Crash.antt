-- ===== src/Tunnel/Safety/Crash.antt =====
-- A crash at any point of `Connect`, and the recovery by `Disconnect` after it.
use nordmac.Base.{[], ◌∷◌, ◌++◌, ◌≡◌, ok, ℤ, Text, subst}
use nordmac.Tunnel.Types.{Plan, Journal}
use nordmac.Tunnel.World.{History, World, State}
use nordmac.Tunnel.Connect.{connect}
use nordmac.Tunnel.Disconnect.{disconnect}
use nordmac.Tunnel.Safety.Host.{IsSafe, IsClear}
use nordmac.Tunnel.Safety.Whole.{connect-IsSafe}
use nordmac.Tunnel.Safety.Disconnect.{IsHonestStore, disconnect-IsClear}

pub IsSafe-suffix : (later h : History) → IsSafe (later ++ h) → IsSafe h
IsSafe-suffix [] h s = s
IsSafe-suffix (e ∷ later) h s = IsSafe-suffix later h s.1

-- From an idle host, let `Connect` stop after any of its calls, as by a crash, whatever failed before. A
-- later `Disconnect`, in any world whose journal store loads what is on disk, that returns without an
-- error leaves nothing owned: no route, no device and no DNS setting.
pub crash-disconnect-IsClear :
    (w : World) (plan : Plan) (s : State) (later h : History) (w' : World) (j : Journal)
    (session : Text) (owner : ℤ)
    → IsSafe s.history
    → IsClear s.history
    → (connect w plan s).1.history ≡ later ++ h
    → IsHonestStore w' session
    → let t : State = record { journal = j; history = h } in
      (disconnect w' session owner t).0 ≡ ok tt → IsClear (disconnect w' session owner t).1.history
crash-disconnect-IsClear w plan s later h w' j session owner safe clear cut honest done =
    disconnect-IsClear w' session owner (record { journal = j; history = h }) honest
      (IsSafe-suffix later h (subst IsSafe cut (connect-IsSafe w plan s safe clear))) done
