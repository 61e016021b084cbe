-- ===== src/Tunnel/Safety/Host.antt =====
-- The host as the history of calls leaves it: resources that the controller may own, and the journals
-- that may be on disk. A failed mutation may have taken effect, and so may a failed write.
use nordmac.Base.{
  Bool, true, false, not, ◌&&◌, ◌||◌, Option, none, some, List, [], ◌∷◌, ◌==◌, Eq, ◌≡◌, All,
}
use nordmac.Tunnel.Types.{
  Route, Route-discrete, StepKind, device_step, endpoint_route_step, tunnel_route_step, dns_step,
  rolled_back, status_eq, Entry, Journal,
}
use nordmac.Tunnel.World.{
  Call, create_journal, update_journal, delete_journal, add_route, remove_route, create_device,
  delete_device, apply_dns, restore_dns, History, State,
}

pub data Resource : Type 0 where
  route : Route → Resource
  device dns : Resource

unfoldable pub Resource-discrete : Discrete Resource
unfolding Route-discrete
Resource-discrete = hlevel Route-discrete

instance abbrev pub resource_eq : Eq Resource
resource_eq = record { dec = Resource-discrete }

-- What a call takes hold of, also when it fails.
abbrev pub taken : Call → Option Resource
taken (add_route r) = some (route r)
taken (create_device d) = some device
taken (apply_dns c) = some dns
taken _ = none

-- What a call gives back when it succeeds.
abbrev pub given_back : Call → Option Resource
given_back (remove_route r) = some (route r)
given_back (delete_device s h) = some device
given_back (restore_dns b c) = some dns
given_back _ = none

abbrev pub is_resource : Resource → Option Resource → Bool
is_resource x none = false
is_resource x (some y) = y == x

-- Whether the controller may own the resource.
unfoldable pub owned : Resource → History → Bool
owned x [] = false
owned x (e ∷ h) =
    is_resource x (taken e.call)
    || (not (e.succeeded && is_resource x (given_back e.call)) && owned x h)

abbrev pub write : Bool → Option Journal → List (Option Journal) → List (Option Journal)
write true c cs = c ∷ []
write false c cs = c ∷ cs

abbrev pub disk_after : Call → Bool → List (Option Journal) → List (Option Journal)
disk_after (create_journal j) done cs = write done (some j) cs
disk_after (update_journal j) done cs = write done (some j) cs
disk_after (delete_journal s) done cs = write done none cs
disk_after _ done cs = cs

-- The states of the journal file that a crash may leave; `none` is no file.
unfoldable pub on_disk : History → List (Option Journal)
on_disk [] = none ∷ []
on_disk (e ∷ h) = disk_after e.call e.succeeded (on_disk h)

abbrev pub resource_of : StepKind → Option Route → Option Resource
resource_of device_step r = some device
resource_of dns_step r = some dns
resource_of endpoint_route_step (some r) = some (route r)
resource_of tunnel_route_step (some r) = some (route r)
resource_of _ r = none

-- Whether the entries record the resource as not yet rolled back.
unfoldable pub pending : Resource → List Entry → Bool
pending x [] = false
pending x (e ∷ es) =
    is_resource x (resource_of e.kind e.route) && not (e.status == rolled_back) || pending x es

abbrev pub Covers : Resource → Option Journal → Type 0
Covers x none = ⊥
Covers x (some j) = pending x j.entries ≡ true

-- Whatever the controller may own is pending in every journal that a crash now may leave.
abbrev pub IsCrashSafe : History → Type 0
IsCrashSafe h = (x : Resource) → owned x h ≡ true → All (Covers x) (on_disk h)

-- At this point of the history and at every earlier one.
abbrev pub IsSafe : History → Type 0
IsSafe [] = IsCrashSafe []
IsSafe (e ∷ h) = IsCrashSafe (e ∷ h) × IsSafe h

-- Nothing is owned.
abbrev pub IsClear : History → Type 0
IsClear h = (x : Resource) → owned x h ≡ false

-- The write-ahead invariant: every point of the history is crash-safe, and the entries of the journal
-- in memory record whatever may be owned.
pub record IsLogged (es : List Entry) (h : History) : Type 0 where
  pub safe : IsSafe h
  pub recorded : (x : Resource) → owned x h ≡ true → pending x es ≡ true

-- The invariant of a state.
abbrev pub IsLoggedAt : State → Type 0
IsLoggedAt s = IsLogged s.journal.entries s.history

-- The journal in memory is the one on disk.
abbrev pub IsSaved : State → Type 0
IsSaved s = on_disk s.history ≡ some s.journal ∷ []
