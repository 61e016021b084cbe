-- ===== src/Connection/Recorded.antt =====
-- The metadata file of internal/connection against the session that the helper may hold.
use nordmac.Base.{
  Bool, true, false, ◌&&◌, Option, none, some, List, [], ◌∷◌, ◌==◌, text_eq, Text, Error, Sentinel,
  is_error, if◌then◌else◌, All, ◌≡◌, ◌⊎◌, inl, inr, subst,
}
use nordmac.Helper.Protocol.{Operation, connect_operation, disconnect_operation, Request, Response}
use nordmac.Connection.World.{
  Metadata, Call, read_metadata, create_temporary, rename_temporary, remove_metadata,
  write_temporary, random_bytes, exchange, History, World,
}

pub data Content : Type 0 where
  absent unknown : Content
  recorded : Metadata → Content

abbrev pub temporary_after : Call → Option Error → Content → Content
temporary_after create_temporary e c = unknown
temporary_after (write_temporary m bytes) none c = recorded m
temporary_after (write_temporary m bytes) (some e) c = unknown
temporary_after call e c = c

-- What the temporary file holds.
unfoldable pub temporary_holds : History → Content
temporary_holds [] = unknown
temporary_holds (e ∷ h) = temporary_after e.call e.error (temporary_holds h)

-- A rename or a removal that fails may have taken effect.
abbrev pub file_after : Content → Call → Option Error → List Content → List Content
file_after t rename_temporary none cs = t ∷ []
file_after t rename_temporary (some e) cs = t ∷ cs
file_after t remove_metadata none cs = absent ∷ []
file_after t remove_metadata (some e) cs = absent ∷ cs
file_after t call e cs = cs

abbrev pub is_session : Option Text → Text → Bool
is_session none id = false
is_session (some s) id = s == id

abbrev pub asked : Response → Request → Operation → Option Error → Option Text → Option Text
asked response r connect_operation e p = some r.session_id
asked response r disconnect_operation none p =
    if response.succeeded && is_session p r.session_id then none else p
asked response r operation e p = p

abbrev pub pending_after : (Request → Response) → Call → Option Error → Option Text → Option Text
pending_after f (exchange r) e p = asked (f r) r r.operation e p
pending_after f call e p = p

abbrev pub IsAmong : Content → List Content → Type 0
IsAmong x [] = ⊥
IsAmong x (y ∷ ys) = (y ≡ x) ⊎ IsAmong x ys

-- The content is metadata of this session.
abbrev pub IsOf : Text → Content → Type 0
IsOf s (recorded m) = m.session_id ≡ s
IsOf s c = ⊥

pub IsOf-among :
    (s : Text) (c : Content) (cs : List Content) → All (IsOf s) cs → IsAmong c cs → IsOf s c
IsOf-among s c [] a m = absurd m
IsOf-among s c (x ∷ cs) a (inl same) = subst (IsOf s) same a.0
IsOf-among s c (x ∷ cs) a (inr m) = IsOf-among s c cs a.1 m

-- What the metadata file may hold; at first, what it may hold when the commands start.
unfoldable pub file_holds : List Content → History → List Content
file_holds start [] = start
file_holds start (e ∷ h) = file_after (temporary_holds h) e.call e.error (file_holds start h)

module _ (start : List Content) (first : Option Text) (w : World) where
  -- The session that the helper was asked to connect, until it has acknowledged its disconnection.
  unfoldable pub pending : History → Option Text
  pending [] = first
  pending (e ∷ h) = pending_after (w.response h) e.call e.error (pending h)

  -- While a session is pending, whatever the file may hold is metadata of that session.
  abbrev pub IsRecorded : History → Type 0
  IsRecorded h = (s : Text) → pending h ≡ some s → All (IsOf s) (file_holds start h)

  -- The file is as it is read, and `crypto/rand` does not fail.
  pub record IsHonest : Type 0 where
    pub reads :
        (h : History) (m : Metadata)
        → w.fails h read_metadata ≡ none
        → w.codec.unmarshal (w.contents h) ≡ some (m, true)
        → IsAmong (recorded m) (file_holds start h)
    pub misses :
        (h : History) (e : Error)
        → w.fails h read_metadata ≡ some e
        → is_error e Sentinel.not_exist ≡ true
        → IsAmong absent (file_holds start h)
    pub random : (h : History) → w.fails h random_bytes ≡ none
