-- ===== src/Store/Encoded.antt =====
-- The bytes of a journal and the journals that a file may stand for (internal/state/journal.go).
use nordmac.Base.{
  Option, none, some, List, [], ◌∷◌, ◌++◌, text_eq, Text, ok, err, panic, Check, pass, ◌+◌, ◌≡◌,
  ◌≢◌, refl, ap, ◌∙◌, ◌⊎◌, inl, inr, Bool-cases, arith, ltb, length,
}
use nordmac.Tunnel.Types.{Journal}
use nordmac.Tunnel.Journal.{validate_journal}
use nordmac.Tunnel.Validity.Total.{validate_journal-ne-panic}
use nordmac.Helper.Frames.{Codec}
use nordmac.Store.Journals.{
  after_check, newline, max_journal_bytes, fit_bytes, marshalled, encode_journal,
}
use nordmac.Store.Contents.{Content, absent, unknown, known}

abbrev pub content_bytes : Option Text → Content
content_bytes none = unknown
content_bytes (some d) = known (d ++ newline)

-- What the file holds for a journal, or for none.
abbrev pub content_of : Codec Journal → Option Journal → Content
content_of codec none = absent
content_of codec (some j) = content_bytes (codec.marshal j)

-- Only valid journals are kept.
abbrev pub IsKept : Option Journal → Type 0
IsKept none = Unit
IsKept (some j) = validate_journal j ≡ pass

-- The content is that of one of these journals.
abbrev pub Represents : Codec Journal → List (Option Journal) → Content → Type 0
Represents codec [] c = ⊥
Represents codec (x ∷ xs) c = ((content_of codec x ≡ c) × IsKept x) ⊎ Represents codec xs c

-- The bytes are those of a valid journal.
pub record Encoded (codec : Codec Journal) (j : Journal) (bytes : Text) : Type 0 where
  pub content : content_of codec (some j) ≡ known bytes
  pub kept : validate_journal j ≡ pass

pub encode_journal-Encoded :
    (codec : Codec Journal) (j : Journal) (bytes : Text)
    → encode_journal codec j ≡ ok bytes
    → Encoded codec j bytes
unfolding encode_journal
encode_journal-Encoded codec j bytes = by_check (validate_journal j) refl (codec.marshal j) refl
  where
    by_size :
        (d : Text)
        → codec.marshal j ≡ some d
        → validate_journal j ≡ pass
        → fit_bytes d ≡ ok bytes
        → Encoded codec j bytes
    by_size d m v h = elim (Bool-cases (ltb max_journal_bytes (length d + 1))) [
      | inl big ↦ ground (arith, h, big)
      | inr fits ↦ record {
        content = ap content_bytes m ∙ ap known (ground (arith, h, fits));
        kept = v;
      }
    ]

    by_check :
        (c : Check)
        → validate_journal j ≡ c
        → (m : Option Text) → codec.marshal j ≡ m
        → after_check c (marshalled m) ≡ ok bytes
        → Encoded codec j bytes
    by_check (ok tt) v none m h = ground (arith, h)
    by_check (ok tt) v (some d) m h = by_size d m v h
    by_check (err e) v m e' h = ground (arith, h)
    by_check panic v m e' h = cc

pub encode_journal-ne-panic : (codec : Codec Journal) (j : Journal) → encode_journal codec j ≢ panic
unfolding encode_journal
encode_journal-ne-panic codec j =
    by_check (validate_journal j) (validate_journal-ne-panic j) (codec.marshal j)
  where
    by_check : (c : Check) → c ≢ panic → (m : Option Text) → after_check c (marshalled m) ≢ panic
    by_check (ok tt) n none h = cc
    by_check (ok tt) n (some d) h = elim (Bool-cases (ltb max_journal_bytes (length d + 1))) [
      | inl big ↦ ground (arith, h, big)
      | inr fits ↦ ground (arith, h, fits)
    ]
    by_check (err e) n m h = cc
    by_check panic n m h = n refl
