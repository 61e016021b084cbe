-- ===== src/Store/Contents.antt =====
-- What the journal file of a session may hold after a history of system calls.
use nordmac.Base.{
  true, false, not, ◌&&◌, Option, none, some, List, [], ◌∷◌, ◌++◌, ◌==◌, text_eq, Text, Error,
  Sentinel, is_error, if◌then◌else◌, ◌≡◌, ◌⊎◌,
}
use nordmac.Store.Files.{
  journal_file, temporary, Call, create_temp, write, link, rename, remove, open_read, read, History,
  World,
}

pub data Content : Type 0 where
  absent unknown : Content
  known : Text → Content

abbrev pub extend : Content → Text → Content
extend (known t) d = known (t ++ d)
extend c d = unknown

abbrev pub temporary_after : Text → Call → Option Error → Content → Content
temporary_after q (create_temp p) none c = if p == q then known [] else c
temporary_after q (create_temp p) (some e) c = if p == q then unknown else c
temporary_after q (write (temporary p) d) none c = if p == q then extend c d else c
temporary_after q (write (temporary p) d) (some e) c = if p == q then unknown else c
temporary_after q _ e c = c

-- What a temporary file holds while it is there.
unfoldable pub temporary_holds : Text → History → Content
temporary_holds q [] = unknown
temporary_holds q (e ∷ h) = temporary_after q e.call e.error (temporary_holds q h)

-- A `Link` or `Rename` that fails may have taken effect, and so may a `Remove`, but a `Link` that
-- finds the file and a `Remove` that finds none change nothing.
abbrev pub journal_after :
    Text → (Text → Content) → Call → Option Error → List Content → List Content
journal_after id t (link (temporary q) (journal_file i)) none cs = if i == id then t q ∷ [] else cs
journal_after id t (link (temporary q) (journal_file i)) (some e) cs =
    if i == id && not (is_error e Sentinel.exist) then t q ∷ cs else cs
journal_after id t (rename (temporary q) (journal_file i)) none cs =
    if i == id then t q ∷ [] else cs
journal_after id t (rename (temporary q) (journal_file i)) (some e) cs =
    if i == id then t q ∷ cs else cs
journal_after id t (remove (journal_file i)) none cs = if i == id then absent ∷ [] else cs
journal_after id t (remove (journal_file i)) (some e) cs = if i == id then absent ∷ cs else cs
journal_after id t _ e cs = cs

-- The contents that the journal file may have; at first, those of `start`.
unfoldable pub journal_holds : List Content → Text → History → List Content
journal_holds start id [] = start
journal_holds start id (e ∷ h) =
    journal_after id (λ q. temporary_holds q h) e.call e.error (journal_holds start id h)

abbrev pub IsAmong : Content → List Content → Type 0
IsAmong x [] = ⊥
IsAmong x (y ∷ ys) = (y ≡ x) ⊎ IsAmong x ys

-- The file system answers for this session's file as it is, and its errors, as those of a context, are
-- not the program's `ErrJournalNotFound`.
pub record IsHonest (start : List Content) (id : Text) (w : World) : Type 0 where
  pub reads :
      (h : History)
      → w.fails h (read (journal_file id)) ≡ none
      → IsAmong (known (w.contents h (journal_file id))) (journal_holds start id h)
  pub misses :
      (h : History) (e : Error)
      → w.fails h (open_read (journal_file id)) ≡ some e
      → is_error e Sentinel.not_exist ≡ true
      → IsAmong absent (journal_holds start id h)
  pub foreign :
      (h : History) (c : Call) (e : Error)
      → w.fails h c ≡ some e
      → is_error e Sentinel.journal_not_found ≡ false
  pub foreign_context :
      (h : History) (e : Error)
      → w.cancelled h ≡ some e
      → is_error e Sentinel.journal_not_found ≡ false
