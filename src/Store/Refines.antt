-- ===== src/Store/Refines.antt =====
-- The journal file of internal/state against the journal that internal/tunnel asks its store to keep.
use nordmac.Base.{
  Bool, Option, none, some, List, [], ◌∷◌, text_eq, Text, ==-refl, Error, Sentinel, is_error,
  reject_if-ne-panic, >>-ne-panic, ◌≡◌, refl, sym, ap, subst, ◌∙◌, inl, inr, All, Bool-cases,
}
use nordmac.Base.Actions.{lift, within, map_error, cleanup, ◌>>=◌, ◌>>◌}
use nordmac.Base.Triples.{
  Triple, Post, Triple-pure, Triple-gets, Triple-lift, Triple-bind, Triple-weaken, Triple-assume,
  Triple-map_error, Triple-finally, Triple-cleanup,
}
use nordmac.Base.Calls.{Triple-perform}
use nordmac.Tunnel.Types.{Journal}
use nordmac.Helper.Frames.{Codec}
use nordmac.Store.Info.{validate_private_info}
use nordmac.Store.Files.{
  FilePath, directory, journal_file, temporary, Call, mkdir_all, lstat, open_directory, create_temp,
  write, sync, close, link, rename, remove, History, World, Tx, do_call, check_context,
  ensure_directory, sync_directory, result_of,
}
use nordmac.Store.Journals.{
  encode_journal, link_error, path, fill, write_temporary, validate_existing, create, update,
}
use nordmac.Store.Contents.{Content, known, temporary_holds, journal_holds}
use nordmac.Store.Encoded.{Represents, Encoded, encode_journal-Encoded, encode_journal-ne-panic}

module _ (start : List Content) (id : Text) (w : World) (codec : Codec Journal)
    (directory_fits : Bool) where
  -- Whatever the file of the session may hold is one of these journals.
  abbrev pub Refines : List (Option Journal) → History → Type 0
  Refines cs h = All (Represents codec cs) (journal_holds start id h)

  pub Refines-later :
      (x : Option Journal) (cs : List (Option Journal)) (contents : List Content)
      → All (Represents codec cs) contents
      → All (Represents codec (x ∷ cs)) contents
  Refines-later x cs [] a = tt
  Refines-later x cs (c ∷ contents) a = (inr a.0, Refines-later x cs contents a.1)

  pub Refines-widen :
      (j : Journal) (cs : List (Option Journal)) (contents : List Content)
      → All (Represents codec (some j ∷ [])) contents
      → All (Represents codec (some j ∷ cs)) contents
  Refines-widen j cs [] a = tt
  Refines-widen j cs (c ∷ contents) (inl x, a) = (inl x, Refines-widen j cs contents a)
  Refines-widen j cs (c ∷ contents) (inr x, a) = absurd x

  abbrev pub Quiet : (History → Type 0) → Call → Type 0
  Quiet R call = (h : History) (e : Option Error) → R h → R (record { call = call; error = e } ∷ h)

  -- A call that what holds does not see.
  pub Triple-quiet :
      (R : History → Type 0) (f : Error → Error) (call : Call)
      → Quiet R call
      → Triple R (map_error f (do_call w call)) (λ _. R) (λ _. R)
  Triple-quiet R f call quiet =
      Triple-map_error f _
        (Triple-perform w.fails call (λ h r _. quiet h none r) (λ h e r _. quiet h (some e) r))

  pub Triple-check_context : (R : History → Type 0) → Triple R (check_context w) (λ _. R) (λ _. R)
  unfolding check_context
  Triple-check_context R = record { at = λ h r. by_error (w.cancelled h) h r }
    where
      by_error : (e : Option Error) (h : History) → R h → Post (λ _. R) (λ _. R) (result_of e) h
      by_error none h r = r
      by_error (some e) h r = r

  Triple-ensure_directory :
      (R : History → Type 0)
      → Quiet R (mkdir_all directory)
      → Quiet R (lstat directory)
      → Triple R (ensure_directory w) (λ _. R) (λ _. R)
  unfolding ensure_directory validate_private_info
  Triple-ensure_directory R a b = Triple-bind (Triple-quiet R _ _ a) λ _.
      Triple-bind {Q = λ _. R} (Triple-gets _ (λ h r. r)) λ info.
        Triple-bind (Triple-quiet R _ _ b) λ _.
          Triple-bind {Q = λ _. R}
            (Triple-lift _ (reject_if-ne-panic _ _) (λ _ h _ r. r) (λ _ h _ r. r))
            λ _.
              Triple-lift _
                (>>-ne-panic _ _ (reject_if-ne-panic _ _)
                  (>>-ne-panic _ _ (reject_if-ne-panic _ _) (reject_if-ne-panic _ _)))
                (λ _ h _ r. r) (λ _ h _ r. r)

  pub Triple-path :
      (R : History → Type 0) (i : Text)
      → Quiet R (mkdir_all directory)
      → Quiet R (lstat directory)
      → Triple R (path w directory_fits codec i) (λ p h. R h × (p ≡ journal_file i)) (λ _. R)
  unfolding path
  Triple-path R i a b =
      Triple-bind {Q = λ _. R}
        (Triple-lift _ (reject_if-ne-panic _ _) (λ _ h _ r. r) (λ _ h _ r. r))
        λ _.
          Triple-bind {Q = λ _. R}
            (Triple-lift _ (reject_if-ne-panic _ _) (λ _ h _ r. r) (λ _ h _ r. r))
            λ _.
              Triple-bind (Triple-ensure_directory R a b)
                λ _. Triple-pure (journal_file i) (λ h r. (r, refl))

  -- The temporary file of this suffix holds this.
  Filled : List (Option Journal) → Text → Content → History → Type 0
  Filled cs q c h = Refines cs h × (temporary_holds q h ≡ c)

  Triple-fill :
      (cs : List (Option Journal)) (q bytes : Text)
      → Triple
          (Filled cs q (known []))
          (fill w directory_fits codec (temporary q) bytes)
          (λ p h. Filled cs q (known bytes) h × (p ≡ temporary q))
          (λ _. Refines cs)
  unfolding fill Filled journal_holds temporary_holds
  Triple-fill cs q bytes =
      Triple-bind
        (Triple-weaken (Triple-quiet (Filled cs q (known [])) _ _ (λ h e r. r)) (λ h r. r)
          (λ _ h r. r) (λ _ h r. r.0))
        λ _.
          Triple-bind {Q = λ _. Filled cs q (known bytes)}
            (Triple-map_error _ _ (
              Triple-perform w.fails (write (temporary q) bytes)
                (λ h r _. (r.0, rw (==-refl q, r.1) refl)) (λ h e r _. r.0)))
            λ _.
              Triple-bind
                (Triple-weaken (Triple-quiet (Filled cs q (known bytes)) _ _ (λ h e r. r))
                  (λ h r. r) (λ _ h r. r) (λ _ h r. r.0))
                λ _. Triple-pure (temporary q) (λ h r. (r, refl))

  Triple-write_temporary :
      (cs : List (Option Journal)) (bytes : Text)
      → Triple
          (Refines cs)
          (write_temporary w directory_fits codec bytes)
          (λ p h. (q : Text) × Filled cs q (known bytes) h × (p ≡ temporary q))
          (λ _. Refines cs)
  unfolding write_temporary Filled journal_holds temporary_holds
  Triple-write_temporary cs bytes =
      Triple-bind {Q = λ _. Refines cs} (Triple-gets _ (λ h r. r)) λ q.
        Triple-bind {Q = λ _. Filled cs q (known [])}
          (Triple-map_error _ _ (
            Triple-perform w.fails (create_temp q) (λ h r _. (r, rw (==-refl q) refl))
              (λ h e r _. r)))
          λ _.
            Triple-finally (Triple-fill cs q bytes)
              (λ p.
                Triple-weaken
                  (Triple-quiet (λ h. Filled cs q (known bytes) h × (p ≡ temporary q)) _ _
                    (λ h e r. r))
                  (λ h r. r) (λ _ h r. (q, r.0, r.1)) (λ _ h r. r.0.0))
              (λ e. Triple-quiet (Refines cs) _ _ (λ h e r. r))

  pub Triple-sync_directory :
      (R : History → Type 0)
      → Quiet R open_directory
      → Quiet R (sync directory)
      → Quiet R (close directory)
      → Triple R (sync_directory w) (λ _. R) (λ _. R)
  unfolding sync_directory
  Triple-sync_directory R a b c = Triple-bind (Triple-quiet R _ _ a) λ _.
      Triple-cleanup (Triple-quiet R _ _ b)
        (λ _. Triple-perform w.fails _ (λ h r _. c h none r) (λ h e r _. c h (some e) r))
        (λ _. Triple-perform w.fails _ (λ h r _. c h none r) (λ h e r _. c h (some e) r))

  -- The temporary file is removed, whatever became of it.
  Triple-remove_temporary :
      (cs : List (Option Journal)) (q : Text)
      → Triple (Refines cs) (do_call w (remove (temporary q))) (λ _. Refines cs) (λ _. Refines cs)
  unfolding journal_holds
  Triple-remove_temporary cs q = Triple-perform w.fails _ (λ h r _. r) (λ h e r _. r)

  module _ (cs : List (Option Journal)) (j : Journal) (same : j.session_id ≡ id) (q bytes : Text)
      (e : Encoded codec j bytes) where
    Triple-link :
        Triple
          (Filled cs q (known bytes))
          (map_error link_error (do_call w (link (temporary q) (journal_file id))))
          (λ _. Refines (some j ∷ []))
          (λ _. Refines (some j ∷ cs))
    unfolding Filled journal_holds
    Triple-link = Triple-map_error _ _ (
        Triple-perform w.fails _ (λ h r _. rw (==-refl id, r.1) ((inl (e.content, e.kept), tt)))
          (λ h x r _. elim (Bool-cases (is_error x Sentinel.exist)) [
            | inl there ↦ rw (==-refl id, there) (Refines-later (some j) cs _ r.0)
            | inr other ↦
                rw (==-refl id, other, r.1)
                  ((inl (e.content, e.kept), Refines-later (some j) cs _ r.0))
          ]))

    Triple-rename :
        Triple
          (Filled cs q (known bytes))
          (within "replace tunnel journal" (do_call w (rename (temporary q) (journal_file id))))
          (λ _. Refines (some j ∷ []))
          (λ _. Refines (some j ∷ cs))
    unfolding Filled journal_holds
    Triple-rename = Triple-map_error _ _ (
        Triple-perform w.fails _ (λ h r _. rw (==-refl id, r.1) ((inl (e.content, e.kept), tt)))
          (λ h x r _.
            rw (==-refl id, r.1) ((inl (e.content, e.kept), Refines-later (some j) cs _ r.0))))

  module _ (cs : List (Option Journal)) (j : Journal) (same : j.session_id ≡ id) where
    -- What follows the temporary file: the journal file is replaced, and the directory synchronised.
    Triple-publish :
        (q bytes : Text) (m : Tx (Unit {0}))
        → Triple
            (Filled cs q (known bytes))
            m
            (λ _. Refines (some j ∷ []))
            (λ _. Refines (some j ∷ cs))
        → Triple
            (Filled cs q (known bytes))
            (cleanup (do_call w (remove (temporary q))) (do m; sync_directory w))
            (λ _. Refines (some j ∷ []))
            (λ _. Refines (some j ∷ cs))
    unfolding journal_holds
    Triple-publish q bytes m tr =
        Triple-cleanup
          (Triple-bind tr λ _.
            Triple-weaken
              (Triple-sync_directory (Refines (some j ∷ [])) (λ h e r. r) (λ h e r. r) (λ h e r. r))
              (λ h r. r) (λ _ h r. r) (λ _ h r. Refines-widen j cs _ r))
          (λ _. Triple-remove_temporary (some j ∷ []) q)
          (λ _. Triple-remove_temporary (some j ∷ cs) q)

    -- The encoded journal and its temporary file.
    Triple-prepare :
        (m : Text → FilePath → Tx (Unit {0}))
        → ((q bytes : Text)
            → Encoded codec j bytes
            → Triple
                (Filled cs q (known bytes))
                (m bytes (temporary q))
                (λ _. Refines (some j ∷ []))
                (λ _. Refines (some j ∷ cs)))
        → Triple
            (Refines cs)
            (do
              bytes ← lift (encode_journal codec j)
              t ← write_temporary w directory_fits codec bytes
              m bytes t)
            (λ _. Refines (some j ∷ []))
            (λ _. Refines (some j ∷ cs))
    Triple-prepare m publish =
        Triple-bind {Q = λ bytes h. Refines cs h × Encoded codec j bytes}
          (Triple-lift _ (encode_journal-ne-panic codec j)
            (λ bytes h e r. (r, encode_journal-Encoded codec j bytes e))
            (λ _ h _ r. Refines-later (some j) cs _ r))
          λ bytes. Triple-assume λ encoded.
            Triple-bind
              (Triple-weaken (Triple-write_temporary cs bytes) (λ h r. r) (λ _ h r. r)
                (λ _ h r. Refines-later (some j) cs _ r))
              λ t. record {
                at = λ h (q, filled, e).
                    subst
                      (λ p.
                        Post (λ _. Refines (some j ∷ [])) (λ _. Refines (some j ∷ cs))
                          (m bytes p h).0 (m bytes p h).1)
                      (sym e) ((publish q bytes encoded).at h filled);
              }

    Triple-located :
        (m : FilePath → Tx (Unit {0}))
        → Triple
            (Refines cs)
            (m (journal_file id))
            (λ _. Refines (some j ∷ []))
            (λ _. Refines (some j ∷ cs))
        → Triple
            (Refines cs)
            (do check_context w; p ← path w directory_fits codec j.session_id; m p)
            (λ _. Refines (some j ∷ []))
            (λ _. Refines (some j ∷ cs))
    unfolding journal_holds
    Triple-located m tr =
        Triple-bind {Q = λ _. Refines cs}
          (Triple-weaken (Triple-check_context (Refines cs)) (λ h r. r) (λ _ h r. r)
            (λ _ h r. Refines-later (some j) cs _ r))
          λ _.
            Triple-bind
              (Triple-weaken (Triple-path (Refines cs) j.session_id (λ h e r. r) (λ h e r. r))
                (λ h r. r) (λ _ h r. r) (λ _ h r. Refines-later (some j) cs _ r))
              λ p. Triple-assume λ e. rw (e ∙ ap journal_file same) tr

    -- `Create` of this session's journal.
    pub Triple-create :
        Triple
          (Refines cs)
          (create w directory_fits codec j)
          (λ _. Refines (some j ∷ []))
          (λ _. Refines (some j ∷ cs))
    unfolding create
    Triple-create =
        Triple-located _
          (Triple-prepare _ λ q bytes e. Triple-publish q bytes _ (Triple-link cs j same q bytes e))

    Triple-validate_existing :
        Triple
          (Refines cs)
          (validate_existing w directory_fits codec (journal_file id))
          (λ _. Refines cs)
          (λ _. Refines cs)
    unfolding validate_existing journal_holds validate_private_info
    Triple-validate_existing = Triple-bind {Q = λ _. Refines cs} (Triple-gets _ (λ h r. r)) λ info.
        Triple-bind (Triple-quiet (Refines cs) _ _ (λ h e r. r)) λ _.
          Triple-bind {Q = λ _. Refines cs}
            (Triple-lift _ (reject_if-ne-panic _ _) (λ _ h _ r. r) (λ _ h _ r. r))
            λ _.
              Triple-lift _
                (>>-ne-panic _ _ (reject_if-ne-panic _ _)
                  (>>-ne-panic _ _ (reject_if-ne-panic _ _) (reject_if-ne-panic _ _)))
                (λ _ h _ r. r) (λ _ h _ r. r)

    -- `Update` of this session's journal.
    pub Triple-update :
        Triple
          (Refines cs)
          (update w directory_fits codec j)
          (λ _. Refines (some j ∷ []))
          (λ _. Refines (some j ∷ cs))
    unfolding update
    Triple-update = Triple-located _ (
        Triple-bind
          (Triple-weaken Triple-validate_existing (λ h r. r) (λ _ h r. r)
            (λ _ h r. Refines-later (some j) cs _ r))
          λ _.
            Triple-prepare _
              λ q bytes e. Triple-publish q bytes _ (Triple-rename cs j same q bytes e))
