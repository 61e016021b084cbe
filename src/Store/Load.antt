-- ===== src/Store/Load.antt =====
-- `JournalStore.Load` of internal/state/journal.go against the journals that may be on disk.
use nordmac.Base.{
  Bool, true, Option, none, some, List, [], ◌∷◌, ◌++◌, Text, Error, Sentinel, is_error, ok, err,
  panic, Check, message, wrap, reject_if-ne-panic, ◌≡◌, ◌≢◌, refl, sym, subst, ◌∙◌, inl, inr, All,
  Bool-cases, arith, pass, String,
}
use nordmac.Base.Actions.{pure, lift, within, map_error, ◌>>=◌, ◌>>◌}
use nordmac.Base.Triples.{
  Triple, Post, Post-ok, Post-err, ok-injective, Triple-pure, Triple-gets, Triple-lift, Triple-bind,
  Triple-weaken, Triple-assume, Triple-map_error, Triple-cleanup, Attempted, Triple-attempt,
  Triple-weaken, Triple-raise,
}
use nordmac.Base.Calls.{Triple-perform}
use nordmac.Tunnel.Types.{Journal}
use nordmac.Tunnel.Journal.{validate_journal}
use nordmac.Tunnel.Validity.Total.{validate_journal-ne-panic}
use nordmac.Tunnel.Safety.Disconnect.{MayBe}
use nordmac.Helper.Frames.{Codec, decoded}
use nordmac.Store.Files.{
  directory, journal_file, mkdir_all, lstat, open_read, new_file, fstat, read, close, Call, History,
  World, do_call, check_context, ensure_directory, result_of,
}
use nordmac.Store.Journals.{newline, missing_error, path, load_open, with_file, load}
use nordmac.Store.Plain.{
  Plain, Foreign, reject_if-Foreign, validate_private_info-Foreign, validate_private_info-ne-panic,
}
use nordmac.Store.Contents.{Content, absent, known, journal_holds, IsAmong, IsHonest}
use nordmac.Store.Encoded.{Represents, content_bytes}
use nordmac.Store.Refines.{Refines}

-- The codec brings this journal back from the bytes that are written for it.
abbrev pub IsReturned : Codec Journal → Option Journal → Type 0
IsReturned codec none = Unit
IsReturned codec (some j) =
    (d : Text) → codec.marshal j ≡ some d → codec.unmarshal (d ++ newline) ≡ some (j, true)

module _ (start : List Content) (id : Text) (w : World) (codec : Codec Journal)
    (directory_fits : Bool) (honest : IsHonest start id w) (cs : List (Option Journal))
    (faithful : All (IsReturned codec) cs) where
  abbrev Now : History → Type 0
  Now h = Refines start id w codec directory_fits cs h

  abbrev Fails : Error → History → Type 0
  Fails e h = is_error e Sentinel.journal_not_found ≡ true → MayBe none cs

  plain : (e : Error) (h : History) → Plain e → Fails e h
  plain e h p q = absurd (ground (arith, p, q))

  Triple-checked : (k : Check) → k ≢ panic → Foreign k → Triple Now (lift k) (λ _. Now) Fails
  Triple-checked k n f = Triple-lift k n (λ _ h _ r. r) (λ e h x r. plain e h (f e x))

  -- A call that changes nothing here, with its error wrapped.
  Triple-asked :
      (m : String) (call : Call)
      → ((h : History) (e : Option Error) → Now h → Now (record { call = call; error = e } ∷ h))
      → Triple Now (within m (do_call w call)) (λ _. Now) Fails
  unfolding is_error
  Triple-asked m call quiet = Triple-map_error (wrap m) _ (
      Triple-perform w.fails call (λ h r _. quiet h none r)
        (λ h e r x. plain (wrap m e) h (honest.foreign h call e x)))

  Triple-context : Triple Now (check_context w) (λ _. Now) Fails
  unfolding check_context
  Triple-context = record { at = λ h r. by_error h (w.cancelled h) refl r }
    where
      by_error :
          (h : History) (e : Option Error)
          → w.cancelled h ≡ e
          → Now h
          → Post (λ (_ : Unit {0}). Now) Fails (result_of e) h
      by_error h none x r = r
      by_error h (some e) x r = plain e h (honest.foreign_context h e x)

  Triple-path_of :
      Triple Now (path w directory_fits codec id) (λ p h. Now h × (p ≡ journal_file id)) Fails
  unfolding path ensure_directory journal_holds
  Triple-path_of =
      Triple-bind (Triple-checked _ (reject_if-ne-panic _ _) (reject_if-Foreign _ _)) λ _.
        Triple-bind (Triple-checked _ (reject_if-ne-panic _ _) (reject_if-Foreign _ _)) λ _.
          Triple-bind
            (Triple-bind (Triple-asked _ (mkdir_all directory) (λ h e r. r)) λ _.
              Triple-bind {Q = λ _. Now} (Triple-gets _ (λ h r. r)) λ info.
                Triple-bind (Triple-asked _ (lstat directory) (λ h e r. r)) λ _.
                  Triple-bind (Triple-checked _ (reject_if-ne-panic _ _) (reject_if-Foreign _ _))
                    λ _.
                      Triple-checked _ (validate_private_info-ne-panic _ _ _)
                        (validate_private_info-Foreign _ _ _))
            λ _. Triple-pure (journal_file id) (λ h r. (r, refl))

  IsFound : List (Option Journal) → Text → Type 0
  IsFound xs bytes =
      (j : Journal) × (codec.unmarshal bytes ≡ some (j, true))
      × (validate_journal j ≡ pass)
      × MayBe (some j) xs

  of_journal :
      (m : Option Text) (j : Journal) (bytes : Text)
      → codec.marshal j ≡ m
      → content_bytes m ≡ known bytes
      → IsReturned codec (some j)
      → codec.unmarshal bytes ≡ some (j, true)
  of_journal none j bytes m e v = cc
  of_journal (some d) j bytes m e v =
      let same : d ++ newline ≡ bytes = ground (arith, e) in
      subst (λ b. codec.unmarshal b ≡ some (j, true)) same (v d m)

  of_bytes :
      (xs : List (Option Journal)) (c : Content) (bytes : Text)
      → All (IsReturned codec) xs
      → Represents codec xs c
      → c ≡ known bytes
      → IsFound xs bytes
  unfolding IsFound
  of_bytes [] c bytes f r e = absurd r
  of_bytes (none ∷ xs) c bytes f (inl (x, kept)) e = absurd (absent_known (x ∙ e))
    where
      absent_known : absent ≢ known bytes
      absent_known h = cc
  of_bytes (some j ∷ xs) c bytes f (inl (x, kept)) e =
      (j, of_journal (codec.marshal j) j bytes refl (x ∙ e) f.0, kept, inl refl)
  of_bytes (x ∷ xs) c bytes f (inr r) e =
      let (j, u, v, m) = of_bytes xs c bytes f.1 r e in (j, u, v, inr m)

  of_absent :
      (xs : List (Option Journal)) (c : Content)
      → Represents codec xs c
      → c ≡ absent
      → MayBe none xs
  of_absent [] c r e = absurd r
  of_absent (none ∷ xs) c (inl x) e = inl refl
  of_absent (some j ∷ xs) c (inl (x, kept)) e = absurd (bytes_absent (codec.marshal j) (x ∙ e))
    where
      bytes_absent : (m : Option Text) → content_bytes m ≢ absent
      bytes_absent none h = cc
      bytes_absent (some d) h = cc
  of_absent (x ∷ xs) c (inr r) e = inr (of_absent xs c r e)

  -- What is found in the file is the encoding of a journal that may be there.
  found :
      (xs : List (Option Journal)) (contents : List Content) (bytes : Text)
      → All (IsReturned codec) xs
      → All (Represents codec xs) contents
      → IsAmong (known bytes) contents
      → IsFound xs bytes
  found xs [] bytes f a m = absurd m
  found xs (c ∷ contents) bytes f a (inr m) = found xs contents bytes f a.1 m
  found xs (c ∷ contents) bytes f a (inl e) = of_bytes xs c bytes f a.0 e

  not_there :
      (xs : List (Option Journal)) (contents : List Content)
      → All (Represents codec xs) contents
      → IsAmong absent contents
      → MayBe none xs
  not_there xs [] a m = absurd m
  not_there xs (c ∷ contents) a (inr m) = not_there xs contents a.1 m
  not_there xs (c ∷ contents) a (inl e) = of_absent xs c a.0 e

  -- The journal that is decoded is the one that is found.
  Triple-decoded :
      (bytes : Text)
      → IsFound cs bytes
      → Triple Now
          (do
            j ← lift (decoded (codec.unmarshal bytes))
            within "validate tunnel journal" (lift (validate_journal j))
            pure j)
          (λ j h. MayBe (some j) cs)
          Fails
  unfolding IsFound
  Triple-decoded bytes (j, u, v, m) = rw u (
      Triple-bind {Q = λ x h. Now h × (x ≡ j)}
        (Triple-lift _ (λ h. cc) (λ x h e r. (r, sym (ok-injective j x e))) (λ e h x r. cc))
        λ x. Triple-assume λ same. rw same (
          Triple-bind {Q = λ _. Now}
            (Triple-map_error _ _ (
              Triple-lift _ (validate_journal-ne-panic j) (λ _ h _ r. r)
                (λ e h failed r. absurd (not_both (validate_journal j) e v failed))))
            λ _. Triple-pure j (λ h r. m)))
    where
      not_both : (k : Check) (e : Error) → k ≡ pass → k ≢ err e
      not_both k e a b = cc

  Triple-load_open :
      Triple Now
        (load_open w directory_fits codec (journal_file id))
        (λ j h. MayBe (some j) cs)
        Fails
  unfolding load_open journal_holds is_error
  Triple-load_open = Triple-bind {Q = λ _. Now} (Triple-gets _ (λ h r. r)) λ info.
      Triple-bind (Triple-asked _ (fstat (journal_file id)) (λ h e r. r)) λ _.
        Triple-bind
          (Triple-checked _ (validate_private_info-ne-panic _ _ _)
            (validate_private_info-Foreign _ _ _))
          λ _.
            Triple-bind {Q = λ b h. Now h × (b ≡ w.contents h (journal_file id))}
              (Triple-gets _ (λ h r. (r, refl)))
              λ bytes.
                Triple-bind {Q = λ _ h. Now h × IsFound cs bytes}
                  (Triple-map_error _ _ (
                    Triple-perform w.fails (read (journal_file id))
                      (λ h (r, same) fine.
                        (r, rw same (found cs _ _ faithful r (honest.reads h fine))))
                      (λ h e r x. plain (wrap "read tunnel journal" e) h (honest.foreign h _ e x))))
                  λ _. Triple-assume λ is.
                    Triple-bind (Triple-checked _ (reject_if-ne-panic _ _) (reject_if-Foreign _ _))
                      λ _. Triple-decoded bytes is

  Triple-opened :
      Triple Now
        (map_error (missing_error "open tunnel journal") (do_call w (open_read (journal_file id))))
        (λ _. Now)
        Fails
  unfolding is_error journal_holds
  Triple-opened = Triple-map_error _ _ (
      Triple-perform w.fails (open_read (journal_file id)) (λ h r _. r)
        (λ h e r x. elim (Bool-cases (is_error e Sentinel.not_exist)) [
          | inl gone ↦ rw gone (λ _. not_there cs _ r (honest.misses h e x gone))
          | inr other ↦ rw other (plain (wrap "open tunnel journal" e) h (honest.foreign h _ e x))
        ]))

  Triple-load : Triple Now (load w directory_fits codec id) (λ j h. MayBe (some j) cs) Fails
  unfolding load journal_holds is_error
  Triple-load = Triple-bind Triple-context λ _. Triple-bind Triple-path_of λ p. Triple-assume λ e.
      rw e (
        Triple-bind Triple-opened
          λ _. Triple-bind (Triple-attempt {F = Fails} new_one) Triple-with_file)
    where
      closed : Triple Now (do_call w (close (journal_file id))) (λ _. Now) (λ _. Now)
      closed = Triple-perform w.fails _ (λ h r _. r) (λ h e r _. r)

      new_one : Triple Now (do_call w new_file) (λ _. Now) (λ _. Now)
      new_one = Triple-perform w.fails _ (λ h r _. r) (λ h e r _. r)

      still :
          (e : Option Error) (h : History)
          → Attempted (λ (_ : Unit {0}). Now) (λ _. Now) e h
          → Now h
      still none h r = r.1
      still (some x) h r = r

      Triple-with_file :
          (e : Option Error)
          → Triple
              (Attempted (λ (_ : Unit {0}). Now) (λ _. Now) e)
              (with_file w directory_fits codec (journal_file id) e)
              (λ j h. MayBe (some j) cs)
              Fails
      Triple-with_file none =
          Triple-weaken
            (Triple-cleanup Triple-load_open
              (λ j. Triple-perform w.fails _ (λ h r _. r) (λ h e r _. r))
              (λ e. Triple-perform w.fails _ (λ h r _. r) (λ h e r _. r)))
            (λ h r. r.1) (λ _ h r. r) (λ _ h r. r)
      Triple-with_file (some x) =
          Triple-bind {Q = λ _. Now}
            (Triple-weaken (Triple-attempt {F = Fails} closed) (λ h r. still (some x) h r)
              (λ a h r. still a h r) (λ _ h r. r))
            λ _.
              Triple-raise _
                (λ h r. plain (message "open tunnel journal: invalid file descriptor") h refl)

  -- `Load` returns a journal that may be on disk, from a file that holds one of the journals that may be
  -- there. The file system answers for the file as it is, and the codec brings these journals back.
  pub load-MayBe :
      (j : Journal) (h : History)
      → Refines start id w codec directory_fits cs h
      → (load w directory_fits codec id h).0 ≡ ok j
      → MayBe (some j) cs
  load-MayBe j h r done = Post-ok (λ j h. MayBe (some j) cs) Fails _ _ j (Triple-load.at h r) done

  -- An error of `Load` that is `ErrJournalNotFound` comes only where there may be no journal.
  pub load-not_found :
      (e : Error) (h : History)
      → Refines start id w codec directory_fits cs h
      → (load w directory_fits codec id h).0 ≡ err e
      → is_error e Sentinel.journal_not_found ≡ true
      → MayBe none cs
  load-not_found e h r failed =
      Post-err (λ j h. MayBe (some j) cs) Fails _ _ e (Triple-load.at h r) failed
