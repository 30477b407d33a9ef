-- ===== src/Subs/Lifecycle.antt =====
-- Which drives a sweep transcribes: after a build, a failure, a deletion by the user and a rebuild.
use homeconnect.AppState.{AppState}
use homeconnect.Db.{Db, Segment, Sub}
use homeconnect.Prelude.{
  Bool, Bool-cases, List, Option, [], arith, delete_where, false, find, inl, inr, none, not, refl,
  some, true, ◌&&◌, ◌==◌, ◌∙◌, ◌∷◌, ◌≡◌,
}
use homeconnect.Prelude.Text.{Text, text_eq, text_eq_refl}
use homeconnect.Storage.{exists, fullname_of}
use homeconnect.Storage.Laws.{get-delete}
use homeconnect.Subs.{
  audio_coverage, delete_subs, disable_subs, needs_subs, sub_row, subs_key, subs_skips, subs_status,
  upsert_sub,
}

-- The row of a drive after an upsert.
upserted : Sub → (Sub → Sub) → Option Sub → Sub
upserted new f none = new
upserted new f (some s) = f s

find-upsert_sub :
    (new : Sub) (f : Sub → Sub) (ss : List Sub)
    → ((s : Sub) → (f s).fullname ≡ s.fullname)
    → find (λ (s : Sub). text_eq s.fullname new.fullname) (upsert_sub new f ss)
      ≡ some (upserted new f (find (λ (s : Sub). text_eq s.fullname new.fullname) ss))
unfolding upsert_sub upserted
find-upsert_sub new f [] h = ground (arith, text_eq_refl new.fullname)
find-upsert_sub new f (s ∷ ss) h = elim (Bool-cases (text_eq s.fullname new.fullname)) [
  | inl y ↦ rw (y, upsert_sub) (ground (arith, h s, y))
  | inr n ↦ rw (n, upsert_sub) (rw n (find-upsert_sub new f ss h))
]

upserted_disabled :
    (new : Sub) (o : Option Sub)
    → new.disabled ≡ 1
    → (upserted new (λ s. record s { disabled = 1; bytes = 0 }) o).disabled ≡ 1
unfolding upserted
upserted_disabled new none h = h
upserted_disabled new (some s) h = refl

-- The drive has segments, and its audio covers each.
abbrev pub is_audible : Db → Text → Bool
is_audible db fullname =
    not ((audio_coverage db fullname).0 == 0)
    && (audio_coverage db fullname).1 == (audio_coverage db fullname).0

pub needs_subs_audible :
    (state : AppState) (fullname dongle ts : Text)
    → needs_subs state fullname dongle ts ≡ (
        is_audible state.db fullname
        && not (
            subs_skips
              (sub_row fullname state.db)
              (audio_coverage state.db fullname).0
              (exists state.blobs (subs_key dongle ts))))
unfolding needs_subs
needs_subs_audible state fullname dongle ts = ground arith

-- The life of a drive's subtitles. After the user deletes them they are gone at once and no sweep builds
-- them, whatever segments come later; after a rebuild (the row and the blob deleted) the next sweep
-- builds them exactly when the audio covers every segment of the drive.
pub needs_subs_lem :
    (state : AppState) (dongle ts : Text) (segments : List Segment)
    → (subs_status (disable_subs dongle ts state) dongle ts ≡ (false, true))
      × (exists (disable_subs dongle ts state).blobs (subs_key dongle ts) ≡ false)
      × (needs_subs
            (record (disable_subs dongle ts state) {
              db = record (disable_subs dongle ts state).db { segments = segments };
            })
            (fullname_of dongle ts)
            dongle
            ts
          ≡ false)
      × (needs_subs (delete_subs dongle ts state) (fullname_of dongle ts) dongle ts
          ≡ is_audible state.db (fullname_of dongle ts))
unfolding disable_subs delete_subs subs_status sub_row audio_coverage
needs_subs_lem state dongle ts segments =
    let new : Sub = record {
      fullname = fullname_of dongle ts;
      seg_count = 0;
      cues = 0;
      bytes = 0;
      disabled = 1;
    } in
    let f : Sub → Sub = λ s. record s { disabled = 1; bytes = 0 } in
    let e = find-upsert_sub new f state.db.subs (λ s. refl) in
    let o : Option Sub = sub_row (fullname_of dongle ts) state.db in
    let d : (upserted new f o).disabled ≡ 1 = upserted_disabled new o refl in
    let state' : AppState = record (disable_subs dongle ts state) {
      db = record (disable_subs dongle ts state).db { segments = segments };
    } in
    (
      rw (e, subs_status) (ground (arith, d)),
      (get-delete state.blobs (subs_key dongle ts) []).0,
      needs_subs_audible state' (fullname_of dongle ts) dongle ts
          ∙ rw e (unfold subs_skips in ground (arith, d)),
      needs_subs_audible (delete_subs dongle ts state) (fullname_of dongle ts) dongle ts
          ∙ rw (gone state.db.subs) (unfold subs_skips in ground arith),
    )
  where
    gone :
        (ss : List Sub)
        → find
            (λ (s : Sub). text_eq s.fullname (fullname_of dongle ts))
            (delete_where (λ (s : Sub). text_eq s.fullname (fullname_of dongle ts)) ss)
          ≡ none
    gone [] = refl
    gone (s ∷ ss) = ground (arith, gone ss)
