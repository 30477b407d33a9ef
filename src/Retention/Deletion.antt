-- ===== src/Retention/Deletion.antt =====
-- What the deletion of a route leaves.
use homeconnect.AppState.{AppState}
use homeconnect.Db.{Route, Segment, Sub}
use homeconnect.DevSync.Options.{listed}
use homeconnect.Manage.{segment_numbers, transcode_cams}
use homeconnect.Movies.{delete_movie, movie_cams, movie_key}
use homeconnect.Prelude.{
  All, Bool-cases, List, [], any, any-delete_where_self, arith, delete_where, false, find,
  find-delete_where, inl, inr, refl, some, true, ◌++◌, ◌∷◌, ◌≡◌, ◌⊎◌,
}
use homeconnect.Prelude.Containers.{get-remove}
use homeconnect.Prelude.Int.{ℤ}
use homeconnect.Prelude.Split.{split_once}
use homeconnect.Prelude.Text.{Text, t, text_eq, text_eq_iff}
use homeconnect.Retention.{
  delete_files, delete_movies, delete_route, delete_route_rows, delete_segment_files,
  delete_transcodes, segment_files,
}
use homeconnect.Storage.{BlobStore, blob_key, delete, exists, fullname_of, get, path_for}
use homeconnect.Storage.Laws.{get-delete}
use homeconnect.Subs.{delete_subs, subs_key}
use mathlib.Core.Path.{subst}

pub segment_files-db :
    (dongle ts : Text) (segs : List ℤ) (state : AppState)
    → (delete_segment_files dongle ts segs state).db ≡ state.db
unfolding delete_segment_files
segment_files-db dongle ts [] state = refl
segment_files-db dongle ts (seg ∷ segs) state = segment_files-db dongle ts segs (record state {
  blobs = delete_files dongle ts seg segment_files state.blobs;
  transcodes = delete_transcodes dongle ts seg transcode_cams state.transcodes;
})

-- The routes that are left, for a name that has a '|'.
pub routes-delete_route :
    (fullname dongle ts : Text) (state : AppState)
    → split_once b'|' fullname ≡ some (dongle, ts)
    → (delete_route fullname state).db.routes
      ≡ delete_where (λ (r : Route). text_eq r.fullname fullname) state.db.routes
unfolding delete_route delete_route_rows delete_subs delete_movies delete_movie
routes-delete_route fullname dongle ts state h =
    rw (h, delete_route)
      (rw (segment_files-db dongle ts (segment_numbers fullname state.db) state) refl)

-- A blob that is gone stays gone.
gone_after : (s : BlobStore) (k j : Text) → exists s j ≡ false → exists (delete k s) j ≡ false
unfolding exists get delete path_for
gone_after s k j h = ground (
  arith,
  get-remove (path_for s k) (path_for s j) s.files,
  text_eq_iff (path_for s k) (path_for s j),
  h,
)

gone_after_files :
    (dongle ts : Text) (seg : ℤ) (fs : List Text) (s : BlobStore) (j : Text)
    → exists s j ≡ false
    → exists (delete_files dongle ts seg fs s) j ≡ false
unfolding delete_files
gone_after_files dongle ts seg [] s j h = h
gone_after_files dongle ts seg (f ∷ fs) s j h =
    gone_after_files dongle ts seg fs (delete (blob_key dongle ts seg f) s) j
      (gone_after s (blob_key dongle ts seg f) j h)

gone_files :
    (dongle ts : Text) (seg : ℤ) (fs : List Text) (s : BlobStore)
    → All (λ f. exists (delete_files dongle ts seg fs s) (blob_key dongle ts seg f) ≡ false) fs
unfolding delete_files
gone_files dongle ts seg [] s = tt
gone_files dongle ts seg (f ∷ fs) s = (
  gone_after_files dongle ts seg fs (delete (blob_key dongle ts seg f) s) (blob_key dongle ts seg f)
      (get-delete s (blob_key dongle ts seg f) []).0,
  gone_files dongle ts seg fs (delete (blob_key dongle ts seg f) s),
)

abbrev pub AreGone : Text → Text → BlobStore → ℤ → Type 0
AreGone dongle ts s seg = All (λ f. exists s (blob_key dongle ts seg f) ≡ false) segment_files

All-map :
    {A : Type 0} {P Q : A → Type 0} → ((a : A) → P a → Q a) → (xs : List A) → All P xs → All Q xs
All-map g [] h = tt
All-map g (x ∷ xs) h = (g x h.0, All-map g xs h.1)

stays_gone :
    (dongle ts : Text) (seg : ℤ) (k : Text) (s : BlobStore)
    → AreGone dongle ts s seg
    → AreGone dongle ts (delete k s) seg
stays_gone dongle ts seg k s h =
    All-map (λ f e. gone_after s k (blob_key dongle ts seg f) e) segment_files h

stays_gone_segments :
    (dongle ts : Text) (seg : ℤ) (segs : List ℤ) (state : AppState)
    → AreGone dongle ts state.blobs seg
    → AreGone dongle ts (delete_segment_files dongle ts segs state).blobs seg
unfolding delete_segment_files
stays_gone_segments dongle ts seg [] state h = h
stays_gone_segments dongle ts seg (n ∷ segs) state h =
    stays_gone_segments dongle ts seg segs
      (record state {
        blobs = delete_files dongle ts n segment_files state.blobs;
        transcodes = delete_transcodes dongle ts n transcode_cams state.transcodes;
      })
      (All-map
        (λ f e. gone_after_files dongle ts n segment_files state.blobs (blob_key dongle ts seg f) e)
        segment_files h)

gone_segments :
    (dongle ts : Text) (segs : List ℤ) (state : AppState)
    → All (AreGone dongle ts (delete_segment_files dongle ts segs state).blobs) segs
unfolding delete_segment_files
gone_segments dongle ts [] state = tt
gone_segments dongle ts (seg ∷ segs) state =
    let state' : AppState = record state {
      blobs = delete_files dongle ts seg segment_files state.blobs;
      transcodes = delete_transcodes dongle ts seg transcode_cams state.transcodes;
    } in
    (
      stays_gone_segments dongle ts seg segs state'
          (gone_files dongle ts seg segment_files state.blobs),
      gone_segments dongle ts segs state',
    )

stays_gone_movies :
    (dongle ts : Text) (seg : ℤ) (cams : List Text) (state : AppState)
    → AreGone dongle ts state.blobs seg
    → AreGone dongle ts (delete_movies dongle ts cams state).blobs seg
unfolding delete_movies delete_movie
stays_gone_movies dongle ts seg [] state h = h
stays_gone_movies dongle ts seg (cam ∷ cams) state h =
    stays_gone_movies dongle ts seg cams (delete_movie dongle ts cam state)
      (stays_gone dongle ts seg (movie_key dongle ts cam) state.blobs h)

-- The files of a segment: those that the other components store under its name, each with its origin.
abbrev pub known_files : List Text
known_files =
    (t "qcamera.ts" ∷ t "fcamera.hevc" ∷ t "dcamera.hevc" ∷ t "ecamera.hevc" ∷ [])  -- cameras
    ++ (t "qlog.zst" ∷ t "qlog.bz2" ∷ t "rlog.zst" ∷ t "rlog.bz2" ∷ [])  -- logs
    ++ (t "coords.json" ∷ t "events.json" ∷ t "telemetry.json" ∷ t "sprite.jpg" ∷ [])  -- the parser
    ++ (t "model.json" ∷ [])  -- the model's frames in an rlog

-- None of the segment's files is in the store.
abbrev pub HasNoFiles : Text → Text → BlobStore → ℤ → Type 0
HasNoFiles dongle ts s seg = All (λ f. exists s (blob_key dongle ts seg f) ≡ false) known_files

All-listed : (P : Text → Type 0) (xs : List Text) (x : Text) → All P xs → listed xs x ≡ true → P x
All-listed P [] x a h = absurd (ground (arith, h))
All-listed P (y ∷ ys) x a h = elim (Bool-cases (text_eq y x)) [
  | inl e ↦ subst P ((text_eq_iff y x).0 e) a.0
  | inr n ↦ All-listed P ys x a.1 (ground (arith, h, n))
]

all_deleted : All (λ f. listed segment_files f ≡ true) known_files
unfolding t text_eq
all_deleted = (
  refl,
  (
    refl,
    (refl, (refl, (refl, (refl, (refl, (refl, (refl, (refl, (refl, (refl, (refl, tt))))))))))),
  ),
)

AreGone-HasNoFiles :
    (dongle ts : Text) (s : BlobStore) (seg : ℤ)
    → AreGone dongle ts s seg
    → HasNoFiles dongle ts s seg
AreGone-HasNoFiles dongle ts s seg a =
    All-map
      (λ f h. All-listed (λ f. exists s (blob_key dongle ts seg f) ≡ false) segment_files f a h)
      known_files all_deleted

-- Deleting a route whose name has a '|': for each of its segments the camera files, the compressed logs and the files
-- that the server derives from them are gone from the store, and so are its segments' rows, its row and its subtitles'
-- row; each route of another name keeps its row.
pub delete_route_lem :
    (fullname dongle ts other_name : Text) (state : AppState)
    → split_once b'|' fullname ≡ some (dongle, ts)
    → All
        (HasNoFiles dongle ts (delete_route fullname state).blobs)
        (segment_numbers fullname state.db)
      × (any
            (λ (s : Segment). text_eq s.canonical_route_name fullname)
            (delete_route fullname state).db.segments
          ≡ false)
      × (any (λ (r : Route). text_eq r.fullname fullname) (delete_route fullname state).db.routes
          ≡ false)
      × (any
            (λ (s : Sub). text_eq s.fullname (fullname_of dongle ts))
            (delete_route fullname state).db.subs
          ≡ false)
      × ((other_name ≡ fullname)
          ⊎ (find
                (λ (r : Route). text_eq r.fullname other_name)
                (delete_route fullname state).db.routes
              ≡ find (λ (r : Route). text_eq r.fullname other_name) state.db.routes))
unfolding delete_route delete_route_rows delete_subs delete_movies delete_movie
delete_route_lem fullname dongle ts other_name state h =
    let segs : List ℤ = segment_numbers fullname state.db in
    let mid : AppState = delete_segment_files dongle ts segs state in
    (
      rw (h, delete_route)
          (All-map
            (λ seg g.
              AreGone-HasNoFiles dongle ts
                (delete (subs_key dongle ts) (delete_movies dongle ts movie_cams mid).blobs) seg
                (stays_gone dongle ts seg (subs_key dongle ts)
                  (delete_movies dongle ts movie_cams mid).blobs
                  (stays_gone_movies dongle ts seg movie_cams mid g)))
            segs (gone_segments dongle ts segs state)),
      rw (h, delete_route)
          (any-delete_where_self (λ (s : Segment). text_eq s.canonical_route_name fullname)
            mid.db.segments),
      rw (h, delete_route)
          (any-delete_where_self (λ (r : Route). text_eq r.fullname fullname) mid.db.routes),
      rw (h, delete_route)
          (any-delete_where_self (λ (s : Sub). text_eq s.fullname (fullname_of dongle ts))
            mid.db.subs),
      elim (Bool-cases (text_eq other_name fullname)) [
        | inl y ↦ inl ((text_eq_iff other_name fullname).0 y)
        | inr n ↦ inr (
            rw (routes-delete_route fullname dongle ts state h) (
              find-delete_where (λ (r : Route). text_eq r.fullname other_name)
                (λ (r : Route). text_eq r.fullname fullname) state.db.routes
                (λ r e. ground (
                  arith,
                  text_eq_iff r.fullname other_name,
                  text_eq_iff r.fullname fullname,
                  text_eq_iff other_name fullname,
                  e,
                  n,
                ))))
      ],
    )
