-- ===== src/Movies/Sweep.antt =====
-- Which movies a sweep builds: after a build, a failure, a deletion by the user and a rebuild.
use homeconnect.AppState.{AppState}
use homeconnect.Db.{Db, Movie, Segment}
use homeconnect.Movies.{
  coverage, delete_movie, disable_movie, movie_key, movie_row, needs_build, record_movie, skips,
  status_of, upsert_movie,
}
use homeconnect.Prelude.{
  Bool, Bool-cases, List, Option, [], arith, delete_where, false, find, inl, inr, none, not, refl,
  some, true, ℕ, ◌&&◌, ◌==◌, ◌∙◌, ◌∷◌, ◌≡◌, ◌⊎◌,
}
use homeconnect.Prelude.Text.{Text, text_eq, text_eq_refl}
use homeconnect.Storage.{exists, fullname_of}
use homeconnect.Storage.Laws.{get-delete}

-- The row of a key after an upsert.
upserted : Movie → (Movie → Movie) → Option Movie → Movie
upserted new f none = new
upserted new f (some m) = f m

find-upsert_movie :
    (new : Movie) (f : Movie → Movie) (ms : List Movie)
    → ((m : Movie) → ((f m).fullname ≡ m.fullname) × ((f m).cam ≡ m.cam))
    → find
        (λ (m : Movie). text_eq m.fullname new.fullname && text_eq m.cam new.cam)
        (upsert_movie new f ms)
      ≡ some (
          upserted new f
            (find (λ (m : Movie). text_eq m.fullname new.fullname && text_eq m.cam new.cam) ms))
unfolding upsert_movie upserted
find-upsert_movie new f [] h = ground (arith, text_eq_refl new.fullname, text_eq_refl new.cam)
find-upsert_movie new f (m ∷ ms) h =
    elim (Bool-cases (text_eq m.fullname new.fullname && text_eq m.cam new.cam)) [
      | inl y ↦ rw (y, upsert_movie) (ground (arith, h m, y))
      | inr n ↦ rw (n, upsert_movie) (rw n (find-upsert_movie new f ms h))
    ]

upserted_disabled :
    (new : Movie) (o : Option Movie)
    → new.disabled ≡ 1
    → (upserted new (λ m. record m { disabled = 1; bytes = 0 }) o).disabled ≡ 1
unfolding upserted
upserted_disabled new none h = h
upserted_disabled new (some m) h = refl

-- The drive has segments, and each has the camera.
abbrev pub is_complete : Db → Text → Text → Bool
is_complete db fullname cam =
    not ((coverage db fullname cam).0 == 0)
    && (coverage db fullname cam).1 == (coverage db fullname cam).0

pub needs_build_complete :
    (state : AppState) (fullname dongle ts cam : Text)
    → needs_build state fullname dongle ts cam ≡ (
        is_complete state.db fullname cam
        && not (
            skips
              (movie_row fullname cam state.db)
              (coverage state.db fullname cam).0
              (exists state.blobs (movie_key dongle ts cam))))
unfolding needs_build
needs_build_complete state fullname dongle ts cam = ground arith

-- An attempt that is recorded for `n` segments is final for them: if it has no bytes, or the blob is there, the
-- sweep leaves the movie alone until the drive has another number of segments.
pub needs_build-record_movie :
    (state : AppState) (fullname dongle ts cam : Text) (n bytes : ℕ)
    → (bytes ≡ 0) ⊎ (exists state.blobs (movie_key dongle ts cam) ≡ true)
    → (((coverage state.db fullname cam).0 == n) ≡ false)
      ⊎ (needs_build
            (record state { db = record_movie fullname cam n bytes state.db })
            fullname
            dongle
            ts
            cam
          ≡ false)
unfolding record_movie movie_row coverage
needs_build-record_movie state fullname dongle ts cam n bytes h =
    let new : Movie = record {
      fullname = fullname;
      cam = cam;
      seg_count = n;
      bytes = bytes;
      disabled = 0;
    } in
    let f : Movie → Movie = λ m. record m { seg_count = n; bytes = bytes } in
    let e = find-upsert_movie new f state.db.movies (λ m. (refl, refl)) in
    let state' : AppState = record state { db = record_movie fullname cam n bytes state.db } in
    ground (
      arith,
      needs_build_complete state' fullname dongle ts cam,
      e,
      settled (movie_row fullname cam state.db),
      h,
    )
  where
    settled :
        (o : Option Movie)
        → skips
            (some (
              upserted
                (record {
                  fullname = fullname;
                  cam = cam;
                  seg_count = n;
                  bytes = bytes;
                  disabled = 0;
                })
                (λ m. record m { seg_count = n; bytes = bytes })
                o))
            n
            (exists state.blobs (movie_key dongle ts cam))
          ≡ true
    settled none = unfold skips upserted in ground (arith, h)
    settled (some m) = unfold skips upserted in ground (arith, h)

-- After the user deletes a movie its blob is gone, its status is not ready and disabled, and no sweep
-- builds it, whatever segments come later.
pub needs_build-disable_movie :
    (state : AppState) (dongle ts cam : Text) (segments : List Segment)
    → (status_of (disable_movie dongle ts cam state) dongle ts cam ≡ (false, true))
      × (exists (disable_movie dongle ts cam state).blobs (movie_key dongle ts cam) ≡ false)
      × (needs_build
            (record (disable_movie dongle ts cam state) {
              db = record (disable_movie dongle ts cam state).db { segments = segments };
            })
            (fullname_of dongle ts)
            dongle
            ts
            cam
          ≡ false)
unfolding disable_movie status_of movie_row
needs_build-disable_movie state dongle ts cam segments =
    let new : Movie = record {
      fullname = fullname_of dongle ts;
      cam = cam;
      seg_count = 0;
      bytes = 0;
      disabled = 1;
    } in
    let f : Movie → Movie = λ m. record m { disabled = 1; bytes = 0 } in
    let e = find-upsert_movie new f state.db.movies (λ m. (refl, refl)) in
    let o : Option Movie = movie_row (fullname_of dongle ts) cam state.db in
    let d : (upserted new f o).disabled ≡ 1 = upserted_disabled new o refl in
    let state' : AppState = record (disable_movie dongle ts cam state) {
      db = record (disable_movie dongle ts cam state).db { segments = segments };
    } in
    (
      rw (e, status_of) (ground (arith, d)),
      (get-delete state.blobs (movie_key dongle ts cam) []).0,
      needs_build_complete state' (fullname_of dongle ts) dongle ts cam
          ∙ rw e (unfold skips in ground (arith, d)),
    )

-- A rebuild (the row and the blob deleted) is built by the next sweep exactly when every segment of the
-- drive has the camera, also if the user had deleted the movie before.
pub needs_build-delete_movie :
    (state : AppState) (dongle ts cam : Text)
    → needs_build (delete_movie dongle ts cam state) (fullname_of dongle ts) dongle ts cam
      ≡ is_complete state.db (fullname_of dongle ts) cam
unfolding delete_movie movie_row coverage
needs_build-delete_movie state dongle ts cam =
    let e = gone state.db.movies in
    needs_build_complete (delete_movie dongle ts cam state) (fullname_of dongle ts) dongle ts cam
    ∙ rw e (unfold skips in ground arith)
  where
    gone :
        (ms : List Movie)
        → find
            (λ (m : Movie). text_eq m.fullname (fullname_of dongle ts) && text_eq m.cam cam)
            (delete_where
              (λ (m : Movie). text_eq m.fullname (fullname_of dongle ts) && text_eq m.cam cam)
              ms)
          ≡ none
    gone [] = refl
    gone (m ∷ ms) = ground (arith, gone ms)
