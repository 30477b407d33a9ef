-- ===== src/Movies.antt =====
-- src/movie.rs: the stitched movies of a drive: their rows and blobs, and which of them a sweep builds.
pub mod Sweep
pub mod Progress
pub mod Encode
pub mod Build
use homeconnect.AppState.{AppState}
use homeconnect.Db.{Db, Movie, Route, Segment}
use homeconnect.Prelude.{
  AppResult, Bool, List, Option, [], bad_request, count, delete_where, err, false, find,
  if◌then◌else◌, is_empty, length, map, none, not, ok, select, some, true, ℕ, ◌&&◌, ◌++◌, ◌==◌,
  ◌||◌, ◌∷◌,
}
use homeconnect.Prelude.Int.{leb_ℤ, ℤ}
use homeconnect.Prelude.Split.{split_once}
use homeconnect.Prelude.Text.{Text, t, text_eq}
use homeconnect.Segments.{dcam_url, ecam_url, fcam_url, qcam_url}
use homeconnect.Storage.{BlobStore, delete, exists, fullname_of}

-- MOVIE_CAMS
abbrev pub movie_cams : List Text
movie_cams = t "qcamera" ∷ t "fcamera" ∷ t "dcamera" ∷ t "ecamera" ∷ []

unfoldable pub movie_key : Text → Text → Text → Text
movie_key dongle ts cam = dongle ++ b'_' ∷ ts ++ t "--movie--" ++ cam ++ t ".mp4"

unfoldable pub source_file : Text → Option Text
source_file cam =
    if text_eq cam (t "qcamera")
    then some (t "qcamera.ts")
    else if text_eq cam (t "fcamera")
    then some (t "fcamera.hevc")
    else if text_eq cam (t "dcamera")
    then some (t "dcamera.hevc")
    else if text_eq cam (t "ecamera")
    then some (t "ecamera.hevc")
    else none

-- {cam}_url != ''
unfoldable pub has_cam : Text → Segment → Bool
has_cam cam s =
    if text_eq cam (t "qcamera")
    then not (is_empty s.qcam_url)
    else if text_eq cam (t "fcamera")
    then not (is_empty s.fcam_url)
    else if text_eq cam (t "dcamera")
    then not (is_empty s.dcam_url)
    else if text_eq cam (t "ecamera")
    then not (is_empty s.ecam_url)
    else false

-- ORDER BY number
unfoldable pub insert_number : ℤ → List ℤ → List ℤ
insert_number n [] = n ∷ []
insert_number n (m ∷ ms) =
    let rest = insert_number n ms in if leb_ℤ n m then n ∷ m ∷ ms else m ∷ rest

unfoldable pub order_by_number : List ℤ → List ℤ
unfolding insert_number
order_by_number [] = []
order_by_number (n ∷ ns) = insert_number n (order_by_number ns)

unfoldable pub segments_with_cam : Text → Text → Db → AppResult (List ℤ)
unfolding source_file has_cam order_by_number
segments_with_cam fullname cam db = elim (source_file cam) [
  | none ↦ err (bad_request (t "unknown camera: " ++ cam))
  | some _ ↦ ok (
      order_by_number (
        map (λ (s : Segment). s.number)
          (select (λ (s : Segment). text_eq s.canonical_route_name fullname && has_cam cam s)
            db.segments)))
]

-- SELECT … FROM movies WHERE fullname = ? AND cam = ?
unfoldable pub movie_row : Text → Text → Db → Option Movie
movie_row fullname cam db =
    find (λ (m : Movie). text_eq m.fullname fullname && text_eq m.cam cam) db.movies

-- INSERT INTO movies … ON CONFLICT(fullname, cam) DO UPDATE
unfoldable pub upsert_movie : Movie → (Movie → Movie) → List Movie → List Movie
upsert_movie new f [] = new ∷ []
upsert_movie new f (m ∷ ms) =
    let rest = upsert_movie new f ms in
    if text_eq m.fullname new.fullname && text_eq m.cam new.cam then f m ∷ ms else m ∷ rest

-- `record`
unfoldable pub record_movie : Text → Text → ℕ → ℕ → Db → Db
unfolding upsert_movie
record_movie fullname cam seg_count bytes db = record db {
  movies =
      upsert_movie
        (record {
          fullname = fullname;
          cam = cam;
          seg_count = seg_count;
          bytes = bytes;
          disabled = 0;
        })
        (λ m. record m { seg_count = seg_count; bytes = bytes }) db.movies;
}

unfoldable pub delete_movie : Text → Text → Text → AppState → AppState
delete_movie dongle ts cam state = record state {
  blobs = delete (movie_key dongle ts cam) state.blobs;
  db = record state.db {
    movies =
        delete_where
          (λ (m : Movie). text_eq m.fullname (fullname_of dongle ts) && text_eq m.cam cam)
          state.db.movies;
  };
}

unfoldable pub disable_movie : Text → Text → Text → AppState → AppState
unfolding upsert_movie
disable_movie dongle ts cam state = record state {
  blobs = delete (movie_key dongle ts cam) state.blobs;
  db = record state.db {
    movies =
        upsert_movie
          (record {
            fullname = fullname_of dongle ts;
            cam = cam;
            seg_count = 0;
            bytes = 0;
            disabled = 1;
          })
          (λ m. record m { disabled = 1; bytes = 0 }) state.db.movies;
  };
}

-- The blobs of the rows that are not disabled.
unfoldable pub clear_blobs : List Movie → BlobStore → BlobStore
clear_blobs [] blobs = blobs
clear_blobs (m ∷ ms) blobs = clear_blobs ms (elim (split_once b'|' m.fullname) [
  | none ↦ blobs
  | some (dongle, ts) ↦ delete (movie_key dongle ts m.cam) blobs
])

unfoldable pub reencode_all : AppState → ℕ × AppState
unfolding clear_blobs
reencode_all state =
    let rows = select (λ (m : Movie). m.disabled == 0) state.db.movies in
    (
      length rows,
      record state {
        blobs = clear_blobs rows state.blobs;
        db = record state.db {
          movies = delete_where (λ (m : Movie). m.disabled == 0) state.db.movies;
        };
      },
    )

-- What `spawn` clears at a restart: the failed and empty attempts.
unfoldable pub forget_failures : Db → Db
forget_failures db = record db {
  movies = delete_where (λ (m : Movie). m.bytes == 0 && m.disabled == 0) db.movies;
}

-- ready and disabled of `status`, for one camera
unfoldable pub status_of : AppState → Text → Text → Text → Bool × Bool
unfolding movie_row
status_of state dongle ts cam = elim (movie_row (fullname_of dongle ts) cam state.db) [
  | none ↦ (false, false)
  | some m ↦
      (not (m.disabled == 1) && exists state.blobs (movie_key dongle ts cam), m.disabled == 1)
]

-- The entry of `coverage`: all segments of a route, and those with the camera.
unfoldable pub coverage : Db → Text → Text → ℕ × ℕ
unfolding has_cam
coverage db fullname cam = (
  count (λ (s : Segment). text_eq s.canonical_route_name fullname) db.segments,
  count (λ (s : Segment). text_eq s.canonical_route_name fullname && has_cam cam s) db.segments,
)

-- The `skip` of `sweep`.
unfoldable pub skips : Option Movie → ℕ → Bool → Bool
skips none total present = false
skips (some m) total present =
    if m.disabled == 1
    then true
    else if m.seg_count == total
    then m.bytes == 0 || present
    else false

-- The body of the sweep's loops: is this movie to be built?
unfoldable pub needs_build : AppState → Text → Text → Text → Text → Bool
unfolding coverage skips movie_row
needs_build state fullname dongle ts cam =
    let (total, with_cam) = coverage state.db fullname cam in
    if total == 0
    then false
    else if with_cam == 0 || not (with_cam == total)
    then false
    else not (
        skips (movie_row fullname cam state.db) total
          (exists state.blobs (movie_key dongle ts cam)))

unfoldable pub todo_cams :
    AppState → Text → Text → Text → List Text → List (Text × (Text × (Text × Text)))
unfolding needs_build
todo_cams state fullname dongle ts [] = []
todo_cams state fullname dongle ts (cam ∷ cams) =
    let rest = todo_cams state fullname dongle ts cams in
    if needs_build state fullname dongle ts cam
    then (fullname, (dongle, (ts, cam))) ∷ rest
    else rest

-- `todo` of `sweep`: (fullname, dongle, ts, cam), in the order of the routes and of MOVIE_CAMS.
unfoldable pub todo : AppState → List Route → List (Text × (Text × (Text × Text)))
unfolding todo_cams
todo state [] = []
todo state (r ∷ routes) = elim (split_once b'|' r.fullname) [
  | none ↦ todo state routes
  | some (_, ts) ↦ todo_cams state r.fullname r.device_dongle_id ts movie_cams ++ todo state routes
]
