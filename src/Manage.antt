-- ===== src/Manage.antt =====
-- src/api/manage.rs: what a drive's download collects, and the deletion of file types off the server.
-- The aggregation of the drive's row (src/parse.rs) is an argument.
pub mod Deletions
use homeconnect.AppState.{AppState}
use homeconnect.Db.{Db, Segment}
use homeconnect.DevSync.Options.{effective_route_types, listed, set_route_override}
use homeconnect.Movies.{delete_movie, movie_cams}
use homeconnect.Prelude.{
  List, Option, [], if◌then◌else◌, map, none, not, select, some, ℕ, ◌++◌, ◌+◌, ◌∷◌,
}
use homeconnect.Prelude.Containers.{set_remove}
use homeconnect.Prelude.Decimal.{show_ℤ}
use homeconnect.Prelude.Int.{ℤ}
use homeconnect.Prelude.Text.{Text, t, text_eq}
use homeconnect.Segments.{
  Column, clear_segment_col, dcam_url, ecam_url, fcam_url, qcam_url, qlog_url, rlog_url,
}
use homeconnect.Settings.{Config}
use homeconnect.Storage.{BlobStore, blob_key, delete, exists, fullname_of, path_for, size}

unfoldable pub type_spec : Text → Option (List Text × Column)
type_spec ty =
    if text_eq ty (t "qcamera")
    then some (t "qcamera.ts" ∷ [], qcam_url)
    else if text_eq ty (t "fcamera")
    then some (t "fcamera.hevc" ∷ [], fcam_url)
    else if text_eq ty (t "dcamera")
    then some (t "dcamera.hevc" ∷ [], dcam_url)
    else if text_eq ty (t "ecamera")
    then some (t "ecamera.hevc" ∷ [], ecam_url)
    else if text_eq ty (t "qlog")
    then some (t "qlog.zst" ∷ t "qlog.bz2" ∷ [], qlog_url)
    else if text_eq ty (t "rlog")
    then some (t "rlog.zst" ∷ t "rlog.bz2" ∷ [], rlog_url)
    else none

-- SELECT number FROM segments WHERE canonical_route_name = ?; the order by number makes no difference to
-- the deletion.
unfoldable pub segment_numbers : Text → Db → List ℤ
segment_numbers fullname db =
    map (λ (s : Segment). s.number)
      (select (λ (s : Segment). text_eq s.canonical_route_name fullname) db.segments)

-- The file names of one type that are there, up to the first: one per segment and type.
unfoldable pub first_stored : BlobStore → Text → Text → ℤ → List Text → Option Text
first_stored blobs dongle ts seg [] = none
first_stored blobs dongle ts seg (name ∷ names) =
    let rest = first_stored blobs dongle ts seg names in
    if exists blobs (blob_key dongle ts seg name) then some name else rest

unfoldable pub collect_types : BlobStore → Text → Text → ℤ → List Text → List (Text × Text)
unfolding type_spec first_stored
collect_types blobs dongle ts seg [] = []
collect_types blobs dongle ts seg (ty ∷ types) =
    let rest = collect_types blobs dongle ts seg types in
    elim (type_spec ty) [
      | none ↦ rest
      | some (names, _) ↦ elim (first_stored blobs dongle ts seg names) [
        | none ↦ rest
        | some name ↦
            (
              ts ++ t "--" ++ show_ℤ seg ++ (b'/' ∷ name),
              path_for blobs (blob_key dongle ts seg name),
            )
            ∷ rest
      ]
    ]

unfoldable pub collect_files : BlobStore → Text → Text → List ℤ → List Text → List (Text × Text)
unfolding collect_types
collect_files blobs dongle ts [] types = []
collect_files blobs dongle ts (seg ∷ segs) types =
    collect_types blobs dongle ts seg types ++ collect_files blobs dongle ts segs types

-- removed and freed, beside the state
pub record Tally : Type 0 where
  pub state : AppState
  pub removed : ℕ
  pub freed : ℕ

unfoldable pub delete_names : Text → Text → ℤ → List Text → Tally → Tally
delete_names dongle ts seg [] n = n
delete_names dongle ts seg (name ∷ names) n =
    delete_names dongle ts seg names (elim (size n.state.blobs (blob_key dongle ts seg name)) [
      | none ↦ n
      | some sz ↦ record {
        state = record n.state { blobs = delete (blob_key dongle ts seg name) n.state.blobs };
        removed = n.removed + 1;
        freed = n.freed + sz;
      }
    ])

-- The name of a camera's transcode of one segment.
unfoldable pub transcode_name : Text → Text → ℤ → Text → Text
transcode_name dongle ts seg cam =
    dongle ++ b'_' ∷ ts ++ t "--" ++ show_ℤ seg ++ t "--" ++ cam ++ t ".ts"

abbrev pub transcode_cams : List Text
transcode_cams = t "fcamera" ∷ t "dcamera" ∷ t "ecamera" ∷ []

unfoldable pub delete_transcode : Text → Text → ℤ → Text → AppState → AppState
unfolding transcode_name
delete_transcode dongle ts seg ty state =
    if listed transcode_cams ty
    then record state { transcodes = set_remove (transcode_name dongle ts seg ty) state.transcodes }
    else state

unfoldable pub delete_type : Text → Text → ℤ → Text → Tally → Tally
unfolding type_spec delete_names delete_transcode
delete_type dongle ts seg ty n = elim (type_spec ty) [
  | none ↦ n
  | some (names, col) ↦
      let m = delete_names dongle ts seg names n in
      record m {
        state =
            delete_transcode dongle ts seg ty
              (record m.state { db = clear_segment_col col dongle ts seg m.state.db });
      }
]

unfoldable pub delete_types : Text → Text → ℤ → List Text → Tally → Tally
unfolding delete_type
delete_types dongle ts seg [] n = n
delete_types dongle ts seg (ty ∷ types) n =
    delete_types dongle ts seg types (delete_type dongle ts seg ty n)

unfoldable pub delete_segments : Text → Text → List ℤ → List Text → Tally → Tally
unfolding delete_types
delete_segments dongle ts [] types n = n
delete_segments dongle ts (seg ∷ segs) types n =
    delete_segments dongle ts segs types (delete_types dongle ts seg types n)

-- The movies of the deleted cameras.
unfoldable pub delete_cam_movies : Text → Text → List Text → AppState → AppState
delete_cam_movies dongle ts [] state = state
delete_cam_movies dongle ts (ty ∷ types) state =
    delete_cam_movies dongle ts types
      (if listed movie_cams ty then delete_movie dongle ts ty state else state)

-- The types that the drive still pulls.
unfoldable pub kept_types : Config → Text → List Text → Db → List Text
kept_types config fullname types db =
    select (λ ty. not (listed types ty)) (effective_route_types config fullname db)

-- The server's part of `delete`, with the number of files and bytes; a failed override is ignored there.
unfoldable pub delete_on_server :
    Config → (Text → Text → AppState → AppState) → Text → Text → List Text → AppState → Tally
unfolding delete_segments delete_cam_movies kept_types
delete_on_server config recompute_route dongle ts types state =
    let fullname = fullname_of dongle ts in
    let n =
      delete_segments dongle ts (segment_numbers fullname state.db) types
        (record { state = state; removed = 0; freed = 0 }) in
    let s = delete_cam_movies dongle ts types (recompute_route dongle ts n.state) in
    record n {
      state = record s {
        db = set_route_override fullname (some (kept_types config fullname types s.db)) s.db;
      };
    }
