-- ===== src/Segments.antt =====
-- src/parse.rs, the rows of a drive: the kind of a file, and the registration of an uploaded file.
-- src/api/manage.rs clears a column with the same statements.
pub mod Laws
pub mod Qlogs
use homeconnect.Db.{Db, Route, Segment}
use homeconnect.Prelude.{Option, [], any, if◌then◌else◌, none, some, update_where, ◌++◌, ◌∷◌}
use homeconnect.Prelude.Decimal.{show_ℤ}
use homeconnect.Prelude.Int.{pos, ℤ}
use homeconnect.Prelude.Text.{Text, contains, t, text_eq}
use homeconnect.Settings.{Config}
use homeconnect.Storage.{canonical_of, fullname_of}

-- The `*_url` columns of segments.
pub data Column : Type 0 where
  qcam_url : Column
  fcam_url : Column
  dcam_url : Column
  ecam_url : Column
  qlog_url : Column
  rlog_url : Column

-- (connectdata type, segment url column)
unfoldable pub file_kind : Text → Option (Text × Column)
file_kind file =
    if contains (t "qcamera") file
    then some (t "qcam", qcam_url)
    else if contains (t "fcamera") file
    then some (t "fcam", fcam_url)
    else if contains (t "dcamera") file
    then some (t "dcam", dcam_url)
    else if contains (t "ecamera") file
    then some (t "ecam", ecam_url)
    else if contains (t "qlog") file
    then some (t "qlog", qlog_url)
    else if contains (t "rlog") file
    then some (t "rlog", rlog_url)
    else none

unfoldable pub connectdata_url : Text → Text → Text → Text → ℤ → Text → Text
connectdata_url public ty dongle ts seg file =
    public
    ++ (t "/connectdata/"
        ++ ty
        ++ (b'/' ∷ dongle)
        ++ (b'/' ∷ ts)
        ++ (b'/' ∷ show_ℤ seg)
        ++ (b'/' ∷ file))

-- UPDATE segments SET {col} = ?
unfoldable pub set_column : Column → Text → Segment → Segment
set_column qcam_url url s = record s { qcam_url = url }
set_column fcam_url url s = record s { fcam_url = url }
set_column dcam_url url s = record s { dcam_url = url }
set_column ecam_url url s = record s { ecam_url = url }
set_column qlog_url url s = record s { qlog_url = url }
set_column rlog_url url s = record s { rlog_url = url }

-- … WHERE canonical_name = ?
unfoldable pub update_segment : Column → Text → Text → Db → Db
update_segment col url canonical db = record db {
  segments =
      update_where (λ (s : Segment). text_eq s.canonical_name canonical) (set_column col url)
        db.segments;
}

-- INSERT OR IGNORE INTO routes
unfoldable pub ensure_route : Text → Text → ℤ → Db → Db
ensure_route dongle ts now db =
    if any (λ (r : Route). text_eq r.fullname (fullname_of dongle ts)) db.routes
    then db
    else record db {
      routes =
          record {
            fullname = fullname_of dongle ts;
            device_dongle_id = dongle;
            start_time_utc_millis = pos 0;
            created_at = now;
            is_public = 0;
            sync_types = none;
          }
          ∷ db.routes;
    }

unfoldable pub bare_segment : Text → Text → ℤ → Segment
bare_segment dongle ts seg = record {
  canonical_name = canonical_of dongle ts seg;
  canonical_route_name = fullname_of dongle ts;
  number = seg;
  qcam_url = [];
  fcam_url = [];
  dcam_url = [];
  ecam_url = [];
  qlog_url = [];
  rlog_url = [];
}

-- INSERT OR IGNORE INTO segments
unfoldable pub insert_segment : Segment → Db → Db
insert_segment row db =
    if any (λ (s : Segment). text_eq s.canonical_name row.canonical_name) db.segments
    then db
    else record db { segments = row ∷ db.segments }

unfoldable pub set_segment_file : Config → ℤ → Text → Text → ℤ → Text → Db → Db
unfolding file_kind connectdata_url update_segment ensure_route insert_segment bare_segment
set_segment_file config now dongle ts seg file db = elim (file_kind file) [
  | none ↦ db
  | some (ty, col) ↦
      update_segment col (connectdata_url config.public_url ty dongle ts seg file)
        (canonical_of dongle ts seg)
        (insert_segment (bare_segment dongle ts seg) (ensure_route dongle ts now db))
]

-- clear_segment_col of src/api/manage.rs
unfoldable pub clear_segment_col : Column → Text → Text → ℤ → Db → Db
unfolding update_segment
clear_segment_col col dongle ts seg db = update_segment col [] (canonical_of dongle ts seg) db
