-- ===== src/DevSync.antt =====
-- src/devsync.rs: the SSH pull. The device's answers are arguments; the names of files are texts.
pub mod Types
pub mod Options
pub mod Paths
pub mod Registration
pub mod Scan
pub mod Pull
pub mod Passes
pub mod Remote
use homeconnect.Db.{Db, Device, Segment}
use homeconnect.DevSync.Options.{get_route_override, get_sync_types, listed, optional_types}
use homeconnect.Prelude.{
  Action, AppResult, Bool, List, Option, [], all, bad_request, err, false, find, if◌then◌else◌,
  is_empty, is_some, leb, map, none, not, ok, select, some, true, unwrap_or, ℕ, ◌&&◌, ◌++◌, ◌==◌,
  ◌||◌, ◌∷◌,
}
use homeconnect.Prelude.Containers.{map_get}
use homeconnect.Prelude.Decimal.{parse_i64, show_ℤ}
use homeconnect.Prelude.Int.{ℤ}
use homeconnect.Prelude.Split.{rsplit_once, split_once, trim_start_matches}
use homeconnect.Prelude.Text.{Text, contains, strip_prefix, t, text_eq, trim}
use homeconnect.Settings.{Config}
use homeconnect.Storage.{blob_key, canonical_of, fullname_of}
use homeconnect.SyncQueue.{Inner, QueueItem, enqueue}

-- REALDATA_DIR
abbrev pub realdata_dir : Text
realdata_dir = t "/data/media/0/realdata"

-- SyncOpts
pub record SyncOpts : Type 0 where
  pub types : Option (List Text)
  pub route : Option Text

unfoldable pub file_type : Text → Option Text
file_type file = find (λ ty. contains ty file) optional_types

unfoldable pub wanted : Text → List Text → Bool
unfolding file_type
wanted file types =
    if contains (t "qlog") file
    then true
    else (elim (file_type file) [ none ↦ false | some ty ↦ listed types ty ])

unfoldable pub safe_char : ℕ → Bool
safe_char c =
    leb b'a' c && leb c b'z'
    || leb b'A' c && leb c b'Z'
    || leb b'0' c && leb c b'9'
    || c == b'.'
    || c == b'_'
    || c == b'-'

unfoldable pub safe_component : Text → Bool
unfolding safe_char
safe_component s = not (is_empty s) && all safe_char s

-- What the rows of one segment say about its files.
pub record Reg : Type 0 where
  pub qcam : Bool
  pub fcam : Bool
  pub dcam : Bool
  pub ecam : Bool
  pub rlog : Bool
  pub qlog_parsed : Bool

unfoldable pub reg_of : Segment → Reg
reg_of s = record {
  qcam = not (is_empty s.qcam_url);
  fcam = not (is_empty s.fcam_url);
  dcam = not (is_empty s.dcam_url);
  ecam = not (is_empty s.ecam_url);
  rlog = not (is_empty s.rlog_url);
  qlog_parsed = not (is_empty s.qlog_url);
}

-- The rows of the dongle's routes: `LIKE '{dongle}|%'`, for a dongle without LIKE's wildcards.
unfoldable pub load_registration : Text → Db → List (Text × Reg)
unfolding reg_of
load_registration dongle db =
    map (λ (s : Segment). (s.canonical_name, reg_of s))
      (select
        (λ (s : Segment). is_some (strip_prefix (fullname_of dongle []) s.canonical_route_name))
        db.segments)

unfoldable pub registered : Option Reg → Text → Bool
registered none file = false
registered (some r) file =
    if contains (t "qlog") file
    then r.qlog_parsed
    else if contains (t "qcamera") file
    then r.qcam
    else if contains (t "fcamera") file
    then r.fcam
    else if contains (t "dcamera") file
    then r.dcam
    else if contains (t "ecamera") file
    then r.ecam
    else if contains (t "rlog") file
    then r.rlog
    else true

with_seg : Text → Text → Option ℤ → Option (Text × (ℤ × Text))
with_seg ts file none = none
with_seg ts file (some seg) = if is_empty ts || is_empty file then none else some (ts, (seg, file))

with_dir : Option (Text × Text) → Option (Text × (ℤ × Text))
unfolding with_seg
with_dir none = none
with_dir (some (dir, file)) = elim (rsplit_once (t "--") dir) [
  | none ↦ none
  | some (ts, seg) ↦ with_seg ts file (parse_i64 seg)
]

unfoldable pub parse_remote_path : Text → Option (Text × (ℤ × Text))
unfolding with_dir
parse_remote_path path = elim (strip_prefix realdata_dir path) [
  | none ↦ none
  | some rest ↦ with_dir (split_once b'/' (trim_start_matches b'/' rest))
]

-- format!("{REALDATA_DIR}/{ts}--{seg}/{file}")
unfoldable pub remote_path : Text → ℤ → Text → Text
remote_path ts seg file = realdata_dir ++ (b'/' ∷ (ts ++ t "--" ++ show_ℤ seg) ++ (b'/' ∷ file))

-- `load_route_overrides`, read at one route: the override of the row of `{dongle}|{ts}`.
unfoldable pub override_for : Text → Text → Db → Option (List Text)
override_for dongle ts db = get_route_override (fullname_of dongle ts) db

-- The types for a route: forced, or the override, or the global default.
unfoldable pub types_for : Config → Db → Text → SyncOpts → Text → List Text
types_for config db dongle opts ts = elim opts.types [
  | some forced ↦ forced
  | none ↦ unwrap_or (override_for dongle ts db) (get_sync_types config db)
]

-- The route filter of `SyncOpts`.
abbrev pub in_route : SyncOpts → Text → Bool
in_route opts ts = elim opts.route [ none ↦ true | some route ↦ text_eq ts route ]

-- The body of the loop of `scan` for one parsed path.
unfoldable pub scan_file : Config → Db → Device → SyncOpts → Text × (ℤ × Text) → Option QueueItem
scan_file config db device opts (ts, (seg, file)) =
    if not (in_route opts ts)
    then none
    else if not (wanted file (types_for config db device.dongle_id opts ts))
    then none
    else if registered
        (map_get (canonical_of device.dongle_id ts seg) (load_registration device.dongle_id db))
        file
    then none
    else some (record {
      dongle = device.dongle_id;
      addr = device.last_addr;
      ts = ts;
      seg = seg;
      file = file;
      key = blob_key device.dongle_id ts seg file;
    })

unfoldable pub scan_items : Config → Db → Device → SyncOpts → List Text → List QueueItem
scan_items config db device opts [] = []
scan_items config db device opts (line ∷ lines) =
    let rest = scan_items config db device opts lines in
    elim (parse_remote_path (trim line)) [
      | none ↦ rest
      | some p ↦ elim (scan_file config db device opts p) [ none ↦ rest | some it ↦ it ∷ rest ]
    ]

-- `scan`: the lines are the device's answer to `find`, an error if it could not be run.
unfoldable pub scan : Config → Db → Device → SyncOpts → AppResult (List Text) → Action Inner ℕ
unfolding scan_items
scan config db device opts listing queue =
    if is_empty device.last_addr
    then (err (bad_request (t "device address unknown (not seen online yet)")), queue)
    else (elim listing [
      | err e ↦ (err e, queue)
      | ok lines ↦ let (q, n) = enqueue queue (scan_items config db device opts lines) in (ok n, q)
    ])
