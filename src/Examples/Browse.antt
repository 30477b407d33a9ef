-- ===== src/Examples/Browse.antt =====
-- The theorems on the pages and the ignore rules, applied to the household.
use homeconnect.Access.{
  allow_route_view, can_manage_device, can_manage_loaded, check_route_access, is_public_route,
  load_device,
}
use homeconnect.AppState.{AppState}
use homeconnect.Browse.Actions.{
  act_on_movie, managed, route_movie_action, set_is_public, set_route_public, strip_mp4,
}
use homeconnect.Browse.Drives.{
  RoutesQuery, all_rows, default_route, is_named, is_of, is_parsed, route_row, started_in,
}
use homeconnect.Browse.Gaps.{further_runs, playlist_gaps, run_lines}
use homeconnect.Browse.Paging.{IsNewestFirst, asked, next_page_lem, pages}
use homeconnect.Browse.Playlist.{SegLite, endlist, header, playlist}
use homeconnect.Browse.Requests.{route_movie_action_lem}
use homeconnect.Browse.Sharing.{is_known, set_route_public_lem}
use homeconnect.Db.{Device, Route, device_by_dongle}
use homeconnect.Examples.{bob, drive, household}
use homeconnect.Examples.Logs.{tables, whole}
use homeconnect.Logs.Rows.{Tables}
use homeconnect.Movies.{delete_movie, needs_build}
use homeconnect.Movies.Sweep.{is_complete}
use homeconnect.Prelude.{
  [], arith, count, err, if◌then◌else◌, none, ok, refl, some, true, unauthorized, unwrap_or, ℕ,
  ◌&&◌, ◌++◌, ◌∷◌, ◌≡◌,
}
use homeconnect.Prelude.Containers.{map_get}
use homeconnect.Prelude.Decimal.{show_ℕ}
use homeconnect.Prelude.Int.{pos}
use homeconnect.Prelude.Split.{split_once}
use homeconnect.Prelude.Text.{Text, t, text_eq}
use homeconnect.Storage.{split_fullname}
use homeconnect.Prelude.Int.{◌+ℤ◌}

abbrev query : RoutesQuery
query = record { start = none; end = none; limit = some (pos 2); offset = none; route_str = none }

-- Two drives with a parsed qlog, the older one first.
abbrev later : Route
later = record drive { fullname = 100 ∷ b'|' ∷ 117 ∷ []; start_time_utc_millis = pos 20 }

abbrev listed : Tables whole
listed = record tables {
  app = record tables.app { db = record household { routes = drive ∷ later ∷ [] } };
  route_columns =
      (drive.fullname, record (default_route whole) { maxqlog = pos 0 })
      ∷ (later.fullname, record (default_route whole) { maxqlog = pos 0 })
      ∷ [];
}

listed_length : count (asked whole (100 ∷ []) query) (all_rows whole listed) ≡ 2
unfolding all_rows is_of is_parsed started_in route_row text_eq map_get
listed_length = refl

next_page_example :
    (count (λ r. is_named whole later.fullname r) (pages whole listed (100 ∷ []) query 1 0 2)
      ≡ count
          (λ r. asked whole (100 ∷ []) query r && is_named whole later.fullname r)
          (all_rows whole listed))
    × IsNewestFirst whole (pages whole listed (100 ∷ []) query 1 0 2)
next_page_example =
    next_page_lem whole listed (100 ∷ []) query (λ r. is_named whole later.fullname r) 1 2 refl
      (omega arith) (omega arith) (omega (arith, listed_length))

abbrev part : ℕ → SegLite ℕ
part n = record {
  number = pos n;
  qcam_url = 97 ∷ [];
  fcam_url = [];
  dcam_url = [];
  ecam_url = [];
  qcam_duration = 60;
}

abbrev digits : ℕ → Text
digits d = show_ℕ d

gaps_example :
    playlist whole digits [] ((part 0, 97 ∷ []) ∷ (part 1, 97 ∷ []) ∷ (part 4, 97 ∷ []) ∷ [])
    ≡ header
      ∷ ((run_lines whole digits [] ((part 0, 97 ∷ []) ∷ (part 1, 97 ∷ []) ∷ [])
            ++ further_runs whole digits [] (((part 4, 97 ∷ []) ∷ []) ∷ []))
          ++ endlist ∷ [])
unfolding ◌+ℤ◌
gaps_example =
    playlist_gaps whole digits [] (part 0, 97 ∷ []) ((part 1, 97 ∷ []) ∷ (part 4, 97 ∷ []) ∷ [])

abbrev home : AppState
home = tables.app

abbrev name : Text
name = 100 ∷ b'|' ∷ 116 ∷ []

public_example :
    ((d : Text) × (ts : Text) × (dev : Device) × (split_fullname name ≡ ok (d, ts))
      × (can_manage_device household bob d ≡ ok dev))
    × (allow_route_view (set_is_public name true household) name (100 ∷ []) none ≡ (
        if true && is_known name household then ok tt else err (unauthorized (t "login required"))))
    × (check_route_access (set_is_public name true household) name (100 ∷ []) none ≡ (
        if true && is_known name household then ok tt else err (unauthorized (t "login required"))))
    × (is_public_route (set_is_public name true household) (101 ∷ []) ≡ (
        if text_eq name (101 ∷ [])
        then true && is_known (101 ∷ []) household
        else is_public_route household (101 ∷ [])))
unfolding set_route_public split_fullname split_once can_manage_device can_manage_loaded load_device
    device_by_dongle text_eq
public_example =
    set_route_public_lem name (100 ∷ []) (101 ∷ []) bob true home
      (record home { db = set_is_public name true household }) refl

movie_example :
    (d : Text) × (ts : Text) × (device : Device) × (split_fullname name ≡ ok (d, ts))
    × (device_by_dongle d household ≡ some device)
    × (can_manage_loaded household bob device ≡ true)
    × (text_eq (t "rebuild") (t "rebuild") ≡ true)
    × (needs_build
          (delete_movie (100 ∷ []) (116 ∷ []) (t "qcamera") home)
          name
          d
          ts
          (unwrap_or (strip_mp4 (t "qcamera")) (t "qcamera"))
        ≡ (true && is_complete household name (unwrap_or (strip_mp4 (t "qcamera")) (t "qcamera"))))
unfolding route_movie_action managed act_on_movie strip_mp4 split_fullname split_once
    can_manage_loaded device_by_dongle text_eq t
movie_example =
    route_movie_action_lem name (t "qcamera") (t "rebuild") bob true home
      (delete_movie (100 ∷ []) (116 ∷ []) (t "qcamera") home) refl
