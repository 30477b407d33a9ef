-- ===== src/Browse/Actions.antt =====
-- src/api/v1.rs: what a viewer may change on a drive: its public flag, its movies and its subtitles.
use homeconnect.Access.{Auth, allow_route_view, can_manage_device, can_manage_loaded}
use homeconnect.AppState.{AppState}
use homeconnect.Db.{Db, Route, User, device_by_dongle}
use homeconnect.Movies.{delete_movie, disable_movie, movie_cams, status_of}
use homeconnect.Prelude.{
  Action, AppResult, Bool, List, Option, [], any, bad_request, err, false, forbidden, if◌then◌else◌,
  map, none, not, not_found, ok, some, true, unwrap_or, update_where, ◌∷◌,
}
use homeconnect.Prelude.Text.{Text, t, text_eq}
use homeconnect.Storage.{split_fullname}
use homeconnect.Subs.{delete_subs, disable_subs, subs_status}

-- UPDATE routes SET is_public = ? WHERE fullname = ?
unfoldable pub set_is_public : Text → Bool → Db → Db
set_is_public fullname public db = record db {
  routes =
      update_where (λ (r : Route). text_eq r.fullname fullname)
        (λ r. record r { is_public = if public then 1 else 0 }) db.routes;
}

unfoldable pub set_route_public : Text → User → Bool → Action AppState Bool
unfolding set_is_public
set_route_public fullname user public state = elim (split_fullname fullname) [
  | err e ↦ (err e, state)
  | ok (dongle, _) ↦ elim (can_manage_device state.db user dongle) [
    | err e ↦ (err e, state)
    | ok _ ↦ (ok public, record state { db = set_is_public fullname public state.db })
  ]
]

unfoldable pub act_on_subs : Text → Text → Text → Action AppState (Unit {0})
act_on_subs dongle ts action state =
    if text_eq action (t "delete")
    then (ok tt, disable_subs dongle ts state)
    else if text_eq action (t "rebuild")
    then (ok tt, delete_subs dongle ts state)
    else (err (bad_request (t "action must be delete or rebuild")), state)

-- The device of a drive that the caller can manage.
unfoldable pub managed : Db → User → Text → AppResult (Text × Text)
managed db user fullname = elim (split_fullname fullname) [
  | err e ↦ err e
  | ok (dongle, ts) ↦ elim (device_by_dongle dongle db) [
    | none ↦ err (not_found (t "unknown device"))
    | some device ↦
        if can_manage_loaded db user device
        then ok (dongle, ts)
        else err (forbidden (t "not authorized for device"))
  ]
]

unfoldable pub route_subs_action : Text → User → Text → Action AppState (Unit {0})
unfolding act_on_subs managed
route_subs_action fullname user action state = elim (managed state.db user fullname) [
  | err e ↦ (err e, state)
  | ok (dongle, ts) ↦ act_on_subs dongle ts action state
]

-- cam.strip_suffix(".mp4").unwrap_or(&cam)
unfoldable pub strip_mp4 : Text → Option Text
strip_mp4 [] = none
strip_mp4 (c ∷ s) = elim (strip_mp4 s) [
  | some stem ↦ some (c ∷ stem)
  | none ↦ if text_eq (c ∷ s) (t ".mp4") then some [] else none
]

-- The result says whether a sweep is requested.
unfoldable pub act_on_movie : Text → Text → Text → Text → Action AppState Bool
act_on_movie dongle ts stem action state =
    if not (any (λ cam. text_eq cam stem) movie_cams)
    then (err (bad_request (t "unknown camera")), state)
    else if text_eq action (t "delete")
    then (ok false, disable_movie dongle ts stem state)
    else if text_eq action (t "rebuild")
    then (ok true, delete_movie dongle ts stem state)
    else (err (bad_request (t "action must be delete or rebuild")), state)

unfoldable pub route_movie_action : Text → Text → User → Text → Action AppState Bool
unfolding act_on_movie managed strip_mp4
route_movie_action fullname cam user action state = elim (managed state.db user fullname) [
  | err e ↦ (err e, state)
  | ok (dongle, ts) ↦ act_on_movie dongle ts (unwrap_or (strip_mp4 cam) cam) action state
]

-- GET /v1/route/:fullname/movies and …/subs: (ready, disabled), for each camera and for the subtitles.
unfoldable pub route_movies : AppState → Text → Option Auth → AppResult (List (Bool × Bool))
route_movies state fullname auth = elim (split_fullname fullname) [
  | err e ↦ err e
  | ok (dongle, ts) ↦ elim (allow_route_view state.db fullname dongle auth) [
    | err e ↦ err e
    | ok _ ↦ ok (map (status_of state dongle ts) movie_cams)
  ]
]

unfoldable pub route_subs : AppState → Text → Option Auth → AppResult (Bool × Bool)
route_subs state fullname auth = elim (split_fullname fullname) [
  | err e ↦ err e
  | ok (dongle, ts) ↦ elim (allow_route_view state.db fullname dongle auth) [
    | err e ↦ err e
    | ok _ ↦ ok (subs_status state dongle ts)
  ]
]
