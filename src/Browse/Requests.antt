-- ===== src/Browse/Requests.antt =====
-- The requests on a drive's movie: what is refused, and what an accepted one leads to at the next sweep.
use homeconnect.Access.{can_manage_loaded}
use homeconnect.AppState.{AppState}
use homeconnect.Browse.Actions.{act_on_movie, managed, route_movie_action, strip_mp4}
use homeconnect.Db.{Db, Device, User, device_by_dongle}
use homeconnect.Movies.{delete_movie, disable_movie, movie_cams, needs_build}
use homeconnect.Movies.Sweep.{is_complete, needs_build-delete_movie, needs_build-disable_movie}
use homeconnect.Prelude.{
  AppError, AppResult, Bool, Bool-cases, Option-cases, any, arith, bad_request, err, false,
  if◌then◌else◌, inl, inr, ok, result-cases, some, true, unwrap_or, ◌&&◌, ◌∙◌, ◌≡◌, ◌⊎◌,
}
use homeconnect.Prelude.Split.{split_once, split_once_sound}
use homeconnect.Prelude.Text.{Text, t, text_eq}
use homeconnect.Storage.{fullname_of, split_fullname}
use mathlib.Core.Path.{subst}

-- The action's error, if the caller may act: what the code checks last.
abbrev pub IsBadRequest : Text → Text → AppError → Type 0
IsBadRequest stem action e =
    ((any (λ cam. text_eq cam stem) movie_cams ≡ false) × (e ≡ bad_request (t "unknown camera")))
    ⊎ ((text_eq action (t "delete") ≡ false)
        × (text_eq action (t "rebuild") ≡ false)
        × (e ≡ bad_request (t "action must be delete or rebuild")))

-- A refused movie action changes nothing, and its error is that of the access check, or BadRequest for a camera or
-- for an action that is not known.
pub route_movie_action_refused :
    (fullname cam action : Text) (user : User) (e : AppError) (state new : AppState)
    → route_movie_action fullname cam user action state ≡ (err e, new)
    → (new ≡ state)
      × ((managed state.db user fullname ≡ err e)
          ⊎ IsBadRequest (unwrap_or (strip_mp4 cam) cam) action e)
unfolding route_movie_action act_on_movie
route_movie_action_refused fullname cam action user e state new h =
    elim (result-cases (managed state.db user fullname)) [
      | inr (x, m) ↦ (ground (arith, h, m), inl (ground (arith, h, m)))
      | inl ((d, ts), m) ↦
          let stem : Text = unwrap_or (strip_mp4 cam) cam in
          elim (Bool-cases (any (λ c. text_eq c stem) movie_cams)) [
            | inr b ↦ (ground (arith, h, m, b), inr (inl (b, ground (arith, h, m, b))))
            | inl b ↦ elim (Bool-cases (text_eq action (t "delete"))) [
              | inl x ↦ absurd (ground (arith, h, m, b, x))
              | inr x ↦ elim (Bool-cases (text_eq action (t "rebuild"))) [
                | inl y ↦ absurd (ground (arith, h, m, b, x, y))
                | inr y ↦
                    (ground (arith, h, m, b, x, y), inr (inr (x, y, ground (arith, h, m, b, x, y))))
              ]
            ]
          ]
    ]

managed_name :
    (db : Db) (user : User) (fullname d ts : Text)
    → managed db user fullname ≡ ok (d, ts)
    → fullname ≡ fullname_of d ts
unfolding managed split_fullname fullname_of
managed_name db user fullname d ts h = elim (Option-cases (split_once b'|' fullname)) [
  | inl n ↦ absurd (ground (arith, h, n))
  | inr ((x, y), n) ↦ ground (arith, h, n, split_once_sound b'|' fullname x y n)
]

movie_action-managed :
    (fullname cam action d ts : Text) (user : User) (wakes : Bool) (state new : AppState)
    → route_movie_action fullname cam user action state ≡ (ok wakes, new)
    → managed state.db user fullname ≡ ok (d, ts)
    → (text_eq action (if wakes then t "rebuild" else t "delete") ≡ true)
      × (needs_build new fullname d ts (unwrap_or (strip_mp4 cam) cam)
          ≡ (wakes && is_complete state.db fullname (unwrap_or (strip_mp4 cam) cam)))
unfolding route_movie_action act_on_movie
movie_action-managed fullname cam action d ts user wakes state new h m =
    let stem : Text = unwrap_or (strip_mp4 cam) cam in
    let n : fullname ≡ fullname_of d ts = managed_name state.db user fullname d ts m in
    elim (Bool-cases (any (λ c. text_eq c stem) movie_cams)) [
      | inr b ↦ absurd (ground (arith, h, m, b))
      | inl b ↦ elim (Bool-cases (text_eq action (t "delete"))) [
        | inl x ↦
            let w : wakes ≡ false = ground (arith, h, m, b, x) in
            let e : new ≡ disable_movie d ts stem state = ground (arith, h, m, b, x) in
            rw (w, e, n)
              (
                x,
                (needs_build-disable_movie state d ts stem
                    (disable_movie d ts stem state).db.segments).2,
              )
        | inr x ↦ elim (Bool-cases (text_eq action (t "rebuild"))) [
          | inl y ↦
              let w : wakes ≡ true = ground (arith, h, m, b, x, y) in
              let e : new ≡ delete_movie d ts stem state = ground (arith, h, m, b, x, y) in
              rw (w, e, n) (y, needs_build-delete_movie state d ts stem)
          | inr y ↦ absurd (ground (arith, h, m, b, x, y))
        ]
      ]
    ]

managed-manages :
    (db : Db) (user : User) (fullname d ts : Text)
    → managed db user fullname ≡ ok (d, ts)
    → (split_fullname fullname ≡ ok (d, ts))
      × ((device : Device) × (device_by_dongle d db ≡ some device)
          × (can_manage_loaded db user device ≡ true))
unfolding managed
managed-manages db user fullname d ts h = elim (result-cases (split_fullname fullname)) [
  | inr (e, n) ↦ absurd (ground (arith, h, n))
  | inl ((x, y), n) ↦ elim (Option-cases (device_by_dongle x db)) [
    | inl g ↦ absurd (ground (arith, h, n, g))
    | inr (device, g) ↦ elim (Bool-cases (can_manage_loaded db user device)) [
      | inr c ↦ absurd (ground (arith, h, n, g, c))
      | inl c ↦
          let p : Path (AppResult (Text × Text)) (ok (x, y)) (ok (d, ts)) =
            ground (arith, h, n, g, c) in
          let dx : x ≡ d = ground (arith, p) in
          (n ∙ p, (device, subst (λ k. device_by_dongle k db ≡ some device) dx g, c))
    ]
  ]
]

-- An accepted movie action is a deletion or a rebuild by a user that can manage the device of the drive. After a
-- deletion no sweep builds the movie; after a rebuild, which also wakes the sweep, the movie is built exactly if every
-- segment of the drive has the camera.
pub route_movie_action_lem :
    (fullname cam action : Text) (user : User) (wakes : Bool) (state new : AppState)
    → route_movie_action fullname cam user action state ≡ (ok wakes, new)
    → (d : Text) × (ts : Text) × (device : Device) × (split_fullname fullname ≡ ok (d, ts))
      × (device_by_dongle d state.db ≡ some device)
      × (can_manage_loaded state.db user device ≡ true)
      × (text_eq action (if wakes then t "rebuild" else t "delete") ≡ true)
      × (needs_build new fullname d ts (unwrap_or (strip_mp4 cam) cam)
          ≡ (wakes && is_complete state.db fullname (unwrap_or (strip_mp4 cam) cam)))
unfolding route_movie_action
route_movie_action_lem fullname cam action user wakes state new h =
    elim (result-cases (managed state.db user fullname)) [
      | inr (e, m) ↦ absurd (ground (arith, h, m))
      | inl ((d, ts), m) ↦
          let (n, (device, g, c)) = managed-manages state.db user fullname d ts m in
          let (a, b) = movie_action-managed fullname cam action d ts user wakes state new h m in
          (d, ts, device, n, g, c, a, b)
    ]
