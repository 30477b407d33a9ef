-- ===== src/Browse/Sharing.antt =====
-- What the actions on a drive promise: the public flag, and the movie's deletion and rebuild.
use homeconnect.Access.{allow_route_view, can_manage_device, check_route_access, is_public_route}
use homeconnect.AppState.{AppState}
use homeconnect.Browse.Actions.{set_is_public, set_route_public}
use homeconnect.Db.{Db, Device, Route, User}
use homeconnect.Prelude.{
  Bool, List, [], any, arith, err, false, find, if◌then◌else◌, inl, inr, none, ok, result-cases,
  some, unauthorized, update_where, ◌&&◌, ◌==◌, ◌∷◌, ◌≡◌,
}
use homeconnect.Prelude.Text.{Text, t, text_eq, text_eq_iff, text_eq_refl}
use homeconnect.Storage.{split_fullname}

set_is_public-is_public_route :
    (db : Db) (fullname j : Text) (public : Bool)
    → is_public_route (set_is_public fullname public db) j ≡ (
        if text_eq fullname j
        then public && any (λ (r : Route). text_eq r.fullname j) db.routes
        else is_public_route db j)
unfolding set_is_public is_public_route
set_is_public-is_public_route db fullname j public = on db.routes
  where
    named : Text → Route → Bool
    named k r = text_eq r.fullname k

    on :
        (rs : List Route)
        → (elim (find
            (λ (r : Route). text_eq r.fullname j)
            (update_where
              (λ (r : Route). text_eq r.fullname fullname)
              (λ r. record r { is_public = if public then 1 else 0 })
              rs)) [ none ↦ false | some r ↦ r.is_public == 1 ])
          ≡ (if text_eq fullname j
              then public && any (λ (r : Route). text_eq r.fullname j) rs
              else (elim (find (λ (r : Route). text_eq r.fullname j) rs) [
                | none ↦ false
                | some r ↦ r.is_public == 1
              ]))
    on [] = ground arith
    on (r ∷ rs) = ground (
      arith,
      on rs,
      text_eq_iff r.fullname j,
      text_eq_iff r.fullname fullname,
      text_eq_iff fullname j,
    )

-- A drive with this name is known.
abbrev pub is_known : Text → Db → Bool
is_known fullname db = any (λ (r : Route). text_eq r.fullname fullname) db.routes

-- An accepted change of a drive's public flag comes from a user that can manage the device that the drive's name
-- begins with. After it a caller without a token is let to the pages and to the media of the drive exactly if the
-- flag was set and the drive is known, and is asked for a login otherwise; every other drive keeps its flag.
pub set_route_public_lem :
    (fullname dongle j : Text) (user : User) (public : Bool) (state new : AppState)
    → set_route_public fullname user public state ≡ (ok public, new)
    → ((d : Text) × (ts : Text) × (dev : Device) × (split_fullname fullname ≡ ok (d, ts))
        × (can_manage_device state.db user d ≡ ok dev))
      × (allow_route_view new.db fullname dongle none ≡ (
          if public && is_known fullname state.db
          then ok tt
          else err (unauthorized (t "login required"))))
      × (check_route_access new.db fullname dongle none ≡ (
          if public && is_known fullname state.db
          then ok tt
          else err (unauthorized (t "login required"))))
      × (is_public_route new.db j ≡ (
          if text_eq fullname j then public && is_known j state.db else is_public_route state.db j))
unfolding set_route_public allow_route_view check_route_access
set_route_public_lem fullname dongle j user public state new h =
    elim (result-cases (split_fullname fullname)) [
      | inr (e, s) ↦ absurd (ground (arith, h, s))
      | inl ((d, ts), s) ↦ elim (result-cases (can_manage_device state.db user d)) [
        | inr (e, c) ↦ absurd (ground (arith, h, s, c))
        | inl (dev, c) ↦
            let n : new ≡ record state { db = set_is_public fullname public state.db } =
              ground (arith, h, s, c) in
            let self : is_public_route (set_is_public fullname public state.db) fullname
                ≡ (public && is_known fullname state.db) =
              ground (
                arith,
                set_is_public-is_public_route state.db fullname fullname public,
                text_eq_refl fullname,
              ) in
            rw n (
              (d, ts, dev, s, c),
              ground (arith, self),
              ground (arith, self),
              set_is_public-is_public_route state.db fullname j public,
            )
      ]
    ]
