-- ===== src/Segments/Laws.antt =====
-- The rows that the registration of a file leaves.
use homeconnect.Db.{Db, Route, Segment}
use homeconnect.Prelude.{
  Bool-cases, [], any, arith, false, inl, inr, is_empty, refl, true, ◌∷◌, ◌≡◌,
}
use homeconnect.Prelude.Int.{ℤ}
use homeconnect.Prelude.Text.{Text, t, text_eq, text_eq_refl}
use homeconnect.Segments.{connectdata_url, ensure_route, insert_segment}
use homeconnect.Storage.{fullname_of}

pub url_not_empty :
    (public ty dongle ts file : Text) (seg : ℤ)
    → is_empty (connectdata_url public ty dongle ts seg file) ≡ false
unfolding connectdata_url t
url_not_empty [] ty dongle ts file seg = refl
url_not_empty (c ∷ public) ty dongle ts file seg = refl

pub any-insert_segment :
    (row : Segment) (db : Db)
    → any
        (λ (s : Segment). text_eq s.canonical_name row.canonical_name)
        (insert_segment row db).segments
      ≡ true
unfolding insert_segment
any-insert_segment row db =
    elim (Bool-cases
      (any (λ (s : Segment). text_eq s.canonical_name row.canonical_name) db.segments)) [
        | inl y ↦ rw (y, insert_segment) y
        | inr n ↦ ground (arith, n, text_eq_refl row.canonical_name)
      ]

pub ensure_route_segments :
    (dongle ts : Text) (now : ℤ) (db : Db) → (ensure_route dongle ts now db).segments ≡ db.segments
unfolding ensure_route
ensure_route_segments dongle ts now db =
    elim (Bool-cases (any (λ (r : Route). text_eq r.fullname (fullname_of dongle ts)) db.routes)) [
      | inl y ↦ rw (y, ensure_route) refl
      | inr n ↦ rw (n, ensure_route) refl
    ]
