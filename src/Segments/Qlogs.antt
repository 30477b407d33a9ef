-- ===== src/Segments/Qlogs.antt =====
-- A qlog's registration, and what keeps it: the rows with a qlog, and the drives that are known.
use homeconnect.Db.{Db, Route, Segment}
use homeconnect.Prelude.{
  All, Bool, Bool-cases, List, Option-cases, [], any, arith, false, inl, inr, is_empty, not, refl,
  select, some, true, update_where, ◌&&◌, ◌∷◌, ◌≡◌,
}
use homeconnect.Prelude.Int.{eq_ℤ, ℤ}
use homeconnect.Prelude.Text.{Text, text_eq, text_eq_refl}
use homeconnect.Segments.{
  Column, bare_segment, connectdata_url, dcam_url, ecam_url, ensure_route, fcam_url, file_kind,
  insert_segment, qcam_url, qlog_url, rlog_url, set_column, set_segment_file, update_segment,
}
use homeconnect.Segments.Laws.{any-insert_segment, ensure_route_segments, url_not_empty}
use homeconnect.Settings.{Config}
use homeconnect.Storage.{canonical_of, fullname_of}

module _ {ℓ} {A : Type ℓ} where
  any-update_where :
      (p q : A → Bool) (f : A → A) (xs : List A)
      → ((x : A) → p x ≡ true → p (f x) ≡ true)
      → any p xs ≡ true
      → any p (update_where q f xs) ≡ true
  any-update_where p q f [] h a = a
  any-update_where p q f (x ∷ xs) h a = elim (Bool-cases (p x)) [
    | inl e ↦ ground (arith, h x, e)
    | inr e ↦ ground (arith, e, any-update_where p q f xs h)
  ]

  -- An update that makes the condition true where it applies, if it applies somewhere.
  any-update_where_made :
      (p q : A → Bool) (f : A → A) (xs : List A)
      → All (λ x. q x ≡ true → p (f x) ≡ true) xs
      → any q xs ≡ true
      → any p (update_where q f xs) ≡ true
  any-update_where_made p q f [] h a = ground arith
  any-update_where_made p q f (x ∷ xs) h a = elim (Bool-cases (q x)) [
    | inl e ↦ ground (arith, h.0 e, e)
    | inr e ↦ ground (arith, e, any-update_where_made p q f xs h.1)
  ]

  pub any-select : (p q : A → Bool) (xs : List A) → any p (select q xs) ≡ any (λ x. q x && p x) xs
  any-select p q [] = refl
  any-select p q (x ∷ xs) = ground (arith, any-select p q xs)

-- A row of segment `seg` of the drive, with a qlog.
abbrev pub qlog_row : Text → ℤ → Segment → Bool
qlog_row fullname seg g =
    text_eq g.canonical_route_name fullname && eq_ℤ g.number seg && not (is_empty g.qlog_url)

-- The rows with the segment's name are those of its drive and number.
abbrev pub OfSegment : Text → Text → ℤ → Segment → Type 0
OfSegment canonical fullname seg g =
    text_eq g.canonical_name canonical ≡ true
    → (text_eq g.canonical_route_name fullname ≡ true) × (eq_ℤ g.number seg ≡ true)

set_column-qlog_row :
    (col : Column) (url fullname : Text) (seg : ℤ) (g : Segment)
    → is_empty url ≡ false
    → qlog_row fullname seg g ≡ true
    → qlog_row fullname seg (set_column col url g) ≡ true
unfolding set_column
set_column-qlog_row qcam_url url fullname seg g e h = h
set_column-qlog_row fcam_url url fullname seg g e h = h
set_column-qlog_row dcam_url url fullname seg g e h = h
set_column-qlog_row ecam_url url fullname seg g e h = h
set_column-qlog_row qlog_url url fullname seg g e h = ground (arith, e, h)
set_column-qlog_row rlog_url url fullname seg g e h = h

abbrev pub HasQlog : Text → ℤ → Db → Type 0
HasQlog fullname seg db = any (qlog_row fullname seg) db.segments ≡ true

insert_segment-HasQlog :
    (row : Segment) (fullname : Text) (seg : ℤ) (db : Db)
    → HasQlog fullname seg db
    → HasQlog fullname seg (insert_segment row db)
unfolding insert_segment
insert_segment-HasQlog row fullname seg db h = ground (arith, h)

update_segment-HasQlog :
    (col : Column) (url canonical fullname : Text) (seg : ℤ) (db : Db)
    → is_empty url ≡ false
    → HasQlog fullname seg db
    → HasQlog fullname seg (update_segment col url canonical db)
unfolding update_segment
update_segment-HasQlog col url canonical fullname seg db e h =
    any-update_where (qlog_row fullname seg) (λ s. text_eq s.canonical_name canonical)
      (set_column col url) db.segments (λ g. set_column-qlog_row col url fullname seg g e) h

ensured-HasQlog :
    (row : Segment) (dongle ts fullname : Text) (now seg : ℤ) (db : Db)
    → HasQlog fullname seg db
    → HasQlog fullname seg (insert_segment row (ensure_route dongle ts now db))
ensured-HasQlog row dongle ts fullname now seg db h =
    insert_segment-HasQlog row fullname seg (ensure_route dongle ts now db)
      (rw (ensure_route_segments dongle ts now db) h)

pub set_segment_file-HasQlog :
    (config : Config) (now : ℤ) (dongle ts file fullname : Text) (seg k : ℤ) (db : Db)
    → HasQlog fullname k db
    → HasQlog fullname k (set_segment_file config now dongle ts seg file db)
unfolding set_segment_file
set_segment_file-HasQlog config now dongle ts file fullname seg k db h =
    elim (Option-cases (file_kind file)) [
      | inl e ↦ rw (e, set_segment_file) h
      | inr ((ty, col), e) ↦
          rw (e, set_segment_file)
            (update_segment-HasQlog col (connectdata_url config.public_url ty dongle ts seg file)
              (canonical_of dongle ts seg) fullname k
              (insert_segment (bare_segment dongle ts seg) (ensure_route dongle ts now db))
              (url_not_empty config.public_url ty dongle ts file seg)
              (ensured-HasQlog (bare_segment dongle ts seg) dongle ts fullname now k db h))
    ]

pub insert_segment-OfSegment :
    (dongle ts : Text) (seg : ℤ) (db : Db)
    → All (OfSegment (canonical_of dongle ts seg) (fullname_of dongle ts) seg) db.segments
    → All
        (OfSegment (canonical_of dongle ts seg) (fullname_of dongle ts) seg)
        (insert_segment (bare_segment dongle ts seg) db).segments
unfolding insert_segment bare_segment
insert_segment-OfSegment dongle ts seg db a =
    elim (Bool-cases
      (any (λ (s : Segment). text_eq s.canonical_name (canonical_of dongle ts seg)) db.segments)) [
        | inl y ↦ rw (y, insert_segment) a
        | inr n ↦
            rw (n, insert_segment) (λ e. (text_eq_refl (fullname_of dongle ts), ground arith), a)
      ]

made :
    (canonical fullname url : Text) (seg : ℤ)
    → is_empty url ≡ false
    → (xs : List Segment) → All (OfSegment canonical fullname seg) xs
    → All
        (λ g.
          text_eq g.canonical_name canonical ≡ true
          → qlog_row fullname seg (set_column qlog_url url g) ≡ true)
        xs
unfolding set_column
made canonical fullname url seg e [] a = tt
made canonical fullname url seg e (g ∷ gs) a =
    (λ h. let o = a.0 h in ground (arith, o, e), made canonical fullname url seg e gs a.1)

-- The registration of a qlog.
pub set_qlog-HasQlog :
    (config : Config) (now : ℤ) (dongle ts file ty : Text) (seg : ℤ) (db : Db)
    → file_kind file ≡ some (ty, qlog_url)
    → All (OfSegment (canonical_of dongle ts seg) (fullname_of dongle ts) seg) db.segments
    → HasQlog (fullname_of dongle ts) seg (set_segment_file config now dongle ts seg file db)
unfolding set_segment_file update_segment
set_qlog-HasQlog config now dongle ts file ty seg db e a =
    let full : Text = fullname_of dongle ts in
    let canonical : Text = canonical_of dongle ts seg in
    let row : Segment = bare_segment dongle ts seg in
    let db' : Db = ensure_route dongle ts now db in
    let url : Text = connectdata_url config.public_url ty dongle ts seg file in
    let a' : All (OfSegment canonical full seg) (insert_segment row db').segments =
      insert_segment-OfSegment dongle ts seg db' (rw (ensure_route_segments dongle ts now db) a) in
    rw (e, set_segment_file)
      (any-update_where_made (qlog_row full seg) (λ s. text_eq s.canonical_name canonical)
        (set_column qlog_url url) (insert_segment row db').segments
        (made canonical full url seg (url_not_empty config.public_url ty dongle ts file seg)
          (insert_segment row db').segments a')
        (any-insert_segment row db'))

abbrev pub Known : Text → Db → Type 0
Known fullname db = any (λ (r : Route). text_eq r.fullname fullname) db.routes ≡ true

pub ensured-Known :
    (dongle ts fullname : Text) (now : ℤ) (row : Segment) (db : Db)
    → Known fullname db
    → Known fullname (insert_segment row (ensure_route dongle ts now db))
unfolding insert_segment ensure_route
ensured-Known dongle ts fullname now row db h = ground (arith, h)

pub ensure_route-Known :
    (dongle ts : Text) (now : ℤ) (row : Segment) (db : Db)
    → Known (fullname_of dongle ts) (insert_segment row (ensure_route dongle ts now db))
unfolding insert_segment ensure_route
ensure_route-Known dongle ts now row db = ground (arith, text_eq_refl (fullname_of dongle ts))

pub set_segment_file-Known :
    (config : Config) (now : ℤ) (dongle ts file fullname : Text) (seg : ℤ) (db : Db)
    → Known fullname db
    → Known fullname (set_segment_file config now dongle ts seg file db)
unfolding set_segment_file update_segment
set_segment_file-Known config now dongle ts file fullname seg db h =
    elim (Option-cases (file_kind file)) [
      | inl e ↦ rw (e, set_segment_file) h
      | inr ((ty, col), e) ↦
          rw (e, set_segment_file)
            (ensured-Known dongle ts fullname now (bare_segment dongle ts seg) db h)
    ]
