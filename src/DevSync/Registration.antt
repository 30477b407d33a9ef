-- ===== src/DevSync/Registration.antt =====
-- What `set_segment_file` writes is what the scan reads: a registered file is not pulled again.
use homeconnect.Db.{Db, Segment}
use homeconnect.DevSync.{Reg, load_registration, reg_of, registered}
use homeconnect.Prelude.{
  All, Bool-cases, List, [], any, append_assoc, arith, false, inl, inr, is_empty, is_some, map,
  refl, select, some, sym, true, update_where, ◌++◌, ◌∷◌, ◌≡◌,
}
use homeconnect.Prelude.Containers.{map_get}
use homeconnect.Prelude.Int.{ℤ}
use homeconnect.Prelude.Text.{
  Text, contains, strip_prefix, strip_prefix-append, t, text_eq, text_eq_iff,
}
use homeconnect.Segments.{
  Column, bare_segment, connectdata_url, dcam_url, ecam_url, ensure_route, fcam_url, file_kind,
  insert_segment, qcam_url, qlog_url, rlog_url, set_column, set_segment_file, update_segment,
}
use homeconnect.Segments.Laws.{any-insert_segment, ensure_route_segments, url_not_empty}
use homeconnect.Settings.{Config}
use homeconnect.Storage.{canonical_of, fullname_of}

-- The rows of a segment belong to its drive.
abbrev pub OfRoute : Text → Text → Segment → Type 0
OfRoute canonical fullname s = s.canonical_name ≡ canonical → s.canonical_route_name ≡ fullname

set_column_names :
    (col : Column) (url : Text) (s : Segment)
    → ((set_column col url s).canonical_name ≡ s.canonical_name)
      × ((set_column col url s).canonical_route_name ≡ s.canonical_route_name)
unfolding set_column
set_column_names qcam_url url s = (refl, refl)
set_column_names fcam_url url s = (refl, refl)
set_column_names dcam_url url s = (refl, refl)
set_column_names ecam_url url s = (refl, refl)
set_column_names qlog_url url s = (refl, refl)
set_column_names rlog_url url s = (refl, refl)

-- A name and a file that both tests read in the same way: of the six kinds, the file names one.
abbrev pub IsOneKind : Text → Type 0
IsOneKind file =
    contains (t "qlog") file ≡ true
    → (contains (t "qcamera") file ≡ false)
      × (contains (t "fcamera") file ≡ false)
      × (contains (t "dcamera") file ≡ false)
      × (contains (t "ecamera") file ≡ false)

registered_column :
    (file ty url : Text) (col : Column) (s : Segment)
    → IsOneKind file
    → file_kind file ≡ some (ty, col)
    → is_empty url ≡ false
    → registered (some (reg_of (set_column col url s))) file ≡ true
unfolding registered reg_of set_column file_kind
registered_column file ty url qcam_url s k h e = ground (arith, e, k)
registered_column file ty url fcam_url s k h e = ground (arith, e, k)
registered_column file ty url dcam_url s k h e = ground (arith, e, k)
registered_column file ty url ecam_url s k h e = ground (arith, e, k)
registered_column file ty url qlog_url s k h e = ground (arith, e, k)
registered_column file ty url rlog_url s k h e = ground (arith, e, k)

abbrev reg_rows : Text → List Segment → List (Text × Reg)
reg_rows dongle xs =
    map (λ (s : Segment). (s.canonical_name, reg_of s))
      (select
        (λ (s : Segment). is_some (strip_prefix (fullname_of dongle []) s.canonical_route_name)) xs)

of_dongle :
    (dongle ts : Text)
    → is_some (strip_prefix (fullname_of dongle []) (fullname_of dongle ts)) ≡ true
unfolding fullname_of
of_dongle dongle ts = rw (append_assoc', strip_prefix-append (dongle ++ b'|' ∷ []) ts) refl
  where
    append_assoc' : dongle ++ b'|' ∷ ts ≡ (dongle ++ b'|' ∷ []) ++ ts
    append_assoc' = sym (append_assoc dongle (b'|' ∷ []) ts)

found :
    (dongle ts canonical url : Text) (col : Column) (xs : List Segment)
    → All (OfRoute canonical (fullname_of dongle ts)) xs
    → any (λ (s : Segment). text_eq s.canonical_name canonical) xs ≡ true
    → (s : Segment) × (map_get canonical (
          reg_rows dongle (
            update_where
              (λ (s : Segment). text_eq s.canonical_name canonical)
              (set_column col url)
              xs))
        ≡ some (reg_of (set_column col url s)))
unfolding map_get
found dongle ts canonical url col [] a h = ground arith
found dongle ts canonical url col (x ∷ xs) a h =
    elim (Bool-cases (text_eq x.canonical_name canonical)) [
      | inl y ↦
          let (n, r) = set_column_names col url x in
          let e : is_some
                (strip_prefix (fullname_of dongle []) (set_column col url x).canonical_route_name)
              ≡ true =
            rw (r, a.0 (ground (arith, text_eq_iff x.canonical_name canonical)))
              (of_dongle dongle ts) in
          (x, ground (arith, e, y, n))
      | inr y ↦
          let (s, e) = found dongle ts canonical url col xs a.1 (ground arith) in
          (s, ground (arith, e, y))
    ]

inserted-OfRoute :
    (row : Segment) (fullname : Text) (db : Db)
    → row.canonical_route_name ≡ fullname
    → All (OfRoute row.canonical_name fullname) db.segments
    → All (OfRoute row.canonical_name fullname) (insert_segment row db).segments
unfolding insert_segment
inserted-OfRoute row fullname db r a =
    elim (Bool-cases
      (any (λ (s : Segment). text_eq s.canonical_name row.canonical_name) db.segments)) [
        | inl y ↦ rw (y, insert_segment) a
        | inr n ↦ rw (n, insert_segment) (λ e. r, a)
      ]

-- Once a file of a known kind is registered by `set_segment_file`, the next scan's table reports it as
-- registered, whatever the table held before, as long as a row with the segment's name belongs to the
-- segment's drive, and the file's name does not name both the qlog and a camera.
pub registered-set_segment_file :
    (config : Config) (now : ℤ) (dongle ts file ty : Text) (seg : ℤ) (col : Column) (db : Db)
    → IsOneKind file
    → file_kind file ≡ some (ty, col)
    → All (OfRoute (canonical_of dongle ts seg) (fullname_of dongle ts)) db.segments
    → registered
        (map_get
          (canonical_of dongle ts seg)
          (load_registration dongle (set_segment_file config now dongle ts seg file db)))
        file
      ≡ true
unfolding load_registration update_segment bare_segment set_segment_file
registered-set_segment_file config now dongle ts file ty seg col db k h a =
    let row : Segment = bare_segment dongle ts seg in
    let db' : Db = ensure_route dongle ts now db in
    let a' : All (OfRoute (canonical_of dongle ts seg) (fullname_of dongle ts)) db'.segments =
      rw (ensure_route_segments dongle ts now db) a in
    let (s, e) =
      found dongle ts (canonical_of dongle ts seg)
        (connectdata_url config.public_url ty dongle ts seg file) col
        (insert_segment row db').segments (inserted-OfRoute row (fullname_of dongle ts) db' refl a')
        (any-insert_segment row db') in
    rw (h, set_segment_file)
      (rw e (
        registered_column file ty (connectdata_url config.public_url ty dongle ts seg file) col s k
          h (url_not_empty config.public_url ty dongle ts file seg)))
