-- ===== src/Logs/Listed.antt =====
-- A parsed qlog makes its drive appear in the lists of drives, which ask for a `maxqlog` other than -1.
use homeconnect.Db.{Db}
use homeconnect.Logs.Accumulate.{Accum, new_accum}
use homeconnect.Logs.Decode.{Decoders, decompress, write_artifacts}
use homeconnect.Logs.Messages.{accumulate_all}
use homeconnect.Logs.Recomputed.{Lists, recompute-Lists}
use homeconnect.Logs.Rows.{
  Tables, keep_gps, parse_and_store, recompute_route, set_siblings, sibling_cams, upsert_row,
  upsert_segment, write_route_meta,
}
use homeconnect.Prelude.{
  All, AppError, Bool-cases, List, Option, [], arith, err, inl, inr, none, ok, refl, result-cases,
  some, ◌∙◌, ◌∷◌, ◌≡◌,
}
use homeconnect.Prelude.Floats.{Floats}
use homeconnect.Prelude.Int.{ℤ}
use homeconnect.Prelude.Text.{Text}
use homeconnect.Segments.{bare_segment, ensure_route, file_kind, insert_segment, qlog_url}
use homeconnect.Segments.Laws.{ensure_route_segments}
use homeconnect.Segments.Qlogs.{
  HasQlog, Known, OfSegment, ensure_route-Known, insert_segment-OfSegment, set_qlog-HasQlog,
  set_segment_file-HasQlog, set_segment_file-Known,
}
use homeconnect.Settings.{Config}
use homeconnect.Storage.{Bytes, blob_key, canonical_of, exists, fullname_of}

module _ (fl : Floats) where
  siblings-HasQlog :
      (config : Config) (now : ℤ) (dongle ts : Text) (seg : ℤ) (cams : List Text) (fullname : Text)
      (k : ℤ) (s : Tables fl)
      → HasQlog fullname k s.app.db
      → HasQlog fullname k (set_siblings fl config now dongle ts seg cams s).app.db
  unfolding set_siblings
  siblings-HasQlog config now dongle ts seg [] fullname k s h = h
  siblings-HasQlog config now dongle ts seg (cam ∷ cams) fullname k s h =
      elim (Bool-cases (exists s.app.blobs (blob_key dongle ts seg cam))) [
        | inl e ↦
            rw (e, set_siblings)
              (siblings-HasQlog config now dongle ts seg cams fullname k _
                (set_segment_file-HasQlog config now dongle ts cam fullname seg k s.app.db h))
        | inr e ↦
            rw (e, set_siblings) (siblings-HasQlog config now dongle ts seg cams fullname k s h)
      ]

  siblings-Known :
      (config : Config) (now : ℤ) (dongle ts : Text) (seg : ℤ) (cams : List Text) (fullname : Text)
      (s : Tables fl)
      → Known fullname s.app.db
      → Known fullname (set_siblings fl config now dongle ts seg cams s).app.db
  unfolding set_siblings
  siblings-Known config now dongle ts seg [] fullname s h = h
  siblings-Known config now dongle ts seg (cam ∷ cams) fullname s h =
      elim (Bool-cases (exists s.app.blobs (blob_key dongle ts seg cam))) [
        | inl e ↦
            rw (e, set_siblings)
              (siblings-Known config now dongle ts seg cams fullname _
                (set_segment_file-Known config now dongle ts cam fullname seg s.app.db h))
        | inr e ↦ rw (e, set_siblings) (siblings-Known config now dongle ts seg cams fullname s h)
      ]

  meta_columns :
      (dongle ts : Text) (acc : Accum fl) (s : Tables fl)
      → (write_route_meta fl dongle ts acc s).route_columns ≡ s.route_columns
  unfolding write_route_meta
  meta_columns dongle ts acc s = ground arith

  gps_columns :
      (dongle : Text) (p : Option (fl.F64 × fl.F64 × ℤ)) (s : Tables fl)
      → (keep_gps fl dongle p s).route_columns ≡ s.route_columns
  unfolding keep_gps
  gps_columns dongle none s = refl
  gps_columns dongle (some p) s = refl

  upsert-HasQlog :
      (config : Config) (now : ℤ) (dongle ts file ty : Text) (seg : ℤ) (acc : Accum fl)
      (s : Tables fl)
      → file_kind file ≡ some (ty, qlog_url)
      → All (OfSegment (canonical_of dongle ts seg) (fullname_of dongle ts) seg) s.app.db.segments
      → HasQlog
          (fullname_of dongle ts)
          seg
          (upsert_segment fl config now dongle ts seg file acc s).app.db
  unfolding upsert_segment
  upsert-HasQlog config now dongle ts file ty seg acc s e a =
      let db : Db =
        insert_segment (bare_segment dongle ts seg) (ensure_route dongle ts now s.app.db) in
      let a' : All (OfSegment (canonical_of dongle ts seg) (fullname_of dongle ts) seg)
          db.segments =
        insert_segment-OfSegment dongle ts seg (ensure_route dongle ts now s.app.db)
          (rw (ensure_route_segments dongle ts now s.app.db) a) in
      siblings-HasQlog config now dongle ts seg (sibling_cams fl) (fullname_of dongle ts) seg
        (upsert_row fl config now dongle ts seg file acc s)
        (set_qlog-HasQlog config now dongle ts file ty seg db e a')

  upsert-Known :
      (config : Config) (now : ℤ) (dongle ts file : Text) (seg : ℤ) (acc : Accum fl) (s : Tables fl)
      → Known (fullname_of dongle ts) (upsert_segment fl config now dongle ts seg file acc s).app.db
  unfolding upsert_segment
  upsert-Known config now dongle ts file seg acc s =
      siblings-Known config now dongle ts seg (sibling_cams fl) (fullname_of dongle ts)
        (upsert_row fl config now dongle ts seg file acc s)
        (set_segment_file-Known config now dongle ts file (fullname_of dongle ts) seg
          (insert_segment (bare_segment dongle ts seg) (ensure_route dongle ts now s.app.db))
          (ensure_route-Known dongle ts now (bare_segment dongle ts seg) s.app.db))

  keep_Lists :
      (fullname : Text) (seg : ℤ) (s u : Tables fl)
      → u.route_columns ≡ s.route_columns
      → Lists fl fullname seg s
      → Lists fl fullname seg u
  keep_Lists fullname seg s u e (r, g, m) = (r, rw e g, m)

  -- The only error of `parse_and_store` is that of the decompression, and then nothing is written.
  pub parse_and_store_refused :
      (lib : Decoders fl) (config : Config) (now : ℤ) (dongle ts file : Text) (seg : ℤ)
      (raw : Bytes) (e : AppError) (s new : Tables fl)
      → parse_and_store fl lib config now dongle ts seg file raw s ≡ (err e, new)
      → (decompress fl lib file raw ≡ err e) × (new ≡ s)
  unfolding parse_and_store
  parse_and_store_refused lib config now dongle ts file seg raw e s new h =
      elim (result-cases (decompress fl lib file raw)) [
        | inl (bytes, d) ↦ absurd (ground (arith, h, d))
        | inr (x, d) ↦ (ground (arith, h, d), ground (arith, h, d))
      ]

  -- A qlog that can be decompressed is accepted, and afterwards the drive's row has a `maxqlog` of at least the
  -- segment's number, so that the drive is listed, with GPS or without: provided that the rows with the segment's
  -- name belonged to the drive and have that number.
  pub parse_and_store_lem :
      (lib : Decoders fl) (config : Config) (now : ℤ) (dongle ts file ty : Text) (seg : ℤ)
      (raw bytes : Bytes) (s : Tables fl)
      → decompress fl lib file raw ≡ ok bytes
      → file_kind file ≡ some (ty, qlog_url)
      → All (OfSegment (canonical_of dongle ts seg) (fullname_of dongle ts) seg) s.app.db.segments
      → ((parse_and_store fl lib config now dongle ts seg file raw s).0 ≡ ok tt)
        × Lists fl
            (fullname_of dongle ts)
            seg
            (parse_and_store fl lib config now dongle ts seg file raw s).1
  unfolding parse_and_store
  parse_and_store_lem lib config now dongle ts file ty seg raw bytes s h k a =
      let acc : Accum fl = accumulate_all fl (lib.messages bytes) (new_accum fl) in
      let stored : Tables fl = record s {
        app = record s.app { blobs = write_artifacts fl lib dongle ts seg acc s.app.blobs };
      } in
      let up : Tables fl = upsert_segment fl config now dongle ts seg file acc stored in
      let re : Tables fl = recompute_route fl dongle ts up in
      let written : Tables fl = write_route_meta fl dongle ts acc re in
      let l : Lists fl (fullname_of dongle ts) seg re =
        recompute-Lists fl dongle ts seg up
          (upsert-HasQlog config now dongle ts file ty seg acc stored k a)
          (upsert-Known config now dongle ts file seg acc stored) in
      rw (h, parse_and_store)
        (
          refl,
          keep_Lists (fullname_of dongle ts) seg re (keep_gps fl dongle acc.last_gps written)
              (gps_columns dongle acc.last_gps written ∙ meta_columns dongle ts acc re) l,
        )
