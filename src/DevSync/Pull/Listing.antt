-- ===== src/DevSync/Pull/Listing.antt =====
-- src/devsync.rs, process_item: from a queued qlog to the list of drives.
use homeconnect.AppState.{AppState}
use homeconnect.DevSync.{remote_path}
use homeconnect.DevSync.Pull.{
  extract, forget_status, ingest_segment_file, process_item, register_segment_file, register_stored,
  then_prune,
}
use homeconnect.Ingest.{add_storage, created, store}
use homeconnect.Logs.Decode.{Decoders, decompress}
use homeconnect.Logs.Listed.{parse_and_store_lem}
use homeconnect.Logs.Recomputed.{Lists}
use homeconnect.Logs.Rows.{Tables, parse_and_store}
use homeconnect.Prelude.{
  All, AppResult, Option, err, false, length, ok, refl, some, sym, true, ℕ, ◌∙◌, ◌≡◌,
}
use homeconnect.Prelude.Floats.{Floats}
use homeconnect.Prelude.Int.{ℤ}
use homeconnect.Prelude.Text.{Text, contains, t}
use homeconnect.Segments.{file_kind, qlog_url}
use homeconnect.Segments.Qlogs.{OfSegment}
use homeconnect.Settings.{Config}
use homeconnect.Storage.{Bytes, blob_key, canonical_of, exists, fullname_of, put}
use homeconnect.SyncQueue.{QueueItem}
use mathlib.Core.Path.{subst}

module _ (fl : Floats) (lib : Decoders fl) (config : Config) (now : ℤ)
    (model_json : Text → Bytes → Option Bytes) where
  then_prune-state :
      (it : QueueItem) (r : AppResult (Unit {0}) × Tables fl)
      → (then_prune fl lib config now model_json it r).0 ≡ r.1
  unfolding then_prune
  then_prune-state it (ok _, s) = refl
  then_prune-state it (err e, s) = refl

  forget_status-state :
      (r : AppResult ℕ × Tables fl) → (forget_status fl lib config now model_json r).1 ≡ r.1
  unfolding forget_status
  forget_status-state (ok _, s) = refl
  forget_status-state (err e, s) = refl

  extract-state :
      (status : ℕ) (dongle ts : Text) (seg : ℤ) (file : Text) (body : Bytes)
      (r : AppResult (Unit {0}) × Tables fl)
      → contains (t "rlog") file ≡ false
      → (extract fl lib config now model_json status dongle ts seg file body r).1 ≡ r.1
  unfolding extract
  extract-state status dongle ts seg file body (err e, s) h = refl
  extract-state status dongle ts seg file body (ok _, s) h = rw h refl

  abbrev stored_in : Text → Text → ℤ → Text → Bytes → Tables fl → Tables fl
  stored_in dongle ts seg file body s = record s {
    app = record s.app {
      blobs = put (blob_key dongle ts seg file) body s.app.blobs;
      db = add_storage dongle (length body) s.app.db;
    };
  }

  store_fresh :
      (dongle key : Text) (body : Bytes) (state : AppState)
      → exists state.blobs key ≡ false
      → store dongle key body state ≡ (
        ok created,
        record state {
          blobs = put key body state.blobs;
          db = add_storage dongle (length body) state.db;
        },
      )
  unfolding store
  store_fresh dongle key body state x = rw (x) refl

  ingest-state :
      (dongle ts : Text) (seg : ℤ) (file : Text) (body : Bytes) (s : Tables fl)
      → exists s.app.blobs (blob_key dongle ts seg file) ≡ false
      → contains (t "qlog") file ≡ true
      → contains (t "rlog") file ≡ false
      → (ingest_segment_file fl lib config now model_json dongle ts seg file body s).1
        ≡ (parse_and_store fl lib config now dongle ts seg file body
            (stored_in dongle ts seg file body s)).1
  unfolding ingest_segment_file register_stored register_segment_file
  ingest-state dongle ts seg file body s x q r =
      rw (store_fresh dongle (blob_key dongle ts seg file) body s.app x) (
        rw (q) (
          extract-state created dongle ts seg file body
            (parse_and_store fl lib config now dongle ts seg file body
              (stored_in dongle ts seg file body s))
            r))

  module _ (pull_file : Text → Text → Option Bytes) where
    -- A queued qlog that the device hands over and that can be decompressed is listed after one turn of a worker: the
    -- row of its drive then has a `maxqlog` of at least the segment's number. The rows with the segment's name have to
    -- be those of the drive and the number.
    pub process_item-Lists :
        (it : QueueItem) (s : Tables fl) (body bytes ty : Text)
        → it.key ≡ blob_key it.dongle it.ts it.seg it.file
        → exists s.app.blobs it.key ≡ false
        → pull_file it.addr (remote_path it.ts it.seg it.file) ≡ some body
        → contains (t "qlog") it.file ≡ true
        → contains (t "rlog") it.file ≡ false
        → file_kind it.file ≡ some (ty, qlog_url)
        → decompress fl lib it.file body ≡ ok bytes
        → All
            (OfSegment (canonical_of it.dongle it.ts it.seg) (fullname_of it.dongle it.ts) it.seg)
            s.app.db.segments
        → Lists fl
            (fullname_of it.dongle it.ts)
            it.seg
            (process_item fl lib config now model_json pull_file it s).0
    unfolding process_item add_storage
    process_item-Lists it s body bytes ty k x p q r f d a =
        let x' : exists s.app.blobs (blob_key it.dongle it.ts it.seg it.file) ≡ false =
          rw (← k) x in
        let stored : Tables fl = stored_in it.dongle it.ts it.seg it.file body s in
        let l =
          parse_and_store_lem fl lib config now it.dongle it.ts it.file ty it.seg body bytes stored
            d f a in
        let r0 : AppResult (Unit {0}) × Tables fl = forget_status fl lib config now model_json (
          ingest_segment_file fl lib config now model_json it.dongle it.ts it.seg it.file body s) in
        let e : (process_item fl lib config now model_json pull_file it s).0
            ≡ (then_prune fl lib config now model_json it r0).0 =
          rw (x, process_item, p) refl in
        let e' : (process_item fl lib config now model_json pull_file it s).0
            ≡ (parse_and_store fl lib config now it.dongle it.ts it.seg it.file body stored).1 =
          e
          ∙ then_prune-state it r0
          ∙ forget_status-state (
              ingest_segment_file fl lib config now model_json it.dongle it.ts it.seg it.file body
                s)
          ∙ ingest-state it.dongle it.ts it.seg it.file body s x' q r in
        subst (Lists fl (fullname_of it.dongle it.ts) it.seg) (sym e') l.1
