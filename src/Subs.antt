-- ===== src/Subs.antt =====
-- src/subs.rs: the subtitles of a drive: their rows and blobs, and which of them a sweep builds; WebVTT is below. The
-- transcription itself (ffmpeg and the whisper server) is not modelled.
pub mod Lifecycle
pub mod Rebuild
pub mod Vtt
use homeconnect.AppState.{AppState}
use homeconnect.Db.{Db, Segment, Sub}
use homeconnect.Prelude.{
  Bool, List, Option, [], count, delete_where, false, find, if◌then◌else◌, is_empty, none, not,
  some, true, ℕ, ◌&&◌, ◌++◌, ◌==◌, ◌||◌, ◌∷◌,
}
use homeconnect.Prelude.Text.{Text, t, text_eq}
use homeconnect.Segments.{qcam_url}
use homeconnect.Storage.{exists, fullname_of}
use homeconnect.Storage.{delete}

unfoldable pub subs_key : Text → Text → Text
subs_key dongle ts = dongle ++ b'_' ∷ ts ++ t "--subs--en.vtt"

unfoldable pub sub_row : Text → Db → Option Sub
sub_row fullname db = find (λ (s : Sub). text_eq s.fullname fullname) db.subs

-- INSERT INTO subs … ON CONFLICT(fullname) DO UPDATE
unfoldable pub upsert_sub : Sub → (Sub → Sub) → List Sub → List Sub
upsert_sub new f [] = new ∷ []
upsert_sub new f (s ∷ ss) =
    let rest = upsert_sub new f ss in if text_eq s.fullname new.fullname then f s ∷ ss else s ∷ rest

-- `record`
unfoldable pub record_subs : Text → ℕ → ℕ → ℕ → Db → Db
unfolding upsert_sub
record_subs fullname seg_count cues bytes db = record db {
  subs =
      upsert_sub
        (record {
          fullname = fullname;
          seg_count = seg_count;
          cues = cues;
          bytes = bytes;
          disabled = 0;
        })
        (λ s. record s { seg_count = seg_count; cues = cues; bytes = bytes }) db.subs;
}

unfoldable pub delete_subs : Text → Text → AppState → AppState
delete_subs dongle ts state = record state {
  blobs = delete (subs_key dongle ts) state.blobs;
  db = record state.db {
    subs = delete_where (λ (s : Sub). text_eq s.fullname (fullname_of dongle ts)) state.db.subs;
  };
}

unfoldable pub disable_subs : Text → Text → AppState → AppState
unfolding upsert_sub
disable_subs dongle ts state = record state {
  blobs = delete (subs_key dongle ts) state.blobs;
  db = record state.db {
    subs =
        upsert_sub
          (record {
            fullname = fullname_of dongle ts;
            seg_count = 0;
            cues = 0;
            bytes = 0;
            disabled = 1;
          })
          (λ s. record s { disabled = 1; bytes = 0 }) state.db.subs;
  };
}

-- ready and disabled of `status`
unfoldable pub subs_status : AppState → Text → Text → Bool × Bool
unfolding sub_row
subs_status state dongle ts = elim (sub_row (fullname_of dongle ts) state.db) [
  | none ↦ (false, false)
  | some s ↦ (not (s.disabled == 1) && exists state.blobs (subs_key dongle ts), s.disabled == 1)
]

-- The entry of `coverage`: all segments of a route, and those with the qcamera, which carries the audio.
unfoldable pub audio_coverage : Db → Text → ℕ × ℕ
audio_coverage db fullname = (
  count (λ (s : Segment). text_eq s.canonical_route_name fullname) db.segments,
  count (λ (s : Segment). text_eq s.canonical_route_name fullname && not (is_empty s.qcam_url))
      db.segments,
)

-- The `skip` of `sweep`.
unfoldable pub subs_skips : Option Sub → ℕ → Bool → Bool
subs_skips none total present = false
subs_skips (some s) total present =
    if s.disabled == 1
    then true
    else if s.seg_count == total
    then s.bytes == 0 || present
    else false

-- The body of the loop of `sweep`: is this drive to be transcribed?
unfoldable pub needs_subs : AppState → Text → Text → Text → Bool
unfolding audio_coverage subs_skips sub_row
needs_subs state fullname dongle ts =
    let (total, with_audio) = audio_coverage state.db fullname in
    if total == 0 || not (with_audio == total)
    then false
    else not
        (subs_skips (sub_row fullname state.db) total (exists state.blobs (subs_key dongle ts)))
