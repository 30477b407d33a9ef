-- ===== src/Browse/Playlist.antt =====
-- src/api/v1.rs, camera_m3u8: the HLS playlist of one camera of a drive. A line is a text, and a playlist the
-- list of its lines; the duration's text with three places is a parameter.
use homeconnect.Access.{Auth, allow_route_view}
use homeconnect.Browse.{Encoder, sig_for}
use homeconnect.Db.{Db}
use homeconnect.Prelude.{
  AppResult, List, Option, [], any, bad_request, err, if◌then◌else◌, is_empty, none, ok, some, ◌++◌,
  ◌==◌, ◌∷◌,
}
use homeconnect.Prelude.Decimal.{show_ℤ}
use homeconnect.Prelude.Floats.{Floats}
use homeconnect.Prelude.Int.{eq_ℤ, pos, ℤ, ◌+ℤ◌}
use homeconnect.Prelude.Text.{Text, t, text_eq}
use homeconnect.Settings.{Config}
use homeconnect.Storage.{split_fullname}

-- cam.strip_suffix(".m3u8")
unfoldable pub strip_m3u8 : Text → Option Text
strip_m3u8 [] = none
strip_m3u8 (c ∷ s) = elim (strip_m3u8 s) [
  | some stem ↦ some (c ∷ stem)
  | none ↦ if text_eq (c ∷ s) (t ".m3u8") then some [] else none
]

-- The columns of a segment that the playlist reads, and the duration of its qcamera.
pub record SegLite (F : Type 0) : Type 0 where
  pub number : ℤ
  pub qcam_url : Text
  pub fcam_url : Text
  pub dcam_url : Text
  pub ecam_url : Text
  pub qcam_duration : F

pub data Line : Type 0 where
  header : Line
  discontinuity : Line
  extinf : Text → ℤ → Line
  media : Text → Line
  endlist : Line

-- The text of a line, newlines included.
unfoldable pub print_line : Line → Text
print_line header =
    t
      "#EXTM3U\n#EXT-X-VERSION:3\n#EXT-X-TARGETDURATION:61\n#EXT-X-MEDIA-SEQUENCE:0\n#EXT-X-PLAYLIST-TYPE:VOD\n"
print_line discontinuity = t "#EXT-X-DISCONTINUITY\n"
print_line (extinf dur number) = t "#EXTINF:" ++ (dur ++ (b',' ∷ show_ℤ number ++ t "\n"))
print_line (media url) = url ++ t "\n"
print_line endlist = t "#EXT-X-ENDLIST\n"

unfoldable pub print_lines : List Line → Text
unfolding print_line
print_lines [] = []
print_lines (l ∷ ls) = print_line l ++ print_lines ls

when_set : Text → Text → Option Text
when_set column url = if is_empty column then none else some url

transcode_url : Text → Text → Text → Text → ℤ → Text → Text
transcode_url public kind dongle ts number file =
    public ++ (kind ++ (dongle ++ b'/' ∷ (ts ++ b'/' ∷ (show_ℤ number ++ b'/' ∷ file))))

module _ (fl : Floats) (fmt3 : fl.F64 → Text) where
  open fl use {F64}

  -- For a given segment, does this camera exist, and what URL plays it?
  unfoldable pub media_of : Text → Text → Text → Text → SegLite F64 → Option Text
  unfolding when_set transcode_url
  media_of public dongle ts stem s =
      if text_eq stem (t "qcamera")
      then when_set s.qcam_url s.qcam_url
      else if text_eq stem (t "fcamera")
      then when_set s.fcam_url
          (transcode_url public (t "/v1/transcode/") dongle ts s.number (t "fcamera.ts"))
      else if text_eq stem (t "dcamera")
      then when_set s.dcam_url
          (transcode_url public (t "/v1/transcode/") dongle ts s.number (t "dcamera.ts"))
      else if text_eq stem (t "ecamera")
      then when_set s.ecam_url
          (transcode_url public (t "/v1/transcode/") dongle ts s.number (t "ecamera.ts"))
      else if text_eq stem (t "audio")
      then when_set s.qcam_url
          (transcode_url public (t "/v1/audio/") dongle ts s.number (t "audio.ts"))
      else none

  unfoldable pub playable :
      (SegLite F64 → Option Text) → List (SegLite F64) → List (SegLite F64 × Text)
  playable plays [] = []
  playable plays (s ∷ segs) = elim (plays s) [
    | none ↦ playable plays segs
    | some url ↦ (s, url) ∷ playable plays segs
  ]

  unfoldable pub signed : Text → Text → Text
  signed sig url =
      if is_empty sig
      then url
      else url ++ ((if any (λ c. c == b'?') url then b'&' else b'?') ∷ (t "sig=" ++ sig))

  unfoldable pub duration_of : SegLite F64 → F64
  duration_of s = if fl.lt (fl.lit 0 0) s.qcam_duration then s.qcam_duration else fl.lit 60 0

  -- The loop over the playable segments, with the number that is expected next.
  unfoldable pub entries : Text → ℤ → List (SegLite F64 × Text) → List Line
  unfolding signed duration_of
  entries sig expected [] = []
  entries sig expected ((s, url) ∷ ps) =
      let rest : List Line =
        extinf (fmt3 (duration_of s)) s.number
        ∷ media (signed sig url)
        ∷ entries sig (s.number +ℤ pos 1) ps in
      if eq_ℤ s.number expected then rest else discontinuity ∷ rest

  unfoldable pub first_number : List (SegLite F64 × Text) → ℤ
  first_number [] = pos 0
  first_number ((s, _) ∷ ps) = s.number

  unfoldable pub playlist : Text → List (SegLite F64 × Text) → List Line
  unfolding entries first_number
  playlist sig ps = header ∷ (entries sig (first_number ps) ps ++ endlist ∷ [])

  module _ (jwt : Encoder) (secret_b64 : Text) (now : ℤ) (config : Config)
      (segments : Text → List (SegLite F64)) where
    -- `segments` is the query of the drive's segments in the order of their numbers.
    unfoldable pub camera_m3u8 : Db → Text → Text → Option Auth → AppResult (List Line)
    unfolding strip_m3u8 media_of playable playlist
    camera_m3u8 db fullname cam auth = elim (strip_m3u8 cam) [
      | none ↦ err (bad_request (t "expected <camera>.m3u8"))
      | some stem ↦ elim (split_fullname fullname) [
        | err e ↦ err e
        | ok (dongle, ts) ↦ elim (allow_route_view db fullname dongle auth) [
          | err e ↦ err e
          | ok _ ↦ elim (sig_for jwt secret_b64 now auth) [
            | err e ↦ err e
            | ok sig ↦ ok (
                playlist sig
                  (playable (media_of config.public_url dongle ts stem) (segments fullname)))
          ]
        ]
      ]
    ]
