-- ===== src/Movies/Encode.antt =====
-- src/movie.rs: the encode settings and the arguments of ffmpeg. The audio's delay is a floating-point
-- number in the source: here it is the whole milliseconds of the `adelay` filter, or none where the source
-- adds no filter.
pub mod Options
use homeconnect.Db.{Db, get_setting, set_setting}
use homeconnect.DevSync.Options.{listed}
use homeconnect.Prelude.{
  Action, Bool, List, Option, [], bad_request, err, false, if◌then◌else◌, ltb, max, min, modify,
  none, not, ok, some, true, unwrap_or, ℕ, ◌++◌, ◌+◌, ◌>>=◌, ◌>>◌, ◌∷◌,
}
use homeconnect.Prelude.Decimal.{parse_u64, show_ℕ}
use homeconnect.Prelude.Text.{Text, t, text_eq}

pub record EncodeOpts : Type 0 where
  pub scale : Option (ℕ × ℕ)
  pub crf : ℕ
  pub preset : Text

unfoldable pub scale_for : Text → Option (ℕ × ℕ)
scale_for token =
    if text_eq token (t "854")
    then some (854, 482)
    else if text_eq token (t "640")
    then some (640, 362)
    else none

-- s.parse::<u32>().ok()
unfoldable pub parse_u32 : Text → Option ℕ
parse_u32 s = elim (parse_u64 s) [
  | none ↦ none
  | some n ↦ if ltb n 4294967296 then some n else none
]

-- c.clamp(16, 35)
abbrev pub clamp_crf : ℕ → ℕ
clamp_crf c = max 16 (min c 35)

unfoldable pub stored_crf : Option Text → Option ℕ
unfolding parse_u32
stored_crf none = none
stored_crf (some s) = parse_u32 s

unfoldable pub encode_opts : Db → EncodeOpts
unfolding scale_for stored_crf
encode_opts db = record {
  scale = scale_for (unwrap_or (get_setting (t "movie_scale") db) (t "native"));
  crf = clamp_crf (unwrap_or (stored_crf (get_setting (t "movie_crf") db)) 23);
  preset = unwrap_or (get_setting (t "movie_preset") db) (t "veryfast");
}

abbrev pub scales : List Text
scales = t "native" ∷ t "854" ∷ t "640" ∷ []

abbrev pub presets : List Text
presets = t "ultrafast" ∷ t "veryfast" ∷ t "faster" ∷ t "fast" ∷ t "medium" ∷ t "slow" ∷ []

unfoldable pub set_scale : Option Text → Action Db (Unit {0})
set_scale none db = (ok tt, db)
set_scale (some s) db =
    if not (listed scales s)
    then (err (bad_request (t "bad scale")), db)
    else (ok tt, set_setting (t "movie_scale") s db)

unfoldable pub set_crf : Option ℕ → Db → Db
set_crf none db = db
set_crf (some c) db = set_setting (t "movie_crf") (show_ℕ (clamp_crf c)) db

unfoldable pub set_preset : Option Text → Action Db (Unit {0})
set_preset none db = (ok tt, db)
set_preset (some p) db =
    if not (listed presets p)
    then (err (bad_request (t "bad preset")), db)
    else (ok tt, set_setting (t "movie_preset") p db)

unfoldable pub set_encode_settings : Option Text → Option ℕ → Option Text → Action Db (Unit {0})
unfolding set_scale set_crf set_preset
set_encode_settings scale crf preset = do set_scale scale; modify (set_crf crf); set_preset preset

pub data Src : Type 0 where
  hevc_src : Src
  qcam_src : Src

unfoldable pub input_args : Src → List Text
input_args hevc_src = t "-r" ∷ t "20" ∷ t "-f" ∷ t "hevc" ∷ []
input_args qcam_src = []

unfoldable pub cuvid : Src → Text
cuvid hevc_src = t "hevc_cuvid"
cuvid qcam_src = t "h264_cuvid"

unfoldable pub output_args : Src → List Text
output_args hevc_src = []
output_args qcam_src = t "-fps_mode" ∷ t "cfr" ∷ t "-r" ∷ t "20" ∷ []

pub data GpuBackend : Type 0 where
  vaapi : Text → GpuBackend
  nvenc : GpuBackend

-- format!("{prefix}w={w}:h={h}{suffix}")
unfoldable pub scaled : Text → Text → ℕ × ℕ → Text
scaled prefix suffix (w, h) = prefix ++ t "w=" ++ show_ℕ w ++ t ":h=" ++ show_ℕ h ++ suffix

unfoldable pub audio_in : Bool → Text → List Text
audio_in false a_in = []
audio_in true a_in = t "-i" ∷ a_in ∷ []

unfoldable pub delay_args : Option ℕ → List Text
delay_args none = []
delay_args (some ms) = t "-af" ∷ (t "adelay=" ++ show_ℕ ms ++ t ":all=1") ∷ []

unfoldable pub audio_out : Bool → Option ℕ → List Text
unfolding delay_args
audio_out false lead = []
audio_out true lead =
    (t "-map" ∷ t "1:a:0?" ∷ t "-c:a" ∷ t "aac" ∷ t "-b:a" ∷ t "96k" ∷ [])
    ++ delay_args lead
    ++ (t "-shortest" ∷ [])

abbrev pub finish_args : Text → List Text
finish_args out = t "-movflags" ∷ t "+faststart" ∷ out ∷ []

unfoldable pub vaapi_scale : Option (ℕ × ℕ) → Text
unfolding scaled
vaapi_scale none = t "scale_vaapi=format=nv12"
vaapi_scale (some s) = scaled (t "scale_vaapi=") (t ":format=nv12") s

unfoldable pub scale_args : Text → Text → Option (ℕ × ℕ) → List Text
unfolding scaled
scale_args prefix suffix none = []
scale_args prefix suffix (some s) = t "-vf" ∷ scaled prefix suffix s ∷ []

unfoldable pub vaapi_args :
    Text → Src → Text → Text → Bool → Option ℕ → EncodeOpts → Text → List Text
unfolding input_args output_args audio_in audio_out vaapi_scale
vaapi_args dev src v_in a_in audio lead opts out =
    (t "-nostdin"
      ∷ t "-y"
      ∷ t "-hwaccel"
      ∷ t "vaapi"
      ∷ t "-hwaccel_device"
      ∷ dev
      ∷ t "-hwaccel_output_format"
      ∷ t "vaapi"
      ∷ [])
    ++ input_args src
    ++ (t "-i" ∷ v_in ∷ [])
    ++ audio_in audio a_in
    ++ (t "-vf"
        ∷ vaapi_scale opts.scale
        ∷ t "-map"
        ∷ t "0:v:0"
        ∷ t "-c:v"
        ∷ t "h264_vaapi"
        ∷ t "-qp"
        ∷ show_ℕ (opts.crf + 5)
        ∷ [])
    ++ output_args src
    ++ audio_out audio lead
    ++ finish_args out

unfoldable pub nvenc_args : Src → Text → Text → Bool → Option ℕ → EncodeOpts → Text → List Text
unfolding input_args cuvid output_args audio_in audio_out scale_args
nvenc_args src v_in a_in audio lead opts out =
    (t "-nostdin" ∷ t "-y" ∷ t "-fflags" ∷ t "+genpts" ∷ [])
    ++ input_args src
    ++ (t "-c:v" ∷ cuvid src ∷ t "-i" ∷ v_in ∷ [])
    ++ audio_in audio a_in
    ++ (t "-map" ∷ t "0:v:0" ∷ [])
    ++ scale_args (t "scale_cuda=") (t ":format=yuv420p") opts.scale
    ++ (t "-c:v"
        ∷ t "av1_nvenc"
        ∷ t "-preset"
        ∷ t "p6"
        ∷ t "-cq"
        ∷ show_ℕ (opts.crf + 5)
        ∷ t "-b:v"
        ∷ t "0"
        ∷ [])
    ++ output_args src
    ++ audio_out audio lead
    ++ finish_args out

unfoldable pub gpu_args :
    GpuBackend → Src → Text → Text → Bool → Option ℕ → EncodeOpts → Text → List Text
unfolding vaapi_args nvenc_args
gpu_args (vaapi dev) src v_in a_in audio lead opts out =
    vaapi_args dev src v_in a_in audio lead opts out
gpu_args nvenc src v_in a_in audio lead opts out = nvenc_args src v_in a_in audio lead opts out

-- format!("scale={w}:{h}")
unfoldable pub cpu_scale : Option (ℕ × ℕ) → List Text
cpu_scale none = []
cpu_scale (some (w, h)) = t "-vf" ∷ (t "scale=" ++ show_ℕ w ++ t ":" ++ show_ℕ h) ∷ []

unfoldable pub cpu_args : Src → Text → Text → Bool → Option ℕ → EncodeOpts → Text → List Text
unfolding input_args output_args audio_in audio_out cpu_scale
cpu_args src v_in a_in audio lead opts out =
    (t "-nostdin" ∷ t "-y" ∷ t "-fflags" ∷ t "+genpts" ∷ [])
    ++ input_args src
    ++ (t "-i" ∷ v_in ∷ [])
    ++ audio_in audio a_in
    ++ (t "-map" ∷ t "0:v:0" ∷ [])
    ++ cpu_scale opts.scale
    ++ (t "-c:v"
        ∷ t "libx264"
        ∷ t "-preset"
        ∷ opts.preset
        ∷ t "-crf"
        ∷ show_ℕ opts.crf
        ∷ t "-pix_fmt"
        ∷ t "yuv420p"
        ∷ [])
    ++ output_args src
    ++ audio_out audio lead
    ++ finish_args out
