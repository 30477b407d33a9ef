-- ===== src/Transcode/Args.antt =====
-- src/transcode.rs: the arguments of ffmpeg.
use homeconnect.Movies.Encode.{GpuBackend, nvenc, vaapi}
use homeconnect.Prelude.{List, [], ◌∷◌}
use homeconnect.Prelude.Text.{Text, t}

abbrev fps : Text
fps = t "20"

abbrev tail_args : Text → Text → List Text
tail_args offset out =
    t "-output_ts_offset" ∷ offset ∷ t "-muxdelay" ∷ t "0" ∷ t "-f" ∷ t "mpegts" ∷ out ∷ []

unfoldable pub transcode_vaapi_args : Text → Text → Text → Text → List Text
transcode_vaapi_args dev src out offset =
    t "-nostdin"
    ∷ t "-y"
    ∷ t "-hwaccel"
    ∷ t "vaapi"
    ∷ t "-hwaccel_device"
    ∷ dev
    ∷ t "-hwaccel_output_format"
    ∷ t "vaapi"
    ∷ t "-r"
    ∷ fps
    ∷ t "-f"
    ∷ t "hevc"
    ∷ t "-i"
    ∷ src
    ∷ t "-vf"
    ∷ t "scale_vaapi=format=nv12"
    ∷ t "-c:v"
    ∷ t "h264_vaapi"
    ∷ t "-qp"
    ∷ t "28"
    ∷ t "-an"
    ∷ tail_args offset out

unfoldable pub transcode_nvenc_args : Text → Text → Text → List Text
transcode_nvenc_args src out offset =
    t "-nostdin"
    ∷ t "-y"
    ∷ t "-fflags"
    ∷ t "+genpts"
    ∷ t "-r"
    ∷ fps
    ∷ t "-c:v"
    ∷ t "hevc_cuvid"
    ∷ t "-f"
    ∷ t "hevc"
    ∷ t "-i"
    ∷ src
    ∷ t "-c:v"
    ∷ t "h264_nvenc"
    ∷ t "-preset"
    ∷ t "p6"
    ∷ t "-cq"
    ∷ t "28"
    ∷ t "-b:v"
    ∷ t "0"
    ∷ t "-an"
    ∷ tail_args offset out

unfoldable pub transcode_cpu_args : Text → Text → Text → List Text
transcode_cpu_args src out offset =
    t "-nostdin"
    ∷ t "-y"
    ∷ t "-fflags"
    ∷ t "+genpts"
    ∷ t "-r"
    ∷ fps
    ∷ t "-f"
    ∷ t "hevc"
    ∷ t "-i"
    ∷ src
    ∷ t "-c:v"
    ∷ t "libx264"
    ∷ t "-preset"
    ∷ t "veryfast"
    ∷ t "-crf"
    ∷ t "23"
    ∷ t "-pix_fmt"
    ∷ t "yuv420p"
    ∷ t "-an"
    ∷ tail_args offset out

unfoldable pub transcode_gpu_args : GpuBackend → Text → Text → Text → List Text
unfolding transcode_vaapi_args transcode_nvenc_args
transcode_gpu_args (vaapi dev) src out offset = transcode_vaapi_args dev src out offset
transcode_gpu_args nvenc src out offset = transcode_nvenc_args src out offset

unfoldable pub audio_args : Text → Text → Text → List Text
audio_args src out offset =
    t "-nostdin" ∷ t "-y" ∷ t "-i" ∷ src ∷ t "-vn" ∷ t "-c:a" ∷ t "copy" ∷ tail_args offset out
