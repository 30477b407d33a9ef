-- ===== src/Serve/Media.antt =====
-- src/serve.rs: transcodes, audio tracks, movies and subtitles.
use homeconnect.Access.{Auth, can_view_route, check_route_access, is_public_route}
use homeconnect.Db.{Db}
use homeconnect.DevSync.Options.{listed}
use homeconnect.Manage.{transcode_name}
use homeconnect.Movies.{movie_cams, movie_key}
use homeconnect.Prelude.{
  Action, AppError, AppResult, AppResult-cases, Bool-cases, Option, [], ap, arith, bad_request, err,
  if◌then◌else◌, inl, inr, is_empty, none, ok, refl, result-cases, some, true, unwrap_or, ◌∷◌, ◌≡◌,
  ◌⊎◌,
}
use homeconnect.Prelude.Containers.{map_get}
use homeconnect.Prelude.Int.{ℤ}
use homeconnect.Prelude.Text.{Text, t, text_eq}
use homeconnect.Serve.{Response, serve_blob, serve_file}
use homeconnect.Storage.{BlobStore, Bytes, fullname_of, get, split_fullname}
use homeconnect.Subs.{subs_key}
use homeconnect.Transcode.{
  FfmpegTools, Media, camera_source, current_device, ensure_audio, ensure_transcode,
}
use homeconnect.Transcode.Cache.{IsServed, ensure_transcode_lem}
use mathlib.Core.Path.{subst}
use homeconnect.Transcode.Cache.{Writes}

-- s.strip_suffix(p)
unfoldable pub strip_suffix : Text → Text → Option Text
strip_suffix p [] = if is_empty p then some [] else none
strip_suffix p (c ∷ s) =
    if text_eq p (c ∷ s)
    then some []
    else (elim (strip_suffix p s) [ none ↦ none | some stem ↦ some (c ∷ stem) ])

-- The answer to a request for a file of the cache.
unfoldable pub serve_cached :
    Text → Option Text → AppResult Text × Media → AppResult Response × Media
serve_cached ct range (err e, s) = (err e, s)
serve_cached ct range (ok name, s) = (serve_file (map_get name s.files) ct range, s)

module _ (enc : FfmpegTools) where
  unfoldable pub serve_transcode :
      Db → Option Text → Text → Text → ℤ → Text → Option Auth → Option Text → Action Media Response
  unfolding serve_cached
  serve_transcode db seed dongle timestamp segment file auth range s =
      elim (check_route_access db (fullname_of dongle timestamp) dongle auth) [
        | err e ↦ (err e, s)
        | ok u ↦ serve_cached (t "video/mp2t") range (
            ensure_transcode enc (current_device seed db) dongle timestamp segment
              (unwrap_or (strip_suffix (t ".ts") file) file) s)
      ]

  unfoldable pub serve_audio :
      Db → Text → Text → ℤ → Option Auth → Option Text → Action Media Response
  unfolding serve_cached
  serve_audio db dongle timestamp segment auth range s =
      elim (check_route_access db (fullname_of dongle timestamp) dongle auth) [
        | err e ↦ (err e, s)
        | ok u ↦ serve_cached (t "video/mp2t") range (ensure_audio enc dongle timestamp segment s)
      ]

  -- An answered request for a transcode was allowed by the access rules, and its answer is made from the file of that
  -- name in the cache, as it is after the request; a request that is not allowed changes nothing.
  pub serve_transcode_lem :
      Writes enc
      → (db : Db) (seed : Option Text) (dongle timestamp file src_file : Text) (segment : ℤ)
        (auth : Option Auth) (range : Option Text) (s : Media)
      → camera_source (unwrap_or (strip_suffix (t ".ts") file) file) ≡ some src_file
      → let r = serve_transcode db seed dongle timestamp segment file auth range s in
        ((e : AppError) × (check_route_access db (fullname_of dongle timestamp) dongle auth ≡ err e)
          × (r ≡ (err e, s)))
        ⊎ ((check_route_access db (fullname_of dongle timestamp) dongle auth ≡ ok tt)
            × (((e : AppError) × (r.0 ≡ err e))
                ⊎ ((b : Bytes) × (map_get
                        (transcode_name dongle timestamp segment
                          (unwrap_or (strip_suffix (t ".ts") file) file))
                        r.1.files
                      ≡ some b)
                    × (r.0 ≡ serve_file (some b) (t "video/mp2t") range))))
  unfolding serve_transcode
  serve_transcode_lem w db seed dongle timestamp file src_file segment auth range s c =
      elim (AppResult-cases (check_route_access db (fullname_of dongle timestamp) dongle auth)) [
        | inr (e, a) ↦ inl (e, a, rw (a, serve_transcode) refl)
        | inl a ↦ inr (
          a,
          rw (a, serve_transcode)
              (answered
                (ensure_transcode enc (current_device seed db) dongle timestamp segment
                  (unwrap_or (strip_suffix (t ".ts") file) file) s)
                (ensure_transcode_lem enc w (current_device seed db) dongle timestamp
                  (unwrap_or (strip_suffix (t ".ts") file) file) src_file segment s c)),
        )
      ]
    where
      answered :
          (r : AppResult Text × Media)
          → IsServed enc
              (current_device seed db)
              dongle
              timestamp
              segment
              (unwrap_or (strip_suffix (t ".ts") file) file)
              src_file
              s
              r
          → ((e : AppError) × ((serve_cached (t "video/mp2t") range r).0 ≡ err e))
            ⊎ ((b : Bytes) × (map_get
                    (transcode_name dongle timestamp segment
                      (unwrap_or (strip_suffix (t ".ts") file) file))
                    (serve_cached (t "video/mp2t") range r).1.files
                  ≡ some b)
                × ((serve_cached (t "video/mp2t") range r).0
                    ≡ serve_file (some b) (t "video/mp2t") range))
      answered (err e, s') i = inl (e, refl)
      answered (ok name, s') (n, bl, (b, g, o), k) = inr (
        b,
        subst (λ m. map_get m s'.files ≡ some b) n g,
        ap (λ f. serve_file f (t "video/mp2t") range) g,
      )

unfoldable pub serve_movie :
    Db → BlobStore → Text → Text → Option Auth → Option Text → AppResult Response
serve_movie db blobs fullname cam auth range = elim (split_fullname fullname) [
  | err e ↦ err e
  | ok (dongle, timestamp) ↦ elim (check_route_access db fullname dongle auth) [
    | err e ↦ err e
    | ok u ↦
        let stem = unwrap_or (strip_suffix (t ".mp4") cam) cam in
        if listed movie_cams stem
        then serve_file (get blobs (movie_key dongle timestamp stem)) (t "video/mp4") range
        else err (bad_request (t "unknown camera"))
  ]
]

unfoldable pub serve_subs : Db → BlobStore → Text → Option Auth → Option Text → AppResult Response
serve_subs db blobs fullname auth range = elim (split_fullname fullname) [
  | err e ↦ err e
  | ok (dongle, timestamp) ↦ elim (check_route_access db fullname dongle auth) [
    | err e ↦ err e
    | ok u ↦ serve_file (get blobs (subs_key dongle timestamp)) (t "text/vtt; charset=utf-8") range
  ]
]

-- Who may see a drive's files: anyone, if the drive is public, and else a principal that may view the device.
abbrev pub MayView : Db → Text → Text → Option Auth → Type 0
MayView db fullname dongle auth =
    (is_public_route db fullname ≡ true)
    ⊎ ((a : Auth) × (auth ≡ some a) × (can_view_route db a dongle ≡ true))

allowed :
    (db : Db) (fullname dongle : Text) (auth : Option Auth)
    → check_route_access db fullname dongle auth ≡ ok tt
    → MayView db fullname dongle auth
unfolding check_route_access
allowed db fullname dongle none h = inl (ground arith)
allowed db fullname dongle (some a) h = elim (Bool-cases (is_public_route db fullname)) [
  | inl b ↦ inl b
  | inr b ↦ inr (a, refl, ground arith)
]

-- The answer is an error, or `A` holds.
abbrev pub Unless : AppResult Response → Type 0 → Type 0
Unless r A = ((e : AppError) × (r ≡ err e)) ⊎ A

-- A drive's name that splits into the device and the time, and a principal that may view them.
abbrev pub MayViewNamed : Db → Text → Option Auth → Type 0
MayViewNamed db fullname auth =
    (d : Text) × (u : Text) × (split_fullname fullname ≡ ok (d, u)) × MayView db fullname d auth

-- No file of a drive goes out to who may not view it: a request for a blob, a transcode, an audio track, a movie or
-- subtitles is answered by an error, unless the drive is public or the principal may view the device that its name gives.
pub media_guarded :
    (enc : FfmpegTools) (db : Db) (seed : Option Text) (dongle ts file fullname : Text)
    (segment : ℤ) (auth : Option Auth) (range : Option Text) (s : Media)
    → Unless
        (serve_blob db s.blobs dongle ts segment file auth range)
        (MayView db (fullname_of dongle ts) dongle auth)
      × Unless
          (serve_transcode enc db seed dongle ts segment file auth range s).0
          (MayView db (fullname_of dongle ts) dongle auth)
      × Unless
          (serve_audio enc db dongle ts segment auth range s).0
          (MayView db (fullname_of dongle ts) dongle auth)
      × Unless (serve_movie db s.blobs fullname file auth range) (MayViewNamed db fullname auth)
      × Unless (serve_subs db s.blobs fullname auth range) (MayViewNamed db fullname auth)
unfolding serve_blob serve_transcode serve_audio serve_movie serve_subs
media_guarded enc db seed dongle ts file fullname segment auth range s =
    elim (AppResult-cases (check_route_access db (fullname_of dongle ts) dongle auth)) [
      | inl a ↦
          let m = allowed db (fullname_of dongle ts) dongle auth a in
          (inr m, inr m, inr m, named.0, named.1)
      | inr (e, a) ↦ (
        inl (e, rw (serve_blob, a) refl),
        inl (e, rw (serve_transcode, a) refl),
        inl (e, rw (serve_audio, a) refl),
        named.0,
        named.1,
      )
    ]
  where
    named :
        Unless (serve_movie db s.blobs fullname file auth range) (MayViewNamed db fullname auth)
        × Unless (serve_subs db s.blobs fullname auth range) (MayViewNamed db fullname auth)
    named = elim (result-cases (split_fullname fullname)) [
      | inr (e, n) ↦ (inl (e, rw (serve_movie, n) refl), inl (e, rw (serve_subs, n) refl))
      | inl ((d, u), n) ↦ elim (AppResult-cases (check_route_access db fullname d auth)) [
        | inl a ↦ let m = allowed db fullname d auth a in (inr (d, u, n, m), inr (d, u, n, m))
        | inr (e, a) ↦ (inl (e, rw (serve_movie, n, a) refl), inl (e, rw (serve_subs, n, a) refl))
      ]
    ]
