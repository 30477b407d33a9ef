-- ===== src/Transcode/Race.antt =====
-- Two requests for one transcode at a time.
use homeconnect.Manage.{transcode_name}
use homeconnect.Prelude.{
  List, ap, arith, err, false, none, ok, other, refl, some, true, ℕ, ◌∙◌, ◌≡◌, ◌≤◌,
}
use homeconnect.Prelude.Containers.{get-insert, get-remove, map_get, map_insert, map_remove}
use homeconnect.Prelude.Int.{ℤ}
use homeconnect.Prelude.Text.{Text, text_eq, text_eq_iff, text_eq_refl}
use homeconnect.Storage.{Bytes}
use homeconnect.Transcode.{FfmpegTools, finish_run, permits, publish, run_ffmpeg, tmp_name, written}
use homeconnect.Transcode.Files.{get-written, publish_found, tmp-ne-transcode}

publish_missing :
    (tmp out : Text) (files : List (Text × Bytes))
    → map_get tmp files ≡ none
    → publish tmp out files ≡ (err other, files)
unfolding publish
publish_missing tmp out files g = rw (g, publish) refl

race_of :
    (tmp out : Text) (begun : Bytes) (mixed : List (Text × Bytes))
    → text_eq tmp out ≡ false
    → map_get tmp mixed ≡ some begun
    → ((finish_run tmp out true mixed).0 ≡ ok out)
      × (map_get out (finish_run tmp out true mixed).1 ≡ some begun)
      × ((finish_run tmp out true (finish_run tmp out true mixed).1).0 ≡ err other)
unfolding finish_run
race_of tmp out begun mixed ne e =
    let published : List (Text × Bytes) = map_insert out begun (map_remove tmp mixed) in
    let p : publish tmp out mixed ≡ (ok out, published) = publish_found tmp out begun mixed e in
    let gone : map_get tmp published ≡ none = ground (
      arith,
      get-insert out tmp begun (map_remove tmp mixed),
      get-remove tmp tmp mixed,
      text_eq_refl tmp,
      ne,
      text_eq_iff out tmp,
      text_eq_iff tmp out,
    ) in
    (
      ap (λ r. r.0) p,
      ap (λ r. map_get out r.1) p
          ∙ ground (arith, get-insert out out begun (map_remove tmp mixed), text_eq_refl out),
      ap (λ r. (publish tmp out r.1).0) p ∙ ap (λ r. r.0) (publish_missing tmp out published gone),
    )

-- The semaphore admits two requests for the same transcode, whose runs of ffmpeg share one temporary file. If the
-- second run has begun to write when the first request publishes, the first is answered with what the second has
-- written so far, and the second request fails although its run succeeds.
pub transcode_race :
    (enc : FfmpegTools) (dongle ts cam : Text) (seg : ℤ) (cpus : ℕ) (first second : List Text)
    (begun : Bytes) (files : List (Text × Bytes))
    → (enc.ffmpeg second).1 ≡ some begun
    → let tmp = tmp_name dongle ts seg cam in
      let out = transcode_name dongle ts seg cam in
      let mixed = (run_ffmpeg enc second tmp (run_ffmpeg enc first tmp files).1).1 in
      (2 ≤ permits cpus)
      × ((finish_run tmp out true mixed).0 ≡ ok out)
      × (map_get out (finish_run tmp out true mixed).1 ≡ some begun)
      × ((finish_run tmp out true (finish_run tmp out true mixed).1).0 ≡ err other)
unfolding run_ffmpeg permits
transcode_race enc dongle ts cam seg cpus first second begun files h =
    let tmp : Text = tmp_name dongle ts seg cam in
    let before : List (Text × Bytes) = written tmp (enc.ffmpeg first).1 files in
    let e : map_get tmp (written tmp (enc.ffmpeg second).1 before) ≡ some begun =
      rw h (get-written tmp begun before) in
    let (a, b, c) =
      race_of tmp (transcode_name dongle ts seg cam) begun
        (written tmp (enc.ffmpeg second).1 before) (tmp-ne-transcode dongle ts cam seg) e in
    (ground arith, a, b, c)
