-- ===== src/Transcode/Cache.antt =====
-- What `ensure_transcode` leaves in the cache.
use homeconnect.Manage.{transcode_name}
use homeconnect.Prelude.{
  AppResult, Bool, Bool-cases, List, Option, Option-cases, arith, err, false, inl, inr, none, ok,
  refl, some, true, ◌++◌, ◌∙◌, ◌∷◌, ◌≡◌, ◌⊎◌,
}
use homeconnect.Prelude.Containers.{get-insert, get-remove, map_get, map_remove}
use homeconnect.Prelude.Int.{ℤ}
use homeconnect.Prelude.Text.{Text, text_eq, text_eq_refl}
use homeconnect.Storage.{Bytes, blob_key, exists, path_for}
use homeconnect.Transcode.{
  FfmpegTools, Media, camera_source, encode, ensure_transcode, finish_run, gpu_backend, offset_of,
  run_ffmpeg, tmp_name, try_gpu,
}
use homeconnect.Transcode.Args.{transcode_cpu_args, transcode_gpu_args}
use homeconnect.Transcode.Files.{Others, get-written, publish_found, written-Others}

module _ (enc : FfmpegTools) where
  -- No GPU is selected, or the run on the selected one has failed.
  abbrev pub NeedsCpu : Option Text → Text → Text → Text → Type 0
  NeedsCpu device src tmp offset =
      (device ≡ none)
      ⊎ ((dev : Text) × (device ≡ some dev)
          × ((enc.ffmpeg (
                transcode_gpu_args (gpu_backend enc.is_nvidia enc.has_nvenc dev) src
                  (enc.dir ++ b'/' ∷ tmp) offset)).0
              ≡ false))

  -- What was written by a run that succeeded, on the selected GPU, or on the CPU if that has failed or none is selected.
  abbrev pub IsEncoded : Option Text → Text → Text → Text → Bytes → Type 0
  IsEncoded device src tmp offset b =
      (args : List Text) × (enc.ffmpeg args ≡ (true, some b))
      × (((dev : Text) × (device ≡ some dev)
            × (args
                ≡ transcode_gpu_args (gpu_backend enc.is_nvidia enc.has_nvenc dev) src
                    (enc.dir ++ b'/' ∷ tmp) offset))
          ⊎ (NeedsCpu device src tmp offset
              × (args ≡ transcode_cpu_args src (enc.dir ++ b'/' ∷ tmp) offset)))

  -- A run that succeeds has written its output.
  abbrev pub Writes : Type 0
  Writes =
      (args : List Text) → (enc.ffmpeg args).0 ≡ true → (b : Bytes) × ((enc.ffmpeg args).1 ≡ some b)

  abbrev Encodes :
      Option Text → Text → Text → Text → List (Text × Bytes) → Bool × List (Text × Bytes) → Type 0
  Encodes device src tmp offset files r =
      Others tmp files r.1
      × (r.0 ≡ true → (b : Bytes) × (map_get tmp r.1 ≡ some b) × IsEncoded device src tmp offset b)

  run_ffmpeg-written :
      (args : List Text) (tmp : Text) (files : List (Text × Bytes))
      → Writes
      → Others tmp files (run_ffmpeg enc args tmp files).1
        × ((run_ffmpeg enc args tmp files).0 ≡ true
            → (b : Bytes) × (map_get tmp (run_ffmpeg enc args tmp files).1 ≡ some b)
              × (enc.ffmpeg args ≡ (true, some b)))
  unfolding run_ffmpeg
  run_ffmpeg-written args tmp files w = (
    written-Others tmp (enc.ffmpeg args).1 files,
    λ h. let (b, e) = w args h in (b, rw e (get-written tmp b files), λ i. (h i, e i)),
  )

  try_gpu-Encodes :
      (device : Option Text) (src tmp offset : Text) (files : List (Text × Bytes))
      → Writes
      → Encodes device src tmp offset files (try_gpu enc device src tmp offset files)
  unfolding try_gpu
  try_gpu-Encodes none src tmp offset files w = (λ n h. refl, λ h. ground (arith, h))
  try_gpu-Encodes (some dev) src tmp offset files w =
      let args : List Text =
        transcode_gpu_args (gpu_backend enc.is_nvidia enc.has_nvenc dev) src (enc.dir ++ b'/' ∷ tmp)
          offset in
      let (o, k) = run_ffmpeg-written args tmp files w in
      elim (Bool-cases (run_ffmpeg enc args tmp files).0) [
        | inl y ↦
            let (b, g, e) = k y in
            rw (y, try_gpu) (o, λ h. (b, g, (args, e, inl (dev, refl, refl))))
        | inr y ↦
            rw (y, try_gpu)
              (
                λ n h. ground (arith, get-remove tmp n (run_ffmpeg enc args tmp files).1, o n h, h),
                λ h. ground (arith, h),
              )
      ]

  gpu_failed :
      (device : Option Text) (src tmp offset : Text) (files : List (Text × Bytes))
      → (try_gpu enc device src tmp offset files).0 ≡ false
      → NeedsCpu device src tmp offset
  unfolding try_gpu run_ffmpeg
  gpu_failed none src tmp offset files h = inl refl
  gpu_failed (some dev) src tmp offset files h =
      let args : List Text =
        transcode_gpu_args (gpu_backend enc.is_nvidia enc.has_nvenc dev) src (enc.dir ++ b'/' ∷ tmp)
          offset in
      elim (Bool-cases (enc.ffmpeg args).0) [
        | inl y ↦ absurd (ground (arith, h, y))
        | inr n ↦ inr (dev, refl, n)
      ]

  encode-Encodes :
      (device : Option Text) (src tmp offset : Text) (files : List (Text × Bytes))
      → Writes
      → Encodes device src tmp offset files (encode enc device src tmp offset files)
  unfolding encode
  encode-Encodes device src tmp offset files w =
      let (o, k) = try_gpu-Encodes device src tmp offset files w in
      let files' : List (Text × Bytes) = (try_gpu enc device src tmp offset files).1 in
      let args : List Text = transcode_cpu_args src (enc.dir ++ b'/' ∷ tmp) offset in
      let (o', k') = run_ffmpeg-written args tmp files' w in
      elim (Bool-cases (try_gpu enc device src tmp offset files).0) [
        | inl y ↦ rw (y, encode) (o, λ h. k y)
        | inr y ↦
            rw (y, encode)
              (
                λ n h. o' n h ∙ o n h,
                λ h.
                    let (b, g, e) = k' h in
                    (b, g, (args, e, inr (gpu_failed device src tmp offset files y, refl))),
              )
      ]

  or_changed :
      (tmp n : Text) {A : Type 0} → (text_eq tmp n ≡ false → A) → (text_eq tmp n ≡ true) ⊎ A
  or_changed tmp n f = elim (Bool-cases (text_eq tmp n)) [ inl y ↦ inl y | inr m ↦ inr (f m) ]

  -- What an answered request has left in the cache, and what a refused one has.
  abbrev pub IsServed :
      Option Text → Text → Text → ℤ → Text → Text → Media → AppResult Text × Media → Type 0
  IsServed device dongle ts seg cam src_file s (err e, s') =
      (s'.blobs ≡ s.blobs)
      × ((n : Text)
          → (text_eq (tmp_name dongle ts seg cam) n ≡ true)
            ⊎ (map_get n s'.files ≡ map_get n s.files))
  IsServed device dongle ts seg cam src_file s (ok name, s') =
      (name ≡ transcode_name dongle ts seg cam)
      × (s'.blobs ≡ s.blobs)
      × ((b : Bytes) × (map_get name s'.files ≡ some b)
          × ((map_get name s.files ≡ some b)
              ⊎ IsEncoded device (path_for s.blobs (blob_key dongle ts seg src_file))
                  (tmp_name dongle ts seg cam) (offset_of seg) b))
      × ((n : Text)
          → (text_eq (tmp_name dongle ts seg cam) n ≡ true)
            ⊎ (text_eq name n ≡ true)
            ⊎ (map_get n s'.files ≡ map_get n s.files))

  -- The end of a request, after its runs of ffmpeg.
  finish_run-IsServed :
      (device : Option Text) (dongle ts cam src_file : Text) (seg : ℤ) (s : Media)
      (r : Bool × List (Text × Bytes))
      → Encodes device
          (path_for s.blobs (blob_key dongle ts seg src_file))
          (tmp_name dongle ts seg cam)
          (offset_of seg)
          s.files
          r
      → IsServed device dongle ts seg cam src_file s (
        (finish_run (tmp_name dongle ts seg cam) (transcode_name dongle ts seg cam) r.0 r.1).0,
        record s {
          files =
              (finish_run
                (tmp_name dongle ts seg cam)
                (transcode_name dongle ts seg cam)
                r.0
                r.1).1;
        },
      )
  unfolding finish_run
  finish_run-IsServed device dongle ts cam src_file seg s (false, files) (o, k) = (
    refl,
    λ n.
        or_changed (tmp_name dongle ts seg cam) n
          (λ h. ground (arith, get-remove (tmp_name dongle ts seg cam) n files, o n h, h)),
  )
  finish_run-IsServed device dongle ts cam src_file seg s (true, files) (o, k) =
      let tmp : Text = tmp_name dongle ts seg cam in
      let name : Text = transcode_name dongle ts seg cam in
      let (b, g, enc) = k refl in
      rw (publish_found tmp name b files g) (
        refl,
        refl,
        (
          b,
          ground (arith, get-insert name name b (map_remove tmp files), text_eq_refl name),
          inr enc,
        ),
        λ n. or_changed tmp n (λ h. or_changed name n (λ i. ground (
          arith,
          get-insert name n b (map_remove tmp files),
          get-remove tmp n files,
          o n h,
          h,
          i,
        ))),
      )

  -- A transcode that is answered is in the cache under its name, and is what was there before or what a run of ffmpeg
  -- that succeeded has written, on the selected GPU or, if that failed or none is selected, on the CPU. Whatever the
  -- outcome, the stored blobs are as before and no other file of the cache has changed but the temporary one, if a run
  -- of ffmpeg that succeeds has written its output.
  pub ensure_transcode_lem :
      Writes
      → (device : Option Text) (dongle ts cam src_file : Text) (seg : ℤ) (s : Media)
      → camera_source cam ≡ some src_file
      → IsServed device dongle ts seg cam src_file s
          (ensure_transcode enc device dongle ts seg cam s)
  unfolding ensure_transcode
  ensure_transcode_lem w device dongle ts cam src_file seg s c =
      let name : Text = transcode_name dongle ts seg cam in
      elim (Option-cases (map_get name s.files)) [
        | inr (b, g) ↦ rw (c, ensure_transcode, g) (refl, refl, (b, g, inl g), λ n. inr (inr refl))
        | inl g ↦ elim (Bool-cases (exists s.blobs (blob_key dongle ts seg src_file))) [
          | inr x ↦ rw (c, ensure_transcode, g, x) (refl, λ n. inr refl)
          | inl x ↦
              rw (c, ensure_transcode, g, x)
                (finish_run-IsServed device dongle ts cam src_file seg s
                  (encode enc device (path_for s.blobs (blob_key dongle ts seg src_file))
                    (tmp_name dongle ts seg cam) (offset_of seg) s.files)
                  (encode-Encodes device (path_for s.blobs (blob_key dongle ts seg src_file))
                    (tmp_name dongle ts seg cam) (offset_of seg) s.files w))
        ]
      ]
