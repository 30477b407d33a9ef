-- ===== src/Movies/Build/Records.antt =====
-- What the records of a build's outcome mean to the sweep.
use homeconnect.AppState.{AppState}
use homeconnect.Db.{Db, Segment}
use homeconnect.Movies.{
  coverage, has_cam, insert_number, movie_key, needs_build, order_by_number, record_movie,
  segments_with_cam, source_file,
}
use homeconnect.Movies.Build.{
  Tools, fail_build, giving_up, install, is_movie_enabled, measure, part_path, pause, probing,
  record_build, remove_output, rename_output, segs_of, sizing, write_output,
}
use homeconnect.Movies.Sweep.{needs_build-record_movie, needs_build_complete}
use homeconnect.Prelude.{
  AppResult, Bool, Bool-cases, List, Option, [], arith, count, err, false, inl, inr, length, map,
  none, ok, other, refl, select, some, true, unwrap_or, ℕ, ◌&&◌, ◌+◌, ◌==◌, ◌∙◌, ◌∷◌, ◌≡◌, ◌⊎◌,
}
use homeconnect.Prelude.Containers.{get-insert, map_get}
use homeconnect.Prelude.Int.{ℤ}
use homeconnect.Prelude.Text.{Text, text_eq, text_eq_refl}
use homeconnect.Storage.{Bytes, exists, fullname_of, get, path_for, size}

-- Counting and listing the segments with a camera agree.
length-insert_number : (n : ℤ) (ms : List ℤ) → length (insert_number n ms) ≡ 1 + length ms
unfolding insert_number
length-insert_number n [] = refl
length-insert_number n (m ∷ ms) = ground (arith, length-insert_number n ms)

length-order_by_number : (ns : List ℤ) → length (order_by_number ns) ≡ length ns
unfolding order_by_number
length-order_by_number [] = refl
length-order_by_number (n ∷ ns) =
    ground (arith, length-insert_number n (order_by_number ns), length-order_by_number ns)

length-numbers :
    (p : Segment → Bool) (ss : List Segment)
    → length (order_by_number (map (λ (s : Segment). s.number) (select p ss))) ≡ count p ss
length-numbers p ss = length-order_by_number (map (λ (s : Segment). s.number) (select p ss)) ∙ go ss
  where
    go : (ss : List Segment) → length (map (λ (s : Segment). s.number) (select p ss)) ≡ count p ss
    go [] = refl
    go (s ∷ ss) = ground (arith, go ss)

pub count-segments :
    (fullname cam src_file : Text) (db : Db)
    → source_file cam ≡ some src_file
    → length (segs_of (segments_with_cam fullname cam db)) ≡ (coverage db fullname cam).1
unfolding segs_of segments_with_cam coverage
count-segments fullname cam src_file db h =
    rw (h, segments_with_cam)
      (length-numbers (λ (s : Segment). text_eq s.canonical_route_name fullname && has_cam cam s)
        db.segments)

-- The sweep has a reason to build the movie again only if encoding is off or the number of segments is not `n`.
abbrev pub IsSettled : Bool → Text → Text → Text → ℕ → AppState → Type 0
IsSettled seed dongle ts cam n s =
    (is_movie_enabled seed s.db ≡ false)
    ⊎ (((coverage s.db (fullname_of dongle ts) cam).0 == n) ≡ false)
    ⊎ (needs_build s (fullname_of dongle ts) dongle ts cam ≡ false)

-- What a build was given by ffmpeg.
abbrev pub IsOutput : (List Text → Bool × Option Bytes) → Bytes → Type 0
IsOutput ffmpeg b = (args : List Text) × (ffmpeg args ≡ (true, some b))

-- A run that succeeds has written its output.
abbrev pub Writes : (List Text → Bool × Option Bytes) → Type 0
Writes ffmpeg =
    (args : List Text) → (ffmpeg args).0 ≡ true → (b : Bytes) × ((ffmpeg args).1 ≡ some b)

-- The store stays where it is.
abbrev pub SamePaths : AppState → AppState → Type 0
SamePaths s s' = (k : Text) → path_for s'.blobs k ≡ path_for s.blobs k

pub paths-write_output :
    (path : Text) (o : Option Bytes) (s : AppState) → SamePaths s (write_output path o s)
unfolding write_output path_for
paths-write_output path none s k = refl
paths-write_output path (some b) s k = refl

pub get-write_output :
    (path : Text) (b : Bytes) (s : AppState)
    → map_get path (write_output path (some b) s).blobs.files ≡ some b
unfolding write_output
get-write_output path b s = ground (arith, get-insert path path b s.blobs.files, text_eq_refl path)

module _ (tools : Tools) where
  pub fail_build-IsSettled :
      (dongle ts cam out : Text) (n : ℕ) (s : AppState)
      → ((fail_build tools out (fullname_of dongle ts) cam n s).0 ≡ err other)
        × IsSettled tools.enabled_seed dongle ts cam n
            (fail_build tools out (fullname_of dongle ts) cam n s).1
  unfolding fail_build record_build record_movie coverage
  fail_build-IsSettled dongle ts cam out n s =
      elim (Bool-cases (is_movie_enabled tools.enabled_seed s.db)) [
        | inr d ↦ rw (d, fail_build) (refl, inl d)
        | inl e ↦
            rw (e, fail_build)
              (
                refl,
                inr (
                    needs_build-record_movie
                      (pause tools giving_up (remove_output (part_path out) s))
                      (fullname_of dongle ts) dongle ts cam n 0 (inl refl)),
              )
      ]

  -- The movie of a build that has renamed its output in the state `s`: the build gives the size of what other requests
  -- have left at the movie's path by then, and the sweep does not repeat it unless they have removed the movie.
  abbrev pub IsMeasured : Text → Text → Text → ℕ → AppState → AppResult ℕ × AppState → Type 0
  IsMeasured dongle ts cam n s r =
      (r.0 ≡ ok (unwrap_or (size (pause tools sizing s).blobs (movie_key dongle ts cam)) 0))
      × (r.1.blobs ≡ (pause tools probing (pause tools sizing s)).blobs)
      × (IsSettled tools.enabled_seed dongle ts cam n r.1
          ⊎ (exists r.1.blobs (movie_key dongle ts cam) ≡ false))

  measure-IsMeasured :
      (dongle ts cam : Text) (n : ℕ) (s : AppState)
      → IsMeasured dongle ts cam n s (
          measure tools
            (movie_key dongle ts cam)
            (fullname_of dongle ts)
            cam
            n
            (pause tools sizing s))
  unfolding measure record_build record_movie coverage
  measure-IsMeasured dongle ts cam n s =
      let s' : AppState = pause tools probing (pause tools sizing s) in
      let bytes : ℕ = unwrap_or (size (pause tools sizing s).blobs (movie_key dongle ts cam)) 0 in
      (
        refl,
        refl,
        elim (Bool-cases (exists s'.blobs (movie_key dongle ts cam))) [
          | inr e ↦ inr e
          | inl e ↦ inl (
              inr
                (needs_build-record_movie s' (fullname_of dongle ts) dongle ts cam n bytes (inr e)))
        ],
      )

  pub install-IsMeasured :
      (dongle ts cam out : Text) (n : ℕ) (b : Bytes) (s : AppState)
      → path_for s.blobs (movie_key dongle ts cam) ≡ out
      → map_get (part_path out) s.blobs.files ≡ some b
      → (get (rename_output out b s).blobs (movie_key dongle ts cam) ≡ some b)
        × IsMeasured dongle ts cam n
            (rename_output out b s)
            (install tools out (movie_key dongle ts cam) (fullname_of dongle ts) cam n s)
  unfolding install rename_output get path_for
  install-IsMeasured dongle ts cam out n b s p h =
      rw (h, install)
        (
          rw p (get-write_output out b (remove_output (part_path out) s)),
          measure-IsMeasured dongle ts cam n (rename_output out b s),
        )

no_source : (cam : Text) (s : Segment) → source_file cam ≡ none → has_cam cam s ≡ false
unfolding source_file has_cam
no_source cam s h = ground (arith, h)

pub no_segments :
    (s : AppState) (fullname dongle ts cam : Text)
    → (coverage s.db fullname cam).1 ≡ 0
    → needs_build s fullname dongle ts cam ≡ false
no_segments s fullname dongle ts cam h =
    ground (arith, needs_build_complete s fullname dongle ts cam, h)

pub uncovered :
    (db : Db) (fullname cam : Text) → source_file cam ≡ none → (coverage db fullname cam).1 ≡ 0
unfolding coverage
uncovered db fullname cam h = go db.segments
  where
    go :
        (ss : List Segment)
        → count (λ (s : Segment). text_eq s.canonical_route_name fullname && has_cam cam s) ss ≡ 0
    go [] = refl
    go (s ∷ ss) = ground (arith, no_source cam s h, go ss)
