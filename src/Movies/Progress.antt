-- ===== src/Movies/Progress.antt =====
-- The progress of the movie builder, `MovieQueue` of src/movie.rs: what the badge and the page of queues
-- show while a sweep runs.
use homeconnect.Prelude.{
  List, Option, [], append-nil, arith, if◌then◌else◌, is_some, length, none, refl, some, sym, ℕ,
  ◌++◌, ◌+◌, ◌∷◌, ◌≡◌,
}
use homeconnect.Prelude.Text.{Text, text_eq, text_eq_refl}

pub record MovieQ : Type 0 where
  pub current : Option Text
  pub queued : List Text

abbrev pub idle : MovieQ
idle = record { current = none; queued = [] }

unfoldable pub set_queue : List Text → MovieQ → MovieQ
set_queue labels s = record s { queued = labels }

-- The first place with the label, removed.
unfoldable pub remove_first : Text → List Text → List Text
remove_first label [] = []
remove_first label (l ∷ ls) =
    let rest = remove_first label ls in if text_eq l label then ls else l ∷ rest

unfoldable pub begin : Text → MovieQ → MovieQ
unfolding remove_first
begin label s = record { queued = remove_first label s.queued; current = some label }

unfoldable pub finish : MovieQ → MovieQ
finish s = record s { current = none }

unfoldable pub clear : MovieQ → MovieQ
clear s = record { current = none; queued = [] }

unfoldable pub movie_stats : MovieQ → ℕ × Option Text
movie_stats s = (length s.queued + (if is_some s.current then 1 else 0), s.current)

unfoldable pub movie_detail : MovieQ → Option Text × List Text
movie_detail s = (s.current, s.queued)

-- The second pass of `sweep` on the first labels of the list: each is begun and, with its build, finished.
unfoldable pub builds : List Text → MovieQ → MovieQ
unfolding begin finish
builds [] s = s
builds (l ∷ ls) s = builds ls (finish (begin l s))

after_builds :
    (done rest : List Text) (s : MovieQ)
    → s.queued ≡ done ++ rest
    → s.current ≡ none
    → ((builds done s).queued ≡ rest) × ((builds done s).current ≡ none)
unfolding builds begin finish
after_builds [] rest s h c = (h, c)
after_builds (l ∷ ls) rest s h c =
    after_builds ls rest (finish (begin l s))
      (rw h (unfold remove_first in ground (arith, text_eq_refl l))) refl

-- While a sweep runs the badge counts down: when it has built the movies labelled `done` and begins the
-- next one, it shows that one and counts it and those after it, and the page lists exactly those after
-- it; when all are built the builder is idle. Labels may repeat.
pub progress_lem :
    (done rest : List Text) (l : Text)
    → (movie_stats (begin l (builds done (set_queue (done ++ (l ∷ rest)) idle)))
        ≡ (1 + length rest, some l))
      × (movie_detail (begin l (builds done (set_queue (done ++ (l ∷ rest)) idle)))
          ≡ (some l, rest))
      × (movie_stats (builds done (set_queue done idle)) ≡ (0, none))
unfolding movie_stats movie_detail begin set_queue
progress_lem done rest l =
    let s : MovieQ = builds done (set_queue (done ++ (l ∷ rest)) idle) in
    let (q, _) = after_builds done (l ∷ rest) (set_queue (done ++ (l ∷ rest)) idle) refl refl in
    let (q', c') = after_builds done [] (set_queue done idle) (sym (append-nil done)) refl in
    let left : remove_first l s.queued ≡ rest =
      rw q (unfold remove_first in ground (arith, text_eq_refl l)) in
    (rw left (ground arith), rw left refl, rw (q', c') refl)
