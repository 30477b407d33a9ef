-- ===== src/Browse/Gaps.antt =====
-- The discontinuities of a playlist against the runs of consecutive segments that it plays.
use homeconnect.Browse.Playlist.{
  Line, SegLite, discontinuity, duration_of, endlist, entries, extinf, first_number, header, media,
  playlist, signed,
}
use homeconnect.Prelude.{
  Bool, Bool-cases, List, [], ap, arith, if◌then◌else◌, inl, inr, ◌++◌, ◌∷◌, ◌≡◌,
}
use homeconnect.Prelude.Floats.{Floats}
use homeconnect.Prelude.Int.{eq_ℤ, pos, ◌+ℤ◌}
use homeconnect.Prelude.Text.{Text}

module _ (fl : Floats) (fmt3 : fl.F64 → Text) where
  open fl use {F64}

  abbrev pub Part : Type 0
  Part = SegLite F64 × Text

  abbrev pub follows : Part → Part → Bool
  follows p q = eq_ℤ q.0.number (p.0.number +ℤ pos 1)

  -- The first run of the segments p, ps and the runs after it: a segment whose number follows the one before it goes
  -- on with its run, and any other begins one.
  abbrev pub runs : Part → List Part → List Part × List (List Part)
  runs p [] = (p ∷ [], [])
  runs p (q ∷ ps) = let (r, rs) = runs q ps in if follows p q then (p ∷ r, rs) else (p ∷ [], r ∷ rs)

  abbrev pub run_lines : Text → List Part → List Line
  run_lines sig [] = []
  run_lines sig ((s, url) ∷ ps) =
      extinf (fmt3 (duration_of fl fmt3 s)) s.number
      ∷ media (signed fl fmt3 sig url)
      ∷ run_lines sig ps

  -- Each further run after a discontinuity.
  abbrev pub further_runs : Text → List (List Part) → List Line
  further_runs sig [] = []
  further_runs sig (r ∷ rs) = discontinuity ∷ (run_lines sig r ++ further_runs sig rs)

  entries-runs :
      (sig : Text) (p : Part) (ps : List Part)
      → entries fl fmt3 sig p.0.number (p ∷ ps)
        ≡ run_lines sig (runs p ps).0 ++ further_runs sig (runs p ps).1
  unfolding entries
  entries-runs sig (s, url) [] = ground arith
  entries-runs sig (s, url) ((r, u) ∷ ps) = elim (Bool-cases (eq_ℤ r.number (s.number +ℤ pos 1))) [
    | inl e ↦ ground (arith, e, entries-runs sig (r, u) ps)
    | inr e ↦ ground (arith, e, entries-runs sig (r, u) ps)
  ]

  -- A playlist is the header, the runs of consecutive segments among the playable ones in their order, a discontinuity
  -- between each run and the next and nowhere else, and the end mark.
  pub playlist_gaps :
      (sig : Text) (p : Part) (ps : List Part)
      → playlist fl fmt3 sig (p ∷ ps)
        ≡ header ∷ ((run_lines sig (runs p ps).0 ++ further_runs sig (runs p ps).1) ++ endlist ∷ [])
  unfolding playlist first_number
  playlist_gaps sig p ps = ap (λ ls. header ∷ (ls ++ endlist ∷ [])) (entries-runs sig p ps)
