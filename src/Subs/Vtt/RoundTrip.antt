-- ===== src/Subs/Vtt/RoundTrip.antt =====
-- Reading a rendered document.
use homeconnect.Prelude.{
  All, Bool-cases, List, [], ap, append_assoc, arith, false, inl, inr, is_empty, length, refl, some,
  sym, ℕ, ◌++◌, ◌==◌, ◌∙◌, ◌∷◌, ◌≡◌,
}
use homeconnect.Prelude.Floats.{Floats}
use homeconnect.Prelude.Split.{Without, any-Without, join, split}
use homeconnect.Prelude.Text.{Text, strip_prefix, t, trim, trim_end, trim_start}
use homeconnect.Subs.Vtt.{
  Cue, FloatTexts, cues_from, lines, parse_vtt, render_cues, render_vtt, split_at, strip_cr,
  take_text, terminated, timing, timing_line,
}

split-line : (c : ℕ) (a s : Text) → Without c a → split c (a ++ c ∷ s) ≡ a ∷ split c s
unfolding split
split-line c [] s w = ground arith
split-line c (d ∷ a) s w = ground (arith, w.0, split-line c a s w.1)

split-cons : (c : ℕ) (s : Text) → (q : Text) × (ps : List Text) × (split c s ≡ q ∷ ps)
unfolding split
split-cons c [] = ([], [], refl)
split-cons c (d ∷ s) = elim (Bool-cases (d == c)) [
  | inl e ↦ ([], split c s, rw (e, split) refl)
  | inr e ↦ let (q, ps, h) = split-cons c s in (d ∷ q, ps, rw (e, split, h) refl)
]

-- A line that a line feed ends is the first of the lines.
lines-line : (a s : Text) → Without 10 a → strip_cr a ≡ a → lines (a ++ 10 ∷ s) ≡ a ∷ lines s
unfolding lines terminated
lines-line a s w r =
    let (q, ps, e) = split-cons 10 s in
    rw (split-line 10 a s w, lines, e, terminated) (ap (λ x. x ∷ terminated (q ∷ ps)) r)

-- A line of a cue's text: with no line feed in it, no white space around it, and not empty.
abbrev pub IsLine : Text → Type 0
IsLine l = Without 10 l × (strip_cr l ≡ l) × (trim l ≡ l) × (is_empty l ≡ false)

lines-join :
    (l : Text) (ls : List Text) (s : Text)
    → All IsLine (l ∷ ls)
    → lines (join 10 (l ∷ ls) ++ 10 ∷ s) ≡ (l ∷ ls) ++ lines s
unfolding join
lines-join l [] s a = lines-line l s a.0.0 a.0.1
lines-join l (m ∷ ls) s a =
    ap lines (append_assoc l (10 ∷ join 10 (m ∷ ls)) (10 ∷ s))
    ∙ lines-line l (join 10 (m ∷ ls) ++ 10 ∷ s) a.0.0 a.0.1
    ∙ ap (λ x. l ∷ x) (lines-join m ls s a.1)

join_some : (l : Text) (ls : List Text) → is_empty l ≡ false → is_empty (join 10 (l ∷ ls)) ≡ false
unfolding join
join_some [] ls h = absurd (ground (arith, h))
join_some (c ∷ l) [] h = refl
join_some (c ∷ l) (m ∷ ls) h = refl

lines_empty : (s : Text) → lines (10 ∷ s) ≡ [] ∷ lines s
unfolding strip_cr
lines_empty s = lines-line [] s tt refl

module _ (fl : Floats) (ft : FloatTexts fl) where
  -- A cue as it can be written: its text is one or more lines, and its times can be read from its timing line, which
  -- depends on how floats are printed.
  abbrev pub IsWritable : Cue fl ft → Type 0
  IsWritable c =
      (l : Text) × (ls : List Text) × (c.text ≡ join 10 (l ∷ ls))
      × All IsLine (l ∷ ls)
      × Without 10 (timing_line fl ft c)
      × (strip_cr (timing_line fl ft c) ≡ timing_line fl ft c)
      × (timing fl ft (timing_line fl ft c) ≡ some (c.start, c.end))

  take_text-lines : (ls rest : List Text) → All IsLine ls → take_text fl ft (ls ++ [] ∷ rest) ≡ ls
  unfolding take_text
  take_text-lines [] rest a = unfold trim trim_start trim_end in refl
  take_text-lines (l ∷ ls) rest a = ground (arith, a, take_text-lines ls rest a.1)

  past_text :
      (ls rest : List Text) → cues_from fl ft (length ls) (ls ++ [] ∷ rest) ≡ cues_from fl ft 0 rest
  unfolding cues_from timing split_at
  past_text [] rest = refl
  past_text (l ∷ ls) rest = past_text ls rest

  -- What `parse_vtt` makes of the lines of one cue.
  cue_read :
      (c : Cue fl ft) (rest : List Text) (w : IsWritable c)
      → cues_from fl ft 0 (timing_line fl ft c ∷ ((w.0 ∷ w.1) ++ [] ∷ rest))
        ≡ c ∷ cues_from fl ft 0 rest
  unfolding cues_from
  cue_read c rest (l, ls, x, a, n, r, h) =
      rw
        (
          h,
          cues_from,
          take_text-lines (l ∷ ls) rest a,
          join_some l ls a.0.3,
          past_text (l ∷ ls) rest,
        )
        (ap (λ y. record c { text = y } ∷ cues_from fl ft 0 rest) (sym x))

  lines-render :
      (c : Cue fl ft) (cues : List (Cue fl ft)) (w : IsWritable c)
      → lines (render_cues fl ft (c ∷ cues))
        ≡ timing_line fl ft c ∷ ((w.0 ∷ w.1) ++ [] ∷ lines (render_cues fl ft cues))
  unfolding render_cues
  lines-render c cues (l, ls, x, a, n, r, h) =
      lines-line (timing_line fl ft c) (c.text ++ 10 ∷ 10 ∷ render_cues fl ft cues) n r
      ∙ ap (λ y. timing_line fl ft c ∷ lines (y ++ 10 ∷ 10 ∷ render_cues fl ft cues)) x
      ∙ ap (λ y. timing_line fl ft c ∷ y) (lines-join l ls (10 ∷ render_cues fl ft cues) a)
      ∙ ap (λ y. timing_line fl ft c ∷ ((l ∷ ls) ++ y)) (lines_empty (render_cues fl ft cues))

  parse-render :
      (cues : List (Cue fl ft))
      → All IsWritable cues
      → cues_from fl ft 0 (lines (render_cues fl ft cues)) ≡ cues
  unfolding render_cues
  parse-render [] a = unfold lines terminated split cues_from in refl
  parse-render (c ∷ cues) a =
      ap (cues_from fl ft 0) (lines-render c cues a.0)
      ∙ cue_read c (lines (render_cues fl ft cues)) a.0
      ∙ ap (λ cs. c ∷ cs) (parse-render cues a.1)

  heading_line : Without 10 (t "WEBVTT") × (strip_cr (t "WEBVTT") ≡ t "WEBVTT")
  unfolding t strip_cr
  heading_line = (any-Without 10 (t "WEBVTT") refl, refl)

  heading : (rest : List Text) → cues_from fl ft 0 (t "WEBVTT" ∷ [] ∷ rest) ≡ cues_from fl ft 0 rest
  unfolding cues_from timing split_at t strip_prefix
  heading rest = refl

  -- A document that is rendered from cues reads back as these cues, if each has a text of one or more lines, none of
  -- them empty or with white space around it, and a timing line from which its times can be read.
  pub parse_vtt-render_vtt :
      (cues : List (Cue fl ft))
      → All IsWritable cues
      → parse_vtt fl ft (render_vtt fl ft cues) ≡ cues
  unfolding parse_vtt render_vtt
  parse_vtt-render_vtt cues a =
      ap (cues_from fl ft 0) (
        lines-line (t "WEBVTT") (10 ∷ render_cues fl ft cues) heading_line.0 heading_line.1
        ∙ ap (λ y. t "WEBVTT" ∷ y) (lines_empty (render_cues fl ft cues)))
      ∙ heading (lines (render_cues fl ft cues))
      ∙ parse-render cues a
