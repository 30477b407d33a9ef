-- ===== src/Subs/Vtt.antt =====
-- src/subs.rs: WebVTT, from the whisper server and to the player.
pub mod RoundTrip
use homeconnect.Prelude.{
  List, Option, [], if◌then◌else◌, is_empty, length, ltb, map, none, some, suc, unwrap_or, zero, ℕ,
  ◌++◌, ◌==◌, ◌∷◌,
}
use homeconnect.Prelude.Decimal.{show_ℤ}
use homeconnect.Prelude.Floats.{Floats}
use homeconnect.Prelude.Int.{ℤ}
use homeconnect.Prelude.Split.{join, split}
use homeconnect.Prelude.Text.{Text, is_whitespace, strip_prefix, t, trim}

-- What texts and floats have to do with each other: parse::<f64>, {:06.3}, and two operations more.
pub record FloatTexts (fl : Floats) : Type 0 where
  pub parse : Text → Option fl.F64
  pub print_06_3 : fl.F64 → Text
  pub rem : fl.F64 → fl.F64 → fl.F64
  pub floor : fl.F64 → fl.F64

-- s.strip_suffix('\r'), or s
unfoldable pub strip_cr : Text → Text
strip_cr [] = []
strip_cr (c ∷ []) = if c == 13 then [] else c ∷ []
strip_cr (c ∷ d ∷ s) = c ∷ strip_cr (d ∷ s)

-- A last part that no line feed ends is a line only if it has characters.
unfoldable pub terminated : List Text → List Text
unfolding strip_cr
terminated [] = []
terminated (p ∷ []) = if is_empty p then [] else p ∷ []
terminated (p ∷ q ∷ ps) = strip_cr p ∷ terminated (q ∷ ps)

-- s.lines()
unfoldable pub lines : Text → List Text
unfolding terminated
lines s = terminated (split 10 s)

-- s.split_once(p) for a pattern p
unfoldable pub split_at : Text → Text → Option (Text × Text)
split_at p [] = none
split_at p (c ∷ s) = elim (strip_prefix p (c ∷ s)) [
  | some r ↦ some ([], r)
  | none ↦ elim (split_at p s) [ none ↦ none | some (a, b) ↦ some (c ∷ a, b) ]
]

-- s.split_whitespace().next(), of a text that does not begin with white space
unfoldable pub first_word : Text → Option Text
first_word [] = none
first_word (c ∷ s) =
    let rest = first_word s in if is_whitespace c then none else some (c ∷ unwrap_or rest [])

module _ (fl : Floats) (ft : FloatTexts fl) where
  open fl use {F64, add, div, fmax, lit, mul, to_i64}

  pub record Cue : Type 0 where
    pub start : F64
    pub end : F64
    pub text : Text

  unfoldable pub sum_parts : F64 → List Text → Option F64
  sum_parts secs [] = some secs
  sum_parts secs (p ∷ ps) = elim (ft.parse p) [
    | none ↦ none
    | some x ↦ sum_parts (add (mul secs (lit 60 0)) x) ps
  ]

  unfoldable pub parse_ts : Text → Option F64
  unfolding first_word sum_parts
  parse_ts s = elim (first_word (trim (map (λ c. if c == b',' then b'.' else c) (trim s)))) [
    | none ↦ none
    | some w ↦
        let parts = split b':' w in if ltb 3 (length parts) then none else sum_parts (lit 0 0) parts
  ]

  -- The times of a timing line.
  unfoldable pub timing : Text → Option (F64 × F64)
  unfolding split_at parse_ts
  timing line = elim (split_at (t "-->") line) [
    | none ↦ none
    | some (a, b) ↦ elim (parse_ts a) [
      | none ↦ none
      | some start ↦ elim (parse_ts b) [ none ↦ none | some end ↦ some (start, end) ]
    ]
  ]

  -- The lines of a cue's text, up to a blank line.
  unfoldable pub take_text : List Text → List Text
  take_text [] = []
  take_text (line ∷ rest) =
      let more = take_text rest in if is_empty (trim line) then [] else trim line ∷ more

  -- The outer loop of `parse_vtt`; the number is of the lines that the inner loop has consumed.
  unfoldable pub cues_from : ℕ → List Text → List Cue
  unfolding timing take_text
  cues_from n [] = []
  cues_from (suc n) (line ∷ rest) = cues_from n rest
  cues_from zero (line ∷ rest) =
      let next = cues_from zero rest in
      let past = cues_from (length (take_text rest)) rest in
      elim (timing line) [
        | none ↦ next
        | some (start, end) ↦
            if is_empty (join 10 (take_text rest))
            then past
            else record { start = start; end = end; text = join 10 (take_text rest) } ∷ past
      ]

  unfoldable pub parse_vtt : Text → List Cue
  unfolding cues_from lines
  parse_vtt body = cues_from 0 (lines body)

  unfoldable pub shift : List Cue → F64 → List Cue
  shift [] offset = []
  shift (c ∷ cues) offset =
      record c { start = add c.start offset; end = add c.end offset } ∷ shift cues offset

  -- {:02}
  abbrev pad2 : ℤ → Text
  pad2 n = if ltb (length (show_ℤ n)) 2 then b'0' ∷ show_ℤ n else show_ℤ n

  unfoldable pub fmt_ts : F64 → Text
  fmt_ts x =
      let u = fmax x (lit 0 0) in
      pad2 (to_i64 (ft.floor (div u (lit 3600 0))))
      ++ b':' ∷ pad2 (to_i64 (ft.floor (div (ft.rem u (lit 3600 0)) (lit 60 0))))
      ++ b':' ∷ ft.print_06_3 (ft.rem u (lit 60 0))

  unfoldable pub timing_line : Cue → Text
  unfolding fmt_ts
  timing_line c = fmt_ts c.start ++ t " --> " ++ fmt_ts c.end

  unfoldable pub render_cues : List Cue → Text
  unfolding timing_line
  render_cues [] = []
  render_cues (c ∷ cues) = timing_line c ++ 10 ∷ (c.text ++ 10 ∷ 10 ∷ render_cues cues)

  unfoldable pub render_vtt : List Cue → Text
  unfolding render_cues
  render_vtt cues = t "WEBVTT" ++ 10 ∷ 10 ∷ render_cues cues
