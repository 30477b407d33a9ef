-- ===== src/Logs/Recomputed.antt =====
-- What `recompute_route` writes on a drive's row, after a segment with a qlog is on the tables.
use homeconnect.Db.{Segment}
use homeconnect.Logs.Aggregate.{RouteStats, SegRow, aggregate, max_of}
use homeconnect.Logs.Maxima.{AllUnder, max_of_lem}
use homeconnect.Logs.Rows.{Tables, by_number, insert_row, recompute_route, route_rows, seg_row}
use homeconnect.Prelude.{
  Bool, Bool-cases, List, [], any, arith, inl, inr, is_empty, map, not, refl, select, some, true,
  ◌&&◌, ◌∙◌, ◌∷◌, ◌≡◌,
}
use homeconnect.Prelude.Containers.{get-insert, map_get}
use homeconnect.Prelude.Floats.{Floats}
use homeconnect.Prelude.Int.{eq_ℤ, ℤ, ◌≤ℤ◌}
use homeconnect.Prelude.Text.{Text, text_eq, text_eq_refl}
use homeconnect.Segments.Qlogs.{HasQlog, Known, any-select, qlog_row}
use homeconnect.Storage.{fullname_of}
use mathlib.Core.Path.{subst}

any-map :
    {A B : Type 0} (p : B → Bool) (f : A → B) (xs : List A)
    → any p (map f xs) ≡ any (λ x. p (f x)) xs
any-map p f [] = refl
any-map p f (x ∷ xs) = ground (arith, any-map p f xs)

any_mono {ℓ} :
    {A : Type ℓ} (p q : A → Bool) (xs : List A)
    → ((x : A) → p x ≡ true → q x ≡ true)
    → any p xs ≡ true
    → any q xs ≡ true
any_mono p q [] h a = a
any_mono p q (x ∷ xs) h a = elim (Bool-cases (p x)) [
  | inl e ↦ ground (arith, h x, e)
  | inr e ↦ ground (arith, e, any_mono p q xs h)
]

module _ (fl : Floats) where
  has_qlog : SegRow fl → Bool
  has_qlog r = not (is_empty r.qlog_url)

  any-insert_row :
      (p : SegRow fl → Bool) (r : SegRow fl) (rs : List (SegRow fl))
      → any p (insert_row fl r rs) ≡ any p (r ∷ rs)
  unfolding insert_row
  any-insert_row p r [] = refl
  any-insert_row p r (q ∷ qs) = ground (arith, any-insert_row p r qs)

  any-by_number :
      (p : SegRow fl → Bool) (rs : List (SegRow fl)) → any p (by_number fl rs) ≡ any p rs
  unfolding by_number
  any-by_number p [] = refl
  any-by_number p (r ∷ rs) =
      any-insert_row p r (by_number fl rs) ∙ ground (arith, any-by_number p rs)

  qlog_at : ℤ → SegRow fl → Bool
  unfolding has_qlog
  qlog_at seg r = has_qlog r && eq_ℤ r.number seg

  route_rows-qlog :
      (fullname : Text) (seg : ℤ) (s : Tables fl)
      → HasQlog fullname seg s.app.db
      → any (qlog_at seg) (route_rows fl fullname s) ≡ true
  unfolding route_rows qlog_at
  route_rows-qlog fullname seg s h =
      let mine : Segment → Bool = λ g. text_eq g.canonical_route_name fullname in
      let p : Segment → Bool = λ g. qlog_at seg (seg_row fl s g) in
      any-by_number (qlog_at seg) (map (seg_row fl s) (select mine s.app.db.segments))
      ∙ any-map (qlog_at seg) (seg_row fl s) (select mine s.app.db.segments)
      ∙ any-select p mine s.app.db.segments
      ∙ any_mono (qlog_row fullname seg) (λ g. mine g && p g) s.app.db.segments
          (λ g e. ground (arith, e)) h

  under-any :
      (seg m : ℤ) (rs : List (SegRow fl))
      → AllUnder fl has_qlog rs m
      → any (qlog_at seg) rs ≡ true
      → seg ≤ℤ m
  unfolding qlog_at
  under-any seg m [] u a = cc
  under-any seg m (r ∷ rs) u a = elim (Bool-cases (qlog_at seg r)) [
    | inl e ↦ let le : r.number ≤ℤ m = u.0 (ground (arith, e)) in ground (arith, e, le)
    | inr e ↦ under-any seg m rs u.1 (ground (arith, e, a))
  ]

  qlog_at-has :
      (seg : ℤ) (rs : List (SegRow fl)) → any (qlog_at seg) rs ≡ true → any has_qlog rs ≡ true
  unfolding qlog_at
  qlog_at-has seg rs h = any_mono (qlog_at seg) has_qlog rs (λ r e. ground (arith, e)) h

  maxqlog-ge :
      (seg : ℤ) (rs : List (SegRow fl)) → any (qlog_at seg) rs ≡ true → seg ≤ℤ max_of fl has_qlog rs
  maxqlog-ge seg rs h = elim (max_of_lem fl has_qlog rs) [
    | inl n ↦ absurd (let y : any has_qlog rs ≡ true = qlog_at-has seg rs h in cc (n.0))
    | inr m ↦ under-any seg (max_of fl has_qlog rs) rs m.1 h
  ]

  -- The row of the drive is that of a drive with the segment's qlog.
  abbrev pub Lists : Text → ℤ → Tables fl → Type 0
  Lists fullname seg s =
      (r : RouteStats fl) × (map_get fullname s.route_columns ≡ some r) × (seg ≤ℤ r.maxqlog)

  pub recompute-Lists :
      (dongle ts : Text) (seg : ℤ) (s : Tables fl)
      → HasQlog (fullname_of dongle ts) seg s.app.db
      → Known (fullname_of dongle ts) s.app.db
      → Lists (fullname_of dongle ts) seg (recompute_route fl dongle ts s)
  unfolding recompute_route has_qlog aggregate
  recompute-Lists dongle ts seg s h k = cases (route_rows fl (fullname_of dongle ts) s) refl
    where
      cases :
          (rs : List (SegRow fl))
          → route_rows fl (fullname_of dongle ts) s ≡ rs
          → Lists (fullname_of dongle ts) seg (recompute_route fl dongle ts s)
      cases [] e =
          let y : any (qlog_at seg) [] ≡ true =
            subst (λ rs. any (qlog_at seg) rs ≡ true) e
              (route_rows-qlog (fullname_of dongle ts) seg s h) in
          absurd (cc (y))
      cases (r ∷ rs) e =
          let y : any (qlog_at seg) (r ∷ rs) ≡ true =
            subst (λ rs. any (qlog_at seg) rs ≡ true) e
              (route_rows-qlog (fullname_of dongle ts) seg s h) in
          rw (e, recompute_route, k)
            (
              aggregate fl (r ∷ rs),
              simp get-insert (ground (arith, text_eq_refl (fullname_of dongle ts))),
              maxqlog-ge seg (r ∷ rs) y,
            )
