-- ===== src/Browse/Paging.antt =====
-- The pages of a device's drives: which rows, in which order, how many, and how pages follow one another.
use homeconnect.Browse.Drives.{
  RouteRow, RoutesQuery, all_rows, i64_max, insert_desc, is_of, is_parsed, newest_rows, routes_of,
  started_in,
}
use homeconnect.Browse.UploadUrls.{clamp_ℤ}
use homeconnect.Logs.Rows.{Tables}
use homeconnect.Prelude.{
  All, Bool, Bool-cases, List, [], ap, arith, count, drop, inl, inr, length, length-drop,
  length-take, min, none, refl, select, some, suc, take, true, unwrap_or, zero, ℕ, ◌&&◌, ◌*◌, ◌++◌,
  ◌+◌, ◌-◌, ◌<◌, ◌∙◌, ◌∷◌, ◌≡◌, ◌≤◌,
}
use homeconnect.Prelude.Floats.{Floats}
use homeconnect.Prelude.Int.{leb_ℤ, pos, pos_part, ℤ, ◌≤ℤ◌}
use homeconnect.Prelude.Text.{Text}

module _ {ℓ} {A : Type ℓ} where
  All-take : (P : A → Type 0) (n : ℕ) (xs : List A) → All P xs → All P (take n xs)
  All-take P zero xs h = tt
  All-take P (suc n) [] h = tt
  All-take P (suc n) (x ∷ xs) h = (h.0, All-take P n xs h.1)

  All-drop : (P : A → Type 0) (n : ℕ) (xs : List A) → All P xs → All P (drop n xs)
  All-drop P zero xs h = h
  All-drop P (suc n) [] h = tt
  All-drop P (suc n) (x ∷ xs) h = All-drop P n xs h.1

  All-select : (p : A → Bool) (xs : List A) → All (λ x. p x ≡ true) (select p xs)
  All-select p [] = tt
  All-select p (x ∷ xs) = elim (Bool-cases (p x)) [
    | inl e ↦ rw e (e, All-select p xs)
    | inr e ↦ rw e (All-select p xs)
  ]

  pub length-select : (p : A → Bool) (xs : List A) → length (select p xs) ≡ count p xs
  length-select p [] = refl
  length-select p (x ∷ xs) = ground (arith, length-select p xs)

  take-nil : (n : ℕ) → take {A = A} n [] ≡ []
  take-nil zero = refl
  take-nil (suc n) = refl

  drop-nil : (n : ℕ) → drop {A = A} n [] ≡ []
  drop-nil zero = refl
  drop-nil (suc n) = refl

  take-take : (n m : ℕ) (xs : List A) → take n xs ++ take m (drop n xs) ≡ take (n + m) xs
  take-take zero m xs = ground arith
  take-take (suc n) m [] = ground (arith, take-nil m, take-nil (suc n + m))
  take-take (suc n) m (x ∷ xs) =
      let e : suc n + m ≡ suc (n + m) = omega arith in rw e (ap (λ ys. x ∷ ys) (take-take n m xs))

  drop-add : (o n : ℕ) (xs : List A) → drop (o + n) xs ≡ drop n (drop o xs)
  drop-add zero n xs = ground arith
  drop-add (suc o) n [] = ground (arith, drop-nil n, drop-nil (suc o + n))
  drop-add (suc o) n (x ∷ xs) =
      let e : suc o + n ≡ suc (o + n) = omega arith in rw e (drop-add o n xs)

  take_all : (n : ℕ) (xs : List A) → length xs ≤ n → take n xs ≡ xs
  take_all zero [] h = refl
  take_all zero (x ∷ xs) h = absurd (omega (arith, h))
  take_all (suc n) [] h = refl
  take_all (suc n) (x ∷ xs) h = ap (λ ys. x ∷ ys) (take_all n xs (omega (arith, h)))

  -- Two pages in a row.
  take-drop :
      (n m o : ℕ) (xs : List A)
      → take n (drop o xs) ++ take m (drop (o + n) xs) ≡ take (n + m) (drop o xs)
  take-drop n m o xs = rw (drop-add o n xs) (take-take n m (drop o xs))

module _ (fl : Floats) where
  start_of : RouteRow fl → ℤ
  start_of r = r.route.start_time_utc_millis

  -- No row starts after the first one.
  abbrev pub IsNewestFirst : List (RouteRow fl) → Type 0
  IsNewestFirst [] = Unit {0}
  IsNewestFirst (r ∷ rs) =
      All (λ (q : RouteRow fl). q.route.start_time_utc_millis ≤ℤ r.route.start_time_utc_millis) rs
      × IsNewestFirst rs

  All-insert_desc :
      (P : RouteRow fl → Type 0) (r : RouteRow fl) (rs : List (RouteRow fl))
      → P r
      → All P rs
      → All P (insert_desc fl r rs)
  unfolding insert_desc
  All-insert_desc P r [] h a = (h, tt)
  All-insert_desc P r (q ∷ qs) h a =
      elim (Bool-cases (leb_ℤ q.route.start_time_utc_millis r.route.start_time_utc_millis)) [
        | inl e ↦ rw (e, insert_desc) (h, a)
        | inr e ↦ rw (e, insert_desc) (a.0, All-insert_desc P r qs h a.1)
      ]

  All-newest_rows :
      (P : RouteRow fl → Type 0) (rs : List (RouteRow fl)) → All P rs → All P (newest_rows fl rs)
  unfolding newest_rows
  All-newest_rows P [] a = tt
  All-newest_rows P (r ∷ rs) a =
      All-insert_desc P r (newest_rows fl rs) a.0 (All-newest_rows P rs a.1)

  length-insert_desc :
      (r : RouteRow fl) (rs : List (RouteRow fl)) → length (insert_desc fl r rs) ≡ suc (length rs)
  unfolding insert_desc
  length-insert_desc r [] = refl
  length-insert_desc r (q ∷ qs) = ground (arith, length-insert_desc r qs)

  length-newest_rows : (rs : List (RouteRow fl)) → length (newest_rows fl rs) ≡ length rs
  unfolding newest_rows
  length-newest_rows [] = refl
  length-newest_rows (r ∷ rs) =
      length-insert_desc r (newest_rows fl rs) ∙ ap suc (length-newest_rows rs)

  All-mono :
      (P Q : RouteRow fl → Type 0) (rs : List (RouteRow fl))
      → ((r : RouteRow fl) → P r → Q r)
      → All P rs
      → All Q rs
  All-mono P Q [] f a = tt
  All-mono P Q (r ∷ rs) f a = (f r a.0, All-mono P Q rs f a.1)

  insert_desc-IsNewestFirst :
      (r : RouteRow fl) (rs : List (RouteRow fl))
      → IsNewestFirst rs
      → IsNewestFirst (insert_desc fl r rs)
  unfolding insert_desc
  insert_desc-IsNewestFirst r [] s = (tt, tt)
  insert_desc-IsNewestFirst r (q ∷ qs) s =
      let older : RouteRow fl → RouteRow fl → Type 0 =
        λ a b. a.route.start_time_utc_millis ≤ℤ b.route.start_time_utc_millis in
      elim (Bool-cases (leb_ℤ q.route.start_time_utc_millis r.route.start_time_utc_millis)) [
        | inl e ↦
            rw (e, insert_desc)
              (
                (
                  ground (arith, e),
                  All-mono (λ a. older a q) (λ a. older a r) qs (λ a h. ground (arith, e, h)) s.0,
                ),
                s,
              )
        | inr e ↦
            rw (e, insert_desc)
              (
                All-insert_desc (λ a. older a q) r qs (ground (arith, e)) s.0,
                insert_desc-IsNewestFirst r qs s.1,
              )
      ]

  newest_rows-IsNewestFirst : (rs : List (RouteRow fl)) → IsNewestFirst (newest_rows fl rs)
  unfolding newest_rows
  newest_rows-IsNewestFirst [] = tt
  newest_rows-IsNewestFirst (r ∷ rs) =
      insert_desc-IsNewestFirst r (newest_rows fl rs) (newest_rows-IsNewestFirst rs)

  take-IsNewestFirst :
      (n : ℕ) (rs : List (RouteRow fl)) → IsNewestFirst rs → IsNewestFirst (take n rs)
  take-IsNewestFirst zero rs s = tt
  take-IsNewestFirst (suc n) [] s = tt
  take-IsNewestFirst (suc n) (r ∷ rs) s = (All-take _ n rs s.0, take-IsNewestFirst n rs s.1)

  drop-IsNewestFirst :
      (n : ℕ) (rs : List (RouteRow fl)) → IsNewestFirst rs → IsNewestFirst (drop n rs)
  drop-IsNewestFirst zero rs s = s
  drop-IsNewestFirst (suc n) [] s = tt
  drop-IsNewestFirst (suc n) (r ∷ rs) s = drop-IsNewestFirst n rs s.1

  -- The rows that a query of a device's drives is about.
  abbrev pub asked : Text → RoutesQuery → RouteRow fl → Bool
  asked dongle q r =
      is_of fl dongle r
      && is_parsed fl r
      && started_in fl (unwrap_or q.start (pos 0)) (unwrap_or q.end i64_max) r

  -- A query without a route's name gives rows that are asked for: the device's drives that have a parsed qlog and
  -- start in the window, newest first. With a limit of `n` (clamped to 1 to 1000, 50 by default) and an offset of
  -- `o` there are exactly min(n, matches - o) of them.
  pub page_lem :
      (s : Tables fl) (dongle : Text) (q : RoutesQuery)
      → q.route_str ≡ none
      → All (λ r. asked dongle q r ≡ true) (routes_of fl s dongle q)
        × IsNewestFirst (routes_of fl s dongle q)
        × (length (routes_of fl s dongle q)
            ≡ min
                (pos_part (clamp_ℤ (pos 1) (pos 1000) (unwrap_or q.limit (pos 50))))
                (count (asked dongle q) (all_rows fl s) - pos_part (unwrap_or q.offset (pos 0))))
  unfolding routes_of
  page_lem s dongle q e =
      let n : ℕ = pos_part (clamp_ℤ (pos 1) (pos 1000) (unwrap_or q.limit (pos 50))) in
      let o : ℕ = pos_part (unwrap_or q.offset (pos 0)) in
      let sel : List (RouteRow fl) = select (asked dongle q) (all_rows fl s) in
      let rows : List (RouteRow fl) = newest_rows fl sel in
      rw (e, routes_of)
        (
          All-take _ n (drop o rows) (
              All-drop _ o rows (
                All-newest_rows (λ r. asked dongle q r ≡ true) sel
                  (All-select (asked dongle q) (all_rows fl s)))),
          take-IsNewestFirst n (drop o rows)
              (drop-IsNewestFirst o rows (newest_rows-IsNewestFirst sel)),
          omega (
            arith,
            length-take n (drop o rows),
            length-drop o rows,
            length-newest_rows sel,
            length-select (asked dongle q) (all_rows fl s),
          ),
        )

  count-insert_desc :
      (p : RouteRow fl → Bool) (r : RouteRow fl) (rs : List (RouteRow fl))
      → count p (insert_desc fl r rs) ≡ count p (r ∷ rs)
  unfolding insert_desc
  count-insert_desc p r [] = refl
  count-insert_desc p r (q ∷ qs) = ground (arith, count-insert_desc p r qs)

  count-newest_rows :
      (p : RouteRow fl → Bool) (rs : List (RouteRow fl)) → count p (newest_rows fl rs) ≡ count p rs
  unfolding newest_rows
  count-newest_rows p [] = refl
  count-newest_rows p (r ∷ rs) =
      ground (arith, count-insert_desc p r (newest_rows fl rs), count-newest_rows p rs)

  count-select :
      (a p : RouteRow fl → Bool) (rs : List (RouteRow fl))
      → count p (select a rs) ≡ count (λ r. a r && p r) rs
  count-select a p [] = refl
  count-select a p (r ∷ rs) = ground (arith, count-select a p rs)

  -- One page of `n` rows after another, `k` of them, from the offset `o` on.
  abbrev pub pages : Tables fl → Text → RoutesQuery → ℕ → ℕ → ℕ → List (RouteRow fl)
  pages s dongle q n o zero = []
  pages s dongle q n o (suc k) =
      routes_of fl s dongle (record q { limit = some (pos n); offset = some (pos o) })
      ++ pages s dongle q n (o + n) k

  page_rows :
      (s : Tables fl) (dongle : Text) (q : RoutesQuery) (n o : ℕ)
      → q.route_str ≡ none
      → 0 < n
      → n ≤ 1000
      → routes_of fl s dongle (record q { limit = some (pos n); offset = some (pos o) })
        ≡ take n (drop o (newest_rows fl (select (asked dongle q) (all_rows fl s))))
  unfolding routes_of clamp_ℤ
  page_rows s dongle q n o e a b =
      let c : clamp_ℤ (pos 1) (pos 1000) (pos n) ≡ pos n = ground arith in rw (e, routes_of, c) refl

  pages_rows :
      (s : Tables fl) (dongle : Text) (q : RoutesQuery) (n o k : ℕ)
      → q.route_str ≡ none
      → 0 < n
      → n ≤ 1000
      → pages s dongle q n o k
        ≡ take (k * n) (drop o (newest_rows fl (select (asked dongle q) (all_rows fl s))))
  pages_rows s dongle q n o zero e a b = let z : 0 * n ≡ 0 = omega arith in rw z refl
  pages_rows s dongle q n o (suc k) e a b =
      let rows : List (RouteRow fl) = newest_rows fl (select (asked dongle q) (all_rows fl s)) in
      let m : suc k * n ≡ n + k * n = omega arith in
      rw (page_rows s dongle q n o e a b, pages_rows s dongle q n (o + n) k e a b, m)
        (take-drop n (k * n) o rows)

  -- Pages of `n` rows that follow one another, enough of them to hold every match, show each of the device's drives that
  -- have a parsed qlog and start in the window exactly once, and no other, newest first: any kind `p` of drive is on them
  -- as often as among the matches. The pages are at most the clamp of 1000 rows long.
  pub next_page_lem :
      (s : Tables fl) (dongle : Text) (q : RoutesQuery) (p : RouteRow fl → Bool) (n k : ℕ)
      → q.route_str ≡ none
      → 0 < n
      → n ≤ 1000
      → count (asked dongle q) (all_rows fl s) ≤ k * n
      → (count p (pages s dongle q n 0 k) ≡ count (λ r. asked dongle q r && p r) (all_rows fl s))
        × IsNewestFirst (pages s dongle q n 0 k)
  next_page_lem s dongle q p n k e a b h =
      let sel : List (RouteRow fl) = select (asked dongle q) (all_rows fl s) in
      let rows : List (RouteRow fl) = newest_rows fl sel in
      let l : length rows ≤ k * n =
        omega (arith, length-newest_rows sel, length-select (asked dongle q) (all_rows fl s), h) in
      rw (pages_rows s dongle q n 0 k e a b, take_all (k * n) rows l)
        (
          count-newest_rows p sel ∙ count-select (asked dongle q) p (all_rows fl s),
          newest_rows-IsNewestFirst sel,
        )
