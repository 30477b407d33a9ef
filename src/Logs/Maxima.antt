-- ===== src/Logs/Maxima.antt =====
-- The `max*` columns of a drive's row: what `max_of` of recompute_route computes.
use homeconnect.Logs.Aggregate.{SegRow, max_of, max_or, max_ℤ}
use homeconnect.Prelude.{
  All, Bool, Bool-cases, List, [], any, arith, false, inl, inr, map, refl, select, sym, true, ◌&&◌,
  ◌∙◌, ◌∷◌, ◌≡◌, ◌⊎◌,
}
use homeconnect.Prelude.Floats.{Floats}
use homeconnect.Prelude.Int.{eq_ℤ, negsuc, ℤ, ◌≤ℤ◌}
use mathlib.Core.Path.{subst}

abbrev AllLe : List ℤ → ℤ → Type 0
AllLe ns m = All (λ n. n ≤ℤ m) ns

AllLe-mono : (ns : List ℤ) (m k : ℤ) → m ≤ℤ k → AllLe ns m → AllLe ns k
AllLe-mono [] m k h a = tt
AllLe-mono (n ∷ ns) m k h a = (omega arith, AllLe-mono ns m k h a.1)

max_ℤ_upper : (a b : ℤ) → (a ≤ℤ max_ℤ a b) × (b ≤ℤ max_ℤ a b)
unfolding max_ℤ
max_ℤ_upper a b = ground arith

max_ℤ_cases : (a b : ℤ) → (max_ℤ a b ≡ a) ⊎ (max_ℤ a b ≡ b)
unfolding max_ℤ
max_ℤ_cases a b = ground arith

max_or_upper : (d : ℤ) (ns : List ℤ) → AllLe ns (max_or d ns)
unfolding max_or
max_or_upper d [] = tt
max_or_upper d (n ∷ ns) =
    let up : (n ≤ℤ max_ℤ n (max_or n ns)) × (max_or n ns ≤ℤ max_ℤ n (max_or n ns)) =
      max_ℤ_upper n (max_or n ns) in
    (up.0, AllLe-mono ns (max_or n ns) _ up.1 (max_or_upper n ns))

any_self : (n : ℤ) (ns : List ℤ) → any (λ j. eq_ℤ j n) (n ∷ ns) ≡ true
any_self n ns = ground arith

max_or_attained : (d n : ℤ) (ns : List ℤ) → any (λ j. eq_ℤ j (max_or d (n ∷ ns))) (n ∷ ns) ≡ true
unfolding max_or
max_or_attained d n [] = elim (max_ℤ_cases n n) [
  | inl e ↦ subst (λ m. any (λ j. eq_ℤ j m) (n ∷ []) ≡ true) (sym e) (any_self n [])
  | inr e ↦ subst (λ m. any (λ j. eq_ℤ j m) (n ∷ []) ≡ true) (sym e) (any_self n [])
]
max_or_attained d n (k ∷ ns) =
    let ih : any (λ j. eq_ℤ j (max_or n (k ∷ ns))) (k ∷ ns) ≡ true = max_or_attained n k ns in
    elim (max_ℤ_cases n (max_or n (k ∷ ns))) [
      | inl e ↦ subst (λ m. any (λ j. eq_ℤ j m) (n ∷ k ∷ ns) ≡ true) (sym e) (any_self n (k ∷ ns))
      | inr e ↦ subst (λ m. any (λ j. eq_ℤ j m) (n ∷ k ∷ ns) ≡ true) (sym e) (ground (arith, ih))
    ]

select-empty {ℓ} : {A : Type ℓ} (p : A → Bool) (xs : List A) → select p xs ≡ [] → any p xs ≡ false
select-empty p [] h = refl
select-empty p (x ∷ xs) h = ground (arith, select-empty p xs)

module _ (fl : Floats) where
  abbrev numbers : (SegRow fl → Bool) → List (SegRow fl) → List ℤ
  numbers pred segs = map (λ (s : SegRow fl). s.number) (select pred segs)

  -- The rows that meet `pred` have a number of at most `m`.
  abbrev pub AllUnder : (SegRow fl → Bool) → List (SegRow fl) → ℤ → Type 0
  AllUnder pred segs m = All (λ s. pred s ≡ true → s.number ≤ℤ m) segs

  AllUnder-of :
      (pred : SegRow fl → Bool) (segs : List (SegRow fl)) (m : ℤ)
      → AllLe (numbers pred segs) m
      → AllUnder pred segs m
  AllUnder-of pred [] m h = tt
  AllUnder-of pred (s ∷ segs) m h = elim (Bool-cases (pred s)) [
    | inl e ↦
        let g : AllLe (s.number ∷ numbers pred segs) m = rw e at h in
        ((λ _. g.0), AllUnder-of pred segs m g.1)
    | inr e ↦ ((λ y. absurd (cc)), AllUnder-of pred segs m (rw e at h))
  ]

  any-numbers :
      (pred : SegRow fl → Bool) (q : ℤ → Bool) (segs : List (SegRow fl))
      → any q (numbers pred segs) ≡ any (λ s. pred s && q s.number) segs
  any-numbers pred q [] = refl
  any-numbers pred q (s ∷ segs) = ground (arith, any-numbers pred q segs)

  -- `max_of` gives -1 if no row meets the condition; else it gives the number of a row that meets it, and no
  -- row that meets it has a greater number.
  pub max_of_lem :
      (pred : SegRow fl → Bool) (segs : List (SegRow fl))
      → ((any pred segs ≡ false) × (max_of fl pred segs ≡ negsuc 0))
        ⊎ ((any (λ s. pred s && eq_ℤ s.number (max_of fl pred segs)) segs ≡ true)
            × AllUnder pred segs (max_of fl pred segs))
  unfolding max_of
  max_of_lem pred segs = cases (select pred segs) refl
    where
      cases :
          (sel : List (SegRow fl))
          → select pred segs ≡ sel
          → ((any pred segs ≡ false) × (max_of fl pred segs ≡ negsuc 0))
            ⊎ ((any (λ s. pred s && eq_ℤ s.number (max_of fl pred segs)) segs ≡ true)
                × AllUnder pred segs (max_of fl pred segs))
      cases [] e = inl (select-empty pred segs e, rw (e, max_or) refl)
      cases (s ∷ sel) e = inr (
        sym (any-numbers pred (λ n. eq_ℤ n (max_of fl pred segs)) segs)
            ∙ rw e (max_or_attained (negsuc 0) s.number (map (λ (s : SegRow fl). s.number) sel)),
        AllUnder-of pred segs _ (max_or_upper (negsuc 0) (numbers pred segs)),
      )
