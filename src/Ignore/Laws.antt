-- ===== src/Ignore/Laws.antt =====
-- What the saved rules hide.
use homeconnect.Db.{Db}
use homeconnect.Db.Keys.{get_setting-set_setting}
use homeconnect.Ignore.{
  Condition, Rule, RulesJson, check_condition, check_conditions, check_rules, ignore_key, is_field,
  is_op, load_rules, save_rules,
}
use homeconnect.Prelude.{
  All, AppError, AppResult-cases, List, [], arith, err, inl, inr, ok, refl, some, true, ◌∷◌, ◌≡◌,
}
use homeconnect.Prelude.Floats.{Floats}
use homeconnect.Prelude.Text.{text_eq_refl}

module _ (fl : Floats) where
  open fl use {F64}

  abbrev Known : Condition fl → Type 0
  Known c = (is_field fl c.field ≡ true) × (is_op fl c.op ≡ true)

  -- Every condition of every rule has a field and an operator that the code knows.
  abbrev pub AllKnown : List (Rule fl) → Type 0
  AllKnown rules = All (λ (r : Rule fl). All Known r.conditions) rules

  check_condition-Known :
      (c : Condition fl)
      → (check_condition fl c ≡ ok tt → Known c) × (Known c → check_condition fl c ≡ ok tt)
  unfolding check_condition
  check_condition-Known c = (λ h. ground arith, λ k. ground (arith, k))

  check_conditions_sound :
      (cs : List (Condition fl)) → check_conditions fl cs ≡ ok tt → All Known cs
  unfolding check_conditions
  check_conditions_sound [] h = tt
  check_conditions_sound (c ∷ cs) h = elim (AppResult-cases (check_condition fl c)) [
    | inl e ↦ ((check_condition-Known c).0 e, check_conditions_sound cs (ground (arith, h, e)))
    | inr (x, e) ↦ absurd (ground (arith, h, e))
  ]

  check_conditions_complete :
      (cs : List (Condition fl)) → All Known cs → check_conditions fl cs ≡ ok tt
  unfolding check_conditions
  check_conditions_complete [] k = refl
  check_conditions_complete (c ∷ cs) k =
      ground (arith, (check_condition-Known c).1 k.0, check_conditions_complete cs k.1)

  check_rules_sound : (rs : List (Rule fl)) → check_rules fl rs ≡ ok tt → AllKnown rs
  unfolding check_rules
  check_rules_sound [] h = tt
  check_rules_sound (r ∷ rs) h = elim (AppResult-cases (check_conditions fl r.conditions)) [
    | inl e ↦ (check_conditions_sound r.conditions e, check_rules_sound rs (ground (arith, h, e)))
    | inr (x, e) ↦ absurd (ground (arith, h, e))
  ]

  check_rules_complete : (rs : List (Rule fl)) → AllKnown rs → check_rules fl rs ≡ ok tt
  unfolding check_rules
  check_rules_complete [] k = refl
  check_rules_complete (r ∷ rs) k =
      ground (arith, check_conditions_complete r.conditions k.0, check_rules_complete rs k.1)

  -- Saved rules are what is loaded next, if serde_json reads back what it printed, and every field and operator in
  -- them is known.
  pub save_rules_lem :
      (json : RulesJson fl) (rules : List (Rule fl)) (db new : Db)
      → json.parse (json.print rules) ≡ some rules
      → save_rules fl json rules db ≡ (ok tt, new)
      → (load_rules fl json new ≡ rules) × AllKnown rules
  unfolding save_rules load_rules
  save_rules_lem json rules db new j h = elim (AppResult-cases (check_rules fl rules)) [
    | inl e ↦ (
      ground (
        arith,
        h,
        e,
        get_setting-set_setting ignore_key ignore_key (json.print rules) db,
        j,
        text_eq_refl ignore_key,
      ),
      check_rules_sound rules e,
    )
    | inr (x, e) ↦ absurd (ground (arith, e, h))
  ]

  -- Rules are refused only for a field or an operator that is not known, and then the settings stay as they are.
  pub save_rules_refused :
      (json : RulesJson fl) (rules : List (Rule fl)) (e : AppError) (db new : Db)
      → save_rules fl json rules db ≡ (err e, new)
      → (new ≡ db) × ¬ AllKnown rules
  unfolding save_rules
  save_rules_refused json rules e db new h = elim (AppResult-cases (check_rules fl rules)) [
    | inl c ↦ absurd (ground (arith, c, h))
    | inr (x, c) ↦
        (ground (arith, c, h), λ k. absurd (ground (arith, c, check_rules_complete rules k)))
  ]
