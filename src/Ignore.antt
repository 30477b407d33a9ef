-- ===== src/Ignore.antt =====
-- src/ignore.rs: the rules that hide drives, in disjunctive normal form. serde_json is a parameter.
pub mod Laws
use homeconnect.Db.{Db, get_setting, set_setting}
use homeconnect.Prelude.{
  Action, AppResult, Bool, List, Option, [], all, any, bad_request, err, false, if◌then◌else◌,
  is_empty, none, not, ok, some, unwrap_or, ◌&&◌, ◌++◌, ◌||◌, ◌∷◌,
}
use homeconnect.Prelude.Floats.{Floats}
use homeconnect.Prelude.Text.{Text, t, text_eq}

abbrev pub ignore_key : Text
ignore_key = t "ignore_rules"

-- DEFAULT_RULES_JSON
abbrev pub default_rules_json : Text
default_rules_json = t "[{\"conditions\":[{\"field\":\"miles\",\"op\":\"lt\",\"value\":0.1}]}]"

module _ (fl : Floats) where
  open fl use {F64}

  pub record Condition : Type 0 where
    pub field : Text
    pub op : Text
    pub value : F64

  pub record Rule : Type 0 where
    pub conditions : List Condition

  -- serde_json on the rules.
  pub record RulesJson : Type 0 where
    pub print : List Rule → Text
    pub parse : Text → Option (List Rule)

  unfoldable pub load_rules : RulesJson → Db → List Rule
  load_rules json db = elim (get_setting ignore_key db) [
    | some s ↦ unwrap_or (json.parse s) []
    | none ↦ unwrap_or (json.parse default_rules_json) []
  ]

  unfoldable pub is_field : Text → Bool
  is_field f = text_eq f (t "miles") || text_eq f (t "minutes")

  unfoldable pub is_op : Text → Bool
  is_op o = text_eq o (t "lt") || text_eq o (t "le") || text_eq o (t "gt") || text_eq o (t "ge")

  unfoldable pub check_condition : Condition → AppResult (Unit {0})
  unfolding is_field is_op
  check_condition c =
      if not (is_field c.field)
      then err (bad_request (t "bad field: " ++ c.field))
      else if not (is_op c.op)
      then err (bad_request (t "bad op: " ++ c.op))
      else ok tt

  unfoldable pub check_conditions : List Condition → AppResult (Unit {0})
  check_conditions [] = ok tt
  check_conditions (c ∷ cs) = elim (check_condition c) [
    | err e ↦ err e
    | ok _ ↦ check_conditions cs
  ]

  unfoldable pub check_rules : List Rule → AppResult (Unit {0})
  unfolding check_conditions
  check_rules [] = ok tt
  check_rules (r ∷ rs) = elim (check_conditions r.conditions) [
    | err e ↦ err e
    | ok _ ↦ check_rules rs
  ]

  unfoldable pub save_rules : RulesJson → List Rule → Action Db (Unit {0})
  save_rules json rules db = elim (check_rules rules) [
    | err e ↦ (err e, db)
    | ok _ ↦ (ok tt, set_setting ignore_key (json.print rules) db)
  ]

  compare_by : Text → F64 → F64 → Bool
  compare_by op lhs value =
      if text_eq op (t "lt")
      then fl.lt lhs value
      else if text_eq op (t "le")
      then fl.le lhs value
      else if text_eq op (t "gt")
      then fl.lt value lhs
      else if text_eq op (t "ge")
      then fl.le value lhs
      else false

  unfoldable pub cond_matches : F64 → F64 → Condition → Bool
  unfolding compare_by
  cond_matches miles minutes c =
      if text_eq c.field (t "miles")
      then compare_by c.op miles c.value
      else if text_eq c.field (t "minutes")
      then compare_by c.op minutes c.value
      else false

  unfoldable pub is_ignored : List Rule → F64 → F64 → Bool
  unfolding cond_matches
  is_ignored rules miles minutes =
      any
        (λ (r : Rule). not (is_empty r.conditions) && all (cond_matches miles minutes) r.conditions)
        rules
