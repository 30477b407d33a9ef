-- ===== src/DevSync/Options.antt =====
-- The settings of src/devsync.rs: the switches, the interval, and the file types to pull.
-- OPTIONAL_TYPES
use homeconnect.Db.{Db, Route, get_setting, set_setting}
use homeconnect.Prelude.{
  Bool, List, Option, [], any, find, if◌then◌else◌, is_empty, none, not, select, some, unwrap_or,
  update_where, ℕ, ◌∷◌,
}
use homeconnect.Prelude.Split.{join, split}
use homeconnect.Prelude.Text.{Text, t, text_eq}
use homeconnect.Settings.{Config, get_secs, get_toggle, set_secs, set_toggle}

abbrev pub optional_types : List Text
optional_types = t "qcamera" ∷ t "fcamera" ∷ t "dcamera" ∷ t "ecamera" ∷ t "rlog" ∷ []

unfoldable pub is_enabled : Config → Db → Bool
is_enabled config db = get_toggle (t "sync_enabled") config.sync_enabled db

unfoldable pub set_enabled : Bool → Db → Db
set_enabled on db = set_toggle (t "sync_enabled") on db

unfoldable pub get_interval : Config → Db → ℕ
get_interval config db = get_secs (t "sync_interval") config.sync_interval_secs db

unfoldable pub set_interval : ℕ → Db → Db
set_interval secs db = set_secs (t "sync_interval") secs db

unfoldable pub is_autoprune_enabled : Config → Db → Bool
is_autoprune_enabled config db = get_toggle (t "device_autoprune") config.device_autoprune db

unfoldable pub set_autoprune : Bool → Db → Db
set_autoprune on db = set_toggle (t "device_autoprune") on db

-- types.iter().any(|x| x == ty)
abbrev pub listed : List Text → Text → Bool
listed types ty = any (λ x. text_eq x ty) types

unfoldable pub all_types : List Text
all_types = optional_types

unfoldable pub clean_types : List Text → List Text
clean_types types = select (listed types) optional_types

-- s.split(',').filter(|x| !x.is_empty())
unfoldable pub parse_types : Text → List Text
parse_types s = select (λ x. not (is_empty x)) (split b',' s)

unfoldable pub get_sync_types : Config → Db → List Text
unfolding parse_types all_types
get_sync_types config db = elim (get_setting (t "sync_types") db) [
  | some s ↦ parse_types s
  | none ↦ if config.sync_fullres then all_types else t "qcamera" ∷ []
]

unfoldable pub set_sync_types : List Text → Db → Db
unfolding clean_types
set_sync_types types db = set_setting (t "sync_types") (join b',' (clean_types types)) db

-- `get_route_override`: no row and NULL inherit.
unfoldable pub get_route_override : Text → Db → Option (List Text)
unfolding parse_types
get_route_override fullname db =
    elim (find (λ (r : Route). text_eq r.fullname fullname) db.routes) [
      | none ↦ none
      | some r ↦ elim r.sync_types [ none ↦ none | some s ↦ some (parse_types s) ]
    ]

unfoldable pub effective_route_types : Config → Text → Db → List Text
unfolding get_route_override get_sync_types
effective_route_types config fullname db =
    unwrap_or (get_route_override fullname db) (get_sync_types config db)

unfoldable pub joined : Option (List Text) → Option Text
unfolding clean_types
joined none = none
joined (some types) = some (join b',' (clean_types types))

unfoldable pub set_route_override : Text → Option (List Text) → Db → Db
unfolding joined
set_route_override fullname types db = record db {
  routes =
      update_where (λ (r : Route). text_eq r.fullname fullname)
        (λ r. record r { sync_types = joined types }) db.routes;
}
