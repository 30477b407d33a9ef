-- ===== src/Db/Keys.antt =====
-- Reading a table after a statement has written it.
use homeconnect.Db.{Db, get_setting, insert_share, is_shared, set_setting}
use homeconnect.Prelude.{arith, if◌then◌else◌, some, true, ℕ, ◌&&◌, ◌==◌, ◌≡◌}
use homeconnect.Prelude.Containers.{get-insert}
use homeconnect.Prelude.Text.{Text, text_eq, text_eq_iff}

pub get_setting-set_setting :
    (k j v : Text) (db : Db)
    → get_setting j (set_setting k v db) ≡ (if text_eq k j then some v else get_setting j db)
unfolding get_setting set_setting
get_setting-set_setting k j v db = get-insert k j v db.settings

pub is_shared-insert_share :
    (i j : ℕ) (d e : Text) (db : Db)
    → is_shared j e (insert_share i d db)
      ≡ (if i == j && text_eq d e then true else is_shared j e db)
unfolding is_shared insert_share
is_shared-insert_share i j d e db = ground (arith, text_eq_iff d e)
