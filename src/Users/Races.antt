-- ===== src/Users/Races.antt =====
-- Two admin requests at once. The check and the write of a handler are separate statements with no
-- transaction round them, so another handler's statements may run in between.
use homeconnect.Db.{Db, User, user_by_identity_row}
use homeconnect.Prelude.{
  List, Option, [], arith, false, find, none, ok, refl, some, update_where, ◌>>=◌, ◌∷◌, ◌≡◌, ◌≢◌,
}
use homeconnect.Prelude.Text.{Text, text_eq, text_eq_iff}
use homeconnect.Users.{UpdateUserReq, admin_count, new_role, set_role, update_check}
use homeconnect.Users.Rows.{DistinctIdentities, admins-changed, changed-DistinctIdentities}

abbrev demotion : UpdateUserReq
demotion = record { is_admin = some false; email = none }

find_other :
    (i j : Text) (email : Option Text) (us : List User) (b : User)
    → i ≢ j
    → find (λ (v : User). text_eq v.identity j) us ≡ some b
    → find
        (λ (v : User). text_eq v.identity j)
        (update_where (λ (v : User). text_eq v.identity i) (new_role false email) us)
      ≡ some b
find_other i j email [] b n h = ground arith
find_other i j email (v ∷ us) b n h =
    ground (arith, find_other i j email us b n, text_eq_iff v.identity i, text_eq_iff v.identity j)

-- Two demotions that interleave leave no admin: whenever a database with distinct identities has
-- exactly two admins, the checks of both demotions pass on it, and after the two writes there is none.
pub demotions_race :
    (db : Db) (i j : Text) (a b caller : User)
    → DistinctIdentities db.users
    → admin_count db ≡ 2
    → i ≢ j
    → user_by_identity_row i db ≡ some a
    → user_by_identity_row j db ≡ some b
    → a.is_admin ≡ 1
    → b.is_admin ≡ 1
    → caller.is_admin ≡ 1
    → (update_check i caller demotion db ≡ (ok (false, a.email), db))
      × (update_check j caller demotion db ≡ (ok (false, b.email), db))
      × (admin_count (set_role j false b.email (set_role i false a.email db)) ≡ 0)
unfolding update_check admin_count user_by_identity_row ◌>>=◌
demotions_race db i j a b caller d c n ea eb fa fb fc = (
  ground arith,
  ground arith,
  ground (
    arith,
    admins-changed i (new_role false a.email) db.users a d ea,
    admins-changed j (new_role false b.email)
        (update_where (λ (v : User). text_eq v.identity i) (new_role false a.email) db.users) b
        (changed-DistinctIdentities i (new_role false a.email) (λ u. refl) db.users d)
        (find_other i j a.email db.users b n eb),
  ),
)
