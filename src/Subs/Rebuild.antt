-- ===== src/Subs/Rebuild.antt =====
-- src/subs.rs, rebuild_all: what the sweeps after it transcribe.
use homeconnect.AppState.{AppState}
use homeconnect.Db.{Db, Sub, User}
use homeconnect.Prelude.{
  Action, All, All-find, Bool, Bool-cases, List, Option-cases, [], ap, arith, delete_where, err,
  false, find, find_sound, forbidden, if◌then◌else◌, inl, inr, is_some, length, none, ok, refl,
  select, some, true, ℕ, ◌&&◌, ◌==◌, ◌∙◌, ◌∷◌, ◌≡◌, ◌⊎◌,
}
use homeconnect.Prelude.Split.{split_once}
use homeconnect.Prelude.Text.{Text, t, text_eq}
use homeconnect.Storage.{BlobStore, delete, fullname_of}
use homeconnect.Subs.{audio_coverage, needs_subs, sub_row, subs_key, subs_skips}
use homeconnect.Subs.Lifecycle.{is_audible, needs_subs_audible}
use homeconnect.Admin.{require_admin}

-- The blobs of the rows that are not disabled.
unfoldable pub clear_subs : List Sub → BlobStore → BlobStore
clear_subs [] blobs = blobs
clear_subs (s ∷ ss) blobs = clear_subs ss (elim (split_once b'|' s.fullname) [
  | none ↦ blobs
  | some (dongle, ts) ↦ delete (subs_key dongle ts) blobs
])

unfoldable pub rebuild_all : AppState → ℕ × AppState
unfolding clear_subs
rebuild_all state =
    let rows = select (λ (s : Sub). s.disabled == 0) state.db.subs in
    (
      length rows,
      record state {
        blobs = clear_subs rows state.blobs;
        db = record state.db { subs = delete_where (λ (s : Sub). s.disabled == 0) state.db.subs };
      },
    )

-- POST /v1/admin/subs/rebuild of src/api/settings.rs
unfoldable pub rebuild_subs : User → Action AppState ℕ
unfolding rebuild_all
rebuild_subs user state = elim (require_admin user) [
  | err e ↦ (err e, state)
  | ok u ↦ let (cleared, new) = rebuild_all state in (ok cleared, new)
]

-- The rows of a drive have this flag.
abbrev pub IsFlagged : Text → ℕ → Db → Type 0
IsFlagged fullname d db =
    All (λ (s : Sub). text_eq s.fullname fullname ≡ true → s.disabled ≡ d) db.subs

row_deleted :
    (fullname : Text) (ss : List Sub)
    → All (λ (s : Sub). text_eq s.fullname fullname ≡ true → s.disabled ≡ 0) ss
    → find
        (λ (s : Sub). text_eq s.fullname fullname)
        (delete_where (λ (s : Sub). s.disabled == 0) ss)
      ≡ none
row_deleted fullname [] a = refl
row_deleted fullname (s ∷ ss) a = elim (Bool-cases (text_eq s.fullname fullname)) [
  | inl y ↦ rw (a.0 y) (row_deleted fullname ss a.1)
  | inr n ↦ ground (arith, n, row_deleted fullname ss a.1)
]

row_kept :
    (fullname : Text) (ss : List Sub)
    → All (λ (s : Sub). text_eq s.fullname fullname ≡ true → s.disabled ≡ 1) ss
    → find
        (λ (s : Sub). text_eq s.fullname fullname)
        (delete_where (λ (s : Sub). s.disabled == 0) ss)
      ≡ find (λ (s : Sub). text_eq s.fullname fullname) ss
row_kept fullname [] a = refl
row_kept fullname (s ∷ ss) a = elim (Bool-cases (text_eq s.fullname fullname)) [
  | inl y ↦ rw (a.0 y, y) refl
  | inr n ↦ ground (arith, n, row_kept fullname ss a.1)
]

needs_subs-rebuild_all :
    (state : AppState) (dongle ts : Text) (deleted : Bool)
    → IsFlagged (fullname_of dongle ts) (if deleted then 1 else 0) state.db
    → needs_subs (rebuild_all state).1 (fullname_of dongle ts) dongle ts ≡ (
        if deleted && is_some (sub_row (fullname_of dongle ts) state.db)
        then false
        else is_audible state.db (fullname_of dongle ts))
unfolding rebuild_all sub_row subs_skips audio_coverage
needs_subs-rebuild_all state dongle ts false a =
    needs_subs_audible (rebuild_all state).1 (fullname_of dongle ts) dongle ts
    ∙ ground (arith, row_deleted (fullname_of dongle ts) state.db.subs a)
needs_subs-rebuild_all state dongle ts true a =
    let p : Sub → Bool = λ x. text_eq x.fullname (fullname_of dongle ts) in
    let e = needs_subs_audible (rebuild_all state).1 (fullname_of dongle ts) dongle ts in
    elim (Option-cases (sub_row (fullname_of dongle ts) state.db)) [
      | inl n ↦ e ∙ ground (arith, row_kept (fullname_of dongle ts) state.db.subs a, n)
      | inr (s, h) ↦
          let d : s.disabled ≡ 1 =
            All-find (λ (x : Sub). p x ≡ true → x.disabled ≡ 1) p state.db.subs s a h
              (find_sound p state.db.subs h) in
          e ∙ ground (arith, row_kept (fullname_of dongle ts) state.db.subs a, h, d)
    ]

-- After an admin's rebuild a sweep transcribes a drive whose subtitles the user has not deleted exactly when the
-- audio covers every segment of it, whatever was recorded before; and a drive whose subtitles the user has deleted
-- is not transcribed. The rows of the drive, if there are several, have to agree on that. Anyone else is refused
-- and changes nothing.
pub rebuild_subs_lem :
    (user : User) (state : AppState) (dongle ts : Text) (deleted : Bool)
    → IsFlagged (fullname_of dongle ts) (if deleted then 1 else 0) state.db
    → ((user.is_admin ≡ 0)
        × (rebuild_subs user state ≡ (err (forbidden (t "admin required")), state)))
      ⊎ (((user.is_admin == 0) ≡ false)
          × (needs_subs (rebuild_subs user state).1 (fullname_of dongle ts) dongle ts ≡ (
              if deleted && is_some (sub_row (fullname_of dongle ts) state.db)
              then false
              else is_audible state.db (fullname_of dongle ts))))
unfolding rebuild_subs require_admin
rebuild_subs_lem user state dongle ts deleted a = elim (Bool-cases (user.is_admin == 0)) [
  | inl n ↦ inl (ground (arith, n), rw (n, rebuild_subs) refl)
  | inr n ↦
      let e : (rebuild_subs user state).1 ≡ (rebuild_all state).1 = rw (n, rebuild_subs) refl in
      inr (
        n,
        ap (λ x. needs_subs x (fullname_of dongle ts) dongle ts) e
            ∙ needs_subs-rebuild_all state dongle ts deleted a,
      )
]
