-- ===== src/Ingest/Uploads.antt =====
-- What an upload may change.
use homeconnect.Access.{Auth}
use homeconnect.AppState.{AppState}
use homeconnect.Ingest.{add_storage, created, require_device, store, upload_driving}
use homeconnect.Prelude.{
  AppError, Bool-cases, Option-cases, ap, arith, err, false, forbidden, inl, inr, length, none, ok,
  refl, some, true, ◌>>=◌, ◌≡◌, ◌≢◌, ◌⊎◌,
}
use homeconnect.Prelude.Containers.{map_get}
use homeconnect.Prelude.Int.{ℤ}
use homeconnect.Prelude.Text.{Text, t, text_eq, text_eq_iff}
use homeconnect.Settings.{Config}
use homeconnect.Storage.{Bytes, blob_key, exists, get, path_for, with_part}
use homeconnect.Storage.Laws.{get-put}

module _ (config : Config) (now : ℤ)
    (parse_and_store : Text → Text → ℤ → Text → Bytes → AppState → AppState)
    (recompute_route : Text → Text → AppState → AppState) where
  -- A driving-log upload by anyone but the device itself is refused and changes nothing; a second upload of
  -- a stored segment file is refused as Forbidden and changes nothing; the device's first upload of a
  -- segment file is Created.
  pub upload_driving_lem :
      (dongle ts file : Text) (seg : ℤ) (auth : Auth) (body : Bytes) (state : AppState)
      → ((e : AppError)
          → require_device auth dongle ≡ err e
          → upload_driving config now parse_and_store recompute_route dongle ts seg file auth body
              state
            ≡ (err e, state))
        × (require_device auth dongle ≡ ok tt
            → exists state.blobs (blob_key dongle ts seg file) ≡ true
            → upload_driving config now parse_and_store recompute_route dongle ts seg file auth body
                state
              ≡ (err (forbidden (t "file already uploaded")), state))
        × (require_device auth dongle ≡ ok tt
            → exists state.blobs (blob_key dongle ts seg file) ≡ false
            → (upload_driving config now parse_and_store recompute_route dongle ts seg file auth
                body state).0
              ≡ ok created)
  unfolding upload_driving store ◌>>=◌
  upload_driving_lem dongle ts file seg auth body state = (
    λ e h. rw (h, upload_driving) refl,
    λ h k. rw (h, upload_driving, k, store) refl,
    λ h k. rw (h, upload_driving, k, store) refl,
  )

-- `store` never overwrites: a blob that was there reads as before, unless its path is the temporary file of
-- the new one. A refused body changes nothing; an accepted one is read back, and counts to the device's storage.
pub store_lem :
    (dongle key j : Text) (body : Bytes) (state : AppState)
    → ((path_for state.blobs j ≡ with_part (path_for state.blobs key))
        ⊎ (get state.blobs j ≡ none)
        ⊎ (get (store dongle key body state).1.blobs j ≡ get state.blobs j))
      × (((e : AppError) × (store dongle key body state ≡ (err e, state)))
          ⊎ (((store dongle key body state).0 ≡ ok created)
              × (get (store dongle key body state).1.blobs key ≡ some body)
              × ((store dongle key body state).1.db ≡ add_storage dongle (length body) state.db)))
unfolding store
store_lem dongle key j body state = elim (Bool-cases (exists state.blobs key)) [
  | inl y ↦ (
    inr (inr (rw (y, store) refl)),
    inl (forbidden (t "file already uploaded"), rw (y, store) refl),
  )
  | inr n ↦
      let (self, _, kept) = get-put state.blobs key j body in
      (
        elim (Bool-cases
            (text_eq (path_for state.blobs j) (with_part (path_for state.blobs key)))) [
              | inl y ↦ inl (
                  (text_eq_iff (path_for state.blobs j) (with_part (path_for state.blobs key))).0 y)
              | inr m ↦ elim (Option-cases (get state.blobs j)) [
                | inl g ↦ inr (inl g)
                | inr (old, g) ↦ inr (inr (rw (n, store) (kept (differs old n g) (apart m))))
              ]
            ],
        inr (rw (n, store) (refl, self, refl)),
      )
]
  where
    differs :
        (old : Bytes)
        → exists state.blobs key ≡ false
        → get state.blobs j ≡ some old
        → path_for state.blobs j ≢ path_for state.blobs key
    differs old n h p =
        unfold exists get in ground (arith, n, h, ap (λ q. map_get q state.blobs.files) p)

    apart :
        text_eq (path_for state.blobs j) (with_part (path_for state.blobs key)) ≡ false
        → path_for state.blobs j ≢ with_part (path_for state.blobs key)
    apart m p = ground (
      arith,
      m,
      (text_eq_iff (path_for state.blobs j) (with_part (path_for state.blobs key))).1 p,
    )
