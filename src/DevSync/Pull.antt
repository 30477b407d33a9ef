-- ===== src/DevSync/Pull.antt =====
-- src/devsync.rs, the workers' handling of a queued file, and src/ingest.rs below it. The answers of the device to
-- scp and the model's frames in an rlog (as the JSON text that is stored) are parameters; an error is logged, so
-- that only what is written and what is sent to the device is left of it.
pub mod Listing
use homeconnect.AppState.{AppState}
use homeconnect.DevSync.{remote_path, safe_component}
use homeconnect.DevSync.Options.{is_autoprune_enabled}
use homeconnect.DevSync.Remote.{IsPlainPath, maybe_prune, plain_remote}
use homeconnect.Ingest.{store}
use homeconnect.Logs.Decode.{Decoders}
use homeconnect.Logs.Rows.{Tables, parse_and_store, recompute_route, with_db}
use homeconnect.Prelude.{
  Action, AppResult, Bool-cases, List, Option, Option-cases, [], ap, arith, err, false,
  if◌then◌else◌, inl, inr, none, ok, refl, some, sym, true, ℕ, ◌++◌, ◌∙◌, ◌∷◌, ◌≡◌, ◌⊎◌,
}
use homeconnect.Prelude.Floats.{Floats}
use homeconnect.Prelude.Int.{ℤ}
use homeconnect.Prelude.Text.{Text, contains, t}
use homeconnect.Segments.{set_segment_file}
use homeconnect.Settings.{Config}
use homeconnect.Storage.{Bytes, blob_key, exists, get, put}
use homeconnect.SyncQueue.{QueueItem}
use mathlib.Core.Path.{subst}

module _ (fl : Floats) (lib : Decoders fl) (config : Config) (now : ℤ) where
  unfoldable pub register_segment_file :
      Text → Text → ℤ → Text → Bytes → Action (Tables fl) (Unit {0})
  register_segment_file dongle ts seg file body s =
      if contains (t "qlog") file
      then parse_and_store fl lib config now dongle ts seg file body s
      else (
        ok tt,
        recompute_route fl dongle ts
            (with_db fl (set_segment_file config now dongle ts seg file) s),
      )

  module _ (model_json : Text → Bytes → Option Bytes) where
    -- Nothing is stored for a log without frames.
    unfoldable pub parse_model_and_store : Text → Text → ℤ → Text → Bytes → Tables fl → Tables fl
    parse_model_and_store dongle ts seg file raw s = elim (model_json file raw) [
      | none ↦ s
      | some json ↦ record s {
        app = record s.app {
          blobs = put (blob_key dongle ts seg (t "model.json")) json s.app.blobs;
        };
      }
    ]

    -- A registered rlog is extracted, whatever becomes of the frames.
    unfoldable pub extract :
        ℕ
        → Text
        → Text
        → ℤ
        → Text
        → Bytes
        → AppResult (Unit {0}) × Tables fl
        → AppResult ℕ × Tables fl
    unfolding parse_model_and_store
    extract status dongle ts seg file body (err e, s) = (err e, s)
    extract status dongle ts seg file body (ok _, s) = (
      ok status,
      if contains (t "rlog") file then parse_model_and_store dongle ts seg file body s else s,
    )

    unfoldable pub register_stored :
        Text
        → Text
        → ℤ
        → Text
        → Bytes
        → Tables fl
        → AppResult ℕ × AppState
        → AppResult ℕ × Tables fl
    unfolding register_segment_file extract
    register_stored dongle ts seg file body s (err e, app) = (err e, record s { app = app })
    register_stored dongle ts seg file body s (ok status, app) =
        extract status dongle ts seg file body
          (register_segment_file dongle ts seg file body (record s { app = app }))

    unfoldable pub ingest_segment_file : Text → Text → ℤ → Text → Bytes → Action (Tables fl) ℕ
    unfolding register_stored
    ingest_segment_file dongle ts seg file body s =
        register_stored dongle ts seg file body s
          (store dongle (blob_key dongle ts seg file) body s.app)

    -- The commands that are sent: none, or the removal of the device's copy.
    unfoldable pub prune : QueueItem → Tables fl → List Text
    prune it s =
        elim (maybe_prune config s.app.db (exists s.app.blobs it.key) it.ts it.seg it.file) [
          | none ↦ []
          | some cmd ↦ cmd ∷ []
        ]

    unfoldable pub then_prune : QueueItem → AppResult (Unit {0}) × Tables fl → Tables fl × List Text
    unfolding prune
    then_prune it (ok _, s) = (s, prune it s)
    then_prune it (err e, s) = (s, [])

    unfoldable pub forget_status : AppResult ℕ × Tables fl → AppResult (Unit {0}) × Tables fl
    forget_status (ok _, s) = (ok tt, s)
    forget_status (err e, s) = (err e, s)

    -- What is on disk but not registered is registered from there.
    reconcile : QueueItem → Tables fl → Tables fl × List Text
    unfolding then_prune
    reconcile it s =
        if contains (t "qlog") it.file
        then (elim (get s.app.blobs it.key) [
          | none ↦ (s, [])
          | some body ↦ then_prune it (register_segment_file it.dongle it.ts it.seg it.file body s)
        ])
        else then_prune it (register_segment_file it.dongle it.ts it.seg it.file [] s)

    module _ (pull_file : Text → Text → Option Bytes) where
      unfoldable pub process_item : QueueItem → Tables fl → Tables fl × List Text
      unfolding reconcile then_prune forget_status
      process_item it s =
          if exists s.app.blobs it.key
          then reconcile it s
          else (elim (pull_file it.addr (remote_path it.ts it.seg it.file)) [
            | none ↦ (s, [])
            | some bytes ↦
                then_prune it
                  (forget_status (ingest_segment_file it.dongle it.ts it.seg it.file bytes s))
          ])

      prune_lem :
          (it : QueueItem) (s : Tables fl) (cmd : Text) (cmds : List Text)
          → prune it s ≡ cmd ∷ cmds
          → (is_autoprune_enabled config s.app.db ≡ true)
            × (exists s.app.blobs it.key ≡ true)
            × (safe_component it.file ≡ true)
            × (cmd ∷ cmds ≡ (t "rm -f '" ++ remote_path it.ts it.seg it.file ++ t "'") ∷ [])
      unfolding prune maybe_prune
      prune_lem it s cmd cmds h = elim (Bool-cases (is_autoprune_enabled config s.app.db)) [
        | inr a ↦ absurd (ground (arith, h, a))
        | inl a ↦ elim (Bool-cases (exists s.app.blobs it.key)) [
          | inr b ↦ absurd (ground (arith, h, a, b))
          | inl b ↦ elim (Bool-cases (safe_component it.file)) [
            | inr c ↦ absurd (ground (arith, h, a, b, c))
            | inl c ↦ (a, b, c, sym h ∙ ground (arith, a, b, c))
          ]
        ]
      ]

      -- What a worker promises about the commands that it sends.
      abbrev pub IsBackedUp : QueueItem → Tables fl → List Text → Type 0
      IsBackedUp it new cmds =
          (is_autoprune_enabled config new.app.db ≡ true)
          × (exists new.app.blobs it.key ≡ true)
          × (safe_component it.file ≡ true)
          × (cmds ≡ (t "rm -f '" ++ remote_path it.ts it.seg it.file ++ t "'") ∷ [])

      -- The same of the file's own key, and what is known of the path in the quotes.
      abbrev pub IsPruned : QueueItem → Tables fl → List Text → Type 0
      IsPruned it new cmds =
          (is_autoprune_enabled config new.app.db ≡ true)
          × (exists new.app.blobs (blob_key it.dongle it.ts it.seg it.file) ≡ true)
          × (safe_component it.file ≡ true)
          × (cmds ≡ (t "rm -f '" ++ remote_path it.ts it.seg it.file ++ t "'") ∷ [])
          × ((safe_component it.ts ≡ false) ⊎ IsPlainPath (remote_path it.ts it.seg it.file))

      pruned_path :
          (ts file : Text) (seg : ℤ)
          → safe_component file ≡ true
          → (safe_component ts ≡ false) ⊎ IsPlainPath (remote_path ts seg file)
      pruned_path ts file seg h = elim (Bool-cases (safe_component ts)) [
        | inl y ↦ inr (plain_remote ts file seg y h)
        | inr n ↦ inl n
      ]

      IsBackedUp-IsPruned :
          (it : QueueItem) (new : Tables fl) (cmds : List Text)
          → it.key ≡ blob_key it.dongle it.ts it.seg it.file
          → IsBackedUp it new cmds
          → IsPruned it new cmds
      IsBackedUp-IsPruned it new cmds k (a, b, c, d) = (
        a,
        subst (λ key. exists new.app.blobs key ≡ true) k b,
        c,
        d,
        pruned_path it.ts it.file it.seg c,
      )

      then_prune-IsBackedUp :
          (it : QueueItem) (r : AppResult (Unit {0}) × Tables fl) (new : Tables fl) (cmd : Text)
          (cmds : List Text)
          → then_prune it r ≡ (new, cmd ∷ cmds)
          → IsBackedUp it new (cmd ∷ cmds)
      unfolding then_prune
      then_prune-IsBackedUp it (err e, s) new cmd cmds h = absurd (ground (arith, h))
      then_prune-IsBackedUp it (ok _, s) new cmd cmds h =
          let e : s ≡ new = ap (λ p. p.0) h in
          subst (λ n. IsBackedUp it n (cmd ∷ cmds)) e (prune_lem it s cmd cmds (ap (λ p. p.1) h))

      reconcile_prunes :
          (it : QueueItem) (s new : Tables fl) (cmd : Text) (cmds : List Text)
          → reconcile it s ≡ (new, cmd ∷ cmds)
          → IsBackedUp it new (cmd ∷ cmds)
      unfolding reconcile
      reconcile_prunes it s new cmd cmds h = elim (Bool-cases (contains (t "qlog") it.file)) [
        | inl q ↦ elim (Option-cases (get s.app.blobs it.key)) [
          | inl n ↦ absurd (ground (arith, h, q, n))
          | inr (body, n) ↦
              let r : AppResult (Unit {0}) × Tables fl =
                register_segment_file it.dongle it.ts it.seg it.file body s in
              let e : reconcile it s ≡ then_prune it r = rw (q, reconcile, n) refl in
              then_prune-IsBackedUp it r new cmd cmds (sym e ∙ h)
        ]
        | inr q ↦
            let r : AppResult (Unit {0}) × Tables fl =
              register_segment_file it.dongle it.ts it.seg it.file [] s in
            let e : reconcile it s ≡ then_prune it r = rw (q, reconcile) refl in
            then_prune-IsBackedUp it r new cmd cmds (sym e ∙ h)
      ]

      -- A worker that was given a file under its own key sends the device a command only if automatic pruning is on, the
      -- file's name is plain and the file is in the store after the worker has handled it. It sends one command, which is
      -- `rm -f` of the file's path in single quotes. If the drive's timestamp is plain as well, which the worker does not
      -- check, then the path has no quote and no other character that the shell reads.
      pub process_item_prunes :
          (it : QueueItem) (s new : Tables fl) (cmd : Text) (cmds : List Text)
          → it.key ≡ blob_key it.dongle it.ts it.seg it.file
          → process_item it s ≡ (new, cmd ∷ cmds)
          → IsPruned it new (cmd ∷ cmds)
      unfolding process_item
      process_item_prunes it s new cmd cmds k h = elim (Bool-cases (exists s.app.blobs it.key)) [
        | inl x ↦
            let e : process_item it s ≡ reconcile it s = rw (x, process_item) refl in
            IsBackedUp-IsPruned it new (cmd ∷ cmds) k
              (reconcile_prunes it s new cmd cmds (sym e ∙ h))
        | inr x ↦ elim (Option-cases (pull_file it.addr (remote_path it.ts it.seg it.file))) [
          | inl n ↦ absurd (ground (arith, h, x, n))
          | inr (bytes, n) ↦
              let r : AppResult (Unit {0}) × Tables fl =
                forget_status (ingest_segment_file it.dongle it.ts it.seg it.file bytes s) in
              let e : process_item it s ≡ then_prune it r = rw (x, process_item, n) refl in
              IsBackedUp-IsPruned it new (cmd ∷ cmds) k
                (then_prune-IsBackedUp it r new cmd cmds (sym e ∙ h))
        ]
      ]
