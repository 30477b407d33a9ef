-- ===== src/Transcode/Devices.antt =====
-- src/transcode.rs: the devices that can be selected, and the selection of one by an admin (src/api/settings.rs). The
-- render nodes in their order, the Nvidia tools' answers and what vainfo prints are parameters.
use homeconnect.Admin.{set_transcode}
use homeconnect.Db.{Db, User, set_setting}
use homeconnect.Db.Keys.{get_setting-set_setting}
use homeconnect.DevSync.Options.{listed}
use homeconnect.Prelude.{
  AppError, Bool, Bool-cases, List, Option, [], ap, arith, bad_request, err, false, find, forbidden,
  if◌then◌else◌, inl, inr, is_empty, map, none, not, refl, some, true, unwrap_or, ◌&&◌, ◌++◌, ◌==◌,
  ◌>>=◌, ◌∷◌, ◌≡◌, ◌⊎◌,
}
use homeconnect.Prelude.Split.{rsplit_once, split_once}
use homeconnect.Prelude.Text.{Text, contains, t, text_eq, text_eq_iff, text_eq_refl, trim}
use homeconnect.Subs.Vtt.{lines, split_at}
use homeconnect.Transcode.{current_device}
use homeconnect.Admin.{require_admin}

pub record DeviceOption : Type 0 where
  pub value : Text
  pub label : Text
  pub encodes : Bool

-- dev.rsplit('/').next()
unfoldable pub node_of : Text → Text
node_of dev = elim (rsplit_once (t "/") dev) [ none ↦ dev | some (a, b) ↦ b ]

unfoldable pub probe_nvenc : Bool → Bool → Option Text → Text → Text × Bool
unfolding node_of
probe_nvenc has_encoder runtime name dev =
    let suffix =
      if not has_encoder
      then t " (ffmpeg lacks h264_nvenc)"
      else if not runtime
      then t " (Nvidia runtime unavailable)"
      else [] in
    (
      unwrap_or name (t "NVIDIA GPU") ++ t " NVENC (" ++ node_of dev ++ t ")" ++ suffix,
      has_encoder && runtime,
    )

-- line.split(" for ").nth(1), up to a parenthesis
unfoldable pub named_driver : Text → Option Text
named_driver line = elim (split_at (t " for ") line) [
  | none ↦ none
  | some (a, rest) ↦
      let part = elim (split_at (t " for ") rest) as (λ x. Text) [
        | none ↦ rest
        | some (b, c) ↦ b
      ] in
      some (trim (elim (split_once b'(' part) as (λ x. Text) [ none ↦ part | some (b, c) ↦ b ]))
]

unfoldable pub probe_vaapi : Option Text → Text → Text × Bool
unfolding node_of named_driver
probe_vaapi none dev = (node_of dev ++ t " (unavailable)", false)
probe_vaapi (some text) dev =
    let node = node_of dev in
    let name = elim (find (contains (t "Driver version")) (lines text)) as (λ x. Text) [
      | none ↦ node
      | some line ↦ elim (named_driver line) [
        | some n ↦ if is_empty n then node else n
        | none ↦ if contains (t "Intel") line then t "Intel GPU" else node
      ]
    ] in
    (
      name ++ t " (" ++ node ++ t ")",
      contains (t "VAProfileH264") text && contains (t "EncSlice") text,
    )

module _ (is_nvidia : Text → Bool) (has_nvenc runtime : Bool) (name : Option Text)
    (vainfo : Text → Option Text) where
  unfoldable pub probe_node : Text → DeviceOption
  unfolding probe_nvenc probe_vaapi
  probe_node dev =
      let (label, encodes) =
        if is_nvidia dev
        then probe_nvenc has_nvenc runtime name dev
        else probe_vaapi (vainfo dev) dev in
      record { value = dev; label = label; encodes = encodes }

  unfoldable pub probe_devices : List Text → List DeviceOption
  unfolding probe_node
  probe_devices nodes =
      record { value = t "cpu"; label = t "CPU (libx264, ultrafast)"; encodes = true }
      ∷ map probe_node nodes

  values_of_nodes :
      (nodes : List Text) → map (λ (o : DeviceOption). o.value) (map probe_node nodes) ≡ nodes
  unfolding probe_node
  values_of_nodes [] = refl
  values_of_nodes (n ∷ nodes) = ap (λ x. n ∷ x) (values_of_nodes nodes)

  selected :
      (device : Text) (seed : Option Text) (db : Db)
      → current_device seed (set_setting (t "transcode_device") device db)
        ≡ (if text_eq device (t "cpu") then none else if is_empty device then seed else some device)
  unfolding current_device
  selected device seed db =
      rw
        (
          get_setting-set_setting (t "transcode_device") (t "transcode_device") device db,
          text_eq_refl (t "transcode_device"),
          current_device,
        )
        refl

  nonempty :
      (nodes : List Text) (device : Text)
      → listed nodes [] ≡ false
      → listed nodes device ≡ true
      → is_empty device ≡ false
  nonempty nodes [] h k = ground (arith, h, k)
  nonempty nodes (c ∷ d) h k = refl

  not_cpu : (device : Text) → text_eq device (t "cpu") ≡ false → text_eq (t "cpu") device ≡ false
  not_cpu device c = elim (Bool-cases (text_eq (t "cpu") device)) [
    | inl e ↦ grind (arith, c, text_eq_iff (t "cpu") device, text_eq_iff device (t "cpu"))
    | inr n ↦ n
  ]

  -- Selecting a device either is refused and changes nothing, or was asked for by an admin, for the CPU or a render
  -- node of the server; then that device is the one that the next transcode uses, whatever the environment says. The
  -- paths of the nodes are not empty.
  pub set_transcode_lem :
      (nodes : List Text) (user : User) (device : Text) (seed : Option Text) (db : Db)
      → listed nodes [] ≡ false
      → let r =
          set_transcode
            (map (λ (o : DeviceOption). o.value) (probe_devices nodes))
            user
            device
            db in
        ((e : AppError) × (r ≡ (err e, db)))
        ⊎ ((user.is_admin == 0) ≡ false
            × ((text_eq device (t "cpu") ≡ true × (current_device seed r.1 ≡ none))
                ⊎ ((listed nodes device ≡ true) × (current_device seed r.1 ≡ some device))))
  unfolding set_transcode require_admin ◌>>=◌ probe_devices
  set_transcode_lem nodes user device seed db h = elim (Bool-cases (user.is_admin == 0)) [
    | inl n ↦ inl (forbidden (t "admin required"), rw (n, set_transcode) refl)
    | inr n ↦ elim (Bool-cases (text_eq device (t "cpu"))) [
      | inl c ↦ inr (n, inl (c, rw (n, set_transcode, c) (rw (selected device seed db, c) refl)))
      | inr c ↦ elim (Bool-cases (listed nodes device)) [
        | inl l ↦
            let e : listed (map (λ (o : DeviceOption). o.value) (probe_devices nodes)) device
                ≡ true =
              rw (values_of_nodes nodes) (ground (arith, l)) in
            inr (
              n,
              inr (
                l,
                rw (n, set_transcode, c, e)
                    (rw (selected device seed db, c, nonempty nodes device h l) refl),
              ),
            )
        | inr l ↦
            let f = not_cpu device c in
            let e : listed (map (λ (o : DeviceOption). o.value) (probe_devices nodes)) device
                ≡ false =
              rw (values_of_nodes nodes) (rw f l) in
            inl (bad_request (t "unknown transcode device"), rw (n, set_transcode, c, e) refl)
      ]
    ]
  ]
