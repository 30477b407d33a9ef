-- ===== src/Logs/Sampling.antt =====
-- Telemetry is thinned: a bound on the samples of a drive, over src/parse.rs.
use homeconnect.Logs.{
  CarState, Which, can, car_params, car_state, device_state, driver_monitoring_state, gps_location,
  init_data, selfdrive_state, selfdrive_state_sp, thumbnail, unread,
}
use homeconnect.Logs.Accumulate.{
  Accum, Engagement, emit_state_change, new_accum, same_state, u64_max,
}
use homeconnect.Logs.Messages.{
  accumulate, accumulate_all, has_gps_fix, on_car_state, on_which, telem_of, telem_step,
}
use homeconnect.Prelude.{
  All, Bool-cases, List, [], arith, inl, inr, length, length-append, none, some, ℕ, ◌*◌, ◌<◌, ◌||◌,
  ◌∷◌, ◌≤◌,
}
use homeconnect.Prelude.Floats.{Floats}

module _ (fl : Floats) where
  open fl use {F64, F32}

  -- The samples so far lie a step apart, and the last one at or before `limit`.
  abbrev ThinTo : ℕ → Accum fl → Type 0
  ThinTo limit acc =
      (length acc.telemetry * telem_step ≤ acc.last_telem_mono) × (acc.last_telem_mono ≤ limit)

  emit-ThinTo :
      (limit : ℕ) (time : F64) (mono : ℕ) (acc : Accum fl)
      → ThinTo limit acc
      → ThinTo limit (emit_state_change fl time mono acc)
  unfolding emit_state_change
  emit-ThinTo limit time mono acc h =
      let g : Engagement = acc.engagement in
      elim (Bool-cases (same_state acc.last_state (g.cur_engaged || g.cur_lat) g.cur_alert)) [
        | inl e ↦ rw e h
        | inr e ↦ rw e h
      ]

  car_state-ThinTo :
      (limit : ℕ) (time : F64) (mono : ℕ) (cs : CarState fl) (acc : Accum fl)
      → mono ≤ limit
      → limit < u64_max
      → ThinTo limit acc
      → ThinTo limit (on_car_state fl time mono cs acc)
  unfolding on_car_state
  car_state-ThinTo limit time mono cs acc m u h =
      ground (arith, length-append acc.telemetry (telem_of fl time cs acc ∷ []))

  on_which-ThinTo :
      (limit : ℕ) (time : F64) (mono : ℕ) (w : Which fl) (acc : Accum fl)
      → mono ≤ limit
      → limit < u64_max
      → ThinTo limit acc
      → ThinTo limit (on_which fl time mono w acc)
  unfolding on_which
  on_which-ThinTo limit time mono (gps_location g) acc m u h =
      elim (Bool-cases (has_gps_fix fl g)) [ inl e ↦ rw e h | inr e ↦ rw e h ]
  on_which-ThinTo limit time mono (device_state temp fsp mem) acc m u h = h
  on_which-ThinTo limit time mono (car_params none) acc m u h = h
  on_which-ThinTo limit time mono (car_params (some s)) acc m u h = h
  on_which-ThinTo limit time mono (init_data d) acc m u h = h
  on_which-ThinTo limit time mono (selfdrive_state ss) acc m u h = emit-ThinTo limit time mono _ h
  on_which-ThinTo limit time mono (selfdrive_state_sp none) acc m u h = h
  on_which-ThinTo limit time mono (selfdrive_state_sp (some active)) acc m u h =
      emit-ThinTo limit time mono _ h
  on_which-ThinTo limit time mono (driver_monitoring_state dm) acc m u h = h
  on_which-ThinTo limit time mono (car_state cs) acc m u h =
      car_state-ThinTo limit time mono cs acc m u h
  on_which-ThinTo limit time mono can acc m u h = h
  on_which-ThinTo limit time mono (thumbnail none) acc m u h = h
  on_which-ThinTo limit time mono (thumbnail (some bytes)) acc m u h = h
  on_which-ThinTo limit time mono unread acc m u h = h

  accumulate_all-ThinTo :
      (limit : ℕ) (ms : List (Which fl × ℕ)) (acc : Accum fl)
      → All (λ m. m.1 ≤ limit) ms
      → limit < u64_max
      → ThinTo limit acc
      → ThinTo limit (accumulate_all fl ms acc)
  unfolding accumulate_all
  accumulate_all-ThinTo limit [] acc m u h = h
  accumulate_all-ThinTo limit ((w, mono) ∷ ms) acc m u h =
      accumulate_all-ThinTo limit ms (accumulate fl w mono acc) m.1 u
        (on_which-ThinTo limit _ mono w _ m.0 u h)

  -- A log whose messages all have a mono time of at most `limit` ns (below the largest u64) yields at most one
  -- telemetry sample for each 250 ms up to `limit`, in whatever order the messages come.
  pub telemetry_bound :
      (limit : ℕ) (ms : List (Which fl × ℕ))
      → All (λ m. m.1 ≤ limit) ms
      → limit < u64_max
      → length (accumulate_all fl ms (new_accum fl)).telemetry * telem_step ≤ limit
  unfolding new_accum
  telemetry_bound limit ms m u =
      let h : ThinTo limit (accumulate_all fl ms (new_accum fl)) =
        accumulate_all-ThinTo limit ms (new_accum fl) m u (omega arith, omega arith) in
      omega arith
