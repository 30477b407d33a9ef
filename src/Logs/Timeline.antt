-- ===== src/Logs/Timeline.antt =====
-- The state events of a drive make a timeline, and telemetry is thin: theorems on src/parse.rs.
use homeconnect.Logs.{
  DriveEvent, Which, can, car_params, car_state, device_state, driver_monitoring_state,
  gps_location, init_data, selfdrive_state, selfdrive_state_sp, thumbnail, unread,
}
use homeconnect.Logs.Accumulate.{
  Accum, Engagement, close_last, emit_state_change, new_accum, same_state, state_event,
}
use homeconnect.Logs.Messages.{accumulate, accumulate_all, has_gps_fix, on_which}
use homeconnect.Prelude.{
  Bool, Bool-cases, List, Option, [], ap, arith, false, inl, inr, none, refl, some, sym, ℕ, ◌++◌,
  ◌||◌, ◌∷◌, ◌≡◌,
}
use homeconnect.Prelude.Floats.{Floats}
use homeconnect.Prelude.Int.{ℤ}
use mathlib.Core.Path.{subst}

-- The state that an event reports.
abbrev state_of : DriveEvent → Bool × ℕ
state_of e = (e.payload.enabled, e.payload.alert_status)

-- The events but the last end where the next begins and report another state than the next; the last one is
-- open and reports `last`.
abbrev pub Chain : DriveEvent → List DriveEvent → Option (Bool × ℕ) → Type 0
Chain e [] last = (e.payload.end_route_offset_millis ≡ none) × (last ≡ some (state_of e))
Chain e (f ∷ es) last =
    (e.payload.end_route_offset_millis ≡ some f.route_offset_millis)
    × (same_state (some (state_of e)) f.payload.enabled f.payload.alert_status ≡ false)
    × Chain f es last

abbrev pub IsTimeline : List DriveEvent → Option (Bool × ℕ) → Type 0
IsTimeline [] last = last ≡ none
IsTimeline (e ∷ es) last = Chain e es last

Chain-close_last :
    (off : ℤ) (n : DriveEvent) (e : DriveEvent) (es : List DriveEvent) (last : Option (Bool × ℕ))
    → Chain e es last
    → same_state last n.payload.enabled n.payload.alert_status ≡ false
    → n.route_offset_millis ≡ off
    → n.payload.end_route_offset_millis ≡ none
    → IsTimeline (close_last off (e ∷ es) ++ n ∷ []) (some (state_of n))
unfolding close_last
Chain-close_last off n e [] last h d o open_end = (
  ap some (sym o),
  subst (λ l. same_state l n.payload.enabled n.payload.alert_status ≡ false) h.1 d,
  (open_end, refl),
)
Chain-close_last off n e (f ∷ []) last h d o open_end =
    (h.0, h.1, Chain-close_last off n f [] last h.2 d o open_end)
Chain-close_last off n e (f ∷ g ∷ es) last h d o open_end =
    (h.0, h.1, Chain-close_last off n f (g ∷ es) last h.2 d o open_end)

IsTimeline-close_last :
    (off : ℤ) (n : DriveEvent) (es : List DriveEvent) (last : Option (Bool × ℕ))
    → IsTimeline es last
    → same_state last n.payload.enabled n.payload.alert_status ≡ false
    → n.route_offset_millis ≡ off
    → n.payload.end_route_offset_millis ≡ none
    → IsTimeline (close_last off es ++ n ∷ []) (some (state_of n))
unfolding close_last
IsTimeline-close_last off n [] last h d o open_end = (open_end, refl)
IsTimeline-close_last off n (e ∷ es) last h d o open_end =
    Chain-close_last off n e es last h d o open_end

module _ (fl : Floats) where
  open fl use {F64, F32}

  abbrev Timed : Accum fl → Type 0
  Timed acc = IsTimeline acc.events acc.last_state

  emit-Timed :
      (time : F64) (mono : ℕ) (acc : Accum fl)
      → Timed acc
      → Timed (emit_state_change fl time mono acc)
  unfolding emit_state_change state_event
  emit-Timed time mono acc h =
      let g : Engagement = acc.engagement in
      let off : ℤ = fl.to_i64 (fl.mul time (fl.lit 1000 0)) in
      elim (Bool-cases (same_state acc.last_state (g.cur_engaged || g.cur_lat) g.cur_alert)) [
        | inl e ↦ rw e h
        | inr e ↦ rw e (
            IsTimeline-close_last off (state_event g off mono) acc.events acc.last_state h e refl
              refl)
      ]

  on_which-Timed :
      (time : F64) (mono : ℕ) (w : Which fl) (acc : Accum fl)
      → Timed acc
      → Timed (on_which fl time mono w acc)
  unfolding on_which
  on_which-Timed time mono (gps_location g) acc h = elim (Bool-cases (has_gps_fix fl g)) [
    | inl e ↦ rw e h
    | inr e ↦ rw e h
  ]
  on_which-Timed time mono (device_state temp fsp mem) acc h = h
  on_which-Timed time mono (car_params none) acc h = h
  on_which-Timed time mono (car_params (some s)) acc h = h
  on_which-Timed time mono (init_data d) acc h = h
  on_which-Timed time mono (selfdrive_state ss) acc h = emit-Timed time mono _ h
  on_which-Timed time mono (selfdrive_state_sp none) acc h = h
  on_which-Timed time mono (selfdrive_state_sp (some active)) acc h = emit-Timed time mono _ h
  on_which-Timed time mono (driver_monitoring_state dm) acc h = h
  on_which-Timed time mono (car_state cs) acc h = ground (arith, h)
  on_which-Timed time mono can acc h = h
  on_which-Timed time mono (thumbnail none) acc h = h
  on_which-Timed time mono (thumbnail (some bytes)) acc h = h
  on_which-Timed time mono unread acc h = h

  accumulate_all-Timed :
      (ms : List (Which fl × ℕ)) (acc : Accum fl) → Timed acc → Timed (accumulate_all fl ms acc)
  unfolding accumulate_all
  accumulate_all-Timed [] acc h = h
  accumulate_all-Timed ((w, mono) ∷ ms) acc h =
      accumulate_all-Timed ms (accumulate fl w mono acc) (on_which-Timed _ mono w _ h)

  -- Whatever a log holds, its state events are a timeline: each but the last ends at the offset where the next
  -- begins and differs from the next in engagement or alert level; the last one has no end, and is the state
  -- that the parser compares the next reading with.
  pub accumulate_all-IsTimeline :
      (ms : List (Which fl × ℕ))
      → IsTimeline
          (accumulate_all fl ms (new_accum fl)).events
          (accumulate_all fl ms (new_accum fl)).last_state
  unfolding new_accum
  accumulate_all-IsTimeline ms = accumulate_all-Timed ms (new_accum fl) refl
