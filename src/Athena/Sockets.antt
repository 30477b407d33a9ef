-- ===== src/Athena/Sockets.antt =====
-- A device that reconnects before its old socket is torn down.
use homeconnect.Athena.{
  ConnectionManager, closes, connected, disconnected, frame, is_connected, mark_online, on_event,
  on_events, opens, touch_ping,
}
use homeconnect.Db.{Db}
use homeconnect.Prelude.{List, [], arith, false, map, refl, true, ◌∷◌, ◌≡◌}
use homeconnect.Prelude.Containers.{contains-remove}
use homeconnect.Prelude.Int.{ℤ}
use homeconnect.Prelude.Text.{Text, text_eq_refl}

-- The registry has one entry per device and not per socket: when a device opens a second socket and then
-- the first is torn down, the device counts as not connected although the second socket is open, however
-- many frames arrive on it.
pub reconnect_forgotten :
    (dongle : Text) (a b c : ℤ) (frames : List ℤ) (s : ConnectionManager × Db)
    → is_connected dongle (on_events dongle (opens a ∷ opens b ∷ closes c ∷ map frame frames) s).0
      ≡ false
unfolding is_connected on_events on_event disconnected
reconnect_forgotten dongle a b c frames (m, db) =
    rw
      (after_frames frames (disconnected dongle (connected dongle (connected dongle m)))
        (mark_online c dongle false (mark_online b dongle true (mark_online a dongle true db))))
      (ground (
        arith,
        contains-remove dongle dongle (connected dongle (connected dongle m)).inner,
        text_eq_refl dongle,
      ))
  where
    after_frames :
        (fs : List ℤ) (m : ConnectionManager) (db : Db)
        → (on_events dongle (map frame fs) (m, db)).0 ≡ m
    after_frames [] m db = refl
    after_frames (f ∷ fs) m db = after_frames fs m (touch_ping f dongle db)
