-- ===== src/Tests/OnListener.antt =====
-- The theorems on the listener at concrete inputs.
use go_outbox.Base.{◌≡◌, refl, true, false, some, [], ◌∷◌, lookup}
use go_outbox.Base.Int.{pos, ◌+ℤ◌, ◌-ℤ◌}
use go_outbox.Core.Errors.{Err, leaf, network}
use go_outbox.Dispatch.Listener.{Wakes, Notification, notified, taken, connected, listen}
use go_outbox.Dispatch.Listener.Wakes.{is_for, takes, listen-not_lost}

abbrev pipelines : Wakes
pipelines = ("orders", false) ∷ ("refunds", false) ∷ []

-- A notification for orders; one for refunds arrives in its window.
abbrev announced : Notification
announced = record {
  payload = "orders";
  start = pos 100;
  window = record { now = pos 110; payload = some "refunds" } ∷ [];
}

abbrev dropped : Err
dropped = leaf network

listen-not_lost_example :
    lookup "refunds"
      (listen
        (pos 50)
        (connected (taken "refunds" ∷ notified announced ∷ taken "orders" ∷ []) dropped)
        pipelines).1
    ≡ some true
unfolding is_for takes ◌+ℤ◌ ◌-ℤ◌
listen-not_lost_example =
    listen-not_lost (pos 50) "refunds" (taken "refunds" ∷ []) (taken "orders" ∷ []) announced
      dropped pipelines false refl refl refl
