-- ===== src/EventHub/Tests.antt =====
-- Runs of the model of daemon/internal/server/events.go, and the theorem at one.
use phonepad.Base.{All, List, [], ascii, length, map, refl, ◌∷◌, ◌≡◌}
use phonepad.EventHub.Hub.{
  ClientInfo, connect, disconnect, new_hub, payload_of, read, send, send_all, subscribe,
}
use phonepad.EventHub.CaughtUp.{
  HubCall, IsCaughtUp, call, connects, disconnects, reads, run, run-IsCaughtUp, subscribes,
}

abbrev phone : ClientInfo
phone = record { ua = ascii "phone"; since = ascii "2026-01-01T00:00:00Z" }

-- A view subscribes, a phone comes, the view reads of it, a second view subscribes, the phone leaves.
abbrev visit : List HubCall
visit = subscribes ∷ connects phone ∷ reads 0 ∷ subscribes ∷ disconnects ∷ []

visit_waits : map (λ u. length u.queue) (run new_hub visit).subs ≡ 1 ∷ 1 ∷ []
unfolding run call subscribe connect disconnect read send_all send
visit_waits = refl

run-IsCaughtUp_example : All (IsCaughtUp (payload_of (run new_hub visit))) (run new_hub visit).subs
run-IsCaughtUp_example = run-IsCaughtUp visit
