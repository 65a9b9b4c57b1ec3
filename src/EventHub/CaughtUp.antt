-- ===== src/EventHub/CaughtUp.antt =====
-- What the readers of daemon/internal/server/events.go come to know.
use phonepad.Base.{
  All, List, [], arith, if_case, inl, inr, length, length-append, ltb, refl, suc, true, zero, ℕ,
  ◌++◌, ◌==◌, ◌∙◌, ◌∷◌, ◌≡◌, ◌≤◌, ◌⊎◌,
}
use phonepad.EventHub.Hub.{
  ClientInfo, Hub, StatePayload, SseEvent, Subscriber, connect, disconnect, new_hub, payload_of,
  read, read_one, send, send_all, subscribe, unsubscribe,
}

pub data HubCall : Type 0 where
  connects : ClientInfo → HubCall
  disconnects subscribes : HubCall
  unsubscribes reads : ℕ → HubCall

unfoldable pub call : Hub → HubCall → Hub
call h (connects ci) = connect h ci
call h disconnects = disconnect h
call h subscribes = subscribe h
call h (unsubscribes channel) = record h { subs = unsubscribe channel h.subs }
call h (reads channel) = record h { subs = read channel h.subs }

unfoldable pub run : Hub → List HubCall → Hub
run h [] = h
run h (c ∷ cs) = run (call h c) cs

unfoldable pub read_times : ℕ → Subscriber → Subscriber
read_times zero u = u
read_times (suc n) u = read_times n (read_one u)

last_told : StatePayload → List SseEvent → StatePayload
last_told p [] = p
last_told p (ev ∷ queue) = last_told ev.payload queue

last_told-end :
    (p : StatePayload) (queue : List SseEvent) (ev : SseEvent)
    → last_told p (queue ++ ev ∷ []) ≡ ev.payload
unfolding last_told
last_told-end p [] ev = refl
last_told-end p (e ∷ queue) ev = last_told-end e.payload queue ev

record IsTold (p : StatePayload) (u : Subscriber) : Type 0 where
  short : length u.queue ≤ 8
  told : (u.dropped ≡ true) ⊎ (last_told u.seen u.queue ≡ p)

send-IsTold :
    (q : StatePayload) (ev : SseEvent) (u : Subscriber) → IsTold q u → IsTold ev.payload (send ev u)
unfolding send
send-IsTold q ev u t =
    if_case (IsTold ev.payload) (ltb (length u.queue) 8) _ _
      (λ e. record {
        short = ground (arith, length-append u.queue (ev ∷ []));
        told = inr (last_told-end u.seen u.queue ev);
      })
      (λ e. record { short = t.short; told = inl refl })

send_all-IsTold :
    (q : StatePayload) (ev : SseEvent) (us : List Subscriber)
    → All (IsTold q) us
    → All (IsTold ev.payload) (send_all ev us)
unfolding send_all
send_all-IsTold q ev [] t = tt
send_all-IsTold q ev (u ∷ us) t = (send-IsTold q ev u t.0, send_all-IsTold q ev us t.1)

unsubscribe-IsTold :
    (p : StatePayload) (channel : ℕ) (us : List Subscriber)
    → All (IsTold p) us
    → All (IsTold p) (unsubscribe channel us)
unfolding unsubscribe
unsubscribe-IsTold p channel [] t = tt
unsubscribe-IsTold p channel (u ∷ us) t =
    let rest = unsubscribe-IsTold p channel us t.1 in
    if_case (All (IsTold p)) (u.channel == channel) _ _ (λ e. rest) (λ e. (t.0, rest))

read_one-IsTold : (p : StatePayload) (u : Subscriber) → IsTold p u → IsTold p (read_one u)
unfolding last_told
read_one-IsTold p u t = taken u.queue t.short t.told
  where
    taken :
        (queue : List SseEvent)
        → length queue ≤ 8
        → (u.dropped ≡ true) ⊎ (last_told u.seen queue ≡ p)
        → IsTold p
            (elim queue [ [] ↦ u | ev ∷ rest ↦ record u { queue = rest; seen = ev.payload } ])
    taken [] h v = t
    taken (ev ∷ rest) h v = record { short = omega arith; told = v }

read-IsTold :
    (p : StatePayload) (channel : ℕ) (us : List Subscriber)
    → All (IsTold p) us
    → All (IsTold p) (read channel us)
unfolding read
read-IsTold p channel [] t = tt
read-IsTold p channel (u ∷ us) t =
    let rest = read-IsTold p channel us t.1 in
    if_case (All (IsTold p)) (u.channel == channel) _ _ (λ e. (read_one-IsTold p u t.0, rest))
      (λ e. (t.0, rest))

call-IsTold :
    (h : Hub) (c : HubCall)
    → All (IsTold (payload_of h)) h.subs
    → All (IsTold (payload_of (call h c))) (call h c).subs
unfolding call connect disconnect subscribe last_told
call-IsTold h (connects ci) t = send_all-IsTold (payload_of h) _ h.subs t
call-IsTold h disconnects t = send_all-IsTold (payload_of h) _ h.subs t
call-IsTold h subscribes t = (record { short = omega arith; told = inr refl }, t)
call-IsTold h (unsubscribes channel) t = unsubscribe-IsTold (payload_of h) channel h.subs t
call-IsTold h (reads channel) t = read-IsTold (payload_of h) channel h.subs t

run-IsTold :
    (cs : List HubCall) (h : Hub)
    → All (IsTold (payload_of h)) h.subs
    → All (IsTold (payload_of (run h cs))) (run h cs).subs
unfolding run
run-IsTold [] h t = t
run-IsTold (c ∷ cs) h t = run-IsTold cs (call h c) (call-IsTold h c t)

read_times-seen :
    (n : ℕ) (u : Subscriber) (queue : List SseEvent) (p : StatePayload)
    → length queue ≤ n
    → (read_times n (record u { queue = queue; seen = p })).seen ≡ last_told p queue
unfolding read_times last_told
read_times-seen zero u [] p h = refl
read_times-seen zero u (ev ∷ rest) p h = absurd (omega arith)
read_times-seen (suc n) u [] p h = read_times-seen n u [] p (omega arith)
read_times-seen (suc n) u (ev ∷ rest) p h = read_times-seen n u rest ev.payload (omega arith)

-- At most eight events wait, and a reader that was not too slow knows the state of the hub once it has
-- taken those that wait; one that was is marked.
abbrev pub IsCaughtUp : StatePayload → Subscriber → Type 0
IsCaughtUp p u = (length u.queue ≤ 8) × ((u.dropped ≡ true) ⊎ ((read_times 8 u).seen ≡ p))

-- After any calls of a new hub, none of them while another one runs: each subscriber has at most eight
-- events waiting, and after eight more reads of its channel it was last told the state that the hub is
-- in, unless an event once found its queue full.
pub run-IsCaughtUp :
    (cs : List HubCall) → All (IsCaughtUp (payload_of (run new_hub cs))) (run new_hub cs).subs
run-IsCaughtUp cs = each (run new_hub cs).subs (run-IsTold cs new_hub tt)
  where
    each :
        (us : List Subscriber)
        → All (IsTold (payload_of (run new_hub cs))) us
        → All (IsCaughtUp (payload_of (run new_hub cs))) us
    each [] t = tt
    each (u ∷ us) (t, ts) =
        let read = read_times-seen 8 u u.queue u.seen t.short in
        ((t.short, elim t.told [ inl e ↦ inl e | inr e ↦ inr (read ∙ e) ]), each us ts)
