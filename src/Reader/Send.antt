-- ===== src/Reader/Send.antt =====
-- `poll` of internal/reader/watcher.go: its transaction, and the loop that hands its events to the
-- channel. Each send waits for the consumer, for the end of the context and for `Stop`.
use postgres_controller_back.Base.{
  ℕ, zero, suc, ◌≡◌, ◌⊎◌, inl, inr, refl, Option, List, [], ◌∷◌, ◌++◌, length, Outcome, ok, err, ap,
}
use postgres_controller_back.Base.Int.{ℤ}
use postgres_controller_back.Base.Text.{Text}
use postgres_controller_back.Table.{Table}
use postgres_controller_back.Reader.Poll.{Event, PollError, PollFault, WatcherConfig, poll_tx}

-- Which case the select of each send takes: all are sent, or after some events another case wins.
pub data Sending : Type 0 where
  undisturbed : Sending
  cancelled_after stopped_after : ℕ → Sending

-- The events that reached the channel, and what `poll` returns.
pub record Sent : Type 0 where
  pub delivered : List Event
  pub returned : Outcome PollError ℕ

-- The loop over the events; `n` is their number.
unfoldable pub send_rest : ℕ → Sending → List Event → Sent
send_rest n s [] = record { delivered = []; returned = ok n }
send_rest n undisturbed (e ∷ es) =
    let rest = send_rest n undisturbed es in record rest { delivered = e ∷ rest.delivered }
send_rest n (cancelled_after zero) (e ∷ es) = record {
  delivered = [];
  returned = err PollError.send_cancelled;
}
send_rest n (cancelled_after (suc k)) (e ∷ es) =
    let rest = send_rest n (cancelled_after k) es in record rest { delivered = e ∷ rest.delivered }
send_rest n (stopped_after zero) (e ∷ es) = record { delivered = []; returned = ok 0 }
send_rest n (stopped_after (suc k)) (e ∷ es) =
    let rest = send_rest n (stopped_after k) es in record rest { delivered = e ∷ rest.delivered }

unfoldable pub send : Sending → List Event → Sent
unfolding send_rest
send s es = send_rest (length es) s es

unfoldable pub send_polled : Sending → Outcome PollError (List Event) → Sent
unfolding send
send_polled s (ok es) = send s es
send_polled s (err e) = record { delivered = []; returned = err e }

-- What is sent and returned, beside the high-water mark.
unfoldable pub poll :
    (Text → ℤ) → PollFault → Sending → WatcherConfig → ℕ → Option ℕ → ℕ → Table → Sent × ℕ
unfolding poll_tx send_polled
poll hashtext f s c xmin compacted hwm t =
    let (r, mark) = poll_tx hashtext f c xmin compacted hwm t in (send_polled s r, mark)

-- What one poll has handed over of the events `es` of its transaction: all, or a part from the front.
pub data IsSent (es : List Event) : Sent → Type 0 where
  all_sent : {x : Sent} → x.delivered ≡ es → x.returned ≡ ok (length es) → IsSent es x
  cut_off :
      {x : Sent} (e : Event) (rest : List Event)
      → es ≡ x.delivered ++ e ∷ rest
      → (x.returned ≡ ok 0) ⊎ (x.returned ≡ err PollError.send_cancelled)
      → IsSent es x

send_rest-IsSent :
    (s : Sending) (es : List Event) (n : ℕ)
    → ((send_rest n s es).delivered ≡ es) × ((send_rest n s es).returned ≡ ok n)
      ⊎ ((e : Event) × (rest : List Event) × (es ≡ (send_rest n s es).delivered ++ e ∷ rest)
          × (((send_rest n s es).returned ≡ ok 0)
              ⊎ ((send_rest n s es).returned ≡ err PollError.send_cancelled)))
unfolding send_rest
send_rest-IsSent s [] n = inl (refl, refl)
send_rest-IsSent undisturbed (e ∷ es) n = elim (send_rest-IsSent undisturbed es n) [
  | inl (p, q) ↦ inl (ap (λ xs. e ∷ xs) p, q)
  | inr (d, rest, p, q) ↦ inr (d, rest, ap (λ xs. e ∷ xs) p, q)
]
send_rest-IsSent (cancelled_after zero) (e ∷ es) n = inr (e, es, refl, inr refl)
send_rest-IsSent (cancelled_after (suc k)) (e ∷ es) n =
    elim (send_rest-IsSent (cancelled_after k) es n) [
      | inl (p, q) ↦ inl (ap (λ xs. e ∷ xs) p, q)
      | inr (d, rest, p, q) ↦ inr (d, rest, ap (λ xs. e ∷ xs) p, q)
    ]
send_rest-IsSent (stopped_after zero) (e ∷ es) n = inr (e, es, refl, inl refl)
send_rest-IsSent (stopped_after (suc k)) (e ∷ es) n =
    elim (send_rest-IsSent (stopped_after k) es n) [
      | inl (p, q) ↦ inl (ap (λ xs. e ∷ xs) p, q)
      | inr (d, rest, p, q) ↦ inr (d, rest, ap (λ xs. e ∷ xs) p, q)
    ]

-- What a poll has done: nothing was sent and it fails, or it has sent events of its transaction.
pub data IsPolled : Outcome PollError (List Event) → Sent → Type 0 where
  failed : {x : Sent} (e : PollError) → x.delivered ≡ [] → x.returned ≡ err e → IsPolled (err e) x
  polled : {x : Sent} (es : List Event) → IsSent es x → IsPolled (ok es) x

send_polled-IsPolled :
    (s : Sending) (r : Outcome PollError (List Event)) → IsPolled r (send_polled s r)
unfolding send_polled send
send_polled-IsPolled s (err e) = failed e refl refl
send_polled-IsPolled s (ok es) = elim (send_rest-IsSent s es (length es)) [
  | inl (p, q) ↦ polled es (all_sent p q)
  | inr (d, rest, p, q) ↦ polled es (cut_off d rest p q)
]

-- Wherever its transaction fails and whatever cuts its sends short, a poll that returns an error of the
-- transaction has sent nothing; else it has sent all events of the transaction, and returns their
-- number, or those before some event, and returns 0 or the context's error. The mark is that of the
-- transaction, also where events are left unsent.
pub poll-IsPolled :
    (hashtext : Text → ℤ) (f : PollFault) (s : Sending) (c : WatcherConfig) (xmin : ℕ)
    (compacted : Option ℕ) (hwm : ℕ) (t : Table)
    → IsPolled
        (poll_tx hashtext f c xmin compacted hwm t).0
        (poll hashtext f s c xmin compacted hwm t).0
      × ((poll hashtext f s c xmin compacted hwm t).1
          ≡ (poll_tx hashtext f c xmin compacted hwm t).1)
unfolding poll
poll-IsPolled hashtext f s c xmin compacted hwm t =
    (send_polled-IsPolled s (poll_tx hashtext f c xmin compacted hwm t).0, refl)
