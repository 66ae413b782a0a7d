-- ===== src/Network/Handshake/Completions.antt =====
-- How often the completion callback of a handshake is called.
use libbitcoin.Prelude.{
  arith, ℕ, suc, ◌+◌, ◌≡◌, refl, List, [], ◌∷◌, ◌++◌, ◌==◌, leb, Bool-cases, inl, inr, ◌∙◌, ap, sym,
  if◌then◌else◌, Option, none, some,
}
use libbitcoin.Validate.{ErrorCode}
use libbitcoin.Network.Handshake.{
  Handshake, Event, message_sent, version_received, verack_received, ready, complete, count_up,
  handle_message_sent, receive_version, receive_verack, handle, handle_all,
}

-- The calls with no error, and those with one.
pub successes : List (Option ErrorCode) → ℕ
successes [] = 0
successes (none ∷ completions) = suc (successes completions)
successes (some ec ∷ completions) = successes completions

pub failures : List (Option ErrorCode) → ℕ
failures [] = 0
failures (none ∷ completions) = failures completions
failures (some ec ∷ completions) = suc (failures completions)

-- The messages sent and the veracks received, and the handlers called with an error.
pub cleared : List Event → ℕ
cleared [] = 0
cleared (message_sent none ∷ events) = suc (cleared events)
cleared (verack_received none ∷ events) = suc (cleared events)
cleared (message_sent (some ec) ∷ events) = cleared events
cleared (verack_received (some ec) ∷ events) = cleared events
cleared (version_received ec ∷ events) = cleared events

pub failed : List Event → ℕ
failed [] = 0
failed (message_sent none ∷ events) = failed events
failed (verack_received none ∷ events) = failed events
failed (version_received none ∷ events) = failed events
failed (message_sent (some ec) ∷ events) = suc (failed events)
failed (verack_received (some ec) ∷ events) = suc (failed events)
failed (version_received (some ec) ∷ events) = suc (failed events)

successes-append :
    (completions : List (Option ErrorCode)) (ec : Option ErrorCode)
    → successes (completions ++ ec ∷ []) ≡ successes completions + successes (ec ∷ [])
unfolding successes
successes-append [] ec = omega arith
successes-append (none ∷ completions) ec = omega (arith, successes-append completions ec)
successes-append (some code ∷ completions) ec = successes-append completions ec

failures-append :
    (completions : List (Option ErrorCode)) (ec : Option ErrorCode)
    → failures (completions ++ ec ∷ []) ≡ failures completions + failures (ec ∷ [])
unfolding failures
failures-append [] ec = omega arith
failures-append (none ∷ completions) ec = failures-append completions ec
failures-append (some code ∷ completions) ec = omega (arith, failures-append completions ec)

-- One success once the counter has reached 3, and none before.
abbrev due : ℕ → ℕ
due counter = if leb 3 counter then 1 else 0

count_up-counts :
    (shake : Handshake)
    → successes shake.completions ≡ due shake.counter
    → ((count_up shake).counter ≡ shake.counter + 1)
      × (successes (count_up shake).completions ≡ due (shake.counter + 1))
      × (failures (count_up shake).completions ≡ failures shake.completions)
unfolding count_up complete successes failures
count_up-counts shake h = elim (Bool-cases (shake.counter + 1 == 3)) [
  | inl third ↦ rw third (
    refl,
    ground (arith, third, h, successes-append shake.completions none),
    omega (arith, failures-append shake.completions none),
  )
  | inr other ↦ rw other (refl, ground (arith, other, h), refl)
]

failed_event :
    (shake : Handshake) (ec : ErrorCode)
    → successes shake.completions ≡ due shake.counter
    → (shake.counter ≡ shake.counter + 0)
      × (successes (complete shake (some ec)).completions ≡ due (shake.counter + 0))
      × (failures (complete shake (some ec)).completions ≡ failures shake.completions + 1)
unfolding complete successes failures
failed_event shake ec h = (
  omega arith,
  successes-append shake.completions (some ec) ∙ omega arith ∙ h ∙ ap due (omega arith),
  failures-append shake.completions (some ec),
)

handle-counts :
    (shake : Handshake) (event : Event)
    → successes shake.completions ≡ due shake.counter
    → ((handle shake event).counter ≡ shake.counter + cleared (event ∷ []))
      × (successes (handle shake event).completions ≡ due (shake.counter + cleared (event ∷ [])))
      × (failures (handle shake event).completions
          ≡ failures shake.completions + failed (event ∷ []))
unfolding handle handle_message_sent receive_version receive_verack complete cleared failed
    successes failures
handle-counts shake (message_sent none) h =
    let (counter, success, failure) = count_up-counts shake h in
    (counter, success, failure ∙ omega arith)
handle-counts shake (verack_received none) h =
    let (counter, success, failure) = count_up-counts shake h in
    (counter, success, failure ∙ omega arith)
handle-counts shake (version_received none) h = (omega arith, h ∙ ap due (omega arith), omega arith)
handle-counts shake (message_sent (some ec)) h = failed_event shake ec h
handle-counts shake (verack_received (some ec)) h = failed_event shake ec h
handle-counts shake (version_received (some ec)) h = failed_event shake ec h

cleared-cons :
    (event : Event) (events : List Event)
    → cleared (event ∷ events) ≡ cleared (event ∷ []) + cleared events
unfolding cleared
cleared-cons (message_sent none) events = omega arith
cleared-cons (message_sent (some ec)) events = omega arith
cleared-cons (verack_received none) events = omega arith
cleared-cons (verack_received (some ec)) events = omega arith
cleared-cons (version_received ec) events = omega arith

failed-cons :
    (event : Event) (events : List Event)
    → failed (event ∷ events) ≡ failed (event ∷ []) + failed events
unfolding failed
failed-cons (message_sent none) events = omega arith
failed-cons (message_sent (some ec)) events = omega arith
failed-cons (verack_received none) events = omega arith
failed-cons (verack_received (some ec)) events = omega arith
failed-cons (version_received none) events = omega arith
failed-cons (version_received (some ec)) events = omega arith

handle_all-counts :
    (events : List Event) (shake : Handshake)
    → successes shake.completions ≡ due shake.counter
    → (successes (handle_all shake events).completions ≡ due (shake.counter + cleared events))
      × (failures (handle_all shake events).completions
          ≡ failures shake.completions + failed events)
unfolding handle_all
handle_all-counts [] shake h =
    (h ∙ ap due (unfold cleared in omega arith), unfold failed in omega arith)
handle_all-counts (event ∷ events) shake h =
    let (counted, success, failure) = handle-counts shake event h in
    let (successes_after, failures_after) =
      handle_all-counts events (handle shake event) (success ∙ ap due (sym counted)) in
    (
      successes_after ∙ ap due (omega (arith, counted, cleared-cons event events)),
      omega (arith, failure, failures_after, failed-cons event events),
    )

-- In whatever order the handlers of a handshake are called, and however often, its completion callback
-- is called with no error exactly once where at least three messages are cleared, that is sent or a
-- verack received, and never where fewer are; and with an error as often as a handler is.
pub handle_all-completions :
    (events : List Event)
    → (successes (handle_all ready events).completions ≡ (if leb 3 (cleared events) then 1 else 0))
      × (failures (handle_all ready events).completions ≡ failed events)
unfolding successes failures
handle_all-completions events =
    let (success, failure) = handle_all-counts events ready refl in
    (success ∙ ap due (omega arith), failure ∙ omega arith)
