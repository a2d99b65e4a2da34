-- ===== src/Gitlab/Parser/Kinds.antt =====
-- The events of internal/gitlab/parser.go, and the time at which a payload is parsed.
use glsync.Base.{ℕ, Text, Option, none, some, ◌≡◌, refl, sym, ◌∙◌, arith, ap, []}
use glsync.Json.{Payload, Decoded, ok, err, unmarshal, ◌>>=◌}
use glsync.Domain.{NormalizedEvent}
use glsync.Gitlab.Types.{
  PushEvent, MergeRequestEvent, EmojiEvent, set_push, zero_push, set_mr, zero_mr, set_emoji,
  zero_emoji,
}
use glsync.Gitlab.Parser.{
  parse, set_kind, with_merge_request, parse_push, parse_mr, parse_emoji, parse_kind, push_event,
  mr_event, emoji_event,
}

some_inj : {a b : Text} → some a ≡ some b → a ≡ b
some_inj h = cc

abbrev pub key_of : Decoded NormalizedEvent → Option Text
key_of (ok e) = some e.idempotency_key
key_of (err x) = none

key_of-parse_push :
    (raw : Payload) (n m : ℕ) → key_of (parse_push raw n) ≡ key_of (parse_push raw m)
unfolding parse_push push_event
key_of-parse_push raw n m = go (unmarshal set_push zero_push raw)
  where
    go :
        (d : Decoded PushEvent)
        → key_of (do ev ← d; ok (push_event raw n ev))
          ≡ key_of (do ev ← d; ok (push_event raw m ev))
    go (ok ev) = refl
    go (err x) = refl

key_of-parse_mr : (raw : Payload) (n m : ℕ) → key_of (parse_mr raw n) ≡ key_of (parse_mr raw m)
unfolding parse_mr mr_event
key_of-parse_mr raw n m = go (unmarshal set_mr zero_mr raw)
  where
    go :
        (d : Decoded MergeRequestEvent)
        → key_of (do ev ← d; ok (mr_event raw n ev)) ≡ key_of (do ev ← d; ok (mr_event raw m ev))
    go (ok ev) = refl
    go (err x) = refl

key_of-emoji_event :
    (raw : Payload) (n m : ℕ) (ev : EmojiEvent)
    → (emoji_event raw n ev).idempotency_key ≡ (emoji_event raw m ev).idempotency_key
unfolding emoji_event with_merge_request
key_of-emoji_event raw n m ev = ground arith

key_of-parse_emoji :
    (raw : Payload) (n m : ℕ) → key_of (parse_emoji raw n) ≡ key_of (parse_emoji raw m)
unfolding parse_emoji
key_of-parse_emoji raw n m = go (unmarshal set_emoji zero_emoji raw)
  where
    go :
        (d : Decoded EmojiEvent)
        → key_of (do ev ← d; ok (emoji_event raw n ev))
          ≡ key_of (do ev ← d; ok (emoji_event raw m ev))
    go (ok ev) = ap some (key_of-emoji_event raw n m ev)
    go (err x) = refl

key_of-parse_kind :
    (kind : Text) (raw : Payload) (n m : ℕ)
    → key_of (parse_kind kind raw n) ≡ key_of (parse_kind kind raw m)
unfolding parse_kind
key_of-parse_kind kind raw n m =
    ground (arith, key_of-parse_push raw n m, key_of-parse_mr raw n m, key_of-parse_emoji raw n m)

-- The idempotency key of a payload does not depend on the time at which it is parsed.
pub key_of-parse : (raw : Payload) (n m : ℕ) → key_of (parse raw n) ≡ key_of (parse raw m)
unfolding parse
key_of-parse raw n m = go (unmarshal set_kind [] raw)
  where
    go :
        (d : Decoded Text)
        → key_of (do kind ← d; parse_kind kind raw n) ≡ key_of (do kind ← d; parse_kind kind raw m)
    go (ok kind) = key_of-parse_kind kind raw n m
    go (err x) = refl

-- Whatever two times a payload is parsed at, the events have the same idempotency key.
pub parse-same_key :
    (raw : Payload) (n m : ℕ) {e e' : NormalizedEvent}
    → parse raw n ≡ ok e
    → parse raw m ≡ ok e'
    → e.idempotency_key ≡ e'.idempotency_key
parse-same_key raw n m p q = some_inj (sym (ap key_of p) ∙ key_of-parse raw n m ∙ ap key_of q)
