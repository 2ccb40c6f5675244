-- ===== src/Session.antt =====
-- `PeerSession` of src/securesync/infrastructure/networking/session_store.py.
-- Times are whole ticks from the epoch, and a lifetime is compared by adding it to the earlier time:
-- `now - t > limit` is `t + limit < now`. Device identifiers are their UTF-8 bytes.
use secure_sync.Prelude.{ℕ, ◌+◌, ◌-◌, ◌^◌, Bool, false, not, ◌||◌, ltb, leb, if◌then◌else◌}
use secure_sync.Prelude.Bytes.{Bytes}
use secure_sync.Errors.{Result, ok, err, counter_exhausted_error}
use secure_sync.Window.{AntiReplayWindow}

abbrev pub max_messages_per_key : ℕ
max_messages_per_key = 2 ^ 32

abbrev pub max_counter : ℕ
max_counter = 2 ^ 63 - 1

pub record PeerSession : Type 0 where
  pub peer_id : Bytes
  pub session_id : Bytes
  pub role : ℕ
  pub send_key : Bytes
  pub receive_key : Bytes
  pub transfer_port : ℕ
  pub manifest_port : ℕ
  pub confirmed : Bool
  pub created_at : ℕ
  pub last_activity : ℕ
  pub next_send_counter : ℕ
  pub sent_count : ℕ
  pub receive_window : AntiReplayWindow

unfoldable pub mark_active : PeerSession → ℕ → PeerSession
mark_active s now = record s { last_activity = now }

-- The test that `allocate_counter` and `can_send` share.
abbrev pub is_exhausted : PeerSession → Bool
is_exhausted s = leb max_messages_per_key s.sent_count || ltb max_counter s.next_send_counter

unfoldable pub allocate_counter : PeerSession → Result (ℕ × PeerSession)
allocate_counter s =
    if is_exhausted s
    then err counter_exhausted_error
    else ok (
      s.next_send_counter,
      record s { next_send_counter = s.next_send_counter + 1; sent_count = s.sent_count + 1 },
    )

unfoldable pub can_send : PeerSession → ℕ → ℕ → Bool
can_send s now max_lifetime =
    if not s.confirmed
    then false
    else if ltb (s.created_at + max_lifetime) now
    then false
    else not (is_exhausted s)
