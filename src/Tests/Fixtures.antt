-- ===== src/Tests/Fixtures.antt =====
-- Two devices that share one session, with a transparent cipher and a payload that is its own encoding.
use secure_sync.Prelude.{refl, false, true, some, [], ◌∷◌, replicate, length}
use secure_sync.Prelude.Int.{pos, negsuc}
use secure_sync.Prelude.Bytes.{Bytes}
use secure_sync.Errors.{ok}
use secure_sync.Window.{AntiReplayWindow}
use secure_sync.Frame.{incoming_direction, outgoing_direction}
use secure_sync.Packet.{PayloadCodec, IsFaithful}
use secure_sync.Session.{PeerSession}
use secure_sync.Store.{SessionStore, Policy}
use secure_sync.Channel.{AeadCipher, SecureChannel}
use secure_sync.Channel.Delivery.{IsAead, Paired}

abbrev pub plain_codec : PayloadCodec
plain_codec = record {
  Payload = Bytes;
  packb = λ p. p;
  unpackb = λ bytes. ok bytes;
  checksum = λ bytes. length bytes;
}

pub plain_codec-IsFaithful : IsFaithful plain_codec
plain_codec-IsFaithful = record { unpackb-packb = λ p. refl }

abbrev pub plain_cipher : AeadCipher
plain_cipher = record {
  encrypt = λ plaintext key nonce aad. record {
    ciphertext = plaintext;
    nonce = nonce;
    tag = replicate 16 7;
  };
  decrypt = λ payload key aad. some payload.ciphertext;
}

pub plain_cipher-IsAead : IsAead plain_cipher
plain_cipher-IsAead = record { decrypt-encrypt = λ p k n a. refl; nonce-encrypt = λ p k n a. refl }

abbrev pub alice : SecureChannel
alice = record { own_device_id = 1 ∷ []; timestamp_skew_ms = 60 }

abbrev pub bob : SecureChannel
bob = record { own_device_id = 2 ∷ []; timestamp_skew_ms = 60 }

abbrev pub new_window : AntiReplayWindow
new_window = record { window = 4; slots = 9; bits = 0 ∷ 0 ∷ []; highest = pos 0; base = negsuc 2 }

abbrev pub shared_id : Bytes
shared_id = replicate 8 9

-- The session as the initiator, Alice, keeps it, and as the responder, Bob, does.
abbrev pub alice_session : PeerSession
alice_session = record {
  peer_id = 2 ∷ [];
  session_id = shared_id;
  role = 0;
  send_key = 5 ∷ [];
  receive_key = 6 ∷ [];
  transfer_port = 1;
  manifest_port = 2;
  confirmed = true;
  created_at = 0;
  last_activity = 0;
  next_send_counter = 1;
  sent_count = 0;
  receive_window = new_window;
}

abbrev pub bob_session : PeerSession
bob_session = record alice_session {
  peer_id = 1 ∷ [];
  role = 1;
  send_key = 6 ∷ [];
  receive_key = 5 ∷ [];
  confirmed = false;
}

pub paired : Paired alice bob alice_session bob_session
unfolding incoming_direction outgoing_direction
paired = record { key = refl; sender_id = refl; receiver_id = refl; direction = refl }

abbrev pub small_policy : Policy
small_policy = record {
  max_sessions_per_peer = 2;
  max_unconfirmed_per_peer = 1;
  global_session_cap = 3;
  max_key_lifetime = 100;
  idle_timeout_confirmed = 50;
  idle_timeout_unconfirmed = 10;
}

abbrev pub store_with : PeerSession → SessionStore
store_with s = record {
  policy = small_policy;
  by_session_id = (s.session_id, s) ∷ [];
  by_peer = (s.peer_id, s.session_id ∷ []) ∷ [];
}
