-- ===== src/Handshake/Retry.antt =====
-- A cookie on its way: a message, the cookie that answers it, and the message that is sent again.
use tun_safe.Base.{
  ℕ, ◌+◌, ◌-◌, ◌%◌, ◌^◌, ◌<◌, ◌≡◌, ◌∙◌, refl, sym, ap, ap₂, true, false, none, some, List, ◌++◌,
  if◌then◌else◌, take, drop, length, arith, append_assoc, ==_refl,
}
use tun_safe.Base.Bytes.{bytes_eq, bytes_eq_refl}
use tun_safe.Keys.{WgDevice, IpAddr, update}
use tun_safe.Keys.Table.{lookup_peer_in_key_id_lookup}
use tun_safe.Peer.{WgPeer}
use tun_safe.Handshake.{Crypto, Laws, IsSized, write_mac_to_packet, cookie_secret_max_age_ms}
use tun_safe.Handshake.Cookie.{
  CookieMessage, refresh_secret, cookie_text, make_cookie, check_cookie_mac2, create_cookie_message,
  check_cookie, take_cookie, with_index, find_waiting, parse_message_handshake_cookie,
}
use tun_safe.Handshake.Macs.{with_macs, length-macs, mac1_eq, read_mac1, take_front, drop_front}

-- The second mac, with a cookie that is fresh.
mac2_eq :
    (c : Crypto) (p : WgPeer) (now : ℕ) (bytes : List ℕ)
    → p.has_mac2_cookie ≡ true
    → (now + 2 ^ 64 - p.mac2_cookie_timestamp) % 2 ^ 64 < 115000
    → let (q, mac1, mac2) = write_mac_to_packet c p now bytes in
      mac2 ≡ c.blake2s 16 (bytes ++ mac1) p.mac2_cookie
unfolding write_mac_to_packet
mac2_eq c p now bytes h t = ground arith

-- CheckCookieMac2 with a secret that is not old.
keeps_secret :
    (dev : WgDevice) (random : List ℕ) (now : ℕ)
    → (now + 2 ^ 64 - dev.cookie_secret_timestamp) % 2 ^ 64 < cookie_secret_max_age_ms
    → refresh_secret dev random now ≡ dev
unfolding refresh_secret
keeps_secret dev random now h = ground arith

-- The device of the receiver, that of the sender with its peers, and what happens: a message is sent, the
-- receiver answers with a cookie, which the sender takes, and another message is sent and checked.
pub record Retry : Type 0 where
  pub receiver : WgDevice
  pub sender : WgDevice
  pub peers : ℕ → WgPeer
  pub self : ℕ
  pub key_id : ℕ
  pub addr : IpAddr
  pub protocol : ℕ
  pub first : List ℕ
  pub second : List ℕ
  pub sent_at : ℕ
  pub answered_at : ℕ
  pub taken_at : ℕ
  pub sent_again_at : ℕ
  pub checked_at : ℕ
  pub random : List ℕ
  pub nonce : List ℕ
  pub random_again : List ℕ

module _ (c : Crypto) (x : Retry) where
  -- The peer when its message is sent, and the answer.
  abbrev pub waiting : WgPeer
  waiting = (write_mac_to_packet c (x.peers x.self) x.sent_at x.first).0

  abbrev pub cookie_answer : WgDevice × CookieMessage
  cookie_answer =
      create_cookie_message c x.receiver
        (with_macs c (x.peers x.self) x.sent_at x.first x.protocol x.addr) x.key_id x.random x.nonce
        x.answered_at

  -- The sender waits under the key id, the two have the same key for cookies, and neither the cookie
  -- nor the secret has become old.
  pub record CanRetry : Type 0 where
    pub owned : lookup_peer_in_key_id_lookup x.sender x.key_id ≡ some x.self
    pub key : (x.peers x.self).precomputed_cookie_key ≡ x.receiver.precomputed_cookie_key
    pub fresh_cookie : (x.sent_again_at + 2 ^ 64 - x.taken_at) % 2 ^ 64 < 115000
    pub fresh_secret :
        (x.checked_at + 2 ^ 64 - cookie_answer.0.cookie_secret_timestamp) % 2 ^ 64
        < cookie_secret_max_age_ms

  -- The peer with the cookie.
  abbrev pub cookie_peer : WgPeer
  cookie_peer = record waiting {
    rx_bytes = waiting.rx_bytes + 64;
    expect_cookie_reply = false;
    has_mac2_cookie = true;
    mac2_cookie_timestamp = x.taken_at;
    mac2_cookie = c.blake2s 16 (cookie_text x.addr) cookie_answer.0.cookie_secret;
  }

  cookie_enc_eq :
      IsSized c
      → cookie_answer.1.cookie_enc
        ≡ c.xencrypt x.receiver.precomputed_cookie_key x.nonce cookie_peer.mac2_cookie
            waiting.sent_mac1
  unfolding create_cookie_message make_cookie
  cookie_enc_eq sized =
      let p = x.peers x.self in
      let packet = with_macs c p x.sent_at x.first x.protocol x.addr in
      let (_, mac1, mac2) = write_mac_to_packet c p x.sent_at x.first in
      let (h₁, h₂) = length-macs c sized p x.sent_at x.first in
      let (m, sent, _, _, _) = mac1_eq c p x.sent_at x.first in
      let (_, back) = read_mac1 c x.receiver packet x.first mac1 mac2 refl h₁ h₂ in
      ap (c.xencrypt x.receiver.precomputed_cookie_key x.nonce cookie_peer.mac2_cookie)
        (back ∙ m ∙ sym sent)

  check_cookie_lem :
      Laws c
      → IsSized c
      → CanRetry
      → check_cookie c waiting cookie_answer.1 x.taken_at ≡ some cookie_peer
  unfolding check_cookie take_cookie create_cookie_message
  check_cookie_lem laws sized can =
      let (_, _, expects, key, _) = mac1_eq c (x.peers x.self) x.sent_at x.first in
      let opened : c.xdecrypt waiting.precomputed_cookie_key cookie_answer.1.nonce
            cookie_answer.1.cookie_enc waiting.sent_mac1
          ≡ some cookie_peer.mac2_cookie =
        ap₂ (λ k t. c.xdecrypt k x.nonce t waiting.sent_mac1) (key ∙ can.key) (cookie_enc_eq sized)
        ∙ laws.xdecrypt-xencrypt _ _ _ _ in
      ap
        (λ b.
          if b
          then take_cookie waiting x.taken_at (
              c.xdecrypt waiting.precomputed_cookie_key cookie_answer.1.nonce
                cookie_answer.1.cookie_enc waiting.sent_mac1)
          else none)
        expects
      ∙ ap (take_cookie waiting x.taken_at) opened

  -- CheckCookieMac2 accepts what is sent again.
  check_mac2_lem :
      IsSized c
      → CanRetry
      → check_cookie_mac2 c cookie_answer.0
          (with_macs c cookie_peer x.sent_again_at x.second x.protocol x.addr)
          x.random_again
          x.checked_at
        ≡ (cookie_answer.0, true)
  unfolding check_cookie_mac2 make_cookie
  check_mac2_lem sized can =
      let dev = cookie_answer.0 in
      let packet = with_macs c cookie_peer x.sent_again_at x.second x.protocol x.addr in
      let (_, mac1, mac2) = write_mac_to_packet c cookie_peer x.sent_again_at x.second in
      let (h₁, h₂) = length-macs c sized cookie_peer x.sent_again_at x.second in
      let split : packet.bytes ≡ (x.second ++ mac1) ++ mac2 =
        sym (append_assoc x.second mac1 mac2) in
      let front : take (length packet.bytes - 16) packet.bytes ≡ x.second ++ mac1 =
        ap (λ (l : List ℕ). take (length l - 16) l) split
        ∙ take_front 16 (x.second ++ mac1) mac2 h₂ in
      let back : drop (length packet.bytes - 16) packet.bytes ≡ mac2 =
        ap (λ (l : List ℕ). drop (length l - 16) l) split
        ∙ drop_front 16 (x.second ++ mac1) mac2 h₂ in
      let same = keeps_secret dev x.random_again x.checked_at can.fresh_secret in
      ap
        (λ (d : WgDevice). (
          d,
          bytes_eq
              (c.blake2s 16 (take (length packet.bytes - 16) packet.bytes)
                (c.blake2s 16 (cookie_text x.addr) d.cookie_secret))
              (drop (length packet.bytes - 16) packet.bytes),
        ))
        same
      ∙ ap₂ (λ f b. (dev, bytes_eq (c.blake2s 16 f cookie_peer.mac2_cookie) b)) front
          (back ∙ mac2_eq c cookie_peer x.sent_again_at x.second refl can.fresh_cookie)
      ∙ ap (λ b. (dev, b)) (bytes_eq_refl (c.blake2s 16 (x.second ++ mac1) cookie_peer.mac2_cookie))

  -- The sender takes the cookie, and the message that it sends then passes CheckCookieMac2.
  pub record IsRetried : Type 0 where
    pub peer : WgPeer
    pub taken :
        parse_message_handshake_cookie c x.sender
          (update x.peers x.self waiting)
          cookie_answer.1
          x.taken_at
        ≡ some (x.self, peer)
    pub passes :
        check_cookie_mac2 c cookie_answer.0
          (with_macs c peer x.sent_again_at x.second x.protocol x.addr)
          x.random_again
          x.checked_at
        ≡ (cookie_answer.0, true)

-- When a message is answered by a cookie, its key id still waits for the handshake, and the two
-- sides have one key for cookies, then the sender takes the cookie, and the next message that it
-- sends from the address in the next 115 s passes CheckCookieMac2, if the receiver's secret is not
-- old by then. Decryption undoes encryption, and digests have the size asked for.
pub retry_lem : (c : Crypto) → Laws c → IsSized c → (x : Retry) → CanRetry c x → IsRetried c x
unfolding parse_message_handshake_cookie find_waiting create_cookie_message
retry_lem c laws sized x can =
    let peers = update x.peers x.self (waiting c x) in
    let m = (cookie_answer c x).1 in
    let here : peers x.self ≡ waiting c x = rw (==_refl x.self) refl in
    record {
      peer = cookie_peer c x;
      taken =
          ap (find_waiting c peers m x.taken_at) can.owned
          ∙ ap (λ p. with_index x.self (check_cookie c p m x.taken_at)) here
          ∙ ap (with_index x.self) (check_cookie_lem c x laws sized can);
      passes = check_mac2_lem c x sized can;
    }
