-- ===== src/Handshake/Cookie.antt =====
-- The two macs of a handshake message and the cookies: WgDevice::CheckCookieMac1, MakeCookie,
-- CheckCookieMac2 and CreateCookieMessage, and WgPeer::ParseMessageHandshakeCookie.
use tun_safe.Base.{
  ℕ, ◌+◌, ◌-◌, ◌%◌, ◌^◌, Bool, true, false, Option, none, some, List, ◌++◌, if◌then◌else◌, leb,
  take, drop, length,
}
use tun_safe.Base.Bytes.{write_le, bytes_eq}
use tun_safe.Keys.{WgDevice, IpAddr, unset, v4, v6}
use tun_safe.Keys.Table.{lookup_peer_in_key_id_lookup}
use tun_safe.Peer.{WgPeer, Packet}
use tun_safe.Handshake.{Crypto, cookie_secret_max_age_ms}

-- MessageHandshakeCookie
pub record CookieMessage : Type 0 where
  pub receiver_key_id : ℕ
  pub nonce : List ℕ
  pub cookie_enc : List ℕ

-- The mac of the bytes before the two macs; the caller has checked the size.
unfoldable pub check_cookie_mac1 : Crypto → WgDevice → Packet → Bool
check_cookie_mac1 c dev packet =
    let n = length packet.bytes - 32 in
    bytes_eq (c.blake2s 16 (take n packet.bytes) dev.precomputed_mac1_key)
      (take 16 (drop n packet.bytes))

-- The text of a cookie: the address, and the port, which is 0 here for an address without a family.
unfoldable pub cookie_text : IpAddr → List ℕ
cookie_text unset = write_le 2 0
cookie_text (v4 a p) = write_le 4 a ++ write_le 2 p
cookie_text (v6 a p) = write_le 16 a ++ write_le 2 p

-- The secret of the cookies, which is drawn again when it is old; unsigned difference.
unfoldable pub refresh_secret : WgDevice → List ℕ → ℕ → WgDevice
refresh_secret dev random now =
    if leb cookie_secret_max_age_ms ((now + 2 ^ 64 - dev.cookie_secret_timestamp) % 2 ^ 64)
    then record dev { cookie_secret_timestamp = now; cookie_secret = random }
    else dev

-- WgDevice::MakeCookie; the random bytes and the time are arguments.
unfoldable pub make_cookie : Crypto → WgDevice → IpAddr → List ℕ → ℕ → WgDevice × List ℕ
unfolding refresh_secret cookie_text
make_cookie c dev addr random now =
    let dev' = refresh_secret dev random now in
    (dev', c.blake2s 16 (cookie_text addr) dev'.cookie_secret)

-- The mac of all the bytes before it, with the cookie as key.
unfoldable pub check_cookie_mac2 : Crypto → WgDevice → Packet → List ℕ → ℕ → WgDevice × Bool
unfolding make_cookie
check_cookie_mac2 c dev packet random now =
    let n = length packet.bytes - 16 in
    let (dev', cookie) = make_cookie c dev packet.addr random now in
    (dev', bytes_eq (c.blake2s 16 (take n packet.bytes) cookie) (drop n packet.bytes))

-- WgDevice::CreateCookieMessage: the cookie, encrypted with the mac of the packet.
unfoldable pub create_cookie_message :
    Crypto → WgDevice → Packet → ℕ → List ℕ → List ℕ → ℕ → WgDevice × CookieMessage
unfolding make_cookie
create_cookie_message c dev packet remote_key_id random nonce now =
    let (dev', cookie) = make_cookie c dev packet.addr random now in
    let mac1 = take 16 (drop (length packet.bytes - 32) packet.bytes) in
    (
      dev',
      record {
        receiver_key_id = remote_key_id;
        nonce = nonce;
        cookie_enc = c.xencrypt dev.precomputed_cookie_key nonce cookie mac1;
      },
    )

-- The rest of ParseMessageHandshakeCookie, for the decrypted cookie.
unfoldable pub take_cookie : WgPeer → ℕ → Option (List ℕ) → Option WgPeer
take_cookie p now none = none
take_cookie p now (some cookie) = some (record p {
  rx_bytes = p.rx_bytes + 64;
  expect_cookie_reply = false;
  has_mac2_cookie = true;
  mac2_cookie_timestamp = now;
  mac2_cookie = cookie;
})

unfoldable pub check_cookie : Crypto → WgPeer → CookieMessage → ℕ → Option WgPeer
unfolding take_cookie
check_cookie c p m now =
    if p.expect_cookie_reply
    then take_cookie p now (c.xdecrypt p.precomputed_cookie_key m.nonce m.cookie_enc p.sent_mac1)
    else none

abbrev pub with_index : ℕ → Option WgPeer → Option (ℕ × WgPeer)
with_index self none = none
with_index self (some p) = some (self, p)

unfoldable pub find_waiting :
    Crypto → (ℕ → WgPeer) → CookieMessage → ℕ → Option ℕ → Option (ℕ × WgPeer)
unfolding check_cookie
find_waiting c peers m now none = none
find_waiting c peers m now (some self) = with_index self (check_cookie c (peers self) m now)

-- WgPeer::ParseMessageHandshakeCookie: the peer with its new state, or none where nothing changes.
unfoldable pub parse_message_handshake_cookie :
    Crypto → WgDevice → (ℕ → WgPeer) → CookieMessage → ℕ → Option (ℕ × WgPeer)
unfolding find_waiting
parse_message_handshake_cookie c dev peers m now =
    find_waiting c peers m now (lookup_peer_in_key_id_lookup dev m.receiver_key_id)
