-- ===== src/Handshake/Macs.antt =====
-- The macs that one side writes are those that the other checks.
use tun_safe.Base.{
  ℕ, ◌+◌, ◌-◌, ◌%◌, ◌^◌, ◌≡◌, ◌∙◌, refl, sym, ap, ap₂, true, List, ◌++◌, take, drop, length,
  length-append, length-replicate, take-length-append, drop-length-append, arith, ltb, if-both,
  ◌&&◌,
}
use tun_safe.Base.Bytes.{bytes_eq, bytes_eq_refl}
use tun_safe.Keys.{WgDevice, IpAddr}
use tun_safe.Peer.{WgPeer, Packet}
use tun_safe.Handshake.{
  Crypto, IsSized, write_mac_to_packet, cookie_secret_max_age_ms, cookie_secret_latency_ms,
}
use tun_safe.Handshake.Cookie.{check_cookie_mac1}

-- A list that ends in pieces of known length.
split_at : (n k : ℕ) (xs ys : List ℕ) → length ys ≡ k → length (xs ++ ys) - k ≡ length xs
split_at n k xs ys h = omega (arith, length-append xs ys)

pub take_front :
    (k : ℕ) (xs ys : List ℕ) → length ys ≡ k → take (length (xs ++ ys) - k) (xs ++ ys) ≡ xs
take_front k xs ys h = ap (λ n. take n (xs ++ ys)) (split_at 0 k xs ys h) ∙ take-length-append xs ys

pub drop_front :
    (k : ℕ) (xs ys : List ℕ) → length ys ≡ k → drop (length (xs ++ ys) - k) (xs ++ ys) ≡ ys
drop_front k xs ys h = ap (λ n. drop n (xs ++ ys)) (split_at 0 k xs ys h) ∙ drop-length-append xs ys

-- A packet with the macs of WriteMacToPacket at its end.
abbrev pub with_macs : Crypto → WgPeer → ℕ → List ℕ → ℕ → IpAddr → Packet
with_macs c p now bytes protocol addr =
    let (_, mac1, mac2) = write_mac_to_packet c p now bytes in
    record { bytes = bytes ++ (mac1 ++ mac2); protocol = protocol; addr = addr }

pub length-macs :
    (c : Crypto) (sized : IsSized c) (p : WgPeer) (now : ℕ) (bytes : List ℕ)
    → let (_, mac1, mac2) = write_mac_to_packet c p now bytes in
      (length mac1 ≡ 16) × (length mac2 ≡ 16)
unfolding write_mac_to_packet
length-macs c sized p now bytes =
    let fresh =
      ltb ((now + 2 ^ 64 - p.mac2_cookie_timestamp) % 2 ^ 64)
        (cookie_secret_max_age_ms - cookie_secret_latency_ms) in
    if-both (λ (t : WgPeer × List ℕ × List ℕ). (length t.1 ≡ 16) × (length t.2 ≡ 16))
      (p.has_mac2_cookie && fresh) (sized 16 bytes p.precomputed_mac1_key, sized 16 _ p.mac2_cookie)
      (sized 16 bytes p.precomputed_mac1_key, length-replicate {A = ℕ} 16 0)

-- The first mac, and what the peer remembers of it.
pub mac1_eq :
    (c : Crypto) (p : WgPeer) (now : ℕ) (bytes : List ℕ)
    → let (q, mac1, mac2) = write_mac_to_packet c p now bytes in
      (mac1 ≡ c.blake2s 16 bytes p.precomputed_mac1_key)
      × (q.sent_mac1 ≡ c.blake2s 16 bytes p.precomputed_mac1_key)
      × (q.expect_cookie_reply ≡ true)
      × (q.precomputed_cookie_key ≡ p.precomputed_cookie_key)
      × (q.precomputed_mac1_key ≡ p.precomputed_mac1_key)
unfolding write_mac_to_packet
mac1_eq c p now bytes = ground arith

-- CheckCookieMac1 reads the bytes and the first mac.
pub read_mac1 :
    (c : Crypto) (dev : WgDevice) (packet : Packet) (bytes mac1 mac2 : List ℕ)
    → packet.bytes ≡ bytes ++ (mac1 ++ mac2)
    → length mac1 ≡ 16
    → length mac2 ≡ 16
    → (take (length packet.bytes - 32) packet.bytes ≡ bytes)
      × (take 16 (drop (length packet.bytes - 32) packet.bytes) ≡ mac1)
read_mac1 c dev packet bytes mac1 mac2 e h₁ h₂ =
    let h : length (mac1 ++ mac2) ≡ 32 = omega (arith, length-append mac1 mac2) in
    (
      ap (λ (x : List ℕ). take (length x - 32) x) e ∙ take_front 32 bytes (mac1 ++ mac2) h,
      ap (λ (x : List ℕ). take 16 (drop (length x - 32) x)) e
          ∙ ap (take 16) (drop_front 32 bytes (mac1 ++ mac2) h)
          ∙ ap (λ n. take n (mac1 ++ mac2)) (sym h₁)
          ∙ take-length-append mac1 mac2,
    )

-- A message that WriteMacToPacket has finished passes CheckCookieMac1 of a device whose key for the first
-- mac is the one that the sender has for the peer.
pub check_cookie_mac1-write_mac_to_packet :
    (c : Crypto) (dev : WgDevice) (p : WgPeer) (now protocol : ℕ) (bytes : List ℕ) (addr : IpAddr)
    → IsSized c
    → p.precomputed_mac1_key ≡ dev.precomputed_mac1_key
    → check_cookie_mac1 c dev (with_macs c p now bytes protocol addr) ≡ true
unfolding check_cookie_mac1
check_cookie_mac1-write_mac_to_packet c dev p now protocol bytes addr sized key =
    let packet = with_macs c p now bytes protocol addr in
    let (_, mac1, mac2) = write_mac_to_packet c p now bytes in
    let (h₁, h₂) = length-macs c sized p now bytes in
    let (front, back) = read_mac1 c dev packet bytes mac1 mac2 refl h₁ h₂ in
    ap₂ (λ x y. bytes_eq (c.blake2s 16 x dev.precomputed_mac1_key) y) front
      (back ∙ (mac1_eq c p now bytes).0 ∙ ap (c.blake2s 16 bytes) key)
    ∙ bytes_eq_refl (c.blake2s 16 bytes dev.precomputed_mac1_key)
