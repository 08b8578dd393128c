-- ===== src/Keys/AddrEntries.antt =====
-- The table of address entries (addr_entry_lookup_), by which a packet with no key id finds its
-- keypair: up to three keypairs for each address and port.
use tun_safe.Base.{
  ℕ, suc, ◌+◌, ◌-◌, ◌/◌, ◌%◌, ◌*◌, ◌^◌, Option, none, some, [], ◌∷◌, ltb, ◌==◌, if◌then◌else◌,
  get_or, set,
}
use tun_safe.Keys.{
  IpAddr, unset, v4, v6, IpPort, ip_port_eq, update, update_addr, WgAddrEntry, WgDevice,
  put_keypair,
}

-- ConvertIpAddrToAddrX. AF_INET6 is 10 on Linux.
unfoldable pub convert_ip_addr : IpAddr → IpPort
convert_ip_addr unset = record { low = 0; high = 0; tail = 10 * 2 ^ 16 }
convert_ip_addr (v4 a p) = record { low = a; high = 0; tail = p }
convert_ip_addr (v6 a p) = record {
  low = a % 2 ^ 64;
  high = a / 2 ^ 64 % 2 ^ 64;
  tail = 10 * 2 ^ 16 + p;
}

-- WgDevice::EraseKeypairAddrEntry_Locked, on a keypair whose entry is `e`. `ref_count` is a uint8.
unfoldable pub erase_keypair_addr_entry : WgDevice → ℕ → ℕ → WgDevice
erase_keypair_addr_entry dev k e =
    let kp = dev.keypairs k in
    let ae = dev.addr_entries e in
    let ae' = record ae {
      ref_count = (ae.ref_count + 255) % 256;
      keys = set ae.keys (kp.addr_entry_slot - 1) none;
    } in
    record dev {
      keypairs = update dev.keypairs k (record kp { addr_entry = none; addr_entry_slot = 0 });
      addr_entries = update dev.addr_entries e ae';
      addr_entry_lookup =
          if ae.ref_count == 1
          then update_addr dev.addr_entry_lookup ae.addr_entry_id none
          else dev.addr_entry_lookup;
    }

-- WgDevice::LookupKeypairInAddrEntryMap
unfoldable pub lookup_keypair_in_addr_entry_map : WgDevice → IpAddr → ℕ → Option ℕ
unfolding convert_ip_addr
lookup_keypair_in_addr_entry_map dev addr slot =
    elim (dev.addr_entry_lookup (convert_ip_addr addr)) [
      | none ↦ none
      | some e ↦ get_or (dev.addr_entries e).keys slot none
    ]

-- `new WgAddrEntry(addr_x)`
abbrev pub new_addr_entry : IpPort → WgAddrEntry
new_addr_entry x = record {
  addr_entry_id = x;
  ref_count = 0;
  next_slot = 0;
  time_of_last_insertion = 0;
  keys = none ∷ none ∷ none ∷ [];
}

-- The keypair that loses its slot, if there is one.
unfoldable pub evict : WgDevice → Option ℕ → WgDevice
evict dev none = dev
evict dev (some k) =
    put_keypair dev k (record (dev.keypairs k) { addr_entry = none; addr_entry_slot = 0 })

-- From `ae->time_of_last_insertion = …` on: `k` takes the next slot of the entry `e`.
unfoldable pub register : WgDevice → ℕ → ℕ → WgDevice
unfolding evict
register dev e k =
    let ae = dev.addr_entries e in
    let old = get_or ae.keys ae.next_slot none in
    let ae' = record ae {
      time_of_last_insertion = dev.low_resolution_timestamp;
      next_slot = if ae.next_slot == 2 then 0 else ae.next_slot + 1;
      keys = set ae.keys ae.next_slot (some k);
      ref_count = elim old [ none ↦ (ae.ref_count + 1) % 256 | some j ↦ ae.ref_count ];
    } in
    let stored =
      put_keypair dev k
        (record (dev.keypairs k) { addr_entry = some e; addr_entry_slot = ae.next_slot + 1 }) in
    let dev' = evict (record stored { addr_entries = update dev.addr_entries e ae' }) old in
    put_keypair dev' k (record (dev'.keypairs k) { broadcast_short_key = 1 })

-- The entry of the address: the one there is, unless it was written in the last minute.
unfoldable pub take_entry : WgDevice → IpPort → ℕ → WgDevice
unfolding register
take_entry dev x k = elim (dev.addr_entry_lookup x) [
  | none ↦
      let e = dev.next_entry in
      register
        (record dev {
          next_entry = suc e;
          addr_entry_lookup = update_addr dev.addr_entry_lookup x (some e);
          addr_entries = update dev.addr_entries e (new_addr_entry x);
        })
        e k
  | some e ↦
      if ltb dev.low_resolution_timestamp ((dev.addr_entries e).time_of_last_insertion + 1000 * 60)
      then dev
      else register dev e k
]

-- WgDevice::UpdateKeypairAddrEntry_Locked
unfoldable pub update_keypair_addr_entry : WgDevice → IpAddr → ℕ → WgDevice
unfolding convert_ip_addr erase_keypair_addr_entry take_entry
update_keypair_addr_entry dev addr k =
    let x = convert_ip_addr addr in
    let kp = dev.keypairs k in
    elim kp.addr_entry [
      | none ↦ take_entry dev x k
      | some e ↦
          if ip_port_eq (dev.addr_entries e).addr_entry_id x
          then put_keypair dev k (record kp { broadcast_short_key = 1 })
          else take_entry (erase_keypair_addr_entry dev k e) x k
    ]
