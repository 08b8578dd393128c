-- ===== src/Keys/Tests.antt =====
-- The table of key ids at inputs that meet the hypotheses of its theorem.
use tun_safe.Base.{refl, inl, inr, some, [], ◌∷◌, arith}
use tun_safe.Keys.Table.{insert_in_key_id_lookup}
use tun_safe.Keys.Ids.{IsInserted, insert_in_key_id_lookup_lem}
use tun_safe.Peer.Tests.{some_device}

-- Key id 7 is taken, and is the owner's old one; the third number drawn is free.
insert_in_key_id_lookup_lem_example :
    IsInserted some_device 0
      (some 1)
      7
      (insert_in_key_id_lookup some_device 0 (some 1) 7 (0 ∷ 7 ∷ 12 ∷ []))
insert_in_key_id_lookup_lem_example =
    insert_in_key_id_lookup_lem some_device 0 (some 1) 7 (0 ∷ 7 ∷ 12 ∷ []) (inr (ground arith))
      (inr (inr (inl (omega arith, refl))))
