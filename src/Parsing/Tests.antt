-- ===== src/Parsing/Tests.antt =====
-- Runs of the parsers of parsing_helpers.h on small packets, and their theorems at such inputs.
use fide.Base.{ℕ, ◌≤◌, ◌≡◌, refl, [], ◌∷◌, some, arith, length}
use fide.Packet.{Bytes, load8, load16}
use fide.Parsing.{
  CollectVlans, write_at, collect, skip_vlans, parse_ethhdr_vlan, parse_iphdr, parse_udphdr,
}
use fide.Parsing.Cursor.{ip4, udp, parse_layers, parse_layers-inside}

-- An Ethernet header with the tags 5 and 6, and the EtherType of IPv4 after them.
abbrev tagged : Bytes
tagged =
    0 ∷ 0 ∷ 0 ∷ 0 ∷ 0 ∷ 0 ∷ 0 ∷ 0 ∷ 0 ∷ 0 ∷ 0 ∷ 0 ∷ 0x88 ∷ 0xa8 ∷ 0x20 ∷ 5 ∷ 0x81 ∷ 0 ∷ 0 ∷ 6 ∷ 8
    ∷ 0 ∷ []

abbrev ids : CollectVlans
ids = some (0 ∷ 0 ∷ [])

tagged_run :
    parse_ethhdr_vlan tagged 0 ids
    ≡ some (record { ret = 8; pos = 22; header = some 0 }, some (5 ∷ 6 ∷ []))
unfolding parse_ethhdr_vlan skip_vlans collect write_at load8 load16
tagged_run = refl

-- An IPv4 header of 24 bytes, and a UDP header whose length field is 12.
abbrev datagram : Bytes
datagram =
    0x46 ∷ 0 ∷ 0 ∷ 36 ∷ 0 ∷ 0 ∷ 0 ∷ 0 ∷ 64 ∷ 17 ∷ 0 ∷ 0 ∷ 10 ∷ 0 ∷ 0 ∷ 1 ∷ 10 ∷ 0 ∷ 0 ∷ 2 ∷ 1 ∷ 1
    ∷ 1 ∷ 1 ∷ 0 ∷ 53 ∷ 0 ∷ 53 ∷ 0 ∷ 12 ∷ 0 ∷ 0 ∷ 1 ∷ 2 ∷ 3 ∷ 4 ∷ []

datagram_run : parse_iphdr datagram 0 ≡ some (record { ret = 17; pos = 24; header = some 0 })
unfolding parse_iphdr load8
datagram_run = refl

udp_run : parse_udphdr datagram 24 ≡ some (record { ret = 4; pos = 32; header = some 24 })
unfolding parse_udphdr load8 load16
udp_run = refl

abbrev segment : Bytes
segment = 0 ∷ 80 ∷ 0 ∷ 80 ∷ 0 ∷ 0 ∷ 0 ∷ 0 ∷ 0 ∷ 0 ∷ 0 ∷ 0 ∷ 0x50 ∷ 2 ∷ 0 ∷ 0 ∷ 0 ∷ 0 ∷ 0 ∷ 0 ∷ []

parse_layers-inside_example :
    (end : ℕ) × (parse_layers (ip4 ∷ udp ∷ []) datagram 0 ≡ some end)
    × (0 ≤ end)
    × (end ≤ length datagram)
parse_layers-inside_example = parse_layers-inside (ip4 ∷ udp ∷ []) datagram 0 (omega arith)
