-- ===== src/Rewriting/Tests.antt =====
-- Runs of rewrite_helpers.h on a small frame, and the theorem about the tags there.
use fide.Base.{ℕ, ◌≡◌, refl, [], ◌∷◌, Option, none, some, arith, if◌then◌else◌, ◌==◌}
use fide.Packet.{Bytes, load8}
use fide.Parsing.{write_at}
use fide.Rewriting.{
  read_bytes, write_bytes, swap_fields, swap_src_dst_mac, vlan_tag_pop, vlan_tag_push,
}
use fide.Rewriting.Swaps.{ipv4, swap_of, fields_before, address_size, swap_of-exchanges}
use fide.Rewriting.Vlan.{frame, tagged, vlan_tag_pop-push}

abbrev cut : Bytes → Option Bytes
cut (a ∷ b ∷ c ∷ d ∷ rest) = some rest
cut p = none

-- Moves the head by four bytes in either direction.
abbrev shift_head : Bytes → ℕ → Option Bytes
shift_head p delta = if delta == 4 then cut p else some (0 ∷ 0 ∷ 0 ∷ 0 ∷ p)

abbrev plain : Bytes
plain = frame 1 2 3 4 5 6 7 8 9 10 11 12 (8 ∷ 0 ∷ 69 ∷ [])

mac_run : swap_src_dst_mac 0 plain ≡ some (frame 7 8 9 10 11 12 1 2 3 4 5 6 (8 ∷ 0 ∷ 69 ∷ []))
unfolding swap_src_dst_mac swap_fields read_bytes write_bytes write_at load8
mac_run = refl

-- The VLAN ID 5 with the priority 5.
vlan_tag_pop-push_example :
    (vlan_tag_push shift_head plain 40965
      ≡ some (record {
        ret = 0;
        packet = tagged shift_head 1 2 3 4 5 6 7 8 9 10 11 12 8 0 (69 ∷ []) 40965;
      }))
    × (vlan_tag_pop shift_head (tagged shift_head 1 2 3 4 5 6 7 8 9 10 11 12 8 0 (69 ∷ []) 40965)
        ≡ some (record { ret = 40965; packet = plain }))
vlan_tag_pop-push_example =
    vlan_tag_pop-push shift_head 1 2 3 4 5 6 7 8 9 10 11 12 8 0 (69 ∷ []) 40965 0 0 0 0 refl refl
      (omega arith) (omega arith) (omega arith)

-- A byte, an IPv4 header without options and a byte behind it.
swap_of-exchanges_example :
    swap_of ipv4 1 (
      99 ∷ 69 ∷ 0 ∷ 0 ∷ 20 ∷ 0 ∷ 0 ∷ 0 ∷ 0 ∷ 64 ∷ 17 ∷ 0 ∷ 0 ∷ 10 ∷ 0 ∷ 0 ∷ 1 ∷ 10 ∷ 0 ∷ 0 ∷ 2 ∷ 7
      ∷ [])
    ≡ some (
        99 ∷ 69 ∷ 0 ∷ 0 ∷ 20 ∷ 0 ∷ 0 ∷ 0 ∷ 0 ∷ 64 ∷ 17 ∷ 0 ∷ 0 ∷ 10 ∷ 0 ∷ 0 ∷ 2 ∷ 10 ∷ 0 ∷ 0 ∷ 1 ∷ 7
        ∷ [])
unfolding fields_before address_size
swap_of-exchanges_example =
    swap_of-exchanges ipv4 (99 ∷ []) (69 ∷ 0 ∷ 0 ∷ 20 ∷ 0 ∷ 0 ∷ 0 ∷ 0 ∷ 64 ∷ 17 ∷ 0 ∷ 0 ∷ [])
      (10 ∷ 0 ∷ 0 ∷ 1 ∷ []) (10 ∷ 0 ∷ 0 ∷ 2 ∷ []) (7 ∷ []) refl refl refl
