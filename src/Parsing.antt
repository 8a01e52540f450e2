-- ===== src/Parsing.antt =====
-- user+ebpf/main/common/parsing_helpers.h: the parsers of packet headers. A cursor is an offset
-- into the packet; `none` is a read past the packet's end or a write past the end of an array.
pub mod Vlan
pub mod Cursor
pub mod Lengths
mod Tests
use fide.Base.{
  ℕ, zero, suc, ◌+◌, ◌-◌, ◌*◌, ◌/◌, ◌%◌, ◌^◌, bit_and, List, [], ◌∷◌, Bool, ◌||◌, Option, none,
  some, ltb, ◌==◌, if◌then◌else◌, ◌>>=◌, length, sub32, is_neg32,
}
use fide.Packet.{Bytes, load8, load16, bpf_htons}

-- What a parser returns, an `int`; the cursor after it; and the offset that it stored through
-- the pointer to the header, if it did.
pub record Parsed : Type 0 where
  pub ret : ℕ
  pub pos : ℕ
  pub header : Option ℕ

abbrev pub minus_one : ℕ
minus_one = 2 ^ 32 - 1

abbrev pub fail : ℕ → Parsed
fail pos = record { ret = minus_one; pos = pos; header = none }

abbrev pub vlan_max_depth : ℕ
vlan_max_depth = 2

abbrev pub vlan_vid_mask : ℕ
vlan_vid_mask = 0x0fff

abbrev pub proto_is_vlan : ℕ → Bool
proto_is_vlan h_proto = h_proto == bpf_htons 0x8100 || h_proto == bpf_htons 0x88a8

-- `struct collect_vlans`, an array of `vlan_max_depth` numbers; `none` is the null pointer.
abbrev pub CollectVlans : Type 0
CollectVlans = Option (List ℕ)

unfoldable pub write_at : List ℕ → ℕ → ℕ → Option (List ℕ)
write_at [] i v = none
write_at (x ∷ xs) zero v = some (v ∷ xs)
write_at (x ∷ xs) (suc i) v = do rest ← write_at xs i v; some (x ∷ rest)

unfoldable pub collect : CollectVlans → ℕ → ℕ → Option CollectVlans
collect none i tci = some none
collect (some id) i tci = do
  id' ← write_at id i (bit_and (bpf_htons tci) vlan_vid_mask)
  some (some id')

-- The loop over the tags: the first argument is how many rounds are left, `i` is the round.
unfoldable pub skip_vlans : ℕ → Bytes → ℕ → ℕ → ℕ → CollectVlans → Option (ℕ × ℕ × CollectVlans)
skip_vlans zero p i vlh h_proto vlans = some (h_proto, vlh, vlans)
skip_vlans (suc n) p i vlh h_proto vlans =
    if proto_is_vlan h_proto
    then if ltb (length p) (vlh + 4) then some (h_proto, vlh, vlans) else (do
      inner ← load16 p (vlh + 2)
      tci ← load16 p vlh
      vlans' ← collect vlans i tci
      skip_vlans n p (suc i) (vlh + 4) inner vlans')
    else some (h_proto, vlh, vlans)

unfoldable pub parse_ethhdr_vlan : Bytes → ℕ → CollectVlans → Option (Parsed × CollectVlans)
parse_ethhdr_vlan p pos vlans = if ltb (length p) (pos + 14) then some (fail pos, vlans) else (do
  h_proto ← load16 p (pos + 12)
  (ret, vlh, vlans') ← skip_vlans vlan_max_depth p 0 (pos + 14) h_proto vlans
  some (record { ret = ret; pos = vlh; header = some pos }, vlans'))

unfoldable pub parse_ethhdr : Bytes → ℕ → Option Parsed
parse_ethhdr p pos = do (r, vlans) ← parse_ethhdr_vlan p pos none; some r

-- A header of fixed size, of which a parser returns the byte at `field`.
unfoldable pub parse_fixed : ℕ → ℕ → Bytes → ℕ → Option Parsed
parse_fixed size field p pos = if ltb (length p) (pos + size) then some (fail pos) else (do
  value ← load8 p (pos + field)
  some (record { ret = value; pos = pos + size; header = some pos }))

unfoldable pub parse_ip6hdr : Bytes → ℕ → Option Parsed
parse_ip6hdr = parse_fixed 40 6

unfoldable pub parse_icmp6hdr : Bytes → ℕ → Option Parsed
parse_icmp6hdr = parse_fixed 8 0

unfoldable pub parse_icmphdr : Bytes → ℕ → Option Parsed
parse_icmphdr = parse_fixed 8 0

unfoldable pub parse_icmphdr_common : Bytes → ℕ → Option Parsed
parse_icmphdr_common = parse_fixed 4 0

-- `ihl` is the lower half of the first byte.
unfoldable pub parse_iphdr : Bytes → ℕ → Option Parsed
parse_iphdr p pos = if ltb (length p) (pos + 20) then some (fail pos) else (do
  first ← load8 p pos
  let hdrsize = first % 16 * 4
  if ltb hdrsize 20
      then some (fail pos)
      else if ltb (length p) (pos + hdrsize)
      then some (fail pos)
      else do
        protocol ← load8 p (pos + 9)
        some (record { ret = protocol; pos = pos + hdrsize; header = some pos }))

-- The cursor and the header are stored before the length is looked at.
unfoldable pub parse_udphdr : Bytes → ℕ → Option Parsed
parse_udphdr p pos = if ltb (length p) (pos + 8) then some (fail pos) else (do
  field ← load16 p (pos + 4)
  let len = sub32 (bpf_htons field) 8
  some (record { ret = if is_neg32 len then minus_one else len; pos = pos + 8; header = some pos }))

-- `doff` is the upper half of its byte.
unfoldable pub parse_tcphdr : Bytes → ℕ → Option Parsed
parse_tcphdr p pos = if ltb (length p) (pos + 20) then some (fail pos) else (do
  offset ← load8 p (pos + 12)
  let len = offset / 16 % 16 * 4
  if ltb len 20
      then some (fail pos)
      else if ltb (length p) (pos + len)
      then some (fail pos)
      else some (record { ret = len; pos = pos + len; header = some pos }))
