-- ===== src/Parsing/Lengths.antt =====
-- The headers of parsing_helpers.h whose length is in the packet.
use fide.Base.{
  ℕ, ◌+◌, ◌-◌, ◌*◌, ◌/◌, ◌%◌, ◌<◌, ◌≡◌, some, arith, length, Bool, ◌&&◌, ltb, leb, if◌then◌else◌,
}
use fide.Packet.{Bytes, byte_at, load8-some, load16-some}
use fide.Parsing.{minus_one, parse_iphdr, parse_udphdr, parse_tcphdr, fail}

-- The length that the header's own field states.
abbrev pub ip_size : Bytes → ℕ → ℕ
ip_size p pos = byte_at p pos % 16 * 4

abbrev pub tcp_size : Bytes → ℕ → ℕ
tcp_size p pos = byte_at p (pos + 12) / 16 % 16 * 4

-- The header is complete, with its options, and its length is possible.
abbrev pub is_complete : Bytes → ℕ → ℕ → Bool
is_complete p pos size = leb (pos + 20) (length p) && leb 20 size && leb (pos + size) (length p)

-- parse_iphdr returns the protocol and moves the cursor behind the header's options where the
-- header is complete; else it fails and stores nothing.
pub parse_iphdr_lem :
    (p : Bytes) (pos : ℕ)
    → parse_iphdr p pos
      ≡ some (
          if is_complete p pos (ip_size p pos)
          then record { ret = byte_at p (pos + 9); pos = pos + ip_size p pos; header = some pos }
          else fail pos)
unfolding parse_iphdr
parse_iphdr_lem p pos = ground (arith, load8-some p pos, load8-some p (pos + 9))

-- parse_tcphdr returns the header's length and moves the cursor behind it where the header is
-- complete; else it fails and stores nothing.
pub parse_tcphdr_lem :
    (p : Bytes) (pos : ℕ)
    → parse_tcphdr p pos
      ≡ some (
          if is_complete p pos (tcp_size p pos)
          then record { ret = tcp_size p pos; pos = pos + tcp_size p pos; header = some pos }
          else fail pos)
unfolding parse_tcphdr
parse_tcphdr_lem p pos = ground (arith, load8-some p (pos + 12))

-- The length field of the UDP header at `pos`, which is in network byte order.
abbrev pub udp_length : Bytes → ℕ → ℕ
udp_length p pos = byte_at p (pos + 4) % 256 * 256 + byte_at p (pos + 5) % 256

-- parse_udphdr returns the length of the payload, or -1 where the length field is less than the
-- header's own length; the cursor moves behind the header in both cases, and stays where the
-- header is cut off. For bytes below 256.
pub parse_udphdr_lem :
    (p : Bytes) (pos : ℕ)
    → byte_at p (pos + 4) < 256
    → byte_at p (pos + 5) < 256
    → parse_udphdr p pos
      ≡ some (
          if ltb (length p) (pos + 8) then fail pos else record {
            ret = if ltb (udp_length p pos) 8 then minus_one else udp_length p pos - 8;
            pos = pos + 8;
            header = some pos;
          })
unfolding parse_udphdr
parse_udphdr_lem p pos low high = ground (arith, load16-some p (pos + 4))
