-- ===== src/Parsing/Cursor.antt =====
-- The parsers of parsing_helpers.h, one after the other, on any bytes: no read past the end, and
-- the cursor stays in the packet.
use fide.Base.{
  ℕ, ◌+◌, ◌*◌, ◌≤◌, ◌≡◌, refl, inl, inr, Bool-cases, sub32, is_neg32, List, [], ◌∷◌, Option, none,
  some, ◌>>=◌, arith, length, if◌then◌else◌,
}
use native.Mathlib.Decide.{dec_lt}
use fide.Packet.{Bytes, bpf_htons, byte_at, load8-some, load16-some}
use fide.Parsing.{
  Parsed, minus_one, parse_ethhdr, parse_fixed, parse_ip6hdr, parse_icmp6hdr, parse_icmphdr,
  parse_icmphdr_common, parse_iphdr, parse_udphdr, parse_tcphdr, fail,
}
use fide.Parsing.Lengths.{ip_size, tcp_size, is_complete, parse_iphdr_lem, parse_tcphdr_lem}
use fide.Parsing.Vlan.{type_after, parse_ethhdr_vlan-Skipped, parse_ethhdr_vlan-short}

-- The headers for which there is a parser.
pub data Layer : Type 0 where
  eth ip6 ip4 icmp6 icmp icmp_common udp tcp : Layer

unfoldable pub parse : Layer → Bytes → ℕ → Option Parsed
parse eth = parse_ethhdr
parse ip6 = parse_ip6hdr
parse ip4 = parse_iphdr
parse icmp6 = parse_icmp6hdr
parse icmp = parse_icmphdr
parse icmp_common = parse_icmphdr_common
parse udp = parse_udphdr
parse tcp = parse_tcphdr

-- The smallest size of a header.
unfoldable pub least_size : Layer → ℕ
least_size eth = 14
least_size ip6 = 40
least_size ip4 = 20
least_size icmp6 = 8
least_size icmp = 8
least_size icmp_common = 4
least_size udp = 8
least_size tcp = 20

-- A parser ran at `pos`: it failed and stored nothing, or it stored the header's offset and moved
-- the cursor past the header, inside the packet.
pub data Ran (p : Bytes) (pos least : ℕ) (r : Parsed) : Type 0 where
  failed : r ≡ fail pos → Ran p pos least r
  took : r.header ≡ some pos → pos + least ≤ r.pos → r.pos ≤ length p → Ran p pos least r

Ran-inside :
    {p : Bytes} {pos least : ℕ} {r : Parsed}
    → Ran p pos least r
    → pos ≤ length p
    → (pos ≤ r.pos) × (r.pos ≤ length p)
Ran-inside (failed e) h = ground arith
Ran-inside (took e a b) h = (omega arith, omega arith)

parse_eth-Ran :
    (p : Bytes) (pos : ℕ) → (r : Parsed) × (parse_ethhdr p pos ≡ some r) × Ran p pos 14 r
unfolding parse_ethhdr
parse_eth-Ran p pos = elim (dec_lt (length p) (pos + 14)) [
  | yes h ↦ (fail pos, ground (arith, parse_ethhdr_vlan-short p pos none h), failed refl)
  | no h ↦
      let (w, vlans, e, _) = parse_ethhdr_vlan-Skipped p pos none tt (omega arith) in
      (
        record { ret = type_after p pos w.tags; pos = pos + 14 + 4 * w.tags; header = some pos },
        ground (arith, e),
        took refl (omega arith) (omega (arith, w.inside)),
      )
]

parse_fixed-Ran :
    (size field : ℕ) (p : Bytes) (pos : ℕ)
    → field + 1 ≤ size
    → (r : Parsed) × (parse_fixed size field p pos ≡ some r) × Ran p pos size r
unfolding parse_fixed
parse_fixed-Ran size field p pos b = elim (dec_lt (length p) (pos + size)) [
  | yes h ↦ (fail pos, ground arith, failed refl)
  | no h ↦ (
    record { ret = byte_at p (pos + field); pos = pos + size; header = some pos },
    ground (arith, load8-some p (pos + field)),
    took refl (omega arith) (omega arith),
  )
]

parse_ip4-Ran : (p : Bytes) (pos : ℕ) → (r : Parsed) × (parse_iphdr p pos ≡ some r) × Ran p pos 20 r
parse_ip4-Ran p pos = elim (Bool-cases (is_complete p pos (ip_size p pos))) [
  | inr c ↦ (fail pos, ground (arith, parse_iphdr_lem p pos), failed refl)
  | inl c ↦ (
    record { ret = byte_at p (pos + 9); pos = pos + ip_size p pos; header = some pos },
    ground (arith, parse_iphdr_lem p pos),
    took refl (ground arith) (ground arith),
  )
]

parse_tcp-Ran :
    (p : Bytes) (pos : ℕ) → (r : Parsed) × (parse_tcphdr p pos ≡ some r) × Ran p pos 20 r
parse_tcp-Ran p pos = elim (Bool-cases (is_complete p pos (tcp_size p pos))) [
  | inr c ↦ (fail pos, ground (arith, parse_tcphdr_lem p pos), failed refl)
  | inl c ↦ (
    record { ret = tcp_size p pos; pos = pos + tcp_size p pos; header = some pos },
    ground (arith, parse_tcphdr_lem p pos),
    took refl (ground arith) (ground arith),
  )
]

parse_udp-Ran : (p : Bytes) (pos : ℕ) → (r : Parsed) × (parse_udphdr p pos ≡ some r) × Ran p pos 8 r
unfolding parse_udphdr
parse_udp-Ran p pos = elim (dec_lt (length p) (pos + 8)) [
  | yes h ↦ (fail pos, ground arith, failed refl)
  | no h ↦
      let len = sub32 (bpf_htons (byte_at p (pos + 4) + byte_at p (pos + 4 + 1) * 256)) 8 in
      (
        record { ret = if is_neg32 len then minus_one else len; pos = pos + 8; header = some pos },
        ground (arith, load16-some p (pos + 4)),
        took refl (omega arith) (omega arith),
      )
]

-- Each parser, on any bytes and at any cursor, is defined: it fails and stores nothing, or it
-- stores the header's offset and moves the cursor by at least the header's smallest size, to a
-- place in the packet.
pub parse-Ran :
    (layer : Layer) (p : Bytes) (pos : ℕ)
    → (r : Parsed) × (parse layer p pos ≡ some r) × Ran p pos (least_size layer) r
unfolding parse least_size parse_ip6hdr parse_icmp6hdr parse_icmphdr parse_icmphdr_common
parse-Ran eth p pos = parse_eth-Ran p pos
parse-Ran ip6 p pos = parse_fixed-Ran 40 6 p pos (omega arith)
parse-Ran ip4 p pos = parse_ip4-Ran p pos
parse-Ran icmp6 p pos = parse_fixed-Ran 8 0 p pos (omega arith)
parse-Ran icmp p pos = parse_fixed-Ran 8 0 p pos (omega arith)
parse-Ran icmp_common p pos = parse_fixed-Ran 4 0 p pos (omega arith)
parse-Ran udp p pos = parse_udp-Ran p pos
parse-Ran tcp p pos = parse_tcp-Ran p pos

-- Parsers one after the other, each at the cursor that the one before left.
unfoldable pub parse_layers : List Layer → Bytes → ℕ → Option ℕ
parse_layers [] p pos = some pos
parse_layers (layer ∷ layers) p pos = do r ← parse layer p pos; parse_layers layers p r.pos

-- Any sequence of parsers from a cursor in the packet is defined and leaves the cursor in the
-- packet, not before where it was, whatever the bytes.
pub parse_layers-inside :
    (layers : List Layer) (p : Bytes) (pos : ℕ)
    → pos ≤ length p
    → (end : ℕ) × (parse_layers layers p pos ≡ some end) × (pos ≤ end) × (end ≤ length p)
unfolding parse_layers
parse_layers-inside [] p pos h = (pos, refl, omega arith, h)
parse_layers-inside (layer ∷ layers) p pos h =
    let (r, e, ran) = parse-Ran layer p pos in
    let (end, f, a, b) = parse_layers-inside layers p r.pos (Ran-inside ran h).1 in
    (end, ground arith, omega (arith, (Ran-inside ran h).0), b)
