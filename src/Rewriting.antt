-- ===== src/Rewriting.antt =====
-- user+ebpf/main/common/rewrite_helpers.h: changes of a packet's headers. A packet is changed in
-- place, so the new bytes are returned; `none` is an access past the packet's end.
pub mod Vlan
pub mod Swaps
mod Tests
use fide.Base.{
  ℕ, zero, suc, ◌+◌, ◌/◌, ◌%◌, List, [], ◌∷◌, ◌++◌, Option, none, some, ltb, if◌then◌else◌, ◌>>=◌,
  length, sub32, not,
}
use fide.Packet.{Bytes, load8, load16, bpf_htons}
use fide.Parsing.{proto_is_vlan, minus_one, write_at}

-- `__builtin_memcpy` of `n` bytes out of the packet, and of bytes into it.
unfoldable pub read_bytes : ℕ → Bytes → ℕ → Option Bytes
read_bytes zero p off = some []
read_bytes (suc n) p off = do b ← load8 p off; bs ← read_bytes n p (off + 1); some (b ∷ bs)

unfoldable pub write_bytes : Bytes → Bytes → ℕ → Option Bytes
write_bytes [] p off = some p
write_bytes (b ∷ bs) p off = do p' ← write_at p off b; write_bytes bs p' (off + 1)

-- A 16-bit number as it is stored.
abbrev pub bytes16 : ℕ → Bytes
bytes16 v = v % 256 ∷ v / 256 % 256 ∷ []

-- What a function returns, an `int`, and the packet after it.
pub record Rewritten : Type 0 where
  pub ret : ℕ
  pub packet : Bytes

-- `bpf_xdp_adjust_head` is the kernel's: the packet with its head moved by an `int`, or `none`
-- where it returns an error. The Ethernet header is at the packet's start.
module _ (adjust_head : Bytes → ℕ → Option Bytes) where
  unfoldable pub vlan_tag_pop : Bytes → Option Rewritten
  vlan_tag_pop p = do
    outer ← load16 p 12
    if not (proto_is_vlan outer)
        then some (record { ret = minus_one; packet = p })
        else if ltb (length p) 18
        then some (record { ret = minus_one; packet = p })
        else do
          tci ← load16 p 14
          h_proto ← load16 p 16
          eth_cpy ← read_bytes 14 p 0
          elim (adjust_head p 4) [
            | none ↦ some (record { ret = minus_one; packet = p })
            | some cut ↦
                if ltb (length cut) 14 then some (record { ret = minus_one; packet = cut }) else (do
                  copied ← write_bytes eth_cpy cut 0
                  typed ← write_bytes (bytes16 h_proto) copied 12
                  some (record { ret = bpf_htons tci; packet = typed }))
          ]

  unfoldable pub vlan_tag_push : Bytes → ℕ → Option Rewritten
  vlan_tag_push p vlid = do
    eth_cpy ← read_bytes 14 p 0
    elim (adjust_head p (sub32 0 4)) [
      | none ↦ some (record { ret = minus_one; packet = p })
      | some grown ↦
          if ltb (length grown) 14 then some (record { ret = minus_one; packet = grown }) else (do
            copied ← write_bytes eth_cpy grown 0
            if ltb (length copied) 18
                then some (record { ret = minus_one; packet = copied })
                else do
                  tagged ← write_bytes (bytes16 (bpf_htons vlid)) copied 14
                  h_proto ← load16 tagged 12
                  inner ← write_bytes (bytes16 h_proto) tagged 16
                  outer ← write_bytes (bytes16 (bpf_htons 0x8100)) inner 12
                  some (record { ret = 0; packet = outer }))
    ]

-- The `size` bytes at `a` and those at `b` change places.
unfoldable pub swap_fields : ℕ → ℕ → ℕ → Bytes → Option Bytes
swap_fields size a b p = do
  tmp ← read_bytes size p a
  other ← read_bytes size p b
  p' ← write_bytes other p a
  write_bytes tmp p' b

-- In the Ethernet, IPv6 and IPv4 header at `h`.
unfoldable pub swap_src_dst_mac : ℕ → Bytes → Option Bytes
swap_src_dst_mac h p = swap_fields 6 (h + 6) h p

unfoldable pub swap_src_dst_ipv6 : ℕ → Bytes → Option Bytes
swap_src_dst_ipv6 h p = swap_fields 16 (h + 8) (h + 24) p

unfoldable pub swap_src_dst_ipv4 : ℕ → Bytes → Option Bytes
swap_src_dst_ipv4 h p = swap_fields 4 (h + 12) (h + 16) p
