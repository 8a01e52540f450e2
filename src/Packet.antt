-- ===== src/Packet.antt =====
-- A packet as the bytes from `data` to `data_end`; a pointer into it is an offset. The host is
-- little-endian, as the machines the programs are built for. `none` is a read past `data_end`.
use fide.Base.{
  ℕ, ◌+◌, ◌*◌, ◌/◌, ◌%◌, ◌≤◌, ◌≡◌, arith, Option, some, List, ◌>>=◌, length, get_elem?, get_or,
  get_elem?-eq-get_or,
}

abbrev pub Bytes : Type 0
Bytes = List ℕ

unfoldable pub load8 : Bytes → ℕ → Option ℕ
load8 p off = get_elem? p off

unfoldable pub load16 : Bytes → ℕ → Option ℕ
unfolding load8
load16 p off = do a ← load8 p off; b ← load8 p (off + 1); some (a + b * 256)

unfoldable pub load32 : Bytes → ℕ → Option ℕ
unfolding load16
load32 p off = do a ← load16 p off; b ← load16 p (off + 2); some (a + b * 65536)

-- `bpf_htons` and `bpf_ntohs`: the two bytes of a 16-bit number are swapped.
abbrev pub bpf_htons : ℕ → ℕ
bpf_htons n = n % 256 * 256 + n / 256 % 256

abbrev pub byte_at : Bytes → ℕ → ℕ
byte_at p off = get_or p off 0

-- What a load returns, and that it has a value inside the packet.
pub load8-some : (p : Bytes) (off : ℕ) → off + 1 ≤ length p → load8 p off ≡ some (byte_at p off)
unfolding load8
load8-some p off h = get_elem?-eq-get_or p off 0 (omega arith)

pub load16-some :
    (p : Bytes) (off : ℕ)
    → off + 2 ≤ length p
    → load16 p off ≡ some (byte_at p off + byte_at p (off + 1) * 256)
unfolding load16
load16-some p off h = ground (arith, get_elem?-eq-get_or p off 0, get_elem?-eq-get_or p (off + 1) 0)

abbrev pub word_at : Bytes → ℕ → ℕ
word_at p off =
    byte_at p off
    + byte_at p (off + 1) * 256
    + (byte_at p (off + 2) + byte_at p (off + 2 + 1) * 256) * 65536

pub load32-some : (p : Bytes) (off : ℕ) → off + 4 ≤ length p → load32 p off ≡ some (word_at p off)
unfolding load32
load32-some p off h = ground (
  arith,
  get_elem?-eq-get_or p off 0,
  get_elem?-eq-get_or p (off + 1) 0,
  get_elem?-eq-get_or p (off + 2) 0,
  get_elem?-eq-get_or p (off + 2 + 1) 0,
)
