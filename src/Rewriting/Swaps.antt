-- ===== src/Rewriting/Swaps.antt =====
-- The swaps of addresses of rewrite_helpers.h.
use mathlib.Core.List.{append_assoc}
use fide.Base.{
  ℕ, zero, suc, ◌+◌, ◌≡◌, refl, sym, ap, ◌∙◌, arith, [], ◌∷◌, ◌++◌, Option, some, length,
  length-append,
}
use fide.Packet.{Bytes, load8}
use fide.Parsing.{write_at}
use fide.Rewriting.{
  read_bytes, write_bytes, swap_fields, swap_src_dst_mac, swap_src_dst_ipv4, swap_src_dst_ipv6,
}

load8-at : (x : Bytes) (b : ℕ) (r : Bytes) → load8 (x ++ b ∷ r) (length x) ≡ some b
unfolding load8
load8-at [] b r = refl
load8-at (c ∷ x) b r = load8-at x b r

write_at-at :
    (x : Bytes) (b v : ℕ) (r : Bytes) → write_at (x ++ b ∷ r) (length x) v ≡ some (x ++ v ∷ r)
unfolding write_at
write_at-at [] b v r = refl
write_at-at (c ∷ x) b v r = rw (write_at-at x b v r) refl

-- One byte more before.
snoc_first : (x : Bytes) (b : ℕ) (r : Bytes) → x ++ b ∷ r ≡ (x ++ b ∷ []) ++ r
snoc_first x b r = sym (append_assoc x (b ∷ []) r)

-- Reading and writing the bytes `m` between `x` and `r`.
read_bytes-at :
    (x m r : Bytes) (n off : ℕ)
    → length m ≡ n
    → length x ≡ off
    → read_bytes n (x ++ (m ++ r)) off ≡ some m
unfolding read_bytes
read_bytes-at x [] r zero off e f = refl
read_bytes-at x [] r (suc n) off e f = absurd (omega arith)
read_bytes-at x (b ∷ m) r zero off e f = absurd (omega arith)
read_bytes-at x (b ∷ m) r (suc n) off e f =
    let one : load8 (x ++ b ∷ (m ++ r)) off ≡ some b =
      ap (λ o. load8 (x ++ b ∷ (m ++ r)) o) (sym f) ∙ load8-at x b (m ++ r) in
    let rest : read_bytes n (x ++ b ∷ (m ++ r)) (off + 1) ≡ some m =
      ap (λ p. read_bytes n p (off + 1)) (snoc_first x b (m ++ r))
      ∙ read_bytes-at (x ++ b ∷ []) m r n (off + 1) (omega arith)
          (omega (arith, length-append x (b ∷ []))) in
    rw one (rw rest refl)

write_bytes-at :
    (v x m r : Bytes) (off : ℕ)
    → length v ≡ length m
    → length x ≡ off
    → write_bytes v (x ++ (m ++ r)) off ≡ some (x ++ (v ++ r))
unfolding write_bytes
write_bytes-at [] x [] r off e f = refl
write_bytes-at [] x (b ∷ m) r off e f = absurd (omega arith)
write_bytes-at (w ∷ v) x [] r off e f = absurd (omega arith)
write_bytes-at (w ∷ v) x (b ∷ m) r off e f =
    let one : write_at (x ++ b ∷ (m ++ r)) off w ≡ some (x ++ w ∷ (m ++ r)) =
      ap (λ o. write_at (x ++ b ∷ (m ++ r)) o w) (sym f) ∙ write_at-at x b w (m ++ r) in
    let rest : write_bytes v (x ++ w ∷ (m ++ r)) (off + 1) ≡ some (x ++ w ∷ (v ++ r)) =
      ap (λ p. write_bytes v p (off + 1)) (snoc_first x w (m ++ r))
      ∙ write_bytes-at v (x ++ w ∷ []) m r (off + 1) (omega arith)
          (omega (arith, length-append x (w ∷ [])))
      ∙ ap some (append_assoc x (w ∷ []) (v ++ r)) in
    rw one rest

module _ (x s d z : Bytes) (n : ℕ) (e : length s ≡ n) (f : length d ≡ n) where
  -- The offset behind `x` and one of the two fields.
  behind : (m : Bytes) → length m ≡ n → length (x ++ m) ≡ length x + n
  behind m g = omega (arith, length-append x m)

  read_later :
      (m r : Bytes) → length m ≡ n → read_bytes n (x ++ (m ++ (d ++ r))) (length x + n) ≡ some d
  read_later m r g =
      ap (λ p. read_bytes n p (length x + n)) (sym (append_assoc x m (d ++ r)))
      ∙ read_bytes-at (x ++ m) d r n (length x + n) f (behind m g)

  write_later :
      (v m w r : Bytes)
      → length m ≡ n
      → length v ≡ length w
      → write_bytes v (x ++ (m ++ (w ++ r))) (length x + n) ≡ some (x ++ (m ++ (v ++ r)))
  write_later v m w r g h =
      ap (λ p. write_bytes v p (length x + n)) (sym (append_assoc x m (w ++ r)))
      ∙ write_bytes-at v (x ++ m) w r (length x + n) h (behind m g)
      ∙ ap some (append_assoc x m (v ++ r))

  swap_forward :
      swap_fields n (length x) (length x + n) (x ++ (s ++ (d ++ z))) ≡ some (x ++ (d ++ (s ++ z)))
  unfolding swap_fields
  swap_forward = rw (read_bytes-at x s (d ++ z) n (length x) e refl) (
      rw (read_later s z e) (
        rw (write_bytes-at d x s (d ++ z) (length x) (omega arith) refl)
          (write_later s d d z f (omega arith))))

  swap_backward :
      swap_fields n (length x + n) (length x) (x ++ (s ++ (d ++ z))) ≡ some (x ++ (d ++ (s ++ z)))
  unfolding swap_fields
  swap_backward = rw (read_later s z e) (
      rw (read_bytes-at x s (d ++ z) n (length x) e refl) (
        rw (write_later s s d z e (omega arith))
          (write_bytes-at d x s (s ++ z) (length x) (omega arith) refl)))

-- The fields stand behind `before`.
swap_behind :
    (x before s d z : Bytes) (n k : ℕ)
    → length s ≡ n
    → length d ≡ n
    → length before ≡ k
    → (off : ℕ) → off ≡ length x + k + n
    → swap_fields n (length x + k) off (x ++ (before ++ (s ++ (d ++ z))))
      ≡ some (x ++ (before ++ (d ++ (s ++ z))))
swap_behind x before s d z n k e f b off h =
    let start : length x + k ≡ length (x ++ before) = omega (arith, length-append x before) in
    let next : off ≡ length (x ++ before) + n = omega (arith, start) in
    ap (λ o. swap_fields n o off (x ++ (before ++ (s ++ (d ++ z))))) start
    ∙ ap (λ o. swap_fields n (length (x ++ before)) o (x ++ (before ++ (s ++ (d ++ z))))) next
    ∙ ap (λ p. swap_fields n (length (x ++ before)) (length (x ++ before) + n) p)
        (sym (append_assoc x before (s ++ (d ++ z))))
    ∙ swap_forward (x ++ before) s d z n e f
    ∙ ap some (append_assoc x before (d ++ (s ++ z)))

-- The three functions: of which header, its fields before the addresses, and their size.
pub data Swap : Type 0 where
  mac ipv4 ipv6 : Swap

unfoldable pub swap_of : Swap → ℕ → Bytes → Option Bytes
swap_of mac = swap_src_dst_mac
swap_of ipv4 = swap_src_dst_ipv4
swap_of ipv6 = swap_src_dst_ipv6

unfoldable pub fields_before : Swap → ℕ
fields_before mac = 0
fields_before ipv4 = 12
fields_before ipv6 = 8

unfoldable pub address_size : Swap → ℕ
address_size mac = 6
address_size ipv4 = 4
address_size ipv6 = 16

-- Each of the three swaps exchanges the two addresses of the header at its offset and leaves every
-- other byte as it is.
pub swap_of-exchanges :
    (w : Swap) (x before s d z : Bytes)
    → length before ≡ fields_before w
    → length s ≡ address_size w
    → length d ≡ address_size w
    → swap_of w (length x) (x ++ (before ++ (s ++ (d ++ z))))
      ≡ some (x ++ (before ++ (d ++ (s ++ z))))
unfolding swap_of fields_before address_size swap_src_dst_mac swap_src_dst_ipv4 swap_src_dst_ipv6
swap_of-exchanges mac x [] s d z b e f = swap_backward x s d z 6 e f
swap_of-exchanges mac x (c ∷ before) s d z b e f = absurd (omega arith)
swap_of-exchanges ipv4 x before s d z b e f =
    swap_behind x before s d z 4 12 e f b (length x + 16) (omega arith)
swap_of-exchanges ipv6 x before s d z b e f =
    swap_behind x before s d z 16 8 e f b (length x + 24) (omega arith)
