-- ===== src/Rewriting/Vlan.antt =====
-- vlan_tag_push and vlan_tag_pop of rewrite_helpers.h against each other.
use fide.Base.{ℕ, ◌<◌, ◌/◌, ◌%◌, ◌≡◌, ◌∷◌, Option, some, arith, sub32}
use fide.Packet.{Bytes, load8, load16}
use fide.Parsing.{write_at}
use fide.Rewriting.{read_bytes, write_bytes, vlan_tag_pop, vlan_tag_push}

-- An Ethernet header and what is behind it.
abbrev pub frame : ℕ → ℕ → ℕ → ℕ → ℕ → ℕ → ℕ → ℕ → ℕ → ℕ → ℕ → ℕ → Bytes → Bytes
frame a b c d e f g h i j k l rest = a ∷ b ∷ c ∷ d ∷ e ∷ f ∷ g ∷ h ∷ i ∷ j ∷ k ∷ l ∷ rest

module _ (adjust_head : Bytes → ℕ → Option Bytes) (a b c d e f g h i j k l m n : ℕ) (rest : Bytes)
    (vlid : ℕ) where
  push-tag :
      (w x y z : ℕ)
      → adjust_head (frame a b c d e f g h i j k l (m ∷ n ∷ rest)) (sub32 0 4)
        ≡ some (w ∷ x ∷ y ∷ z ∷ frame a b c d e f g h i j k l (m ∷ n ∷ rest))
      → m < 256
      → n < 256
      → vlan_tag_push adjust_head (frame a b c d e f g h i j k l (m ∷ n ∷ rest)) vlid
        ≡ some (record {
          ret = 0;
          packet =
              frame a b c d e f g h i j k l
                (0x81 ∷ 0 ∷ vlid / 256 % 256 ∷ vlid % 256 ∷ m ∷ n ∷ rest);
        })
  unfolding vlan_tag_push read_bytes write_bytes write_at load8 load16
  push-tag w x y z grow low high = rw grow (ground arith)

  -- The frame with the tag.
  abbrev pub tagged : Bytes
  tagged = frame a b c d e f g h i j k l (0x81 ∷ 0 ∷ vlid / 256 % 256 ∷ vlid % 256 ∷ m ∷ n ∷ rest)

  pop-tagged :
      adjust_head tagged 4
        ≡ some (
            e ∷ f ∷ g ∷ h ∷ i ∷ j ∷ k ∷ l ∷ 0x81 ∷ 0 ∷ vlid / 256 % 256 ∷ vlid % 256 ∷ m ∷ n ∷ rest)
      → m < 256
      → n < 256
      → vlid < 65536
      → vlan_tag_pop adjust_head tagged
        ≡ some (record { ret = vlid; packet = frame a b c d e f g h i j k l (m ∷ n ∷ rest) })
  unfolding vlan_tag_pop read_bytes write_bytes write_at load8 load16
  pop-tagged cut low high small = rw cut (ground arith)

  -- vlan_tag_push of 16 bits puts them as a tag between the addresses and the type of a frame,
  -- and vlan_tag_pop of that returns all 16 of them, the priority bits above the VLAN ID included,
  -- and restores the frame; where the kernel moves the head by four bytes as asked, for bytes
  -- below 256.
  pub vlan_tag_pop-push :
      (w x y z : ℕ)
      → adjust_head (frame a b c d e f g h i j k l (m ∷ n ∷ rest)) (sub32 0 4)
        ≡ some (w ∷ x ∷ y ∷ z ∷ frame a b c d e f g h i j k l (m ∷ n ∷ rest))
      → adjust_head tagged 4
        ≡ some (
            e ∷ f ∷ g ∷ h ∷ i ∷ j ∷ k ∷ l ∷ 0x81 ∷ 0 ∷ vlid / 256 % 256 ∷ vlid % 256 ∷ m ∷ n ∷ rest)
      → m < 256
      → n < 256
      → vlid < 65536
      → (vlan_tag_push adjust_head (frame a b c d e f g h i j k l (m ∷ n ∷ rest)) vlid
          ≡ some (record { ret = 0; packet = tagged }))
        × (vlan_tag_pop adjust_head tagged
            ≡ some (record { ret = vlid; packet = frame a b c d e f g h i j k l (m ∷ n ∷ rest) }))
  vlan_tag_pop-push w x y z grow cut low high small =
      (push-tag w x y z grow low high, pop-tagged cut low high small)
