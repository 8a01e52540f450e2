-- ===== src/Parsing/Vlan.antt =====
-- The loop of parse_ethhdr_vlan over the VLAN tags.
use fide.Base.{
  bit_and, ℕ, zero, suc, ◌+◌, ◌*◌, ◌≤◌, ◌<◌, ◌≡◌, ◌⊎◌, inl, inr, refl, List, [], ◌∷◌, true, false,
  none, some, arith, length, Bool-cases, get_elem?, leb, ltb, ◌==◌, ◌&&◌, if◌then◌else◌, ◌∙◌,
}
use native.Mathlib.Decide.{dec_lt}
use fide.Packet.{Bytes, bpf_htons, byte_at, load16-some}
use fide.Parsing.{
  proto_is_vlan, CollectVlans, write_at, collect, skip_vlans, vlan_max_depth, vlan_vid_mask, fail,
  parse_ethhdr_vlan, fail,
}

-- The EtherType field of the header at `pos` after `k` tags, as it stands in the packet.
abbrev pub type_after : Bytes → ℕ → ℕ → ℕ
type_after p pos k = byte_at p (pos + 12 + 4 * k) + byte_at p (pos + 12 + 4 * k + 1) * 256

-- The first `k` tags of the header at `pos` are complete.
pub data Tagged (p : Bytes) (pos : ℕ) : ℕ → Type 0 where
  untagged : Tagged p pos 0
  tag :
      (k : ℕ)
      → Tagged p pos k
      → proto_is_vlan (type_after p pos k) ≡ true
      → pos + 18 + 4 * k ≤ length p
      → Tagged p pos (suc k)

-- Where the array has a place for the tag, it is written, and keeps its size.
abbrev pub Places : CollectVlans → ℕ → Type 0
Places none n = Unit
Places (some id) n = n ≤ length id

-- The identifier in the tag `i` behind the header at `pos`.
abbrev pub identifier : Bytes → ℕ → ℕ → ℕ
identifier p pos i =
    bit_and (bpf_htons (byte_at p (pos + 14 + 4 * i) + byte_at p (pos + 14 + 4 * i + 1) * 256))
      vlan_vid_mask

-- The second array is the first with the identifiers of the tags from `k` on, before `tags`.
abbrev pub Collected : Bytes → ℕ → ℕ → ℕ → CollectVlans → CollectVlans → Type 0
Collected p pos k tags none none = Unit
Collected p pos k tags none (some id') = ⊥
Collected p pos k tags (some id) none = ⊥
Collected p pos k tags (some id) (some id') =
    (length id' ≡ length id)
    × ((i : ℕ)
        → get_elem? id' i
          ≡ (if leb k i && ltb i tags then some (identifier p pos i) else get_elem? id i))

Collected-refl : (p : Bytes) (pos k : ℕ) (vlans : CollectVlans) → Collected p pos k k vlans vlans
Collected-refl p pos k none = tt
Collected-refl p pos k (some id) = (refl, λ i. ground arith)

Collected-trans :
    (p : Bytes) (pos k j tags : ℕ) (a b c : CollectVlans)
    → k ≤ j
    → j ≤ tags
    → Collected p pos k j a b
    → Collected p pos j tags b c
    → Collected p pos k tags a c
Collected-trans p pos k j tags none none none h l x y = tt
Collected-trans p pos k j tags (some a) (some b) (some c) h l (e, x) (f, y) =
    (f ∙ e, λ i. ground (arith, x i, y i))
Collected-trans p pos k j tags none (some b) c h l x y = elim x [ ]
Collected-trans p pos k j tags (some a) none c h l x y = elim x [ ]
Collected-trans p pos k j tags none none (some c) h l x y = elim y [ ]
Collected-trans p pos k j tags (some a) (some b) none h l x y = elim y [ ]

write_at-some :
    (id : List ℕ) (i v : ℕ)
    → i < length id
    → (id' : List ℕ) × (write_at id i v ≡ some id')
      × (length id' ≡ length id)
      × ((j : ℕ) → get_elem? id' j ≡ (if j == i then some v else get_elem? id j))
unfolding write_at
write_at-some [] i v h = absurd (omega arith)
write_at-some (x ∷ xs) zero v h = (v ∷ xs, refl, refl, at_first)
  where
    at_first : (j : ℕ) → get_elem? (v ∷ xs) j ≡ (if j == 0 then some v else get_elem? (x ∷ xs) j)
    at_first zero = refl
    at_first (suc j) = ground arith
write_at-some (x ∷ xs) (suc i) v h =
    let (rest, e, f, g) = write_at-some xs i v (omega arith) in
    (x ∷ rest, ground arith, ground arith, later rest g)
  where
    later :
        (rest : List ℕ)
        → ((j : ℕ) → get_elem? rest j ≡ (if j == i then some v else get_elem? xs j))
        → (j : ℕ) → get_elem? (x ∷ rest) j ≡ (if j == suc i then some v else get_elem? (x ∷ xs) j)
    later rest g zero = ground arith
    later rest g (suc j) = ground (arith, g j)

collect-some :
    (p : Bytes) (pos : ℕ) (vlans : CollectVlans) (n i : ℕ)
    → Places vlans n
    → i < n
    → (vlans' : CollectVlans) × (collect vlans i
          (byte_at p (pos + 14 + 4 * i) + byte_at p (pos + 14 + 4 * i + 1) * 256)
        ≡ some vlans')
      × Places vlans' n
      × Collected p pos i (suc i) vlans vlans'
unfolding collect
collect-some p pos none n i h b = (none, refl, tt, tt)
collect-some p pos (some id) n i h b =
    let (id', e, f, g) = write_at-some id i (identifier p pos i) (omega arith) in
    (some id', ground arith, omega arith, (f, λ j. ground (arith, g j)))

-- What the tags from the header at `pos` on are: how many are skipped, and why not more.
pub record Skipped (p : Bytes) (pos : ℕ) (depth : ℕ) : Type 0 where
  pub tags : ℕ
  pub all_tags : Tagged p pos tags
  pub depth_kept : tags ≤ depth
  pub inside : pos + 14 + 4 * tags ≤ length p
  pub stopped :
      (tags ≡ depth)
      ⊎ (proto_is_vlan (type_after p pos tags) ≡ false)
      ⊎ (length p < pos + 18 + 4 * tags)

-- What `n` rounds of the loop return from the tag `k` on.
abbrev SkipsOn : ℕ → Bytes → ℕ → ℕ → ℕ → CollectVlans → Type 0
SkipsOn n p pos k depth vlans =
    (w : Skipped p pos depth) × (vlans' : CollectVlans) × (skip_vlans n p k (pos + 14 + 4 * k)
        (type_after p pos k) vlans
      ≡ some (type_after p pos w.tags, pos + 14 + 4 * w.tags, vlans'))
    × (k ≤ w.tags)
    × Collected p pos k w.tags vlans vlans'

stops_at :
    (n : ℕ) (p : Bytes) (pos k depth : ℕ) (vlans : CollectVlans)
    → k + n ≡ depth
    → Tagged p pos k
    → pos + 14 + 4 * k ≤ length p
    → (k ≡ depth) ⊎ (proto_is_vlan (type_after p pos k) ≡ false) ⊎ (length p < pos + 18 + 4 * k)
    → skip_vlans n p k (pos + 14 + 4 * k) (type_after p pos k) vlans
      ≡ some (type_after p pos k, pos + 14 + 4 * k, vlans)
    → SkipsOn n p pos k depth vlans
stops_at n p pos k depth vlans e t b why same = (
  record { tags = k; all_tags = t; depth_kept = omega arith; inside = b; stopped = why },
  vlans,
  same,
  omega arith,
  Collected-refl p pos k vlans,
)

skip_vlans-some :
    (n : ℕ) (p : Bytes) (pos k depth : ℕ) (vlans : CollectVlans)
    → k + n ≡ depth
    → Tagged p pos k
    → Places vlans depth
    → pos + 14 + 4 * k ≤ length p
    → SkipsOn n p pos k depth vlans
unfolding skip_vlans
skip_vlans-some zero p pos k depth vlans e t h b =
    stops_at zero p pos k depth vlans e t b (inl (omega arith)) refl
skip_vlans-some (suc n) p pos k depth vlans e t h b =
    elim (Bool-cases (proto_is_vlan (type_after p pos k))) [
      | inr f ↦ stops_at (suc n) p pos k depth vlans e t b (inr (inl f)) (rw f refl)
      | inl v ↦ elim (dec_lt (length p) (pos + 18 + 4 * k)) [
        | yes l ↦ stops_at (suc n) p pos k depth vlans e t b (inr (inr l)) (ground arith)
        | no l ↦
            let (vlans1, c, h1, first) = collect-some p pos vlans depth k h (omega arith) in
            let (w, vlans', q, later, others) =
              skip_vlans-some n p pos (suc k) depth vlans1 (omega arith) (tag k t v (omega arith))
                h1 (omega arith) in
            (
              w,
              vlans',
              ground
                  (arith, load16-some p (pos + 14 + 4 * k + 2), load16-some p (pos + 14 + 4 * k)),
              omega arith,
              Collected-trans p pos k (suc k) w.tags vlans vlans1 vlans' (omega arith) later first
                  others,
            )
      ]
    ]

pub parse_ethhdr_vlan-Skipped :
    (p : Bytes) (pos : ℕ) (vlans : CollectVlans)
    → Places vlans vlan_max_depth
    → pos + 14 ≤ length p
    → (w : Skipped p pos vlan_max_depth) × (vlans' : CollectVlans) × (parse_ethhdr_vlan p pos vlans
        ≡ some (
          record { ret = type_after p pos w.tags; pos = pos + 14 + 4 * w.tags; header = some pos },
          vlans',
        ))
      × Collected p pos 0 w.tags vlans vlans'
unfolding parse_ethhdr_vlan
parse_ethhdr_vlan-Skipped p pos vlans h b =
    let (w, vlans', e, _, ids) =
      skip_vlans-some vlan_max_depth p pos 0 vlan_max_depth vlans (omega arith) untagged h
        (omega arith) in
    (w, vlans', ground (arith, load16-some p (pos + 12), e), ids)

pub parse_ethhdr_vlan-short :
    (p : Bytes) (pos : ℕ) (vlans : CollectVlans)
    → length p < pos + 14
    → parse_ethhdr_vlan p pos vlans ≡ some (fail pos, vlans)
unfolding parse_ethhdr_vlan
parse_ethhdr_vlan-short p pos vlans b = ground arith
