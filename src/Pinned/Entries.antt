-- ===== src/Pinned/Entries.antt =====
-- What common_libbpf.c does to the entries of the pinned maps, and to the object when it fails.
use mathlib.Core.Path.{subst}
use fide.Base.{
  ℕ, ◌≡◌, ◌≢◌, ◌⊎◌, inl, inr, refl, arith, List, [], ◌∷◌, Bool, true, false, ◌||◌, none, some, ◌==◌,
  if◌then◌else◌, Option-cases, Bool-cases,
}
use fide.Packet.{Bytes}
use fide.Attach.{negated}
use fide.Attach.Load.{ObjectCalls, first_of}
use fide.Pinned.{
  PinnedMap, LoadAttr, PinCalls, Returned, same_text, no_fd, reset_fds, set_each, reuse_one,
  reuse_pinned, reuse_maps, pin_one, pin_each, pin_maps, load_opened,
}

module _ {W Obj Prog Map : Type 0} (calls : ObjectCalls W Obj Prog Map)
    (pins : PinCalls W Obj Prog Map) where
  -- A map of the object has this name.
  unfoldable pub has_map : Bytes → List Map → Bool
  has_map name [] = false
  has_map name (map ∷ maps) = same_text (calls.map_name map) name || has_map name maps

  -- What becomes of an entry: its names stay, and its file descriptor stays unless a map of the
  -- object has its name.
  pub record Same (maps : List Map) (p q : PinnedMap) : Type 0 where
    pub same_name : q.name ≡ p.name
    pub same_file : q.filename ≡ p.filename
    pub fd_or_map : (q.map_fd ≡ p.map_fd) ⊎ (has_map p.name maps ≡ true)

  -- Entry by entry.
  pub data Entries (maps : List Map) : List PinnedMap → List PinnedMap → Type 0 where
    no_more : Entries maps [] []
    entry :
        (p q : PinnedMap) (ps qs : List PinnedMap)
        → Same maps p q
        → Entries maps ps qs
        → Entries maps (p ∷ ps) (q ∷ qs)

  Same-refl : (maps : List Map) (p : PinnedMap) → Same maps p p
  Same-refl maps p = record { same_name = refl; same_file = refl; fd_or_map = inl refl }

  Entries-refl : (maps : List Map) (ps : List PinnedMap) → Entries maps ps ps
  Entries-refl maps [] = no_more
  Entries-refl maps (p ∷ ps) = entry p p ps ps (Same-refl maps p) (Entries-refl maps ps)

  -- One map, and then the others.
  cons-Same :
      (map : Map) (maps : List Map) (p q r : PinnedMap)
      → Same (map ∷ []) p q
      → Same maps q r
      → Same (map ∷ maps) p r
  unfolding has_map
  cons-Same map maps p q r h k = ground (arith, h, k)

  cons-Entries :
      (map : Map) (maps : List Map) (ps qs rs : List PinnedMap)
      → Entries (map ∷ []) ps qs
      → Entries maps qs rs
      → Entries (map ∷ maps) ps rs
  cons-Entries map maps [] [] [] no_more no_more = no_more
  cons-Entries map maps [] [] (r ∷ rs) h k = elim k [ ]
  cons-Entries map maps [] (q ∷ qs) rs h k = elim h [ ]
  cons-Entries map maps (p ∷ ps) [] rs h k = elim h [ ]
  cons-Entries map maps (p ∷ ps) (q ∷ qs) [] h k = elim k [ ]
  cons-Entries map maps (p ∷ ps) (q ∷ qs) (r ∷ rs) (entry _ _ _ _ h hs) (entry _ _ _ _ k ks) =
      entry p r ps rs (cons-Same map maps p q r h k) (cons-Entries map maps ps qs rs hs ks)

  reuse_one-Same :
      (map : Map) (p : PinnedMap) (w : W) → Same (map ∷ []) p (reuse_one calls pins map p w).0
  unfolding reuse_one has_map
  reuse_one-Same map p w = ground arith

  pin_one-Same :
      (map : Map) (p : PinnedMap) (w : W) → Same (map ∷ []) p (pin_one calls pins map p w).0
  unfolding pin_one has_map
  pin_one-Same map p w = ground arith

  reuse_pinned-Entries :
      (map : Map) (ps : List PinnedMap) (w : W)
      → Entries (map ∷ []) ps (reuse_pinned calls pins map ps w).0
  unfolding reuse_pinned
  reuse_pinned-Entries map [] w = no_more
  reuse_pinned-Entries map (p ∷ ps) w =
      let (q, w1) = reuse_one calls pins map p w in
      entry p q ps _ (reuse_one-Same map p w) (reuse_pinned-Entries map ps w1)

  pin_each-Entries :
      (map : Map) (ps : List PinnedMap) (w : W)
      → Entries (map ∷ []) ps (pin_each calls pins map ps w).0
  unfolding pin_each
  pin_each-Entries map [] w = no_more
  pin_each-Entries map (p ∷ ps) w =
      let (q, w1) = pin_one calls pins map p w in
      entry p q ps _ (pin_one-Same map p w) (pin_each-Entries map ps w1)

  reuse_maps-Entries :
      (ifindex : ℕ) (maps : List Map) (ps : List PinnedMap) (w : W)
      → Entries maps ps (reuse_maps calls pins ifindex maps ps w).0
  unfolding reuse_maps
  reuse_maps-Entries ifindex [] ps w = Entries-refl [] ps
  reuse_maps-Entries ifindex (map ∷ maps) ps w =
      let w1 = if calls.is_offload_neutral w map then w else calls.set_map_ifindex w map ifindex in
      let (qs, w2) = reuse_pinned calls pins map ps w1 in
      cons-Entries map maps ps qs (reuse_maps calls pins ifindex maps qs w2).0
        (reuse_pinned-Entries map ps w1) (reuse_maps-Entries ifindex maps qs w2)

  pin_maps-Entries :
      (maps : List Map) (ps : List PinnedMap) (w : W)
      → Entries maps ps (pin_maps calls pins maps ps w).0
  unfolding pin_maps
  pin_maps-Entries [] ps w = Entries-refl [] ps
  pin_maps-Entries (map ∷ maps) ps w =
      let (qs, w1) = pin_each calls pins map ps w in
      cons-Entries map maps ps qs (pin_maps calls pins maps qs w1).0 (pin_each-Entries map ps w)
        (pin_maps-Entries maps qs w1)

  trans-Entries :
      (maps : List Map) (ps qs rs : List PinnedMap)
      → Entries maps ps qs
      → Entries maps qs rs
      → Entries maps ps rs
  trans-Entries maps [] [] [] h k = no_more
  trans-Entries maps [] [] (r ∷ rs) h k = elim k [ ]
  trans-Entries maps [] (q ∷ qs) rs h k = elim h [ ]
  trans-Entries maps (p ∷ ps) [] rs h k = elim h [ ]
  trans-Entries maps (p ∷ ps) (q ∷ qs) [] h k = elim k [ ]
  trans-Entries maps (p ∷ ps) (q ∷ qs) (r ∷ rs) (entry _ _ _ _ h hs) (entry _ _ _ _ k ks) =
      entry p r ps rs (ground (arith, h, k)) (trans-Entries maps ps qs rs hs ks)

  -- What a call that opened its file may return.
  abbrev pub Settled : LoadAttr → Obj → Returned W Obj → Type 0
  Settled attr obj r =
      Entries (calls.maps obj) (reset_fds attr.pinned_maps) r.pinned
      × (((r.ret ≢ 0) × (r.stored ≡ none) × ((w' : W) × (r.world ≡ pins.close w' obj)))
          ⊎ ((prog : Prog) × (r.ret ≡ 0)
              × (first_of calls (calls.programs obj) ≡ some prog)
              × (r.stored ≡ some (obj, calls.program_fd r.world prog))))

  -- A call that opened its file: the entries are those that were given, with a file descriptor of
  -- -1 unless a map of the object has the entry's name; and where the call fails, it has closed
  -- the object last and stores nothing, where it succeeds, it stores the object with its first
  -- program.
  pub load_opened-Settled :
      (attr : LoadAttr) (obj : Obj) (w : W) → Settled attr obj (load_opened calls pins attr obj w)
  unfolding load_opened
  load_opened-Settled attr obj w =
      let maps = calls.maps obj in
      let fresh = reset_fds attr.pinned_maps in
      let w1 = set_each calls pins attr (calls.programs obj) w in
      let (reused, w2) = reuse_maps calls pins attr.ifindex maps fresh w1 in
      let once = reuse_maps-Entries attr.ifindex maps fresh w1 in
      let (err, w3) = calls.object_load w2 obj in
      let (pinned, w4) = pin_maps calls pins maps reused w3 in
      elim (Option-cases (first_of calls (calls.programs obj))) [
        | inl e ↦
            let r : Returned W Obj = record {
              ret = negated 2;
              stored = none;
              pinned = reused;
              world = pins.close w2 obj;
            } in
            let same : r ≡ load_opened calls pins attr obj w = ground (arith, e) in
            subst (Settled attr obj) same (once, inl (omega arith, refl, (w2, refl)))
        | inr (prog, e) ↦ elim (Bool-cases (err == 0)) [
          | inl ok ↦
              let r : Returned W Obj = record {
                ret = 0;
                stored = some (obj, calls.program_fd w4 prog);
                pinned = pinned;
                world = w4;
              } in
              let same : r ≡ load_opened calls pins attr obj w = ground (arith, e, ok) in
              subst (Settled attr obj) same (
                trans-Entries maps fresh reused pinned once (pin_maps-Entries maps reused w3),
                inr (prog, refl, e, refl),
              )
          | inr failed ↦
              let r : Returned W Obj = record {
                ret = negated 22;
                stored = none;
                pinned = reused;
                world = pins.close w3 obj;
              } in
              let same : r ≡ load_opened calls pins attr obj w = ground (arith, e, failed) in
              subst (Settled attr obj) same (once, inl (omega arith, refl, (w3, refl)))
        ]
      ]

-- A pinned map that was opened from its file keeps that file descriptor: it is not pinned again.
pub pin_maps-opened :
    {W Obj Prog Map : Type 0} (calls : ObjectCalls W Obj Prog Map) (pins : PinCalls W Obj Prog Map)
    (maps : List Map) (p : PinnedMap) (w : W)
    → p.map_fd ≢ no_fd
    → pin_maps calls pins maps (p ∷ []) w ≡ (p ∷ [], w)
unfolding pin_maps pin_each pin_one
pin_maps-opened calls pins [] p w h = refl
pin_maps-opened calls pins (map ∷ maps) p w h =
    ground (arith, pin_maps-opened calls pins maps p w h)
