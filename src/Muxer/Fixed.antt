-- ===== src/Muxer/Fixed.antt =====
-- src/streams/muxer.cpp: the local identifiers of a stream with a fixed frameset, which are numbered in
-- the order in which its frames are first seen.
use beyond_protocol.Prelude.{
  ℕ, List, ◌==◌, if◌then◌else◌, ◌+◌, ◌%◌, ◌^◌, ◌<◌, ◌≡◌, ◌≢◌, ◌∙◌, refl, sym, ap, subst, none, some,
  lookup, put, arith, lookup-put,
}
use beyond_protocol.FrameId.{FrameId, frameset, source, make, fields-make}
use beyond_protocol.Muxer.{
  StreamEntry, Muxer, count_of, frameset_key, register, local_frameset, allocate_fixed,
  allocate_dynamic, map_to_output,
}

-- The number of the next frame of a fixed frameset.
abbrev pub next_source : Muxer → ℕ → ℕ
next_source m fs = count_of (lookup fs m.sourcecount)

register-map_to_output :
    (m : Muxer) (s : StreamEntry) (id l : FrameId)
    → map_to_output (register m s id l) l ≡ some (id, s.id)
unfolding register map_to_output
register-map_to_output m s id l = ground (arith, lookup-put l.id l.id (id, s.id) m.omap)

make_wraps : (fs n k : ℕ) → k ≡ n + 256 → make fs n ≡ make fs k
unfolding make
make_wraps fs n k e = ground arith

local_frameset_new :
    (m : Muxer) (key : ℕ) → lookup key m.fsmap ≡ none → (local_frameset m key).1 ≡ m.framesets
unfolding local_frameset
local_frameset_new m key h = rw (h, local_frameset) refl

counted :
    (fs other n : ℕ) (counts : List (ℕ × ℕ))
    → (count_of (lookup fs (put fs n counts)) ≡ n)
      × (other ≢ fs → count_of (lookup other (put fs n counts)) ≡ count_of (lookup other counts))
counted fs other n counts = (
  ground (arith, lookup-put fs fs n counts),
  λ apart. ap count_of (lookup-put fs other n counts ∙ kept apart),
)
  where
    kept : other ≢ fs → (if fs == other then some n else lookup other counts) ≡ lookup other counts
    kept apart = ground arith

-- A new frame of a stream with a fixed frameset below 2^24 gets the frameset's next number, of which the low byte
-- counts; the local identifier leads to it; and the next number of that frameset alone is one more.
pub allocate_fixed_lem :
    (m : Muxer) (s : StreamEntry) (id : FrameId) (fs other : ℕ)
    → fs < 2 ^ 24
    → let (m', l) = allocate_fixed m s id fs in
      (frameset l ≡ fs)
      × (source l ≡ next_source m fs % 2 ^ 8)
      × (map_to_output m' l ≡ some (id, s.id))
      × (next_source m' fs ≡ next_source m fs + 1)
      × (other ≢ fs → next_source m' other ≡ next_source m other)
unfolding allocate_fixed register
allocate_fixed_lem m s id fs other small = (
  (fields-make fs (next_source m fs) small).0,
  (fields-make fs (next_source m fs) small).1,
  register-map_to_output _ s id _,
  (counted fs other (next_source m fs + 1) m.sourcecount).0,
  (counted fs other (next_source m fs + 1) m.sourcecount).1,
)

-- The source number of a fixed frameset wraps at 256: two frames whose numbers are 256 apart get the
-- same local identifier, and it leads to the second of them only.
pub fixed_wraps :
    (m m' : Muxer) (s : StreamEntry) (id id' : FrameId) (fs : ℕ)
    → next_source m' fs ≡ next_source m fs + 256
    → let (m1, l) = allocate_fixed m s id fs in
      let (m2, l') = allocate_fixed m' s id' fs in
      (l ≡ l') × (map_to_output m2 l ≡ some (id', s.id))
unfolding allocate_fixed
fixed_wraps m m' s id id' fs later =
    let same = make_wraps fs (next_source m fs) (next_source m' fs) later in
    (
      same,
      subst (λ l. map_to_output (allocate_fixed m' s id' fs).0 l ≡ some (id', s.id)) (sym same)
          (register-map_to_output _ s id' _),
    )

-- The numbers of fixed and of other framesets are not kept apart: with the next frameset number equal
-- to a fixed frameset, the first frame of the latter and a frame of source 0 of a new frameset get the
-- same local identifier, and it leads to the second of them only.
pub fixed_overwritten :
    (m : Muxer) (s s' : StreamEntry) (id id' : FrameId)
    → lookup m.framesets m.sourcecount ≡ none
    → lookup (frameset_key s' id') m.fsmap ≡ none
    → source id' ≡ 0
    → let (m1, l) = allocate_fixed m s id m.framesets in
      let (m2, l') = allocate_dynamic m1 s' id' in
      (l ≡ l') × (map_to_output m2 l ≡ some (id', s'.id))
unfolding allocate_fixed allocate_dynamic register
fixed_overwritten m s s' id id' first new zero =
    let m1 = (allocate_fixed m s id m.framesets).0 in
    let fs = local_frameset_new m1 (frameset_key s' id') new in
    let same : (allocate_fixed m s id m.framesets).1 ≡ (allocate_dynamic m1 s' id').1 =
      ap (λ o. make m.framesets (count_of o)) first
      ∙ ap (λ k. make m.framesets k) (sym zero)
      ∙ ap (λ k. make k (source id')) (sym fs) in
    (
      same,
      subst (λ l. map_to_output (allocate_dynamic m1 s' id').0 l ≡ some (id', s'.id)) (sym same)
          (register-map_to_output _ s' id' _),
    )
