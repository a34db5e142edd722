-- ===== src/PacketManager/Kept.antt =====
-- Packets that come before the frame before them is complete, in src/streams/packetmanager.cpp.
use mathlib.Core.List.{append-nil, append_assoc}
use beyond_protocol.Prelude.{
  ℕ, suc, ◌+◌, ◌%◌, ◌<◌, ◌≤◌, ◌≡◌, inl, inr, refl, sym, ap, subst, ◌∙◌, arith, true, false, ◌==◌,
  if◌then◌else◌, List, [], ◌∷◌, ◌++◌, none, some, length, length-append, Bool-cases,
}
use beyond_protocol.Prelude.Int.{ℤ, pos, negsuc, ◌+ℤ◌, ltb_ℤ, pos_add}
use beyond_protocol.Packet.{PacketPair}
use beyond_protocol.PacketManager.{
  StreamState, max_buffer, slot, with_slot, eq_ℤ, ends_frame, buffer_packet, keep, submit,
}
use beyond_protocol.PacketManager.Present.{run, AllAt, ends}

-- The buffer has the packets in order, from a place on.
abbrev pub Holds : (ℕ → PacketPair) → ℕ → List PacketPair → Type 0
Holds f i [] = Unit {0}
Holds f i (q ∷ qs) = (f (i % max_buffer) ≡ q) × Holds f (i + 1) qs

-- A packet is written behind those that are there, if there is room.
Holds-write :
    (f : ℕ → PacketPair) (i w : ℕ) (p : PacketPair) (qs : List PacketPair)
    → Holds f i qs
    → w ≡ i + length qs
    → length qs < max_buffer
    → Holds (λ j. if j == w % max_buffer then p else f j) i (qs ++ p ∷ [])
Holds-write f i w p [] h e room = (ground arith, tt)
Holds-write f i w p (q ∷ qs) (here, there) e room =
    (ground arith, Holds-write f (i + 1) w p qs there (omega arith) (omega arith))

ends-append : (ps qs : List PacketPair) → ends (ps ++ qs) ≡ ends ps + ends qs
ends-append [] qs = omega arith
ends-append (p ∷ ps) qs = omega (arith, ends-append ps qs)

-- A packet of a later frame, while a frame is present, goes to the buffer.
later_packet :
    (fuel t u : ℕ) (q : PacketPair) (s : StreamState)
    → s.timestamp ≡ pos t
    → q.first.timestamp ≡ pos u
    → t < u
    → ltb_ℤ (pos 4) (buffer_packet none q s).buffered_ends ≡ false
    → submit (suc fuel) none q s ≡ some (buffer_packet none q s, [])
unfolding submit keep
later_packet fuel t u q s present its after few =
    let other : eq_ℤ s.timestamp q.first.timestamp ≡ false = ground arith in
    let not_old : ltb_ℤ q.first.timestamp s.timestamp ≡ false = ground arith in
    let is_set : eq_ℤ s.timestamp (negsuc 0) ≡ false = ground arith in
    rw (other, not_old, is_set) (rw few refl)

-- What is left of a state of frame `t` in which packets are kept.
pub record Keeps (t : ℕ) (s0 : StreamState) (kept : List PacketPair) (s : StreamState)
    : Type 0 where
  pub present : s.timestamp ≡ pos t
  pub same_expected : s.expected ≡ s0.expected
  pub same_processed : s.processed ≡ s0.processed
  pub holds : Holds s.slots s.read_pos kept
  pub written : s.write_pos ≡ s.read_pos + length kept
  pub ended : s.buffered_ends ≡ pos (ends kept)

written_Keeps :
    (t : ℕ) (s0 s : StreamState) (kept : List PacketPair) (q : PacketPair) (ended : ℤ)
    → Keeps t s0 kept s
    → length kept < max_buffer
    → ended ≡ pos (ends (kept ++ q ∷ []))
    → Keeps t s0
        (kept ++ q ∷ [])
        (record (with_slot s.write_pos q s) { write_pos = s.write_pos + 1; buffered_ends = ended })
written_Keeps t s0 s kept q ended k room e = record {
  present = k.present;
  same_expected = k.same_expected;
  same_processed = k.same_processed;
  holds = Holds-write s.slots s.read_pos s.write_pos q kept k.holds k.written room;
  written = omega (arith, k.written, length-append kept (q ∷ []));
  ended = e;
}

keep_one :
    (t : ℕ) (s0 s : StreamState) (kept : List PacketPair) (q : PacketPair)
    → Keeps t s0 kept s
    → length kept < max_buffer
    → Keeps t s0 (kept ++ q ∷ []) (buffer_packet none q s)
keep_one t s0 s kept q k room = elim (Bool-cases (ends_frame q)) [
  | inl e ↦ rw e (
      written_Keeps t s0 s kept q (s.buffered_ends +ℤ pos 1) k room (
        ap (λ n. n +ℤ pos 1) k.ended
        ∙ pos_add (ends kept) 1
        ∙ ap pos (ground (arith, ends-append kept (q ∷ [])))))
  | inr f ↦ rw f (
      written_Keeps t s0 s kept q s.buffered_ends k room
        (k.ended ∙ ap pos (ground (arith, ends-append kept (q ∷ [])))))
]

pub keep_all :
    (fuel t u n : ℕ) (qs kept : List PacketPair) (s0 s : StreamState)
    → t < u
    → AllAt u n qs
    → Keeps t s0 kept s
    → length kept + length qs ≤ max_buffer
    → ends kept + ends qs ≤ 4
    → (s1 : StreamState) × (run (suc fuel) qs s ≡ some (s1, [])) × Keeps t s0 (kept ++ qs) s1
keep_all fuel t u n [] kept s0 s after its k room few =
    (s, refl, subst (λ kept. Keeps t s0 kept s) (sym (append-nil kept)) k)
keep_all fuel t u n (q ∷ qs) kept s0 s after (at, counted, its) k room few =
    let k1 = keep_one t s0 s kept q k (ground arith) in
    let short : ltb_ℤ (pos 4) (buffer_packet none q s).buffered_ends ≡ false =
      ap (ltb_ℤ (pos 4)) k1.ended ∙ ground (arith, ends-append kept (q ∷ [])) in
    let (s1, e, k2) =
      keep_all fuel t u n qs (kept ++ q ∷ []) s0 (buffer_packet none q s) after its k1
        (ground (arith, length-append kept (q ∷ []))) (ground (arith, ends-append kept (q ∷ []))) in
    (
      s1,
      rw (later_packet fuel t u q s k.present at after short) (rw e refl),
      subst (λ kept. Keeps t s0 kept s1) (append_assoc kept (q ∷ []) qs) k2,
    )

buffer_packet-slot :
    (i : ℕ) (q : PacketPair) (s : StreamState)
    → i % max_buffer ≡ s.write_pos % max_buffer
    → slot i (buffer_packet none q s) ≡ q
buffer_packet-slot i q s same =
    let test : (i % max_buffer == s.write_pos % max_buffer) ≡ true = ground arith in
    elim (Bool-cases (ends_frame q)) [ inl t ↦ rw t (rw test refl) | inr f ↦ rw f (rw test refl) ]

buffer_packet_places :
    (q : PacketPair) (s : StreamState)
    → ((buffer_packet none q s).read_pos ≡ s.read_pos)
      × ((buffer_packet none q s).write_pos ≡ s.write_pos + 1)
buffer_packet_places q s = elim (Bool-cases (ends_frame q)) [
  | inl t ↦ rw t (refl, refl)
  | inr f ↦ rw f (refl, refl)
]

buffer_packet_ends :
    (e : ℕ) (q : PacketPair) (s : StreamState)
    → s.buffered_ends ≡ pos e
    → e < 4
    → ltb_ℤ (pos 4) (buffer_packet none q s).buffered_ends ≡ false
buffer_packet_ends e q s ended few = elim (Bool-cases (ends_frame q)) [
  | inl t ↦ rw t (ap (ltb_ℤ (pos 4)) (ap (λ n. n +ℤ pos 1) ended ∙ pos_add e 1) ∙ ground arith)
  | inr f ↦ rw f (ap (ltb_ℤ (pos 4)) ended ∙ ground arith)
]

-- When 100 packets are kept and at most three of them are ends, one more packet of a later frame takes the
-- place of the first of them, which is lost, and that place then counts twice.
pub first_lost :
    (fuel t u e : ℕ) (q : PacketPair) (s : StreamState)
    → s.timestamp ≡ pos t
    → q.first.timestamp ≡ pos u
    → t < u
    → s.buffered_ends ≡ pos e
    → e < 4
    → s.write_pos ≡ s.read_pos + max_buffer
    → (s1 : StreamState) × (submit (suc fuel) none q s ≡ some (s1, []))
      × (slot s.read_pos s1 ≡ q)
      × (slot (s.read_pos + max_buffer) s1 ≡ q)
      × (s1.read_pos ≡ s.read_pos)
      × (s1.write_pos ≡ s.read_pos + max_buffer + 1)
first_lost fuel t u e q s present its after ended few full =
    let (from, to) = buffer_packet_places q s in
    (
      buffer_packet none q s,
      later_packet fuel t u q s present its after (buffer_packet_ends e q s ended few),
      buffer_packet-slot s.read_pos q s (omega arith),
      buffer_packet-slot (s.read_pos + max_buffer) q s (omega arith),
      from,
      to ∙ omega arith,
    )
