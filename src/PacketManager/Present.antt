-- ===== src/PacketManager/Present.antt =====
-- The packets of the present frame, in src/streams/packetmanager.cpp.
use beyond_protocol.Prelude.{
  ℕ, suc, ◌+◌, ◌<◌, ◌≡◌, ◌⊎◌, inl, inr, refl, ap, ◌∙◌, arith, true, false, ltb, if◌then◌else◌, List,
  [], ◌∷◌, ◌++◌, Option, none, some, ◌>>=◌, length, Bool-cases,
}
use beyond_protocol.Prelude.Int.{pos, negsuc}
use beyond_protocol.Packet.{PacketPair}
use beyond_protocol.PacketManager.{
  StreamState, Result, slot, eq_ℤ, ends_frame, count_packet, accept, submit,
}

-- Packets submitted one after the other.
abbrev pub run : ℕ → List PacketPair → StreamState → Option Result
run fuel [] s = some (s, [])
run fuel (p ∷ ps) s = do
  (s1, out) ← submit fuel none p s
  (s2, more) ← run fuel ps s1
  some (s2, out ++ more)

-- The packets are of the frame at a time, and an end among them announces `n` packets.
abbrev pub AllAt : ℕ → ℕ → List PacketPair → Type 0
AllAt t n [] = Unit {0}
AllAt t n (p ∷ ps) =
    (p.first.timestamp ≡ pos t)
    × ((if ends_frame p then p.second.packet_count else n) ≡ n)
    × AllAt t n ps

-- The number of ends among the packets.
abbrev pub ends : List PacketPair → ℕ
ends [] = 0
ends (p ∷ ps) = (if ends_frame p then 1 else 0) + ends ps

-- No frame is present and nothing is kept.
abbrev pub idle : StreamState → StreamState
idle s = record s { processed = 0; expected = negsuc 0; timestamp = negsuc 0 }

pub submit_present :
    (fuel t : ℕ) (from : Option ℕ) (p : PacketPair) (s : StreamState)
    → s.timestamp ≡ pos t
    → p.first.timestamp ≡ pos t
    → submit (suc fuel) from p s ≡ accept (λ i s. submit fuel (some i) (slot i s) s) p s
unfolding submit
submit_present fuel t from p s e h =
    let same : eq_ℤ s.timestamp p.first.timestamp ≡ true = ground arith in rw same refl

pub accept_alone :
    (r : ℕ → StreamState → Option Result) (p : PacketPair) (s : StreamState)
    → s.read_pos ≡ s.write_pos
    → accept r p s
      ≡ some (
        if eq_ℤ (pos (s.processed + 1)) (count_packet p s).expected
            then idle (count_packet p s)
            else count_packet p s,
        p ∷ [],
      )
unfolding accept
accept_alone r p s e =
    let none_kept : ltb s.read_pos s.write_pos ≡ false = ground arith in
    elim (Bool-cases (eq_ℤ (pos (s.processed + 1)) (count_packet p s).expected)) [
      | inl t ↦ rw t (rw none_kept refl)
      | inr f ↦ rw f refl
    ]

-- The last packet of a frame, whether it is its end or the end has come before, completes it.
pub last_packet :
    (fuel t n : ℕ) (from : Option ℕ) (p : PacketPair) (s : StreamState)
    → s.timestamp ≡ pos t
    → s.read_pos ≡ s.write_pos
    → p.first.timestamp ≡ pos t
    → (count_packet p s).expected ≡ pos n
    → s.processed + 1 ≡ n
    → submit (suc fuel) from p s ≡ some (idle s, p ∷ [])
last_packet fuel t n from p s present alone its whole e =
    let full : eq_ℤ (pos (s.processed + 1)) (count_packet p s).expected ≡ true =
      ap (eq_ℤ (pos (s.processed + 1))) whole ∙ ground arith in
    submit_present fuel t from p s present its ∙ accept_alone _ p s alone ∙ rw full refl

-- Any packet before it is counted.
pub early_packet :
    (fuel t : ℕ) (from : Option ℕ) (p : PacketPair) (s : StreamState)
    → s.timestamp ≡ pos t
    → s.read_pos ≡ s.write_pos
    → p.first.timestamp ≡ pos t
    → eq_ℤ (pos (s.processed + 1)) (count_packet p s).expected ≡ false
    → submit (suc fuel) from p s ≡ some (count_packet p s, p ∷ [])
early_packet fuel t from p s present alone its short =
    submit_present fuel t from p s present its ∙ accept_alone _ p s alone ∙ rw short refl

-- The packets that are missing have the end, or it has come and said how many there are.
abbrev pub Ready : ℕ → List PacketPair → StreamState → Type 0
Ready n ps s = ((ends ps ≡ 1) × (s.expected ≡ negsuc 0)) ⊎ ((ends ps ≡ 0) × (s.expected ≡ pos n))

pub Ready-later :
    (n : ℕ) (p : PacketPair) (ps : List PacketPair) (s : StreamState)
    → (if ends_frame p then p.second.packet_count else n) ≡ n
    → Ready n (p ∷ ps) s
    → Ready n ps (count_packet p s)
Ready-later n p ps s counted ready = elim (Bool-cases (ends_frame p)) [
  | inl t ↦ inr (ground arith, ground arith)
  | inr f ↦ elim ready [
    | inl (one, none_yet) ↦ inl (ground arith, ground arith)
    | inr (no_more, known) ↦ inr (ground arith, ground arith)
  ]
]

-- The rest of a frame of `n` packets, in any order.
pub rest_of_frame :
    (fuel t n : ℕ) (ps : List PacketPair) (s : StreamState)
    → s.timestamp ≡ pos t
    → s.read_pos ≡ s.write_pos
    → AllAt t n ps
    → s.processed + length ps ≡ n
    → 0 < length ps
    → Ready n ps s
    → run (suc fuel) ps s ≡ some (idle s, ps)
rest_of_frame fuel t n [] s present alone its e some_left ready = absurd (omega arith)
rest_of_frame fuel t n (p ∷ []) s present alone (at, counted, _) e some_left ready =
    let whole : (count_packet p s).expected ≡ pos n = ground arith in
    rw (last_packet fuel t n none p s present alone at whole (omega arith)) refl
rest_of_frame fuel t n (p ∷ q ∷ ps) s present alone (at, counted, its) e some_left ready =
    let short : eq_ℤ (pos (s.processed + 1)) (count_packet p s).expected ≡ false = ground arith in
    let rest : run (suc fuel) (q ∷ ps) (count_packet p s) ≡ some (idle s, q ∷ ps) =
      rest_of_frame fuel t n (q ∷ ps) (count_packet p s) present alone its (ground arith)
        (ground arith) (Ready-later n p (q ∷ ps) s counted ready) in
    rw (early_packet fuel t none p s present alone at short) (rw rest refl)
