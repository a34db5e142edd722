-- ===== src/PacketManager/Whole.antt =====
-- Frames that come one after the other, in src/streams/packetmanager.cpp.
use mathlib.Core.List.{append_assoc}
use beyond_protocol.Prelude.{
  ℕ, suc, ◌≡◌, inl, inr, refl, sym, ap, ◌∙◌, arith, true, false, List, [], ◌∷◌, ◌++◌, Option, none,
  some, ◌>>=◌, length, Option-cases,
}
use beyond_protocol.Prelude.Int.{pos, negsuc, ltb_ℤ}
use beyond_protocol.Packet.{PacketPair}
use beyond_protocol.PacketManager.{StreamState, Result, eq_ℤ, submit}
use beyond_protocol.PacketManager.Present.{
  run, AllAt, ends, idle, submit_present, accept_alone, rest_of_frame,
}

-- No frame is present and nothing is kept.
pub record IsIdle (s : StreamState) : Type 0 where
  pub absent : s.timestamp ≡ negsuc 0
  pub unknown : s.expected ≡ negsuc 0
  pub uncounted : s.processed ≡ 0
  pub alone : s.read_pos ≡ s.write_pos

idle_same : (s : StreamState) → IsIdle s → idle s ≡ s
idle_same s i = ground (arith, i.absent, i.unknown, i.uncounted)

first_packet :
    (fuel t : ℕ) (p : PacketPair) (s : StreamState)
    → s.timestamp ≡ negsuc 0
    → p.first.timestamp ≡ pos t
    → submit (suc fuel) none p s ≡ submit fuel none p (record s { timestamp = pos t })
unfolding submit
first_packet fuel t p s absent its =
    let other : eq_ℤ s.timestamp p.first.timestamp ≡ false = ground arith in
    let later : ltb_ℤ p.first.timestamp s.timestamp ≡ false = ground arith in
    let unset : eq_ℤ s.timestamp (negsuc 0) ≡ true = ground arith in
    rw (other, later, unset) (ap (λ x. submit fuel none p (record s { timestamp = x })) its)

-- It makes no difference to the first packet of a frame that its time is not set yet.
set_first :
    (fuel t : ℕ) (p : PacketPair) (s : StreamState)
    → IsIdle s
    → p.first.timestamp ≡ pos t
    → submit (suc (suc fuel)) none p s
      ≡ submit (suc (suc fuel)) none p (record s { timestamp = pos t })
set_first fuel t p s i its =
    let s1 = record s { timestamp = pos t } in
    first_packet (suc fuel) t p s i.absent its
    ∙ submit_present fuel t none p s1 refl its
    ∙ accept_alone _ p s1 i.alone
    ∙ sym (submit_present (suc fuel) t none p s1 refl its ∙ accept_alone _ p s1 i.alone)

-- A frame: the packets of one time, of which exactly one is the end, which announces them all.
abbrev pub IsFrame : ℕ → List PacketPair → Type 0
IsFrame t ps = AllAt t (length ps) ps × (ends ps ≡ 1)

one_frame :
    (fuel t : ℕ) (ps : List PacketPair) (s : StreamState)
    → IsIdle s
    → IsFrame t ps
    → run (suc (suc fuel)) ps s ≡ some (s, ps)
one_frame fuel t [] s i (its, one) = absurd (omega arith)
one_frame fuel t (p ∷ ps) s i (its, one) =
    ap
      (λ (first : Option Result).
        first >>= λ r. run (suc (suc fuel)) ps r.0 >>= λ q. some (q.0, r.1 ++ q.1))
      (set_first fuel t p s i its.0)
    ∙ rest_of_frame (suc fuel) t (length (p ∷ ps)) (p ∷ ps) (record s { timestamp = pos t }) refl
        i.alone its (ground (arith, i.uncounted)) (omega arith) (inl (one, i.unknown))
    ∙ ap (λ s. some (s, p ∷ ps)) (idle_same s i)

pub run-append :
    (fuel : ℕ) (ps qs : List PacketPair) (s : StreamState)
    → run fuel (ps ++ qs) s
      ≡ (run fuel ps s >>= λ r. run fuel qs r.0 >>= λ q. some (q.0, r.1 ++ q.1))
run-append fuel [] qs s = elim (Option-cases (run fuel qs s)) [
  | inl e ↦ rw e refl
  | inr (r, e) ↦ rw e refl
]
run-append fuel (p ∷ ps) qs s = elim (Option-cases (submit fuel none p s)) [
  | inl e ↦ rw e refl
  | inr (x, e) ↦ rw e (
      rw (run-append fuel ps qs x.0) (elim (Option-cases (run fuel ps x.0)) [
        | inl f ↦ rw f refl
        | inr (y, f) ↦ rw f (elim (Option-cases (run fuel qs y.0)) [
          | inl g ↦ rw g refl
          | inr (z, g) ↦ rw g (ap (λ out. some (z.0, out)) (sym (append_assoc x.1 y.1 z.1)))
        ])
      ]))
]

-- The packets of frames, one frame after the other.
abbrev pub packets : List (ℕ × List PacketPair) → List PacketPair
packets [] = []
packets ((t, ps) ∷ fs) = ps ++ packets fs

abbrev pub AreFrames : List (ℕ × List PacketPair) → Type 0
AreFrames [] = Unit {0}
AreFrames ((t, ps) ∷ fs) = IsFrame t ps × AreFrames fs

-- Where frames come one after the other, the packets of each in any order, every packet is passed on at
-- once, none is kept, and the state is as before. A frame has one end, which announces the number of its
-- packets; the times of the frames need not grow. Two calls of submit within one another are enough.
pub run-frames :
    (fuel : ℕ) (fs : List (ℕ × List PacketPair)) (s : StreamState)
    → IsIdle s
    → AreFrames fs
    → run (suc (suc fuel)) (packets fs) s ≡ some (s, packets fs)
run-frames fuel [] s i frames = refl
run-frames fuel ((t, ps) ∷ fs) s i (frame, frames) =
    run-append (suc (suc fuel)) ps (packets fs) s
    ∙ rw (one_frame fuel t ps s i frame, run-frames fuel fs s i frames) refl
