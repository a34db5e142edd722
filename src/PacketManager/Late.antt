-- ===== src/PacketManager/Late.antt =====
-- A frame whose packets all come before the last of the frame before, in src/streams/packetmanager.cpp.
use mathlib.Core.List.{append-nil}
use beyond_protocol.Prelude.{
  ℕ, suc, ◌+◌, ◌-◌, ◌^◌, ◌<◌, ◌≤◌, ◌≡◌, inl, inr, refl, ap, ◌∙◌, arith, true, false, ◌==◌, ltb,
  if◌then◌else◌, List, [], ◌∷◌, ◌++◌, Option, none, some, length, Bool-cases,
}
use beyond_protocol.Prelude.Int.{ℤ, pos, negsuc, ◌-ℤ◌, pos_sub}
use beyond_protocol.Packet.{PacketPair}
use beyond_protocol.PacketManager.{
  StreamState, Result, max_buffer, slot, eq_ℤ, min_timestamp, ends_frame, unbuffer, replay,
  count_packet, next_frame, accept, submit,
}
use beyond_protocol.PacketManager.Present.{
  Ready, Ready-later, run, AllAt, ends, idle, submit_present, last_packet, early_packet,
}
use beyond_protocol.PacketManager.Whole.{IsIdle, IsFrame, run-append}
use beyond_protocol.PacketManager.Kept.{Holds, Keeps, keep_all}

abbrev pub most : ℕ
most = 2 ^ 63 - 1

min_timestamp_lem :
    (u n : ℕ) (qs : List PacketPair) (i : ℕ) (s : StreamState)
    → u ≤ most
    → AllAt u n qs
    → Holds s.slots i qs
    → min_timestamp (length qs) i s ≡ (if length qs == 0 then pos most else pos u)
unfolding min_timestamp
min_timestamp_lem u n [] i s small its h = refl
min_timestamp_lem u n (q ∷ qs) i s small (at, counted, its) (here, there) =
    let rest = min_timestamp_lem u n qs (i + 1) s small its there in
    let own : (slot i s).first.timestamp ≡ pos u =
      ap (λ (p : PacketPair). p.first.timestamp) here ∙ at in
    rw (rest, own) (ground arith)

-- The state when a packet at a place is about to be submitted again.
left_ends : ℕ → StreamState → ℤ
left_ends i s = if ends_frame (slot i s) then s.buffered_ends -ℤ pos 1 else s.buffered_ends

unbuffer_lem : (i : ℕ) (s : StreamState) → unbuffer i s ≡ record s { buffered_ends = left_ends i s }
unfolding left_ends
unbuffer_lem i s = elim (Bool-cases (ends_frame (slot i s))) [
  | inl t ↦ rw t refl
  | inr f ↦ rw f refl
]

left_ends_lem :
    (i : ℕ) (q : PacketPair) (qs : List PacketPair) (s : StreamState)
    → slot i s ≡ q
    → s.buffered_ends ≡ pos (ends (q ∷ qs))
    → left_ends i s ≡ pos (ends qs)
unfolding left_ends
left_ends_lem i q qs s here e = elim (Bool-cases (ends_frame q)) [
  | inl t ↦
      let test : ends_frame (slot i s) ≡ true = ap ends_frame here ∙ t in
      let one_more : ends (q ∷ qs) ≡ ends qs + 1 = ground arith in
      rw test (ap (λ n. n -ℤ pos 1) (e ∙ ap pos one_more) ∙ pos_sub (ends qs) 1)
  | inr f ↦
      let test : ends_frame (slot i s) ≡ false = ap ends_frame here ∙ f in
      let no_more : ends (q ∷ qs) ≡ ends qs = ground arith in rw test (e ∙ ap pos no_more)
]

abbrev again : ℕ → ℕ → StreamState → Option Result
again fuel i s = submit fuel (some i) (slot i s) s

abbrev at_place : ℕ → StreamState → StreamState
at_place i s = record s { buffered_ends = left_ends i s }

again_lem :
    (fuel i : ℕ) (q : PacketPair) (s : StreamState)
    → slot i s ≡ q
    → again fuel i (unbuffer i s) ≡ submit fuel (some i) q (at_place i s)
again_lem fuel i q s here =
    ap (again fuel i) (unbuffer_lem i s) ∙ ap (λ p. submit fuel (some i) p (at_place i s)) here

-- The packets of a frame of `n` packets, read from the buffer.
replay_frame :
    (fuel u n : ℕ) (qs : List PacketPair) (i : ℕ) (s : StreamState)
    → s.timestamp ≡ pos u
    → s.read_pos ≡ s.write_pos
    → AllAt u n qs
    → Holds s.slots i qs
    → s.processed + length qs ≡ n
    → 0 < length qs
    → Ready n qs s
    → s.buffered_ends ≡ pos (ends qs)
    → (s1 : StreamState) × (replay (again (suc fuel)) false (length qs) i s ≡ some (s1, qs))
      × IsIdle s1
      × (s1.buffered_ends ≡ pos 0)
unfolding replay
replay_frame fuel u n [] i s now alone its h e some_left ready ended = absurd (omega arith)
replay_frame fuel u n (q ∷ []) i s now alone (at, counted, _) (here, _) e some_left ready ended =
    let whole : (count_packet q s).expected ≡ pos n = ground arith in
    let done : again (suc fuel) i (unbuffer i s) ≡ some (idle (at_place i s), q ∷ []) =
      again_lem (suc fuel) i q s here
      ∙ last_packet fuel u n (some i) q (at_place i s) now alone at whole (omega arith) in
    (
      idle (at_place i s),
      rw done refl,
      record { absent = refl; unknown = refl; uncounted = refl; alone = alone },
      left_ends_lem i q [] s here ended,
    )
replay_frame fuel u n (q ∷ r ∷ qs) i s now alone (at, counted, its) (here, there) e some_left ready
      ended =
    let short : eq_ℤ (pos (s.processed + 1)) (count_packet q s).expected ≡ false = ground arith in
    let s1 = count_packet q (at_place i s) in
    let later : Ready n (r ∷ qs) s1 = Ready-later n q (r ∷ qs) s counted ready in
    let counts : again (suc fuel) i (unbuffer i s) ≡ some (s1, q ∷ []) =
      again_lem (suc fuel) i q s here
      ∙ early_packet fuel u (some i) q (at_place i s) now alone at short in
    let (s2, done, idle2, ends2) =
      replay_frame fuel u n (r ∷ qs) (i + 1) s1 now alone its there (ground arith) (ground arith)
        later (left_ends_lem i q (r ∷ qs) s here ended) in
    (s2, rw counts (rw done refl), idle2, ends2)

ends-le-length : (ps : List PacketPair) → ends ps ≤ length ps
ends-le-length [] = omega arith
ends-le-length (p ∷ ps) = ground (arith, ends-le-length ps)

abbrev resumed : ℕ → StreamState → StreamState
resumed u s = record s {
  processed = 0;
  expected = negsuc 0;
  read_pos = s.write_pos;
  timestamp = pos u;
}

next_frame_lem :
    (r : ℕ → StreamState → Option Result) (u n : ℕ) (s : StreamState)
    → s.write_pos - s.read_pos ≡ n
    → min_timestamp n s.read_pos s ≡ pos u
    → next_frame r false s ≡ replay r false n s.read_pos (resumed u s)
unfolding next_frame
next_frame_lem r u n s width stamp =
    ap
      (λ (m : ℕ).
        replay r false m s.read_pos
          (record (resumed u s) { timestamp = min_timestamp m s.read_pos s }))
      width
    ∙ ap (λ (x : ℤ). replay r false n s.read_pos (record (resumed u s) { timestamp = x })) stamp

accept_last :
    (r : ℕ → StreamState → Option Result) (p : PacketPair) (s s1 : StreamState)
    (out : List PacketPair)
    → eq_ℤ (pos (s.processed + 1)) (count_packet p s).expected ≡ true
    → ltb s.read_pos s.write_pos ≡ true
    → next_frame r false (count_packet p s) ≡ some (s1, out)
    → accept r p s ≡ some (s1, p ∷ out)
unfolding accept
accept_last r p s s1 out full some_kept next = rw (full, some_kept) (rw next refl)

-- The packets of a whole frame, at most 100 in any order, that come while one packet of an earlier frame is still
-- missing are kept until it comes, and are then passed on after it in the order in which they came.
-- After that nothing is kept. The conditions are that nothing was kept before, and that the missing packet is
-- the last by the number that the end of its frame announces, which it may be itself.
pub late_frame :
    (fuel t u : ℕ) (qs : List PacketPair) (p : PacketPair) (s : StreamState)
    → t < u
    → u ≤ most
    → IsFrame u qs
    → length qs ≤ max_buffer
    → s.timestamp ≡ pos t
    → s.read_pos ≡ s.write_pos
    → s.buffered_ends ≡ pos 0
    → p.first.timestamp ≡ pos t
    → (count_packet p s).expected ≡ pos (s.processed + 1)
    → (s1 : StreamState) × (run (suc (suc fuel)) (qs ++ p ∷ []) s ≡ some (s1, p ∷ qs))
      × IsIdle s1
      × (s1.buffered_ends ≡ pos 0)
late_frame fuel t u qs p s after small (its, one) room present alone ended at missing =
    let n = length qs in
    let start : Keeps t s [] s = record {
      present = present;
      same_expected = refl;
      same_processed = refl;
      holds = tt;
      written = omega arith;
      ended = ended;
    } in
    let (k, kept_run, kept) =
      keep_all (suc fuel) t u n qs [] s s after its start (omega arith) (omega arith) in
    let some_left : 0 < n = omega (arith, ends-le-length qs) in
    let full : eq_ℤ (pos (k.processed + 1)) (count_packet p k).expected ≡ true =
      ground (arith, kept.same_expected, kept.same_processed, missing) in
    let stamp : min_timestamp n k.read_pos (count_packet p k) ≡ pos u =
      min_timestamp_lem u n qs k.read_pos (count_packet p k) small its kept.holds ∙ ground arith in
    let (s1, done, idle1, ends1) =
      replay_frame fuel u n qs k.read_pos (resumed u (count_packet p k)) refl refl its kept.holds
        (omega arith) some_left (inl (one, refl)) kept.ended in
    let next : next_frame (again (suc fuel)) false (count_packet p k) ≡ some (s1, qs) =
      next_frame_lem (again (suc fuel)) u n (count_packet p k) (omega (arith, kept.written)) stamp
      ∙ done in
    let last : submit (suc (suc fuel)) none p k ≡ some (s1, p ∷ qs) =
      submit_present (suc fuel) t none p k kept.present at
      ∙ accept_last (again (suc fuel)) p k s1 qs full (ground (arith, kept.written)) next in
    (
      s1,
      run-append (suc (suc fuel)) qs (p ∷ []) s
          ∙ rw kept_run (rw last (ap (λ qs. some (s1, p ∷ qs)) (append-nil qs))),
      idle1,
      ends1,
    )
