-- ===== src/Net/Batch.antt =====
-- Requests for several frames at once, _processRequest of src/streams/netstream.cpp, which calls itself
-- for each frame of the stream that the numbers 255 stand for.
use native.Mathlib.Decide.{ℕ_discrete}
use beyond_protocol.Prelude.{
  ℕ, zero, suc, ◌%◌, ◌^◌, ◌<◌, ◌≡◌, ◌⊎◌, refl, inl, inr, Option-cases, sym, ◌∙◌, subst, arith, true,
  List, [], ◌∷◌, Option, none, contains,
}
use beyond_protocol.Packet.{StreamPacket, DataPacket}
use beyond_protocol.FrameId.{frameset, source}
use beyond_protocol.Stream.{Stream, frames}
use beyond_protocol.Net.{Net}
use beyond_protocol.Net.Requests.{request_each, process_request, in_batch, for_frame, is_batch}
use beyond_protocol.Net.Turns.{
  Keeps, in_turn-Keeps, process_request-Keeps, Result, request_frame-base, in_turn,
}

-- A frame that its own batch names, since it is numbered 255.
abbrev pub IsOwnBatch : ℕ → Type 0
IsOwnBatch id =
    (frameset (record { id = id }) < 2 ^ 8)
    × ((frameset (record { id = id }) ≡ 255) ⊎ (source (record { id = id }) ≡ 255))

own_batch :
    (id : ℕ) (spkt : StreamPacket)
    → IsOwnBatch id
    → (is_batch (for_frame spkt (record { id = id })) ≡ true)
      × (in_batch (for_frame spkt (record { id = id })) (record { id = id }) ≡ true)
unfolding is_batch in_batch for_frame
own_batch id spkt h =
    let e : frameset (record { id = id }) % 2 ^ 8 ≡ frameset (record { id = id }) = omega arith in
    rw e (ground arith)

request_each-none :
    (call : Net → StreamPacket → DataPacket → Option Result) (p : Option ℕ) (b : Stream)
    → Keeps (λ n. n.base ≡ b) p call
    → (id : ℕ) (spkt : StreamPacket) → in_batch spkt (record { id = id }) ≡ true
    → ((n : Net) (pkt : DataPacket)
        → n.base ≡ b
        → call n (for_frame spkt (record { id = id })) pkt ≡ none)
    → (ids : List ℕ) (n : Net) (pkt : DataPacket) → contains id ids ≡ true
    → n.base ≡ b
    → request_each call spkt ids n pkt ≡ none
unfolding request_each contains
request_each-none call p b kept id spkt named fails [] n pkt h same = absurd (ground arith)
request_each-none call p b kept id spkt named fails (j ∷ ids) n pkt h same =
    elim (ℕ_discrete j id) [
      | yes e ↦
          let stuck : in_turn call spkt j n pkt ≡ none =
            subst (λ k. in_turn call spkt k n pkt ≡ none) (sym e) (rw named (fails n pkt same)) in
          rw stuck refl
      | no ne ↦ elim (Option-cases (in_turn call spkt j n pkt)) [
        | inl e ↦ rw e refl
        | inr (r, e) ↦
            rw
              (
                e,
                request_each-none call p b kept id spkt named fails ids r.0 r.1.0 (ground arith)
                    (in_turn-Keeps (λ n. n.base ≡ b) p call kept j n spkt pkt r e same),
              )
              refl
      ]
    ]

-- Once a host has a frame that is numbered 255, a request for several frames, this one among them, never returns, at
-- whatever depth.
pub process_request-none :
    (id : ℕ) (p : Option ℕ) (depth : ℕ) (n : Net) (spkt : StreamPacket) (pkt : DataPacket)
    → IsOwnBatch id
    → contains id (frames n.base) ≡ true
    → is_batch spkt ≡ true
    → in_batch spkt (record { id = id }) ≡ true
    → process_request depth p n spkt pkt ≡ none
unfolding process_request
process_request-none id p zero n spkt pkt own has batch named = refl
process_request-none id p (suc depth) n spkt pkt own has batch named = rw batch (
    request_each-none (process_request depth p) p n.base
      (process_request-Keeps (λ m. m.base ≡ n.base) p
        (λ m spkt pkt h. request_frame-base m p spkt pkt ∙ h) depth)
      id spkt named
      (λ m pkt same.
        process_request-none id p depth m (for_frame spkt (record { id = id })) pkt own
          (rw same has) (own_batch id spkt own).0 (own_batch id spkt own).1)
      (frames n.base) n pkt has refl)
