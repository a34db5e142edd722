-- ===== src/Net/Turns.antt =====
-- src/streams/netstream.cpp: a batch of requests taken one after the other, and what is kept by each.
use mathlib.Core.Option.{some-injective}
use beyond_protocol.Prelude.{
  >>=-eq-some, ℕ, zero, suc, ◌≡◌, refl, subst, arith, Bool, true, false, if◌then◌else◌, List, [],
  ◌∷◌, Option, none, some,
}
use beyond_protocol.Packet.{StreamPacket, DataPacket}
use beyond_protocol.Stream.{frames}
use beyond_protocol.Net.{Net, Event, frame_of}
use beyond_protocol.Net.Requests.{
  register, register_for, request_frame, request_each, process_request, in_batch, for_frame,
  is_batch,
}
use beyond_protocol.Net.Invariant.{WellFormed}
use beyond_protocol.Net.Register.{register-WellFormed}

abbrev pub Result : Type 0
Result = Net × (DataPacket × List Event)

register-base : (n : Net) (id p count channel : ℕ) → (register n id p count channel).0.base ≡ n.base
unfolding register
register-base n id p count channel = ground arith

pub request_frame-base :
    (n : Net) (p : Option ℕ) (spkt : StreamPacket) (pkt : DataPacket)
    → (request_frame n p spkt pkt).0.base ≡ n.base
unfolding request_frame register_for
request_frame-base n none spkt pkt = refl
request_frame-base n (some p) spkt pkt =
    register-base n (frame_of spkt) p pkt.frame_count spkt.channel

pub request_frame-WellFormed :
    (n : Net) (p : Option ℕ) (spkt : StreamPacket) (pkt : DataPacket)
    → WellFormed n.clients
    → WellFormed (request_frame n p spkt pkt).0.clients
unfolding request_frame register_for
request_frame-WellFormed n none spkt pkt wf = wf
request_frame-WellFormed n (some p) spkt pkt wf =
    register-WellFormed n (frame_of spkt) p pkt.frame_count spkt.channel wf

-- The call for one frame of the loop.
abbrev pub in_turn :
    (Net → StreamPacket → DataPacket → Option Result)
    → StreamPacket
    → ℕ
    → Net
    → DataPacket
    → Option Result
in_turn call spkt id n pkt =
    if in_batch spkt (record { id = id })
    then call n (for_frame spkt (record { id = id })) pkt
    else some (n, (pkt, []))

-- What is kept by the requests for single frames is kept by a batch.
module _ (P : Net → Type 0) (p : Option ℕ) where
  abbrev pub Keeps : (Net → StreamPacket → DataPacket → Option Result) → Type 0
  Keeps call =
      (n : Net) (spkt : StreamPacket) (pkt : DataPacket) (r : Result)
      → call n spkt pkt ≡ some r
      → P n
      → P r.0

  pub in_turn-Keeps :
      (call : Net → StreamPacket → DataPacket → Option Result)
      → Keeps call
      → (id : ℕ) → Keeps (λ n spkt pkt. in_turn call spkt id n pkt)
  in_turn-Keeps call kept id n spkt pkt r e h = go (in_batch spkt (record { id = id })) e
    where
      go :
          (b : Bool)
          → (if b then call n (for_frame spkt (record { id = id })) pkt else some (n, (pkt, [])))
            ≡ some r
          → P r.0
      go true e = kept n (for_frame spkt (record { id = id })) pkt r e h
      go false e = subst (λ (r : Result). P r.0) (some-injective _ _ e) h

  request_each-Keeps :
      (call : Net → StreamPacket → DataPacket → Option Result)
      → Keeps call
      → (ids : List ℕ) → Keeps (λ n spkt pkt. request_each call spkt ids n pkt)
  unfolding request_each
  request_each-Keeps call kept [] n spkt pkt r e h =
      subst (λ (r : Result). P r.0) (some-injective _ _ e) h
  request_each-Keeps call kept (id ∷ ids) n spkt pkt r e h =
      let (r1, e1, rest) = >>=-eq-some (in_turn call spkt id n pkt) _ e in
      let (r2, e2, last) = >>=-eq-some (request_each call spkt ids r1.0 r1.1.0) _ rest in
      let h1 = in_turn-Keeps call kept id n spkt pkt r1 e1 h in
      subst (λ (r : Result). P r.0) (some-injective _ _ last)
        (request_each-Keeps call kept ids r1.0 spkt r1.1.0 r2 e2 h1)

  pub process_request-Keeps :
      ((n : Net) (spkt : StreamPacket) (pkt : DataPacket) → P n → P (request_frame n p spkt pkt).0)
      → (depth : ℕ) → Keeps (process_request depth p)
  unfolding process_request
  process_request-Keeps one zero n spkt pkt r e h = absurd cc
  process_request-Keeps one (suc depth) n spkt pkt r e h =
      go (process_request-Keeps one depth) (is_batch spkt) e
    where
      go :
          Keeps (process_request depth p)
          → (b : Bool)
          → (if b
              then request_each (process_request depth p) spkt (frames n.base) n pkt
              else some (request_frame n p spkt pkt))
            ≡ some r
          → P r.0
      go kept true e =
          request_each-Keeps (process_request depth p) kept (frames n.base) n spkt pkt r e h
      go kept false e = subst (λ (r : Result). P r.0) (some-injective _ _ e) (one n spkt pkt h)

pub process_request-WellFormed :
    (depth : ℕ) (p : Option ℕ) (n : Net) (spkt : StreamPacket) (pkt : DataPacket) (r : Result)
    → process_request depth p n spkt pkt ≡ some r
    → WellFormed n.clients
    → WellFormed r.0.clients
process_request-WellFormed depth p =
    process_request-Keeps (λ n. WellFormed n.clients) p
      (λ n spkt pkt h. request_frame-WellFormed n p spkt pkt h) depth
