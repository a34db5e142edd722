-- ===== src/Net/Reached.antt =====
-- The table of clients after any calls of a host, in src/streams/netstream.cpp.
use mathlib.Core.Option.{some-injective}
use beyond_protocol.Prelude.{
  ℕ, ◌+◌, ◌≡◌, subst, sym, arith, Bool, true, false, not, ◌&&◌, if◌then◌else◌, List, [], ◌∷◌,
  Option, some, ◌>>=◌, inl, inr, if-eq-some, >>=-eq-some, length,
}
use beyond_protocol.Prelude.Int.{ℤ}
use beyond_protocol.Packet.{StreamPacket, DataPacket}
use beyond_protocol.FrameId.{frameset, make}
use beyond_protocol.Net.{frame_of, Net, Answer, Event, send_to_clients, send_to_peer, send, post}
use beyond_protocol.Net.Requests.{
  recur, note_seen, early_process_packet, answer_request, pass_on, process_packet, process_request,
  host_receive, is_request,
}
use beyond_protocol.Net.Invariant.{WellFormed, send_to_clients-WellFormed}
use beyond_protocol.Net.Turns.{Result, process_request-WellFormed}

recur-clients : (n : Net) (now : ℤ) (fs : ℕ) → (recur n now fs).0.clients ≡ n.clients
unfolding recur
recur-clients n now fs = ground arith

early-clients :
    (n : Net) (now : ℤ) (spkt : StreamPacket) (pkt : DataPacket) (r : Net × List Event)
    → early_process_packet n now spkt pkt ≡ some r
    → r.0.clients ≡ n.clients
unfolding early_process_packet note_seen
early-clients n now spkt pkt r e = ground (
  arith,
  recur-clients (note_seen n (frame_of spkt) spkt.channel).0 now
      (frameset (make spkt.stream_id spkt.frame_number)),
)

answer_request-WellFormed :
    (depth : ℕ) (p : Option ℕ) (n : Net) (spkt : StreamPacket) (pkt : DataPacket) (r : Result)
    → answer_request depth p n spkt pkt ≡ some r
    → WellFormed n.clients
    → WellFormed r.0.clients
unfolding answer_request
answer_request-WellFormed depth p n spkt pkt r e wf =
    elim (if-eq-some (n.host && is_request spkt pkt) (process_request depth p n spkt pkt)
      (some (n, (pkt, []))) e) [
        | inl asked ↦ process_request-WellFormed depth p n spkt pkt r asked wf
        | inr other ↦ subst (λ (x : Result). WellFormed x.0.clients) (some-injective _ _ other) wf
      ]

pass_on-WellFormed :
    (depth : ℕ) (n : Net) (p : Option ℕ) (spkt : StreamPacket) (pkt : DataPacket)
    (r : Net × List Event)
    → pass_on depth n p spkt pkt ≡ some r
    → WellFormed n.clients
    → WellFormed r.0.clients
unfolding pass_on
pass_on-WellFormed depth n p spkt pkt r e wf =
    let (r1, first, last) = >>=-eq-some (answer_request depth p n spkt pkt) _ e in
    subst (λ (x : Net × List Event). WellFormed x.0.clients) (some-injective _ _ last)
      (answer_request-WellFormed depth p n spkt pkt r1 first wf)

process_packet-WellFormed :
    (depth : ℕ) (n : Net) (p : Option ℕ) (spkt : StreamPacket) (pkt : DataPacket)
    (r : Net × List Event)
    → process_packet depth n p spkt pkt ≡ some r
    → WellFormed n.clients
    → WellFormed r.0.clients
unfolding process_packet
process_packet-WellFormed depth n p spkt pkt r e wf =
    let n1 = record n { bytes_received = n.bytes_received + length pkt.bytes } in
    let at_four = record spkt { version = 4 } in
    elim (if-eq-some (not n.active) (some (n, [])) (pass_on depth n1 p at_four pkt) e) [
      | inl idle ↦
          subst (λ (x : Net × List Event). WellFormed x.0.clients) (some-injective _ _ idle) wf
      | inr running ↦ pass_on-WellFormed depth n1 p at_four pkt r running wf
    ]

host_receive-WellFormed :
    (depth : ℕ) (n : Net) (now : ℤ) (p : ℕ) (spkt : StreamPacket) (pkt : DataPacket)
    (r : Net × List Event)
    → host_receive depth n now p spkt pkt ≡ some r
    → WellFormed n.clients
    → WellFormed r.0.clients
unfolding host_receive
host_receive-WellFormed depth n now p spkt pkt r e wf =
    let (r1, e1, rest) = >>=-eq-some (early_process_packet n now spkt pkt) _ e in
    let (r2, e2, last) = >>=-eq-some (process_packet depth r1.0 (some p) spkt pkt) _ rest in
    let wf1 = subst WellFormed (sym (early-clients n now spkt pkt r1 e1)) wf in
    subst (λ (r : Net × List Event). WellFormed r.0.clients) (some-injective _ _ last)
      (process_packet-WellFormed depth r1.0 (some p) spkt pkt r2 e2 wf1)

send_to_peer-clients :
    (throws : Bool) (n : Net) (spkt : StreamPacket) (pkt : DataPacket)
    → (send_to_peer throws n spkt pkt).0.clients ≡ n.clients
unfolding send_to_peer
send_to_peer-clients throws n spkt pkt = ground arith

post-WellFormed :
    (answers : ℕ → Answer) (throws : Bool) (n : Net) (spkt : StreamPacket) (pkt : DataPacket)
    → WellFormed n.clients
    → WellFormed (post answers throws n spkt pkt).0.clients
unfolding post send
post-WellFormed answers throws n spkt pkt wf = go n.active n.paused n.host
  where
    go :
        (active paused host : Bool)
        → WellFormed
            (if not active
              then (n, (false, []))
              else (if paused
                  then (n, (true, []))
                  else (if host
                      then (let (n', events) = send_to_clients answers n spkt pkt in
                          (n', (true, events)))
                      else send_to_peer throws n spkt pkt))).0.clients
    go false paused host = wf
    go true true host = wf
    go true false true = send_to_clients-WellFormed answers n spkt pkt wf
    go true false false = rw (send_to_peer-clients throws n spkt pkt) wf

-- What happens to a net stream: a packet is posted, or one is received from a peer.
pub data Call : Type 0 where
  posts : (ℕ → Answer) → Bool → StreamPacket → DataPacket → Call
  receives : ℤ → ℕ → StreamPacket → DataPacket → Call

abbrev pub run_calls : ℕ → List Call → Net → Option Net
run_calls depth [] n = some n
run_calls depth (posts answers throws spkt pkt ∷ cs) n =
    run_calls depth cs (post answers throws n spkt pkt).0
run_calls depth (receives now p spkt pkt ∷ cs) n = do
  (n1, events) ← host_receive depth n now p spkt pkt
  run_calls depth cs n1

-- After any sequence of posted packets and of packets received from any peers, whatever the network answers, the
-- table of clients lists every frame once, with at least one client and no two clients of one
-- peer, if it did so before.
pub run_calls-WellFormed :
    (depth : ℕ) (cs : List Call) (n m : Net)
    → WellFormed n.clients
    → run_calls depth cs n ≡ some m
    → WellFormed m.clients
run_calls-WellFormed depth [] n m wf e =
    subst (λ (n : Net). WellFormed n.clients) (some-injective _ _ e) wf
run_calls-WellFormed depth (posts answers throws spkt pkt ∷ cs) n m wf e =
    run_calls-WellFormed depth cs (post answers throws n spkt pkt).0 m
      (post-WellFormed answers throws n spkt pkt wf) e
run_calls-WellFormed depth (receives now p spkt pkt ∷ cs) n m wf e =
    let (r, first, rest) = >>=-eq-some (host_receive depth n now p spkt pkt) _ e in
    run_calls-WellFormed depth cs r.0 m (host_receive-WellFormed depth n now p spkt pkt r first wf)
      rest
