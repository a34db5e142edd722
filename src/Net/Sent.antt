-- ===== src/Net/Sent.antt =====
-- What a peer is sent for one packet, by send of src/streams/netstream.cpp.
use beyond_protocol.Prelude.{
  ℕ, ◌≡◌, ◌≢◌, refl, ap, sym, ◌∙◌, inl, inr, Option-cases, subst, arith, true, false, ◌==◌, ◌&&◌,
  if◌then◌else◌, List, [], ◌∷◌, ◌++◌, Option, none, some, lookup,
}
use native.Mathlib.Decide.{ℕ_discrete}
use beyond_protocol.Packet.{StreamPacket, DataPacket}
use beyond_protocol.Net.{
  Client, Rates, Net, Answer, taken, Event, posted, frame_of, serve_events, serve_rates, serve_all,
  client_packet, send_to_clients,
}
use beyond_protocol.Net.Clients.{find, IsUnique}
use beyond_protocol.Net.Invariant.{
  WellFormed, client, clients_of_lem, send_to_clients-none, send_to_clients-some,
}

-- The packets that a peer is sent for a frame.
abbrev pub sent_to : ℕ → ℕ → List Event → List (StreamPacket × DataPacket)
sent_to p id [] = []
sent_to p id (posted q spkt pkt ∷ events) =
    if (q == p) && (frame_of spkt == id)
    then (spkt, pkt) ∷ sent_to p id events
    else sent_to p id events
sent_to p id (_ ∷ events) = sent_to p id events

pub sent_to-append :
    (p id : ℕ) (xs ys : List Event) → sent_to p id (xs ++ ys) ≡ sent_to p id xs ++ sent_to p id ys
sent_to-append p id [] ys = refl
sent_to-append p id (posted q spkt pkt ∷ xs) ys = ground (arith, sent_to-append p id xs ys)
sent_to-append p id (Event.asked q spkt pkt ∷ xs) ys = sent_to-append p id xs ys
sent_to-append p id (Event.available j c ∷ xs) ys = sent_to-append p id xs ys
sent_to-append p id (Event.connected q ∷ xs) ys = sent_to-append p id xs ys
sent_to-append p id (Event.requested r ∷ xs) ys = sent_to-append p id xs ys
sent_to-append p id (Event.received spkt pkt ∷ xs) ys = sent_to-append p id xs ys
sent_to-append p id (Event.enabling q f s ∷ xs) ys = sent_to-append p id xs ys
sent_to-append p id (Event.failed e ∷ xs) ys = sent_to-append p id xs ys

-- What one client is sent.
abbrev pub given : StreamPacket → DataPacket → Option Client → List (StreamPacket × DataPacket)
given spkt pkt none = []
given spkt pkt (some c) = (spkt, client_packet spkt pkt c) ∷ []

sent_one-other :
    (a : Answer) (spkt : StreamPacket) (pkt : DataPacket) (p id : ℕ) (c : Client)
    → (c.peerid == p) && (frame_of spkt == id) ≡ false
    → sent_to p id (serve_events a spkt pkt c) ≡ []
unfolding serve_events
sent_one-other Answer.no_peer spkt pkt p id c h = refl
sent_one-other Answer.refused spkt pkt p id c h = rw h refl
sent_one-other Answer.threw spkt pkt p id c h = rw h refl
sent_one-other taken spkt pkt p id c h = rw h refl

sent_one-same :
    (a : Answer) (spkt : StreamPacket) (pkt : DataPacket) (p id : ℕ) (c : Client)
    → (c.peerid == p) && (frame_of spkt == id) ≡ true
    → a ≡ taken
    → sent_to p id (serve_events a spkt pkt c) ≡ (spkt, client_packet spkt pkt c) ∷ []
unfolding serve_events
sent_one-same a spkt pkt p id c h t =
    subst (λ a. sent_to p id (serve_events a spkt pkt c) ≡ (spkt, client_packet spkt pkt c) ∷ [])
      (sym t) (rw h refl)

module _ (answers : ℕ → Answer) (spkt : StreamPacket) (pkt : DataPacket) where
  sent-other :
      (p id : ℕ) (cs : List Client) (r : Rates)
      → frame_of spkt ≢ id
      → sent_to p id (serve_all answers spkt pkt cs r).1.1 ≡ []
  unfolding serve_all
  sent-other p id [] r h = refl
  sent-other p id (c ∷ cs) r h =
      let r' = serve_rates (answers c.peerid) spkt pkt c r in
      sent_to-append p id (serve_events (answers c.peerid) spkt pkt c)
        (serve_all answers spkt pkt cs r').1.1
      ∙ rw (sent_one-other (answers c.peerid) spkt pkt p id c (ground arith))
          (sent-other p id cs r' h)

  sent-same :
      (p : ℕ) (cs : List Client) (r : Rates)
      → IsUnique cs
      → answers p ≡ taken
      → sent_to p (frame_of spkt) (serve_all answers spkt pkt cs r).1.1 ≡ given spkt pkt (find p cs)
  unfolding serve_all
  sent-same p [] r u h = refl
  sent-same p (c ∷ cs) r (new, u) h =
      let r' = serve_rates (answers c.peerid) spkt pkt c r in
      let rest = (serve_all answers spkt pkt cs r').1.1 in
      sent_to-append p (frame_of spkt) (serve_events (answers c.peerid) spkt pkt c) rest
      ∙ elim (ℕ_discrete c.peerid p) [
        | yes e ↦
            let ih : sent_to p (frame_of spkt) rest ≡ [] =
              sent-same p cs r' u h ∙ ap (given spkt pkt) (ap (λ q. find q cs) (sym e) ∙ new) in
            rw
              (
                sent_one-same (answers c.peerid) spkt pkt p (frame_of spkt) c (ground arith)
                    (ap answers e ∙ h),
                ih,
              )
              (ground arith)
        | no ne ↦
            rw (sent_one-other (answers c.peerid) spkt pkt p (frame_of spkt) c (ground arith))
              (sent-same p cs r' u h ∙ ground arith)
      ]

  pub sent_self :
      (n : Net) (p : ℕ)
      → WellFormed n.clients
      → answers p ≡ taken
      → sent_to p (frame_of spkt) (send_to_clients answers n spkt pkt).1
        ≡ given spkt pkt (client n (frame_of spkt) p)
  sent_self n p wf h = elim (Option-cases (lookup (frame_of spkt) n.clients)) [
    | inl e ↦
        rw (send_to_clients-none answers n spkt pkt e, clients_of_lem n (frame_of spkt), e) refl
    | inr (cs, e) ↦
        ap (sent_to p (frame_of spkt)) (send_to_clients-some answers n spkt pkt cs e).1
        ∙ sent-same p cs n.rates (wf.unique (frame_of spkt) cs e) h
        ∙ sym (rw (clients_of_lem n (frame_of spkt), e) refl)
  ]

  pub sent_else :
      (n : Net) (p id : ℕ)
      → frame_of spkt ≢ id
      → sent_to p id (send_to_clients answers n spkt pkt).1 ≡ []
  sent_else n p id h = elim (Option-cases (lookup (frame_of spkt) n.clients)) [
    | inl e ↦ rw (send_to_clients-none answers n spkt pkt e) refl
    | inr (cs, e) ↦
        ap (sent_to p id) (send_to_clients-some answers n spkt pkt cs e).1
        ∙ sent-other p id cs n.rates h
  ]
