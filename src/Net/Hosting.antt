-- ===== src/Net/Hosting.antt =====
-- What a host of src/streams/netstream.cpp has to send to a client, and what the client waits for.
use beyond_protocol.Prelude.{
  ℕ, zero, suc, ◌<◌, ◌≤◌, ◌≡◌, refl, ap, sym, ◌∙◌, subst, arith, Bool, true, false, ◌==◌,
  if◌then◌else◌, List, [], ◌∷◌, none, some, length, get_elem?, set, get_elem?-set_self,
}
use beyond_protocol.Prelude.Int.{ℤ, pos}
use beyond_protocol.Packet.{StreamPacket, DataPacket}
use beyond_protocol.Channels.{end_frame}
use beyond_protocol.Stream.{enabled_in, enabled_channels}
use beyond_protocol.Net.{Client, Net, taken, frame_of}
use beyond_protocol.Net.Requests.{note_seen}
use beyond_protocol.Net.Requests.{register}
use beyond_protocol.Net.Invariant.{WellFormed, client}
use beyond_protocol.Net.Served.{IsServing}
use beyond_protocol.Net.{serve, send_to_clients}
use beyond_protocol.Net.Requests.{renew, max_ℤ}
use beyond_protocol.Net.Clients.{map_client, unless_stale}
use beyond_protocol.Net.Register.{client-register, register-WellFormed}
use beyond_protocol.Net.Served.{served_client, send_to_clients-IsServing}
use beyond_protocol.Net.Invariant.{send_to_clients-WellFormed, client-send_to_clients}
use beyond_protocol.Net.Arrive.{
  seen-enabled_in, seen-enabled_channels, client-clients, after_request, after_request-clients,
  after_request-IsServing, noted,
}

-- The host has `left` frames to send to the client of the peer `p`.
pub record Hosting (id p left : ℕ) (h : Net) : Type 0 where
  pub table : WellFormed h.clients
  pub serving : IsServing h
  pub count : (d : Client) × (client h id p ≡ some d) × (d.txcount ≡ pos left)

-- The client, which has one channel of one frame of the frameset, waits for `left` frames, and asks
-- for `f` at a time.
pub record Waiting (fs id channel f left : ℕ) (c : Net) : Type 0 where
  pub tally : get_elem? c.tally fs ≡ some left
  pub size : c.frames_to_request ≡ f
  pub running : (c.active ≡ true) × (c.paused ≡ false) × (c.host ≡ false)
  pub frames : enabled_in fs c.base ≡ id ∷ []
  pub channels : enabled_channels c.base id ≡ channel ∷ []

pub noted-Waiting :
    (fs id channel f left : ℕ) (c : Net) (now : ℤ) (spkt : StreamPacket) (pkt : DataPacket)
    → Waiting fs id channel f left c
    → Waiting fs id channel f left (noted c now spkt pkt).0
unfolding note_seen
noted-Waiting fs id channel f left c now spkt pkt w = record {
  tally = w.tally;
  size = w.size;
  running = w.running;
  frames = seen-enabled_in c.base (frame_of spkt) spkt.channel fs ∙ w.frames;
  channels = seen-enabled_channels c.base (frame_of spkt) spkt.channel id ∙ w.channels;
}

in_range : (xs : List ℕ) (i x : ℕ) → get_elem? xs i ≡ some x → i < length xs
in_range [] i x h = absurd cc
in_range (y ∷ xs) zero x h = omega arith
in_range (y ∷ xs) (suc i) x h = omega (arith, in_range xs i x h)

pub set-Waiting :
    (fs id channel f left more : ℕ) (c : Net)
    → Waiting fs id channel f left c
    → Waiting fs id channel f more (record c { tally = set c.tally fs more })
set-Waiting fs id channel f left more c w = record {
  tally = get_elem?-set_self c.tally fs more (in_range c.tally fs left w.tally);
  size = w.size;
  running = w.running;
  frames = w.frames;
  channels = w.channels;
}

-- The host after a packet of the frame.
pub sent-Hosting :
    (spkt : StreamPacket) (pkt : DataPacket) (p count : ℕ) (h : Net)
    → Hosting (frame_of spkt) p (suc (suc count)) h
    → Hosting
        (frame_of spkt)
        p
        (if spkt.channel == end_frame then suc count else suc (suc count))
        (send_to_clients (λ q. taken) h spkt pkt).0
sent-Hosting spkt pkt p count h host =
    let (d, is, left) = host.count in
    record {
      table = send_to_clients-WellFormed (λ q. taken) h spkt pkt host.table;
      serving = send_to_clients-IsServing (λ q. taken) h spkt pkt host.serving;
      count =
          go d (spkt.channel == end_frame)
            (client-send_to_clients (λ q. taken) h spkt pkt p host.table
              ∙ ap (λ o. unless_stale (map_client (serve taken spkt) o)) is
              ∙ served_client spkt d (suc count) left)
            left;
    }
  where
    go :
        (d : Client) (b : Bool)
        → client (send_to_clients (λ q. taken) h spkt pkt).0 (frame_of spkt) p ≡ (
            if b
            then (if suc count == 0 then none else some (record d { txcount = pos (suc count) }))
            else some d)
        → d.txcount ≡ pos (suc (suc count))
        → (d' : Client) × (client (send_to_clients (λ q. taken) h spkt pkt).0 (frame_of spkt) p
            ≡ some d')
          × (d'.txcount ≡ pos (if b then suc count else suc (suc count)))
    go d true e left = (record d { txcount = pos (suc count) }, e ∙ ground arith, refl)
    go d false e left = (d, e, left)

renewed_most :
    (k channel : ℕ) (d : Client) (count : ℕ)
    → d.txcount ≡ pos count
    → count ≤ k
    → (renew k channel d).txcount ≡ pos k
unfolding renew max_ℤ
renewed_most k channel d count e h = ground arith

-- The host after a request.
pub renewed-Hosting :
    (depth : ℕ) (now : ℤ) (p id count : ℕ) (h : Net) (spkt : StreamPacket) (pkt : DataPacket)
    → frame_of spkt ≡ id
    → count ≤ pkt.frame_count
    → Hosting id p count h
    → Hosting id p pkt.frame_count (after_request depth now p h spkt pkt)
renewed-Hosting depth now p id count h spkt pkt same most host =
    let (d, is, left) = host.count in
    let k = pkt.frame_count in
    let who : client (register h (frame_of spkt) p k spkt.channel).0 id p
        ≡ some (renew k spkt.channel d) =
      client-register h (frame_of spkt) p k spkt.channel id p ∙ rw (same, is) (ground arith) in
    let table = after_request-clients depth now p h spkt pkt in
    record {
      table =
          subst WellFormed (sym table)
            (register-WellFormed h (frame_of spkt) p k spkt.channel host.table);
      serving = after_request-IsServing depth now p h spkt pkt host.serving;
      count = (
        renew k spkt.channel d,
        client-clients (after_request depth now p h spkt pkt)
              (register h (frame_of spkt) p k spkt.channel).0 id p table
            ∙ who,
        renewed_most k spkt.channel d count left most,
      );
    }
