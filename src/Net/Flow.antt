-- ===== src/Net/Flow.antt =====
-- A host and a client of src/streams/netstream.cpp together: the client asks for more frames before the
-- host has sent those that it was asked for.
use beyond_protocol.Prelude.{
  ℕ, suc, ◌-◌, ◌/◌, ◌<◌, ◌≤◌, ◌≡◌, refl, sym, ◌∙◌, inl, inr, Bool-cases, subst, arith, Bool, true,
  false, ◌==◌, leb, if◌then◌else◌, List, [], ◌∷◌, Option, some, ◌>>=◌, set,
}
use beyond_protocol.Prelude.Int.{ℤ}
use beyond_protocol.Packet.{StreamPacket, DataPacket}
use beyond_protocol.FrameId.{frameset, source, make, fields-make}
use beyond_protocol.Channels.{end_frame}
use beyond_protocol.Stream.{has_bit}
use beyond_protocol.Net.{Client, Net, taken, frame_of, request_packet, request_data}
use beyond_protocol.Net.Requests.{recur, is_request, is_batch}
use beyond_protocol.Net.{send_to_clients, client_packet}
use beyond_protocol.Net.Sent.{sent_self}
use beyond_protocol.Net.Served.{post-send_to_clients}
use beyond_protocol.Net.Arrive.{
  requests_arrive, packets_arrive, round, after_request, host-request, recur_wait, recur_ask, noted,
  again, early-client, noted-requests_arrive,
}
use beyond_protocol.Net.Hosting.{
  Hosting, Waiting, noted-Waiting, set-Waiting, sent-Hosting, renewed-Hosting,
}

-- The rounds of several packets.
abbrev pub rounds : ℕ → ℤ → ℕ → List (StreamPacket × DataPacket) → Net → Net → Option (Net × Net)
rounds depth now p [] h c = some (h, c)
rounds depth now p ((spkt, pkt) ∷ packets) h c = do
  (h1, c1) ← round depth now p h c spkt pkt
  rounds depth now p packets h1 c1

module _ (fs src p channel f : ℕ) (small : fs < 5) (single : src < 255) (four : 4 ≤ f)
    (byte : f < 256) where
  abbrev id : ℕ
  id = (make fs src).id

  -- Enough is left when a client asks, and the two counts are the same.
  pub record Flowing (h c : Net) : Type 0 where
    pub left : ℕ
    pub enough : f / 2 ≤ left
    pub most : left ≤ f
    pub hosting : Hosting id p left h
    pub waiting : Waiting fs id channel f left c

  frame_fields : (frameset (make fs src) ≡ fs) × (source (make fs src) ≡ src)
  frame_fields = let (a, b) = fields-make fs src (omega arith) in (a, b ∙ omega arith)

  -- The client's request names the frame again.
  pub request_lem :
      (now : ℤ)
      → let spkt =
          request_packet now channel (frameset (make fs src)) (source (make fs src)) false in
        (spkt.stream_id ≡ fs) × (spkt.frame_number ≡ src)
  unfolding request_packet
  request_lem now = rw (frame_fields.0, frame_fields.1) (omega arith)

  abbrev pub request : Net → ℤ → StreamPacket
  request c now = request_packet now channel (frameset (make fs src)) (source (make fs src)) false

  abbrev pub request_size : Net → DataPacket
  request_size c = request_data c.frames_to_request c.bitrate

  pub request-IsRequest : (c : Net) (now : ℤ) → is_request (request c now) (request_size c) ≡ true
  unfolding is_request request_packet request_data has_bit
  request-IsRequest c now = refl

  pub request-single : (c : Net) (now : ℤ) → is_batch (request c now) ≡ false
  unfolding is_batch
  request-single c now = ground (arith, request_lem now)

  pub request_count : (c : Net) → c.frames_to_request ≡ f → (request_size c).frame_count ≡ f
  unfolding request_data
  request_count c h = rw h (omega arith)

  pub frame_of_lem :
      (spkt : StreamPacket)
      → spkt.stream_id ≡ fs
      → spkt.frame_number ≡ src
      → (frame_of spkt ≡ id) × (frameset (make spkt.stream_id spkt.frame_number) ≡ fs)
  unfolding frame_of
  frame_of_lem spkt e1 e2 = rw (e1, e2) (refl, frame_fields.0)

  -- What the arrival of a packet of the frame comes to.
  arrives :
      (depth : ℕ) (now : ℤ) (h c : Net) (spkt : StreamPacket) (pkt : DataPacket)
      → (c.active ≡ true) × (c.paused ≡ false) × (c.host ≡ false)
      → spkt.stream_id < 5
      → packets_arrive depth now p ((spkt, pkt) ∷ []) h c ≡ (
          requests_arrive depth now p (again c now spkt pkt).1 h >>= λ h1.
          some (h1, (again c now spkt pkt).0))
  arrives depth now h c spkt pkt on low =
      rw
        (
          early-client c now spkt pkt on low,
          noted-requests_arrive c now spkt pkt depth p (again c now spkt pkt).1 h,
        )
        refl

  -- The host's part of a round.
  round-arrives :
      (depth : ℕ) (now : ℤ) (h c : Net) (spkt : StreamPacket) (pkt : DataPacket) (left : ℕ)
      → Hosting (frame_of spkt) p left h
      → (d : Client) × (round depth now p h c spkt pkt
          ≡ packets_arrive depth now p
              ((spkt, client_packet spkt pkt d) ∷ [])
              (send_to_clients (λ q. taken) h spkt pkt).0
              c)
  round-arrives depth now h c spkt pkt left host =
      let (d, is, count) = host.count in
      (
        d,
        rw
            (
              post-send_to_clients (λ q. taken) h spkt pkt host.serving,
              sent_self (λ q. taken) spkt pkt h p host.table refl,
              is,
            )
            refl,
      )

  half_left :
      (n : Net) (left : ℕ)
      → n.frames_to_request ≡ f
      → leb left (n.frames_to_request / 2) ≡ false
      → f / 2 ≤ left - 1
  half_left n left size h = ground arith

  -- The end of a frame at the client, and its request at the host.
  at_end :
      (depth : ℕ) (now : ℤ) (h n : Net) (left : ℕ)
      → f / 2 ≤ left
      → left ≤ f
      → Hosting id p (left - 1) h
      → Waiting fs id channel f left n
      → (h1 : Net) × (requests_arrive (suc depth) now p (recur n now fs).1 h ≡ some h1)
        × Flowing h1 (recur n now fs).0
  at_end depth now h n left enough most host w =
      elim (Bool-cases (leb left (n.frames_to_request / 2))) [
        | inl t ↦
            let (on, unpaused, off) = w.running in
            let req = request n now in
            let (events, e) =
              host-request depth now p h req (request_size n) host.serving (request-IsRequest n now)
                (request-single n now) (rw ((request_lem now).0) small) in
            rw (recur_ask n now fs left w.tally id channel t (on, off) w.frames w.channels) (
              after_request depth now p h req (request_size n),
              rw e refl,
              record {
                left = f;
                enough = omega arith;
                most = omega arith;
                hosting =
                    subst (λ k. Hosting id p k (after_request depth now p h req (request_size n)))
                      (request_count n w.size)
                      (renewed-Hosting depth now p id (left - 1) h req (request_size n)
                        (frame_of_lem req (request_lem now).0 (request_lem now).1).0
                        (omega (arith, request_count n w.size)) host);
                waiting =
                    subst
                      (λ k.
                        Waiting fs id channel f k
                          (record n { tally = set n.tally fs n.frames_to_request }))
                      w.size (set-Waiting fs id channel f left n.frames_to_request n w);
              },
            )
        | inr no_more ↦ rw (recur_wait n now fs left w.tally no_more) (
          h,
          refl,
          record {
            left = left - 1;
            enough = half_left n left w.size no_more;
            most = omega arith;
            hosting = host;
            waiting = set-Waiting fs id channel f left (left - 1) n w;
          },
        )
      ]

  -- The client's part: what it has of the packet, and what the host has after its requests.
  again-Flowing :
      (depth : ℕ) (now : ℤ) (h c : Net) (spkt : StreamPacket) (pkt : DataPacket) (left : ℕ)
      → spkt.stream_id ≡ fs
      → spkt.frame_number ≡ src
      → f / 2 ≤ left
      → left ≤ f
      → Hosting id p (if spkt.channel == end_frame then left - 1 else left) h
      → Waiting fs id channel f left c
      → (h1 : Net) × (requests_arrive (suc depth) now p (again c now spkt pkt).1 h ≡ some h1)
        × Flowing h1 (again c now spkt pkt).0
  again-Flowing depth now h c spkt pkt left e1 e2 enough most host wait =
      rw ((frame_of_lem spkt e1 e2).1) (go (spkt.channel == end_frame) host)
    where
      n : Net
      n = (noted c now spkt pkt).0

      w : Waiting fs id channel f left n
      w = noted-Waiting fs id channel f left c now spkt pkt wait

      go :
          (b : Bool)
          → Hosting id p (if b then left - 1 else left) h
          → (h1 : Net) × (requests_arrive
                (suc depth)
                now
                p
                (if b then recur n now fs else (n, [])).1
                h
              ≡ some h1)
            × Flowing h1 (if b then recur n now fs else (n, [])).0
      go true host = at_end depth now h n left enough most host w
      go false host = (
        h,
        refl,
        record { left = left; enough = enough; most = most; hosting = host; waiting = w },
      )

  pub round-Flowing :
      (depth : ℕ) (now : ℤ) (h c : Net) (spkt : StreamPacket) (pkt : DataPacket)
      → spkt.stream_id ≡ fs
      → spkt.frame_number ≡ src
      → Flowing h c
      → (h1 : Net) × (c1 : Net) × (round (suc depth) now p h c spkt pkt ≡ some (h1, c1))
        × Flowing h1 c1
  round-Flowing depth now h c spkt pkt e1 e2 flow =
      let (same, field) = frame_of_lem spkt e1 e2 in
      let k = flow.left - 2 in
      let two : flow.left ≡ suc (suc k) = omega (arith, flow.enough) in
      let start : Hosting (frame_of spkt) p (suc (suc k)) h =
        subst (λ j. Hosting j p (suc (suc k)) h) (sym same)
          (subst (λ l. Hosting id p l h) two flow.hosting) in
      let (d, e) = round-arrives (suc depth) now h c spkt pkt (suc (suc k)) start in
      let h' = (send_to_clients (λ q. taken) h spkt pkt).0 in
      let counts : (if spkt.channel == end_frame then flow.left - 1 else flow.left)
          ≡ (if spkt.channel == end_frame then suc k else suc (suc k)) =
        ground arith in
      let host =
        subst (λ l. Hosting id p l h') (sym counts)
          (subst (λ j. Hosting j p (if spkt.channel == end_frame then suc k else suc (suc k)) h')
            same (sent-Hosting spkt pkt p k h start)) in
      let pkt' = client_packet spkt pkt d in
      let (h1, asked_, next) =
        again-Flowing depth now h' c spkt pkt' flow.left e1 e2 flow.enough flow.most host
          flow.waiting in
      (
        h1,
        (again c now spkt pkt').0,
        e
            ∙ arrives (suc depth) now h' c spkt pkt' flow.waiting.running (rw e1 small)
            ∙ rw asked_ refl,
        next,
      )

  -- Packets of the frame.
  abbrev pub AllOfFrame : List (StreamPacket × DataPacket) → Type 0
  AllOfFrame [] = Unit {0}
  AllOfFrame ((spkt, pkt) ∷ packets) =
      (spkt.stream_id ≡ fs) × (spkt.frame_number ≡ src) × AllOfFrame packets

  -- Where each packet, and the requests that it brings about, arrive before the next is posted: whatever packets of the
  -- frame the host posts, every call returns, and after them the host still has the client, with as many frames
  -- to send as the client waits for, if it was so before.
  pub rounds-Flowing :
      (depth : ℕ) (now : ℤ) (packets : List (StreamPacket × DataPacket)) (h c : Net)
      → AllOfFrame packets
      → Flowing h c
      → (h1 : Net) × (c1 : Net) × (rounds (suc depth) now p packets h c ≡ some (h1, c1))
        × Flowing h1 c1
  rounds-Flowing depth now [] h c all flow = (h, c, refl, flow)
  rounds-Flowing depth now ((spkt, pkt) ∷ packets) h c (e1, e2, all) flow =
      let (h1, c1, first, flow1) = round-Flowing depth now h c spkt pkt e1 e2 flow in
      let (h2, c2, rest, flow2) = rounds-Flowing depth now packets h1 c1 all flow1 in
      (h2, c2, rw first rest, flow2)
