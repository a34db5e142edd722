-- ===== src/Net/Served.antt =====
-- What a client of a host gets for a request: _processRequest and send of src/streams/netstream.cpp
-- together, over any sequence of posted packets.
use beyond_protocol.Prelude.{
  ℕ, zero, suc, ◌-◌, ◌≡◌, ◌≢◌, refl, ap, sym, ◌∙◌, inl, inr, Bool-cases, subst, arith, true, false,
  ◌==◌, if◌then◌else◌, List, [], ◌∷◌, ◌++◌, Option, none, some,
}
use native.Mathlib.Decide.{ℕ_discrete}
use beyond_protocol.Prelude.Int.{pos, ◌-ℤ◌}
use beyond_protocol.Packet.{StreamPacket, DataPacket}
use beyond_protocol.Channels.{end_frame}
use beyond_protocol.Net.{
  Client, Net, Answer, taken, Event, frame_of, serve, is_stale, client_packet, strips,
  send_to_clients, send, post, clean_up,
}
use beyond_protocol.Net.Clients.{map_client, unless_stale}
use beyond_protocol.Net.Invariant.{
  WellFormed, client, send_to_clients-WellFormed, client-send_to_clients, other-send_to_clients,
}
use beyond_protocol.Net.Sent.{sent_to, sent_to-append, given, sent_self, sent_else}

-- A packet that is posted, with the universe's answer to the send to each peer.
pub record Post : Type 0 where
  pub spkt : StreamPacket
  pub pkt : DataPacket
  pub answers : ℕ → Answer

-- The posts one after the other.
abbrev pub post_all : List Post → Net → Net × List Event
post_all [] n = (n, [])
post_all (s ∷ ss) n =
    let (n1, (ok, events)) = post s.answers false n s.spkt s.pkt in
    let (n2, more) = post_all ss n1 in (n2, events ++ more)

-- The packets of a frame up to the end of the frame that makes `count` of them, each without its
-- data where the client has not asked for the channel.
abbrev pub up_to : ℕ → ℕ → Client → List Post → List (StreamPacket × DataPacket)
up_to zero id c ss = []
up_to (suc count) id c [] = []
up_to (suc count) id c (s ∷ ss) =
    if frame_of s.spkt == id
    then (s.spkt, client_packet s.spkt s.pkt c)
      ∷ (if s.spkt.channel == end_frame then up_to count id c ss else up_to (suc count) id c ss)
    else up_to (suc count) id c ss

-- The universe takes each packet of the frame that it is given for the peer.
abbrev pub AllTaken : ℕ → ℕ → List Post → Type 0
AllTaken p id [] = Unit {0}
AllTaken p id (s ∷ ss) = (frame_of s.spkt ≡ id → s.answers p ≡ taken) × AllTaken p id ss

-- A host that takes part.
abbrev pub IsServing : Net → Type 0
IsServing n = (n.active ≡ true) × (n.paused ≡ false) × (n.host ≡ true)

pub send_to_clients-IsServing :
    (answers : ℕ → Answer) (n : Net) (spkt : StreamPacket) (pkt : DataPacket)
    → IsServing n
    → IsServing (send_to_clients answers n spkt pkt).0
unfolding send_to_clients clean_up
send_to_clients-IsServing answers n spkt pkt h = ground arith

pub post-send_to_clients :
    (answers : ℕ → Answer) (n : Net) (spkt : StreamPacket) (pkt : DataPacket)
    → IsServing n
    → post answers false n spkt pkt
      ≡ ((send_to_clients answers n spkt pkt).0, (true, (send_to_clients answers n spkt pkt).1))
unfolding post send
post-send_to_clients answers n spkt pkt h = ground arith

up_to-channels :
    (count id : ℕ) (c d : Client) (ss : List Post)
    → c.channels ≡ d.channels
    → up_to count id c ss ≡ up_to count id d ss
unfolding client_packet strips
up_to-channels zero id c d ss h = refl
up_to-channels (suc count) id c d [] h = refl
up_to-channels (suc count) id c d (s ∷ ss) h =
    ground (arith, up_to-channels count id c d ss h, up_to-channels (suc count) id c d ss h)

-- The client after a packet that it was sent.
pub served_client :
    (spkt : StreamPacket) (c : Client) (count : ℕ)
    → c.txcount ≡ pos (suc count)
    → unless_stale (some (serve taken spkt c)) ≡ (
        if spkt.channel == end_frame
        then (if count == 0 then none else some (record c { txcount = pos count }))
        else some c)
unfolding serve is_stale ◌-ℤ◌
served_client spkt c zero h = ground arith
served_client spkt c (suc count) h = ground arith

fresh_client :
    (c : Client) (count : ℕ) → c.txcount ≡ pos (suc count) → unless_stale (some c) ≡ some c
unfolding is_stale
fresh_client c count h = ground arith

module _ (p id : ℕ) where
  post_all_step :
      (s : Post) (ss : List Post) (n : Net)
      → IsServing n
      → sent_to p id (post_all (s ∷ ss) n).1
        ≡ sent_to p id (send_to_clients s.answers n s.spkt s.pkt).1
          ++ sent_to p id (post_all ss (send_to_clients s.answers n s.spkt s.pkt).0).1
  post_all_step s ss n on = rw (post-send_to_clients s.answers n s.spkt s.pkt on) (
      sent_to-append p id (send_to_clients s.answers n s.spkt s.pkt).1
        (post_all ss (send_to_clients s.answers n s.spkt s.pkt).0).1)

  -- The step for one client, whatever comes after.
  post_self :
      (s : Post) (ss : List Post) (n : Net) (o : Option Client)
      → WellFormed n.clients
      → IsServing n
      → frame_of s.spkt ≡ id
      → s.answers p ≡ taken
      → client n id p ≡ o
      → (sent_to p id (post_all (s ∷ ss) n).1
          ≡ given s.spkt s.pkt o
            ++ sent_to p id (post_all ss (send_to_clients s.answers n s.spkt s.pkt).0).1)
        × (client (send_to_clients s.answers n s.spkt s.pkt).0 id p
            ≡ unless_stale (map_client (serve taken s.spkt) o))
  post_self s ss n o wf on same ok is =
      let what : sent_to p id (send_to_clients s.answers n s.spkt s.pkt).1 ≡ given s.spkt s.pkt o =
        subst
          (λ j.
            sent_to p j (send_to_clients s.answers n s.spkt s.pkt).1
            ≡ given s.spkt s.pkt (client n j p))
          same (sent_self s.answers s.spkt s.pkt n p wf ok)
        ∙ ap (given s.spkt s.pkt) is in
      let who =
        subst
          (λ j.
            client (send_to_clients s.answers n s.spkt s.pkt).0 j p
            ≡ unless_stale (map_client (serve (s.answers p) s.spkt) (client n j p)))
          same (client-send_to_clients s.answers n s.spkt s.pkt p wf) in
      (
        post_all_step s ss n on
            ∙ ap
                (λ l.
                  l ++ sent_to p id (post_all ss (send_to_clients s.answers n s.spkt s.pkt).0).1)
                what,
        who
            ∙ ap (λ a. unless_stale (map_client (serve a s.spkt) (client n id p))) ok
            ∙ ap (λ x. unless_stale (map_client (serve taken s.spkt) x)) is,
      )

  post_else :
      (s : Post) (ss : List Post) (n : Net)
      → WellFormed n.clients
      → IsServing n
      → frame_of s.spkt ≢ id
      → unless_stale (client n id p) ≡ client n id p
      → (sent_to p id (post_all (s ∷ ss) n).1
          ≡ sent_to p id (post_all ss (send_to_clients s.answers n s.spkt s.pkt).0).1)
        × (client (send_to_clients s.answers n s.spkt s.pkt).0 id p ≡ client n id p)
  post_else s ss n wf on other fresh = (
    post_all_step s ss n on
        ∙ ap (λ l. l ++ sent_to p id (post_all ss (send_to_clients s.answers n s.spkt s.pkt).0).1)
            (sent_else s.answers s.spkt s.pkt n p id other),
    other-send_to_clients s.answers n s.spkt s.pkt id p (λ e. other (sym e)) wf fresh,
  )

  pub post_all-gone :
      (ss : List Post) (n : Net)
      → WellFormed n.clients
      → IsServing n
      → AllTaken p id ss
      → client n id p ≡ none
      → sent_to p id (post_all ss n).1 ≡ []
  post_all-gone [] n wf on ok gone = refl
  post_all-gone (s ∷ ss) n wf on (ok, oks) gone =
      let n' = (send_to_clients s.answers n s.spkt s.pkt).0 in
      let wf' = send_to_clients-WellFormed s.answers n s.spkt s.pkt wf in
      let on' = send_to_clients-IsServing s.answers n s.spkt s.pkt on in
      elim (ℕ_discrete (frame_of s.spkt) id) [
        | yes e ↦
            let (now, after) = post_self s ss n none wf on e (ok e) gone in
            now ∙ post_all-gone ss n' wf' on' oks after
        | no ne ↦
            let (now, after) = post_else s ss n wf on ne (rw gone refl) in
            now ∙ post_all-gone ss n' wf' on' oks (after ∙ gone)
      ]

  pub post_all-up_to :
      (ss : List Post) (n : Net) (c : Client) (count : ℕ)
      → WellFormed n.clients
      → IsServing n
      → AllTaken p id ss
      → client n id p ≡ some c
      → c.txcount ≡ pos (suc count)
      → sent_to p id (post_all ss n).1 ≡ up_to (suc count) id c ss
  post_all-up_to [] n c count wf on ok is left = refl
  post_all-up_to (s ∷ ss) n c count wf on (ok, oks) is left =
      let n' = (send_to_clients s.answers n s.spkt s.pkt).0 in
      let wf' = send_to_clients-WellFormed s.answers n s.spkt s.pkt wf in
      let on' = send_to_clients-IsServing s.answers n s.spkt s.pkt on in
      elim (ℕ_discrete (frame_of s.spkt) id) [
        | yes e ↦
            let (now, after) = post_self s ss n (some c) wf on e (ok e) is in
            let next = after ∙ served_client s.spkt c count left in
            now ∙ elim (Bool-cases (s.spkt.channel == end_frame)) [
              | inr f ↦
                  rw (post_all-up_to ss n' c count wf' on' oks (next ∙ rw f refl) left)
                    (ground arith)
              | inl t ↦ elim (ℕ_discrete count 0) [
                | yes z ↦
                    rw (post_all-gone ss n' wf' on' oks (next ∙ rw (t, z) refl), z) (ground arith)
                | no nz ↦
                    let d = record c { txcount = pos count } in
                    let more : suc (count - 1) ≡ count = omega arith in
                    rw
                      (
                        post_all-up_to ss n' d (count - 1) wf' on' oks (next ∙ ground arith)
                            (ap pos (sym more)),
                        more,
                        up_to-channels count id d c ss refl,
                      )
                      (ground arith)
              ]
            ]
        | no ne ↦
            let (now, after) = post_else s ss n wf on ne (rw is (fresh_client c count left)) in
            now ∙ post_all-up_to ss n' c count wf' on' oks (after ∙ is) left ∙ ground arith
      ]
