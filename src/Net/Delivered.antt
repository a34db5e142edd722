-- ===== src/Net/Delivered.antt =====
-- What a client of a host is sent after its request, in src/streams/netstream.cpp.
use beyond_protocol.Prelude.{
  length, ltb, not, ◌&&◌, ◌^◌, ℕ, zero, suc, ◌≡◌, refl, ap, sym, ◌∙◌, inl, inr, Bool-cases, arith,
  true, false, ◌==◌, if◌then◌else◌, List, [], ◌∷◌, none, some,
}
use beyond_protocol.Prelude.Int.{pos}
use beyond_protocol.Packet.{StreamPacket, DataPacket}
use beyond_protocol.Channels.{end_frame}
use beyond_protocol.Net.{strip, Client, Net, frame_of, client_packet, strips}
use beyond_protocol.Net.Requests.{register, renew}
use beyond_protocol.Net.Invariant.{WellFormed, client}
use beyond_protocol.Net.Sent.{sent_to}
use beyond_protocol.Net.Requests.{max_ℤ, is_batch, process_request, request_frame, register_for}
use beyond_protocol.Net.Register.{blank, client-register}
use beyond_protocol.Net.Turns.{Result, request_frame-WellFormed}
use beyond_protocol.Prelude.{bit-zero, bit-or, bit-two_pow}
use beyond_protocol.Stream.{has_bit}
use beyond_protocol.Stream.Seen.{has_bit-bit}
use beyond_protocol.Net.Requests.{with_channel}
use beyond_protocol.Net.Served.{Post, post_all, up_to, AllTaken, IsServing, post_all-up_to}

-- A packet as one who asked for a single channel gets it: of another channel below 32, without its data.
abbrev pub for_channel : ℕ → StreamPacket → DataPacket → DataPacket
for_channel channel spkt pkt =
    if ltb spkt.channel 32 && not (spkt.channel == channel) then record pkt { bytes = [] } else pkt

-- The packets of a frame up to the end of the frame that makes `count` of them, for one channel.
abbrev pub delivered : ℕ → ℕ → ℕ → List Post → List (StreamPacket × DataPacket)
delivered zero id channel ss = []
delivered (suc count) id channel [] = []
delivered (suc count) id channel (s ∷ ss) =
    if frame_of s.spkt == id
    then (s.spkt, for_channel channel s.spkt s.pkt)
      ∷ (if s.spkt.channel == end_frame
          then delivered count id channel ss
          else delivered (suc count) id channel ss)
    else delivered (suc count) id channel ss

one_channel :
    (channel d : ℕ) → ltb d 32 ≡ true → has_bit (with_channel channel 0) d ≡ (d == channel)
unfolding with_channel
one_channel channel d low =
    rw (has_bit-bit (with_channel channel 0) d)
      (ground (arith, bit-or d 0 (2 ^ channel), bit-two_pow d channel, bit-zero d))

without_data :
    (pkt : DataPacket) → ltb 0 (length pkt.bytes) ≡ false → record pkt { bytes = [] } ≡ pkt
without_data pkt h = ap (λ b. record pkt { bytes = b }) (none_there pkt.bytes h)
  where
    none_there : (b : List ℕ) → ltb 0 (length b) ≡ false → [] ≡ b
    none_there [] h = refl
    none_there (x ∷ b) h = absurd (ground arith)

client_packet-for_channel :
    (channel : ℕ) (spkt : StreamPacket) (pkt : DataPacket) (c : Client)
    → c.channels ≡ with_channel channel 0
    → client_packet spkt pkt c ≡ for_channel channel spkt pkt
unfolding client_packet strips strip
client_packet-for_channel channel spkt pkt c is = elim (Bool-cases (ltb spkt.channel 32)) [
  | inr high ↦ rw high refl
  | inl low ↦
      rw (low, is, one_channel channel spkt.channel low)
        (elim (Bool-cases (ltb 0 (length pkt.bytes))) [
          | inl full ↦ rw full refl
          | inr empty ↦ rw empty (elim (Bool-cases (spkt.channel == channel)) [
            | inl e ↦ rw e refl
            | inr ne ↦ rw ne (sym (without_data pkt empty))
          ])
        ])
]

up_to-delivered :
    (count id channel : ℕ) (c : Client) (ss : List Post)
    → c.channels ≡ with_channel channel 0
    → up_to count id c ss ≡ delivered count id channel ss
up_to-delivered zero id channel c ss is = refl
up_to-delivered (suc count) id channel c [] is = refl
up_to-delivered (suc count) id channel c (s ∷ ss) is =
    rw
      (
        client_packet-for_channel channel s.spkt s.pkt c is,
        up_to-delivered count id channel c ss is,
        up_to-delivered (suc count) id channel c ss is,
      )
      refl

renewed_count :
    (count channel p : ℕ) → (renew (suc count) channel (blank p)).txcount ≡ pos (suc count)
unfolding renew max_ℤ
renewed_count count channel p = ground arith

renewed_channel :
    (count channel p : ℕ) → (renew count channel (blank p)).channels ≡ with_channel channel 0
unfolding renew
renewed_channel count channel p = refl

module _ (n : Net) (p : ℕ) (spkt : StreamPacket) (pkt : DataPacket) where
  request_frame-IsServing : IsServing n → IsServing (request_frame n (some p) spkt pkt).0
  unfolding request_frame register_for register
  request_frame-IsServing h = ground arith

  request_frame-client :
      client n (frame_of spkt) p ≡ none
      → client (request_frame n (some p) spkt pkt).0 (frame_of spkt) p
        ≡ some (renew pkt.frame_count spkt.channel (blank p))
  unfolding request_frame register_for
  request_frame-client new =
      ground
        (arith, client-register n (frame_of spkt) p pkt.frame_count spkt.channel (frame_of spkt) p)

  -- A new client that asks a host for one or more frames is sent every packet of its frame that is
  -- posted, up to the end of the last of them, if the network takes what it is sent; those of the channel that
  -- it asked for and of the channels from 32 on are sent whole, and those of the other channels without their
  -- data. After that it is sent nothing.
  pub request-delivered :
      (depth count : ℕ) (ss : List Post)
      → WellFormed n.clients
      → IsServing n
      → is_batch spkt ≡ false
      → client n (frame_of spkt) p ≡ none
      → pkt.frame_count ≡ suc count
      → AllTaken p (frame_of spkt) ss
      → (r : Result) × (process_request (suc depth) (some p) n spkt pkt ≡ some r)
        × (sent_to p (frame_of spkt) (post_all ss r.0).1
            ≡ delivered (suc count) (frame_of spkt) spkt.channel ss)
  unfolding process_request
  request-delivered depth count ss wf on single new many ok = (
    request_frame n (some p) spkt pkt,
    rw single refl,
    post_all-up_to p (frame_of spkt) ss (request_frame n (some p) spkt pkt).0
          (renew (suc count) spkt.channel (blank p)) count
          (request_frame-WellFormed n (some p) spkt pkt wf) (request_frame-IsServing on) ok
          (request_frame-client new ∙ ap (λ k. some (renew k spkt.channel (blank p))) many)
          (renewed_count count spkt.channel p)
        ∙ up_to-delivered (suc count) (frame_of spkt) spkt.channel
            (renew (suc count) spkt.channel (blank p)) ss
            (renewed_channel (suc count) spkt.channel p),
  )
