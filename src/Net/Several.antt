-- ===== src/Net/Several.antt =====
-- What a host of src/streams/netstream.cpp owes a client after a request for several frames.
use native.Mathlib.Decide.{ℕ_discrete}
use beyond_protocol.Prelude.{
  ◌==◌, ◌&&◌, sym, ℕ, suc, ◌%◌, ◌<◌, ◌≡◌, ◌≢◌, ◌⊎◌, refl, inl, inr, Bool-cases, sym, ◌∙◌, subst,
  arith, true, if◌then◌else◌, List, [], ◌∷◌, ◌++◌, Option, none, some, contains,
}
use beyond_protocol.Packet.{StreamPacket, DataPacket}
use beyond_protocol.FrameId.{make, FrameId, frameset, source}
use beyond_protocol.Stream.{frames}
use beyond_protocol.Net.{Net}
use beyond_protocol.Net.Requests.{
  request_frame, request_each, process_request, in_batch, for_frame, is_batch,
}
use beyond_protocol.Net.Turns.{Result}
use beyond_protocol.Prelude.{◌*◌, ◌/◌, Bool, false}
use beyond_protocol.Prelude.Int.{ℤ, pos, negsuc, ltb_ℤ}
use beyond_protocol.Net.{Client, frame_of}
use beyond_protocol.Net.Invariant.{client}
use beyond_protocol.Net.Register.{client-register, or_blank}
use beyond_protocol.Net.Requests.{register_for, renew, max_ℤ}

-- A frame whose frameset and source are bytes, neither of which is read as all of them.
abbrev pub IsPlain : ℕ → Type 0
IsPlain id = (id < 256 * 256) × (id / 256 ≢ 255) × (id % 256 ≢ 255)

abbrev pub AllPlain : List ℕ → Type 0
AllPlain [] = Unit {0}
AllPlain (id ∷ ids) = IsPlain id × AllPlain ids

-- A request for each frame of the batch in turn.
abbrev pub request_selected : Option ℕ → StreamPacket → List ℕ → Net → DataPacket → Result
request_selected p spkt [] n pkt = (n, (pkt, []))
request_selected p spkt (id ∷ ids) n pkt =
    let f : FrameId = record { id = id } in
    let (n', (pkt', events)) =
      if in_batch spkt f then request_frame n p (for_frame spkt f) pkt else (n, (pkt, [])) in
    let (n'', (pkt'', more)) = request_selected p spkt ids n' pkt' in (n'', (pkt'', events ++ more))

plain_once :
    (depth : ℕ) (p : Option ℕ) (spkt : StreamPacket) (pkt : DataPacket) (id : ℕ) (n : Net)
    → IsPlain id
    → process_request (suc depth) p n (for_frame spkt (record { id = id })) pkt
      ≡ some (request_frame n p (for_frame spkt (record { id = id })) pkt)
unfolding process_request is_batch for_frame frameset source
plain_once depth p spkt pkt id n h = ground arith

request_each-plain :
    (depth : ℕ) (p : Option ℕ) (spkt : StreamPacket) (ids : List ℕ) (n : Net) (pkt : DataPacket)
    → AllPlain ids
    → request_each (process_request (suc depth) p) spkt ids n pkt
      ≡ some (request_selected p spkt ids n pkt)
unfolding request_each
request_each-plain depth p spkt [] n pkt h = refl
request_each-plain depth p spkt (id ∷ ids) n pkt (plain, h) =
    elim (Bool-cases (in_batch spkt (record { id = id }))) [
      | inl t ↦
          rw
            (
              t,
              plain_once depth p spkt pkt id n plain,
              request_each-plain depth p spkt ids
                  (request_frame n p (for_frame spkt (record { id = id })) pkt).0
                  (request_frame n p (for_frame spkt (record { id = id })) pkt).1.0 h,
            )
            refl
      | inr f ↦ rw (f, request_each-plain depth p spkt ids n pkt h) refl
    ]

-- The client is owed at least `count` frames.
abbrev pub Owed : ℕ → Option Client → Type 0
Owed count none = ⊥
Owed count (some d) = ltb_ℤ d.txcount (pos count) ≡ false

max_least : (a : ℤ) (count : ℕ) → ltb_ℤ (max_ℤ a (pos count)) (pos count) ≡ false
unfolding max_ℤ
max_least (pos a) count = ground arith
max_least (negsuc a) count = ground arith

renew-Owed : (count channel : ℕ) (c : Client) → Owed count (some (renew count channel c))
unfolding renew
renew-Owed count channel c = max_least c.txcount count

-- A request says that it is for a frame: in the frameset and the source, 255 stands for any.
abbrev pub Names : StreamPacket → ℕ → Type 0
Names spkt id =
    ((spkt.stream_id ≡ 255) ⊎ (id / 256 ≡ spkt.stream_id))
    × ((spkt.frame_number ≡ 255) ⊎ (id % 256 ≡ spkt.frame_number))

frame_of-for_frame :
    (spkt : StreamPacket) (id : ℕ)
    → IsPlain id
    → frame_of (for_frame spkt (record { id = id })) ≡ id
unfolding frame_of for_frame frameset source make
frame_of-for_frame spkt id plain = omega arith

client-request_frame :
    (n : Net) (p : ℕ) (spkt : StreamPacket) (pkt : DataPacket) (id j q : ℕ)
    → IsPlain id
    → client (request_frame n (some p) (for_frame spkt (record { id = id })) pkt).0 j q ≡ (
        if (id == j) && (p == q)
        then some (renew pkt.frame_count spkt.channel (or_blank p (client n id p)))
        else client n j q)
unfolding request_frame register_for for_frame
client-request_frame n p spkt pkt id j q plain =
    client-register n (frame_of (for_frame spkt (record { id = id }))) p pkt.frame_count
      spkt.channel j q
    ∙ rw (frame_of-for_frame spkt id plain) refl

request_frame-count :
    (n : Net) (p : Option ℕ) (spkt : StreamPacket) (pkt : DataPacket)
    → (request_frame n p spkt pkt).1.0.frame_count ≡ pkt.frame_count
unfolding request_frame
request_frame-count n p spkt pkt = ground arith

module _ (p : ℕ) (spkt : StreamPacket) where
  -- What a frame of the loop leaves.
  abbrev one_selected : ℕ → Net → DataPacket → Result
  one_selected id n pkt =
      if in_batch spkt (record { id = id })
      then request_frame n (some p) (for_frame spkt (record { id = id })) pkt
      else (n, (pkt, []))

  one_selected-count :
      (id : ℕ) (n : Net) (pkt : DataPacket)
      → (one_selected id n pkt).1.0.frame_count ≡ pkt.frame_count
  one_selected-count id n pkt =
      ground (arith, request_frame-count n (some p) (for_frame spkt (record { id = id })) pkt)

  one_selected-client :
      (id j q : ℕ) (n : Net) (pkt : DataPacket)
      → IsPlain id
      → client (one_selected id n pkt).0 j q ≡ (
          if in_batch spkt (record { id = id }) && ((id == j) && (p == q))
          then some (renew pkt.frame_count spkt.channel (or_blank p (client n id p)))
          else client n j q)
  one_selected-client id j q n pkt plain = elim (Bool-cases (in_batch spkt (record { id = id }))) [
    | inl t ↦ rw t (client-request_frame n p spkt pkt id j q plain)
    | inr f ↦ rw f refl
  ]

  Owed-one_selected :
      (id j count : ℕ) (n : Net) (pkt : DataPacket)
      → IsPlain id
      → pkt.frame_count ≡ count
      → Owed count (client n j p)
      → Owed count (client (one_selected id n pkt).0 j p)
  Owed-one_selected id j count n pkt plain same owed =
      subst (Owed count) (sym (one_selected-client id j p n pkt plain))
        (go (in_batch spkt (record { id = id }) && ((id == j) && (p == p))))
    where
      go :
          (b : Bool)
          → Owed count (
              if b
              then some (renew pkt.frame_count spkt.channel (or_blank p (client n id p)))
              else client n j p)
      go true =
          subst
            (λ k. Owed k (some (renew pkt.frame_count spkt.channel (or_blank p (client n id p)))))
            same (renew-Owed pkt.frame_count spkt.channel (or_blank p (client n id p)))
      go false = owed

  Owed-request_selected :
      (ids : List ℕ) (j count : ℕ) (n : Net) (pkt : DataPacket)
      → AllPlain ids
      → pkt.frame_count ≡ count
      → Owed count (client n j p)
      → Owed count (client (request_selected (some p) spkt ids n pkt).0 j p)
  Owed-request_selected [] j count n pkt plain same owed = owed
  Owed-request_selected (id ∷ ids) j count n pkt (plain, rest) same owed =
      Owed-request_selected ids j count (one_selected id n pkt).0 (one_selected id n pkt).1.0 rest
        (one_selected-count id n pkt ∙ same) (Owed-one_selected id j count n pkt plain same owed)

  request_selected-Owed :
      (ids : List ℕ) (j count : ℕ) (n : Net) (pkt : DataPacket)
      → AllPlain ids
      → pkt.frame_count ≡ count
      → contains j ids ≡ true
      → in_batch spkt (record { id = j }) ≡ true
      → Owed count (client (request_selected (some p) spkt ids n pkt).0 j p)
  unfolding contains
  request_selected-Owed [] j count n pkt plain same has named = absurd (ground arith)
  request_selected-Owed (id ∷ ids) j count n pkt (plain, rest) same has named =
      elim (ℕ_discrete id j) [
        | yes e ↦
            let here : client (one_selected id n pkt).0 j p
                ≡ some (renew pkt.frame_count spkt.channel (or_blank p (client n id p))) =
              one_selected-client id j p n pkt plain ∙ rw (e, named) (ground arith) in
            Owed-request_selected ids j count (one_selected id n pkt).0 (one_selected id n pkt).1.0
              rest (one_selected-count id n pkt ∙ same)
              (subst (Owed count) (sym here) (
                subst
                  (λ k.
                    Owed k (some (renew pkt.frame_count spkt.channel (or_blank p (client n id p)))))
                  same (renew-Owed pkt.frame_count spkt.channel (or_blank p (client n id p)))))
        | no ne ↦
            request_selected-Owed ids j count (one_selected id n pkt).0 (one_selected id n pkt).1.0
              rest (one_selected-count id n pkt ∙ same) (ground arith) named
      ]

  request_selected-other :
      (ids : List ℕ) (j q : ℕ) (n : Net) (pkt : DataPacket)
      → AllPlain ids
      → (in_batch spkt (record { id = j }) && (p == q)) ≡ false
      → client (request_selected (some p) spkt ids n pkt).0 j q ≡ client n j q
  request_selected-other [] j q n pkt plain other = refl
  request_selected-other (id ∷ ids) j q n pkt (plain, rest) other =
      request_selected-other ids j q (one_selected id n pkt).0 (one_selected id n pkt).1.0 rest
        other
      ∙ one_selected-client id j q n pkt plain
      ∙ elim (ℕ_discrete id j) [ yes e ↦ rw e (ground arith) | no ne ↦ ground arith ]

  named_lem : (j : ℕ) → Names spkt j → in_batch spkt (record { id = j }) ≡ true
  unfolding in_batch frameset source
  named_lem j named = ground arith

  names : (j : ℕ) → in_batch spkt (record { id = j }) ≡ true → Names spkt j
  unfolding in_batch frameset source
  names j named = ground arith

  no_other :
      (j q : ℕ)
      → (¬ Names spkt j) ⊎ (q ≢ p)
      → (in_batch spkt (record { id = j }) && (p == q)) ≡ false
  no_other j q (inl unnamed) = elim (Bool-cases (in_batch spkt (record { id = j }))) [
    | inl t ↦ absurd (unnamed (names j t))
    | inr f ↦ rw f refl
  ]
  no_other j q (inr other) = ground arith

  -- A request of a peer for several frames returns, with calls of depth two, if the frames of the stream have bytes for
  -- frameset and source, neither of them 255. After it the peer is a client of a frame of the stream that the
  -- request names, and is owed at least as many of it as it asked for; the clients of a frame that is not named,
  -- and other peers, are as before.
  pub process_request-Owed :
      (depth : ℕ) (n : Net) (pkt : DataPacket) (id other q : ℕ)
      → (spkt.stream_id ≡ 255) ⊎ (spkt.frame_number ≡ 255)
      → AllPlain (frames n.base)
      → contains id (frames n.base) ≡ true
      → Names spkt id
      → (¬ Names spkt other) ⊎ (q ≢ p)
      → (r : Result) × (process_request (suc (suc depth)) (some p) n spkt pkt ≡ some r)
        × Owed pkt.frame_count (client r.0 id p)
        × (client r.0 other q ≡ client n other q)
  unfolding process_request is_batch
  process_request-Owed depth n pkt id other q several plain has named unnamed =
      let batch : is_batch spkt ≡ true = ground arith in
      (
        request_selected (some p) spkt (frames n.base) n pkt,
        rw batch (request_each-plain depth (some p) spkt (frames n.base) n pkt plain),
        request_selected-Owed (frames n.base) id pkt.frame_count n pkt plain refl has
            (named_lem id named),
        request_selected-other (frames n.base) other q n pkt plain (no_other other q unnamed),
      )
