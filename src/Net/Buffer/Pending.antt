-- ===== src/Net/Buffer/Pending.antt =====
-- What the receive buffer of src/streams/netstream.cpp holds and releases: nothing is lost, and nothing
-- comes twice.
use beyond_protocol.Prelude.{
  ℕ, ◌+◌, ◌≡◌, refl, ◌∙◌, arith, Bool, false, not, if◌then◌else◌, List, [], ◌∷◌, ◌++◌, Option, none,
}
use beyond_protocol.Prelude.Int.{ℤ, ◌-ℤ◌}
use beyond_protocol.Packet.{StreamPacket, DataPacket}
use beyond_protocol.Net.Buffer.{
  PacketBuffer, PacketQueue, push, Round, should_process_now, next_due, release_each, pop_consumed,
  release,
}

-- The packets that are still to be released.
abbrev pub pending : List PacketBuffer → List PacketBuffer
pending [] = []
pending (b ∷ bs) = let rest = pending bs in if b.packet_consumed then rest else b ∷ rest

abbrev pub filter : {A : Type 0} → (A → Bool) → List A → List A
filter test [] = []
filter test (x ∷ xs) = let rest = filter test xs in if test x then x ∷ rest else rest

pending-pop_consumed : (bs : List PacketBuffer) → pending (pop_consumed bs) ≡ pending bs
unfolding pop_consumed
pending-pop_consumed [] = refl
pending-pop_consumed (b ∷ bs) = ground (arith, pending-pop_consumed bs)

release_each_lem :
    (r : Round) (q : PacketQueue) (bs : List PacketBuffer) (next : Option ℤ)
    → ((release_each r q bs next).0 ≡ filter (should_process_now r q) (pending bs))
      × (pending (release_each r q bs next).1.0
          ≡ filter (λ b. not (should_process_now r q b)) (pending bs))
unfolding release_each
release_each_lem r q [] next = (refl, refl)
release_each_lem r q (b ∷ bs) next = ground (arith, release_each_lem r q bs (next_due r q b next))

-- A round releases those waiting packets of a queue that are ready, in the order in which they came, and
-- keeps the others in theirs.
pub release_lem :
    (r : Round) (q : PacketQueue) (next : Option ℤ)
    → ((release r q next).0 ≡ filter (should_process_now r q) (pending q.packets))
      × (pending (release r q next).1.0.packets
          ≡ filter (λ b. not (should_process_now r q b)) (pending q.packets))
unfolding release
release_lem r q next =
    let (out, kept) = release_each_lem r q q.packets next in
    (out, pending-pop_consumed (release_each r q q.packets next).1.0 ∙ kept)

-- What happens to the queue of a frame.
pub data Step : Type 0 where
  pushes : StreamPacket → DataPacket → Step
  releases : Round → Step

abbrev pub step : Step → PacketQueue → List PacketBuffer × PacketQueue
step (pushes spkt dpkt) q = ([], push spkt dpkt q)
step (releases r) q = let (out, (q', next)) = release r q none in (out, q')

-- All that is released, and the queue at the end.
abbrev pub run : List Step → PacketQueue → List PacketBuffer × PacketQueue
run [] q = ([], q)
run (s ∷ ss) q = let (out, q1) = step s q in let (more, q2) = run ss q1 in (out ++ more, q2)

-- How many packets a test holds of, in buffers and in steps.
abbrev pub count_buffers : (StreamPacket → DataPacket → Bool) → List PacketBuffer → ℕ
count_buffers test [] = 0
count_buffers test (b ∷ bs) = (if test b.spkt b.dpkt then 1 else 0) + count_buffers test bs

abbrev pub count_pushed : (StreamPacket → DataPacket → Bool) → List Step → ℕ
count_pushed test [] = 0
count_pushed test (pushes spkt dpkt ∷ ss) = (if test spkt dpkt then 1 else 0) + count_pushed test ss
count_pushed test (releases r ∷ ss) = count_pushed test ss

module _ (test : StreamPacket → DataPacket → Bool) where
  count_buffers-append :
      (xs ys : List PacketBuffer)
      → count_buffers test (xs ++ ys) ≡ count_buffers test xs + count_buffers test ys
  count_buffers-append [] ys = omega arith
  count_buffers-append (x ∷ xs) ys = omega (arith, count_buffers-append xs ys)

  count_buffers-filter :
      (keep : PacketBuffer → Bool) (bs : List PacketBuffer)
      → count_buffers test (filter keep bs) + count_buffers test (filter (λ b. not (keep b)) bs)
        ≡ count_buffers test bs
  count_buffers-filter keep [] = omega arith
  count_buffers-filter keep (b ∷ bs) = ground (arith, count_buffers-filter keep bs)

  count-release :
      (r : Round) (q : PacketQueue)
      → count_buffers test (release r q none).0
          + count_buffers test (pending (release r q none).1.0.packets)
        ≡ count_buffers test (pending q.packets)
  count-release r q =
      let (out, kept) = release_lem r q none in
      rw (out, kept) (count_buffers-filter (should_process_now r q) (pending q.packets))

  count-push :
      (spkt : StreamPacket) (dpkt : DataPacket) (q : PacketQueue)
      → count_buffers test (pending (push spkt dpkt q).packets)
        ≡ count_buffers test (pending q.packets) + (if test spkt dpkt then 1 else 0)
  unfolding push
  count-push spkt dpkt q = go q.packets
    where
      go :
          (bs : List PacketBuffer)
          → count_buffers test (
              pending (
                bs
                ++ record {
                  spkt = spkt;
                  dpkt = dpkt;
                  ts_rel = spkt.timestamp -ℤ q.base_spkt;
                  packet_consumed = false;
                }
                  ∷ []))
            ≡ count_buffers test (pending bs) + (if test spkt dpkt then 1 else 0)
      go [] = omega arith
      go (b ∷ bs) = ground (arith, go bs)

  -- Whatever the order in which packets come to the queue of a frame and rounds release them, every packet
  -- is released once or still waits: by any test, as many have come as were released and wait.
  pub run-count :
      (ss : List Step) (q : PacketQueue)
      → count_buffers test (run ss q).0 + count_buffers test (pending (run ss q).1.packets)
        ≡ count_pushed test ss + count_buffers test (pending q.packets)
  run-count [] q = omega arith
  run-count (pushes spkt dpkt ∷ ss) q =
      omega (arith, run-count ss (push spkt dpkt q), count-push spkt dpkt q)
  run-count (releases r ∷ ss) q = omega (
    arith,
    run-count ss (release r q none).1.0,
    count-release r q,
    count_buffers-append (release r q none).0 (run ss (release r q none).1.0).0,
  )
