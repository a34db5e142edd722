-- ===== src/Net/Buffer/Complete.antt =====
-- The counts of packets by timestamp in the receive buffer of src/streams/netstream.cpp, and what
-- they hold back.
use beyond_protocol.Prelude.{
  ℕ, ◌+◌, ◌≡◌, refl, ap, subst, sym, ◌∙◌, arith, Bool, true, false, ◌&&◌, ◌||◌, ◌==◌, if◌then◌else◌,
  List, [], ◌∷◌, Option, none, some,
}
use beyond_protocol.Prelude.Int.{ℤ, pos, ◌+ℤ◌, ◌-ℤ◌, int_laws, eq_of_parts}
use beyond_protocol.Packet.{StreamPacket, DataPacket}
use beyond_protocol.Channels.{end_frame}
use beyond_protocol.Net.Buffer.{
  PacketBuffer, PacketQueue, new_queue, push, Round, should_process_now, release, eq_ℤ, count_at,
  put_count, erase_count, or_zero, weight, count_packet, has_all,
}
use beyond_protocol.Net.Buffer.Pending.{pending, filter, release_lem, Step, pushes, releases, run}

-- The packets of a timestamp that have come, and those that ends of frames say there are.
abbrev pub came : ℤ → List Step → ℕ
came ts [] = 0
came ts (pushes spkt dpkt ∷ ss) = (if eq_ℤ spkt.timestamp ts then 1 else 0) + came ts ss
came ts (releases r ∷ ss) = came ts ss

abbrev pub announced : ℤ → List Step → ℕ
announced ts [] = 0
announced ts (pushes spkt dpkt ∷ ss) =
    (if eq_ℤ spkt.timestamp ts && (spkt.channel == end_frame) then dpkt.packet_count else 0)
    + announced ts ss
announced ts (releases r ∷ ss) = announced ts ss

eq_ℤ-refl : (a : ℤ) → eq_ℤ a a ≡ true
eq_ℤ-refl a = ground arith

eq_ℤ_iff : (a b : ℤ) → eq_ℤ a b ≡ true → a ≡ b
eq_ℤ_iff a b h = eq_of_parts a b (ground arith)

same_key : (a b t : ℤ) → eq_ℤ a b ≡ true → eq_ℤ t a ≡ eq_ℤ t b
same_key a b t h = ap (eq_ℤ t) (eq_ℤ_iff a b h)

count_at-put_count :
    (t ts v : ℤ) (m : List (ℤ × ℤ))
    → count_at ts (put_count t v m) ≡ (if eq_ℤ t ts then some v else count_at ts m)
unfolding count_at put_count
count_at-put_count t ts v [] = ground arith
count_at-put_count t ts v ((u, c) ∷ m) = ground (arith, count_at-put_count t ts v m)

count_at-erase_count :
    (t ts : ℤ) (m : List (ℤ × ℤ))
    → count_at ts (erase_count t m) ≡ (if eq_ℤ t ts then none else count_at ts m)
unfolding count_at erase_count
count_at-erase_count t ts [] = ground arith
count_at-erase_count t ts ((u, c) ∷ m) = ground (arith, count_at-erase_count t ts m)

-- The count of a timestamp is how many packets more have come than were announced, and is there
-- exactly when that is not zero.
record TracksAt (ts : ℤ) (a b : ℕ) (m : List (ℤ × ℤ)) : Type 0 where
  count : or_zero (count_at ts m) ≡ pos a -ℤ pos b
  kept : (c : ℤ) → count_at ts m ≡ some c → eq_ℤ c (pos 0) ≡ false

abbrev came_of : ℤ → StreamPacket → ℕ
came_of ts spkt = if eq_ℤ spkt.timestamp ts then 1 else 0

abbrev announced_of : ℤ → StreamPacket → DataPacket → ℕ
announced_of ts spkt dpkt =
    if eq_ℤ spkt.timestamp ts && (spkt.channel == end_frame) then dpkt.packet_count else 0

weight_lem :
    (spkt : StreamPacket) (dpkt : DataPacket) (c : ℤ) (a b : ℕ)
    → c ≡ pos a -ℤ pos b
    → c +ℤ weight spkt dpkt
      ≡ pos (1 + a) -ℤ pos ((if spkt.channel == end_frame then dpkt.packet_count else 0) + b)
unfolding weight
weight_lem spkt dpkt c a b h = rw h (go (spkt.channel == end_frame))
  where
    go :
        (e : Bool)
        → pos a -ℤ pos b +ℤ (if e then pos 1 -ℤ pos dpkt.packet_count else pos 1)
          ≡ pos (1 + a) -ℤ pos ((if e then dpkt.packet_count else 0) + b)
    go true = omega int_laws
    go false = omega int_laws

cast :
    (ts : ℤ) (a b c d : ℕ) (m : List (ℤ × ℤ))
    → a ≡ c
    → b ≡ d
    → TracksAt ts a b m
    → TracksAt ts c d m
cast ts a b c d m e f h = subst (λ x. TracksAt ts x d m) e (subst (λ y. TracksAt ts a y m) f h)

count_packet-TracksAt :
    (spkt : StreamPacket) (dpkt : DataPacket) (ts : ℤ) (a b : ℕ) (m : List (ℤ × ℤ))
    → TracksAt ts a b m
    → TracksAt ts (came_of ts spkt + a) (announced_of ts spkt dpkt + b) (count_packet spkt dpkt m)
unfolding count_packet
count_packet-TracksAt spkt dpkt ts a b m h =
    go (eq_ℤ spkt.timestamp ts) (eq_ℤ count (pos 0)) refl refl
  where
    count : ℤ
    count = or_zero (count_at spkt.timestamp m) +ℤ weight spkt dpkt

    counted :
        eq_ℤ spkt.timestamp ts ≡ true
        → count
          ≡ pos (1 + a) -ℤ pos ((if spkt.channel == end_frame then dpkt.packet_count else 0) + b)
    counted same =
        weight_lem spkt dpkt (or_zero (count_at spkt.timestamp m)) a b
          (ap (λ t. or_zero (count_at t m)) (eq_ℤ_iff spkt.timestamp ts same) ∙ h.count)

    go :
        (same stop : Bool)
        → eq_ℤ spkt.timestamp ts ≡ same
        → eq_ℤ count (pos 0) ≡ stop
        → TracksAt ts
            ((if same then 1 else 0) + a)
            ((if same && (spkt.channel == end_frame) then dpkt.packet_count else 0) + b)
            (if stop then erase_count spkt.timestamp m else put_count spkt.timestamp count m)
    go true true same stop = record {
      count =
          rw (count_at-erase_count spkt.timestamp ts m, same)
            (sym (eq_ℤ_iff count (pos 0) stop) ∙ counted same);
      kept = λ c e. ground (arith, count_at-erase_count spkt.timestamp ts m);
    }
    go true false same stop = record {
      count = rw (count_at-put_count spkt.timestamp ts count m, same) (counted same);
      kept = λ c e. ground (arith, count_at-put_count spkt.timestamp ts count m);
    }
    go false true same stop = cast ts a b (0 + a) (0 + b) _ (omega arith) (omega arith) (record {
      count = rw (count_at-erase_count spkt.timestamp ts m, same) h.count;
      kept = λ c e. ground (arith, count_at-erase_count spkt.timestamp ts m, h.kept c);
    })
    go false false same stop = cast ts a b (0 + a) (0 + b) _ (omega arith) (omega arith) (record {
      count = rw (count_at-put_count spkt.timestamp ts count m, same) h.count;
      kept = λ c e. ground (arith, count_at-put_count spkt.timestamp ts count m, h.kept c);
    })

release-incomplete :
    (r : Round) (q : PacketQueue) (next : Option ℤ)
    → (release r q next).1.0.incomplete ≡ q.incomplete
unfolding release
release-incomplete r q next = refl

run-TracksAt :
    (ts : ℤ) (ss : List Step) (q : PacketQueue) (a b : ℕ)
    → TracksAt ts a b q.incomplete
    → TracksAt ts (came ts ss + a) (announced ts ss + b) (run ss q).1.incomplete
unfolding push release
run-TracksAt ts [] q a b h = cast ts a b (0 + a) (0 + b) q.incomplete (omega arith) (omega arith) h
run-TracksAt ts (pushes spkt dpkt ∷ ss) q a b h =
    cast ts (came ts ss + (came_of ts spkt + a)) (announced ts ss + (announced_of ts spkt dpkt + b))
      (came_of ts spkt + came ts ss + a) (announced_of ts spkt dpkt + announced ts ss + b)
      (run ss (push spkt dpkt q)).1.incomplete (omega arith) (omega arith)
      (run-TracksAt ts ss (push spkt dpkt q) (came_of ts spkt + a) (announced_of ts spkt dpkt + b)
        (count_packet-TracksAt spkt dpkt ts a b q.incomplete h))
run-TracksAt ts (releases r ∷ ss) q a b h = run-TracksAt ts ss (release r q none).1.0 a b h

abbrev pub All : (PacketBuffer → Type 0) → List PacketBuffer → Type 0
All P [] = Unit {0}
All P (b ∷ bs) = P b × All P bs

filter-All :
    (P : PacketBuffer → Type 0) (test : PacketBuffer → Bool) (bs : List PacketBuffer)
    → ((b : PacketBuffer) → test b ≡ true → P b)
    → All P (filter test bs)
filter-All P test [] h = tt
filter-All P test (b ∷ bs) h = go (test b) refl (filter-All P test bs h)
  where
    go :
        (t : Bool)
        → test b ≡ t
        → All P (filter test bs)
        → All P (if t then b ∷ filter test bs else filter test bs)
    go true e rest = (h b e, rest)
    go false e rest = rest

sub_zero : (x y : ℕ) → pos x -ℤ pos y ≡ pos 0 → x ≡ y
unfolding ◌-ℤ◌
sub_zero x y h = ground arith

has_all-TracksAt :
    (q : PacketQueue) (b : PacketBuffer) (x y : ℕ)
    → TracksAt b.spkt.timestamp x y q.incomplete
    → has_all q b ≡ true
    → x ≡ y
unfolding has_all
has_all-TracksAt q b x y h t = sub_zero x y (sym h.count ∙ ground arith)

none-TracksAt : (ts : ℤ) → TracksAt ts 0 0 []
unfolding count_at ◌-ℤ◌
none-TracksAt ts = record { count = refl; kept = λ c e. absurd cc }

ready-has_all :
    (r : Round) (q : PacketQueue) (b : PacketBuffer)
    → should_process_now r q b ≡ true
    → (b.spkt.channel == end_frame) || r.sync_frames ≡ true
    → has_all q b ≡ true
unfolding should_process_now
ready-has_all r q b ready whole = ground arith

-- When a round releases the end of a frame, or any packet while frames are synchronized, as many
-- packets of its timestamp have come as the ends of frames of that timestamp announced, whatever came and was
-- released before.
pub release_complete :
    (ss : List Step) (base now : ℤ) (r : Round) (next : Option ℤ)
    → All
        (λ b.
          (b.spkt.channel == end_frame) || r.sync_frames ≡ true
          → came b.spkt.timestamp ss ≡ announced b.spkt.timestamp ss)
        (release r (run ss (new_queue base now)).1 next).0
unfolding new_queue
release_complete ss base now r next =
    rw ((release_lem r q next).0)
      (filter-All _ (should_process_now r q) (pending q.packets) held_back)
  where
    q : PacketQueue
    q = (run ss (new_queue base now)).1

    held_back :
        (b : PacketBuffer)
        → should_process_now r q b ≡ true
        → (b.spkt.channel == end_frame) || r.sync_frames ≡ true
        → came b.spkt.timestamp ss ≡ announced b.spkt.timestamp ss
    held_back b ready whole =
        let t = b.spkt.timestamp in
        let tracks = run-TracksAt t ss (new_queue base now) 0 0 (none-TracksAt t) in
        omega (
          arith,
          has_all-TracksAt q b (came t ss + 0) (announced t ss + 0) tracks
              (ready-has_all r q b ready whole),
        )
