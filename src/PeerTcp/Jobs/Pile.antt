-- ===== src/PeerTcp/Jobs/Pile.antt =====
-- What may become of received messages where jobs of a peer meet, in src/peer_tcp.cpp.
use beyond_protocol.Prelude.{
  ℕ, zero, suc, ◌+◌, ◌-◌, ◌<◌, ◌≤◌, ◌≡◌, inr, refl, subst, arith, Bool, true, false,
}
use beyond_protocol.PeerTcp.Jobs.{
  idle, State, fresh, jobs, Step, receive, clear, win, lose, start, take_thread, running, pool_size,
  mark, find, miss, release, recheck, give_up, yield, leave, Reach, begin, next, Quiet,
}

infixl 3 ◌▷◌
◌▷◌ : {n : ℕ} {s t : State} → Reach n s → Step s 0 t → Reach n t
r ▷ st = next r st (omega arith)

-- Part of a message comes, and a job is started for it, for which there is a thread.
abbrev with_job : State → State
with_job s = record s {
  checked = false;
  processing = true;
  receiver = idle;
  queued = s.queued + 1 - 1;
  top = s.top + 1;
}

part_starts :
    {n : ℕ} (s : State)
    → s.valid ≡ true
    → s.receiver ≡ idle
    → s.processing ≡ false
    → running s < pool_size
    → Reach n s
    → Reach n (record (with_job s) { waiting = s.waiting + 0 })
part_starts s v i p b r =
    r
    ▷ receive 0 v i
    ▷ clear refl
    ▷ win refl p
    ▷ start refl
    ▷ take_thread (omega arith) (omega arith)

-- `n` jobs each in the middle of a message, with nothing held.
abbrev pub piled : ℕ → Bool → State
piled n checked = record fresh { checked = checked; handling = n }

-- A job that leaves releases already_processing_ a second time, when another job has taken it.
one_more :
    (n : ℕ) (c : Bool) → n < pool_size → Reach n (piled n c) → Reach (n + 1) (piled (n + 1) true)
one_more n c few r =
    let looked =
      part_starts (piled n c) refl refl refl (omega arith) r
      ▷ mark (omega arith)
      ▷ miss (omega arith) (inr refl) in
    let taken =
      next (looked ▷ release (omega arith)) (receive 1 refl refl) refl
      ▷ clear refl
      ▷ win refl refl
      ▷ start refl in
    taken
    ▷ recheck (omega arith) refl
    ▷ yield (omega arith) refl
    ▷ leave (omega arith)
    ▷ take_thread (omega arith) (omega arith)
    ▷ mark (omega arith)
    ▷ find (omega arith) refl (omega arith)

piled_from : (n : ℕ) → n ≤ pool_size → (c : Bool) × Reach n (piled n c)
piled_from zero few = (false, begin)
piled_from (suc n) few =
    let (c, r) = piled_from n (omega arith) in
    let same : n + 1 ≡ suc n = omega arith in
    (true, subst (λ k. Reach k (piled k true)) same (one_more n c (omega arith) r))

-- already_processing_ does not keep the jobs of a peer apart: for every number of messages up to that of the pool's
-- threads there is an order of events in which each is being handled by a job of its own, all at once, so that
-- one peer can take the whole pool.
pub any_jobs : (n : ℕ) → n ≤ pool_size → (s : State) × Reach n s × (s.handling ≡ n) × (jobs s ≡ n)
any_jobs n few = let (c, r) = piled_from n few in (piled n c, r, refl, omega arith)

-- One job has released already_processing_ and is yet to look at recv_checked_; another found nothing.
abbrev two_jobs : State
two_jobs = record fresh { checked = true; processing = true; empty = 1; released = 1 }

two_jobs_reached : Reach 0 two_jobs
two_jobs_reached =
    let looked =
      part_starts fresh refl refl refl (omega arith) begin
      ▷ mark (omega arith)
      ▷ miss (omega arith) (inr refl) in
    part_starts _ refl refl refl (omega arith) (looked ▷ release (omega arith))
    ▷ mark (omega arith)
    ▷ miss (omega arith) (inr refl)

abbrev left_over : ℕ → State
left_over n = record fresh { checked = true; waiting = 0 + n }

left_over_reached : (n : ℕ) → Reach n (left_over n)
left_over_reached n =
    next two_jobs_reached (receive n refl refl) (omega arith)
    ▷ clear refl
    ▷ lose refl refl
    ▷ recheck (omega arith) refl
    ▷ yield (omega arith) refl
    ▷ leave (omega arith)
    ▷ release (omega arith)
    ▷ give_up (omega arith) refl
    ▷ leave (omega arith)

-- A wake-up may be lost: for every number of messages there is an order of events after which nothing is
-- going on, on a valid socket, and all of them wait in the buffer.
pub messages_left : (n : ℕ) → (s : State) × Reach n s × Quiet s × (s.valid ≡ true) × (s.waiting ≡ n)
messages_left n = (left_over n, left_over_reached n, (refl, refl), refl, omega arith)
