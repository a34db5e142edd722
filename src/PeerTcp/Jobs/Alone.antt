-- ===== src/PeerTcp/Jobs/Alone.antt =====
-- What becomes of received messages where the jobs of a peer take turns, in src/peer_tcp.cpp.
use beyond_protocol.Prelude.{ℕ, ◌+◌, ◌<◌, ◌≤◌, ◌≡◌, ◌⊎◌, arith, true, false}
use beyond_protocol.PeerTcp.Jobs.{
  Receiver, idle, consumed, cleared, starting, State, fresh, jobs, Step, receive, clear, win, lose,
  start, take_thread, mark, find, miss, fail, handle, release, recheck, give_up, resume, yield,
  leave, close, Reach, begin, next,
}

Step-conserves :
    {k : ℕ} {s t : State}
    → Step s k t
    → t.waiting + t.handling + t.handled ≡ s.waiting + s.handling + s.handled + k
Step-conserves (receive n v r) = omega arith
Step-conserves (clear r) = omega arith
Step-conserves (win r p) = omega arith
Step-conserves (lose r p) = omega arith
Step-conserves (start r) = omega arith
Step-conserves (take_thread h b) = omega arith
Step-conserves (mark h) = omega arith
Step-conserves (find h v w) = omega arith
Step-conserves (miss h v) = omega arith
Step-conserves (fail h) = omega arith
Step-conserves (handle h) = omega arith
Step-conserves (release h) = omega arith
Step-conserves (recheck h c) = omega arith
Step-conserves (give_up h c) = omega arith
Step-conserves (resume h p) = omega arith
Step-conserves (yield h p) = omega arith
Step-conserves (leave h) = omega arith
Step-conserves close = omega arith

-- No message is lost or made up: it waits, is handled by a job, or has been handled.
pub Reach-conserves : {n : ℕ} {s : State} → Reach n s → s.waiting + s.handling + s.handled ≡ n
Reach-conserves begin = omega arith
Reach-conserves (next r st e) = omega (arith, Reach-conserves r, Step-conserves st)

-- Whether recv has yet to start a job or to see that it need not.
abbrev busy : Receiver → ℕ
busy idle = 0
busy consumed = 1
busy cleared = 2
busy starting = 3

record Inv (s : State) : Type 0 where
  one : jobs s ≤ 1
  held :
      s.valid ≡ true
      → s.processing ≡ true
      → (busy s.receiver ≡ 3) ⊎ (0 < s.queued + s.top + s.marked + s.handling + s.empty)
  found :
      s.valid ≡ true
      → 0 < s.waiting
      → (0 < busy s.receiver)
        ⊎ (0 < s.queued + s.top + s.marked + s.handling + s.retry)
        ⊎ (0 < s.empty + s.released) × (s.checked ≡ false)
  seen :
      s.valid ≡ true
      → 0 < s.waiting
      → 0 < s.empty + s.released
      → busy s.receiver ≡ 1 ⊎ busy s.receiver ≡ 3 ⊎ s.checked ≡ false

-- What is reached where no job is started before the one before it has ended.
pub data ReachAlone : ℕ → State → Type 0 where
  first : ReachAlone 0 fresh
  further :
      {n k m : ℕ} {s t : State}
      → ReachAlone n s
      → Step s k t
      → jobs t ≤ 1
      → n + k ≡ m
      → ReachAlone m t
