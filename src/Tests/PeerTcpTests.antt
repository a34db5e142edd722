-- ===== src/Tests/PeerTcpTests.antt =====
-- src/peer_tcp.cpp at concrete inputs.
use beyond_protocol.Prelude.{ℕ, ◌+◌, ◌≤◌, ◌≡◌, ◌≢◌, refl, arith, true, false, List, [], ◌∷◌, none}
use beyond_protocol.Prelude.Int.{pos, negsuc}
use beyond_protocol.Rpc.Handshake.{connected, disconnected}
use beyond_protocol.PeerTcp.{
  Peer, default_message, error, notify_disconnect, returns, waits, wrote, throws, send, close,
  raw_close, connects, fails,
}
use beyond_protocol.PeerTcp.{
  close_locked, close_now, send_buffer, reconnect, data_failed, make_ready,
}
use beyond_protocol.PeerTcp.Runs.{
  Op, sends, closes, is_made_ready, fails_to_parse, reconnects, receives, run, After,
}
use beyond_protocol.PeerTcp.Sending.{send_blocks}
use beyond_protocol.PeerTcp.Told.{told, open_sockets}
use beyond_protocol.PeerTcp.Notified.{opened, told-run}
use beyond_protocol.PeerTcp.Closing.{closed, close_lem}
use beyond_protocol.PeerTcp.Jobs.{State, fresh, jobs, Step, Reach, Quiet}
use beyond_protocol.PeerTcp.Jobs.Alone.{ReachAlone, further}
use beyond_protocol.PeerTcp.Jobs.Pile.{any_jobs, messages_left}

abbrev up : Peer
up = record {
  status = connected;
  valid = true;
  can_reconnect = true;
  recv_max = default_message;
  owner = none;
}

abbrev lost : Peer
lost = record up { status = disconnected; valid = false }

close_lem_example :
    close 1 throws 40 false up
    ≡ returns (closed throws 40 false up) tt (error 6 ∷ notify_disconnect ∷ [])
close_lem_example = close_lem 1 throws 40 false up refl refl

not_the_same : ◌≢◌ {A = ℕ} 2 1
not_the_same e = absurd (omega arith)

send_blocks_example :
    (q : Peer) × (send 1 (wrote (pos 9)) 9 lost ≡ returns q (negsuc 0) [])
    × After
        (λ r.
          (send 2 throws 8 r ≡ waits) × (raw_close 2 r ≡ waits) × (close 2 throws 8 true r ≡ waits))
        (run (sends 1 throws 5 ∷ receives 2 fails 9 throws 5 ∷ []) q)
send_blocks_example =
    send_blocks 1 2 (wrote (pos 9)) throws 9 8 true
      (sends 1 throws 5 ∷ receives 2 fails 9 throws 5 ∷ []) lost refl refl not_the_same

-- A peer that is closed twice, comes back, and fails.
abbrev two_lives : List Op
two_lives =
    closes 1 (wrote (pos 9)) 9 true
    ∷ closes 1 throws 9 true
    ∷ is_made_ready
    ∷ reconnects 1 connects throws 9
    ∷ fails_to_parse false
    ∷ reconnects 1 connects throws 9
    ∷ []

told-run_example : told (run two_lives up) ≤ open_sockets up + opened two_lives up
told-run_example = told-run two_lives up

-- Two messages come at once, and one job handles both.
abbrev both_handled : State
both_handled = record fresh { handled = 2; checked = true }

infixl 3 ◌▷◌
◌▷◌ : {n : ℕ} {s t : State} → ReachAlone n s → Step s 0 t × (jobs t ≤ 1) → ReachAlone n t
r ▷ (st, one) = further r st one (omega arith)

any_jobs_example : (s : State) × Reach 4 s × (s.handling ≡ 4) × (jobs s ≡ 4)
any_jobs_example = any_jobs 4 (omega arith)

messages_left_example : (s : State) × Reach 5 s × Quiet s × (s.valid ≡ true) × (s.waiting ≡ 5)
messages_left_example = messages_left 5

-- Two sockets and two disconnections.
both_disconnections : told (run two_lives up) ≡ 2
unfolding close close_locked close_now send_buffer reconnect data_failed make_ready send
both_disconnections = refl
