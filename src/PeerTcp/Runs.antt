-- ===== src/PeerTcp/Runs.antt =====
-- Calls of a TCP peer in sequence, src/peer_tcp.cpp.
use beyond_protocol.Prelude.{ℕ, Bool, List, [], ◌∷◌}
use beyond_protocol.PeerTcp.{
  Peer, Event, Outcome, returns, waits, aborts, and_after, ◌>>=◌, Written, send, close, raw_close,
  Connected, reconnect, Received, recv, socket_error, data_failed, make_ready,
}

-- A call from outside, or a step of the universe or of a job: its thread, what the socket answers, and its arguments.
pub data Op : Type 0 where
  sends : ℕ → Written → ℕ → Op
  closes : ℕ → Written → ℕ → Bool → Op
  raw_closes : ℕ → Op
  reconnects : ℕ → Connected → Written → ℕ → Op
  receives : ℕ → Received → ℕ → Written → ℕ → Op
  sees_error : Bool → Bool → Op
  fails_to_parse : Bool → Op
  is_made_ready : Op

-- The call without its result.
abbrev pub forget : {A : Type 0} → Outcome A → Outcome (Unit {0})
forget (returns p a events) = returns p tt events
forget waits = waits
forget aborts = aborts

abbrev pub call : Op → Peer → Outcome (Unit {0})
call (sends t w size) p = forget (send t w size p)
call (closes t w size retry) p = close t w size retry p
call (raw_closes t) p = raw_close t p
call (reconnects t c w size) p = forget (reconnect t c w size p)
call (sees_error fatal reset) p =
    let (q, (closed, events)) = socket_error fatal reset p in returns q tt events
call (fails_to_parse retry) p = let (q, events) = data_failed retry p in returns q tt events
call is_made_ready p = returns (make_ready p) tt []
call (receives t r room w size) p = recv t r room w size p

-- Calls one after another, of which each returns.
abbrev pub run : List Op → Peer → Outcome (Unit {0})
run [] p = returns p tt []
run (op ∷ ops) p = call op p >>= λ q u. run ops q

-- A property of the peer in which a call leaves it, if it returns.
abbrev pub After : {A : Type 0} → (Peer → Type 0) → Outcome A → Type 0
After P (returns p a events) = P p
After P waits = Unit {0}
After P aborts = Unit {0}

pub After-and_after :
    {A : Type 0} (P : Peer → Type 0) (events : List Event) (o : Outcome A)
    → After P o
    → After P (and_after events o)
After-and_after P events (returns p a more) h = h
After-and_after P events waits h = h
After-and_after P events aborts h = h

pub After->>= :
    {A B : Type 0} (P : Peer → Type 0) (o : Outcome A) (f : Peer → A → Outcome B)
    → After P o
    → ((p : Peer) (a : A) → P p → After P (f p a))
    → After P (o >>= f)
After->>= P (returns p a events) f h k = After-and_after P events (f p a) (k p a h)
After->>= P waits f h k = tt
After->>= P aborts f h k = tt

pub After-forget : {A : Type 0} (P : Peer → Type 0) (o : Outcome A) → After P o → After P (forget o)
After-forget P (returns p a events) h = h
After-forget P waits h = h
After-forget P aborts h = h

pub After-map :
    {A : Type 0} (P Q : Peer → Type 0) (o : Outcome A)
    → ((p : Peer) → P p → Q p)
    → After P o
    → After Q o
After-map P Q (returns p a events) k h = k p h
After-map P Q waits k h = tt
After-map P Q aborts k h = tt

-- What every call keeps, every sequence of calls does.
pub After-run :
    (P : Peer → Type 0)
    → ((op : Op) (p : Peer) → P p → After P (call op p))
    → (ops : List Op) (p : Peer) → P p
    → After P (run ops p)
After-run P keeps [] p h = h
After-run P keeps (op ∷ ops) p h =
    After->>= P (call op p) (λ q u. run ops q) (keeps op p h) (λ q u. After-run P keeps ops q)
