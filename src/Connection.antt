-- ===== src/Connection.antt =====
-- src/protocol/connection.cpp: SocketConnection::writev, which sends a list of buffers over a socket
-- that may take only a part of them.
pub mod Gather
pub mod Sent
use beyond_protocol.Prelude.{
  ℕ, suc, ◌+◌, ◌-◌, Bool, true, false, if◌then◌else◌, ltb, ◌==◌, List, [], ◌∷◌, ◌++◌, Option, none,
  some, length, take, drop,
}

-- What a call of the socket's writev answers: the number of bytes taken, or a negative number, with
-- what is_fatal() says after it. The answers are a parameter, one for each call.
pub data Answer : Type 0 where
  sent : ℕ → Answer
  failed : Bool → Answer

-- How the function ends: with a number of bytes; with the negative answer; past the end of the
-- buffers; or not yet, when there are no more answers.
pub data Ending : Type 0 where
  returned : ℕ → Ending
  fatal undefined pending : Ending

-- The bytes of the buffers, in order.
abbrev pub concat : List (List ℕ) → List ℕ
concat [] = []
concat (b ∷ bs) = b ++ concat bs

-- The first loop: `requested`.
unfoldable pub requested_of : List (List ℕ) → ℕ
requested_of [] = 0
requested_of (b ∷ bs) = length b + requested_of bs

-- The buffers after `sent` bytes: the turns of the loop that end in `continue`, and the two lines
-- after them. none is a turn past the last buffer.
unfoldable pub skip : List (List ℕ) → ℕ → Option (List (List ℕ))
skip [] n = none
skip (b ∷ bs) n =
    let rest = skip bs (n - length b) in if ltb (length b) n then rest else some (drop n b ∷ bs)

-- The loop, with the bytes that the socket took so far. `total` is sent_total and `n` is sent.
unfoldable pub resend : List Answer → ℕ → ℕ → ℕ → List (List ℕ) → List ℕ → Ending × List ℕ
resend [] requested total n iov wire =
    if ltb total requested
    then elim (skip iov n) [ none ↦ (undefined, wire) | some iov' ↦ (pending, wire) ]
    else (returned requested, wire)
resend (failed f ∷ later) requested total n iov wire =
    if ltb total requested
    then elim (skip iov n) [
      | none ↦ (undefined, wire)
      | some iov' ↦
          let rest = resend later requested total 0 iov' wire in if f then (fatal, wire) else rest
    ]
    else (returned requested, wire)
resend (sent k ∷ later) requested total n iov wire =
    if ltb total requested
    then elim (skip iov n) [
      | none ↦ (undefined, wire)
      | some iov' ↦ resend later requested (total + k) k iov' (wire ++ take k (concat iov'))
    ]
    else (returned requested, wire)

-- The whole function: its ending, and the bytes that the socket took.
unfoldable pub writev : List Answer → List (List ℕ) → Ending × List ℕ
writev [] iov = (pending, [])
writev (failed f ∷ later) iov =
    let rest = resend later (requested_of iov) 0 0 iov [] in
    if f then (fatal, []) else (if 0 == requested_of iov then (returned 0, []) else rest)
writev (sent k ∷ later) iov =
    let rest = resend later (requested_of iov) k k iov (take k (concat iov)) in
    if k == requested_of iov then (returned k, take k (concat iov)) else rest
