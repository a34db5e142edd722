-- ===== src/Tests/RpcTests.antt =====
-- src/dispatcher.cpp and src/peer.cpp at concrete inputs.
use beyond_protocol.Prelude.{
  ℕ, if◌then◌else◌, ◌+◌, ◌≡◌, refl, true, false, ◌==◌, List, [], ◌∷◌, none, some, lookup,
}
use beyond_protocol.Rpc.{Objects, value, exception, Handler, locate_handler}
use beyond_protocol.Rpc.Calls.{Op, calls, answers}
use beyond_protocol.Rpc.Exchange.{exchange, settles, exchange-settles}
use beyond_protocol.Rpc.Handshake.{Peer, connecting, connected, shake, shake_lem}

-- Objects are numbers, of which 0 is nil and 13 has no other type.
abbrev numbers : Objects ℕ
numbers = record {
  is_nil = λ v. v == 0;
  convert = λ promise v. if v == 13 then none else some v;
  convert_text = λ v. some v;
}

-- Handler 1 counts its calls and returns the count, handler 2 throws.
abbrev counts : Handler ℕ ℕ
counts = λ args w. (w + 1, value (w + args))

abbrev fails : Handler ℕ ℕ
fails = λ args w. (w, exception 99)

-- A dispatcher, and its parent, which binds name 1 as well.
abbrev bindings : List (List (ℕ × Handler ℕ ℕ))
bindings = ((1, counts) ∷ []) ∷ ((1, fails) ∷ (2, fails) ∷ []) ∷ []

bindings-first : locate_handler bindings 1 ≡ some counts
unfolding locate_handler lookup
bindings-first = refl

bindings-none : locate_handler bindings 3 ≡ none
unfolding locate_handler lookup
bindings-none = refl

nothing_waits : {V : Type 0} → lookup {V = V} 7 [] ≡ none
unfolding lookup
nothing_waits = refl

exchange-settles_example :
    exchange 0 numbers bindings [] 1 5 70 7 [] [] 10 20 ≡ ([], (11, settles numbers 70 (value 15)))
exchange-settles_example =
    exchange-settles 0 numbers bindings [] 1 7 70 5 [] [] 10 20 counts refl nothing_waits
      bindings-first tt

-- A call that is answered twice.
abbrev answered_twice : List (Op ℕ)
answered_twice = calls 1 5 70 ∷ answers 7 0 15 ∷ answers 7 0 16 ∷ []

abbrev before_handshake : ℕ → Peer
before_handshake own = record {
  status = connecting;
  handshake_sent = false;
  peerid = 0;
  version = 0;
  own_id = own;
}

shake_lem_example :
    shake 42 4 5 (before_handshake 100) (before_handshake 200)
    ≡ some (
      record { status = connected; handshake_sent = true; peerid = 200; version = 5; own_id = 100 },
      record { status = connected; handshake_sent = true; peerid = 100; version = 4; own_id = 200 },
      [],
    )
shake_lem_example = shake_lem 42 4 5 (before_handshake 100) (before_handshake 200) refl refl refl
