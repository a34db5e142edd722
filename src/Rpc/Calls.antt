-- ===== src/Rpc/Calls.antt =====
-- The callbacks of calls that are not answered (src/peer.cpp), and the search for handlers
-- (src/dispatcher.cpp).
use beyond_protocol.Prelude.{
  ℕ, ◌+◌, ◌≡◌, refl, arith, ◌==◌, if◌then◌else◌, List, [], ◌∷◌, ◌++◌, none, some, lookup,
}
use beyond_protocol.Rpc.{
  Objects, Event, sent, set_value, set_exception, broken, error, Callbacks, locate_handler,
  dispatch_response, async_call, cancel_call,
}

module _ {H : Type 0} where
  -- All bindings, those of a dispatcher before those of its parents.
  abbrev pub all_bindings : List (List (ℕ × H)) → List (ℕ × H)
  all_bindings [] = []
  all_bindings (funcs ∷ parents) = funcs ++ all_bindings parents

  lookup-append :
      (name : ℕ) (xs ys : List (ℕ × H))
      → lookup name (xs ++ ys) ≡ elim (lookup name xs) [ none ↦ lookup name ys | some h ↦ some h ]
  unfolding lookup
  lookup-append name [] ys = refl
  lookup-append name ((j, h) ∷ xs) ys = ground (arith, lookup-append name xs ys)

  -- The handler of a name is the first binding of it, from the dispatcher up through its parents.
  pub locate_handler_lem :
      (chain : List (List (ℕ × H))) (name : ℕ)
      → locate_handler chain name ≡ lookup name (all_bindings chain)
  unfolding locate_handler lookup
  locate_handler_lem [] name = refl
  locate_handler_lem (funcs ∷ parents) name =
      ground
        (arith, locate_handler_lem parents name, lookup-append name funcs (all_bindings parents))

-- What happens to the callbacks: a call is made, a response arrives, a call is cancelled.
pub data Op (V : Type 0) : Type 0 where
  calls : ℕ → V → ℕ → Op V
  answers : ℕ → V → V → Op V
  cancels : ℕ → Op V

module _ {V : Type 0} (objects : Objects V) where
  -- The operations from a counter, with what they send and the promises that they settle.
  abbrev pub run : List (Op V) → ℕ → Callbacks → (ℕ × Callbacks) × List (Event V)
  run [] rpcid cbs = ((rpcid, cbs), [])
  run (calls name args promise ∷ ops) rpcid cbs =
      let ((rpcid', cbs'), events) = async_call name args promise rpcid cbs in
      let (end, more) = run ops rpcid' cbs' in (end, events ++ more)
  run (answers id err res ∷ ops) rpcid cbs =
      let (cbs', events) = dispatch_response objects id err res cbs in
      let (end, more) = run ops rpcid cbs' in (end, events ++ more)
  run (cancels id ∷ ops) rpcid cbs = run ops rpcid (cancel_call id cbs)

-- How often a promise is settled or broken, how often it waits, and how often it is given to a call.
abbrev pub settled : {V : Type 0} → ℕ → List (Event V) → ℕ
settled q [] = 0
settled q (set_value p v ∷ events) = (if p == q then 1 else 0) + settled q events
settled q (set_exception p v ∷ events) = (if p == q then 1 else 0) + settled q events
settled q (sent m ∷ events) = settled q events
settled q (error e ∷ events) = settled q events
settled q (broken p ∷ events) = (if p == q then 1 else 0) + settled q events

abbrev pub waiting : ℕ → Callbacks → ℕ
waiting q [] = 0
waiting q ((id, p) ∷ cbs) = (if p == q then 1 else 0) + waiting q cbs

abbrev pub given : {V : Type 0} → ℕ → List (Op V) → ℕ
given q [] = 0
given q (calls name args p ∷ ops) = (if p == q then 1 else 0) + given q ops
given q (answers id err res ∷ ops) = given q ops
given q (cancels id ∷ ops) = given q ops
