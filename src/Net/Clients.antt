-- ===== src/Net/Clients.antt =====
-- The clients of a frame under the operations of src/streams/netstream.cpp, one peer at a time.
use beyond_protocol.Prelude.{
  ℕ, ◌≡◌, refl, arith, true, false, ◌==◌, if◌then◌else◌, List, [], ◌∷◌, ◌++◌, Option, none, some,
  lookup, IsKeyed, ◌≢◌,
}
use beyond_protocol.Packet.{StreamPacket, DataPacket}
use beyond_protocol.Net.{
  Client, Rates, Answer, serve, serve_rates, serve_all, is_stale, has_stale, drop_stale, is_empty,
  clean_clients,
}
use beyond_protocol.Net.Requests.{renew, renew_all}

-- The client of a peer.
abbrev pub find : ℕ → List Client → Option Client
find p [] = none
find p (c ∷ cs) = if c.peerid == p then some c else find p cs

-- Every peer has one client.
abbrev pub IsUnique : List Client → Type 0
IsUnique [] = Unit {0}
IsUnique (c ∷ cs) = (find c.peerid cs ≡ none) × IsUnique cs

abbrev pub map_client : (Client → Client) → Option Client → Option Client
map_client f none = none
map_client f (some c) = some (f c)

-- A client that has frames to come.
abbrev pub unless_stale : Option Client → Option Client
unless_stale none = none
unless_stale (some c) = if is_stale c then none else some c

pub serve-peerid :
    (a : Answer) (spkt : StreamPacket) (c : Client) → (serve a spkt c).peerid ≡ c.peerid
unfolding serve
serve-peerid a spkt c = ground arith

module _ (answers : ℕ → Answer) (spkt : StreamPacket) (pkt : DataPacket) where
  pub find-serve_all :
      (p : ℕ) (cs : List Client) (r : Rates)
      → find p (serve_all answers spkt pkt cs r).0 ≡ map_client (serve (answers p) spkt) (find p cs)
  unfolding serve_all
  find-serve_all p [] r = refl
  find-serve_all p (c ∷ cs) r = ground (
    arith,
    serve-peerid (answers c.peerid) spkt c,
    find-serve_all p cs (serve_rates (answers c.peerid) spkt pkt c r),
  )

  pub serve_all-IsUnique :
      (cs : List Client) (r : Rates) → IsUnique cs → IsUnique (serve_all answers spkt pkt cs r).0
  unfolding serve_all
  serve_all-IsUnique [] r h = tt
  serve_all-IsUnique (c ∷ cs) r (new, h) = ground (
    arith,
    serve-peerid (answers c.peerid) spkt c,
    serve_all-IsUnique cs (serve_rates (answers c.peerid) spkt pkt c r) h,
    find-serve_all c.peerid cs (serve_rates (answers c.peerid) spkt pkt c r),
  )

pub find-drop_stale :
    (p : ℕ) (cs : List Client) → IsUnique cs → find p (drop_stale cs) ≡ unless_stale (find p cs)
unfolding drop_stale
find-drop_stale p [] h = refl
find-drop_stale p (c ∷ cs) (new, h) = ground (arith, find-drop_stale p cs h)

pub drop_stale-IsUnique : (cs : List Client) → IsUnique cs → IsUnique (drop_stale cs)
unfolding drop_stale
drop_stale-IsUnique [] h = tt
drop_stale-IsUnique (c ∷ cs) (new, h) =
    ground (arith, drop_stale-IsUnique cs h, find-drop_stale c.peerid cs h)

-- Without stale clients nothing is dropped.
pub drop_stale-none : (cs : List Client) → has_stale cs ≡ false → drop_stale cs ≡ cs
unfolding drop_stale has_stale
drop_stale-none [] h = refl
drop_stale-none (c ∷ cs) h = ground (arith, drop_stale-none cs)

-- What is left of a frame's clients.
abbrev pub cleaned : Option (List Client) → Option (List Client)
cleaned none = none
cleaned (some cs) = if is_empty (drop_stale cs) then none else some (drop_stale cs)

pub lookup-clean_clients :
    (id : ℕ) (m : List (ℕ × List Client))
    → IsKeyed m
    → lookup id (clean_clients m) ≡ cleaned (lookup id m)
unfolding clean_clients lookup
lookup-clean_clients id [] h = refl
lookup-clean_clients id ((j, cs) ∷ m) (new, h) = ground (arith, lookup-clean_clients id m h)

pub clean_clients-IsKeyed : (m : List (ℕ × List Client)) → IsKeyed m → IsKeyed (clean_clients m)
unfolding clean_clients
clean_clients-IsKeyed [] h = tt
clean_clients-IsKeyed ((j, cs) ∷ m) (new, h) =
    ground (arith, clean_clients-IsKeyed m h, lookup-clean_clients j m h)

module _ (count channel : ℕ) where
  pub find-renew_all :
      (p q : ℕ) (cs : List Client)
      → find q (renew_all p count channel cs).0
        ≡ map_client (λ c. if p == q then renew count channel c else c) (find q cs)
  unfolding renew_all renew
  find-renew_all p q [] = refl
  find-renew_all p q (c ∷ cs) = ground (arith, find-renew_all p q cs)

  pub renew_all-found :
      (p : ℕ) (cs : List Client)
      → ((renew_all p count channel cs).1 ≡ true → find p cs ≢ none)
        × ((renew_all p count channel cs).1 ≡ false → find p cs ≡ none)
  unfolding renew_all
  renew_all-found p [] = ground arith
  renew_all-found p (c ∷ cs) = ground (arith, renew_all-found p cs)

  pub renew_all-IsUnique :
      (p : ℕ) (cs : List Client) → IsUnique cs → IsUnique (renew_all p count channel cs).0
  unfolding renew_all renew
  renew_all-IsUnique p [] h = tt
  renew_all-IsUnique p (c ∷ cs) (new, h) =
      ground (arith, renew_all-IsUnique p cs h, find-renew_all p c.peerid cs)

pub find-append_one :
    (q : ℕ) (cs : List Client) (c : Client)
    → find q (cs ++ c ∷ [])
      ≡ elim (find q cs) [ none ↦ if c.peerid == q then some c else none | some d ↦ some d ]
find-append_one q [] c = refl
find-append_one q (d ∷ cs) c = ground (arith, find-append_one q cs c)

pub append_one-IsUnique :
    (cs : List Client) (c : Client)
    → IsUnique cs
    → find c.peerid cs ≡ none
    → IsUnique (cs ++ c ∷ [])
append_one-IsUnique [] c h new = (refl, tt)
append_one-IsUnique (d ∷ cs) c (old, h) new =
    ground (arith, append_one-IsUnique cs c h, find-append_one d.peerid cs c)
