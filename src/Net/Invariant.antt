-- ===== src/Net/Invariant.antt =====
-- The table of clients of src/streams/netstream.cpp: well formed after every call, and what a call does
-- to the client of one peer for one frame.
use beyond_protocol.Prelude.{
  ℕ, ◌≡◌, ◌≢◌, refl, ap, inl, inr, Bool-cases, Option-cases, sym, ◌∙◌, subst, arith, Bool, true,
  false, ◌==◌, if◌then◌else◌, List, [], ◌∷◌, Option, none, some, lookup, put, IsKeyed, put-IsKeyed,
  lookup-put,
}
use beyond_protocol.Packet.{StreamPacket, DataPacket}
use beyond_protocol.Net.{
  Client, Rates, Net, Answer, frame_of, serve, serve_all, has_stale, drop_stale, is_empty,
  clean_clients, clean_up, send_to_clients,
}
use beyond_protocol.Net.Requests.{clients_of}
use beyond_protocol.Net.Clients.{
  find, IsUnique, map_client, unless_stale, find-serve_all, serve_all-IsUnique, find-drop_stale,
  drop_stale-IsUnique, cleaned, lookup-clean_clients, clean_clients-IsKeyed,
}

-- Every frame is listed once, with clients of different peers, and with one at least.
pub record WellFormed (m : List (ℕ × List Client)) : Type 0 where
  pub keyed : IsKeyed m
  pub unique : (id : ℕ) (cs : List Client) → lookup id m ≡ some cs → IsUnique cs
  pub filled : (id : ℕ) (cs : List Client) → lookup id m ≡ some cs → is_empty cs ≡ false

abbrev pub client : Net → ℕ → ℕ → Option Client
client n id p = find p (clients_of id n)

abbrev pub listed : Option (List Client) → List Client
listed none = []
listed (some cs) = cs

pub clients_of_lem : (n : Net) (id : ℕ) → clients_of id n ≡ listed (lookup id n.clients)
unfolding clients_of
clients_of_lem n id = ground arith

pub clients_of-IsUnique : (n : Net) (id : ℕ) → WellFormed n.clients → IsUnique (clients_of id n)
clients_of-IsUnique n id wf = rw (clients_of_lem n id) (go (lookup id n.clients) refl)
  where
    go : (o : Option (List Client)) → lookup id n.clients ≡ o → IsUnique (listed o)
    go none e = tt
    go (some cs) e = wf.unique id cs e

-- That a frame without clients is erased makes no difference to a client.
find-cleaned :
    (p : ℕ) (o : Option (List Client))
    → find p (listed (cleaned o)) ≡ find p (drop_stale (listed o))
unfolding drop_stale is_empty
find-cleaned p none = refl
find-cleaned p (some cs) = go (drop_stale cs)
  where
    go : (l : List Client) → find p (listed (if is_empty l then none else some l)) ≡ find p l
    go [] = refl
    go (c ∷ l) = refl

pub put-WellFormed :
    (id : ℕ) (cs : List Client) (m : List (ℕ × List Client))
    → WellFormed m
    → IsUnique cs
    → is_empty cs ≡ false
    → WellFormed (put id cs m)
put-WellFormed id cs m wf h e = record {
  keyed = put-IsKeyed id cs m wf.keyed;
  unique = λ j ds was. ground (arith, lookup-put id j cs m, wf.unique j ds);
  filled = λ j ds was. ground (arith, lookup-put id j cs m, wf.filled j ds);
}

cleaned-some :
    (o : Option (List Client)) (cs : List Client)
    → cleaned o ≡ some cs
    → (ds : List Client) × (o ≡ some ds) × (drop_stale ds ≡ cs) × (is_empty cs ≡ false)
cleaned-some none cs h = ground arith
cleaned-some (some ds) cs h = (ds, refl, ground arith, ground arith)

pub clean_clients-WellFormed :
    (m : List (ℕ × List Client)) → WellFormed m → WellFormed (clean_clients m)
clean_clients-WellFormed m wf = record {
  keyed = clean_clients-IsKeyed m wf.keyed;
  unique = λ id cs was.
      let (ds, old, e, full) =
        cleaned-some (lookup id m) cs (sym (lookup-clean_clients id m wf.keyed) ∙ was) in
      subst IsUnique e (drop_stale-IsUnique ds (wf.unique id ds old));
  filled = λ id cs was.
      let (ds, old, e, full) =
        cleaned-some (lookup id m) cs (sym (lookup-clean_clients id m wf.keyed) ∙ was) in
      full;
}

pub serve_all-filled :
    (answers : ℕ → Answer) (spkt : StreamPacket) (pkt : DataPacket) (cs : List Client) (r : Rates)
    → is_empty (serve_all answers spkt pkt cs r).0 ≡ is_empty cs
unfolding serve_all is_empty
serve_all-filled answers spkt pkt [] r = refl
serve_all-filled answers spkt pkt (c ∷ cs) r = refl

pub none_stale :
    (p : ℕ) (cs : List Client) → has_stale cs ≡ false → unless_stale (find p cs) ≡ find p cs
unfolding has_stale
none_stale p [] h = refl
none_stale p (c ∷ cs) h = ground (arith, none_stale p cs)

module _ (answers : ℕ → Answer) (n : Net) (spkt : StreamPacket) (pkt : DataPacket) where
  -- The clients of the frame after the loop, and the table after the clean-up.
  abbrev served_clients : List Client → List Client
  served_clients cs = (serve_all answers spkt pkt cs n.rates).0

  abbrev served_table : List Client → List (ℕ × List Client)
  served_table cs =
      let m = put (frame_of spkt) (served_clients cs) n.clients in
      if has_stale (served_clients cs) then clean_clients m else m

  pub send_to_clients-none :
      lookup (frame_of spkt) n.clients ≡ none → send_to_clients answers n spkt pkt ≡ (n, [])
  unfolding send_to_clients
  send_to_clients-none e = ground arith

  pub send_to_clients-some :
      (cs : List Client)
      → lookup (frame_of spkt) n.clients ≡ some cs
      → ((send_to_clients answers n spkt pkt).0.clients ≡ served_table cs)
        × ((send_to_clients answers n spkt pkt).1 ≡ (serve_all answers spkt pkt cs n.rates).1.1)
  unfolding send_to_clients clean_up
  send_to_clients-some cs e = ground arith

  served_table-WellFormed :
      (cs : List Client)
      → WellFormed n.clients
      → lookup (frame_of spkt) n.clients ≡ some cs
      → WellFormed (put (frame_of spkt) (served_clients cs) n.clients)
  served_table-WellFormed cs wf e =
      put-WellFormed (frame_of spkt) (served_clients cs) n.clients wf
        (serve_all-IsUnique answers spkt pkt cs n.rates (wf.unique (frame_of spkt) cs e))
        (serve_all-filled answers spkt pkt cs n.rates ∙ wf.filled (frame_of spkt) cs e)

  pub send_to_clients-WellFormed :
      WellFormed n.clients → WellFormed (send_to_clients answers n spkt pkt).0.clients
  send_to_clients-WellFormed wf = elim (Option-cases (lookup (frame_of spkt) n.clients)) [
    | inl e ↦ rw (send_to_clients-none e) wf
    | inr (cs, e) ↦
        let kept = served_table-WellFormed cs wf e in
        rw ((send_to_clients-some cs e).0) (elim (Bool-cases (has_stale (served_clients cs))) [
          | inl t ↦ rw t (clean_clients-WellFormed _ kept)
          | inr f ↦ rw f kept
        ])
  ]

  lookup-served_table :
      (id : ℕ) (cs : List Client)
      → WellFormed n.clients
      → lookup (frame_of spkt) n.clients ≡ some cs
      → lookup id (served_table cs) ≡ (
          if has_stale (served_clients cs)
          then cleaned
              (if frame_of spkt == id then some (served_clients cs) else lookup id n.clients)
          else (if frame_of spkt == id then some (served_clients cs) else lookup id n.clients))
  lookup-served_table id cs wf e =
      let kept = served_table-WellFormed cs wf e in
      ground (
        arith,
        lookup-clean_clients id (put (frame_of spkt) (served_clients cs) n.clients) kept.keyed,
        lookup-put (frame_of spkt) id (served_clients cs) n.clients,
      )

  -- The clients of any frame after the loop, before the clean-up.
  abbrev before_clean : ℕ → List Client → List Client
  before_clean id cs =
      if frame_of spkt == id then served_clients cs else listed (lookup id n.clients)

  client-served :
      (id p : ℕ) (cs : List Client)
      → WellFormed n.clients
      → lookup (frame_of spkt) n.clients ≡ some cs
      → client (send_to_clients answers n spkt pkt).0 id p ≡ (
          if has_stale (served_clients cs)
          then find p (drop_stale (before_clean id cs))
          else find p (before_clean id cs))
  client-served id p cs wf e =
      ap (find p) (clients_of_lem (send_to_clients answers n spkt pkt).0 id)
      ∙ ap (λ m. find p (listed (lookup id m))) (send_to_clients-some cs e).0
      ∙ ap (λ o. find p (listed o)) (lookup-served_table id cs wf e)
      ∙ go (has_stale (served_clients cs)) (frame_of spkt == id)
    where
      go :
          (stale same : Bool)
          → find p (
              listed (
                if stale
                then cleaned (if same then some (served_clients cs) else lookup id n.clients)
                else (if same then some (served_clients cs) else lookup id n.clients)))
            ≡ (if stale
                then find p
                    (drop_stale (if same then served_clients cs else listed (lookup id n.clients)))
                else find p (if same then served_clients cs else listed (lookup id n.clients)))
      go true true = find-cleaned p (some (served_clients cs))
      go true false = find-cleaned p (lookup id n.clients)
      go false true = refl
      go false false = refl

  pub client-send_to_clients :
      (p : ℕ)
      → WellFormed n.clients
      → client (send_to_clients answers n spkt pkt).0 (frame_of spkt) p
        ≡ unless_stale (map_client (serve (answers p) spkt) (client n (frame_of spkt) p))
  client-send_to_clients p wf = elim (Option-cases (lookup (frame_of spkt) n.clients)) [
    | inl e ↦ rw (send_to_clients-none e, clients_of_lem n (frame_of spkt), e) refl
    | inr (cs, e) ↦
        let unique =
          serve_all-IsUnique answers spkt pkt cs n.rates (wf.unique (frame_of spkt) cs e) in
        let old : client n (frame_of spkt) p ≡ find p cs =
          rw (clients_of_lem n (frame_of spkt), e) refl in
        ground (
          arith,
          client-served (frame_of spkt) p cs wf e,
          old,
          find-serve_all answers spkt pkt p cs n.rates,
          find-drop_stale p (served_clients cs) unique,
          none_stale p (served_clients cs),
        )
  ]

  pub other-send_to_clients :
      (id p : ℕ)
      → id ≢ frame_of spkt
      → WellFormed n.clients
      → unless_stale (client n id p) ≡ client n id p
      → client (send_to_clients answers n spkt pkt).0 id p ≡ client n id p
  other-send_to_clients id p ne wf h = elim (Option-cases (lookup (frame_of spkt) n.clients)) [
    | inl e ↦ rw (send_to_clients-none e) refl
    | inr (cs, e) ↦ ground (
      arith,
      client-served id p cs wf e,
      clients_of_lem n id,
      find-drop_stale p (clients_of id n) (clients_of-IsUnique n id wf),
    )
  ]
