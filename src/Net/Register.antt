-- ===== src/Net/Register.antt =====
-- Requests at a host, _processRequest of src/streams/netstream.cpp: what they do to the clients.
use beyond_protocol.Prelude.{
  ℕ, ◌≡◌, ◌≢◌, refl, ap, ◌∙◌, subst, arith, false, ◌==◌, ◌&&◌, if◌then◌else◌, List, [], ◌∷◌, ◌++◌,
  Option, none, some, lookup, put, lookup-put,
}
use native.Mathlib.Decide.{ℕ_discrete}
use beyond_protocol.Prelude.Int.{pos}
use beyond_protocol.Net.{Client, Net, is_empty}
use beyond_protocol.Net.Requests.{clients_of, register, renew, renew_all, new_client}
use beyond_protocol.Net.Clients.{
  find, IsUnique, map_client, find-renew_all, renew_all-found, renew_all-IsUnique, find-append_one,
  append_one-IsUnique,
}
use beyond_protocol.Net.Invariant.{
  WellFormed, client, listed, clients_of_lem, clients_of-IsUnique, put-WellFormed,
}

-- A client that has asked for nothing.
abbrev pub blank : ℕ → Client
blank p = record { peerid = p; txcount = pos 0; channels = 0; quality = 255 }

abbrev pub or_blank : ℕ → Option Client → Client
or_blank p none = blank p
or_blank p (some c) = c

append_filled : (cs : List Client) (c : Client) → is_empty (cs ++ c ∷ []) ≡ false
unfolding is_empty
append_filled [] c = refl
append_filled (d ∷ cs) c = refl

found_filled : (p : ℕ) (cs : List Client) → find p cs ≢ none → is_empty cs ≡ false
unfolding is_empty
found_filled p [] h = absurd (h refl)
found_filled p (c ∷ cs) h = refl

renewed_filled :
    (p count channel : ℕ) (cs : List Client)
    → is_empty (renew_all p count channel cs).0 ≡ is_empty cs
unfolding is_empty renew_all
renewed_filled p count channel [] = refl
renewed_filled p count channel (c ∷ cs) = ground arith

module _ (n : Net) (id p count channel : ℕ) where
  -- The frame's clients after the request.
  abbrev registered : List Client
  registered =
      let (cs, found) = renew_all p count channel (clients_of id n) in
      if found then cs else cs ++ new_client p count channel ∷ []

  register-clients : (register n id p count channel).0.clients ≡ put id registered n.clients
  unfolding register
  register-clients = ground arith

  abbrev renewed : List Client
  renewed = (renew_all p count channel (clients_of id n)).0

  find-renewed : (q : ℕ) → p ≢ q → find q renewed ≡ find q (clients_of id n)
  find-renewed q h =
      find-renew_all count channel p q (clients_of id n) ∙ go (find q (clients_of id n))
    where
      go : (o : Option Client) → map_client (λ c. if p == q then renew count channel c else c) o ≡ o
      go none = refl
      go (some c) = ground arith

  find-renewed_self : find p renewed ≡ map_client (renew count channel) (find p (clients_of id n))
  find-renewed_self =
      find-renew_all count channel p p (clients_of id n) ∙ go (find p (clients_of id n))
    where
      go :
          (o : Option Client)
          → map_client (λ c. if p == p then renew count channel c else c) o
            ≡ map_client (renew count channel) o
      go none = refl
      go (some c) = ground arith

  find-registered :
      (q : ℕ)
      → find q registered ≡ (
          if p == q
          then some (renew count channel (or_blank p (find p (clients_of id n))))
          else find q (clients_of id n))
  unfolding new_client renew
  find-registered q = elim (ℕ_discrete p q) [
    | yes e ↦
        subst
          (λ q. find q registered ≡ (
            if p == q
            then some (renew count channel (or_blank p (find p (clients_of id n))))
            else find q (clients_of id n)))
          e
          (ground (
            arith,
            find-renewed_self,
            renew_all-found count channel p (clients_of id n),
            find-append_one p renewed (new_client p count channel),
          ))
    | no ne ↦
        ground (arith, find-renewed q ne, find-append_one q renewed (new_client p count channel))
  ]

  registered-IsUnique : WellFormed n.clients → IsUnique registered
  unfolding new_client renew
  registered-IsUnique wf = ground (
    arith,
    renew_all-found count channel p (clients_of id n),
    find-renewed_self,
    renew_all-IsUnique count channel p (clients_of id n) (clients_of-IsUnique n id wf),
    append_one-IsUnique renewed (new_client p count channel),
  )

  registered_filled : is_empty registered ≡ false
  registered_filled = ground (
    arith,
    renew_all-found count channel p (clients_of id n),
    found_filled p (clients_of id n),
    renewed_filled p count channel (clients_of id n),
    append_filled renewed (new_client p count channel),
  )

  pub register-WellFormed :
      WellFormed n.clients → WellFormed (register n id p count channel).0.clients
  register-WellFormed wf =
      rw register-clients
        (put-WellFormed id registered n.clients wf (registered-IsUnique wf) registered_filled)

  pub client-register :
      (j q : ℕ)
      → client (register n id p count channel).0 j q ≡ (
          if (id == j) && (p == q)
          then some (renew count channel (or_blank p (client n id p)))
          else client n j q)
  client-register j q =
      ap (find q) (clients_of_lem (register n id p count channel).0 j)
      ∙ ap (λ m. find q (listed (lookup j m))) register-clients
      ∙ ap (λ o. find q (listed o)) (lookup-put id j registered n.clients)
      ∙ ground (arith, clients_of_lem n j, clients_of_lem n id, find-registered q)
