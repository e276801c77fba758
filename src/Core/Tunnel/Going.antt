-- ===== src/Core/Tunnel/Going.antt =====
-- Taking connections down: `down` and `down_all` of ferro-wg-core/src/tunnel/mod.rs.
use ferro_wg.Prelude.{
  true, List, [], ◌∷◌, map, ◌≡◌, refl, ap, sym, ◌∙◌, Text, Option, none, some, ok, err, ◌==◌,
  text_eq, text_beq_iff, lookup, All, contains, Option-cases, Bool-cases, inl, inr, arith, ==_refl,
}
use ferro_wg.Prelude.Effect.{Eff, ignore, for_each}
use ferro_wg.External.{External}
use ferro_wg.Core.Error.{WgError, tunnel_error, not_up}
use ferro_wg.Core.Config.{WgConfig, get}
use ferro_wg.Core.Os.{Os}
use ferro_wg.Core.Tunnel.Manager.{ActiveConnection, TunnelManager, remove_entry}
use ferro_wg.Core.Tunnel.Route.{remove_route}
use ferro_wg.Core.Tunnel.Dns.State.{DnsState}
use ferro_wg.Core.Tunnel.Updown.{
  Sys, on_world, set_connections, remove_peer_routes, remove_routes, signal_shutdown, revert_dns,
  down, down_all, has_dns,
}
use ferro_wg.Core.Tunnel.View.{without, remove_entry_absent}

for_each_ok :
    {S : Type 0} {A : Type 0} (f : A → Eff S WgError (Unit {0})) (xs : List A)
    → ((a : A) (s : S) → (f a s).0 ≡ ok tt)
    → (s : S) → (for_each f xs s).0 ≡ ok tt
for_each_ok f [] h s = refl
for_each_ok f (a ∷ xs) h s = rw (h a s) (for_each_ok f xs h (f a s).1)

module _ (os : Os) (ext : External) where
  remove_routes_ok : (c : Option WgConfig) (w : os.World) → (remove_routes os c w).0 ≡ ok tt
  unfolding remove_routes remove_peer_routes
  remove_routes_ok none w = refl
  remove_routes_ok (some c) w =
      for_each_ok (remove_peer_routes os) c.peers
        (λ peer. for_each_ok (λ cidr. ignore (remove_route os cidr)) peer.allowed_ips (λ _ _. refl))
        w

  revert_dns_ok :
      (others : List (Text × ActiveConnection)) (d : Option DnsState) (w : os.World)
      → (revert_dns os ext others d w).0 ≡ ok tt
  unfolding revert_dns
  revert_dns_ok others none w = refl
  revert_dns_ok others (some d) w = ground (arith, Bool-cases (has_dns others))

  -- `down` removes the connection from the manager, where it is up, and succeeds; without it the
  -- error says that it is not up, and taking it out changes nothing.
  pub down_lem :
      (name : Text) (s : Sys os)
      → ((down os ext name s).0 ≡ (elim (lookup name s.manager.connections) [
        | none ↦ err (tunnel_error (not_up name))
        | some _ ↦ ok tt
      ]))
        × ((down os ext name s).1.manager ≡ without name s.manager)
  unfolding down set_connections on_world signal_shutdown
  down_lem name s = elim (Option-cases (lookup name s.manager.connections)) [
    | inl absent ↦ rw absent (
      refl,
      ap (λ c. record s.manager { connections = c })
          (sym (remove_entry_absent name s.manager.connections absent)),
    )
    | inr (c, present) ↦ rw present (
        rw (remove_routes_ok (get s.manager.config name) (os.send_shutdown c.packet_loop s.world))
          (revert_dns_ok _ c.dns_state _, refl))
  ]

  -- Taking down a list of names.
  unfoldable remove_all : List Text → TunnelManager → TunnelManager
  remove_all [] m = m
  remove_all (name ∷ names) m = remove_all names (without name m)

  each_down :
      (names : List Text) (s : Sys os)
      → ((for_each {E = WgError} (λ name. ignore (down os ext name)) names s).1.manager
          ≡ remove_all names s.manager)
  unfolding remove_all
  each_down [] s = refl
  each_down (name ∷ names) s =
      each_down names (down os ext name s).1 ∙ ap (remove_all names) (down_lem name s).1

  AllIn : List Text → List (Text × ActiveConnection) → Type 0
  AllIn names conns = All (λ (c : Text × ActiveConnection). contains names c.0 ≡ true) conns

  AllIn-remove :
      (name : Text) (names : List Text) (conns : List (Text × ActiveConnection))
      → AllIn (name ∷ names) conns
      → AllIn names (remove_entry name conns)
  unfolding AllIn remove_entry contains
  AllIn-remove name names [] h = tt
  AllIn-remove name names ((i, c) ∷ conns) h =
      ground
        (arith, AllIn-remove name names conns h.1, h.0, text_beq_iff name i, text_beq_iff i name)

  AllIn-weaken :
      (name : Text) (names : List Text) (conns : List (Text × ActiveConnection))
      → AllIn names conns
      → AllIn (name ∷ names) conns
  unfolding AllIn contains
  AllIn-weaken name names [] h = tt
  AllIn-weaken name names ((i, c) ∷ conns) h =
      (rw h.0 (ground (arith, Bool-cases (name == i))), AllIn-weaken name names conns h.1)

  AllIn-keys : (conns : List (Text × ActiveConnection)) → AllIn (map (λ c. c.0) conns) conns
  unfolding AllIn contains
  AllIn-keys [] = tt
  AllIn-keys ((i, c) ∷ conns) =
      (rw (==_refl i) refl, AllIn-weaken i (map (λ c. c.0) conns) conns (AllIn-keys conns))

  AllIn-nil : (conns : List (Text × ActiveConnection)) → AllIn [] conns → conns ≡ []
  unfolding AllIn contains
  AllIn-nil [] h = refl
  AllIn-nil (c ∷ conns) h = ground (arith, h.0)

  remove_all-nil :
      (names : List Text) (m : TunnelManager)
      → AllIn names m.connections
      → (remove_all names m).connections ≡ []
  unfolding remove_all AllIn contains
  remove_all-nil [] m h = AllIn-nil m.connections h
  remove_all-nil (name ∷ names) m h =
      remove_all-nil names (without name m) (AllIn-remove name names m.connections h)

  -- `down_all` never fails and leaves no connection up.
  pub down_all_lem :
      (s : Sys os)
      → ((down_all os ext s).0 ≡ ok tt) × ((down_all os ext s).1.manager.connections ≡ [])
  unfolding down_all
  down_all_lem s =
      let names = map (λ (c : Text × ActiveConnection). c.0) s.manager.connections in
      (
        for_each_ok (λ name. ignore (down os ext name)) names (λ _ _. refl) s,
        ap (λ m. m.connections) (each_down names s)
            ∙ remove_all-nil names s.manager (AllIn-keys s.manager.connections),
      )
