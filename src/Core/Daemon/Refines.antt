-- ===== src/Core/Daemon/Refines.antt =====
-- `handle_command` of ferro-wg-core/src/daemon.rs against what a client may count on: which
-- connection runs on which backend, before and after each command.
use ferro_wg.Prelude.{
  ◌≡◌, ◌≢◌, refl, sym, ap, ◌∙◌, subst, Text, Option, none, some, Result, ok, err, ◌==◌, text_eq,
  if◌then◌else◌, lookup, All, Option-cases, Bool-cases, inl, inr, arith,
}
use ferro_wg.Prelude.Effect.{Ends}
use ferro_wg.External.{External}
use ferro_wg.Core.Error.{WgError, BackendKind, tunnel_error, not_up}
use ferro_wg.Core.Config.{connection_names}
use ferro_wg.Core.Os.{Os}
use ferro_wg.Core.Ipc.{
  DaemonCommand, up, down, status, switch_backend, shutdown, stream_logs, benchmark, DaemonResponse,
  done, failed, statuses,
}
use ferro_wg.Core.Tunnel.Manager.{TunnelManager, is_active}
use ferro_wg.Core.Tunnel.Target.{Target, find_target}
use ferro_wg.Core.Tunnel.Updown
use ferro_wg.Core.Tunnel.Updown.{Sys}
use ferro_wg.Core.Tunnel.View.{
  kind_of, backend_of, backend_of-with, backend_of-without, without, remove_entry_absent,
}
use ferro_wg.Core.Tunnel.Coming.{IsUp, up-Ends}
use ferro_wg.Core.Tunnel.Going.{down_lem, down_all_lem}
use ferro_wg.Core.Tunnel.Everything.{Grown, Runs, up_all_lem}
use ferro_wg.Core.Daemon.Command.{handle_command, response_of, respond}

-- The connection runs on the backend, and all others are as they were.
abbrev pub Set : Text → Option BackendKind → TunnelManager → TunnelManager → Type 0
Set name kind m n = (j : Text) → backend_of j n ≡ (if name == j then kind else backend_of j m)

-- Every connection is as it was.
abbrev pub Same : TunnelManager → TunnelManager → Type 0
Same m n = (j : Text) → backend_of j n ≡ backend_of j m

-- The specification of a command: the response, and the connections before and after it.
unfoldable pub Allows : DaemonCommand → DaemonResponse → TunnelManager → TunnelManager → Type 0
Allows (up (some name) kind) done m n = (backend_of name m ≡ none) × Set name (some kind) m n
Allows (up (some name) kind) (failed _) m n = Same m n
Allows (up none kind) done m n =
    Grown kind m n × All (λ name. Runs name n) (connection_names m.config)
Allows (up none kind) (failed _) m n = Grown kind m n
Allows (down (some name)) done m n = (backend_of name m ≢ none) × Set name none m n
Allows (down (some name)) (failed _) m n = (backend_of name m ≡ none) × Same m n
Allows (down none) done m n = (j : Text) → backend_of j n ≡ none
Allows status (statuses _) m n = Same m n
Allows (switch_backend name kind) done m n = Set name (some kind) m n
Allows (switch_backend name kind) (failed _) m n = Set name none m n
Allows shutdown done m n = Same m n
Allows (benchmark _ _) (failed _) m n = Same m n
Allows stream_logs (failed _) m n = Same m n
Allows _ _ m n = ⊥

find_target_free :
    (name : Text) (m : TunnelManager) (target : Target)
    → find_target m name ≡ ok target
    → backend_of name m ≡ none
unfolding find_target is_active backend_of
find_target_free name m target h = ground (arith, h, Option-cases (lookup name m.connections))

module _ (os : Os) (ext : External) where
  IsUp-Set :
      (name : Text) (kind : BackendKind) (s t : Sys os)
      → IsUp os ext name kind s t
      → Set name (some kind) s.manager t.manager
  IsUp-Set name kind s t h =
      subst (Set name (some kind) s.manager) (sym h.4)
        (λ j. rw (sym h.3.0) (backend_of-with name j h.2 s.manager))

  up_allowed :
      (name : Text) (kind : BackendKind) (s : Sys os) (r : Result (Unit {0}) WgError × Sys os)
      → Ends (λ _ t. IsUp os ext name kind s t) (λ _ t. t.manager ≡ s.manager) r
      → Allows (up (some name) kind) (respond os r).0 s.manager (respond os r).1.manager
  unfolding Allows response_of
  up_allowed name kind s (ok u, t) h =
      (find_target_free name s.manager h.0 h.1, IsUp-Set name kind s t h)
  up_allowed name kind s (err e, t) h = λ j. ap (backend_of j) h

  everything_allowed :
      (kind : BackendKind) (s : Sys os) (r : Result (Unit {0}) WgError × Sys os)
      → Ends
          (λ _ t.
            Grown kind s.manager t.manager
            × All (λ name. Runs name t.manager) (connection_names s.manager.config))
          (λ _ t. Grown kind s.manager t.manager)
          r
      → Allows (up none kind) (respond os r).0 s.manager (respond os r).1.manager
  unfolding Allows response_of
  everything_allowed kind s (ok u, t) h = h
  everything_allowed kind s (err e, t) h = h

  -- The switch starts from the manager without the connection.
  switch_allowed :
      (name : Text) (kind : BackendKind) (m : TunnelManager) (s : Sys os)
      (r : Result (Unit {0}) WgError × Sys os)
      → s.manager ≡ without name m
      → Ends (λ _ t. IsUp os ext name kind s t) (λ _ t. t.manager ≡ s.manager) r
      → Allows (switch_backend name kind) (respond os r).0 m (respond os r).1.manager
  unfolding Allows response_of
  switch_allowed name kind m s (ok u, t) taken h = λ j. ground (
    arith,
    IsUp-Set name kind s t h j,
    backend_of-without name j m,
    ap (backend_of j) taken,
    Bool-cases (name == j),
  )
  switch_allowed name kind m s (err e, t) taken h =
      λ j. ap (backend_of j) (h ∙ taken) ∙ backend_of-without name j m

  down_allowed :
      (name : Text) (m : TunnelManager) (r : Result (Unit {0}) WgError × Sys os)
      → (r.0 ≡ (elim (lookup name m.connections) [
        | none ↦ err (tunnel_error (not_up name))
        | some _ ↦ ok tt
      ]))
      → r.1.manager ≡ without name m
      → Allows (down (some name)) (respond os r).0 m (respond os r).1.manager
  unfolding Allows response_of backend_of
  down_allowed name m (r, t) result taken =
      let gone = λ (j : Text). ap (backend_of j) taken ∙ backend_of-without name j m in
      elim (Option-cases (lookup name m.connections)) [
        | inl absent ↦ rw result (
            rw absent (
              ap kind_of absent,
              λ j. ap (backend_of j) (
                  taken
                  ∙ ap (λ c. record m { connections = c })
                      (remove_entry_absent name m.connections absent)),
            ))
        | inr (c, present) ↦ rw result (rw present (λ e. ground (arith, e, present), gone))
      ]

  -- Every command has one of the responses and does to the connections what its specification
  -- allows: `up` and `switch_backend` bring up that connection alone, and on an error `up` changes
  -- nothing while the switched one is left down; `down` takes that one alone or all, and the other
  -- commands change none.
  pub handle_command_refines :
      (cmd : DaemonCommand) (s : Sys os)
      → Allows cmd (handle_command os ext cmd s).0 s.manager (handle_command os ext cmd s).1.manager
  unfolding Allows handle_command backend_of lookup
  handle_command_refines (up (some name) kind) s =
      up_allowed name kind s (Updown.up os ext name kind s) (up-Ends os ext name kind s)
  handle_command_refines (up none kind) s =
      everything_allowed kind s (Updown.up_all os ext kind s) (up_all_lem os ext kind s)
  handle_command_refines (down (some name)) s =
      down_allowed name s.manager (Updown.down os ext name s) (down_lem os ext name s).0
        (down_lem os ext name s).1
  handle_command_refines (down none) s = λ j. rw (down_all_lem os ext s).1 refl
  handle_command_refines status s = λ j. refl
  handle_command_refines (switch_backend name kind) s =
      let t = (Updown.down os ext name s).1 in
      switch_allowed name kind s.manager t (Updown.up os ext name kind t) (down_lem os ext name s).1
        (up-Ends os ext name kind t)
  handle_command_refines shutdown s = λ j. refl
  handle_command_refines (benchmark _ _) s = λ j. refl
  handle_command_refines stream_logs s = λ j. refl
