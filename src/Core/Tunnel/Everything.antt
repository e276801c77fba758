-- ===== src/Core/Tunnel/Everything.antt =====
-- Bringing everything up: `up_all` of ferro-wg-core/src/tunnel/mod.rs, over `up`.
use ferro_wg.Prelude.{
  true, false, List, [], ◌∷◌, ◌≡◌, ◌⊎◌, refl, sym, ap, ◌∙◌, subst, Text, none, some, text_eq,
  text_beq_iff, lookup, lookup-insert, ==_refl, All, Bool-cases, Option-cases, inl, inr, arith,
}
use ferro_wg.Prelude.Effect.{Ends, bind-Ends, Ends-map, for_each}
use ferro_wg.External.{External}
use ferro_wg.Core.Error.{BackendKind}
use ferro_wg.Core.Config.{connection_names}
use ferro_wg.Core.Os.{Os}
use ferro_wg.Core.Tunnel.Manager.{ActiveConnection, TunnelManager, is_active}
use ferro_wg.Core.Tunnel.Updown.{Sys, up, up_missing, up_all}
use ferro_wg.Core.Tunnel.View.{backend_of, with_connection, backend_of-with}
use ferro_wg.Core.Tunnel.Coming.{IsUp, up-Ends}

-- Connections may have come up on a backend; those that were up are as they were.
abbrev pub Grown : BackendKind → TunnelManager → TunnelManager → Type 0
Grown kind m n =
    (n.config ≡ m.config)
    × ((j : Text)
        → (backend_of j n ≡ backend_of j m)
          ⊎ ((backend_of j m ≡ none) × (backend_of j n ≡ some kind)))

-- A name that is up.
abbrev pub Runs : Text → TunnelManager → Type 0
Runs name m = is_active name m.connections ≡ true

Grown-refl : (kind : BackendKind) (m n : TunnelManager) → n ≡ m → Grown kind m n
Grown-refl kind m n h = (ap (λ x. x.config) h, λ j. inl (ap (backend_of j) h))

Grown-trans :
    (kind : BackendKind) (a b c : TunnelManager) → Grown kind a b → Grown kind b c → Grown kind a c
Grown-trans kind a b c f g = (g.0 ∙ f.0, λ j. ground (arith, f.1 j, g.1 j))

Runs-Grown :
    (kind : BackendKind) (name : Text) (m n : TunnelManager)
    → Grown kind m n
    → Runs name m
    → Runs name n
unfolding is_active backend_of
Runs-Grown kind name m n g r = ground (
  arith,
  g.1 name,
  Option-cases (lookup name m.connections),
  Option-cases (lookup name n.connections),
)

up-Grown :
    (kind : BackendKind) (name : Text) (c : ActiveConnection) (m : TunnelManager)
    → is_active name m.connections ≡ false
    → c.backend_kind ≡ kind
    → Grown kind m (with_connection name c m) × Runs name (with_connection name c m)
unfolding is_active backend_of
up-Grown kind name c m free on = (
  (
    refl,
    λ j. ground (
      arith,
      backend_of-with name j c m,
      text_beq_iff name j,
      Option-cases (lookup name m.connections),
    ),
  ),
  ground (arith, lookup-insert name name c m.connections, ==_refl name),
)

module _ (os : Os) (ext : External) where
  -- What is left of `up`, for a caller that only asks who is up.
  up_grows :
      (kind : BackendKind) (name : Text) (s : Sys os)
      → Ends
          (λ _ t. Grown kind s.manager t.manager × Runs name t.manager)
          (λ _ t. Grown kind s.manager t.manager)
          (up_missing os ext kind name s)
  unfolding up_missing
  up_grows kind name s = elim (Bool-cases (is_active name s.manager.connections)) [
    | inl active ↦ rw active (Grown-refl kind s.manager s.manager refl, active)
    | inr free ↦ rw free (
        Ends-map (λ _ t. IsUp os ext name kind s t) _ (λ _ t. t.manager ≡ s.manager) _
          (up os ext name kind s)
          (λ _ t h.
            subst (λ m. Grown kind s.manager m × Runs name m) (sym h.4)
              (up-Grown kind name h.2 s.manager free h.3.0))
          (λ _ t h. Grown-refl kind s.manager t.manager h) (up-Ends os ext name kind s))
  ]

  each_up :
      (kind : BackendKind) (names : List Text) (s : Sys os)
      → Ends
          (λ _ t. Grown kind s.manager t.manager × All (λ name. Runs name t.manager) names)
          (λ _ t. Grown kind s.manager t.manager)
          (for_each (up_missing os ext kind) names s)
  each_up kind [] s = (Grown-refl kind s.manager s.manager refl, tt)
  each_up kind (name ∷ names) s = bind-Ends _ _ (up_missing os ext kind name s) _ (
      Ends-map (λ _ t. Grown kind s.manager t.manager × Runs name t.manager) _
        (λ _ t. Grown kind s.manager t.manager) _ (up_missing os ext kind name s)
        (λ _ t h.
          Ends-map _ _ _ _ (for_each (up_missing os ext kind) names t)
            (λ _ u g. (
              Grown-trans kind s.manager t.manager u.manager h.0 g.0,
              (Runs-Grown kind name t.manager u.manager g.0 h.1, g.1),
            ))
            (λ _ u g. Grown-trans kind s.manager t.manager u.manager h.0 g) (each_up kind names t))
        (λ _ _ g. g) (up_grows kind name s))

  -- When `up_all` succeeds, every configured connection is up. In either case those that were up are
  -- as they were, and a new one is on the asked-for backend.
  pub up_all_lem :
      (kind : BackendKind) (s : Sys os)
      → Ends
          (λ _ t.
            Grown kind s.manager t.manager
            × All (λ name. Runs name t.manager) (connection_names s.manager.config))
          (λ _ t. Grown kind s.manager t.manager)
          (up_all os ext kind s)
  unfolding up_all
  up_all_lem kind s = each_up kind (connection_names s.manager.config) s
