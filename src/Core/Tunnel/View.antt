-- ===== src/Core/Tunnel/View.antt =====
-- Which connections of a `TunnelManager` are up, and on which backend: all that a client of the
-- daemon decides. The order of the map, the interfaces and the handles are forgotten.
use ferro_wg.Prelude.{
  List, [], ◌∷◌, ◌≡◌, refl, Text, Option, none, some, ◌==◌, text_eq, text_beq_iff, if◌then◌else◌,
  lookup, map_insert, lookup-insert, arith, Bool-cases,
}
use ferro_wg.Core.Error.{BackendKind}
use ferro_wg.Core.Tunnel.Manager.{ActiveConnection, TunnelManager, remove_entry}

abbrev pub kind_of : Option ActiveConnection → Option BackendKind
kind_of none = none
kind_of (some c) = some c.backend_kind

-- The abstract state: for each name, the backend that it runs on.
unfoldable pub backend_of : Text → TunnelManager → Option BackendKind
backend_of name m = kind_of (lookup name m.connections)

abbrev pub with_connection : Text → ActiveConnection → TunnelManager → TunnelManager
with_connection name c m = record m { connections = map_insert name c m.connections }

abbrev pub without : Text → TunnelManager → TunnelManager
without name m = record m { connections = remove_entry name m.connections }

lookup-remove_entry :
    (k j : Text) (conns : List (Text × ActiveConnection))
    → lookup j (remove_entry k conns) ≡ (if k == j then none else lookup j conns)
unfolding lookup remove_entry
lookup-remove_entry k j [] = ground arith
lookup-remove_entry k j ((i, c) ∷ conns) =
    ground
      (arith, lookup-remove_entry k j conns, text_beq_iff k j, text_beq_iff i j, text_beq_iff i k)

pub backend_of-without :
    (k j : Text) (m : TunnelManager)
    → backend_of j (without k m) ≡ (if k == j then none else backend_of j m)
unfolding backend_of
backend_of-without k j m =
    rw (lookup-remove_entry k j m.connections) (ground (arith, Bool-cases (k == j)))

pub backend_of-with :
    (k j : Text) (c : ActiveConnection) (m : TunnelManager)
    → backend_of j (with_connection k c m)
      ≡ (if k == j then some c.backend_kind else backend_of j m)
unfolding backend_of
backend_of-with k j c m =
    rw (lookup-insert k j c m.connections) (ground (arith, Bool-cases (k == j)))

-- What is not up stays away.
pub remove_entry_absent :
    (k : Text) (conns : List (Text × ActiveConnection))
    → lookup k conns ≡ none
    → remove_entry k conns ≡ conns
unfolding lookup remove_entry
remove_entry_absent k [] h = refl
remove_entry_absent k ((i, c) ∷ conns) h = ground (arith, remove_entry_absent k conns)
