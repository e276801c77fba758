-- ===== src/Core/Tunnel/Route.antt =====
-- ferro-wg-core/src/tunnel/route.rs: interface addresses and routes.
use ferro_wg.Prelude.{[], ◌∷◌, Text, Result, ok, err, codes, if◌then◌else◌}
use ferro_wg.Prelude.Effect.{Eff, ◌>>=◌, lift, with_err}
use ferro_wg.Text.Split.{split, has_part}
use ferro_wg.Core.Error.{
  WgError, tunnel_error, exec_failed, ifconfig_failed, route_add_failed, route_delete_failed,
}
use ferro_wg.Core.Os.{Os, Output}

-- `addr_cidr.split('/').next().unwrap_or(addr_cidr)`
unfoldable pub strip_prefix_len : Text → Text
strip_prefix_len addr_cidr = elim (split b'/' addr_cidr) [ [] ↦ addr_cidr | addr ∷ _ ↦ addr ]

unfoldable pub addr_outcome : Text → Text → Output → Result (Unit {0}) WgError
addr_outcome iface addr output =
    if output.success then ok tt else err (tunnel_error (ifconfig_failed iface addr output.stderr))

unfoldable pub add_outcome : Text → Text → Output → Result (Unit {0}) WgError
add_outcome cidr iface output =
    if output.success
    then ok tt
    else if has_part (codes "File exists") output.stderr
    then ok tt
    else err (tunnel_error (route_add_failed cidr iface output.stderr))

unfoldable pub remove_outcome : Text → Output → Result (Unit {0}) WgError
remove_outcome cidr output =
    if output.success
    then ok tt
    else if has_part (codes "not in table") output.stderr
    then ok tt
    else err (tunnel_error (route_delete_failed cidr output.stderr))

module _ (os : Os) where
  unfoldable pub set_interface_addr : Text → Text → Eff os.World WgError (Unit {0})
  set_interface_addr iface addr_cidr =
      let addr = strip_prefix_len addr_cidr in
      do
        output ←
            with_err (λ e. tunnel_error (exec_failed "ifconfig" e))
              (os.run_command (codes "ifconfig")
                (iface ∷ codes "inet" ∷ addr ∷ addr ∷ codes "up" ∷ []))
        lift (addr_outcome iface addr output)

  unfoldable pub add_route : Text → Text → Eff os.World WgError (Unit {0})
  add_route cidr iface = do
    output ←
        with_err (λ e. tunnel_error (exec_failed "route" e))
          (os.run_command (codes "route")
            (codes "-n" ∷ codes "add" ∷ codes "-net" ∷ cidr ∷ codes "-interface" ∷ iface ∷ []))
    lift (add_outcome cidr iface output)

  unfoldable pub remove_route : Text → Eff os.World WgError (Unit {0})
  remove_route cidr = do
    output ←
        with_err (λ e. tunnel_error (exec_failed "route" e))
          (os.run_command (codes "route") (codes "-n" ∷ codes "delete" ∷ codes "-net" ∷ cidr ∷ []))
    lift (remove_outcome cidr output)
