-- ===== src/Tui/EventLoop.antt =====
-- `handle_key_event` of ferro-wg-tui/src/lib.rs, from the action that a key stands for: what it
-- dispatches. The tasks that it spawns are not modelled.
use ferro_wg.Prelude.{
  ℕ, ◌+◌, ◌<◌, ◌≡◌, refl, arith, Text, Option, none, some, Result, ok, ◌>>=◌, length,
}
use ferro_wg.External.{External}
use ferro_wg.Core.Config.{WgConfig}
use ferro_wg.Core.Toml.{Printer}
use ferro_wg.Tui.Action.{Action, ConfirmAction}
use ferro_wg.Tui.State.Types.{Clock, Panic, AppState, ConfirmPending, ConfigEditState}
use ferro_wg.Tui.State.Editing.{delete_peer}
use ferro_wg.Tui.State.Config.{handle_config_actions, edited}
use ferro_wg.Tui.State.Dispatch.{dispatch, handle_confirm_actions, confirmed, confirm}
use ferro_wg.Tui.State.Session.{length-delete_peer}

unfoldable pub confirmed_action : ConfirmAction → Action
confirmed_action ConfirmAction.disconnect_all = Action.disconnect_all
confirmed_action ConfirmAction.stop_daemon = Action.stop_daemon
confirmed_action (ConfirmAction.delete_peer i) = Action.delete_config_peer i

-- The action behind a `ConfirmYes`, read before the dialog is cleared.
unfoldable pub follow_up : Action → Option ConfirmPending → Option Action
follow_up Action.confirm_yes (some p) = some (confirmed_action p.action)
follow_up _ _ = none

module _ (ext : External) (printer : Printer WgConfig) where
  unfoldable pub follow : Clock → Option Action → AppState → Result AppState Panic
  follow clock none s = ok s
  follow clock (some a) s = dispatch ext printer clock a s

  -- The two dispatches, each with its clock.
  unfoldable pub handle_action : Clock → Clock → Action → AppState → Result AppState Panic
  handle_action clock later a s = do
    s' ← dispatch ext printer clock a s
    follow later (follow_up a s.pending_confirm) s'

  -- Confirming the deletion of a peer that has another one behind it takes two peers out of the
  -- draft: the dialog's action is dispatched by `dispatch` and again by the event loop.
  pub handle_action-confirm_yes :
      (clock later : Clock) (message : Text) (i : ℕ) (edit : ConfigEditState) (s : AppState)
      → s.pending_confirm
        ≡ some (record { message = message; action = ConfirmAction.delete_peer i })
      → s.config_edit ≡ some edit
      → i + 1 < length edit.draft.peers
      → (s' : AppState) × (handle_action clock later Action.confirm_yes s ≡ ok s')
        × (s'.config_edit ≡ some (delete_peer i (delete_peer i edit)))
        × (length (delete_peer i (delete_peer i edit)).draft.peers + 2 ≡ length edit.draft.peers)
  unfolding handle_action dispatch handle_confirm_actions confirmed confirm handle_config_actions
      edited follow follow_up confirmed_action
  handle_action-confirm_yes clock later message i edit s asked session inside = (
    record s { pending_confirm = none; config_edit = some (delete_peer i (delete_peer i edit)) },
    rw (asked, session) refl,
    refl,
    ground (arith, length-delete_peer i edit, length-delete_peer i (delete_peer i edit)),
  )
