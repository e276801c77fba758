-- ===== src/Core/Tunnel/Restores.antt =====
-- /etc/resolv.conf under ferro-wg-core/src/tunnel/dns.rs: what `apply` writes and `revert` restores.
use ferro_wg.Prelude.{List, ◌++◌, ◌≡◌, refl, subst, Text, Result, ok, err, Bool-cases, inl, inr}
use ferro_wg.Prelude.Effect.{
  Ends, bind-Ends, bind_result, Ends-map, map_err_result, with_err, ◌>>◌, pure,
}
use ferro_wg.External.{External, IpAddr}
use ferro_wg.Core.Error.{io}
use ferro_wg.Core.Os.{Os, FileLaws}
use ferro_wg.Core.Tunnel.Dns.{remove_dns}
use ferro_wg.Core.Tunnel.Dns.State.{resolv_conf}
use ferro_wg.Core.Tunnel.Dns.Linux.{
  write_resolv_conf, apply_resolv_conf, prepend_text, resolv_conf_path, tmp_path, is_regular,
}

module _ (os : Os) (laws : FileLaws os) where
  -- The file has these contents.
  abbrev pub Holds : Text → os.World → Type 0
  Holds text w = os.read_to_string resolv_conf_path w ≡ ok text

  written :
      (path text : Text) (w : os.World) (r : Result (Unit {0}) Text × os.World)
      → os.write_file path text w ≡ r
      → Ends (λ _ v. os.read_to_string path v ≡ ok text) (λ _ _. Unit {0}) (map_err_result io r)
  written path text w (ok u, v) e = laws.read_written path text w v e
  written path text w (err m, v) e = tt

  renamed :
      (from to text : Text) (w : os.World) (r : Result (Unit {0}) Text × os.World)
      → os.rename from to w ≡ r
      → os.read_to_string from w ≡ ok text
      → Ends (λ _ v. os.read_to_string to v ≡ ok text) (λ _ _. Unit {0}) (map_err_result io r)
  renamed from to text w (ok u, v) e h = laws.read_renamed from to text w v e h
  renamed from to text w (err m, v) e h = tt

  -- Written in place or through a temporary file, the file holds what was written.
  write_resolv_conf-Holds :
      (text : Text) (w : os.World)
      → Ends (λ _ v. Holds text v) (λ _ _. Unit {0}) (write_resolv_conf os text w)
  unfolding write_resolv_conf
  write_resolv_conf-Holds text w =
      elim (Bool-cases (is_regular os (os.is_symlink resolv_conf_path w))) [
        | inl regular ↦ rw regular (
            bind-Ends _ _ (with_err io (os.write_file tmp_path text) w) _ (
              Ends-map _ _ _ _ (with_err io (os.write_file tmp_path text) w)
                (λ _ v h.
                  renamed tmp_path resolv_conf_path text v (os.rename tmp_path resolv_conf_path v)
                    refl h)
                (λ _ _ h. h) (written tmp_path text w (os.write_file tmp_path text w) refl)))
        | inr symlink ↦
            rw symlink
              (written resolv_conf_path text w (os.write_file resolv_conf_path text w) refl)
      ]

  HasApplied : External → List IpAddr → List Text → os.World → Text → os.World → Type 0
  HasApplied ext servers domains w backup v =
      Holds backup w × Holds (prepend_text ext servers domains ++ backup) v

  from_backup :
      (ext : External) (servers : List IpAddr) (domains : List Text) (w : os.World)
      (r : Result Text Text)
      → os.read_to_string resolv_conf_path w ≡ r
      → Ends
          (λ backup v. HasApplied ext servers domains w backup v)
          (λ _ _. Unit {0})
          (bind_result (map_err_result io (r, w)) (λ backup.
            write_resolv_conf os (prepend_text ext servers domains ++ backup) >> pure backup))
  unfolding HasApplied
  from_backup ext servers domains w (err m) e = tt
  from_backup ext servers domains w (ok backup) e =
      let text = prepend_text ext servers domains ++ backup in
      bind-Ends _ _ (write_resolv_conf os text w) _ (
        Ends-map _ _ _ _ (write_resolv_conf os text w) (λ _ v h. (e, h)) (λ _ _ h. h)
          (write_resolv_conf-Holds text w))

  apply_resolv_conf-HasApplied :
      (ext : External) (servers : List IpAddr) (domains : List Text) (w v : os.World)
      (backup : Text)
      → apply_resolv_conf os ext servers domains w ≡ (ok backup, v)
      → HasApplied ext servers domains w backup v
  unfolding apply_resolv_conf
  apply_resolv_conf-HasApplied ext servers domains w v backup e =
      subst (Ends (λ b u. HasApplied ext servers domains w b u) (λ _ _. Unit {0})) e
        (from_backup ext servers domains w (os.read_to_string resolv_conf_path w) refl)

  -- When lines were put in front of /etc/resolv.conf, and later, whatever happened between, the
  -- state that was kept is reverted, the file holds again what it held before.
  pub resolv_conf_restored :
      (ext : External) (servers : List IpAddr) (domains : List Text) (w v u z : os.World)
      (backup : Text)
      → apply_resolv_conf os ext servers domains w ≡ (ok backup, v)
      → remove_dns os ext (resolv_conf backup) u ≡ (ok tt, z)
      → Holds backup w × Holds (prepend_text ext servers domains ++ backup) v × Holds backup z
  unfolding remove_dns HasApplied
  resolv_conf_restored ext servers domains w v u z backup applied reverted =
      let h = apply_resolv_conf-HasApplied ext servers domains w v backup applied in
      (
        h.0,
        h.1,
        subst (Ends (λ _ s. Holds backup s) (λ _ _. Unit {0})) reverted
            (write_resolv_conf-Holds backup u),
      )
