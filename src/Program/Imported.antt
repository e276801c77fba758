-- ===== src/Program/Imported.antt =====
-- What the configuration file holds after `cmd_import` of ferro-wg/src/main.rs.
use ferro_wg.Prelude.{
  ℕ, suc, ◌+◌, ◌≤◌, ◌<◌, List, [], ◌∷◌, ◌++◌, ◌≡◌, ◌↔◌, inl, inr, refl, sym, ◌∙◌, arith, subst,
  Text, Result, ok, err, length, All, All-append, Bool-cases, Result-cases, is_empty, ◌==◌, nat_eq,
  map_err, true, codes, ◌≢◌,
}
use ferro_wg.Prelude.Effect.{Ends, bind_result, map_err_result}
use ferro_wg.External.{External}
use ferro_wg.Text.Number.{show_nat, show_nat-IsDigit, IsDigit}
use ferro_wg.Text.Order.{byte_len}
use ferro_wg.Core.Error.{ConfigError}
use ferro_wg.Core.Config.{PeerConfig, WgConfig, AppConfig, insert, is_name_char, max_name_len}
use ferro_wg.Core.Config.Valid.{IsName, IsValidPeer, IsValidConfig}
use ferro_wg.Core.Disk.{Disk, DiskLaws}
use ferro_wg.Core.Toml.{Printer, Parser}
use ferro_wg.Core.Toml.Files
use ferro_wg.Core.Toml.Saving.{save_app_config}
use ferro_wg.Core.Toml.Saved.{TomlLaws, validated, save_app_config-Loaded}
use ferro_wg.Core.Toml.Inserted.{AllProper, validated-insert, load_app_config-IsValidApp}
use ferro_wg.Core.WgQuick.Files.{load_from_file}
use ferro_wg.Program.Cli.{ProgramError, of_config}
use ferro_wg.Program.Import.{
  name_peers, name_peer, peer_name, named_config, name_or_default, load_or_create, cmd_import,
  default_app_config,
}

-- The name that an import gives to the peer at an index.
abbrev pub HasPeerName : Text → ℕ → ℕ → Type 0
HasPeerName conn count i = IsName (peer_name conn count i)

name_peers-IsValidPeer :
    (conn : Text) (count i : ℕ) (ps : List PeerConfig)
    → ((j : ℕ) → j < i + length ps → HasPeerName conn count j)
    → All IsValidPeer ps
    → All IsValidPeer (name_peers conn count i ps)
unfolding name_peers name_peer
name_peers-IsValidPeer conn count i [] named h = tt
name_peers-IsValidPeer conn count i (p ∷ ps) named h = (
  elim (Bool-cases (is_empty p.name)) [
    | inl e ↦ rw e (record { name = inr (named i (omega arith)); allowed_ips = h.0.allowed_ips })
    | inr e ↦ rw e (h.0)
  ],
  name_peers-IsValidPeer conn count (suc i) ps (λ j lt. named j (omega (arith, lt))) h.1,
)

-- The characters of a number are a name's.
digits-chars :
    (s : Text) → All IsDigit s → All (λ c. is_name_char c ≡ true) s × (byte_len s ≡ length s)
unfolding byte_len is_name_char
digits-chars [] h = (tt, refl)
digits-chars (c ∷ s) h =
    let rest = digits-chars s h.1 in ((ground (arith, h.0), rest.0), ground (arith, h.0, rest.1))

byte_len-append : (s t : Text) → byte_len (s ++ t) ≡ byte_len s + byte_len t
unfolding byte_len
byte_len-append [] t = omega arith
byte_len-append (c ∷ s) t = ground (arith, byte_len-append s t)

numbered-IsName :
    (conn : Text) (i : ℕ)
    → IsName conn
    → byte_len conn + 1 + length (show_nat i) ≤ max_name_len
    → IsName (conn ++ (codes "-" ++ show_nat i))
unfolding is_name_char byte_len
numbered-IsName conn i h short =
    let digits = digits-chars (show_nat i) (show_nat-IsDigit i) in
    record {
      ne_nil = λ e. append-ne_nil conn e;
      short = omega (
        arith,
        byte_len-append conn (codes "-" ++ show_nat i),
        dash (show_nat i),
        digits.1,
        short,
      );
      chars =
          All-append (λ c. is_name_char c ≡ true) conn (codes "-" ++ show_nat i) h.chars
            (refl, digits.0);
    }
  where
    append-ne_nil : (s : Text) → s ++ (codes "-" ++ show_nat i) ≢ []
    append-ne_nil [] = ground arith
    append-ne_nil (c ∷ s) = ground arith

    dash : (s : Text) → byte_len (codes "-" ++ s) ≡ 1 + byte_len s
    dash s = byte_len-append (codes "-") s ∙ refl

peer_name-IsName :
    (conn : Text) (count i : ℕ)
    → IsName conn
    → byte_len conn + 1 + length (show_nat i) ≤ max_name_len
    → IsName (peer_name conn count i)
unfolding peer_name
peer_name-IsName conn count i h short = elim (Bool-cases (count == 1)) [
  | inl one ↦ rw one h
  | inr many ↦ rw many (numbered-IsName conn i h short)
]

-- The names that an import gives to the peers are proper, and the configuration stays valid, when the
-- connection's name is proper and leaves room for a hyphen and the highest index within 64 bytes.
pub named_config-IsValidConfig :
    (conn : Text) (c : WgConfig)
    → IsName conn
    → ((i : ℕ) → i < length c.peers → byte_len conn + 1 + length (show_nat i) ≤ max_name_len)
    → IsValidConfig c
    → IsValidConfig (named_config conn c)
unfolding named_config name_peers
named_config-IsValidConfig conn c named room h = record {
  some_peer = still_some c.peers h.some_peer;
  peers =
      name_peers-IsValidPeer conn (length c.peers) 0 c.peers
        (λ j lt. peer_name-IsName conn (length c.peers) j named (room j (omega (arith, lt))))
        h.peers;
}
  where
    still_some : (ps : List PeerConfig) → ps ≢ [] → name_peers conn (length c.peers) 0 ps ≢ []
    still_some [] ne = ne
    still_some (p ∷ ps) ne = ground arith

module _ (disk : Disk) (ext : External) (printer : Printer AppConfig)
    (parser : Parser AppConfig) where
  -- A successful import.
  abbrev pub ImportsPeers : Text → Text → disk.World → AppConfig → disk.World → Type 0
  ImportsPeers src_path dst_path w new next =
      (old : AppConfig) × (c : WgConfig) × (load_from_file disk ext src_path w ≡ ok c)
      × (load_or_create disk ext printer parser dst_path w ≡ ok old)
      × (new
          ≡ insert old (name_or_default (disk.file_stem src_path))
              (named_config (name_or_default (disk.file_stem src_path)) c))
      × ((Files.load_app_config disk parser dst_path next ≡ ok new) ↔ (
          IsName (name_or_default (disk.file_stem src_path))
          × IsValidConfig (named_config (name_or_default (disk.file_stem src_path)) c)))

  load_or_create-AllProper :
      (path : Text) (w : disk.World) (a : AppConfig)
      → load_or_create disk ext printer parser path w ≡ ok a
      → AllProper a
  unfolding load_or_create
  load_or_create-AllProper path w a h = elim (Bool-cases (disk.exists path w)) [
    | inr e ↦ created (rw e at h)
    | inl e ↦ loaded (Files.load_app_config disk parser path w) refl (rw e at h)
  ]
    where
      created : Path (Result AppConfig ProgramError) (ok default_app_config) (ok a) → AllProper a
      created e = subst (λ r. elim r [ ok b ↦ AllProper b | err _ ↦ Unit ]) e tt

      loaded :
          (r : Result AppConfig ConfigError)
          → Files.load_app_config disk parser path w ≡ r
          → map_err of_config r ≡ ok a
          → AllProper a
      loaded (ok b) e f =
          (load_app_config-IsValidApp disk parser path w a (ground (arith, e, f))).connections
      loaded (err x) e f = cc f

  module _ (laws : DiskLaws disk) (toml : TomlLaws printer parser) where
    -- After an import on the command line that succeeds, the connection that the file describes, with
    -- the names that its peers were given, stands under the file's stem in the configuration that was
    -- there or in a new one, and the configuration file loads again as that exactly when the stem is
    -- a proper name and the peers' names are.
    pub cmd_import-ImportsPeers :
        (src_path dst_path : Text) (w : disk.World)
        → Ends
            (ImportsPeers src_path dst_path w)
            (λ (_ : ProgramError) (_ : disk.World). Unit {0})
            (cmd_import disk ext printer parser src_path dst_path w)
    unfolding cmd_import
    cmd_import-ImportsPeers src_path dst_path w =
        elim (Result-cases (load_from_file disk ext src_path w)) [
          | inr (m, e) ↦ rw e tt
          | inl (c, parsed) ↦
              rw parsed (elim (Result-cases (load_or_create disk ext printer parser dst_path w)) [
                | inr (m, e) ↦ rw e tt
                | inl (old, loaded) ↦ rw loaded (
                    let conn = name_or_default (disk.file_stem src_path) in
                    let new = insert old conn (named_config conn c) in
                    ending c old parsed loaded (save_app_config disk printer new dst_path w)
                      (save_app_config-Loaded disk laws printer parser toml new dst_path w))
              ])
        ]
      where
        ending :
            (c : WgConfig) (old : AppConfig)
            → load_from_file disk ext src_path w ≡ ok c
            → load_or_create disk ext printer parser dst_path w ≡ ok old
            → (r : Result (Unit {0}) ConfigError × disk.World)
            → Ends
                (λ _ next.
                  Files.load_app_config disk parser dst_path next
                  ≡ validated (
                      insert old
                        (name_or_default (disk.file_stem src_path))
                        (named_config (name_or_default (disk.file_stem src_path)) c)))
                (λ _ _. Unit {0})
                r
            → Ends
                (ImportsPeers src_path dst_path w)
                (λ (_ : ProgramError) (_ : disk.World). Unit {0})
                (bind_result (map_err_result of_config r) (λ _ s. (
                  ok (
                      insert old
                        (name_or_default (disk.file_stem src_path))
                        (named_config (name_or_default (disk.file_stem src_path)) c)),
                  s,
                )))
        ending c old parsed loaded (err e, next) h = tt
        ending c old parsed loaded (ok u, next) h =
            let conn = name_or_default (disk.file_stem src_path) in
            let rule =
              validated-insert old conn (named_config conn c)
                (load_or_create-AllProper dst_path w old loaded) in
            (old, c, parsed, loaded, refl, (λ again. rule.0 (sym h ∙ again), λ new. h ∙ rule.1 new))
