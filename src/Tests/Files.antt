-- ===== src/Tests/Files.antt =====
-- The tasks and the subcommands that write the configuration file, on a disk that is a list of files,
-- with a toml printer for three configurations.
use ferro_wg.Prelude.{
  true, false, List, [], ◌∷◌, ◌++◌, ◌≡◌, ap, sym, ◌∙◌, subst, refl, arith, Text, Option, none, some,
  Result, ok, err, codes, ◌==◌, text_eq, text_beq, if◌then◌else◌, lookup, map_insert, lookup-insert,
  ==_refl, replicate,
}
use native.Mathlib.Decide.{ℕ_discrete}
use ferro_wg.Prelude.Effect.{Ends}
use ferro_wg.Core.Config.{PeerConfig, WgConfig, AppConfig, insert}
use ferro_wg.Core.WgQuick.Parse.{load_from_str}
use ferro_wg.Core.Disk.{Disk, DiskLaws, IsApart, IoError}
use ferro_wg.Core.Toml.{Printer, Parser}
use ferro_wg.Core.Toml.Saved.{TomlLaws}
use ferro_wg.Tui.Tasks.Saves.{backup_path, save_with_backup}
use ferro_wg.Tui.Tasks.Backup.{SavedDraft, NotSaved, save_with_backup-SavedDraft}
use ferro_wg.Tui.Tasks.Import.{try_import}
use ferro_wg.Tui.Tasks.Stored.{Imported, Untouched, try_import-Imported}
use ferro_wg.Program.Import.{cmd_import}
use ferro_wg.Program.Imported.{ImportsPeers, cmd_import-ImportsPeers}
use ferro_wg.Samples.{sample_ext, sample_app, sample_config}

abbrev Files : Type 0
Files = List (Text × Text)

abbrev read : Text → Files → Result Text IoError
read path w = elim (lookup path w) [
  | none ↦ err (record { not_found = true; message = codes "no such file" })
  | some text ↦ ok text
]

abbrev stem_of : Text → Option Text
stem_of path = if path == codes "office.conf" then some (codes "office") else none

abbrev sample_disk : Disk
sample_disk = record {
  World = Files;
  read_file = read;
  write_file = λ path text w. (ok tt, map_insert path text w);
  create_dir_all = λ dir w. (ok tt, w);
  exists = λ path w. elim (lookup path w) [ none ↦ false | some _ ↦ true ];
  parent = λ path. none;
  file_stem = stem_of;
  extension = λ path. none;
  with_extension = λ path extension. codes "config." ++ extension;
}

read_inserted : (path text : Text) (w : Files) → read path (map_insert path text w) ≡ ok text
read_inserted path text w = rw (lookup-insert path path text w, read) (rw (==_refl path) refl)

disk_laws : DiskLaws sample_disk
disk_laws = record {
  read_written = λ path text w next e. ground (arith, read_inserted path text w, e);
}

AppConfig-discrete : Discrete AppConfig
AppConfig-discrete = hlevel (ℕ_discrete)

-- The wg-quick file that is imported, and what it is read as.
abbrev office_text : Text
office_text =
    codes
      "[Interface]\nPrivateKey = aaaaaaaaaaaaaaaaaaaaaaaaaaaaaaaa\n[Peer]\nPublicKey = bbbbbbbbbbbbbbbbbbbbbbbbbbbbbbbb\nAllowedIPs = 10.0.0.1/32\n"

abbrev office_peer : Text → PeerConfig
office_peer name = record {
  name = name;
  public_key = record { bytes = replicate 32 b'b' };
  preshared_key = none;
  endpoint = none;
  allowed_ips = codes "10.0.0.1/32" ∷ [];
  persistent_keepalive = 0;
}

abbrev office : Text → WgConfig
office name = record {
  interface = record {
    private_key = record { bytes = replicate 32 b'a' };
    listen_port = 0;
    addresses = [];
    dns = [];
    dns_search = [];
    mtu = 0;
    fwmark = 0;
    pre_up = [];
    post_up = [];
    pre_down = [];
    post_down = [];
  };
  peers = office_peer name ∷ [];
}

office-reads : load_from_str sample_ext office_text ≡ ok (office [])
unfolding load_from_str ferro_wg.Core.WgQuick.Parse.parse_lines ferro_wg.Text.Split.lines
    ferro_wg.Core.WgQuick.Parse.take_line ferro_wg.Core.WgQuick.Parse.line_kind
    ferro_wg.Text.Trim.trim text_beq ferro_wg.Core.WgQuick.Builder.split_kv
    ferro_wg.Text.Split.split_once ferro_wg.Core.WgQuick.Parse.entry
    ferro_wg.Core.WgQuick.Builder.parse_interface_kv ferro_wg.Core.WgQuick.Builder.interface_key
    ferro_wg.Core.WgQuick.Builder.set_interface ferro_wg.Core.Key.private_from_base64
    ferro_wg.Core.Key.decode_key_bytes ferro_wg.Core.WgQuick.Parse.parse_last
    ferro_wg.Core.WgQuick.Builder.parse_peer_kv ferro_wg.Core.Config.validate
    ferro_wg.Core.Config.validate_peer ferro_wg.Core.Config.validate_peers
    ferro_wg.Core.Key.public_from_base64 ferro_wg.Core.WgQuick.Builder.build_interface
    ferro_wg.Core.WgQuick.Builder.build_peer ferro_wg.Core.WgQuick.Builder.build_peers
    ferro_wg.Core.WgQuick.Builder.peer_key ferro_wg.Core.WgQuick.Builder.set_peer
    ferro_wg.Core.WgQuick.Parse.finish ferro_wg.Text.Split.lines_from ferro_wg.Text.Split.split
office-reads = refl

-- What the two imports make of it: on the command line the peer gets a name.
abbrev with_office : Text → AppConfig
with_office name = insert sample_app (codes "office") (office name)

abbrev print_as : {a b : AppConfig} → Text → Dec (a ≡ b) → Result Text Text → Result Text Text
print_as text (yes _) rest = ok text
print_as text (no _) rest = rest

abbrev app_printer : Printer AppConfig
app_printer a = print_as (codes "sample") (AppConfig-discrete a sample_app) (
    print_as (codes "office") (AppConfig-discrete a (with_office []))
      (print_as (codes "named") (AppConfig-discrete a (with_office (codes "office"))) (err [])))

abbrev app_parser : Parser AppConfig
app_parser text =
    if text == codes "sample"
    then ok sample_app
    else if text == codes "office"
    then ok (with_office [])
    else if text == codes "named"
    then ok (with_office (codes "office"))
    else err []

abbrev Reads : AppConfig → Result Text Text → Type 0
Reads a (ok text) = app_parser text ≡ ok a
Reads a (err e) = Unit

print_as-Reads :
    (a b : AppConfig) (text : Text) (d : Dec (a ≡ b)) (rest : Result Text Text)
    → app_parser text ≡ ok b
    → Reads a rest
    → Reads a (print_as text d rest)
print_as-Reads a b text (yes p) rest h r = h ∙ ap ok (sym p)
print_as-Reads a b text (no n) rest h r = r

app_printer-Reads : (a : AppConfig) → Reads a (app_printer a)
unfolding text_beq
app_printer-Reads a =
    print_as-Reads a sample_app (codes "sample") (AppConfig-discrete a sample_app) _ refl (
      print_as-Reads a (with_office []) (codes "office") (AppConfig-discrete a (with_office [])) _
        refl
        (print_as-Reads a (with_office (codes "office")) (codes "named")
          (AppConfig-discrete a (with_office (codes "office"))) _ refl tt))

toml_laws : TomlLaws app_printer app_parser
toml_laws = record { read_printed = λ a text e. subst (Reads a) e (app_printer-Reads a) }

abbrev config_path : Text
config_path = codes "config.toml"

backup_path-IsApart : IsApart sample_disk config_path (backup_path sample_disk config_path)
unfolding backup_path text_beq
backup_path-IsApart = record {
  kept_by_write =
      λ text held w h. rw (lookup-insert config_path (codes "config.toml.bak") text w, read) h;
  kept_by_create = λ dir held w h. h;
}

abbrev first_files : Files
first_files = (config_path, codes "sample") ∷ (codes "office.conf", office_text) ∷ []

save_with_backup-SavedDraft_example :
    Ends
      (SavedDraft sample_disk app_printer app_parser
        (codes "lab")
        sample_config
        config_path
        first_files)
      (NotSaved sample_disk app_printer app_parser config_path first_files)
      (save_with_backup sample_disk app_printer app_parser
        (codes "lab")
        sample_config
        config_path
        first_files)
save_with_backup-SavedDraft_example =
    save_with_backup-SavedDraft sample_disk app_printer app_parser disk_laws toml_laws config_path
      backup_path-IsApart (codes "lab") sample_config first_files

try_import-Imported_example :
    Ends
      (Imported sample_disk sample_ext app_printer app_parser
        (codes "office.conf")
        config_path
        first_files)
      (Untouched sample_disk sample_ext app_printer app_parser first_files)
      (try_import sample_disk sample_ext app_printer app_parser
        (codes "office.conf")
        config_path
        first_files)
try_import-Imported_example =
    try_import-Imported sample_disk sample_ext app_printer app_parser disk_laws toml_laws
      (codes "office.conf") config_path first_files

cmd_import-ImportsPeers_example :
    Ends
      (ImportsPeers sample_disk sample_ext app_printer app_parser
        (codes "office.conf")
        config_path
        first_files)
      (λ _ _. Unit {0})
      (cmd_import sample_disk sample_ext app_printer app_parser
        (codes "office.conf")
        config_path
        first_files)
cmd_import-ImportsPeers_example =
    cmd_import-ImportsPeers sample_disk sample_ext app_printer app_parser disk_laws toml_laws
      (codes "office.conf") config_path first_files
