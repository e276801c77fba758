-- ===== src/Core/Toml/Inserted.antt =====
-- When a configuration with one more connection is loaded again: ferro-wg-core/src/config/mod.rs and
-- toml.rs together.
use ferro_wg.Prelude.{
  List, [], ◌∷◌, ◌≡◌, ◌↔◌, refl, Text, ok, All, Bool-cases, Result-cases, inl, inr, arith, ◌==◌,
  text_eq, ◌≢◌,
}
use ferro_wg.Text.Order.{text_ltb}
use ferro_wg.Core.Config.{WgConfig, AppConfig, insert_entry, insert, validate_app}
use ferro_wg.Core.Config.Valid.{IsName, IsValidConfig, IsValidApp, validate_app_iff}
use ferro_wg.Core.Disk.{Disk}
use ferro_wg.Core.Toml.{Parser, load_app_config_str-IsValidApp}
use ferro_wg.Core.Toml.Files.{load_app_config}
use ferro_wg.Core.Toml.Saved.{validated}

module _ (P : Text × WgConfig → Type 0) where
  All-insert_entry :
      (k : Text) (v : WgConfig) (m : List (Text × WgConfig))
      → P (k, v)
      → All P m
      → All P (insert_entry k v m)
  unfolding insert_entry
  All-insert_entry k v [] p h = (p, tt)
  All-insert_entry k v ((j, w) ∷ m) p h = elim (Bool-cases (k == j)) [
    | inl same ↦ rw same (p, h.1)
    | inr other ↦ rw other (elim (Bool-cases (text_ltb k j)) [
      | inl before ↦ rw before (p, h)
      | inr behind ↦ rw behind (h.0, All-insert_entry k v m p h.1)
    ])
  ]

  inserted-in :
      (k : Text) (v : WgConfig) (m : List (Text × WgConfig)) → All P (insert_entry k v m) → P (k, v)
  unfolding insert_entry
  inserted-in k v [] h = h.0
  inserted-in k v ((j, w) ∷ m) h = elim (Bool-cases (k == j)) [
    | inl same ↦ (rw same at h).0
    | inr other ↦ elim (Bool-cases (text_ltb k j)) [
      | inl before ↦ (rw (other, before) at h).0
      | inr behind ↦ inserted-in k v m (rw (other, behind) at h).1
    ]
  ]

insert_entry-ne_nil :
    (k : Text) (v : WgConfig) (m : List (Text × WgConfig)) → insert_entry k v m ≢ []
unfolding insert_entry
insert_entry-ne_nil k v [] = ground arith
insert_entry-ne_nil k v ((j, w) ∷ m) = ground arith

-- A configuration that was saved loads again exactly when it is valid.
pub validated_iff : (a : AppConfig) → (validated a ≡ ok a) ↔ IsValidApp a
validated_iff a = elim (Result-cases (validate_app a)) [
  | inl (u, e) ↦ rw (e, validated) (λ _. (validate_app_iff a).0 e, λ _. refl)
  | inr (x, e) ↦ rw (e, validated) (λ h. cc h, λ v. cc (rw e at ((validate_app_iff a).1 v)))
]

-- The connections have proper names and are valid, if there are any.
abbrev pub AllProper : AppConfig → Type 0
AllProper a = All (λ (e : Text × WgConfig). IsName e.0 × IsValidConfig e.1) a.connections

-- A configuration with one more connection loads again exactly when the connection has a proper name
-- and is valid, if the others are like that.
pub validated-insert :
    (old : AppConfig) (name : Text) (c : WgConfig)
    → AllProper old
    → (validated (insert old name c) ≡ ok (insert old name c)) ↔ (IsName name × IsValidConfig c)
unfolding insert
validated-insert old name c h =
    let P : Text × WgConfig → Type 0 = λ (e : Text × WgConfig). IsName e.0 × IsValidConfig e.1 in
    (
      λ loads.
          inserted-in P name c old.connections
            ((validated_iff (insert old name c)).0 loads).connections,
      λ new. (validated_iff (insert old name c)).1 (record {
        some_connection = insert_entry-ne_nil name c old.connections;
        connections = All-insert_entry P name c old.connections new h;
      }),
    )

-- What loads from a file is a valid configuration.
pub load_app_config-IsValidApp :
    (disk : Disk) (parser : Parser AppConfig) (path : Text) (w : disk.World) (a : AppConfig)
    → load_app_config disk parser path w ≡ ok a
    → IsValidApp a
unfolding load_app_config
load_app_config-IsValidApp disk parser path w a h = elim (Result-cases (disk.read_file path w)) [
  | inr (e, f) ↦ cc (rw f at h)
  | inl (s, f) ↦ (load_app_config_str-IsValidApp parser s a (rw f at h)).1
]
