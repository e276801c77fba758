-- ===== src/Core/WgQuick/Sound.antt =====
-- What `load_from_str` of ferro-wg-core/src/config/wg_quick.rs promises: what it returns is valid, and
-- an error names a line of the input.
use ferro_wg.Prelude.{
  ℕ, suc, ◌≤◌, List, [], ◌∷◌, ◌≡◌, arith, Text, Result, ok, err, Result-cases, Option-cases, inl,
  inr, length, All,
}
use ferro_wg.External.{External}
use ferro_wg.Text.Split.{lines}
use ferro_wg.Text.Number.{u16_max, u32_max}
use ferro_wg.Core.Error.{ConfigError, wg_quick_parse}
use ferro_wg.Core.Config.{PeerConfig, WgConfig, IsRanged, validate, validate_peers, validate_peer}
use ferro_wg.Core.Config.Valid.{IsValidConfig, validate_iff}
use ferro_wg.Core.WgQuick.Builder.{
  InterfaceBuilder, PeerBuilder, build_interface, build_peer, build_peers,
}
use ferro_wg.Core.WgQuick.Parse.{
  Stop, invalid, unreachable, ParseState, initial, parse_lines, finish, load_from_str,
}
use ferro_wg.Core.WgQuick.Lines.{
  IsReady, IsRangedInterface, IsRangedPeer, initial-IsReady, parse_lines-RunsIn,
}

-- What is wrong with an input: an error that is about one of its `hi` lines, if it names one.
abbrev pub IsReport : ℕ → Stop → Type 0
IsReport hi (invalid (wg_quick_parse n r)) = (1 ≤ n) × (n ≤ hi)
IsReport hi (invalid e) = Unit
IsReport hi unreachable = ⊥

-- A result behind the last line: no error names a line there.
abbrev Finishes {ℓ} : {A : Type ℓ} → (A → Type 0) → Result A ConfigError → Type 0
Finishes P (ok a) = P a
Finishes P (err (wg_quick_parse n r)) = ⊥
Finishes P (err _) = Unit

build_peers-Finishes :
    (bs : List PeerBuilder)
    → All IsRangedPeer bs
    → Finishes (All (λ p. p.persistent_keepalive ≤ u16_max)) (build_peers bs)
unfolding build_peers build_peer
build_peers-Finishes [] h = tt
build_peers-Finishes (b ∷ bs) h = ground (arith, build_peers-Finishes bs (h.1))

validate_peers-Finishes :
    (i : ℕ) (ps : List PeerConfig) → Finishes (λ u. Unit {0}) (validate_peers i ps)
unfolding validate_peers validate_peer
validate_peers-Finishes i [] = tt
validate_peers-Finishes i (p ∷ ps) = ground (arith, validate_peers-Finishes (suc i) ps)

build_interface-Finishes :
    (b : InterfaceBuilder)
    → IsRangedInterface b
    → Finishes
        (λ c. (c.listen_port ≤ u16_max) × (c.mtu ≤ u16_max) × (c.fwmark ≤ u32_max))
        (build_interface b)
unfolding build_interface
build_interface-Finishes b h = elim (Option-cases b.private_key) [
  | inl e ↦ rw e tt
  | inr (k, e) ↦ rw e (h.listen_port, h.mtu, h.fwmark)
]

validate-Finishes : (c : WgConfig) → Finishes (λ u. Unit {0}) (validate c)
unfolding validate
validate-Finishes c = ground (arith, validate_peers-Finishes 0 c.peers)

finish-Finishes :
    (s : ParseState) → IsReady s → Finishes (λ c. IsValidConfig c × IsRanged c) (finish s)
unfolding finish
finish-Finishes s h =
    let first = build_interface-Finishes s.iface h.iface in
    let second = build_peers-Finishes s.peers h.peers in
    elim (Result-cases (build_interface s.iface)) [
      | inr (x, e) ↦ ground (arith, e, first)
      | inl (i, e) ↦ elim (Result-cases (build_peers s.peers)) [
        | inr (x, f) ↦ ground (arith, e, f, second)
        | inl (ps, f) ↦
            let c : WgConfig = record { interface = i; peers = ps } in
            let numbers = rw e at first in
            elim (Result-cases (validate c)) [
              | inr (x, g) ↦ ground (arith, e, f, g, validate-Finishes c)
              | inl (u, g) ↦
                  rw (e, f, g)
                    (
                      (validate_iff c).0 g,
                      record {
                        listen_port = numbers.0;
                        mtu = numbers.1;
                        fwmark = numbers.2;
                        keepalive = rw f at second;
                      },
                    )
            ]
      ]
    ]

-- What the two halves of `load_from_str` say together.
abbrev Loads : ℕ → Result WgConfig Stop → Type 0
Loads hi (ok c) = IsValidConfig c × IsRanged c
Loads hi (err e) = IsReport hi e

module _ (ext : External) where
  load_from_str-Loads : (input : Text) → Loads (length (lines input)) (load_from_str ext input)
  unfolding load_from_str
  load_from_str-Loads input =
      let hi = length (lines input) in
      let run =
        parse_lines-RunsIn ext hi 1 (lines input) initial (initial-IsReady ext) (omega arith)
          (omega arith) in
      elim (Result-cases (parse_lines ext 1 (lines input) initial)) [
        | inr (x, e) ↦ ground (arith, e, run)
        | inl (s, e) ↦ elim (Result-cases (finish s)) [
          | inr (x, f) ↦ ground (arith, e, f, finish-Finishes s (rw e at run))
          | inl (c, f) ↦ rw (e, f) (rw f at (finish-Finishes s (rw e at run)))
        ]
      ]

  -- What a file of wg-quick is read as is a valid configuration, with every number in its width.
  pub load_from_str-IsValidConfig :
      (input : Text) (c : WgConfig) → load_from_str ext input ≡ ok c → IsValidConfig c × IsRanged c
  load_from_str-IsValidConfig input c e = rw e at (load_from_str-Loads input)

  -- Reading a file never comes to the place that the code calls unreachable, and an error that names
  -- a line names one of the input's, counted from 1.
  pub load_from_str-IsReport :
      (input : Text) (e : Stop)
      → load_from_str ext input ≡ err e
      → IsReport (length (lines input)) e
  load_from_str-IsReport input e h = rw h at (load_from_str-Loads input)
