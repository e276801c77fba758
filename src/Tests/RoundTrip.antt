-- ===== src/Tests/RoundTrip.antt =====
-- A configuration in the wg-quick format and back, and the editor's addresses, with simple stand-ins for base64 and the text form of
-- addresses that keep their laws.
use ferro_wg.Prelude.{
  ℕ, suc, zero, ◌+◌, ◌*◌, ◌-◌, ◌/◌, ◌%◌, ◌<◌, Bool, true, ◌&&◌, List, [], ◌∷◌, ◌≡◌, ◌≢◌, refl, ap,
  arith, Text, Option, none, some, Result, ok, err, codes, All, all, length, replicate, leb, ◌==◌,
  nat_eq, if◌then◌else◌, Bool-cases, inl, inr, ◌++◌, ◌↔◌, ◌≤◌,
}
use ferro_wg.Text.Trim.{to_ascii_lowercase, is_whitespace}
use ferro_wg.Text.Order.{byte_len}
use ferro_wg.External.{External, Base64Laws, IpLaws, IpAddr, v4, v6, is_base64_char, is_ip_char}
use ferro_wg.Core.Config.{InterfaceConfig, PeerConfig, WgConfig, is_name_char}
use ferro_wg.Core.Config.Valid.{IsName}
use ferro_wg.Core.WgQuick.Fields.{IsItem, Inner, Inner-IsItem}
use ferro_wg.Core.WgQuick.Parse.{load_from_str}
use ferro_wg.Core.WgQuick.Export.{export_to_string}
use ferro_wg.Core.WgQuick.Interface.{IsWritable}
use ferro_wg.Core.WgQuick.Peers.{IsWritablePeer}
use ferro_wg.Core.WgQuick.RoundTrip.{IsExportable, without_names, load_from_str-export_to_string}
use ferro_wg.Text.Number.{show_nat}
use ferro_wg.Tui.ConfigEdit.Validate.{is_valid_cidr}
use ferro_wg.Tui.ConfigEdit.Validate.Cidr.{width, is_valid_cidr_iff}
use ferro_wg.Samples.{sample_interface, sample_peer}

-- Two letters for a byte.
abbrev encode : List ℕ → Text
encode [] = []
encode (b ∷ bytes) = (b'a' + b / 16 % 16) ∷ (b'a' + b % 16) ∷ encode bytes

abbrev cons_result : ℕ → Result (List ℕ) Text → Result (List ℕ) Text
cons_result b (ok bytes) = ok (b ∷ bytes)
cons_result b (err e) = err e

abbrev decode : Text → Result (List ℕ) Text
decode [] = ok []
decode (c ∷ []) = err []
decode (c ∷ d ∷ s) = cons_result ((c - b'a') * 16 + (d - b'a')) (decode s)

-- A family's digit, and then as many as the number says.
abbrev show_ip : IpAddr → Text
show_ip (v4 n) = b'4' ∷ replicate n b'1'
show_ip (v6 n) = b'6' ∷ replicate n b'1'

abbrev parse_ip : Text → Option IpAddr
parse_ip [] = none
parse_ip (c ∷ s) =
    if c == b'4' then some (v4 (length s)) else if c == b'6' then some (v6 (length s)) else none

abbrev codec_ext : External
codec_ext = record {
  base64_encode = encode;
  base64_decode = decode;
  parse_ip = parse_ip;
  show_ip = show_ip;
  is_alphanumeric = λ c. leb b'0' c && leb c b'9';
  to_lowercase = to_ascii_lowercase;
}

decode-encode_bytes : (bytes : List ℕ) → All (λ b. b < 256) bytes → decode (encode bytes) ≡ ok bytes
decode-encode_bytes [] h = refl
decode-encode_bytes (b ∷ bytes) h =
    rw (decode-encode_bytes bytes h.1) (ap (λ n. ok (n ∷ bytes)) (omega (arith, h.0)))

letter : (b : ℕ) → is_base64_char (b'a' + b % 16) ≡ true
letter b = small (b % 16) (omega arith)
  where
    small : (n : ℕ) → n < 16 → is_base64_char (b'a' + n) ≡ true
    small n h = ground (arith, h)

encode-alphabet : (bytes : List ℕ) → All (λ c. is_base64_char c ≡ true) (encode bytes)
encode-alphabet [] = tt
encode-alphabet (b ∷ bytes) = (letter (b / 16), (letter b, encode-alphabet bytes))

base64_laws : Base64Laws codec_ext
base64_laws = record {
  decode_encode = decode-encode_bytes;
  encode_ne_nil = some_text;
  alphabet = encode-alphabet;
}
  where
    some_text : (bytes : List ℕ) → bytes ≢ [] → encode bytes ≢ []
    some_text [] ne = ne
    some_text (b ∷ bytes) ne = ground arith

length-replicate_ones : (n : ℕ) → length {A = ℕ} (replicate n b'1') ≡ n
length-replicate_ones zero = refl
length-replicate_ones (suc n) = ap suc (length-replicate_ones n)

ones-alphabet : (n : ℕ) → All (λ c. is_ip_char c ≡ true) (replicate n b'1')
ones-alphabet zero = tt
ones-alphabet (suc n) = (refl, ones-alphabet n)

ip_laws : IpLaws codec_ext
ip_laws = record { parse_show = parsed; show_ne_nil = some_text; alphabet = ip_alphabet }
  where
    parsed : (ip : IpAddr) → parse_ip (show_ip ip) ≡ some ip
    parsed (v4 n) = ap (λ m. some (v4 m)) (length-replicate_ones n)
    parsed (v6 n) = ap (λ m. some (v6 m)) (length-replicate_ones n)

    some_text : (ip : IpAddr) → show_ip ip ≢ []
    some_text (v4 n) = ground arith
    some_text (v6 n) = ground arith

    ip_alphabet : (ip : IpAddr) → All (λ c. is_ip_char c ≡ true) (show_ip ip)
    ip_alphabet (v4 n) = (refl, ones-alphabet n)
    ip_alphabet (v6 n) = (refl, ones-alphabet n)

abbrev is_word_char : ℕ → Bool
is_word_char c = leb b'-' c && leb c b'z'

word_char-Inner : (c : ℕ) → is_word_char c ≡ true → Inner c
unfolding is_whitespace
word_char-Inner c h = (ground (arith, h), ground (arith, h), ground (arith, h))

word-Inner : (v : Text) → all is_word_char v ≡ true → All Inner v
word-Inner [] h = tt
word-Inner (c ∷ v) h = elim (Bool-cases (is_word_char c)) [
  | inl e ↦ (word_char-Inner c e, word-Inner v (ground (arith, h, e)))
  | inr e ↦ absurd (ground (arith, h, e))
]

word-IsItem : (c : ℕ) (v : Text) → all is_word_char (c ∷ v) ≡ true → IsItem (c ∷ v)
word-IsItem c v h = Inner-IsItem (c ∷ v) (λ e. ground (arith, e)) (word-Inner (c ∷ v) h)

abbrev resolver_interface : InterfaceConfig
resolver_interface = record sample_interface {
  dns = v4 1 ∷ [];
  dns_search = codes "lan" ∷ [];
  post_up = codes "/etc/up.sh" ∷ [];
}

abbrev resolver_peer : PeerConfig
resolver_peer = record (sample_peer "hub" "10.0.0.1/32") { endpoint = some (codes "vpn.lan:51820") }

abbrev resolver_config : WgConfig
resolver_config = record { interface = resolver_interface; peers = resolver_peer ∷ [] }

repeated-IsKeyBytes : (n b : ℕ) → b < 256 → All (λ c. c < 256) (replicate n b)
repeated-IsKeyBytes zero b h = tt
repeated-IsKeyBytes (suc n) b h = (h, repeated-IsKeyBytes n b h)

resolver_interface-IsWritable : IsWritable codec_ext resolver_interface
resolver_interface-IsWritable = record {
  key = record { count = refl; byte = repeated-IsKeyBytes 32 7 (omega arith) };
  listen_port = omega arith;
  mtu = omega arith;
  addresses = (word-IsItem b'1' (codes "0.0.0.1/24") refl, tt);
  dns_search = ((word-IsItem b'l' (codes "an") refl, refl), tt);
  pre_up = tt;
  post_up = ((word-IsItem b'/' (codes "etc/up.sh") refl).line, tt);
  pre_down = tt;
  post_down = tt;
}

hub-IsName : IsName (codes "hub")
unfolding is_name_char byte_len
hub-IsName = record {
  ne_nil = λ e. ground (arith, e);
  short = omega arith;
  chars = (refl, (refl, (refl, tt)));
}

resolver_peer-IsWritablePeer : IsWritablePeer resolver_peer
resolver_peer-IsWritablePeer = record {
  name = inr hub-IsName;
  key = record { count = refl; byte = repeated-IsKeyBytes 32 9 (omega arith) };
  preshared_key = tt;
  endpoint = (word-IsItem b'v' (codes "pn.lan:51820") refl).line;
  allowed_ips = (word-IsItem b'1' (codes "0.0.0.1/32") refl, tt);
  keepalive = omega arith;
}

resolver_config-IsExportable : IsExportable codec_ext resolver_config
resolver_config-IsExportable = record {
  interface = resolver_interface-IsWritable;
  some_peer = λ e. ground (arith, e);
  peers = (resolver_peer-IsWritablePeer, tt);
  routed = ((λ e. ground (arith, e)), tt);
}

load_from_str-export_to_string_example :
    load_from_str codec_ext (export_to_string codec_ext resolver_config)
    ≡ ok (without_names resolver_config)
load_from_str-export_to_string_example =
    load_from_str-export_to_string codec_ext base64_laws ip_laws resolver_config
      resolver_config-IsExportable

is_valid_cidr_iff_example :
    (is_valid_cidr codec_ext (show_ip (v4 3) ++ (b'/' ∷ show_nat 24)) ≡ true) ↔ (24 ≤ width (v4 3))
is_valid_cidr_iff_example = is_valid_cidr_iff codec_ext ip_laws (v4 3) 24 (omega arith)
