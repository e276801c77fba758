-- ===== src/External.antt =====
-- What the program calls and does not implement: the base64 crate's standard engine, the text form
-- of `std::net::IpAddr`, and Unicode's alphabetic and case tables. They are parameters of the
-- model. The records of laws say what the code relies on, as far as a theorem needs it.
use ferro_wg.Prelude.{
  ℕ, ◌<◌, Bool, true, ◌&&◌, ◌||◌, List, [], ◌≡◌, ◌≢◌, Text, Option, some, Result, ok, All, leb,
  ◌==◌, nat_eq,
}

-- `std::net::IpAddr`, as the number that its bytes make.
pub data IpAddr : Type 0 where
  v4 : ℕ → IpAddr
  v6 : ℕ → IpAddr

pub record External : Type 0 where
  -- `BASE64.encode` and `BASE64.decode`; a decode error is kept as its message
  pub base64_encode : List ℕ → Text
  pub base64_decode : Text → Result (List ℕ) Text
  -- `str::parse::<IpAddr>()` and `IpAddr::to_string`
  pub parse_ip : Text → Option IpAddr
  pub show_ip : IpAddr → Text
  -- `char::is_alphanumeric` and `str::to_lowercase`
  pub is_alphanumeric : ℕ → Bool
  pub to_lowercase : Text → Text

-- The alphabet of standard base64, with its padding.
abbrev pub is_base64_char : ℕ → Bool
is_base64_char c =
    leb b'a' c && leb c b'z'
    || leb b'A' c && leb c b'Z'
    || leb b'0' c && leb c b'9'
    || c == b'+'
    || c == b'/'
    || c == b'='

-- What an address is written with.
abbrev pub is_ip_char : ℕ → Bool
is_ip_char c = leb b'a' c && leb c b'f' || leb b'0' c && leb c b'9' || c == b':' || c == b'.'

pub record Base64Laws (ext : External) : Type 0 where
  pub decode_encode :
      (bytes : List ℕ)
      → All (λ b. b < 256) bytes
      → ext.base64_decode (ext.base64_encode bytes) ≡ ok bytes
  pub encode_ne_nil : (bytes : List ℕ) → bytes ≢ [] → ext.base64_encode bytes ≢ []
  pub alphabet : (bytes : List ℕ) → All (λ c. is_base64_char c ≡ true) (ext.base64_encode bytes)

pub record IpLaws (ext : External) : Type 0 where
  pub parse_show : (ip : IpAddr) → ext.parse_ip (ext.show_ip ip) ≡ some ip
  pub show_ne_nil : (ip : IpAddr) → ext.show_ip ip ≢ []
  pub alphabet : (ip : IpAddr) → All (λ c. is_ip_char c ≡ true) (ext.show_ip ip)
