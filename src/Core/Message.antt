-- ===== src/Core/Message.antt =====
-- The messages of ferro-wg-core/src/ipc.rs on the socket: `encode_message` makes one line, and
-- `decode_message` reads it.
use ferro_wg.Prelude.{
  ℕ, ◌<◌, ◌%◌, ◌^◌, [], ◌∷◌, ◌++◌, ◌≡◌, refl, ap, ◌∙◌, arith, Text, Result, ok, Result-cases, inl,
  inr, codes, All, is_empty, false,
}
use ferro_wg.Text.Trim.{trim-append_newline, IsTrimmed}
use ferro_wg.Text.Split.{Lacks}
use ferro_wg.Core.Ipc.{
  encode_message, decode_message, ResponseError, as_text, PeerStatus, DaemonResponse, failed,
  statuses, benchmark_progress, benchmark_result,
}

-- serde_json prints a value on one line, with no white space around it, and reads a plain one back as
-- what is seen of it.
pub record JsonLaws {T : Type 0} (to_string : T → Result Text Text)
    (from_str : Text → Result T Text) (IsPlain : T → Type 0) (seen : T → T) : Type 0 where
  pub read_printed :
      (msg : T) (json : Text)
      → IsPlain msg
      → to_string msg ≡ ok json
      → from_str json ≡ ok (seen msg)
  pub on_one_line : (msg : T) (json : Text) → to_string msg ≡ ok json → Lacks b'\n' json
  pub printed_trimmed : (msg : T) (json : Text) → to_string msg ≡ ok json → IsTrimmed json

-- JSON has no infinity and no NaN.
abbrev IsFinite : ℕ → Type 0
IsFinite bits = bits % 2 ^ 31 < 0x7f800000

-- The responses whose numbers come through. The 64-bit floats of a benchmark may change their last
-- digit.
abbrev pub IsReadable : DaemonResponse → Type 0
IsReadable (statuses ps) = All (λ (p : PeerStatus). IsFinite p.stats.packet_loss) ps
IsReadable (benchmark_progress _) = ⊥
IsReadable (benchmark_result _) = ⊥
IsReadable _ = Unit

-- The text of an error is all that a client reads of it.
abbrev pub as_read : (ResponseError → Text) → DaemonResponse → DaemonResponse
as_read describe (failed e) = failed (as_text (describe e))
as_read describe r = r

-- The line that a message is sent as.
pub record IsSent {T : Type 0} (to_string : T → Result Text Text) (msg : T) (text : Text)
    : Type 0 where
  pub json : Text
  pub printed : to_string msg ≡ ok json
  pub line : text ≡ json ++ b'\n' ∷ []

ok_injective : (a b : Text) → Path (Result Text Text) (ok a) (ok b) → b ≡ a
ok_injective a b e = cc e

pub encode_message-IsSent :
    {T : Type 0} (to_string : T → Result Text Text) (msg : T) (text : Text)
    → encode_message to_string msg ≡ ok text
    → IsSent to_string msg text
unfolding encode_message
encode_message-IsSent to_string msg text e = elim (Result-cases (to_string msg)) [
  | inl (json, printed) ↦ record {
    json = json;
    printed = printed;
    line = ok_injective (json ++ codes "\n") text (rw printed at e);
  }
  | inr (m, no_json) ↦ ground (arith, e, no_json)
]

-- What is encoded ends a line, so it is not empty.
pub sent-is_empty : (json : Text) → is_empty (json ++ b'\n' ∷ []) ≡ false
sent-is_empty [] = refl
sent-is_empty (c ∷ json) = refl

-- A message that was sent is decoded as what is seen of it.
pub decode_message-sent :
    {T : Type 0} (to_string : T → Result Text Text) (from_str : Text → Result T Text)
    (IsPlain : T → Type 0) (seen : T → T) (msg : T) (json : Text)
    → JsonLaws to_string from_str IsPlain seen
    → IsPlain msg
    → to_string msg ≡ ok json
    → decode_message from_str (json ++ b'\n' ∷ []) ≡ ok (seen msg)
unfolding decode_message
decode_message-sent to_string from_str IsPlain seen msg json laws plain printed =
    ap from_str (trim-append_newline json ∙ laws.printed_trimmed msg json printed)
    ∙ laws.read_printed msg json plain printed
