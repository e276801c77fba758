-- ===== src/Core/WgQuick/Lists.antt =====
-- The numbers and the lists of ferro-wg-core/src/config/wg_quick.rs, written and read.
use ferro_wg.Prelude.{
  ℕ, false, List, [], ◌∷◌, ◌++◌, map, ◌≡◌, refl, sym, ap, ◌∙◌, subst, arith, String, Text, none, ok,
  codes, All, All-append, append-nil, append_assoc, Bool-cases, inl, inr, ◌==◌, nat_eq, nat_beq_iff,
}
use ferro_wg.External.{External, IpLaws, IpAddr}
use ferro_wg.Text.Trim.{trim, StartsSolid, EndsSolid-append}
use ferro_wg.Text.Split.{Lacks, split, join, trimmed-split-join, split-lacking}
use ferro_wg.Text.Number.{show_nat}
use ferro_wg.Core.WgQuick.Builder.{InterfaceBuilder, add_token, add_dns}
use ferro_wg.Core.WgQuick.Parse.{ParseState, entry}
use ferro_wg.Core.WgQuick.Export.{int_line}
use ferro_wg.Core.WgQuick.Takes.{IsLine, IsKey, Takes, Takes-nil, Takes-key_line}
use ferro_wg.Core.WgQuick.Fields.{IsItem, IsItem-trim, show_nat-IsLine, show_ip-IsItem}

-- One element of a list with commas, read back.
pub trimmed-item : (v : Text) → IsItem v → map trim (split b',' v) ≡ v ∷ []
trimmed-item v h = rw (split-lacking b',' v h.no_comma) (ap (λ t. t ∷ []) (IsItem-trim v h.line))

pub join-IsLine :
    (v : Text) (vs : List Text) → All IsItem (v ∷ vs) → IsLine (join (codes ", ") (v ∷ vs))
unfolding join
join-IsLine v [] h = h.0.line
join-IsLine v (w ∷ vs) h =
    let rest = join-IsLine w vs h.1 in
    record {
      starts = starts_first v (codes ", " ++ join (codes ", ") (w ∷ vs)) h.0.line.starts;
      ends =
          EndsSolid-append v (codes ", " ++ join (codes ", ") (w ∷ vs))
            (EndsSolid-append (codes ", ") (join (codes ", ") (w ∷ vs)) rest.ends);
      unbroken =
          All-append (λ x. (x == b'\n') ≡ false) v (codes ", " ++ join (codes ", ") (w ∷ vs))
            h.0.line.unbroken (refl, (refl, rest.unbroken));
    }
  where
    starts_first : (v u : Text) → StartsSolid v → StartsSolid (v ++ u)
    starts_first [] u k = elim k [ ]
    starts_first (c ∷ v) u k = k

pub item_texts : (vs : List Text) → All IsItem vs → All (λ x. Lacks b',' x × (trim x ≡ x)) vs
item_texts [] h = tt
item_texts (v ∷ vs) h = ((h.0.no_comma, IsItem-trim v h.0.line), item_texts vs h.1)

-- The commas and spaces are taken out again.
pub items_again :
    (v : Text) (vs : List Text)
    → All IsItem (v ∷ vs)
    → map trim (split b',' (join (codes ", ") (v ∷ vs))) ≡ v ∷ vs
items_again v vs h = trimmed-split-join (v ∷ vs) (λ e. cc e) (item_texts (v ∷ vs) h)

module _ (ext : External) where
  -- A number, with no line when it is 0.
  pub Takes-int_line :
      (key : String) (n : ℕ) (s : ParseState) (f : ℕ → ParseState)
      → IsKey (codes key)
      → f 0 ≡ s
      → ((m : ℕ) → entry ext s.section (codes key) (show_nat n) m s ≡ ok (f n))
      → Takes ext (int_line key n) s (f n)
  unfolding int_line
  Takes-int_line key n s f k z e = elim (Bool-cases (n == 0)) [
    | inl is_zero ↦ rw is_zero (
        subst (λ s'. Takes ext [] s s') (sym z ∙ ap f (sym ((nat_beq_iff n 0).0 is_zero)))
          (Takes-nil ext s))
    | inr other ↦ rw other (Takes-key_line ext key (show_nat n) s (f n) k (show_nat-IsLine n) e)
  ]

  -- `add_dns` on tokens that are trimmed.
  add_tokens : List Text → InterfaceBuilder → InterfaceBuilder
  add_tokens [] b = b
  add_tokens (t ∷ ts) b = add_tokens ts (add_token ext t b)

  add_dns-trimmed :
      (ts : List Text) (b : InterfaceBuilder) → add_dns ext ts b ≡ add_tokens (map trim ts) b
  unfolding add_dns add_tokens
  add_dns-trimmed [] b = refl
  add_dns-trimmed (t ∷ ts) b = add_dns-trimmed ts (add_token ext (trim t) b)

  -- A search domain: a text that is no address.
  abbrev pub IsDomain : Text → Type 0
  IsDomain t = IsItem t × (ext.parse_ip t ≡ none)

  add_token-domain :
      (t : Text) (b : InterfaceBuilder)
      → IsDomain t
      → add_token ext t b ≡ record b { dns_search = b.dns_search ++ t ∷ [] }
  unfolding add_token
  add_token-domain [] b h = elim h.0.line.starts [ ]
  add_token-domain (c ∷ t) b h = rw (h.1) refl

  add_token-address :
      IpLaws ext
      → (ip : IpAddr) (b : InterfaceBuilder)
      → add_token ext (ext.show_ip ip) b ≡ record b { dns = b.dns ++ ip ∷ [] }
  unfolding add_token
  add_token-address laws ip b = ground (arith, laws.parse_show ip, laws.show_ne_nil ip)

  add_tokens-domains :
      (ts : List Text) (b : InterfaceBuilder)
      → All IsDomain ts
      → add_tokens ts b ≡ record b { dns_search = b.dns_search ++ ts }
  unfolding add_tokens
  add_tokens-domains [] b h = ap (λ l. record b { dns_search = l }) (sym (append-nil b.dns_search))
  add_tokens-domains (t ∷ ts) b h = rw (add_token-domain t b h.0) (
      add_tokens-domains ts (record b { dns_search = b.dns_search ++ t ∷ [] }) h.1
      ∙ ap (λ l. record b { dns_search = l }) (append_assoc b.dns_search (t ∷ []) ts))

  add_tokens-dns :
      (ips : List IpAddr) (ts : List Text) (b : InterfaceBuilder)
      → IpLaws ext
      → All IsDomain ts
      → add_tokens (map ext.show_ip ips ++ ts) b
        ≡ record b { dns = b.dns ++ ips; dns_search = b.dns_search ++ ts }
  unfolding add_tokens
  add_tokens-dns [] ts b laws h =
      add_tokens-domains ts b h
      ∙ ap (λ l. record b { dns = l; dns_search = b.dns_search ++ ts }) (sym (append-nil b.dns))
  add_tokens-dns (ip ∷ ips) ts b laws h =
      ap (add_tokens (map ext.show_ip ips ++ ts)) (add_token-address laws ip b)
      ∙ (add_tokens-dns ips ts (record b { dns = b.dns ++ ip ∷ [] }) laws h
          ∙ ap (λ l. record b { dns = l; dns_search = b.dns_search ++ ts })
              (append_assoc b.dns (ip ∷ []) ips))

  -- A list of addresses and search domains, as `DNS` writes it and as it is read.
  pub add_dns-written :
      (v : Text) (vs : List Text) (ips : List IpAddr) (ts : List Text) (b : InterfaceBuilder)
      → IpLaws ext
      → All IsDomain ts
      → All IsItem (v ∷ vs)
      → map ext.show_ip ips ++ ts ≡ v ∷ vs
      → add_dns ext (split b',' (join (codes ", ") (v ∷ vs))) b
        ≡ record b { dns = b.dns ++ ips; dns_search = b.dns_search ++ ts }
  add_dns-written v vs ips ts b laws h items e =
      add_dns-trimmed (split b',' (join (codes ", ") (v ∷ vs))) b
      ∙ ap (λ l. add_tokens l b) (items_again v vs items ∙ sym e)
      ∙ add_tokens-dns ips ts b laws h

  -- With no address and no domain there is nothing to add.
  pub dns_unwritten :
      (ips : List IpAddr) (ts : List Text) (b : InterfaceBuilder)
      → IpLaws ext
      → All IsDomain ts
      → map ext.show_ip ips ++ ts ≡ []
      → b ≡ record b { dns = b.dns ++ ips; dns_search = b.dns_search ++ ts }
  unfolding add_tokens
  dns_unwritten ips ts b laws h e =
      sym (ap (λ l. add_tokens l b) e) ∙ add_tokens-dns ips ts b laws h

  domains-IsItem : (ts : List Text) → All IsDomain ts → All IsItem ts
  domains-IsItem [] h = tt
  domains-IsItem (t ∷ ts) h = (h.0.0, domains-IsItem ts h.1)

  pub dns-IsItem :
      (ips : List IpAddr) (ts : List Text)
      → IpLaws ext
      → All IsDomain ts
      → All IsItem (map ext.show_ip ips ++ ts)
  dns-IsItem [] ts laws h = domains-IsItem ts h
  dns-IsItem (ip ∷ ips) ts laws h = (show_ip-IsItem ext laws ip, dns-IsItem ips ts laws h)
