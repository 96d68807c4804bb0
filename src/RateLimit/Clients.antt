-- ===== src/RateLimit/Clients.antt =====
-- `resolve_client_ip` and `caller_ip`: which address a request is counted under. The parser and the
-- printer of the standard library's `IpAddr` are parameters; a header that is missing or is no
-- printable text is `none`.
use support_center.Prelude.{
  String, ◌≡◌, false, Option, none, some, List, [], ◌∷◌, if◌then◌else◌, unwrap_or, any, Key, nat_eq,
  string_eq, option_eq, pair_eq, ◌==◌,
}
use support_center.Chars.{Text, trim, before}

pub record Headers : Type 0 where
  pub cf_connecting_ip : Option Text
  pub x_forwarded_for : Option Text
  pub x_real_ip : Option Text

module _ {Ip : Type 0} ⦃key : Key Ip⦄ (parse : Text → Option Ip) (show : Ip → String) where
  -- The first element of a header's list, if it is an address.
  unfoldable pub forwarded : Option Text → Option Ip
  forwarded none = none
  forwarded (some v) = parse (trim (before b',' v))

  unfoldable pub first_forwarded : List (Option Text) → Option Ip
  unfolding forwarded
  first_forwarded [] = none
  first_forwarded (h ∷ hs) = elim (forwarded h) [ some ip ↦ some ip | none ↦ first_forwarded hs ]

  unfoldable pub resolve_client_ip : Headers → Option Ip → List Ip → Option String
  unfolding first_forwarded
  resolve_client_ip headers none trusted = none
  resolve_client_ip headers (some peer) trusted =
      if any (λ ip. ip == peer) trusted
      then (elim (first_forwarded
          (headers.cf_connecting_ip ∷ headers.x_forwarded_for ∷ headers.x_real_ip ∷ [])) [
            | some ip ↦ some (show ip)
            | none ↦ some (show peer)
          ])
      else some (show peer)

  unfoldable pub caller_ip : Headers → Option Ip → List Ip → String
  unfolding resolve_client_ip
  caller_ip headers peer trusted = unwrap_or (resolve_client_ip headers peer trusted) "unknown"

  -- A peer that is no trusted proxy cannot choose its address: the headers have no effect.
  pub untrusted_headers_ignored :
      (headers : Headers) (peer : Ip) (trusted : List Ip)
      → any (λ ip. ip == peer) trusted ≡ false
      → caller_ip headers (some peer) trusted ≡ show peer
  unfolding caller_ip
  untrusted_headers_ignored headers peer trusted u = rw u
