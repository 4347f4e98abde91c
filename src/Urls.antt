-- ===== src/Urls.antt =====
-- services/_http.py: the host and the scheme of a URL. urllib3's `parse_url` and Python's `lower`
-- are the parameter `UrlLib`.
use epics_mcp_server.Prelude.{
  ℕ, Bool, true, false, ◌||◌, Option, none, some, [], ◌∷◌, ◌==◌, if◌then◌else◌,
}
use epics_mcp_server.Prelude.Texts.{Text, codes, text_eq}
use epics_mcp_server.Address.{Platform, or_false}

pub record ParsedUrl : Type 0 where
  pub scheme : Option Text
  pub host : Option Text

pub record UrlLib : Type 0 where
  -- `urllib3.util.parse_url`; `none` for a LocationParseError or a ValueError
  pub parse_url : Text → Option ParsedUrl
  pub lower : Text → Text
  pub platform : Platform

-- `s or None` and the truth of an optional text
abbrev pub given : Option Text → Option Text
given none = none
given (some []) = none
given (some (c ∷ s)) = some (c ∷ s)

-- `s.lstrip(chars)`
unfoldable pub strip_left : (ℕ → Bool) → Text → Text
strip_left p [] = []
strip_left p (c ∷ s) = let rest = strip_left p s in if p c then rest else c ∷ s

abbrev right_cons : (ℕ → Bool) → ℕ → Text → Text
right_cons p c [] = if p c then [] else c ∷ []
right_cons p c (d ∷ s) = c ∷ d ∷ s

-- `s.rstrip(chars)`
unfoldable pub strip_right : (ℕ → Bool) → Text → Text
strip_right p [] = []
strip_right p (c ∷ s) = right_cons p c (strip_right p s)

-- `s.strip(chars)`
unfoldable pub strip : (ℕ → Bool) → Text → Text
unfolding strip_left strip_right
strip p s = strip_right p (strip_left p s)

abbrev is_bracket : ℕ → Bool
is_bracket c = c == b'[' || c == b']'

module _ (u : UrlLib) where
  abbrev host_of : ParsedUrl → Option Text
  host_of url = elim (given url.scheme) [
    | none ↦ none
    | some scheme ↦ elim (given url.host) [
      | none ↦ none
      | some host ↦ given (some (u.lower (strip_right (λ c. c == b'.') (strip is_bracket host))))
    ]
  ]

  unfoldable pub url_host : Text → Option Text
  unfolding strip
  url_host url = elim (u.parse_url url) [ none ↦ none | some parsed ↦ host_of parsed ]

  unfoldable pub is_loopback_url : Text → Bool
  unfolding url_host text_eq
  is_loopback_url url = elim (url_host url) [
    | none ↦ false
    | some host ↦
        if text_eq host (codes "localhost") then true else or_false (u.platform.ip_loopback host)
  ]

  unfoldable pub is_https_url : Text → Bool
  unfolding text_eq
  is_https_url url = elim (u.parse_url url) [
    | none ↦ false
    | some parsed ↦ elim parsed.scheme [
      | none ↦ false
      | some scheme ↦ text_eq (u.lower scheme) (codes "https")
    ]
  ]
