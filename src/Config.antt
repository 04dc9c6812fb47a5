-- ===== src/Config.antt =====
-- internal/config/config.go: a group of routing rules, and how its domain patterns match a host.
-- `strings.ToLower` is the field `lower` of `Platform`.
pub mod Wildcard
use split_wire.Prelude.{
  Bool, List, [], drop, false, if◌then◌else◌, length, not, true, ◌&&◌, ◌==◌, ◌||◌, ◌∷◌,
}
use split_wire.Text.{
  trim_dot, trim_space, text_eq, has_prefix, has_suffix, is_empty, Platform, Text,
}
use split_wire.Ip.{Prefix}

pub record Group : Type 0 where
  pub name : Text
  pub apps : List Text
  pub domains : List Text
  pub networks : List Prefix

abbrev star : Text
star = b'*' ∷ []

-- `len(g.Domains) == 1 && g.Domains[0] == "*"`.
abbrev pub domains_all : Group → Bool
domains_all g = elim g.domains [ [] ↦ false | p ∷ rest ↦ (length rest == 0) && text_eq p star ]

-- `len(g.Apps) == 1 && g.Apps[0] == "*"`.
abbrev pub apps_all : Group → Bool
apps_all g = elim g.apps [ [] ↦ false | p ∷ rest ↦ (length rest == 0) && text_eq p star ]

-- `strings.ToLower(strings.TrimSuffix(strings.TrimSpace(s), "."))`.
unfoldable pub normalize_name : Platform → Text → Text
normalize_name os s = os.lower (trim_dot (trim_space s))

-- Both sides normalized.
unfoldable pub match_normalized : Text → Text → Bool
match_normalized p h =
    if text_eq p star then not (is_empty h) else elim (has_prefix (b'*' ∷ b'.' ∷ []) p) [
      | true ↦ not (text_eq h (drop 2 p)) && has_suffix (drop 1 p) h
      | false ↦ text_eq h p
    ]

abbrev pub match_domain_pattern : Platform → Text → Text → Bool
match_domain_pattern os pattern host =
    match_normalized (normalize_name os pattern) (normalize_name os host)

unfoldable pub matches_any : Platform → List Text → Text → Bool
matches_any os [] host = false
matches_any os (p ∷ rest) host = match_domain_pattern os p host || matches_any os rest host

abbrev pub matches_domain : Platform → Group → Text → Bool
matches_domain os g host = matches_any os g.domains host
