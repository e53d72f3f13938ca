-- ===== src/Request.antt =====
-- The source address of a request, internal/request/clientip.go. Texts are lists of code points. Parsing an
-- address, a range and a host with a port, and the test of a range, are an interface to Go's package net.
pub mod Unforged
use topbanana.Base.{
  ℕ, Bool, true, false, not, ◌&&◌, ◌||◌, Option, none, some, List, [], ◌∷◌, map, leb, ◌==◌,
  if◌then◌else◌, keep, any, or_else,
}

pub record Net (Ip Cidr : Type 0) : Type 0 where
  pub split_host_port : List ℕ → Option (List ℕ)
  pub parse_ip : List ℕ → Option Ip
  pub parse_cidr : List ℕ → Option Cidr
  pub contains : Cidr → Ip → Bool

abbrev pub comma : ℕ
comma = 44

abbrev pub is_blank {ℓ} : {A : Type ℓ} → List A → Bool
is_blank [] = true
is_blank (x ∷ xs) = false

-- `unicode.IsSpace`.
unfoldable pub is_space : ℕ → Bool
is_space c =
    (leb 9 c && leb c 13)
    || (c == 32)
    || (c == 133)
    || (c == 160)
    || (c == 5760)
    || (leb 8192 c && leb c 8202)
    || (c == 8232)
    || (c == 8233)
    || (c == 8239)
    || (c == 8287)
    || (c == 12288)

-- `strings.TrimSpace`.
unfoldable pub trim_left : List ℕ → List ℕ
unfolding is_space
trim_left [] = []
trim_left (c ∷ s) = let rest = trim_left s in if is_space c then rest else c ∷ s

unfoldable pub trim_right : List ℕ → List ℕ
unfolding is_space
trim_right [] = []
trim_right (c ∷ s) = let rest = trim_right s in if is_blank rest && is_space c then [] else c ∷ rest

unfoldable pub trim_space : List ℕ → List ℕ
unfolding trim_left trim_right
trim_space s = trim_right (trim_left s)

-- `strings.Split(raw, ",")`.
abbrev pub onto_first : ℕ → List (List ℕ) → List (List ℕ)
onto_first c [] = (c ∷ []) ∷ []
onto_first c (p ∷ ps) = (c ∷ p) ∷ ps

unfoldable pub split_commas : List ℕ → List (List ℕ)
split_commas [] = [] ∷ []
split_commas (c ∷ s) =
    let rest = split_commas s in if c == comma then [] ∷ rest else onto_first c rest

unfoldable pub split_xff : List ℕ → List (List ℕ)
unfolding split_commas trim_space
split_xff raw = keep (λ p. not (is_blank p)) (map trim_space (split_commas raw))

module _ {Ip Cidr : Type 0} (net : Net Ip Cidr) where
  unfoldable pub ip_in_cidrs : List ℕ → List Cidr → Bool
  ip_in_cidrs ip cidrs = elim (net.parse_ip ip) [
    | none ↦ false
    | some parsed ↦ any (λ c. net.contains c parsed) cidrs
  ]

  unfoldable pub parse_parts : List (List ℕ) → Option (List Cidr)
  parse_parts [] = some []
  parse_parts (p ∷ ps) =
      let rest = parse_parts ps in
      let trimmed = trim_space p in
      if is_blank trimmed then rest else elim (net.parse_cidr trimmed) [
        | none ↦ none
        | some cidr ↦ elim rest [ none ↦ none | some out ↦ some (cidr ∷ out) ]
      ]

  -- none is the error; nil and an empty slice are both the empty list.
  unfoldable pub parse_trusted_proxy_cidrs : List ℕ → Option (List Cidr)
  unfolding parse_parts
  parse_trusted_proxy_cidrs raw = if is_blank raw then some [] else parse_parts (split_commas raw)

  -- The walk from the right: the last entry outside the ranges.
  unfoldable pub walk_back : List (List ℕ) → List Cidr → Option (List ℕ)
  unfolding ip_in_cidrs
  walk_back [] cidrs = none
  walk_back (v ∷ vs) cidrs =
      or_else (walk_back vs cidrs) (if not (ip_in_cidrs v cidrs) then some v else none)

  unfoldable pub host_of : List ℕ → List ℕ
  host_of remote_addr = elim (net.split_host_port remote_addr) [
    | none ↦ remote_addr
    | some host ↦ host
  ]

  unfoldable pub client_ip : List ℕ → List ℕ → List Cidr → List ℕ
  unfolding split_xff walk_back host_of
  client_ip remote_addr xff cidrs =
      let host = host_of remote_addr in
      let entries = split_xff xff in
      if is_blank cidrs
      then host
      else if not (ip_in_cidrs host cidrs)
      then host
      else if is_blank xff
      then host
      else if is_blank entries
      then host
      else elim (walk_back entries cidrs) [ none ↦ host | some v ↦ v ]
