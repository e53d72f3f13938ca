-- ===== src/Examples/RequestExamples.antt =====
-- A request through two proxies, with a forged entry in front.
use topbanana.Request.Unforged.{client_ip_unforged}
use topbanana.Request.{
  client_ip, host_of, ip_in_cidrs, is_space, trim_right, trim_left, trim_space, split_commas,
  parse_parts, Net, parse_trusted_proxy_cidrs, split_xff,
}
use topbanana.Base.{ℕ, ◌≡◌, refl, inl, false, Option, none, some, List, [], ◌∷◌, ◌==◌, In}

-- An address is one letter, a range holds one address, and no host has a port.
abbrev letter : List ℕ → Option ℕ
letter [] = none
letter (c ∷ []) = some c
letter (c ∷ d ∷ s) = none

abbrev net : Net ℕ ℕ
net = record {
  split_host_port = λ s. none;
  parse_ip = letter;
  parse_cidr = letter;
  contains = λ c ip. c == ip;
}

-- The client U reached the proxy Q, which the proxy P forwarded for: "U, Q".
abbrev chain : List ℕ
chain = 85 ∷ 44 ∷ 32 ∷ 81 ∷ []

abbrev proxies : List ℕ
proxies = 80 ∷ 81 ∷ []

-- " P,,Q " as a list of ranges.
parsed_proxies : parse_trusted_proxy_cidrs net (32 ∷ 80 ∷ 44 ∷ 44 ∷ 81 ∷ 32 ∷ []) ≡ some proxies
unfolding parse_trusted_proxy_cidrs parse_parts split_commas trim_space trim_left trim_right
    is_space
parsed_proxies = refl

client_ip_unforged_example :
    (client_ip net (80 ∷ []) (70 ∷ 44 ∷ chain) proxies ≡ client_ip net (80 ∷ []) chain proxies)
    × In (client_ip net (80 ∷ []) chain proxies) (split_xff chain)
    × (ip_in_cidrs net (client_ip net (80 ∷ []) chain proxies) proxies ≡ false)
unfolding split_xff split_commas trim_space trim_left trim_right is_space ip_in_cidrs host_of
client_ip_unforged_example =
    client_ip_unforged net proxies (80 ∷ []) (70 ∷ []) chain (85 ∷ []) refl (inl refl) refl
