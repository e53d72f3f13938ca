-- ===== src/Request/Unforged.antt =====
-- What a client writes into X-Forwarded-For cannot choose its address.
use topbanana.Archive.Export.Faithful.{some-inj}
use topbanana.Request.{
  trim_right, trim_left, host_of, client_ip, walk_back, ip_in_cidrs, Net, trim_space, is_blank,
  comma, split_commas, split_xff,
}
use topbanana.Base.{
  ℕ, ◌≡◌, refl, sym, ap, subst, ◌∙◌, inl, inr, Bool, true, false, not, none, some, List, [], ◌∷◌,
  ◌++◌, map, ◌==◌, Bool-cases, Option-cases, keep, or_else, In,
}

split_commas-cons : (s : List ℕ) → (p : List ℕ) × (ps : List (List ℕ)) × (split_commas s ≡ p ∷ ps)
unfolding split_commas
split_commas-cons [] = ([], [], refl)
split_commas-cons (c ∷ s) =
    let (p, ps, e) = split_commas-cons s in
    elim (Bool-cases (c == comma)) [
      | inl h ↦ rw h ([], split_commas s, refl)
      | inr h ↦ rw (h, e) (c ∷ p, ps, refl)
    ]

split_commas-append :
    (a b : List ℕ) → split_commas (a ++ comma ∷ b) ≡ split_commas a ++ split_commas b
unfolding split_commas
split_commas-append [] b = refl
split_commas-append (c ∷ a) b =
    let (p, ps, e) = split_commas-cons a in
    elim (Bool-cases (c == comma)) [
      | inl h ↦ rw h (ap (◌∷◌ []) (split_commas-append a b))
      | inr h ↦ rw (h, split_commas-append a b, e) refl
    ]

keep-append :
    {A : Type 0} (p : A → Bool) (xs ys : List A) → keep p (xs ++ ys) ≡ keep p xs ++ keep p ys
keep-append p [] ys = refl
keep-append p (x ∷ xs) ys = elim (Bool-cases (p x)) [
  | inl h ↦ rw h (ap (◌∷◌ x) (keep-append p xs ys))
  | inr h ↦ rw h (keep-append p xs ys)
]

map-append : {A B : Type 0} (f : A → B) (xs ys : List A) → map f (xs ++ ys) ≡ map f xs ++ map f ys
map-append f [] ys = refl
map-append f (x ∷ xs) ys = ap (◌∷◌ (f x)) (map-append f xs ys)

split_xff-append : (a b : List ℕ) → split_xff (a ++ comma ∷ b) ≡ split_xff a ++ split_xff b
unfolding split_xff
split_xff-append a b =
    ap (λ ps. keep (λ p. not (is_blank p)) (map trim_space ps)) (split_commas-append a b)
    ∙ ap (keep (λ p. not (is_blank p))) (map-append trim_space (split_commas a) (split_commas b))
    ∙ keep-append (λ p. not (is_blank p)) (map trim_space (split_commas a))
        (map trim_space (split_commas b))

is_blank-append : (a b : List ℕ) → is_blank (a ++ comma ∷ b) ≡ false
is_blank-append [] b = refl
is_blank-append (c ∷ a) b = refl

none_trusted : {Ip Cidr : Type 0} (net : Net Ip Cidr) (ip : List ℕ) → ip_in_cidrs net ip [] ≡ false
unfolding ip_in_cidrs
none_trusted net ip = elim (Option-cases (net.parse_ip ip)) [
  | inl e ↦ rw (e, ip_in_cidrs) refl
  | inr (a, e) ↦ rw (e, ip_in_cidrs) refl
]

trusted-is_blank :
    {Ip Cidr : Type 0} (net : Net Ip Cidr) (ip : List ℕ) (cidrs : List Cidr)
    → ip_in_cidrs net ip cidrs ≡ true
    → is_blank cidrs ≡ false
trusted-is_blank net ip [] h = let n = none_trusted net ip in cc
trusted-is_blank net ip (c ∷ cidrs) h = refl

hop-is_blank : (chain hop : List ℕ) → In hop (split_xff chain) → is_blank chain ≡ false
unfolding split_xff split_commas trim_space trim_left trim_right
hop-is_blank [] hop m = absurd m
hop-is_blank (c ∷ chain) hop m = refl

module _ {Ip Cidr : Type 0} (net : Net Ip Cidr) (cidrs : List Cidr) where
  walk_back-append :
      (xs ys : List (List ℕ))
      → walk_back net (xs ++ ys) cidrs ≡ or_else (walk_back net ys cidrs) (walk_back net xs cidrs)
  unfolding walk_back
  walk_back-append [] ys = elim (Option-cases (walk_back net ys cidrs)) [
    | inl e ↦ rw e refl
    | inr (v, e) ↦ rw e refl
  ]
  walk_back-append (x ∷ xs) ys =
      rw (walk_back-append xs ys) (elim (Option-cases (walk_back net ys cidrs)) [
        | inl e ↦ rw e refl
        | inr (v, e) ↦ rw e refl
      ])

  walk_back-In :
      (vs : List (List ℕ)) (v : List ℕ)
      → walk_back net vs cidrs ≡ some v
      → In v vs × (ip_in_cidrs net v cidrs ≡ false)
  unfolding walk_back
  walk_back-In [] v h = cc
  walk_back-In (x ∷ vs) v h = elim (Option-cases (walk_back net vs cidrs)) [
    | inr (w, e) ↦
        let same : walk_back net vs cidrs ≡ some v = cc in
        let (m, out) = walk_back-In vs v same in (inr m, out)
    | inl e ↦ elim (Bool-cases (ip_in_cidrs net x cidrs)) [
      | inl k ↦
          let nothing : walk_back net (x ∷ vs) cidrs ≡ none = rw (e, k) refl in
          let no_entry = sym nothing ∙ h in cc
      | inr k ↦
          let it : walk_back net (x ∷ vs) cidrs ≡ some x = rw (e, k) refl in
          let same : v ≡ x = some-inj (sym h ∙ it) in
          (inl same, subst (λ (y : List ℕ). ip_in_cidrs net y cidrs ≡ false) (sym same) k)
    ]
  ]

  -- The walk stops somewhere if there is an entry outside the ranges.
  walk_back_outside :
      (vs : List (List ℕ)) (u : List ℕ)
      → In u vs
      → ip_in_cidrs net u cidrs ≡ false
      → (v : List ℕ) × (walk_back net vs cidrs ≡ some v)
  unfolding walk_back
  walk_back_outside [] u m h = absurd m
  walk_back_outside (x ∷ vs) u (inr m) h = let (v, e) = walk_back_outside vs u m h in (v, rw e refl)
  walk_back_outside (x ∷ vs) u (inl y) h = elim (Option-cases (walk_back net vs cidrs)) [
    | inr (v, e) ↦ (v, rw e refl)
    | inl e ↦
        let out : ip_in_cidrs net x cidrs ≡ false =
          subst (λ (z : List ℕ). ip_in_cidrs net z cidrs ≡ false) y h in
        (x, rw (e, out) refl)
  ]

  walk_back-is_blank :
      (vs : List (List ℕ)) (v : List ℕ) → walk_back net vs cidrs ≡ some v → is_blank vs ≡ false
  unfolding walk_back
  walk_back-is_blank [] v h = cc
  walk_back-is_blank (x ∷ vs) v h = refl

  client_ip_walked :
      (remote_addr xff v : List ℕ)
      → ip_in_cidrs net (host_of net remote_addr) cidrs ≡ true
      → is_blank xff ≡ false
      → walk_back net (split_xff xff) cidrs ≡ some v
      → client_ip net remote_addr xff cidrs ≡ v
  unfolding client_ip
  client_ip_walked remote_addr xff v h b e =
      rw
        (
          trusted-is_blank net (host_of net remote_addr) cidrs h,
          h,
          b,
          walk_back-is_blank (split_xff xff) v e,
          e,
        )
        refl

  -- A client cannot choose the address that it is counted under. When the peer is a trusted proxy and the
  -- chain of hops that the proxies appended has an entry outside the trusted ranges, the address is an
  -- entry of that chain outside the ranges, and no text in front of the chain changes it.
  pub client_ip_unforged :
      (remote_addr forged chain hop : List ℕ)
      → ip_in_cidrs net (host_of net remote_addr) cidrs ≡ true
      → In hop (split_xff chain)
      → ip_in_cidrs net hop cidrs ≡ false
      → (client_ip net remote_addr (forged ++ comma ∷ chain) cidrs
          ≡ client_ip net remote_addr chain cidrs)
        × In (client_ip net remote_addr chain cidrs) (split_xff chain)
        × (ip_in_cidrs net (client_ip net remote_addr chain cidrs) cidrs ≡ false)
  client_ip_unforged remote_addr forged chain hop h m out =
      let (v, e) = walk_back_outside (split_xff chain) hop m out in
      let (k, g) = walk_back-In (split_xff chain) v e in
      let alone = client_ip_walked remote_addr chain v h (hop-is_blank chain hop m) e in
      let behind =
        client_ip_walked remote_addr (forged ++ comma ∷ chain) v h (is_blank-append forged chain) (
          ap (λ vs. walk_back net vs cidrs) (split_xff-append forged chain)
          ∙ walk_back-append (split_xff forged) (split_xff chain)
          ∙ rw e refl) in
      (
        behind ∙ sym alone,
        subst (λ (x : List ℕ). In x (split_xff chain)) (sym alone) k,
        subst (λ (x : List ℕ). ip_in_cidrs net x cidrs ≡ false) (sym alone) g,
      )
