-- ===== src/Game/Leaderboard/Ranking.antt =====
-- What the sort and the stamping of ranks do.
use mathlib.Core.List.{Perm}
use mathlib.Core.List.Perm
use topbanana.Base.{
  ℕ, zero, suc, ◌+◌, ◌<◌, ◌≡◌, refl, ap, ◌∙◌, inl, inr, Bool, true, false, some, List, [], ◌∷◌,
  arith, Text, ◌==◌, Bool-cases, length, get_elem?, take, find, In,
}
use topbanana.Game.Leaderboard.{
  LeaderboardEntry, text_le, precedes, insert_entry, sort_entries, stamp_ranks,
}

text_le_total : (a b : Text) → text_le a b ≡ false → text_le b a ≡ true
unfolding text_le
text_le_total [] b h = cc
text_le_total (x ∷ a) [] h = refl
text_le_total (x ∷ a) (y ∷ b) h = ground (arith, text_le_total a b)

precedes_total : (a b : LeaderboardEntry) → precedes a b ≡ false → precedes b a ≡ true
unfolding precedes
precedes_total a b h = ground (arith, text_le_total a.display_name b.display_name)

-- Each entry may stand before the next.
abbrev pub IsRanked : List LeaderboardEntry → Type 0
IsRanked [] = Unit {0}
IsRanked (x ∷ []) = Unit {0}
IsRanked (x ∷ y ∷ r) = (precedes x y ≡ true) × IsRanked (y ∷ r)

insert_entry-IsRanked :
    (e : LeaderboardEntry) (es : List LeaderboardEntry) → IsRanked es → IsRanked (insert_entry e es)
unfolding insert_entry
insert_entry-IsRanked e [] h = tt
insert_entry-IsRanked e (x ∷ []) h = ground (arith, precedes_total e x)
insert_entry-IsRanked e (x ∷ y ∷ r) h =
    ground (arith, precedes_total e x, precedes_total e y, insert_entry-IsRanked e (y ∷ r) h.1)

pub sort_entries-IsRanked : (es : List LeaderboardEntry) → IsRanked (sort_entries es)
unfolding sort_entries
sort_entries-IsRanked [] = tt
sort_entries-IsRanked (e ∷ es) =
    insert_entry-IsRanked e (sort_entries es) (sort_entries-IsRanked es)

insert_entry-perm :
    (e : LeaderboardEntry) (es : List LeaderboardEntry) → Perm (insert_entry e es) (e ∷ es)
unfolding insert_entry
insert_entry-perm e [] = Perm.refl _
insert_entry-perm e (x ∷ xs) = elim (Bool-cases (precedes e x)) [
  | inl p ↦ rw p (Perm.refl _)
  | inr p ↦ rw p (Perm.trans (Perm.cons x (insert_entry-perm e xs)) (Perm.swap e x xs))
]

pub sort_entries-perm : (es : List LeaderboardEntry) → Perm (sort_entries es) es
unfolding sort_entries
sort_entries-perm [] = Perm.refl _
sort_entries-perm (e ∷ es) =
    Perm.trans (insert_entry-perm e (sort_entries es)) (Perm.cons e (sort_entries-perm es))

pub stamp_ranks-IsRanked :
    (i : ℕ) (es : List LeaderboardEntry) → IsRanked es → IsRanked (stamp_ranks i es)
unfolding stamp_ranks precedes
stamp_ranks-IsRanked i [] h = tt
stamp_ranks-IsRanked i (x ∷ []) h = tt
stamp_ranks-IsRanked i (x ∷ y ∷ r) h = (h.0, stamp_ranks-IsRanked (i + 1) (y ∷ r) h.1)

pub take-IsRanked : (n : ℕ) (es : List LeaderboardEntry) → IsRanked es → IsRanked (take n es)
take-IsRanked zero es h = tt
take-IsRanked (suc n) [] h = tt
take-IsRanked (suc zero) (x ∷ []) h = tt
take-IsRanked (suc (suc n)) (x ∷ []) h = tt
take-IsRanked (suc zero) (x ∷ y ∷ r) h = tt
take-IsRanked (suc (suc n)) (x ∷ y ∷ r) h = (h.0, take-IsRanked (suc n) (y ∷ r) h.1)

pub stamp_ranks_at :
    (i n : ℕ) (es : List LeaderboardEntry) (e : LeaderboardEntry)
    → get_elem? (stamp_ranks i es) n ≡ some e
    → e.rank ≡ i + n + 1
unfolding stamp_ranks
stamp_ranks_at i n [] e h = cc
stamp_ranks_at i zero (x ∷ es) e h = ground arith
stamp_ranks_at i (suc n) (x ∷ es) e h = omega (arith, stamp_ranks_at (i + 1) n es e h)

-- What a search finds stands at its rank.
pub find-stamp_ranks :
    (p : LeaderboardEntry → Bool) (i : ℕ) (es : List LeaderboardEntry) (e : LeaderboardEntry)
    → find p (stamp_ranks i es) ≡ some e
    → (n : ℕ) × (get_elem? (stamp_ranks i es) n ≡ some e) × (n < length es) × (e.rank ≡ i + n + 1)
unfolding stamp_ranks
find-stamp_ranks p i [] e h = cc
find-stamp_ranks p i (x ∷ es) e h = elim (Bool-cases (p (record x { rank = i + 1 }))) [
  | inl q ↦ (0, ground arith, omega arith, ground arith)
  | inr q ↦
      let (n, g, l, r) = find-stamp_ranks p (i + 1) es e (ground arith) in
      (suc n, g, omega arith, omega arith)
]

pub length-stamp_ranks :
    (i : ℕ) (es : List LeaderboardEntry) → length (stamp_ranks i es) ≡ length es
unfolding stamp_ranks
length-stamp_ranks i [] = refl
length-stamp_ranks i (x ∷ es) = ap suc (length-stamp_ranks (i + 1) es)

length-insert_entry :
    (e : LeaderboardEntry) (es : List LeaderboardEntry)
    → length (insert_entry e es) ≡ suc (length es)
unfolding insert_entry
length-insert_entry e [] = refl
length-insert_entry e (x ∷ xs) = ground (arith, length-insert_entry e xs)

pub length-sort_entries : (es : List LeaderboardEntry) → length (sort_entries es) ≡ length es
unfolding sort_entries
length-sort_entries [] = refl
length-sort_entries (e ∷ es) =
    length-insert_entry e (sort_entries es) ∙ ap suc (length-sort_entries es)

insert_entry-In :
    (a e : LeaderboardEntry) (es : List LeaderboardEntry) → In a (e ∷ es) → In a (insert_entry e es)
unfolding insert_entry
insert_entry-In a e [] h = h
insert_entry-In a e (x ∷ xs) (inl q) = elim (Bool-cases (precedes e x)) [
  | inl p ↦ rw p (inl q)
  | inr p ↦ rw p (inr (insert_entry-In a e xs (inl q)))
]
insert_entry-In a e (x ∷ xs) (inr (inl q)) = elim (Bool-cases (precedes e x)) [
  | inl p ↦ rw p (inr (inl q))
  | inr p ↦ rw p (inl q)
]
insert_entry-In a e (x ∷ xs) (inr (inr m)) = elim (Bool-cases (precedes e x)) [
  | inl p ↦ rw p (inr (inr m))
  | inr p ↦ rw p (inr (insert_entry-In a e xs (inr m)))
]

pub sort_entries-In :
    (a : LeaderboardEntry) (es : List LeaderboardEntry) → In a es → In a (sort_entries es)
unfolding sort_entries
sort_entries-In a [] h = h
sort_entries-In a (e ∷ es) (inl q) = insert_entry-In a e (sort_entries es) (inl q)
sort_entries-In a (e ∷ es) (inr m) =
    insert_entry-In a e (sort_entries es) (inr (sort_entries-In a es m))

-- Who is in the list is found after the ranks are stamped.
pub stamp_ranks-found :
    (k i : ℕ) (a : LeaderboardEntry) (es : List LeaderboardEntry)
    → In a es
    → a.player_id ≡ k
    → (e : LeaderboardEntry) × (find (λ x. x.player_id == k) (stamp_ranks i es) ≡ some e)
unfolding stamp_ranks
stamp_ranks-found k i a [] m h = absurd m
stamp_ranks-found k i a (x ∷ es) (inl s) h = (record x { rank = i + 1 }, ground arith)
stamp_ranks-found k i a (x ∷ es) (inr m) h = elim (Bool-cases (x.player_id == k)) [
  | inl q ↦ (record x { rank = i + 1 }, ground arith)
  | inr q ↦ let (e, f) = stamp_ranks-found k (i + 1) a es m h in (e, ground arith)
]
