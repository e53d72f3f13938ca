-- ===== src/Game/Leaderboard/Standings.antt =====
-- The board is sorted, ranked without gaps and complete up to the limit, and the player who asks finds
-- the own standing also below the limit.
use mathlib.Core.List.{Perm}
use mathlib.Core.List.Perm
use topbanana.Base.{
  ℕ, suc, ◌+◌, ◌-◌, ◌≤◌, ◌<◌, min, ◌≡◌, refl, ap, ◌∙◌, inl, inr, some, List, [], ◌∷◌, map, arith,
  ltb, ◌==◌, if◌then◌else◌, ==_iff, Bool-cases, length, get_elem?, take, find, length-take,
  find-test, get_elem?-take, take-get_elem?, take_all, In,
}
use topbanana.Game.Scoring.{Float64}
use topbanana.Game.Leaderboard.{
  entry_of, LeaderboardParticipant, LeaderboardAnswer, LeaderboardEntry, LeaderboardResult,
  leaderboard_entries, sort_entries, stamp_ranks, finalize_leaderboard_in_place, player_totals,
  quiz_leaderboard, default_leaderboard_limit,
}
use topbanana.Game.Leaderboard.Ranking.{
  find-stamp_ranks, sort_entries-IsRanked, length-sort_entries, sort_entries-In,
  stamp_ranks-IsRanked, stamp_ranks_at, take-IsRanked, IsRanked, length-stamp_ranks,
  stamp_ranks-found, sort_entries-perm,
}

-- The limit that is in force.
abbrev pub effective : ℕ → ℕ
effective limit = if limit == 0 then default_leaderboard_limit else limit

abbrev ids : List LeaderboardEntry → List ℕ
ids = map (λ e. e.player_id)

abbrev participant_ids : List LeaderboardParticipant → List ℕ
participant_ids = map (λ p. p.player_id)

ids-entries :
    (ps : List LeaderboardParticipant) (t : ℕ → ℕ) (current : ℕ)
    → ids (leaderboard_entries ps t current) ≡ participant_ids ps
unfolding leaderboard_entries
ids-entries [] t current = refl
ids-entries (p ∷ ps) t current = ap (◌∷◌ p.player_id) (ids-entries ps t current)

length-entries :
    (ps : List LeaderboardParticipant) (t : ℕ → ℕ) (current : ℕ)
    → length (leaderboard_entries ps t current) ≡ length ps
unfolding leaderboard_entries
length-entries [] t current = refl
length-entries (p ∷ ps) t current = ap suc (length-entries ps t current)

entries-In :
    (ps : List LeaderboardParticipant) (t : ℕ → ℕ) (current : ℕ) (p : LeaderboardParticipant)
    → In p ps
    → In (entry_of t current p) (leaderboard_entries ps t current)
unfolding leaderboard_entries
entries-In [] t current p m = m
entries-In (x ∷ ps) t current p (inl e) = inl (ap (entry_of t current) e)
entries-In (x ∷ ps) t current p (inr m) = inr (entries-In ps t current p m)

ids-stamp_ranks : (i : ℕ) (es : List LeaderboardEntry) → ids (stamp_ranks i es) ≡ ids es
unfolding stamp_ranks
ids-stamp_ranks i [] = refl
ids-stamp_ranks i (e ∷ es) = ap (◌∷◌ e.player_id) (ids-stamp_ranks (i + 1) es)

module _ (fl : Float64) (ps : List LeaderboardParticipant) (rows : List LeaderboardAnswer)
    (current limit : ℕ) where
  -- The whole ordering, before the board is cut.
  ranked : List LeaderboardEntry
  ranked =
      stamp_ranks 0 (sort_entries (leaderboard_entries ps (player_totals fl (λ k. 0) rows) current))

  board : LeaderboardResult
  board = quiz_leaderboard fl ps rows current limit

  entries-take : board.entries ≡ take (effective limit) ranked
  unfolding board ranked quiz_leaderboard finalize_leaderboard_in_place
  entries-take = elim (Bool-cases (ltb (effective limit) (length ranked))) [
    | inl e ↦ ground arith
    | inr e ↦ ground (arith, take_all (effective limit) ranked)
  ]

  ids-ranked : Perm (ids ranked) (participant_ids ps)
  unfolding ranked
  ids-ranked =
      rw
        (
          ids-stamp_ranks 0
              (sort_entries (leaderboard_entries ps (player_totals fl (λ k. 0) rows) current)),
          ← ids-entries ps (player_totals fl (λ k. 0) rows) current,
        )
        (Perm.map _
          (sort_entries-perm (leaderboard_entries ps (player_totals fl (λ k. 0) rows) current)))

  ranked-IsRanked : IsRanked ranked
  unfolding ranked
  ranked-IsRanked = stamp_ranks-IsRanked 0 _ (sort_entries-IsRanked _)

  length-ranked : length ranked ≡ length ps
  unfolding ranked
  length-ranked =
      length-stamp_ranks 0 _
      ∙ length-sort_entries _
      ∙ length-entries ps (player_totals fl (λ k. 0) rows) current

  pub record Standings (b : LeaderboardResult) : Type 0 where
    pub in_order : IsRanked b.entries
    pub without_gaps :
        (n : ℕ) (e : LeaderboardEntry) → get_elem? b.entries n ≡ some e → e.rank ≡ n + 1
    pub size : length b.entries ≡ min (effective limit) (length ps)

  -- A board is in order, by score downwards and then by name, the entry at index n has rank n + 1, and it
  -- has as many entries as there are participants, up to the limit in force.
  pub quiz_leaderboard-Standings : Standings (quiz_leaderboard fl ps rows current limit)
  unfolding board ranked
  quiz_leaderboard-Standings = record {
    in_order = rw entries-take (take-IsRanked (effective limit) ranked ranked-IsRanked);
    without_gaps = λ n e h. omega (
      arith,
      stamp_ranks_at 0 n _ e (get_elem?-take (effective limit) n ranked e (rw entries-take at h)),
    );
    size =
        rw entries-take
          (length-take (effective limit) ranked ∙ ap (min (effective limit)) length-ranked);
  }

  -- A board whose limit is not exceeded shows every participant once, and nobody else.
  pub quiz_leaderboard_complete :
      length ps ≤ effective limit
      → Perm
          (map (λ e. e.player_id) (quiz_leaderboard fl ps rows current limit).entries)
          (map (λ p. p.player_id) ps)
  unfolding board
  quiz_leaderboard_complete h =
      rw (entries-take, take_all (effective limit) ranked (omega (arith, length-ranked))) ids-ranked

  ranked_at :
      (e : LeaderboardEntry)
      → find (λ x. x.player_id == current) ranked ≡ some e
      → (n : ℕ) × (get_elem? ranked n ≡ some e) × (n < length ps) × (e.rank ≡ n + 1)
  unfolding ranked
  ranked_at e f =
      let (n, g, l, r) = find-stamp_ranks (λ x. x.player_id == current) 0 _ e f in
      (
        n,
        g,
        omega (
          arith,
          length-ranked,
          length-stamp_ranks 0
              (sort_entries (leaderboard_entries ps (player_totals fl (λ k. 0) rows) current)),
        ),
        omega arith,
      )

  ranked_found :
      (p : LeaderboardParticipant)
      → In p ps
      → p.player_id ≡ current
      → (e : LeaderboardEntry) × (find (λ x. x.player_id == current) ranked ≡ some e)
  unfolding ranked
  ranked_found p m q =
      stamp_ranks-found current 0 (entry_of (player_totals fl (λ k. 0) rows) current p) _
        (sort_entries-In _ _ (entries-In ps (player_totals fl (λ k. 0) rows) current p m)) q

  current-find : 0 < current → board.current_player ≡ find (λ x. x.player_id == current) ranked
  unfolding board ranked quiz_leaderboard finalize_leaderboard_in_place
  current-find h = ground arith

  -- A participant with an id above 0 who asks gets the own entry: its rank is the place in the whole ordering, and if that
  -- is within the limit the entry stands on the board at that rank.
  pub current_player_found :
      (p : LeaderboardParticipant)
      → In p ps
      → p.player_id ≡ current
      → 0 < current
      → (e : LeaderboardEntry) × ((quiz_leaderboard fl ps rows current limit).current_player
          ≡ some e)
        × (e.player_id ≡ current)
        × (1 ≤ e.rank)
        × (e.rank ≤ length ps)
        × (e.rank ≤ effective limit
            → get_elem? (quiz_leaderboard fl ps rows current limit).entries (e.rank - 1) ≡ some e)
  unfolding board
  current_player_found p m q h = place (ranked_found p m q)
    where
      place :
          (e : LeaderboardEntry) × (find (λ x. x.player_id == current) ranked ≡ some e)
          → (e : LeaderboardEntry) × (board.current_player ≡ some e)
            × (e.player_id ≡ current)
            × (1 ≤ e.rank)
            × (e.rank ≤ length ps)
            × (e.rank ≤ effective limit → get_elem? board.entries (e.rank - 1) ≡ some e)
      place (e, f) =
          let (n, g, l, r) = ranked_at e f in
          let there : e.rank - 1 ≡ n = omega arith in
          (
            e,
            current-find h ∙ f,
            (==_iff e.player_id current).0 (find-test _ ranked e f),
            omega arith,
            omega arith,
            λ k.
                rw (there, entries-take)
                  (take-get_elem? (effective limit) n ranked (omega arith) ∙ g),
          )
