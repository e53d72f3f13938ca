-- ===== src/Archive/Import/RoundTrip/Archived.antt =====
-- The import of an exported quiz: it is accepted, and it is a copy.
use topbanana.Archive.Export.Built.{build_rounds}
use Prim.Native.String.{String}
use topbanana.Archive.Import.Positions.{fill_rounds-IsFilled, all_questions}
use topbanana.Archive.Import.RoundTrip.{
  plan_questions-copy, copy_plan, copy_questions, fill_questions-copy, copy_rounds, play_order,
  AllExported-length,
}
use topbanana.Archive.Export.Faithful.{AllRoundsExported, RoundExported, AllExported}
use text.Mathlib.Text.{◌==◌ as str_eq}
use topbanana.Archive.{Manifest, ok, ArchiveRound, ArchiveQuestion}
use topbanana.Quiz.{Quiz, Round, Question}
use topbanana.Archive.Export.{
  build, manifest_head, is_flat_quiz, MediaArchiver, time_limit_ptr, in_round, Cache,
}
use topbanana.Archive.Import.{
  quiz_from_archive_manifest, Built, quiz_head, default_time_limit_seconds, or_default_limit,
  Filled, round_from_archive, add_round, fill_rounds, round_error,
}
use topbanana.Base.{
  ℕ, suc, ◌+◌, ◌<◌, ◌≡◌, refl, sym, ap, subst, ◌∙◌, false, none, some, List, [], ◌∷◌, ◌++◌, arith,
  if◌then◌else◌, lt→ltb, length, All, is_zero, ℤ,
}

-- An import takes no round without a title or without a question.
abbrev pub Importable : List Question → List Round → Type 0
Importable qs rs =
    All (λ (r : Round). (str_eq r.title "" ≡ false) × (0 < length (in_round r.id qs))) rs

AllExported-append :
    (c : Cache) (xs ys : List Question) (as' bs : List ArchiveQuestion)
    → AllExported c xs as'
    → AllExported c ys bs
    → AllExported c (xs ++ ys) (as' ++ bs)
AllExported-append c [] ys [] bs x y = y
AllExported-append c [] ys (a ∷ as') bs x y = absurd x
AllExported-append c (q ∷ xs) ys [] bs x y = absurd x
AllExported-append c (q ∷ xs) ys (a ∷ as') bs (h, x) y = (h, AllExported-append c xs ys as' bs x y)

pub all_questions-AllExported :
    (c : Cache) (qs : List Question) (rs : List Round) (as' : List ArchiveRound)
    → AllRoundsExported c qs rs as'
    → AllExported c (play_order qs rs) (all_questions as')
all_questions-AllExported c qs [] [] x = tt
all_questions-AllExported c qs [] (a ∷ as') x = absurd x
all_questions-AllExported c qs (r ∷ rs) [] x = absurd x
all_questions-AllExported c qs (r ∷ rs) (a ∷ as') (x, xs) =
    AllExported-append c (in_round r.id qs) (play_order qs rs) a.questions (all_questions as')
      x.questions (all_questions-AllExported c qs rs as' xs)

-- The loop accepts the rounds, and makes copies of them.
record IsCopied (qs : List Question) (i pos : ℕ) (rs : List Round) (as' : List ArchiveRound)
    (f : Filled) : Type 0 where
  accepted : fill_rounds i pos as' ≡ ok f
  rounds : f.rounds ≡ copy_rounds i pos qs rs

importable-round_error :
    (c : Cache) (qs : List Question) (r : Round) (a : ArchiveRound)
    → RoundExported c qs r a
    → str_eq r.title "" ≡ false
    → 0 < length (in_round r.id qs)
    → round_error a ≡ none
unfolding round_error
importable-round_error c qs r a x t n =
    let len = AllExported-length c (in_round r.id qs) a.questions x.questions in
    let title : str_eq a.title "" ≡ false = ap (λ s. str_eq s "") x.title ∙ t in ground arith

IsCopied-cons :
    (c : Cache) (qs : List Question) (i pos : ℕ) (r : Round) (rs : List Round) (a : ArchiveRound)
    (as' : List ArchiveRound) (f : Filled)
    → RoundExported c qs r a
    → str_eq r.title "" ≡ false
    → 0 < length (in_round r.id qs)
    → IsCopied qs (i + 1) (pos + length a.questions) rs as' f
    → IsCopied qs i pos (r ∷ rs) (a ∷ as') (add_round a i pos f)
unfolding fill_rounds add_round round_from_archive
IsCopied-cons c qs i pos r rs a as' f x t n v =
    let fine = importable-round_error c qs r a x t n in
    let len = AllExported-length c (in_round r.id qs) a.questions x.questions in
    let questions = fill_questions-copy c pos (in_round r.id qs) a.questions x.questions in
    let rest : f.rounds ≡ copy_rounds (i + 1) (pos + length (in_round r.id qs)) qs rs =
      v.rounds ∙ ap (λ k. copy_rounds (i + 1) (pos + k) qs rs) len in
    record {
      accepted = rw (fine, v.accepted, fill_rounds);
      rounds = cc (x.title, x.summary, x.boundary, questions, rest);
    }

fill_rounds-copy :
    (c : Cache) (qs : List Question) (i pos : ℕ) (rs : List Round) (as' : List ArchiveRound)
    → AllRoundsExported c qs rs as'
    → Importable qs rs
    → (f : Filled) × IsCopied qs i pos rs as' f
unfolding fill_rounds
fill_rounds-copy c qs i pos [] [] x h = (_, record { accepted = refl; rounds = refl })
fill_rounds-copy c qs i pos [] (a ∷ as') x h = absurd x
fill_rounds-copy c qs i pos (r ∷ rs) [] x h = absurd x
fill_rounds-copy c qs i pos (r ∷ rs) (a ∷ as') (x, xs) ((t, n), hs) =
    let (f, v) = fill_rounds-copy c qs (i + 1) (pos + length a.questions) rs as' xs hs in
    (add_round a i pos f, IsCopied-cons c qs i pos r rs a as' f x t n v)

-- The time limit that an exported quiz comes back with: 0 was left out of the manifest.
limit-copy :
    (v : ℤ)
    → or_default_limit (time_limit_ptr v) ≡ (if is_zero v then default_time_limit_seconds else v)
unfolding or_default_limit time_limit_ptr
limit-copy v = ground arith

module _ (slug_make : String → String) (svc : MediaArchiver) (qz : Quiz) where
  -- The copy of a quiz that an import makes for its creator.
  abbrev pub copy_quiz : ℕ → List Question → List Round → Quiz
  copy_quiz creator questions rounds = record {
    id = 0;
    title = qz.title;
    slug = slug_make qz.title;
    description = qz.description;
    created_at = 0;
    updated_at = 0;
    created_by_player_id = creator;
    created_by_display_name = "";
    time_limit_seconds =
        if is_zero qz.time_limit_seconds then default_time_limit_seconds else qz.time_limit_seconds;
    visibility = qz.visibility;
    mode = qz.mode;
    language = qz.language;
    play_count = 0;
    published = false;
    questions = questions;
    rounds = rounds;
  }

  quiz_head-copy :
      (creator : ℕ) (es : List ArchiveQuestion) (as' : List ArchiveRound)
      (questions : List Question) (rounds : List Round)
      → quiz_head slug_make (manifest_head qz es as') creator qz.visibility qz.mode questions rounds
        ≡ copy_quiz creator questions rounds
  unfolding quiz_head manifest_head
  quiz_head-copy creator es as' questions rounds =
      ap (λ v. record (copy_quiz creator questions rounds) { time_limit_seconds = v })
        (limit-copy qz.time_limit_seconds)

  -- The copy of a quiz with authored rounds.
  abbrev pub copy_authored : ℕ → List Round → Built
  copy_authored creator rounds = record {
    quiz =
        copy_quiz creator (copy_questions 0 (play_order qz.questions rounds))
          (copy_rounds 0 0 qz.questions rounds);
    plan = copy_plan svc 0 (play_order qz.questions rounds);
  }

  import_rounds :
      (creator : ℕ) (qs : List Question) (rs : List Round) (c : Cache) (as' : List ArchiveRound)
      (f : Filled)
      → 0 < length rs
      → AllRoundsExported c qs rs as'
      → fill_rounds 0 0 as' ≡ ok f
      → quiz_from_archive_manifest slug_make (manifest_head qz [] as') creator qz.visibility qz.mode
        ≡ ok (record { quiz = copy_quiz creator f.questions f.rounds; plan = f.plan })
  import_rounds creator qs [] c as' f n x h = absurd (omega arith)
  import_rounds creator qs (r ∷ rs) c [] f n x h = absurd x
  import_rounds creator qs (r ∷ rs) c (a ∷ as') f n x h =
      unfold quiz_from_archive_manifest manifest_head in
      (rw
        (
          lt→ltb 0 (suc (length as')) (omega arith),
          h,
          quiz_head-copy creator [] (a ∷ as') f.questions f.rounds,
        )
        refl)

  pub manifest-copy :
      (creator : ℕ) (rounds : List Round) (m : Manifest) (c : Cache)
      → is_flat_quiz rounds ≡ false
      → 0 < length rounds
      → Importable qz.questions rounds
      → build svc qz rounds [] ≡ some (m, c)
      → quiz_from_archive_manifest slug_make m creator m.visibility m.mode
        ≡ ok (copy_authored creator rounds)
  unfolding manifest_head
  manifest-copy creator rounds m c flat n h b =
      let (as', e, x, r) = build_rounds svc qz rounds m c flat b in
      let (f, v) = fill_rounds-copy c qz.questions 0 0 rounds as' x h in
      let filled = fill_rounds-IsFilled 0 0 as' f v.accepted in
      let all = all_questions-AllExported c qz.questions rounds as' x in
      let questions =
        filled.questions
        ∙ fill_questions-copy c 0 (play_order qz.questions rounds) (all_questions as') all in
      let plan =
        filled.plan
        ∙ plan_questions-copy svc c r 0 (play_order qz.questions rounds) (all_questions as') all in
      subst
        (λ (m : Manifest).
          quiz_from_archive_manifest slug_make m creator m.visibility m.mode
          ≡ ok (copy_authored creator rounds))
        (sym e)
        (import_rounds creator qz.questions rounds c as' f n x v.accepted
          ∙ cc (questions, plan, v.rounds))
