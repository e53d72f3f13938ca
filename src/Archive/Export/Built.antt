-- ===== src/Archive/Export/Built.antt =====
-- What the manifest of a quiz holds, in both shapes.
use text.Mathlib.TextEquality.{eq_iff}
use text.Mathlib.Text.{◌==◌ as str_eq}
use Prim.Native.String.{String}
use topbanana.Archive.Export.Faithful.{
  bind_inv, some-inj, export_rounds_lem, export_questions_lem, IsRead, AllRoundsExported,
  AllExported,
}
use topbanana.Archive.{ArchiveRound, ArchiveQuestion, Manifest}
use topbanana.Quiz.{Round, Quiz}
use topbanana.Archive.Export.{
  default_export_round_title, return, export_questions, export_rounds, in_round, manifest_head,
  is_flat_quiz, Cache, flat_questions, build, MediaArchiver,
}
use topbanana.Base.{ℕ, ◌≡◌, refl, sym, ap, subst, ◌∙◌, true, false, Option, some, List, [], ◌∷◌}

module _ (svc : MediaArchiver) where
  pub build_rounds :
      (qz : Quiz) (rounds : List Round) (m : Manifest) (c : Cache)
      → is_flat_quiz rounds ≡ false
      → build svc qz rounds [] ≡ some (m, c)
      → (as' : List ArchiveRound) × (m ≡ manifest_head qz [] as')
        × AllRoundsExported c qz.questions rounds as'
        × IsRead svc c
  unfolding build
  build_rounds qz rounds m c flat h =
      let (as', c', e, f) =
        bind_inv (export_rounds svc qz.questions rounds) (λ as'. return (manifest_head qz [] as'))
          [] (m, c) (rw flat at h) in
      let (x, all) = export_rounds_lem svc qz.questions rounds [] (as', c') e in
      let same : (manifest_head qz [] as', c') ≡ (m, c) = some-inj f in
      (
        as',
        sym (ap (λ (p : Manifest × Cache). p.0) same),
        subst (λ (p : Manifest × Cache). AllRoundsExported p.1 qz.questions rounds as') same all,
        subst (λ (p : Manifest × Cache). IsRead svc p.1) same (x.reads tt),
      )

  pub build_flat :
      (qz : Quiz) (r : Round) (m : Manifest) (c : Cache)
      → is_flat_quiz (r ∷ []) ≡ true
      → build svc qz (r ∷ []) [] ≡ some (m, c)
      → (es : List ArchiveQuestion) × (m ≡ manifest_head qz es [])
        × AllExported c (in_round r.id qz.questions) es
        × IsRead svc c
  unfolding build flat_questions
  build_flat qz r m c flat h =
      let (es, c', e, f) =
        bind_inv (export_questions svc (in_round r.id qz.questions))
          (λ es. return (manifest_head qz es [])) [] (m, c) (rw flat at h) in
      let (x, all) = export_questions_lem svc (in_round r.id qz.questions) [] (es, c') e in
      let same : (manifest_head qz es [], c') ≡ (m, c) = some-inj f in
      (
        es,
        sym (ap (λ (p : Manifest × Cache). p.0) same),
        subst (λ (p : Manifest × Cache). AllExported p.1 (in_round r.id qz.questions) es) same all,
        subst (λ (p : Manifest × Cache). IsRead svc p.1) same (x.reads tt),
      )

  -- A single round that is titled "Round 1" is exported as a flat list of questions whatever else was
  -- written about it: two quizzes that differ in its summary and its boundary time have the same manifest,
  -- and that manifest has no rounds. So an import cannot restore either.
  pub flat_export_forgets :
      (qz : Quiz) (r : Round) (summary : String) (boundary : Option ℕ)
      → r.title ≡ default_export_round_title
      → (build svc qz (record r { summary = summary; boundary_duration_seconds = boundary } ∷ []) []
          ≡ build svc qz (r ∷ []) [])
        × ((m : Manifest) (c : Cache) → build svc qz (r ∷ []) [] ≡ some (m, c) → m.rounds ≡ [])
  unfolding build flat_questions is_flat_quiz
  flat_export_forgets qz r summary boundary t =
      let flat : str_eq r.title default_export_round_title ≡ true =
        (eq_iff r.title default_export_round_title).1 t in
      (
        rw flat refl,
        λ m c h.
            let (es, e, x, y) = build_flat qz r m c flat h in
            ap (λ (m : Manifest). m.rounds) e ∙ (unfold manifest_head in refl),
      )
