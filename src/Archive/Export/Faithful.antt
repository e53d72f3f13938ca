-- ===== src/Archive/Export/Faithful.antt =====
-- What a built manifest holds, question by question: the facts of the quiz, and references to rows that
-- the builder has in its map.
use topbanana.Archive.{ArchiveRound, ArchiveQuestion, ImageRef, AudioRef, Media}
use topbanana.Quiz.{Round, Question}
use topbanana.Archive.Export.{
  archive_round, export_question, export_rounds, export_questions, return, audio_ref, image_ref,
  ◌>>=◌, load_media, in_round, archive_option, image_ref_of, cached, audio_ref_of, resolve, Cache,
  MediaArchiver, Build,
}
use topbanana.Base.{
  ℕ, ◌≡◌, refl, subst, inl, inr, Bool, Option, none, some, List, [], ◌∷◌, map, arith, Option-cases,
  All, In,
}

-- Every row of the map was read under its id.
abbrev pub IsRead : MediaArchiver → Cache → Type 0
IsRead svc c = All (λ (p : ℕ × Media). svc.get p.0 ≡ some p.1) c

pub record Extends (svc : MediaArchiver) (c c' : Cache) : Type 0 where
  pub grows : (p : ℕ × Media) → In p c → In p c'
  pub reads : IsRead svc c → IsRead svc c'

Extends-refl : (svc : MediaArchiver) (c : Cache) → Extends svc c c
Extends-refl svc c = record { grows = λ p m. m; reads = λ r. r }

Extends-trans :
    (svc : MediaArchiver) (a b c : Cache) → Extends svc a b → Extends svc b c → Extends svc a c
Extends-trans svc a b c x y = record {
  grows = λ p m. y.grows p (x.grows p m);
  reads = λ r. y.reads (x.reads r);
}

abbrev pub ImageOf : Cache → Option ℕ → Option ImageRef → Type 0
ImageOf c none o = o ≡ none
ImageOf c (some id) o = (m : Media) × In (id, m) c × (o ≡ some (image_ref_of m))

abbrev pub AudioOf : Cache → Option ℕ → Bool → Option AudioRef → Type 0
AudioOf c none repeats o = o ≡ none
AudioOf c (some id) repeats o = (m : Media) × In (id, m) c × (o ≡ some (audio_ref_of m repeats))

pub record Exported (c : Cache) (q : Question) (e : ArchiveQuestion) : Type 0 where
  pub text : e.text ≡ q.text
  pub limit : e.time_limit_seconds ≡ q.time_limit_seconds
  pub options : e.options ≡ map archive_option q.options
  pub image : ImageOf c q.image_media_id e.image
  pub audio : AudioOf c q.audio_media_id q.audio_repeat e.audio

abbrev pub AllExported : Cache → List Question → List ArchiveQuestion → Type 0
AllExported c [] [] = Unit
AllExported c [] (e ∷ es) = ⊥
AllExported c (q ∷ qs) [] = ⊥
AllExported c (q ∷ qs) (e ∷ es) = Exported c q e × AllExported c qs es

pub record RoundExported (c : Cache) (qs : List Question) (r : Round) (a : ArchiveRound)
    : Type 0 where
  pub title : a.title ≡ r.title
  pub summary : a.summary ≡ r.summary
  pub boundary : a.boundary_duration_seconds ≡ r.boundary_duration_seconds
  pub questions : AllExported c (in_round r.id qs) a.questions

abbrev pub AllRoundsExported : Cache → List Question → List Round → List ArchiveRound → Type 0
AllRoundsExported c qs [] [] = Unit
AllRoundsExported c qs [] (a ∷ as') = ⊥
AllRoundsExported c qs (r ∷ rs) [] = ⊥
AllRoundsExported c qs (r ∷ rs) (a ∷ as') = RoundExported c qs r a × AllRoundsExported c qs rs as'

module _ (c c' : Cache) (g : (p : ℕ × Media) → In p c → In p c') where
  ImageOf-grow : (id : Option ℕ) (o : Option ImageRef) → ImageOf c id o → ImageOf c' id o
  ImageOf-grow none o h = h
  ImageOf-grow (some id) o (m, i, e) = (m, g (id, m) i, e)

  AudioOf-grow :
      (id : Option ℕ) (b : Bool) (o : Option AudioRef) → AudioOf c id b o → AudioOf c' id b o
  AudioOf-grow none b o h = h
  AudioOf-grow (some id) b o (m, i, e) = (m, g (id, m) i, e)

  Exported-grow : (q : Question) (e : ArchiveQuestion) → Exported c q e → Exported c' q e
  Exported-grow q e x = record {
    text = x.text;
    limit = x.limit;
    options = x.options;
    image = ImageOf-grow q.image_media_id e.image x.image;
    audio = AudioOf-grow q.audio_media_id q.audio_repeat e.audio x.audio;
  }

  AllExported-grow :
      (qs : List Question) (es : List ArchiveQuestion) → AllExported c qs es → AllExported c' qs es
  AllExported-grow [] [] x = x
  AllExported-grow [] (e ∷ es) x = absurd x
  AllExported-grow (q ∷ qs) [] x = absurd x
  AllExported-grow (q ∷ qs) (e ∷ es) (x, xs) = (Exported-grow q e x, AllExported-grow qs es xs)

pub bind_inv :
    {A B : Type 0} (m : Build A) (f : A → Build B) (c : Cache) (r : B × Cache)
    → (m >>= f) c ≡ some r
    → (a : A) × (c' : Cache) × (m c ≡ some (a, c')) × (f a c' ≡ some r)
bind_inv m f c r h = elim (Option-cases (m c)) [
  | inl e ↦ cc (rw (e, ◌>>=◌) at h)
  | inr ((a, c'), e) ↦ (a, c', e, rw (e, ◌>>=◌) at h)
]

pub some-inj : {A : Type 0} {a b : A} → some a ≡ some b → a ≡ b
some-inj h = cc

cached-In : (id : ℕ) (c : Cache) (m : Media) → cached id c ≡ some m → In (id, m) c
cached-In id [] m h = cc
cached-In id ((k, n) ∷ c) m h = ground (arith, cached-In id c m)

module _ (svc : MediaArchiver) where
  -- What a step of the builder leaves when its result is a row.
  abbrev Resolved : ℕ → Cache → Media × Cache → Type 0
  Resolved id c p = Extends svc c p.1 × In (id, p.0) p.1

  load_media-Resolved :
      (id : ℕ) (c : Cache) (o : Option Media) (p : Media × Cache)
      → svc.get id ≡ o
      → load_media svc id c o ≡ some p
      → Resolved id c p
  unfolding load_media
  load_media-Resolved id c none p e h = cc
  load_media-Resolved id c (some n) p e h =
      subst (Resolved id c) (some-inj h)
        (record { grows = λ p m. inr m; reads = λ r. (e, r) }, inl refl)

  resolve-Resolved :
      (id : ℕ) (c : Cache) (p : Media × Cache) → resolve svc id c ≡ some p → Resolved id c p
  unfolding resolve
  resolve-Resolved id c p h = elim (Option-cases (cached id c)) [
    | inl e ↦ load_media-Resolved id c (svc.get id) p refl (rw (e, resolve) at h)
    | inr (n, e) ↦
        subst (Resolved id c) (some-inj (rw (e, resolve) at h))
          (Extends-refl svc c, cached-In id c n e)
  ]

  image_ref_lem :
      (id : Option ℕ) (c : Cache) (p : Option ImageRef × Cache)
      → image_ref svc id c ≡ some p
      → Extends svc c p.1 × ImageOf p.1 id p.0
  unfolding image_ref
  image_ref_lem none c p h =
      subst (λ p. Extends svc c p.1 × (p.0 ≡ none)) (some-inj h) (Extends-refl svc c, refl)
  image_ref_lem (some id) c p h =
      let (m, c', e, f) = bind_inv (resolve svc id) (λ m. return (some (image_ref_of m))) c p h in
      let (x, i) = resolve-Resolved id c (m, c') e in
      subst (λ p. Extends svc c p.1 × ImageOf p.1 (some id) p.0) (some-inj f) (x, (m, i, refl))

  audio_ref_lem :
      (id : Option ℕ) (b : Bool) (c : Cache) (p : Option AudioRef × Cache)
      → audio_ref svc id b c ≡ some p
      → Extends svc c p.1 × AudioOf p.1 id b p.0
  unfolding audio_ref
  audio_ref_lem none b c p h =
      subst (λ p. Extends svc c p.1 × (p.0 ≡ none)) (some-inj h) (Extends-refl svc c, refl)
  audio_ref_lem (some id) b c p h =
      let (m, c', e, f) = bind_inv (resolve svc id) (λ m. return (some (audio_ref_of m b))) c p h in
      let (x, i) = resolve-Resolved id c (m, c') e in
      subst (λ p. Extends svc c p.1 × AudioOf p.1 (some id) b p.0) (some-inj f) (x, (m, i, refl))

  -- An entry of a question, with both references resolved.
  abbrev entry_with : Question → Option ImageRef → Option AudioRef → ArchiveQuestion
  entry_with q image audio = record {
    text = q.text;
    time_limit_seconds = q.time_limit_seconds;
    image = image;
    audio = audio;
    options = map archive_option q.options;
  }

  export_question_lem :
      (q : Question) (c : Cache) (p : ArchiveQuestion × Cache)
      → export_question svc q c ≡ some p
      → Extends svc c p.1 × Exported p.1 q p.0
  unfolding export_question
  export_question_lem q c p h =
      let rest = λ (i : Option ImageRef).
        audio_ref svc q.audio_media_id q.audio_repeat >>= λ a. return (entry_with q i a) in
      let (i, c', e, f) = bind_inv (image_ref svc q.image_media_id) rest c p h in
      let (a, c'', e', f') =
        bind_inv (audio_ref svc q.audio_media_id q.audio_repeat) (λ a. return (entry_with q i a)) c'
          p f in
      let (x, image) = image_ref_lem q.image_media_id c (i, c') e in
      let (y, audio) = audio_ref_lem q.audio_media_id q.audio_repeat c' (a, c'') e' in
      subst (λ p. Extends svc c p.1 × Exported p.1 q p.0) (some-inj f')
        (
          Extends-trans svc c c' c'' x y,
          record {
            text = refl;
            limit = refl;
            options = refl;
            image = ImageOf-grow c' c'' y.grows q.image_media_id i image;
            audio = audio;
          },
        )

  pub export_questions_lem :
      (qs : List Question) (c : Cache) (p : List ArchiveQuestion × Cache)
      → export_questions svc qs c ≡ some p
      → Extends svc c p.1 × AllExported p.1 qs p.0
  unfolding export_questions
  export_questions_lem [] c p h =
      subst (λ p. Extends svc c p.1 × AllExported p.1 [] p.0) (some-inj h) (Extends-refl svc c, tt)
  export_questions_lem (q ∷ qs) c p h =
      let rest = λ (e : ArchiveQuestion). export_questions svc qs >>= λ es. return (e ∷ es) in
      let (a, c', e, f) = bind_inv (export_question svc q) rest c p h in
      let (as', c'', e', f') = bind_inv (export_questions svc qs) (λ es. return (a ∷ es)) c' p f in
      let (x, one) = export_question_lem q c (a, c') e in
      let (y, others) = export_questions_lem qs c' (as', c'') e' in
      subst (λ p. Extends svc c p.1 × AllExported p.1 (q ∷ qs) p.0) (some-inj f')
        (Extends-trans svc c c' c'' x y, (Exported-grow c' c'' y.grows q a one, others))

  pub export_rounds_lem :
      (qs : List Question) (rs : List Round) (c : Cache) (p : List ArchiveRound × Cache)
      → export_rounds svc qs rs c ≡ some p
      → Extends svc c p.1 × AllRoundsExported p.1 qs rs p.0
  unfolding export_rounds archive_round
  export_rounds_lem qs [] c p h =
      subst (λ p. Extends svc c p.1 × AllRoundsExported p.1 qs [] p.0) (some-inj h)
        (Extends-refl svc c, tt)
  export_rounds_lem qs (r ∷ rs) c p h =
      let rest = λ (es : List ArchiveQuestion).
        export_rounds svc qs rs >>= λ as'. return (archive_round r es ∷ as') in
      let (es, c', e, f) = bind_inv (export_questions svc (in_round r.id qs)) rest c p h in
      let (as', c'', e', f') =
        bind_inv (export_rounds svc qs rs) (λ as'. return (archive_round r es ∷ as')) c' p f in
      let (x, one) = export_questions_lem (in_round r.id qs) c (es, c') e in
      let (y, others) = export_rounds_lem qs rs c' (as', c'') e' in
      subst (λ p. Extends svc c p.1 × AllRoundsExported p.1 qs (r ∷ rs) p.0) (some-inj f')
        (
          Extends-trans svc c c' c'' x y,
          (
            record {
              title = refl;
              summary = refl;
              boundary = refl;
              questions = AllExported-grow c' c'' y.grows (in_round r.id qs) es one;
            },
            others,
          ),
        )
