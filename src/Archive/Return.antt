-- ===== src/Archive/Return.antt =====
-- From an instance to another: what writeQuizArchive wrote, the importer reads back.
pub mod Restored
use topbanana.Archive.Import.Positions.{all_questions}
use topbanana.Archive.Import.RoundTrip.{play_order}
use topbanana.Archive.Export.Built.{build_rounds}
use topbanana.Archive.Import.RoundTrip.Archived.{
  all_questions-AllExported, manifest-copy, copy_authored, Importable,
}
use topbanana.Archive.Import.{quiz_from_archive_manifest}
use Prim.Native.String.{String}
use topbanana.Archive.Export.Faithful.{some-inj, AllExported, ImageOf, AudioOf, IsRead}
use topbanana.Archive.Export.Found.{close_archive-Holds, HasBytes, open_entry}
use topbanana.Quiz.{Round, Quiz, Question}
use topbanana.Archive.{
  archive_format_version, ok, Manifest, Json, ImageRef, ArchiveQuestion, AudioRef, Media, Entry,
}
use topbanana.Archive.Export.{
  manifest_head, write_media_entries, build, manifest_file_name, is_flat_quiz, entry_of,
  close_archive, write_quiz_archive, Cache, MediaArchiver,
}
use topbanana.Archive.Limits.{
  per_entry_cap, ArchiveImportLimits, check_version, check_entries, decode_archive_manifest,
  check_archive_limits, limit_reader,
}
use topbanana.Base.{
  ℕ, ◌+◌, ◌≤◌, ◌<◌, ◌≡◌, refl, sym, ap, subst, ◌∙◌, ◌⊎◌, inl, inr, Bool, false, Option, none, some,
  List, [], ◌∷◌, arith, Option-cases, length, take_all, In, All-In,
}

-- A media row that a question refers to can be read from the archive.
abbrev pub Opens : MediaArchiver → List Entry → Option ℕ → Type 0
Opens svc es none = Unit
Opens svc es (some id) = (row : Media) × (svc.get id ≡ some row) × HasBytes svc es row

abbrev pub MediaOpens : MediaArchiver → List Entry → List Question → Type 0
MediaOpens svc es [] = Unit
MediaOpens svc es (q ∷ qs) =
    Opens svc es q.image_media_id × Opens svc es q.audio_media_id × MediaOpens svc es qs

first_within_cap :
    (limits : ArchiveImportLimits) (e : Entry) (es : List Entry)
    → check_archive_limits (e ∷ es) limits ≡ none
    → (per_entry_cap e.name limits ≡ 0) ⊎ (e.uncompressed_size ≤ per_entry_cap e.name limits)
unfolding check_archive_limits check_entries
first_within_cap limits e es h = ground arith

limit_reader_all : (cap : ℕ) (s : List ℕ) → (cap ≡ 0) ⊎ (length s ≤ cap) → limit_reader cap s ≡ s
limit_reader_all cap s h = ground (arith, take_all (cap + 1) s)

decode_first :
    (json : Json) (m : Manifest) (rest : List Entry) (limits : ArchiveImportLimits)
    → json.decode (json.encode m) ≡ some m
    → m.format_version ≡ archive_format_version
    → check_archive_limits (entry_of manifest_file_name (json.encode m) ∷ rest) limits ≡ none
    → decode_archive_manifest json (entry_of manifest_file_name (json.encode m) ∷ rest) limits
      ≡ ok m
unfolding decode_archive_manifest check_version open_entry per_entry_cap
decode_first json m rest limits faithful v h =
    let whole =
      limit_reader_all limits.image_max_bytes (json.encode m) (first_within_cap limits _ rest h) in
    rw (whole, faithful, v) refl

module _ (svc : MediaArchiver) (es : List Entry) (c : Cache) (r : IsRead svc c)
    (media : (id : ℕ) (row : Media) → In (id, row) c → HasBytes svc es row) where
  image-Opens : (id : Option ℕ) (o : Option ImageRef) → ImageOf c id o → Opens svc es id
  image-Opens none o h = tt
  image-Opens (some id) o (m, i, e) = (m, All-In _ c (id, m) r i, media id m i)

  audio-Opens :
      (id : Option ℕ) (b : Bool) (o : Option AudioRef) → AudioOf c id b o → Opens svc es id
  audio-Opens none b o h = tt
  audio-Opens (some id) b o (m, i, e) = (m, All-In _ c (id, m) r i, media id m i)

  AllExported-MediaOpens :
      (qs : List Question) (xs : List ArchiveQuestion) → AllExported c qs xs → MediaOpens svc es qs
  AllExported-MediaOpens [] [] x = tt
  AllExported-MediaOpens [] (e ∷ xs) x = absurd x
  AllExported-MediaOpens (q ∷ qs) [] x = absurd x
  AllExported-MediaOpens (q ∷ qs) (e ∷ xs) (h, x) = (
    image-Opens q.image_media_id e.image h.image,
    audio-Opens q.audio_media_id q.audio_repeat e.audio h.audio,
    AllExported-MediaOpens qs xs x,
  )

close_archive_inv :
    (json : Json) (svc : MediaArchiver) (m : Manifest) (c : Cache) (es : List Entry)
    → close_archive json svc (m, c) ≡ some es
    → (rest : List Entry) × (entry_of manifest_file_name (json.encode m) ∷ rest ≡ es)
unfolding close_archive
close_archive_inv json svc m c es h = elim (Option-cases (write_media_entries svc c)) [
  | inl e ↦ cc (rw e at h)
  | inr (rest, e) ↦ (rest, some-inj (rw e at h))
]

write_quiz_archive_inv :
    (json : Json) (svc : MediaArchiver) (qz : Quiz) (rounds : List Round) (es : List Entry)
    → write_quiz_archive json svc (some qz) (some rounds) ≡ some es
    → (m : Manifest) × (c : Cache) × (build svc qz rounds [] ≡ some (m, c))
      × (close_archive json svc (m, c) ≡ some es)
unfolding write_quiz_archive
write_quiz_archive_inv json svc qz rounds es h = elim (Option-cases (build svc qz rounds [])) [
  | inl e ↦ cc (rw (e, write_quiz_archive) at h)
  | inr ((m, c), e) ↦ (m, c, e, rw (e, write_quiz_archive) at h)
]

module _ (json : Json) (svc : MediaArchiver) (slug_make : String → String) (qz : Quiz)
    (rounds : List Round) where
  -- What comes back from an archive: its manifest decodes, builds the copy, and every media row that a
  -- copied question refers to can be read.
  pub record Returns (creator : ℕ) (limits : ArchiveImportLimits) (es : List Entry) : Type 0 where
    pub manifest : Manifest
    pub decoded : decode_archive_manifest json es limits ≡ ok manifest
    pub built :
        quiz_from_archive_manifest slug_make manifest creator manifest.visibility manifest.mode
        ≡ ok (copy_authored slug_make svc qz creator rounds)
    pub media : MediaOpens svc es (play_order qz.questions rounds)

  -- JSON decodes the manifest that it encoded.
  abbrev pub Decodes : Type 0
  Decodes =
      (m : Manifest) (c : Cache)
      → build svc qz rounds [] ≡ some (m, c)
      → json.decode (json.encode m) ≡ some m

  -- An exported quiz is read and built again. If JSON decodes the manifest that it encoded and the media
  -- service answers a row under its own id, then for a quiz with authored rounds, each with a title and a
  -- question, and not one round that is exported flat, whatever archive the exporter wrote that passes the
  -- importer's size guards, the importer decodes its manifest, and its builder makes the copy of the quiz
  -- from it: its title, description, time limit (the default for 0), visibility, mode and language, its
  -- rounds with their titles, summaries and boundary times, the questions round by round at positions 1, 2,
  -- 3 and so on with their texts, limits and options, and a plan that refers to the media rows that the
  -- questions had; and the archive opens each such row to the bytes that the service has for it. The copy
  -- has the slug of the title, the importer as its creator, no ids and no plays, and is not published. The
  -- checks of the form and the storing of the media come after this.
  pub export_import :
      (creator : ℕ) (limits : ArchiveImportLimits) (es : List Entry)
      → Decodes
      → ((id : ℕ) (m : Media) → svc.get id ≡ some m → m.id ≡ id)
      → is_flat_quiz rounds ≡ false
      → 0 < length rounds
      → Importable qz.questions rounds
      → write_quiz_archive json svc (some qz) (some rounds) ≡ some es
      → check_archive_limits es limits ≡ none
      → Returns creator limits es
  export_import creator limits es faithful keyed flat n h w fits =
      let (m, c, b, close) = write_quiz_archive_inv json svc qz rounds es w in
      let (as', e, x, r) = build_rounds svc qz rounds m c flat b in
      let holds = close_archive-Holds svc keyed json m c es r close in
      let (rest, first) = close_archive_inv json svc m c es close in
      let version : m.format_version ≡ archive_format_version =
        ap (λ (m : Manifest). m.format_version) e ∙ (unfold manifest_head in refl) in
      record {
        manifest = m;
        decoded =
            subst (λ es. decode_archive_manifest json es limits ≡ ok m) first
              (decode_first json m rest limits (faithful m c b) version
                (subst (λ es. check_archive_limits es limits ≡ none) (sym first) fits));
        built = manifest-copy slug_make svc qz creator rounds m c flat n h b;
        media =
            AllExported-MediaOpens svc es c r holds.media (play_order qz.questions rounds)
              (all_questions as') (all_questions-AllExported c qz.questions rounds as' x);
      }
