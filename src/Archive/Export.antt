-- ===== src/Archive/Export.antt =====
-- The exporter, internal/admin/quizexport.go. A failing read is none: the handler answers 500 and sends
-- nothing of the archive. Go ranges over the map of media in any order; here it is a list, newest first.
pub mod Faithful
pub mod Built
pub mod Found
use topbanana.Quiz.{Quiz, Round, QuizOption, Question}
use topbanana.Archive.Paths.{archive_media_path, codes}
use topbanana.Archive.{
  archive_format_version, ArchiveRound, ArchiveOption, ArchiveQuestion, Manifest, AudioRef, Json,
  ImageRef, Entry, Media,
}
use mathlib.Core.Option.{map as map_option}
use Prim.Native.String.{String}
use text.Mathlib.Text.{◌==◌ as str_eq}
use topbanana.Base.{
  ℕ, Bool, false, Option, none, some, List, [], ◌∷◌, map, ◌==◌, if◌then◌else◌, length, keep,
  is_zero, ℤ,
}

-- What the exporter uses of the media service: a row by its id, and the bytes of a stored file.
pub record MediaArchiver : Type 0 where
  pub get : ℕ → Option Media
  pub open_file : List ℕ → Option (List ℕ)

-- The map `media` of a manifestBuilder.
abbrev pub Cache : Type 0
Cache = List (ℕ × Media)

abbrev pub cached : ℕ → Cache → Option Media
cached id [] = none
cached id ((k, m) ∷ c) = if k == id then some m else cached id c

-- A call of the builder: its result and the map that it leaves.
abbrev pub Build : Type 0 → Type 0
Build A = Cache → Option (A × Cache)

module _ {A B : Type 0} where
  infixl 5 ◌>>=◌
  abbrev pub ◌>>=◌ : Build A → (A → Build B) → Build B
  ◌>>=◌ m f c = elim (m c) [ none ↦ none | some (a, c') ↦ f a c' ]

abbrev pub return : {A : Type 0} → A → Build A
return a c = some (a, c)

abbrev pub default_export_round_title : String
default_export_round_title = "Round 1"

unfoldable pub is_flat_quiz : List Round → Bool
is_flat_quiz [] = false
is_flat_quiz (r ∷ []) = str_eq r.title default_export_round_title
is_flat_quiz (r ∷ s ∷ rounds) = false

unfoldable pub time_limit_ptr : ℤ → Option ℤ
time_limit_ptr v = if is_zero v then none else some v

unfoldable pub image_ref_of : Media → ImageRef
image_ref_of m = record {
  file = archive_media_path m;
  mime = m.mime;
  original_filename = m.original_filename;
}

unfoldable pub audio_ref_of : Media → Bool → AudioRef
audio_ref_of m repeats = record {
  file = archive_media_path m;
  mime = m.mime;
  description = m.description;
  duration_ms = m.duration_ms;
  repeats = repeats;
  original_filename = m.original_filename;
}

unfoldable pub archive_option : QuizOption → ArchiveOption
archive_option o = record { text = o.text; correct = o.correct }

module _ (svc : MediaArchiver) where
  unfoldable pub load_media : ℕ → Cache → Option Media → Option (Media × Cache)
  load_media id c none = none
  load_media id c (some m) = some (m, (id, m) ∷ c)

  unfoldable pub resolve : ℕ → Build Media
  unfolding load_media
  resolve id c = elim (cached id c) [ some m ↦ some (m, c) | none ↦ load_media id c (svc.get id) ]

  unfoldable pub image_ref : Option ℕ → Build (Option ImageRef)
  image_ref none = return none
  image_ref (some id) = do m ← resolve id; return (some (image_ref_of m))

  unfoldable pub audio_ref : Option ℕ → Bool → Build (Option AudioRef)
  audio_ref none repeats = return none
  audio_ref (some id) repeats = do m ← resolve id; return (some (audio_ref_of m repeats))

  unfoldable pub export_question : Question → Build ArchiveQuestion
  export_question q = do
    image ← image_ref q.image_media_id
    audio ← audio_ref q.audio_media_id q.audio_repeat
    return record {
      text = q.text;
      time_limit_seconds = q.time_limit_seconds;
      image = image;
      audio = audio;
      options = map archive_option q.options;
    }

  unfoldable pub export_questions : List Question → Build (List ArchiveQuestion)
  export_questions [] = return []
  export_questions (q ∷ qs) = do e ← export_question q; es ← export_questions qs; return (e ∷ es)

-- `byRound[id]`.
unfoldable pub in_round : ℕ → List Question → List Question
in_round id qs = keep (λ q. q.round_id == id) qs

unfoldable pub archive_round : Round → List ArchiveQuestion → ArchiveRound
archive_round r es = record {
  title = r.title;
  summary = r.summary;
  boundary_duration_seconds = r.boundary_duration_seconds;
  questions = es;
}

unfoldable pub export_rounds :
    MediaArchiver → List Question → List Round → Build (List ArchiveRound)
export_rounds svc qs [] = return []
export_rounds svc qs (r ∷ rounds) = do
  es ← export_questions svc (in_round r.id qs)
  rest ← export_rounds svc qs rounds
  return (archive_round r es ∷ rest)

unfoldable pub manifest_head : Quiz → List ArchiveQuestion → List ArchiveRound → Manifest
unfolding time_limit_ptr
manifest_head qz questions rounds = record {
  format_version = archive_format_version;
  title = qz.title;
  description = qz.description;
  time_limit_seconds = time_limit_ptr qz.time_limit_seconds;
  visibility = qz.visibility;
  mode = qz.mode;
  language = qz.language;
  questions = questions;
  rounds = rounds;
}

-- The questions of the first round.
unfoldable pub flat_questions :
    MediaArchiver → List Question → List Round → Build (List ArchiveQuestion)
flat_questions svc qs [] = return []
flat_questions svc qs (r ∷ rounds) = export_questions svc (in_round r.id qs)

unfoldable pub build : MediaArchiver → Quiz → List Round → Build Manifest
build svc qz rounds =
    if is_flat_quiz rounds
    then (flat_questions svc qz.questions rounds >>= λ es. return (manifest_head qz es []))
    else (export_rounds svc qz.questions rounds >>= λ rs. return (manifest_head qz [] rs))

abbrev pub entry_of : List ℕ → List ℕ → Entry
entry_of name content = record {
  name = name;
  uncompressed_size = length content;
  content = content;
}

abbrev pub manifest_file_name : List ℕ
manifest_file_name = codes "quiz.json"

unfoldable pub write_media_entries : MediaArchiver → Cache → Option (List Entry)
write_media_entries svc [] = some []
write_media_entries svc ((id, m) ∷ c) =
    let rest = write_media_entries svc c in
    elim (svc.open_file m.path) [
      | none ↦ none
      | some bytes ↦ map_option (λ es. entry_of (archive_media_path m) bytes ∷ es) rest
    ]

unfoldable pub close_archive : Json → MediaArchiver → Manifest × Cache → Option (List Entry)
close_archive json svc (m, c) =
    map_option (λ es. entry_of manifest_file_name (json.encode m) ∷ es) (write_media_entries svc c)

unfoldable pub write_quiz_archive :
    Json → MediaArchiver → Option Quiz → Option (List Round) → Option (List Entry)
unfolding close_archive
write_quiz_archive json svc none rounds = none
write_quiz_archive json svc (some qz) none = none
write_quiz_archive json svc (some qz) (some rounds) = elim (build svc qz rounds []) [
  | none ↦ none
  | some built ↦ close_archive json svc built
]
