-- ===== src/Archive.antt =====
-- The types of an exported quiz archive, internal/admin/quizarchive.go, and what the exporter and the
-- importer use of other parts: the media rows and the bytes of files. JSON is an interface, since the
-- standard library encodes by the types; a manifest that was read back is the manifest that was written.
-- The time limit of a quiz is an integer. The limits of a question and of a round are read as 0 when they
-- are negative: the validation refuses both.
pub mod Paths
pub mod Export
pub mod Limits
pub mod Forms
pub mod Import
pub mod Paste
pub mod Restore
pub mod Return
pub mod Whole
use Prim.Native.String.{String}
use topbanana.Base.{ℕ, ◌≡◌, refl, ◌⊎◌, inl, inr, Bool, Option, List, ℤ}

-- The columns of `media.Media` that an archive carries, with the path of the stored file.
pub record Media : Type 0 where
  pub id : ℕ
  pub mime : String
  pub path : List ℕ
  pub description : String
  pub duration_ms : Option ℕ
  pub original_filename : String

pub record ArchiveOption : Type 0 where
  pub text : String
  pub correct : Bool

pub record ImageRef : Type 0 where
  pub file : List ℕ
  pub mime : String
  pub original_filename : String

pub record AudioRef : Type 0 where
  pub file : List ℕ
  pub mime : String
  pub description : String
  pub duration_ms : Option ℕ
  pub repeats : Bool
  pub original_filename : String

pub record ArchiveQuestion : Type 0 where
  pub text : String
  pub time_limit_seconds : Option ℕ
  pub image : Option ImageRef
  pub audio : Option AudioRef
  pub options : List ArchiveOption

pub record ArchiveRound : Type 0 where
  pub title : String
  pub summary : String
  pub boundary_duration_seconds : Option ℕ
  pub questions : List ArchiveQuestion

pub record Manifest : Type 0 where
  pub format_version : ℕ
  pub title : String
  pub description : String
  pub time_limit_seconds : Option ℤ
  pub visibility : String
  pub mode : String
  pub language : String
  pub questions : List ArchiveQuestion
  pub rounds : List ArchiveRound

abbrev pub archive_format_version : ℕ
archive_format_version = 1

-- An entry of a .zip file: its name, the size that it declares, and its bytes.
pub record Entry : Type 0 where
  pub name : List ℕ
  pub uncompressed_size : ℕ
  pub content : List ℕ

-- encoding/json on a manifest.
pub record Json : Type 0 where
  pub encode : Manifest → List ℕ
  pub decode : List ℕ → Option Manifest

-- The errors of an import. `store_failure` is an error of a store or of the media service that the code
-- passes on.
pub data ImportError : Type 0 where
  too_many_entries entry_too_large archive_too_large missing_manifest invalid_json : ImportError
  unsupported_version questions_or_rounds round_title_required round_no_questions : ImportError
  invalid_quiz slug_taken media_missing : ImportError
  store_failure : ℕ → ImportError

-- What a Go function with a result and an error returns.
pub data Result (A : Type 0) : Type 0 where
  err : ImportError → Result A
  ok : A → Result A

pub Result-cases :
    {A : Type 0} (r : Result A) → ((a : A) × (r ≡ ok a)) ⊎ ((e : ImportError) × (r ≡ err e))
Result-cases (ok a) = inl (a, refl)
Result-cases (err e) = inr (e, refl)

pub ok-inj : {A : Type 0} {a b : A} → ok a ≡ ok b → a ≡ b
ok-inj h = cc

-- The next call runs on a result, and an error is returned at once.
infixl 5 ◌>>=◌
abbrev pub ◌>>=◌ : {A B : Type 0} → Result A → (A → Result B) → Result B
err e >>= k = err e
ok a >>= k = k a

pub >>=-eq-ok :
    {A B : Type 0} (r : Result A) (k : A → Result B) {b : B}
    → (r >>= k) ≡ ok b
    → (a : A) × (r ≡ ok a) × (k a ≡ ok b)
>>=-eq-ok (err e) k h = cc
>>=-eq-ok (ok a) k h = (a, refl, h)
