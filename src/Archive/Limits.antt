-- ===== src/Archive/Limits.antt =====
-- The guards on an untrusted archive and the reading of its manifest: checkArchiveLimits, perEntryCap
-- and decodeArchiveManifest of internal/admin/quizimportarchivemedia.go. A size is a uint64, whose
-- subtraction wraps around; a cap of 0 stands for zero or less, which disables the guard.
pub mod Bounds
use topbanana.Archive.Export.{manifest_file_name}
use topbanana.Archive.Export.Found.{open_entry}
use topbanana.Archive.Paths.{codes, text_eq, path_ext}
use topbanana.Archive.{
  ok, invalid_json, unsupported_version, missing_manifest, err, archive_too_large, too_many_entries,
  archive_format_version, entry_too_large, ImportError, Result, Entry, Manifest, Json,
}
use topbanana.Base.{
  ℕ, ◌+◌, ◌-◌, ◌%◌, ◌^◌, Bool, ◌&&◌, ◌||◌, Option, none, some, List, [], ◌∷◌, ltb, if◌then◌else◌,
  length, take,
}

pub record ArchiveImportLimits : Type 0 where
  pub image_max_bytes : ℕ
  pub audio_max_bytes : ℕ
  pub total_max_bytes : ℕ

abbrev pub max_archive_entries : ℕ
max_archive_entries = 1000

-- `audio` is the switch of perEntryCap: the extension is one of the four sound types.
pub is_audio_ext : List ℕ → Bool
is_audio_ext ext =
    text_eq ext (codes ".mp3")
    || text_eq ext (codes ".m4a")
    || text_eq ext (codes ".ogg")
    || text_eq ext (codes ".wav")

unfoldable pub per_entry_cap : List ℕ → ArchiveImportLimits → ℕ
unfolding is_audio_ext path_ext
per_entry_cap name limits =
    if is_audio_ext (path_ext name) then limits.audio_max_bytes else limits.image_max_bytes

-- `a - b` on uint64.
pub sub64 : ℕ → ℕ → ℕ
sub64 a b = (a + 2 ^ 64 - b) % 2 ^ 64

-- The loop over the entries, with what remains of the budget.
unfoldable pub check_entries : ArchiveImportLimits → ℕ → List Entry → Option ImportError
unfolding sub64
check_entries limits remaining [] = none
check_entries limits remaining (e ∷ es) =
    let entry_cap = per_entry_cap e.name limits in
    let has_budget = ltb 0 limits.total_max_bytes in
    let rest =
      check_entries limits (if has_budget then sub64 remaining e.uncompressed_size else remaining)
        es in
    if ltb 0 entry_cap && ltb entry_cap e.uncompressed_size
    then some entry_too_large
    else if has_budget && ltb remaining e.uncompressed_size
    then some archive_too_large
    else rest

unfoldable pub check_archive_limits : List Entry → ArchiveImportLimits → Option ImportError
check_archive_limits es limits =
    if ltb max_archive_entries (length es)
    then some too_many_entries
    else check_entries limits limits.total_max_bytes es

-- The reader stops one byte after the cap.
abbrev pub limit_reader : ℕ → List ℕ → List ℕ
limit_reader cap content = if ltb 0 cap then take (cap + 1) content else content

unfoldable pub check_version : Manifest → Result Manifest
check_version m =
    if ltb archive_format_version m.format_version then err unsupported_version else ok m

unfoldable pub decode_archive_manifest : Json → List Entry → ArchiveImportLimits → Result Manifest
unfolding check_version
decode_archive_manifest json es limits = elim (open_entry manifest_file_name es) [
  | none ↦ err missing_manifest
  | some content ↦ elim (json.decode (limit_reader limits.image_max_bytes content)) [
    | none ↦ err invalid_json
    | some m ↦ check_version m
  ]
]
