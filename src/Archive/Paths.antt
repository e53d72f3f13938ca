-- ===== src/Archive/Paths.antt =====
-- The names of an archive's media entries: archiveExtForMedia and archiveMediaPath of
-- internal/admin/quizexport.go, with path.Ext and strconv.FormatInt in base ten on the bytes of a name.
pub mod Unique
use Prim.Native.Char.{code}
use Prim.Native.String.{String}
use text.Mathlib.Text.{◌==◌ as str_eq}
use topbanana.Base.{
  ℕ, zero, suc, ◌+◌, ◌/◌, ◌%◌, Bool, true, false, ◌&&◌, ◌||◌, List, [], ◌∷◌, ◌++◌, ltb, ◌==◌,
  if◌then◌else◌, any,
}
use topbanana.Archive.{Media}

-- The bytes of an ASCII text.
abbrev pub codes : String → List ℕ
codes String.[] = []
codes (String.◌∷◌ c s) = code c ∷ codes s

abbrev pub text_eq : List ℕ → List ℕ → Bool
text_eq [] [] = true
text_eq [] (y ∷ ys) = false
text_eq (x ∷ xs) [] = false
text_eq (x ∷ xs) (y ∷ ys) = (x == y) && text_eq xs ys

pub is_separator : ℕ → Bool
is_separator c = (c == b'.') || (c == b'/')

-- `path.Ext`: from the last dot, if no slash follows it.
unfoldable pub path_ext : List ℕ → List ℕ
unfolding is_separator
path_ext [] = []
path_ext (c ∷ s) =
    let later = path_ext s in if any is_separator s then later else if c == b'.' then c ∷ s else []

abbrev is_empty : List ℕ → Bool
is_empty [] = true
is_empty (c ∷ s) = false

pub stored_ext : List ℕ → List ℕ
stored_ext ext = if is_empty ext then codes ".bin" else ext

unfoldable pub archive_ext_for_media : Media → List ℕ
unfolding stored_ext path_ext
archive_ext_for_media m =
    if str_eq m.mime "image/jpeg"
    then codes ".jpg"
    else if str_eq m.mime "image/png"
    then codes ".png"
    else if str_eq m.mime "image/webp"
    then codes ".webp"
    else if str_eq m.mime "image/gif"
    then codes ".gif"
    else if str_eq m.mime "audio/mpeg"
    then codes ".mp3"
    else if str_eq m.mime "audio/mp4"
    then codes ".m4a"
    else if str_eq m.mime "audio/ogg"
    then codes ".ogg"
    else if str_eq m.mime "audio/wav"
    then codes ".wav"
    else stored_ext (path_ext m.path)

-- The digits of a number before a rest; one round for each unit is more than one for each digit.
pub digits_before : ℕ → ℕ → List ℕ → List ℕ
digits_before zero n rest = rest
digits_before (suc fuel) n rest =
    let more = digits_before fuel (n / 10) ((b'0' + n % 10) ∷ rest) in
    if ltb n 10 then (b'0' + n % 10) ∷ rest else more

unfoldable pub format_int : ℕ → List ℕ
unfolding digits_before
format_int n = digits_before (suc n) n []

unfoldable pub archive_media_path : Media → List ℕ
unfolding format_int archive_ext_for_media
archive_media_path m = codes "media/" ++ (format_int m.id ++ archive_ext_for_media m)
