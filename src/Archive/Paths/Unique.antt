-- ===== src/Archive/Paths/Unique.antt =====
-- The name of a media entry determines the id of its row.
use topbanana.Archive.{Media}
use topbanana.Archive.Paths.{
  stored_ext, digits_before, path_ext, archive_media_path, archive_ext_for_media, text_eq,
}
use topbanana.Base.{
  ℕ, zero, suc, ◌+◌, ◌-◌, ◌*◌, ◌/◌, ◌%◌, ◌<◌, ◌≡◌, refl, sym, ap, ◌∙◌, ◌↔◌, true, ◌&&◌, List, [],
  ◌∷◌, ◌++◌, arith, ltb, leb, if◌then◌else◌,
}

-- The number that a text starts with, read on from a value.
leading : ℕ → List ℕ → ℕ
leading n [] = n
leading n (c ∷ s) =
    let more = leading (n * 10 + (c - b'0')) s in
    if leb b'0' c && ltb c (b'0' + 10) then more else n

leading-digits_before :
    (fuel n : ℕ) (rest more : List ℕ)
    → n < fuel
    → leading 0 (digits_before fuel n rest ++ more) ≡ leading n (rest ++ more)
unfolding leading digits_before
leading-digits_before zero n rest more h = absurd (omega arith)
leading-digits_before (suc fuel) n rest more h =
    ground (arith, leading-digits_before fuel (n / 10) ((b'0' + n % 10) ∷ rest) more)

leading-path_ext : (n : ℕ) (s : List ℕ) → leading n (path_ext s) ≡ n
unfolding leading path_ext
leading-path_ext n [] = refl
leading-path_ext n (c ∷ s) = ground (arith, leading-path_ext n s)

leading-stored_ext : (n : ℕ) (s : List ℕ) → leading n s ≡ n → leading n (stored_ext s) ≡ n
unfolding leading stored_ext
leading-stored_ext n [] h = refl
leading-stored_ext n (c ∷ s) h = h

leading-archive_ext : (n : ℕ) (m : Media) → leading n (archive_ext_for_media m) ≡ n
unfolding archive_ext_for_media leading
leading-archive_ext n m =
    ground (arith, leading-stored_ext n (path_ext m.path) (leading-path_ext n m.path))

drop_prefix : List ℕ → List ℕ
drop_prefix (a ∷ b ∷ c ∷ d ∷ e ∷ f ∷ s) = s
drop_prefix s = s

leading-media_path : (m : Media) → leading 0 (drop_prefix (archive_media_path m)) ≡ m.id
unfolding archive_media_path drop_prefix
leading-media_path m =
    leading-digits_before (suc m.id) m.id [] (archive_ext_for_media m) (omega arith)
    ∙ leading-archive_ext m.id m

-- Media rows with different ids have entries with different names, whatever their types and paths.
pub archive_media_path_inj :
    (a b : Media) → archive_media_path a ≡ archive_media_path b → a.id ≡ b.id
archive_media_path_inj a b h =
    sym (leading-media_path a) ∙ (ap (λ s. leading 0 (drop_prefix s)) h ∙ leading-media_path b)

pub text_eq_iff : (s t : List ℕ) → (text_eq s t ≡ true) ↔ (s ≡ t)
text_eq_iff [] [] = ground arith
text_eq_iff [] (y ∷ t) = ground arith
text_eq_iff (x ∷ s) [] = ground arith
text_eq_iff (x ∷ s) (y ∷ t) = ground (arith, text_eq_iff s t)
