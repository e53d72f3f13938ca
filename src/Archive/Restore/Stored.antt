-- ===== src/Archive/Restore/Stored.antt =====
-- Media that was stored from the entries of a plan, and the calls that show it.
use topbanana.Archive.Export.Faithful.{some-inj}
use topbanana.Archive.Paths.Unique.{text_eq_iff}
use topbanana.Archive.Paths.{text_eq}
use topbanana.Archive.Import.{PlanEntry}
use topbanana.Quiz.{Question}
use topbanana.Archive.{AudioRef, ImageRef}
use topbanana.Archive.Restore.{
  audio_repeat_for, question_id_at, set_media, store_image, restored, store_audio, Call, Ids,
}
use topbanana.Base.{ℕ, ◌≡◌, subst, inl, inr, Option, none, some, List, [], ◌∷◌, Bool-cases, All, In}

abbrev pub ImageStored : Option ImageRef → Option ℕ → List Call → Type 0
ImageStored none o w = o ≡ none
ImageStored (some ref) o w = (id : ℕ) × (o ≡ some id) × In (store_image ref.file (some id)) w

abbrev pub AudioStored : Option AudioRef → Option ℕ → List Call → Type 0
AudioStored none o w = o ≡ none
AudioStored (some ref) o w = (id : ℕ) × (o ≡ some id) × In (store_audio ref.file (some id)) w

-- The question of the entry was given its media by a call, with the repeat flag of its sound.
abbrev pub IsWired : List Question → PlanEntry → List Call → Type 0
IsWired qs entry w =
    (image : Option ℕ) × (audio : Option ℕ) × ImageStored entry.image image w
    × AudioStored entry.audio audio w
    × In (set_media (question_id_at entry.place qs) image audio (audio_repeat_for entry.audio)) w

abbrev pub AllWired : List Question → List PlanEntry → List Call → Type 0
AllWired qs [] w = Unit
AllWired qs (entry ∷ plan) w = IsWired qs entry w × AllWired qs plan w

abbrev pub Any : List Call → Type 0
Any w = Unit

abbrev pub Grows : List Call → List Call → Type 0
Grows v w = (c : Call) → In c v → In c w

module _ (v w : List Call) (g : Grows v w) where
  pub ImageStored-grow :
      (r : Option ImageRef) (o : Option ℕ) → ImageStored r o v → ImageStored r o w
  ImageStored-grow none o h = h
  ImageStored-grow (some ref) o (id, e, i) = (id, e, g _ i)

  pub AudioStored-grow :
      (r : Option AudioRef) (o : Option ℕ) → AudioStored r o v → AudioStored r o w
  AudioStored-grow none o h = h
  AudioStored-grow (some ref) o (id, e, i) = (id, e, g _ i)

  pub IsWired-grow :
      (qs : List Question) (entry : PlanEntry) → IsWired qs entry v → IsWired qs entry w
  IsWired-grow qs entry (i, a, hi, ha, s) =
      (i, a, ImageStored-grow entry.image i hi, AudioStored-grow entry.audio a ha, g _ s)

  pub images-grow :
      (ids : Ids)
      → All (λ (p : List ℕ × ℕ). In (store_image p.0 (some p.1)) v) ids
      → All (λ (p : List ℕ × ℕ). In (store_image p.0 (some p.1)) w) ids
  images-grow [] h = tt
  images-grow (p ∷ ids) (h, hs) = (g _ h, images-grow ids hs)

  pub audios-grow :
      (ids : Ids)
      → All (λ (p : List ℕ × ℕ). In (store_audio p.0 (some p.1)) v) ids
      → All (λ (p : List ℕ × ℕ). In (store_audio p.0 (some p.1)) w) ids
  audios-grow [] h = tt
  audios-grow (p ∷ ids) (h, hs) = (g _ h, audios-grow ids hs)

-- The maps hold ids of media that was stored from the entry.
pub record IsSound (images audios : Ids) (w : List Call) : Type 0 where
  pub images_stored : All (λ (p : List ℕ × ℕ). In (store_image p.0 (some p.1)) w) images
  pub audios_stored : All (λ (p : List ℕ × ℕ). In (store_audio p.0 (some p.1)) w) audios

pub IsSound-grow :
    (images audios : Ids) (v w : List Call)
    → Grows v w
    → IsSound images audios v
    → IsSound images audios w
IsSound-grow images audios v w g s = record {
  images_stored = images-grow v w g images s.images_stored;
  audios_stored = audios-grow v w g audios s.audios_stored;
}

pub restored_lem :
    (P : List ℕ × ℕ → Type 0) (file : List ℕ) (ids : Ids) (id : ℕ)
    → All P ids
    → restored file ids ≡ some id
    → P (file, id)
restored_lem P file [] id h e = cc
restored_lem P file ((f, k) ∷ ids) id (h, hs) e = elim (Bool-cases (text_eq f file)) [
  | inl same ↦
      let key : f ≡ file = (text_eq_iff f file).0 same in
      let value : k ≡ id = some-inj (rw same at e) in
      subst (λ (n : ℕ). P (file, n)) value (subst (λ (s : List ℕ). P (s, k)) key h)
  | inr other ↦ restored_lem P file ids id hs (rw other at e)
]
