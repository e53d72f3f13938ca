-- ===== src/Archive/Export/Found.antt =====
-- The entries of a written archive: a row that the builder used is found under its name, with its bytes.
use topbanana.Archive.Export.Faithful.{some-inj, IsRead}
use topbanana.Archive.Paths.Unique.{text_eq_iff, archive_media_path_inj}
use topbanana.Archive.Paths.{archive_media_path, text_eq}
use topbanana.Archive.{Manifest, Json, Media, Entry}
use topbanana.Archive.Export.{
  manifest_file_name, close_archive, entry_of, Cache, write_media_entries, MediaArchiver,
}
use topbanana.Base.{
  ℕ, ◌≡◌, refl, sym, ap, subst, ◌∙◌, ◌⊎◌, inl, inr, false, Option, none, some, List, [], ◌∷◌,
  if◌then◌else◌, Bool-cases, Option-cases, In, All-In,
}

-- `Open` on an archive: the first entry of that name.
unfoldable pub open_entry : List ℕ → List Entry → Option (List ℕ)
open_entry name [] = none
open_entry name (e ∷ es) = if text_eq e.name name then some e.content else open_entry name es

-- A row that the builder read has the bytes that the service opens for it.
abbrev pub HasBytes : MediaArchiver → List Entry → Media → Type 0
HasBytes svc es m =
    (bytes : List ℕ) × (svc.open_file m.path ≡ some bytes)
    × (open_entry (archive_media_path m) es ≡ some bytes)

write_entries_inv :
    (svc : MediaArchiver) (k : ℕ) (n : Media) (c : Cache) (es : List Entry)
    → write_media_entries svc ((k, n) ∷ c) ≡ some es
    → (bytes : List ℕ) × (rest : List Entry) × (svc.open_file n.path ≡ some bytes)
      × (write_media_entries svc c ≡ some rest)
      × (entry_of (archive_media_path n) bytes ∷ rest ≡ es)
unfolding write_media_entries
write_entries_inv svc k n c es h = elim (Option-cases (svc.open_file n.path)) [
  | inl e ↦ cc (rw (e, write_media_entries) at h)
  | inr (bytes, e) ↦ elim (Option-cases (write_media_entries svc c)) [
    | inl f ↦ cc (rw (e, f, write_media_entries) at h)
    | inr (rest, f) ↦ (bytes, rest, e, f, some-inj (rw (e, f, write_media_entries) at h))
  ]
]

open_entry-cons :
    (name : List ℕ) (e : Entry) (es : List Entry)
    → open_entry name (e ∷ es)
      ≡ (if text_eq e.name name then some e.content else open_entry name es)
unfolding open_entry
open_entry-cons name e es = refl

not_manifest : (m : Media) → text_eq manifest_file_name (archive_media_path m) ≡ false
unfolding archive_media_path
not_manifest m = refl

module _ (svc : MediaArchiver)
    (keyed : (id : ℕ) (m : Media) → svc.get id ≡ some m → m.id ≡ id) where
  -- Rows that were read and have the same name are the same row.
  same_row :
      (i j : ℕ) (m n : Media)
      → svc.get i ≡ some m
      → svc.get j ≡ some n
      → archive_media_path m ≡ archive_media_path n
      → m ≡ n
  same_row i j m n h k e =
      let ids : i ≡ j = sym (keyed i m h) ∙ (archive_media_path_inj m n e ∙ keyed j n k) in
      some-inj (sym h ∙ (ap svc.get ids ∙ k))

  HasBytes-cons :
      (k id : ℕ) (n m : Media) (bytes : List ℕ) (rest : List Entry)
      → svc.get k ≡ some n
      → svc.get id ≡ some m
      → svc.open_file n.path ≡ some bytes
      → (◌≡◌ {A = ℕ × Media} (id, m) (k, n)) ⊎ HasBytes svc rest m
      → HasBytes svc (entry_of (archive_media_path n) bytes ∷ rest) m
  HasBytes-cons k id n m bytes rest hk hid open_n i =
      elim (Bool-cases (text_eq (archive_media_path n) (archive_media_path m))) [
        | inl same ↦
            let row = same_row k id n m hk hid ((text_eq_iff _ _).0 same) in
            (
              bytes,
              subst (λ (x : Media). svc.open_file x.path ≡ some bytes) row open_n,
              open_entry-cons _ _ rest ∙ rw same,
            )
        | inr other ↦ elim i [
          | inl p ↦ cc (
            sym other,
            (text_eq_iff _ _).1 (ap (λ (x : ℕ × Media). archive_media_path x.1) (sym p)),
          )
          | inr (b, o, f) ↦ (b, o, open_entry-cons _ _ rest ∙ rw other f)
        ]
      ]

  pub write_media_entries-HasBytes :
      (c : Cache) (es : List Entry) (id : ℕ) (m : Media)
      → IsRead svc c
      → write_media_entries svc c ≡ some es
      → In (id, m) c
      → HasBytes svc es m
  write_media_entries-HasBytes [] es id m r h i = absurd i
  write_media_entries-HasBytes ((k, n) ∷ c) es id m r h (inl i) =
      let (bytes, rest, o, w, e) = write_entries_inv svc k n c es h in
      let read_m : svc.get id ≡ some m = All-In _ ((k, n) ∷ c) (id, m) r (inl i) in
      subst (λ es. HasBytes svc es m) e (HasBytes-cons k id n m bytes rest r.0 read_m o (inl i))
  write_media_entries-HasBytes ((k, n) ∷ c) es id m r h (inr i) =
      let (bytes, rest, o, w, e) = write_entries_inv svc k n c es h in
      let read_m : svc.get id ≡ some m = All-In _ c (id, m) r.1 i in
      subst (λ es. HasBytes svc es m) e
        (HasBytes-cons k id n m bytes rest r.0 read_m o
          (inr (write_media_entries-HasBytes c rest id m r.1 w i)))

  -- What a written archive holds: the encoded manifest, and the bytes of every row that it refers to.
  pub record Holds (json : Json) (m : Manifest) (c : Cache) (es : List Entry) : Type 0 where
    pub manifest : open_entry manifest_file_name es ≡ some (json.encode m)
    pub media : (id : ℕ) (row : Media) → In (id, row) c → HasBytes svc es row

  pub close_archive-Holds :
      (json : Json) (m : Manifest) (c : Cache) (es : List Entry)
      → IsRead svc c
      → close_archive json svc (m, c) ≡ some es
      → Holds json m c es
  unfolding close_archive
  close_archive-Holds json m c es r h = elim (Option-cases (write_media_entries svc c)) [
    | inl e ↦ cc (rw e at h)
    | inr (rest, e) ↦ subst (Holds json m c) (some-inj (rw e at h)) record {
      manifest = open_entry-cons _ _ rest;
      media = λ id row i.
          let (bytes, o, f) = write_media_entries-HasBytes c rest id row r e i in
          (bytes, o, open_entry-cons _ _ rest ∙ rw (not_manifest row) f);
    }
  ]
