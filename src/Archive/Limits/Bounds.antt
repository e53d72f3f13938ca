-- ===== src/Archive/Limits/Bounds.antt =====
-- The guards accept exactly the archives within the bounds.
use topbanana.Archive.{Entry}
use topbanana.Archive.Limits.{
  max_archive_entries, check_archive_limits, per_entry_cap, check_entries, sub64,
  ArchiveImportLimits,
}
use topbanana.Base.{
  ℕ, ◌+◌, ◌-◌, ◌^◌, ◌≤◌, ◌<◌, ◌≡◌, refl, ◌↔◌, ◌⊎◌, inl, inr, none, List, [], ◌∷◌, arith, ltb,
  if◌then◌else◌, Bool-cases, length,
}

abbrev pub total_size : List Entry → ℕ
total_size [] = 0
total_size (e ∷ es) = e.uncompressed_size + total_size es

-- No entry is above its cap, if the cap is on.
abbrev pub WithinCaps : ArchiveImportLimits → List Entry → Type 0
WithinCaps limits [] = Unit
WithinCaps limits (e ∷ es) =
    ((per_entry_cap e.name limits ≡ 0) ⊎ (e.uncompressed_size ≤ per_entry_cap e.name limits))
    × WithinCaps limits es

sub64_exact : (a b : ℕ) → a < 2 ^ 64 → b ≤ a → sub64 a b ≡ a - b
unfolding sub64
sub64_exact a b h k = omega arith

check_entries_sound :
    (limits : ArchiveImportLimits) (remaining : ℕ) (es : List Entry)
    → remaining < 2 ^ 64
    → check_entries limits remaining es ≡ none
    → WithinCaps limits es × ((limits.total_max_bytes ≡ 0) ⊎ (total_size es ≤ remaining))
unfolding check_entries
check_entries_sound limits remaining [] r h = (tt, inr (omega arith))
check_entries_sound limits remaining (e ∷ es) r h = ground (
  arith,
  sub64_exact remaining e.uncompressed_size,
  check_entries_sound limits
      (if ltb 0 limits.total_max_bytes then sub64 remaining e.uncompressed_size else remaining) es,
)

check_entries_complete :
    (limits : ArchiveImportLimits) (remaining : ℕ) (es : List Entry)
    → remaining < 2 ^ 64
    → WithinCaps limits es
    → (limits.total_max_bytes ≡ 0) ⊎ (total_size es ≤ remaining)
    → check_entries limits remaining es ≡ none
unfolding check_entries
check_entries_complete limits remaining [] r w b = refl
check_entries_complete limits remaining (e ∷ es) r w b = ground (
  arith,
  sub64_exact remaining e.uncompressed_size,
  check_entries_complete limits
      (if ltb 0 limits.total_max_bytes then sub64 remaining e.uncompressed_size else remaining) es,
)

-- An archive passes exactly if it has at most 1000 entries, none above its cap, and in all at most the
-- total. The sum of the sizes is the true one, however large the declared sizes are: the budget does not
-- wrap around. A cap or a total of 0 is off.
pub check_archive_limits_iff :
    (es : List Entry) (limits : ArchiveImportLimits)
    → limits.total_max_bytes < 2 ^ 64
    → (check_archive_limits es limits ≡ none)
      ↔ (length es ≤ 1000)
        × WithinCaps limits es
        × ((limits.total_max_bytes ≡ 0) ⊎ (total_size es ≤ limits.total_max_bytes))
unfolding check_archive_limits
check_archive_limits_iff es limits h = elim (Bool-cases (ltb max_archive_entries (length es))) [
  | inl e ↦ rw e (λ k. cc, λ (n, w, b). absurd (ground arith))
  | inr e ↦ rw e (
    λ k.
        let (w, b) = check_entries_sound limits limits.total_max_bytes es h k in
        (ground arith, w, b),
    λ (n, w, b). check_entries_complete limits limits.total_max_bytes es h w b,
  )
]
