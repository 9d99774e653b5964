-- ===== src/Cdvdman/Directory/Layout.antt =====
-- Records of a directory that stand one after the other in a sector, for Directory.antt.
use ps2esdl.Prelude.{ℕ, ◌+◌, ◌<◌, ◌≡◌, false, List, [], ◌∷◌, length}
use ps2esdl.Cdvdman.Directory.{DirRec, rec_at, is_named}

-- A record that the search steps over
pub record IsEntry (r : DirRec) : Type 0 where
  pub has_length : 0 < r.len_dr
  pub has_name : 0 < length r.file_identifier

abbrev pub rec_bytes : List DirRec → ℕ
rec_bytes [] = 0
rec_bytes (r ∷ rs) = r.len_dr + rec_bytes rs

module _ (image beyond : ℕ → ℕ) (layer_start lsn : ℕ) where
  -- The records stand in sector `lsn` from offset `i` on.
  abbrev pub Laid : ℕ → List DirRec → Type 0
  Laid i [] = Unit {0}
  Laid i (r ∷ rs) = (rec_at image beyond layer_start lsn i ≡ r) × Laid (i + r.len_dr) rs

  -- They are entries, none of them with the name.
  abbrev pub Others : List ℕ → List DirRec → Type 0
  Others name [] = Unit {0}
  Others name (r ∷ rs) =
      IsEntry r × (is_named image beyond layer_start r name ≡ false) × Others name rs
