-- ===== src/Cdvdman/Directory/Search.antt =====
-- cdvdman_CdReturnFileInfo of Directory.antt, in a directory of one sector.
use ps2esdl.Prelude.{
  lt→leb, ℕ, zero, suc, ◌+◌, ◌≤◌, ◌<◌, ◌≡◌, ◌∙◌, ap, true, false, Option, none, some, List, [], ◌∷◌,
  ◌++◌, leb, length, add32, u32_mod, arith, lt→ltb,
}
use ps2esdl.Cdvdman.Directory.{
  DirRec, FileInfo, rec_at, info_of, is_named, goes_on, search_loop, target_fname, return_file_info,
}
use ps2esdl.Cdvdman.Directory.Layout.{IsEntry, rec_bytes, Laid, Others}

module _ (image beyond : ℕ → ℕ) (layer_start lsn : ℕ) (name : List ℕ) (size : ℕ) where
  abbrev run : ℕ → ℕ → ℕ → Option (Option FileInfo)
  run k i grp = search_loop image beyond layer_start (some name) false size k lsn i grp 0

  goes_on-other :
      (r : DirRec)
      → is_named image beyond layer_start r name ≡ false
      → goes_on image beyond layer_start (some name) false 0 r ≡ true
  unfolding goes_on
  goes_on-other r e = rw e

  goes_on-named :
      (r : DirRec)
      → is_named image beyond layer_start r name ≡ true
      → goes_on image beyond layer_start (some name) false 0 r ≡ false
  unfolding goes_on
  goes_on-named r e = rw e

  run-past : (k i grp : ℕ) → size ≤ grp → run (suc k) i grp ≡ some none
  unfolding search_loop
  run-past k i grp h = rw (past size grp h)
    where
      past : (m n : ℕ) → m ≤ n → leb m n ≡ true
      past m n h = ground arith

  run-named :
      (k i grp : ℕ) (r : DirRec)
      → grp < size
      → rec_at image beyond layer_start lsn i ≡ r
      → is_named image beyond layer_start r name ≡ true
      → run (suc k) i grp ≡ some (some (info_of image beyond layer_start r))
  unfolding search_loop
  run-named k i grp r inside at named =
      rw (search_loop, lt→leb size grp inside, at, goes_on-named r named)

  run-other :
      (k i grp : ℕ) (r : DirRec)
      → grp < size
      → rec_at image beyond layer_start lsn i ≡ r
      → IsEntry r
      → is_named image beyond layer_start r name ≡ false
      → run (suc k) i grp ≡ run k (i + r.len_dr) (add32 grp r.len_dr)
  unfolding search_loop
  run-other k i grp r inside at entry other = rw (
    search_loop,
    lt→leb size grp inside,
    at,
    goes_on-other r other,
    lt→ltb 0 (length r.file_identifier) entry.has_name,
    lt→ltb 0 r.len_dr entry.has_length,
  )

  run-found :
      (before : List DirRec) (r : DirRec) (k i grp : ℕ)
      → Laid image beyond layer_start lsn i (before ++ (r ∷ []))
      → Others image beyond layer_start lsn name before
      → is_named image beyond layer_start r name ≡ true
      → grp + rec_bytes before < size
      → size < u32_mod
      → length before < k
      → run k i grp ≡ some (some (info_of image beyond layer_start r))
  run-found before r zero i grp laid others named inside small enough = absurd (omega arith)
  run-found [] r (suc k) i grp (at, _) others named inside small enough =
      run-named k i grp r (omega arith) at named
  run-found (b ∷ before) r (suc k) i grp (at, laid) (entry, other, others) named inside small
        enough =
      run-other k i grp b (omega arith) at entry other
      ∙ run-found before r k (i + b.len_dr) (add32 grp b.len_dr) laid others named (omega arith)
          small (omega arith)

  run-missing :
      (all : List DirRec) (k i grp : ℕ)
      → Laid image beyond layer_start lsn i all
      → Others image beyond layer_start lsn name all
      → grp + rec_bytes all ≡ size
      → size < u32_mod
      → length all < k
      → run k i grp ≡ some none
  run-missing all zero i grp laid others sum small enough = absurd (omega arith)
  run-missing [] (suc k) i grp laid others sum small enough = run-past k i grp (omega arith)
  run-missing (b ∷ all) (suc k) i grp (at, laid) (entry, other, others) sum small enough =
      run-other k i grp b (omega (arith, entry.has_length)) at entry other
      ∙ run-missing all k (i + b.len_dr) (add32 grp b.len_dr) laid others (omega arith) small
          (omega arith)

  -- A blank record, in which the name has no length: the search goes on in the next sector.
  run-blank :
      (k i grp : ℕ) (r : DirRec)
      → grp < size
      → rec_at image beyond layer_start lsn i ≡ r
      → is_named image beyond layer_start r name ≡ false
      → length r.file_identifier ≡ 0
      → run (suc k) i grp
        ≡ search_loop image beyond layer_start (some name) false size k (add32 lsn 1) 0 grp 0
  unfolding search_loop
  run-blank k i grp r inside at other blank =
      rw (search_loop, lt→leb size grp inside, at, goes_on-other r other, blank)

  run-overruns :
      (all : List DirRec) (blank : DirRec) (k i grp : ℕ)
      → Laid image beyond layer_start lsn i (all ++ (blank ∷ []))
      → Others image beyond layer_start lsn name all
      → is_named image beyond layer_start blank name ≡ false
      → length blank.file_identifier ≡ 0
      → grp + rec_bytes all < size
      → size < u32_mod
      → run (suc (length all + k)) i grp
        ≡ search_loop image beyond layer_start
            (some name)
            false
            size
            k
            (add32 lsn 1)
            0
            (grp + rec_bytes all)
            0
  run-overruns [] blank k i grp (at, _) others other none_left inside small =
      ap (λ m. run m i grp) {y = suc k} (omega arith)
      ∙ run-blank k i grp blank (omega arith) at other none_left
      ∙ ap (λ g. search_loop image beyond layer_start (some name) false size k (add32 lsn 1) 0 g 0)
          (omega arith)
  run-overruns (b ∷ all) blank k i grp (at, laid) (entry, miss, others) other none_left inside
        small =
      ap (λ m. run m i grp) {y = suc (suc (length all + k))} (omega arith)
      ∙ run-other (suc (length all + k)) i grp b (omega arith) at entry miss
      ∙ run-overruns all blank k (i + b.len_dr) (add32 grp b.len_dr) laid others other none_left
          (omega arith) small
      ∙ ap (λ g. search_loop image beyond layer_start (some name) false size k (add32 lsn 1) 0 g 0)
          (omega arith)

-- The search by name for a file of a directory whose records stand in its first sector: it returns the
-- entry of the first record that has the name, where all records before it are entries without it and
-- it begins inside the directory. One round for each record is enough.
pub return_file_info-found :
    (image beyond : ℕ → ℕ) (layer_start lsn fuel : ℕ) (fname : List ℕ) (before : List DirRec)
    (r : DirRec)
    → Laid image beyond layer_start lsn 0 (before ++ (r ∷ []))
    → Others image beyond layer_start lsn (target_fname fname) before
    → is_named image beyond layer_start r (target_fname fname) ≡ true
    → rec_bytes before < (rec_at image beyond layer_start lsn 0).data_len
    → (rec_at image beyond layer_start lsn 0).data_len < u32_mod
    → length before < fuel
    → return_file_info image beyond layer_start fuel (some fname) lsn 0
      ≡ some (some (info_of image beyond layer_start r))
unfolding return_file_info
return_file_info-found image beyond layer_start lsn fuel fname before r laid others named inside
      small enough =
    run-found image beyond layer_start lsn (target_fname fname)
      (rec_at image beyond layer_start lsn 0).data_len before r fuel 0 0 laid others named
      (omega arith) small enough

-- In a directory whose records take all of its bytes, in its first sector, and none of which has the
-- name, the search returns -1.
pub return_file_info-missing :
    (image beyond : ℕ → ℕ) (layer_start lsn fuel : ℕ) (fname : List ℕ) (all : List DirRec)
    → Laid image beyond layer_start lsn 0 all
    → Others image beyond layer_start lsn (target_fname fname) all
    → rec_bytes all ≡ (rec_at image beyond layer_start lsn 0).data_len
    → (rec_at image beyond layer_start lsn 0).data_len < u32_mod
    → length all < fuel
    → return_file_info image beyond layer_start fuel (some fname) lsn 0 ≡ some none
unfolding return_file_info
return_file_info-missing image beyond layer_start lsn fuel fname all laid others sum small enough =
    run-missing image beyond layer_start lsn (target_fname fname)
      (rec_at image beyond layer_start lsn 0).data_len all fuel 0 0 laid others (omega arith) small
      enough

-- In a directory that is longer than its records, as in one that is filled up with zeros to a whole
-- sector, the search for a name that none of them has goes on in the sector behind, with the bytes of
-- the records as all that it has counted: it does not stop at the end of the directory.
pub return_file_info-overruns :
    (image beyond : ℕ → ℕ) (layer_start lsn k : ℕ) (fname : List ℕ) (all : List DirRec)
    (blank : DirRec)
    → let size = (rec_at image beyond layer_start lsn 0).data_len in
      Laid image beyond layer_start lsn 0 (all ++ (blank ∷ []))
      → Others image beyond layer_start lsn (target_fname fname) all
      → is_named image beyond layer_start blank (target_fname fname) ≡ false
      → length blank.file_identifier ≡ 0
      → rec_bytes all < size
      → size < u32_mod
      → return_file_info image beyond layer_start (suc (length all + k)) (some fname) lsn 0
        ≡ search_loop image beyond layer_start
            (some (target_fname fname))
            false
            size
            k
            (add32 lsn 1)
            0
            (rec_bytes all)
            0
unfolding return_file_info
return_file_info-overruns image beyond layer_start lsn k fname all blank laid others other none_left
      inside small =
    let size : ℕ = (rec_at image beyond layer_start lsn 0).data_len in
    run-overruns image beyond layer_start lsn (target_fname fname) size all blank k 0 0 laid others
      other none_left (omega arith) small
    ∙ ap
        (λ g.
          search_loop image beyond layer_start (some (target_fname fname)) false size k
            (add32 lsn 1) 0 g 0)
        (omega arith)
