-- ===== src/Cdvdman/Stream/Session.antt =====
-- A client's session on the stream of Stream.antt: set up, start, and any sequence of reads and seeks.
use ps2esdl.Prelude.{
  ℕ, ◌+◌, ◌*◌, ◌/◌, ◌≤◌, ◌≡◌, refl, sym, subst, Bool, List, [], ◌∷◌, ◌++◌, Option, none, some,
  table, length,
}
use ps2esdl.Cdvdman.Drive.{Medium}
use ps2esdl.Cdvdman.AsyncRead.Usb.{Usb, first_of, last_of, image_of, usb_medium}
use ps2esdl.Cdvdman.Stream.{Stream, cd_st_init, cd_st_start, cd_st_seek_f, cd_st_read}
use ps2esdl.Cdvdman.Stream.Inv.{IsRing}
use ps2esdl.Cdvdman.Stream.Round.{At}
use ps2esdl.Cdvdman.Stream.Reads.{cd_st_read-At}
use ps2esdl.Cdvdman.Stream.Start.{IsInit, cd_st_init-IsInit, cd_st_start-At, cd_st_seek_f-At}

-- A call of sceCdStRead for some sectors, or of sceCdStSeekF to one
pub data Request : Type 0 where
  read : ℕ → Request
  seek : ℕ → Request

-- The bytes that the requests should bring, from sector `pos` of the disc on
abbrev pub expected : (ℕ → ℕ) → ℕ → List Request → List ℕ
expected image pos [] = []
expected image pos (read n ∷ requests) =
    table image (2048 * pos) (2048 * n) ++ expected image (pos + n) requests
expected image pos (seek lsn ∷ requests) = expected image lsn requests

-- What is asked for lies on the disc and, with the ring, of `ring` sectors, read ahead, between the
-- sectors `first` and `last`.
abbrev pub OnDisc : ℕ → ℕ → ℕ → ℕ → ℕ → List Request → Type 0
OnDisc first last sector_count ring pos [] = Unit {0}
OnDisc first last sector_count ring pos (read n ∷ requests) =
    (pos + n ≤ sector_count + 1)
    × (pos + n + 2 * ring ≤ last)
    × OnDisc first last sector_count ring (pos + n) requests
OnDisc first last sector_count ring pos (seek lsn ∷ requests) =
    (lsn ≤ sector_count)
    × (first ≤ lsn)
    × (lsn + ring ≤ last)
    × OnDisc first last sector_count ring lsn requests

module _ (m : Medium) (sector_count : ℕ) where
  -- The bytes of a run of requests. `scheds i` is the schedule of the read that `i` requests follow.
  unfoldable pub run_requests :
      (ℕ → ℕ → ℕ → Bool) → List Request → Stream → Option (List ℕ × Stream)
  run_requests scheds [] s = some ([], s)
  run_requests scheds (read n ∷ requests) s =
      elim (cd_st_read m sector_count (scheds (length requests)) n s) [
        | none ↦ none
        | some (_, bytes, s1) ↦ elim (run_requests scheds requests s1) [
          | none ↦ none
          | some (more, s2) ↦ some (bytes ++ more, s2)
        ]
      ]
  run_requests scheds (seek lsn ∷ requests) s =
      run_requests scheds requests (cd_st_seek_f m sector_count lsn s)

  run_requests-read :
      (scheds : ℕ → ℕ → ℕ → Bool) (n : ℕ) (requests : List Request) (s : Stream) {s1 s2 : Stream}
      {e : ℕ} {bytes more : List ℕ}
      → cd_st_read m sector_count (scheds (length requests)) n s ≡ some (e, bytes, s1)
      → run_requests scheds requests s1 ≡ some (more, s2)
      → run_requests scheds (read n ∷ requests) s ≡ some (bytes ++ more, s2)
  unfolding run_requests
  run_requests-read scheds n requests s first rest = rw (first, rest, run_requests)

module _ (bank_sectors banks base : ℕ) (m : Medium) (sector_count : ℕ)
    (ring : IsRing bank_sectors banks base) where
  run_requests-expected :
      (scheds : ℕ → ℕ → ℕ → Bool) (requests : List Request) (s : Stream) (pos : ℕ)
      → At bank_sectors banks base m sector_count s pos
      → OnDisc m.first m.last sector_count (banks * bank_sectors) pos requests
      → (s' : Stream) × (run_requests m sector_count scheds requests s
          ≡ some (expected m.image pos requests, s'))
  unfolding run_requests
  run_requests-expected scheds [] s pos at on_disc = (s, refl)
  run_requests-expected scheds (read n ∷ requests) s pos at (inside, room, on_disc) =
      let (s1, first, at1) =
        cd_st_read-At bank_sectors banks base m sector_count ring (scheds (length requests)) n s pos
          at inside room in
      let (s2, rest) = run_requests-expected scheds requests s1 (pos + n) at1 on_disc in
      (s2, run_requests-read m sector_count scheds n requests s {s1 = s1} {s2 = s2} first rest)
  run_requests-expected scheds (seek lsn ∷ requests) s pos at (inside, above, room, on_disc) =
      run_requests-expected scheds requests (cd_st_seek_f m sector_count lsn s) lsn
        (cd_st_seek_f-At bank_sectors banks base m sector_count ring lsn pos s at inside above room)
        on_disc

  session-expected :
      (bufmax lsn : ℕ) (s0 : Stream) (scheds : ℕ → ℕ → ℕ → Bool) (requests : List Request)
      → bufmax / banks ≡ bank_sectors
      → OnDisc m.first m.last sector_count (banks * bank_sectors) lsn (seek lsn ∷ requests)
      → (s : Stream) × (cd_st_init bufmax banks base s0 ≡ some s)
        × (s' : Stream) × (run_requests m sector_count scheds requests
              (cd_st_start m sector_count lsn s)
            ≡ some (expected m.image lsn requests, s'))
  session-expected bufmax lsn s0 scheds requests e (first, above, room, on_disc) =
      let (s, set, init) =
        cd_st_init-IsInit bufmax banks base s0 (subst (λ b. IsRing b banks base) (sym e) ring) in
      let (s', run) =
        run_requests-expected scheds requests (cd_st_start m sector_count lsn s) lsn
          (cd_st_start-At bank_sectors banks base m sector_count ring lsn s
            (subst (λ b. IsInit b banks base s) e init) first above room)
          on_disc in
      (s, set, s', run)

-- After sceCdStInit and sceCdStStart at sector `lsn`, every sequence of sceCdStRead and sceCdStSeekF
-- calls ends and returns the sectors of the disc from where the reader is, in order and without a gap,
-- whatever of the read in flight has arrived at each copy. All that is asked for lies on the disc and,
-- with the sectors that are read ahead, in one slice. The ring has at most 256 banks and not two, it
-- is aligned to 4 bytes and lies inside the address space.
pub stream_in_order :
    (usb : Usb) (sector_count bufmax bankmax base lsn : ℕ) (s0 : Stream) (scheds : ℕ → ℕ → ℕ → Bool)
    (requests : List Request)
    → IsRing (bufmax / bankmax) bankmax base
    → OnDisc
        (first_of usb)
        (last_of usb)
        sector_count
        (bankmax * (bufmax / bankmax))
        lsn
        (seek lsn ∷ requests)
    → (s : Stream) × (cd_st_init bufmax bankmax base s0 ≡ some s)
      × (s' : Stream) × (run_requests
            (usb_medium usb)
            sector_count
            scheds
            requests
            (cd_st_start (usb_medium usb) sector_count lsn s)
          ≡ some (expected (image_of usb) lsn requests, s'))
stream_in_order usb sector_count bufmax bankmax base lsn s0 scheds requests ring on_disc =
    session-expected (bufmax / bankmax) bankmax base (usb_medium usb) sector_count ring bufmax lsn
      s0 scheds requests refl on_disc
