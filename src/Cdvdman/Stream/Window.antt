-- ===== src/Cdvdman/Stream/Window.antt =====
-- The contents of the ring of Stream.antt, as statements on byte addresses: what the banks hold
-- from the current one on, what the refilled banks before it hold, and how a refill changes that.
use ps2esdl.Prelude.{ℕ, ◌+◌, ◌-◌, ◌≤◌, ◌<◌, ◌≡◌, ◌⊎◌, inl, inr, ◌∙◌, ap, arith, dec_lt}

-- From address `lo` up to `hi` memory holds the image from position `pos` on, as far as `limit`.
abbrev pub Holds : (ℕ → ℕ) → ℕ → (ℕ → ℕ) → ℕ → ℕ → ℕ → Type 0
Holds image limit full lo hi pos =
    (a : ℕ) → lo ≤ a → a < hi → pos + (a - lo) < limit → full a ≡ image (pos + (a - lo))

module _ (image : ℕ → ℕ) (limit : ℕ) (full full' : ℕ → ℕ) where
  -- What a refill of `lo` up to `hi` from position `pos` does.
  pub record Refills (lo hi pos : ℕ) : Type 0 where
    pub inside : (a : ℕ) → lo ≤ a → a < hi → pos < limit → full' a ≡ image (pos + (a - lo))
    pub outside : (a : ℕ) → (a < lo) ⊎ (hi ≤ a) → full' a ≡ full a

  module _ {lo hi pos : ℕ} (r : Refills lo hi pos) where
    pub Holds-refilled : Holds image limit full' lo hi pos
    Holds-refilled a p q h = r.inside a p q (omega arith)

    pub Holds-kept :
        (l h p : ℕ)
        → (h ≤ lo) ⊎ (hi ≤ l)
        → Holds image limit full l h p
        → Holds image limit full' l h p
    Holds-kept l h p (inl below) held a x y z = r.outside a (inl (omega arith)) ∙ held a x y z
    Holds-kept l h p (inr above) held a x y z = r.outside a (inr (omega arith)) ∙ held a x y z

module _ (image : ℕ → ℕ) (limit : ℕ) (full : ℕ → ℕ) where
  -- A part of what memory holds.
  pub Holds-part :
      (lo lo' hi hi' pos pos' : ℕ)
      → Holds image limit full lo hi pos
      → lo ≤ lo'
      → hi' ≤ hi
      → pos' ≡ pos + (lo' - lo)
      → Holds image limit full lo' hi' pos'
  Holds-part lo lo' hi hi' pos pos' held le ge e a p q h =
      held a (omega arith) (omega arith) (omega arith) ∙ ap image (omega arith)

  -- Two parts that follow on.
  pub Holds-append :
      (lo mid hi pos pos' : ℕ)
      → Holds image limit full lo mid pos
      → Holds image limit full mid hi pos'
      → lo ≤ mid
      → pos' ≡ pos + (mid - lo)
      → Holds image limit full lo hi pos
  Holds-append lo mid hi pos pos' first second le e a p q h = elim (dec_lt a mid) [
    | yes below ↦ first a p below h
    | no above ↦ second a (omega arith) q (omega arith) ∙ ap image (omega arith)
  ]
