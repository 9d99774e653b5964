-- ===== src/Cdvdman/Stream/Next.antt =====
-- `next_bank` of Stream.antt keeps the invariant, bank by bank.
use ps2esdl.Prelude.{ℕ, ◌+◌, ◌*◌, ◌%◌, ◌<◌, ◌≤◌, ◌≡◌, ◌⊎◌, refl, sym, arith, inl, inr, dec_lt}
use mathlib.Core.Path.{subst}
use ps2esdl.Cdvdman.Drive.{Medium, Drive}
use ps2esdl.Cdvdman.Stream.{Stream, next_bank}
use ps2esdl.Cdvdman.Stream.Inv.{lag, lag-odd, lag-even, IsRing, Ready, Inv}
use ps2esdl.Cdvdman.Stream.Switch.{
  span_mono, succ_bank, succ_bank-lt, moved, next_bank-odd, next_bank-last, next_bank-even,
}
use ps2esdl.Cdvdman.Stream.Advance.{Ready-even, Ready-odd, Ready-end}

parity : (n : ℕ) → (n % 2 ≡ 0) ⊎ (n % 2 ≡ 1)
parity n = omega arith

succ_bank_mid : (banks bank : ℕ) → bank + 1 < banks → succ_bank banks bank ≡ bank + 1
succ_bank_mid banks bank h = ground arith

succ_bank_end : (banks bank : ℕ) → bank + 1 ≡ banks → succ_bank banks bank ≡ 0
succ_bank_end banks bank h = ground arith

pub mul_mono : (a b k : ℕ) → a ≤ b → a * k ≤ b * k
mul_mono a b k h = grind arith

module _ (m : Medium) (sector_count bank_sectors banks base : ℕ)
    (ring : IsRing bank_sectors banks base) {s : Stream} {first : ℕ}
    (inv : Inv bank_sectors banks base m sector_count s first) (above : m.first ≤ first)
    (room : first + bank_sectors + banks * bank_sectors ≤ m.last) where
  whole_ring : bank_sectors ≤ banks * bank_sectors
  whole_ring = omega (arith, mul_mono 1 banks bank_sectors ring.banks_pos)

  -- From the switch in plain numbers and the contents of the ring to the invariant.
  assemble :
      (lsn : ℕ) (d : Drive)
      → next_bank m sector_count s
        ≡ moved m sector_count bank_sectors banks base (succ_bank banks s.bank_id) lsn d s
      → Ready bank_sectors banks base m sector_count
          (succ_bank banks s.bank_id)
          lsn
          (first + bank_sectors)
          d
      → Inv bank_sectors banks base m sector_count
          (next_bank m sector_count s)
          (first + bank_sectors)
  assemble lsn d e ready =
      subst (λ t. Inv bank_sectors banks base m sector_count t (first + bank_sectors)) (sym e)
        (record {
          set_up = record {
            sectors = inv.set_up.sectors;
            bank_max = inv.set_up.bank_max;
            buffer = inv.set_up.buffer;
            buf_max = inv.set_up.buf_max;
            bank_in = succ_bank-lt banks s.bank_id inv.set_up.bank_in;
            ptr = refl;
          };
          ready = ready;
        })

  -- The switch to the next bank keeps the invariant, one bank of sectors further on.
  pub next_bank-Inv :
      Inv bank_sectors banks base m sector_count (next_bank m sector_count s) (first + bank_sectors)
  next_bank-Inv = elim (parity s.bank_id) [
    | inl even ↦ elim (dec_lt (s.bank_id + 1) banks) [
      | yes mid ↦
          assemble _ _
            (next_bank-even m sector_count bank_sectors banks base ring inv.set_up even mid
              (omega (arith, waits, inv.ready.next, m.last_u32)))
            (rw (succ_bank_mid banks s.bank_id mid)
              (Ready-even m sector_count bank_sectors banks base ring inv.ready even mid))
      | no end ↦
          let last : s.bank_id + 1 ≡ banks = omega (arith, inv.set_up.bank_in) in
          assemble _ _
            (next_bank-last m sector_count bank_sectors banks base ring inv.set_up even last
              (omega (arith, waits, inv.ready.next, m.last_u32)))
            (rw (succ_bank_end banks s.bank_id last) (
              Ready-end m sector_count bank_sectors banks base ring inv.ready bank_sectors
                (omega (arith, waits, inv.ready.next, whole_ring))
                (omega (arith, waits, inv.ready.next)) last
                (omega (arith, lag-even s.bank_id bank_sectors even))
                (omega (arith, lag-even s.bank_id bank_sectors even))
                (λ more. omega (arith, span_mono 3 banks bank_sectors (omega arith)))))
    ]
    | inr odd ↦ elim (dec_lt (s.bank_id + 1) banks) [
      | yes mid ↦
          assemble _ _
            (next_bank-odd m sector_count bank_sectors banks base ring inv.set_up odd
              (omega (arith, lag-odd s.bank_id bank_sectors odd, inv.ready.next, m.last_u32)))
            (rw (succ_bank_mid banks s.bank_id mid) (
              Ready-odd m sector_count bank_sectors banks base ring inv.ready
                (omega (arith, lag-odd s.bank_id bank_sectors odd, inv.ready.next, whole_ring))
                (omega (arith, lag-odd s.bank_id bank_sectors odd, inv.ready.next)) odd mid))
      | no end ↦
          let last : s.bank_id + 1 ≡ banks = omega (arith, inv.set_up.bank_in) in
          assemble _ _
            (next_bank-odd m sector_count bank_sectors banks base ring inv.set_up odd
              (omega (arith, lag-odd s.bank_id bank_sectors odd, inv.ready.next, m.last_u32)))
            (rw (succ_bank_end banks s.bank_id last) (
              Ready-end m sector_count bank_sectors banks base ring inv.ready (2 * bank_sectors)
                (omega (arith, lag-odd s.bank_id bank_sectors odd, inv.ready.next, whole_ring))
                (omega (arith, lag-odd s.bank_id bank_sectors odd, inv.ready.next)) last
                (omega (arith, lag-odd s.bank_id bank_sectors odd))
                (omega (
                  arith,
                  lag-odd s.bank_id bank_sectors odd,
                  span_mono 1 s.bank_id bank_sectors (omega arith),
                ))
                (λ more.
                  omega
                    (arith, span_mono 4 banks bank_sectors (omega (arith, ring.banks_ne_two))))))
    ]
  ]
    where
      waits : s.bank_id % 2 ≡ 0 → lag s.bank_id bank_sectors ≡ 0
      waits even = lag-even s.bank_id bank_sectors even
