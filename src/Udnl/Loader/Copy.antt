-- ===== src/Udnl/Loader/Copy.antt =====
-- CopySection and ZeroSection of Loader.antt: what is at which address when they are done.
use ps2esdl.Prelude.{
  ℕ, zero, suc, ◌+◌, ◌*◌, ◌/◌, ◌≤◌, ◌<◌, ◌≡◌, ◌∙◌, refl, ap, ◌⊎◌, inl, inr, add32, u32_mod, arith,
  lt→ltb, ne→==, eq→==,
}
use ps2esdl.Udnl.Loader.{Mem, write, copy_loop, copy_section, zero_section}

-- The address is not among the `n` words from `to` on.
abbrev pub IsOutside : ℕ → ℕ → ℕ → Type 0
IsOutside to n b = (b < to) ⊎ (to + 4 * n ≤ b)

-- Two runs of words do not overlap.
abbrev pub AreApart : ℕ → ℕ → ℕ → Type 0
AreApart a b n = (a + 4 * n ≤ b) ⊎ (b + 4 * n ≤ a)

-- `n` words from `src` were copied to `dst`, and the rest of memory is as it was.
pub record IsCopied (m m' : Mem) (src dst n : ℕ) : Type 0 where
  pub copied : (k : ℕ) → k < n → m' (dst + 4 * k) ≡ m (src + 4 * k)
  pub kept : (b : ℕ) → IsOutside dst n b → m' b ≡ m b

pub record IsZeroed (m m' : Mem) (to n : ℕ) : Type 0 where
  pub zeroed : (k : ℕ) → k < n → m' (to + 4 * k) ≡ 0
  pub kept : (b : ℕ) → IsOutside to n b → m' b ≡ m b

pub write-same : (m : Mem) (a b v : ℕ) → b ≡ a → write m a v b ≡ v
write-same m a b v e = rw (eq→== b a e)

pub write-ne : (m : Mem) (a b v : ℕ) → ¬ (b ≡ a) → write m a v b ≡ m b
write-ne m a b v h = rw (ne→== b a h)

-- The loop, once the addresses of a round are known not to wrap.
copy_loop-suc :
    (k : ℕ) (m : Mem) (src dst src_end : ℕ)
    → src < src_end
    → copy_loop (suc k) m src dst src_end
      ≡ copy_loop k (write m dst (m src)) (add32 src 4) (add32 dst 4) src_end
unfolding copy_loop
copy_loop-suc k m src dst src_end h = rw (lt→ltb src src_end h)

-- A round writes one word, and the others follow.
IsCopied-suc :
    (m m' : Mem) (src dst n : ℕ)
    → AreApart src dst (suc n)
    → IsCopied (write m dst (m src)) m' (src + 4) (dst + 4) n
    → IsCopied m m' src dst (suc n)
IsCopied-suc m m' src dst n apart rest = record {
  copied = copied;
  kept = λ b o. rest.kept b (later b o) ∙ write-ne m dst b (m src) (λ e. before b o e);
}
  where
    later : (b : ℕ) → IsOutside dst (suc n) b → IsOutside (dst + 4) n b
    later b (inl h) = inl (omega arith)
    later b (inr h) = inr (omega arith)

    before : (b : ℕ) → IsOutside dst (suc n) b → ¬ (b ≡ dst)
    before b (inl h) e = omega arith
    before b (inr h) e = omega arith

    untouched : (k : ℕ) → k < n → ¬ (src + 4 + 4 * k ≡ dst)
    untouched k h e = elim apart [ inl l ↦ omega arith | inr l ↦ omega arith ]

    copied : (k : ℕ) → k < suc n → m' (dst + 4 * k) ≡ m (src + 4 * k)
    copied zero h =
        ap m' (omega arith)
        ∙ rest.kept dst (inl (omega arith))
        ∙ write-same m dst dst (m src) refl
        ∙ ap m (omega arith)
    copied (suc k) h =
        ap m' (omega arith)
        ∙ rest.copied k (omega arith)
        ∙ write-ne m dst (src + 4 + 4 * k) (m src) (untouched k (omega arith))
        ∙ ap m (omega arith)

copy_loop-IsCopied :
    (n : ℕ) (m : Mem) (src dst : ℕ)
    → src + 4 * n < u32_mod
    → dst + 4 * n < u32_mod
    → AreApart src dst n
    → IsCopied m (copy_loop n m src dst (src + 4 * n)) src dst n
unfolding copy_loop
copy_loop-IsCopied zero m src dst hs hd apart = record {
  copied = λ k h. absurd (omega arith);
  kept = λ b o. refl;
}
copy_loop-IsCopied (suc n) m src dst hs hd apart =
    let ih =
      copy_loop-IsCopied n (write m dst (m src)) (src + 4) (dst + 4) (omega arith) (omega arith)
        (elim apart [ inl l ↦ inl (omega arith) | inr l ↦ inr (omega arith) ]) in
    rw (copy_loop-suc n m src dst (src + 4 * suc n) (omega arith), e, e1, e2)
      (IsCopied-suc m _ src dst n apart ih)
  where
    e : add32 src 4 ≡ src + 4
    e = omega arith

    e1 : add32 dst 4 ≡ dst + 4
    e1 = omega arith

    e2 : src + 4 * suc n ≡ (src + 4) + 4 * n
    e2 = omega arith

-- CopySection copies the whole words of a section that lies below the end of memory and apart from the
-- destination, and changes nothing else.
pub copy_section-IsCopied :
    (m : Mem) (src dst size : ℕ)
    → src + 4 * (size / 4) < u32_mod
    → dst + 4 * (size / 4) < u32_mod
    → AreApart src dst (size / 4)
    → IsCopied m (copy_section m src dst size) src dst (size / 4)
unfolding copy_section
copy_section-IsCopied m src dst size hs hd apart =
    rw src_end (copy_loop-IsCopied (size / 4) m src dst hs hd apart)
  where
    src_end : add32 src (size / 4 * 4) ≡ src + 4 * (size / 4)
    src_end = omega arith

IsZeroed-suc :
    (m m' : Mem) (to n : ℕ) → IsZeroed (write m to 0) m' (to + 4) n → IsZeroed m m' to (suc n)
IsZeroed-suc m m' to n rest = record {
  zeroed = zeroed;
  kept = λ b o. rest.kept b (later b o) ∙ write-ne m to b 0 (λ e. before b o e);
}
  where
    later : (b : ℕ) → IsOutside to (suc n) b → IsOutside (to + 4) n b
    later b (inl h) = inl (omega arith)
    later b (inr h) = inr (omega arith)

    before : (b : ℕ) → IsOutside to (suc n) b → ¬ (b ≡ to)
    before b (inl h) e = omega arith
    before b (inr h) e = omega arith

    zeroed : (k : ℕ) → k < suc n → m' (to + 4 * k) ≡ 0
    zeroed zero h =
        ap m' (omega arith) ∙ rest.kept to (inl (omega arith)) ∙ write-same m to to 0 refl
    zeroed (suc k) h = ap m' (omega arith) ∙ rest.zeroed k (omega arith)

-- ZeroSection zeroes its words and changes nothing else.
pub zero_section-IsZeroed :
    (m : Mem) (to n : ℕ) → to + 4 * n < u32_mod → IsZeroed m (zero_section m to n) to n
unfolding zero_section
zero_section-IsZeroed m to zero h = record {
  zeroed = λ k l. absurd (omega arith);
  kept = λ b o. refl;
}
zero_section-IsZeroed m to (suc n) h =
    rw e (IsZeroed-suc m _ to n (zero_section-IsZeroed (write m to 0) (to + 4) n (omega arith)))
  where
    e : add32 to 4 ≡ to + 4
    e = omega arith
