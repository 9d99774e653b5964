-- ===== src/Cdvdman/Command/Live.antt =====
-- The invariant of Command.antt: while a command is not reported as finished, something is on the way
-- that will report it.
use ps2esdl.Prelude.{
  ℕ, ◌+◌, ◌-◌, ◌*◌, ◌<◌, ◌≡◌, ◌≢◌, ◌⊎◌, inl, inr, ◌∙◌, refl, sym, Bool, true, false, not, ◌&&◌,
  ◌||◌, ◌==◌, arith, Bool-cases,
}
use ps2esdl.Cdvdman.Command.{
  Commands, Phase, asleep, working, stat_stop, stat_pause, clear_reason, call_user, async_nop,
  async_lseek, async_read, carry_out, start_pass, finish_pass, intr_cb, Internal, start, finish,
  interrupt,
}

pub record IsLive (s : Commands) : Type 0 where
  pub sema : s.ncmd_sema ≡ 1
  pub spinning : s.phase ≡ asleep → s.drive_state ≢ stat_stop
  pub coming : s.waf ≡ false → (s.phase ≡ working) ⊎ (0 < s.wakeups) ⊎ (s.alarm ≡ true)

-- The user's callback sends no command.
pub record IsQuiet (user_cb : ℕ → Commands → Commands) : Type 0 where
  pub waf : (r : ℕ) (s : Commands) → (user_cb r s).waf ≡ s.waf
  pub sema : (r : ℕ) (s : Commands) → (user_cb r s).ncmd_sema ≡ s.ncmd_sema
  pub phase : (r : ℕ) (s : Commands) → (user_cb r s).phase ≡ s.phase
  pub drive_state : (r : ℕ) (s : Commands) → (user_cb r s).drive_state ≡ s.drive_state
  pub wakeups : (r : ℕ) (s : Commands) → (user_cb r s).wakeups ≡ s.wakeups
  pub alarm : (r : ℕ) (s : Commands) → (user_cb r s).alarm ≡ s.alarm

-- What a command does to the drive, it does to nothing else of the state.
record IsKept (s s' : Commands) : Type 0 where
  waf : s'.waf ≡ s.waf
  sema : s'.ncmd_sema ≡ s.ncmd_sema
  phase : s'.phase ≡ s.phase
  wakeups : s'.wakeups ≡ s.wakeups
  alarm : s'.alarm ≡ s.alarm

carry_out-IsKept : (sector_count : ℕ) (s : Commands) → IsKept s (carry_out sector_count s)
unfolding carry_out async_read async_lseek
carry_out-IsKept sector_count s = record {
  waf = ground arith;
  sema = ground arith;
  phase = ground arith;
  wakeups = ground arith;
  alarm = ground arith;
}

pub start_pass-IsKept :
    (sector_count : ℕ) (s : Commands)
    → s.drive_state ≢ stat_stop
    → let s' = start_pass sector_count s in
      (s'.waf ≡ s.waf)
      × (s'.ncmd_sema ≡ s.ncmd_sema)
      × (s'.phase ≡ working)
      × (s'.wakeups ≡ s.wakeups - 1)
      × (s'.alarm ≡ s.alarm)
unfolding start_pass
start_pass-IsKept sector_count s spins =
    let kept =
      carry_out-IsKept sector_count (record s { wakeups = s.wakeups - 1; phase = working }) in
    rw (unequal s.drive_state spins) (kept.waf, kept.sema, kept.phase, kept.wakeups, kept.alarm)
  where
    unequal : (n : ℕ) → n ≢ stat_stop → (n == stat_stop) ≡ false
    unequal n h = ground arith

working_asleep : {p : Phase} → p ≡ working → p ≡ asleep → ⊥
working_asleep e f = ground arith

pub finish_pass-IsKept :
    (s : Commands)
    → let s' = finish_pass s in
      ((s'.waf ≡ true) ⊎ (s'.alarm ≡ true))
      × (s'.ncmd_sema ≡ s.ncmd_sema)
      × (s'.phase ≡ asleep)
      × (s'.drive_state ≡ stat_pause)
      × (s'.wakeups ≡ s.wakeups)
unfolding finish_pass async_nop
finish_pass-IsKept s = elim (Bool-cases (s.cmdfunc == 0 || not s.has_user_cb)) [
  | inl e ↦ rw e (inl refl, refl, refl, refl, refl)
  | inr e ↦ rw e (inr refl, refl, refl, refl, refl)
]

finish-IsLive : (s : Commands) → IsLive s → IsLive (finish_pass s)
finish-IsLive s live =
    let (told, sema, phase, drive_state, wakeups) = finish_pass-IsKept s in
    record {
      sema = sema ∙ live.sema;
      spinning = λ e f. omega arith;
      coming = λ e. elim told [ inl yes_waf ↦ absurd (ground arith) | inr set ↦ inr (inr set) ];
    }

start-IsLive :
    (sector_count : ℕ) (s : Commands)
    → IsLive s
    → s.phase ≡ asleep
    → IsLive (start_pass sector_count s)
start-IsLive sector_count s live at_rest =
    let (waf, sema, phase, wakeups, alarm) =
      start_pass-IsKept sector_count s (live.spinning at_rest) in
    record {
      sema = sema ∙ live.sema;
      spinning = λ e. absurd (working_asleep phase e);
      coming = λ e. inl phase;
    }

-- `s'` has of `s` what the invariant is about, but for `waf` and `alarm`, which `s1` has.
record IsSame (s1 s s' : Commands) : Type 0 where
  waf : s'.waf ≡ s1.waf
  sema : s'.ncmd_sema ≡ s.ncmd_sema
  phase : s'.phase ≡ s.phase
  drive_state : s'.drive_state ≡ s.drive_state
  wakeups : s'.wakeups ≡ s.wakeups
  alarm : s'.alarm ≡ s1.alarm

clear_reason-IsSame : (s : Commands) → IsSame s s (clear_reason s)
unfolding clear_reason
clear_reason-IsSame s = record {
  waf = ground arith;
  sema = ground arith;
  phase = ground arith;
  drive_state = ground arith;
  wakeups = ground arith;
  alarm = ground arith;
}

module _ (user_cb : ℕ → Commands → Commands) (quiet : IsQuiet user_cb) where
  call_user-IsSame : (s : Commands) → IsSame s s (call_user user_cb s)
  unfolding call_user
  call_user-IsSame s = elim (Bool-cases (not (s.cmdfunc == 0) && s.has_user_cb)) [
    | inl e ↦ rw e (record {
      waf = quiet.waf _ _;
      sema = quiet.sema _ _;
      phase = quiet.phase _ _;
      drive_state = quiet.drive_state _ _;
      wakeups = quiet.wakeups _ _;
      alarm = quiet.alarm _ _;
    })
    | inr e ↦ rw e (record {
      waf = refl;
      sema = refl;
      phase = refl;
      drive_state = refl;
      wakeups = refl;
      alarm = refl;
    })
  ]

  pub intr_cb-IsKept :
      (s : Commands)
      → let s' = intr_cb user_cb s in
        (s'.waf ≡ true)
        × (s'.ncmd_sema ≡ s.ncmd_sema)
        × (s'.phase ≡ s.phase)
        × (s'.drive_state ≡ s.drive_state)
        × (s'.wakeups ≡ s.wakeups)
        × (s'.alarm ≡ false)
  unfolding intr_cb
  intr_cb-IsKept s =
      let s1 : Commands = record s { alarm = false; intr_ef = true; waf = true } in
      let called = call_user-IsSame s1 in
      let cleared = clear_reason-IsSame (call_user user_cb s1) in
      (
        cleared.waf ∙ called.waf,
        cleared.sema ∙ called.sema,
        cleared.phase ∙ called.phase,
        cleared.drive_state ∙ called.drive_state,
        cleared.wakeups ∙ called.wakeups,
        cleared.alarm ∙ called.alarm,
      )

  interrupt-IsLive : (s : Commands) → IsLive s → IsLive (intr_cb user_cb s)
  interrupt-IsLive s live =
      let (waf, sema, phase, drive_state, wakeups, alarm) = intr_cb-IsKept s in
      record {
        sema = sema ∙ live.sema;
        spinning = λ e f. live.spinning (sym phase ∙ e) (sym drive_state ∙ f);
        coming = λ e. absurd (ground arith);
      }

  -- With a callback that keeps the invariant in the sense of IsQuiet, no step of the thread or the
  -- interrupt breaks it.
  pub Internal-IsLive :
      (sector_count : ℕ) {s s' : Commands}
      → Internal user_cb sector_count s s'
      → IsLive s
      → IsLive s'
  Internal-IsLive sector_count (start s at_rest waiting) live =
      start-IsLive sector_count s live at_rest
  Internal-IsLive sector_count (finish s at_work) live = finish-IsLive s live
  Internal-IsLive sector_count (interrupt s set) live = interrupt-IsLive s live

-- What is left to do: three steps for each wake-up, two for a pass, one for an alarm.
abbrev pub phase_cost : Phase → ℕ
phase_cost asleep = 0
phase_cost working = 2

abbrev pub alarm_cost : Bool → ℕ
alarm_cost true = 1
alarm_cost false = 0

abbrev pub cost : Commands → ℕ
cost s = 3 * s.wakeups + phase_cost s.phase + alarm_cost s.alarm
