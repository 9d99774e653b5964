-- ===== src/Cdvdman/Command/Settle.antt =====
-- Command.antt: every command is reported as finished after a bounded number of steps, so that
-- sceCdSync ends.
use ps2esdl.Prelude.{
  ℕ, zero, suc, ◌+◌, ◌≤◌, ◌<◌, ◌≡◌, ◌⊎◌, inl, inr, refl, ap, Bool, true, false, none, some, ◌==◌,
  arith, Bool-cases,
}
use ps2esdl.Cdvdman.Drive.{ReadCommand}
use ps2esdl.Cdvdman.Command.{
  Commands, Phase, asleep, working, is_supported, send_asynccmd, start_pass, finish_pass, intr_cb,
  Internal, start, finish, interrupt, Runs, done, more,
}
use ps2esdl.Cdvdman.Command.Live.{
  IsLive, IsQuiet, Internal-IsLive, start_pass-IsKept, finish_pass-IsKept, intr_cb-IsKept,
  phase_cost, alarm_cost, cost,
}

Phase-cases : (p : Phase) → (p ≡ asleep) ⊎ (p ≡ working)
Phase-cases asleep = inl refl
Phase-cases working = inr refl

alarm_cost-le : (b : Bool) → alarm_cost b ≤ 1
alarm_cost-le true = omega arith
alarm_cost-le false = omega arith

module _ (user_cb : ℕ → Commands → Commands) (quiet : IsQuiet user_cb) (sector_count : ℕ) where
  Internal-cost :
      {s s' : Commands} → Internal user_cb sector_count s s' → IsLive s → cost s' < cost s
  Internal-cost (start s at_rest waiting) live =
      let (waf, sema, phase, wakeups, alarm) =
        start_pass-IsKept sector_count s (live.spinning at_rest) in
      omega (arith, wakeups, ap phase_cost phase, ap alarm_cost alarm, ap phase_cost at_rest)
  Internal-cost (finish s at_work) live =
      let (told, sema, phase, drive_state, wakeups) = finish_pass-IsKept s in
      omega (
        arith,
        wakeups,
        ap phase_cost phase,
        ap phase_cost at_work,
        alarm_cost-le (finish_pass s).alarm,
      )
  Internal-cost (interrupt s set) live =
      let (waf, sema, phase, drive_state, wakeups, alarm) = intr_cb-IsKept user_cb quiet s in
      omega (arith, wakeups, ap phase_cost phase, ap alarm_cost alarm, ap alarm_cost set)

  Runs-cost :
      {n : ℕ} {s s' : Commands}
      → Runs user_cb sector_count n s s'
      → IsLive s
      → (n + cost s' ≤ cost s) × IsLive s'
  Runs-cost (done s) live = (omega arith, live)
  Runs-cost (more n s s1 s2 step rest) live =
      let live1 = Internal-IsLive user_cb quiet sector_count step live in
      let (bound, live2) = Runs-cost rest live1 in (omega (arith, Internal-cost step live), live2)

  -- A state in which nothing can happen without a call from outside.
  abbrev pub IsAtRest : Commands → Type 0
  IsAtRest s = (s' : Commands) → ¬ Internal user_cb sector_count s s'

  -- As long as the command is not reported, something happens.
  progress :
      (s : Commands)
      → IsLive s
      → s.waf ≡ false
      → (s' : Commands) × Internal user_cb sector_count s s'
  progress s live e = elim (live.coming e) [
    | inl at_work ↦ (finish_pass s, finish s at_work)
    | inr (inl waiting) ↦ elim (Phase-cases s.phase) [
      | inl at_rest ↦ (start_pass sector_count s, start s at_rest waiting)
      | inr at_work ↦ (finish_pass s, finish s at_work)
    ]
    | inr (inr set) ↦ (intr_cb user_cb s, interrupt s set)
  ]

  reports :
      (fuel : ℕ) (s : Commands)
      → cost s ≤ fuel
      → IsLive s
      → (n : ℕ) × (s' : Commands) × Runs user_cb sector_count n s s' × (s'.waf ≡ true)
  reports zero s enough live = elim (Bool-cases s.waf) [
    | inl e ↦ (0, s, done s, e)
    | inr e ↦ let (s1, step) = progress s live e in absurd (omega (arith, Internal-cost step live))
  ]
  reports (suc k) s enough live = elim (Bool-cases s.waf) [
    | inl e ↦ (0, s, done s, e)
    | inr e ↦
        let (s1, step) = progress s live e in
        let (n, s', run, waf) =
          reports k s1 (omega (arith, Internal-cost step live))
            (Internal-IsLive user_cb quiet sector_count step live) in
        (suc n, s', more n s s1 s' step run, waf)
  ]

  -- In a state of the invariant, with a callback that sends no command, sceCdSync ends: some sequence of
  -- steps of the thread and the interrupt reports the command as finished, no sequence is longer than
  -- the cost of what is on the way, and one after which nothing more can happen has reported it.
  pub sync_ends :
      (s : Commands)
      → IsLive s
      → ((n : ℕ) × (s' : Commands) × Runs user_cb sector_count n s s' × (s'.waf ≡ true))
        × ((n : ℕ) (s' : Commands)
            → Runs user_cb sector_count n s s'
            → (n ≤ cost s) × (IsAtRest s' → s'.waf ≡ true))
  sync_ends s live = (
    reports (cost s) s (omega arith) live,
    λ n s' run.
        let (bound, live') = Runs-cost run live in
        (
          omega arith,
          λ still. elim (Bool-cases s'.waf) [
            | inl e ↦ e
            | inr e ↦ let (s1, step) = progress s' live' e in absurd (still s1 step)
          ],
        ),
  )

-- Any supported command, sent when the invariant holds and the semaphore is free, is accepted and keeps
-- the invariant, with the drive still reported as busy.
pub send_asynccmd-IsLive :
    (ncmd : ℕ) (command : ReadCommand) (cmdfunc buffer : ℕ) (s : Commands)
    → is_supported ncmd ≡ true
    → IsLive s
    → (s' : Commands) × (send_asynccmd ncmd command cmdfunc buffer s ≡ some (true, s'))
      × (s'.waf ≡ false)
      × IsLive s'
unfolding send_asynccmd
send_asynccmd-IsLive ncmd command cmdfunc buffer s supported live =
    rw (free s.ncmd_sema live.sema, supported)
      (
        _,
        refl,
        refl,
        record {
          sema = omega (arith, live.sema);
          spinning = live.spinning;
          coming = λ e. inr (inl (omega arith));
        },
      )
  where
    free : (n : ℕ) → n ≡ 1 → (n == 0) ≡ false
    free n h = ground arith

idle_still :
    {user_cb : ℕ → Commands → Commands} {sector_count : ℕ} {s s1 : Commands}
    → s.phase ≡ asleep
    → s.wakeups ≡ 0
    → s.alarm ≡ false
    → ¬ Internal user_cb sector_count s s1
idle_still at_rest none_waiting unset (start s _ waiting) = omega arith
idle_still at_rest none_waiting unset (finish s at_work) = ground arith
idle_still at_rest none_waiting unset (interrupt s set) = ground arith

-- A command that is not supported, sent while nothing is under way: send_asynccmd fails, the drive is
-- reported as busy, nothing happens any more without a call, and the next command waits for the
-- semaphore, so that sceCdSync never ends.
pub send_asynccmd-unsupported :
    (user_cb : ℕ → Commands → Commands) (sector_count ncmd : ℕ) (command : ReadCommand)
    (cmdfunc buffer : ℕ) (s : Commands)
    → is_supported ncmd ≡ false
    → s.ncmd_sema ≡ 1
    → s.phase ≡ asleep
    → s.wakeups ≡ 0
    → s.alarm ≡ false
    → (s' : Commands) × (send_asynccmd ncmd command cmdfunc buffer s ≡ some (false, s'))
      × (s'.waf ≡ false)
      × ((s1 : Commands) → ¬ Internal user_cb sector_count s' s1)
      × ((ncmd1 cmdfunc1 buffer1 : ℕ) (command1 : ReadCommand)
          → send_asynccmd ncmd1 command1 cmdfunc1 buffer1 s' ≡ none)
unfolding send_asynccmd
send_asynccmd-unsupported user_cb sector_count ncmd command cmdfunc buffer s no_such one at_rest
      none_waiting unset =
    rw (free s.ncmd_sema one, no_such, one)
      (
        _,
        refl,
        refl,
        (λ s1. idle_still at_rest none_waiting unset),
        λ ncmd1 cmdfunc1 buffer1 command1. refl,
      )
  where
    free : (n : ℕ) → n ≡ 1 → (n == 0) ≡ false
    free n h = ground arith
