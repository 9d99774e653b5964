-- ===== src/Cdvdman/Command.antt =====
-- modules/cdvdman/cdvdman_internal.c: commands to the emulated drive, send_asynccmd, the thread that
-- carries them out, and the interrupt that reports their end. The bytes that a read brings are in
-- Drive.antt; the user's callback is a parameter.
pub mod Live
pub mod Settle
use ps2esdl.Prelude.{
  ℕ, zero, suc, ◌+◌, ◌-◌, ◌%◌, ◌<◌, ◌≡◌, Bool, true, false, not, ◌&&◌, ◌||◌, Option, none, some,
  ltb, ◌==◌, if◌then◌else◌, u8_mod, add32,
}
use ps2esdl.Cdvdman.Drive.{ReadCommand, err_no, err_ipi, is_lsn_valid}

-- ASYNC_CMD_*
abbrev pub cmd_nop_sync : ℕ
cmd_nop_sync = 0x00

abbrev pub cmd_nop : ℕ
cmd_nop = 0x01

abbrev pub cmd_standby : ℕ
cmd_standby = 0x02

abbrev pub cmd_stop : ℕ
cmd_stop = 0x03

abbrev pub cmd_pause : ℕ
cmd_pause = 0x04

abbrev pub cmd_seek : ℕ
cmd_seek = 0x05

abbrev pub cmd_read : ℕ
cmd_read = 0x06

abbrev pub cmd_readdvd : ℕ
cmd_readdvd = 0x08

abbrev pub cmd_readee : ℕ
cmd_readee = 0x86

-- SCECdStat*, and the two values of `status`
abbrev pub stat_stop : ℕ
stat_stop = 0x00

abbrev pub stat_spin : ℕ
stat_spin = 0x02

abbrev pub stat_read : ℕ
stat_read = 0x06

abbrev pub stat_pause : ℕ
stat_pause = 0x0a

abbrev pub stat_seek : ℕ
stat_seek = 0x12

abbrev pub status_complete : ℕ
status_complete = 0x02

abbrev pub status_not_ready : ℕ
status_not_ready = 0x06

-- Asleep, or at work on a command
pub data Phase : Type 0 where
  asleep : Phase
  working : Phase

-- `cdvdman_cmdstruct`, the command fields of `async_config`, `cdvdman_cmdfunc`, whether
-- `cdvdman_user_cb` is set, bit 0 of the event flag, the count of `cdvdman_ncmd_sema`, and what the
-- kernel has to run: the thread with the wake-ups that it has not taken, and the alarm.
pub record Commands : Type 0 where
  pub cd_error : ℕ
  pub waf : Bool
  pub read_lsn : ℕ
  pub rd_buf : ℕ
  pub status : ℕ
  pub drive_state : ℕ
  pub async_cmd : ℕ
  pub flags : ℕ
  pub command : ReadCommand
  pub cmdfunc : ℕ
  pub has_user_cb : Bool
  pub intr_ef : Bool
  pub ncmd_sema : ℕ
  pub phase : Phase
  pub wakeups : ℕ
  pub alarm : Bool

-- The commands of the `switch`: those that clear the event flag, and the others.
unfoldable pub is_read : ℕ → Bool
is_read ncmd = ncmd == cmd_readee || ncmd == cmd_read || ncmd == cmd_readdvd

unfoldable pub is_supported : ℕ → Bool
is_supported ncmd =
    ncmd == cmd_nop_sync
    || ncmd == cmd_nop
    || ncmd == cmd_standby
    || ncmd == cmd_stop
    || ncmd == cmd_pause
    || ncmd == cmd_seek
    || is_read ncmd

-- `send_asynccmd` after `cdvdman_init`: whether it succeeded, and the state; `none` when it waits for the
-- semaphore. `command` is what `ndata` points to.
unfoldable pub send_asynccmd : ℕ → ReadCommand → ℕ → ℕ → Commands → Option (Bool × Commands)
send_asynccmd ncmd command cmdfunc buffer s =
    let s1 : Commands = record s {
      ncmd_sema = s.ncmd_sema - 1;
      cmdfunc = cmdfunc;
      cd_error = err_no;
      waf = false;
      rd_buf = if ncmd == cmd_readee then command.buffer else buffer;
      command = command;
      async_cmd = ncmd % u8_mod;
      flags = if ncmd == cmd_readee then 1 else 0;
      intr_ef = if is_read ncmd then false else s.intr_ef;
    } in
    if s.ncmd_sema == 0
    then none
    else (if is_supported ncmd
        then some (true, record s1 { wakeups = s1.wakeups + 1; ncmd_sema = s1.ncmd_sema + 1 })
        else some (false, s1))

-- The end of a pass of the thread, from `async_nop` on.
unfoldable pub async_nop : Commands → Commands
async_nop s = record s {
  status = status_complete;
  drive_state = stat_pause;
  async_cmd = cmd_nop;
  phase = asleep;
}

module _ (sector_count : ℕ) where
  -- `async_lseek`
  unfoldable pub async_lseek : Commands → Commands
  async_lseek s =
      let lsn = s.command.lsn in
      if is_lsn_valid sector_count lsn
      then record s {
        status = status_not_ready;
        cd_error = err_no;
        drive_state = stat_seek;
        read_lsn = lsn;
      }
      else record s { cd_error = err_ipi }

  -- The state that `async_read` leaves when nothing aborts it.
  unfoldable pub async_read : Commands → Commands
  async_read s =
      let lsn = s.command.lsn in
      if is_lsn_valid sector_count lsn
      then record s {
        status = status_not_ready;
        cd_error = err_no;
        drive_state = stat_read;
        read_lsn = add32 lsn s.command.sectors;
      }
      else record s { cd_error = err_ipi }

  -- The `switch` of `cdvd_asyncthread`
  unfoldable pub carry_out : Commands → Commands
  carry_out s =
      let cmd = s.async_cmd % 0x80 in
      if cmd == cmd_read || cmd == cmd_readdvd
      then async_read s
      else (if cmd == cmd_seek
          then async_lseek s
          else (if cmd == cmd_pause
              then record s { drive_state = stat_pause }
              else (if cmd == cmd_standby
                  then record s { drive_state = stat_spin }
                  else (if cmd == cmd_stop then record s { drive_state = stat_stop } else s))))

  -- A pass begins: the thread takes a wake-up, and the command that it finds.
  unfoldable pub start_pass : Commands → Commands
  start_pass s =
      let s1 : Commands = record s { wakeups = s.wakeups - 1; phase = working } in
      if s.drive_state == stat_stop then async_nop s1 else carry_out s1

-- The cleanup of a pass: an alarm for the interrupt, where somebody is to be told, and the end.
unfoldable pub finish_pass : Commands → Commands
finish_pass s = async_nop (
    if s.cmdfunc == 0 || not s.has_user_cb
    then record s { intr_ef = true; waf = true }
    else record s { alarm = true })

-- The reason is forgotten, unless a new command was sent by the callback.
unfoldable pub clear_reason : Commands → Commands
clear_reason s = if s.waf then record s { cmdfunc = 0 } else s

-- The user's function, called with the reason: what it does to the drive, by the calls that it makes.
module _ (user_cb : ℕ → Commands → Commands) where
  -- The `cmdfunc` that the callback gets.
  unfoldable pub reason : ℕ → ℕ
  reason cmdfunc = if cmdfunc == 0xe || cmdfunc == 0x9 then 1 else cmdfunc

  -- The call of the user's function, where there is one and a reason for it
  unfoldable pub call_user : Commands → Commands
  call_user s =
      if not (s.cmdfunc == 0) && s.has_user_cb
      then user_cb (reason s.cmdfunc) (record s { cmdfunc = reason s.cmdfunc })
      else s

  -- `intr_cb`
  unfoldable pub intr_cb : Commands → Commands
  intr_cb s = clear_reason (call_user (record s { alarm = false; intr_ef = true; waf = true }))

  -- What can happen without a call from outside.
  pub data Internal (sector_count : ℕ) : Commands → Commands → Type 0 where
    start :
        (s : Commands)
        → s.phase ≡ asleep
        → 0 < s.wakeups
        → Internal sector_count s (start_pass sector_count s)
    finish : (s : Commands) → s.phase ≡ working → Internal sector_count s (finish_pass s)
    interrupt : (s : Commands) → s.alarm ≡ true → Internal sector_count s (intr_cb s)

  -- `n` such steps
  pub data Runs (sector_count : ℕ) : ℕ → Commands → Commands → Type 0 where
    done : (s : Commands) → Runs sector_count zero s s
    more :
        (n : ℕ) (s s1 s2 : Commands)
        → Internal sector_count s s1
        → Runs sector_count n s1 s2
        → Runs sector_count (suc n) s s2
