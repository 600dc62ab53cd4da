-- ===== src/Controller/Hardware.antt =====
-- What the controller takes from outside: the commands that it runs, and the clock.
use fossilsafe_t.Prelude.{ℕ, String, Bool, Option, List, nat_eq, string_eq}

-- A line of `mtx status`, as the three patterns read it: full or not, the slot that a drive's tape
-- came from, and the volume tag.
pub data Line : Type 0 where
  slot_line : ℕ → Bool → Option String → Line
  drive_line : ℕ → Bool → Option ℕ → Option String → Line
  mail_line : ℕ → Bool → Option String → Line
  other_line : Line

-- How a command ends: with an exit code, by its timeout, or by an exception before it ran.
pub data Reply : Type 0 where
  exited : ℕ → Reply
  timed_out : Reply
  not_run : Reply

pub data StatusReply : Type 0 where
  printed : ℕ → List Line → StatusReply
  status_timed_out : StatusReply
  status_not_run : StatusReply

-- The world that the commands act on. `eject` is the wait until `mt offline` is taken, and
-- `unmount` the release of LTFS, which may raise; `poll_alerts` reads the tape alerts and saves them,
-- which may raise too.
pub record Hardware : Type 1 where
  pub World : Type 0
  pub now : World → ℕ
  pub status : World → StatusReply × World
  pub inventory : World → Reply × World
  pub load : ℕ → ℕ → World → Reply × World
  pub unload : ℕ → ℕ → World → Reply × World
  pub transfer : ℕ → ℕ → World → Reply × World
  pub tapeinfo : World → Option String
  pub is_mounted : ℕ → World → Bool
  pub unmount : ℕ → World → Bool × World
  pub eject : ℕ → World → World
  pub poll_alerts : ℕ → World → Bool × World
