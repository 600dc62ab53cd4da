-- ===== src/Controller/Tests.antt =====
-- Concrete runs of the controller on a small library, and the properties at these runs.
use fossilsafe_t.Prelude.{
  ℕ, ◌+◌, String, ◌≡◌, Bool, true, false, not, Option, none, some, List, [], ◌∷◌, arith,
  if◌then◌else◌, ◌==◌, nat_eq, string_eq,
}
use fossilsafe_t.Controller.Hardware.{
  Line, slot_line, drive_line, Reply, exited, timed_out, not_run, printed, Hardware,
}
use fossilsafe_t.Controller.State.{
  online, offline, degraded, get_mounted_tape, record_probe_success,
}
use fossilsafe_t.Controller.Commands.{System, run_status, recover_state_on_startup}
use fossilsafe_t.Controller.Operations.{Operation, load, unload, perform_all}
use fossilsafe_t.Controller.Health.{perform_all-busy}
use fossilsafe_t.Controller.Probes.{fail_at, fail_at-offline}
use fossilsafe_t.Controller.Debounce.{IsSpaced, changes, changes-IsSpaced}
use fossilsafe_t.Controller.Homes.{seen, with_none_busy, recover-tape}

-- A changer with one drive and two tapes: what is in the drive, the slot it came from, and how the
-- commands end.
record Changer : Type 0 where
  inside : Option ℕ
  reply : Reply
  time : ℕ

abbrev tag_of : ℕ → String
tag_of n = if n == 1 then "A" else "B"

abbrev is_inside : ℕ → Option ℕ → Bool
is_inside n none = false
is_inside n (some m) = n == m

abbrev is_some : Option ℕ → Bool
is_some none = false
is_some (some n) = true

abbrev lines_of : Changer → List Line
lines_of w =
    drive_line 0 (is_some w.inside) w.inside (map_tag w.inside)
    ∷ slot_line 1 (not (is_inside 1 w.inside)) (some "A")
    ∷ slot_line 2 (not (is_inside 2 w.inside)) (some "B")
    ∷ []
  where
    map_tag : Option ℕ → Option String
    map_tag none = none
    map_tag (some n) = some (tag_of n)

abbrev later : Changer → Changer
later w = record w { time = w.time + 60 }

abbrev done : Reply → Bool
done (exited rc) = rc == 0
done timed_out = false
done not_run = false

abbrev put : Option ℕ → Changer → Reply × Changer
put inside w = (w.reply, if done w.reply then record (later w) { inside = inside } else later w)

abbrev small : Hardware
small = record {
  World = Changer;
  now = λ w. w.time;
  status = λ w. (printed 0 (lines_of w), w);
  inventory = λ w. (exited 0, w);
  load = λ s d w. put (some s) w;
  unload = λ s d w. put none w;
  transfer = λ s d w. (w.reply, w);
  tapeinfo = λ w. none;
  is_mounted = λ d w. false;
  unmount = λ d w. (false, w);
  eject = λ d w. w;
  poll_alerts = λ d w. (false, w);
}

abbrev start : Reply → System small
start reply = record {
  controller = record {
    settings = record {
      drive_number = 0;
      status_cache_ttl = 5;
      offline_threshold = 3;
      offline_window = 60;
      state_debounce = 10;
    };
    drive_only_mode = false;
    mounted_tape = none;
    mounted_tapes = [];
    manual_tape_barcode = none;
    home_slots = [];
    busy_operations = 0;
    base_library_state = online;
    debounced_state = online;
    state_changed_at = 0;
    probe_failures = 0;
    probe_failure_timestamps = [];
    mtx_status_cache = none;
  };
  mail_slots = record { enabled = false; auto_detect = true; manual_index = 0 };
  world = record { inside = none; reply = reply; time = 100 };
}

abbrev both : List Operation
both = load "A" 0 ∷ unload 0 none ∷ []

perform_all-busy_example : (perform_all small both (start not_run)).controller.busy_operations ≡ 0
perform_all-busy_example = perform_all-busy small both (start not_run)

fail_at-offline_example :
    (fail_at
      (110 ∷ 120 ∷ 130 ∷ [])
      (record_probe_success 100 (start timed_out).controller)).base_library_state
    ≡ offline
fail_at-offline_example =
    fail_at-offline 100 100 110 (120 ∷ 130 ∷ []) (start timed_out).controller
      ((omega arith, omega arith), ((omega arith, omega arith), ((omega arith, omega arith), tt)))
      (omega arith)

changes-IsSpaced_example : IsSpaced 10 0 (
    changes
      ((5, degraded) ∷ (12, degraded) ∷ (15, online) ∷ (40, online) ∷ [])
      (start timed_out).controller)
changes-IsSpaced_example =
    changes-IsSpaced ((5, degraded) ∷ (12, degraded) ∷ (15, online) ∷ (40, online) ∷ [])
      (start timed_out).controller

recover-tape_example :
    get_mounted_tape 0 (recover_state_on_startup small (start not_run)).1.controller
    ≡ (seen 0 (run_status small (with_none_busy (start not_run))).0).loaded_tape
recover-tape_example = recover-tape small (start not_run)
