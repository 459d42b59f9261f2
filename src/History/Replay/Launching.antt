-- ===== src/History/Replay/Launching.antt =====
-- history.go, `replay`: the cases that bind, resume and launch. `n` is the position of the entry,
-- from 1, and `t` its time; a duration never saturates here.
use st_air_case.Prelude.{
  ℕ, suc, ◌-◌, ltb, ◌==◌, ℤ, pos, diff, ◌+ℤ◌, eqb_ℤ, pos_part, String, Bool, true, false, not, ◌&&◌,
  Option, none, List, [], ◌∷◌, ◌++◌, str_eq, length, if◌then◌else◌,
}
use st_air_case.History.Payload.{
  Bound, Resumed, LaunchClaimed, LaunchEnded, LaunchAcknowledged, class_of, class_fits,
  known_outcome,
}
use st_air_case.History.State.{
  Launch, Replay, is_set, first_of, last_of, update_last, open_launch, lost,
}
use st_air_case.History.Grammar.{
  Result, read, refuse_when, is_some, some_and, bound_twice, resumed_after_end,
  resumed_with_open_launch, launch_after_end, launched_while_open, wrong_attempt, outcome_after_end,
  no_open_launch, unknown_outcome, unfit_class, acknowledged_after_end, no_lost_launch,
  already_acknowledged, replayed,
}

-- The time of the open segment so far.
abbrev pub segment_time : Replay → ℤ
segment_time h = diff h.last_time h.seg_started

-- The agent's part of the run or the run itself has ended.
abbrev pub over : Replay → String
over h = first_of h.run_ended h.agent_ended

-- The launch that an acknowledging resume names, marked: attempts are numbered from 1.
abbrev pub ack_at : ℕ → List Launch → List Launch
ack_at at [] = []
ack_at at (l ∷ ls) = (if at == 1 then record l { acked = true } else l) ∷ ack_at (at - 1) ls

-- The case run_bound.
unfoldable pub on_bound : ℕ → ℕ → Option Bound → Replay → Result
on_bound n t p h = refuse_when (ltb 1 n) bound_twice (
    read p (λ b. replayed (record h {
      bound = b;
      seg_started = t;
      last_time = t;
      end = record (h.end) { seg_start = n };
    })))

-- The case run_resumed.
unfoldable pub on_resumed : ℕ → ℕ → Option Resumed → Replay → Result
on_resumed n t p h = refuse_when (is_set (over h)) resumed_after_end (
    refuse_when (is_some (open_launch h.launches)) resumed_with_open_launch (
      read p (λ r. replayed (record h {
        elapsed = h.elapsed +ℤ segment_time h;
        seg_started = t;
        last_time = t;
        segment = suc h.segment;
        pending = [];
        halted = if r.ack_drift then false else h.halted;
        launches = ack_at (pos_part r.ack_unknown) h.launches;
        end = record (h.end) {
          seg_start = n;
          segment_ended = none;
          halt_reason = if r.ack_drift then "" else h.end.halt_reason;
        };
      }))))

abbrev pub new_launch : ℕ → String → LaunchClaimed → Launch
new_launch n hash c = record {
  claimed = c;
  launch_index = n;
  launch_hash = hash;
  launch_outcome = "";
  launch_class = "";
  acked = false;
}

abbrev pub acknowledge : Launch → Launch
acknowledge l = record l { acked = true }

-- The case launch_claimed.
unfoldable pub on_claimed : ℕ → String → ℕ → Option LaunchClaimed → Replay → Result
on_claimed n hash t p h = refuse_when (is_set (over h)) launch_after_end (
    refuse_when (is_some (open_launch h.launches)) launched_while_open (
      read p (λ c.
        refuse_when (not (eqb_ℤ c.attempt (pos (suc (length h.launches))))) wrong_attempt (
          replayed
            (record h { last_time = t; launches = h.launches ++ new_launch n hash c ∷ [] })))))

abbrev pub names_launch : ℤ → String → Launch → Bool
names_launch attempt generation l = eqb_ℤ l.attempt attempt && str_eq l.generation generation

-- The class that an outcome is recorded with.
abbrev pub class_for : LaunchEnded → String
class_for p = if str_eq p.class "" then class_of p.outcome else p.class

abbrev pub end_launch : LaunchEnded → Launch → Launch
end_launch p l = record l { launch_outcome = p.outcome; launch_class = class_for p }

-- The case launch_ended. An outcome that a restart wrote is not time the segment used.
unfoldable pub on_ended : ℕ → Option LaunchEnded → Replay → Result
on_ended t p0 h = refuse_when (is_set h.run_ended) outcome_after_end (
    read p0 (λ p.
      refuse_when
        (not (some_and (names_launch p.ended_attempt p.ended_generation) (open_launch h.launches)))
        no_open_launch
        (refuse_when (not (known_outcome p.outcome)) unknown_outcome (
          refuse_when (is_set p.class && not (class_fits p.class p.outcome)) unfit_class (
            replayed (record h {
              last_time = if str_eq p.outcome "unknown_after_restart" then h.last_time else t;
              launches = update_last (end_launch p) h.launches;
            }))))))

-- The last launch has ended without an established end, and is the one that is named.
abbrev pub is_lost_launch : LaunchAcknowledged → Launch → Bool
is_lost_launch p l =
    lost l && is_set l.launch_outcome && names_launch p.acked_attempt p.acked_generation l

-- The case launch_acknowledged, which is not time the segment used.
unfoldable pub on_acknowledged : Option LaunchAcknowledged → Replay → Result
on_acknowledged p0 h = refuse_when (is_set h.run_ended) acknowledged_after_end (
    read p0 (λ p.
      refuse_when (not (some_and (is_lost_launch p) (last_of h.launches))) no_lost_launch (
        refuse_when (some_and (λ l. l.acked) (last_of h.launches)) already_acknowledged
          (replayed (record h { launches = update_last acknowledge h.launches })))))
