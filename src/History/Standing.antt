-- ===== src/History/Standing.antt =====
-- src/internal/history/outcome.go: how a run stands, as its history says. A reason is kept as data in
-- place of its text.
use st_air_case.Prelude.{
  ℕ, ltb, leb, ◌==◌, pos, ltb_ℤ, String, Bool, not, ◌&&◌, ◌||◌, Option, none, some, str_eq, any,
  length, if◌then◌else◌,
}
use st_air_case.History.Payload.{PhaseChecked, Ended}
use st_air_case.History.State.{Review, Replay, is_set, last_of}
use st_air_case.History.Grammar.{is_some, some_and}
use st_air_case.History.Refusals.{is_nil}
use st_air_case.History.Queries.{
  is_final, approvals, parked, launch_parked, lost_launches, max_lost_launches,
}

-- `Outcome`
pub data Standing : Type 0 where
  running waits_for_review blocked failed_run delivered_run delivered_incomplete no_change :
      Standing

-- The messages of `Outcome` and `lostLaunch`.
pub data Because : Type 0 where
  evidence_incomplete was_recovered is_on_branch review_rejected_by_owner : Because
  accepted_empty accepted_unfinished offers_empty_failing offers_empty offers_change : Because
  refused_for_good lost_and_parked not_ended named_not_delivered authorized_not_named : Because
  checks_fail_unchanged checks_fail_approved final_review_rejected launch_failed failed_plainly :
      Because
  halted_for_drift stopped_early proposals_parked unchanged_passes unchanged_unchecked : Because
  without_change old_chain other_status : Because

abbrev status_is : String → Option Ended → Bool
status_is s o = some_and (λ e. str_eq e.status s) o

-- `lostLaunch`: none is "".
unfoldable pub lost_launch : Replay → Option Because
lost_launch h =
    if is_set h.sealed
      || (is_some h.end.segment_ended && not (status_is "KILLED" h.end.segment_ended))
    then none
    else if length h.launches == 0
    then none
    else if leb max_lost_launches (lost_launches h.launches)
    then some refused_for_good
    else if ltb_ℤ (pos 0) (launch_parked h)
    then some lost_and_parked
    else none

-- The first part of `Outcome`: the run's commit is on its branch.
abbrev pub delivered_standing : Replay → Standing × Because
delivered_standing h =
    if not (is_nil h.end.evidence)
    then (delivered_incomplete, evidence_incomplete)
    else if h.end.recovered
    then (delivered_run, was_recovered)
    else (delivered_run, is_on_branch)

abbrev failing : Option PhaseChecked → Bool
failing o = some_and (λ c. not c.passed) o

-- The second part: the last segment offered a review.
abbrev pub review_standing : Review → Standing × Because
review_standing r =
    if str_eq r.review_decided "rejected"
    then (failed_run, review_rejected_by_owner)
    else if str_eq r.review_decided "accepted"
    then if is_nil r.review_files
      then (failed_run, accepted_empty)
      else (waits_for_review, accepted_unfinished)
    else if is_nil r.review_files && failing r.checks
    then (waits_for_review, offers_empty_failing)
    else if is_nil r.review_files
    then (waits_for_review, offers_empty)
    else (waits_for_review, offers_change)

abbrev check_failed_since : Replay → Bool
check_failed_since h = ltb h.end.seg_start h.end.checked && not h.end.check.passed

abbrev rejected_since : Replay → Bool
rejected_since h =
    any (λ d. is_final d && not d.approved && ltb h.end.seg_start d.decision_index) h.decisions

abbrev nothing_in : Replay → Bool
nothing_in h = is_nil (approvals h) && is_nil (parked h)

-- `launchNote` is not empty: the last launch did not end well.
abbrev has_note : Replay → Bool
has_note h = some_and (λ l. is_set l.launch_class) (last_of h.launches)

abbrev failed_standing : Replay → Standing × Because
failed_standing h =
    if check_failed_since h && nothing_in h
    then (failed_run, checks_fail_unchanged)
    else if check_failed_since h
    then (failed_run, checks_fail_approved)
    else if rejected_since h
    then (failed_run, final_review_rejected)
    else if has_note h
    then (failed_run, launch_failed)
    else (failed_run, failed_plainly)

abbrev success_standing : Replay → Standing × Because
success_standing h =
    if not (is_nil (parked h))
    then (blocked, proposals_parked)
    else if nothing_in h
    then if ltb h.end.seg_start h.end.checked && h.end.check.passed
      then (no_change, unchanged_passes)
      else (no_change, unchanged_unchecked)
    else (failed_run, without_change)

abbrev unnamed_standing : Replay → Standing × Because
unnamed_standing h =
    if h.halted
    then (blocked, halted_for_drift)
    else if check_failed_since h
    then (failed_run, checks_fail_approved)
    else if rejected_since h
    then (failed_run, final_review_rejected)
    else if not (is_nil (parked h))
    then (blocked, proposals_parked)
    else (failed_run, old_chain)

-- The last part: the segment ended with a status.
abbrev pub ended_standing : String → Replay → Standing × Because
ended_standing s h =
    if str_eq s "FAILED"
    then failed_standing h
    else if str_eq s "KILLED"
    then if h.halted then (blocked, halted_for_drift) else (blocked, stopped_early)
    else if str_eq s "SUCCESS"
    then success_standing h
    else if str_eq s ""
    then unnamed_standing h
    else (failed_run, other_status)

abbrev pub current_review : ℕ → Option Review → Option Review
current_review start none = none
current_review start (some r) = if ltb start r.review_index then some r else none

abbrev pub after_ended : Replay → Option Ended → Standing × Because
after_ended h none = (running, not_ended)
after_ended h (some e) =
    if str_eq h.sealed "commit_prepared"
    then (blocked, named_not_delivered)
    else if str_eq h.sealed "delivery_authorized"
    then (blocked, authorized_not_named)
    else ended_standing e.status h

abbrev pub after_lost : Replay → Option Because → Standing × Because
after_lost h (some why) = (blocked, why)
after_lost h none = after_ended h h.end.segment_ended

abbrev pub after_review : Replay → Option Review → Standing × Because
after_review h (some r) = review_standing r
after_review h none = after_lost h (lost_launch h)

-- `History.Outcome`
unfoldable pub outcome_of : Replay → Standing × Because
outcome_of h =
    if is_set h.end.commit
    then delivered_standing h
    else after_review h (current_review h.end.seg_start h.review)
