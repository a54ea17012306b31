-- ===== src/Evaluator/Scans.antt =====
-- `evaluateScan` moves a repository as the machine of the phases allows.
use gitops_dashboard.Prelude.{
  Bool, true, false, inl, inr, ◌≡◌, refl, Option, none, some, Bool-cases,
}
use gitops_dashboard.Prelude.Text.{Text, codes, text_eq}
use gitops_dashboard.Alerts.Types.{Store}
use gitops_dashboard.Evaluator.Types.{
  ScanBaseline, TerminalScan, scan_failure_event, scan_recovery_event,
}
use gitops_dashboard.Evaluator.Handlers.{
  Surroundings, send, handle_scan_failed, handle_scan_recovered, evaluate_scan,
}
use gitops_dashboard.Evaluator.Phases.{Notice, Transition}
use gitops_dashboard.Evaluator.Effects.{
  flags_fit, scan_fits, sending-cases, unmoved, silent, ScanEvaluated, scan_baseline,
}

failed-refines :
    (around : Surroundings) (name : Text) (scan : TerminalScan) (store : Store)
    → ScanEvaluated around name
        (scan_baseline true true false)
        store
        (handle_scan_failed around name scan (scan_baseline true true false) store)
unfolding handle_scan_failed scan_failure_event
failed-refines around name scan store =
    elim (sending-cases (send around (scan_failure_event name scan) store)) [
      | inl (s, x, e) ↦ rw e (
        refl,
        record {
          notice = some Notice.failure;
          transition = Transition.fail;
          effect = (_, x, (refl, refl), e);
        },
      )
      | inr (s, x, e) ↦
          rw e
            (refl, record { notice = none; transition = Transition.stay; effect = inr (_, x, e) })
    ]

recovered-refines :
    (around : Surroundings) (name : Text) (scan : TerminalScan) (h : Bool) (store : Store)
    → ScanEvaluated around name
        (scan_baseline true false h)
        store
        (handle_scan_recovered around name scan (scan_baseline true false h) store)
unfolding handle_scan_recovered scan_recovery_event
recovered-refines around name scan false store = (refl, silent around _ Transition.silent_recovery)
recovered-refines around name scan true store =
    elim (sending-cases (send around (scan_recovery_event name scan) store)) [
      | inl (s, x, e) ↦ rw e (
        refl,
        record {
          notice = some Notice.recovery;
          transition = Transition.recover;
          effect = (_, x, (refl, refl), e);
        },
      )
      | inr (s, x, e) ↦
          rw e
            (refl, record { notice = none; transition = Transition.stay; effect = inr (_, x, e) })
    ]

scan_flags-refine :
    (around : Surroundings) (name : Text) (scan : TerminalScan) (e o h : Bool) (store : Store)
    → flags_fit e o h ≡ true
    → ScanEvaluated around name
        (scan_baseline e o h)
        store
        (evaluate_scan around name (some scan) (scan_baseline e o h) store)
unfolding evaluate_scan
scan_flags-refine around name scan false o true store fits = cc
scan_flags-refine around name scan true true true store fits = cc
scan_flags-refine around name scan false o false store fits =
    elim (Bool-cases (text_eq scan.status (codes "ok"))) [
      | inl up ↦ rw up (refl, silent around _ Transition.first_up)
      | inr down ↦ rw down (refl, silent around _ Transition.first_down)
    ]
scan_flags-refine around name scan true true false store fits =
    elim (Bool-cases (text_eq scan.status (codes "ok"))) [
      | inl up ↦ rw up (refl, unmoved around _)
      | inr down ↦ rw down (failed-refines around name scan store)
    ]
scan_flags-refine around name scan true false h store fits =
    elim (Bool-cases (text_eq scan.status (codes "ok"))) [
      | inl up ↦ rw up (recovered-refines around name scan h store)
      | inr down ↦ rw down (fits, unmoved around _)
    ]

-- If the flags of the baseline fit, evaluateScan takes a repository from phase to phase as the
-- machine of the phases allows, keeps the flags fitting, and where the machine sends a notice the
-- event of that kind for that repository is enqueued; without a notice the store is left alone or
-- has refused an event.
pub evaluate_scan-refines :
    (around : Surroundings) (name : Text) (scan : Option TerminalScan) (b : ScanBaseline)
    (store : Store)
    → scan_fits b ≡ true
    → ScanEvaluated around name b store (evaluate_scan around name scan b store)
evaluate_scan-refines around name none b store fits =
    unfold evaluate_scan in (fits, unmoved around _)
evaluate_scan-refines around name (some scan) b store fits =
    scan_flags-refine around name scan b.established b.is_ok b.failure_handled store fits
