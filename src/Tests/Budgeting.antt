-- ===== src/Tests/Budgeting.antt =====
-- The budget, the retrospective and the trust ramp on concrete data.
use openronin.Common.{List, ◌≡◌, ◌++◌, refl, leb, arith, inl, inr, Bool-cases}
use openronin.Sql.{select_all, count}
use openronin.Director.Decisions.{Decision}
use openronin.Director.Types.{propose, semi_auto}
use openronin.Director.Retrospective.{
  recalibrate_budget, evaluate_trust_ramp, sample_recent_outcomes, promote_next, promote,
}
use openronin.Director.Retrospective.Bounds.{
  IsRecalibrated, IsTotal, recalibrate_budget-IsRecalibrated,
}
use openronin.Director.Retrospective.Ramp.{
  IsJustified, judged, tally, of_executed, evaluate_trust_ramp-IsJustified,
}
use openronin.Tests.Money.{cents, ten_percent, a_budget, a_ledger, five_executed}

leb_total : IsTotal cents
leb_total a b = elim (Bool-cases (leb a b)) [ inl h ↦ inl h | inr h ↦ inr (ground (arith, h)) ]

recalibrate_budget-IsRecalibrated_example :
    IsRecalibrated cents
      (a_ledger 0)
      1
      a_budget
      (recalibrate_budget cents ten_percent five_executed (a_ledger 0) 1 a_budget 1000)
recalibrate_budget-IsRecalibrated_example =
    recalibrate_budget-IsRecalibrated cents ten_percent five_executed (a_ledger 0) 1 a_budget 1000
      leb_total refl refl

-- thirty decisions that were executed
abbrev thirty : List Decision
thirty =
    five_executed ++ five_executed ++ five_executed ++ five_executed ++ five_executed
    ++ five_executed

promotes : evaluate_trust_ramp thirty 1 propose 1000 ≡ promote propose semi_auto 30
unfolding evaluate_trust_ramp sample_recent_outcomes promote_next select_all count
promotes = refl

evaluate_trust_ramp-IsJustified_example :
    IsJustified
      (judged thirty 1 1000)
      (tally of_executed thirty 1 1000)
      propose
      (evaluate_trust_ramp thirty 1 propose 1000)
evaluate_trust_ramp-IsJustified_example = evaluate_trust_ramp-IsJustified thirty 1 propose 1000
