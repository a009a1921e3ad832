-- ===== src/Agent/Lines/Laws.antt =====
-- The length of a list item.
use cogito_ai.Prelude.Text.{Text, text, trim, trim_start_matches}
use cogito_ai.Agent.Bounded.Laws.{IsSummary, len-bounded_summary-le}
use cogito_ai.Agent.Lines.{is_bullet, without_number, split_once, plan_item}

pub plan_item-IsSummary : (line : Text) → IsSummary (plan_item line)
unfolding plan_item
plan_item-IsSummary line =
    let value = trim (trim_start_matches is_bullet (trim line)) in
    len-bounded_summary-le (without_number value (split_once (text ". ") value))
