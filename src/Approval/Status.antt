-- ===== src/Approval/Status.antt =====
-- The status in which an approval leaves the proposal.
use mathlib.Core.Path.{subst}
use Prim.Native.String.{◌++◌ as str_append}
use mt5_ai_trading.Prelude.{
  ℕ, ◌≡◌, refl, ◌∙◌, ap, Bool, true, false, ◌&&◌, some, arith, if◌then◌else◌,
}
use mt5_ai_trading.Numeric.{Decimal}
use mt5_ai_trading.Domain.{
  TradeProposal, ProposalStatus, RiskResult, MarketSnapshot, PaperPortfolio,
}
use mt5_ai_trading.Store.{
  World, Action, Engine, Result, Reply, replied, failed, of_reply, pure, not_found, ok, err, ◌>>=◌,
  has_id, find_proposal,
}
use mt5_ai_trading.Store.Tables.{find-holds}
use mt5_ai_trading.Store.Keeps.{bind_inversion, or_throw_inversion, of_reply_inversion}
use mt5_ai_trading.Execution.Records.{ActorContext}
use mt5_ai_trading.Approval.Risk.{
  RiskDesk, RiskReply, Controls, phase_of, combine, assess, judge, judge_market, judge_answer,
  of_result, is_pass, maybe_auto_disable_kill_switch,
}
use mt5_ai_trading.Approval.Decide.{ApprovalWorkflowResult, record_approval, approve_proposal}
use mt5_ai_trading.Approval.Stored.{decided_status, pair_of, record_approval-IsStored}
use mt5_ai_trading.Approval.Run.{approval_run}

-- APPROVED if the risk engine and the phase controls both pass.
abbrev pub expected_status : RiskResult → Bool → ProposalStatus
expected_status RiskResult.pass true = ProposalStatus.approved
expected_status _ _ = ProposalStatus.risk_rejected_after_approval

combine-status :
    (e : RiskReply) (c : Controls)
    → decided_status (combine e c).result ≡ expected_status e.result c.passed
unfolding combine
combine-status e c = go e.result c.passed
  where
    go :
        (x : RiskResult) (b : Bool)
        → decided_status (if is_pass x && b then RiskResult.pass else RiskResult.reject)
          ≡ expected_status x b
    go RiskResult.pass true = refl
    go RiskResult.pass false = refl
    go RiskResult.reject b = refl

module _ {D : Decimal} where
  -- The answers behind a combined risk result.
  abbrev IsJudged : RiskDesk D → TradeProposal D → World D → RiskReply → Type 0
  IsJudged R p w x =
      (m : MarketSnapshot D) × (f : PaperPortfolio D) × (c : Controls) × (e : RiskReply)
      × (R.controls (phase_of p) p m f w ≡ ok c)
      × (R.evaluate p m f w ≡ replied e)
      × (x ≡ combine e c)

  judged_by :
      (o : Result D Controls) (s : Reply RiskReply) (w w' : World D) (x : RiskReply)
      → (of_result o >>= λ c. of_reply s >>= λ e. pure (combine e c)) w ≡ (ok x, w')
      → (c : Controls) × (e : RiskReply) × (o ≡ ok c) × (s ≡ replied e) × (x ≡ combine e c)
  judged_by (err z) s w w' x h = absurd (ground (arith, ap (λ q. q.0) h))
  judged_by (ok c) (failed m) w w' x h = absurd (ground (arith, ap (λ q. q.0) h))
  judged_by (ok c) (replied e) w w' x h = (c, e, refl, refl, ground (arith, ap (λ q. q.0) h))

  assess-IsJudged :
      (R : RiskDesk D) (E : Engine D) (p : TradeProposal D) (w w' : World D) (x : RiskReply)
      → assess R E p w ≡ (ok x, w')
      → IsJudged R p w x
  unfolding assess
  assess-IsJudged R E p w w' x h =
      let (o, asked) =
        of_reply_inversion (R.market_snapshot w.calls p.symbol) (judge_answer R E p w.calls) w w' x
          h in
      let (m, answer, priced) =
        or_throw_inversion o (not_found (str_append "Symbol not found: " p.symbol))
          (judge_market R E p w.calls) w w' x asked in
      let (f, held) = of_reply_inversion (E.paper_portfolio w.calls) (judge R p m) w w' x priced in
      let (c, e, controls, reply, same) =
        judged_by (R.controls (phase_of p) p m f w) (R.evaluate p m f w) w w' x held in
      (m, f, c, e, controls, reply, same)

  -- If `approveProposal` returns a result that is no repetition, then the phase controls and the risk
  -- engine have answered for the stored proposal, on the tables as they were; the stored proposal is
  -- then the returned one, and its status is APPROVED if both have passed, and otherwise
  -- RISK_REJECTED_AFTER_APPROVAL.
  pub approval_decided :
      (R : RiskDesk D) (E : Engine D) (id : ℕ) (a : ActorContext) (w w' : World D)
      (r : ApprovalWorkflowResult D)
      → approve_proposal R E id a w ≡ (ok r, w')
      → r.idempotent ≡ false
      → (p : TradeProposal D) × (m : MarketSnapshot D) × (f : PaperPortfolio D) × (c : Controls)
        × (e : RiskReply) × (find_proposal id w.db ≡ some p)
        × (R.controls (phase_of p) p m f w ≡ ok c)
        × (R.evaluate p m f w ≡ replied e)
        × (r.proposal.status ≡ expected_status e.result c.passed)
        × (find_proposal id w'.db ≡ some r.proposal)
  approval_decided R E id a w w' r h new =
      let run = approval_run R E id a w w' r h new in
      let p = run.proposal in
      let disable : Action D (Unit {0}) = maybe_auto_disable_kill_switch a run.risk.failed_rules in
      let (t, ended, rest) =
        bind_inversion disable (λ _. record_approval a run.request run.approver p run.risk) w w' r
          run.decided in
      let done =
        record_approval-IsStored a run.request run.approver p run.risk (disable w).1 w' r rest in
      let own : p.id ≡ id = ground (arith, find-holds (has_id id) w.db.proposals p run.found) in
      let (m, f, c, e, controls, reply, same) =
        assess-IsJudged R E p w (assess R E p w).1 run.risk (pair_of run.assessed_as) in
      (
        p,
        m,
        f,
        c,
        e,
        run.found,
        controls,
        reply,
        done.status_is ∙ ap (λ x. decided_status x.result) same ∙ combine-status e c,
        subst (λ i. find_proposal i w'.db ≡ some r.proposal) own done.stored,
      )
