-- ===== src/Store/Log/Expected.antt =====
-- Appends at an expected version.
use forme_agent.Base.{ℕ, suc, List, nat_eq, string_eq, Result, ok, ◌≡◌, ◌≢◌, sym, ap, ◌∙◌, arith}
use forme_agent.Base.Map.{Map}
use forme_agent.Protocol.Kinds.{Ref, Version}
use forme_agent.Protocol.Events.{Event}
use forme_agent.Store.Log.{LogError, version_of, Log, Prepared, Json}
use forme_agent.Store.Log.Append.{
  append_prepared, AppendOutcome, append_expected, AggregateVersion, met, ExpectedAppend,
  ExpectedAppendStatus, status_of, prepared,
}
use forme_agent.Store.Log.Changes.{Change, same, grown, append-Change}
use forme_agent.Store.Log.History.{version-Grown}
use forme_agent.Store.Log.Calls.{
  Call, run_calls, calls-version, ExpectedCase, fails, conflicts, goes, append-expected_case,
}
use forme_agent.Store.Log.Once.{prepared_same}

module _ (j : Json) (schema : Map Ref Version) where
  -- An append that was applied raises the version by one.
  applied_raises :
      (e : Event) (value : ℕ) (p : Prepared) (l after : Log) (out : AppendOutcome)
      → prepared j schema e ≡ ok p
      → append_prepared p l ≡ ok (after, out)
      → version_of e.run_id l.events ≡ value
      → (met value out).status ≡ ExpectedAppendStatus.applied
      → version_of e.run_id after.events ≡ suc value
  unfolding met status_of
  applied_raises e value p l after out a b v s = split (append-Change p l after out b)
    where
      split : Change p l after out → version_of e.run_id after.events ≡ suc value
      split (same q f d) = absurd (ground (arith, d, s))
      split (grown g f w) =
          ground (arith, (prepared_same j schema e p a).0, v, version-Grown p l after e.run_id g)

  raised :
      (database : Result LogError (Unit {0})) (e : Event) (expected : AggregateVersion) (l : Log)
      (r : ExpectedAppend)
      → (append_expected j schema database e expected l).1 ≡ ok r
      → r.status ≡ ExpectedAppendStatus.applied
      → version_of expected.aggregate (append_expected j schema database e expected l).0.events
        ≡ suc expected.value
  raised database e expected l r h s = split (append-expected_case j schema database e expected l)
    where
      split :
          ExpectedCase j schema database e expected l
          → version_of expected.aggregate (append_expected j schema database e expected l).0.events
            ≡ suc expected.value
      split (fails x q) = absurd (ground (arith, q, h))
      split (conflicts t q c) = absurd (ground (arith, q, h, c, s))
      split (goes p after out v i a b q) =
          let same_report : met expected.value out ≡ r = ground (arith, q, h) in
          let up =
            applied_raises e expected.value p l after out a b v
              (ap (λ t. t.status) same_report ∙ s) in
          ground (arith, q, up, ap (λ t. version_of t after.events) i)

  past_conflicts :
      (database : Result LogError (Unit {0})) (e : Event) (expected : AggregateVersion) (l : Log)
      (r : ExpectedAppend)
      → version_of expected.aggregate l.events ≢ expected.value
      → (append_expected j schema database e expected l).1 ≡ ok r
      → r.status ≡ ExpectedAppendStatus.conflict
  past_conflicts database e expected l r n h =
      split (append-expected_case j schema database e expected l)
    where
      split : ExpectedCase j schema database e expected l → r.status ≡ ExpectedAppendStatus.conflict
      split (fails x q) = absurd (ground (arith, q, h))
      split (conflicts t q c) =
          let same_report : t ≡ r = ground (arith, q, h) in ap (λ t. t.status) (sym same_report) ∙ c
      split (goes p after out v i a b q) = absurd (n (ap (λ t. version_of t l.events) (sym i) ∙ v))

  -- Of the appends at one version of a run at most one is applied: whatever calls come after it, each
  -- later append at the same version that does not fail is a conflict.
  pub expected_once :
      (database after : Result LogError (Unit {0})) (e f : Event) (expected : AggregateVersion)
      (l : Log) (first second : ExpectedAppend) (cs : List Call)
      → (append_expected j schema database e expected l).1 ≡ ok first
      → first.status ≡ ExpectedAppendStatus.applied
      → (append_expected j schema after f expected
          (run_calls j schema cs (append_expected j schema database e expected l).0)).1
        ≡ ok second
      → second.status ≡ ExpectedAppendStatus.conflict
  expected_once database after e f expected l first second cs h s t =
      let up = raised database e expected l first h s in
      let later =
        calls-version j schema cs (append_expected j schema database e expected l).0
          expected.aggregate in
      past_conflicts after f expected
        (run_calls j schema cs (append_expected j schema database e expected l).0) second
        (λ q. ground (arith, up, later, q)) t
