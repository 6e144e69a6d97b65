-- ===== src/Coordination/Runtime/Stops.antt =====
-- What cancelling the parent does, and the retry of a node afterwards.
use forme_agent.Base.{
  ℕ, String, true, false, ◌&&◌, List, [], ◌∷◌, Option, some, none, ok, ◌≡◌, ◌≢◌, refl, sym, arith,
  string_eq, ◌==◌, contains, if◌then◌else◌, ◌<◌, ◌^◌, any, ◌∙◌,
}
use forme_agent.Base.Map.{Map, lookup, string_ord, lookup-insert, Distinct}
use forme_agent.Protocol.Kinds.{Ref}
use forme_agent.Coordination.Route.{
  RouteNode, NodeState, RouteStatus, policy_eq, status_eq, node_state_eq,
}
use forme_agent.Coordination.Budget.{or_zero}
use forme_agent.Coordination.Budget.Conservation.{reserved}
use forme_agent.Coordination.Runtime.{
  RouteRuntime, retry, retry_fresh, cancel_parent, cancel_unfinished, cancel_all, unfinished,
  is_unfinished, settle, has_state, mark, node,
}
use forme_agent.Coordination.Runtime.Moves.{cancel-unfinished_Moves}
use forme_agent.Coordination.Runtime.Accounts.{Accounts, Moves-Accounts}

-- What is left of a state once the unfinished nodes are cancelled.
unfoldable pub stopped : Option NodeState → Option NodeState
unfolding is_unfinished
stopped none = none
stopped (some x) = some (if is_unfinished x then NodeState.cancelled else x)

pub cancel-all_state :
    (ids : List String) (s : RouteRuntime) (k : String)
    → lookup k (cancel_all ids s).states
      ≡ (if contains ids k then some NodeState.cancelled else lookup k s.states)
unfolding cancel_all settle contains
cancel-all_state [] s k = refl
cancel-all_state (id ∷ ids) s k = ground (
  arith,
  cancel-all_state ids (settle id NodeState.cancelled s) k,
  lookup-insert k id NodeState.cancelled s.states,
)

unfinished_missing :
    (m : Map String NodeState) (k : String) → lookup k m ≡ none → contains (unfinished m) k ≡ false
unfolding unfinished lookup contains
unfinished_missing [] k e = refl
unfinished_missing ((id, x) ∷ m) k e = ground (arith, unfinished_missing m k)

unfinished_state :
    (m : Map String NodeState) (k : String)
    → Distinct m
    → (if contains (unfinished m) k then some NodeState.cancelled else lookup k m)
      ≡ stopped (lookup k m)
unfolding unfinished lookup contains stopped Distinct
unfinished_state [] k d = refl
unfinished_state ((id, x) ∷ m) k (n, d) =
    ground (arith, n, unfinished_missing m id, unfinished_state m k d)

pub cancel-all_frame :
    (ids : List String) (s : RouteRuntime)
    → ((cancel_all ids s).status ≡ s.status)
      × ((cancel_all ids s).route ≡ s.route)
      × ((cancel_all ids s).attempts ≡ s.attempts)
      × ((cancel_all ids s).intent_attempts ≡ s.intent_attempts)
unfolding cancel_all settle
cancel-all_frame [] s = (refl, refl, refl, refl)
cancel-all_frame (id ∷ ids) s = cancel-all_frame ids (settle id NodeState.cancelled s)

stopped_idle : (o : Option NodeState) → stopped o ≢ some NodeState.running
unfolding stopped is_unfinished
stopped_idle none p = cc
stopped_idle (some NodeState.pending) p = cc
stopped_idle (some NodeState.running) p = cc
stopped_idle (some NodeState.done) p = cc
stopped_idle (some NodeState.failed) p = cc
stopped_idle (some NodeState.cancelled) p = cc
stopped_idle (some NodeState.outcome_unknown) p = cc

none-reserved : (m : Map String ℕ) → ((k : String) → lookup k m ≡ none) → reserved m ≡ 0
unfolding reserved lookup
none-reserved [] h = refl
none-reserved ((j, n) ∷ m) h = ground (arith, h j)

-- Cancelling the parent cancels every pending or running node, leaves the others as they were, marks
-- the route as cancelled, and gives the whole budget back, in a runtime whose accounts are in order.
pub cancel-parent_stops :
    (s : RouteRuntime) (total : ℕ)
    → Distinct s.states
    → total < 2 ^ 64
    → Accounts total s.states s.budget
    → ((k : String) → lookup k (cancel_parent s).states ≡ stopped (lookup k s.states))
      × ((cancel_parent s).status ≡ RouteStatus.cancelled)
      × ((cancel_parent s).budget.remaining ≡ total)
unfolding cancel_parent cancel_unfinished
cancel-parent_stops s total d small a =
    let t : RouteRuntime = record s { status = RouteStatus.cancelled } in
    let kept : Accounts total (cancel_unfinished t).states (cancel_unfinished t).budget =
      Moves-Accounts total small (cancel-unfinished_Moves t d) a in
    let empty : reserved (cancel_unfinished t).budget.reservations ≡ 0 =
      none-reserved (cancel_unfinished t).budget.reservations
        (λ k. kept.others_hold_none k (λ p. stopped_idle (lookup k s.states) (sym (at k) ∙ p))) in
    (at, (cancel-all_frame (unfinished s.states) t).0, ground (arith, kept.conserved, empty))
  where
    at :
        (k : String)
        → lookup k
            (cancel_all (unfinished s.states) (record s { status = RouteStatus.cancelled })).states
          ≡ stopped (lookup k s.states)
    at k =
        cancel-all_state (unfinished s.states) (record s { status = RouteStatus.cancelled }) k
        ∙ unfinished_state s.states k d

-- A route that the parent cancelled runs again, and the node is pending, after a retry of a failed
-- node with attempts left, under an intent not used before.
pub retry_resumes :
    (s : RouteRuntime) (id : String) (intent : Ref) (n : RouteNode)
    → Distinct s.states
    → lookup id s.states ≡ some NodeState.failed
    → node s id ≡ ok n
    → or_zero (lookup id s.attempts) < n.retry.max_attempts
    → any (λ k. k.0 == id && k.1 == intent) s.intent_attempts ≡ false
    → ((retry id intent true (cancel_parent s)).0.status ≡ RouteStatus.running)
      × (lookup id (retry id intent true (cancel_parent s)).0.states ≡ some NodeState.pending)
unfolding retry retry_fresh mark has_state cancel_parent cancel_unfinished node stopped
    is_unfinished
retry_resumes s id intent n d f k few fresh =
    let t : RouteRuntime = record s { status = RouteStatus.cancelled } in
    let u : RouteRuntime = cancel_all (unfinished s.states) t in
    let (_, route, attempts, intents) = cancel-all_frame (unfinished s.states) t in
    let failed : lookup id u.states ≡ some NodeState.failed =
      ground
        (arith, cancel-all_state (unfinished s.states) t id, unfinished_state s.states id d, f) in
    let known : node u id ≡ ok n = ground (arith, k, route) in
    resumed u (ground (arith, attempts, few)) failed known (ground (arith, intents, fresh))
  where
    resumed :
        (u : RouteRuntime)
        → or_zero (lookup id u.attempts) < n.retry.max_attempts
        → lookup id u.states ≡ some NodeState.failed
        → node u id ≡ ok n
        → any (λ k. k.0 == id && k.1 == intent) u.intent_attempts ≡ false
        → ((retry id intent true u).0.status ≡ RouteStatus.running)
          × (lookup id (retry id intent true u).0.states ≡ some NodeState.pending)
    resumed u few failed known fresh =
        ground (arith, few, failed, known, fresh, lookup-insert id id NodeState.pending u.states)
