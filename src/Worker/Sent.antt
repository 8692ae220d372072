-- ===== src/Worker/Sent.antt =====
-- worker_runtime.py: what sending and recording leave as it was.
use cyber_hive.Prelude.{
  string_eq, nat_eq, Result-cases, ℕ, String, ◌≡◌, refl, inl, inr, Option, some,
}
use cyber_hive.Plan.Metadata.{Fields, end}
use cyber_hive.Channel.Envelope.{
  node_to_controller, ChannelPurpose, action_result, direction_eq, purpose_eq,
  SignedChannelEnvelope, Crypto,
}
use cyber_hive.Channel.Guard.{ChannelVerification, key_eq, build_envelope}
use cyber_hive.Agent.Node.{Python, action_eq, denied, ResultMetadata, AgentActionResult}
use cyber_hive.Worker.Payload.{Job, result_payload}
use cyber_hive.Worker.Processing.{send, conclude, refuse}
use cyber_hive.Worker.Runtime.{
  WorkerEnvelopeStatus, refused, Draws, NodeWorkerRuntime, next_of, recorded, synthetic_result,
}
use cyber_hive.Resource.{ResourceReservation}

-- the guard, the handlers, the policy and the world of the node
pub record SameNode {W : Type 0} (w w' : NodeWorkerRuntime W) : Type 0 where
  pub same_guard : w'.resource_guard ≡ w.resource_guard
  pub same_world : w'.world ≡ w.world
  pub same_handlers : w'.handlers ≡ w.handlers
  pub same_policy : w'.policy ≡ w.policy

pub SameNode-refl : {W : Type 0} (w : NodeWorkerRuntime W) → SameNode w w
SameNode-refl w = record {
  same_guard = refl;
  same_world = refl;
  same_handlers = refl;
  same_policy = refl;
}

module _ {W : Type 0} (c : Crypto Fields) (py : Python) (render : ResultMetadata → Fields) where
  pub send-SameNode :
      (w : NodeWorkerRuntime W) (purpose : ChannelPurpose) (payload : Fields)
      (correlation : Option String) (id : String) (now : ℕ)
      → SameNode w (send c py render w purpose payload correlation id now).0
  unfolding send
  send-SameNode w purpose payload correlation id now =
      elim (Result-cases (
        build_envelope c w.node_id w.session_id node_to_controller purpose (next_of w purpose)
          payload w.session_token now (some 300) correlation end id)) [
            | inl (x, e) ↦
                rw (e, send)
                  (record {
                    same_guard = refl;
                    same_world = refl;
                    same_handlers = refl;
                    same_policy = refl;
                  })
            | inr (x, e) ↦
                rw (e, send)
                  (record {
                    same_guard = refl;
                    same_world = refl;
                    same_handlers = refl;
                    same_policy = refl;
                  })
          ]

  pub conclude-SameNode :
      (w : NodeWorkerRuntime W) (e : SignedChannelEnvelope Fields) (v : ChannelVerification)
      (a : SignedChannelEnvelope Fields) (status : WorkerEnvelopeStatus)
      (result : AgentActionResult) (reservation : Option ResourceReservation) (draws : Draws)
      (now : ℕ)
      → SameNode w (conclude c py render w e v a status result reservation draws now).0
  unfolding conclude recorded
  conclude-SameNode w e v a status result reservation draws now =
      let payload = result_payload render e result reservation in
      let kept = send-SameNode w action_result payload e.correlation_id draws.result_id now in
      elim (Result-cases
        (send c py render w action_result payload e.correlation_id draws.result_id now).1) [
          | inl (x, f) ↦ rw (f, conclude) kept
          | inr (x, f) ↦
              rw (f, conclude)
                (record {
                  same_guard = kept.same_guard;
                  same_world = kept.same_world;
                  same_handlers = kept.same_handlers;
                  same_policy = kept.same_policy;
                })
        ]

  pub refuse-SameNode :
      (e : SignedChannelEnvelope Fields) (v : ChannelVerification)
      (a : SignedChannelEnvelope Fields) (job : Job) (draws : Draws) (now : ℕ)
      (w : NodeWorkerRuntime W) (why : String) (reservation : Option ResourceReservation)
      → SameNode w (refuse c py render w e v a job why reservation draws now).0
  unfolding refuse
  refuse-SameNode e v a job draws now w why reservation =
      conclude-SameNode w e v a refused
        (synthetic_result w e job.action denied why draws.answer_id now) reservation draws now
