-- ===== src/Examples/Workers.antt =====
-- worker_runtime.py at concrete inputs: a node that gets one signed prewarm.
use Prim.Native.String.{◌++◌ as str_append}
use cyber_hive.Prelude.{
  if◌then◌else◌, string_eq, nat_eq, ok, is_empty, ℕ, String, ◌≡◌, refl, ◌⊎◌, true, none, some, [],
}
use cyber_hive.Prelude.Dict.{get}
use cyber_hive.Plan.Metadata.{null, text, mapping, Fields, end, field}
use cyber_hive.Channel.Envelope.{
  controller_to_node, action, direction_eq, purpose_eq, SignedChannelEnvelope, Crypto,
}
use cyber_hive.Channel.Guard.{ChannelVerification, is_accepted, key_eq, verify}
use cyber_hive.Agent.Node.{action_eq, ResultMetadata}
use cyber_hive.Worker.Processing.{process_action_envelope}
use cyber_hive.Worker.Runtime.{Draws, NodeWorkerRuntime}
use cyber_hive.Worker.Restored.{SameActive, process_action_envelope-SameActive}
use cyber_hive.Worker.Cleared.{Cleared, process_action_envelope-Cleared}
use cyber_hive.Examples.Agents.{toy_python, counters}

abbrev or_dash : String → String
or_dash s = if is_empty s then "-" else s

abbrev field_crypto : Crypto Fields
field_crypto = record {
  canonical_json = λ p. str_append p.id (str_append "/" p.node_id);
  sha256_hex = λ s. str_append "h" s;
  sha256_digest = λ s. str_append "k" s;
  hmac_sha256_hex = λ key message. or_dash (str_append key message);
}

abbrev shown : ResultMetadata → Fields
shown m = end

abbrev prewarm_payload : Fields
prewarm_payload =
    field "action" (text "prewarm_model")
      (field "dry_run" null (field "payload" (mapping (field "model_id" (text "llama") end)) end))

abbrev received : SignedChannelEnvelope Fields
received = record {
  node_id = "edge-1";
  session_id = "ses_1";
  direction = controller_to_node;
  purpose = action;
  sequence = 1;
  payload = prewarm_payload;
  issued_at = 5000000;
  expires_at = some 65000000;
  correlation_id = none;
  metadata = end;
  signature = some "ktokenmsg_1/edge-1";
  id = "msg_1";
}

abbrev edge_worker : NodeWorkerRuntime ℕ
edge_worker = record {
  node_id = "edge-1";
  session_id = "ses_1";
  session_token = "token";
  channel = record {
    registry = none;
    replay_guard = record { sequences = []; accepted_digests = [] };
    max_clock_skew_seconds = 30;
    max_message_age_seconds = 300;
    journal = [];
  };
  handlers = counters;
  world = 0;
  resource_guard = some (record {
    node_id = "edge-1";
    budget = record {
      cpu_units = 2000;
      memory_mb = 8192000;
      vram_mb = 8192000;
      io_weight = 1000;
      max_concurrent = 2;
    };
    active = [];
    journal = [];
  });
  policy = record {
    send_ack_before_handle = true;
    require_resource_guard = true;
    max_result_payload_bytes = 65536;
  };
  outcomes = [];
  outbox = [];
  next_sequence = [];
}

abbrev drawn : Draws
drawn = record {
  ack_id = "msg_2";
  result_id = "msg_3";
  request_id = "aar_1";
  answer_id = "aas_1";
  reservation_id = "res_1";
  outcome_id = "out_1";
}

process_action_envelope-SameActive_example :
    SameActive edge_worker.resource_guard
      (process_action_envelope field_crypto toy_python shown edge_worker received drawn 6000000
        6000001).0.resource_guard
unfolding get
process_action_envelope-SameActive_example =
    process_action_envelope-SameActive field_crypto toy_python shown edge_worker received drawn
      6000000 6000001 refl

process_action_envelope-Cleared_example :
    let w' =
      (process_action_envelope field_crypto toy_python shown edge_worker received drawn 6000000
        6000001).0 in
    (w'.world ≡ 0)
    ⊎ ((v : ChannelVerification) × ((verify field_crypto edge_worker.channel received "token"
            (some controller_to_node)
            (some action)
            6000000
            6000001).1
          ≡ ok v)
        × (is_accepted v ≡ true)
        × Cleared field_crypto toy_python shown edge_worker received drawn 6000000 w')
process_action_envelope-Cleared_example =
    process_action_envelope-Cleared field_crypto toy_python shown edge_worker received drawn 6000000
      6000001
