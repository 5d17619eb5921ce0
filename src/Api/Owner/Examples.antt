-- ===== src/Api/Owner/Examples.antt =====
-- The status of the demo node of api/server.py.
use threshold_node.Api.Owner.{OwnerStatus, get_status}
use threshold_node.Base.{ℕ, String, true, none}
use threshold_node.Grants.Authority.Changes.{Attempt}
use threshold_node.Core.Timestamp.{aware}
use threshold_node.Api.Node.{Reply}
use threshold_node.Api.Samples.{demo_server, demo_node}
use threshold_node.Hardware.Estop.{armed}
use threshold_node.Grants.Authority.Samples.{good_ends, second_attempt}

abbrev same_attempt : String → Attempt
same_attempt k = second_attempt

abbrev status_reply : Reply ℕ OwnerStatus
status_reply = get_status demo_server good_ends same_attempt (aware 0) demo_node

abbrev demo_status : OwnerStatus
demo_status = record {
  latched_appliance = true;
  interlock_state = armed;
  display = record { state = "ARMED"; agent = none };
  active_grants = 1;
}
