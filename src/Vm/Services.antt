-- ===== src/Vm/Services.antt =====
-- What the VM service calls in other packages of the repository, as the interface that it relies
-- on: cloning (vcenter/clone.go), the network status (net/net.go), the IPAM state (ipam), and the
-- cloud-init metadata (pkg/util/machines.go, extra/config.go).
use cluster_api_provider_vsp.Prelude.{String, Option, List}
use cluster_api_provider_vsp.Errors.{Outcome}
use cluster_api_provider_vsp.Api.{VsphereVm, NetworkStatus}
use cluster_api_provider_vsp.World.{Trace, MoRef}
use cluster_api_provider_vsp.Vm.Context.{IpamState}

pub record Services : Type 0 where
  -- the bootstrap data and its format go into the clone spec; the answer is the clone task
  pub clone : Trace → VsphereVm → Option String → String → Outcome String
  pub network_status : Trace → MoRef → Outcome (List NetworkStatus)
  pub ipam_state : Trace → VsphereVm → List NetworkStatus → Outcome IpamState
  pub machine_metadata : VsphereVm → IpamState → List NetworkStatus → Outcome String
  pub existing_metadata : Trace → MoRef → Outcome String
