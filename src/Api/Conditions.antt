-- ===== src/Api/Conditions.antt =====
-- The condition types and reasons that the controllers of VSphereVMs and VSphereClusters set
-- (api/govmomi/v1beta2: condition_consts.go, vspherevm_types.go, vspherecluster_types.go), and the writes to an object's conditions. The store of conditions is
-- Cluster API's, and stays abstract.
use cluster_api_provider_vsp.Prelude.{String}
use cluster_api_provider_vsp.Errors.{Error}

-- v1beta2 condition types of a VSphereVM and a VSphereCluster
pub data ConditionType : Type 0 where
  virtual_machine_provisioned : ConditionType
  vcenter_available : ConditionType
  ip_address_claims_fulfilled : ConditionType
  guest_soft_power_off_succeeded : ConditionType
  pci_devices_detached : ConditionType
  cluster_modules_ready : ConditionType
  failure_domains_ready : ConditionType

pub data Reason : Type 0 where
  waiting_for_clone waiting_for_static_ip_allocation waiting_for_ip_allocation : Reason
  waiting_for_ip_address powering_on task_failed not_found_by_bios_uuid : Reason
  provisioned not_provisioned deleting : Reason
  claims_being_created claims_waiting_for_ip_address claims_fulfilled claims_not_fulfilled : Reason
  soft_power_off_in_progress soft_power_off_failed soft_power_off_succeeded : Reason
  pci_devices_not_found : Reason
  modules_invalid_vcenter_version modules_not_ready modules_ready modules_deleting : Reason
  domains_not_ready domains_ready domains_deleting : Reason
  vcenter_unreachable vcenter_reachable vcenter_deleting : Reason

pub data ConditionStatus : Type 0 where
  status_true status_false : ConditionStatus

-- A condition's message: none, a text named by its format string, or an error's text.
pub data Message : Type 0 where
  no_message : Message
  text : String → Message
  error_text : Error → Message

pub record Condition : Type 0 where
  pub type : ConditionType
  pub status : ConditionStatus
  pub reason : Reason
  pub message : Message

-- v1beta1 condition types and reasons
pub data V1Beta1Type : Type 0 where
  vm_provisioned_v1beta1 ip_address_claimed_v1beta1 : V1Beta1Type
  guest_soft_power_off_succeeded_v1beta1 pci_devices_detached_v1beta1 : V1Beta1Type
  cluster_modules_available_v1beta1 : V1Beta1Type
  failure_domains_available_v1beta1 vcenter_available_v1beta1 : V1Beta1Type

pub data V1Beta1Reason : Type 0 where
  waiting_for_static_ip_allocation_v1beta1 waiting_for_ip_allocation_v1beta1 : V1Beta1Reason
  cloning_v1beta1 cloning_failed_v1beta1 powering_on_v1beta1 : V1Beta1Reason
  powering_on_failed_v1beta1 not_found_by_bios_uuid_v1beta1 task_failure : V1Beta1Reason
  tags_attachment_failed_v1beta1 not_found_v1beta1 : V1Beta1Reason
  ip_address_claims_being_created_v1beta1 waiting_for_ip_address_v1beta1 : V1Beta1Reason
  ip_address_claim_not_found_v1beta1 guest_soft_power_off_in_progress_v1beta1 : V1Beta1Reason
  guest_soft_power_off_failed_v1beta1 deleting_v1beta1 deletion_failed : V1Beta1Reason
  vcenter_version_incompatible_v1beta1 cluster_module_setup_failed_v1beta1 : V1Beta1Reason
  waiting_for_failure_domain_status_v1beta1 failure_domains_skipped_v1beta1 : V1Beta1Reason
  vcenter_unreachable_v1beta1 missing_vcenter_version_v1beta1 : V1Beta1Reason

pub data Severity : Type 0 where
  info warning severe : Severity

pub data ConditionWrite : Type 0 where
  -- `conditions.Set`, `conditions.Delete`
  set : Condition → ConditionWrite
  delete : ConditionType → ConditionWrite
  -- `conditions.SetAggregateCondition`
  set_aggregate : ConditionType → ConditionWrite
  -- `MarkTrue`, `MarkFalse`, `Delete`, `SetAggregate` of the deprecated v1beta1 conditions
  mark_true : V1Beta1Type → ConditionWrite
  mark_false : V1Beta1Type → V1Beta1Reason → Severity → Message → ConditionWrite
  delete_v1beta1 : V1Beta1Type → ConditionWrite
  set_aggregate_v1beta1 : V1Beta1Type → ConditionWrite
