-- ===== src/Lib.antt =====
-- Cluster API Provider vSphere: the controllers of VSphereCluster, VSphereMachine and VSphereVM
-- objects, the VM service that the last one runs on vCenter, the reconciler of the cluster modules that
-- keep the VMs of an owner apart, the controller of VirtualMachineGroups of supervisor mode, and
-- webhooks.
--
-- A VSphereMachine is the machine that Cluster API asks for. Its controller
-- (controllers/vspheremachine_controller.go) writes a VSphereVM of the machine's name through the
-- VimMachineService (pkg/services/vimmachine.go), with the failure domain's network and placement,
-- and takes over the provider ID and the addresses once the VSphereVM is ready.
--
-- A VSphereVM names a VM that is to exist. A reconcile of it (controllers/vspherevm_controller.go)
-- looks up its cluster module, and then either reconciles the claims of its IP addresses
-- (controllers/vspherevm_ipaddress_reconciler.go) and asks the VM service to bring the VM about, or
-- asks the service to destroy the VM and takes the finalizer away. The VM service
-- (pkg/services/govmomi) starts tasks of vCenter and never waits for them: it stores the reference
-- of a task in the status, returns, and looks at the task in the next reconcile.
--
--   Prelude      shared names, Boolean tests, lists, maps
--   Errors       Go errors and how the code tells them apart (pkg/services/govmomi/errors.go)
--   Exec         functions that change what they are given and may return an error, as a state
--                monad; Exec/Keeps: rules for invariants of such functions
--   Api          the fields of a VSphereVM that the code uses (api/govmomi/v1beta2), and conditions
--   World        what is called outside the repository, and the record of the calls made
--   InventoryPath, Decimal, Vmx
--                path.Join, %d, and hardware versions (pkg/util/vmx.go)
--   Vm           the VM service: Context (pkg/context/vm_context.go), Task and Find (util.go), Power
--                (power.go), Pci (pci/device.go), Update and Membership (the steps of ReconcileVM),
--                Service (ReconcileVM), Destroy (DestroyVM), Extra (extra/config.go); Services is the
--                interface to cloning, network status, IPAM state and metadata; Vm/Calls reads which
--                calls are made
--   Controller   Claims (reconcileIPAddressClaims, deleteIPAddressClaims), Service (the interface
--                VirtualMachineService, with the laws that the controller relies on, and its
--                implementation), Reconcile (reconcile, reconcileNormal, reconcileDelete)
--   Cluster      the cluster module reconciler (controllers/clustermodule_reconciler.go): Modules (the
--                fetch of the owners, and the loops), Reconcile (the whole, with its conditions); and
--                the controller of VSphereClusters (controllers/vspherecluster_reconciler.go): Object
--                (its world and state), Zones (reconcileDeploymentZones), Identity (the Secret,
--                pkg/identity), Writes (its conditions), Controller (the rest, which runs the cluster
--                module reconciler, and Session.GetVersion of pkg/session)
--   Ipam         the addresses of the devices (pkg/services/govmomi/ipam): Configs
--                (buildIPAMDeviceConfigs), Parse (parse.go), State (BuildState)
--   Machine      pkg/util/machines.go: ProviderId, Message (MachinesAsString), Metadata (the devices
--                and waits of GetMachineMetadata)
--   VimMachine   Names, Override and Desired (the VSphereVM that createOrPatchVSphereVM writes),
--                Service (VimMachineService), Controller and Reconcile (machineReconciler)
--   Group        controllers/vmware/virtualmachinegroup_reconciler.go: Names (of virtual machines,
--                pkg/util/template.go), Placement (which failure domain a MachineDeployment has),
--                Members (the desired group, and when one is created), Reconcile
--   Webhook      internal/webhooks: Machine (VSphereMachine and VSphereVM), Maps (specs as maps),
--                Vlans and Network (vmware/vspheremachine.go)
--   Tests        concrete inputs, and each theorem applied at one
--
-- Every call to vCenter, the API server or the clock, and every write to a condition, is recorded in
-- the context's trace, the newest first. The answer of a call is a function of all calls before it,
-- so that others may change anything in between: nothing relates two answers. Only the hypotheses
-- that a theorem names restrict the answers.
--
-- The cluster modules have a world of their own, with its own record of calls to the cluster module
-- service. A Go map is an association list; the order in which a loop reads it is a function of the
-- world, of which a theorem assumes at most that it reads each key once.
--
-- The reconciles of a VSphereMachine and of a VSphereCluster have worlds of their own too, whose
-- answers are functions of the calls before; the VirtualMachineGroup's reads each object once, so that
-- its world is one answer each, and its state is the list of its writes. IPAM reads claims and
-- addresses, and writes nothing. What they call is a parameter: text/template and its functions,
-- net/netip, net.ParseIP, net.ParseCIDR, semver, the feature gates, and the owner references and
-- patches of Cluster API.
--
-- Names of Kubernetes objects are ASCII, and their length in characters is that in bytes. The
-- counters of type int32 are their bit patterns in ℕ, below 2^32, and are compared as signed.
--
-- Times and durations are nanoseconds in ℕ, and 0 is the zero time. A difference of times stops at
-- 0; it is only compared with a timeout above 0, or is a time to wait, where 0 asks for no wait.
-- A text made by a format string is named by its format. Errors of called libraries are known by
-- the kind that the code tests for. Two functions are on fuel: the printing of decimals,
-- where a number has no more digits than its fuel, one more than its value, and the loop that decodes
-- base64, whose fuel is the caller's, since the loop of the source may not end.
--
-- Not modelled: cloning, network status and the rendering of metadata (with the IPAM state, they are
-- the interface Services of the VM service); the VSphereVM's outer Reconcile with its lookups,
-- summary of conditions and patch; what CreateOrPatch writes into a claim; the store of conditions,
-- which is Cluster API's; logs and events; the body of the goroutines that watch a task or the
-- network, of which the start is recorded. Of supervisor mode only the VirtualMachineGroup and one
-- webhook; of the webhooks only those of machines; of pkg/identity not the reading of credentials;
-- of pkg/session only GetVersion.
pub mod Prelude
pub mod Errors
pub mod Api
pub mod Exec
pub mod World
pub mod InventoryPath
pub mod Vmx
pub mod Decimal
pub mod Vm
pub mod Controller
pub mod Cluster
pub mod Group
pub mod Ipam
pub mod Machine
pub mod VimMachine
pub mod Webhook
pub mod Tests
