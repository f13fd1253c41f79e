-- ===== src/Tests.antt =====
-- Runs of the model on small inputs, and the theorems at inputs that meet their hypotheses.
mod Samples
mod LogTests
mod ElectionTests
mod ReplicationTests
mod ServerTests
mod NotifierTests
mod StepTests
mod LoopsTests
mod BootTests
mod OutboxTests
mod WatchTests
mod CatchUpTests
mod Wiring
mod ClusterTests
mod CompletenessTests
mod AgreementTests
mod HubTests
mod ForwardTests
mod TrackerTests
mod RpcTests
mod GatewayTests
