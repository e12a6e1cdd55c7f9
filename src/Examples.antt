-- ===== src/Examples.antt =====
-- The theorems at concrete inputs, and runs of the definitions.
mod HostSlotRuns
mod LineBufferRuns
mod NotificationRuns
mod WebSocketRuns
mod GuestRuns
mod JobRuns
mod NoticeRuns
mod RemoteRuns
mod ConfigRuns
mod PowerShellRuns
mod InventoryRuns
mod DeploymentRuns
mod WorkerRuns
mod CollectionRuns
