-- ===== src/Lib.antt =====
-- Verification of the Aether-V server (server/app), the service that manages Hyper-V hosts and
-- virtual machines. The parts interact as follows: the HTTP routes submit jobs to the job service;
-- the job service runs each job by a command on a host, through the remote task service, takes the
-- command's output apart by its line buffers, serialises the disk-heavy jobs of a host by its host
-- slots, and tells the users by the notification service and the WebSocket connection manager.
--
-- Files and the code that they model:
-- Prelude and its children: shared notation, lists, Python's dict in insertion order, JSON values.
-- Jobs/LineBuffer, Jobs/Chunks: `_SimpleLineBuffer` of server/app/services/job_service.py. A text is
--   the list of its code points. The loop of `push` has the buffer's length for fuel, which is
--   enough because every round takes at least the line feed off; `extract_lem` proves it.
-- Jobs/HostSlots and its children: `_acquire_host_slot` and `_release_host_slot`. The code between
--   two waits is one function, since it runs under the service's lock; System has the jobs'
--   coroutines as a step relation, in which any job may come, wake or leave next. That a waiting
--   task is cancelled is not a step of it.
-- Notifications and its children: server/app/services/notification_service.py with the models of
--   server/app/core/models.py. Ids of `uuid4` and times are arguments. A broadcast that the service
--   schedules is an entry of a list. The dummy data, and the text of the report on the configuration
--   checks, are arguments.
-- Jobs/Redaction: `_redact_sensitive_parameters` over JSON values of any depth.
-- Jobs/Service: the job store. A job is a record, the store a dict of them; what the service tells the
--   other components is a list of calls, the newest last. Agent has a command at a host, from its
--   chunks to its result; Intake has the submit functions and Process `_process_job`. What the host does,
--   the `json` module and the messages of Pydantic are arguments; so is the metadata of NIC and disk
--   jobs, and, in Process, the execution of a managed deployment. Deployment has that execution: its
--   stages in a monad of errors, and the wait for a child job, in which other tasks may do anything to
--   the store between two polls; the list of polls may end before the wait does. A log of what the
--   submissions and the waits for child jobs return stands beside the store. Children has the
--   summaries of child jobs and the metrics. Notices has the texts of notifications, and delivers the
--   calls to the notification service; a text is written as a string by an argument there. One
--   worker's run of a job is one function: how the jobs of several workers take turns is in
--   Jobs/HostSlots.
-- Jobs/Workers and its children: the six worker tasks as a step relation, with a deployment that holds
--   its worker while it waits for a child job. A job is the number of child jobs that it queues.
-- WebSockets and its children: `ConnectionManager` of server/app/services/websocket_service.py. Which
--   sockets are broken is an argument of every call. The asyncio lock makes each update one step.
-- RemoteTasks and its children: server/app/services/remote_task_service.py, from a start to the next
--   stop. The coroutines of the tasks are a step relation, in which any task that waits may be the
--   next to get a lock or a permit, so the order in which asyncio serves them is not assumed. A task
--   that ends by its timeout is counted as ended, as the code does; its thread may still run then.
-- GuestConfig and its child: `GuestConfigSpec` of server/app/core/pydantic_models.py and
--   server/app/core/guest_config_generator.py.
-- ConfigChecks and its children: `run_config_checks` of server/app/core/config_validation.py. An issue is
--   a constructor in place of its message and hint; the regular expression of Kerberos principals is
--   three functions, one for each part of a principal.
-- PowerShell and its child: `_ps_literal` of server/app/services/job_service.py and of
--   server/app/services/host_deployment_service.py with `_ps_array_literal`, `_ps_single_quote` of
--   server/app/services/vm_control_service.py, `_ps_quote` of server/app/services/winrm_service.py.
-- Inventory and its children: server/app/services/inventory_service.py. A machine is an object at an
--   address, so that `vms` and `vms_by_id` share it; the notifications are a list of calls. Machines
--   has the tables of machines, Readiness the preparing and slow hosts, Snapshots, Prune and Refresh
--   the refresh, Clusters the clusters, JobVms the machines of jobs and the lookups, Coercion, Parsing
--   and Collection the way from the script at a host to its machines; the loop of the collection has
--   two rounds for fuel, and `collect_loop_lem` proves that they are enough. The other files have
--   proofs. Runs has the operations as steps in any order, as the tasks of the service may take
--   them. What a host answers, whether it is prepared and the times are arguments; a duration is in
--   milliseconds and the average is compared by its product with the number of samples. Letters
--   change their case in ASCII only. Start, stop and the bootstrap are not modelled.
-- Examples and its children: the theorems at concrete inputs, and runs of the definitions.
--
-- Not modelled: network and process I/O (WinRM, Kerberos, OIDC), the HTTP routes with their
--   authentication, the deployment of the host scripts, host resources but for the check of names, the
--   update checker, VM control but for its quoting, the reading of settings, logging, and what only
--   formats messages. Of the job service and the remote task service
--   the stop, of the inventory service the start and the stop.
mod Prelude
pub mod Jobs
pub mod Notifications
pub mod WebSockets
pub mod GuestConfig
pub mod RemoteTasks
pub mod ConfigChecks
pub mod PowerShell
pub mod Inventory
mod Examples
