-- ===== src/Lib.antt =====
-- Llamaste, an operating system around a language model: the logic of its agent, of its
-- authentication, and of the cluster that its nodes form.
--
-- A node runs an agent, whose tools a registry dispatches; people and programs reach it over HTTP,
-- where the authentication decides; nodes find each other by multicast DNS, keep a list of peers,
-- elect a coordinator, and choose the model that the memory of all of them can hold. The updater
-- installs packages into the inactive slot and keeps the boot variables, and a scheduler watches
-- the machine and runs tasks. The tools on files keep to the data partition, those on the
-- configuration keep its values there, and other programs reach the tools by the Model Context
-- Protocol. The Wi-Fi manager drives wpa_supplicant, a cache answers repeated questions, the
-- threads of the inference follow the CPUs, and a supervisor starts the processes again that exit.
--
-- The files, and the code that each one models (all of it below src/llamaste):
--   Prelude and its children: shared types and lemmas. A std::string is the list of its bytes.
--   Json: an entry of a JSON object as the code asks for it (missing, of another type, or there).
--   Auth: auth.h and auth.cpp, the manager's state and its configuration file. Auth/Sessions,
--     Auth/Logins, Auth/ApiKey, Auth/Headers and Auth/Check hold create_session to
--     invalidate_session, record_failed_login and is_rate_limited, verify_api_key, the reading of
--     headers, and is_authenticated; Auth/Password has what holds of the passwords.
--   Cluster: cluster.h and cluster.cpp, peers and elections. Cluster/Tiers has the models of a
--     directory and select_model, Cluster/Capacity the tensor split and analyze_capacity,
--     Cluster/Scale the product with 0.70. Cluster/Election, Cluster/Peers, Cluster/Selection and
--     Cluster/Split have what holds of them.
--   Tools: tools.h and tools.cpp, the registry. Tools/Dispatch has what holds of it.
--   Agent: agent.h and agent.cpp, ConversationState. Agent/Residue has strip_tool_call_residue,
--     Agent/Truncation what a truncation keeps, Agent/Turn agent_turn, the loop over the rounds of
--     inference and tool calls, and Agent/Rounds what a turn adds.
--   Mdns: net_mdns.h and net_mdns.cpp. Mdns/Names has the encoding of names, Mdns/Packets the
--     packets that are sent, Mdns/Parse the parser. Mdns/Safety, Mdns/Encoding, Mdns/RoundTrip,
--     Mdns/Records, Mdns/Kinds and Mdns/Discovery have what holds of them.
--   Updater: updater.h and updater.cpp, the slots and version_compare. Updater/Grubenv has
--     grubenv_parse and grubenv_serialize, Updater/Package parse_update_file, Updater/Manifest
--     parse_manifest and sha256_hex, Updater/Device detect_current_slot and the search for the
--     partition to write to, Updater/Install the steps of install_update and mark_boot_success.
--     What holds of them is in Updater/RoundTrip, Updater/Layout, Updater/Versions and
--     Updater/Authentic, with the lemmas of Updater/Writes and Updater/Parsed.
--   Scheduler: scheduler.h and scheduler.cpp. Scheduler/Alerts has check_alerts, Scheduler/Tasks
--     the operations on tasks from create_task to load_tasks, Scheduler/TaskChecks check_tasks and
--     fire_task, Scheduler/Cron compute_next_cron. Scheduler/Cooldown, Scheduler/TaskTable,
--     Scheduler/TaskFiring, Scheduler/TaskRuns and Scheduler/CronSearch have what holds of them.
--   FsTools: tools_fs.cpp, the check of paths. FsTools/Handlers has the handlers that list, read,
--     write and delete, FsTools/Search fs.search. FsTools/Canonical, FsTools/Ancestors,
--     FsTools/Confined, FsTools/Bounds and FsTools/Calls have what holds of them.
--   McpServer: mcp_server.h and mcp_server.cpp, the key and the sessions. McpServer/Rpc has
--     dispatch_rpc and the methods, McpServer/Posts handle_post. McpServer/Answers and
--     McpServer/Calls have what holds of them.
--   Text: what the components take of the C and C++ libraries to read numbers, words and lines, with
--     the lemmas of Text/Reading.
--   Wifi: wifi.h and wifi.cpp, the tables that wpa_supplicant prints. Wifi/Connect has connect,
--     disconnect, forget and clear_all_bssids, Wifi/Status the status, Wifi/Masking mask_psk.
--     Wifi/Rows, Wifi/Listing, Wifi/Sent and Wifi/Outcome have what holds of them.
--   Config: tools_config.cpp, the tools config.get, config.set, config.list and config.reset.
--     Config/Effects and Config/Listing have what holds of them.
--   ModelFiles: tools_model_download.cpp, the names of model files. ModelFiles/Shards has what holds
--     of the names of shards.
--   Child: child_main.cpp, the semantic cache and the numbers that the inference is started with.
--     Child/CacheHits, Child/CacheReads and Child/CacheBounds have what holds of the cache after any
--     calls.
--   CpuTopology: cpu_topology.h, lists of CPUs. CpuTopology/Detect has detect_cpu_topology,
--     CpuTopology/Groups the two groups by frequency. CpuTopology/RoundTrip, CpuTopology/Sets and
--     CpuTopology/Recommended have what holds of them.
--   Supervisor: supervisor.cpp, the restarts in supervisor_run. Supervisor/Format has the texts
--     for the console, Supervisor/Limits, Supervisor/Restarts, Supervisor/Reached and
--     Supervisor/BackOff what holds of the restarts.
-- The modules Tests run the theorems and the definitions at concrete inputs.
--
-- How the code is translated. State is passed on explicitly, and an object's fields are a
-- record's. The clock, the random bytes, bcrypt, std::sort, localtime and mktime, realpath, the
-- check of signatures, wpa_supplicant's replies and the file system are arguments, with what the
-- code relies on as named hypotheses. A mutex makes each operation one step. Times are
-- nanoseconds of the steady clock, or seconds of the calendar. Machine integers are written out
-- where they can wrap or round: 16-bit fields of packets, the percentages of the alerts, the hash
-- of the cache, and the product with 0.70 in Cluster/Scale. A loop without a structural bound
-- takes fuel, of which the file says why it is enough: decode_loop by the ten jumps and the bytes
-- of the packet, txt_loop by the record's length, the filter's loops and mask_from by the length
-- of the text, write_chunks by the payload's length, the loop over the ancestors of a path by its
-- length; compute_next_cron and search_recursive count their rounds and levels themselves. In Mdns
-- a read outside the packet is none, so that a result of some is also the memory safety of the
-- code.
--
-- Not modelled: the handlers of the web server and its pages, the console and the network of the
-- supervisor, what init starts, the detection of hardware but for the CPUs, the sockets and
-- threads, the interface's flags and the scan by the program iw, the transfers of a download, the
-- vendored libraries, and what the other tools do to the system.
pub mod Prelude
pub mod Json
pub mod Agent
pub mod Auth
pub mod Child
pub mod Cluster
pub mod Config
pub mod CpuTopology
pub mod FsTools
pub mod McpServer
pub mod Mdns
pub mod ModelFiles
pub mod Scheduler
pub mod Supervisor
pub mod Text
pub mod Tools
pub mod Updater
pub mod Wifi
