-- ===== src/Lib.antt =====
-- The control plane of ComfyUI instances: what its database holds, and what its methods do to it.
--
-- The program is a web service. A route of app/api/routes calls one method of a service; the method
-- opens units of work on the database (app/db/unit_of_work.py), reads and writes through
-- repositories, and, for the control plane, runs the command line comfyctl through an executor and
-- parses the JSON that it prints.
--
-- - Prelude: names of the libraries, Boolean tests, lists, dicts, JSON values and texts.
-- - Db: the tables of app/models/item.py and app/models/comfy.py, each the list of its rows.
-- - Uow: app/db/unit_of_work.py. A method is an action: it takes the environment and the world
--   (`committed`, what the database holds, `session`, what the open transaction sees, and a
--   counter of calls that leave the process) and gives a result and the world that it leaves.
--   `app_error` is AppError, `integrity_error` SQLAlchemy's IntegrityError, and `crash` any other
--   exception. Uow/Environment lists what comes from outside: uuid4, the clock, what other
--   requests commit between two transactions, the executor, json.loads, repr, isoformat.
-- - Items: app/repositories/item_repository.py; Items/Service: app/services/item_service.py;
--   Items/Cursor: app/db/pagination.py; Items/Listing: list_active and list_items of both.
-- - Comfy/Repository and Comfy/Repository/Runs: app/repositories/comfy_repository.py.
-- - Comfy/Config, Client, Responses, Resolve, Hosts, Instances, Launch, Runs and Operations:
--   app/services/comfy_service.py with app/services/comfy_paths.py, method by method under the
--   source's names, a leading underscore left out. Comfy/Requests: the calls that the routes of
--   app/api/routes/comfy.py make of it, and runs of several.
-- - Comfy/Coherent: what ties instances to model roots, as a promise that each transaction keeps
--   towards the others.
-- - Comfyctl/Catalog: comfyctl/catalog.py, over an accepted catalog. Comfyctl/Paths:
--   comfyctl/paths.py, where an absolute path is the list of its names.
-- - Comfyctl/Machine: what comfyctl/cli.py runs on. A machine has the files, the clock in
--   milliseconds, the signals sent and the objects printed; a command is an action on it that
--   returns, raises CommandFailure, ValueError or another exception, or has used up its fuel.
--   Machine/Printed puts the keys of what is printed in order. Platform lists the answers of the operating system, of git, uv, ps, lsof and nvidia-smi and of
--   the network, each numbered by a tick, so that an answer may differ from call to call.
-- - Comfyctl/Requirements, Tools, Processes, Install (with Prepare and Promote), Start, Stop,
--   Status, Probe (with CudaVersion) and Main: comfyctl/cli.py function by function; the modules
--   below them are about what they do. Comfyctl/Contract: how each
--   command ends and what it prints. Comfyctl/Sample and Witnesses: a platform, and the theorems
--   at concrete inputs.
-- - Lifecycle: app/core/lifecycle.py, the registries of providers and of health checks, where the
--   calls of providers are listed in order, and an error is an Exception or, like CancelledError,
--   a BaseException that `except Exception` lets pass.
-- - Errors: app/core/error_registry.py with its table, and error_envelope of
--   app/schemas/envelope.py; Errors/Service: the codes that the methods of ComfyService raise, and
--   Errors/Service/CommandLine: the service over the command line.
-- - Fixture and the modules named Tests: a small environment, runs, and the theorems at concrete
--   inputs.
--
-- Bounds: a loop of the code over a list is structural recursion here. The two loops of comfyctl
-- that wait for a process, await_port and await_end, run on fuel: a round sleeps for 200
-- milliseconds or more, and a two hundredth of the timeout and two more rounds are given, so that
-- the deadline passes first. Fuel appears twice more: the digits of a number are read with one more
-- than the number, which is enough since each step divides by ten, and a client that reads page
-- after page does so at most as often as it is told.
--
-- Not modelled: a transaction is taken to be serializable, so that other requests commit only
-- between two of them. The indexes, checks, and foreign keys of the tables refuse a statement
-- that would break them; the lengths of text columns and the range of INTEGER do not. A number of
-- JSON is its text and whether it is zero. A time is a number. `dict()` of a list of pairs
-- raises. The validators of the request schemas are left out: the theorems hold of any request.
-- The routes, the executors, logging, the migrations and the scripts are I/O around these parts.
-- build_parser of comfyctl/cli.py is a declaration to argparse: the model begins at what it
-- returns. In a run of comfyctl a port and a timeout are not negative, times are whole
-- milliseconds, the clock does not go back, the files have no symbolic links, a write is whole or
-- refused, and a character outside ASCII is no digit and no letter with a lower case. A
-- cancellation is modelled where providers are started and shut down, and nowhere else.
pub mod Prelude
pub mod Db
pub mod Uow
pub mod Items
pub mod Comfyctl
pub mod Comfy
pub mod Lifecycle
pub mod Errors
pub mod Fixture
