-- ===== src/Gateway/Server.antt =====
-- The state of the gateway (app/gateway/routes.py): the tables and the running tasks, and what it
-- waits for. While the target agent works, the rest of the program may run: `post` returns its
-- answer with the state in which the request goes on.
use bu_iam.Prelude.{ℕ, String}
use bu_iam.Prelude.Exec.{Exec}
use bu_iam.Protocol.{DelegationEnvelope, AgentTaskResponse}
use bu_iam.Protocol.Errors.{Exception}
use bu_iam.World.{World, Action}
use bu_iam.Runtime.Tasks.{Tasks}
pub use bu_iam.Intent.Generator.{Generate, GeneratedIntent, Generator}
use bu_iam.Intent.Service.{Judge}

pub record Server : Type 0 where
  pub world : World
  pub tasks : Tasks

abbrev pub Handler : Type 0 → Type 0
Handler = Exec Exception Server

-- a method of the tables
abbrev pub on_world : {A : Type 0} → Action A → Handler A
on_world m s = ((m s.world).0, record s { world = (m s.world).1 })

-- What awaiting the target comes to: its response, the text of a `CancelledError`, the status and
-- the text of an `HTTPStatusError`, the text of another `HTTPError`, or another exception.
pub data Posted : Type 0 where
  answered : AgentTaskResponse → Posted
  cancelled : String → Posted
  refused : ℕ → String → Posted
  unreachable : String → Posted
  broken : Exception → Posted

pub record Outside : Type 0 where
  pub generator : Generator
  pub judge : Judge
  -- client.post(endpoint, json=envelope), and the rest of the program meanwhile
  pub post : String → DelegationEnvelope → Server → Posted × Server
  -- the task that asyncio.create_task makes
  pub new_task : Server → ℕ
