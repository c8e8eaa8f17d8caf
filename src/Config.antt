-- ===== src/Config.antt =====
-- src/link/config/models.py: the configuration of the agent and of its pipelines.
use locai_link.Base.{String, Bool, Option, List}
use locai_link.Json.{Json, String-discrete, Json-discrete}
use locai_link.Dict.{Dict}

pub record GenericConfig : Type 0 where
  pub type : String
  pub args : Dict Json

pub record PipelineConfig : Type 0 where
  pub id : String
  pub active : Bool
  pub source : GenericConfig
  pub sink : Option GenericConfig

pub record IdentityConfig : Type 0 where
  pub device_id : String
  pub device_name : String
  pub api_url : Option String
  pub api_key : Option String

-- The logging and reporting sections are only passed on.
pub record AgentConfig : Type 0 where
  pub version : String
  pub identity : IdentityConfig
  pub transport : Option GenericConfig
  pub logging : Json
  pub reporting : Json
  pub pipelines : List PipelineConfig

-- SCHEMA_VERSION
abbrev pub schema_version : String
schema_version = "2.1"

pub GenericConfig-discrete : Discrete GenericConfig
GenericConfig-discrete = hlevel (String-discrete, Json-discrete)

pub PipelineConfig-discrete : Discrete PipelineConfig
PipelineConfig-discrete = hlevel (String-discrete, GenericConfig-discrete)
