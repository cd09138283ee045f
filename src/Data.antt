-- ===== src/Data.antt =====
-- common/src/data.ts: the types that the programs share. A field that may be left out (`x?: T`) is an
-- `Option`. Times are whole milliseconds.
use lil_bobby_tables_my_crt.Common.Tests.{ℕ, String, Bool, true, false, Option, List}

pub data ChildProgramType : Type 0 where
  capture replay mimic : ChildProgramType

pub data ChildProgramStatus : Type 0 where
  scheduled started starting running stopping done failed : ChildProgramStatus

pub ChildProgramStatus-discrete : Discrete ChildProgramStatus
ChildProgramStatus-discrete = hlevel

abbrev pub status_eq : ChildProgramStatus → ChildProgramStatus → Bool
status_eq scheduled scheduled = true
status_eq started started = true
status_eq starting starting = true
status_eq running running = true
status_eq stopping stopping = true
status_eq done done = true
status_eq failed failed = true
status_eq _ _ = false

abbrev pub type_eq : ChildProgramType → ChildProgramType → Bool
type_eq capture capture = true
type_eq replay replay = true
type_eq mimic mimic = true
type_eq _ _ = false

-- The fields of a child program that the modelled code reads.
pub record ChildProgram : Type 0 where
  pub type : Option ChildProgramType
  pub id : Option ℕ
  pub env_id : Option ℕ
  pub status : Option ChildProgramStatus

-- A row of the general log, with the hash that the workload storage adds.
pub record Command : Type 0 where
  pub event_time : String
  pub user_host : String
  pub thread_id : ℕ
  pub server_id : ℕ
  pub command_type : String
  pub argument : String
  pub hash : Option String

pub record Workload : Type 0 where
  pub start : String
  pub end : String
  pub commands : List Command

pub data MetricType : Type 0 where
  cpu write read memory free_storage read_throughput write_throughput : MetricType

-- A measurement; its value is a float, of which the code only copies and compares the bits.
pub record Metric (Number : Type 0) : Type 0 where
  pub timestamp : String
  pub maximum : Number
  pub unit : String

pub record MetricsList (Number : Type 0) : Type 0 where
  pub label : String
  pub type : String
  pub display_name : Option String
  pub complete : Option Bool
  pub data_points : List (Metric Number)
