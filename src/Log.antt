-- ===== src/Log.antt =====
-- The structured logger (log.go), with LogLevel and LogConfig (interfaces.go).
--
-- Values of fields and arguments are texts. `sprintf` is fmt.Sprintf. The pool of maps is what
-- mapPool holds; Get takes the one that was put back last, or a new map. The pools of entries and of
-- buffers hold nothing that is read before it is written, and are left out. Writing an entry is
-- handing it to the output; failures of the encoder or the output are only printed, and left out.
pub mod Fields
use r.Common.{
  ℕ, String, Bool, true, false, Option, none, some, List, [], ◌∷◌, ◌++◌, cond, ltb, if◌then◌else◌,
}
use r.Common.Maps.{Map, store, copy_into}

pub data LogLevel : Type 0 where
  debug_level info_level warn_level error_level fatal_level : LogLevel

-- The numbers of the levels.
abbrev pub rank : LogLevel → ℕ
rank debug_level = 0
rank info_level = 1
rank warn_level = 2
rank error_level = 3
rank fatal_level = 4

abbrev pub Fields : Type 0
Fields = Map String

pub record LogEntry : Type 0 where
  pub level : LogLevel
  pub message : String
  pub fields : Fields
  pub method : String
  pub status : ℕ
  pub latency : ℕ
  pub ip : String
  pub path : String
  pub stack_trace : Bool

-- `output` says that there is one.
pub record StructuredLogger : Type 0 where
  pub output : Bool
  pub level : LogLevel
  pub fields : Fields

-- The pool of maps, and what has been written, the latest last.
pub record Sink : Type 0 where
  pub pool : List Fields
  pub written : List LogEntry

unfoldable pub new_structured_logger : Bool → LogLevel → StructuredLogger
new_structured_logger output level = record { output = output; level = level; fields = [] }

-- NewDefaultLogger writes to io.Discard.
unfoldable pub new_default_logger : StructuredLogger
new_default_logger = record { output = true; level = info_level; fields = [] }

-- `mapPool.Get()`
abbrev pub get_map : List Fields → Fields × List Fields
get_map [] = ([], [])
get_map (m ∷ pool) = (m, pool)

-- cloneFields: a map of the pool, cleared, with the logger's fields.
abbrev pub clone_fields : StructuredLogger → List Fields → Fields × List Fields
clone_fields l pool = let (taken, rest) = get_map pool in (copy_into l.fields [], rest)

-- What Log, Error, Debug and Warn do instead: the logger's fields on top of what the map holds.
abbrev pub pooled_fields : StructuredLogger → List Fields → Fields × List Fields
pooled_fields l pool = let (taken, rest) = get_map pool in (copy_into l.fields taken, rest)

-- writeEntry, and the return of the entry's map to the pool.
abbrev pub write_entry : StructuredLogger → LogEntry → List Fields → Sink → Sink
write_entry l entry rest s = record {
  pool = entry.fields ∷ rest;
  written = if l.output then s.written ++ (entry ∷ []) else s.written;
}

-- An entry with a message.
abbrev pub note : LogLevel → String → Fields → Bool → LogEntry
note level message fields stack = record {
  level = level;
  message = message;
  fields = fields;
  method = "";
  status = 0;
  latency = 0;
  ip = "";
  path = "";
  stack_trace = stack;
}

-- Log
unfoldable pub log : String → ℕ → ℕ → String → String → StructuredLogger → Sink → Sink
log method status latency ip path l s =
    let (fields, rest) = pooled_fields l s.pool in
    write_entry l
      (record {
        level = info_level;
        message = "";
        fields = fields;
        method = method;
        status = status;
        latency = latency;
        ip = ip;
        path = path;
        stack_trace = false;
      })
      rest s

-- The loop of Info over its arguments, two at a time.
abbrev pub add_args : List String → Fields → Fields
add_args (key ∷ value ∷ args) fields = add_args args (store fields key value)
add_args _ fields = fields

-- Info: the message as it is, and the arguments as fields.
unfoldable pub info : String → List String → StructuredLogger → Sink → Sink
info msg args l s =
    let (fields, rest) = clone_fields l s.pool in
    write_entry l (note info_level msg (add_args args fields) false) rest s

module _ (sprintf : String → List String → String) where
  -- Error: the arguments go into the message.
  unfoldable pub error : String → List String → StructuredLogger → Sink → Sink
  error msg args l s =
      let (fields, rest) = pooled_fields l s.pool in
      write_entry l (note error_level (sprintf msg args) fields true) rest s

  unfoldable pub warn : String → List String → StructuredLogger → Sink → Sink
  warn msg args l s =
      let (fields, rest) = pooled_fields l s.pool in
      write_entry l (note warn_level (sprintf msg args) fields false) rest s

  -- Debug, the one that looks at the logger's level.
  unfoldable pub debug : String → List String → StructuredLogger → Sink → Sink
  debug msg args l s =
      if ltb (rank debug_level) (rank l.level)
      then s
      else (let (fields, rest) = pooled_fields l s.pool in
          write_entry l (note debug_level (sprintf msg args) fields false) rest s)

-- WithFields, which copies; the new logger keeps the map that it took.
unfoldable pub with_fields : Fields → StructuredLogger → Sink → StructuredLogger × Sink
with_fields more l s =
    let (fields, rest) = clone_fields l s.pool in
    (record l { fields = copy_into more fields }, record s { pool = rest })

-- WithField
unfoldable pub with_field : String → String → StructuredLogger → Sink → StructuredLogger × Sink
with_field key value l s =
    let (fields, rest) = clone_fields l s.pool in
    (record l { fields = store fields key value }, record s { pool = rest })

-- With
unfoldable pub with : String → String → StructuredLogger → Sink → StructuredLogger × Sink
with key value l s = with_field key value l s

-- WithError, of the error's text
unfoldable pub with_error : String → StructuredLogger → Sink → StructuredLogger × Sink
with_error text l s = with_field "error" text l s

-- Configure
unfoldable pub configure : Bool → LogLevel → StructuredLogger → StructuredLogger
configure output level l = record l { output = output; level = level }
