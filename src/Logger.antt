-- ===== src/Logger.antt =====
-- src/tools/logger over log/slog: what a record holds when a logger of the service writes it. A JSON
-- handler is what it was made with: its options, the attributes of `WithAttrs` with the groups that
-- were open, and the groups that are open now.
use aggregator_demo.Base.{
  ◌≡◌, refl, Bool, true, false, Option, none, some, List, [], ◌∷◌, ◌++◌, map, ◌==◌, text_eq,
  if◌then◌else◌,
}
use aggregator_demo.Base.Text.{Text, codes}
use aggregator_demo.Config.{Environment}

pub data Level : Type 0 where
  level_debug : Level
  level_info : Level
  level_warn : Level
  level_error : Level

pub record Attr : Type 0 where
  pub key : Text
  pub value : Text

-- An attribute and the groups that it stands in.
abbrev pub Field : Type 0
Field = List Text × Attr

abbrev pub key_trace_id : Text
key_trace_id = codes "trace_id"

abbrev pub key_span_id : Text
key_span_id = codes "span_id"

-- The ids of the span of a context, if it is valid.
pub record SpanContext : Type 0 where
  pub trace_id : Text
  pub span_id : Text

pub record JsonHandler : Type 0 where
  pub add_source : Bool
  pub level : Level
  pub fields : List Field
  pub groups : List Text

-- `traceHandler` around a handler, and the two handlers of log/slog.
pub data Handler : Type 0 where
  json_handler : JsonHandler → Handler
  discard_handler : Handler
  trace_handler : Handler → Handler

pub record Record : Type 0 where
  pub level : Level
  pub message : Text
  pub attrs : List Attr

pub record Line : Type 0 where
  pub has_source : Bool
  pub level : Level
  pub message : Text
  pub fields : List Field

abbrev in_groups : List Text → List Attr → List Field
in_groups groups attrs = map (λ a. (groups, a)) attrs

-- `WithAttrs`
unfoldable pub with_attrs : List Attr → Handler → Handler
with_attrs attrs (json_handler h) =
    json_handler (record h { fields = h.fields ++ in_groups h.groups attrs })
with_attrs attrs discard_handler = discard_handler
with_attrs attrs (trace_handler h) = trace_handler (with_attrs attrs h)

-- `WithGroup`; a logger does not call it with the empty name.
unfoldable pub with_group : Text → Handler → Handler
with_group name (json_handler h) = json_handler (record h { groups = h.groups ++ name ∷ [] })
with_group name discard_handler = discard_handler
with_group name (trace_handler h) = trace_handler (with_group name h)

unfoldable pub level_enabled : (least level : Level) → Bool
level_enabled level_debug level = true
level_enabled level_info level_debug = false
level_enabled level_info level = true
level_enabled level_warn level_warn = true
level_enabled level_warn level_error = true
level_enabled level_warn level = false
level_enabled level_error level_error = true
level_enabled level_error level = false

-- `Enabled`, which `traceHandler` takes from the handler in it.
unfoldable pub enabled : Handler → Level → Bool
unfolding level_enabled
enabled (json_handler h) level = level_enabled h.level level
enabled discard_handler level = false
enabled (trace_handler h) level = enabled h level

unfoldable pub with_trace : Option SpanContext → Record → Record
with_trace none r = r
with_trace (some sc) r = record r {
  attrs =
      r.attrs
      ++ record { key = key_trace_id; value = sc.trace_id }
        ∷ record { key = key_span_id; value = sc.span_id }
        ∷ [];
}

-- `Handle`: the line that is written, if any.
unfoldable pub handle : Option SpanContext → Handler → Record → Option Line
unfolding with_trace
handle span (json_handler h) r = some (record {
  has_source = h.add_source;
  level = r.level;
  message = r.message;
  fields = h.fields ++ in_groups h.groups r.attrs;
})
handle span discard_handler r = none
handle span (trace_handler h) r = handle span h (with_trace span r)

-- A call of a logger, such as `InfoContext`.
unfoldable pub logged : Option SpanContext → Handler → Record → Option Line
unfolding enabled handle
logged span h r = if enabled h r.level then handle span h r else none

-- `newHandler`
unfoldable pub new_handler : Environment → Handler
new_handler getenv = trace_handler (
    json_handler (record {
      add_source = true;
      level = if getenv (codes "DEBUG") == codes "true" then level_debug else level_info;
      fields = [];
      groups = [];
    }))

-- `NewDiscard`
abbrev pub new_discard : Handler
new_discard = discard_handler

-- `NewUsecaseLogger`
unfoldable pub new_usecase_logger : Handler → Text → Handler
unfolding with_attrs
new_usecase_logger parent component =
    with_attrs (record { key = codes "component"; value = component } ∷ []) parent

-- What a child logger is made by.
pub data Child : Type 0 where
  attrs : List Attr → Child
  group : Text → Child

unfoldable pub child : List Child → Handler → Handler
unfolding with_attrs with_group
child [] h = h
child (attrs a ∷ children) h = child children (with_attrs a h)
child (group [] ∷ children) h = child children h
child (group (c ∷ name) ∷ children) h = child children (with_group (c ∷ name) h)

child-trace_handler :
    (children : List Child) (h : Handler)
    → child children (trace_handler h) ≡ trace_handler (child children h)
unfolding child with_attrs with_group
child-trace_handler [] h = refl
child-trace_handler (attrs a ∷ children) h = child-trace_handler children (with_attrs a h)
child-trace_handler (group [] ∷ children) h = child-trace_handler children h
child-trace_handler (group (c ∷ name) ∷ children) h =
    child-trace_handler children (with_group (c ∷ name) h)

-- Any child of a logger with `traceHandler` writes a record as the child of the logger without it
-- writes the record with the ids of the span.
pub child-logged :
    (children : List Child) (h : Handler) (span : Option SpanContext) (r : Record)
    → logged span (child children (trace_handler h)) r ≡ (
        if enabled (child children h) r.level
        then handle span (child children h) (with_trace span r)
        else none)
unfolding logged enabled handle
child-logged children h span r = rw (child-trace_handler children h) refl

-- What a usecase logs stands in one line behind its `component`, with the ids of the span at the end;
-- it is written unless it is a debug record and `DEBUG` is not "true".
pub usecase-logged :
    (getenv : Environment) (component : Text) (span : Option SpanContext) (r : Record)
    → logged span (new_usecase_logger (new_handler getenv) component) r ≡ (
        if level_enabled
          (if getenv (codes "DEBUG") == codes "true" then level_debug else level_info)
          r.level
        then some (record {
          has_source = true;
          level = r.level;
          message = r.message;
          fields =
              ([], record { key = codes "component"; value = component })
              ∷ in_groups [] (with_trace span r).attrs;
        })
        else none)
unfolding logged new_usecase_logger new_handler enabled handle with_attrs with_trace
usecase-logged getenv component none r = refl
usecase-logged getenv component (some sc) r = refl
