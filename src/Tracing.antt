-- ===== src/Tracing.antt =====
-- `New` of src/tools/tracing: what is traced, and what is to be shut down at the end. The exporter and
-- the provider are those of OpenTelemetry.
use aggregator_demo.Base.{Option, none, some, [], ◌∷◌}
use aggregator_demo.Base.Text.{Text}
use aggregator_demo.Entity.{Error}

-- A tracer that writes nothing, or one that exports to an endpoint.
pub data Tracer : Type 0 where
  nop : Tracer
  exporting : Text → Tracer

-- `noShutdown`, which does nothing, or `Shutdown` of the provider.
pub data Shutdown : Type 0 where
  no_shutdown : Shutdown
  provider_shutdown : Shutdown

unfoldable pub exported : Text → Option Error → Tracer × Shutdown
exported endpoint (some e) = (nop, no_shutdown)
exported endpoint none = (exporting endpoint, provider_shutdown)

-- `New`, by what making the exporter gives for an endpoint.
unfoldable pub new : (Text → Option Error) → Text → Tracer × Shutdown
unfolding exported
new exporter [] = (nop, no_shutdown)
new exporter (c ∷ endpoint) = exported (c ∷ endpoint) (exporter (c ∷ endpoint))
