-- ===== src/Server/Observability.antt =====
-- internal/server/telemetry.go and pkg/common/tracerProvider.go: the name of the service and the endpoint of
-- the exporter. The objects of the tracing library are left out.
use extend_game_telemetry_co.Prelude.{◌++◌, Text, codes, is_empty, if◌then◌else◌}
use extend_game_telemetry_co.Server.{to_lower}

-- `SetupTelemetry`, of its argument and the variable OTEL_SERVICE_NAME.
unfoldable pub service_name : Text → Text → Text
service_name given value =
    if is_empty value then given else codes "extend-app-se-" ++ to_lower value

-- `NewTracerProvider`, of the variable OTEL_EXPORTER_ZIPKIN_ENDPOINT.
unfoldable pub zipkin_endpoint : Text → Text
zipkin_endpoint value = if is_empty value then codes "http://localhost:9411/api/v2/spans" else value
