-- ===== src/Annotations/InfluxDb.antt =====
-- internal/ingress/annotations/influxdb/main.go: the parsed annotation, and its `Equal`.
use panda_k8s.Equality.{IsEquiv, on, ◌&◌, ==-IsEquiv, beq-IsEquiv}
use panda_k8s.Prelude.{String, Bool, ◌==◌, beq, ◌&&◌}

pub record Config : Type 0 where
  pub influx_db_enabled : Bool
  pub influx_db_measurement : String
  pub influx_db_port : String
  pub influx_db_host : String
  pub influx_db_server_name : String

-- `Equal`, on two objects
unfoldable pub equal : Config → Config → Bool
equal a b =
    beq a.influx_db_enabled b.influx_db_enabled
    && a.influx_db_port == b.influx_db_port
    && a.influx_db_host == b.influx_db_host
    && a.influx_db_server_name == b.influx_db_server_name

pub equal-IsEquiv : IsEquiv equal
unfolding equal
equal-IsEquiv =
    on (λ a. a.influx_db_enabled) beq-IsEquiv
    & on (λ a. a.influx_db_port) ==-IsEquiv
    & on (λ a. a.influx_db_host) ==-IsEquiv
    & on (λ a. a.influx_db_server_name) ==-IsEquiv
